-- ===== src/Cycles/Clean.antt =====
-- The search before its first cycle: the nodes that it has finished are closed under edges and lie
-- on no cycle. A call either keeps this, and finishes its node, or reports a cycle of the graph.
use mathlib.Core.List.{reverse}
use delaxis.Prelude.{
  String, ◌==◌, eq_iff, Bool, true, false, List, [], ◌∷◌, ◌++◌, drop, contains, contains-cons_self,
  Bool-cases, ◌≡◌, refl, sym, ap, ◌∙◌, subst, inl, inr, ◌⊎◌, arith,
}
use delaxis.Prelude.Outcome.{Returns}
use delaxis.Graph.{Graph, neighbors, HasEdge, Reaches, IsChain, IsCycle}
use delaxis.Graph.Chains.{IsChain-drop_append, Reaches-first, Reaches-closed}
use delaxis.Cycles.{Search, enter, report}
use delaxis.Cycles.Frames.{Sync, Frame, index_lem, contains-reverse, off_stack, enter_lem}

-- A finished node: visited, and off the stack.
abbrev pub Black : Search → String → Type 0
Black s x = (contains x s.visited ≡ true) × (contains x s.rec_stack ≡ false)

pub record Clean (g : Graph) (s : Search) : Type 0 where
  pub none_yet : s.cycles ≡ []
  pub chain : IsChain (HasEdge g) s.path
  pub closed : (x y : String) → Black s x → HasEdge g x y → Black s y
  pub acyclic : (x : String) → Black s x → ¬ Reaches (HasEdge g) x x

-- A cycle was reported, and it is one.
pub record Reported (g : Graph) (s : Search) : Type 0 where
  pub cycle : List String
  pub only : s.cycles ≡ cycle ∷ []
  pub genuine : IsCycle (HasEdge g) cycle

-- What is known when a call or a loop ends: a cycle, or a clean state in which `ns` are finished.
abbrev pub Verdict : Graph → List String → Bool × Search → Type 0
Verdict g ns (true, s) = Reported g s
Verdict g ns (false, s) = Clean g s × ((x : String) → contains x ns ≡ true → Black s x)

pub path-same : (s t : Search) → Sync s → Sync t → t.rec_stack ≡ s.rec_stack → t.path ≡ s.path
path-same s t a b e = b.ordered ∙ ap reverse e ∙ sym a.ordered

pub Black-grows : (s t : Search) (x : String) → Frame s t false → Black s x → Black t x
Black-grows s t x f (visited, off) = (f.grows x visited, ap (contains x) (f.stack refl) ∙ off)

module _ (g : Graph) (n : String) (s : Search) (sync : Sync s) where
  pub report-Verdict :
      (ns : List String)
      → Clean g s
      → IsChain (HasEdge g) (s.path ++ n ∷ [])
      → contains n s.rec_stack ≡ true
      → Returns (report n s) (Verdict g ns)
  unfolding report
  report-Verdict ns clean chain on_stack =
      let on_path : contains n s.path ≡ true =
        ap (contains n) sync.ordered ∙ contains-reverse n s.rec_stack ∙ on_stack in
      let (i, rest, found, at) = index_lem n s.path on_path in
      rw found (record {
        cycle = drop i s.path ++ n ∷ [];
        only = ap (λ (l : List (List String)). l ++ (drop i s.path ++ n ∷ []) ∷ []) clean.none_yet;
        genuine = record {
          first = n;
          inner = rest;
          written = ap (λ (l : List String). l ++ n ∷ []) at;
          chain = IsChain-drop_append (HasEdge g) i s.path (n ∷ []) chain;
        };
      })

  module _ (fresh : contains n s.visited ≡ false) where
    Black-enter : (x : String) → Black (enter n s) x → Black s x
    unfolding contains
    Black-enter x = rw (enter_lem s n sync fresh) (λ h. ground arith)

    enter-Black : (x : String) → Black s x → Black (enter n s) x
    unfolding contains
    enter-Black x = rw (enter_lem s n sync fresh) (λ h. ground (arith, eq_iff n x))

    pub enter-Clean : Clean g s → IsChain (HasEdge g) (s.path ++ n ∷ []) → Clean g (enter n s)
    enter-Clean clean chain = record {
      none_yet = ap (λ (t : Search). t.cycles) (enter_lem s n sync fresh) ∙ clean.none_yet;
      chain = rw (enter_lem s n sync fresh) chain;
      closed = λ x y b e. enter-Black y (clean.closed x y (Black-enter x b) e);
      acyclic = λ x b. clean.acyclic x (Black-enter x b);
    }

    -- The state after `leave`, from the state that the loop over the neighbors has reached.
    module _ (s' : Search) (f : Frame (enter n s) s' false) (clean : Clean g s)
        (clean' : Clean g s')
        (done : (x : String) → contains x (neighbors g n) ≡ true → Black s' x) where
      abbrev pub left : Search
      left = record s' { path = s.path; rec_stack = s.rec_stack }

      stack : s'.rec_stack ≡ n ∷ s.rec_stack
      stack = f.stack refl ∙ ap (λ (t : Search). t.rec_stack) (enter_lem s n sync fresh)

      not-Black : ¬ Black s' n
      not-Black b = ground (arith, contains-cons_self n s.rec_stack, ap (contains n) stack)

      Black-left : (x : String) → Black s' x → Black left x
      unfolding contains
      Black-left x b = ground (arith, ap (contains x) stack)

      left-Black : (x : String) → Black left x → (x ≡ n) ⊎ Black s' x
      unfolding contains
      left-Black x b = elim (Bool-cases (n == x)) [
        | inl same ↦ inl (sym ((eq_iff n x).0 same))
        | inr other ↦ inr (b.0, ground (arith, ap (contains x) stack))
      ]

      no_cycle : ¬ Reaches (HasEdge g) n n
      no_cycle r =
          let (m, e, rest) = Reaches-first (HasEdge g) r in
          elim rest [
            | inl same ↦ not-Black (subst (Black s') same (done m e))
            | inr back ↦
                not-Black (Reaches-closed (HasEdge g) (Black s') clean'.closed back (done m e))
          ]

      pub left-Clean : Clean g left
      left-Clean = record {
        none_yet = clean'.none_yet;
        chain = clean.chain;
        closed = λ x y b e. elim (left-Black x b) [
          | inl same ↦ Black-left y (done y (subst (λ v. HasEdge g v y) same e))
          | inr old ↦ Black-left y (clean'.closed x y old e)
        ];
        acyclic = λ x b r. elim (left-Black x b) [
          | inl same ↦ no_cycle (subst (λ v. Reaches (HasEdge g) v v) same r)
          | inr old ↦ clean'.acyclic x old r
        ];
      }

      pub left-at : Black left n
      unfolding contains
      left-at = (
        f.grows n (rw (enter_lem s n sync fresh) (contains-cons_self n s.visited)),
        off_stack s n sync fresh,
      )
