-- ===== src/CycleCheck/Verdict.antt =====
-- `_has_cycle` decides whether the graph has a cycle.
use delaxis.Prelude.{
  ℕ, ◌+◌, ◌≤◌, String, Bool, true, false, List, [], ◌∷◌, ◌++◌, contains, contains-append, keys,
  Subset, length, length-append, contains-cons_self, Bool-cases, ◌≡◌, refl, ◌∙◌, inl, inr, arith,
}
use delaxis.Prelude.Outcome.{ret, Returns, Returns-and, Returns-value, Returns-weaken}
use delaxis.Graph.{Graph, targets, HasEdge, Reaches, IsAcyclic}
use delaxis.Graph.Targets.{HasEdge-targets}
use delaxis.Graph.Chains.{IsCycle→Reaches}
use delaxis.Graph.Unvisited.{unvisited, unvisited-le-length}
use delaxis.Cycles
use delaxis.Cycles.{Search, start}
use delaxis.Cycles.Frames.{Sync, Frame, Framed, dfs-Framed}
use delaxis.Cycles.Clean.{Clean, Verdict}
use delaxis.Cycles.Verdicts.{dfs-Verdict}
use delaxis.Cycles.Report.{
  Finished, extend-Finished, Finished-IsAcyclic, root-IsChain, start-Sync, start-Clean,
}
use delaxis.CycleCheck.{check_from, has_cycle}
use delaxis.CycleCheck.Simulation.{marks, dfs-InStep}

abbrev pub Decides : Graph → Bool → Type 0
Decides g true = (x : String) × Reaches (HasEdge g) x x
Decides g false = IsAcyclic (HasEdge g)

abbrev Ending : Graph → Search → List String → Bool → Type 0
Ending g s roots true = (x : String) × Reaches (HasEdge g) x x
Ending g s roots false = (t : Search) × Finished g s roots t

module _ (g : Graph) (names : List String)
    (closed : (x y : String) → HasEdge g x y → contains y names ≡ true) (fuel : ℕ)
    (enough : length names ≤ fuel) where
  extend-Ending :
      (n : String) (ns : List String) (s t : Search)
      → contains n t.visited ≡ true
      → Subset s.visited t.visited
      → (b : Bool) → Ending g t ns b
      → Ending g s (n ∷ ns) b
  extend-Ending n ns s t visited grows true e = e
  extend-Ending n ns s t visited grows false (u, done) =
      (u, extend-Finished g n ns s t u visited grows done)

  check_seen :
      (n : String) (ns : List String) (s : Search)
      → contains n s.visited ≡ true
      → check_from fuel g (n ∷ ns) (marks s) ≡ check_from fuel g ns (marks s)
  unfolding check_from
  check_seen n ns s h = ground arith

  check_fresh :
      (n : String) (ns : List String) (s : Search) (found : Bool) (t : Search)
      → contains n s.visited ≡ false
      → Cycles.dfs fuel g n s ≡ ret (found, t)
      → check_from fuel g (n ∷ ns) (marks s)
        ≡ elim found [ true ↦ ret true | false ↦ check_from fuel g ns (marks t) ]
  unfolding check_from
  check_fresh n ns s found t h e = ground (arith, dfs-InStep fuel g n s found t e)

  after_dfs :
      (n : String) (ns : List String) (s t : Search) (found : Bool)
      → Frame s t found
      → Verdict g (n ∷ []) (found, t)
      → (Frame s t false → Clean g t → Returns (check_from fuel g ns (marks t)) (Ending g t ns))
      → Returns
          (elim found [ true ↦ ret true | false ↦ check_from fuel g ns (marks t) ])
          (Ending g s (n ∷ ns))
  after_dfs n ns s t true f v next = IsCycle→Reaches (HasEdge g) v.genuine
  after_dfs n ns s t false f v next =
      Returns-weaken (check_from fuel g ns (marks t)) (Ending g t ns) _ (next f v.0)
        (extend-Ending n ns s t (v.1 n (contains-cons_self n [])).0 f.grows)

  check_from-Ending :
      (roots : List String)
      → Subset roots names
      → (s : Search) → Sync s
      → Clean g s
      → s.rec_stack ≡ []
      → Returns (check_from fuel g roots (marks s)) (Ending g s roots)
  unfolding contains
  check_from-Ending [] listed s sync clean idle =
      unfold check_from in
      (s, record { clean = clean; idle = idle; grown = λ x h. h; rooted = λ x h. ground arith })
  check_from-Ending (n ∷ ns) listed s sync clean idle =
      let here = contains-cons_self n ns in
      let listed' : Subset ns names = λ x h. listed x (ground arith) in
      let few : unvisited names s.visited ≤ fuel =
        omega (arith, unvisited-le-length names s.visited, enough) in
      elim (Bool-cases (contains n s.visited)) [
        | inl seen ↦ rw (check_seen n ns s seen) (
            Returns-weaken (check_from fuel g ns (marks s)) (Ending g s ns) _
              (check_from-Ending ns listed' s sync clean idle)
              (extend-Ending n ns s s seen (λ x h. h)))
        | inr fresh ↦
            let ((found, t), returned, (f, v)) = Returns-value (Cycles.dfs fuel g n s) _ (
              Returns-and (Cycles.dfs fuel g n s) (Framed s) (Verdict g (n ∷ []))
                (dfs-Framed g names closed fuel n s sync (listed n here) fresh few)
                (dfs-Verdict g names closed fuel n s sync clean (root-IsChain g s n sync idle)
                  (listed n here) fresh few)) in
            rw (check_fresh n ns s found t fresh returned) (
              after_dfs n ns s t found f v
                (λ f' clean'. check_from-Ending ns listed' t f'.sync clean' (f'.stack refl ∙ idle)))
      ]

contains_left :
    (x : String) (xs ys : List String) → contains x xs ≡ true → contains x (xs ++ ys) ≡ true
contains_left x xs ys h = ground (arith, contains-append x xs ys)

contains_right :
    (x : String) (xs ys : List String) → contains x ys ≡ true → contains x (xs ++ ys) ≡ true
contains_right x xs ys h = ground (arith, contains-append x xs ys)

Ending-Decides : (g : Graph) (b : Bool) → Ending g start (keys g) b → Decides g b
Ending-Decides g true e = e
Ending-Decides g false (t, done) = Finished-IsAcyclic g start t done

-- `_has_cycle` always returns, and its answer is right: with `true` some node reaches itself, and
-- with `false` none does.
pub has_cycle_lem : (adjacency : Graph) → Returns (has_cycle adjacency) (Decides adjacency)
unfolding has_cycle
has_cycle_lem g =
    let names = keys g ++ targets g in
    let fuel = length (keys g) + length (targets g) in
    Returns-weaken (check_from fuel g (keys g) (marks start)) (Ending g start (keys g)) (Decides g)
      (check_from-Ending g names
        (λ x y e. contains_right y (keys g) (targets g) (HasEdge-targets g x y e)) fuel
        (omega (arith, length-append (keys g) (targets g))) (keys g)
        (λ x h. contains_left x (keys g) (targets g) h) start start-Sync (start-Clean g) refl)
      (Ending-Decides g)
