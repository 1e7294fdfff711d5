-- ===== src/Cycles/Frames.antt =====
-- What `dfs` keeps whatever it finds. It never raises and never lacks fuel, the recursion stack and
-- the path stay the same nodes in the same order, and the list of cycles only grows.
use mathlib.Core.List.{reverse, reverse-cons}
use native.Mathlib.Numerals.{add-one}
use delaxis.Prelude.{
  ℕ, zero, suc, ◌≤◌, String, ◌==◌, eq_iff, Bool, true, false, List, [], ◌∷◌, ◌++◌, drop, contains,
  add, remove, Subset, contains-append, contains-cons_self, remove-absent, Bool-cases, str_eq_refl,
  length, ◌≡◌, refl, sym, ap, ◌∙◌, inl, inr, arith, append-nil, append_assoc,
}
use delaxis.Prelude.Outcome.{Outcome, ret, ◌>>=◌, Returns, Returns-bind, Returns-weaken}
use delaxis.Graph.{Graph, neighbors}
use delaxis.Graph.Unvisited.{unvisited, unvisited-le-length, unvisited_mono, unvisited-visit}
use delaxis.Cycles.{
  Search, index, pop, discard, enter, leave, report, visit_neighbors, dfs, search_from,
}

-- The path lists the recursion stack, oldest node first, and what is on it has been visited.
pub record Sync (s : Search) : Type 0 where
  pub ordered : s.path ≡ reverse s.rec_stack
  pub seen : Subset s.rec_stack s.visited

-- How a call may change the state.
pub record Frame (s s' : Search) (found : Bool) : Type 0 where
  pub sync : Sync s'
  pub grows : Subset s.visited s'.visited
  pub stack : found ≡ false → s'.rec_stack ≡ s.rec_stack
  pub more : List (List String)
  pub reported : s'.cycles ≡ s.cycles ++ more

pub pop-snoc : (xs : List String) (x : String) → pop (xs ++ x ∷ []) ≡ ret xs
unfolding pop
pop-snoc [] x = refl
pop-snoc (y ∷ []) x = refl
pop-snoc (y ∷ z ∷ zs) x =
    ap (λ (m : Outcome (List String)). m >>= λ rest. ret (y ∷ rest)) (pop-snoc (z ∷ zs) x)

-- The index that is found is where the name stands.
pub index_lem :
    (x : String) (xs : List String)
    → contains x xs ≡ true
    → (i : ℕ) × (rest : List String) × (index x xs ≡ ret i) × (drop i xs ≡ x ∷ rest)
unfolding index contains
index_lem x [] h = ground arith
index_lem x (y ∷ ys) h = elim (Bool-cases (y == x)) [
  | inl same ↦ (0, ys, ground arith, ground (arith, eq_iff y x))
  | inr other ↦
      let (i, rest, found, at) = index_lem x ys (rw other at h) in
      (suc i, rest, rw (other, found, add-one), at)
]

pub contains-reverse : (x : String) (xs : List String) → contains x (reverse xs) ≡ contains x xs
unfolding contains
contains-reverse x [] = refl
contains-reverse x (y ∷ xs) =
    rw (reverse-cons, contains-append) (ground (arith, contains-reverse x xs))

module _ (s : Search) (node : String) (sync : Sync s)
    (fresh : contains node s.visited ≡ false) where
  pub off_stack : contains node s.rec_stack ≡ false
  off_stack = ground (arith, sync.seen node)

  pub enter_lem : enter node s ≡ record s {
    visited = node ∷ s.visited;
    rec_stack = node ∷ s.rec_stack;
    path = s.path ++ node ∷ [];
  }
  unfolding enter add
  enter_lem = rw (fresh, off_stack)

  pub enter-Sync : Sync (enter node s)
  unfolding contains
  enter-Sync = rw enter_lem (record {
    ordered = rw (reverse-cons, sync.ordered);
    seen = λ x h. ground (arith, sync.seen x);
  })

  pub enter-grows : Subset s.visited (enter node s).visited
  unfolding contains
  enter-grows = rw enter_lem (λ x h. ground arith)

  -- Leaving undoes entering, as far as the stack and the path are concerned.
  pub leave_lem :
      (s' : Search)
      → Frame (enter node s) s' false
      → leave node s' ≡ ret (false, record s' { path = s.path; rec_stack = s.rec_stack })
  unfolding leave remove discard
  leave_lem s' f =
      let stack : s'.rec_stack ≡ node ∷ s.rec_stack =
        f.stack refl ∙ ap (λ (t : Search). t.rec_stack) enter_lem in
      let path : s'.path ≡ s.path ++ node ∷ [] =
        f.sync.ordered
        ∙ ap reverse stack
        ∙ reverse-cons node s.rec_stack
        ∙ ap (λ (l : List String). l ++ node ∷ []) (sym sync.ordered) in
      rw (path, pop-snoc, stack, contains-cons_self, str_eq_refl, remove-absent _ _ off_stack)

  pub leave-Frame :
      (s' : Search)
      → Frame (enter node s) s' false
      → Frame s (record s' { path = s.path; rec_stack = s.rec_stack }) false
  leave-Frame s' f = record {
    sync = record {
      ordered = sync.ordered;
      seen = λ x h. f.grows x (enter-grows x (sync.seen x h));
    };
    grows = λ x h. f.grows x (enter-grows x h);
    stack = λ _. refl;
    more = f.more;
    reported = f.reported ∙ ap (λ (t : Search). t.cycles ++ f.more) enter_lem;
  }

  pub found-Frame : (s' : Search) → Frame (enter node s) s' true → Frame s s' true
  found-Frame s' f = record {
    sync = f.sync;
    grows = λ x h. f.grows x (enter-grows x h);
    stack = λ e. cc;
    more = f.more;
    reported = f.reported ∙ ap (λ (t : Search). t.cycles ++ f.more) enter_lem;
  }

pub Frame-refl : (s : Search) → Sync s → Frame s s false
Frame-refl s sync = record {
  sync = sync;
  grows = λ x h. h;
  stack = λ _. refl;
  more = [];
  reported = sym (append-nil s.cycles);
}

pub Frame-trans :
    (s t u : Search) (found : Bool) → Frame s t false → Frame t u found → Frame s u found
Frame-trans s t u found f g = record {
  sync = g.sync;
  grows = λ x h. g.grows x (f.grows x h);
  stack = λ e. g.stack e ∙ f.stack refl;
  more = f.more ++ g.more;
  reported =
      g.reported
      ∙ ap (λ (l : List (List String)). l ++ g.more) f.reported
      ∙ append_assoc s.cycles f.more g.more;
}

abbrev pub Framed : Search → Bool × Search → Type 0
Framed s r = Frame s r.1 r.0

pub report-Framed :
    (n : String) (s : Search)
    → Sync s
    → contains n s.rec_stack ≡ true
    → Returns (report n s) (Framed s)
unfolding report
report-Framed n s sync on_stack =
    let on_path : contains n s.path ≡ true = rw (sync.ordered, contains-reverse) on_stack in
    let (i, rest, found, at) = index_lem n s.path on_path in
    rw found (record {
      sync = record { ordered = sync.ordered; seen = sync.seen };
      grows = λ x h. h;
      stack = λ e. cc;
      more = (drop i s.path ++ n ∷ []) ∷ [];
      reported = refl;
    })

-- The three ways to go on at a neighbor, and the two at a root.
module _ (call : String → Search → Outcome (Bool × Search)) (n : String) (ns : List String)
    (s : Search) where
  pub visit-fresh :
      contains n s.visited ≡ false
      → visit_neighbors call (n ∷ ns) s ≡ (
          call n s >>= λ (found, s'). elim found [
            | true ↦ ret (true, s')
            | false ↦ visit_neighbors call ns s'
          ])
  unfolding visit_neighbors
  visit-fresh h = ground arith

  pub visit-on_stack :
      contains n s.visited ≡ true
      → contains n s.rec_stack ≡ true
      → visit_neighbors call (n ∷ ns) s ≡ report n s
  unfolding visit_neighbors
  visit-on_stack h k = ground arith

  pub visit-done :
      contains n s.visited ≡ true
      → contains n s.rec_stack ≡ false
      → visit_neighbors call (n ∷ ns) s ≡ visit_neighbors call ns s
  unfolding visit_neighbors
  visit-done h k = ground arith

module _ (fuel : ℕ) (g : Graph) (n : String) (ns : List String) (s : Search) where
  pub search-fresh :
      contains n s.visited ≡ false
      → search_from fuel g (n ∷ ns) s ≡ (dfs fuel g n s >>= λ (_, s'). search_from fuel g ns s')
  unfolding search_from
  search-fresh h = ground arith

  pub search-seen :
      contains n s.visited ≡ true → search_from fuel g (n ∷ ns) s ≡ search_from fuel g ns s
  unfolding search_from
  search-seen h = ground arith

-- After a call: stop when it found a cycle, or go on with the rest.
either-Framed :
    (found : Bool) (s s' : Search) (rest : Outcome (Bool × Search))
    → Frame s s' found
    → (found ≡ false → Returns rest (Framed s'))
    → Returns (elim found [ true ↦ ret (true, s') | false ↦ rest ]) (Framed s)
either-Framed true s s' rest f more = f
either-Framed false s s' rest f more =
    Returns-weaken rest (Framed s') (Framed s) (more refl)
      λ (found, t) h. Frame-trans s s' t found f h

leave-Framed :
    (s : Search) (node : String) (sync : Sync s) (fresh : contains node s.visited ≡ false)
    → (found : Bool) (s' : Search) → Frame (enter node s) s' found
    → Returns (elim found [ true ↦ ret (true, s') | false ↦ leave node s' ]) (Framed s)
leave-Framed s node sync fresh true s' f = found-Frame s node sync fresh s' f
leave-Framed s node sync fresh false s' f =
    rw (leave_lem s node sync fresh s' f) (leave-Frame s node sync fresh s' f)

module _ (g : Graph) (names : List String)
    (closed : (x y : String) → contains y (neighbors g x) ≡ true → contains y names ≡ true) where
  abbrev pub Total : (String → Search → Outcome (Bool × Search)) → ℕ → Type 0
  Total call fuel =
      (n : String) (s : Search)
      → Sync s
      → contains n names ≡ true
      → contains n s.visited ≡ false
      → unvisited names s.visited ≤ fuel
      → Returns (call n s) (Framed s)

  pub visit_neighbors-Framed :
      (call : String → Search → Outcome (Bool × Search)) (fuel : ℕ)
      → Total call fuel
      → (ns : List String) (s : Search) → Sync s
      → Subset ns names
      → unvisited names s.visited ≤ fuel
      → Returns (visit_neighbors call ns s) (Framed s)
  unfolding visit_neighbors contains
  visit_neighbors-Framed call fuel total [] s sync listed enough = Frame-refl s sync
  visit_neighbors-Framed call fuel total (n ∷ ns) s sync listed enough =
      let listed' : Subset ns names = λ x h. listed x (ground arith) in
      elim (Bool-cases (contains n s.visited)) [
        | inl seen ↦ elim (Bool-cases (contains n s.rec_stack)) [
          | inl on_stack ↦
              rw (visit-on_stack call n ns s seen on_stack) (report-Framed n s sync on_stack)
          | inr off ↦
              rw (visit-done call n ns s seen off)
                (visit_neighbors-Framed call fuel total ns s sync listed' enough)
        ]
        | inr fresh ↦ rw (visit-fresh call n ns s fresh) (
            Returns-bind (call n s) _ (Framed s) (Framed s)
              (total n s sync (listed n (contains-cons_self n ns)) fresh enough)
              λ (found, s') _ f. either-Framed found s s' _ f λ same.
                visit_neighbors-Framed call fuel total ns s' f.sync listed'
                  (omega (arith, unvisited_mono names s.visited s'.visited f.grows, enough)))
      ]

  pub dfs-Framed : (fuel : ℕ) → Total (dfs fuel g) fuel
  unfolding dfs
  dfs-Framed zero n s sync listed fresh enough =
      absurd (omega (arith, unvisited-visit names s.visited n listed fresh))
  dfs-Framed (suc fuel) n s sync listed fresh enough =
      let inner = enter n s in
      let fewer : unvisited names inner.visited ≤ fuel =
        rw (enter_lem s n sync fresh)
          (omega (arith, unvisited-visit names s.visited n listed fresh)) in
      Returns-bind (visit_neighbors (dfs fuel g) (neighbors g n) inner) _ (Framed inner) (Framed s)
        (visit_neighbors-Framed (dfs fuel g) fuel (dfs-Framed fuel) (neighbors g n) inner
          (enter-Sync s n sync fresh) (closed n) fewer)
        λ (found, s') _ f. leave-Framed s n sync fresh found s' f

  -- The loop over the roots ends too.
  pub search_from-Framed :
      (fuel : ℕ) (roots : List String) (s : Search)
      → Sync s
      → Subset roots names
      → length names ≤ fuel
      → Returns
          (search_from fuel g roots s)
          (λ s'. (more : List (List String)) × (s'.cycles ≡ s.cycles ++ more))
  unfolding search_from contains
  search_from-Framed fuel [] s sync listed enough = ([], sym (append-nil s.cycles))
  search_from-Framed fuel (n ∷ ns) s sync listed enough =
      let listed' : Subset ns names = λ x h. listed x (ground arith) in
      elim (Bool-cases (contains n s.visited)) [
        | inl seen ↦
            rw (search-seen fuel g n ns s seen) (search_from-Framed fuel ns s sync listed' enough)
        | inr fresh ↦ rw (search-fresh fuel g n ns s fresh) (
            Returns-bind (dfs fuel g n s) _ (Framed s) _
              (dfs-Framed fuel n s sync (listed n (contains-cons_self n ns)) fresh
                (omega (arith, unvisited-le-length names s.visited)))
              λ (found, s') _ f.
                Returns-weaken (search_from fuel g ns s') _ _
                  (search_from-Framed fuel ns s' f.sync listed' enough)
                  λ t (more, e). (
                    f.more ++ more,
                    e
                        ∙ ap (λ (l : List (List String)). l ++ more) f.reported
                        ∙ append_assoc s.cycles f.more more,
                  ))
      ]
