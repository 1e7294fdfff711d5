-- ===== src/Reachability/Search.antt =====
-- `_get_reachable_nodes` returns exactly the nodes that a walk from the start leads to.
use delaxis.Prelude.{
  ℕ, zero, suc, ◌+◌, ◌≤◌, String, ◌==◌, eq_iff, Bool, true, false, List, [], ◌∷◌, ◌++◌, length,
  length-append, contains, contains-append, contains-cons_self, Subset, Bool-cases, ◌≡◌, subst, sym,
  ap, ◌||◌, inl, inr, ◌⊎◌, ◌↔◌, arith, if◌then◌else◌,
}
use delaxis.Prelude.Outcome.{Returns, Returns-weaken}
use delaxis.Graph.{Graph, neighbors, targets, HasEdge, Reaches, edge}
use delaxis.Graph.Chains.{Reaches-snoc, Reaches-closed}
use delaxis.Graph.Unvisited.{unvisited, unvisited-visit, unvisited-le-length}
use delaxis.Graph.Targets.{HasEdge-targets}
use delaxis.Reachability.{enqueue, bfs, get_reachable_nodes}

-- `x` is the start, or a walk leads to it.
abbrev pub IsReachable : Graph → String → String → Type 0
IsReachable g start x = (start ≡ x) ⊎ Reaches (HasEdge g) start x

IsReachable-edge :
    (g : Graph) (start x y : String) → IsReachable g start x → HasEdge g x y → IsReachable g start y
IsReachable-edge g start x y (inl same) e = inr (edge (subst (λ v. HasEdge g v y) (sym same) e))
IsReachable-edge g start x y (inr r) e = inr (Reaches-snoc (HasEdge g) r e)

-- What `enqueue` does to the visited set and the queue.
record Enqueued (names ns visited queue visited' queue' : List String) : Type 0 where
  kept : Subset visited visited'
  waiting : Subset queue queue'
  added : Subset ns visited'
  from : (x : String) → contains x visited' ≡ true → (contains x visited || contains x ns) ≡ true
  queued :
      (x : String) → contains x visited' ≡ true → (contains x visited || contains x queue') ≡ true
  known : Subset queue visited → Subset queue' visited'
  cheaper : length queue' + unvisited names visited' ≤ length queue + unvisited names visited

enqueue-seen :
    (n : String) (ns visited queue : List String)
    → contains n visited ≡ true
    → enqueue (n ∷ ns) (visited, queue) ≡ enqueue ns (visited, queue)
unfolding enqueue
enqueue-seen n ns visited queue h =
    ap (λ (b : Bool). enqueue ns (if b then (visited, queue) else (n ∷ visited, queue ++ n ∷ []))) h

enqueue-fresh :
    (n : String) (ns visited queue : List String)
    → contains n visited ≡ false
    → enqueue (n ∷ ns) (visited, queue) ≡ enqueue ns (n ∷ visited, queue ++ n ∷ [])
unfolding enqueue
enqueue-fresh n ns visited queue h =
    ap (λ (b : Bool). enqueue ns (if b then (visited, queue) else (n ∷ visited, queue ++ n ∷ []))) h

enqueue-Enqueued :
    (names ns visited queue : List String)
    → Subset ns names
    → Enqueued names ns visited queue
        (enqueue ns (visited, queue)).0
        (enqueue ns (visited, queue)).1
unfolding contains
enqueue-Enqueued names [] visited queue listed =
    unfold enqueue in
    record {
      kept = λ x h. h;
      waiting = λ x h. h;
      added = λ x h. ground arith;
      from = λ x h. ground arith;
      queued = λ x h. ground arith;
      known = λ h. h;
      cheaper = omega arith;
    }
enqueue-Enqueued names (n ∷ ns) visited queue listed = elim (Bool-cases (contains n visited)) [
  | inl seen ↦
      let r = enqueue-Enqueued names ns visited queue (λ x h. listed x (ground arith)) in
      rw (enqueue-seen n ns visited queue seen) (record {
        kept = r.kept;
        waiting = r.waiting;
        added = λ x h. ground (arith, r.added x, r.kept x, eq_iff n x);
        from = λ x h. ground (arith, r.from x h);
        queued = r.queued;
        known = r.known;
        cheaper = r.cheaper;
      })
  | inr fresh ↦
      let r =
        enqueue-Enqueued names ns (n ∷ visited) (queue ++ n ∷ [])
          (λ x h. listed x (ground arith)) in
      let last = λ (x : String). contains-append x queue (n ∷ []) in
      rw (enqueue-fresh n ns visited queue fresh) (record {
        kept = λ x h. r.kept x (ground arith);
        waiting = λ x h. r.waiting x (ground (arith, last x));
        added = λ x h. ground (arith, r.added x, r.kept x, eq_iff n x);
        from = λ x h. ground (arith, r.from x h);
        queued = λ x h. ground (arith, r.queued x h, r.waiting x, last x);
        known = λ h. r.known (λ x k. ground (arith, last x, h x));
        cheaper = omega (
          arith,
          r.cheaper,
          unvisited-visit names visited n (listed n (contains-cons_self n ns)) fresh,
          length-append queue (n ∷ []),
        );
      })
]

-- The invariant of the loop.
record Loop (g : Graph) (start : String) (visited queue : List String) : Type 0 where
  reached : (x : String) → contains x visited ≡ true → IsReachable g start x
  seen : Subset queue visited
  closed :
      (x y : String)
      → contains x visited ≡ true
      → HasEdge g x y
      → (contains x queue || contains y visited) ≡ true

-- What the search returns: what it had visited, reachable nodes alone, and all that edges lead to.
record Reached (g : Graph) (start : String) (visited result : List String) : Type 0 where
  kept : Subset visited result
  sound : (x : String) → contains x result ≡ true → IsReachable g start x
  closed : (x y : String) → contains x result ≡ true → HasEdge g x y → contains y result ≡ true

module _ (g : Graph) (start : String) where
  Loop-step :
      (visited queue : List String) (current : String)
      → Loop g start visited (current ∷ queue)
      → (visited' queue' : List String)
      → Enqueued (targets g) (neighbors g current) visited queue visited' queue'
      → Loop g start visited' queue'
  unfolding contains
  Loop-step visited queue current loop visited' queue' r = record {
    reached = λ x h. elim (Bool-cases (contains x visited)) [
      | inl old ↦ loop.reached x old
      | inr new ↦
          IsReachable-edge g start current x
            (loop.reached current (loop.seen current (contains-cons_self current queue)))
            (ground (arith, r.from x h))
    ];
    seen = r.known (λ x h. loop.seen x (ground arith));
    closed = λ x y h e. elim (Bool-cases (contains x visited)) [
      | inl old ↦ elim (Bool-cases (current == x)) [
        | inl same ↦
            let next = r.added y (subst (λ v. HasEdge g v y) (sym ((eq_iff current x).0 same)) e) in
            ground (arith, next)
        | inr other ↦ ground (arith, loop.closed x y old e, r.waiting x, r.kept y)
      ]
      | inr new ↦ ground (arith, r.queued x h)
    ];
  }

  done : (visited : List String) → Loop g start visited [] → Reached g start visited visited
  unfolding contains
  done visited loop = record {
    kept = λ x h. h;
    sound = loop.reached;
    closed = λ x y h e. ground (arith, loop.closed x y h e);
  }

  complete :
      (result : List String)
      → Reached g start (start ∷ []) result
      → (x : String) → IsReachable g start x
      → contains x result ≡ true
  complete result t x (inl same) =
      t.kept x (subst (λ v. contains v (start ∷ []) ≡ true) same (contains-cons_self start []))
  complete result t x (inr r) =
      Reaches-closed (HasEdge g) (λ v. contains v result ≡ true) t.closed r
        (t.kept start (contains-cons_self start []))

  bfs-Reached :
      (fuel : ℕ) (visited queue : List String)
      → Loop g start visited queue
      → length queue + unvisited (targets g) visited ≤ fuel
      → Returns (bfs fuel g visited queue) (Reached g start visited)
  unfolding bfs contains
  bfs-Reached zero visited [] loop enough = done visited loop
  bfs-Reached (suc fuel) visited [] loop enough = done visited loop
  bfs-Reached zero visited (current ∷ queue) loop enough = absurd (omega arith)
  bfs-Reached (suc fuel) visited (current ∷ queue) loop enough =
      let r =
        enqueue-Enqueued (targets g) (neighbors g current) visited queue
          (HasEdge-targets g current) in
      Returns-weaken (bfs fuel g _ _) _ (Reached g start visited)
        (bfs-Reached fuel _ _ (Loop-step visited queue current loop _ _ r)
          (omega (arith, r.cheaper)))
        λ result t. record {
          kept = λ x h. t.kept x (r.kept x h);
          sound = t.sound;
          closed = t.closed;
        }

  -- The search returns, and the nodes that it returns are exactly the start and the nodes that walks from it lead to.
  pub get_reachable_nodes-IsReachable :
      Returns
        (get_reachable_nodes start g)
        (λ reachable. (x : String) → (contains x reachable ≡ true) ↔ IsReachable g start x)
  unfolding get_reachable_nodes contains
  get_reachable_nodes-IsReachable =
      Returns-weaken (bfs (suc (length (targets g))) g (start ∷ []) (start ∷ [])) _ _
        (bfs-Reached (suc (length (targets g))) (start ∷ []) (start ∷ [])
          (record {
            reached = λ x h. inl ((eq_iff start x).0 (ground arith));
            seen = λ x h. h;
            closed = λ x y h e. ground arith;
          })
          (omega (arith, unvisited-le-length (targets g) (start ∷ []))))
        λ result t x. (t.sound x, λ r. complete result t x r)
