-- ===== src/Cycles/Report.antt =====
-- What `detect_cycles` reports: an empty list exactly for an acyclic graph, and else a list that
-- begins with a cycle of the graph.
use delaxis.Prelude.{
  ℕ, ◌≤◌, String, ◌==◌, eq_iff, Bool, true, false, List, [], ◌∷◌, ◌++◌, contains, keys, Subset,
  length, contains-cons_self, Bool-cases, ◌≡◌, refl, ap, ◌∙◌, subst, inl, inr, ◌⊎◌, arith,
}
use delaxis.Prelude.Outcome.{Returns, Returns-bind, Returns-and, Returns-weaken}
use delaxis.Graph.{Graph, HasEdge, IsAcyclic, IsChain, IsCycle}
use delaxis.Graph.Chains.{Reaches-first, Reaches-mono, IsCycle-mono}
use delaxis.Graph.Unvisited.{unvisited, unvisited-le-length}
use delaxis.Cycles.{
  Connection, Search, start, dfs, search_from, build_graph, node_names, detect_cycles,
}
use delaxis.Cycles.Building.{
  Links, HasEdge-build_graph, HasEdge-keys, HasEdge-node_names, keys-node_names,
}
use delaxis.Cycles.Frames.{
  Sync, Frame, Framed, dfs-Framed, search_from-Framed, search-fresh, search-seen,
}
use delaxis.Cycles.Clean.{Clean, Verdict}
use delaxis.Cycles.Verdicts.{dfs-Verdict}

-- All is finished, nothing was found.
pub record Finished (g : Graph) (s : Search) (roots : List String) (t : Search) : Type 0 where
  pub clean : Clean g t
  pub idle : t.rec_stack ≡ []
  pub grown : Subset s.visited t.visited
  pub rooted : Subset roots t.visited

-- The loop over the roots goes on: `n` has been visited by the time of `t`.
pub extend-Finished :
    (g : Graph) (n : String) (ns : List String) (s t u : Search)
    → contains n t.visited ≡ true
    → Subset s.visited t.visited
    → Finished g t ns u
    → Finished g s (n ∷ ns) u
unfolding contains
extend-Finished g n ns s t u visited grows done = record {
  clean = done.clean;
  idle = done.idle;
  grown = λ x h. done.grown x (grows x h);
  rooted = λ x h. elim (Bool-cases (n == x)) [
    | inl same ↦
        done.grown x (subst (λ v. contains v t.visited ≡ true) ((eq_iff n x).0 same) visited)
    | inr other ↦ done.rooted x (ground arith)
  ];
}

-- A search that has finished all the keys leaves no room for a cycle.
pub Finished-IsAcyclic :
    (g : Graph) (s t : Search) → Finished g s (keys g) t → IsAcyclic (HasEdge g)
unfolding contains
Finished-IsAcyclic g s t done x r =
    let (m, e, rest) = Reaches-first (HasEdge g) r in
    done.clean.acyclic x (done.rooted x (HasEdge-keys g x m e), ap (contains x) done.idle) r

record Found (g : Graph) (t : Search) : Type 0 where
  cycle : List String
  others : List (List String)
  listed : t.cycles ≡ cycle ∷ others
  genuine : IsCycle (HasEdge g) cycle

abbrev Ending : Graph → Search → List String → Search → Type 0
Ending g s roots t = Finished g s roots t ⊎ Found g t

-- A root is a chain of its own, since the path is empty.
module _ (g : Graph) (s : Search) (n : String) where
  pub root-IsChain : Sync s → s.rec_stack ≡ [] → IsChain (HasEdge g) (s.path ++ n ∷ [])
  root-IsChain sync idle = rw (sync.ordered, idle) tt

module _ (g : Graph) (names : List String)
    (closed : (x y : String) → HasEdge g x y → contains y names ≡ true) (fuel : ℕ)
    (enough : length names ≤ fuel) where
  abbrev Ends : List String → Type 0
  Ends roots =
      (s : Search)
      → Sync s
      → Clean g s
      → s.rec_stack ≡ []
      → Returns (search_from fuel g roots s) (Ending g s roots)

  extend-Ending :
      (n : String) (ns : List String) (s t u : Search)
      → contains n t.visited ≡ true
      → Subset s.visited t.visited
      → Ending g t ns u
      → Ending g s (n ∷ ns) u
  extend-Ending n ns s t u visited grows (inr found) = inr found
  extend-Ending n ns s t u visited grows (inl done) =
      inl (extend-Finished g n ns s t u visited grows done)

  after_dfs :
      (n : String) (ns : List String) (s : Search)
      → s.rec_stack ≡ []
      → Subset ns names
      → Ends ns
      → (found : Bool) (t : Search) → Frame s t found
      → Verdict g (n ∷ []) (found, t)
      → Returns (search_from fuel g ns t) (Ending g s (n ∷ ns))
  after_dfs n ns s idle listed ends true t f v =
      Returns-weaken (search_from fuel g ns t) _ (Ending g s (n ∷ ns))
        (search_from-Framed g names closed fuel ns t f.sync listed enough)
        λ u (more, e). inr (record {
          cycle = v.cycle;
          others = more;
          listed = e ∙ ap (λ (l : List (List String)). l ++ more) v.only;
          genuine = v.genuine;
        })
  after_dfs n ns s idle listed ends false t f v =
      Returns-weaken (search_from fuel g ns t) (Ending g t ns) (Ending g s (n ∷ ns))
        (ends t f.sync v.0 (f.stack refl ∙ idle))
        λ u e. extend-Ending n ns s t u ((v.1 n (contains-cons_self n [])).0) f.grows e

  search_from-Ends : (roots : List String) → Subset roots names → Ends roots
  unfolding contains
  search_from-Ends [] listed s sync clean idle =
      unfold search_from in
      inl (record { clean = clean; idle = idle; grown = λ x h. h; rooted = λ x h. ground arith })
  search_from-Ends (n ∷ ns) listed s sync clean idle =
      let here = contains-cons_self n ns in
      let listed' : Subset ns names = λ x h. listed x (ground arith) in
      let few : unvisited names s.visited ≤ fuel =
        omega (arith, unvisited-le-length names s.visited, enough) in
      elim (Bool-cases (contains n s.visited)) [
        | inl seen ↦ rw (search-seen fuel g n ns s seen) (
            Returns-weaken (search_from fuel g ns s) (Ending g s ns) _
              (search_from-Ends ns listed' s sync clean idle)
              λ u e. extend-Ending n ns s s u seen (λ x h. h) e)
        | inr fresh ↦ rw (search-fresh fuel g n ns s fresh) (
            Returns-bind (dfs fuel g n s) _ _ _
              (Returns-and (dfs fuel g n s) (Framed s) (Verdict g (n ∷ []))
                (dfs-Framed g names closed fuel n s sync (listed n here) fresh few)
                (dfs-Verdict g names closed fuel n s sync clean (root-IsChain g s n sync idle)
                  (listed n here) fresh few))
              λ (found, t) _ (f, v).
                after_dfs n ns s idle listed' (search_from-Ends ns listed') found t f v)
      ]

pub start-Sync : Sync start
unfolding contains
start-Sync = record { ordered = refl; seen = λ x h. ground arith }

pub start-Clean : (g : Graph) → Clean g start
unfolding contains
start-Clean g = record {
  none_yet = refl;
  chain = tt;
  closed = λ x y b e. ground (arith, b.0);
  acyclic = λ x b r. ground (arith, b.0);
}

-- What a report promises about the sequential connections.
abbrev pub Findings : List Connection → List (List String) → Type 0
Findings connections [] = IsAcyclic (Links connections)
Findings connections (cycle ∷ others) = IsCycle (Links connections) cycle

Ending-Findings :
    (cs : List Connection) (t : Search)
    → Ending (build_graph cs) start (keys (build_graph cs)) t
    → Findings cs t.cycles
Ending-Findings cs t (inl done) = rw done.clean.none_yet λ x r.
    let r' = Reaches-mono _ (HasEdge (build_graph cs)) (λ a b. (HasEdge-build_graph cs a b).1) r in
    Finished-IsAcyclic (build_graph cs) start t done x r'
Ending-Findings cs t (inr found) =
    rw found.listed
      (IsCycle-mono _ (Links cs) (λ a b. (HasEdge-build_graph cs a b).0) found.cycle found.genuine)

-- `detect_cycles` always returns: it raises nothing, and the fuel suffices. If the list that it
-- returns is empty, the sequential connections have no cycle; and else its first entry is a cycle of
-- theirs, written out from a node back to that node.
pub detect_cycles_lem :
    (connections : List Connection) → Returns (detect_cycles connections) (Findings connections)
unfolding detect_cycles
detect_cycles_lem cs =
    let g = build_graph cs in
    Returns-bind (search_from (length (node_names cs)) g (keys g) start) _ (Ending g start (keys g))
      (Findings cs)
      (search_from-Ends g (node_names cs) (HasEdge-node_names cs) (length (node_names cs))
        (omega arith) (keys g) (keys-node_names cs) start start-Sync (start-Clean g) refl)
      λ t _ e. Ending-Findings cs t e
