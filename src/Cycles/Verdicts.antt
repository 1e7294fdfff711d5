-- ===== src/Cycles/Verdicts.antt =====
-- The induction over `dfs` and its loops: every call from a clean state ends with its verdict.
use delaxis.Prelude.{
  ℕ, zero, suc, ◌≤◌, String, ◌==◌, eq_iff, Bool, true, false, List, [], ◌∷◌, ◌++◌, contains, Subset,
  contains-cons_self, Bool-cases, ◌≡◌, refl, subst, inl, inr, arith,
}
use delaxis.Prelude.Outcome.{Outcome, ret, Returns, Returns-bind, Returns-and, Returns-weaken}
use delaxis.Graph.{Graph, neighbors, HasEdge, IsChain}
use delaxis.Graph.Chains.{IsChain-snoc}
use delaxis.Graph.Unvisited.{unvisited, unvisited_mono, unvisited-visit}
use delaxis.Cycles.{Search, enter, leave, visit_neighbors, dfs}
use delaxis.Cycles.Frames.{
  Sync, Frame, Framed, Total, enter_lem, enter-Sync, leave_lem, visit-fresh, visit-on_stack,
  visit-done, visit_neighbors-Framed, dfs-Framed,
}
use delaxis.Cycles.Clean.{
  Black, Clean, Verdict, path-same, Black-grows, report-Verdict, enter-Clean, left, left-Clean,
  left-at,
}

either-Verdict :
    (g : Graph) (n : String) (ns : List String) (s : Search) (found : Bool) (t : Search)
    (rest : Outcome (Bool × Search))
    → Frame s t found
    → Verdict g (n ∷ []) (found, t)
    → (Frame s t false → Clean g t → Black t n → Returns rest (Verdict g (n ∷ ns)))
    → Returns (elim found [ true ↦ ret (true, t) | false ↦ rest ]) (Verdict g (n ∷ ns))
either-Verdict g n ns s true t rest f v more = v
either-Verdict g n ns s false t rest f v more = more f v.0 (v.1 n (contains-cons_self n []))

-- One more finished node in front of a verdict.
cons-Verdict :
    (g : Graph) (n : String) (ns : List String) (s : Search)
    → Sync s
    → Black s n
    → (r : Bool × Search) → Framed s r
    → Verdict g ns r
    → Verdict g (n ∷ ns) r
unfolding contains
cons-Verdict g n ns s sync b (true, t) f v = v
cons-Verdict g n ns s sync b (false, t) f v = (
  v.0,
  λ x h. elim (Bool-cases (n == x)) [
    | inl same ↦ subst (Black t) ((eq_iff n x).0 same) (Black-grows s t n f b)
    | inr other ↦ v.1 x (ground arith)
  ],
)

leave-Verdict :
    (g : Graph) (n : String) (s : Search) (sync : Sync s) (fresh : contains n s.visited ≡ false)
    → Clean g s
    → (found : Bool) (s' : Search) → Frame (enter n s) s' found
    → Verdict g (neighbors g n) (found, s')
    → Returns (elim found [ true ↦ ret (true, s') | false ↦ leave n s' ]) (Verdict g (n ∷ []))
unfolding contains
leave-Verdict g n s sync fresh clean true s' f v = v
leave-Verdict g n s sync fresh clean false s' f v = rw (leave_lem s n sync fresh s' f) (
  left-Clean g n s sync fresh s' f clean v.0 v.1,
  λ x h.
      subst (Black (left g n s sync fresh s' f clean v.0 v.1)) ((eq_iff n x).0 (ground arith))
        (left-at g n s sync fresh s' f clean v.0 v.1),
)

module _ (g : Graph) (names : List String)
    (closed : (x y : String) → HasEdge g x y → contains y names ≡ true) where
  abbrev Judges : (String → Search → Outcome (Bool × Search)) → ℕ → Type 0
  Judges call fuel =
      (n : String) (s : Search)
      → Sync s
      → Clean g s
      → IsChain (HasEdge g) (s.path ++ n ∷ [])
      → contains n names ≡ true
      → contains n s.visited ≡ false
      → unvisited names s.visited ≤ fuel
      → Returns (call n s) (Verdict g (n ∷ []))

  visit_neighbors-Verdict :
      (call : String → Search → Outcome (Bool × Search)) (fuel : ℕ)
      → Total g names closed call fuel
      → Judges call fuel
      → (ns : List String) (s : Search) → Sync s
      → Clean g s
      → ((m : String) → contains m ns ≡ true → IsChain (HasEdge g) (s.path ++ m ∷ []))
      → Subset ns names
      → unvisited names s.visited ≤ fuel
      → Returns (visit_neighbors call ns s) (Verdict g ns)
  unfolding contains
  visit_neighbors-Verdict call fuel total judges [] s sync clean chains listed enough =
      unfold visit_neighbors in (clean, λ x h. ground arith)
  visit_neighbors-Verdict call fuel total judges (n ∷ ns) s sync clean chains listed enough =
      let here = contains-cons_self n ns in
      let listed' : Subset ns names = λ x h. listed x (ground arith) in
      let after : (t : Search)
          → Sync t
          → Clean g t
          → t.path ≡ s.path
          → unvisited names t.visited ≤ fuel
          → Black t n
          → Returns (visit_neighbors call ns t) (Verdict g (n ∷ ns)) =
        λ t sync' clean' same enough' b.
          Returns-weaken (visit_neighbors call ns t) _ (Verdict g (n ∷ ns))
            (Returns-and (visit_neighbors call ns t) (Framed t) (Verdict g ns)
              (visit_neighbors-Framed g names closed call fuel total ns t sync' listed' enough')
              (visit_neighbors-Verdict call fuel total judges ns t sync' clean'
                (λ m h. rw same (chains m (ground arith))) listed' enough'))
            λ r (f, v). cons-Verdict g n ns t sync' b r f v in
      elim (Bool-cases (contains n s.visited)) [
        | inl seen ↦ elim (Bool-cases (contains n s.rec_stack)) [
          | inl on_stack ↦
              rw (visit-on_stack call n ns s seen on_stack)
                (report-Verdict g n s sync (n ∷ ns) clean (chains n here) on_stack)
          | inr off ↦
              rw (visit-done call n ns s seen off) (after s sync clean refl enough (seen, off))
        ]
        | inr fresh ↦ rw (visit-fresh call n ns s fresh) (
            Returns-bind (call n s) _ _ (Verdict g (n ∷ ns))
              (Returns-and (call n s) (Framed s) (Verdict g (n ∷ []))
                (total n s sync (listed n here) fresh enough)
                (judges n s sync clean (chains n here) (listed n here) fresh enough))
              λ (found, t) _ (f, v). either-Verdict g n ns s found t _ f v λ f' clean' b.
                after t f'.sync clean' (path-same s t sync f'.sync (f'.stack refl))
                  (omega (arith, unvisited_mono names s.visited t.visited f'.grows)) b)
      ]

  pub dfs-Verdict : (fuel : ℕ) → Judges (dfs fuel g) fuel
  unfolding dfs
  dfs-Verdict zero n s sync clean chain listed fresh enough =
      absurd (omega (arith, unvisited-visit names s.visited n listed fresh))
  dfs-Verdict (suc fuel) n s sync clean chain listed fresh enough =
      let inner = enter n s in
      let call = dfs fuel g in
      let ns = neighbors g n in
      let fewer : unvisited names inner.visited ≤ fuel =
        rw (enter_lem s n sync fresh)
          (omega (arith, unvisited-visit names s.visited n listed fresh)) in
      let total = dfs-Framed g names closed fuel in
      let chains : (m : String)
          → contains m ns ≡ true
          → IsChain (HasEdge g) (inner.path ++ m ∷ []) =
        λ m e. rw (enter_lem s n sync fresh) (IsChain-snoc (HasEdge g) s.path n m chain e) in
      Returns-bind (visit_neighbors call ns inner) _ _ (Verdict g (n ∷ []))
        (Returns-and (visit_neighbors call ns inner) (Framed inner) (Verdict g ns)
          (visit_neighbors-Framed g names closed call fuel total ns inner
            (enter-Sync s n sync fresh) (closed n) fewer)
          (visit_neighbors-Verdict call fuel total (dfs-Verdict fuel) ns inner
            (enter-Sync s n sync fresh) (enter-Clean g n s sync fresh clean chain) chains (closed n)
            fewer))
        λ (found, s') _ (f, v). leave-Verdict g n s sync fresh clean found s' f v
