-- ===== src/Crew/Aligned.antt =====
-- src/crewai_runtime/runtime.py: tasks that stand in the order of their metadata, with the context
-- that each was given.
use delaxis.Prelude.{
  In, suc, String, ◌==◌, true, List, [], ◌∷◌, ◌++◌, length, contains, map, ◌≡◌, refl, sym, ap,
  subst, ◌∙◌, arith, Bool-cases, inl, inr, ◌↔◌, str_eq_iff,
}
use delaxis.Topology.{AgentEdge}
use delaxis.ExecutionEvents.{TaskMeta}
use delaxis.Crew.Context.{
  zip_tasks, tasks_of, ids_of, last_pair, upstream_ids, keep_upstream, upstream_task_pairs,
}

-- An edge leads from a to b.
abbrev pub HasEdge : List AgentEdge → String → String → Type 0
HasEdge edges a b = (e : AgentEdge) × In e edges × (e.from_node ≡ a) × (e.to_node ≡ b)

later :
    (e : AgentEdge) (edges : List AgentEdge) {a b : String}
    → HasEdge edges a b
    → HasEdge (e ∷ edges) a b
later e edges h = (h.0, inr h.1, h.2, h.3)

upstream_ids-HasEdge :
    (b : String) (edges : List AgentEdge) (a : String)
    → (contains a (upstream_ids b edges) ≡ true) ↔ HasEdge edges a b
unfolding upstream_ids contains
upstream_ids-HasEdge b [] a = (λ h. absurd (cc), λ h. absurd h.1)
upstream_ids-HasEdge b (e ∷ edges) a = elim (Bool-cases (e.to_node == b)) [
  | inl own ↦ rw own (
      (
        λ h. elim (Bool-cases (e.from_node == a)) [
          | inl here ↦
              (e, inl refl, (str_eq_iff e.from_node a).0 here, (str_eq_iff e.to_node b).0 own)
          | inr other ↦ later e edges ((upstream_ids-HasEdge b edges a).0 (rw other at h))
        ],
        λ h. elim h.1 [
          | inl same ↦
              (let hit : (e.from_node == a) ≡ true =
                  (str_eq_iff e.from_node a).1 (ap (λ k. k.from_node) (sym same) ∙ h.2) in
                rw hit refl)
          | inr there ↦ ground (arith, (upstream_ids-HasEdge b edges a).1 (h.0, there, h.2, h.3))
        ],
      ))
  | inr other ↦ rw other (
      (
        λ h. later e edges ((upstream_ids-HasEdge b edges a).0 h),
        λ h. elim h.1 [
          | inl same ↦
              (let hit : (e.to_node == b) ≡ true =
                  (str_eq_iff e.to_node b).1 (ap (λ k. k.to_node) (sym same) ∙ h.3) in
                absurd (cc))
          | inr there ↦ (upstream_ids-HasEdge b edges a).1 (h.0, there, h.2, h.3)
        ],
      ))
]

module _ {Task : Type 0} where
  -- Without edges the task before; else the earlier tasks whose nodes have an edge to this one's.
  abbrev pub FromEdges :
      List AgentEdge → List (TaskMeta × Task) → (TaskMeta × Task) → (TaskMeta × Task) → Type 0
  FromEdges [] before j k = (init : List (TaskMeta × Task)) × (before ≡ init ++ j ∷ [])
  FromEdges (e ∷ edges) before j k = In j before × HasEdge (e ∷ edges) j.0.node_id k.0.node_id

  abbrev pub FromAll : List (TaskMeta × Task) → (TaskMeta × Task) → (TaskMeta × Task) → Type 0
  FromAll before j k = In j before

  abbrev pub FromNone : List (TaskMeta × Task) → (TaskMeta × Task) → (TaskMeta × Task) → Type 0
  FromNone before j k = ⊥

  pub zip-append :
      (metas : List TaskMeta) (tasks : List Task) (m : TaskMeta) (t : Task)
      → length metas ≡ length tasks
      → zip_tasks (metas ++ m ∷ []) (tasks ++ t ∷ []) ≡ zip_tasks metas tasks ++ (m, t) ∷ []
  unfolding zip_tasks
  zip-append [] [] m t e = refl
  zip-append [] (u ∷ tasks) m t e = absurd (omega (arith, e))
  zip-append (n ∷ metas) [] m t e = absurd (omega (arith, e))
  zip-append (n ∷ metas) (u ∷ tasks) m t e =
      ap (λ l. (n, u) ∷ l) (zip-append metas tasks m t (omega (arith, e)))

  pub tasks_of-zip :
      (metas : List TaskMeta) (tasks : List Task)
      → length metas ≡ length tasks
      → tasks_of (zip_tasks metas tasks) ≡ tasks
  unfolding zip_tasks
  tasks_of-zip [] [] e = refl
  tasks_of-zip [] (u ∷ tasks) e = absurd (omega (arith, e))
  tasks_of-zip (n ∷ metas) [] e = absurd (omega (arith, e))
  tasks_of-zip (n ∷ metas) (u ∷ tasks) e =
      ap (λ l. u ∷ l) (tasks_of-zip metas tasks (omega (arith, e)))

  pub ids_of-zip :
      (metas : List TaskMeta) (tasks : List Task)
      → length metas ≡ length tasks
      → ids_of (zip_tasks metas tasks) ≡ map (λ m. m.node_id) metas
  unfolding zip_tasks
  ids_of-zip [] [] e = refl
  ids_of-zip [] (u ∷ tasks) e = absurd (omega (arith, e))
  ids_of-zip (n ∷ metas) [] e = absurd (omega (arith, e))
  ids_of-zip (n ∷ metas) (u ∷ tasks) e =
      ap (λ l. n.node_id ∷ l) (ids_of-zip metas tasks (omega (arith, e)))

  pub length-zip :
      (metas : List TaskMeta) (tasks : List Task)
      → length metas ≡ length tasks
      → length (zip_tasks metas tasks) ≡ length tasks
  unfolding zip_tasks
  length-zip [] [] e = refl
  length-zip [] (u ∷ tasks) e = absurd (omega (arith, e))
  length-zip (n ∷ metas) [] e = absurd (omega (arith, e))
  length-zip (n ∷ metas) (u ∷ tasks) e = ap suc (length-zip metas tasks (omega (arith, e)))

  no_last : (init : List (TaskMeta × Task)) (j : TaskMeta × Task) → [] ≡ init ++ j ∷ [] → ⊥
  no_last [] j e = cc
  no_last (i ∷ init) j e = cc

  only : (k j : TaskMeta × Task) (init : List (TaskMeta × Task)) → k ∷ [] ≡ init ++ j ∷ [] → j ≡ k
  only k j [] e = cc
  only k j (i ∷ []) e = cc
  only k j (i ∷ i' ∷ init) e = cc

  shorter :
      (k next j : TaskMeta × Task) (pairs init : List (TaskMeta × Task))
      → k ∷ next ∷ pairs ≡ init ++ j ∷ []
      → (rest : List (TaskMeta × Task)) × (next ∷ pairs ≡ rest ++ j ∷ [])
  shorter k next j pairs [] e = cc
  shorter k next j pairs (i ∷ init) e = (init, cc)

  last_pair-lem :
      (pairs : List (TaskMeta × Task)) (j : TaskMeta × Task)
      → In j (last_pair pairs) ↔ ((init : List (TaskMeta × Task)) × (pairs ≡ init ++ j ∷ []))
  unfolding last_pair
  last_pair-lem [] j = (λ h. absurd h, λ (init, e). no_last init j e)
  last_pair-lem (k ∷ []) j = (
    λ h. elim h [ inl e ↦ ([], ap (λ x. x ∷ []) (sym e)) | inr never ↦ absurd never ],
    λ (init, e). inl (only k j init e),
  )
  last_pair-lem (k ∷ next ∷ pairs) j = (
    λ h. let (init, e) = (last_pair-lem (next ∷ pairs) j).0 h in (k ∷ init, ap (λ l. k ∷ l) e),
    λ (init, e). (last_pair-lem (next ∷ pairs) j).1 (shorter k next j pairs init e),
  )

  keep_upstream-In :
      (ids : List String) (pairs : List (TaskMeta × Task)) (j : TaskMeta × Task)
      → In j (keep_upstream ids pairs) ↔ (In j pairs × (contains j.0.node_id ids ≡ true))
  unfolding keep_upstream
  keep_upstream-In ids [] j = (λ h. absurd h, λ h. h.0)
  keep_upstream-In ids (k ∷ pairs) j = elim (Bool-cases (contains k.0.node_id ids)) [
    | inl kept ↦ rw kept (
        (
          λ h. elim h [
            | inl e ↦ (inl e, ap (λ x. contains x.0.node_id ids) e ∙ kept)
            | inr there ↦ (let (a, b) = (keep_upstream-In ids pairs j).0 there in (inr a, b))
          ],
          λ h. elim h.0 [
            | inl e ↦ inl e
            | inr there ↦ inr ((keep_upstream-In ids pairs j).1 (there, h.1))
          ],
        ))
    | inr dropped ↦ rw dropped (
        (
          λ h. let (a, b) = (keep_upstream-In ids pairs j).0 h in (inr a, b),
          λ h. elim h.0 [
            | inl e ↦
                (let kept : contains k.0.node_id ids ≡ true =
                    ap (λ x. contains x.0.node_id ids) (sym e) ∙ h.1 in
                  absurd (cc))
            | inr there ↦ (keep_upstream-In ids pairs j).1 (there, h.1)
          ],
        ))
  ]

  -- The tasks that upstream_task_pairs picks, in terms of the edges.
  pub upstream_task_pairs-FromEdges :
      (edges : List AgentEdge) (i : String) (before : List (TaskMeta × Task))
      (j k : TaskMeta × Task)
      → k.0.node_id ≡ i
      → In j (upstream_task_pairs edges i before) ↔ FromEdges edges before j k
  unfolding upstream_task_pairs
  upstream_task_pairs-FromEdges [] i before j k e = last_pair-lem before j
  upstream_task_pairs-FromEdges (d ∷ edges) i before j k e = (
    λ h.
        let (a, b) = (keep_upstream-In (upstream_ids i (d ∷ edges)) before j).0 h in
        (
          a,
          subst (HasEdge (d ∷ edges) j.0.node_id) (sym e)
              ((upstream_ids-HasEdge i (d ∷ edges) j.0.node_id).0 b),
        ),
    λ h. (keep_upstream-In (upstream_ids i (d ∷ edges)) before j).1 (
      h.0,
      (upstream_ids-HasEdge i (d ∷ edges) j.0.node_id).1
          (subst (HasEdge (d ∷ edges) j.0.node_id) e h.1),
    ),
  )
