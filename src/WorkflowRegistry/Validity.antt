-- ===== src/WorkflowRegistry/Validity.antt =====
-- src/config/workflow_registry.py: what `validate_workflow` of the registry accepts.
use delaxis.Prelude.{
  subst, String, ◌==◌, true, Option, none, some, List, [], ◌∷◌, contains, Subset, ◌≡◌, ◌↔◌, refl,
  arith, str_eq_iff, str_eq_refl, Bool-cases, inl, inr,
}
use delaxis.WorkflowConfig.{
  WorkflowConfig, sequential, ◌then_check◌, is_sequential, validate_pattern_config,
  get_all_agent_ids,
}
use delaxis.WorkflowConfig.Pattern.{
  FitsPattern, Mentions, validate_pattern_config-FitsPattern, get_all_agent_ids-Mentions,
  then_check-none, is_sequential_iff,
}
use delaxis.WorkflowRegistry.{
  validate_workflow, validate_agent_references, check_agents, check_circular_dependencies,
  edge_pairs,
}
use delaxis.WorkflowRegistry.Circular.{IsOneWay, check_pairs-IsOneWay}

-- Every agent that the workflow names is known.
abbrev pub KnowsAgents : Option (List String) → WorkflowConfig → Type 0
KnowsAgents none w = Unit
KnowsAgents (some known) w = (a : String) → Mentions w a → contains a known ≡ true

pub record IsRunnable (agents : Option (List String)) (w : WorkflowConfig) : Type 0 where
  pub pattern_fits : FitsPattern w
  pub agents_known : KnowsAgents agents w
  pub one_way : w.pattern ≡ sequential → IsOneWay (edge_pairs w.topology.edges)

check_agents-Subset :
    (i : String) (known agents : List String)
    → (check_agents i known agents ≡ none) ↔ Subset agents known
unfolding check_agents contains
check_agents-Subset i known agents = (there agents, back agents)
  where
    there : (agents : List String) → check_agents i known agents ≡ none → Subset agents known
    there [] e x m = ground arith
    there (a ∷ agents) e x m =
        let first : contains a known ≡ true = ground (arith, e) in
        let rest : check_agents i known agents ≡ none = ground (arith, e) in
        elim (Bool-cases (a == x)) [
          | inl same ↦ subst (λ y. contains y known ≡ true) ((str_eq_iff a x).0 same) first
          | inr other ↦ there agents rest x (rw other at m)
        ]

    back : (agents : List String) → Subset agents known → check_agents i known agents ≡ none
    back [] h = refl
    back (a ∷ agents) h =
        let later = back agents (λ x m. h x (ground arith)) in
        let first = h a (ground (arith, str_eq_refl a)) in ground arith

validate_agent_references-KnowsAgents :
    (agents : Option (List String)) (w : WorkflowConfig)
    → (validate_agent_references agents w ≡ none) ↔ KnowsAgents agents w
unfolding validate_agent_references
validate_agent_references-KnowsAgents none w = (λ e. tt, λ h. refl)
validate_agent_references-KnowsAgents (some known) w =
    let all = check_agents-Subset w.id known (get_all_agent_ids w) in
    (
      λ e a m. all.0 e a ((get_all_agent_ids-Mentions w a).1 m),
      λ h. all.1 (λ a m. h a ((get_all_agent_ids-Mentions w a).0 m)),
    )

check_circular_dependencies-IsOneWay :
    (w : WorkflowConfig)
    → (check_circular_dependencies w ≡ none)
      ↔ (w.pattern ≡ sequential → IsOneWay (edge_pairs w.topology.edges))
unfolding check_circular_dependencies
check_circular_dependencies-IsOneWay w = elim (Bool-cases (is_sequential w.pattern)) [
  | inl now ↦ rw now (
    λ e p. (check_pairs-IsOneWay w.id (edge_pairs w.topology.edges)).0 e,
    λ h.
        (check_pairs-IsOneWay w.id (edge_pairs w.topology.edges)).1
          (h ((is_sequential_iff w.pattern).0 now)),
  )
  | inr other ↦ rw other (λ e p. absurd (ground (arith, is_sequential_iff w.pattern, p)), λ h. refl)
]

-- The registry accepts a workflow exactly when it is runnable: it has a node, its shape fits the
-- pattern, a given entry node exists, all the agents that it names are known when the agents are
-- set, and in a sequential workflow no edge has the same ends or goes back along another edge.
pub validate_workflow-IsRunnable :
    (agents : Option (List String)) (w : WorkflowConfig)
    → (validate_workflow agents w ≡ none) ↔ IsRunnable agents w
unfolding validate_workflow
validate_workflow-IsRunnable agents w =
    let rest = validate_agent_references agents w then_check check_circular_dependencies w in
    let both = then_check-none (validate_pattern_config w) rest in
    let both' =
      then_check-none (validate_agent_references agents w) (check_circular_dependencies w) in
    (
      λ e. record {
        pattern_fits = (validate_pattern_config-FitsPattern w).0 (both.0 e).0;
        agents_known = (validate_agent_references-KnowsAgents agents w).0 (both'.0 (both.0 e).1).0;
        one_way = (check_circular_dependencies-IsOneWay w).0 (both'.0 (both.0 e).1).1;
      },
      λ r. both.1 (
        (validate_pattern_config-FitsPattern w).1 r.pattern_fits,
        both'.1 (
          (validate_agent_references-KnowsAgents agents w).1 r.agents_known,
          (check_circular_dependencies-IsOneWay w).1 r.one_way,
        ),
      ),
    )
