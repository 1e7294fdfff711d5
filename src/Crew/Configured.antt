-- ===== src/Crew/Configured.antt =====
-- src/crewai_runtime/runtime.py: which agents a crew without a manager has.
use delaxis.Prelude.{
  String, ◌==◌, Bool, true, false, ◌&&◌, ◌||◌, Option, none, some, List, [], ◌∷◌, contains, lookup,
  if◌then◌else◌, ◌≡◌, refl, ap, ◌∙◌, arith, str_eq_refl, str_eq_iff,
}
use delaxis.Topology.{AgentNode}
use delaxis.ExecutionEvents.Operations.{set_key}
use delaxis.Crew.Roles.{AgentConfig}
use delaxis.Crew.Inputs.{Platform}
use delaxis.Crew.Plan.{staffed, name_if}
use delaxis.Crew.Planning.{
  AgentArguments, CrewWorkflow, Request, CrewAgents, is_manager, add_agent, add_agents, task_inputs,
}

abbrev pub given : {A : Type 0} → Option A → Bool
given none = false
given (some a) = true

abbrev pub agent_ids : List AgentNode → List String
agent_ids [] = []
agent_ids (n ∷ nodes) = n.agent_id ∷ agent_ids nodes

-- The ids of the nodes whose agent has a configuration, in the order of the nodes.
unfoldable pub configured : List (String × AgentConfig) → List AgentNode → List String
configured configs [] = []
configured configs (n ∷ nodes) =
    let rest = configured configs nodes in
    elim (lookup n.agent_id configs) [ none ↦ rest | some config ↦ n.id ∷ rest ]

given-set_key :
    {V : Type 0} (i k : String) (v : V) (d : List (String × V))
    → given (lookup i (set_key k v d)) ≡ ((k == i) || given (lookup i d))
unfolding set_key lookup
given-set_key i k v [] = ground arith
given-set_key i k v ((j, w) ∷ d) =
    ground (arith, given-set_key i k v d, str_eq_iff j k, str_eq_iff k i, str_eq_iff j i)

or_swap : (a b : Bool) → (a || b) ≡ (b || (a && true))
or_swap true true = refl
or_swap true false = refl
or_swap false true = refl
or_swap false false = refl

or_regroup :
    (a known same here later found : Bool)
    → (same ≡ true → here ≡ found)
    → a ≡ (known || (same && here))
    → (a || (later && found)) ≡ (known || ((if same then true else later) && found))
or_regroup a known true here later found h e = rw (e, h refl) (cases known later found)
  where
    cases : (known later found : Bool) → ((known || found) || (later && found)) ≡ (known || found)
    cases true later found = refl
    cases false true true = refl
    cases false true false = refl
    cases false false true = refl
    cases false false false = refl
or_regroup a known false here later found h e = rw e (cases known later found)
  where
    cases :
        (known later found : Bool)
        → ((known || false) || (later && found)) ≡ (known || (later && found))
    cases true later found = refl
    cases false later found = refl

module _ {Agent Task : Type 0} (create_agent : AgentArguments → Agent) (p : Platform Agent Task)
    (w : CrewWorkflow) (r : Request) where
  given-add_agent :
      (order : List AgentNode) (i k : String) (config : Option AgentConfig)
      (crew : CrewAgents Agent)
      → given (lookup i (add_agent create_agent p w r order none k false config crew).by_id)
        ≡ (given (lookup i crew.by_id) || ((k == i) && given config))
  unfolding add_agent
  given-add_agent order i k none crew = ground arith
  given-add_agent order i k (some config) crew =
      given-set_key i k _ crew.by_id ∙ or_swap (k == i) (given (lookup i crew.by_id))

  -- An agent is in the crew exactly if one of the nodes has it and it has a configuration.
  given-add_agents :
      (order nodes : List AgentNode) (i : String) (crew : CrewAgents Agent)
      → given (lookup i (add_agents create_agent p w r order none nodes crew).by_id) ≡ (
          given (lookup i crew.by_id)
          || (contains i (agent_ids nodes) && given (lookup i r.agent_configs)))
  unfolding add_agents is_manager contains
  given-add_agents order [] i crew = ground arith
  given-add_agents order (n ∷ nodes) i crew =
      given-add_agents order nodes i (
        add_agent create_agent p w r order none n.agent_id false (lookup n.agent_id r.agent_configs)
          crew)
      ∙ or_regroup _ (given (lookup i crew.by_id)) (n.agent_id == i)
          (given (lookup n.agent_id r.agent_configs)) (contains i (agent_ids nodes))
          (given (lookup i r.agent_configs))
          (λ same. ap (λ k. given (lookup k r.agent_configs)) ((str_eq_iff n.agent_id i).0 same))
          (given-add_agent order i n.agent_id (lookup n.agent_id r.agent_configs) crew)

  abbrev pub staff : List AgentNode → CrewAgents Agent
  staff order = add_agents create_agent p w r order none order (record { agents = []; by_id = [] })

  given-staff :
      (order : List AgentNode) (i : String)
      → contains i (agent_ids order) ≡ true
      → given (lookup i (staff order).by_id) ≡ given (lookup i r.agent_configs)
  unfolding lookup
  given-staff order i h =
      given-add_agents order order i (record { agents = []; by_id = [] }) ∙ rw h refl

  name_if-configured :
      (agent : Option Agent) (n : AgentNode) (nodes : List AgentNode)
      → given agent ≡ given (lookup n.agent_id r.agent_configs)
      → name_if agent n.id (configured r.agent_configs nodes)
        ≡ configured r.agent_configs (n ∷ nodes)
  unfolding name_if configured
  name_if-configured none n nodes h = ground (arith, h)
  name_if-configured (some agent) n nodes h = ground (arith, h)

  -- The nodes whose agent is in the crew are those whose agent has a configuration.
  staffed-within :
      (order nodes : List AgentNode)
      → ((i : String) → contains i (agent_ids nodes) ≡ true → contains i (agent_ids order) ≡ true)
      → staffed p (task_inputs create_agent p w r (staff order)) nodes
        ≡ configured r.agent_configs nodes
  unfolding staffed configured contains task_inputs
  staffed-within order [] within = refl
  staffed-within order (n ∷ nodes) within =
      let here = within n.agent_id (rw (str_eq_refl n.agent_id) refl) in
      ap (name_if (lookup n.agent_id (staff order).by_id) n.id)
        (staffed-within order nodes (λ i h. within i (ground (arith, h))))
      ∙ name_if-configured (lookup n.agent_id (staff order).by_id) n nodes
          (given-staff order n.agent_id here)

  pub staffed-configured :
      (order : List AgentNode)
      → staffed p (task_inputs create_agent p w r (staff order)) order
        ≡ configured r.agent_configs order
  staffed-configured order = staffed-within order order (λ i h. h)
