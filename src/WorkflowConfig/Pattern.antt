-- ===== src/WorkflowConfig/Pattern.antt =====
-- src/config/workflow_models.py: what `validate_pattern_config` accepts, and which agents
-- `get_all_agent_ids` collects.
use delaxis.Prelude.{
  ◌<◌, ◌≤◌, String, ◌==◌, Bool, true, false, not, ◌&&◌, ◌||◌, Option, none, some, List, [], ◌∷◌,
  length, contains, map, nat_eq, ltb, if◌then◌else◌, ◌≡◌, ◌≢◌, ◌↔◌, ◌⊎◌, inl, inr, refl, ◌∙◌, arith,
  str_eq_iff, contains-add,
}
use delaxis.Topology.{AgentNode, node_ids}
use delaxis.WorkflowConfig.{
  ConversationPattern, single, selector, sequential, InteractiveConfig, WorkflowConfig,
  WorkflowError, ◌then_check◌, raise_if, is_single, is_selector, is_sequential,
  validate_pattern_config, agent_set, add_all, interactive_agents, get_all_agent_ids, no_nodes,
  unknown_entry,
}

pub then_check-none :
    (first second : Option WorkflowError)
    → ((first then_check second) ≡ none) ↔ ((first ≡ none) × (second ≡ none))
unfolding ◌then_check◌
then_check-none none second = (λ e. (refl, e), λ h. h.1)
then_check-none (some x) second = (λ e. cc, λ h. cc)

raise_if-none : (b : Bool) (e : WorkflowError) → (raise_if b e ≡ none) ↔ (b ≡ false)
raise_if-none true e = (λ h. cc, λ h. cc)
raise_if-none false e = (λ h. refl, λ h. refl)

-- The shape that the pattern asks for.
pub record FitsPattern (w : WorkflowConfig) : Type 0 where
  pub some_node : 0 < length w.topology.nodes
  pub single_node : w.pattern ≡ single → length w.topology.nodes ≡ 1
  pub selector_nodes : w.pattern ≡ selector → 2 ≤ length w.topology.nodes
  pub entry_known :
      w.topology.entry_node ≢ "" → contains w.topology.entry_node (node_ids w.topology.nodes) ≡ true

is_single_iff : (p : ConversationPattern) → (is_single p ≡ true) ↔ (p ≡ single)
unfolding is_single
is_single_iff p = ground arith

is_selector_iff : (p : ConversationPattern) → (is_selector p ≡ true) ↔ (p ≡ selector)
unfolding is_selector
is_selector_iff p = ground arith

pub is_sequential_iff : (p : ConversationPattern) → (is_sequential p ≡ true) ↔ (p ≡ sequential)
unfolding is_sequential
is_sequential_iff p = ground arith

four-none :
    (a b c d : Bool) (e f g h : WorkflowError)
    → ((raise_if a e then_check raise_if b f then_check raise_if c g then_check raise_if d h)
        ≡ none)
      ↔ ((a ≡ false) × (b ≡ false) × (c ≡ false) × (d ≡ false))
unfolding ◌then_check◌
four-none true b c d e f g h = (λ p. cc, λ p. absurd (cc))
four-none false true c d e f g h = (λ p. cc, λ p. cc)
four-none false false true d e f g h = (λ p. cc, λ p. cc)
four-none false false false true e f g h = (λ p. cc, λ p. cc)
four-none false false false false e f g h = (λ p. (refl, refl, refl, refl), λ p. refl)

pub validate_pattern_config-FitsPattern :
    (w : WorkflowConfig) → (validate_pattern_config w ≡ none) ↔ FitsPattern w
unfolding validate_pattern_config
validate_pattern_config-FitsPattern w =
    let n = length w.topology.nodes in
    let tests =
      four-none (nat_eq n 0) (is_single w.pattern && not (nat_eq n 1))
        (is_selector w.pattern && ltb n 2)
        (not (w.topology.entry_node == "")
          && not (contains w.topology.entry_node (node_ids w.topology.nodes)))
        (no_nodes w.id) (WorkflowError.single_nodes w.id n) (WorkflowError.selector_nodes w.id n)
        (unknown_entry w.id w.topology.entry_node) in
    (
      λ e.
          let (filled, one, two, entry) = tests.0 e in
          record {
            some_node = ground (arith, filled);
            single_node = λ p. ground (arith, one, is_single_iff w.pattern, p);
            selector_nodes = λ p. ground (arith, two, is_selector_iff w.pattern, p);
            entry_known =
                λ given. ground (arith, entry, str_eq_iff w.topology.entry_node "", given);
          },
      λ fits. tests.1 (
        ground (arith, fits.some_node),
        ground (arith, fits.single_node, is_single_iff w.pattern),
        ground (arith, fits.selector_nodes, is_selector_iff w.pattern),
        ground (arith, fits.entry_known, str_eq_iff w.topology.entry_node ""),
      ),
    )

contains-add_all :
    (x : String) (xs s : List String)
    → contains x (add_all xs s) ≡ (if contains x xs then true else contains x s)
unfolding add_all contains
contains-add_all x [] s = refl
contains-add_all x (y ∷ xs) s =
    contains-add x y (add_all xs s) ∙ ground (arith, contains-add_all x xs s)

pub contains-agent_set :
    (x : String) (nodes : List AgentNode)
    → contains x (agent_set nodes) ≡ contains x (map (λ n. n.agent_id) nodes)
unfolding agent_set contains
contains-agent_set x [] = refl
contains-agent_set x (n ∷ nodes) =
    contains-add x n.agent_id (agent_set nodes) ∙ ground (arith, contains-agent_set x nodes)

-- The interactive part is enabled and names the agent.
abbrev pub IsInteractive : Option InteractiveConfig → String → Type 0
IsInteractive none a = ⊥
IsInteractive (some c) a =
    (c.enabled ≡ true) × ((c.default_agent ≡ a) ⊎ (contains a c.available_agents ≡ true))

-- The workflow names the agent: in a node, or in the interactive part when that is enabled.
abbrev pub Mentions : WorkflowConfig → String → Type 0
Mentions w a =
    (contains a (map (λ n. n.agent_id) w.topology.nodes) ≡ true)
    ⊎ IsInteractive w.interactive_config a

contains-interactive_agents :
    (a : String) (s : List String) (c : InteractiveConfig)
    → contains a (interactive_agents (some c) s) ≡ (
        if c.enabled && ((c.default_agent == a) || contains a c.available_agents)
        then true
        else contains a s)
unfolding interactive_agents
contains-interactive_agents a s c = ground (
  arith,
  contains-add a c.default_agent (add_all c.available_agents s),
  contains-add_all a c.available_agents s,
)

interactive_agents-Mentions :
    (nodes : List AgentNode) (o : Option InteractiveConfig) (a : String)
    → (contains a (interactive_agents o (agent_set nodes)) ≡ true)
      ↔ ((contains a (map (λ n. n.agent_id) nodes) ≡ true) ⊎ IsInteractive o a)
unfolding interactive_agents
interactive_agents-Mentions nodes none a =
    rw (contains-agent_set a nodes)
      (λ h. inl h, λ h. elim h [ inl x ↦ x | inr never ↦ absurd never ])
interactive_agents-Mentions nodes (some c) a =
    rw (contains-interactive_agents a (agent_set nodes) c, contains-agent_set a nodes)
      (ground (arith, str_eq_iff c.default_agent a))

pub get_all_agent_ids-Mentions :
    (w : WorkflowConfig) (a : String) → (contains a (get_all_agent_ids w) ≡ true) ↔ Mentions w a
unfolding get_all_agent_ids
get_all_agent_ids-Mentions w a = interactive_agents-Mentions w.topology.nodes w.interactive_config a
