-- ===== src/Diagnostics.antt =====
-- src/api/workflow_diagnostics.py: the findings about a graph on the canvas. Of a finding its code and
-- the parts of its message are kept; the suggestions, and the node that is read back out of the
-- field of an error, are left out. The record Host stands for what the server is asked: whether a
-- provider has a key, whether a module is found, and what importing an attribute of it does.
pub mod Findings
pub mod Checks
pub mod Verdict
use delaxis.Prelude.{
  String, ◌==◌, Bool, true, false, not, ◌&&◌, ◌||◌, Option, none, some, List, [], ◌∷◌, ◌++◌,
  contains, lookup, keys, map, if◌then◌else◌,
}
use delaxis.Prelude.Outcome.{Outcome, ret, ◌>>=◌}
use delaxis.Cycles.{Connection, detect_cycles}
use delaxis.Validation.{Node, ValidationError, validate_agent_references, validate_connections}
use delaxis.ExecutionEvents.Operations.{set_key}

pub data Diagnostic : Type 0 where
  workflow_empty : Diagnostic
  agent_not_assigned : String → Diagnostic
  agent_missing : ValidationError → Diagnostic
  invalid_connection : ValidationError → Diagnostic
  cycle_detected : List String → Diagnostic
  entry_node_missing : String → Diagnostic
  no_explicit_edges : Diagnostic
  provider_missing provider_disabled provider_key_missing : String → String → String → Diagnostic
  model_unknown_for_provider : String → String → String → Diagnostic
  tool_missing tool_disabled_but_referenced : String → String → String → Diagnostic
  tool_entrypoint_unimportable : String → String → Diagnostic

pub data Severity : Type 0 where
  error warning info : Severity

unfoldable pub severity : Diagnostic → Severity
severity (cycle_detected cycle) = warning
severity (model_unknown_for_provider agent provider model) = warning
severity no_explicit_edges = info
severity _ = error

-- The settings of the model: `provider_id` and `model` are empty where they are missing.
pub record Llm : Type 0 where
  pub provider_id : String
  pub model : String

pub record Agent : Type 0 where
  pub id : Option String
  pub llm_config : Option Llm
  pub model_config : Option Llm
  pub tools : List String

-- `auth`: whether it has entries, and its entry `required`.
pub record Provider : Type 0 where
  pub id : Option String
  pub enabled : Bool
  pub auth : Bool
  pub auth_required : Option Bool
  pub models : List String

-- `entrypoint`: the module and the attribute, if it has a colon.
pub record Tool : Type 0 where
  pub id : Option String
  pub enabled : Bool
  pub entrypoint : Option (String × String)

pub data Import : Type 0 where
  loaded lacks_attribute fails : Import

pub record Host : Type 0 where
  pub has_key : String → Bool
  pub has_spec : String → Bool
  pub import_module : String → String → Import

pub record CanvasNode : Type 0 where
  pub id : Option String
  pub agent_id : Option String

pub record CanvasConnection : Type 0 where
  pub from_node : Option String
  pub source : Option String
  pub to_node : Option String
  pub target : Option String
  pub type : Option String

pub record CanvasTopology : Type 0 where
  pub has_edges : Bool
  pub has_connections : Bool
  -- in lower case
  pub routing_method : String
  pub domain_agents : Bool

-- `a or b`, for a text that may be missing.
unfoldable pub first_text : Option String → String → String
first_text none b = b
first_text (some a) b = if a == "" then b else a

-- `{str(x["id"]): x for x in xs if x.get("id")}`
unfoldable pub index_by {ℓ} :
    {A : Type ℓ} → (A → Option String) → List A → List (String × A) → List (String × A)
index_by id [] d = d
index_by id (x ∷ xs) d =
    index_by id xs (if first_text (id x) "" == "" then d else set_key (first_text (id x) "") x d)

unfoldable pub llm_of : Agent → Llm
llm_of a = elim a.llm_config [
  | some llm ↦ llm
  | none ↦ elim a.model_config [ some llm ↦ llm | none ↦ record { provider_id = ""; model = "" } ]
]

-- `auth.get("required", bool(auth))`
unfoldable pub needs_key : Provider → Bool
needs_key p = elim p.auth_required [ some required ↦ required | none ↦ p.auth ]

abbrev pub find_if : Bool → Diagnostic → List Diagnostic
find_if b d = if b then d ∷ [] else []

unfoldable pub is_nil : List String → Bool
is_nil [] = true
is_nil (x ∷ xs) = false

unfoldable pub check_provider : Host → String → Llm → String → Option Provider → List Diagnostic
check_provider host agent_id llm node_id none =
    provider_missing agent_id llm.provider_id node_id ∷ []
check_provider host agent_id llm node_id (some p) =
    find_if (not p.enabled) (provider_disabled agent_id llm.provider_id node_id)
    ++ find_if (needs_key p && not (host.has_key llm.provider_id))
        (provider_key_missing agent_id llm.provider_id node_id)
    ++ find_if (not (llm.model == "") && not (is_nil p.models) && not (contains llm.model p.models))
        (model_unknown_for_provider agent_id llm.provider_id llm.model)

unfoldable pub check_agent_model :
    Host → String → Llm → List (String × Provider) → String → List Diagnostic
check_agent_model host agent_id llm providers node_id =
    if llm.provider_id == ""
    then []
    else check_provider host agent_id llm node_id (lookup llm.provider_id providers)

unfoldable pub import_findings : Import → String → String → List Diagnostic
import_findings loaded tool_id path = []
import_findings lacks_attribute tool_id path = tool_entrypoint_unimportable tool_id path ∷ []
import_findings fails tool_id path = tool_entrypoint_unimportable tool_id path ∷ []

unfoldable pub check_entrypoint : Host → Bool → String → Option (String × String) → List Diagnostic
check_entrypoint host probe tool_id none = []
check_entrypoint host probe tool_id (some (path, attribute)) =
    if not (host.has_spec path)
    then tool_entrypoint_unimportable tool_id path ∷ []
    else (if probe then import_findings (host.import_module path attribute) tool_id path else [])

unfoldable pub check_tool_entrypoint : Host → Bool → Tool → List Diagnostic
check_tool_entrypoint host probe t = check_entrypoint host probe (first_text t.id "") t.entrypoint

unfoldable pub check_tool : Host → Bool → String → String → String → Option Tool → List Diagnostic
check_tool host probe agent_id node_id tool_id none = tool_missing agent_id tool_id node_id ∷ []
check_tool host probe agent_id node_id tool_id (some t) =
    find_if (not t.enabled) (tool_disabled_but_referenced agent_id tool_id node_id)
    ++ check_tool_entrypoint host probe t

unfoldable pub check_tools :
    Host → Bool → String → List String → List (String × Tool) → String → List Diagnostic
check_tools host probe agent_id [] tools node_id = []
check_tools host probe agent_id (tool_id ∷ tool_ids) tools node_id =
    check_tool host probe agent_id node_id tool_id (lookup tool_id tools)
    ++ check_tools host probe agent_id tool_ids tools node_id

unfoldable pub structural_checks_applicable : CanvasTopology → Bool
structural_checks_applicable t =
    if not t.has_edges && not t.has_connections
    then false
    else (if t.routing_method == "llm" then false else not t.domain_agents)

abbrev pub node_shim : CanvasNode → Node
node_shim n = record { id = first_text n.id ""; agent_id = first_text n.agent_id "" }

abbrev pub connection_shim : CanvasConnection → Connection
connection_shim c = record {
  from_node = first_text c.from_node (first_text c.source "");
  to_node = first_text c.to_node (first_text c.target "");
  type = first_text c.type "sequential";
}

unfoldable pub unassigned : List Node → List Diagnostic
unassigned [] = []
unassigned (n ∷ nodes) = find_if (n.agent_id == "") (agent_not_assigned n.id) ++ unassigned nodes

unfoldable pub bound : List Node → List Node
bound [] = []
bound (n ∷ nodes) = let rest = bound nodes in if n.agent_id == "" then rest else n ∷ rest

-- `str(n.get("id"))`: a missing id reads None.
abbrev pub shown_id : CanvasNode → String
shown_id n = elim n.id [ none ↦ "None" | some i ↦ i ]

unfoldable pub check_entry : List String → Option String → List Diagnostic
check_entry ids none = []
check_entry ids (some entry) =
    find_if (not (entry == "") && not (contains entry ids)) (entry_node_missing entry)

unfoldable pub check_topology : Option CanvasTopology → List Diagnostic
check_topology none = []
check_topology (some t) = find_if (not (structural_checks_applicable t)) no_explicit_edges

-- The configuration checks of one node, given its agent.
unfoldable pub check_agent :
    Host
    → Bool
    → List (String × Provider)
    → List (String × Tool)
    → Node
    → Option Agent
    → List Diagnostic
check_agent host probe providers tools n none = []
check_agent host probe providers tools n (some a) =
    check_agent_model host n.agent_id (llm_of a) providers n.id
    ++ check_tools host probe n.agent_id a.tools tools n.id

unfoldable pub check_agents :
    Host
    → Bool
    → List (String × Agent)
    → List (String × Provider)
    → List (String × Tool)
    → List Node
    → List Diagnostic
check_agents host probe agents providers tools [] = []
check_agents host probe agents providers tools (n ∷ nodes) =
    check_agent host probe providers tools n (lookup n.agent_id agents)
    ++ check_agents host probe agents providers tools nodes

-- What is configured, by id.
pub record Configured : Type 0 where
  pub agents : List (String × Agent)
  pub tools : List (String × Tool)
  pub providers : List (String × Provider)

unfoldable pub configured : List Agent → List Tool → List Provider → Configured
configured agents tools providers = record {
  agents = index_by (λ a. a.id) agents [];
  tools = index_by (λ t. t.id) tools [];
  providers = index_by (λ p. p.id) providers [];
}

-- The findings about a graph with nodes.
unfoldable pub diagnose_nodes :
    Host
    → Bool
    → List Node
    → List String
    → List Connection
    → Configured
    → Option String
    → Option CanvasTopology
    → Outcome (List Diagnostic)
diagnose_nodes host probe nodes ids connections c entry topology = do
  cycles ← detect_cycles connections
  ret (
      unassigned nodes
      ++ map agent_missing (validate_agent_references (bound nodes) (keys c.agents))
      ++ map invalid_connection (validate_connections nodes connections)
      ++ map cycle_detected cycles
      ++ check_entry ids entry
      ++ check_topology topology
      ++ check_agents host probe c.agents c.providers c.tools nodes)

unfoldable pub diagnose_graph :
    Host
    → Bool
    → List CanvasNode
    → List CanvasConnection
    → Configured
    → Option String
    → Option CanvasTopology
    → Outcome (List Diagnostic)
diagnose_graph host probe [] connections c entry topology = ret (workflow_empty ∷ [])
diagnose_graph host probe (n ∷ nodes) connections c entry topology =
    diagnose_nodes host probe (map node_shim (n ∷ nodes)) (map shown_id (n ∷ nodes))
      (map connection_shim connections) c entry topology
