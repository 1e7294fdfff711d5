-- ===== src/Validation.antt =====
-- src/api/workflow_validation.py: the checks behind "Validate" in the visual builder. The texts of
-- errors and warnings are kept as the parts that the f-strings are made of.
pub mod Verdict
pub mod Warnings
use delaxis.Prelude.{
  ℕ, ◌+◌, String, ◌==◌, Bool, true, false, not, ◌||◌, List, [], ◌∷◌, ◌++◌, contains, add, map,
  if◌then◌else◌,
}
use delaxis.Prelude.Outcome.{Outcome, ret, ◌>>=◌}
use delaxis.Cycles.{Connection, detect_cycles}

-- What the validators read from a node.
pub record Node : Type 0 where
  pub id : String
  pub agent_id : String

pub data Field : Type 0 where
  -- nodes[{id}].agent_id
  agent_id_of : String → Field
  -- connections[{i}].from_node, .to_node, .type
  from_node_at to_node_at type_at : ℕ → Field
  connections : Field

pub data Message : Type 0 where
  agent_not_found node_not_found invalid_type : String → Message
  -- the nodes joined by ' -> '
  cycle_of : List String → Message

pub data ErrorType : Type 0 where
  missing_reference missing_node invalid_value cycle_detected : ErrorType

pub record ValidationError : Type 0 where
  pub field : Field
  pub message : Message
  pub error_type : ErrorType

pub data Warning : Type 0 where
  disconnected_nodes : List String → Warning

unfoldable pub validate_agent_references : List Node → List String → List ValidationError
validate_agent_references [] available = []
validate_agent_references (n ∷ nodes) available =
    let rest = validate_agent_references nodes available in
    if contains n.agent_id available
    then rest
    else record {
      field = agent_id_of n.id;
      message = agent_not_found n.agent_id;
      error_type = missing_reference;
    }
      ∷ rest

abbrev pub node_ids : List Node → List String
node_ids nodes = map (λ n. n.id) nodes

-- `conn.type in ["sequential", "parallel"]`
unfoldable pub known_type : String → Bool
known_type t = t == "sequential" || t == "parallel"

-- The three checks of one connection, at its position.
unfoldable pub connection_errors : List String → ℕ → Connection → List ValidationError
connection_errors ids i c =
    (if contains c.from_node ids
      then []
      else record {
        field = from_node_at i;
        message = node_not_found c.from_node;
        error_type = missing_node;
      }
        ∷ [])
    ++ (if contains c.to_node ids
        then []
        else record {
          field = to_node_at i;
          message = node_not_found c.to_node;
          error_type = missing_node;
        }
          ∷ [])
    ++ (if known_type c.type
        then []
        else record { field = type_at i; message = invalid_type c.type; error_type = invalid_value }
          ∷ [])

unfoldable pub connections_errors : List String → ℕ → List Connection → List ValidationError
connections_errors ids i [] = []
connections_errors ids i (c ∷ cs) = connection_errors ids i c ++ connections_errors ids (i + 1) cs

unfoldable pub validate_connections : List Node → List Connection → List ValidationError
validate_connections nodes cs = connections_errors (node_ids nodes) 0 cs

unfoldable pub cycle_errors : List (List String) → List ValidationError
cycle_errors [] = []
cycle_errors (cycle ∷ cycles) =
    record { field = connections; message = cycle_of cycle; error_type = cycle_detected }
    ∷ cycle_errors cycles

-- The set of the nodes that some connection touches.
unfoldable pub connected_nodes : List Connection → List String
connected_nodes [] = []
connected_nodes (c ∷ cs) = add c.from_node (add c.to_node (connected_nodes cs))

-- `{node.id for node in nodes} - connected_nodes`, in the order of the nodes.
unfoldable pub disconnected : List Node → List String → List String
disconnected [] connected = []
disconnected (n ∷ nodes) connected =
    let rest = disconnected nodes connected in
    if contains n.id connected then rest else add n.id rest

unfoldable pub disconnected_warnings : List String → List Warning
disconnected_warnings [] = []
disconnected_warnings (x ∷ xs) = disconnected_nodes (x ∷ xs) ∷ []

pub record Validation : Type 0 where
  pub is_valid : Bool
  pub errors : List ValidationError
  pub warnings : List Warning

-- `len(errors) == 0`
unfoldable pub is_empty : List ValidationError → Bool
is_empty [] = true
is_empty (e ∷ es) = false

unfoldable pub validate_workflow : List Node → List Connection → List String → Outcome Validation
validate_workflow nodes cs available_agents = do
  cycles ← detect_cycles cs
  let errors =
      validate_agent_references nodes available_agents
      ++ validate_connections nodes cs
      ++ cycle_errors cycles
  let warnings = disconnected_warnings (disconnected nodes (connected_nodes cs))
  ret (record { is_valid = is_empty errors; errors = errors; warnings = warnings })
