-- ===== src/Samples/Diagnoses.antt =====
-- The diagnosis of a graph of two nodes.
use delaxis.Prelude.{none, some, true, false, List, [], ◌∷◌, ◌==◌}
use delaxis.Diagnostics.{Host, loaded, CanvasNode, CanvasConnection, Configured, configured}

abbrev host : Host
host = record {
  has_key = λ provider. provider == "openai";
  has_spec = λ path. true;
  import_module = λ path attribute. loaded;
}

abbrev nodes : List CanvasNode
nodes =
    record { id = some "a"; agent_id = some "planner" }
    ∷ record { id = some "b"; agent_id = none }
    ∷ []

abbrev connections : List CanvasConnection
connections =
    record { from_node = none; source = some "a"; to_node = some "b"; target = none; type = none }
    ∷ []

abbrev set_up : Configured
set_up =
    configured
      (record {
        id = some "planner";
        llm_config = some (record { provider_id = "openai"; model = "small" });
        model_config = none;
        tools = "search" ∷ [];
      }
        ∷ [])
      (record { id = some "search"; enabled = false; entrypoint = none } ∷ [])
      (record {
        id = some "openai";
        enabled = true;
        auth = true;
        auth_required = none;
        models = "small" ∷ [];
      }
        ∷ [])
