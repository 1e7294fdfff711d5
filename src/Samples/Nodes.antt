-- ===== src/Samples/Nodes.antt =====
-- Nodes of a topology without attachments.
use delaxis.Prelude.{String, false, []}
use delaxis.Topology.{AgentNode}

abbrev pub plain_node : String → String → AgentNode
plain_node id agent_id = record {
  id = id;
  agent_id = agent_id;
  is_router = false;
  tools = [];
  memory = false;
  knowledge = false;
  config_override = [];
}
