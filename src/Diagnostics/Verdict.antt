-- ===== src/Diagnostics/Verdict.antt =====
-- src/api/workflow_diagnostics.py: a graph has no finding of severity error exactly if it can run.
use delaxis.Prelude.{
  String, ◌==◌, Bool, true, false, Option, List, [], contains, lookup, keys, map, All, ◌≡◌, ◌≢◌,
}
use delaxis.Cycles.{Connection}
use delaxis.Cycles.Report.{Findings}
use delaxis.Validation.{Node, node_ids}
use delaxis.Validation.Verdict.{IsWired}
use delaxis.Diagnostics.{
  Host, CanvasNode, CanvasConnection, node_shim, connection_shim, shown_id, Configured,
}
use delaxis.Diagnostics.Checks.{Served}
use delaxis.Diagnostics.Findings.{Entered}

module _ (host : Host) (probe : Bool) where
  -- Every node has an agent that is configured, with a model and tools that can be used; every connection joins
  -- two nodes; and the entry, if it is given, is a node.
  pub record CanRun (nodes : List Node) (ids : List String) (connections : List Connection)
      (c : Configured) (entry : Option String) : Type 0 where
    pub assigned : All (λ n. (n.agent_id == "") ≡ false) nodes
    pub agents_known : All (λ n. contains n.agent_id (keys c.agents) ≡ true) nodes
    pub wired : All (IsWired (node_ids nodes)) connections
    pub entered : Entered ids entry
    pub served : All (λ n. Served host probe c (lookup n.agent_id c.agents)) nodes

  -- CanRun for a graph on the canvas, which has a node.
  abbrev pub Runnable :
      List CanvasNode → List CanvasConnection → Configured → Option String → Type 0
  Runnable nodes connections c entry =
      (nodes ≢ [])
      × CanRun (map node_shim nodes) (map shown_id nodes) (map connection_shim connections) c entry
