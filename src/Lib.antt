-- ===== src/Lib.antt =====
-- Verification of Delaxis, a platform on which workflows of agents are designed, checked, stored and
-- run.
--
-- A workflow is drawn as nodes and connections on a canvas. The API checks the drawing before it is
-- saved (src/api/workflow_validation.py); the same graph is stored as a topology, which checks itself
-- when it is built (src/config/topology_models.py); the registry keeps the workflows of the
-- configuration file and checks each before it takes it (src/config/workflow_models.py,
-- src/config/workflow_registry.py); and the versions of each configuration are rows of a table that is
-- updated with optimistic locking (src/config/versioned_service.py). A message to a workflow is run by
-- a crew: the runtime puts the nodes of the topology in an order and makes the tasks
-- (src/crewai_runtime/runtime.py), an emitter streams what they do
-- (src/crewai_runtime/execution_events.py), and an audit trail keeps what happened
-- (src/tools/audit_trail.py).
--
-- Files and code:
--   Graph, Graph/        directed graphs as the adjacency dictionaries of the code, and the relations,
--                        paths and cycles that the statements are about.
--   Cycles, Cycles/      detect_cycles of src/api/workflow_validation.py. The sets and lists that the
--                        closure dfs shares with its calls are the record Search.
--   Validation, Validation/  the other checks of that file, and validate_workflow.
--   Diagnostics, Diagnostics/  src/api/workflow_diagnostics.py, which adds the checks of the
--                        configuration to those of Validation; what the server is asked is the record
--                        Host.
--   Reachability, CycleCheck, Topology, with their folders: TopologyConfig of
--                        src/config/topology_models.py; _get_reachable_nodes is get_reachable_nodes,
--                        _has_cycle is has_cycle, and the validators keep their names.
--   WorkflowConfig, WorkflowConfig/  the checks of WorkflowConfig and WorkflowsConfig in
--                        src/config/workflow_models.py.
--   WorkflowRegistry, WorkflowRegistry/  the operations of src/config/workflow_registry.py;
--                        WorkflowRegistry.get_workflow is find_workflow, and validate_all is
--                        validate_registry.
--   VersionedConfig, VersionedConfig/  VersionedConfigService of src/config/versioned_service.py over
--                        the rows of ConfigSnapshot (src/infrastructure/database/schema.py).
--   LruCache, LfuCache, with their folders: LRUCache and LFUCache of
--                        src/infrastructure/cache_manager.py; a call holds the lock from its start to
--                        its end, so it is one step.
--   RateLimiting, RateLimiting/  RateLimitingMiddleware of src/api/rate_limiting.py: _is_rate_limited is
--                        is_rate_limited, and __call__ is call, for the entries of one caller.
--   VoiceTickets, VoiceTickets/  redeem of src/api/voice/tickets.py.
--   AuditTrail, AuditTrail/  src/tools/audit_trail.py. The connection is the record Table of rows in the
--                        order of their ids; the lock is held by each operation as a whole.
--   Crew, Crew/          what src/crewai_runtime/runtime.py plans before it hands a crew to CrewAI:
--                        _ordered_nodes is ordered_nodes (Crew/Order), _manager_node, _node_attachments
--                        and _resolve_process are in Crew/Roles, _upstream_task_pairs in Crew/Context,
--                        and _create_tasks in Crew/Tasks; the part of _run_message_inner that puts
--                        these together is plan_crew in Crew/Planning. The classes of CrewAI are the
--                        record Platform, and _create_agent is a parameter.
--   ExecutionEvents, ExecutionEvents/  ExecutionEventEmitter of src/crewai_runtime/execution_events.py,
--                        which streams the tasks of such a crew; its fields are the record Emitter.
--   Chunking, Chunking/  src/rag/chunking.py, which splits documents for retrieval. The regular
--                        expressions are the record Patterns; the loop of chunk_text is chunk_loop.
--   Conversations, Conversations/  InMemoryConversationStore of src/memory/inmemory.py and
--                        ConversationState of src/memory/models.py.
--   Prelude, Prelude/    lists, names, dictionaries, signed integers, and the outcomes of Python
--                        routines.
--   Samples, Samples/    small inputs.
--
-- Sets and dictionaries are lists in the order of insertion; where Python leaves the order of a set
-- open, the lists fix one. A routine that can raise returns an Outcome; a check that can only raise or
-- pass is the optional exception. The texts of messages are kept as the parts that they are made of.
--
-- The two depth-first searches and the breadth-first search recurse on fuel. The depth-first searches
-- and the order of the nodes (visit in Crew/Order) get the number of the names in the graph: a call is
-- made only for a name not yet visited, so the nesting is no deeper. The breadth-first search gets one
-- round for each entry that can enter its queue. The loop of chunk_text gets one round for each
-- character, and each round moves on by at least one. The theorems about them are about what they
-- return, and so also say that the fuel is enough. Python's own limit on the depth of recursion is not
-- modelled.
--
-- Not modelled: the run of a crew by CrewAI, the routers and sessions of the API, authentication, the
-- broker, the Redis caches, the stores of vectors, the connectors, the tools of agents but for the
-- audit trail, voice and the Studio. They are mostly calls of services and libraries. In the modelled
-- files the logging, the audit log, the reading and writing of files, and the formats that pydantic
-- enforces are left out. The database is read as a table whose statements do what SQL says; concurrent
-- sessions are left out.
pub mod Prelude
pub mod Graph
pub mod Cycles
pub mod Validation
pub mod Reachability
pub mod CycleCheck
pub mod Topology
pub mod VersionedConfig
pub mod WorkflowConfig
pub mod WorkflowRegistry
pub mod LruCache
pub mod RateLimiting
pub mod LfuCache
pub mod VoiceTickets
pub mod AuditTrail
pub mod Crew
pub mod Conversations
pub mod Diagnostics
pub mod Chunking
pub mod ExecutionEvents
mod Samples
