-- ===== src/Crew.antt =====
-- src/crewai_runtime/runtime.py: what CrewAIWorkflowRuntime plans before it hands a crew to CrewAI.
pub mod Order
pub mod Unseen
pub mod Visits
pub mod Text
pub mod Roles
pub mod Inputs
pub mod Context
pub mod Tasks
pub mod Aligned
pub mod Plan
pub mod Planning
pub mod ManagerTools
pub mod Planned
pub mod Configured
pub mod Streams
