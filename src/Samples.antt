-- ===== src/Samples.antt =====
-- Small inputs, what the code does on them, and the theorems at them.
mod Graphs
mod Versions
mod Workflows
mod Caches
mod Requests
mod Counts
mod Tickets
mod Audits
mod Nodes
mod Crews
mod Events
mod Chunks
mod Plans
mod Diagnoses
mod Conversations
