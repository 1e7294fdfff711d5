-- ===== src/VersionedConfig.antt =====
-- src/config/versioned_service.py: VersionedConfigService over the table config_snapshots.
-- The table is the list of its committed rows in the order of their insertion; SELECT with WHERE,
-- ORDER BY and LIMIT is read as a filter, a sort and a prefix. The session is opened with
-- autoflush=False (src/infrastructure/database/connection.py), so the queries of an operation see
-- the committed rows only, and the row that it adds is written by the commit. The record Builtins
-- stands for json.dumps, sha256, str.isdigit, int and the equality of JSON values.
pub mod Data
pub mod Queries
pub mod Differences
pub mod Changes
pub mod Service
pub mod Selection
pub mod Latest
pub mod Keys
pub mod Commits
pub mod Updates
pub mod History
pub mod Retention
pub mod Rollback
