-- ===== src/VersionedConfig/Service.antt =====
-- src/config/versioned_service.py: update_config and rollback_config.
use delaxis.Prelude.{ℕ, ◌+◌, String, ◌==◌, Option, none, some, [], ◌∷◌, ◌++◌, nat_eq, if◌then◌else◌}
use delaxis.Prelude.Outcome.{Outcome, ret, raise, value_error, ◌>>=◌}
use delaxis.VersionedConfig.Data.{
  Config, Builtins, ChangeSummary, given, initial_configuration, rollback_to_version,
  ConfigSnapshot, ConfigVersion, ConflictResponse, UpdateResult, updated, conflict, RollbackResult,
  rolled_back, version_not_found, config_not_found, Stamp, Table, truthy,
}
use delaxis.VersionedConfig.Queries.{
  where_config, where_version, scalar_one_or_none, get_config, apply_retention_policy,
}
use delaxis.VersionedConfig.Differences.{compute_diff}

unfoldable pub initial_summary : Option String → Option ChangeSummary
initial_summary none = some initial_configuration
initial_summary (some s) = if s == "" then some initial_configuration else some (given s)

unfoldable pub given_summary : Option String → Option ChangeSummary
given_summary none = none
given_summary (some s) = some (given s)

module _ {V : Type 0} where
  unfoldable pub generate_etag : Builtins V → Config V → String
  generate_etag b config_data = b.sha256 (b.dumps config_data)

  -- The row that the operations add.
  unfoldable pub new_snapshot :
      Builtins V → Stamp → String → String → ℕ → Config V → Option ChangeSummary → ConfigSnapshot V
  new_snapshot b stamp t i v c summary = record {
    id = stamp.uuid;
    config_type = t;
    config_id = i;
    version = v;
    etag = generate_etag b c;
    config_data = c;
    created_at = stamp.now;
    updated_by = truthy stamp.user_id;
    change_summary = summary;
  }

  -- A new row for the configuration, after the retention policy has read the committed ones.
  unfoldable pub store_next :
      Builtins V
      → ℕ
      → Stamp
      → String
      → String
      → ℕ
      → Config V
      → Option ChangeSummary
      → Table V
      → Table V
  store_next b max_snapshots stamp t i v c summary rows =
      apply_retention_policy max_snapshots t i rows ++ new_snapshot b stamp t i v c summary ∷ []

  unfoldable pub conflict_with :
      Builtins V
      → Config V
      → Config V
      → ConfigVersion
      → Option ℕ
      → Option String
      → ConflictResponse V
  conflict_with b updates current v provided_version provided_etag = record {
    current_version = v.version;
    current_etag = v.etag;
    current_config = current;
    provided_version = provided_version;
    provided_etag = provided_etag;
    diff = compute_diff b current updates;
  }

  unfoldable pub check_version :
      Builtins V
      → Config V
      → Config V
      → ConfigVersion
      → Option ℕ
      → Outcome (Option (ConflictResponse V))
  check_version b updates current v none = raise value_error
  check_version b updates current v (some n) =
      ret (
        if nat_eq n v.version then none else some (conflict_with b updates current v (some n) none))

  -- The token against the current version: nothing, or the conflict to answer with.
  unfoldable pub check_token :
      Builtins V
      → Option String
      → Config V
      → Config V
      → ConfigVersion
      → Outcome (Option (ConflictResponse V))
  check_token b none updates current v = ret none
  check_token b (some token) updates current v =
      if b.isdigit token
      then check_version b updates current v (b.int token)
      else ret (
          if token == v.etag
          then none
          else some (conflict_with b updates current v none (some token)))

  unfoldable pub finish_update :
      Builtins V
      → ℕ
      → Stamp
      → String
      → String
      → Config V
      → ConfigVersion
      → Option String
      → Table V
      → Option (ConflictResponse V)
      → Table V × UpdateResult V
  finish_update b max_snapshots stamp t i updates v summary rows (some c) = (rows, conflict c)
  finish_update b max_snapshots stamp t i updates v summary rows none = (
    store_next b max_snapshots stamp t i (v.version + 1) updates (given_summary summary) rows,
    updated (generate_etag b updates),
  )

  unfoldable pub update_current :
      Builtins V
      → ℕ
      → Stamp
      → String
      → String
      → Config V
      → Option String
      → Option String
      → Table V
      → Option (Config V × ConfigVersion)
      → Outcome (Table V × UpdateResult V)
  update_current b max_snapshots stamp t i updates token summary rows none = ret (
    rows ++ new_snapshot b stamp t i 1 updates (initial_summary summary) ∷ [],
    updated (generate_etag b updates),
  )
  update_current b max_snapshots stamp t i updates token summary rows (some (current, v)) = do
    refused ← check_token b (truthy token) updates current v
    ret (finish_update b max_snapshots stamp t i updates v summary rows refused)

  unfoldable pub update_config :
      Builtins V
      → ℕ
      → Stamp
      → String
      → String
      → Config V
      → Option String
      → Option String
      → Table V
      → Outcome (Table V × UpdateResult V)
  update_config b max_snapshots stamp t i updates token summary rows = do
    current ← get_config t i rows
    update_current b max_snapshots stamp t i updates token summary rows current

  unfoldable pub rollback_to :
      Builtins V
      → ℕ
      → Stamp
      → String
      → String
      → ℕ
      → Table V
      → Option (ConfigSnapshot V)
      → Option (Config V × ConfigVersion)
      → Table V × RollbackResult
  rollback_to b max_snapshots stamp t i target rows none current = (rows, version_not_found target)
  rollback_to b max_snapshots stamp t i target rows (some r) none = (rows, config_not_found)
  rollback_to b max_snapshots stamp t i target rows (some r) (some (current, v)) = (
    store_next b max_snapshots stamp t i (v.version + 1) r.config_data
        (some (rollback_to_version target)) rows,
    rolled_back (generate_etag b r.config_data),
  )

  unfoldable pub rollback_config :
      Builtins V → ℕ → Stamp → String → String → ℕ → Table V → Outcome (Table V × RollbackResult)
  rollback_config b max_snapshots stamp t i target rows = do
    snapshot ← scalar_one_or_none (where_version target (where_config t i rows))
    current ← get_config t i rows
    ret (rollback_to b max_snapshots stamp t i target rows snapshot current)
