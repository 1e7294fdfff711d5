-- ===== src/VersionedConfig/Queries.antt =====
-- src/config/versioned_service.py: the queries, and the retention policy.
use delaxis.Prelude.{
  ℕ, ◌-◌, String, ◌==◌, Bool, ◌&&◌, Option, none, some, List, [], ◌∷◌, length, take, contains, ltb,
  leb, nat_eq, if◌then◌else◌,
}
use delaxis.Prelude.Outcome.{Outcome, ret, raise, multiple_results, ◌>>=◌}
use delaxis.VersionedConfig.Data.{Config, ConfigSnapshot, ConfigVersion, Table}

module _ {V : Type 0} where
  unfoldable pub of_config : String → String → ConfigSnapshot V → Bool
  of_config t i r = (r.config_type == t) && (r.config_id == i)

  unfoldable pub where_config : String → String → Table V → Table V
  where_config t i [] = []
  where_config t i (r ∷ rows) =
      let rest = where_config t i rows in if of_config t i r then r ∷ rest else rest

  unfoldable pub where_version : ℕ → Table V → Table V
  where_version v [] = []
  where_version v (r ∷ rows) =
      let rest = where_version v rows in if nat_eq r.version v then r ∷ rest else rest

  unfoldable pub insert_desc : ConfigSnapshot V → Table V → Table V
  insert_desc r [] = r ∷ []
  insert_desc r (s ∷ rows) =
      let rest = insert_desc r rows in if leb s.version r.version then r ∷ s ∷ rows else s ∷ rest

  -- .order_by(desc(ConfigSnapshot.version))
  unfoldable pub order_by_desc : Table V → Table V
  order_by_desc [] = []
  order_by_desc (r ∷ rows) = insert_desc r (order_by_desc rows)

  unfoldable pub insert_asc : ConfigSnapshot V → Table V → Table V
  insert_asc r [] = r ∷ []
  insert_asc r (s ∷ rows) =
      let rest = insert_asc r rows in if leb r.version s.version then r ∷ s ∷ rows else s ∷ rest

  -- .order_by(ConfigSnapshot.version)
  unfoldable pub order_by_version : Table V → Table V
  order_by_version [] = []
  order_by_version (r ∷ rows) = insert_asc r (order_by_version rows)

  unfoldable pub scalar_one_or_none : Table V → Outcome (Option (ConfigSnapshot V))
  scalar_one_or_none [] = ret none
  scalar_one_or_none (r ∷ []) = ret (some r)
  scalar_one_or_none (r ∷ s ∷ rows) = raise multiple_results

  unfoldable pub version_info : ConfigSnapshot V → ConfigVersion
  version_info r = record {
    version = r.version;
    etag = r.etag;
    last_updated = r.created_at;
    updated_by = r.updated_by;
  }

  unfoldable pub read : Option (ConfigSnapshot V) → Option (Config V × ConfigVersion)
  read none = none
  read (some r) = some (r.config_data, version_info r)

  unfoldable pub get_config :
      String → String → Table V → Outcome (Option (Config V × ConfigVersion))
  get_config t i rows = do
    snapshot ← scalar_one_or_none (take 1 (order_by_desc (where_config t i rows)))
    ret (read snapshot)

  unfoldable pub get_config_history : String → String → ℕ → Table V → Table V
  get_config_history t i limit rows = take limit (order_by_desc (where_config t i rows))

  unfoldable pub ids : Table V → List String
  ids [] = []
  ids (r ∷ rows) = r.id ∷ ids rows

  -- delete(ConfigSnapshot).where(ConfigSnapshot.id.in_(doomed))
  unfoldable pub delete_ids : List String → Table V → Table V
  delete_ids doomed [] = []
  delete_ids doomed (r ∷ rows) =
      let rest = delete_ids doomed rows in if contains r.id doomed then rest else r ∷ rest

  unfoldable pub apply_retention_policy : ℕ → String → String → Table V → Table V
  apply_retention_policy max_snapshots t i rows =
      let count = length (where_config t i rows) in
      if ltb max_snapshots count
      then delete_ids
          (ids (take (count - max_snapshots) (order_by_version (where_config t i rows)))) rows
      else rows
