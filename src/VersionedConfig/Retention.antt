-- ===== src/VersionedConfig/Retention.antt =====
-- src/config/versioned_service.py: what update_config and the retention policy keep.
use delaxis.Prelude.{
  ℕ, ◌+◌, ◌-◌, ◌<◌, String, Option, some, [], ◌∷◌, ◌++◌, length, drop, All, ltb, if◌then◌else◌,
  length-append, ◌≡◌, refl, ◌∙◌, arith,
}
use delaxis.Prelude.Outcome.{ret}
use delaxis.VersionedConfig.Data.{
  Config, Builtins, ChangeSummary, ConfigSnapshot, ConfigVersion, updated, Stamp, Table,
}
use delaxis.VersionedConfig.Queries.{where_config, get_config, apply_retention_policy}
use delaxis.VersionedConfig.Service.{
  generate_etag, new_snapshot, store_next, finish_update, update_current, update_config,
  given_summary,
}
use delaxis.VersionedConfig.Selection.{HasDistinctIds, where_config-append}
use delaxis.VersionedConfig.Commits.{where_config-own, get_config-newest}
use delaxis.VersionedConfig.Updates.{Matches, check_token-Matches}
use delaxis.VersionedConfig.History.{
  Ascending, Ascending-drop, Ascending-append, All-drop, apply_retention_policy-own, length-drop,
}

-- The rows of the configuration after a new version: the oldest ones gone, the new one last.
pub record IsRetained {V : Type 0} (max_snapshots : ℕ) (own own' : Table V) (v : ℕ) (c : Config V)
    : Type 0 where
  pub rows_kept :
      (n : ConfigSnapshot V) × (own' ≡ drop (length own - max_snapshots) own ++ n ∷ [])
      × (n.version ≡ v)
      × (n.config_data ≡ c)
  pub ordered : Ascending own'
  pub size :
      length own' ≡ (if ltb max_snapshots (length own) then max_snapshots + 1 else length own + 1)

module _ {V : Type 0} (b : Builtins V) (max_snapshots : ℕ) (stamp : Stamp) (t i : String) where
  pub store_next-IsRetained :
      (v : ℕ) (c : Config V) (summary : Option ChangeSummary) (rows : Table V)
      → HasDistinctIds rows
      → Ascending (where_config t i rows)
      → All (λ r. r.version < v) (where_config t i rows)
      → IsRetained max_snapshots
          (where_config t i rows)
          (where_config t i (store_next b max_snapshots stamp t i v c summary rows))
          v
          c
  unfolding store_next new_snapshot
  store_next-IsRetained v c summary rows distinct ordered below =
      let own = where_config t i rows in
      let n = new_snapshot b stamp t i v c summary in
      let kept : where_config t i (apply_retention_policy max_snapshots t i rows ++ n ∷ [])
          ≡ drop (length own - max_snapshots) own ++ n ∷ [] =
        where_config-append t i (apply_retention_policy max_snapshots t i rows) (n ∷ [])
        ∙ rw
            (
              apply_retention_policy-own max_snapshots t i rows distinct ordered,
              where_config-own b stamp t i n refl refl,
            )
            refl in
      rw kept (record {
        rows_kept = (n, refl, refl, refl);
        ordered =
            Ascending-append (drop (length own - max_snapshots) own) n
              (Ascending-drop (length own - max_snapshots) own ordered)
              (All-drop (λ r. r.version < v) (length own - max_snapshots) own below);
        size =
            length-append (drop (length own - max_snapshots) own) (n ∷ [])
            ∙ ground (arith, length-drop (length own - max_snapshots) own);
      })

-- An update that the token allows keeps the newest rows of the configuration and adds one: of the
-- rows in ascending order of versions it deletes all but the last max_snapshots, and the new version
-- stands last, so the rows stay ascending and at most max_snapshots + 1 of them are stored.
pub update_config-IsRetained :
    {V : Type 0} (b : Builtins V) (max_snapshots : ℕ) (stamp : Stamp) (t i : String)
    (updates : Config V) (token summary : Option String) (rows : Table V) {c : Config V}
    {v : ConfigVersion}
    → HasDistinctIds rows
    → Ascending (where_config t i rows)
    → get_config t i rows ≡ ret (some (c, v))
    → Matches b token v
    → (rows' : Table V) × (update_config b max_snapshots stamp t i updates token summary rows
        ≡ ret (rows', updated (generate_etag b updates)))
      × IsRetained max_snapshots
          (where_config t i rows)
          (where_config t i rows')
          (v.version + 1)
          updates
unfolding update_config update_current finish_update
update_config-IsRetained b max_snapshots stamp t i updates token summary rows {c} {v} distinct
      ordered at matches =
    (
      store_next b max_snapshots stamp t i (v.version + 1) updates (given_summary summary) rows,
      rw (at, check_token-Matches b updates c v token matches),
      store_next-IsRetained b max_snapshots stamp t i (v.version + 1) updates
          (given_summary summary) rows distinct ordered (get_config-newest b stamp t i rows at),
    )
