-- ===== src/VersionedConfig/Rollback.antt =====
-- src/config/versioned_service.py: rollback_config.
use delaxis.Prelude.{
  subst, ℕ, ◌+◌, ◌<◌, String, false, Option, none, some, [], ◌∷◌, ◌++◌, nat_eq, nat_eq_iff,
  contains, All, ◌≡◌, ◌≢◌, refl, sym, ap, ◌∙◌, arith, Bool-cases, inl, inr,
}
use delaxis.Prelude.Outcome.{Outcome, ret, ◌>>=◌}
use delaxis.VersionedConfig.Data.{
  Config, Builtins, rollback_to_version, ConfigSnapshot, ConfigVersion, RollbackResult, rolled_back,
  version_not_found, Stamp, Table,
}
use delaxis.VersionedConfig.Queries.{
  where_config, where_version, scalar_one_or_none, order_by_desc, read, get_config, ids,
}
use delaxis.VersionedConfig.Service.{generate_etag, rollback_to, rollback_config}
use delaxis.VersionedConfig.Selection.{HasDistinctIds}
use delaxis.VersionedConfig.Latest.{head, get_config_lem}
use delaxis.VersionedConfig.Commits.{
  IsCommitted, store_next-IsCommitted, get_config-newest, get_config-none,
}
use delaxis.VersionedConfig.History.{Ascending, where_version-absent}

-- The row of the version stands in the history.
abbrev pub Stored : {V : Type 0} → ℕ → ConfigSnapshot V → Table V → Type 0
Stored {V} target r own =
    (before after : Table V) × (own ≡ before ++ r ∷ after) × (r.version ≡ target)

module _ {V : Type 0} where
  -- The two ends of the query for one version.
  data Selected (target : ℕ) (own : Table V) : Table V → Type 0 where
    missing : All (λ r. r.version ≢ target) own → Selected target own []
    found : (r : ConfigSnapshot V) → Stored target r own → Selected target own (r ∷ [])

  append-nonempty :
      (before : Table V) (r : ConfigSnapshot V) (after : Table V) → [] ≡ before ++ r ∷ after → ⊥
  append-nonempty [] r after e = cc
  append-nonempty (s ∷ before) r after e = cc

  Selected-cons :
      (target : ℕ) (s : ConfigSnapshot V) (own : Table V) {hits : Table V}
      → s.version ≢ target
      → Selected target own hits
      → Selected target (s ∷ own) hits
  Selected-cons target s own other (missing none_of) = missing (other, none_of)
  Selected-cons target s own other (found r (before, after, e, at)) =
      found r (s ∷ before, after, ap (λ l. s ∷ l) e, at)

  where_version-Selected :
      (target : ℕ) (own : Table V) → Ascending own → Selected target own (where_version target own)
  unfolding where_version
  where_version-Selected target [] h = missing tt
  where_version-Selected target (s ∷ own) h = elim (Bool-cases (nat_eq s.version target)) [
    | inl same ↦
        let at : s.version ≡ target = (nat_eq_iff s.version target).0 same in
        let later : where_version target own ≡ [] =
          where_version-absent target own (subst (λ m. All (λ r. m < r.version) own) at h.0) in
        rw (same, later) (found s ([], own, refl, at))
    | inr other ↦ rw other (
        Selected-cons target s own (λ e. ground (arith, nat_eq_iff s.version target))
          (where_version-Selected target own h.1))
  ]

module _ {V : Type 0} (b : Builtins V) (stamp : Stamp) (t i : String) (target : ℕ)
    (rows : Table V) where
  -- The specification of a rollback: by the rows of the configuration, the rows and the answer.
  pub data Restoration : Outcome (Table V × RollbackResult) → Type 0 where
    restored :
        {rows' : Table V} {r : ConfigSnapshot V} {c : Config V} {v : ConfigVersion}
        → Stored target r (where_config t i rows)
        → get_config t i rows ≡ ret (some (c, v))
        → IsCommitted b stamp t i (v.version + 1) r.config_data rows rows'
        → Restoration (ret (rows', rolled_back (generate_etag b r.config_data)))
    unchanged :
        All (λ r. r.version ≢ target) (where_config t i rows)
        → Restoration (ret (rows, version_not_found target))

  rollback-Restoration :
      (max_snapshots : ℕ)
      → HasDistinctIds rows
      → contains stamp.uuid (ids rows) ≡ false
      → {hits : Table V} → Selected target (where_config t i rows) hits
      → (current : Option (Config V × ConfigVersion)) → get_config t i rows ≡ ret current
      → Restoration (
          scalar_one_or_none hits >>= λ snapshot.
          ret (rollback_to b max_snapshots stamp t i target rows snapshot current))
  unfolding scalar_one_or_none rollback_to
  rollback-Restoration max_snapshots distinct fresh (missing h) current at = unchanged h
  rollback-Restoration max_snapshots distinct fresh (found r (before, after, e, same)) none at =
      absurd (append-nonempty before r after (sym (get_config-none b stamp t i rows at) ∙ e))
  rollback-Restoration max_snapshots distinct fresh (found r h) (some (c, v)) at = restored h at (
      store_next-IsCommitted b stamp t i max_snapshots (v.version + 1) r.config_data
        (some (rollback_to_version target)) rows distinct fresh
        (get_config-newest b stamp t i rows at))

-- For every table whose primary keys differ and whose rows of the configuration ascend in their
-- versions, and every fresh key, rollback_config either finds the target version among the rows and
-- stores its data as the version after the current one, which a read then returns, while no row of
-- another configuration changes; or no row has the target version, and the rows stay as they are.
pub rollback_config-Restoration :
    {V : Type 0} (b : Builtins V) (max_snapshots : ℕ) (stamp : Stamp) (t i : String) (target : ℕ)
    (rows : Table V)
    → HasDistinctIds rows
    → Ascending (where_config t i rows)
    → contains stamp.uuid (ids rows) ≡ false
    → Restoration b stamp t i target rows (rollback_config b max_snapshots stamp t i target rows)
unfolding rollback_config
rollback_config-Restoration b max_snapshots stamp t i target rows distinct ordered fresh =
    rw (get_config_lem t i rows) (
      rollback-Restoration b stamp t i target rows max_snapshots distinct fresh
        (where_version-Selected target (where_config t i rows) ordered)
        (read (head (order_by_desc (where_config t i rows)))) (get_config_lem t i rows))
