-- ===== src/VersionedConfig/Commits.antt =====
-- src/config/versioned_service.py: what a committed row changes.
use delaxis.Prelude.{
  ℕ, ◌+◌, ◌<◌, String, ◌==◌, false, ◌&&◌, Option, none, some, [], ◌∷◌, ◌++◌, contains, ◌≡◌, refl,
  sym, ap, ◌∙◌, subst, arith, str_eq_iff, append-nil,
}
use delaxis.Prelude.Outcome.{ret}
use delaxis.VersionedConfig.Data.{
  Config, Builtins, ChangeSummary, ConfigSnapshot, ConfigVersion, Stamp, Table, truthy,
}
use delaxis.VersionedConfig.Queries.{
  of_config, where_config, order_by_desc, version_info, read, get_config, ids,
  apply_retention_policy,
}
use delaxis.VersionedConfig.Service.{generate_etag, new_snapshot, store_next}
use delaxis.VersionedConfig.Selection.{HasDistinctIds, where_config-append}
use delaxis.VersionedConfig.Keys.{
  HasDistinctIds-append, HasDistinctIds-apply_retention_policy, ids-apply_retention_policy,
  All-apply_retention_policy, apply_retention_policy-other,
}
use delaxis.VersionedConfig.Latest.{
  Below, head, get_config_lem, order_by_desc-append, head-order_by_desc, order_by_desc-empty,
}

-- Version `v` of the configuration (t, i), with the data `c`, is the one that a later read
-- returns; the rows of the other configurations are the same, and the primary keys still differ.
pub record IsCommitted {V : Type 0} (b : Builtins V) (stamp : Stamp) (t i : String) (v : ℕ)
    (c : Config V) (rows rows' : Table V) : Type 0 where
  pub read_back :
      get_config t i rows'
      ≡ ret (
          some (
            c,
            record {
              version = v;
              etag = generate_etag b c;
              last_updated = stamp.now;
              updated_by = truthy stamp.user_id;
            },
          ))
  pub others :
      (t' i' : String)
      → ((t == t') && (i == i')) ≡ false
      → where_config t' i' rows' ≡ where_config t' i' rows
  pub distinct : HasDistinctIds rows'

module _ {V : Type 0} (b : Builtins V) (stamp : Stamp) (t i : String) where
  pub where_config-own :
      (n : ConfigSnapshot V)
      → n.config_type ≡ t
      → n.config_id ≡ i
      → where_config t i (n ∷ []) ≡ n ∷ []
  unfolding where_config of_config
  where_config-own n same same' =
      ground (arith, str_eq_iff n.config_type t, str_eq_iff n.config_id i)

  where_config-foreign :
      (n : ConfigSnapshot V) (t' i' : String)
      → n.config_type ≡ t
      → n.config_id ≡ i
      → ((t == t') && (i == i')) ≡ false
      → where_config t' i' (n ∷ []) ≡ []
  unfolding where_config of_config
  where_config-foreign n t' i' same same' other = rw (same, same', other) refl

  -- An added row that is above the others of its configuration is the one read back.
  pub append-IsCommitted :
      (v : ℕ) (c : Config V) (summary : Option ChangeSummary) (old rows : Table V)
      → ((t' i' : String)
          → ((t == t') && (i == i')) ≡ false
          → where_config t' i' rows ≡ where_config t' i' old)
      → HasDistinctIds rows
      → contains stamp.uuid (ids rows) ≡ false
      → Below v (where_config t i rows)
      → IsCommitted b stamp t i v c old (rows ++ new_snapshot b stamp t i v c summary ∷ [])
  unfolding new_snapshot read version_info
  append-IsCommitted v c summary old rows others distinct fresh below =
      let n = new_snapshot b stamp t i v c summary in
      record {
        read_back =
            get_config_lem t i (rows ++ n ∷ [])
            ∙ ap (λ own. ret (read (head (order_by_desc own))))
                (where_config-append t i rows (n ∷ [])
                  ∙ ap (λ own. where_config t i rows ++ own) (where_config-own n refl refl))
            ∙ ap (λ own. ret (read (head own)))
                (order_by_desc-append n (where_config t i rows) below)
            ∙ refl;
        others = λ t' i' other.
            where_config-append t' i' rows (n ∷ [])
            ∙ rw (where_config-foreign n t' i' refl refl other, append-nil) (others t' i' other);
        distinct = HasDistinctIds-append rows n distinct fresh;
      }

  pub store_next-IsCommitted :
      (max_snapshots v : ℕ) (c : Config V) (summary : Option ChangeSummary) (rows : Table V)
      → HasDistinctIds rows
      → contains stamp.uuid (ids rows) ≡ false
      → Below v (where_config t i rows)
      → IsCommitted b stamp t i v c rows (store_next b max_snapshots stamp t i v c summary rows)
  unfolding store_next
  store_next-IsCommitted max_snapshots v c summary rows distinct fresh below =
      append-IsCommitted v c summary rows (apply_retention_policy max_snapshots t i rows)
        (λ t' i' other. apply_retention_policy-other max_snapshots t i t' i' rows distinct other)
        (HasDistinctIds-apply_retention_policy max_snapshots t i rows distinct)
        (ground (arith, fresh, ids-apply_retention_policy max_snapshots t i rows stamp.uuid))
        (All-apply_retention_policy (λ r. r.version < v) max_snapshots t i rows below)

  read-newest :
      (o : Option (ConfigSnapshot V)) (rows : Table V) {c : Config V} {v : ConfigVersion}
      → ((r : ConfigSnapshot V) → o ≡ some r → Below (r.version + 1) rows)
      → read o ≡ some (c, v)
      → Below (v.version + 1) rows
  unfolding read version_info
  read-newest none rows h e = cc
  read-newest (some r) rows {c} {v} h e =
      let same : version_info r ≡ v = cc in
      let at : r.version ≡ v.version = ap (λ w. w.version) same in
      subst (λ m. Below (m + 1) rows) at (h r refl)

  -- The version that a read returns is the highest one.
  pub get_config-newest :
      (rows : Table V) {c : Config V} {v : ConfigVersion}
      → get_config t i rows ≡ ret (some (c, v))
      → Below (v.version + 1) (where_config t i rows)
  get_config-newest rows {c} {v} e =
      let found : read (head (order_by_desc (where_config t i rows))) ≡ some (c, v) =
        (let both = sym (get_config_lem t i rows) ∙ e in cc) in
      read-newest (head (order_by_desc (where_config t i rows))) (where_config t i rows)
        (λ r h. head-order_by_desc (where_config t i rows) h) found

  read-none : (o : Option (ConfigSnapshot V)) → read o ≡ none → o ≡ none
  unfolding read
  read-none none e = refl
  read-none (some r) e = cc

  pub get_config-none :
      (rows : Table V) → get_config t i rows ≡ ret none → where_config t i rows ≡ []
  get_config-none rows e =
      let missing : read (head (order_by_desc (where_config t i rows))) ≡ none =
        (let both = sym (get_config_lem t i rows) ∙ e in cc) in
      order_by_desc-empty (where_config t i rows) (read-none _ missing)
