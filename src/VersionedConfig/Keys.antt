-- ===== src/VersionedConfig/Keys.antt =====
-- src/config/versioned_service.py: the primary keys after a DELETE or an INSERT.
use delaxis.Prelude.{
  zero, suc, ℕ, ◌-◌, String, ◌==◌, true, false, ◌&&◌, List, [], ◌∷◌, ◌++◌, length, take, ltb,
  contains, if◌then◌else◌, All, Subset, ◌≡◌, refl, sym, ◌∙◌, arith, Bool-cases, inl, inr,
  str_eq_iff,
}
use delaxis.VersionedConfig.Data.{ConfigSnapshot, Table}
use delaxis.VersionedConfig.Queries.{
  where_config, order_by_version, insert_asc, ids, delete_ids, apply_retention_policy,
}
use delaxis.VersionedConfig.Selection.{
  HasDistinctIds, where_config-delete_ids, delete_ids-absent, All-delete_ids, ids-disjoint,
}

module _ {V : Type 0} where
  ids-append-contains :
      (x : String) (rows : Table V) (n : ConfigSnapshot V)
      → contains x (ids (rows ++ n ∷ [])) ≡ (if contains x (ids rows) then true else n.id == x)
  unfolding ids contains
  ids-append-contains x [] n = ground arith
  ids-append-contains x (r ∷ rows) n = ground (arith, ids-append-contains x rows n)

  pub HasDistinctIds-append :
      (rows : Table V) (n : ConfigSnapshot V)
      → HasDistinctIds rows
      → contains n.id (ids rows) ≡ false
      → HasDistinctIds (rows ++ n ∷ [])
  unfolding HasDistinctIds ids contains
  HasDistinctIds-append [] n h fresh = (refl, tt)
  HasDistinctIds-append (r ∷ rows) n h fresh = (
    ground
        (arith, ids-append-contains r.id rows n, h.0, str_eq_iff r.id n.id, str_eq_iff n.id r.id),
    HasDistinctIds-append rows n h.1 (ground arith),
  )

  ids-delete_ids :
      (ks : List String) (rows : Table V) → Subset (ids (delete_ids ks rows)) (ids rows)
  unfolding ids delete_ids contains
  ids-delete_ids ks [] x m = m
  ids-delete_ids ks (r ∷ rows) x m = ground (arith, ids-delete_ids ks rows x)

  pub HasDistinctIds-delete_ids :
      (ks : List String) (rows : Table V)
      → HasDistinctIds rows
      → HasDistinctIds (delete_ids ks rows)
  unfolding HasDistinctIds delete_ids
  HasDistinctIds-delete_ids ks [] h = tt
  HasDistinctIds-delete_ids ks (r ∷ rows) h =
      let later = HasDistinctIds-delete_ids ks rows h.1 in
      elim (Bool-cases (contains r.id ks)) [
        | inl gone ↦ rw gone later
        | inr stays ↦ rw stays (ground (arith, h.0, ids-delete_ids ks rows r.id), later)
      ]

  ids-take : (k : ℕ) (rows : Table V) → Subset (ids (take k rows)) (ids rows)
  unfolding ids contains
  ids-take zero rows x m = ground (arith, m)
  ids-take (suc k) [] x m = m
  ids-take (suc k) (r ∷ rows) x m = ground (arith, ids-take k rows x)

  ids-insert_asc :
      (x : String) (r : ConfigSnapshot V) (rows : Table V)
      → contains x (ids (insert_asc r rows)) ≡ (if r.id == x then true else contains x (ids rows))
  unfolding ids contains insert_asc
  ids-insert_asc x r [] = refl
  ids-insert_asc x r (s ∷ rows) = ground (arith, ids-insert_asc x r rows)

  ids-order_by_version :
      (x : String) (rows : Table V)
      → contains x (ids (order_by_version rows)) ≡ contains x (ids rows)
  unfolding ids contains order_by_version
  ids-order_by_version x [] = refl
  ids-order_by_version x (r ∷ rows) =
      ids-insert_asc x r (order_by_version rows) ∙ ground (arith, ids-order_by_version x rows)

  -- The keys that the retention policy deletes when there are too many rows.
  abbrev pub expired : ℕ → String → String → Table V → List String
  expired max_snapshots t i rows = ids (
      take (length (where_config t i rows) - max_snapshots)
        (order_by_version (where_config t i rows)))

  -- The retention policy of a configuration deletes no row of another.
  pub apply_retention_policy-other :
      (max_snapshots : ℕ) (t i t' i' : String) (rows : Table V)
      → HasDistinctIds rows
      → ((t == t') && (i == i')) ≡ false
      → where_config t' i' (apply_retention_policy max_snapshots t i rows) ≡ where_config t' i' rows
  unfolding apply_retention_policy
  apply_retention_policy-other max_snapshots t i t' i' rows distinct other =
      let doomed = expired max_snapshots t i rows in
      let kept : where_config t' i' (delete_ids doomed rows) ≡ where_config t' i' rows =
        where_config-delete_ids t' i' doomed rows
        ∙ delete_ids-absent doomed (where_config t' i' rows) foreign in
      ground (arith, kept)
    where
      foreign :
          (x : String)
          → contains x (ids (where_config t' i' rows)) ≡ true
          → contains x (expired max_snapshots t i rows) ≡ false
      foreign x m = elim (Bool-cases (contains x (expired max_snapshots t i rows))) [
        | inr miss ↦ miss
        | inl hit ↦
            let own : contains x (ids (where_config t i rows)) ≡ true =
              sym (ids-order_by_version x (where_config t i rows))
              ∙ ids-take (length (where_config t i rows) - max_snapshots)
                  (order_by_version (where_config t i rows)) x hit in
            let never = ids-disjoint t i t' i' rows x other distinct own in cc
      ]

  pub HasDistinctIds-apply_retention_policy :
      (max_snapshots : ℕ) (t i : String) (rows : Table V)
      → HasDistinctIds rows
      → HasDistinctIds (apply_retention_policy max_snapshots t i rows)
  unfolding apply_retention_policy
  HasDistinctIds-apply_retention_policy max_snapshots t i rows h =
      elim (Bool-cases (ltb max_snapshots (length (where_config t i rows)))) [
        | inl over ↦ rw over (HasDistinctIds-delete_ids _ rows h)
        | inr under ↦ rw under h
      ]

  pub ids-apply_retention_policy :
      (max_snapshots : ℕ) (t i : String) (rows : Table V)
      → Subset (ids (apply_retention_policy max_snapshots t i rows)) (ids rows)
  unfolding apply_retention_policy
  ids-apply_retention_policy max_snapshots t i rows x m =
      elim (Bool-cases (ltb max_snapshots (length (where_config t i rows)))) [
        | inl over ↦ ids-delete_ids _ rows x (rw over at m)
        | inr under ↦ (rw under at m)
      ]

  -- What all the rows of the configuration satisfy, the rows that stay satisfy.
  pub All-apply_retention_policy :
      (P : ConfigSnapshot V → Type 0) (max_snapshots : ℕ) (t i : String) (rows : Table V)
      → All P (where_config t i rows)
      → All P (where_config t i (apply_retention_policy max_snapshots t i rows))
  unfolding apply_retention_policy
  All-apply_retention_policy P max_snapshots t i rows h =
      elim (Bool-cases (ltb max_snapshots (length (where_config t i rows)))) [
        | inl over ↦
            rw (over, where_config-delete_ids) (All-delete_ids P _ (where_config t i rows) h)
        | inr under ↦ rw under h
      ]
