-- ===== src/VersionedConfig/Selection.antt =====
-- src/config/versioned_service.py: which rows a query selects after a DELETE or an INSERT.
use delaxis.Prelude.{
  Bool-cases, inl, inr, String, ◌==◌, eq_iff, true, false, ◌&&◌, List, [], ◌∷◌, ◌++◌, contains, All,
  Subset, ◌≡◌, refl, arith,
}
use delaxis.VersionedConfig.Data.{ConfigSnapshot, Table}
use delaxis.VersionedConfig.Queries.{of_config, where_config, ids, delete_ids}

-- The primary keys differ: no row has the key of a later row.
unfoldable pub HasDistinctIds : {V : Type 0} → Table V → Type 0
HasDistinctIds [] = Unit
HasDistinctIds (r ∷ rows) = (contains r.id (ids rows) ≡ false) × HasDistinctIds rows

module _ {V : Type 0} where
  pub where_config-append :
      (t i : String) (rows more : Table V)
      → where_config t i (rows ++ more) ≡ where_config t i rows ++ where_config t i more
  unfolding where_config
  where_config-append t i [] more = refl
  where_config-append t i (r ∷ rows) more = ground (arith, where_config-append t i rows more)

  pub where_config-delete_ids :
      (t i : String) (ks : List String) (rows : Table V)
      → where_config t i (delete_ids ks rows) ≡ delete_ids ks (where_config t i rows)
  unfolding where_config delete_ids
  where_config-delete_ids t i ks [] = refl
  where_config-delete_ids t i ks (r ∷ rows) = ground (arith, where_config-delete_ids t i ks rows)

  pub delete_ids-absent :
      (ks : List String) (rows : Table V)
      → ((x : String) → contains x (ids rows) ≡ true → contains x ks ≡ false)
      → delete_ids ks rows ≡ rows
  unfolding ids delete_ids contains
  delete_ids-absent ks [] h = refl
  delete_ids-absent ks (r ∷ rows) h =
      let later : delete_ids ks rows ≡ rows =
        delete_ids-absent ks rows (λ x m. h x (ground arith)) in
      let kept : contains r.id ks ≡ false = h r.id (ground (arith, eq_iff r.id r.id)) in
      ground arith

  pub All-delete_ids :
      (P : ConfigSnapshot V → Type 0) (ks : List String) (rows : Table V)
      → All P rows
      → All P (delete_ids ks rows)
  unfolding delete_ids
  All-delete_ids P ks [] h = tt
  All-delete_ids P ks (r ∷ rows) h =
      let later = All-delete_ids P ks rows h.1 in
      elim (Bool-cases (contains r.id ks)) [
        | inl gone ↦ rw gone later
        | inr stays ↦ rw stays (h.0, later)
      ]

  pub ids-where_config :
      (t i : String) (rows : Table V) → Subset (ids (where_config t i rows)) (ids rows)
  unfolding where_config ids contains
  ids-where_config t i [] x m = m
  ids-where_config t i (r ∷ rows) x m = ground (arith, ids-where_config t i rows x)

  -- Two configurations share no row.
  pub ids-disjoint :
      (t i t' i' : String) (rows : Table V) (x : String)
      → ((t == t') && (i == i')) ≡ false
      → HasDistinctIds rows
      → contains x (ids (where_config t i rows)) ≡ true
      → contains x (ids (where_config t' i' rows)) ≡ false
  unfolding where_config of_config ids contains HasDistinctIds
  ids-disjoint t i t' i' [] x other distinct m = refl
  ids-disjoint t i t' i' (r ∷ rows) x other distinct m = ground (
    arith,
    ids-disjoint t i t' i' rows x other,
    ids-where_config t i rows x,
    ids-where_config t' i' rows x,
    eq_iff r.id x,
    eq_iff r.config_type t,
    eq_iff r.config_type t',
    eq_iff r.config_id i,
    eq_iff r.config_id i',
    eq_iff t t',
    eq_iff i i',
  )
