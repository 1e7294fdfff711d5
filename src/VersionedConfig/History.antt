-- ===== src/VersionedConfig/History.antt =====
-- src/config/versioned_service.py: the rows of one configuration in the order of their versions.
use delaxis.Prelude.{
  zero, suc, ℕ, ◌-◌, ◌<◌, String, false, List, [], ◌∷◌, ◌++◌, length, take, drop, ltb, contains,
  All, ◌≡◌, refl, ap, ◌∙◌, arith, Bool-cases, inl, inr, str_eq_iff,
}
use delaxis.VersionedConfig.Data.{ConfigSnapshot, Table}
use delaxis.VersionedConfig.Queries.{
  of_config, where_config, where_version, insert_asc, order_by_version, ids, delete_ids,
  apply_retention_policy,
}
use delaxis.VersionedConfig.Selection.{
  HasDistinctIds, where_config-delete_ids, delete_ids-absent, ids-where_config,
}

-- Each row has a lower version than the rows stored after it.
abbrev pub Ascending : {V : Type 0} → Table V → Type 0
Ascending [] = Unit
Ascending (r ∷ rows) = All (λ s. r.version < s.version) rows × Ascending rows

module _ {V : Type 0} where
  insert_asc-least :
      (r : ConfigSnapshot V) (rows : Table V)
      → All (λ s. r.version < s.version) rows
      → insert_asc r rows ≡ r ∷ rows
  unfolding insert_asc
  insert_asc-least r [] h = refl
  insert_asc-least r (s ∷ rows) h = ground (arith, h.0)

  order_by_version-Ascending : (rows : Table V) → Ascending rows → order_by_version rows ≡ rows
  unfolding order_by_version
  order_by_version-Ascending [] h = refl
  order_by_version-Ascending (r ∷ rows) h =
      ap (insert_asc r) (order_by_version-Ascending rows h.1) ∙ insert_asc-least r rows h.0

  delete_ids-cons_absent :
      (j : String) (ks : List String) (rows : Table V)
      → contains j (ids rows) ≡ false
      → delete_ids (j ∷ ks) rows ≡ delete_ids ks rows
  unfolding delete_ids ids contains
  delete_ids-cons_absent j ks [] h = refl
  delete_ids-cons_absent j ks (r ∷ rows) h =
      ground (arith, delete_ids-cons_absent j ks rows, str_eq_iff j r.id, str_eq_iff r.id j)

  delete_ids-take :
      (k : ℕ) (rows : Table V)
      → HasDistinctIds rows
      → delete_ids (ids (take k rows)) rows ≡ drop k rows
  unfolding delete_ids ids contains HasDistinctIds
  delete_ids-take zero rows h = delete_ids-absent [] rows (λ x m. refl)
  delete_ids-take (suc k) [] h = refl
  delete_ids-take (suc k) (r ∷ rows) h =
      let later : delete_ids (r.id ∷ ids (take k rows)) rows ≡ drop k rows =
        delete_ids-cons_absent r.id (ids (take k rows)) rows h.0 ∙ delete_ids-take k rows h.1 in
      ground (arith, str_eq_iff r.id r.id)

  pub HasDistinctIds-where_config :
      (t i : String) (rows : Table V) → HasDistinctIds rows → HasDistinctIds (where_config t i rows)
  unfolding HasDistinctIds where_config
  HasDistinctIds-where_config t i [] h = tt
  HasDistinctIds-where_config t i (r ∷ rows) h =
      let later = HasDistinctIds-where_config t i rows h.1 in
      elim (Bool-cases (of_config t i r)) [
        | inl own ↦ rw own (ground (arith, h.0, ids-where_config t i rows r.id), later)
        | inr foreign ↦ rw foreign later
      ]

  pub apply_retention_policy-own :
      (max_snapshots : ℕ) (t i : String) (rows : Table V)
      → HasDistinctIds rows
      → Ascending (where_config t i rows)
      → where_config t i (apply_retention_policy max_snapshots t i rows)
        ≡ drop (length (where_config t i rows) - max_snapshots) (where_config t i rows)
  unfolding apply_retention_policy
  apply_retention_policy-own max_snapshots t i rows distinct ordered =
      elim (Bool-cases (ltb max_snapshots (length (where_config t i rows)))) [
        | inl over ↦
            rw
              (
                over,
                where_config-delete_ids,
                order_by_version-Ascending (where_config t i rows) ordered,
              )
              (delete_ids-take _ (where_config t i rows)
                (HasDistinctIds-where_config t i rows distinct))
        | inr under ↦
            let none_expired : length (where_config t i rows) - max_snapshots ≡ 0 = ground arith in
            rw (under, none_expired)
      ]

  pub Ascending-drop : (k : ℕ) (rows : Table V) → Ascending rows → Ascending (drop k rows)
  Ascending-drop zero rows h = h
  Ascending-drop (suc k) [] h = tt
  Ascending-drop (suc k) (r ∷ rows) h = Ascending-drop k rows h.1

  pub All-drop :
      (P : ConfigSnapshot V → Type 0) (k : ℕ) (rows : Table V) → All P rows → All P (drop k rows)
  All-drop P zero rows h = h
  All-drop P (suc k) [] h = tt
  All-drop P (suc k) (r ∷ rows) h = All-drop P k rows h.1

  All-append_one :
      (P : ConfigSnapshot V → Type 0) (rows : Table V) (n : ConfigSnapshot V)
      → All P rows
      → P n
      → All P (rows ++ n ∷ [])
  All-append_one P [] n h p = (p, tt)
  All-append_one P (r ∷ rows) n h p = (h.0, All-append_one P rows n h.1 p)

  pub Ascending-append :
      (rows : Table V) (n : ConfigSnapshot V)
      → Ascending rows
      → All (λ r. r.version < n.version) rows
      → Ascending (rows ++ n ∷ [])
  Ascending-append [] n h below = (tt, tt)
  Ascending-append (r ∷ rows) n h below = (
    All-append_one (λ s. r.version < s.version) rows n h.0 below.0,
    Ascending-append rows n h.1 below.1,
  )

  pub length-drop : (k : ℕ) (rows : Table V) → length (drop k rows) ≡ length rows - k
  length-drop zero rows = omega arith
  length-drop (suc k) [] = omega arith
  length-drop (suc k) (r ∷ rows) = omega (arith, length-drop k rows)

  pub where_version-absent :
      (v : ℕ) (rows : Table V) → All (λ s. v < s.version) rows → where_version v rows ≡ []
  unfolding where_version
  where_version-absent v [] h = refl
  where_version-absent v (r ∷ rows) h = ground (arith, where_version-absent v rows h.1, h.0)
