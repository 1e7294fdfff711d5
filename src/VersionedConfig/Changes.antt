-- ===== src/VersionedConfig/Changes.antt =====
-- src/config/versioned_service.py: what the answer of `_compute_diff` says of two configurations.
use delaxis.Prelude.{
  In, String, ◌==◌, true, false, Option, none, some, List, [], ◌∷◌, ◌++◌, contains, lookup, keys,
  contains-keys, ◌≡◌, ◌↔◌, ◌⊎◌, refl, sym, ap, subst, arith, Bool-cases, inl, inr, str_eq_iff,
}
use delaxis.VersionedConfig.Data.{Config, Builtins, Modified, Diff}
use delaxis.VersionedConfig.Differences.{
  keys_without, modified_field, modified_fields, compute_diff,
}

keys_without-contains :
    (k : String) (xs ys : List String)
    → (contains k (keys_without xs ys) ≡ true) ↔ ((contains k xs ≡ true) × (contains k ys ≡ false))
unfolding keys_without contains
keys_without-contains k [] ys = (λ h. cc, λ h. h.0)
keys_without-contains k (x ∷ xs) ys =
    let rest = keys_without-contains k xs ys in
    elim (Bool-cases (x == k)) [
      | inl same ↦
          let here : contains x ys ≡ contains k ys =
            ap (λ z. contains z ys) ((str_eq_iff x k).0 same) in
          ground (arith, rest, here, same)
      | inr other ↦ ground (arith, rest, other)
    ]

module _ {V : Type 0} (b : Builtins V) (current proposed : Config V) where
  -- A field that both have, with its two values, which differ.
  abbrev pub IsChange : Modified V → Type 0
  IsChange m =
      (lookup m.field current ≡ some m.current)
      × (lookup m.field proposed ≡ some m.proposed)
      × (b.value_eq m.current m.proposed ≡ false)

  -- The fields that only the proposed configuration has, those that only the current one has, and the changes.
  pub record IsDiff (d : Diff V) : Type 0 where
    pub added :
        (k : String)
        → (contains k d.added ≡ true)
          ↔ ((contains k (keys proposed) ≡ true) × (contains k (keys current) ≡ false))
    pub removed :
        (k : String)
        → (contains k d.removed ≡ true)
          ↔ ((contains k (keys current) ≡ true) × (contains k (keys proposed) ≡ false))
    pub modified : (m : Modified V) → In m d.modified ↔ IsChange m

  In-append : (m : Modified V) (xs ys : List (Modified V)) → In m (xs ++ ys) ↔ (In m xs ⊎ In m ys)
  In-append m [] ys = (λ h. inr h, λ h. elim h [ inl n ↦ absurd n | inr h ↦ h ])
  In-append m (x ∷ xs) ys =
      let rest = In-append m xs ys in
      (
        λ h. elim h [
          | inl e ↦ inl (inl e)
          | inr l ↦ elim (rest.0 l) [ inl l ↦ inl (inr l) | inr r ↦ inr r ]
        ],
        λ h. elim h [
          | inl (inl e) ↦ inl e
          | inl (inr l) ↦ inr (rest.1 (inl l))
          | inr r ↦ inr (rest.1 (inr r))
        ],
      )

  field-IsChange :
      (k : String) (o q : Option V) (m : Modified V)
      → lookup k current ≡ o
      → lookup k proposed ≡ q
      → In m (modified_field b k o q)
      → IsChange m × (m.field ≡ k)
  unfolding modified_field
  field-IsChange k none q m e f h = absurd h
  field-IsChange k (some v) none m e f h = absurd h
  field-IsChange k (some v) (some u) m e f h = elim (Bool-cases (b.value_eq v u)) [
    | inl same ↦ absurd (rw same at h)
    | inr other ↦ elim (rw other at h) [
      | inl here ↦ subst (λ n. IsChange n × (n.field ≡ k)) (sym here) (((e, f, other), refl))
      | inr never ↦ absurd never
    ]
  ]

  IsChange-field :
      (m : Modified V) (k : String)
      → IsChange m
      → k ≡ m.field
      → In m (modified_field b k (lookup k current) (lookup k proposed))
  unfolding modified_field
  IsChange-field m k (e, f, other) same =
      subst (λ j. In m (modified_field b j (lookup j current) (lookup j proposed))) (sym same)
        (rw (e, f, other) (inl refl))

  modified-IsChange :
      (ks : List String) (m : Modified V)
      → In m (modified_fields b ks current proposed)
      → IsChange m
  unfolding modified_fields
  modified-IsChange [] m h = absurd h
  modified-IsChange (k ∷ ks) m h = elim ((In-append m _ _).0 h) [
    | inl here ↦ (field-IsChange k (lookup k current) (lookup k proposed) m refl refl here).0
    | inr later ↦ modified-IsChange ks m later
  ]

  IsChange-modified :
      (ks : List String) (m : Modified V)
      → IsChange m
      → contains m.field ks ≡ true
      → In m (modified_fields b ks current proposed)
  unfolding modified_fields contains
  IsChange-modified [] m change h = cc
  IsChange-modified (k ∷ ks) m change h = elim (Bool-cases (k == m.field)) [
    | inl same ↦
        (In-append m _ _).1 (inl (IsChange-field m k change ((str_eq_iff k m.field).0 same)))
    | inr other ↦ (In-append m _ _).1 (inr (IsChange-modified ks m change (rw other at h)))
  ]

  pub compute_diff-IsDiff : IsDiff (compute_diff b current proposed)
  unfolding compute_diff
  compute_diff-IsDiff = record {
    added = λ k. keys_without-contains k (keys proposed) (keys current);
    removed = λ k. keys_without-contains k (keys current) (keys proposed);
    modified = λ m. (
      modified-IsChange (keys current) m,
      λ change. IsChange-modified (keys current) m change (contains-keys m.field current change.0),
    );
  }
