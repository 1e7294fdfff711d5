-- ===== src/LruCache/Entries.antt =====
-- src/infrastructure/cache_manager.py: the entries of an ordered dictionary after an operation.
use delaxis.Prelude.{
  ◌+◌, String, ◌==◌, true, false, some, List, [], ◌∷◌, ◌++◌, length, contains, lookup, keys,
  if◌then◌else◌, ◌≡◌, refl, ap, ◌∙◌, arith, str_eq_iff, str_eq_refl, Bool-cases, inl, inr,
}
use delaxis.LruCache.{without, append_value, move_to_end, assign}

-- No key is there twice.
abbrev pub HasDistinctKeys : {V : Type 0} → List (String × V) → Type 0
HasDistinctKeys [] = Unit
HasDistinctKeys ((k, v) ∷ d) = (contains k (keys d) ≡ false) × HasDistinctKeys d

module _ {V : Type 0} where
  pub without-absent :
      (k : String) (d : List (String × V)) → contains k (keys d) ≡ false → without k d ≡ d
  unfolding without contains keys
  without-absent k [] h = refl
  without-absent k ((j, v) ∷ d) h = ground (arith, without-absent k d)

  pub contains-without :
      (x k : String) (d : List (String × V))
      → contains x (keys (without k d)) ≡ (if k == x then false else contains x (keys d))
  unfolding without contains keys
  contains-without x k [] = ground arith
  contains-without x k ((j, v) ∷ d) =
      ground (arith, contains-without x k d, str_eq_iff j k, str_eq_iff j x, str_eq_iff k x)

  pub lookup-without :
      (x k : String) (d : List (String × V))
      → (k == x) ≡ false
      → lookup x (without k d) ≡ lookup x d
  unfolding without lookup
  lookup-without x k [] h = refl
  lookup-without x k ((j, v) ∷ d) h =
      ground (arith, lookup-without x k d h, str_eq_iff j k, str_eq_iff j x, str_eq_iff k x)

  pub length-without :
      (k : String) (d : List (String × V))
      → HasDistinctKeys d
      → contains k (keys d) ≡ true
      → length (without k d) + 1 ≡ length d
  unfolding without contains keys
  length-without k [] h m = ground arith
  length-without k ((j, v) ∷ d) h m =
      ground (arith, length-without k d h.1, without-absent k d, h.0, str_eq_iff j k)

  pub HasDistinctKeys-without :
      (k : String) (d : List (String × V)) → HasDistinctKeys d → HasDistinctKeys (without k d)
  unfolding without
  HasDistinctKeys-without k [] h = tt
  HasDistinctKeys-without k ((j, v) ∷ d) h =
      let later = HasDistinctKeys-without k d h.1 in
      elim (Bool-cases (j == k)) [
        | inl same ↦ rw same later
        | inr other ↦ rw other (ground (arith, contains-without j k d, h.0), later)
      ]

  contains-append_entry :
      (x k : String) (v : V) (d : List (String × V))
      → contains x (keys (d ++ (k, v) ∷ [])) ≡ (if contains x (keys d) then true else k == x)
  unfolding contains keys
  contains-append_entry x k v [] = ground arith
  contains-append_entry x k v ((j, w) ∷ d) = ground (arith, contains-append_entry x k v d)

  pub HasDistinctKeys-append :
      (k : String) (v : V) (d : List (String × V))
      → contains k (keys d) ≡ false
      → HasDistinctKeys d
      → HasDistinctKeys (d ++ (k, v) ∷ [])
  unfolding contains keys
  HasDistinctKeys-append k v [] fresh h = (refl, tt)
  HasDistinctKeys-append k v ((j, w) ∷ d) fresh h = (
    ground (arith, contains-append_entry j k v d, h.0, str_eq_iff j k, str_eq_iff k j),
    HasDistinctKeys-append k v d (ground arith) h.1,
  )

  pub lookup-append_entry :
      (x k : String) (v : V) (d : List (String × V))
      → contains k (keys d) ≡ false
      → lookup x (d ++ (k, v) ∷ []) ≡ (if k == x then some v else lookup x d)
  unfolding lookup contains keys
  lookup-append_entry x k v [] fresh = refl
  lookup-append_entry x k v ((j, w) ∷ d) fresh =
      ground (arith, lookup-append_entry x k v d, str_eq_iff j x, str_eq_iff k x, str_eq_iff j k)

  pub assign-absent :
      (k : String) (v : V) (d : List (String × V))
      → contains k (keys d) ≡ false
      → assign k v d ≡ d ++ (k, v) ∷ []
  unfolding assign contains keys
  assign-absent k v [] h = refl
  assign-absent k v ((j, w) ∷ d) h = ground (arith, assign-absent k v d)

  assign-last :
      (k : String) (v w : V) (d : List (String × V))
      → contains k (keys d) ≡ false
      → assign k v (d ++ (k, w) ∷ []) ≡ d ++ (k, v) ∷ []
  unfolding assign contains keys
  assign-last k v w [] h = ground (arith, str_eq_refl k)
  assign-last k v w ((j, u) ∷ d) h = ground (arith, assign-last k v w d)

  lookup-present :
      (k : String) (d : List (String × V))
      → contains k (keys d) ≡ true
      → (v : V) × (lookup k d ≡ some v)
  unfolding lookup contains keys
  lookup-present k [] h = ground arith
  lookup-present k ((j, v) ∷ d) h = elim (Bool-cases (j == k)) [
    | inl same ↦ rw same (v, refl)
    | inr other ↦ rw other (lookup-present k d (rw other at h))
  ]

  -- A key that is there moves to the end with its value.
  pub move_to_end_lem :
      (k : String) (d : List (String × V))
      → contains k (keys d) ≡ true
      → (w : V) × (lookup k d ≡ some w) × (move_to_end k d ≡ without k d ++ (k, w) ∷ [])
  unfolding move_to_end append_value
  move_to_end_lem k d h = let (w, at) = lookup-present k d h in (w, at, rw at)

  pub without_self : (k : String) (d : List (String × V)) → contains k (keys (without k d)) ≡ false
  without_self k d = contains-without k k d ∙ ground (arith, str_eq_refl k)

  pub assign-move_to_end :
      (k : String) (v : V) (d : List (String × V))
      → contains k (keys d) ≡ true
      → assign k v (move_to_end k d) ≡ without k d ++ (k, v) ∷ []
  assign-move_to_end k v d h =
      let (w, at, moved) = move_to_end_lem k d h in
      ap (assign k v) moved ∙ assign-last k v w (without k d) (without_self k d)
