-- ===== src/LruCache/Recency.antt =====
-- src/infrastructure/cache_manager.py: get and set of LRUCache against the order of last use.
use delaxis.Prelude.{
  subst, ℕ, suc, zero, ◌+◌, ◌-◌, ◌≤◌, ◌<◌, String, ◌==◌, true, false, Option, none, some, List, [],
  ◌∷◌, ◌++◌, length, length-append, drop, contains, lookup, keys, ◌≡◌, refl, sym, ap, ◌∙◌, arith,
  str_eq_iff, str_eq_refl, Bool-cases, inl, inr, ltb, lookup-absent,
}
use delaxis.LruCache.{LruCache, without, move_to_end, assign, pop_oldest, evict, touch, get, set}
use delaxis.LruCache.Entries.{
  HasDistinctKeys, without-absent, length-without, HasDistinctKeys-without, HasDistinctKeys-append,
  lookup-append_entry, lookup-without, assign-absent, move_to_end_lem, without_self,
  assign-move_to_end,
}

-- The newest `n` entries.
abbrev pub recent : {V : Type 0} → ℕ → List (String × V) → List (String × V)
recent n d = drop (length d - n) d

abbrev pub IsCache : {V : Type 0} → LruCache V → Type 0
IsCache c = HasDistinctKeys c.cache × (length c.cache ≤ c.max_size)

module _ {V : Type 0} where
  -- The entries with the key used last.
  abbrev pub used : String → V → List (String × V) → List (String × V)
  used k v d = without k d ++ (k, v) ∷ []

  evict-recent : (n : ℕ) (d : List (String × V)) → length d ≤ n + 1 → evict n d ≡ recent n d
  unfolding evict pop_oldest
  evict-recent n [] h = ground arith
  evict-recent n (e ∷ d) h = elim (Bool-cases (ltb n (length (e ∷ d)))) [
    | inl over ↦ let one : suc (length d) - n ≡ 1 = ground arith in rw (over, one)
    | inr fits ↦ let nothing : suc (length d) - n ≡ 0 = ground arith in rw (fits, nothing)
  ]

  assign-touch : (k : String) (v : V) (d : List (String × V)) → assign k v (touch k d) ≡ used k v d
  unfolding touch
  assign-touch k v d = elim (Bool-cases (contains k (keys d))) [
    | inl there ↦ rw there (assign-move_to_end k v d there)
    | inr absent ↦
        rw absent (
          assign-absent k v d absent ∙ ap (λ l. l ++ (k, v) ∷ []) (sym (without-absent k d absent)))
  ]

  length-used :
      (k : String) (v : V) (d : List (String × V))
      → HasDistinctKeys d
      → length (used k v d) ≤ length d + 1
  length-used k v d h = elim (Bool-cases (contains k (keys d))) [
    | inl there ↦
        omega (arith, length-append (without k d) ((k, v) ∷ []), length-without k d h there)
    | inr absent ↦
        omega
          (arith, length-append (without k d) ((k, v) ∷ []), ap length (without-absent k d absent))
  ]

  HasDistinctKeys-used :
      (k : String) (v : V) (d : List (String × V))
      → HasDistinctKeys d
      → HasDistinctKeys (used k v d)
  HasDistinctKeys-used k v d h =
      HasDistinctKeys-append k v (without k d) (without_self k d) (HasDistinctKeys-without k d h)

  HasDistinctKeys-drop :
      (n : ℕ) (d : List (String × V)) → HasDistinctKeys d → HasDistinctKeys (drop n d)
  HasDistinctKeys-drop zero d h = h
  HasDistinctKeys-drop (suc n) [] h = tt
  HasDistinctKeys-drop (suc n) ((k, v) ∷ d) h = HasDistinctKeys-drop n d h.1

  length-drop : (n : ℕ) (d : List (String × V)) → length (drop n d) ≡ length d - n
  length-drop zero d = omega arith
  length-drop (suc n) [] = omega arith
  length-drop (suc n) (e ∷ d) = omega (arith, length-drop n d)

  drop-append :
      (n : ℕ) (d more : List (String × V)) → n ≤ length d → drop n (d ++ more) ≡ drop n d ++ more
  drop-append zero d more h = refl
  drop-append (suc n) [] more h = absurd (omega (arith, h))
  drop-append (suc n) (e ∷ d) more h = drop-append n d more (omega (arith, h))

  contains-drop :
      (x : String) (n : ℕ) (d : List (String × V))
      → contains x (keys d) ≡ false
      → contains x (keys (drop n d)) ≡ false
  unfolding contains keys
  contains-drop x zero d h = h
  contains-drop x (suc n) [] h = refl
  contains-drop x (suc n) ((k, v) ∷ d) h = contains-drop x n d (ground arith)

  -- What a write leaves: the newest entries, that of the key last, in a cache that is still valid.
  pub record IsWritten (k : String) (v : V) (c c' : LruCache V) : Type 0 where
    pub order : c'.cache ≡ recent c.max_size (used k v c.cache)
    pub valid : IsCache c'
    pub read_back : 0 < c.max_size → (get k c').1 ≡ some v

  get-lookup : (k : String) (c : LruCache V) → (get k c).1 ≡ lookup k c.cache
  unfolding get
  get-lookup k c = elim (Bool-cases (contains k (keys c.cache))) [
    | inl there ↦
        let (w, at, moved) = move_to_end_lem k c.cache there in
        rw (there, moved, at)
          (lookup-append_entry k k w (without k c.cache) (without_self k c.cache)
            ∙ ground (arith, str_eq_refl k))
    | inr absent ↦ rw absent (sym (lookup-absent k c.cache absent))
  ]

  lookup-recent :
      (k : String) (v : V) (n : ℕ) (d : List (String × V))
      → 0 < n
      → lookup k (recent n (used k v d)) ≡ some v
  lookup-recent k v n d h =
      let size = length-append (without k d) ((k, v) ∷ []) in
      let rest = without k d in
      ap (lookup k)
        (drop-append (length (used k v d) - n) rest ((k, v) ∷ []) (omega (arith, size, h)))
      ∙ lookup-append_entry k k v (drop (length (used k v d) - n) rest)
          (contains-drop k (length (used k v d) - n) rest (without_self k d))
      ∙ ground (arith, str_eq_refl k)

  -- After set the cache holds the newest max_size entries in the order of last use, with the key
  -- that was set last: it evicts the least recently used entry exactly when there is one too many.
  -- The keys stay distinct, the size stays within max_size, and if max_size is not 0 a get of the
  -- key returns the value.
  pub set-IsWritten :
      (k : String) (v : V) (c : LruCache V) → IsCache c → IsWritten k v c (set k v c)
  unfolding set
  set-IsWritten k v c (distinct, bound) =
      let used_now = used k v c.cache in
      let order : evict c.max_size (assign k v (touch k c.cache)) ≡ recent c.max_size used_now =
        ap (evict c.max_size) (assign-touch k v c.cache)
        ∙ evict-recent c.max_size used_now
            (omega (arith, length-used k v c.cache distinct, bound)) in
      record {
        order = order;
        valid = rw order (
          HasDistinctKeys-drop (length used_now - c.max_size) used_now
              (HasDistinctKeys-used k v c.cache distinct),
          omega (arith, length-drop (length used_now - c.max_size) used_now),
        );
        read_back = λ some_room.
            get-lookup k (set k v c) ∙ rw order (lookup-recent k v c.max_size c.cache some_room);
      }

  -- What a read leaves: the same entries, that of the key last when it is there.
  pub record IsRead (k : String) (c : LruCache V) (done : LruCache V × Option V) : Type 0 where
    pub answer : done.1 ≡ lookup k c.cache
    pub same_entries : (x : String) → lookup x done.0.cache ≡ lookup x c.cache
    pub order_hit : (w : V) → lookup k c.cache ≡ some w → done.0.cache ≡ used k w c.cache
    pub order_miss : lookup k c.cache ≡ none → done.0.cache ≡ c.cache
    pub valid : IsCache done.0

  lookup-used :
      (x k : String) (w : V) (d : List (String × V))
      → lookup k d ≡ some w
      → lookup x (used k w d) ≡ lookup x d
  lookup-used x k w d at = elim (Bool-cases (k == x)) [
    | inl same ↦
        lookup-append_entry x k w (without k d) (without_self k d)
        ∙ rw same (sym (subst (λ y. lookup y d ≡ some w) ((str_eq_iff k x).0 same) at))
    | inr other ↦
        lookup-append_entry x k w (without k d) (without_self k d)
        ∙ rw other (lookup-without x k d other)
  ]

  length-used_present :
      (k : String) (w : V) (d : List (String × V))
      → HasDistinctKeys d
      → contains k (keys d) ≡ true
      → length (used k w d) ≡ length d
  length-used_present k w d h there =
      omega (arith, length-append (without k d) ((k, w) ∷ []), length-without k d h there)

  get-hit :
      (k : String) (c : LruCache V)
      → contains k (keys c.cache) ≡ true
      → (get k c).0.cache ≡ move_to_end k c.cache
  unfolding get
  get-hit k c there = rw there

  get-miss :
      (k : String) (c : LruCache V)
      → contains k (keys c.cache) ≡ false
      → (get k c).0.cache ≡ c.cache
  unfolding get
  get-miss k c absent = rw absent

  get-bound : (k : String) (c : LruCache V) → (get k c).0.max_size ≡ c.max_size
  unfolding get
  get-bound k c = elim (Bool-cases (contains k (keys c.cache))) [
    | inl there ↦ rw there
    | inr absent ↦ rw absent
  ]

  get-valid :
      (k : String) (c : LruCache V) (d : List (String × V))
      → (get k c).0.cache ≡ d
      → HasDistinctKeys d
      → length d ≤ c.max_size
      → IsCache (get k c).0
  get-valid k c d e h b = rw (e, get-bound) (h, b)

  -- A get answers with the value of the key, changes no entry, and moves the entry of the key to the
  -- end of the order when there is one; a cache within its bounds stays within them.
  pub get-IsRead : (k : String) (c : LruCache V) → IsCache c → IsRead k c (get k c)
  get-IsRead k c (distinct, bound) = elim (Bool-cases (contains k (keys c.cache))) [
    | inl there ↦
        let (w, at, moved) = move_to_end_lem k c.cache there in
        let now : (get k c).0.cache ≡ used k w c.cache = get-hit k c there ∙ moved in
        record {
          answer = get-lookup k c;
          same_entries = λ x. ap (lookup x) now ∙ lookup-used x k w c.cache at;
          order_hit = λ v here. let same : w ≡ v = cc in now ∙ ap (λ u. used k u c.cache) same;
          order_miss = λ missing. cc;
          valid =
              get-valid k c (used k w c.cache) now (HasDistinctKeys-used k w c.cache distinct)
                (omega (arith, length-used_present k w c.cache distinct there, bound));
        }
    | inr absent ↦
        let now : (get k c).0.cache ≡ c.cache = get-miss k c absent in
        record {
          answer = get-lookup k c;
          same_entries = λ x. ap (lookup x) now;
          order_hit = λ v here. let missing = lookup-absent k c.cache absent in cc;
          order_miss = λ missing. now;
          valid = get-valid k c c.cache now distinct bound;
        }
  ]
