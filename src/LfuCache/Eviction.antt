-- ===== src/LfuCache/Eviction.antt =====
-- src/infrastructure/cache_manager.py: what set of LFUCache keeps and evicts.
use delaxis.Prelude.{
  ℕ, suc, ◌+◌, ◌≤◌, ◌<◌, String, true, false, Option, none, some, List, [], ◌∷◌, ◌++◌, length,
  length-append, contains, remove, lookup, keys, leb, if◌then◌else◌, All, ◌≡◌, refl, sym, ap, ◌∙◌,
  arith, str_eq_iff, str_eq_refl, Bool-cases, inl, inr, ◌⊎◌,
}
use delaxis.Prelude.Outcome.{ret, Returns, Returns-bind}
use delaxis.LruCache.{without, assign}
use delaxis.LruCache.Entries.{
  HasDistinctKeys, HasDistinctKeys-without, HasDistinctKeys-append, length-without, assign-absent,
  contains-without,
}
use delaxis.LfuCache.{LfuCache, least, smaller, delete_key, evict_least, make_room, insert, set}

module _ {V : Type 0} where
  keys-without : (k : String) (d : List (String × V)) → keys (without k d) ≡ remove k (keys d)
  unfolding keys without remove
  keys-without k [] = refl
  keys-without k ((j, v) ∷ d) = ground (arith, keys-without k d)

  keys-assign :
      (k : String) (v : V) (d : List (String × V))
      → keys (assign k v d) ≡ (if contains k (keys d) then keys d else keys d ++ k ∷ [])
  unfolding keys assign contains
  keys-assign k v [] = refl
  keys-assign k v ((j, w) ∷ d) = ground (arith, keys-assign k v d, str_eq_iff j k)

  lookup-assign : (k : String) (v : V) (d : List (String × V)) → lookup k (assign k v d) ≡ some v
  unfolding lookup assign
  lookup-assign k v [] = ground (arith, str_eq_refl k)
  lookup-assign k v ((j, w) ∷ d) = ground (arith, lookup-assign k v d, str_eq_refl k)

  length-keys : (d : List (String × V)) → length (keys d) ≡ length d
  unfolding keys
  length-keys [] = refl
  length-keys (e ∷ d) = ap suc (length-keys d)

-- Every cached key has a frequency and no other key has, and the size is within its bound.
pub record IsLfu {V : Type 0} (c : LfuCache V) : Type 0 where
  pub same_keys : keys c.cache ≡ keys c.frequencies
  pub distinct : HasDistinctKeys c.cache
  pub bound : length c.cache ≤ c.max_size

-- The entry is there, and no frequency is smaller.
unfoldable pub Least : List (String × ℕ) → Option (String × ℕ) → Type 0
Least f none = f ≡ []
Least f (some (k, n)) =
    ((before after : List (String × ℕ)) × (f ≡ before ++ (k, n) ∷ after)) × All (λ e. n ≤ e.1) f

All-weaken : (n m : ℕ) (f : List (String × ℕ)) → n ≤ m → All (λ e. m ≤ e.1) f → All (λ e. n ≤ e.1) f
All-weaken n m [] h all = tt
All-weaken n m (e ∷ f) h all = (omega (arith, h, all.0), All-weaken n m f h all.1)

smaller-Least :
    (k : String) (n : ℕ) (f : List (String × ℕ)) (o : Option (String × ℕ))
    → Least f o
    → Least ((k, n) ∷ f) (smaller k n o)
unfolding Least smaller contains keys
smaller-Least k n f none e = (([], [], rw e), rw e (omega arith, tt))
smaller-Least k n f (some (j, m)) ((before, after, at), all) = elim (Bool-cases (leb n m)) [
  | inl low ↦ rw low (([], f, refl), (omega arith, All-weaken n m f (ground (arith, low)) all))
  | inr high ↦
      rw high (((k, n) ∷ before, after, ap (λ l. (k, n) ∷ l) at), (ground (arith, high), all))
]

contains-middle :
    (k : String) (n : ℕ) (before after : List (String × ℕ))
    → contains k (keys (before ++ (k, n) ∷ after)) ≡ true
unfolding contains keys
contains-middle k n [] after = ground (arith, str_eq_refl k)
contains-middle k n ((j, m) ∷ before) after = ground (arith, contains-middle k n before after)

least-Least : (f : List (String × ℕ)) → Least f (least f)
unfolding Least least
least-Least [] = refl
least-Least ((k, n) ∷ f) = smaller-Least k n f (least f) (least-Least f)

module _ {V : Type 0} where
  -- Nothing is evicted when there is room, and else one entry of the least frequency.
  abbrev pub Evicts : LfuCache V → List (String × V) → Type 0
  Evicts c rest =
      ((length c.cache < c.max_size) × (rest ≡ c.cache))
      ⊎ ((c.max_size ≤ length c.cache)
          × (j : String) × (n : ℕ) × Least c.frequencies (some (j, n))
          × (rest ≡ without j c.cache))

  record HasRoomFor (k : String) (c c' : LfuCache V) : Type 0 where
    kept : IsLfu c'
    room : length c'.cache + 1 ≤ c'.max_size
    absent : contains k (keys c'.cache) ≡ false
    evicts : Evicts c c'.cache

  -- What a write of a new key leaves.
  pub record IsInserted (k : String) (v : V) (c c' : LfuCache V) : Type 0 where
    pub valid : IsLfu c'
    pub inserted : (rest : List (String × V)) × Evicts c rest × (c'.cache ≡ rest ++ (k, v) ∷ [])
    pub read_back : lookup k c'.cache ≡ some v

  insert-IsInserted :
      (k : String) (v : V) (c c' : LfuCache V)
      → HasRoomFor k c c'
      → IsInserted k v c (insert k v c')
  unfolding insert
  insert-IsInserted k v c c' h =
      let now = assign-absent k v c'.cache h.absent in
      record {
        valid = record {
          same_keys =
              keys-assign k v c'.cache ∙ rw h.kept.same_keys (sym (keys-assign k 1 c'.frequencies));
          distinct = rw now (HasDistinctKeys-append k v c'.cache h.absent h.kept.distinct);
          bound = omega (arith, ap length now, length-append c'.cache ((k, v) ∷ []), h.room);
        };
        inserted = (c'.cache, h.evicts, now);
        read_back = lookup-assign k v c'.cache;
      }

  length-pos : (d : List (String × V)) → 0 < length d → keys d ≡ [] → ⊥
  unfolding keys
  length-pos [] h e = absurd (omega (arith, h))
  length-pos (x ∷ d) h e = cc

  evict_least-HasRoomFor :
      (k : String) (c : LfuCache V) (o : Option (String × ℕ))
      → IsLfu c
      → 0 < c.max_size
      → c.max_size ≤ length c.cache
      → contains k (keys c.cache) ≡ false
      → Least c.frequencies o
      → Returns (evict_least o c) (HasRoomFor k c)
  unfolding evict_least Least delete_key keys
  evict_least-HasRoomFor k c none lfu some_size full new e =
      absurd (length-pos c.cache (omega (arith, some_size, full)) (lfu.same_keys ∙ ap keys e))
  evict_least-HasRoomFor k c (some (j, n)) lfu some_size full new ((before, after, at), all) =
      let there : contains j (keys c.frequencies) ≡ true =
        ap (λ f. contains j (keys f)) at ∙ contains-middle j n before after in
      let cached : contains j (keys c.cache) ≡ true = ap (contains j) lfu.same_keys ∙ there in
      let size = length-without j c.cache lfu.distinct cached in
      rw (cached, there)
        (record {
          kept = record {
            same_keys =
                keys-without j c.cache
                ∙ ap (remove j) lfu.same_keys
                ∙ sym (keys-without j c.frequencies);
            distinct = HasDistinctKeys-without j c.cache lfu.distinct;
            bound = omega (arith, size, lfu.bound);
          };
          room = omega (arith, size, lfu.bound);
          absent = ground (arith, contains-without k j c.cache, new);
          evicts = inr (full, j, n, ((before, after, at), all), refl);
        })

  make_room-HasRoomFor :
      (k : String) (c : LfuCache V)
      → IsLfu c
      → 0 < c.max_size
      → contains k (keys c.cache) ≡ false
      → Returns (make_room c) (HasRoomFor k c)
  unfolding make_room
  make_room-HasRoomFor k c lfu some_size new = elim (Bool-cases (leb c.max_size (length c.cache))) [
    | inl full ↦ rw full (
        evict_least-HasRoomFor k c (least c.frequencies) lfu some_size (ground (arith, full)) new
          (least-Least c.frequencies))
    | inr some_room ↦ rw some_room (record {
      kept = lfu;
      room = ground (arith, some_room);
      absent = new;
      evicts = inl (ground (arith, some_room), refl);
    })
  ]

  -- A set of a key that is not cached, in a valid cache of at least one place, ends with a valid
  -- cache in which the key has the value: nothing is evicted when there is room, and else an entry
  -- that no other undercuts in frequency. It raises nothing.
  pub set-IsInserted :
      (k : String) (v : V) (c : LfuCache V)
      → IsLfu c
      → 0 < c.max_size
      → contains k (keys c.cache) ≡ false
      → Returns (set k v c) (IsInserted k v c)
  unfolding set
  set-IsInserted k v c lfu some_size new = rw new (
      Returns-bind (make_room c) (λ c'. ret (insert k v c')) (HasRoomFor k c) (IsInserted k v c)
        (make_room-HasRoomFor k c lfu some_size new) (λ c' e room. insert-IsInserted k v c c' room))
