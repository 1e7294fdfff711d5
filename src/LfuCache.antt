-- ===== src/LfuCache.antt =====
-- src/infrastructure/cache_manager.py: LFUCache. Both dictionaries are lists in the order of
-- insertion. Each method holds the lock from its start to its end.
pub mod Eviction
use delaxis.Prelude.{
  ℕ, ◌+◌, String, ◌==◌, Bool, true, false, Option, none, some, List, [], ◌∷◌, ◌++◌, length,
  contains, lookup, keys, leb, if◌then◌else◌,
}
use delaxis.Prelude.Outcome.{Outcome, ret, raise, value_error, key_error, ◌>>=◌}
use delaxis.LruCache.{without, assign}

pub record LfuCache (V : Type 0) : Type 0 where
  pub max_size : ℕ
  pub cache : List (String × V)
  pub frequencies : List (String × ℕ)

-- frequencies.get(key, 0)
unfoldable pub count : Option ℕ → ℕ
count none = 0
count (some n) = n

unfoldable pub smaller : String → ℕ → Option (String × ℕ) → Option (String × ℕ)
smaller k n none = some (k, n)
smaller k n (some (j, m)) = if leb n m then some (k, n) else some (j, m)

-- The key of the least frequency, the first of them; `min` raises on no keys.
unfoldable pub least : List (String × ℕ) → Option (String × ℕ)
least [] = none
least ((k, n) ∷ f) = smaller k n (least f)

unfoldable pub bump_frequency : String → List (String × ℕ) → List (String × ℕ)
bump_frequency k f = assign k (count (lookup k f) + 1) f

module _ {V : Type 0} where
  -- del d[k]
  unfoldable pub delete_key : String → List (String × V) → Outcome (List (String × V))
  delete_key k d = if contains k (keys d) then ret (without k d) else raise key_error

module _ {V : Type 0} where
  unfoldable pub get : String → LfuCache V → LfuCache V × Option V
  get k c =
      if contains k (keys c.cache)
      then (record c { frequencies = bump_frequency k c.frequencies }, lookup k c.cache)
      else (c, none)

  unfoldable pub evict_least : Option (String × ℕ) → LfuCache V → Outcome (LfuCache V)
  evict_least none c = raise value_error
  evict_least (some (k, n)) c = do
    cache ← delete_key k c.cache
    frequencies ← delete_key k c.frequencies
    ret (record c { cache = cache; frequencies = frequencies })

  unfoldable pub make_room : LfuCache V → Outcome (LfuCache V)
  make_room c =
      if leb c.max_size (length c.cache) then evict_least (least c.frequencies) c else ret c

  unfoldable pub insert : String → V → LfuCache V → LfuCache V
  insert k v c = record c { cache = assign k v c.cache; frequencies = assign k 1 c.frequencies }

  unfoldable pub set : String → V → LfuCache V → Outcome (LfuCache V)
  set k v c =
      if contains k (keys c.cache)
      then ret
          (record c { cache = assign k v c.cache; frequencies = bump_frequency k c.frequencies })
      else (make_room c >>= λ c'. ret (insert k v c'))

  unfoldable pub delete : String → LfuCache V → Outcome (LfuCache V × Bool)
  delete k c =
      if contains k (keys c.cache)
      then (delete_key k c.cache >>= λ cache. delete_key k c.frequencies >>= λ frequencies.
          ret (record c { cache = cache; frequencies = frequencies }, true))
      else ret (c, false)

  unfoldable pub clear : LfuCache V → LfuCache V × ℕ
  clear c = (record c { cache = []; frequencies = [] }, length c.cache)
