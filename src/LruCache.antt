-- ===== src/LruCache.antt =====
-- src/infrastructure/cache_manager.py: LRUCache. The OrderedDict is the list of its entries, the
-- oldest first. Each method holds the lock from its start to its end.
pub mod Entries
pub mod Recency
use delaxis.Prelude.{
  ℕ, String, ◌==◌, Bool, true, false, Option, none, some, List, [], ◌∷◌, ◌++◌, length, contains,
  lookup, keys, ltb, if◌then◌else◌,
}

pub record LruCache (V : Type 0) : Type 0 where
  pub max_size : ℕ
  pub cache : List (String × V)

module _ {V : Type 0} where
  -- The entries of the other keys.
  unfoldable pub without : String → List (String × V) → List (String × V)
  without k [] = []
  without k ((j, v) ∷ d) = let rest = without k d in if j == k then rest else (j, v) ∷ rest

  unfoldable pub append_value : String → Option V → List (String × V) → List (String × V)
  append_value k none d = d
  append_value k (some v) d = d ++ (k, v) ∷ []

  -- cache.move_to_end(k), for a key that is there.
  unfoldable pub move_to_end : String → List (String × V) → List (String × V)
  move_to_end k d = append_value k (lookup k d) (without k d)

  -- cache[k] = v: in place, or a new entry at the end.
  unfoldable pub assign : String → V → List (String × V) → List (String × V)
  assign k v [] = (k, v) ∷ []
  assign k v ((j, w) ∷ d) = let rest = assign k v d in if j == k then (k, v) ∷ d else (j, w) ∷ rest

  -- cache.popitem(last=False), for a cache that is not empty.
  unfoldable pub pop_oldest : List (String × V) → List (String × V)
  pop_oldest [] = []
  pop_oldest (e ∷ d) = d

  unfoldable pub get : String → LruCache V → LruCache V × Option V
  get k c =
      if contains k (keys c.cache)
      then (let moved = move_to_end k c.cache in (record c { cache = moved }, lookup k moved))
      else (c, none)

  unfoldable pub evict : ℕ → List (String × V) → List (String × V)
  evict max_size d = if ltb max_size (length d) then pop_oldest d else d

  unfoldable pub touch : String → List (String × V) → List (String × V)
  touch k d = if contains k (keys d) then move_to_end k d else d

  unfoldable pub set : String → V → LruCache V → LruCache V
  set k v c = record c { cache = evict c.max_size (assign k v (touch k c.cache)) }

  unfoldable pub delete : String → LruCache V → LruCache V × Bool
  delete k c =
      if contains k (keys c.cache)
      then (record c { cache = without k c.cache }, true)
      else (c, false)

  unfoldable pub clear : LruCache V → LruCache V × ℕ
  clear c = (record c { cache = [] }, length c.cache)
