-- ===== src/Samples/Caches.antt =====
-- LRUCache with two entries.
use delaxis.Prelude.{ℕ, [], ◌∷◌, ◌≡◌, refl, arith, contains, lookup, keys}
use delaxis.LruCache.{
  LruCache, without, append_value, move_to_end, assign, pop_oldest, get, evict, touch, set, delete,
  clear,
}
use delaxis.LruCache.Recency.{IsCache, IsWritten, set-IsWritten, IsRead, get-IsRead}

entries : Unit {0}
unfolding without append_value move_to_end assign pop_oldest get evict touch set delete clear
    contains lookup keys
entries = tt

abbrev full : LruCache ℕ
full = record { max_size = 2; cache = ("a", 1) ∷ ("b", 2) ∷ [] }

set-full : (set "c" 3 (get "a" full).0).cache ≡ ("a", 1) ∷ ("c", 3) ∷ []
unfolding entries
set-full = refl

full-IsCache : IsCache full
unfolding contains keys
full-IsCache = ((refl, (refl, tt)), omega arith)

set-IsWritten_example : IsWritten "c" 3 full (set "c" 3 full)
set-IsWritten_example = set-IsWritten "c" 3 full full-IsCache

get-IsRead_example : IsRead "a" full (get "a" full)
get-IsRead_example = get-IsRead "a" full full-IsCache
