-- ===== src/Samples/Counts.antt =====
-- LFUCache with two entries.
use delaxis.Prelude.{false, ℕ, [], ◌∷◌, ◌≡◌, refl, arith, contains, keys}
use delaxis.Prelude.Outcome.{Returns}
use delaxis.LfuCache.{LfuCache, set}
use delaxis.LfuCache.Eviction.{IsLfu, IsInserted, set-IsInserted}

abbrev counted : LfuCache ℕ
counted = record {
  max_size = 2;
  cache = ("a", 1) ∷ ("b", 2) ∷ [];
  frequencies = ("a", 3) ∷ ("b", 1) ∷ [];
}

counted-IsLfu : IsLfu counted
unfolding contains keys
counted-IsLfu = record { same_keys = refl; distinct = (refl, (refl, tt)); bound = omega arith }

c_new : contains "c" (keys counted.cache) ≡ false
unfolding contains keys
c_new = refl

set-IsInserted_example : Returns (set "c" 3 counted) (IsInserted "c" 3 counted)
set-IsInserted_example = set-IsInserted "c" 3 counted counted-IsLfu (omega arith) c_new
