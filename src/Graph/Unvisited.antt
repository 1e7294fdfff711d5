-- ===== src/Graph/Unvisited.antt =====
-- How many entries of a list of nodes have not been visited: what falls with each visit.
use delaxis.Prelude.{
  ℕ, ◌+◌, ◌≤◌, ◌<◌, String, eq_iff, List, [], ◌∷◌, length, ◌≡◌, true, false, contains, Subset,
  if◌then◌else◌, arith,
}

unfoldable pub unvisited : List String → List String → ℕ
unvisited [] seen = 0
unvisited (x ∷ xs) seen = (if contains x seen then 0 else 1) + unvisited xs seen

pub unvisited-le-length : (xs seen : List String) → unvisited xs seen ≤ length xs
unfolding unvisited
unvisited-le-length [] seen = omega arith
unvisited-le-length (x ∷ xs) seen = ground (arith, unvisited-le-length xs seen)

pub unvisited_mono :
    (xs seen more : List String) → Subset seen more → unvisited xs more ≤ unvisited xs seen
unfolding unvisited
unvisited_mono [] seen more h = omega arith
unvisited_mono (x ∷ xs) seen more h = ground (arith, unvisited_mono xs seen more h, h x)

-- A visit of a fresh entry brings the number down.
pub unvisited-visit :
    (xs seen : List String) (n : String)
    → contains n xs ≡ true
    → contains n seen ≡ false
    → unvisited xs (n ∷ seen) < unvisited xs seen
unfolding unvisited contains
unvisited-visit [] seen n listed fresh = ground arith
unvisited-visit (x ∷ xs) seen n listed fresh =
    let fewer = unvisited_mono xs seen (n ∷ seen) (λ m h. ground arith) in
    ground (arith, unvisited-visit xs seen n, fewer, eq_iff n x, eq_iff x n)
