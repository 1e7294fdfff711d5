-- ===== src/Prelude/Names.antt =====
-- Lists of names (identifiers are Python strings), sets of names as lists, and dictionaries with
-- names for keys, in insertion order.
use Prim.Native.String.{String}
use text.Mathlib.Text.{◌==◌}
use text.Mathlib.TextEquality.{eq_iff}
use mathlib.Core.Path.{◌≡◌, refl, subst}
use mathlib.Core.Logic.{◌↔◌, inl, inr}
use mathlib.Core.Bool.{Bool, true, false, ◌||◌}
use mathlib.Core.Option.{Option, none, some}
use mathlib.Core.List.{List, [], ◌∷◌, ◌++◌}
use native.Mathlib.Omega.{arith}
use delaxis.Prelude.Tests.{Bool-cases, if◌then◌else◌}

-- x in xs
unfoldable pub contains : String → List String → Bool
contains x [] = false
contains x (y ∷ ys) = if y == x then true else contains x ys

-- s.add(x)
unfoldable pub add : String → List String → List String
add x s = if contains x s then s else x ∷ s

-- A list without the value x.
unfoldable pub remove : String → List String → List String
remove x [] = []
remove x (y ∷ ys) = let rest = remove x ys in if y == x then rest else y ∷ rest

abbrev pub All {ℓ} : {A : Type ℓ} → (A → Type 0) → List A → Type 0
All P [] = Unit
All P (x ∷ xs) = P x × All P xs

-- No name stands twice in the list.
abbrev pub Distinct : List String → Type 0
Distinct [] = Unit
Distinct (x ∷ xs) = (contains x xs ≡ false) × Distinct xs

-- Every name of the first list is in the second.
abbrev pub Subset : List String → List String → Type 0
Subset xs ys = (x : String) → contains x xs ≡ true → contains x ys ≡ true

pub str_eq_iff : (a b : String) → ((a == b) ≡ true) ↔ (a ≡ b)
str_eq_iff = eq_iff

pub str_eq_refl : (a : String) → (a == a) ≡ true
str_eq_refl a = (eq_iff a a).1 refl

pub contains-cons_self : (x : String) (xs : List String) → contains x (x ∷ xs) ≡ true
unfolding contains
contains-cons_self x xs = ground (arith, str_eq_refl x)

pub contains-append :
    (x : String) (xs ys : List String) → contains x (xs ++ ys) ≡ (contains x xs || contains x ys)
unfolding contains
contains-append x [] ys = refl
contains-append x (z ∷ xs) ys = ground (arith, contains-append x xs ys)

pub contains-remove :
    (x y : String) (xs : List String)
    → contains x (remove y xs) ≡ (if y == x then false else contains x xs)
unfolding contains remove
contains-remove x y [] = ground arith
contains-remove x y (z ∷ xs) =
    ground (arith, contains-remove x y xs, eq_iff y x, eq_iff z x, eq_iff z y)

pub contains-add :
    (x y : String) (xs : List String)
    → contains x (add y xs) ≡ (if y == x then true else contains x xs)
unfolding contains add
contains-add x y xs = ground (arith, eq_iff y x)

pub remove-absent : (x : String) (xs : List String) → contains x xs ≡ false → remove x xs ≡ xs
unfolding contains remove
remove-absent x [] h = refl
remove-absent x (y ∷ xs) h = ground (arith, remove-absent x xs)

pub All-at :
    (P : String → Type 0) (x : String) (xs : List String) → contains x xs ≡ true → All P xs → P x
unfolding contains
All-at P x [] h all = ground arith
All-at P x (y ∷ xs) h all = elim (Bool-cases (y == x)) [
  | inl same ↦ subst P ((eq_iff y x).0 same) all.0
  | inr other ↦ All-at P x xs (rw other at h) all.1
]

pub All-of_members :
    (P : String → Type 0) (xs : List String)
    → ((x : String) → contains x xs ≡ true → P x)
    → All P xs
unfolding contains
All-of_members P [] h = tt
All-of_members P (x ∷ xs) h =
    (h x (contains-cons_self x xs), All-of_members P xs (λ y m. h y (ground arith)))

pub ruleset names_rules = (contains-append, contains-remove, contains-add)

module _ {ℓ} {V : Type ℓ} where
  -- d.get(k)
  unfoldable pub lookup : String → List (String × V) → Option V
  lookup k [] = none
  lookup k ((j, v) ∷ d) = if j == k then some v else lookup k d

  -- The keys, in the order of insertion.
  unfoldable pub keys : List (String × V) → List String
  keys [] = []
  keys ((k, v) ∷ d) = k ∷ keys d

  pub lookup-absent :
      (k : String) (d : List (String × V)) → contains k (keys d) ≡ false → lookup k d ≡ none
  unfolding lookup keys contains
  lookup-absent k [] h = refl
  lookup-absent k ((j, v) ∷ d) h = ground (arith, lookup-absent k d)

  pub contains-keys :
      (k : String) (d : List (String × V)) {v : V}
      → lookup k d ≡ some v
      → contains k (keys d) ≡ true
  unfolding lookup keys contains
  contains-keys k [] h = ground arith
  contains-keys k ((j, w) ∷ d) {v} h = ground (arith, contains-keys k d {v = v})
