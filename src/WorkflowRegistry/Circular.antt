-- ===== src/WorkflowRegistry/Circular.antt =====
-- src/config/workflow_registry.py: what `_check_circular_dependencies` accepts.
use delaxis.Prelude.{
  String, ◌==◌, true, false, none, List, [], ◌∷◌, ◌≡◌, ◌↔◌, refl, arith, str_eq_iff, Bool-cases,
  inl, inr, ◌⊎◌,
}
use delaxis.WorkflowRegistry.{has_pair, check_pairs}

abbrev pub Pairs : Type 0
Pairs = List (String × String)

-- No pair is there in both directions: no self-loop, and no two nodes with edges both ways.
abbrev pub IsOneWay : Pairs → Type 0
IsOneWay pairs = (a b : String) → has_pair a b pairs ≡ true → has_pair b a pairs ≡ false

-- One way within the list, and against the pairs seen before it.
abbrev Fits : Pairs → Pairs → Type 0
Fits seen pairs =
    (a b : String)
    → has_pair a b pairs ≡ true
    → (has_pair b a pairs ≡ false) × (has_pair b a seen ≡ false)

has_pair-cons :
    (a b x y : String) (pairs : Pairs)
    → has_pair a b ((x, y) ∷ pairs) ≡ true
    → ((x ≡ a) × (y ≡ b)) ⊎ (has_pair a b pairs ≡ true)
unfolding has_pair
has_pair-cons a b x y pairs h = ground (arith, str_eq_iff x a, str_eq_iff y b)

has_pair-miss :
    (a b x y : String) (pairs : Pairs)
    → (x ≡ a → y ≡ b → ⊥)
    → has_pair a b pairs ≡ false
    → has_pair a b ((x, y) ∷ pairs) ≡ false
unfolding has_pair
has_pair-miss a b x y pairs differ h = ground (arith, str_eq_iff x a, str_eq_iff y b)

has_pair-cons_self : (x y : String) (pairs : Pairs) → has_pair x y ((x, y) ∷ pairs) ≡ true
unfolding has_pair
has_pair-cons_self x y pairs = ground (arith, str_eq_iff x x, str_eq_iff y y)

has_pair-later :
    (a b x y : String) (pairs : Pairs)
    → has_pair a b pairs ≡ true
    → has_pair a b ((x, y) ∷ pairs) ≡ true
unfolding has_pair
has_pair-later a b x y pairs h = ground arith

has_pair-missing :
    (a b x y : String) (pairs : Pairs)
    → has_pair a b ((x, y) ∷ pairs) ≡ false
    → (x ≡ a → y ≡ b → ⊥) × (has_pair a b pairs ≡ false)
unfolding has_pair
has_pair-missing a b x y pairs h = ground (arith, str_eq_iff x a, str_eq_iff y b)

check_pairs-step :
    (i x y : String) (seen pairs : Pairs)
    → (check_pairs i seen ((x, y) ∷ pairs) ≡ none) ↔ (
        ((x == y) ≡ false)
        × (has_pair y x seen ≡ false)
        × (check_pairs i ((x, y) ∷ seen) pairs ≡ none))
unfolding check_pairs
check_pairs-step i x y seen pairs = ground arith

check_pairs-Fits :
    (i : String) (seen pairs : Pairs) → check_pairs i seen pairs ≡ none → Fits seen pairs
unfolding has_pair
check_pairs-Fits i seen [] e a b h = ground arith
check_pairs-Fits i seen ((x, y) ∷ pairs) e a b h =
    let (other, unseen, later) = (check_pairs-step i x y seen pairs).0 e in
    let fits = check_pairs-Fits i ((x, y) ∷ seen) pairs later in
    elim (has_pair-cons a b x y pairs h) [
      | inl (at, at') ↦
          let back : has_pair b a pairs ≡ false = elim (Bool-cases (has_pair b a pairs)) [
            | inr miss ↦ miss
            | inl hit ↦
                let (_, never) = fits b a hit in
                absurd ((has_pair-missing a b x y seen never).0 at at')
          ] in
          (has_pair-miss b a x y pairs (λ p q. ground (arith, str_eq_iff x y)) back, ground arith)
      | inr inside ↦
          let (back, before) = fits a b inside in
          let apart = has_pair-missing b a x y seen before in
          (has_pair-miss b a x y pairs apart.0 back, apart.1)
    ]

Fits-check_pairs :
    (i : String) (seen pairs : Pairs) → Fits seen pairs → check_pairs i seen pairs ≡ none
unfolding check_pairs
Fits-check_pairs i seen [] h = refl
Fits-check_pairs i seen ((x, y) ∷ pairs) h =
    let (back, before) = h x y (has_pair-cons_self x y pairs) in
    let other : (x == y) ≡ false =
      ground (arith, str_eq_iff x y, (has_pair-missing y x x y pairs back).0) in
    (check_pairs-step i x y seen pairs).1 (
      other,
      before,
      Fits-check_pairs i ((x, y) ∷ seen) pairs (λ a b inside.
          let (back', before') = h a b (has_pair-later a b x y pairs inside) in
          let apart = has_pair-missing b a x y pairs back' in
          (apart.1, has_pair-miss b a x y seen apart.0 before')),
    )

pub check_pairs-IsOneWay :
    (i : String) (pairs : Pairs) → (check_pairs i [] pairs ≡ none) ↔ IsOneWay pairs
unfolding has_pair
check_pairs-IsOneWay i pairs = (
  λ e a b h. (check_pairs-Fits i [] pairs e a b h).0,
  λ h. Fits-check_pairs i [] pairs (λ a b inside. (h a b inside, refl)),
)
