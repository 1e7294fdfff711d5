-- ===== src/Chunking/Windows.antt =====
-- src/rag/chunking.py: where `_split_point` and the cursor can be.
use delaxis.Prelude.{
  ℕ, zero, suc, ◌+◌, ◌-◌, ◌≤◌, leb, leb→le, some, List, [], ◌∷◌, length, take, drop, In, ◌≡◌, refl,
  arith, Bool-cases, Option-cases, inl, inr,
}
use delaxis.Chunking.{
  Patterns, half, last_match, cut_at, split_window, split_point, take_piece, next_cursor,
  resume_point, max,
}

pub half-bounds : (n : ℕ) → 2 ≤ n → (1 ≤ half n) × (half n ≤ n)
unfolding half
half-bounds zero h = absurd (omega (arith, h))
half-bounds (suc zero) h = absurd (omega (arith, h))
half-bounds (suc (suc zero)) h = (omega arith, omega arith)
half-bounds (suc (suc (suc zero))) h = (omega arith, omega arith)
half-bounds (suc (suc (suc (suc n)))) h =
    let (low, high) = half-bounds (suc (suc n)) (omega arith) in
    (omega (arith, low), omega (arith, high))

last_match-In : (ends : List ℕ) (e : ℕ) → last_match ends ≡ some e → In e ends
unfolding last_match
last_match-In [] e h = cc
last_match-In (d ∷ []) e h = inl (cc)
last_match-In (d ∷ next ∷ ends) e h = inr (last_match-In (next ∷ ends) e h)

module _ {C : Type 0} where
  pub length-take_le : (n : ℕ) (xs : List C) → length (take n xs) ≤ n
  length-take_le zero xs = omega arith
  length-take_le (suc n) [] = omega arith
  length-take_le (suc n) (x ∷ xs) = omega (arith, length-take_le n xs)

  pub length-drop : (n : ℕ) (xs : List C) → length (drop n xs) ≡ length xs - n
  length-drop zero xs = omega arith
  length-drop (suc n) [] = omega arith
  length-drop (suc n) (x ∷ xs) = omega (arith, length-drop n xs)

  -- A match lies in the window that it was looked for in.
  abbrev pub IsWindowed : Patterns C → Type 0
  IsWindowed p =
      (pattern : List C → List ℕ)
      → In pattern p.boundaries
      → (window : List C) (e : ℕ) → In e (pattern window)
      → e ≤ length window

  split_window-bounds :
      (patterns : List (List C → List ℕ)) (window : List C) (target floor : ℕ)
      → ((pattern : List C → List ℕ)
          → In pattern patterns
          → (e : ℕ) → In e (pattern window)
          → e ≤ length window)
      → length window ≤ target
      → floor ≤ target
      → (floor ≤ split_window patterns window target floor)
        × (split_window patterns window target floor ≤ target)
  unfolding split_window cut_at
  split_window-bounds [] window target floor inside fits h = (h, omega arith)
  split_window-bounds (pattern ∷ patterns) window target floor inside fits h =
      let weaker =
        split_window-bounds patterns window target floor (λ q m. inside q (inr m)) fits h in
      elim (Option-cases (last_match (pattern window))) [
        | inl none_found ↦ rw none_found weaker
        | inr (e, found) ↦ elim (Bool-cases (leb floor e)) [
          | inr early ↦ rw (found, early) weaker
          | inl late ↦
              rw (found, late)
                (
                  leb→le floor e late,
                  omega (
                    arith,
                    inside pattern (inl refl) e (last_match-In (pattern window) e found),
                    fits,
                  ),
                )
        ]
      ]

  -- A piece takes at least one character of a text that has one, and no more than it has or than is allowed.
  pub take_piece-bounds :
      (p : Patterns C)
      → IsWindowed p
      → (chunk_chars : ℕ) (remaining : List C) → 2 ≤ chunk_chars
      → 1 ≤ length remaining
      → (1 ≤ take_piece p chunk_chars remaining)
        × (take_piece p chunk_chars remaining ≤ chunk_chars)
        × (take_piece p chunk_chars remaining ≤ length remaining)
  unfolding take_piece split_point
  take_piece-bounds p windowed chunk_chars remaining big nonempty =
      elim (Bool-cases (leb (length remaining) chunk_chars)) [
        | inl short ↦ rw short (nonempty, leb→le _ _ short, omega arith)
        | inr long ↦
            let (low, high) =
              split_window-bounds p.boundaries (take chunk_chars remaining) chunk_chars
                (half chunk_chars) (λ q m e. windowed q m (take chunk_chars remaining) e)
                (length-take_le chunk_chars remaining) (half-bounds chunk_chars big).1 in
            rw long (
              omega (arith, low, (half-bounds chunk_chars big).0),
              high,
              ground (arith, long, high),
            )
      ]

  -- The cursor moves on, and not past the end of the piece.
  pub next_cursor-bounds :
      (p : Patterns C) (overlap_chars : ℕ) (body : List C) (cursor taken : ℕ)
      → 1 ≤ taken
      → (cursor + 1 ≤ next_cursor p overlap_chars body cursor taken)
        × (next_cursor p overlap_chars body cursor taken ≤ cursor + taken)
  unfolding next_cursor
  next_cursor-bounds p overlap_chars body cursor taken h =
      let resume = resume_point p body (cursor + max 1 (taken - overlap_chars)) in ground (arith, h)
