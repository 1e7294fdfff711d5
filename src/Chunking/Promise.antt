-- ===== src/Chunking/Promise.antt =====
-- src/rag/chunking.py: what `chunk_text` promises.
use delaxis.Prelude.{
  true, ℕ, suc, ◌≤◌, ℤ, pos, negsuc, pos_part, ltb_ℤ, leb_ℤ, ◌≤ℤ◌, ◌<ℤ◌, List, [], ◌∷◌, length, ◌≡◌,
  refl, arith, Bool-cases, inl, inr, ◌⊎◌,
}
use delaxis.Prelude.Outcome.{Outcome, ret, raise, out_of_fuel, value_error, Returns}
use delaxis.Chunking.{Chunk, Patterns, chunk_body, chunk_text, min_chunk_chars}
use delaxis.Chunking.Windows.{IsWindowed}
use delaxis.Chunking.Pieces.{IsChunking, Pieces, chunk_loop-IsChunking, start-Progress}

chunk_body-IsChunking :
    {C D : Type 0} (p : Patterns C) (base : D) (chunk_chars overlap_chars : ℕ) (body : List C)
    → IsWindowed p
    → 2 ≤ chunk_chars
    → Returns
        (chunk_body p base chunk_chars overlap_chars body)
        (IsChunking p chunk_chars body base)
unfolding chunk_body Pieces
chunk_body-IsChunking p base chunk_chars overlap_chars [] windowed big = record {
  pieces = tt;
  rising = omega arith;
  covered = λ i h. absurd (omega (arith, h));
}
chunk_body-IsChunking p base chunk_chars overlap_chars (c ∷ body) windowed big =
    chunk_loop-IsChunking p chunk_chars (c ∷ body) base windowed big overlap_chars
      (suc (length (c ∷ body))) 0 [] (omega arith) (omega arith)
      (start-Progress p chunk_chars (c ∷ body) base)

-- What chunk_text promises: a ValueError exactly for a chunk size below 80 or an overlap that is negative or
-- not smaller than it, and else the chunks of the normalised text.
unfoldable pub Promise :
    {C D : Type 0} → Patterns C → List C → ℤ → ℤ → D → Outcome (List (Chunk C D)) → Type 0
Promise p text chunk_chars overlap_chars metadata (raise e) =
    (e ≡ value_error)
    × ((chunk_chars <ℤ pos 80) ⊎ (overlap_chars <ℤ pos 0) ⊎ (chunk_chars ≤ℤ overlap_chars))
Promise p text chunk_chars overlap_chars metadata (ret chunks) =
    (size : ℕ) × (chunk_chars ≡ pos size)
    × (80 ≤ size)
    × (pos 0 ≤ℤ overlap_chars)
    × (overlap_chars <ℤ chunk_chars)
    × IsChunking p size (p.normalise text) metadata chunks
Promise p text chunk_chars overlap_chars metadata out_of_fuel = ⊥

Returns-Promise :
    {C D : Type 0} (p : Patterns C) (text : List C) (size : ℕ) (overlap_chars : ℤ) (metadata : D)
    (m : Outcome (List (Chunk C D)))
    → 80 ≤ size
    → pos 0 ≤ℤ overlap_chars
    → overlap_chars <ℤ pos size
    → Returns m (IsChunking p size (p.normalise text) metadata)
    → Promise p text (pos size) overlap_chars metadata m
unfolding Promise
Returns-Promise p text size overlap_chars metadata (ret chunks) big low small h =
    (size, refl, big, low, small, h)
Returns-Promise p text size overlap_chars metadata (raise e) big low small h = absurd h
Returns-Promise p text size overlap_chars metadata out_of_fuel big low small h = absurd h

-- If a match lies in the window it was looked for in, chunk_text ends: with a ValueError exactly when the chunk size is below 80 or the
-- overlap is negative or not smaller than it, and else with chunks that are numbered from 0, each a non-empty
-- stripped piece of the normalised text of at most chunk_chars characters with the metadata given, each starting after the one before, such that each
-- position of the text is in a chunk or in a stretch of it that is empty when stripped.
pub chunk_text-Promise :
    {C D : Type 0} (p : Patterns C) (text : List C) (chunk_chars overlap_chars : ℤ) (metadata : D)
    → IsWindowed p
    → Promise p text chunk_chars overlap_chars metadata
        (chunk_text p text chunk_chars overlap_chars metadata)
unfolding chunk_text Promise
chunk_text-Promise p text (negsuc n) overlap_chars metadata windowed =
    let small : ltb_ℤ (negsuc n) (pos min_chunk_chars) ≡ true = ground arith in
    rw small (refl, inl (omega arith))
chunk_text-Promise p text (pos size) overlap_chars metadata windowed =
    elim (Bool-cases (ltb_ℤ (pos size) (pos min_chunk_chars))) [
      | inl small ↦ rw small (refl, inl (ground (arith, small)))
      | inr big ↦ elim (Bool-cases (leb_ℤ (pos 0) overlap_chars)) [
        | inr below ↦ rw (big, below) (refl, inr (inl (ground (arith, below))))
        | inl low ↦ elim (Bool-cases (ltb_ℤ overlap_chars (pos size))) [
          | inr wide ↦ rw (big, low, wide) (refl, inr (inr (ground (arith, wide))))
          | inl narrow ↦
              let enough : 80 ≤ size = ground (arith, big) in
              rw (big, low, narrow)
                (Returns-Promise p text size overlap_chars metadata _ enough (ground (arith, low))
                  (ground (arith, narrow))
                  (chunk_body-IsChunking p metadata size (pos_part overlap_chars) (p.normalise text)
                    windowed (omega (arith, enough))))
        ]
      ]
    ]
