-- ===== src/Chunking.antt =====
-- src/rag/chunking.py: documents are split into overlapping pieces. A text is the list of its
-- characters, of any type C, and metadata are of any type D. The record Patterns stands for the
-- regular expressions: the ends of the matches of each boundary pattern in a window, in order, the
-- end of the first match of each pattern at which a piece may begin, and what `_normalise` and
-- `str.strip` make of a text.
pub mod Windows
pub mod Starts
pub mod Pieces
pub mod Promise
pub mod Documents
use delaxis.Prelude.{
  ℕ, zero, suc, ◌+◌, ◌-◌, ◌≤◌, ltb, leb, ℤ, pos, pos_part, ltb_ℤ, leb_ℤ, Bool, true, false, not,
  ◌&&◌, Option, none, some, List, [], ◌∷◌, ◌++◌, length, take, drop, if◌then◌else◌,
}
use delaxis.Prelude.Outcome.{Outcome, ret, raise, out_of_fuel, value_error, ◌>>=◌}

abbrev pub default_chunk_chars : ℕ
default_chunk_chars = 1400

abbrev pub default_overlap_chars : ℕ
default_overlap_chars = 220

abbrev pub min_chunk_chars : ℕ
min_chunk_chars = 80

pub record Chunk (C D : Type 0) : Type 0 where
  pub text : List C
  pub index : ℕ
  pub start : ℕ
  pub stop : ℕ
  pub metadata : D

pub record Patterns (C : Type 0) : Type 0 where
  pub boundaries : List (List C → List ℕ)
  pub beginnings : List (List C → Option ℕ)
  pub normalise : List C → List C
  pub strip : List C → List C

abbrev pub max : ℕ → ℕ → ℕ
max a b = if ltb a b then b else a

abbrev pub min : ℕ → ℕ → ℕ
min a b = if ltb a b then a else b

-- `n // 2`
unfoldable pub half : ℕ → ℕ
half zero = 0
half (suc zero) = 0
half (suc (suc n)) = suc (half n)

unfoldable pub last_match : List ℕ → Option ℕ
last_match [] = none
last_match (e ∷ []) = some e
last_match (e ∷ next ∷ ends) = last_match (next ∷ ends)

unfoldable pub cut_at : Option ℕ → ℕ → ℕ → ℕ
cut_at none floor weaker = weaker
cut_at (some e) floor weaker = if leb floor e then e else weaker

unfoldable pub begin_at : Option ℕ → ℕ → ℕ → ℕ
begin_at none ideal weaker = weaker
begin_at (some e) ideal weaker = ideal + e

module _ {C : Type 0} where
  -- The loop over the kinds of boundaries, the strongest first.
  unfoldable pub split_window : List (List C → List ℕ) → List C → ℕ → ℕ → ℕ
  split_window [] window target floor = target
  split_window (pattern ∷ patterns) window target floor =
      cut_at (last_match (pattern window)) floor (split_window patterns window target floor)

  unfoldable pub split_point : Patterns C → List C → ℕ → ℕ → ℕ
  split_point p text target floor = split_window p.boundaries (take target text) target floor

  unfoldable pub begin_window : List (List C → Option ℕ) → List C → ℕ → ℕ
  begin_window [] window ideal = ideal
  begin_window (pattern ∷ patterns) window ideal =
      begin_at (pattern window) ideal (begin_window patterns window ideal)

  -- With the default look-ahead of 90 characters.
  unfoldable pub resume_point : Patterns C → List C → ℕ → ℕ
  resume_point p text ideal =
      if leb ideal 0 then 0 else begin_window p.beginnings (take 90 (drop ideal text)) ideal

  -- How many characters the piece at the cursor takes.
  unfoldable pub take_piece : Patterns C → ℕ → List C → ℕ
  take_piece p chunk_chars remaining =
      if leb (length remaining) chunk_chars
      then length remaining
      else split_point p remaining chunk_chars (half chunk_chars)

  unfoldable pub next_cursor : Patterns C → ℕ → List C → ℕ → ℕ → ℕ
  next_cursor p overlap_chars body cursor taken =
      max (cursor + 1)
        (min (resume_point p body (cursor + max 1 (taken - overlap_chars))) (cursor + taken))

  module _ {D : Type 0} where
    -- `if stripped: chunks.append(…)`
    unfoldable pub append_piece : D → ℕ → ℕ → List C → List (Chunk C D) → List (Chunk C D)
    append_piece base cursor taken [] chunks = chunks
    append_piece base cursor taken (c ∷ stripped) chunks =
        chunks
        ++ record {
          text = c ∷ stripped;
          index = length chunks;
          start = cursor;
          stop = cursor + taken;
          metadata = base;
        }
          ∷ []

    -- One round of the loop, given the rest of the rounds.
    unfoldable pub chunk_round :
        (ℕ → List (Chunk C D) → Outcome (List (Chunk C D)))
        → Patterns C
        → D
        → ℕ
        → ℕ
        → List C
        → ℕ
        → ℕ
        → List (Chunk C D)
        → Outcome (List (Chunk C D))
    chunk_round next p base chunk_chars overlap_chars body cursor taken chunks =
        elim (leb (length body) (cursor + taken)) [
          | true ↦
              ret (append_piece base cursor taken (p.strip (take taken (drop cursor body))) chunks)
          | false ↦
              next (next_cursor p overlap_chars body cursor taken)
                (append_piece base cursor taken (p.strip (take taken (drop cursor body))) chunks)
        ]

    -- `while cursor < len(body)`
    unfoldable pub chunk_loop :
        ℕ → Patterns C → D → ℕ → ℕ → List C → ℕ → List (Chunk C D) → Outcome (List (Chunk C D))
    chunk_loop zero p base chunk_chars overlap_chars body cursor chunks = out_of_fuel
    chunk_loop (suc fuel) p base chunk_chars overlap_chars body cursor chunks =
        elim (ltb cursor (length body)) [
          | true ↦
              chunk_round (chunk_loop fuel p base chunk_chars overlap_chars body) p base chunk_chars
                overlap_chars body cursor (take_piece p chunk_chars (drop cursor body)) chunks
          | false ↦ ret chunks
        ]

    -- The loop over a body that is not empty; each round moves the cursor on by at least one.
    unfoldable pub chunk_body : Patterns C → D → ℕ → ℕ → List C → Outcome (List (Chunk C D))
    chunk_body p base chunk_chars overlap_chars [] = ret []
    chunk_body p base chunk_chars overlap_chars (c ∷ body) =
        chunk_loop (suc (length (c ∷ body))) p base chunk_chars overlap_chars (c ∷ body) 0 []

    -- Behind the guards both sizes are numbers.
    unfoldable pub chunk_text : Patterns C → List C → ℤ → ℤ → D → Outcome (List (Chunk C D))
    chunk_text p text chunk_chars overlap_chars metadata =
        if ltb_ℤ chunk_chars (pos min_chunk_chars)
        then raise value_error
        else (if not (leb_ℤ (pos 0) overlap_chars && ltb_ℤ overlap_chars chunk_chars)
            then raise value_error
            else chunk_body p metadata (pos_part chunk_chars) (pos_part overlap_chars)
                (p.normalise text))

    -- The chunks of one document, renumbered.
    unfoldable pub append_chunks : List (Chunk C D) → List (Chunk C D) → List (Chunk C D)
    append_chunks [] out = out
    append_chunks (c ∷ chunks) out =
        append_chunks chunks (out ++ record c { index = length out } ∷ [])

    unfoldable pub chunk_documents_from :
        Patterns C → List (List C × D) → ℤ → ℤ → List (Chunk C D) → Outcome (List (Chunk C D))
    chunk_documents_from p [] chunk_chars overlap_chars out = ret out
    chunk_documents_from p ((text, metadata) ∷ documents) chunk_chars overlap_chars out = do
      chunks ← chunk_text p text chunk_chars overlap_chars metadata
      chunk_documents_from p documents chunk_chars overlap_chars (append_chunks chunks out)

    unfoldable pub chunk_documents :
        Patterns C → List (List C × D) → ℤ → ℤ → Outcome (List (Chunk C D))
    chunk_documents p documents chunk_chars overlap_chars =
        chunk_documents_from p documents chunk_chars overlap_chars []
