-- ===== src/Chunking/Starts.antt =====
-- src/rag/chunking.py: where the pieces of `chunk_text` start, one after the other.
use delaxis.Prelude.{ℕ, suc, ◌≤◌, List, [], ◌∷◌, ◌++◌, arith}
use delaxis.Chunking.{Chunk, append_piece}

module _ {C D : Type 0} where
  -- Each chunk starts after the one before it, the first not before `low`, and the last before `high`.
  abbrev pub IsRising : ℕ → List (Chunk C D) → ℕ → Type 0
  IsRising low [] high = low ≤ high
  IsRising low (c ∷ chunks) high = (low ≤ c.start) × IsRising (suc c.start) chunks high

  pub IsRising-later :
      (low high high' : ℕ) (chunks : List (Chunk C D))
      → high ≤ high'
      → IsRising low chunks high
      → IsRising low chunks high'
  IsRising-later low high high' [] h rising = omega (arith, h, rising)
  IsRising-later low high high' (c ∷ chunks) h rising =
      (rising.0, IsRising-later (suc c.start) high high' chunks h rising.1)

  pub IsRising-append :
      (low high : ℕ) (chunks : List (Chunk C D)) (c : Chunk C D)
      → high ≤ c.start
      → IsRising low chunks high
      → IsRising low (chunks ++ c ∷ []) (suc c.start)
  IsRising-append low high [] c h rising = (omega (arith, h, rising), omega arith)
  IsRising-append low high (d ∷ chunks) c h rising =
      (rising.0, IsRising-append (suc d.start) high chunks c h rising.1)

  pub append_piece-IsRising :
      (base : D) (cursor taken : ℕ) (stripped : List C) (chunks : List (Chunk C D))
      → IsRising 0 chunks cursor
      → IsRising 0 (append_piece base cursor taken stripped chunks) (suc cursor)
  unfolding append_piece
  append_piece-IsRising base cursor taken [] chunks rising =
      IsRising-later 0 cursor (suc cursor) chunks (omega arith) rising
  append_piece-IsRising base cursor taken (x ∷ stripped) chunks rising =
      IsRising-append 0 cursor chunks _ (omega arith) rising
