-- ===== src/Samples/Chunks.antt =====
-- A text of 100 characters in chunks of 80, where any place is a boundary.
use delaxis.Prelude.{
  ℕ, pos, negsuc, String, map, zero, suc, some, List, [], ◌∷◌, length, In, inl, inr, ◌≡◌, refl,
  subst, ◌≤◌, arith,
}
use delaxis.Prelude.Outcome.{ret, raise, value_error, ◌>>=◌, Returns}
use delaxis.Chunking.{
  Chunk, Patterns, chunk_text, chunk_body, chunk_loop, chunk_round, append_piece, next_cursor,
  take_piece, resume_point, begin_window, begin_at, split_point, split_window, cut_at, last_match,
  half, chunk_documents,
}
use delaxis.Chunking.Windows.{IsWindowed}
use delaxis.Chunking.Promise.{Promise, chunk_text-Promise}
use delaxis.Chunking.Documents.{IsCollection, chunk_documents-IsCollection}

abbrev letters : ℕ → List ℕ
letters zero = []
letters (suc n) = n ∷ letters n

abbrev patterns : Patterns ℕ
patterns = record {
  boundaries = (λ window. length window ∷ []) ∷ [];
  beginnings = (λ window. some 1) ∷ [];
  normalise = λ text. text;
  strip = λ text. text;
}

within : (window : List ℕ) (e : ℕ) → In e (length window ∷ []) → e ≤ length window
within window e (inl same) = omega (arith, same)
within window e (inr never) = absurd never

patterns-IsWindowed : IsWindowed patterns
patterns-IsWindowed pattern (inl same) window e m =
    within window e (subst (λ f. In e (f window)) same m)
patterns-IsWindowed pattern (inr never) window e m = absurd never

abbrev notes : String
notes = "notes"

abbrev documents : List (List ℕ × String)
documents = (letters 100, notes) ∷ (letters 50, "mail") ∷ []

abbrev windows : Chunk ℕ String → ℕ × ℕ
windows c = (c.start, c.stop)

chunk_text-letters :
    (chunk_text patterns (letters 100) (pos 80) (pos 10) notes
      >>= (λ chunks. ret (map windows chunks)))
    ≡ ret ((0, 80) ∷ (71, 100) ∷ [])
unfolding chunk_text chunk_body chunk_loop chunk_round append_piece next_cursor take_piece
    resume_point begin_window begin_at split_point split_window cut_at last_match half
chunk_text-letters = refl

-- A negative overlap is refused.
chunk_text-negative :
    chunk_text patterns (letters 100) (pos 80) (negsuc 0) notes ≡ raise value_error
unfolding chunk_text
chunk_text-negative = refl

chunk_text-Promise_example :
    Promise patterns
      (letters 100)
      (pos 80)
      (pos 10)
      notes
      (chunk_text patterns (letters 100) (pos 80) (pos 10) notes)
chunk_text-Promise_example =
    chunk_text-Promise patterns (letters 100) (pos 80) (pos 10) notes patterns-IsWindowed

chunk_documents-IsCollection_example :
    Returns
      (chunk_documents patterns documents (pos 80) (pos 10))
      (IsCollection patterns 80 documents)
chunk_documents-IsCollection_example =
    chunk_documents-IsCollection patterns documents 80 (pos 10) patterns-IsWindowed (omega arith)
      (omega arith) (omega arith)
