-- ===== src/Chunking/Documents.antt =====
-- src/rag/chunking.py: the chunks of several documents are numbered through.
use delaxis.Prelude.{
  ℕ, suc, ◌+◌, ◌≤◌, ◌<◌, ℤ, pos, ◌≤ℤ◌, ◌<ℤ◌, List, [], ◌∷◌, ◌++◌, length, length-append, In, All,
  ◌≡◌, refl, sym, ap, subst, ◌∙◌, arith, inl, inr, append-nil, append_assoc,
}
use delaxis.Prelude.Outcome.{
  Outcome, ret, raise, out_of_fuel, Returns, Returns-bind, Returns-weaken,
}
use delaxis.Chunking.{
  Chunk, Patterns, append_chunks, chunk_text, chunk_documents_from, chunk_documents,
}
use delaxis.Chunking.Windows.{IsWindowed}
use delaxis.Chunking.Starts.{IsRising}
use delaxis.Chunking.Pieces.{IsPiece, IsCovered, Pieces, IsChunking}
use delaxis.Chunking.Promise.{Promise, chunk_text-Promise}

module _ {C D : Type 0} (p : Patterns C) (chunk_chars : ℕ) where
  -- Numbered from n on.
  abbrev pub IsNumbered : ℕ → List (Chunk C D) → Type 0
  IsNumbered n [] = Unit
  IsNumbered n (c ∷ chunks) = (c.index ≡ n) × IsNumbered (suc n) chunks

  -- The chunks are pieces of the normalised text of the document, with its metadata, and leave nothing of it out.
  pub record AreOf (d : List C × D) (chunks : List (Chunk C D)) : Type 0 where
    pub pieces : All (IsPiece p chunk_chars (p.normalise d.0) d.1) chunks
    pub rising : IsRising 0 chunks (length (p.normalise d.0))
    pub covered :
        (i : ℕ)
        → i < length (p.normalise d.0)
        → IsCovered p chunk_chars (p.normalise d.0) d.1 chunks i

  -- The chunks of each document, one document after the other, and no others.
  abbrev pub Parts : List (List C × D) → List (Chunk C D) → Type 0
  Parts [] chunks = chunks ≡ []
  Parts (d ∷ documents) chunks =
      (own : List (Chunk C D)) × (rest : List (Chunk C D)) × (chunks ≡ own ++ rest)
      × AreOf d own
      × Parts documents rest

  pub IsCollection : List (List C × D) → List (Chunk C D) → Type 0
  IsCollection documents chunks = IsNumbered 0 chunks × Parts documents chunks

  renumber : ℕ → List (Chunk C D) → List (Chunk C D)
  renumber n [] = []
  renumber n (c ∷ chunks) = record c { index = n } ∷ renumber (suc n) chunks

  renumber-IsNumbered : (n : ℕ) (chunks : List (Chunk C D)) → IsNumbered n (renumber n chunks)
  unfolding renumber
  renumber-IsNumbered n [] = tt
  renumber-IsNumbered n (c ∷ chunks) = (refl, renumber-IsNumbered (suc n) chunks)

  append_chunks-renumber :
      (chunks out : List (Chunk C D))
      → append_chunks chunks out ≡ out ++ renumber (length out) chunks
  unfolding append_chunks renumber
  append_chunks-renumber [] out = sym (append-nil out)
  append_chunks-renumber (c ∷ chunks) out =
      let own : Chunk C D = record c { index = length out } in
      let longer : length (out ++ own ∷ []) ≡ suc (length out) =
        omega (arith, length-append out (own ∷ [])) in
      append_chunks-renumber chunks (out ++ own ∷ [])
      ∙ (ap (λ n. (out ++ own ∷ []) ++ renumber n chunks) longer ∙ append_assoc out (own ∷ []) _)

  IsNumbered-append :
      (n : ℕ) (xs ys : List (Chunk C D))
      → IsNumbered n xs
      → IsNumbered (n + length xs) ys
      → IsNumbered n (xs ++ ys)
  IsNumbered-append n [] ys first next = subst (λ k. IsNumbered k ys) (omega arith) next
  IsNumbered-append n (x ∷ xs) ys first next = (
    first.0,
    IsNumbered-append (suc n) xs ys first.1 (subst (λ k. IsNumbered k ys) (omega arith) next),
  )

  renumber-All :
      (d : List C × D) (n m : ℕ) (chunks : List (Chunk C D))
      → Pieces p chunk_chars (p.normalise d.0) d.1 n chunks
      → All (IsPiece p chunk_chars (p.normalise d.0) d.1) (renumber m chunks)
  unfolding Pieces renumber
  renumber-All d n m [] pieces = tt
  renumber-All d n m (c ∷ chunks) (numbered, piece, pieces) = (
    record {
      proper = piece.proper;
      inside = piece.inside;
      short = piece.short;
      text = piece.text;
      nonempty = piece.nonempty;
      described = piece.described;
    },
    renumber-All d (suc n) (suc m) chunks pieces,
  )

  renumber-In :
      (c : Chunk C D) (n : ℕ) (chunks : List (Chunk C D))
      → In c chunks
      → (c' : Chunk C D) × In c' (renumber n chunks) × (c'.start ≡ c.start) × (c'.stop ≡ c.stop)
  unfolding renumber
  renumber-In c n [] m = absurd m
  renumber-In c n (b ∷ chunks) (inl same) =
      (record b { index = n }, inl refl, ap (λ x. x.start) (sym same), ap (λ x. x.stop) (sym same))
  renumber-In c n (b ∷ chunks) (inr m) =
      let (c', there, low, high) = renumber-In c (suc n) chunks m in (c', inr there, low, high)

  renumber-IsCovered :
      (d : List C × D) (n i : ℕ) (chunks : List (Chunk C D))
      → IsCovered p chunk_chars (p.normalise d.0) d.1 chunks i
      → IsCovered p chunk_chars (p.normalise d.0) d.1 (renumber n chunks) i
  unfolding IsCovered
  renumber-IsCovered d n i chunks (inl (c, m, low, high)) =
      let (c', there, starts, stops) = renumber-In c n chunks m in
      inl (c', there, omega (arith, low, starts), omega (arith, high, stops))
  renumber-IsCovered d n i chunks (inr skipped) = inr skipped

  renumber-IsRising :
      (n low high : ℕ) (chunks : List (Chunk C D))
      → IsRising low chunks high
      → IsRising low (renumber n chunks) high
  unfolding renumber
  renumber-IsRising n low high [] rising = rising
  renumber-IsRising n low high (c ∷ chunks) rising =
      (rising.0, renumber-IsRising (suc n) (suc c.start) high chunks rising.1)

  renumber-AreOf :
      (d : List C × D) (n : ℕ) (chunks : List (Chunk C D))
      → IsChunking p chunk_chars (p.normalise d.0) d.1 chunks
      → AreOf d (renumber n chunks)
  renumber-AreOf d n chunks chunking = record {
    pieces = renumber-All d 0 n chunks chunking.pieces;
    rising = renumber-IsRising n 0 (length (p.normalise d.0)) chunks chunking.rising;
    covered = λ i h. renumber-IsCovered d n i chunks (chunking.covered i h);
  }

  -- A result that goes on from `out` with the chunks of the documents.
  abbrev Extends : List (List C × D) → List (Chunk C D) → List (Chunk C D) → Type 0
  Extends documents out result =
      (rest : List (Chunk C D)) × (result ≡ out ++ rest)
      × IsNumbered (length out) rest
      × Parts documents rest

  document-Extends :
      (d : List C × D) (documents : List (List C × D)) (chunks out result : List (Chunk C D))
      → IsChunking p chunk_chars (p.normalise d.0) d.1 chunks
      → Extends documents (append_chunks chunks out) result
      → Extends (d ∷ documents) out result
  document-Extends d documents chunks out result chunking (rest, same, numbered, parts) =
      let own = renumber (length out) chunks in
      let done = append_chunks-renumber chunks out in
      (
        own ++ rest,
        same ∙ (ap (λ l. l ++ rest) done ∙ append_assoc out own rest),
        IsNumbered-append (length out) own rest (renumber-IsNumbered (length out) chunks)
            (subst (λ n. IsNumbered n rest) (ap length done ∙ length-append out own) numbered),
        (own, rest, refl, renumber-AreOf d (length out) chunks chunking, parts),
      )

  Promise-Returns :
      (text : List C) (overlap_chars : ℤ) (metadata : D) (m : Outcome (List (Chunk C D)))
      → 80 ≤ chunk_chars
      → pos 0 ≤ℤ overlap_chars
      → overlap_chars <ℤ pos chunk_chars
      → Promise p text (pos chunk_chars) overlap_chars metadata m
      → Returns m (IsChunking p chunk_chars (p.normalise text) metadata)
  unfolding Promise
  Promise-Returns text overlap_chars metadata (ret chunks) big low small
        (size, same, _, _, _, promise) =
      let here : size ≡ chunk_chars = (cc) in
      subst (λ n. IsChunking p n (p.normalise text) metadata chunks) here promise
  Promise-Returns text overlap_chars metadata (raise e) big low small promise = elim promise.1 [
    | inl tiny ↦ absurd (omega (arith, big, tiny))
    | inr (inl negative) ↦ absurd (omega (arith, low, negative))
    | inr (inr wide) ↦ absurd (omega (arith, small, wide))
  ]
  Promise-Returns text overlap_chars metadata out_of_fuel big low small promise = absurd promise

  from-Extends :
      IsWindowed p
      → (overlap_chars : ℤ) → 80 ≤ chunk_chars
      → pos 0 ≤ℤ overlap_chars
      → overlap_chars <ℤ pos chunk_chars
      → (documents : List (List C × D)) (out : List (Chunk C D))
      → Returns
          (chunk_documents_from p documents (pos chunk_chars) overlap_chars out)
          (Extends documents out)
  unfolding chunk_documents_from
  from-Extends windowed overlap_chars big low small [] out = ([], sym (append-nil out), tt, refl)
  from-Extends windowed overlap_chars big low small (d ∷ documents) out =
      Returns-bind (chunk_text p d.0 (pos chunk_chars) overlap_chars d.1)
        (λ chunks.
          chunk_documents_from p documents (pos chunk_chars) overlap_chars
            (append_chunks chunks out))
        (IsChunking p chunk_chars (p.normalise d.0) d.1) (Extends (d ∷ documents) out)
        (Promise-Returns d.0 overlap_chars d.1 _ big low small
          (chunk_text-Promise p d.0 (pos chunk_chars) overlap_chars d.1 windowed))
        (λ chunks ran chunking.
          Returns-weaken _ (Extends documents (append_chunks chunks out)) _
            (from-Extends windowed overlap_chars big low small documents (append_chunks chunks out))
            (λ result extends. document-Extends d documents chunks out result chunking extends))

-- For a chunk size of at least 80 and an overlap that is not negative and smaller than it, if a match lies in the window it was looked for in,
-- chunk_documents returns chunks that are numbered from 0 through all documents: those of the first document, then those of the next, and so on,
-- and no others. Those of a document are pieces of its normalised text with its metadata, each starting after the one before, and each position of that text
-- is in one of them or in a stretch of it that is empty when stripped.
pub chunk_documents-IsCollection :
    {C D : Type 0} (p : Patterns C) (documents : List (List C × D)) (chunk_chars : ℕ)
    (overlap_chars : ℤ)
    → IsWindowed p
    → 80 ≤ chunk_chars
    → pos 0 ≤ℤ overlap_chars
    → overlap_chars <ℤ pos chunk_chars
    → Returns
        (chunk_documents p documents (pos chunk_chars) overlap_chars)
        (IsCollection p chunk_chars documents)
unfolding chunk_documents IsCollection
chunk_documents-IsCollection p documents chunk_chars overlap_chars windowed big low small =
    Returns-weaken _ (Extends p chunk_chars documents []) _
      (from-Extends p chunk_chars windowed overlap_chars big low small documents [])
      (λ result (rest, same, numbered, parts).
        subst (IsCollection p chunk_chars documents) (sym same) (numbered, parts))
