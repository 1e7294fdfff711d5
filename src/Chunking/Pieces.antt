-- ===== src/Chunking/Pieces.antt =====
-- src/rag/chunking.py: the loop of `chunk_text` ends, and its chunks are numbered pieces that leave
-- nothing out.
use delaxis.Prelude.{
  ℕ, zero, suc, ◌+◌, ◌-◌, ◌≤◌, ◌<◌, ltb, leb, leb→le, ltb→lt, true, false, List, [], ◌∷◌, ◌++◌,
  length, take, drop, In, ◌≡◌, ◌≢◌, refl, sym, ap, arith, Bool-cases, inl, inr, ◌⊎◌,
}
use delaxis.Prelude.Outcome.{Outcome, ret, Returns}
use delaxis.Chunking.{
  Chunk, Patterns, take_piece, next_cursor, append_piece, chunk_round, chunk_loop,
}
use delaxis.Chunking.Starts.{IsRising, IsRising-later, IsRising-append, append_piece-IsRising}
use delaxis.Chunking.Windows.{IsWindowed, take_piece-bounds, next_cursor-bounds, length-drop}

In-left : {A : Type 0} (x : A) (xs ys : List A) → In x xs → In x (xs ++ ys)
In-left x [] ys m = absurd m
In-left x (y ∷ xs) ys (inl e) = inl e
In-left x (y ∷ xs) ys (inr m) = inr (In-left x xs ys m)

In-right : {A : Type 0} (x : A) (xs ys : List A) → In x ys → In x (xs ++ ys)
In-right x [] ys m = m
In-right x (y ∷ xs) ys m = inr (In-right x xs ys m)

-- The characters from a up to b.
abbrev pub slice : {C : Type 0} → List C → ℕ → ℕ → List C
slice body a b = take (b - a) (drop a body)

module _ {C D : Type 0} (p : Patterns C) (chunk_chars : ℕ) (body : List C) (base : D) where
  -- A piece of the body, no longer than allowed, stripped, not empty, and with the metadata given.
  pub record IsPiece (c : Chunk C D) : Type 0 where
    pub proper : c.start < c.stop
    pub inside : c.stop ≤ length body
    pub short : c.stop ≤ c.start + chunk_chars
    pub text : c.text ≡ p.strip (slice body c.start c.stop)
    pub nonempty : c.text ≢ []
    pub described : c.metadata ≡ base

  -- The chunks are pieces, and have the numbers from n on.
  unfoldable pub Pieces : ℕ → List (Chunk C D) → Type 0
  Pieces n [] = Unit
  Pieces n (c ∷ chunks) = (c.index ≡ n) × IsPiece c × Pieces (suc n) chunks

  -- The position is in a chunk, or in a stretch that is empty when stripped.
  unfoldable pub IsCovered : List (Chunk C D) → ℕ → Type 0
  IsCovered chunks i =
      ((c : Chunk C D) × In c chunks × (c.start ≤ i) × (i < c.stop))
      ⊎ ((a b : ℕ) × (a ≤ i) × (i < b) × (p.strip (slice body a b) ≡ []))

  Pieces-append :
      (n : ℕ) (chunks : List (Chunk C D)) (c : Chunk C D)
      → Pieces n chunks
      → c.index ≡ n + length chunks
      → IsPiece c
      → Pieces n (chunks ++ c ∷ [])
  unfolding Pieces
  Pieces-append n [] c pieces numbered piece = (omega (arith, numbered), piece, tt)
  Pieces-append n (b ∷ chunks) c pieces numbered piece =
      (pieces.0, pieces.1, Pieces-append (suc n) chunks c pieces.2 (omega (arith, numbered)) piece)

  -- What the loop has at a cursor.
  pub record Progress (cursor : ℕ) (chunks : List (Chunk C D)) : Type 0 where
    pub pieces : Pieces 0 chunks
    pub rising : IsRising 0 chunks cursor
    pub covered : (i : ℕ) → i < cursor → IsCovered chunks i

  IsCovered-append :
      (chunks more : List (Chunk C D)) (i : ℕ) → IsCovered chunks i → IsCovered (chunks ++ more) i
  unfolding IsCovered
  IsCovered-append chunks more i (inl (c, m, low, high)) =
      inl (c, In-left c chunks more m, low, high)
  IsCovered-append chunks more i (inr skipped) = inr skipped

  append_piece-Progress :
      (cursor taken : ℕ) (stripped : List C) (chunks : List (Chunk C D))
      → stripped ≡ p.strip (slice body cursor (cursor + taken))
      → 1 ≤ taken
      → taken ≤ chunk_chars
      → cursor + taken ≤ length body
      → Progress cursor chunks
      → Progress (cursor + taken) (append_piece base cursor taken stripped chunks)
  unfolding append_piece IsCovered
  append_piece-Progress cursor taken [] chunks e some_taken fits inside q = record {
    pieces = q.pieces;
    rising = IsRising-later 0 cursor (cursor + taken) chunks (omega arith) q.rising;
    covered = λ i h. elim (Bool-cases (ltb i cursor)) [
      | inl before ↦ q.covered i (ltb→lt i cursor before)
      | inr here ↦ inr (cursor, cursor + taken, ground (arith, here), h, sym e)
    ];
  }
  append_piece-Progress cursor taken (x ∷ stripped) chunks e some_taken fits inside q =
      let c : Chunk C D = record {
        text = x ∷ stripped;
        index = length chunks;
        start = cursor;
        stop = cursor + taken;
        metadata = base;
      } in
      record {
        pieces = Pieces-append 0 chunks c q.pieces (omega arith) (record {
          proper = omega (arith, some_taken);
          inside = inside;
          short = omega (arith, fits);
          text = e;
          nonempty = λ h. cc;
          described = refl;
        });
        rising =
            IsRising-later 0 (suc cursor) (cursor + taken) (chunks ++ c ∷ [])
              (omega (arith, some_taken))
              (IsRising-append 0 cursor chunks c (omega arith) q.rising);
        covered = λ i h. elim (Bool-cases (ltb i cursor)) [
          | inl before ↦ IsCovered-append chunks (c ∷ []) i (q.covered i (ltb→lt i cursor before))
          | inr here ↦ inl (c, In-right c chunks (c ∷ []) (inl refl), ground (arith, here), h)
        ];
      }

  -- What `chunk_text` promises of its chunks.
  pub record IsChunking (chunks : List (Chunk C D)) : Type 0 where
    pub pieces : Pieces 0 chunks
    pub rising : IsRising 0 chunks (length body)
    pub covered : (i : ℕ) → i < length body → IsCovered chunks i

  chunk_loop-more :
      (overlap_chars fuel cursor : ℕ) (chunks : List (Chunk C D))
      → ltb cursor (length body) ≡ true
      → chunk_loop (suc fuel) p base chunk_chars overlap_chars body cursor chunks
        ≡ chunk_round
            (chunk_loop fuel p base chunk_chars overlap_chars body)
            p
            base
            chunk_chars
            overlap_chars
            body
            cursor
            (take_piece p chunk_chars (drop cursor body))
            chunks
  unfolding chunk_loop
  chunk_loop-more overlap_chars fuel cursor chunks h = ground (arith, h)

  chunk_loop-over :
      (overlap_chars fuel cursor : ℕ) (chunks : List (Chunk C D))
      → ltb cursor (length body) ≡ false
      → chunk_loop (suc fuel) p base chunk_chars overlap_chars body cursor chunks ≡ ret chunks
  unfolding chunk_loop
  chunk_loop-over overlap_chars fuel cursor chunks h = ground (arith, h)

  chunk_round-last :
      (next : ℕ → List (Chunk C D) → Outcome (List (Chunk C D))) (overlap_chars cursor taken : ℕ)
      (chunks : List (Chunk C D))
      → leb (length body) (cursor + taken) ≡ true
      → chunk_round next p base chunk_chars overlap_chars body cursor taken chunks
        ≡ ret (append_piece base cursor taken (p.strip (take taken (drop cursor body))) chunks)
  unfolding chunk_round
  chunk_round-last next overlap_chars cursor taken chunks h = ground (arith, h)

  chunk_round-next :
      (next : ℕ → List (Chunk C D) → Outcome (List (Chunk C D))) (overlap_chars cursor taken : ℕ)
      (chunks : List (Chunk C D))
      → leb (length body) (cursor + taken) ≡ false
      → chunk_round next p base chunk_chars overlap_chars body cursor taken chunks
        ≡ next
            (next_cursor p overlap_chars body cursor taken)
            (append_piece base cursor taken (p.strip (take taken (drop cursor body))) chunks)
  unfolding chunk_round
  chunk_round-next next overlap_chars cursor taken chunks h = ground (arith, h)

  -- A round whose piece is a proper one, given what the rest of the rounds does.
  chunk_round-IsChunking :
      (next : ℕ → List (Chunk C D) → Outcome (List (Chunk C D))) (overlap_chars cursor taken : ℕ)
      (chunks : List (Chunk C D))
      → 1 ≤ taken
      → taken ≤ chunk_chars
      → cursor + taken ≤ length body
      → Progress cursor chunks
      → ((cursor' : ℕ) (chunks' : List (Chunk C D))
          → cursor < cursor'
          → cursor' ≤ length body
          → Progress cursor' chunks'
          → Returns (next cursor' chunks') IsChunking)
      → Returns
          (chunk_round next p base chunk_chars overlap_chars body cursor taken chunks)
          IsChunking
  chunk_round-IsChunking next overlap_chars cursor taken chunks some_taken fits inside q continue =
      let same : (cursor + taken) - cursor ≡ taken = omega arith in
      let q' =
        append_piece-Progress cursor taken (p.strip (take taken (drop cursor body))) chunks
          (ap (λ n. p.strip (take n (drop cursor body))) (sym same)) some_taken fits inside q in
      let onward =
        append_piece-IsRising base cursor taken (p.strip (take taken (drop cursor body))) chunks
          q.rising in
      elim (Bool-cases (leb (length body) (cursor + taken))) [
        | inl last ↦ rw (chunk_round-last next overlap_chars cursor taken chunks last) (record {
          pieces = q'.pieces;
          rising = IsRising-later 0 (cursor + taken) (length body) _ inside q'.rising;
          covered =
              λ i h. q'.covered i (omega (arith, h, leb→le (length body) (cursor + taken) last));
        })
        | inr more ↦
            let (low, high) = next_cursor-bounds p overlap_chars body cursor taken some_taken in
            rw (chunk_round-next next overlap_chars cursor taken chunks more) (
              continue _ _ (omega (arith, low)) (omega (arith, high, inside)) (record {
                pieces = q'.pieces;
                rising = IsRising-later 0 (suc cursor) _ _ (omega (arith, low)) onward;
                covered = λ i h. q'.covered i (omega (arith, h, high));
              }))
      ]

  pub chunk_loop-IsChunking :
      IsWindowed p
      → 2 ≤ chunk_chars
      → (overlap_chars fuel cursor : ℕ) (chunks : List (Chunk C D)) → cursor ≤ length body
      → length body < fuel + cursor
      → Progress cursor chunks
      → Returns (chunk_loop fuel p base chunk_chars overlap_chars body cursor chunks) IsChunking
  chunk_loop-IsChunking windowed big overlap_chars zero cursor chunks inside enough q =
      absurd (omega (arith, inside, enough))
  chunk_loop-IsChunking windowed big overlap_chars (suc fuel) cursor chunks inside enough q =
      elim (Bool-cases (ltb cursor (length body))) [
        | inr over ↦ rw (chunk_loop-over overlap_chars fuel cursor chunks over) (record {
          pieces = q.pieces;
          rising = IsRising-later 0 cursor (length body) chunks inside q.rising;
          covered = λ i h. q.covered i (ground (arith, over, h));
        })
        | inl more ↦
            let remaining = length-drop cursor body in
            let (low, fits, room) =
              take_piece-bounds p windowed chunk_chars (drop cursor body) big
                (omega (arith, remaining, ltb→lt cursor (length body) more)) in
            rw (chunk_loop-more overlap_chars fuel cursor chunks more) (
              chunk_round-IsChunking (chunk_loop fuel p base chunk_chars overlap_chars body)
                overlap_chars cursor (take_piece p chunk_chars (drop cursor body)) chunks low fits
                (omega (arith, room, remaining, inside)) q
                (λ cursor' chunks' on inside' q'.
                  chunk_loop-IsChunking windowed big overlap_chars fuel cursor' chunks' inside'
                    (omega (arith, enough, on)) q'))
      ]

  pub start-Progress : Progress 0 []
  unfolding Pieces
  start-Progress = record {
    pieces = tt;
    rising = omega arith;
    covered = λ i h. absurd (omega (arith, h));
  }
