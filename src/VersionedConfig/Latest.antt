-- ===== src/VersionedConfig/Latest.antt =====
-- src/config/versioned_service.py: the row of the highest version.
use delaxis.Prelude.{
  subst, ℕ, ◌≤◌, ◌<◌, ◌+◌, String, Option, none, some, [], ◌∷◌, ◌++◌, take, leb, All, ◌≡◌, refl, ap,
  ◌∙◌, arith, Bool-cases, inl, inr,
}
use delaxis.Prelude.Outcome.{ret, ◌>>=◌}
use delaxis.VersionedConfig.Data.{ConfigSnapshot, Table}
use delaxis.VersionedConfig.Queries.{
  where_config, insert_desc, order_by_desc, scalar_one_or_none, read, get_config,
}

abbrev pub Below : {V : Type 0} → ℕ → Table V → Type 0
Below n rows = All (λ r. r.version < n) rows

abbrev pub head : {V : Type 0} → Table V → Option (ConfigSnapshot V)
head [] = none
head (r ∷ rows) = some r

module _ {V : Type 0} where
  pub get_config_lem :
      (t i : String) (rows : Table V)
      → get_config t i rows ≡ ret (read (head (order_by_desc (where_config t i rows))))
  unfolding get_config scalar_one_or_none
  get_config_lem t i rows = go (order_by_desc (where_config t i rows))
    where
      go :
          (sorted : Table V)
          → (scalar_one_or_none (take 1 sorted) >>= λ r. ret (read r)) ≡ ret (read (head sorted))
      go [] = refl
      go (r ∷ rows) = refl

  insert_desc-below :
      (r n : ConfigSnapshot V) (rows : Table V)
      → r.version < n.version
      → insert_desc r (n ∷ rows) ≡ n ∷ insert_desc r rows
  unfolding insert_desc
  insert_desc-below r n rows h = ground arith

  -- A row above all the others comes first.
  pub order_by_desc-append :
      (n : ConfigSnapshot V) (rows : Table V)
      → Below n.version rows
      → order_by_desc (rows ++ n ∷ []) ≡ n ∷ order_by_desc rows
  unfolding order_by_desc insert_desc
  order_by_desc-append n [] h = refl
  order_by_desc-append n (r ∷ rows) h =
      ap (insert_desc r) (order_by_desc-append n rows h.1)
      ∙ insert_desc-below r n (order_by_desc rows) h.0

  Below-weaken : (v w : ℕ) (rows : Table V) → v ≤ w → Below v rows → Below w rows
  Below-weaken v w [] h below = tt
  Below-weaken v w (r ∷ rows) h below = (omega (arith, h, below.0), Below-weaken v w rows h below.1)

  Top : Table V → Table V → Type 0
  Top [] rows = rows ≡ []
  Top (s ∷ sorted) rows = Below (s.version + 1) rows

  Top-insert_desc :
      (r : ConfigSnapshot V) (sorted rows : Table V)
      → Top sorted rows
      → Top (insert_desc r sorted) (r ∷ rows)
  unfolding Top insert_desc
  Top-insert_desc r [] rows h = rw h (omega arith, tt)
  Top-insert_desc r (s ∷ sorted) rows h = elim (Bool-cases (leb s.version r.version)) [
    | inl small ↦
        rw small (omega arith, Below-weaken (s.version + 1) (r.version + 1) rows (ground arith) h)
    | inr large ↦ rw large (ground arith, h)
  ]

  Top-order_by_desc : (rows : Table V) → Top (order_by_desc rows) rows
  unfolding Top order_by_desc
  Top-order_by_desc [] = refl
  Top-order_by_desc (r ∷ rows) =
      Top-insert_desc r (order_by_desc rows) rows (Top-order_by_desc rows)

  -- The first row in descending order has the highest version.
  pub head-order_by_desc :
      (rows : Table V) {r : ConfigSnapshot V}
      → head (order_by_desc rows) ≡ some r
      → Below (r.version + 1) rows
  unfolding Top
  head-order_by_desc rows {r} h = go (order_by_desc rows) (Top-order_by_desc rows) h
    where
      go : (sorted : Table V) → Top sorted rows → head sorted ≡ some r → Below (r.version + 1) rows
      go [] top e = cc
      go (s ∷ sorted) top e =
          let same : s ≡ r = cc in subst (λ x. Below (x.version + 1) rows) same top

  pub order_by_desc-empty : (rows : Table V) → head (order_by_desc rows) ≡ none → rows ≡ []
  unfolding Top
  order_by_desc-empty rows h = go (order_by_desc rows) (Top-order_by_desc rows) h
    where
      go : (sorted : Table V) → Top sorted rows → head sorted ≡ none → rows ≡ []
      go [] top e = top
      go (s ∷ sorted) top e = cc
