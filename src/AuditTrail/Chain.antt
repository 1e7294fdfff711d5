-- ===== src/AuditTrail/Chain.antt =====
-- src/tools/audit_trail.py: appends keep the chain of hashes, and verify_audit_chain decides it.
use delaxis.Prelude.{
  ℕ, suc, ◌+◌, ◌<◌, String, ◌==◌, true, false, Option, none, List, [], ◌∷◌, ◌++◌, length,
  length-append, contains, ◌≡◌, ◌⊎◌, inl, inr, refl, sym, ◌∙◌, arith, Bool-cases, str_eq_iff,
}
use delaxis.Prelude.Outcome.{Outcome, ret, raise, value_error}
use delaxis.AuditTrail.{
  AuditRecord, Platform, AuditEntry, Table, Event, severities, genesis_hash, hash_entry, record_of,
  head_hash, insert_entry, append_audit_entry, valid, verify_rows, verify_audit_chain, limited,
}

-- Every row carries the hash of the row before it and the hash of its own content.
abbrev pub IsChained : Platform → String → List AuditEntry → Type 0
IsChained p expected [] = Unit
IsChained p expected (r ∷ rows) =
    (r.prev_hash ≡ expected)
    × (r.entry_hash ≡ hash_entry p r.content expected)
    × IsChained p r.entry_hash rows

-- The ids ascend and are below the next one.
abbrev pub HasFreshIds : ℕ → ℕ → List AuditEntry → Type 0
HasFreshIds low next [] = Unit
HasFreshIds low next (r ∷ rows) = (low < r.id) × (r.id < next) × HasFreshIds r.id next rows

pub record IsTrail (p : Platform) (t : Table) : Type 0 where
  pub chained : IsChained p genesis_hash t.rows
  pub fresh : HasFreshIds 0 t.next_id t.rows
  pub positive : 0 < t.next_id

module _ (p : Platform) where
  verify_rows-step :
      (n : ℕ) (expected : String) (r : AuditEntry) (rows : List AuditEntry)
      → r.prev_hash ≡ expected
      → r.entry_hash ≡ hash_entry p r.content expected
      → verify_rows p n expected (r ∷ rows) ≡ verify_rows p n r.entry_hash rows
  unfolding verify_rows
  verify_rows-step n expected r rows linked hashed = ground (
    arith,
    str_eq_iff r.prev_hash expected,
    str_eq_iff (hash_entry p r.content expected) r.entry_hash,
    linked,
    sym hashed,
  )

  pub IsChained-verify_rows :
      (n : ℕ) (expected : String) (rows : List AuditEntry)
      → IsChained p expected rows
      → verify_rows p n expected rows ≡ valid n (head_hash expected rows)
  unfolding verify_rows head_hash
  IsChained-verify_rows n expected [] h = refl
  IsChained-verify_rows n expected (r ∷ rows) (linked, hashed, later) =
      verify_rows-step n expected r rows linked hashed
      ∙ IsChained-verify_rows n r.entry_hash rows later

  IsChained-append :
      (expected : String) (rows : List AuditEntry) (r : AuditEntry)
      → IsChained p expected rows
      → r.prev_hash ≡ head_hash expected rows
      → r.entry_hash ≡ hash_entry p r.content (head_hash expected rows)
      → IsChained p expected (rows ++ r ∷ [])
  unfolding head_hash
  IsChained-append expected [] r h linked hashed = (linked, hashed, tt)
  IsChained-append expected (s ∷ rows) r (l, e, later) linked hashed =
      (l, e, IsChained-append s.entry_hash rows r later linked hashed)

  HasFreshIds-append :
      (low next : ℕ) (rows : List AuditEntry) (r : AuditEntry)
      → low < next
      → HasFreshIds low next rows
      → r.id ≡ next
      → HasFreshIds low (suc next) (rows ++ r ∷ [])
  HasFreshIds-append low next [] r below h e = (omega (arith, below, e), omega (arith, e), tt)
  HasFreshIds-append low next (s ∷ rows) r below (l, b, later) e =
      (l, omega (arith, b), HasFreshIds-append s.id next rows r b later e)

  head_hash-append :
      (expected : String) (rows : List AuditEntry) (r : AuditEntry)
      → head_hash expected (rows ++ r ∷ []) ≡ r.entry_hash
  unfolding head_hash
  head_hash-append expected [] r = refl
  head_hash-append expected (s ∷ rows) r = head_hash-append s.entry_hash rows r

  -- What an append that the arguments allow does.
  pub record IsAppended (e : AuditRecord) (t : Table) (done : Table × AuditEntry) : Type 0 where
    pub rows : done.0.rows ≡ t.rows ++ done.1 ∷ []
    pub content : done.1.content ≡ e
    pub trail : IsTrail p done.0
    pub verified : verify_audit_chain p none done.0 ≡ valid (length t.rows + 1) done.1.entry_hash

  insert_entry-IsAppended :
      (e : AuditRecord) (t : Table) → IsTrail p t → IsAppended e t (insert_entry p e t)
  unfolding insert_entry verify_audit_chain limited
  insert_entry-IsAppended e t h =
      let r = (insert_entry p e t).1 in
      let chained = IsChained-append genesis_hash t.rows r h.chained refl refl in
      record {
        rows = refl;
        content = refl;
        trail = record {
          chained = chained;
          fresh = HasFreshIds-append 0 t.next_id t.rows r h.positive h.fresh refl;
          positive = omega arith;
        };
        verified =
            IsChained-verify_rows (length (t.rows ++ r ∷ [])) genesis_hash (t.rows ++ r ∷ [])
              chained
            ∙ rw (head_hash-append genesis_hash t.rows r, length-append t.rows (r ∷ [])) refl;
      }

  -- The two ends of append_audit_entry.
  pub data Appending (now : String) (current : Option String) (e : Event) (t : Table)
      : Outcome (Table × AuditEntry) → Type 0 where
    appended :
        {done : Table × AuditEntry}
        → (e.action ≡ "" → ⊥)
        → (p.strip e.action ≡ "" → ⊥)
        → contains (p.strip (p.lower e.severity)) severities ≡ true
        → IsAppended (record_of p now current e) t done
        → Appending now current e t (ret done)
    rejected :
        (e.action ≡ "")
          ⊎ ((p.strip e.action ≡ "") ⊎ (contains (p.strip (p.lower e.severity)) severities ≡ false))
        → Appending now current e t (raise value_error)

  -- On a trail whose hashes are chained and whose ids are fresh, append_audit_entry either refuses an
  -- empty action or an unknown severity, or it adds one row with the given content at the end; then
  -- the trail is chained and its ids are fresh again, and verify_audit_chain calls it valid, with the
  -- number of its rows and the hash of the new row.
  pub append_audit_entry-Appending :
      (now : String) (current : Option String) (e : Event) (t : Table)
      → IsTrail p t
      → Appending now current e t (append_audit_entry p now current e t)
  unfolding append_audit_entry
  append_audit_entry-Appending now current e t h = elim (Bool-cases (e.action == "")) [
    | inl empty ↦ rw empty (rejected (inl ((str_eq_iff e.action "").0 empty)))
    | inr some_action ↦ elim (Bool-cases (p.strip e.action == "")) [
      | inl blank ↦
          rw (some_action, blank)
            (rejected (inr (inl ((str_eq_iff (p.strip e.action) "").0 blank))))
      | inr solid ↦ elim (Bool-cases (contains (p.strip (p.lower e.severity)) severities)) [
        | inl known ↦
            rw (some_action, solid, known)
              (appended (λ q. ground (arith, str_eq_iff e.action ""))
                (λ q. ground (arith, str_eq_iff (p.strip e.action) "")) known
                (insert_entry-IsAppended (record_of p now current e) t h))
        | inr unknown ↦ rw (some_action, solid, unknown) (rejected (inr (inr unknown)))
      ]
    ]
  ]
