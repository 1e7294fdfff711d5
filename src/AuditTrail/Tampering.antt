-- ===== src/AuditTrail/Tampering.antt =====
-- src/tools/audit_trail.py: which changes of the rows verify_audit_chain reports.
use delaxis.Prelude.{
  ℕ, String, none, List, [], ◌∷◌, ◌++◌, length, ◌≡◌, ◌≢◌, refl, sym, ◌∙◌, arith, str_eq_iff,
}
use delaxis.AuditTrail.{
  AuditRecord, Platform, AuditEntry, genesis_hash, hash_entry, head_hash, valid, broken,
  prev_hash_differs, entry_hash_differs, verify_rows, verify_audit_chain, limited,
}
use delaxis.AuditTrail.Chain.{IsChained, IsChained-verify_rows}

module _ (p : Platform) where
  IsChained-split :
      (expected : String) (before rest : List AuditEntry)
      → IsChained p expected (before ++ rest)
      → IsChained p expected before × IsChained p (head_hash expected before) rest
  unfolding head_hash
  IsChained-split expected [] rest h = (tt, h)
  IsChained-split expected (r ∷ before) rest (linked, hashed, later) =
      let (front, back) = IsChained-split r.entry_hash before rest later in
      ((linked, hashed, front), back)

  verify_rows-prefix :
      (n : ℕ) (expected : String) (before rest : List AuditEntry)
      → IsChained p expected before
      → verify_rows p n expected (before ++ rest) ≡ verify_rows p n (head_hash expected before) rest
  unfolding verify_rows head_hash
  verify_rows-prefix n expected [] rest h = refl
  verify_rows-prefix n expected (r ∷ before) rest (linked, hashed, later) =
      let tail = verify_rows-prefix n r.entry_hash before rest later in
      ground (
        arith,
        str_eq_iff r.prev_hash expected,
        str_eq_iff (hash_entry p r.content expected) r.entry_hash,
        linked,
        sym hashed,
      )

  edited-broken :
      (n : ℕ) (expected : String) (r : AuditEntry) (c : AuditRecord) (after : List AuditEntry)
      → r.prev_hash ≡ expected
      → hash_entry p c expected ≢ r.entry_hash
      → verify_rows p n expected (record r { content = c } ∷ after)
        ≡ broken n r.id entry_hash_differs
  unfolding verify_rows
  edited-broken n expected r c after linked differs = ground (
    arith,
    str_eq_iff r.prev_hash expected,
    str_eq_iff (hash_entry p c expected) r.entry_hash,
    differs,
  )

  removed-broken :
      (n : ℕ) (expected : String) (s : AuditEntry) (after : List AuditEntry)
      → s.prev_hash ≢ expected
      → verify_rows p n expected (s ∷ after) ≡ broken n s.id prev_hash_differs
  unfolding verify_rows
  removed-broken n expected s after differs =
      ground (arith, str_eq_iff s.prev_hash expected, differs)

-- Where json.dumps tells the new content of a row from the old one and sha256 tells payloads apart,
-- an edit of one row of a chained trail that leaves the hashes as they are is reported at that row.
pub verify_audit_chain-edited :
    (p : Platform)
    → ((h x y : String) → p.digest h x ≡ p.digest h y → x ≡ y)
    → (before after : List AuditEntry) (r : AuditEntry) (c : AuditRecord) (next_id : ℕ)
    → (p.dumps c ≡ p.dumps r.content → c ≡ r.content)
    → IsChained p genesis_hash (before ++ r ∷ after)
    → c ≢ r.content
    → verify_audit_chain p none
        (record { rows = before ++ record r { content = c } ∷ after; next_id = next_id })
      ≡ broken (length (before ++ record r { content = c } ∷ after)) r.id entry_hash_differs
unfolding verify_audit_chain limited hash_entry
verify_audit_chain-edited p digest_inj before after r c next_id dumps_inj chained differs =
    let (front, back) = IsChained-split p genesis_hash before (r ∷ after) chained in
    let n = length (before ++ record r { content = c } ∷ after) in
    verify_rows-prefix p n genesis_hash before (record r { content = c } ∷ after) front
    ∙ edited-broken p n (head_hash genesis_hash before) r c after back.0 (λ e. differs (
        dumps_inj (
          digest_inj (head_hash genesis_hash before) (p.dumps c) (p.dumps r.content) (e ∙ back.1))))

-- Where no hash is the hash of itself with a payload, the removal of a row of a chained trail that
-- has a later row is reported at the next row.
pub verify_audit_chain-removed :
    (p : Platform)
    → ((h x : String) → p.digest h x ≢ h)
    → (before after : List AuditEntry) (r s : AuditEntry) (next_id : ℕ)
    → IsChained p genesis_hash (before ++ r ∷ s ∷ after)
    → verify_audit_chain p none (record { rows = before ++ s ∷ after; next_id = next_id })
      ≡ broken (length (before ++ s ∷ after)) s.id prev_hash_differs
unfolding verify_audit_chain limited hash_entry
verify_audit_chain-removed p no_fixpoint before after r s next_id chained =
    let (front, back) = IsChained-split p genesis_hash before (r ∷ s ∷ after) chained in
    let n = length (before ++ s ∷ after) in
    verify_rows-prefix p n genesis_hash before (s ∷ after) front
    ∙ removed-broken p n (head_hash genesis_hash before) s after (λ e.
      no_fixpoint (head_hash genesis_hash before) (p.dumps r.content)
        (sym back.1 ∙ (sym back.2.0 ∙ e)))

-- The removal of any number of the newest rows is not reported: what is left of a chained trail is
-- called valid, with the number of the rows left.
pub verify_audit_chain-truncated :
    (p : Platform) (before after : List AuditEntry) (next_id : ℕ)
    → IsChained p genesis_hash (before ++ after)
    → verify_audit_chain p none (record { rows = before; next_id = next_id })
      ≡ valid (length before) (head_hash genesis_hash before)
unfolding verify_audit_chain limited
verify_audit_chain-truncated p before after next_id chained =
    IsChained-verify_rows p (length before) genesis_hash before
      (IsChained-split p genesis_hash before after chained).0
