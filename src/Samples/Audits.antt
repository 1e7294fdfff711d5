-- ===== src/Samples/Audits.antt =====
-- The audit trail with a digest that writes the previous hash and the payload next to each other.
use delaxis.Prelude.{
  String, ◌==◌, none, some, [], ◌∷◌, contains, if◌then◌else◌, ◌≡◌, ◌≢◌, refl, ap, arith, str_eq_iff,
}
use delaxis.Prelude.Outcome.{ret}
use delaxis.AuditTrail.{
  AuditRecord, Platform, AuditEntry, Table, Event, genesis_hash, hash_entry, actor_or, or_default,
  record_of, head_hash, insert_entry, append_audit_entry, valid, broken, prev_hash_differs,
  entry_hash_differs, verify_rows, verify_audit_chain, limited,
}
use delaxis.AuditTrail.Chain.{IsChained, IsTrail, Appending, append_audit_entry-Appending}
use delaxis.AuditTrail.Tampering.{
  verify_audit_chain-truncated, verify_audit_chain-edited, verify_audit_chain-removed,
}

auditing : Unit {0}
unfolding hash_entry actor_or or_default record_of head_hash insert_entry append_audit_entry
    verify_rows verify_audit_chain limited contains
auditing = tt

-- A hash of this platform is the action of the record.
abbrev platform : Platform
platform = record {
  dumps = λ r. r.action;
  digest = λ h payload. payload;
  strip = λ s. s;
  lower = λ s. s;
  like = λ pattern s. pattern == s;
}

abbrev nothing : Table
nothing = record { rows = []; next_id = 1 }

abbrev approval : Event
approval = record {
  action = "approved_refund";
  category = "";
  actor = some "ann";
  resource = none;
  outcome = "success";
  severity = "info";
  detail = none;
  session_id = none;
  workflow_id = none;
}

abbrev approved : AuditEntry
approved = record {
  id = 1;
  prev_hash = genesis_hash;
  entry_hash = "approved_refund";
  content = record {
    ts = "now";
    category = "custom";
    action = "approved_refund";
    actor = some "ann";
    resource = none;
    outcome = "success";
    severity = "info";
    detail = none;
    session_id = none;
    workflow_id = none;
  };
}

append-approval :
    append_audit_entry platform "now" none approval nothing
    ≡ ret (record { rows = approved ∷ []; next_id = 2 }, approved)
unfolding auditing
append-approval = refl

nothing-IsTrail : IsTrail platform nothing
nothing-IsTrail = record { chained = tt; fresh = tt; positive = omega arith }

append_audit_entry-Appending_example :
    Appending platform "now" none approval nothing
      (append_audit_entry platform "now" none approval nothing)
append_audit_entry-Appending_example =
    append_audit_entry-Appending platform "now" none approval nothing nothing-IsTrail

approved-IsChained : IsChained platform genesis_hash (approved ∷ [])
unfolding auditing
approved-IsChained = (refl, refl, tt)

verify_audit_chain-truncated_example :
    verify_audit_chain platform none (record { rows = []; next_id = 2 })
    ≡ valid 0 (head_hash genesis_hash [])
verify_audit_chain-truncated_example =
    verify_audit_chain-truncated platform [] (approved ∷ []) 2 approved-IsChained

abbrev denied : AuditRecord
denied = record approved.content { action = "denied_refund" }

denied_ne_approved : denied ≢ approved.content
denied_ne_approved e =
    ground (arith, ap (λ r. r.action) e, str_eq_iff "denied_refund" "approved_refund")

dumps_apart : platform.dumps denied ≡ platform.dumps approved.content → denied ≡ approved.content
dumps_apart e = absurd (ground (arith, e, str_eq_iff "denied_refund" "approved_refund"))

verify_audit_chain-edited_example :
    verify_audit_chain platform none
      (record { rows = record approved { content = denied } ∷ []; next_id = 2 })
    ≡ broken 1 1 entry_hash_differs
verify_audit_chain-edited_example =
    verify_audit_chain-edited platform (λ h x y e. e) [] [] approved denied 2 dumps_apart
      approved-IsChained denied_ne_approved

-- A digest that is never its own previous hash.
abbrev flip : String → String → String
flip h payload = if h == "a" then "b" else "a"

flip_moves : (h x : String) → flip h x ≢ h
flip_moves h x e = ground (arith, e, str_eq_iff h "a", str_eq_iff "b" "a")

abbrev flipping : Platform
flipping = record platform { digest = flip }

abbrev first : AuditEntry
first = record approved { entry_hash = "a" }

abbrev second : AuditEntry
second = record approved { id = 2; prev_hash = "a"; entry_hash = "b" }

both-IsChained : IsChained flipping genesis_hash (first ∷ second ∷ [])
unfolding auditing
both-IsChained = (refl, refl, (refl, refl, tt))

verify_audit_chain-removed_example :
    verify_audit_chain flipping none (record { rows = second ∷ []; next_id = 3 })
    ≡ broken 1 2 prev_hash_differs
verify_audit_chain-removed_example =
    verify_audit_chain-removed flipping flip_moves [] [] first second 3 both-IsChained
