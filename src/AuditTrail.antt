-- ===== src/AuditTrail.antt =====
-- src/tools/audit_trail.py: the table audit_entries, in the order of its ids, and the operations on
-- it. An append holds the lock from its read of the last row to its insert. The record Platform
-- stands for json.dumps, sha256 over the previous hash and the payload, str.strip, str.lower and
-- LIKE of SQL.
pub mod Chain
pub mod Tampering
use delaxis.Prelude.{
  ℕ, zero, suc, ℤ, pos, negsuc, nat_eq, String, ◌==◌, Bool, true, false, not, ◌&&◌, ◌||◌, Option,
  none, some, List, [], ◌∷◌, ◌++◌, length, take, drop, contains, ltb, leb, if◌then◌else◌,
}
use delaxis.Prelude.Outcome.{Outcome, ret, raise, value_error}

pub record AuditRecord : Type 0 where
  pub ts : String
  pub category : String
  pub action : String
  pub actor : Option String
  pub resource : Option String
  pub outcome : String
  pub severity : String
  pub detail : Option String
  pub session_id : Option String
  pub workflow_id : Option String

pub record Platform : Type 0 where
  pub dumps : AuditRecord → String
  pub digest : String → String → String
  pub strip : String → String
  pub lower : String → String
  pub like : String → String → Bool

pub record AuditEntry : Type 0 where
  pub id : ℕ
  pub content : AuditRecord
  pub prev_hash : String
  pub entry_hash : String

-- `next_id` is what AUTOINCREMENT hands out.
pub record Table : Type 0 where
  pub rows : List AuditEntry
  pub next_id : ℕ

abbrev pub severities : List String
severities = "debug" ∷ "info" ∷ "notice" ∷ "warning" ∷ "error" ∷ "critical" ∷ []

abbrev pub genesis_hash : String
genesis_hash = "0000000000000000000000000000000000000000000000000000000000000000"

-- The arguments of append_audit_entry; `detail` is the JSON text of a non-empty detail.
pub record Event : Type 0 where
  pub action : String
  pub category : String
  pub actor : Option String
  pub resource : Option String
  pub outcome : String
  pub severity : String
  pub detail : Option String
  pub session_id : Option String
  pub workflow_id : Option String

unfoldable pub hash_entry : Platform → AuditRecord → String → String
hash_entry p r prev_hash = p.digest prev_hash (p.dumps r)

-- `x if x is not None else _current_actor()`
unfoldable pub actor_or : Option String → Option String → Option String
actor_or none current = current
actor_or (some a) current = some a

-- `s.strip() or default`
unfoldable pub or_default : String → String → String
or_default s default = if s == "" then default else s

unfoldable pub record_of : Platform → String → Option String → Event → AuditRecord
record_of p now current e = record {
  ts = now;
  category = or_default (p.strip e.category) "custom";
  action = p.strip e.action;
  actor = actor_or e.actor current;
  resource = e.resource;
  outcome = e.outcome;
  severity = p.strip (p.lower e.severity);
  detail = e.detail;
  session_id = e.session_id;
  workflow_id = e.workflow_id;
}

-- The hash of the newest row, or the genesis hash.
unfoldable pub head_hash : String → List AuditEntry → String
head_hash expected [] = expected
head_hash expected (r ∷ rows) = head_hash r.entry_hash rows

unfoldable pub insert_entry : Platform → AuditRecord → Table → Table × AuditEntry
insert_entry p r t =
    let prev = head_hash genesis_hash t.rows in
    let entry : AuditEntry = record {
      id = t.next_id;
      content = r;
      prev_hash = prev;
      entry_hash = hash_entry p r prev;
    } in
    (record { rows = t.rows ++ entry ∷ []; next_id = suc t.next_id }, entry)

unfoldable pub append_audit_entry :
    Platform → String → Option String → Event → Table → Outcome (Table × AuditEntry)
append_audit_entry p now current e t =
    if (e.action == "") || (p.strip e.action == "")
    then raise value_error
    else (if not (contains (p.strip (p.lower e.severity)) severities)
        then raise value_error
        else ret (insert_entry p (record_of p now current e) t))

pub data Reason : Type 0 where
  prev_hash_differs entry_hash_differs : Reason

pub data Report : Type 0 where
  valid : ℕ → String → Report
  broken : ℕ → ℕ → Reason → Report

-- The loop of verify_audit_chain; `checked` is the number of all rows.
unfoldable pub verify_rows : Platform → ℕ → String → List AuditEntry → Report
verify_rows p checked expected [] = valid checked expected
verify_rows p checked expected (r ∷ rows) =
    let rest = verify_rows p checked r.entry_hash rows in
    if not (r.prev_hash == expected)
    then broken checked r.id prev_hash_differs
    else (if not (hash_entry p r.content expected == r.entry_hash)
        then broken checked r.id entry_hash_differs
        else rest)

-- `if limit:` and `LIMIT max(1, limit)`.
unfoldable pub limited : Option ℤ → List AuditEntry → List AuditEntry
limited none rows = rows
limited (some (pos zero)) rows = rows
limited (some (pos (suc n))) rows = take (suc n) rows
limited (some (negsuc n)) rows = take 1 rows

unfoldable pub verify_audit_chain : Platform → Option ℤ → Table → Report
verify_audit_chain p limit t =
    let rows = limited limit t.rows in verify_rows p (length rows) genesis_hash rows

pub record Query : Type 0 where
  pub category : Option String
  pub actor : Option String
  pub resource : Option String
  pub action : Option String
  pub outcome : Option String
  pub min_severity : Option String
  pub since : Option String
  pub until : Option String
  pub limit : ℕ
  pub offset : ℕ

-- A filter that is not given, or is empty, lets every value through.
unfoldable pub given : Option String → (String → Bool) → Bool
given none test = true
given (some s) test = if s == "" then true else test s

unfoldable pub column : Option String → (String → Bool) → Bool
column none test = false
column (some s) test = test s

-- SEVERITIES[SEVERITIES.index(wanted):]
unfoldable pub from_severity : String → List String → List String
from_severity wanted [] = []
from_severity wanted (s ∷ ss) =
    let rest = from_severity wanted ss in if s == wanted then s ∷ ss else rest

-- `ts` texts are compared by `at_least`.
unfoldable pub matches : Platform → (String → String → Bool) → Query → AuditRecord → Bool
matches p at_least q r =
    given q.category (λ s. r.category == s)
    && given q.actor (λ s. column r.actor (λ a. a == s))
    && given q.outcome (λ s. r.outcome == s)
    && given q.resource (λ s. column r.resource (λ a. p.like s a))
    && given q.action (λ s. p.like s r.action)
    && given q.min_severity
        (λ s. contains r.severity (from_severity (p.strip (p.lower s)) severities))
    && given q.since (λ s. at_least r.ts s)
    && given q.until (λ s. at_least s r.ts)

-- The matching rows, the newest first.
unfoldable pub newest_matching :
    Platform → (String → String → Bool) → Query → List AuditEntry → List AuditEntry
newest_matching p at_least q [] = []
newest_matching p at_least q (r ∷ rows) =
    let rest = newest_matching p at_least q rows in
    if matches p at_least q r.content then rest ++ r ∷ [] else rest

unfoldable pub clamp_limit : ℕ → ℕ
clamp_limit n = if nat_eq n 0 then 1 else (if ltb 500 n then 500 else n)

unfoldable pub read_audit_entries :
    Platform → (String → String → Bool) → Query → Table → Outcome (List AuditEntry)
read_audit_entries p at_least q t =
    if given q.min_severity (λ s. contains (p.strip (p.lower s)) severities)
    then ret (take (clamp_limit q.limit) (drop q.offset (newest_matching p at_least q t.rows)))
    else raise value_error
