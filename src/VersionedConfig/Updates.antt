-- ===== src/VersionedConfig/Updates.antt =====
-- src/config/versioned_service.py: update_config as a compare-and-set on the latest version.
use delaxis.Prelude.{
  ℕ, ◌+◌, String, ◌==◌, true, false, Option, none, some, nat_eq, nat_eq_iff, contains, ◌≡◌, ◌≢◌,
  refl, ap, ◌∙◌, arith, Bool-cases, inl, inr, ◌⊎◌, str_eq_iff,
}
use delaxis.Prelude.Outcome.{Outcome, ret, raise, value_error, ◌>>=◌}
use delaxis.VersionedConfig.Data.{
  Config, Builtins, ConfigVersion, ConflictResponse, UpdateResult, updated, conflict, Stamp, Table,
  truthy,
}
use delaxis.VersionedConfig.Latest.{head, get_config_lem}
use delaxis.VersionedConfig.Queries.{order_by_desc, read, where_config, get_config, ids}
use delaxis.VersionedConfig.Differences.{compute_diff}
use delaxis.VersionedConfig.Changes.{IsDiff, compute_diff-IsDiff}
use delaxis.VersionedConfig.Service.{
  generate_etag, given_summary, initial_summary, check_token, check_version, conflict_with,
  finish_update, update_current, update_config,
}
use delaxis.VersionedConfig.Selection.{HasDistinctIds}
use delaxis.VersionedConfig.Commits.{
  IsCommitted, append-IsCommitted, store_next-IsCommitted, get_config-newest, get_config-none,
}

-- The token is absent, or it is the current version in decimal, or the current etag.
abbrev pub Matches : {V : Type 0} → Builtins V → Option String → ConfigVersion → Type 0
Matches b token v =
    (truthy token ≡ none)
    ⊎ ((s : String) × (truthy token ≡ some s)
        × (((b.isdigit s ≡ true) × (b.int s ≡ some v.version))
            ⊎ ((b.isdigit s ≡ false) × (s ≡ v.etag))))

-- The token names another version.
abbrev pub Stale : {V : Type 0} → Builtins V → Option String → ConfigVersion → Type 0
Stale b token v =
    (s : String) × (truthy token ≡ some s)
    × (((b.isdigit s ≡ true) × (n : ℕ) × (b.int s ≡ some n) × (n ≢ v.version))
        ⊎ ((b.isdigit s ≡ false) × (s ≢ v.etag)))

-- A token of digits that `int` does not read.
abbrev pub Unreadable : {V : Type 0} → Builtins V → Option String → Type 0
Unreadable b token =
    (s : String) × (truthy token ≡ some s) × (b.isdigit s ≡ true) × (b.int s ≡ none)

-- What the answer to a stale token says of the current version and of the proposed data.
pub record Reports {V : Type 0} (b : Builtins V) (c updates : Config V) (v : ConfigVersion)
    (answer : ConflictResponse V) : Type 0 where
  pub current_version : answer.current_version ≡ v.version
  pub current_etag : answer.current_etag ≡ v.etag
  pub current_config : answer.current_config ≡ c
  pub diff : answer.diff ≡ compute_diff b c updates
  pub changes : IsDiff b c updates answer.diff

module _ {V : Type 0} (b : Builtins V) (token : Option String) (updates c : Config V)
    (v : ConfigVersion) where
  -- The three ends of the check of a token.
  data Checked : Outcome (Option (ConflictResponse V)) → Type 0 where
    matching : Matches b token v → Checked (ret none)
    stale :
        {answer : ConflictResponse V}
        → Stale b token v
        → Reports b c updates v answer
        → Checked (ret (some answer))
    unread : Unreadable b token → Checked (raise value_error)

  conflict_with-Reports :
      (n : Option ℕ) (s : Option String) → Reports b c updates v (conflict_with b updates c v n s)
  unfolding conflict_with
  conflict_with-Reports n s = record {
    current_version = refl;
    current_etag = refl;
    current_config = refl;
    diff = refl;
    changes = compute_diff-IsDiff b c updates;
  }

  check_version-Checked :
      (s : String)
      → truthy token ≡ some s
      → b.isdigit s ≡ true
      → (n : Option ℕ) → b.int s ≡ n
      → Checked (check_version b updates c v n)
  unfolding check_version
  check_version-Checked s at digits none e = unread (s, at, digits, e)
  check_version-Checked s at digits (some n) e = elim (Bool-cases (nat_eq n v.version)) [
    | inl same ↦
        rw same
          (matching (inr (s, at, inl (digits, e ∙ ap some ((nat_eq_iff n v.version).0 same)))))
    | inr other ↦ rw other (
        stale (s, at, inl (digits, n, e, λ same. ground (arith, nat_eq_iff n v.version)))
          (conflict_with-Reports (some n) none))
  ]

  check_token-Checked :
      (o : Option String) → truthy token ≡ o → Checked (check_token b o updates c v)
  unfolding check_token
  check_token-Checked none at = matching (inl at)
  check_token-Checked (some s) at = elim (Bool-cases (b.isdigit s)) [
    | inl digits ↦ rw digits (check_version-Checked s at digits (b.int s) refl)
    | inr other ↦ elim (Bool-cases (s == v.etag)) [
      | inl same ↦
          rw (other, same) (matching (inr (s, at, inr (other, (str_eq_iff s v.etag).0 same))))
      | inr new ↦
          rw (other, new)
            (stale (s, at, inr (other, λ same. ground (arith, str_eq_iff s v.etag)))
              (conflict_with-Reports none (some s)))
    ]
  ]

module _ {V : Type 0} (b : Builtins V) (updates c : Config V) (v : ConfigVersion) where
  pub check_token-Matches :
      (token : Option String)
      → Matches b token v
      → check_token b (truthy token) updates c v ≡ ret none
  unfolding check_token check_version
  check_token-Matches token (inl absent) = rw absent
  check_token-Matches token (inr (s, at, inl (digits, e))) =
      rw (at, digits, e) (ground (arith, nat_eq_iff v.version v.version))
  check_token-Matches token (inr (s, at, inr (other, same))) =
      rw (at, other) (ground (arith, str_eq_iff s v.etag))

module _ {V : Type 0} (b : Builtins V) (stamp : Stamp) (t i : String) (updates : Config V)
    (token : Option String) (rows : Table V) where
  -- The specification of an update: by the current version and the token, the rows and the answer.
  pub data CompareAndSet : Outcome (Table V × UpdateResult V) → Type 0 where
    created :
        {rows' : Table V}
        → get_config t i rows ≡ ret none
        → IsCommitted b stamp t i 1 updates rows rows'
        → CompareAndSet (ret (rows', updated (generate_etag b updates)))
    replaced :
        {rows' : Table V} {c : Config V} {v : ConfigVersion}
        → get_config t i rows ≡ ret (some (c, v))
        → Matches b token v
        → IsCommitted b stamp t i (v.version + 1) updates rows rows'
        → CompareAndSet (ret (rows', updated (generate_etag b updates)))
    refused :
        {c : Config V} {v : ConfigVersion} {answer : ConflictResponse V}
        → get_config t i rows ≡ ret (some (c, v))
        → Stale b token v
        → Reports b c updates v answer
        → CompareAndSet (ret (rows, conflict answer))
    unreadable :
        {c : Config V} {v : ConfigVersion}
        → get_config t i rows ≡ ret (some (c, v))
        → Unreadable b token
        → CompareAndSet (raise value_error)

  -- The rest of the update, at what the check of the token ends with.
  finish-CompareAndSet :
      (max_snapshots : ℕ) (summary : Option String) {c : Config V} {v : ConfigVersion}
      → HasDistinctIds rows
      → contains stamp.uuid (ids rows) ≡ false
      → get_config t i rows ≡ ret (some (c, v))
      → {checked : Outcome (Option (ConflictResponse V))} → Checked b token updates c v checked
      → CompareAndSet (
          checked >>= λ refused.
          ret (finish_update b max_snapshots stamp t i updates v summary rows refused))
  unfolding finish_update
  finish-CompareAndSet max_snapshots summary {c} {v} distinct fresh at (matching m) =
      replaced at m (
        store_next-IsCommitted b stamp t i max_snapshots (v.version + 1) updates
          (given_summary summary) rows distinct fresh (get_config-newest b stamp t i rows at))
  finish-CompareAndSet max_snapshots summary distinct fresh at (stale old reports) =
      refused at old reports
  finish-CompareAndSet max_snapshots summary distinct fresh at (unread u) = unreadable at u

  current-CompareAndSet :
      (max_snapshots : ℕ) (summary : Option String)
      → HasDistinctIds rows
      → contains stamp.uuid (ids rows) ≡ false
      → (current : Option (Config V × ConfigVersion)) → get_config t i rows ≡ ret current
      → CompareAndSet (update_current b max_snapshots stamp t i updates token summary rows current)
  unfolding update_current
  current-CompareAndSet max_snapshots summary distinct fresh none at = created at (
      append-IsCommitted b stamp t i 1 updates (initial_summary summary) rows rows
        (λ t' i' other. refl) distinct fresh (rw (get_config-none b stamp t i rows at) tt))
  current-CompareAndSet max_snapshots summary distinct fresh (some (c, v)) at =
      finish-CompareAndSet max_snapshots summary distinct fresh at
        (check_token-Checked b token updates c v (truthy token) refl)

-- For every table whose primary keys differ and every fresh key, update_config is a compare-and-set:
-- without a current version it creates version 1; with one, it stores the version after the current
-- one exactly when the token is absent, or is the current version or etag, and then a read returns
-- the new data, version and etag, and no row of another configuration changes; on any other token
-- it leaves the rows as they are and answers with the current version, its data and the diff: the fields that only the proposed data has,
-- those that only the current data has, and those of both whose values differ; a token
-- of digits that int does not read ends it with ValueError.
pub update_config-CompareAndSet :
    {V : Type 0} (b : Builtins V) (max_snapshots : ℕ) (stamp : Stamp) (t i : String)
    (updates : Config V) (token summary : Option String) (rows : Table V)
    → HasDistinctIds rows
    → contains stamp.uuid (ids rows) ≡ false
    → CompareAndSet b stamp t i updates token rows
        (update_config b max_snapshots stamp t i updates token summary rows)
unfolding update_config
update_config-CompareAndSet b max_snapshots stamp t i updates token summary rows distinct fresh =
    rw (get_config_lem t i rows) (
      current-CompareAndSet b stamp t i updates token rows max_snapshots summary distinct fresh
        (read (head (order_by_desc (where_config t i rows)))) (get_config_lem t i rows))
