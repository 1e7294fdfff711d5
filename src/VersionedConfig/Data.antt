-- ===== src/VersionedConfig/Data.antt =====
-- src/config/versioned_service.py and src/infrastructure/database/schema.py: the rows of
-- config_snapshots and the answers of the service.
use delaxis.Prelude.{ℕ, String, ◌==◌, Bool, Option, none, some, List, if◌then◌else◌}

abbrev pub Config : Type 0 → Type 0
Config V = List (String × V)

pub record Builtins (V : Type 0) : Type 0 where
  pub dumps : Config V → String
  pub sha256 : String → String
  pub isdigit : String → Bool
  -- int(s); none when it raises ValueError.
  pub int : String → Option ℕ
  pub value_eq : V → V → Bool

-- A summary is the caller's text, or one of the two texts that the service writes.
pub data ChangeSummary : Type 0 where
  given : String → ChangeSummary
  initial_configuration : ChangeSummary
  rollback_to_version : ℕ → ChangeSummary

pub record ConfigSnapshot (V : Type 0) : Type 0 where
  pub id : String
  pub config_type : String
  pub config_id : String
  pub version : ℕ
  pub etag : String
  pub config_data : Config V
  pub created_at : ℕ
  pub updated_by : Option String
  pub change_summary : Option ChangeSummary

pub record ConfigVersion : Type 0 where
  pub version : ℕ
  pub etag : String
  pub last_updated : ℕ
  pub updated_by : Option String

pub record Modified (V : Type 0) : Type 0 where
  pub field : String
  pub current : V
  pub proposed : V

pub record Diff (V : Type 0) : Type 0 where
  pub added : List String
  pub removed : List String
  pub modified : List (Modified V)

pub record ConflictResponse (V : Type 0) : Type 0 where
  pub current_version : ℕ
  pub current_etag : String
  pub current_config : Config V
  pub provided_version : Option ℕ
  pub provided_etag : Option String
  pub diff : Diff V

-- What update_config returns: (True, etag, None) or (False, None, conflict).
pub data UpdateResult (V : Type 0) : Type 0 where
  updated : String → UpdateResult V
  conflict : ConflictResponse V → UpdateResult V

-- What rollback_config returns: (True, etag), or (False, text) for one of the two texts.
pub data RollbackResult : Type 0 where
  rolled_back : String → RollbackResult
  version_not_found : ℕ → RollbackResult
  config_not_found : RollbackResult

-- The values that a call takes from its surroundings: a fresh uuid4, the clock, the user.
pub record Stamp : Type 0 where
  pub uuid : String
  pub now : ℕ
  pub user_id : Option String

abbrev pub Table : Type 0 → Type 0
Table V = List (ConfigSnapshot V)

-- A Python string is false when it is empty.
unfoldable pub truthy : Option String → Option String
truthy none = none
truthy (some s) = if s == "" then none else some s
