-- ===== src/VersionedConfig/Differences.antt =====
-- src/config/versioned_service.py: `_compute_diff`.
use delaxis.Prelude.{
  String, Option, none, some, List, [], ◌∷◌, ◌++◌, contains, lookup, keys, if◌then◌else◌,
}
use delaxis.VersionedConfig.Data.{Config, Builtins, Modified, Diff}

-- The fields of a list of names that a dictionary lacks.
unfoldable pub keys_without : List String → List String → List String
keys_without [] ys = []
keys_without (x ∷ xs) ys = let rest = keys_without xs ys in if contains x ys then rest else x ∷ rest

module _ {V : Type 0} where
  unfoldable pub modified_field : Builtins V → String → Option V → Option V → List (Modified V)
  modified_field b key none proposed = []
  modified_field b key (some v) none = []
  modified_field b key (some v) (some w) =
      if b.value_eq v w then [] else record { field = key; current = v; proposed = w } ∷ []

  unfoldable pub modified_fields :
      Builtins V → List String → Config V → Config V → List (Modified V)
  modified_fields b [] current proposed = []
  modified_fields b (key ∷ ks) current proposed =
      modified_field b key (lookup key current) (lookup key proposed)
      ++ modified_fields b ks current proposed

  unfoldable pub compute_diff : Builtins V → Config V → Config V → Diff V
  compute_diff b current proposed = record {
    added = keys_without (keys proposed) (keys current);
    removed = keys_without (keys current) (keys proposed);
    modified = modified_fields b (keys current) current proposed;
  }
