-- ===== src/Samples/Versions.antt =====
-- VersionedConfigService on a small table, with a hash that is the first value of the data.
use delaxis.Prelude.{
  ℕ, String, ◌==◌, false, ◌||◌, none, some, [], ◌∷◌, contains, lookup, keys, if◌then◌else◌, ◌≡◌,
  refl, arith, inr,
}
use delaxis.Prelude.Outcome.{ret}
use delaxis.VersionedConfig.Data.{Config, Builtins, ConfigSnapshot, Table, Stamp, updated, truthy}
use delaxis.VersionedConfig.Queries.{
  of_config, where_config, where_version, insert_desc, order_by_desc, insert_asc, order_by_version,
  scalar_one_or_none, version_info, read, get_config, get_config_history, ids, delete_ids,
  apply_retention_policy,
}
use delaxis.VersionedConfig.Differences.{
  compute_diff, keys_without, modified_fields, modified_field,
}
use delaxis.VersionedConfig.Service.{
  generate_etag, new_snapshot, store_next, initial_summary, given_summary, check_token,
  check_version, finish_update, update_current, update_config, rollback_to, rollback_config,
  conflict_with,
}
use delaxis.VersionedConfig.Selection.{HasDistinctIds}
use delaxis.VersionedConfig.Updates.{CompareAndSet, update_config-CompareAndSet}
use delaxis.VersionedConfig.Retention.{IsRetained, update_config-IsRetained}
use delaxis.VersionedConfig.Rollback.{Restoration, rollback_config-Restoration}
use delaxis.VersionedConfig.History.{Ascending}

service : Unit {0}
unfolding of_config where_config where_version insert_desc order_by_desc insert_asc order_by_version
    scalar_one_or_none version_info read get_config get_config_history ids delete_ids
    apply_retention_policy generate_etag new_snapshot store_next initial_summary given_summary
    check_token check_version finish_update update_current update_config rollback_to rollback_config
    truthy contains lookup keys compute_diff keys_without modified_fields modified_field
    conflict_with
service = tt

abbrev first_value : Config String → String
first_value [] = ""
first_value ((k, v) ∷ c) = v

abbrev python : Builtins String
python = record {
  dumps = first_value;
  sha256 = λ s. s;
  isdigit = λ s. (s == "1") || (s == "2");
  int = λ s. if s == "1" then some 1 else if s == "2" then some 2 else none;
  value_eq = λ v w. v == w;
}

abbrev row : String → String → ℕ → String → ConfigSnapshot String
row id i v model = record {
  id = id;
  config_type = "agent";
  config_id = i;
  version = v;
  etag = model;
  config_data = ("model", model) ∷ [];
  created_at = 0;
  updated_by = none;
  change_summary = none;
}

abbrev rows : Table String
rows =
    row "k1" "planner" 1 "small" ∷ row "k2" "writer" 1 "large" ∷ row "k3" "planner" 2 "large" ∷ []

abbrev stamp : Stamp
stamp = record { uuid = "k4"; now = 7; user_id = some "ann" }

abbrev after_update : Table String
after_update =
    row "k2" "writer" 1 "large"
    ∷ row "k3" "planner" 2 "large"
    ∷ record {
      id = "k4";
      config_type = "agent";
      config_id = "planner";
      version = 3;
      etag = "medium";
      config_data = ("model", "medium") ∷ [];
      created_at = 7;
      updated_by = some "ann";
      change_summary = none;
    }
    ∷ []

update_config-accepted :
    update_config python 1 stamp "agent" "planner" (("model", "medium") ∷ []) (some "2") none rows
    ≡ ret (after_update, updated "medium")
unfolding service
update_config-accepted = refl

rows-HasDistinctIds : HasDistinctIds rows
unfolding HasDistinctIds ids contains
rows-HasDistinctIds = (refl, (refl, (refl, tt)))

k4-absent : contains "k4" (ids rows) ≡ false
unfolding ids contains
k4-absent = refl

planner-Ascending : Ascending (where_config "agent" "planner" rows)
unfolding where_config of_config
planner-Ascending = ((omega arith, tt), (tt, tt))

planner_current :
    get_config "agent" "planner" rows
    ≡ ret (
        some (
          ("model", "large") ∷ [],
          record { version = 2; etag = "large"; last_updated = 0; updated_by = none },
        ))
unfolding service
planner_current = refl

truthy_large : truthy (some "large") ≡ some "large"
unfolding truthy
truthy_large = refl

update_config-CompareAndSet_example :
    CompareAndSet python stamp "agent" "planner" (("model", "medium") ∷ []) (some "1") rows (
      update_config python 1 stamp "agent" "planner"
        (("model", "medium") ∷ [])
        (some "1")
        none
        rows)
update_config-CompareAndSet_example =
    update_config-CompareAndSet python 1 stamp "agent" "planner" (("model", "medium") ∷ [])
      (some "1") none rows rows-HasDistinctIds k4-absent

update_config-IsRetained_example :
    (rows' : Table String) × (update_config python 1 stamp "agent" "planner"
        (("model", "medium") ∷ [])
        (some "large")
        none
        rows
      ≡ ret (rows', updated (generate_etag python (("model", "medium") ∷ []))))
    × IsRetained 1
        (where_config "agent" "planner" rows)
        (where_config "agent" "planner" rows')
        3
        (("model", "medium") ∷ [])
update_config-IsRetained_example =
    update_config-IsRetained python 1 stamp "agent" "planner" (("model", "medium") ∷ [])
      (some "large") none rows rows-HasDistinctIds planner-Ascending planner_current
      (inr ("large", truthy_large, inr (refl, refl)))

rollback_config-Restoration_example :
    Restoration python stamp "agent" "planner" 1 rows
      (rollback_config python 1 stamp "agent" "planner" 1 rows)
rollback_config-Restoration_example =
    rollback_config-Restoration python 1 stamp "agent" "planner" 1 rows rows-HasDistinctIds
      planner-Ascending k4-absent
