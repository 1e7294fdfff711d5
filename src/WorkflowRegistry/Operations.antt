-- ===== src/WorkflowRegistry/Operations.antt =====
-- src/config/workflow_registry.py: add_workflow, update_workflow and remove_workflow as operations of
-- a map from ids to workflows.
use delaxis.Prelude.{
  Distinct, String, ◌==◌, Bool, false, Option, none, some, List, ◌≡◌, ◌≢◌, ◌↔◌, ◌⊎◌, refl, sym, ap,
  subst, inl, inr,
}
use delaxis.WorkflowConfig.{WorkflowConfig, WorkflowError, ◌then_check◌, get_workflow, workflow_ids}
use delaxis.WorkflowRegistry.{
  Registry, validate_workflow, loaded, find_workflow, check_absent, finish_add, add_workflow,
  check_present, finish_update, update_loaded, update_workflow, remove_loaded, remove_workflow,
}
use delaxis.WorkflowRegistry.Lookups.{
  get_workflow-absent, get_workflow-append, get_workflow-append_other, Distinct-append,
  get_workflow-replace, get_workflow-replace_other, ids-replace, get_workflow-remove_first,
  get_workflow-remove_first_other, Distinct-remove_first, remove_first-found,
}
use delaxis.WorkflowRegistry.Validity.{IsRunnable, validate_workflow-IsRunnable}

abbrev pub HasUniqueIds : Registry → Type 0
HasUniqueIds r = Distinct (workflow_ids (loaded r.workflows_config))

-- The workflow is stored under its id, and nothing else changes.
pub record Stores (w : WorkflowConfig) (r r' : Registry) : Type 0 where
  pub stored : find_workflow w.id r' ≡ some w
  pub others : (i : String) → (w.id == i) ≡ false → find_workflow i r' ≡ find_workflow i r
  pub agents : r'.agents_config ≡ r.agents_config
  pub unique : HasUniqueIds r → HasUniqueIds r'

-- No lookup changes.
pub record Keeps (r r' : Registry) : Type 0 where
  pub lookups : (i : String) → find_workflow i r' ≡ find_workflow i r
  pub agents : r'.agents_config ≡ r.agents_config
  pub unique : HasUniqueIds r → HasUniqueIds r'

Keeps-loaded :
    (r : Registry) (ws : List WorkflowConfig)
    → loaded r.workflows_config ≡ ws
    → Keeps r (record r { workflows_config = some ws })
unfolding find_workflow loaded
Keeps-loaded r ws e = record {
  lookups = λ i. ap (get_workflow i) (sym e);
  agents = refl;
  unique = λ h. subst (λ l. Distinct (workflow_ids l)) e h;
}

-- What add_workflow does to the registry, and what it answers.
pub data Addition (w : WorkflowConfig) (r : Registry)
    : Registry × Option WorkflowError → Type 0 where
  added :
      {r' : Registry}
      → find_workflow w.id r ≡ none
      → IsRunnable r.agents_config w
      → Stores w r r'
      → Addition w r (r', none)
  not_added :
      {r' : Registry} {e : WorkflowError}
      → (find_workflow w.id r ≢ none) ⊎ (¬ IsRunnable r.agents_config w)
      → Keeps r r'
      → Addition w r (r', some e)

finish_add-Addition :
    (w : WorkflowConfig) (r : Registry) (found : Option WorkflowConfig)
    (invalid : Option WorkflowError)
    → find_workflow w.id r ≡ found
    → validate_workflow r.agents_config w ≡ invalid
    → Addition w r
        (finish_add w r (loaded r.workflows_config) (check_absent w.id found then_check invalid))
unfolding finish_add check_absent ◌then_check◌ find_workflow loaded
finish_add-Addition w r (some v) invalid at e =
    not_added (inl (λ none_here. cc)) (Keeps-loaded r (loaded r.workflows_config) refl)
finish_add-Addition w r none (some x) at e =
    not_added (inr (λ run. let fine = (validate_workflow-IsRunnable r.agents_config w).1 run in cc))
      (Keeps-loaded r (loaded r.workflows_config) refl)
finish_add-Addition w r none none at e =
    added at ((validate_workflow-IsRunnable r.agents_config w).0 e) (record {
      stored = get_workflow-append w (loaded r.workflows_config) at;
      others = λ i other. get_workflow-append_other i w (loaded r.workflows_config) other;
      agents = refl;
      unique =
          Distinct-append w (loaded r.workflows_config)
            (get_workflow-absent w.id (loaded r.workflows_config) at);
    })

-- add_workflow stores a runnable workflow under an id that is not taken, changes no other lookup and
-- keeps the ids unique; otherwise it raises, and no lookup changes.
pub add_workflow-Addition : (w : WorkflowConfig) (r : Registry) → Addition w r (add_workflow w r)
unfolding add_workflow get_workflow find_workflow
add_workflow-Addition w r =
    finish_add-Addition w r (find_workflow w.id r) (validate_workflow r.agents_config w) refl refl

-- What update_workflow does.
pub data Replacement (w : WorkflowConfig) (r : Registry)
    : Registry × Option WorkflowError → Type 0 where
  replaced :
      {r' : Registry}
      → find_workflow w.id r ≢ none
      → IsRunnable r.agents_config w
      → Stores w r r'
      → Replacement w r (r', none)
  not_replaced :
      {e : WorkflowError}
      → (find_workflow w.id r ≡ none) ⊎ (¬ IsRunnable r.agents_config w)
      → Replacement w r (r, some e)

abbrev registry_of : Option (List String) → Option (List WorkflowConfig) → Registry
registry_of agents workflows = record { agents_config = agents; workflows_config = workflows }

finish_update-Replacement :
    (w : WorkflowConfig) (agents : Option (List String)) (ws : List WorkflowConfig)
    (found : Option WorkflowConfig) (invalid : Option WorkflowError)
    → get_workflow w.id ws ≡ found
    → validate_workflow agents w ≡ invalid
    → Replacement w (registry_of agents (some ws)) (
        finish_update w
          (registry_of agents (some ws))
          ws
          (check_present w.id found then_check invalid))
unfolding finish_update check_present ◌then_check◌ find_workflow loaded
finish_update-Replacement w agents ws none invalid at e = not_replaced (inl at)
finish_update-Replacement w agents ws (some v) (some x) at e =
    not_replaced (inr (λ run. let fine = (validate_workflow-IsRunnable agents w).1 run in cc))
finish_update-Replacement w agents ws (some v) none at e =
    replaced (λ none_here. cc) ((validate_workflow-IsRunnable agents w).0 e)
      (record {
        stored = get_workflow-replace w v ws at;
        others = λ i other. get_workflow-replace_other i w ws other;
        agents = refl;
        unique = λ h. subst Distinct (sym (ids-replace w ws)) h;
      })

update_loaded-Replacement :
    (w : WorkflowConfig) (agents : Option (List String)) (workflows : Option (List WorkflowConfig))
    → Replacement w
        (registry_of agents workflows)
        (update_loaded w (registry_of agents workflows) workflows)
unfolding update_loaded find_workflow get_workflow loaded
update_loaded-Replacement w agents none = not_replaced (inl refl)
update_loaded-Replacement w agents (some ws) =
    finish_update-Replacement w agents ws (get_workflow w.id ws) (validate_workflow agents w) refl
      refl

-- update_workflow replaces the workflow stored under the id by a runnable one, changes no other
-- lookup and keeps the ids unique; when the id is unknown or the workflow is not runnable it raises,
-- and the registry is the same.
pub update_workflow-Replacement :
    (w : WorkflowConfig) (r : Registry) → Replacement w r (update_workflow w r)
unfolding update_workflow
update_workflow-Replacement w r = update_loaded-Replacement w r.agents_config r.workflows_config

-- What remove_workflow does: the id is gone, and the answer tells whether it was there.
pub record Removal (i : String) (r : Registry) (done : Registry × Bool) : Type 0 where
  pub gone : find_workflow i done.0 ≡ none
  pub others : (j : String) → (i == j) ≡ false → find_workflow j done.0 ≡ find_workflow j r
  pub answer : (done.1 ≡ false) ↔ (find_workflow i r ≡ none)
  pub unique : HasUniqueIds done.0

remove_loaded-Removal :
    (i : String) (agents : Option (List String)) (workflows : Option (List WorkflowConfig))
    → HasUniqueIds (registry_of agents workflows)
    → Removal i
        (registry_of agents workflows)
        (remove_loaded i (registry_of agents workflows) workflows)
unfolding remove_loaded find_workflow loaded get_workflow workflow_ids
remove_loaded-Removal i agents none h = record {
  gone = refl;
  others = λ j other. refl;
  answer = (λ e. refl, λ e. refl);
  unique = tt;
}
remove_loaded-Removal i agents (some ws) h = record {
  gone = get_workflow-remove_first i ws h;
  others = λ j other. get_workflow-remove_first_other i j ws other;
  answer = remove_first-found i ws;
  unique = Distinct-remove_first i ws h;
}

-- In a registry of unique ids remove_workflow removes the workflow of the id and no other, keeps the
-- ids unique, and answers False exactly when the id was not there.
pub remove_workflow-Removal :
    (i : String) (r : Registry) → HasUniqueIds r → Removal i r (remove_workflow i r)
unfolding remove_workflow
remove_workflow-Removal i r h = remove_loaded-Removal i r.agents_config r.workflows_config h
