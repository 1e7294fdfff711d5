-- ===== src/WorkflowRegistry/Lookups.antt =====
-- src/config/workflow_registry.py: lookups in the list of workflows after an operation.
use delaxis.Prelude.{
  Distinct, String, ◌==◌, true, false, none, some, List, [], ◌∷◌, ◌++◌, contains, Subset,
  if◌then◌else◌, ◌≡◌, ◌↔◌, refl, arith, str_eq_iff, str_eq_refl, Bool-cases, inl, inr,
}
use delaxis.WorkflowConfig.{WorkflowConfig, get_workflow, workflow_ids}
use delaxis.WorkflowRegistry.{replace, remove_first}

pub get_workflow-absent :
    (i : String) (ws : List WorkflowConfig)
    → get_workflow i ws ≡ none
    → contains i (workflow_ids ws) ≡ false
unfolding get_workflow workflow_ids contains
get_workflow-absent i [] e = refl
get_workflow-absent i (v ∷ ws) e = ground (arith, get_workflow-absent i ws)

pub absent-get_workflow :
    (i : String) (ws : List WorkflowConfig)
    → contains i (workflow_ids ws) ≡ false
    → get_workflow i ws ≡ none
unfolding get_workflow workflow_ids contains
absent-get_workflow i [] e = refl
absent-get_workflow i (v ∷ ws) e = ground (arith, absent-get_workflow i ws)

pub get_workflow-append :
    (w : WorkflowConfig) (ws : List WorkflowConfig)
    → get_workflow w.id ws ≡ none
    → get_workflow w.id (ws ++ w ∷ []) ≡ some w
unfolding get_workflow
get_workflow-append w [] e = ground (arith, str_eq_refl w.id)
get_workflow-append w (v ∷ ws) e = ground (arith, get_workflow-append w ws)

pub get_workflow-append_other :
    (i : String) (w : WorkflowConfig) (ws : List WorkflowConfig)
    → (w.id == i) ≡ false
    → get_workflow i (ws ++ w ∷ []) ≡ get_workflow i ws
unfolding get_workflow
get_workflow-append_other i w [] e = ground arith
get_workflow-append_other i w (v ∷ ws) e = ground (arith, get_workflow-append_other i w ws e)

pub contains-ids-append :
    (x : String) (w : WorkflowConfig) (ws : List WorkflowConfig)
    → contains x (workflow_ids (ws ++ w ∷ []))
      ≡ (if contains x (workflow_ids ws) then true else w.id == x)
unfolding workflow_ids contains
contains-ids-append x w [] = ground arith
contains-ids-append x w (v ∷ ws) = ground (arith, contains-ids-append x w ws)

pub Distinct-append :
    (w : WorkflowConfig) (ws : List WorkflowConfig)
    → contains w.id (workflow_ids ws) ≡ false
    → Distinct (workflow_ids ws)
    → Distinct (workflow_ids (ws ++ w ∷ []))
unfolding workflow_ids contains
Distinct-append w [] fresh h = (refl, tt)
Distinct-append w (v ∷ ws) fresh h = (
  ground (arith, contains-ids-append v.id w ws, h.0, str_eq_iff v.id w.id, str_eq_iff w.id v.id),
  Distinct-append w ws (ground arith) h.1,
)

pub get_workflow-replace :
    (w : WorkflowConfig) (v : WorkflowConfig) (ws : List WorkflowConfig)
    → get_workflow w.id ws ≡ some v
    → get_workflow w.id (replace w ws) ≡ some w
unfolding get_workflow replace
get_workflow-replace w v [] e = cc
get_workflow-replace w v (u ∷ ws) e = ground (arith, get_workflow-replace w v ws, str_eq_refl w.id)

pub get_workflow-replace_other :
    (i : String) (w : WorkflowConfig) (ws : List WorkflowConfig)
    → (w.id == i) ≡ false
    → get_workflow i (replace w ws) ≡ get_workflow i ws
unfolding get_workflow replace
get_workflow-replace_other i w [] e = refl
get_workflow-replace_other i w (v ∷ ws) e =
    ground (arith, get_workflow-replace_other i w ws e, str_eq_iff v.id w.id)

pub ids-replace :
    (w : WorkflowConfig) (ws : List WorkflowConfig) → workflow_ids (replace w ws) ≡ workflow_ids ws
unfolding workflow_ids replace
ids-replace w [] = refl
ids-replace w (v ∷ ws) = ground (arith, ids-replace w ws, str_eq_iff v.id w.id)

pub get_workflow-remove_first :
    (i : String) (ws : List WorkflowConfig)
    → Distinct (workflow_ids ws)
    → get_workflow i (remove_first i ws).0 ≡ none
unfolding get_workflow remove_first workflow_ids contains
get_workflow-remove_first i [] h = refl
get_workflow-remove_first i (v ∷ ws) h =
    ground
      (arith, get_workflow-remove_first i ws h.1, absent-get_workflow i ws, h.0, str_eq_iff v.id i)

pub get_workflow-remove_first_other :
    (i j : String) (ws : List WorkflowConfig)
    → (i == j) ≡ false
    → get_workflow j (remove_first i ws).0 ≡ get_workflow j ws
unfolding get_workflow remove_first
get_workflow-remove_first_other i j [] e = refl
get_workflow-remove_first_other i j (v ∷ ws) e =
    ground (arith, get_workflow-remove_first_other i j ws e, str_eq_iff v.id i)

ids-remove_first :
    (i : String) (ws : List WorkflowConfig)
    → Subset (workflow_ids (remove_first i ws).0) (workflow_ids ws)
unfolding remove_first workflow_ids contains
ids-remove_first i [] x m = m
ids-remove_first i (v ∷ ws) x m = ground (arith, ids-remove_first i ws x)

pub Distinct-remove_first :
    (i : String) (ws : List WorkflowConfig)
    → Distinct (workflow_ids ws)
    → Distinct (workflow_ids (remove_first i ws).0)
unfolding remove_first workflow_ids
Distinct-remove_first i [] h = tt
Distinct-remove_first i (v ∷ ws) h =
    let later = Distinct-remove_first i ws h.1 in
    elim (Bool-cases (v.id == i)) [
      | inl same ↦ rw same h.1
      | inr other ↦ rw other (ground (arith, h.0, ids-remove_first i ws v.id), later)
    ]

-- The answer tells whether the id was there.
pub remove_first-found :
    (i : String) (ws : List WorkflowConfig)
    → ((remove_first i ws).1 ≡ false) ↔ (get_workflow i ws ≡ none)
unfolding get_workflow remove_first
remove_first-found i [] = (λ e. refl, λ e. refl)
remove_first-found i (v ∷ ws) = ground (arith, remove_first-found i ws)
