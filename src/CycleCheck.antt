-- ===== src/CycleCheck.antt =====
-- src/config/topology_models.py, `_has_cycle`: the depth-first search of `detect_cycles` without the
-- path, stopping at the first cycle. The names in the graph bound the depth of the recursion.
pub mod Simulation
pub mod Verdict
use delaxis.Prelude.{
  ℕ, zero, suc, ◌+◌, String, Bool, true, false, List, [], ◌∷◌, ◌++◌, length, contains, add, remove,
  keys, if◌then◌else◌,
}
use delaxis.Prelude.Outcome.{Outcome, ret, raise, out_of_fuel, key_error, ◌>>=◌}
use delaxis.Graph.{Graph, neighbors, targets}

-- The sets that the closure `dfs` of `_has_cycle` shares with its calls.
pub record Marks : Type 0 where
  pub visited : List String
  pub rec_stack : List String

abbrev pub MarksResult : Type 0
MarksResult = Outcome (Bool × Marks)

unfoldable pub mark : String → Marks → Marks
mark node s = record { visited = add node s.visited; rec_stack = add node s.rec_stack }

unfoldable pub unmark : String → Marks → MarksResult
unmark node s =
    if contains node s.rec_stack
    then ret (false, record s { rec_stack = remove node s.rec_stack })
    else raise key_error

unfoldable pub check_neighbors : (String → Marks → MarksResult) → List String → Marks → MarksResult
check_neighbors dfs [] s = ret (false, s)
check_neighbors dfs (n ∷ ns) s = elim (contains n s.visited) [
  | false ↦ do
    (found, s') ← dfs n s
    elim found [ true ↦ ret (true, s') | false ↦ check_neighbors dfs ns s' ]
  | true ↦ elim (contains n s.rec_stack) [ true ↦ ret (true, s) | false ↦ check_neighbors dfs ns s ]
]

unfoldable pub dfs : ℕ → Graph → String → Marks → MarksResult
dfs zero g node s = out_of_fuel
dfs (suc fuel) g node s = do
  (found, s') ← check_neighbors (dfs fuel g) (neighbors g node) (mark node s)
  elim found [ true ↦ ret (true, s') | false ↦ unmark node s' ]

unfoldable pub check_from : ℕ → Graph → List String → Marks → Outcome Bool
check_from fuel g [] s = ret false
check_from fuel g (node ∷ nodes) s = elim (contains node s.visited) [
  | true ↦ check_from fuel g nodes s
  | false ↦ do
    (found, s') ← dfs fuel g node s
    elim found [ true ↦ ret true | false ↦ check_from fuel g nodes s' ]
]

unfoldable pub has_cycle : Graph → Outcome Bool
has_cycle g =
    check_from (length (keys g) + length (targets g)) g (keys g)
      (record { visited = []; rec_stack = [] })
