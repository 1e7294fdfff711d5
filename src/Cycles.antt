-- ===== src/Cycles.antt =====
-- src/api/workflow_validation.py, `detect_cycles`: depth-first search over the sequential
-- connections of a canvas workflow.
--
-- The closure `dfs` shares `visited`, `rec_stack`, `path` and `cycles` with its calls: they are the
-- record `Search`. A set is a list without repetitions (`add`, `remove`). What Python may raise on
-- the way (`path.index`, `path.pop`, `rec_stack.remove`) is an exception of `Outcome`. The recursion
-- takes fuel; the number of node names that the connections mention is enough.
pub mod Frames
pub mod Clean
pub mod Verdicts
pub mod Building
pub mod Report
pub mod Spurious
use delaxis.Prelude.{
  ℕ, zero, suc, ◌+◌, String, ◌==◌, Bool, true, false, List, [], ◌∷◌, ◌++◌, length, drop, contains,
  add, remove, keys, if◌then◌else◌, lookup,
}
use delaxis.Prelude.Outcome.{
  Outcome, ret, raise, out_of_fuel, value_error, key_error, index_error, ◌>>=◌,
}
use delaxis.Graph.{Graph, neighbors}

-- What the validators read from a connection.
pub record Connection : Type 0 where
  pub from_node : String
  pub to_node : String
  pub type : String

-- `if a not in graph: graph[a] = []` and `graph[a].append(b)`
unfoldable pub add_edge : String → String → Graph → Graph
add_edge a b [] = (a, b ∷ []) ∷ []
add_edge a b ((n, ns) ∷ g) = if n == a then (n, ns ++ b ∷ []) ∷ g else (n, ns) ∷ add_edge a b g

-- The adjacency list: parallel connections are passed over.
unfoldable pub add_connections : Graph → List Connection → Graph
add_connections g [] = g
add_connections g (c ∷ cs) =
    add_connections (if c.type == "sequential" then add_edge c.from_node c.to_node g else g) cs

abbrev pub build_graph : List Connection → Graph
build_graph = add_connections []

pub record Search : Type 0 where
  pub visited : List String
  pub rec_stack : List String
  pub path : List String
  pub cycles : List (List String)

abbrev pub start : Search
start = record { visited = []; rec_stack = []; path = []; cycles = [] }

-- path.index(x)
unfoldable pub index : String → List String → Outcome ℕ
index x [] = raise value_error
index x (y ∷ ys) = let later = index x ys in if y == x then ret 0 else do i ← later; ret (i + 1)

-- path.pop()
unfoldable pub pop : List String → Outcome (List String)
pop [] = raise index_error
pop (x ∷ []) = ret []
pop (x ∷ y ∷ ys) = do rest ← pop (y ∷ ys); ret (x ∷ rest)

-- rec_stack.remove(x)
unfoldable pub discard : String → List String → Outcome (List String)
discard x s = if contains x s then ret (remove x s) else raise key_error

-- The first three lines of `dfs`.
unfoldable pub enter : String → Search → Search
enter node s = record s {
  visited = add node s.visited;
  rec_stack = add node s.rec_stack;
  path = s.path ++ node ∷ [];
}

-- The last lines of `dfs`, when no neighbor has led to a cycle.
unfoldable pub leave : String → Search → Outcome (Bool × Search)
leave node s = do
  path ← pop s.path
  rec_stack ← discard node s.rec_stack
  ret (false, record s { path = path; rec_stack = rec_stack })

-- A neighbor on the recursion stack closes a cycle: `path[cycle_start:] + [neighbor]` is reported.
unfoldable pub report : String → Search → Outcome (Bool × Search)
report neighbor s = do
  cycle_start ← index neighbor s.path
  ret (true, record s { cycles = s.cycles ++ (drop cycle_start s.path ++ neighbor ∷ []) ∷ [] })

-- The loop over the neighbors, given the recursive call.
unfoldable pub visit_neighbors :
    (String → Search → Outcome (Bool × Search)) → List String → Search → Outcome (Bool × Search)
visit_neighbors dfs [] s = ret (false, s)
visit_neighbors dfs (n ∷ ns) s = elim (contains n s.visited) [
  | false ↦ do
    (found, s') ← dfs n s
    elim found [ true ↦ ret (true, s') | false ↦ visit_neighbors dfs ns s' ]
  | true ↦ elim (contains n s.rec_stack) [ true ↦ report n s | false ↦ visit_neighbors dfs ns s ]
]

unfoldable pub dfs : ℕ → Graph → String → Search → Outcome (Bool × Search)
dfs zero g node s = out_of_fuel
dfs (suc fuel) g node s = do
  (found, s') ← visit_neighbors (dfs fuel g) (neighbors g node) (enter node s)
  elim found [ true ↦ ret (true, s') | false ↦ leave node s' ]

-- `for node in graph: if node not in visited: dfs(node)`
unfoldable pub search_from : ℕ → Graph → List String → Search → Outcome Search
search_from fuel g [] s = ret s
search_from fuel g (node ∷ nodes) s = elim (contains node s.visited) [
  | true ↦ search_from fuel g nodes s
  | false ↦ do (_, s') ← dfs fuel g node s; search_from fuel g nodes s'
]

-- Every node name that the connections mention.
unfoldable pub node_names : List Connection → List String
node_names [] = []
node_names (c ∷ cs) = c.from_node ∷ c.to_node ∷ node_names cs

unfoldable pub detect_cycles : List Connection → Outcome (List (List String))
detect_cycles connections = do
  let graph = build_graph connections
  s ← search_from (length (node_names connections)) graph (keys graph) start
  ret s.cycles
