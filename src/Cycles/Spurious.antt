-- ===== src/Cycles/Spurious.antt =====
-- After its first cycle `detect_cycles` goes on with a path and a recursion stack that it has not
-- cleaned up, so a later entry of its list need not be a cycle.
use delaxis.Prelude.{
  String, ◌==◌, eq_iff, str_eq_refl, true, false, [], ◌∷◌, contains, add, lookup, keys, ◌≡◌, ◌≢◌,
  arith, sym,
}
use delaxis.Prelude.Outcome.{ret}
use delaxis.Graph.{neighbors, IsCycle}
use delaxis.Cycles.{
  Connection, detect_cycles, search_from, dfs, visit_neighbors, enter, leave, report, index,
  add_edge, add_connections, node_names,
}
use delaxis.Cycles.Building.{Links}

abbrev pub sequential : String → String → Connection
sequential a b = record { from_node = a; to_node = b; type = "sequential" }

ne_false : (a b : String) → a ≢ b → (a == b) ≡ false
ne_false a b h = ground (arith, eq_iff a b)

reported :
    (a b : String)
    → (a == a) ≡ true
    → (b == b) ≡ true
    → (a == b) ≡ false
    → (b == a) ≡ false
    → detect_cycles (sequential a a ∷ sequential b a ∷ [])
      ≡ ret ((a ∷ a ∷ []) ∷ (a ∷ b ∷ a ∷ []) ∷ [])
unfolding detect_cycles search_from dfs visit_neighbors enter leave report index add_edge
    add_connections node_names neighbors contains add lookup keys
reported a b aa bb ab ba = ground arith

no_link : (a b : String) → a ≢ b → ¬ Links (sequential a a ∷ sequential b a ∷ []) a b
no_link a b h link = ground arith

-- For a self-loop at `a` and a connection from another node `b` to it, `detect_cycles` returns a
-- second entry a -> b -> a, which is no cycle of the connections: nothing leads from `a` to `b`.
pub detect_cycles-spurious :
    (a b : String)
    → a ≢ b
    → (detect_cycles (sequential a a ∷ sequential b a ∷ [])
        ≡ ret ((a ∷ a ∷ []) ∷ (a ∷ b ∷ a ∷ []) ∷ []))
      × ¬ IsCycle (Links (sequential a a ∷ sequential b a ∷ [])) (a ∷ b ∷ a ∷ [])
detect_cycles-spurious a b h = (
  reported a b (str_eq_refl a) (str_eq_refl b) (ne_false a b h) (ne_false b a (λ e. h (sym e))),
  λ cycle. no_link a b h cycle.chain.0,
)
