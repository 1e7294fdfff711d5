-- ===== src/CycleCheck/Simulation.antt =====
-- `_has_cycle` visits what `detect_cycles` visits, up to the first cycle: each call runs in step
-- with the call of the other search.
use delaxis.Prelude.{ℕ, zero, suc, String, Bool, true, false, List, [], ◌∷◌, contains, ◌≡◌, arith}
use delaxis.Prelude.Outcome.{Outcome, ret, ◌>>=◌, >>=-eq-ret}
use delaxis.Graph.{Graph, neighbors}
use delaxis.Cycles
use delaxis.Cycles.{Search}
use delaxis.CycleCheck.{Marks, MarksResult, mark, unmark, check_neighbors, dfs}

abbrev pub marks : Search → Marks
marks s = record { visited = s.visited; rec_stack = s.rec_stack }

-- When the first call returns, the second returns the same answer and the same sets.
abbrev pub InStep : Outcome (Bool × Search) → MarksResult → Type 0
InStep m m' = (found : Bool) (s : Search) → m ≡ ret (found, s) → m' ≡ ret (found, marks s)

leave-InStep : (n : String) (s : Search) → InStep (Cycles.leave n s) (unmark n (marks s))
unfolding Cycles.leave Cycles.discard unmark
leave-InStep n s found t e = ground arith

report-InStep : (n : String) (s : Search) → InStep (Cycles.report n s) (ret (true, marks s))
unfolding Cycles.report
report-InStep n s found t e = ground arith

ret-InStep : (b : Bool) (s : Search) → InStep (ret (b, s)) (ret (b, marks s))
ret-InStep b s found t e = ground arith

-- Both searches stop after a call that found a cycle, and go on after another.
either-InStep :
    (m : Outcome (Bool × Search)) (m' : MarksResult) (k : Search → Outcome (Bool × Search))
    (k' : Marks → MarksResult)
    → InStep m m'
    → ((s : Search) → InStep (k s) (k' (marks s)))
    → InStep
        (m >>= λ (f, s). elim f [ true ↦ ret (true, s) | false ↦ k s ])
        (m' >>= λ (f, s). elim f [ true ↦ ret (true, s) | false ↦ k' s ])
either-InStep m m' k k' first next found t e =
    let ((f, s), returned, rest) = >>=-eq-ret m _ e in rw (first f s returned) (split f s rest)
  where
    split :
        (f : Bool) (s : Search)
        → elim f [ true ↦ ret (true, s) | false ↦ k s ] ≡ ret (found, t)
        → elim f [ true ↦ ret (true, marks s) | false ↦ k' (marks s) ] ≡ ret (found, marks t)
    split true s h = ret-InStep true s found t h
    split false s h = next s found t h

check_neighbors-InStep :
    (call : String → Search → Outcome (Bool × Search)) (call' : String → Marks → MarksResult)
    → ((n : String) (s : Search) → InStep (call n s) (call' n (marks s)))
    → (ns : List String) (s : Search)
    → InStep (Cycles.visit_neighbors call ns s) (check_neighbors call' ns (marks s))
unfolding Cycles.visit_neighbors check_neighbors
check_neighbors-InStep call call' same [] s = ret-InStep false s
check_neighbors-InStep call call' same (n ∷ ns) s =
    split (contains n s.visited) (contains n s.rec_stack)
      (check_neighbors-InStep call call' same ns)
  where
    split :
        (seen on_stack : Bool)
        → ((u : Search)
            → InStep (Cycles.visit_neighbors call ns u) (check_neighbors call' ns (marks u)))
        → InStep
            (elim seen [
              | false ↦ call n s >>= λ (f, u). elim f [
                | true ↦ ret (true, u)
                | false ↦ Cycles.visit_neighbors call ns u
              ]
              | true ↦ elim on_stack [
                | true ↦ Cycles.report n s
                | false ↦ Cycles.visit_neighbors call ns s
              ]
            ])
            (elim seen [
              | false ↦ call' n (marks s) >>= λ (f, u). elim f [
                | true ↦ ret (true, u)
                | false ↦ check_neighbors call' ns u
              ]
              | true ↦ elim on_stack [
                | true ↦ ret (true, marks s)
                | false ↦ check_neighbors call' ns (marks s)
              ]
            ])
    split false b rest = either-InStep (call n s) (call' n (marks s)) _ _ (same n s) rest
    split true true rest = report-InStep n s
    split true false rest = rest s

pub dfs-InStep :
    (fuel : ℕ) (g : Graph) (n : String) (s : Search)
    → InStep (Cycles.dfs fuel g n s) (dfs fuel g n (marks s))
unfolding Cycles.dfs dfs Cycles.enter mark
dfs-InStep zero g n s = λ found t e. cc
dfs-InStep (suc fuel) g n s =
    either-InStep (Cycles.visit_neighbors (Cycles.dfs fuel g) (neighbors g n) (Cycles.enter n s)) _
      _ _
      (check_neighbors-InStep (Cycles.dfs fuel g) (dfs fuel g) (dfs-InStep fuel g) (neighbors g n)
        (Cycles.enter n s))
      (leave-InStep n)
