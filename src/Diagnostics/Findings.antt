-- ===== src/Diagnostics/Findings.antt =====
-- src/api/workflow_diagnostics.py: when the checks of the graph have no finding of severity error.
use delaxis.Prelude.{
  String, ◌==◌, Bool, true, false, not, ◌&&◌, Option, none, some, List, [], ◌∷◌, ◌++◌, contains,
  map, All, ◌≡◌, refl, sym, ap, ◌∙◌, arith, Bool-cases, inl, inr, ◌⊎◌, ◌↔◌, str_eq_iff,
}
use delaxis.Validation.{Node, ValidationError}
use delaxis.Diagnostics.{
  Diagnostic, agent_missing, invalid_connection, cycle_detected, Severity, error, warning, info,
  severity, CanvasTopology, structural_checks_applicable, unassigned, bound, check_entry,
  check_topology,
}

unfoldable pub is_error : Severity → Bool
is_error error = true
is_error warning = false
is_error info = false

-- No finding is an error.
unfoldable pub clean : List Diagnostic → Bool
clean [] = true
clean (d ∷ findings) = not (is_error (severity d)) && clean findings

clean-append : (xs ys : List Diagnostic) → clean (xs ++ ys) ≡ (clean xs && clean ys)
unfolding clean
clean-append [] ys = refl
clean-append (d ∷ xs) ys = ground (arith, clean-append xs ys)

pub clean-unassigned :
    (nodes : List Node)
    → (clean (unassigned nodes) ≡ true) ↔ All (λ n. (n.agent_id == "") ≡ false) nodes
unfolding clean unassigned severity is_error
clean-unassigned [] = ground arith
clean-unassigned (n ∷ nodes) = ground (arith, clean-unassigned nodes)

pub bound-All :
    (nodes : List Node) → All (λ n. (n.agent_id == "") ≡ false) nodes → bound nodes ≡ nodes
unfolding bound
bound-All [] all = refl
bound-All (n ∷ nodes) all = rw all.0 (ap (λ l. n ∷ l) (bound-All nodes all.1))

pub clean-agent_missing :
    (errors : List ValidationError) → (clean (map agent_missing errors) ≡ true) ↔ (errors ≡ [])
unfolding clean severity is_error
clean-agent_missing [] = ground arith
clean-agent_missing (e ∷ errors) = ground arith

pub clean-invalid_connection :
    (errors : List ValidationError) → (clean (map invalid_connection errors) ≡ true) ↔ (errors ≡ [])
unfolding clean severity is_error
clean-invalid_connection [] = ground arith
clean-invalid_connection (e ∷ errors) = ground arith

pub clean-cycle_detected : (cycles : List (List String)) → clean (map cycle_detected cycles) ≡ true
unfolding clean severity is_error
clean-cycle_detected [] = refl
clean-cycle_detected (c ∷ cycles) = clean-cycle_detected cycles

pub clean-check_topology : (t : Option CanvasTopology) → clean (check_topology t) ≡ true
unfolding clean check_topology severity is_error
clean-check_topology none = refl
clean-check_topology (some t) = elim (Bool-cases (structural_checks_applicable t)) [
  | inl yes_applies ↦ rw yes_applies refl
  | inr other ↦ rw other refl
]

-- The entry is not given, or is one of the ids.
abbrev pub Entered : List String → Option String → Type 0
Entered ids none = Unit
Entered ids (some entry) = (entry ≡ "") ⊎ (contains entry ids ≡ true)

pub clean-check_entry :
    (ids : List String) (entry : Option String)
    → (clean (check_entry ids entry) ≡ true) ↔ Entered ids entry
unfolding clean check_entry severity is_error
clean-check_entry ids none = ground arith
clean-check_entry ids (some entry) = ground (arith, str_eq_iff entry "")

and_true : (a b : Bool) → (a && b) ≡ true → (a ≡ true) × (b ≡ true)
and_true a b h = ground (arith, h)

true_and : (a b : Bool) → a ≡ true → b ≡ true → (a && b) ≡ true
true_and a b h k = ground (arith, h, k)

pub clean-append_iff :
    (xs ys : List Diagnostic) → (clean (xs ++ ys) ≡ true) ↔ ((clean xs ≡ true) × (clean ys ≡ true))
clean-append_iff xs ys = (
  λ h. and_true (clean xs) (clean ys) (sym (clean-append xs ys) ∙ h),
  λ h. clean-append xs ys ∙ true_and (clean xs) (clean ys) h.0 h.1,
)

pub clean_seven :
    (a b c d e f g : List Diagnostic)
    → clean d ≡ true
    → clean f ≡ true
    → (clean (a ++ b ++ c ++ d ++ e ++ f ++ g) ≡ true) ↔ (
        (clean a ≡ true)
        × (clean b ≡ true)
        × (clean c ≡ true)
        × (clean e ≡ true)
        × (clean g ≡ true))
clean_seven a b c d e f g hd hf = (
  λ h.
      let (h6, hg) = (clean-append_iff (a ++ b ++ c ++ d ++ e ++ f) g).0 h in
      let h5 = ((clean-append_iff (a ++ b ++ c ++ d ++ e) f).0 h6).0 in
      let (h4, he) = (clean-append_iff (a ++ b ++ c ++ d) e).0 h5 in
      let h3 = ((clean-append_iff (a ++ b ++ c) d).0 h4).0 in
      let (h2, hc) = (clean-append_iff (a ++ b) c).0 h3 in
      let (ha, hb) = (clean-append_iff a b).0 h2 in (ha, hb, hc, he, hg),
  λ h. (clean-append_iff (a ++ b ++ c ++ d ++ e ++ f) g).1 (
    (clean-append_iff (a ++ b ++ c ++ d ++ e) f).1 (
      (clean-append_iff (a ++ b ++ c ++ d) e).1 (
        (clean-append_iff (a ++ b ++ c) d).1
            ((clean-append_iff (a ++ b) c).1 ((clean-append_iff a b).1 (h.0, h.1), h.2), hd),
        h.3,
      ),
      hf,
    ),
    h.4,
  ),
)
