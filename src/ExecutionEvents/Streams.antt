-- ===== src/ExecutionEvents/Streams.antt =====
-- src/crewai_runtime/execution_events.py: what the stream of a sequential run should say, described
-- without the operations of the emitter.
use Prim.Native.String.{[] as empty, ◌∷◌ as ◌∷ˢ◌, count, ◌++◌ as ◌+++◌}
use Prim.Native.String.append
use text.Mathlib.TextLemmas.{length-cons}
use delaxis.Prelude.{
  In, ℕ, zero, suc, ◌≤◌, ◌<◌, String, ◌==◌, str_eq_iff, true, false, Option-cases, ltb, Option,
  none, some, List, [], ◌∷◌, ◌++◌, lookup, ◌≡◌, ◌≢◌, refl, sym, ap, subst, ◌∙◌, arith, Bool-cases,
  inl, inr, ◌⊎◌,
}
use delaxis.Crew.Text.{text_or}
use delaxis.ExecutionEvents.{TaskMeta, NodeOutput, TaskOutput, max_text_chars, take_chars, truncate}
use delaxis.ExecutionEvents.Operations.{context_of, output_of}
use delaxis.ExecutionEvents.Sequential.{Milestone, started, given, finished, timeline}

-- The stream shows a text of at most 6000 characters as it is, and else its first 6000 and a mark.
pub IsShown : String → String → Type 0
IsShown text shown =
    ((count text ≤ 6000) × (shown ≡ text))
    ⊎ ((kept : String) × (rest : String) × (6000 < count text)
        × (kept +++ rest ≡ text)
        × (count kept ≡ 6000)
        × (shown ≡ kept +++ "… [truncated]"))

take_chars-append : (n : ℕ) (s : String) → (rest : String) × (take_chars n s +++ rest ≡ s)
unfolding take_chars
take_chars-append zero s = (s, append.nil s)
take_chars-append (suc n) empty = (empty, append.nil empty)
take_chars-append (suc n) (c ∷ˢ s) =
    let (rest, whole) = take_chars-append n s in
    (rest, append.cons c (take_chars n s) rest ∙ ap (λ t. c ∷ˢ t) whole)

count-take_chars : (n : ℕ) (s : String) → n ≤ count s → count (take_chars n s) ≡ n
unfolding take_chars
count-take_chars zero s h = refl
count-take_chars (suc n) empty h = absurd (omega (arith, h))
count-take_chars (suc n) (c ∷ˢ s) h =
    let rest = count-take_chars n s (omega (arith, h, length-cons c s)) in
    omega (arith, rest, length-cons c (take_chars n s))

truncate-IsShown : (text : String) → IsShown text (truncate text).0
unfolding IsShown truncate
truncate-IsShown text = elim (Bool-cases (ltb max_text_chars (count text))) [
  | inl long ↦
      let (rest, whole) = take_chars-append max_text_chars text in
      let enough : 6000 < count text = ground (arith, long) in
      rw long (
        inr (
          take_chars max_text_chars text,
          rest,
          enough,
          whole,
          count-take_chars max_text_chars text (omega (arith, enough)),
          refl,
        ))
  | inr short ↦ rw short (inl (ground (arith, short), refl))
]

-- The text of a report: its raw text if that is not empty, else that of the whole object.
pub IsText : TaskOutput → String → Type 0
IsText o text =
    ((o.raw ≡ some text) × (text ≢ "")) ⊎ (((o.raw ≡ none) ⊎ (o.raw ≡ some "")) × (text ≡ o.text))

-- The texts of the upstream nodes that have reported, in the order of the upstream nodes.
pub IsContext : List (String × String) → List String → List (String × String) → Type 0
IsContext known [] context = context ≡ []
IsContext known (i ∷ ids) context =
    ((text : String) × (rest : List (String × String)) × In (i, text) known
      × (context ≡ (i, text) ∷ rest)
      × IsContext known ids rest)
    ⊎ (¬ ((text : String) × In (i, text) known) × IsContext known ids context)

-- The stream of tasks whose first ones have reported, when `known` is what was reported before: a task starts, and is given the texts of
-- its upstream nodes that have reported; when it has reported, its text is shown, and the next task starts.
pub IsTimeline : List (String × String) → List TaskMeta → List TaskOutput → List Milestone → Type 0
IsTimeline known [] outputs stream = stream ≡ []
IsTimeline known (m ∷ metas) [] stream =
    (context : List (String × String)) × IsContext known m.upstream_node_ids context
    × (stream ≡ started m.node_id ∷ given m.node_id context ∷ [])
IsTimeline known (m ∷ metas) (o ∷ outputs) stream =
    (context : List (String × String)) × (text : String) × (shown : String) × (rest : List
      Milestone)
    × IsContext known m.upstream_node_ids context
    × IsText o text
    × IsShown text shown
    × (stream ≡ started m.node_id ∷ given m.node_id context ∷ finished m.node_id shown ∷ rest)
    × IsTimeline (known ++ (m.node_id, shown) ∷ []) metas outputs rest

abbrev texts : List (String × NodeOutput) → List (String × String)
texts [] = []
texts ((i, o) ∷ known) = (i, o.raw) ∷ texts known

texts-append :
    (known : List (String × NodeOutput)) (i : String) (o : NodeOutput)
    → texts (known ++ (i, o) ∷ []) ≡ texts known ++ (i, o.raw) ∷ []
texts-append [] i o = refl
texts-append ((j, q) ∷ known) i o = ap (λ l. (j, q.raw) ∷ l) (texts-append known i o)

lookup-In :
    (i : String) (known : List (String × NodeOutput)) (o : NodeOutput)
    → lookup i known ≡ some o
    → In (i, o.raw) (texts known)
unfolding lookup
lookup-In i [] o h = cc
lookup-In i ((j, q) ∷ known) o h = elim (Bool-cases (j == i)) [
  | inl same ↦
      let here : q ≡ o = (let h' = (rw same at h) in cc) in
      let key : j ≡ i = (str_eq_iff j i).0 same in inl (ap₂ i j q o (sym key) (sym here))
  | inr other ↦ inr (lookup-In i known o (rw other at h))
]
  where
    ap₂ :
        (i j : String) (q o : NodeOutput)
        → i ≡ j
        → o ≡ q
        → Path (String × String) (i, o.raw) (j, q.raw)
    ap₂ i j q o e f = ap (λ k. (k, o.raw)) e ∙ ap (λ x. (j, x.raw)) f

lookup-none :
    (i text : String) (known : List (String × NodeOutput))
    → lookup i known ≡ none
    → ¬ In (i, text) (texts known)
unfolding lookup
lookup-none i text [] h m = m
lookup-none i text ((j, q) ∷ known) h (inl same) =
    let here : (j == i) ≡ true = (str_eq_iff j i).1 (ap (λ x. x.0) (sym same)) in
    let h' = (rw here at h) in cc
lookup-none i text ((j, q) ∷ known) h (inr m) = elim (Bool-cases (j == i)) [
  | inl here ↦ (let h' = (rw here at h) in cc)
  | inr other ↦ lookup-none i text known (rw other at h) m
]

context_of-missing :
    (i : String) (ids : List String) (known : List (String × NodeOutput))
    → lookup i known ≡ none
    → context_of (i ∷ ids) known ≡ context_of ids known
unfolding context_of
context_of-missing i ids known h = ground (arith, h)

context_of-found :
    (i : String) (ids : List String) (known : List (String × NodeOutput)) (o : NodeOutput)
    → lookup i known ≡ some o
    → context_of (i ∷ ids) known ≡ (i, o.raw) ∷ context_of ids known
unfolding context_of
context_of-found i ids known o h = ground (arith, h)

context_of-IsContext :
    (ids : List String) (known : List (String × NodeOutput))
    → IsContext (texts known) ids (context_of ids known)
unfolding context_of IsContext
context_of-IsContext [] known = refl
context_of-IsContext (i ∷ ids) known =
    let rest = context_of-IsContext ids known in
    elim (Option-cases (lookup i known)) [
      | inl missing ↦ inr (
        λ found. lookup-none i found.0 known missing found.1,
        subst (IsContext (texts known) ids) (sym (context_of-missing i ids known missing)) rest,
      )
      | inr (o, found) ↦ inl (
        o.raw,
        context_of ids known,
        lookup-In i known o found,
        context_of-found i ids known o found,
        rest,
      )
    ]

text_or-IsText :
    (o : TaskOutput) (raw : Option String) → o.raw ≡ raw → IsText o (text_or raw o.text)
unfolding text_or IsText
text_or-IsText o none e = inr (inl e, refl)
text_or-IsText o (some text) e = elim (Bool-cases (text == "")) [
  | inl blank ↦ rw blank (inr (inr (e ∙ ap some ((str_eq_iff text "").0 blank)), refl))
  | inr proper ↦ rw proper (inl (e, λ same. not_blank text proper same))
]
  where
    not_blank : (text : String) → (text == "") ≡ false → text ≢ ""
    not_blank text proper same = let blank = (str_eq_iff text "").1 same in cc

-- The stream that the emitter computes is the one described.
pub timeline-IsTimeline :
    (known : List (String × NodeOutput)) (metas : List TaskMeta) (outputs : List TaskOutput)
    → IsTimeline (texts known) metas outputs (timeline known metas outputs)
unfolding timeline IsTimeline output_of
timeline-IsTimeline known [] outputs = refl
timeline-IsTimeline known (m ∷ metas) [] =
    (context_of m.upstream_node_ids known, context_of-IsContext m.upstream_node_ids known, refl)
timeline-IsTimeline known (m ∷ metas) (o ∷ outputs) = (
  context_of m.upstream_node_ids known,
  text_or o.raw o.text,
  (truncate (text_or o.raw o.text)).0,
  timeline (known ++ (m.node_id, output_of o m) ∷ []) metas outputs,
  context_of-IsContext m.upstream_node_ids known,
  text_or-IsText o o.raw refl,
  truncate-IsShown (text_or o.raw o.text),
  refl,
  subst
      (λ l.
        IsTimeline l metas outputs
          (timeline (known ++ (m.node_id, output_of o m) ∷ []) metas outputs))
      (texts-append known m.node_id (output_of o m))
      (timeline-IsTimeline (known ++ (m.node_id, output_of o m) ∷ []) metas outputs),
)
