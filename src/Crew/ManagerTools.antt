-- ===== src/Crew/ManagerTools.antt =====
-- src/crewai_runtime/runtime.py: which tools an agent has, by its configuration and its nodes.
use delaxis.Prelude.{
  In, String, ◌==◌, Bool, true, false, ◌&&◌, ◌||◌, Option, none, some, List, [], ◌∷◌, ◌++◌,
  contains, contains-append, lookup, if◌then◌else◌, ◌≡◌, ◌↔◌, ◌⊎◌, refl, sym, ap, ◌∙◌, arith,
  Bool-cases, inl, inr, str_eq_iff,
}
use delaxis.Topology.{AgentNode}
use delaxis.Crew.Roles.{
  AgentConfig, append_new, add_tools, Attachments, attach_node, attach_nodes, no_attachments,
  node_attachments, config_tools,
}
use delaxis.Crew.Inputs.{Platform}
use delaxis.Crew.Planning.{AgentArguments, CrewWorkflow, Request, tools_of, manager_tool_ids}

-- The tool stands in the configuration of the agent, or at a node of the agent.
pub HasTool : List (String × AgentConfig) → List AgentNode → String → String → Type 0
HasTool configs order agent_id tool =
    ((config : AgentConfig) × (lookup agent_id configs ≡ some config)
      × (contains tool config.tools ≡ true))
    ⊎ ((n : AgentNode) × In n order × (n.agent_id ≡ agent_id) × (contains tool n.tools ≡ true))

append_new-contains :
    (t : String) (xs ys : List String)
    → contains t (append_new xs ys) ≡ (contains t ys || contains t xs)
unfolding append_new contains
append_new-contains t [] ys = ground arith
append_new-contains t (x ∷ xs) ys =
    let moved = (λ (same : (x == t) ≡ true). ap (λ z. contains z ys) ((str_eq_iff x t).0 same)) in
    elim (Bool-cases (contains x ys)) [
      | inl known ↦ rw known (ground (arith, append_new-contains t xs ys, known, moved))
      | inr new ↦
          rw new
            (ground (arith, append_new-contains t xs (ys ++ x ∷ []), contains-append t ys (x ∷ [])))
    ]

tools_of-nil : (i : String) → tools_of i [] ≡ []
unfolding tools_of lookup
tools_of-nil i = refl

tools_of-cons :
    (i a : String) (bucket : List String) (extra : List (String × List String))
    → tools_of i ((a, bucket) ∷ extra) ≡ (if a == i then bucket else tools_of i extra)
unfolding tools_of lookup
tools_of-cons i a bucket extra = ground arith

or_false : (b : Bool) → b ≡ (b || false)
or_false true = refl
or_false false = refl

tools_of-add_tools :
    (i k t : String) (tools : List String) (extra : List (String × List String))
    → contains t (tools_of i (add_tools k tools extra))
      ≡ (contains t (tools_of i extra) || ((k == i) && contains t tools))
unfolding add_tools contains
tools_of-add_tools i k t [] extra = ground arith
tools_of-add_tools i k t (tool ∷ tools) [] =
    ap (contains t) (tools_of-cons i k (append_new (tool ∷ tools) []) [])
    ∙ first (k == i) (append_new (tool ∷ tools) []) (append_new-contains t (tool ∷ tools) [])
  where
    first :
        (b : Bool) (made : List String)
        → contains t made ≡ (false || contains t (tool ∷ tools))
        → contains t (if b then made else tools_of i [])
          ≡ (contains t (tools_of i []) || (b && contains t (tool ∷ tools)))
    first true made e =
        e ∙ ap (λ l. contains t l || contains t (tool ∷ tools)) (sym (tools_of-nil i))
    first false made e = or_false (contains t (tools_of i []))
tools_of-add_tools i k t (tool ∷ tools) ((a, bucket) ∷ extra) = elim (Bool-cases (a == k)) [
  | inl same ↦
      let e : (a == i) ≡ (k == i) = ap (λ z. z == i) ((str_eq_iff a k).0 same) in
      rw same (
        ap (contains t) (tools_of-cons i a (append_new (tool ∷ tools) bucket) extra)
        ∙ (own (a == i) (k == i) e (append_new (tool ∷ tools) bucket)
              (append_new-contains t (tool ∷ tools) bucket)
            ∙ ap (λ l. contains t l || ((k == i) && contains t (tool ∷ tools)))
                (sym (tools_of-cons i a bucket extra))))
  | inr other ↦ rw other (
      ap (contains t) (tools_of-cons i a bucket (add_tools k (tool ∷ tools) extra))
      ∙ (later (a == i) (k == i)
            (λ here there.
              ground (arith, other, str_eq_iff a i, str_eq_iff k i, str_eq_iff a k, here, there))
            (tools_of-add_tools i k t (tool ∷ tools) extra)
          ∙ ap (λ l. contains t l || ((k == i) && contains t (tool ∷ tools)))
              (sym (tools_of-cons i a bucket extra))))
]
  where
    own :
        (b c : Bool)
        → b ≡ c
        → (made : List String) → contains t made ≡ (contains t bucket || contains t (tool ∷ tools))
        → contains t (if b then made else tools_of i extra) ≡ (
            contains t (if b then bucket else tools_of i extra) || (c && contains t (tool ∷ tools)))
    own true true e made h = h
    own false false e made h = or_false (contains t (tools_of i extra))
    own true false e made h = cc
    own false true e made h = cc

    later :
        (b c : Bool)
        → (b ≡ true → c ≡ true → ⊥)
        → contains t (tools_of i (add_tools k (tool ∷ tools) extra))
          ≡ (contains t (tools_of i extra) || (c && contains t (tool ∷ tools)))
        → contains t (if b then bucket else tools_of i (add_tools k (tool ∷ tools) extra)) ≡ (
            contains t (if b then bucket else tools_of i extra) || (c && contains t (tool ∷ tools)))
    later true true never h = absurd (never refl refl)
    later true false never h = or_false (contains t bucket)
    later false c never h = h

or_cases : (a b : Bool) → (a || b) ≡ true → (a ≡ true) ⊎ (b ≡ true)
or_cases true b e = inl refl
or_cases false b e = inr e

or_and : (a b c : Bool) → (a || (b && c)) ≡ true → (a ≡ true) ⊎ ((b ≡ true) × (c ≡ true))
or_and true b c e = inl refl
or_and false true c e = inr (refl, e)
or_and false false c e = cc

or_last : (a : Bool) {b : Bool} → b ≡ true → (a || b) ≡ true
or_last true e = refl
or_last false e = e

or_right : (a : Bool) {b c : Bool} → b ≡ true → c ≡ true → (a || (b && c)) ≡ true
or_right a e f = rw (e, f) (or_last a refl)

no_tools : (i t : String) → contains t (tools_of i []) ≡ true → ⊥
unfolding tools_of lookup contains
no_tools i t h = cc

attach_nodes-tools :
    (i t : String) (nodes : List AgentNode) (a : Attachments)
    → (contains t (tools_of i (attach_nodes nodes a).extra_tools) ≡ true) ↔ (
        (contains t (tools_of i a.extra_tools) ≡ true)
        ⊎ ((n : AgentNode) × In n nodes × (n.agent_id ≡ i) × (contains t n.tools ≡ true)))
unfolding attach_nodes attach_node
attach_nodes-tools i t [] a = (λ h. inl h, λ h. elim h [ inl e ↦ e | inr n ↦ absurd n.1 ])
attach_nodes-tools i t (n ∷ nodes) a =
    let rest = attach_nodes-tools i t nodes (attach_node n a) in
    let step = tools_of-add_tools i n.agent_id t n.tools a.extra_tools in
    (
      λ h. elim (rest.0 h) [
        | inl now ↦
            elim (or_and (contains t (tools_of i a.extra_tools)) (n.agent_id == i)
              (contains t n.tools) (sym step ∙ now)) [
                | inl before ↦ inl before
                | inr (own, there) ↦ inr (n, inl refl, (str_eq_iff n.agent_id i).0 own, there)
              ]
        | inr (m, within, own, there) ↦ inr (m, inr within, own, there)
      ],
      λ h. elim h [
        | inl before ↦ rest.1 (inl (step ∙ rw before refl))
        | inr (m, inl same, own, there) ↦
            let own' : (n.agent_id == i) ≡ true =
              (str_eq_iff n.agent_id i).1 (ap (λ x. x.agent_id) (sym same) ∙ own) in
            let there' : contains t n.tools ≡ true =
              ap (λ x. contains t x.tools) (sym same) ∙ there in
            rest.1 (inl (step ∙ or_right (contains t (tools_of i a.extra_tools)) own' there'))
        | inr (m, inr within, own, there) ↦ rest.1 (inr (m, within, own, there))
      ],
    )

module _ {Agent Task : Type 0} (create_agent : AgentArguments → Agent) (p : Platform Agent Task)
    (w : CrewWorkflow) (r : Request) where
  config_tools-contains :
      (i t : String) (config : Option AgentConfig)
      → lookup i r.agent_configs ≡ config
      → (contains t (config_tools config) ≡ true)
        ↔ ((c : AgentConfig) × (lookup i r.agent_configs ≡ some c) × (contains t c.tools ≡ true))
  unfolding config_tools contains
  config_tools-contains i t none e = (λ h. cc, λ h. (let both = sym e ∙ h.1 in cc))
  config_tools-contains i t (some c) e = (
    λ h. (c, e, h),
    λ h.
        (let both : some c ≡ some h.0 = sym e ∙ h.1 in
          let same : c ≡ h.0 = cc in ap (λ x. contains t x.tools) same ∙ h.2),
  )

  -- The tools that a manager is checked for are those of its configuration and of its nodes.
  pub manager_tool_ids-HasTool :
      (order : List AgentNode) (m : AgentNode) (t : String)
      → (contains t (manager_tool_ids create_agent p w r order m) ≡ true)
        ↔ HasTool r.agent_configs order m.agent_id t
  unfolding manager_tool_ids HasTool node_attachments
  manager_tool_ids-HasTool order m t =
      let config = lookup m.agent_id r.agent_configs in
      let extra = tools_of m.agent_id (node_attachments order).extra_tools in
      let split = contains-append t (config_tools config) extra in
      let first = config_tools-contains m.agent_id t config refl in
      let nodes = attach_nodes-tools m.agent_id t order no_attachments in
      (
        λ h. elim (or_cases (contains t (config_tools config)) (contains t extra) (sym split ∙ h)) [
          | inl own ↦ inl (first.0 own)
          | inr more ↦ elim (nodes.0 more) [
            | inl never ↦ absurd (no_tools m.agent_id t never)
            | inr node ↦ inr node
          ]
        ],
        λ h. elim h [
          | inl own ↦ split ∙ rw (first.1 own) refl
          | inr node ↦ split ∙ or_last (contains t (config_tools config)) (nodes.1 (inr node))
        ],
      )
