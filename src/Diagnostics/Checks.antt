-- ===== src/Diagnostics/Checks.antt =====
-- src/api/workflow_diagnostics.py: when the checks of an agent have no finding of severity error.
use delaxis.Prelude.{
  String, ◌==◌, Bool, true, false, Option, none, some, List, [], ◌∷◌, lookup, All, ◌≡◌, refl, sym,
  subst, ◌∙◌, arith, Bool-cases, Option-cases, inl, inr, ◌⊎◌, ◌↔◌, str_eq_iff,
}
use delaxis.Validation.{Node}
use delaxis.Diagnostics.{
  severity, Llm, Agent, Provider, Tool, Import, loaded, lacks_attribute, fails, Host, llm_of,
  needs_key, check_provider, check_agent_model, import_findings, check_entrypoint,
  check_tool_entrypoint, check_tool, check_tools, check_agent, check_agents, Configured,
}
use delaxis.Diagnostics.Findings.{clean, clean-append_iff, is_error}

module _ (host : Host) (probe : Bool) where
  -- The agent names no provider, or one that is configured, enabled and has its key if it needs one.
  abbrev pub Modelled : List (String × Provider) → Llm → Type 0
  Modelled providers llm =
      (llm.provider_id ≡ "")
      ⊎ ((p : Provider) × (lookup llm.provider_id providers ≡ some p)
          × (p.enabled ≡ true)
          × ((needs_key p ≡ false) ⊎ (host.has_key llm.provider_id ≡ true)))

  -- The tool has no entry point, or one whose module is found and, if that is probed, has the attribute.
  abbrev pub Importable : Option (String × String) → Type 0
  Importable none = Unit
  Importable (some (path, attribute)) =
      (host.has_spec path ≡ true) × ((probe ≡ false) ⊎ (host.import_module path attribute ≡ loaded))

  abbrev pub Usable : List (String × Tool) → String → Type 0
  Usable tools tool_id =
      (t : Tool) × (lookup tool_id tools ≡ some t) × (t.enabled ≡ true) × Importable t.entrypoint

  clean-check_provider :
      (agent_id : String) (llm : Llm) (node_id : String) (p : Provider)
      → (clean (check_provider host agent_id llm node_id (some p)) ≡ true)
        ↔ ((p.enabled ≡ true) × ((needs_key p ≡ false) ⊎ (host.has_key llm.provider_id ≡ true)))
  unfolding clean check_provider severity is_error
  clean-check_provider agent_id llm node_id p = ground arith

  -- Names a provider that is not configured.
  not-Modelled :
      (providers : List (String × Provider)) (llm : Llm)
      → (llm.provider_id == "") ≡ false
      → lookup llm.provider_id providers ≡ none
      → ¬ Modelled providers llm
  not-Modelled providers llm set missing (inl unset) =
      absurd (ground (arith, set, (str_eq_iff llm.provider_id "").1 unset))
  not-Modelled providers llm set missing (inr (p, found, ok, key)) =
      absurd (let both = sym missing ∙ found in cc)

  found-Modelled :
      (providers : List (String × Provider)) (llm : Llm) (p : Provider)
      → (llm.provider_id == "") ≡ false
      → lookup llm.provider_id providers ≡ some p
      → Modelled providers llm
      → (p.enabled ≡ true) × ((needs_key p ≡ false) ⊎ (host.has_key llm.provider_id ≡ true))
  found-Modelled providers llm p set found (inl unset) =
      absurd (ground (arith, set, (str_eq_iff llm.provider_id "").1 unset))
  found-Modelled providers llm p set found (inr (q, at, ok, key)) =
      let same : q ≡ p = (let both : some q ≡ some p = sym at ∙ found in cc) in
      subst
        (λ x. (x.enabled ≡ true) × ((needs_key x ≡ false) ⊎ (host.has_key llm.provider_id ≡ true)))
        same (ok, key)

  clean-check_agent_model :
      (agent_id : String) (llm : Llm) (providers : List (String × Provider)) (node_id : String)
      → (clean (check_agent_model host agent_id llm providers node_id) ≡ true)
        ↔ Modelled providers llm
  unfolding check_agent_model check_provider clean severity is_error
  clean-check_agent_model agent_id llm providers node_id =
      elim (Bool-cases (llm.provider_id == "")) [
        | inl unset ↦ rw unset ((λ h. inl ((str_eq_iff llm.provider_id "").0 unset)), (λ h. refl))
        | inr set ↦ elim (Option-cases (lookup llm.provider_id providers)) [
          | inl missing ↦ (
            (λ h. absurd (let h' = (rw (set, missing) at h) in cc)),
            (λ h. absurd (not-Modelled providers llm set missing h)),
          )
          | inr (p, found) ↦
              let at = clean-check_provider agent_id llm node_id p in
              (
                λ h. let (on, key) = at.0 (rw (set, found) at h) in inr (p, found, on, key),
                λ h. rw (set, found) (at.1 (found-Modelled providers llm p set found h)),
              )
        ]
      ]

  clean-import_findings :
      (i : Import) (tool_id path : String)
      → (clean (import_findings i tool_id path) ≡ true) ↔ (i ≡ loaded)
  unfolding clean import_findings severity is_error
  clean-import_findings loaded tool_id path = ground arith
  clean-import_findings lacks_attribute tool_id path = ground arith
  clean-import_findings fails tool_id path = ground arith

  clean-check_entrypoint :
      (tool_id : String) (entrypoint : Option (String × String))
      → (clean (check_entrypoint host probe tool_id entrypoint) ≡ true) ↔ Importable entrypoint
  unfolding clean check_entrypoint severity is_error
  clean-check_entrypoint tool_id none = ground arith
  clean-check_entrypoint tool_id (some (path, attribute)) =
      ground (arith, clean-import_findings (host.import_module path attribute) tool_id path)

  clean-check_tool :
      (agent_id node_id tool_id : String) (t : Tool)
      → (clean (check_tool host probe agent_id node_id tool_id (some t)) ≡ true)
        ↔ ((t.enabled ≡ true) × Importable t.entrypoint)
  unfolding clean check_tool check_tool_entrypoint severity is_error
  clean-check_tool agent_id node_id tool_id t = elim (Bool-cases t.enabled) [
    | inl on ↦ rw on (
      (λ h. (refl, (clean-check_entrypoint _ t.entrypoint).0 h)),
      (λ h. (clean-check_entrypoint _ t.entrypoint).1 h.1),
    )
    | inr off ↦ rw off ((λ h. absurd (cc)), (λ h. absurd (let bad = h.0 in cc)))
  ]

  clean-one_tool :
      (agent_id node_id tool_id : String) (tools : List (String × Tool)) (t : Option Tool)
      → lookup tool_id tools ≡ t
      → (clean (check_tool host probe agent_id node_id tool_id t) ≡ true) ↔ Usable tools tool_id
  unfolding clean check_tool severity is_error
  clean-one_tool agent_id node_id tool_id tools none e =
      ((λ h. absurd (cc)), (λ h. absurd (let both = sym e ∙ h.1 in cc)))
  clean-one_tool agent_id node_id tool_id tools (some t) e = (
    λ h. let (on, found) = (clean-check_tool agent_id node_id tool_id t).0 h in (t, e, on, found),
    λ h. (clean-check_tool agent_id node_id tool_id t).1 (
        let same : h.0 ≡ t = (let both : some h.0 ≡ some t = sym h.1 ∙ e in cc) in
        subst (λ x. (x.enabled ≡ true) × Importable x.entrypoint) same (h.2, h.3)),
  )

  clean-check_tools :
      (agent_id : String) (tool_ids : List String) (tools : List (String × Tool)) (node_id : String)
      → (clean (check_tools host probe agent_id tool_ids tools node_id) ≡ true)
        ↔ All (Usable tools) tool_ids
  unfolding clean check_tools
  clean-check_tools agent_id [] tools node_id = ((λ h. tt), (λ h. refl))
  clean-check_tools agent_id (tool_id ∷ tool_ids) tools node_id =
      let one = clean-one_tool agent_id node_id tool_id tools (lookup tool_id tools) refl in
      let rest = clean-check_tools agent_id tool_ids tools node_id in
      let both =
        clean-append_iff (check_tool host probe agent_id node_id tool_id (lookup tool_id tools))
          (check_tools host probe agent_id tool_ids tools node_id) in
      (λ h. let (a, b) = both.0 h in (one.0 a, rest.0 b), λ h. both.1 ((one.1 h.0), (rest.1 h.1)))

  -- What is asked of the agent of a node, if it is configured.
  abbrev pub Served : Configured → Option Agent → Type 0
  Served c none = Unit
  Served c (some a) = Modelled c.providers (llm_of a) × All (Usable c.tools) a.tools

  clean-check_agent :
      (c : Configured) (n : Node) (a : Option Agent)
      → (clean (check_agent host probe c.providers c.tools n a) ≡ true) ↔ Served c a
  unfolding clean check_agent
  clean-check_agent c n none = ((λ h. tt), (λ h. refl))
  clean-check_agent c n (some a) =
      let model = clean-check_agent_model n.agent_id (llm_of a) c.providers n.id in
      let tools = clean-check_tools n.agent_id a.tools c.tools n.id in
      let both =
        clean-append_iff (check_agent_model host n.agent_id (llm_of a) c.providers n.id)
          (check_tools host probe n.agent_id a.tools c.tools n.id) in
      (
        λ h. let (x, y) = both.0 h in (model.0 x, tools.0 y),
        λ h. both.1 ((model.1 h.0), (tools.1 h.1)),
      )

  pub clean-check_agents :
      (c : Configured) (nodes : List Node)
      → (clean (check_agents host probe c.agents c.providers c.tools nodes) ≡ true)
        ↔ All (λ n. Served c (lookup n.agent_id c.agents)) nodes
  unfolding clean check_agents
  clean-check_agents c [] = ((λ h. tt), (λ h. refl))
  clean-check_agents c (n ∷ nodes) =
      let one = clean-check_agent c n (lookup n.agent_id c.agents) in
      let rest = clean-check_agents c nodes in
      let both =
        clean-append_iff (check_agent host probe c.providers c.tools n (lookup n.agent_id c.agents))
          (check_agents host probe c.agents c.providers c.tools nodes) in
      (λ h. let (x, y) = both.0 h in (one.0 x, rest.0 y), λ h. both.1 ((one.1 h.0), (rest.1 h.1)))
