-- ===== src/Loop/Grants.antt =====
-- What the loop calls, its contract grants.
use praxis_ai_agent_platform.Common.{
  ℕ, ◌+◌, ◌≤◌, String, ◌≡◌, refl, sym, ap, ◌∙◌, inl, inr, Bool, true, false, not, Option, none,
  some, List, [], ◌∷◌, arith, ◌==◌, nat_eq, string_eq, Bool-cases, filter, contains, All,
  All-append, All-filter, All-map, find_first-none, Json, Dict, Result, ok, err, >>=-eq-ok,
  ok_injective,
}
use mathlib.Core.Path.{subst}
use praxis_ai_agent_platform.Contract.{TaskContract, child_of, authorizes, non_empty}
use praxis_ai_agent_platform.Contract.Laws.{child_tools_narrow}
use praxis_ai_agent_platform.Budget.{BudgetExhaustedError, Ledger}
use praxis_ai_agent_platform.Delegation.{
  DelegationRegistry, DelegationLimits, DelegationLimitError, authorize_delegation, register_child,
}
use praxis_ai_agent_platform.Delegation.Limits.{authorize_delegation_iff}
use praxis_ai_agent_platform.Loop.{
  ActionKind, Action, Turn, Agent, Conversions, AgentLoop, Call, tool_call, chain_call, agent_call,
  Surroundings,
}
use praxis_ai_agent_platform.Loop.Acting.{
  log, forbidden, run_chain, act_found_chain, act_skill, act_chain, objective_of, request_for,
  execute, admit_child, delegate_with, act_found_agent, act_delegate, act,
}

register_child-limits :
    (fp : String → String) (r r' : DelegationRegistry) (child : TaskContract)
    → register_child fp r child ≡ ok r'
    → (r'.limits ≡ r.limits) × (child.depth ≤ r.limits.max_depth)
unfolding register_child
register_child-limits fp r r' child done =
    let (u, allowed, made) = >>=-eq-ok (authorize_delegation fp r child) _ done in
    (
      ap (λ (v : DelegationRegistry). v.limits) (sym (ok_injective made)),
      ((authorize_delegation_iff fp r child).0 allowed).0,
    )

-- What the contract grants: a skill that it authorizes and the loop has; a chain of tools that it all
-- authorizes; and an agent under a contract made of this one, in the same tenant, with the same
-- deadline, one deeper and within the limit, handed only tools that its own contract authorizes,
-- which are then tools that this one does, unless that contract is left with none.
pub data IsGranted (loop : AgentLoop) (contract : TaskContract) (limits : DelegationLimits)
    : Call → Type 0 where
  by_name :
      {tool : String}
      → authorizes contract tool ≡ true
      → contains loop.skills tool ≡ true
      → IsGranted loop contract limits (tool_call tool)
  by_links :
      {tools : List String}
      → All (λ tool. authorizes contract tool ≡ true) tools
      → IsGranted loop contract limits (chain_call tools)
  by_child :
      {child : TaskContract} {tools : List String}
      → child.tenant_id ≡ contract.tenant_id
      → child.deadline ≡ contract.deadline
      → child.depth ≡ contract.depth + 1
      → child.depth ≤ limits.max_depth
      → All (λ tool. authorizes child tool ≡ true) tools
      → (non_empty child.authorized_tools ≡ true
          → All (λ tool. authorizes contract tool ≡ true) tools)
      → IsGranted loop contract limits (agent_call child tools)

module _ (py : Conversions) (loop : AgentLoop) (contract : TaskContract)
    (limits : DelegationLimits) where
  -- The limits stand, and every call so far was granted.
  pub record IsLawful (around : Surroundings) : Type 0 where
    pub same : around.delegation.limits ≡ limits
    pub granted : All (IsGranted loop contract limits) around.calls

  log-IsLawful :
      (call : Call) (around : Surroundings)
      → IsGranted loop contract limits call
      → IsLawful around
      → IsLawful (log call around)
  log-IsLawful call around g h = record {
    same = h.same;
    granted =
        All-append (IsGranted loop contract limits) around.calls (call ∷ []) h.granted (g, tt);
  }

  act_skill-IsLawful :
      (turn : Turn) (action : Action) (around : Surroundings)
      → IsLawful around
      → IsLawful (act_skill py loop contract turn action around).around
  unfolding act_skill
  act_skill-IsLawful turn action around h = elim (Bool-cases (authorizes contract action.target)) [
    | inr denied ↦ rw denied h
    | inl may ↦ elim (Bool-cases (contains loop.skills action.target)) [
      | inr unknown ↦ rw (may, unknown) h
      | inl known ↦
          rw (may, known) (log-IsLawful (tool_call action.target) around (by_name may known) h)
    ]
  ]

  not-false : (b : Bool) → not b ≡ false → b ≡ true
  not-false b h = ground arith

  run_chain-IsLawful :
      (turn : Turn) (name : String) (tools : List String) (o : Option String)
      (around : Surroundings)
      → forbidden py loop contract tools ≡ o
      → IsLawful around
      → IsLawful (run_chain py loop contract turn name tools o around).around
  run_chain-IsLawful turn name tools (some tool) around e h = h
  run_chain-IsLawful turn name tools none around e h =
      log-IsLawful (chain_call tools) around
        (by_links (
          All-map _ _ tools (λ tool. not-false (authorizes contract tool))
            (find_first-none (λ tool. not (authorizes contract tool)) tools e)))
        h

  act_found_chain-IsLawful :
      (turn : Turn) (name : String) (o : Option (List String)) (around : Surroundings)
      → IsLawful around
      → IsLawful (act_found_chain py loop contract turn name o around).around
  act_found_chain-IsLawful turn name none around h = h
  act_found_chain-IsLawful turn name (some tools) around h =
      run_chain-IsLawful turn name tools _ around refl h

  -- a child made of the contract, and registered
  module _ (turn : Turn) (agent : Agent) (objective : String) (inputs : Dict String Json) where
    abbrev new_task : TaskContract
    new_task = child_of turn.child_id contract (request_for py loop contract agent objective inputs)

    abbrev handed : List String
    handed = filter (λ name. authorizes new_task name) loop.skills

    child_granted :
        new_task.depth ≤ limits.max_depth
        → IsGranted loop contract limits (agent_call new_task handed)
    unfolding child_of
    child_granted shallow =
        let own = All-filter (λ name. authorizes new_task name) loop.skills in
        by_child refl refl refl shallow own (λ left.
          All-map _ _ handed
            (λ tool may.
              child_tools_narrow turn.child_id contract
                (request_for py loop contract agent objective inputs) tool left may)
            own)

    execute-IsLawful :
        (registry : DelegationRegistry) (reply : Result BudgetExhaustedError Ledger)
        (around : Surroundings)
        → registry.limits ≡ limits
        → new_task.depth ≤ limits.max_depth
        → IsLawful around
        → IsLawful (execute py loop contract turn new_task registry reply around).around
    execute-IsLawful registry (err e) around same shallow h = record {
      same = same;
      granted = h.granted;
    }
    execute-IsLawful registry (ok ledger) around same shallow h = record {
      same = same;
      granted =
          All-append (IsGranted loop contract limits) around.calls (agent_call new_task handed ∷ [])
            h.granted (child_granted shallow, tt);
    }

    admit_child-IsLawful :
        (tracker : ℕ) (reply : Result DelegationLimitError DelegationRegistry)
        (around : Surroundings)
        → register_child py.objective_digest around.delegation new_task ≡ reply
        → IsLawful around
        → IsLawful (admit_child py loop contract turn agent tracker new_task reply around).around
    admit_child-IsLawful tracker (err e) around made h = h
    admit_child-IsLawful tracker (ok registry) around made h =
        let (kept, shallow) =
          register_child-limits py.objective_digest around.delegation registry new_task made in
        execute-IsLawful registry _ around (kept ∙ h.same)
          (subst (λ (l : DelegationLimits). new_task.depth ≤ l.max_depth) h.same shallow) h

  delegate_with-IsLawful :
      (turn : Turn) (agent : Agent) (tracker : ℕ) (objective : String)
      (o : Result (String × String) (Dict String Json)) (around : Surroundings)
      → IsLawful around
      → IsLawful (delegate_with py loop contract turn agent tracker objective o around).around
  delegate_with-IsLawful turn agent tracker objective (err (error_type, error)) around h = h
  delegate_with-IsLawful turn agent tracker objective (ok inputs) around h =
      admit_child-IsLawful turn agent objective inputs tracker _ around refl h

  act_found_agent-IsLawful :
      (turn : Turn) (action : Action) (tracker : ℕ) (o : Option Agent) (around : Surroundings)
      → IsLawful around
      → IsLawful (act_found_agent py loop contract turn action tracker o around).around
  act_found_agent-IsLawful turn action tracker none around h = h
  act_found_agent-IsLawful turn action tracker (some agent) around h =
      let objective = objective_of py loop contract action in
      elim (Bool-cases (objective == "")) [
        | inl blank ↦ rw blank h
        | inr named ↦ rw named (delegate_with-IsLawful turn agent tracker objective _ around h)
      ]

  pub act-IsLawful :
      (kind : ActionKind) (turn : Turn) (action : Action) (tracker : ℕ) (around : Surroundings)
      → IsLawful around
      → IsLawful (act py loop contract kind turn action tracker around).around
  unfolding act act_chain act_delegate
  act-IsLawful ActionKind.skill turn action tracker around h =
      act_skill-IsLawful turn action around h
  act-IsLawful ActionKind.chain turn action tracker around h =
      act_found_chain-IsLawful turn action.target _ around h
  act-IsLawful ActionKind.delegate turn action tracker around h =
      act_found_agent-IsLawful turn action tracker _ around h
  act-IsLawful ActionKind.finish turn action tracker around h = h
