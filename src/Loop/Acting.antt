-- ===== src/Loop/Acting.antt =====
-- praxis/agents/loop.py: `_act` and its three kinds of action.
use praxis_ai_agent_platform.Common.{
  ℕ, String, true, false, not, Option, none, some, List, [], ◌∷◌, ◌++◌, if◌then◌else◌, ◌==◌, nat_eq,
  string_eq, filter, contains, find_first, Json, null, string, object, no_fields, truthy, Dict,
  lookup, Result, ok, err,
}
use praxis_ai_agent_platform.Contract.{TaskContract, ChildRequest, child_of, authorizes}
use praxis_ai_agent_platform.Budget.{Budget, Ledger, BudgetExhaustedError}
use praxis_ai_agent_platform.Budget
use praxis_ai_agent_platform.Delegation.{DelegationRegistry, DelegationLimitError, register_child}
use praxis_ai_agent_platform.Loop.{
  ActionKind, Action, Message, unauthorized, unauthorized_in_chain, no_skill, no_chain, no_agent,
  no_objective, limit, raised_by, reported, Observation, Failure, budget, other, interrupted, Halt,
  exhausted_by, cut_off, AgentReply, Turn, Agent, Conversions, AgentLoop, Call, tool_call,
  chain_call, agent_call, Surroundings,
}

-- `Observation(succeeded=False, error=...)` and `Observation(succeeded=True, content=...)`
abbrev pub failing : Message → Observation
failing m = record { succeeded = false; content = null; error = some m }

abbrev pub succeeding : Json → Observation
succeeding content = record { succeeded = true; content = content; error = none }

-- An observation, or what `_act` lets through, and what has changed.
pub record Acted : Type 0 where
  pub reply : Result Halt Observation
  pub around : Surroundings

-- `except BudgetExhaustedError: raise` before `except Exception`, which no `CancelledError` is
abbrev pub settle : {A : Type 0} → (A → Observation) → Result Failure A → Result Halt Observation
settle observe (ok a) = ok (observe a)
settle observe (err (budget e)) = err (exhausted_by e)
settle observe (err interrupted) = err cut_off
settle observe (err (other error_type error)) = ok (failing (raised_by error_type error))

abbrev pub log : Call → Surroundings → Surroundings
log call around = record around { calls = around.calls ++ call ∷ [] }

abbrev pub refuse : Message → Surroundings → Acted
refuse m around = record { reply = ok (failing m); around = around }

module _ (py : Conversions) (loop : AgentLoop) (contract : TaskContract) where
  -- `_act_skill`
  unfoldable pub act_skill : Turn → Action → Surroundings → Acted
  unfolding authorizes
  act_skill turn action around =
      if not (authorizes contract action.target)
      then refuse (unauthorized action.target) around
      else if not (contains loop.skills action.target)
      then refuse (no_skill action.target) around
      else record {
        reply = settle succeeding turn.tool_reply;
        around = log (tool_call action.target) around;
      }

  -- the first link whose tool the contract does not authorize
  abbrev pub forbidden : List String → Option String
  forbidden tools = find_first (λ tool. not (authorizes contract tool)) tools

  abbrev pub run_chain : Turn → String → List String → Option String → Surroundings → Acted
  run_chain turn name tools (some tool) around = refuse (unauthorized_in_chain name tool) around
  run_chain turn name tools none around = record {
    reply = settle succeeding turn.tool_reply;
    around = log (chain_call tools) around;
  }

  abbrev pub act_found_chain : Turn → String → Option (List String) → Surroundings → Acted
  act_found_chain turn name none around = refuse (no_chain name) around
  act_found_chain turn name (some tools) around = run_chain turn name tools (forbidden tools) around

  -- `_act_chain`
  unfoldable pub act_chain : Turn → Action → Surroundings → Acted
  unfolding authorizes lookup
  act_chain turn action around =
      act_found_chain turn action.target (lookup action.target loop.chains) around

  -- `value or default`
  abbrev pub or_default : Option Json → Json → Json
  or_default none default = default
  or_default (some v) default = if truthy v then v else default

  -- `str(action.args.get("objective") or "").strip()`
  unfoldable pub objective_of : Action → String
  unfolding lookup
  objective_of action = py.strip (py.str (or_default (lookup "objective" action.args) (string "")))

  -- `tuple(agent.manifest.tools) or None`
  abbrev pub tools_or_none : List String → Option (List String)
  tools_or_none [] = none
  tools_or_none (t ∷ ts) = some (t ∷ ts)

  unfoldable pub request_for : Agent → String → Dict String Json → ChildRequest
  request_for agent objective inputs = record {
    objective = objective;
    tools = tools_or_none agent.tools;
    inputs = some inputs;
    output_schema = none;
    acceptance_criteria = none;
    budget = none;
  }

  -- `"; ".join(result.errors)`, which is empty for no error and for one empty error
  abbrev pub joined : List String → Option Message
  joined [] = none
  joined (e ∷ []) = if e == "" then none else some (reported (e ∷ []))
  joined (e ∷ e' ∷ es) = some (reported (e ∷ e' ∷ es))

  abbrev pub observe_agent : AgentReply → Observation
  observe_agent r = record { succeeded = r.succeeded; content = r.content; error = joined r.errors }

  -- `tracker.child(...)`, then the agent with the tools that the child's contract authorizes
  abbrev pub execute :
      Turn
      → TaskContract
      → DelegationRegistry
      → Result BudgetExhaustedError Ledger
      → Surroundings
      → Acted
  execute turn child registry (err e) around = record {
    reply = err (exhausted_by e);
    around = record around { delegation = registry };
  }
  execute turn child registry (ok ledger) around = record {
    reply = settle observe_agent turn.agent_reply;
    around = record {
      delegation = registry;
      ledger = ledger;
      calls =
          around.calls
          ++ agent_call child (filter (λ name. authorizes child name) loop.skills) ∷ [];
    };
  }

  abbrev pub admit_child :
      Turn
      → Agent
      → ℕ
      → TaskContract
      → Result DelegationLimitError DelegationRegistry
      → Surroundings
      → Acted
  admit_child turn agent tracker child (err e) around = refuse (limit e) around
  admit_child turn agent tracker child (ok registry) around =
      execute turn child registry (Budget.child turn.now agent.default_budget around.ledger tracker)
        around

  -- `dict(action.args.get("inputs") or {})` raises for what is no mapping
  abbrev pub delegate_with :
      Turn → Agent → ℕ → String → Result (String × String) (Dict String Json) → Surroundings → Acted
  delegate_with turn agent tracker objective (err (error_type, error)) around =
      refuse (raised_by error_type error) around
  delegate_with turn agent tracker objective (ok inputs) around =
      let child = child_of turn.child_id contract (request_for agent objective inputs) in
      admit_child turn agent tracker child
        (register_child py.objective_digest around.delegation child) around

  abbrev pub act_found_agent : Turn → Action → ℕ → Option Agent → Surroundings → Acted
  act_found_agent turn action tracker none around = refuse (no_agent action.target) around
  act_found_agent turn action tracker (some agent) around =
      let objective = objective_of action in
      if objective == ""
      then refuse (no_objective action.target) around
      else delegate_with turn agent tracker objective
          (py.dict (or_default (lookup "inputs" action.args) (object no_fields))) around

  -- `_act_delegate`
  unfoldable pub act_delegate : Turn → Action → ℕ → Surroundings → Acted
  unfolding objective_of request_for child_of register_child Budget.child authorizes lookup
  act_delegate turn action tracker around =
      act_found_agent turn action tracker (lookup action.target loop.agents) around

  -- `_act`; a finishing action never gets here
  unfoldable pub act : ActionKind → Turn → Action → ℕ → Surroundings → Acted
  unfolding act_skill act_chain act_delegate
  act ActionKind.skill turn action tracker around = act_skill turn action around
  act ActionKind.chain turn action tracker around = act_chain turn action around
  act ActionKind.delegate turn action tracker around = act_delegate turn action tracker around
  act ActionKind.finish turn action tracker around =
      refuse (raised_by "unsupported action kind" "finish") around
