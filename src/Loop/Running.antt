-- ===== src/Loop/Running.antt =====
-- praxis/agents/loop.py: `_step`, `_route` and `run`.
use praxis_ai_agent_platform.Common.{
  ℕ, zero, suc, ◌+◌, String, Bool, true, false, Option, none, some, List, [], ◌∷◌, ◌++◌, leb,
  if◌then◌else◌, nat_eq, string_eq, pair_eq, is_some, length, count, ℤ, Json, truthy, lookup,
  Result, ok, err,
}
use mathlib.Core.Option
use praxis_ai_agent_platform.Contract.{TaskContract, is_expired}
use praxis_ai_agent_platform.Budget.{BudgetExhaustedError, check_deadline}
use praxis_ai_agent_platform.Delegation.{register_root}
use praxis_ai_agent_platform.Loop.{
  StopReason, ActionKind, Action, Message, exhausted, policy_failed, Observation, Iteration,
  Failure, budget, other, interrupted, Halt, exhausted_by, cut_off, Escape, misquoted,
  was_interrupted, Turn, Conversions, AgentLoop, Surroundings,
}
use praxis_ai_agent_platform.Loop.Acting.{Acted, act}

-- `_LoopState`, whose lists LangGraph extends by what a step returns for them.
pub record LoopState : Type 0 where
  pub iterations : List Iteration
  pub errors : List Message
  pub fingerprints : List (String × String)
  pub answer : Option Json
  pub evidence : List ℤ
  pub stop_reason : Option StopReason

abbrev pub initial : LoopState
initial = record {
  iterations = [];
  errors = [];
  fingerprints = [];
  answer = none;
  evidence = [];
  stop_reason = none;
}

abbrev pub stop_with : StopReason → List Message → LoopState → LoopState
stop_with reason errors s = record s { stop_reason = some reason; errors = s.errors ++ errors }

-- What a step leaves, or an exception that it lets escape.
pub data Stepped : Type 0 where
  stepped : LoopState → Surroundings → Stepped
  escaped : Escape → Surroundings → Stepped

-- `[int(i) for i in cited if str(i).lstrip("-").isdigit()]`, where `int` may raise
unfoldable pub citations : Conversions → List Json → Option (List ℤ)
citations py [] = some []
citations py (i ∷ cited) =
    let rest = citations py cited in
    if py.isdigit (py.lstrip_dashes (py.str i))
    then elim (py.int i) [ none ↦ none | some n ↦ Option.map (λ ns. n ∷ ns) rest ]
    else rest

-- `action.args.get("evidence") or []`
abbrev pub cited_of : Conversions → Option Json → Option (List Json)
cited_of py none = some []
cited_of py (some v) = if truthy v then py.iterate v else some []

abbrev pub cite : Conversions → Option (List Json) → Option (List ℤ)
cite py none = none
cite py (some cited) = citations py cited

abbrev pub finish_with : Action → Option (List ℤ) → LoopState → Surroundings → Stepped
finish_with action none s around = escaped misquoted around
finish_with action (some evidence) s around =
    stepped
      (record s {
        stop_reason = some StopReason.goal_reached;
        answer = lookup "answer" action.args;
        evidence = evidence;
      })
      around

-- `if not observation.succeeded and observation.error`
abbrev pub errors_of : Observation → List Message
errors_of o = if o.succeeded then [] else elim o.error [ none ↦ [] | some m ↦ m ∷ [] ]

abbrev pub observe :
    Conversions → Action → Result Halt Observation → Surroundings → LoopState → Stepped
observe py action (err cut_off) around s = escaped was_interrupted around
observe py action (err (exhausted_by e)) around s =
    stepped (stop_with StopReason.budget_exhausted (exhausted e ∷ []) s) around
observe py action (ok observation) around s =
    stepped
      (record s {
        iterations =
            s.iterations
            ++ record { index = length s.iterations; action = action; observation = observation }
              ∷ [];
        fingerprints =
            s.fingerprints ++ (py.action_digest action, py.observation_digest observation) ∷ [];
        errors = s.errors ++ errors_of observation;
      })
      around

abbrev pub observed : Conversions → Action → Acted → LoopState → Stepped
observed py action acted s = observe py action acted.reply acted.around s

-- Where `_route` goes; a stall is noted on the loop.
pub data Next : Type 0 where
  again finished stalled : Next

abbrev pub last_of : List (String × String) → Option (String × String)
last_of [] = none
last_of (f ∷ []) = some f
last_of (f ∷ f' ∷ fs) = last_of (f' ∷ fs)

-- How a run of the graph ends: by an exception, at the recursion limit, or with a state.
pub data Ended : Type 0 where
  exception : Escape → Surroundings → Ended
  recursion_limit : Surroundings → Ended
  with_state : (is_stalled : Bool) → LoopState → Surroundings → Ended

pub record LoopResult : Type 0 where
  pub stop_reason : StopReason
  pub iterations : List Iteration
  pub answer : Option Json
  pub evidence : List ℤ
  pub errors : List Message

-- `_resolve_stop_reason`
abbrev pub resolve_stop_reason : Bool → Option StopReason → StopReason
resolve_stop_reason true raw = StopReason.stalled
resolve_stop_reason false (some reason) = reason
resolve_stop_reason false none = StopReason.max_iterations

-- `_result`, or the exception that escapes
abbrev pub result_of : Ended → Result Escape LoopResult × Surroundings
result_of (exception e around) = (err e, around)
result_of (recursion_limit around) = (
  ok record {
    stop_reason = StopReason.max_iterations;
    iterations = [];
    answer = none;
    evidence = [];
    errors = [];
  },
  around,
)
result_of (with_state is_stalled s around) = (
  ok record {
    stop_reason = resolve_stop_reason is_stalled s.stop_reason;
    iterations = s.iterations;
    answer = s.answer;
    evidence = s.evidence;
    errors = s.errors;
  },
  around,
)

module _ (loop : AgentLoop) where
  -- `fingerprints.count(latest) >= self._stall_threshold`
  abbrev pub repeats : List (String × String) → Option (String × String) → Bool
  repeats fingerprints none = false
  repeats fingerprints (some latest) = leb loop.stall_threshold (count latest fingerprints)

  -- `_route`
  unfoldable pub route : LoopState → Next
  route s =
      if is_some s.stop_reason
      then finished
      else if repeats s.fingerprints (last_of s.fingerprints)
      then stalled
      else if leb loop.max_iterations (length s.iterations)
      then finished
      else again

module _ (py : Conversions) (loop : AgentLoop) (contract : TaskContract) (tracker : ℕ) where
  abbrev pub take_action : ActionKind → Turn → Action → LoopState → Surroundings → Stepped
  take_action ActionKind.finish turn action s around =
      finish_with action (cite py (cited_of py (lookup "evidence" action.args))) s around
  take_action ActionKind.skill turn action s around =
      observed py action (act py loop contract ActionKind.skill turn action tracker around) s
  take_action ActionKind.chain turn action s around =
      observed py action (act py loop contract ActionKind.chain turn action tracker around) s
  take_action ActionKind.delegate turn action s around =
      observed py action (act py loop contract ActionKind.delegate turn action tracker around) s

  abbrev pub decided : Turn → Result Failure Action → LoopState → Surroundings → Stepped
  decided turn (err (budget e)) s around =
      stepped (stop_with StopReason.budget_exhausted (exhausted e ∷ []) s) around
  decided turn (err interrupted) s around = escaped was_interrupted around
  decided turn (err (other error_type error)) s around =
      stepped (stop_with StopReason.failed (policy_failed error ∷ []) s) around
  decided turn (ok action) s around = take_action action.kind turn action s around

  abbrev pub within_deadline :
      Turn → Result BudgetExhaustedError (Unit {0}) → LoopState → Surroundings → Stepped
  within_deadline turn (err e) s around =
      stepped (stop_with StopReason.budget_exhausted (exhausted e ∷ []) s) around
  within_deadline turn (ok tt) s around = decided turn (turn.decide s.iterations) s around

  -- `_step`
  unfoldable pub step : Turn → LoopState → Surroundings → Stepped
  unfolding act citations is_expired check_deadline lookup
  step turn s around =
      if turn.is_cancelled
      then stepped (stop_with StopReason.cancelled [] s) around
      else if is_expired turn.now contract
      then stepped (stop_with StopReason.deadline_exceeded [] s) around
      else within_deadline turn (check_deadline turn.now around.ledger tracker) s around

  -- the edges out of the step, given what runs on
  abbrev pub go_to : (LoopState → Surroundings → Ended) → Next → LoopState → Surroundings → Ended
  go_to further again s around = further s around
  go_to further finished s around = with_state false s around
  go_to further stalled s around = with_state true s around

  abbrev pub after_step : (LoopState → Surroundings → Ended) → Stepped → Ended
  after_step further (escaped e around) = exception e around
  after_step further (stepped s around) = go_to further (route loop s) s around

  -- `self._graph.ainvoke`, with the steps left to the limit and the turns that are still to come
  unfoldable pub invoke : ℕ → (ℕ → Turn) → ℕ → LoopState → Surroundings → Ended
  unfolding step route
  invoke zero turns k s around = recursion_limit around
  invoke (suc fuel) turns k s around =
      after_step (λ s' around'. invoke fuel turns (suc k) s' around') (step (turns k) s around)

  -- `run`
  unfoldable pub run : (ℕ → Turn) → Surroundings → Result Escape LoopResult × Surroundings
  unfolding invoke register_root
  run turns around =
      let rooted = record around {
        delegation = register_root py.objective_digest contract around.delegation;
      } in
      result_of (invoke (loop.max_iterations + 2) turns 0 initial rooted)
