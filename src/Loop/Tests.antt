-- ===== src/Loop/Tests.antt =====
-- Runs of the loop by scripted policies, and its theorems at concrete inputs.
use praxis_ai_agent_platform.Common.{
  ℕ, String, ◌≡◌, refl, true, false, Option, none, some, List, [], ◌∷◌, if◌then◌else◌, ◌==◌, nat_eq,
  string_eq, length, All, modify, pos, Json, null, string, array, no_items, item, items, Dict,
  lookup, insert, Result, ok, err,
}
use praxis_ai_agent_platform.Contract.{TaskContract}
use praxis_ai_agent_platform.Budget.{unlimited, Tracker, nothing_spent, default_pricing}
use praxis_ai_agent_platform.Loop.{
  Escape, StopReason, ActionKind, Action, Iteration, Turn, Conversions, AgentLoop, Surroundings,
}
use praxis_ai_agent_platform.Loop.Running.{LoopResult, run}
use praxis_ai_agent_platform.Loop.Grants.{IsGranted}
use praxis_ai_agent_platform.Loop.Calls.{run_calls_granted}

-- texts are themselves, numbers and digests are by kind alone
abbrev py : Conversions
py = record {
  str = λ v. elim v [ string s ↦ s | _ ↦ "" ];
  strip = λ s. s;
  lstrip_dashes = λ s. s;
  isdigit = λ s. s == "7";
  iterate = λ v. elim v [ array vs ↦ some (items vs) | _ ↦ none ];
  int = λ v. some (pos 7);
  dict = λ v. ok [];
  action_digest = λ a. a.target;
  observation_digest = λ o. if o.succeeded then "ok" else "failed";
  objective_digest = λ s. s;
}

abbrev contract : TaskContract
contract = record {
  objective = "find the outage";
  task_id = "t1";
  parent_id = none;
  tenant_id = "acme";
  inputs = [];
  artifacts = [];
  output_schema = [];
  authorized_tools = "search" ∷ [];
  acceptance_criteria = [];
  budget = none;
  deadline = some 60;
  depth = 0;
}

abbrev loop : AgentLoop
loop = record {
  skills = "search" ∷ "shell" ∷ [];
  chains = ("pipe", "search" ∷ "shell" ∷ []) ∷ [];
  agents = ("analyst", record { tools = "search" ∷ []; default_budget = none }) ∷ [];
  max_iterations = 4;
  stall_threshold = 3;
}

abbrev tracker : Tracker
tracker = record {
  budget = unlimited;
  parent = none;
  pricing = default_pricing;
  started_at = 0;
  spend = nothing_spent;
}

abbrev start : Surroundings
start = record {
  delegation = record {
    limits = record { max_depth = 5; max_concurrency = 8; max_children_per_task = 20 };
    nodes = [];
  };
  ledger = tracker ∷ [];
  calls = [];
}

abbrev do_action : ActionKind → String → Dict String Json → Action
do_action kind target args = record { kind = kind; target = target; args = args; rationale = "" }

-- a turn in which the policy decides by what it has seen
abbrev turn : (List Iteration → Action) → ℕ → Turn
turn policy k = record {
  is_cancelled = false;
  now = k;
  decide = λ seen. ok (policy seen);
  tool_reply = ok (string "found");
  agent_reply = ok (record { succeeded = true; content = null; errors = [] });
  child_id = "t2";
}

abbrev answer : Action
answer =
    do_action ActionKind.finish ""
      (("answer", string "disk full") ∷ ("evidence", array (item (string "7") no_items)) ∷ [])

-- a search, a chain that is denied, a delegation, and the answer
abbrev diligent : List Iteration → Action
diligent [] = do_action ActionKind.skill "search" []
diligent (_ ∷ []) = do_action ActionKind.chain "pipe" []
diligent (_ ∷ _ ∷ []) =
    do_action ActionKind.delegate "analyst" (("objective", string "read the logs") ∷ [])
diligent (_ ∷ _ ∷ _ ∷ _) = answer

abbrev stubborn : List Iteration → Action
stubborn seen = do_action ActionKind.skill "shell" []

abbrev reason_of : Result Escape LoopResult → Option (StopReason × ℕ)
reason_of (err e) = none
reason_of (ok r) = some (r.stop_reason, length r.iterations)

diligent_answers :
    reason_of (run py loop contract 0 (turn diligent) start).0 ≡ some (StopReason.goal_reached, 3)
unfolding run lookup insert modify items
diligent_answers = refl

-- the same refused call three times
stubborn_stalls :
    reason_of (run py loop contract 0 (turn stubborn) start).0 ≡ some (StopReason.stalled, 3)
unfolding run lookup insert modify items
stubborn_stalls = refl

run_calls_granted_example :
    All
      (IsGranted loop contract start.delegation.limits)
      (run py loop contract 0 (turn diligent) start).1.calls
run_calls_granted_example = run_calls_granted py loop contract 0 (turn diligent) start refl
