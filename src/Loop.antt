-- ===== src/Loop.antt =====
-- praxis/agents/loop.py: the bounded loop of decisions and actions, with the contract, the
-- delegation tree and the budgets that it uses. What a policy, a tool or an agent answers in a turn
-- is an argument. LangGraph runs the two nodes: it appends what a step adds to the lists, and stops
-- with an error after its recursion limit. The text of a message is kept as its parts.
pub mod Acting
pub mod Running
pub mod Bounds
pub mod Routing
pub mod Endings
pub mod Grants
pub mod Calls
mod Tests
use praxis_ai_agent_platform.Common.{
  ℕ, String, Bool, true, false, Option, List, nat_eq, string_eq, ℤ, Json, Dict, Result,
}
use praxis_ai_agent_platform.Contract.{TaskContract, ChildRequest, child_of, authorizes, is_expired}
use praxis_ai_agent_platform.Budget.{Budget, Ledger, BudgetExhaustedError}
use praxis_ai_agent_platform.Delegation.{DelegationRegistry, DelegationLimitError}

abbrev pub default_stall_threshold : ℕ
default_stall_threshold = 3

pub data StopReason : Type 0 where
  goal_reached max_iterations budget_exhausted deadline_exceeded stalled cancelled failed :
      StopReason

-- `is_success`
abbrev pub is_success : StopReason → Bool
is_success StopReason.goal_reached = true
is_success StopReason.max_iterations = false
is_success StopReason.budget_exhausted = false
is_success StopReason.deadline_exceeded = false
is_success StopReason.stalled = false
is_success StopReason.cancelled = false
is_success StopReason.failed = false

pub data ActionKind : Type 0 where
  skill chain delegate finish : ActionKind

pub record Action : Type 0 where
  pub kind : ActionKind
  pub target : String
  pub args : Dict String Json
  pub rationale : String

-- The error of an observation, and the errors of a loop.
pub data Message : Type 0 where
  unauthorized : (tool : String) → Message
  unauthorized_in_chain : (chain tool : String) → Message
  no_skill no_chain no_agent no_objective : (name : String) → Message
  limit : DelegationLimitError → Message
  exhausted : BudgetExhaustedError → Message
  policy_failed : (error : String) → Message
  raised_by : (error_type error : String) → Message
  reported : (errors : List String) → Message

-- The text of an error is empty where there is none.
pub record Observation : Type 0 where
  pub succeeded : Bool
  pub content : Json
  pub error : Option Message

pub record Iteration : Type 0 where
  pub index : ℕ
  pub action : Action
  pub observation : Observation

-- What a policy, a tool or an agent may raise; the last is `CancelledError`.
pub data Failure : Type 0 where
  budget : BudgetExhaustedError → Failure
  other : (error_type error : String) → Failure
  interrupted : Failure

-- What an action lets through.
pub data Halt : Type 0 where
  exhausted_by : BudgetExhaustedError → Halt
  cut_off : Halt

-- What escapes from a run: `int` or an iteration over cited evidence, or `CancelledError`.
pub data Escape : Type 0 where
  misquoted was_interrupted : Escape

-- What an agent returns: its result, as `to_dict` gives it, with the flag and the errors.
pub record AgentReply : Type 0 where
  pub succeeded : Bool
  pub content : Json
  pub errors : List String

-- What the world does in one turn: the cancellation flag, the clock, and the answers of the policy
-- and of the tool, chain or agent that the action asks for; and the identifier of a new task.
pub record Turn : Type 0 where
  pub is_cancelled : Bool
  pub now : ℕ
  pub decide : List Iteration → Result Failure Action
  pub tool_reply : Result Failure Json
  pub agent_reply : Result Failure AgentReply
  pub child_id : String

-- The parts of an agent's manifest that the loop reads.
pub record Agent : Type 0 where
  pub tools : List String
  pub default_budget : Option Budget

-- Python's conversions of a value, with none or the type and text of the error where they raise;
-- and the digests of an action, an observation and an objective.
pub record Conversions : Type 0 where
  pub str : Json → String
  pub strip : String → String
  pub lstrip_dashes : String → String
  pub isdigit : String → Bool
  pub iterate : Json → Option (List Json)
  pub int : Json → Option ℤ
  pub dict : Json → Result (String × String) (Dict String Json)
  pub action_digest : Action → String
  pub observation_digest : Observation → String
  pub objective_digest : String → String

-- An `AgentLoop`: the names of its skills, its chains with the tools of their links, its agents.
pub record AgentLoop : Type 0 where
  pub skills : List String
  pub chains : Dict String (List String)
  pub agents : Dict String Agent
  pub max_iterations : ℕ
  pub stall_threshold : ℕ

-- A call that leaves the loop: of a tool, of a chain with its tools, or of an agent with the tools
-- that it is handed.
pub data Call : Type 0 where
  tool_call : (tool : String) → Call
  chain_call : (tools : List String) → Call
  agent_call : (child : TaskContract) (tools : List String) → Call

-- What the loop shares with the rest of the platform, and its calls so far.
pub record Surroundings : Type 0 where
  pub delegation : DelegationRegistry
  pub ledger : Ledger
  pub calls : List Call
