-- ===== src/StepRunner.antt =====
-- `run_step` of praxis/core/orchestrator.py, the body of every node of a task's graph, with
-- `_approval_gate_blocks`, `_synthesize_missing_skill`, `_settle_in_flight` and `_update_checklist`.
-- What the registry, the factory, the operator, an identical call in flight and the skill itself
-- answer in a run is an argument, and so is what other steps do to the shared state while the skill
-- runs.
pub mod Gates
pub mod Running
pub mod Cases
pub mod Safety
pub mod Sharing
mod Tests
use praxis_ai_agent_platform.Common.{
  ℕ, String, Bool, Option, none, some, List, [], ◌∷◌, ◌++◌, nat_eq, string_eq, modify, ℤ, Json,
  Dict, Result, Outcome, cancelled,
}
use praxis_ai_agent_platform.Policy.{Principal}
use praxis_ai_agent_platform.Modes.{ExecutionMode, Skill}
use praxis_ai_agent_platform.Checklist.{Reason, ChecklistItem}
use praxis_ai_agent_platform.Publication
use praxis_ai_agent_platform.ExecutionGraph.Arguments.{ReferenceError}
use praxis_ai_agent_platform.Outputs.{OutputValidationError}
use praxis_ai_agent_platform.Approval.{Digests, ApprovalError, TaskRow}
use praxis_ai_agent_platform.Approval

abbrev pub Args : Type 0
Args = Dict String Json

-- A row of the audit log: the action is always `task:execute_step` and the decision `denied`.
pub record Denial : Type 0 where
  pub tenant_id : String
  pub actor_user_id : Option String
  pub resource_type : String
  pub resource_id : String
  pub reason : Reason

-- What the steps of a task share: the approvals, the task's row with what was published of it, the
-- audit log, the cache of results, the calls in flight, those of them whose future is done already,
-- as a step that waited for it was cancelled, the futures that were resolved, and the edges of the
-- skills that were used.
pub record World : Type 0 where
  pub approvals : Approval.Table
  pub task : Option (TaskRow Args)
  pub published : List (TaskRow Args)
  pub denials : List Denial
  pub cache : Dict String Json
  pub in_flight : List String
  pub done : List String
  pub settled : List (String × Result String Json)
  pub used : List String

-- What the code takes from Python: `int` of a text, the key of a call, the addresses in a result, and
-- the digests of an approval; with the text of the error that an output or a factory raises.
pub record Platform : Type 0 where
  pub int : String → Option ℤ
  pub cache_key : String → Args → String
  pub urls_of : Json → List String
  pub digests : Digests Args
  pub error_text : OutputValidationError → String

-- The context of a task's run, without its live objects.
pub record TaskContext : Type 0 where
  pub task_id : String
  pub principal : Principal
  pub mode : ExecutionMode
  pub cancelled : Bool
  pub approval_ttl : ℕ
  pub is_graph_stored : Bool

-- What the capability factory does: there is none, or it answers.
pub data Synthesis : Type 0 where
  no_factory : Synthesis
  synthesizes : Skill → Synthesis
  awaits_approval : (error : String) → Synthesis
  fails : (error : String) → Synthesis
  raises : (error : String) → Synthesis

-- What a run raises into the graph.
pub data Escape : Type 0 where
  unresolved : ReferenceError → Escape
  paused : Escape
  drifted : ApprovalError → Escape
  synthesis_raised : String → Escape
  was_cancelled : Escape
  write_failed : String → Escape

-- What the world answers in one run of a step. The catalogue is read twice: before a synthesis, and at
-- the gate, where it has the row that the synthesis added. Two writes may raise, or be cancelled: the
-- update of the checklist before the skill runs, and the one of the cache after it.
pub record Turn : Type 0 where
  pub now : ℕ
  pub registered : Option Skill
  pub synthesis : Synthesis
  pub catalogue : Publication.Table
  pub catalogue_at_gate : Publication.Table
  pub decision : Option Bool
  pub shared : Outcome String Json
  pub start_error : Option Escape
  pub output : Outcome String Json
  pub store_error : Option Escape
  pub meanwhile : World → World

-- The update that a node returns, for its own index, or what it raises.
pub data Answer : Type 0 where
  update :
      (result : Option Json) (status : String) (errors : List Reason) (known_urls : List String)
      → Answer
  escape : Escape → Answer

-- A run: its answer, the call of the skill that it made, if any, and the world after it.
pub record Ran : Type 0 where
  pub answer : Answer
  pub called : Option (Skill × Args)
  pub world : World

-- `{**item, "status": status, "reason": reason}`
abbrev pub marked : String → Option Reason → ChecklistItem → ChecklistItem
marked status reason i = record i { status = status; reason = reason }

abbrev pub update_task : ℕ → String → Option Reason → TaskRow Args → TaskRow Args
update_task index status reason task = record task {
  checklist = modify task.checklist index (marked status reason);
}

abbrev pub commit_task : Option (TaskRow Args) → World → World
commit_task none w = w
commit_task (some task) w = record w { task = some task; published = w.published ++ task ∷ [] }

abbrev pub map_task : (TaskRow Args → TaskRow Args) → Option (TaskRow Args) → Option (TaskRow Args)
map_task f none = none
map_task f (some task) = some (f task)

-- `_update_checklist`
unfoldable pub update_checklist : ℕ → String → Option Reason → World → World
unfolding modify
update_checklist index status reason w =
    commit_task (map_task (update_task index status reason) w.task) w
