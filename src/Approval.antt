-- ===== src/Approval.antt =====
-- praxis/security/approval.py: approvals bound to an approver, a tenant, an action with its
-- arguments and a window of time; and the one use of them, _await_approval of
-- praxis/core/orchestrator.py. The table is a list with the newest row first, which is the order
-- of created_at. A time is a number of seconds.
pub mod Laws
pub mod Decisions
mod Tests
use praxis_ai_agent_platform.Common.{
  ℕ, ◌+◌, String, Bool, true, false, ◌&&◌, Option, none, some, List, [], ◌∷◌, leb, if◌then◌else◌,
  ◌==◌, nat_eq, string_eq, is_some, modify, find_first, update_first, Result, ok, err, ◌>>=◌,
}
use praxis_ai_agent_platform.Checklist.{ChecklistItem}

-- The two digests, which hashlib and json make: of a skill with its arguments, and of a task, a step
-- and the first digest.
pub record Digests (Args : Type 0) : Type 0 where
  pub compute_action_hash : String → Args → String
  pub compute_idempotency_key : String → ℕ → String → String

pub record ApprovalRequest (Args : Type 0) : Type 0 where
  pub task_id : String
  pub step_index : ℕ
  pub skill_name : String
  pub args : Args

-- A row. The text of an action is the skill's name and the step.
pub record ApprovalRecord : Type 0 where
  pub tenant_id : String
  pub task_id : String
  pub step_index : ℕ
  pub action : String × ℕ
  pub action_hash : String
  pub idempotency_key : String
  pub approver_user_id : Option String
  pub approved : Option Bool
  pub expires_at : ℕ
  pub decided_at : Option ℕ

abbrev pub Table : Type 0
Table = List ApprovalRecord

-- `KeyError`, `ApprovalExpiredError` and `ApprovalBindingError`
pub data ApprovalError : Type 0 where
  missing_record : ApprovalError
  expired : (expired_at : ℕ) → ApprovalError
  binding : (expected_hash actual_hash : String) → ApprovalError

-- the `where` clauses of the three queries
unfoldable pub has_key : String → ApprovalRecord → Bool
has_key key r = r.idempotency_key == key

unfoldable pub is_for_step : String → ℕ → ApprovalRecord → Bool
is_for_step task_id step_index r = r.task_id == task_id && r.step_index == step_index

unfoldable pub is_decidable : String → ℕ → String → ApprovalRecord → Bool
is_decidable task_id step_index tenant_id r =
    r.task_id == task_id && (r.step_index == step_index && r.tenant_id == tenant_id)

-- What an operator is asked: the kind, and the parts of the text of the question.
pub record PendingInput (Args : Type 0) : Type 0 where
  pub kind : String
  pub detail : ApprovalRequest Args

-- The columns of a task that a pause changes.
pub record TaskRow (Args : Type 0) : Type 0 where
  pub checklist : List ChecklistItem
  pub status : String
  pub pending_input : Option (PendingInput Args)

abbrev awaiting : ChecklistItem → ChecklistItem
awaiting item = record item { status = "awaiting_approval" }

-- the task as it pauses; an index past the checklist changes no item
unfoldable pub paused_task : {Args : Type 0} → ApprovalRequest Args → TaskRow Args → TaskRow Args
unfolding modify
paused_task request task = record {
  checklist = modify task.checklist request.step_index awaiting;
  status = "awaiting_approval";
  pending_input = some (record { kind = "approval"; detail = request });
}

-- What a run of the approval step leaves: its answer or exception, the table, the task and what was
-- published of it.
pub record Resumed (Args : Type 0) : Type 0 where
  pub answer : Result ApprovalError Bool
  pub table : Table
  pub task : Option (TaskRow Args)
  pub published : List (TaskRow Args)

module _ {Args : Type 0} (h : Digests Args) where
  abbrev pub hash_of : ApprovalRequest Args → String
  hash_of request = h.compute_action_hash request.skill_name request.args

  abbrev pub key_of : ApprovalRequest Args → String
  key_of request = h.compute_idempotency_key request.task_id request.step_index (hash_of request)

  unfoldable pub pending : ApprovalRequest Args → String → ℕ → ℕ → ApprovalRecord
  pending request tenant_id ttl_seconds now = record {
    tenant_id = tenant_id;
    task_id = request.task_id;
    step_index = request.step_index;
    action = (request.skill_name, request.step_index);
    action_hash = hash_of request;
    idempotency_key = key_of request;
    approver_user_id = none;
    approved = none;
    expires_at = now + ttl_seconds;
    decided_at = none;
  }

  -- `if existing is not None: return existing`, else the new row is added
  abbrev pub existing_or_new :
      Option ApprovalRecord → ApprovalRecord → Table → ApprovalRecord × Table
  existing_or_new (some existing) new db = (existing, db)
  existing_or_new none new db = (new, new ∷ db)

  -- `create_pending_approval`
  unfoldable pub create_pending_approval :
      ApprovalRequest Args → String → ℕ → ℕ → Table → ApprovalRecord × Table
  unfolding pending has_key
  create_pending_approval request tenant_id ttl_seconds now db =
      existing_or_new (find_first (has_key (key_of request)) db)
        (pending request tenant_id ttl_seconds now) db

  abbrev pub bound_to : String → ApprovalRecord → Result ApprovalError ApprovalRecord
  bound_to actual_hash r =
      if r.action_hash == actual_hash then ok r else err (binding r.action_hash actual_hash)

  abbrev pub bound_record : String → Option ApprovalRecord → Result ApprovalError ApprovalRecord
  bound_record actual_hash none = err missing_record
  bound_record actual_hash (some r) = bound_to actual_hash r

  -- `verify_approval_binding`
  unfoldable pub verify_approval_binding :
      String → ℕ → String → Args → Table → Result ApprovalError ApprovalRecord
  unfolding is_for_step
  verify_approval_binding task_id step_index skill_name args db =
      bound_record (h.compute_action_hash skill_name args)
        (find_first (is_for_step task_id step_index) db)

  abbrev check_if : Bool → ApprovalRequest Args → Table → Result ApprovalError Bool
  check_if false request db = ok false
  check_if true request db =
      verify_approval_binding request.task_id request.step_index request.skill_name request.args db
      >>= λ r. ok true

  -- `_publish_state` at the pause: the task as it then stands
  abbrev pub published_of : Option (TaskRow Args) → List (TaskRow Args)
  published_of none = []
  published_of (some task) = task ∷ []

  abbrev pub pause_for : ApprovalRequest Args → Option (TaskRow Args) → Option (TaskRow Args)
  pause_for request none = none
  pause_for request (some task) = some (paused_task request task)

  -- `Orchestrator._await_approval` as it runs again from its start on resume, with the approval row
  -- asked for anew and the task paused once more; the decision is what `interrupt` then returns.
  unfoldable pub await_approval :
      ApprovalRequest Args
      → String
      → ℕ
      → ℕ
      → (decision : Bool) → Table
      → Option (TaskRow Args)
      → Resumed Args
  unfolding create_pending_approval verify_approval_binding paused_task
  await_approval request tenant_id ttl_seconds now decision db task =
      let after = (create_pending_approval request tenant_id ttl_seconds now db).1 in
      record {
        answer = check_if decision request after;
        table = after;
        task = pause_for request task;
        published = published_of (pause_for request task);
      }

-- The fields of a row that a decision sets; the principal may have no user.
abbrev pub decide_record : Bool → Option String → ℕ → ApprovalRecord → ApprovalRecord
decide_record approved user_id now r = record r {
  approved = some approved;
  approver_user_id = user_id;
  decided_at = some now;
}

abbrev pub decide_found :
    Bool
    → Option String
    → ℕ
    → (ApprovalRecord → Bool)
    → Table
    → Option ApprovalRecord
    → Result ApprovalError (ApprovalRecord × Table)
decide_found approved user_id now p db none = err missing_record
decide_found approved user_id now p db (some r) =
    if is_some r.decided_at
    then ok (r, db)
    else if leb r.expires_at now
    then err (expired r.expires_at)
    else ok (
      decide_record approved user_id now r,
      update_first p (decide_record approved user_id now) db,
    )

-- `decide_approval`
unfoldable pub decide_approval :
    String
    → ℕ
    → Bool
    → (tenant_id : String) → (user_id : Option String) → ℕ
    → Table
    → Result ApprovalError (ApprovalRecord × Table)
unfolding is_decidable
decide_approval task_id step_index approved tenant_id user_id now db =
    let p = is_decidable task_id step_index tenant_id in
    decide_found approved user_id now p db (find_first p db)
