-- ===== src/Approval/Tests.antt =====
-- Approvals of a step whose skill takes no arguments, by digests that keep the name, and their
-- theorems at concrete inputs.
use praxis_ai_agent_platform.Common.{
  List, String, ◌≡◌, refl, true, false, none, some, [], ◌∷◌, nat_eq, string_eq, find_first, ok, err,
}
use praxis_ai_agent_platform.Approval.{
  TaskRow, paused_task, Digests, ApprovalRequest, ApprovalRecord, Table, missing_record, has_key,
  is_for_step, pending, create_pending_approval, await_approval, decide_record, decide_approval,
}
use praxis_ai_agent_platform.Approval.Laws.{drifted_step_passes}
use praxis_ai_agent_platform.Approval.Decisions.{Decision, decide_all, decision_is_final}

abbrev plain : Digests (Unit {0})
plain = record {
  compute_action_hash = λ skill args. skill;
  compute_idempotency_key = λ task step digest. digest;
}

abbrev request : String → ApprovalRequest (Unit {0})
request skill = record { task_id = "t1"; step_index = 2; skill_name = skill; args = tt }

abbrev restart : ApprovalRequest (Unit {0})
restart = request "restart"

abbrev wipe : ApprovalRequest (Unit {0})
wipe = request "wipe"

abbrev row : ApprovalRecord
row = record {
  tenant_id = "acme";
  task_id = "t1";
  step_index = 2;
  action = ("restart", 2);
  action_hash = "restart";
  idempotency_key = "restart";
  approver_user_id = none;
  approved = none;
  expires_at = 160;
  decided_at = none;
}

abbrev table : Table
table = row ∷ []

abbrev decided : ApprovalRecord
decided = decide_record true (some "ann") 120 row

-- asking anew makes no second row
asked_twice : (create_pending_approval plain restart "acme" 60 100 []).1 ≡ table
unfolding create_pending_approval
asked_twice = refl

-- a principal of another tenant finds no row
other_tenant : decide_approval "t1" 2 true "evil" (some "eve") 120 table ≡ err missing_record
unfolding decide_approval
other_tenant = refl

abbrev task : TaskRow (Unit {0})
task = record {
  checklist =
      record { content = "look"; status = "completed"; reason = none }
      ∷ record { content = "ask"; status = "completed"; reason = none }
      ∷ record { content = "restart"; status = "in_progress"; reason = none }
      ∷ [];
  status = "running";
  pending_input = none;
}

-- the step that asks is marked in the checklist, with the question
paused : paused_task restart task ≡ (record {
  checklist =
      record { content = "look"; status = "completed"; reason = none }
      ∷ record { content = "ask"; status = "completed"; reason = none }
      ∷ record { content = "restart"; status = "awaiting_approval"; reason = none }
      ∷ [];
  status = "awaiting_approval";
  pending_input = some (record { kind = "approval"; detail = restart });
})
unfolding paused_task
paused = refl

drifted_step_passes_example :
    let run = await_approval plain wipe "acme" 60 130 true (decided ∷ []) (some task) in
    (run.answer ≡ ok true)
    × (find_first (is_for_step "t1" 2) run.table ≡ some (pending plain wipe "acme" 60 130))
    × ((pending plain wipe "acme" 60 130).decided_at ≡ none)
unfolding has_key
drifted_step_passes_example =
    drifted_step_passes plain wipe "acme" 60 130 (decided ∷ []) (some task) refl

-- decisions on this step and on the next one, in between
abbrev later : List Decision
later =
    record {
      task_id = "t1";
      step_index = 2;
      tenant_id = "acme";
      approved = false;
      user_id = none;
      now = 125;
    }
    ∷ record {
      task_id = "t1";
      step_index = 3;
      tenant_id = "acme";
      approved = true;
      user_id = some "eve";
      now = 126;
    }
    ∷ []

decision_is_final_example :
    decide_approval "t1" 2 false "acme" (some "bob") 130 (decide_all later (decided ∷ []))
    ≡ ok (decided, decide_all later (decided ∷ []))
unfolding decide_approval
decision_is_final_example =
    decision_is_final "t1" 2 "acme" true false (some "ann") (some "bob") 120 130 table
      (decided ∷ []) decided later refl
