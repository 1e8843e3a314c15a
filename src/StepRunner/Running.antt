-- ===== src/StepRunner/Running.antt =====
-- praxis/core/orchestrator.py: `run_step` of `_make_step_runner`.
use praxis_ai_agent_platform.Common.{
  ℕ, String, Bool, true, false, not, ◌&&◌, Option, none, some, [], ◌∷◌, ◌++◌, if◌then◌else◌, ◌==◌,
  nat_eq, string_eq, filter, contains, Json, Fields, null, boolean, number, string, array, object,
  no_fields, field, Dict, lookup, insert, Result, ok, err, Outcome, returned, raised, cancelled,
}
use praxis_ai_agent_platform.Modes.{
  Skill, allows_mutation, simulates_mutation, mode_value, should_pause_for_approval,
}
use praxis_ai_agent_platform.Checklist.{
  Reason, simulated, not_permitted, reported, rejected_by_operator, rejected, run_failed,
  joined_failed, step_failed,
}
use praxis_ai_agent_platform.Outputs.{OutputValidationError, validate_skill_output}
use praxis_ai_agent_platform.ExecutionGraph.{PlanStep}
use praxis_ai_agent_platform.ExecutionGraph.Arguments.{ReferenceError, resolve_args}
use praxis_ai_agent_platform.Approval.{ApprovalRequest, ApprovalError, Resumed, await_approval}
use praxis_ai_agent_platform.StepRunner.{
  Args, World, Platform, TaskContext, Turn, unresolved, paused, drifted, was_cancelled, Answer,
  Escape, update, escape, Ran, update_checklist,
}
use praxis_ai_agent_platform.StepRunner.Gates.{
  approval_gate_blocks, Provided, provided, unavailable, lost, get_skill,
}

-- a run that calls no skill
abbrev pub stops : Answer → World → Ran
stops answer w = record { answer = answer; called = none; world = w }

-- `_settle_in_flight`: the future is taken out, and resolved unless it is done
unfoldable pub settle_in_flight : Option String → Result String Json → World → World
settle_in_flight none reply w = w
settle_in_flight (some key) reply w =
    if contains w.in_flight key
    then record w {
      in_flight = filter (λ k. not (k == key)) w.in_flight;
      done = filter (λ k. not (k == key)) w.done;
      settled = if contains w.done key then w.settled else w.settled ++ (key, reply) ∷ [];
    }
    else w

-- `cached is not None`: `None` is cached too, and then missed
abbrev pub hit_of : Option Json → Option Json
hit_of none = none
hit_of (some null) = none
hit_of (some (boolean b)) = some (boolean b)
hit_of (some (number n)) = some (number n)
hit_of (some (string s)) = some (string s)
hit_of (some (array vs)) = some (array vs)
hit_of (some (object fs)) = some (object fs)

abbrev pub audit_denied : TaskContext → String → String → Reason → World → World
audit_denied context resource_type resource_id reason w = record w {
  denials =
      w.denials
      ++ record {
        tenant_id = context.principal.tenant_id;
        actor_user_id = context.principal.user_id;
        resource_type = resource_type;
        resource_id = resource_id;
        reason = reason;
      }
        ∷ [];
}

-- `_record_skill_used`
abbrev pub record_skill_used : TaskContext → String → World → World
record_skill_used context name w =
    if context.is_graph_stored then record w { used = w.used ++ name ∷ [] } else w

-- a dict as a value
abbrev pub fields_of : Args → Fields
fields_of [] = no_fields
fields_of ((key, v) ∷ args) = field key v (fields_of args)

module _ (py : Platform) (context : TaskContext) (turn : Turn) (index : ℕ) where
  -- the end of a step that has a result
  unfoldable pub complete : Skill → Json → World → Ran
  unfolding update_checklist
  complete skill v w =
      stops (update (some v) "completed" [] (py.urls_of v))
        (update_checklist index "completed" none (record_skill_used context skill.name w))

  -- a failure, with the exception's text in the checklist and more in the error
  unfoldable pub fail_step : String → Reason → World → Ran
  unfolding update_checklist
  fail_step text error w =
      stops (update none "failed" (error ∷ []) [])
        (update_checklist index "failed" (some (reported text)) w)

  -- the call of the skill is put on record
  abbrev pub calling : Skill → Args → Ran → Ran
  calling skill args ran = record ran { called = some (skill, args) }

  -- `tool_cache.set` and the future, for a call with a key
  unfoldable pub store_result : Option String → Json → World → World
  unfolding settle_in_flight insert
  store_result none v w = w
  store_result (some key) v w =
      settle_in_flight (some key) (ok v) (record w { cache = insert key v w.cache })

  abbrev pub stored : Skill → Option String → Json → World → Option Escape → Ran
  stored skill none v w error = complete skill v (store_result none v w)
  stored skill (some key) v w none = complete skill v (store_result (some key) v w)
  stored skill (some key) v w (some e) = stops (escape e) w

  abbrev pub after_validation :
      Skill → Option String → Result OutputValidationError Json → World → Ran
  after_validation skill key (ok v) w = stored skill key v w turn.store_error
  after_validation skill key (err e) w =
      fail_step (py.error_text e) (run_failed index skill.name (py.error_text e))
        (settle_in_flight key (err (py.error_text e)) w)

  abbrev pub after_run : Skill → Option String → Outcome String Json → World → Ran
  after_run skill key (returned v) w =
      after_validation skill key (validate_skill_output skill.name skill.outputs v) w
  after_run skill key (raised error) w =
      fail_step error (run_failed index skill.name error) (settle_in_flight key (err error) w)
  after_run skill key cancelled w = stops (escape was_cancelled) w

  -- after the update of the checklist, which may raise before the skill is called
  abbrev pub started : Skill → Args → Option String → World → Option Escape → Ran
  started skill args key w (some e) = stops (escape e) w
  started skill args key w none = calling skill args (
      after_run skill key turn.output
        (turn.meanwhile (update_checklist index "in_progress" none w)))

  unfoldable pub execute : Skill → Args → Option String → World → Ran
  unfolding update_checklist validate_skill_output complete fail_step store_result settle_in_flight
  execute skill args key w = started skill args key w turn.start_error

  -- a cancelled wait, which cancels the future that it waits for
  abbrev pub cancel_future : String → World → World
  cancel_future key w =
      if contains w.in_flight key then record w { done = w.done ++ key ∷ [] } else w

  -- `shared = await pending`
  abbrev pub join : Skill → String → Outcome String Json → World → Ran
  join skill key (returned v) w = complete skill v w
  join skill key (raised error) w = fail_step error (joined_failed index skill.name error) w
  join skill key cancelled w = stops (escape was_cancelled) (cancel_future key w)

  abbrev pub share : Skill → Args → String → World → Option Json → Ran
  share skill args key w (some v) = complete skill v w
  share skill args key w none =
      if contains w.in_flight key
      then join skill key turn.shared (turn.meanwhile w)
      else execute skill args (some key) (record w { in_flight = w.in_flight ++ key ∷ [] })

  -- the cache and the calls in flight, for a read-only skill, and the execution
  unfoldable pub cached_or_executed : Skill → Args → World → Ran
  unfolding complete execute lookup
  cached_or_executed skill args w =
      let key = py.cache_key skill.name args in
      if skill.risk == "read_only"
      then share skill args key w (hit_of (lookup key w.cache))
      else execute skill args none w

module _ (py : Platform) (context : TaskContext) (turn : Turn) (index : ℕ)
    (step : PlanStep Args) where
  -- after the operator's decision, with what the check of the binding says
  abbrev pub after_decision : Skill → Args → World → Result ApprovalError Bool → Ran
  after_decision skill args w (err e) = stops (escape (drifted e)) w
  after_decision skill args w (ok false) =
      stops (update none "skipped" (rejected index step.skill_name ∷ []) [])
        (update_checklist index "skipped" (some rejected_by_operator) w)
  after_decision skill args w (ok true) = cached_or_executed py context turn index skill args w

  abbrev pub request_for : Args → ApprovalRequest Args
  request_for args = record {
    task_id = context.task_id;
    step_index = index;
    skill_name = step.skill_name;
    args = args;
  }

  -- `_await_approval` with a decision, and its answer
  abbrev pub resumed : Args → Bool → World → Resumed Args
  resumed args decision w =
      await_approval py.digests (request_for args) context.principal.tenant_id context.approval_ttl
        turn.now decision w.approvals w.task

  abbrev pub pausing : Resumed Args → World → World
  pausing r w = record w {
    approvals = r.table;
    task = r.task;
    published = w.published ++ r.published;
  }

  -- `interrupt` raises until there is a decision
  abbrev pub ask : Skill → Args → World → Option Bool → Ran
  ask skill args w none = stops (escape paused) (pausing (resumed args false w) w)
  ask skill args w (some decision) =
      after_decision skill args (pausing (resumed args decision w) w)
        (resumed args decision w).answer

  unfoldable pub approved : Skill → Args → World → Ran
  unfolding await_approval cached_or_executed update_checklist should_pause_for_approval
  approved skill args w =
      if should_pause_for_approval skill
      then ask skill args w turn.decision
      else cached_or_executed py context turn index skill args w

  -- the outcome that a dry run records
  abbrev pub simulated_result : Skill → Args → Json
  simulated_result skill args = object (
      field "simulated" (boolean true) (
        field "mode" (string (mode_value context.mode)) (
          field "would_have_called"
            (object (
              field "skill" (string skill.name) (field "args" (object (fields_of args)) no_fields)))
            (field "note"
              (string "dry run: this mutating step was NOT executed; no external state was changed")
              no_fields))))

  abbrev pub refuse_mutation : Skill → Reason → World → Ran
  refuse_mutation skill reason w = stops (update none "failed" (reason ∷ []) []) (
      update_checklist index "failed" (some reason)
        (audit_denied context "task" context.task_id reason w))

  unfoldable pub permitted : Skill → Args → World → Ran
  unfolding approved update_checklist
  permitted skill args w =
      if not (skill.risk == "mutating" && not (allows_mutation context.mode))
      then approved skill args w
      else if simulates_mutation context.mode
      then stops (update (some (simulated_result skill args)) "completed" [] [])
          (update_checklist index "completed" (some (simulated context.mode)) w)
      else refuse_mutation skill (not_permitted index skill.name context.mode) w

  abbrev pub gated : Skill → Args → World → Option Reason → Ran
  gated skill args w (some reason) = stops (update none "failed" (reason ∷ []) []) (
      audit_denied context "skill" skill.name reason
        (update_checklist index "failed" (some reason) w))
  gated skill args w none = permitted skill args w

  abbrev pub with_skill : Args → Provided → Ran
  with_skill args (provided skill w) =
      gated skill args w
        (approval_gate_blocks skill.name context.principal.tenant_id turn.catalogue_at_gate)
  with_skill args (unavailable reason w) =
      stops (update none "failed" (step_failed index reason ∷ []) []) w
  with_skill args (lost e w) = stops (escape e) w

  abbrev pub with_args : World → Result ReferenceError Args → Ran
  with_args w (err e) = stops (escape (unresolved e)) w
  with_args w (ok args) =
      with_skill args
        (get_skill index step.skill_name context.principal.tenant_id turn w turn.registered)

  -- `run_step`, with the results of the earlier steps
  unfoldable pub run_step : Dict ℕ Json → World → Ran
  unfolding resolve_args approval_gate_blocks permitted update_checklist
  run_step results w =
      if context.cancelled
      then stops (update none "skipped" [] []) w
      else with_args w (resolve_args py.int results step.args)
