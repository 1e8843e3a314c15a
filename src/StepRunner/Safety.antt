-- ===== src/StepRunner/Safety.antt =====
-- What a step may do: the gates before a skill is called, and the rulings behind a synthesized skill.
use praxis_ai_agent_platform.Common.{
  ℕ, String, ◌≡◌, refl, sym, ◌≢◌, ◌⊎◌, inl, inr, true, false, none, some, List, [], ◌∷◌, eq_iff,
  ◌==◌, nat_eq, string_eq, Bool-cases, filter, contains, All, All-filter_both, any-All, Json, Dict,
  lookup, ok,
}
use praxis_ai_agent_platform.Modes.{
  Skill, ExecutionMode, execute, read_only, plan_only, dry_run, allows_mutation,
}
use praxis_ai_agent_platform.Publication.{SkillRecord, is_callable_status}
use praxis_ai_agent_platform.Publication
use praxis_ai_agent_platform.Publication.Operations.{Disk}
use praxis_ai_agent_platform.Publication.Operations
use praxis_ai_agent_platform.Publication.Entries.{Write, run_writes}
use praxis_ai_agent_platform.Publication.Rulings.{Any, callable_was_ruled}
use praxis_ai_agent_platform.Publication.Allowed.{IsRuledBy}
use praxis_ai_agent_platform.ExecutionGraph.{PlanStep}
use praxis_ai_agent_platform.ExecutionGraph.Arguments.{resolve_args}
use praxis_ai_agent_platform.StepRunner.{Args, World, Platform, TaskContext, Turn}
use praxis_ai_agent_platform.StepRunner.Gates.{
  any_callable, blocked_for, blocked_among, approval_gate_blocks,
}
use praxis_ai_agent_platform.StepRunner.Running.{resumed, hit_of, run_step}
use praxis_ai_agent_platform.StepRunner.Cases.{run_step-called}

allows_mutation-execute : (mode : ExecutionMode) → allows_mutation mode ≡ true → mode ≡ execute
allows_mutation-execute execute h = refl
allows_mutation-execute plan_only h = cc
allows_mutation-execute read_only h = cc
allows_mutation-execute dry_run h = cc

-- A run of a step calls a skill only after every gate: the task is not cancelled, the references in
-- the arguments are resolved, and the approval gate is open. A mutating skill is called in the mode
-- `execute` only, and after the operator has approved and the arguments agree with the newest approval
-- row of the step. A read-only skill is called only if no result of the same call is cached and no
-- identical call is in flight.
pub calls_are_cleared :
    (py : Platform) (context : TaskContext) (turn : Turn) (index : ℕ) (step : PlanStep Args)
    (results : Dict ℕ Json) (w : World) (skill : Skill) (args : Args)
    → (run_step py context turn index step results w).called ≡ some (skill, args)
    → (context.cancelled ≡ false)
      × (resolve_args py.int results step.args ≡ ok args)
      × (approval_gate_blocks skill.name context.principal.tenant_id turn.catalogue_at_gate ≡ none)
      × (skill.risk ≡ "mutating"
          → (context.mode ≡ execute)
            × (turn.decision ≡ some true)
            × ((resumed py context turn index step args true w).answer ≡ ok true))
      × (skill.risk ≡ "read_only"
          → (hit_of (lookup (py.cache_key skill.name args) w.cache) ≡ none)
            × (contains w.in_flight (py.cache_key skill.name args) ≡ false))
calls_are_cleared py context turn index step results w skill args h =
    let (live, resolved, open', cleared) =
      run_step-called py context turn index step results w skill args h in
    (
      live,
      resolved,
      open',
      (λ m.
          let (decided, answer) = cleared.confirmed m in
          (allows_mutation-execute context.mode (cleared.may_mutate m), decided, answer)),
      λ r. cleared.fresh ((eq_iff skill.risk "read_only").1 r),
    )

blocked_for-open :
    (name : String) (rows : List SkillRecord)
    → blocked_for name rows ≡ none
    → any_callable rows ≡ true
blocked_for-open name [] h = cc
blocked_for-open name (r ∷ rs) h = elim (Bool-cases (any_callable (r ∷ rs))) [
  | inl callable ↦ callable
  | inr refused ↦ let impossible = rw refused at h in cc
]

blocked_among-open :
    (name tenant_id : String) (rows : List SkillRecord)
    → blocked_among name tenant_id rows ≡ none
    → (rows ≡ []) ⊎ (any_callable (filter (λ row. row.tenant_id == tenant_id) rows) ≡ true)
blocked_among-open name tenant_id [] h = inl refl
blocked_among-open name tenant_id (r ∷ rs) h =
    inr (blocked_for-open name (filter (λ row. row.tenant_id == tenant_id) (r ∷ rs)) h)

-- The gate is open for a skill that is synthesized nowhere, or of which some synthesized version is
-- callable in the tenant itself.
pub gate_open-cases :
    (name tenant_id : String) (rows : Publication.Table)
    → approval_gate_blocks name tenant_id rows ≡ none
    → (filter (λ row. row.synthesized) (filter (λ row. row.name == name) rows) ≡ [])
      ⊎ (any_callable (
            filter
              (λ row. row.tenant_id == tenant_id)
              (filter (λ row. row.synthesized) (filter (λ row. row.name == name) rows)))
          ≡ true)
unfolding approval_gate_blocks
gate_open-cases name tenant_id rows h = blocked_among-open name tenant_id _ h

ruled_version :
    (name tenant_id : String) (rows : Publication.Table) (ws : List Write)
    → All
        (λ r. is_callable_status r.status ≡ true → Any (IsRuledBy r.tenant_id r.name r.version) ws)
        rows
    → any_callable (
        filter
          (λ row. row.tenant_id == tenant_id)
          (filter (λ row. row.synthesized) (filter (λ row. row.name == name) rows)))
      ≡ true
    → (version : ℕ) × Any (IsRuledBy tenant_id name version) ws
ruled_version name tenant_id rows ws ruled callable =
    let named_rows = All-filter_both _ (λ row. row.name == name) rows ruled in
    let made = All-filter_both _ (λ row. row.synthesized) _ named_rows in
    let mine = All-filter_both _ (λ row. row.tenant_id == tenant_id) _ made in
    let (r, may, (of_tenant, (synthesized, (of_name, past)))) =
      any-All _ (λ row. is_callable_status row.status) _ callable mine in
    let t_same : r.tenant_id ≡ tenant_id = (eq_iff r.tenant_id tenant_id).0 of_tenant in
    let n_same : r.name ≡ name = (eq_iff r.name name).0 of_name in
    (r.version, simp (sym t_same, sym n_same) (past may))

-- The gate and the catalogue together: where the catalogue that the gate reads, with what a synthesis
-- in this very run has added, is what any writes make of an empty one, a step calls a skill that some
-- tenant has synthesized only with a ruling on a version of it in the task's own tenant: that version
-- was approved, or rolled back to, by a principal that has `skill:approve`, or it was registered or
-- submitted with the approval gate switched off.
pub synthesized_call_was_ruled :
    (py : Platform) (context : TaskContext) (turn : Turn) (index : ℕ) (step : PlanStep Args)
    (results : Dict ℕ Json) (w : World) (skill : Skill) (args : Args)
    (publisher : Operations.Platform) (ws : List Write) (disk : Disk)
    → turn.catalogue_at_gate ≡ (run_writes publisher ws (record { table = []; disk = disk })).table
    → (run_step py context turn index step results w).called ≡ some (skill, args)
    → filter
        (λ row. row.synthesized)
        (filter (λ row. row.name == skill.name) turn.catalogue_at_gate)
      ≢ []
    → (version : ℕ) × Any (IsRuledBy context.principal.tenant_id skill.name version) ws
synthesized_call_was_ruled py context turn index step results w skill args publisher ws disk same h
      synthesized =
    let (live, resolved, open', mutating', reading) =
      calls_are_cleared py context turn index step results w skill args h in
    elim (gate_open-cases skill.name context.principal.tenant_id turn.catalogue_at_gate open') [
      | inl nowhere ↦ absurd (synthesized nowhere)
      | inr callable ↦
          ruled_version skill.name context.principal.tenant_id turn.catalogue_at_gate ws
            (simp same (callable_was_ruled publisher ws disk)) callable
    ]
