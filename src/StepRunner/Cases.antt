-- ===== src/StepRunner/Cases.antt =====
-- When a run of a step calls its skill: every gate in front of the call, read backwards.
use praxis_ai_agent_platform.Common.{
  ◌++◌, [], ◌∷◌, ℕ, String, ◌≡◌, refl, sym, ap, ◌∙◌, inl, inr, Bool, true, false, not, ◌&&◌, Option,
  none, some, arith, eq_iff, ◌==◌, nat_eq, string_eq, Bool-cases, contains, Json, Dict, lookup,
  Result, ok, err, Outcome, returned, raised, cancelled,
}
use mathlib.Core.Path.{subst}
use praxis_ai_agent_platform.Modes.{
  Skill, allows_mutation, simulates_mutation, should_pause_for_approval,
}
use praxis_ai_agent_platform.Checklist.{Reason}
use praxis_ai_agent_platform.ExecutionGraph.{PlanStep}
use praxis_ai_agent_platform.ExecutionGraph.Arguments.{ReferenceError, resolve_args}
use praxis_ai_agent_platform.Approval.{ApprovalError, await_approval}
use praxis_ai_agent_platform.StepRunner.{Args, World, Platform, TaskContext, Turn}
use praxis_ai_agent_platform.StepRunner.Gates.{
  approval_gate_blocks, Provided, provided, unavailable, lost, get_skill,
}
use praxis_ai_agent_platform.StepRunner.Running.{
  hit_of, complete, fail_step, execute, join, share, cached_or_executed, after_decision, resumed,
  started, pausing, ask, approved, permitted, gated, with_skill, with_args, run_step,
}
use praxis_ai_agent_platform.StepRunner.{
  Escape, Synthesis, no_factory, synthesizes, awaits_approval, fails, raises,
}
use praxis_ai_agent_platform.StepRunner.Gates.{
  synthesize, after_pending_check, synthesize_missing_skill,
}

module _ (py : Platform) (context : TaskContext) (turn : Turn) (index : ℕ) where
  -- No result of the call is cached, and no identical call is in flight.
  abbrev pub IsFresh : Skill → Args → World → Type 0
  IsFresh skill args w =
      (skill.risk == "read_only") ≡ true
      → (hit_of (lookup (py.cache_key skill.name args) w.cache) ≡ none)
        × (contains w.in_flight (py.cache_key skill.name args) ≡ false)

  join-called :
      (skill : Skill) (key : String) (reply : Outcome String Json) (w : World)
      → (join py context turn index skill key reply w).called ≡ none
  unfolding complete fail_step
  join-called skill key (returned v) w = refl
  join-called skill key (raised error) w = refl
  join-called skill key cancelled w = refl

  started-called :
      (skill : Skill) (args : Args) (key : Option String) (w : World) (error : Option Escape)
      (call : Skill × Args)
      → (started py context turn index skill args key w error).called ≡ some call
      → call ≡ (skill, args)
  started-called skill args key w (some e) call h = cc
  started-called skill args key w none call h = cc

  share-called :
      (skill : Skill) (args : Args) (key : String) (w : World) (hit : Option Json)
      (call : Skill × Args)
      → (share py context turn index skill args key w hit).called ≡ some call
      → (call ≡ (skill, args)) × (hit ≡ none) × (contains w.in_flight key ≡ false)
  unfolding complete execute
  share-called skill args key w (some v) call h = cc
  share-called skill args key w none call h = elim (Bool-cases (contains w.in_flight key)) [
    | inl pending ↦
        let joined : (join py context turn index skill key turn.shared (turn.meanwhile w)).called
            ≡ some call =
          rw pending at h in
        let nothing = join-called skill key turn.shared (turn.meanwhile w) in cc
    | inr free ↦ (
      started-called skill args (some key) (record w { in_flight = w.in_flight ++ key ∷ [] })
          turn.start_error call (rw free at h),
      refl,
      free,
    )
  ]

  cached-called :
      (skill : Skill) (args : Args) (w : World) (call : Skill × Args)
      → (cached_or_executed py context turn index skill args w).called ≡ some call
      → (call ≡ (skill, args)) × IsFresh skill args w
  unfolding cached_or_executed execute
  cached-called skill args w call h = elim (Bool-cases (skill.risk == "read_only")) [
    | inl reads ↦
        let (same, missed, free) =
          share-called skill args (py.cache_key skill.name args) w
            (hit_of (lookup (py.cache_key skill.name args) w.cache)) call (simp reads at h) in
        (same, λ _. (missed, free))
    | inr other ↦
        (started-called skill args none w turn.start_error call (simp other at h), λ reads. cc)
  ]

  module _ (step : PlanStep Args) where
    -- The operator has approved the call, and the arguments are those of the approval.
    abbrev pub IsConfirmed : Args → World → Type 0
    IsConfirmed args w =
        (turn.decision ≡ some true)
        × ((resumed py context turn index step args true w).answer ≡ ok true)

    -- What stands behind a call of a skill.
    pub record IsCleared (skill : Skill) (args : Args) (w : World) : Type 0 where
      pub confirmed : skill.risk ≡ "mutating" → IsConfirmed args w
      pub may_mutate : skill.risk ≡ "mutating" → allows_mutation context.mode ≡ true
      pub fresh : IsFresh skill args w

    decision-called :
        (skill : Skill) (args : Args) (w : World) (decision : Bool)
        (answer : Result ApprovalError Bool) (call : Skill × Args)
        → (resumed py context turn index step args decision w).answer ≡ answer
        → (after_decision py context turn index step skill args
            (pausing py context turn index step
              (resumed py context turn index step args decision w)
              w)
            answer).called
          ≡ some call
        → (call ≡ (skill, args))
          × IsFresh skill args w
          × (decision ≡ true)
          × ((resumed py context turn index step args true w).answer ≡ ok true)
    unfolding await_approval
    decision-called skill args w decision (err e) call is h = cc
    decision-called skill args w decision (ok false) call is h = cc
    decision-called skill args w false (ok true) call is h =
        let clash : ◌≡◌ {A = Result ApprovalError Bool} (ok false) (ok true) = is in cc
    decision-called skill args w true (ok true) call is h =
        let (same, fresh) =
          cached-called skill args
            (pausing py context turn index step (resumed py context turn index step args true w) w)
            call h in
        (same, fresh, refl, is)

    ask-called :
        (skill : Skill) (args : Args) (w : World) (decision : Option Bool) (call : Skill × Args)
        → (ask py context turn index step skill args w decision).called ≡ some call
        → (call ≡ (skill, args))
          × IsFresh skill args w
          × (decision ≡ some true)
          × ((resumed py context turn index step args true w).answer ≡ ok true)
    ask-called skill args w none call h = cc
    ask-called skill args w (some decision) call h =
        let (same, fresh, yes', answer) = decision-called skill args w decision _ call refl h in
        (same, fresh, ap some yes', answer)

    approved-called :
        (skill : Skill) (args : Args) (w : World) (call : Skill × Args)
        → (approved py context turn index step skill args w).called ≡ some call
        → (call ≡ (skill, args))
          × IsFresh skill args w
          × (skill.risk ≡ "mutating" → IsConfirmed args w)
    unfolding approved should_pause_for_approval
    approved-called skill args w call h = elim (Bool-cases (skill.risk == "mutating")) [
      | inl mutates ↦
          let (same, fresh, decided, answer) =
            ask-called skill args w turn.decision call (simp mutates at h) in
          (same, fresh, λ _. (decided, answer))
      | inr other ↦
          let (same, fresh) = cached-called skill args w call (simp other at h) in
          (
            same,
            fresh,
            λ m. let that : (skill.risk == "mutating") ≡ true = (eq_iff skill.risk _).1 m in cc,
          )
    ]

    permitted-called :
        (skill : Skill) (args : Args) (w : World) (call : Skill × Args)
        → (permitted py context turn index step skill args w).called ≡ some call
        → (call ≡ (skill, args)) × IsCleared skill args w
    unfolding permitted
    permitted-called skill args w call h =
        elim (Bool-cases (skill.risk == "mutating" && not (allows_mutation context.mode))) [
          | inr fine ↦
              let (same, fresh, confirmed) = approved-called skill args w call (simp fine at h) in
              (
                same,
                record {
                  confirmed = confirmed;
                  may_mutate = λ m.
                      let that : (skill.risk == "mutating") ≡ true = (eq_iff skill.risk _).1 m in
                      ground (arith, fine, that);
                  fresh = fresh;
                },
              )
          | inl barred ↦ elim (Bool-cases (simulates_mutation context.mode)) [
            | inl dry ↦
                let nothing : ◌≡◌ {A = Option (Skill × Args)} none (some call) =
                  simp (barred, dry) at h in
                cc
            | inr refuses ↦
                let nothing : ◌≡◌ {A = Option (Skill × Args)} none (some call) =
                  simp (barred, refuses) at h in
                cc
          ]
        ]

    -- The call comes after every gate.
    abbrev pub Passed : Dict ℕ Json → World → Skill → Args → Type 0
    Passed results w skill args =
        (context.cancelled ≡ false)
        × (resolve_args py.int results step.args ≡ ok args)
        × (approval_gate_blocks skill.name context.principal.tenant_id turn.catalogue_at_gate
            ≡ none)
        × IsCleared skill args w

    gated-called :
        (skill : Skill) (args : Args) (w : World) (blocked : Option Reason) (call : Skill × Args)
        → (gated py context turn index step skill args w blocked).called ≡ some call
        → (call ≡ (skill, args)) × (blocked ≡ none) × IsCleared skill args w
    gated-called skill args w (some reason) call h = cc
    gated-called skill args w none call h =
        let (same, cleared) = permitted-called skill args w call h in (same, refl, cleared)

    synthesized_world :
        (synthesis : Synthesis) (w w' : World) (skill : Skill)
        → synthesize index step.skill_name synthesis w ≡ provided skill w'
        → w' ≡ w
    synthesized_world no_factory w w' skill h = cc
    synthesized_world (synthesizes s) w w' skill h = cc
    synthesized_world (awaits_approval e) w w' skill h = cc
    synthesized_world (fails e) w w' skill h = cc
    synthesized_world (raises e) w w' skill h = cc

    checked_world :
        (reason : Option Reason) (w w' : World) (skill : Skill)
        → after_pending_check index step.skill_name turn.synthesis w reason ≡ provided skill w'
        → w' ≡ w
    checked_world (some reason) w w' skill h = cc
    checked_world none w w' skill h = synthesized_world turn.synthesis w w' skill h

    -- A skill is provided in the world as it was.
    provided_world :
        (registered : Option Skill) (w w' : World) (skill : Skill)
        → get_skill index step.skill_name context.principal.tenant_id turn w registered
          ≡ provided skill w'
        → w' ≡ w
    unfolding synthesize_missing_skill
    provided_world (some s) w w' skill h = cc
    provided_world none w w' skill h = checked_world _ w w' skill h

    with_skill-called :
        (args : Args) (p : Provided) (w : World) (call : Skill × Args)
        → ((w' : World) (skill : Skill) → p ≡ provided skill w' → w' ≡ w)
        → (with_skill py context turn index step args p).called ≡ some call
        → (skill : Skill) × (call ≡ (skill, args))
          × (approval_gate_blocks skill.name context.principal.tenant_id turn.catalogue_at_gate
              ≡ none)
          × IsCleared skill args w
    with_skill-called args (provided skill w') w call same_world h =
        let (same, open', cleared) = gated-called skill args w' _ call h in
        (skill, same, open', subst (IsCleared skill args) (same_world w' skill refl) cleared)
    with_skill-called args (unavailable reason w') w call same_world h = cc
    with_skill-called args (lost e w') w call same_world h = cc

    with_args-called :
        (results : Dict ℕ Json) (w : World) (reply : Result ReferenceError Args)
        (call : Skill × Args)
        → (with_args py context turn index step w reply).called ≡ some call
        → (skill : Skill) × (args : Args) × (call ≡ (skill, args))
          × (reply ≡ ok args)
          × (approval_gate_blocks skill.name context.principal.tenant_id turn.catalogue_at_gate
              ≡ none)
          × IsCleared skill args w
    with_args-called results w (err e) call h = cc
    with_args-called results w (ok args) call h =
        let (skill, same, open', cleared) =
          with_skill-called args _ w call (λ w' s. provided_world turn.registered w w' s) h in
        (skill, args, same, refl, open', cleared)

    pub run_step-called :
        (results : Dict ℕ Json) (w : World) (skill : Skill) (args : Args)
        → (run_step py context turn index step results w).called ≡ some (skill, args)
        → Passed results w skill args
    unfolding run_step
    run_step-called results w skill args h = elim (Bool-cases context.cancelled) [
      | inl stopped ↦
          let nothing : ◌≡◌ {A = Option (Skill × Args)} none (some (skill, args)) =
            simp stopped at h in
          cc
      | inr live ↦
          let (s, a, same, resolved, open', cleared) =
            with_args-called results w (resolve_args py.int results step.args) (skill, args)
              (simp live at h) in
          let skill_same : s ≡ skill = ap (λ (v : Skill × Args). v.0) (sym same) in
          let args_same : a ≡ args = ap (λ (v : Skill × Args). v.1) (sym same) in
          (
            live,
            resolved ∙ ap ok args_same,
            subst
                (λ (v : Skill).
                  approval_gate_blocks v.name context.principal.tenant_id turn.catalogue_at_gate
                  ≡ none)
                skill_same open',
            subst (λ (v : Skill × Args). IsCleared v.0 v.1 w) (sym same) cleared,
          )
    ]
