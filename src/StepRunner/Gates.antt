-- ===== src/StepRunner/Gates.antt =====
-- praxis/core/orchestrator.py: `_approval_gate_blocks`, `_pending_capability_status` and
-- `_synthesize_missing_skill`.
use praxis_ai_agent_platform.Common.{
  ℕ, String, Bool, ◌&&◌, Option, none, some, List, [], ◌∷◌, if◌then◌else◌, ◌==◌, nat_eq, string_eq,
  filter, any,
}
use praxis_ai_agent_platform.Modes.{Skill}
use praxis_ai_agent_platform.Checklist.{
  Reason, synthesized_elsewhere, not_approved, not_registered, synthesis_failed, reported,
}
use praxis_ai_agent_platform.Publication.{SkillRecord, SkillStatus, is_callable_status}
use praxis_ai_agent_platform.Publication
use praxis_ai_agent_platform.StepRunner.{
  World, Turn, Synthesis, no_factory, synthesizes, awaits_approval, fails, raises, Escape,
  synthesis_raised, update_checklist,
}

abbrev pub any_callable : List SkillRecord → Bool
any_callable rows = any (λ r. is_callable_status r.status) rows

-- the statuses that a reason names; the code sorts them and drops repetitions
abbrev pub statuses_of : List SkillRecord → List SkillStatus
statuses_of [] = []
statuses_of (r ∷ rs) = r.status ∷ statuses_of rs

abbrev pub blocked_for : String → List SkillRecord → Option Reason
blocked_for skill_name [] = some (synthesized_elsewhere skill_name)
blocked_for skill_name (r ∷ rs) =
    if any_callable (r ∷ rs) then none else some (not_approved skill_name (statuses_of (r ∷ rs)))

abbrev pub blocked_among : String → String → List SkillRecord → Option Reason
blocked_among skill_name tenant_id [] = none
blocked_among skill_name tenant_id (r ∷ rs) =
    blocked_for skill_name (filter (λ row. row.tenant_id == tenant_id) (r ∷ rs))

-- `_approval_gate_blocks`: why the skill may not run, or none if it may
unfoldable pub approval_gate_blocks : String → String → Publication.Table → Option Reason
approval_gate_blocks skill_name tenant_id rows =
    blocked_among skill_name tenant_id
      (filter (λ row. row.synthesized) (filter (λ row. row.name == skill_name) rows))

abbrev pub pending_among : String → List SkillRecord → Option Reason
pending_among skill_name [] = none
pending_among skill_name (r ∷ rs) =
    if any_callable (r ∷ rs) then none else some (not_approved skill_name (statuses_of (r ∷ rs)))

-- `_pending_capability_status`
unfoldable pub pending_capability_status : String → String → Publication.Table → Option Reason
pending_capability_status skill_name tenant_id rows =
    pending_among skill_name (
      filter (λ row. row.tenant_id == tenant_id && (row.name == skill_name && row.synthesized))
        rows)

-- A skill, why there is none, or an exception that is not caught; and the world after.
pub data Provided : Type 0 where
  provided : Skill → World → Provided
  unavailable : Reason → World → Provided
  lost : Escape → World → Provided

-- the answer of the factory; the row that it adds stands in the catalogue that the gate reads
abbrev pub synthesize : ℕ → String → Synthesis → World → Provided
synthesize index skill_name no_factory w =
    unavailable (not_registered skill_name)
      (update_checklist index "skipped" (some (not_registered skill_name)) w)
synthesize index skill_name (synthesizes skill) w = provided skill w
synthesize index skill_name (awaits_approval error) w = unavailable (reported error) w
synthesize index skill_name (fails error) w =
    unavailable (synthesis_failed skill_name error)
      (update_checklist index "failed" (some (synthesis_failed skill_name error)) w)
synthesize index skill_name (raises error) w = lost (synthesis_raised error) w

abbrev pub after_pending_check : ℕ → String → Synthesis → World → Option Reason → Provided
after_pending_check index skill_name synthesis w (some reason) = unavailable reason w
after_pending_check index skill_name synthesis w none = synthesize index skill_name synthesis w

-- `_synthesize_missing_skill`
unfoldable pub synthesize_missing_skill : ℕ → String → String → Turn → World → Provided
unfolding pending_capability_status update_checklist
synthesize_missing_skill index skill_name tenant_id turn w =
    after_pending_check index skill_name turn.synthesis w
      (pending_capability_status skill_name tenant_id turn.catalogue)

-- `self._skills.get_skill`, and the synthesis where it raises `KeyError`
abbrev pub get_skill : ℕ → String → String → Turn → World → Option Skill → Provided
get_skill index skill_name tenant_id turn w (some skill) = provided skill w
get_skill index skill_name tenant_id turn w none =
    synthesize_missing_skill index skill_name tenant_id turn w
