-- ===== src/Checklist.antt =====
-- The checklist of a task: its items, and the reasons that a step of praxis/core/orchestrator.py
-- leaves in them, in its errors and in the audit log. The text of a reason is kept as its parts.
use praxis_ai_agent_platform.Common.{ℕ, String, Option, List, nat_eq, string_eq}
use praxis_ai_agent_platform.Modes.{ExecutionMode}
use praxis_ai_agent_platform.Publication.{SkillStatus}

pub data Reason : Type 0 where
  -- a synthesized skill of other tenants only, and one that is not approved
  synthesized_elsewhere : (skill : String) → Reason
  not_approved : (skill : String) (statuses : List SkillStatus) → Reason
  -- a skill that is not registered, with what its synthesis raised
  not_registered : (skill : String) → Reason
  synthesis_failed : (skill error : String) → Reason
  reported : (error : String) → Reason
  simulated : ExecutionMode → Reason
  not_permitted : (index : ℕ) (skill : String) (mode : ExecutionMode) → Reason
  rejected_by_operator : Reason
  rejected : (index : ℕ) (skill : String) → Reason
  run_failed : (index : ℕ) (skill error : String) → Reason
  joined_failed : (index : ℕ) (skill error : String) → Reason
  step_failed : (index : ℕ) (why : Reason) → Reason

pub record ChecklistItem : Type 0 where
  pub content : String
  pub status : String
  pub reason : Option Reason
