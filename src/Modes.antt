-- ===== src/Modes.antt =====
-- praxis/core/execution_mode.py, with the risk test of praxis/core/risk_policy.py and the fields of
-- `Skill` (praxis/agents/skill.py) that these and the step runner read.
use praxis_ai_agent_platform.Common.{
  String, Bool, true, false, not, ◌||◌, List, if◌then◌else◌, ◌==◌, nat_eq, string_eq, filter, Dict,
}

pub record Skill : Type 0 where
  pub name : String
  pub risk : String
  pub outputs : Dict String String

pub data ExecutionMode : Type 0 where
  plan_only read_only dry_run execute : ExecutionMode

-- `allows_execution`
abbrev pub allows_execution : ExecutionMode → Bool
allows_execution plan_only = false
allows_execution read_only = true
allows_execution dry_run = true
allows_execution execute = true

-- `allows_mutation`
abbrev pub allows_mutation : ExecutionMode → Bool
allows_mutation execute = true
allows_mutation plan_only = false
allows_mutation read_only = false
allows_mutation dry_run = false

-- `simulates_mutation`
abbrev pub simulates_mutation : ExecutionMode → Bool
simulates_mutation dry_run = true
simulates_mutation plan_only = false
simulates_mutation read_only = false
simulates_mutation execute = false

-- the values of the members
abbrev pub mode_value : ExecutionMode → String
mode_value plan_only = "plan_only"
mode_value read_only = "read_only"
mode_value dry_run = "dry_run"
mode_value execute = "execute"

-- `visible_skills`
unfoldable pub visible_skills : List Skill → ExecutionMode → List Skill
visible_skills skills mode =
    if allows_mutation mode || simulates_mutation mode
    then skills
    else filter (λ skill. not (skill.risk == "mutating")) skills

-- `should_pause_for_approval`
unfoldable pub should_pause_for_approval : Skill → Bool
should_pause_for_approval skill = skill.risk == "mutating"
