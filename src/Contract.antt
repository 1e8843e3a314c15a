-- ===== src/Contract.antt =====
-- praxis/agents/contract.py: what a supervisor hands to a specialist, and what it hands back.
-- Identifiers of tasks are made elsewhere and are arguments; a time is a number of seconds, and the
-- free-form inputs, artifacts and criteria are of types that the contract does not look into.
pub mod Laws
mod Tests
use praxis_ai_agent_platform.Common.{
  ℕ, ◌+◌, String, Bool, true, false, ◌&&◌, ◌||◌, Option, none, some, List, [], ◌∷◌, leb, nat_eq,
  string_eq, filter, contains, Dict, Json,
}
use praxis_ai_agent_platform.Budget.{Budget}

pub record ArtifactRef : Type 0 where
  pub key : String
  pub mime_type : String
  pub description : String

pub record AcceptanceCriterion : Type 0 where
  pub description : String
  pub check : Option String
  pub expected : String

pub record TaskContract : Type 0 where
  pub objective : String
  pub task_id : String
  pub parent_id : Option String
  pub tenant_id : String
  pub inputs : Dict String Json
  pub artifacts : List ArtifactRef
  pub output_schema : Dict String String
  pub authorized_tools : List String
  pub acceptance_criteria : List AcceptanceCriterion
  pub budget : Option Budget
  pub deadline : Option ℕ
  pub depth : ℕ

-- `value if value is not None else other`, on the arguments that may be left out
abbrev pub or_else {ℓ} : {A : Type ℓ} → Option A → A → A
or_else none other = other
or_else (some value) other = value

-- The keyword arguments of `child_of`.
pub record ChildRequest : Type 0 where
  pub objective : String
  pub tools : Option (List String)
  pub inputs : Option (Dict String Json)
  pub output_schema : Option (Dict String String)
  pub acceptance_criteria : Option (List AcceptanceCriterion)
  pub budget : Option Budget

-- `if parent.authorized_tools`: an empty tuple is false
unfoldable pub granted_tools : List String → List String → List String
granted_tools [] requested = requested
granted_tools (t ∷ ts) requested = filter (λ tool. contains (t ∷ ts) tool) requested

-- `TaskContract.child_of`
unfoldable pub child_of : String → TaskContract → ChildRequest → TaskContract
unfolding granted_tools
child_of task_id parent request = record {
  objective = request.objective;
  task_id = task_id;
  parent_id = some parent.task_id;
  tenant_id = parent.tenant_id;
  inputs = or_else request.inputs [];
  artifacts = parent.artifacts;
  output_schema = or_else request.output_schema [];
  authorized_tools =
      granted_tools parent.authorized_tools (or_else request.tools parent.authorized_tools);
  acceptance_criteria = or_else request.acceptance_criteria [];
  budget = elim request.budget [ none ↦ parent.budget | some b ↦ some b ];
  deadline = parent.deadline;
  depth = parent.depth + 1;
}

-- `with_deadline_in`
unfoldable pub with_deadline_in : ℕ → ℕ → TaskContract → TaskContract
with_deadline_in now seconds c = record c { deadline = some (now + seconds) }

-- `is_expired`
unfoldable pub is_expired : ℕ → TaskContract → Bool
is_expired now c = elim c.deadline [ none ↦ false | some deadline ↦ leb deadline now ]

-- `if not self.authorized_tools: return True`
abbrev pub permits : List String → String → Bool
permits [] tool = true
permits (t ∷ ts) tool = contains (t ∷ ts) tool

-- `authorizes`
unfoldable pub authorizes : TaskContract → String → Bool
authorizes c tool = permits c.authorized_tools tool

-- Contracts made from one another, the first made for the second.
pub data IsDerived (ancestor : TaskContract) : TaskContract → Type 0 where
  same : IsDerived ancestor ancestor
  made :
      {parent : TaskContract} (task_id : String) (request : ChildRequest)
      → IsDerived ancestor parent
      → IsDerived ancestor (child_of task_id parent request)

pub record SpecialistResult : Type 0 where
  pub task_id : String
  pub succeeded : Bool
  pub results : Dict String Json
  pub evidence : List (Dict String Json)
  pub limitations : List String
  pub errors : List String
  pub artifacts : List ArtifactRef
  pub spend : Dict String Json

-- `bool(xs)`
abbrev pub non_empty {ℓ} : {A : Type ℓ} → List A → Bool
non_empty [] = false
non_empty (x ∷ xs) = true

-- `is_partial`
unfoldable pub is_partial : SpecialistResult → Bool
is_partial r = r.succeeded && (non_empty r.limitations || non_empty r.errors)
