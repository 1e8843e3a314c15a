-- ===== src/Publication.antt =====
-- praxis/agents/publication.py: the catalogue of skills and the lifecycle of their versions, with
-- `SkillManifest` and `SkillRecord`. The table is a list in the order of creation. A file system and
-- Python's import are explicit: the files with their contents, and the modules imported so far. The
-- text of a problem or an error is kept as its parts.
pub mod Operations
pub mod Decisions
pub mod Versions
pub mod Cases
pub mod Activation
pub mod Proposals
pub mod Effects
pub mod Approving
pub mod Rollbacks
pub mod Entries
pub mod Allowed
pub mod Rulings
mod Tests
use praxis_ai_agent_platform.Common.{
  ℕ, String, Bool, true, false, ◌&&◌, ◌||◌, Option, none, some, List, [], ◌∷◌, ◌++◌, if◌then◌else◌,
  ◌==◌, nat_eq, string_eq, filter, any, contains, find_first, Json, Dict, Result, ok, err,
}
use praxis_ai_agent_platform.Policy.{
  Principal, Permission, AuthorizationError, describe, effective_permissions, permission_of,
}

pub data SkillStatus : Type 0 where
  pending_approval active deprecated revoked : SkillStatus

-- `is_callable`
abbrev pub is_callable_status : SkillStatus → Bool
is_callable_status active = true
is_callable_status deprecated = true
is_callable_status pending_approval = false
is_callable_status revoked = false

-- `status == SkillStatus.ACTIVE.value`, and the same of `PENDING_APPROVAL`
abbrev pub is_active_status : SkillStatus → Bool
is_active_status active = true
is_active_status deprecated = false
is_active_status pending_approval = false
is_active_status revoked = false

abbrev pub is_pending_status : SkillStatus → Bool
is_pending_status pending_approval = true
is_pending_status active = false
is_pending_status deprecated = false
is_pending_status revoked = false

-- The fields of a manifest that publication reads.
pub record SkillManifest : Type 0 where
  pub name : String
  pub description : String
  pub owner : String
  pub risk : String
  pub inputs : Dict String String
  pub outputs : Dict String String
  pub required_permissions : List String
  pub supported_connectors : List String
  pub dependencies : List String
  pub model_requirements : Dict String Json
  pub execution_budget : Dict String Json
  pub test_cases : List Json
  pub source_path : String
  pub synthesized : Bool

-- The owner that a manifest names, or else the requester as `describe` gives it.
pub data Owner : Type 0 where
  named : String → Owner
  requester : String × String → Owner

-- A row. Its id, its time of creation, its health and its definition are never read here.
pub record SkillRecord : Type 0 where
  pub tenant_id : String
  pub name : String
  pub version : ℕ
  pub status : SkillStatus
  pub risk : String
  pub synthesized : Bool
  pub inputs_schema : Dict String String
  pub outputs_schema : Dict String String
  pub owner : Owner
  pub description : String
  pub required_permissions : List String
  pub supported_connectors : List String
  pub dependencies : List String
  pub model_requirements : Dict String Json
  pub execution_budget : Dict String Json
  pub test_cases : List Json
  pub code_hash : String
  pub source_path : String
  pub approved_by_user_id : Option String
  pub approved_at : Option ℕ

abbrev pub Table : Type 0
Table = List SkillRecord

-- What a policy check finds: a dependency, an unknown permission, one that the requester lacks with
-- the requester, and a risk level.
pub data Problem : Type 0 where
  not_allowed : (dependency : String) → Problem
  unknown_permission : String → Problem
  not_held : String → String × String → Problem
  invalid_risk : String → Problem

-- `PublicationError` by its reason, the error of `authorize`, `MultipleResultsFound` of
-- `scalar_one_or_none`, and what an import raises.
pub data PublicationError : Type 0 where
  policy_check_failed : List Problem → PublicationError
  not_found : PublicationError
  wrong_status : SkillStatus → PublicationError
  code_hash_mismatch : (actual expected : String) → PublicationError
  never_approved : PublicationError
  unauthorized : AuthorizationError → PublicationError
  multiple_results : PublicationError
  import_failed : String → PublicationError

-- the problem that one dependency is
abbrev pub dependency_problem : List String → String → List Problem
dependency_problem permitted dependency =
    if contains permitted dependency then [] else not_allowed dependency ∷ []

unfoldable pub dependency_problems : List String → List String → List Problem
dependency_problems permitted [] = []
dependency_problems permitted (d ∷ ds) =
    dependency_problem permitted d ++ dependency_problems permitted ds

-- the body of the loop over the permissions
abbrev pub permission_problem : Principal → String → Option Permission → List Problem
permission_problem principal raw none = unknown_permission raw ∷ []
permission_problem principal raw (some p) =
    if effective_permissions principal p then [] else not_held raw (describe principal) ∷ []

unfoldable pub permission_problems : Principal → List String → List Problem
permission_problems principal [] = []
permission_problems principal (raw ∷ raws) =
    permission_problem principal raw (permission_of raw) ++ permission_problems principal raws

abbrev pub risk_problems : String → List Problem
risk_problems risk =
    if risk == "read_only" || risk == "mutating" then [] else invalid_risk risk ∷ []

-- `check_publication_policy`, whose result passes when this is empty
unfoldable pub check_publication_policy : List String → Principal → SkillManifest → List Problem
unfolding dependency_problems permission_problems
check_publication_policy permitted principal manifest =
    dependency_problems permitted manifest.dependencies
    ++ permission_problems principal manifest.required_permissions
    ++ risk_problems manifest.risk

-- the `where` clauses of the queries
unfoldable pub is_named : String → String → SkillRecord → Bool
is_named tenant_id name r = r.tenant_id == tenant_id && r.name == name

unfoldable pub is_version : String → String → ℕ → SkillRecord → Bool
unfolding is_named
is_version tenant_id name version r = is_named tenant_id name r && r.version == version

unfoldable pub is_active : String → String → SkillRecord → Bool
unfolding is_named
is_active tenant_id name r = is_named tenant_id name r && is_active_status r.status

-- `scalar_one_or_none`
abbrev pub scalar_one_or_none : Table → Result PublicationError (Option SkillRecord)
scalar_one_or_none [] = ok none
scalar_one_or_none (r ∷ []) = ok (some r)
scalar_one_or_none (r ∷ r' ∷ rs) = err multiple_results

-- `active_version`
unfoldable pub active_version : String → String → Table → Option SkillRecord
unfolding is_active
active_version tenant_id name db = find_first (is_active tenant_id name) db

-- `pending`
unfoldable pub pending : String → Table → List SkillRecord
pending tenant_id db = filter (λ r. r.tenant_id == tenant_id && is_pending_status r.status) db

-- `SkillPublisher.is_callable`
unfoldable pub is_callable : String → String → Table → Bool
unfolding is_named
is_callable tenant_id name db =
    any (λ r. is_callable_status r.status) (filter (is_named tenant_id name) db)
