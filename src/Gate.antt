-- ===== src/Gate.antt =====
-- `authorize_resource` and `authorize_resource_or_404` of praxis/api/dependencies.py, with
-- `AuditLogger` of praxis/security/audit.py.
pub mod Laws
mod Tests
use praxis_ai_agent_platform.Common.{
  String, Bool, true, false, not, Option, none, some, List, [], ◌∷◌, ◌++◌, if◌then◌else◌, ◌==◌,
  nat_eq, string_eq,
}
use praxis_ai_agent_platform.Policy.{
  Permission, Principal, Reason, unavailable, PolicyDecision, Resource, describe, check,
}

-- One row of the audit log, as `record_decision` writes it. `detail` is empty and there is no
-- correlation id; the action is the decision's permission.
pub record AuditRow : Type 0 where
  pub tenant_id : String
  pub actor_user_id : Option String
  pub action : Permission
  pub resource_type : String
  pub resource_id : Option String
  pub decision : Bool
  pub reason : Reason

-- `record_decision`. A write that the database refuses is swallowed: `stored` says whether it works.
unfoldable pub record_decision : Bool → Principal → PolicyDecision → List AuditRow → List AuditRow
record_decision stored principal d log =
    if stored
    then log
      ++ record {
        tenant_id = principal.tenant_id;
        actor_user_id = principal.user_id;
        action = d.permission;
        resource_type = d.resource_type;
        resource_id = d.resource_id;
        decision = d.allowed;
        reason = d.reason;
      }
        ∷ []
    else log

-- The answers: no exception, the 404 that names the type and the id, the 403 with the reason.
pub data Response : Type 0 where
  granted : Response
  not_found : String → Option String → Response
  forbidden : Reason → Response

-- the decision for a row that is not there, and the engine's for one that is
unfoldable pub resource_decision : Principal → Permission → Resource → PolicyDecision
unfolding check describe
resource_decision principal permission resource = elim resource.owner [
  | none ↦ record {
    allowed = false;
    permission = permission;
    principal = describe principal;
    tenant_id = principal.tenant_id;
    resource_type = resource.resource_type;
    resource_id = resource.resource_id;
    reason = unavailable;
  }
  | some owner ↦ check principal permission (record resource { owner = some owner })
]

-- `resource_tenant_id != principal.tenant_id`
abbrev differs : Option String → String → Bool
differs none tenant = true
differs (some owner) tenant = not (owner == tenant)

-- `authorize_resource`: the answer, and the audit log after it
unfoldable pub authorize_resource :
    Bool → Principal → Permission → Resource → List AuditRow → Response × List AuditRow
unfolding record_decision resource_decision
authorize_resource stored principal permission resource log =
    let decision = resource_decision principal permission resource in
    let response : Response =
      if decision.allowed
      then granted
      else if differs resource.owner principal.tenant_id
      then not_found resource.resource_type resource.resource_id
      else forbidden decision.reason in
    (response, record_decision stored principal decision log)
