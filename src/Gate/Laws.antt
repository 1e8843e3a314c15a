-- ===== src/Gate/Laws.antt =====
-- What a request for one resource shows to its caller and to the tenant's audit log.
use praxis_ai_agent_platform.Common.{
  String, ◌≡◌, refl, ◌≢◌, ◌↔◌, ◌⊎◌, inl, inr, Bool, true, false, none, some, List, [], ◌∷◌, ◌++◌,
  arith, eq_iff, ◌==◌, nat_eq, string_eq, Bool-cases, Option-cases,
}
use praxis_ai_agent_platform.Policy.{
  Permission, Principal, not_granted, Resource, effective_permissions,
}
use praxis_ai_agent_platform.Gate.{
  AuditRow, granted, not_found, forbidden, resource_decision, authorize_resource,
}

-- A resource of another tenant cannot be told from one that does not exist: the answer and the audit
-- log are the same, whichever other tenant owns it, whatever the caller's permissions are, and
-- whether or not the log can be written.
pub no_existence_oracle :
    (stored : Bool) (principal : Principal) (permission : Permission) (resource : Resource)
    (owner : String) (log : List AuditRow)
    → owner ≢ principal.tenant_id
    → authorize_resource stored principal permission (record resource { owner = some owner }) log
      ≡ authorize_resource stored principal permission (record resource { owner = none }) log
unfolding authorize_resource
no_existence_oracle stored principal permission resource owner log foreign =
    let e : (owner == principal.tenant_id) ≡ false =
      ground (arith, eq_iff owner principal.tenant_id) in
    rw e refl

-- The request passes if the resource exists in the caller's tenant and the permission is effective.
-- If the permission is not, the answer is the 403 with the reason, and if the resource is not there
-- the 404, whatever the permission.
pub authorize_resource_cases :
    (stored : Bool) (principal : Principal) (permission : Permission) (resource : Resource)
    (log : List AuditRow)
    → let response = (authorize_resource stored principal permission resource log).0 in
      ((resource.owner ≡ some principal.tenant_id)
        × (effective_permissions principal permission ≡ true)
        × (response ≡ granted))
      ⊎ ((resource.owner ≡ some principal.tenant_id)
          × (effective_permissions principal permission ≡ false)
          × (response ≡ forbidden (not_granted principal.roles principal.scopes permission)))
      ⊎ ((resource.owner ≢ some principal.tenant_id)
          × (response ≡ not_found resource.resource_type resource.resource_id))
unfolding authorize_resource
authorize_resource_cases stored principal permission resource log =
    elim (Option-cases resource.owner) [
      | inl e ↦ inr (inr ((λ h. cc), ground arith))
      | inr (owner, e) ↦ elim (Bool-cases (owner == principal.tenant_id)) [
        | inr n ↦ inr (inr ((λ h. ground (arith, eq_iff owner principal.tenant_id)), ground arith))
        | inl y ↦
            let own : owner ≡ principal.tenant_id = (eq_iff owner principal.tenant_id).0 y in
            elim (Bool-cases (effective_permissions principal permission)) [
              | inl may ↦ inl (cc, may, ground arith)
              | inr may_not ↦ inr (inl (cc, may_not, ground arith))
            ]
      ]
    ]

-- Every request leaves one row behind if the log can be written, with the caller's tenant and
-- whether it passed.
pub every_request_audited :
    (principal : Principal) (permission : Permission) (resource : Resource) (log : List AuditRow)
    → let r = authorize_resource true principal permission resource log in
      (row : AuditRow) × (r.1 ≡ log ++ row ∷ [])
      × (row.tenant_id ≡ principal.tenant_id)
      × ((row.decision ≡ true) ↔ (r.0 ≡ granted))
unfolding authorize_resource
every_request_audited principal permission resource log =
    let d = resource_decision principal permission resource in
    (
      record {
        tenant_id = principal.tenant_id;
        actor_user_id = principal.user_id;
        action = d.permission;
        resource_type = d.resource_type;
        resource_id = d.resource_id;
        decision = d.allowed;
        reason = d.reason;
      },
      refl,
      refl,
      ((λ h. ground arith), (λ h. ground arith)),
    )
