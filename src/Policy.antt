-- ===== src/Policy.antt =====
-- praxis/security/policy.py and `Principal` of praxis/security/principal.py.
pub mod Laws
mod Tests
use praxis_ai_agent_platform.Common.{
  String, Bool, true, false, not, ◌&&◌, ◌||◌, Option, none, some, List, [], ◌∷◌, if◌then◌else◌,
  ◌==◌, nat_eq, string_eq, Result, ok, err,
}

-- `Permission`, with the string values of its members in `value_of`.
pub data Permission : Type 0 where
  task_create task_read task_approve task_cancel : Permission
  attachment_upload attachment_read attachment_delete : Permission
  connector_read connector_write : Permission
  skill_read skill_synthesize skill_approve : Permission
  dashboard_read dashboard_write : Permission
  schedule_read schedule_write : Permission
  tenant_admin audit_read : Permission

unfoldable pub value_of : Permission → String
value_of task_create = "task:create"
value_of task_read = "task:read"
value_of task_approve = "task:approve"
value_of task_cancel = "task:cancel"
value_of attachment_upload = "attachment:upload"
value_of attachment_read = "attachment:read"
value_of attachment_delete = "attachment:delete"
value_of connector_read = "connector:read"
value_of connector_write = "connector:write"
value_of skill_read = "skill:read"
value_of skill_synthesize = "skill:synthesize"
value_of skill_approve = "skill:approve"
value_of dashboard_read = "dashboard:read"
value_of dashboard_write = "dashboard:write"
value_of schedule_read = "schedule:read"
value_of schedule_write = "schedule:write"
value_of tenant_admin = "tenant:admin"
value_of audit_read = "audit:read"

-- `_ALL_PERMISSIONS`, in the order of declaration
unfoldable pub all_permissions : List Permission
all_permissions =
    task_create ∷ task_read ∷ task_approve ∷ task_cancel ∷ attachment_upload ∷ attachment_read
    ∷ attachment_delete ∷ connector_read ∷ connector_write ∷ skill_read ∷ skill_synthesize
    ∷ skill_approve ∷ dashboard_read ∷ dashboard_write ∷ schedule_read ∷ schedule_write
    ∷ tenant_admin ∷ audit_read ∷ []

-- A `frozenset[Permission]` is its membership test.
abbrev pub Permissions : Type 0
Permissions = Permission → Bool

-- `_VIEWER_PERMISSIONS`
unfoldable pub viewer_permissions : Permissions
viewer_permissions task_read = true
viewer_permissions attachment_read = true
viewer_permissions connector_read = true
viewer_permissions skill_read = true
viewer_permissions dashboard_read = true
viewer_permissions schedule_read = true
viewer_permissions _ = false

-- what `_ANALYST_PERMISSIONS` adds
analyst_extra : Permissions
analyst_extra task_create = true
analyst_extra task_cancel = true
analyst_extra attachment_upload = true
analyst_extra dashboard_write = true
analyst_extra skill_synthesize = true
analyst_extra schedule_write = true
analyst_extra _ = false

unfoldable pub analyst_permissions : Permissions
unfolding viewer_permissions analyst_extra
analyst_permissions p = viewer_permissions p || analyst_extra p

-- what `_OPERATOR_PERMISSIONS` adds
operator_extra : Permissions
operator_extra task_approve = true
operator_extra connector_write = true
operator_extra attachment_delete = true
operator_extra _ = false

unfoldable pub operator_permissions : Permissions
unfolding analyst_permissions operator_extra
operator_permissions p = analyst_permissions p || operator_extra p

-- `ROLE_PERMISSIONS.get(role, frozenset())`
unfoldable pub role_permissions : String → Permissions
unfolding operator_permissions analyst_permissions viewer_permissions
role_permissions role p =
    if role == "system" || role == "admin"
    then true
    else if role == "operator"
    then operator_permissions p
    else if role == "analyst"
    then analyst_permissions p
    else if role == "viewer"
    then viewer_permissions p
    else false

pub record Principal : Type 0 where
  pub tenant_id : String
  pub user_id : Option String
  pub email : String
  pub roles : List String
  pub scopes : Option (List String)
  pub api_key_id : Option String
  pub is_system : Bool

-- `with_scopes`
unfoldable pub with_scopes : Option (List String) → Principal → Principal
with_scopes scopes principal = record principal { scopes = scopes }

-- The default tenant's id is a constant of praxis/memory/models.py.
unfoldable pub system_principal_for_tenant : String → Principal
system_principal_for_tenant tenant = record {
  tenant_id = tenant;
  user_id = none;
  email = "system@praxis";
  roles = "system" ∷ [];
  scopes = none;
  api_key_id = none;
  is_system = true;
}

-- the union over the roles
granted : List String → Permissions
granted [] p = false
granted (role ∷ roles) p = role_permissions role p || granted roles p

find_permission : String → List Permission → Option Permission
find_permission scope [] = none
find_permission scope (p ∷ ps) =
    let rest = find_permission scope ps in if value_of p == scope then some p else rest

-- `Permission(scope)`: `none` where it raises `ValueError`
unfoldable pub permission_of : String → Option Permission
unfolding find_permission value_of all_permissions
permission_of scope = find_permission scope all_permissions

-- members of a `str` Enum are equal when their values are
abbrev is_permission : Permission → Option Permission → Bool
is_permission p none = false
is_permission p (some q) = value_of q == value_of p

-- the set that the loop over the scopes builds
unfoldable pub scoped : List String → Permissions
unfolding permission_of
scoped [] p = false
scoped (scope ∷ scopes) p = is_permission p (permission_of scope) || scoped scopes p

-- `PolicyEngine.effective_permissions`
unfoldable pub effective_permissions : Principal → Permissions
unfolding granted role_permissions scoped
effective_permissions principal p = elim principal.scopes [
  | none ↦ granted principal.roles p
  | some scopes ↦ granted principal.roles p && scoped scopes p
]

abbrev or_anonymous : Option String → String
or_anonymous none = "anonymous"
or_anonymous (some user) = if user == "" then "anonymous" else user

-- `describe`, by the parts of its text: what stands before the `@`, and the tenant
unfoldable pub describe : Principal → String × String
describe principal = (
  (if principal.is_system
      then "system"
      else if not (principal.email == "")
      then principal.email
      else or_anonymous principal.user_id),
  principal.tenant_id,
)

-- The reason of a decision: `UNAVAILABLE_REASON`, the text that names the roles, the scopes and the
-- permission, and "granted".
pub data Reason : Type 0 where
  unavailable : Reason
  not_granted : List String → Option (List String) → Permission → Reason
  is_granted : Reason

pub record PolicyDecision : Type 0 where
  pub allowed : Bool
  pub permission : Permission
  pub principal : String × String
  pub tenant_id : String
  pub resource_type : String
  pub resource_id : Option String
  pub reason : Reason

-- The resource of a request: its type, its id, and the tenant that owns it.
pub record Resource : Type 0 where
  pub resource_type : String
  pub resource_id : Option String
  pub owner : Option String

-- `resource_tenant_id is not None and resource_tenant_id != principal.tenant_id`
abbrev pub is_foreign : Option String → String → Bool
is_foreign none tenant = false
is_foreign (some owner) tenant = not (owner == tenant)

unfoldable pub decide : Principal → Permission → Resource → Bool → Reason → PolicyDecision
unfolding describe
decide principal permission resource allowed reason = record {
  allowed = allowed;
  permission = permission;
  principal = describe principal;
  tenant_id = principal.tenant_id;
  resource_type = resource.resource_type;
  resource_id = resource.resource_id;
  reason = reason;
}

-- `PolicyEngine.check`
unfoldable pub check : Principal → Permission → Resource → PolicyDecision
unfolding decide
check principal permission resource =
    if is_foreign resource.owner principal.tenant_id
    then decide principal permission resource false unavailable
    else if not (effective_permissions principal permission)
    then decide principal permission resource false
        (not_granted principal.roles principal.scopes permission)
    else decide principal permission resource true is_granted

pub data AuthorizationError : Type 0 where
  tenant_isolation : Reason → String → Option String → AuthorizationError
  permission_denied : Reason → Permission → String × String → AuthorizationError

-- `PolicyEngine.authorize`
unfoldable pub authorize :
    Principal → Permission → Resource → Result AuthorizationError PolicyDecision
unfolding check
authorize principal permission resource =
    let decision = check principal permission resource in
    if decision.allowed
    then ok decision
    else if is_foreign resource.owner principal.tenant_id
    then err (tenant_isolation decision.reason principal.tenant_id resource.owner)
    else err (permission_denied decision.reason permission (describe principal))
