-- ===== src/Gate/Tests.antt =====
-- Requests at the gate, and its theorems at them.
use praxis_ai_agent_platform.Common.{
  ◌≡◌, ◌≢◌, ◌⊎◌, true, false, none, some, [], ◌∷◌, arith, eq_iff, nat_eq, string_eq,
}
use praxis_ai_agent_platform.Policy.{
  task_read, tenant_admin, Principal, Resource, not_granted, effective_permissions,
}
use praxis_ai_agent_platform.Gate.{granted, not_found, forbidden, authorize_resource}
use praxis_ai_agent_platform.Gate.Laws.{no_existence_oracle, authorize_resource_cases}

abbrev viewer : Principal
viewer = record {
  tenant_id = "acme";
  user_id = some "u2";
  email = "v@acme.com";
  roles = "viewer" ∷ [];
  scopes = none;
  api_key_id = none;
  is_system = false;
}

abbrev own_task : Resource
own_task = record { resource_type = "task"; resource_id = some "t1"; owner = some "acme" }

no_existence_oracle_example :
    authorize_resource true viewer task_read (record own_task { owner = some "globex" }) []
    ≡ authorize_resource true viewer task_read (record own_task { owner = none }) []
no_existence_oracle_example =
    no_existence_oracle true viewer task_read own_task "globex" []
      (λ e. ground (arith, eq_iff "globex" "acme"))

authorize_resource_cases_example :
    let response = (authorize_resource false viewer tenant_admin own_task []).0 in
    ((own_task.owner ≡ some "acme")
      × (effective_permissions viewer tenant_admin ≡ true)
      × (response ≡ granted))
    ⊎ ((own_task.owner ≡ some "acme")
        × (effective_permissions viewer tenant_admin ≡ false)
        × (response ≡ forbidden (not_granted ("viewer" ∷ []) none tenant_admin)))
    ⊎ ((own_task.owner ≢ some "acme") × (response ≡ not_found "task" (some "t1")))
authorize_resource_cases_example = authorize_resource_cases false viewer tenant_admin own_task []
