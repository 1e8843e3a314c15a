-- ===== src/Policy/Tests.antt =====
-- Decisions of the policy engine on sample principals, and its theorems at them.
use praxis_ai_agent_platform.Common.{
  ◌≡◌, refl, ◌↔◌, true, false, none, some, [], ◌∷◌, nat_eq, string_eq, contains, err,
}
use praxis_ai_agent_platform.Policy.{
  task_read, connector_write, value_of, Principal, with_scopes, effective_permissions, describe,
  unavailable, Resource, check, authorize, tenant_isolation,
}
use praxis_ai_agent_platform.Policy.Laws.{IsOwn, check_iff, scopes_narrow}

abbrev operator : Principal
operator = record {
  tenant_id = "acme";
  user_id = some "u1";
  email = "";
  roles = "operator" ∷ "no-such-role" ∷ [];
  scopes = none;
  api_key_id = none;
  is_system = false;
}

abbrev task : Resource
task = record { resource_type = "task"; resource_id = some "t1"; owner = some "globex" }

foreign_is_refused :
    authorize operator task_read task ≡ err (tenant_isolation unavailable "acme" (some "globex"))
unfolding authorize
foreign_is_refused = refl

described : describe operator ≡ ("u1", "acme")
unfolding describe
described = refl

check_iff_example :
    ((check operator connector_write task).allowed ≡ true)
    ↔ (IsOwn (some "globex") "acme" × (effective_permissions operator connector_write ≡ true))
check_iff_example = check_iff operator connector_write task

scopes_narrow_example :
    (effective_permissions (with_scopes (some ("task:read" ∷ "bogus" ∷ [])) operator) task_read
      ≡ true)
    ↔ ((effective_permissions (with_scopes none operator) task_read ≡ true)
        × (contains ("task:read" ∷ "bogus" ∷ []) (value_of task_read) ≡ true))
scopes_narrow_example = scopes_narrow operator ("task:read" ∷ "bogus" ∷ []) task_read
