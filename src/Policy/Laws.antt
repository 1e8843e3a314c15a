-- ===== src/Policy/Laws.antt =====
-- What the policy engine grants and denies.
use praxis_ai_agent_platform.Common.{
  String, ◌≡◌, refl, ◌≢◌, ◌↔◌, ◌⊎◌, inl, inr, true, false, Option, none, some, List, [], ◌∷◌, arith,
  eq_iff, ◌==◌, nat_eq, string_eq, Bool-cases, Option-cases, contains, ok, err, and_left, and_right,
}
use praxis_ai_agent_platform.Policy.{
  Permission, task_create, skill_approve, tenant_admin, audit_read, value_of, all_permissions,
  operator_permissions, role_permissions, Principal, with_scopes, permission_of, scoped,
  is_permission, find_permission, effective_permissions, describe, unavailable, not_granted,
  Resource, is_foreign, check, tenant_isolation, permission_denied, authorize,
}

-- The tenant test of the engine, as a fact: there is no owner, or it is the principal's tenant.
abbrev pub IsOwn : Option String → String → Type 0
IsOwn none tenant = Unit
IsOwn (some owner) tenant = owner ≡ tenant

IsOwn-cases :
    (owner : Option String) (tenant : String)
    → (IsOwn owner tenant × (is_foreign owner tenant ≡ false))
      ⊎ ((¬ IsOwn owner tenant) × (is_foreign owner tenant ≡ true))
IsOwn-cases none tenant = inl (tt, refl)
IsOwn-cases (some owner) tenant = elim (Bool-cases (owner == tenant)) [
  | inl e ↦ inl ((eq_iff owner tenant).0 e, rw e)
  | inr n ↦ inr ((λ e. cc ((eq_iff owner tenant).1 e, n)), rw n)
]

-- A request is allowed exactly when its resource is not another tenant's and the permission is among
-- the principal's effective permissions.
pub check_iff :
    (principal : Principal) (permission : Permission) (resource : Resource)
    → ((check principal permission resource).allowed ≡ true) ↔ (
        IsOwn resource.owner principal.tenant_id
        × (effective_permissions principal permission ≡ true))
unfolding check
check_iff principal permission resource = elim (IsOwn-cases resource.owner principal.tenant_id) [
  | inl (own, e) ↦ ((λ h. (own, ground arith)), (λ h. ground arith))
  | inr (foreign, e) ↦ ((λ h. ground arith), (λ h. absurd (foreign h.0)))
]

-- `authorize` returns the decision of `check` when that allows. For a foreign resource it raises the
-- tenant error, whatever the permission, and for an own one the permission error.
pub authorize_cases :
    (principal : Principal) (permission : Permission) (resource : Resource)
    → let d = check principal permission resource in
      ((d.allowed ≡ true) × (authorize principal permission resource ≡ ok d))
      ⊎ ((¬ IsOwn resource.owner principal.tenant_id)
          × (authorize principal permission resource
              ≡ err (tenant_isolation unavailable principal.tenant_id resource.owner)))
      ⊎ (IsOwn resource.owner principal.tenant_id
          × (effective_permissions principal permission ≡ false)
          × (authorize principal permission resource
              ≡ err (
                  permission_denied
                    (not_granted principal.roles principal.scopes permission)
                    permission
                    (describe principal))))
unfolding authorize
authorize_cases principal permission resource =
    elim (IsOwn-cases resource.owner principal.tenant_id) [
      | inr (foreign, e) ↦ inr (inl (foreign, ground arith))
      | inl (own, e) ↦ elim (Bool-cases (effective_permissions principal permission)) [
        | inl granted' ↦ inl (ground arith, ground arith)
        | inr denied ↦ inr (inr (own, denied, ground arith))
      ]
    ]

-- The values of the members are distinct, and `Permission(...)` finds each by its value.
permission_of-value_of : (p : Permission) → permission_of (value_of p) ≡ some p
unfolding permission_of
permission_of-value_of task_create = refl
permission_of-value_of _ = refl

find_permission-value :
    (scope : String) (ps : List Permission) (q : Permission)
    → find_permission scope ps ≡ some q
    → value_of q ≡ scope
unfolding find_permission
find_permission-value scope [] q h = cc
find_permission-value scope (p ∷ ps) q h =
    ground (arith, eq_iff (value_of p) scope, find_permission-value scope ps q)

permission_of-value :
    (scope : String) (q : Permission) → permission_of scope ≡ some q → value_of q ≡ scope
unfolding permission_of
permission_of-value scope q h = find_permission-value scope all_permissions q h

permission_of-same :
    (scope : String) (p : Permission) → scope ≡ value_of p → permission_of scope ≡ some p
permission_of-same scope p h = rw h (permission_of-value_of p)

-- A scope stands for a permission exactly when it is its value.
is_permission-permission_of :
    (scope : String) (p : Permission)
    → is_permission p (permission_of scope) ≡ (scope == value_of p)
is_permission-permission_of scope p = elim (Option-cases (permission_of scope)) [
  | inl e ↦ elim (Bool-cases (scope == value_of p)) [
    | inl same ↦ cc (e, permission_of-same scope p ((eq_iff scope (value_of p)).0 same))
    | inr other ↦ rw (e, other)
  ]
  | inr (q, e) ↦ rw (e, permission_of-value scope q e)
]

scoped-contains :
    (scopes : List String) (p : Permission) → scoped scopes p ≡ contains scopes (value_of p)
unfolding scoped
scoped-contains [] p = refl
scoped-contains (scope ∷ scopes) p =
    rw (is_permission-permission_of scope p, scoped-contains scopes p)

-- The scopes of a key only narrow: with them a permission is effective exactly when it is without
-- them and its value is among them. A text that names no permission grants nothing.
pub scopes_narrow :
    (principal : Principal) (scopes : List String) (p : Permission)
    → (effective_permissions (with_scopes (some scopes) principal) p ≡ true) ↔ (
        (effective_permissions (with_scopes none principal) p ≡ true)
        × (contains scopes (value_of p) ≡ true))
unfolding effective_permissions with_scopes
scopes_narrow principal scopes p =
    rw (scoped-contains scopes p) ((λ h. (and_left _ _ h, and_right _ _ h)), (λ h. ground arith))

abbrev built_in_roles : List String
built_in_roles = "system" ∷ "admin" ∷ "operator" ∷ "analyst" ∷ "viewer" ∷ []

eq_symm : (a b : String) → (a == b) ≡ (b == a)
eq_symm a b = ground (arith, eq_iff a b, eq_iff b a)

unknown_role :
    (p : Permission) (other : String)
    → contains built_in_roles other ≡ false
    → role_permissions other p ≡ false
unfolding role_permissions
unknown_role p other h = ground (
  arith,
  eq_symm "system" other,
  eq_symm "admin" other,
  eq_symm "operator" other,
  eq_symm "analyst" other,
  eq_symm "viewer" other,
)

operator_but :
    (p : Permission)
    → (operator_permissions p ≡ true)
      ↔ ((p ≢ tenant_admin) × (p ≢ skill_approve) × (p ≢ audit_read))
unfolding operator_permissions
operator_but tenant_admin = ((λ h. cc), (λ h. absurd (h.0 refl)))
operator_but skill_approve = ((λ h. cc), (λ h. absurd (h.1 refl)))
operator_but audit_read = ((λ h. cc), (λ h. absurd (h.2 refl)))
operator_but _ = ((λ h. ((λ e. cc), (λ e. cc), (λ e. cc))), (λ h. refl))

-- The roles are ordered: what a viewer may do an analyst may, and what an analyst may an operator
-- may. An operator has every permission but administering the tenant, approving a capability and
-- reading the audit log; an administrator has all. A role that is not built in has none.
pub role_order :
    (p : Permission) (other : String)
    → contains built_in_roles other ≡ false
    → (role_permissions "viewer" p ≡ true → role_permissions "analyst" p ≡ true)
      × (role_permissions "analyst" p ≡ true → role_permissions "operator" p ≡ true)
      × ((role_permissions "operator" p ≡ true)
          ↔ ((p ≢ tenant_admin) × (p ≢ skill_approve) × (p ≢ audit_read)))
      × (role_permissions "admin" p ≡ true)
      × (role_permissions other p ≡ false)
unfolding role_permissions
role_order p other h =
    ((λ v. ground arith), (λ a. ground arith), operator_but p, refl, unknown_role p other h)
