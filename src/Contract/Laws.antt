-- ===== src/Contract/Laws.antt =====
-- What a contract passes on to the contracts made for its subtasks.
use praxis_ai_agent_platform.Common.{
  ℕ, ◌+◌, ◌≤◌, String, ◌≡◌, refl, sym, ◌∙◌, Bool, true, false, ◌&&◌, some, List, [], ◌∷◌, arith,
  nat_eq, string_eq, filter, any, contains, contains-filter, and_left,
}
use praxis_ai_agent_platform.Contract.{
  TaskContract, ChildRequest, or_else, granted_tools, child_of, is_expired, permits, authorizes,
  IsDerived, same, made, non_empty,
}

left_narrows :
    (have requested left : List String) (tool : String)
    → contains left tool ≡ (contains have tool && contains requested tool)
    → non_empty left ≡ true
    → permits left tool ≡ true
    → contains have tool ≡ true
left_narrows have requested [] tool both nonempty m = cc
left_narrows have requested (x ∷ xs) tool both nonempty m = and_left _ _ (sym both ∙ m)

granted_narrows :
    (have requested : List String) (tool : String)
    → non_empty (granted_tools have requested) ≡ true
    → permits (granted_tools have requested) tool ≡ true
    → permits have tool ≡ true
unfolding granted_tools
granted_narrows [] requested tool some_left may = refl
granted_narrows (t ∷ ts) requested tool some_left may =
    left_narrows (t ∷ ts) requested _ tool (contains-filter (contains (t ∷ ts)) requested tool)
      some_left may

-- What a contract made for a subtask may use, its parent may use, if the contract has been left
-- any tool of those asked for.
pub child_tools_narrow :
    (task_id : String) (parent : TaskContract) (request : ChildRequest) (tool : String)
    → non_empty (child_of task_id parent request).authorized_tools ≡ true
    → authorizes (child_of task_id parent request) tool ≡ true
    → authorizes parent tool ≡ true
unfolding child_of authorizes
child_tools_narrow task_id parent request tool left may =
    granted_narrows parent.authorized_tools (or_else request.tools parent.authorized_tools) tool
      left may

disjoint-filter : (p : String → Bool) (xs : List String) → any p xs ≡ false → filter p xs ≡ []
disjoint-filter p [] none_of = refl
disjoint-filter p (x ∷ xs) none_of = ground (arith, disjoint-filter p xs)

granted_disjoint :
    (have requested : List String)
    → non_empty have ≡ true
    → any (contains have) requested ≡ false
    → granted_tools have requested ≡ []
unfolding granted_tools
granted_disjoint [] requested some_have apart = cc
granted_disjoint (t ∷ ts) requested some_have apart =
    disjoint-filter (contains (t ∷ ts)) requested apart

-- A contract that asks only for tools that its restricted parent may not use is made unrestricted:
-- it authorizes every tool.
pub disjoint_request_escalates :
    (task_id : String) (parent : TaskContract) (request : ChildRequest) (tools : List String)
    (tool : String)
    → non_empty parent.authorized_tools ≡ true
    → request.tools ≡ some tools
    → any (contains parent.authorized_tools) tools ≡ false
    → authorizes (child_of task_id parent request) tool ≡ true
unfolding child_of authorizes
disjoint_request_escalates task_id parent request tools tool restricted asked apart =
    rw (asked, granted_disjoint parent.authorized_tools tools restricted apart)

deadline_kept : {a c : TaskContract} → IsDerived a c → c.deadline ≡ a.deadline
unfolding child_of
deadline_kept same = refl
deadline_kept (made task_id request d) = deadline_kept d

tenant_kept : {a c : TaskContract} → IsDerived a c → c.tenant_id ≡ a.tenant_id
unfolding child_of
tenant_kept same = refl
tenant_kept (made task_id request d) = tenant_kept d

depth_grows : {a c : TaskContract} → IsDerived a c → a.depth ≤ c.depth
unfolding child_of
depth_grows same = omega arith
depth_grows (made task_id request d) = omega (arith, depth_grows d)

-- However many times work is handed on, its contract keeps the tenant, is expired exactly when the
-- first contract is, and is no less deep; one made for a subtask is one deeper than its parent.
pub derived_inherits :
    (a c : TaskContract)
    → IsDerived a c
    → (c.tenant_id ≡ a.tenant_id)
      × ((now : ℕ) → is_expired now c ≡ is_expired now a)
      × (a.depth ≤ c.depth)
      × ((task_id : String) (request : ChildRequest)
          → (child_of task_id c request).depth ≡ c.depth + 1)
unfolding is_expired child_of
derived_inherits a c d =
    (tenant_kept d, (λ now. rw (deadline_kept d)), depth_grows d, (λ task_id request. refl))
