-- ===== src/Delegation/Limits.antt =====
-- The limits: what authorize_delegation lets through, and what it keeps true of the tree.
use praxis_ai_agent_platform.Common.{
  ◌+◌, ◌≤◌, String, ◌≡◌, refl, ap, ◌∙◌, ◌≢◌, ◌↔◌, inl, inr, false, Option, none, some, List, [],
  ◌∷◌, arith, ◌==◌, nat_eq, string_eq, Bool-cases, Option-cases, length, All, lookup, Result, ok,
  err, ◌>>◌,
}
use praxis_ai_agent_platform.Contract.{TaskContract}
use praxis_ai_agent_platform.Delegation.{
  DelegationLimits, DelegationLimitError, recursion, TaskNode, Nodes, DelegationRegistry, ancestry,
  check_depth, check_children, check_recursion, check_parent, check_link, authorize_delegation,
}
use praxis_ai_agent_platform.Delegation.Ancestry.{Above, ancestry_complete, ancestry_sound}

check_depth_iff :
    (limits : DelegationLimits) (child : TaskContract)
    → (check_depth limits child ≡ ok tt) ↔ (child.depth ≤ limits.max_depth)
unfolding check_depth
check_depth_iff limits child = ((λ h. ground arith), (λ h. ground arith))

check_children_iff :
    (limits : DelegationLimits) (parent_id : String) (parent : TaskNode)
    → (check_children limits parent_id parent ≡ ok tt)
      ↔ (length parent.children + 1 ≤ limits.max_children_per_task)
unfolding check_children
check_children_iff limits parent_id parent = ((λ h. ground arith), (λ h. ground arith))

abbrev Differs : String → TaskNode → Type 0
Differs fingerprint a = a.fingerprint ≢ fingerprint

check_recursion-ok :
    (fingerprint : String) (chain : List TaskNode)
    → check_recursion fingerprint chain ≡ ok tt
    → All (Differs fingerprint) chain
unfolding check_recursion
check_recursion-ok fingerprint [] h = tt
check_recursion-ok fingerprint (a ∷ chain) h = elim (Bool-cases (a.fingerprint == fingerprint)) [
  | inl same ↦
      let no : ◌≡◌ {A = Result DelegationLimitError (Unit {0})} (err (recursion a.contract.task_id))
          (ok tt) =
        rw same at h in
      cc
  | inr apart ↦ (
    ground (arith, string_eq.same_iff a.fingerprint fingerprint),
    check_recursion-ok fingerprint chain (rw apart at h),
  )
]

ok-check_recursion :
    (fingerprint : String) (chain : List TaskNode)
    → All (Differs fingerprint) chain
    → check_recursion fingerprint chain ≡ ok tt
unfolding check_recursion
ok-check_recursion fingerprint [] h = refl
ok-check_recursion fingerprint (a ∷ chain) h =
    let apart : (a.fingerprint == fingerprint) ≡ false =
      ground (arith, string_eq.same_iff a.fingerprint fingerprint, h.0) in
    rw apart (ok-check_recursion fingerprint chain h.1)

both_ok :
    {E : Type 0} (m k : Result E (Unit {0})) → ((m >> k) ≡ ok tt) ↔ ((m ≡ ok tt) × (k ≡ ok tt))
both_ok (ok tt) k = ((λ h. (refl, h)), (λ h. h.1))
both_ok (err e) k = ((λ h. cc), (λ h. cc))

-- The parent has room, and neither it nor anything above it pursues the objective.
pub record Admits (limits : DelegationLimits) (nodes : Nodes) (fingerprint : String)
    (parent : TaskNode) : Type 0 where
  pub room : length parent.children + 1 ≤ limits.max_children_per_task
  pub own : parent.fingerprint ≢ fingerprint
  pub others : (a : TaskNode) → Above nodes a parent → a.fingerprint ≢ fingerprint

module _ (limits : DelegationLimits) (nodes : Nodes) (fingerprint : String) where
  check_parent_iff :
      (parent_id : String) (parent : TaskNode)
      → lookup parent_id nodes ≡ some parent
      → (check_parent limits nodes fingerprint parent_id (some parent) ≡ ok tt)
        ↔ Admits limits nodes fingerprint parent
  check_parent_iff parent_id parent found =
      let room = check_children limits parent_id parent in
      let chain = parent ∷ ancestry nodes parent_id in
      let split = both_ok room (check_recursion fingerprint chain) in
      (
        (λ h.
            let (has_room, no_cycle) = split.0 h in
            let apart = check_recursion-ok fingerprint chain no_cycle in
            record {
              room = (check_children_iff limits parent_id parent).0 has_room;
              own = apart.0;
              others = ancestry_complete nodes (Differs fingerprint) parent_id parent found apart.1;
            }),
        (λ h. split.1 (
          (check_children_iff limits parent_id parent).1 h.room,
          ok-check_recursion fingerprint chain
              (h.own, ancestry_sound nodes (Differs fingerprint) parent_id parent found h.others),
        )),
      )

  check_link_iff :
      (link : Option String)
      → (check_link limits nodes fingerprint link ≡ ok tt) ↔ (
          (parent_id : String) (parent : TaskNode)
          → link ≡ some parent_id
          → lookup parent_id nodes ≡ some parent
          → Admits limits nodes fingerprint parent)
  check_link_iff none = ((λ h parent_id parent link found. cc), (λ each. refl))
  check_link_iff (some own_id) = (
    (λ h parent_id parent link found.
        let it : own_id ≡ parent_id = cc in
        let here : lookup own_id nodes ≡ some parent = ap (λ k. lookup k nodes) it ∙ found in
        (check_parent_iff own_id parent here).0 (rw here at h)),
    (λ each. elim (Option-cases (lookup own_id nodes)) [
      | inl gone ↦ rw gone
      | inr (parent, e) ↦ rw e ((check_parent_iff own_id parent e).1 (each own_id parent refl e))
    ]),
  )

module _ (objective_fingerprint : String → String) where
  -- A delegation is authorized exactly if it is no deeper than the limit and, where its parent is
  -- known, the parent has room for one more child, and neither the parent nor any task above it, by
  -- however many links, has the fingerprint of its objective.
  pub authorize_delegation_iff :
      (r : DelegationRegistry) (child : TaskContract)
      → (authorize_delegation objective_fingerprint r child ≡ ok tt) ↔ (
          (child.depth ≤ r.limits.max_depth)
          × ((parent_id : String) (parent : TaskNode)
              → child.parent_id ≡ some parent_id
              → lookup parent_id r.nodes ≡ some parent
              → Admits r.limits r.nodes (objective_fingerprint child.objective) parent))
  unfolding authorize_delegation
  authorize_delegation_iff r child =
      let fingerprint = objective_fingerprint child.objective in
      let links = check_link_iff r.limits r.nodes fingerprint child.parent_id in
      let depth = check_depth_iff r.limits child in
      let split =
        both_ok (check_depth r.limits child)
          (check_link r.limits r.nodes fingerprint child.parent_id) in
      (
        (λ h. (depth.0 (split.0 h).0, links.0 (split.0 h).1)),
        (λ h. split.1 (depth.1 h.0, links.1 h.1)),
      )
