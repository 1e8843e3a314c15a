-- ===== src/Delegation/Growth.antt =====
-- Registries as they grow from an empty one.
use praxis_ai_agent_platform.Common.{
  ◌+◌, ◌≤◌, String, ◌≡◌, refl, sym, ap, ◌∙◌, ◌≢◌, inl, inr, Option, none, some, [], ◌∷◌, arith,
  ◌==◌, nat_eq, string_eq, Bool-cases, Option-cases, length, length-append, lookup, insert,
  lookup-insert, ok, >>=-eq-ok, ok_injective,
}
use mathlib.Core.Path.{subst}
use praxis_ai_agent_platform.Contract.{TaskContract}
use praxis_ai_agent_platform.Delegation.{
  DelegationLimits, TaskNode, Nodes, DelegationRegistry, node_of, register_root,
  authorize_delegation, add_child, adopt, register_child,
}
use praxis_ai_agent_platform.Delegation.Limits.{authorize_delegation_iff}

module _ (objective_fingerprint : String → String) (limits : DelegationLimits) where
  -- The registries that tasks make of an empty one. An identifier is fresh: it is that of no task in
  -- the registry, and no child names itself as its parent.
  pub data IsReachable : DelegationRegistry → Type 0 where
    empty : IsReachable record { limits = limits; nodes = [] }
    root :
        {r : DelegationRegistry} (contract : TaskContract)
        → IsReachable r
        → lookup contract.task_id r.nodes ≡ none
        → IsReachable (register_root objective_fingerprint contract r)
    child :
        {r r' : DelegationRegistry} (contract : TaskContract)
        → IsReachable r
        → lookup contract.task_id r.nodes ≡ none
        → contract.parent_id ≢ some contract.task_id
        → register_child objective_fingerprint r contract ≡ ok r'
        → IsReachable r'

  -- No node has more children than the limit.
  record IsBounded (nodes : Nodes) : Type 0 where
    each :
        (id : String) (n : TaskNode)
        → lookup id nodes ≡ some n
        → length n.children ≤ limits.max_children_per_task

  insert-IsBounded :
      (id : String) (n : TaskNode) (nodes : Nodes)
      → length n.children ≤ limits.max_children_per_task
      → IsBounded nodes
      → IsBounded (insert id n nodes)
  insert-IsBounded id n nodes few bounded = record {
    each = λ j m e.
        let at = lookup-insert id j n nodes in
        elim (Bool-cases (id == j)) [
          | inl here ↦
              let both : some n ≡ some m = sym (rw here at at) ∙ e in
              let it : n ≡ m = cc in
              let same = ap (λ (v : TaskNode). length v.children) it in omega (arith, few, same)
          | inr there ↦ bounded.each j m (sym (rw there at at) ∙ e)
        ];
  }

  module _ (nodes : Nodes) (contract : TaskContract) (bounded : IsBounded nodes) where
    abbrev more : Nodes
    more = insert contract.task_id (node_of objective_fingerprint contract) nodes

    more-IsBounded : IsBounded more
    more-IsBounded =
        insert-IsBounded contract.task_id (node_of objective_fingerprint contract) nodes
          (omega arith) bounded

    adopt-IsBounded :
        (link : Option String)
        → link ≢ some contract.task_id
        → ((parent_id : String) (parent : TaskNode)
            → link ≡ some parent_id
            → lookup parent_id nodes ≡ some parent
            → length parent.children + 1 ≤ limits.max_children_per_task)
        → IsBounded (adopt objective_fingerprint more contract.task_id link)
    adopt-IsBounded none fresh room = more-IsBounded
    adopt-IsBounded (some parent_id) fresh room = elim (Option-cases (lookup parent_id more)) [
      | inl gone ↦ rw gone more-IsBounded
      | inr (p, e) ↦
          let at =
            lookup-insert contract.task_id parent_id (node_of objective_fingerprint contract)
              nodes in
          elim (Bool-cases (contract.task_id == parent_id)) [
            | inl itself ↦ absurd (fresh (ap some (sym ((string_eq.same_iff _ _).0 itself))))
            | inr apart ↦
                let here : lookup parent_id nodes ≡ some p = sym (rw apart at at) ∙ e in
                let one_more = length-append p.children (contract.task_id ∷ []) in
                let fits = room parent_id p refl here in
                rw e (
                  insert-IsBounded parent_id (add_child objective_fingerprint contract.task_id p)
                    more (omega (arith, one_more, fits)) more-IsBounded)
          ]
    ]

  register_child-IsBounded :
      (r r' : DelegationRegistry) (contract : TaskContract)
      → r.limits ≡ limits
      → contract.parent_id ≢ some contract.task_id
      → register_child objective_fingerprint r contract ≡ ok r'
      → IsBounded r.nodes
      → (r'.limits ≡ limits) × IsBounded r'.nodes
  unfolding register_child
  register_child-IsBounded r r' contract own fresh done bounded =
      let (u, allowed, made) =
        >>=-eq-ok (authorize_delegation objective_fingerprint r contract) _ done in
      let each = ((authorize_delegation_iff objective_fingerprint r contract).0 allowed).1 in
      let after = ok_injective made in
      let limit = ap (λ (v : DelegationLimits). v.max_children_per_task) own in
      let room =
        λ (parent_id : String) (parent : TaskNode) (link : contract.parent_id ≡ some parent_id)
            (found : lookup parent_id r.nodes ≡ some parent).
          subst (λ k. length parent.children + 1 ≤ k) limit
            (each parent_id parent link found).room in
      (
        ap (λ (v : DelegationRegistry). v.limits) (sym after) ∙ own,
        subst (λ (v : DelegationRegistry). IsBounded v.nodes) after
            (adopt-IsBounded r.nodes contract bounded contract.parent_id fresh room),
      )

  reachable-IsBounded :
      {r : DelegationRegistry} → IsReachable r → (r.limits ≡ limits) × IsBounded r.nodes
  unfolding register_root lookup
  reachable-IsBounded empty = (refl, record { each = λ id n e. cc })
  reachable-IsBounded (root {r = r} contract before fresh) =
      let (own, bounded) = reachable-IsBounded before in
      (own, more-IsBounded r.nodes contract bounded)
  reachable-IsBounded (child {r = r} {r' = r'} contract before fresh apart done) =
      let (own, bounded) = reachable-IsBounded before in
      register_child-IsBounded r r' contract own apart done bounded

  -- In every registry that grows from an empty one no task has more children than the limit.
  pub reachable_children_bounded :
      (r : DelegationRegistry) (id : String) (n : TaskNode)
      → IsReachable r
      → lookup id r.nodes ≡ some n
      → length n.children ≤ limits.max_children_per_task
  reachable_children_bounded r id n reachable e = (reachable-IsBounded reachable).1.each id n e
