-- ===== src/Delegation/Marks.antt =====
-- Registries that grow and are cancelled in parts: children still stand after their parents.
use praxis_ai_agent_platform.Common.{
  String, ◌≡◌, sym, ap, ◌∙◌, ◌≢◌, inl, inr, false, none, some, List, [], ◌∷◌, ◌==◌, nat_eq,
  string_eq, Bool-cases, Option-cases, contains, lookup, insert, ok,
}
use praxis_ai_agent_platform.Contract.{TaskContract}
use praxis_ai_agent_platform.Delegation.{
  DelegationLimits, DelegationRegistry, register_root, register_child, TaskNode, Nodes,
}
use praxis_ai_agent_platform.Delegation.Tree.{
  mark, mark_node, mark_all, descendants_of, cancel_tree,
}
use praxis_ai_agent_platform.Delegation.Walk.{IsOrdered}
use praxis_ai_agent_platform.Delegation.Order.{
  insert-IsAvoided, lookup-IsAvoided, register_root-IsOrdered, register_child-IsOrdered,
}

-- A registry made of an empty one by registrations, each with a fresh identifier and none of its own
-- parent, and by cancellations of whole trees, in any order.
pub data IsGrown (objective_fingerprint : String → String) (limits : DelegationLimits)
    : DelegationRegistry → Type 0 where
  unused : IsGrown objective_fingerprint limits record { limits = limits; nodes = [] }
  grown_root :
      {r : DelegationRegistry} (contract : TaskContract)
      → IsGrown objective_fingerprint limits r
      → lookup contract.task_id r.nodes ≡ none
      → IsGrown objective_fingerprint limits (register_root objective_fingerprint contract r)
  grown_child :
      {r r' : DelegationRegistry} (contract : TaskContract)
      → IsGrown objective_fingerprint limits r
      → lookup contract.task_id r.nodes ≡ none
      → contract.parent_id ≢ some contract.task_id
      → register_child objective_fingerprint r contract ≡ ok r'
      → IsGrown objective_fingerprint limits r'
  grown_cancelled :
      {r : DelegationRegistry} (task_id : String)
      → IsGrown objective_fingerprint limits r
      → IsGrown objective_fingerprint limits (cancel_tree r task_id).1

insert-mark-IsOrdered :
    (id : String) (n : TaskNode) (nodes : Nodes)
    → lookup id nodes ≡ some n
    → IsOrdered nodes
    → IsOrdered (insert id (mark n) nodes)
unfolding insert lookup
insert-mark-IsOrdered id n [] found ordered = cc
insert-mark-IsOrdered id n ((k, m) ∷ nodes) found ordered =
    let (own, later_ones, rest_ordered) = ordered in
    elim (Bool-cases (k == id)) [
      | inl here ↦
          let both : some m ≡ some n = rw here at found in
          let it : m ≡ n = cc in
          let own' : contains n.children k ≡ false =
            ap (λ (v : TaskNode). contains v.children k) (sym it) ∙ own in
          rw here (own', later_ones, rest_ordered)
      | inr there ↦
          let deeper : lookup id nodes ≡ some n = rw there at found in
          rw there (
            own,
            insert-IsAvoided k id (mark n) nodes (lookup-IsAvoided k id n nodes later_ones deeper)
                later_ones,
            insert-mark-IsOrdered id n nodes deeper rest_ordered,
          )
    ]

mark_node-IsOrdered :
    (id : String) (nodes : Nodes)
    → IsOrdered nodes
    → IsOrdered (mark_node id (lookup id nodes) nodes).1
mark_node-IsOrdered id nodes ordered = elim (Option-cases (lookup id nodes)) [
  | inl gone ↦ rw gone ordered
  | inr (n, e) ↦ elim (Bool-cases n.cancelled) [
    | inl before ↦ rw (e, before) ordered
    | inr fresh ↦ rw (e, fresh) (insert-mark-IsOrdered id n nodes e ordered)
  ]
]

mark_all-IsOrdered :
    (ids : List String) (nodes : Nodes) → IsOrdered nodes → IsOrdered (mark_all ids nodes).1
unfolding mark_all
mark_all-IsOrdered [] nodes ordered = ordered
mark_all-IsOrdered (id ∷ ids) nodes ordered =
    mark_all-IsOrdered ids (mark_node id (lookup id nodes) nodes).1
      (mark_node-IsOrdered id nodes ordered)

module _ (objective_fingerprint : String → String) where
  pub grown-IsOrdered :
      {limits : DelegationLimits} {r : DelegationRegistry}
      → IsGrown objective_fingerprint limits r
      → IsOrdered r.nodes
  unfolding cancel_tree descendants_of
  grown-IsOrdered unused = tt
  grown-IsOrdered (grown_root {r = r} contract before fresh) =
      register_root-IsOrdered objective_fingerprint r contract fresh (grown-IsOrdered before)
  grown-IsOrdered (grown_child {r = r} {r' = r'} contract before fresh apart done) =
      register_child-IsOrdered objective_fingerprint r r' contract fresh apart done
        (grown-IsOrdered before)
  grown-IsOrdered (grown_cancelled {r = r} task_id before) =
      mark_all-IsOrdered (task_id ∷ descendants_of r task_id) r.nodes (grown-IsOrdered before)
