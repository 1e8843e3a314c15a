-- ===== src/Delegation/Cancelling.antt =====
-- What cancel_tree reaches: a task and everything below it.
use praxis_ai_agent_platform.Common.{
  ℕ, ◌≤◌, String, ◌≡◌, refl, sym, ap, ◌∙◌, ◌↔◌, ◌⊎◌, inl, inr, true, ◌&&◌, ◌||◌, none, some, List,
  [], ◌∷◌, arith, ◌==◌, nat_eq, string_eq, Bool-cases, Option-cases, is_some, contains, lookup,
  insert, lookup-insert, and_left, and_right,
}
use mathlib.Core.Path.{subst}
use praxis_ai_agent_platform.Delegation.{
  DelegationLimits, flag, Nodes, DelegationRegistry, is_cancelled,
}
use praxis_ai_agent_platform.Delegation.Marks.{IsGrown, grown-IsOrdered}
use praxis_ai_agent_platform.Delegation.Tree.{
  children_of, sizes, walk, descendants_of, mark, mark_node, mark_all, cancel_tree,
}
use praxis_ai_agent_platform.Delegation.Walk.{
  IsOrdered, Reaches, itself, through, from_head, walk-finds, walk-only, walk-ends,
}

mark_node-lookup :
    (id j : String) (nodes : Nodes)
    → let after = (mark_node id (lookup id nodes) nodes).1 in
      (is_some (lookup j after) ≡ is_some (lookup j nodes))
      × (flag (lookup j after) ≡ (flag (lookup j nodes) || (id == j && is_some (lookup j nodes))))
mark_node-lookup id j nodes = elim (Option-cases (lookup id nodes)) [
  | inl gone ↦ rw gone (elim (Bool-cases (id == j)) [
    | inr other ↦ (refl, rw other (ground arith))
    | inl same ↦
        let nothing : lookup j nodes ≡ none =
          ap (λ k. lookup k nodes) (sym ((string_eq.same_iff id j).0 same)) ∙ gone in
        rw (same, nothing) (refl, refl)
  ])
  | inr (n, e) ↦ elim (Bool-cases n.cancelled) [
    | inl before ↦
        rw (e, before)
          (elim (Bool-cases (id == j)) [
            | inr other ↦ (refl, rw other (ground arith))
            | inl same ↦
                let there : lookup j nodes ≡ some n =
                  ap (λ k. lookup k nodes) (sym ((string_eq.same_iff id j).0 same)) ∙ e in
                rw (same, there, before) (refl, refl)
          ])
    | inr before ↦
        let at = lookup-insert id j (mark n) nodes in
        rw (e, before)
          (elim (Bool-cases (id == j)) [
            | inr other ↦
                let kept : lookup j (insert id (mark n) nodes) ≡ lookup j nodes = rw other at at in
                rw (kept, other) (refl, ground arith)
            | inl same ↦
                let there : lookup j nodes ≡ some n =
                  ap (λ k. lookup k nodes) (sym ((string_eq.same_iff id j).0 same)) ∙ e in
                let marked : lookup j (insert id (mark n) nodes) ≡ some (mark n) = rw same at at in
                rw (marked, same, there, before) (refl, refl)
          ])
  ]
]

mark_all-lookup :
    (ids : List String) (j : String) (nodes : Nodes)
    → flag (lookup j (mark_all ids nodes).1)
      ≡ (flag (lookup j nodes) || (contains ids j && is_some (lookup j nodes)))
unfolding mark_all
mark_all-lookup [] j nodes = ground arith
mark_all-lookup (id ∷ ids) j nodes =
    let (known, first) = mark_node-lookup id j nodes in
    let rest = mark_all-lookup ids j (mark_node id (lookup id nodes) nodes).1 in
    rest ∙ ground (arith, known, first)

is_cancelled-flag :
    (r : DelegationRegistry) (j : String) → is_cancelled r j ≡ flag (lookup j r.nodes)
unfolding is_cancelled
is_cancelled-flag r j = refl

reached :
    (nodes : Nodes) (fuel : ℕ) (task_id j : String)
    → contains (task_id ∷ walk fuel nodes (children_of nodes task_id)) j ≡ true
    → Reaches nodes j task_id
reached nodes fuel task_id j m = elim (Bool-cases (task_id == j)) [
  | inl same ↦ subst (λ k. Reaches nodes k task_id) ((string_eq.same_iff task_id j).0 same) itself
  | inr other ↦
      let (x, child, path) = walk-only nodes fuel (children_of nodes task_id) j (rw other at m) in
      through task_id x child path
]

covered :
    (nodes : Nodes) (task_id j : String)
    → IsOrdered nodes
    → Reaches nodes j task_id
    → let queue = children_of nodes task_id in
      contains (task_id ∷ walk (sizes nodes queue) nodes queue) j ≡ true
covered nodes task_id j ordered path =
    let queue = children_of nodes task_id in
    let fuel = sizes nodes queue in
    from_head nodes task_id fuel queue task_id j refl path
      (λ y child rest. walk-finds nodes fuel queue j y ordered (omega arith) child rest)

cancelled_exactly :
    (r : DelegationRegistry) (task_id j : String)
    → IsOrdered r.nodes
    → (is_cancelled (cancel_tree r task_id).1 j ≡ true) ↔ (
        (is_cancelled r j ≡ true)
        ⊎ ((is_some (lookup j r.nodes) ≡ true) × Reaches r.nodes j task_id))
unfolding cancel_tree descendants_of
cancelled_exactly r task_id j ordered =
    let queue = children_of r.nodes task_id in
    let fuel = sizes r.nodes queue in
    let below = walk fuel r.nodes queue in
    let known = is_some (lookup j r.nodes) in
    let after = mark_all-lookup (task_id ∷ below) j r.nodes in
    let was = is_cancelled-flag r j in
    let now = is_cancelled-flag (cancel_tree r task_id).1 j in
    (
      (λ h.
          let either : (flag (lookup j r.nodes) || (contains (task_id ∷ below) j && known)) ≡ true =
            sym after ∙ sym now ∙ h in
          elim (Bool-cases (flag (lookup j r.nodes))) [
            | inl before ↦ inl (was ∙ before)
            | inr fresh ↦
                let marked : (contains (task_id ∷ below) j && known) ≡ true = rw fresh at either in
                inr (
                  and_right (contains (task_id ∷ below) j) known marked,
                  reached r.nodes fuel task_id j
                      (and_left (contains (task_id ∷ below) j) known marked),
                )
          ]),
      (λ h. now ∙ after ∙ elim h [
        | inl before ↦ ground (arith, sym was ∙ before)
        | inr (tracked, path) ↦
            let found = covered r.nodes task_id j ordered path in ground (arith, tracked, found)
      ]),
    )

-- In every registry that grows from an empty one by registrations with fresh identifiers and by earlier
-- cancellations, the walk below a task ends: any number of rounds from its bound on finds the same
-- tasks. And cancel_tree leaves cancelled exactly the tasks that were before, and those tracked tasks
-- that are the one named or below it, however deep.
pub cancel_tree_exact :
    (objective_fingerprint : String → String) (limits : DelegationLimits) (r : DelegationRegistry)
    (task_id j : String)
    → IsGrown objective_fingerprint limits r
    → let queue = children_of r.nodes task_id in
      ((rounds : ℕ)
        → sizes r.nodes queue ≤ rounds
        → walk rounds r.nodes queue ≡ descendants_of r task_id)
      × ((is_cancelled (cancel_tree r task_id).1 j ≡ true) ↔ (
          (is_cancelled r j ≡ true)
          ⊎ ((is_some (lookup j r.nodes) ≡ true) × Reaches r.nodes j task_id)))
unfolding descendants_of
cancel_tree_exact objective_fingerprint limits r task_id j grown =
    let ordered = grown-IsOrdered objective_fingerprint grown in
    let queue = children_of r.nodes task_id in
    (
      (λ rounds enough.
          walk-ends r.nodes (sizes r.nodes queue) rounds queue ordered (omega arith) enough),
      cancelled_exactly r task_id j ordered,
    )
