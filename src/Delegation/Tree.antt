-- ===== src/Delegation/Tree.antt =====
-- praxis/agents/delegation.py: the walk of descendants_of and the marks of cancel_tree. The loop has
-- no bound of its own; here it has as many rounds as the nodes allow for, by subtree_size.
use praxis_ai_agent_platform.Common.{
  ℕ, zero, suc, ◌+◌, String, true, Option, none, some, List, [], ◌∷◌, ◌++◌, if◌then◌else◌, ◌==◌,
  nat_eq, string_eq, lookup, insert,
}
use praxis_ai_agent_platform.Delegation.{TaskNode, Nodes, DelegationRegistry}

-- `self._nodes.get(...).children`, and none where there is no node
abbrev pub children_in : Option TaskNode → List String
children_in none = []
children_in (some node) = node.children

unfoldable pub children_of : Nodes → String → List String
unfolding lookup
children_of nodes id = children_in (lookup id nodes)

-- The rounds that a task in the queue may take, where children stand after their parents.
unfoldable pub sum_over : (String → ℕ) → List String → ℕ
sum_over f [] = 0
sum_over f (id ∷ ids) = f id + sum_over f ids

unfoldable pub subtree_size : Nodes → String → ℕ
unfolding sum_over
subtree_size [] id = 1
subtree_size ((k, n) ∷ nodes) id =
    let below = sum_over (λ c. subtree_size nodes c) n.children in
    let later = subtree_size nodes id in if k == id then suc below else later

abbrev pub sizes : Nodes → List String → ℕ
sizes nodes ids = sum_over (subtree_size nodes) ids

-- the `while queue` loop
unfoldable pub walk : ℕ → Nodes → List String → List String
unfolding children_of
walk zero nodes queue = []
walk (suc fuel) nodes [] = []
walk (suc fuel) nodes (current ∷ queue) =
    current ∷ walk fuel nodes (queue ++ children_of nodes current)

-- `descendants_of`; more rounds than these find the same
unfoldable pub descendants_of : DelegationRegistry → String → List String
unfolding walk subtree_size sum_over children_of
descendants_of r task_id =
    let queue = children_of r.nodes task_id in walk (sizes r.nodes queue) r.nodes queue

abbrev pub mark : TaskNode → TaskNode
mark node = record node { cancelled = true }

-- `if node is not None and not node.cancelled`: the identifiers marked, and the nodes
abbrev pub mark_node : String → Option TaskNode → Nodes → List String × Nodes
mark_node id none nodes = ([], nodes)
mark_node id (some node) nodes =
    if node.cancelled then ([], nodes) else (id ∷ [], insert id (mark node) nodes)

unfoldable pub mark_all : List String → Nodes → List String × Nodes
unfolding lookup insert
mark_all [] nodes = ([], nodes)
mark_all (id ∷ ids) nodes =
    let one = mark_node id (lookup id nodes) nodes in
    let rest = mark_all ids one.1 in (one.0 ++ rest.0, rest.1)

-- `cancel_tree`
unfoldable pub cancel_tree : DelegationRegistry → String → List String × DelegationRegistry
unfolding mark_all descendants_of
cancel_tree r task_id =
    let marked = mark_all (task_id ∷ descendants_of r task_id) r.nodes in
    (marked.0, record r { nodes = marked.1 })
