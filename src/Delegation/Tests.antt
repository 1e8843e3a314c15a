-- ===== src/Delegation/Tests.antt =====
-- A root and a child by fingerprints that keep the objective, and the theorems at concrete inputs.
use praxis_ai_agent_platform.Common.{
  ℕ, ◌≤◌, String, ◌≡◌, refl, ◌↔◌, true, false, Option, none, some, List, [], ◌∷◌, arith, eq_iff,
  nat_eq, string_eq, lookup, ok, err, is_some, ◌⊎◌,
}
use praxis_ai_agent_platform.Delegation.Tree.{children_of, sizes, walk, descendants_of, cancel_tree}
use praxis_ai_agent_platform.Delegation.Marks.{
  IsGrown, unused, grown_root, grown_child, grown_cancelled,
}
use praxis_ai_agent_platform.Delegation.Walk.{Reaches}
use praxis_ai_agent_platform.Delegation.Cancelling.{cancel_tree_exact}
use praxis_ai_agent_platform.Contract.{TaskContract}
use praxis_ai_agent_platform.Delegation.{
  is_cancelled, DelegationLimits, too_deep, too_many_children, recursion, TaskNode,
  DelegationRegistry, climb, register_root, authorize_delegation, register_child, default_max_depth,
  default_max_concurrency, FanOutcome, exception, result, other, aggregate_results,
}
use praxis_ai_agent_platform.Delegation.Limits.{Admits, authorize_delegation_iff}
use praxis_ai_agent_platform.Delegation.Growth.{
  IsReachable, empty, root, child, reachable_children_bounded,
}

abbrev task : String → String → Option String → ℕ → TaskContract
task id objective parent depth = record {
  objective = objective;
  task_id = id;
  parent_id = parent;
  tenant_id = "acme";
  inputs = [];
  artifacts = [];
  output_schema = [];
  authorized_tools = [];
  acceptance_criteria = [];
  budget = none;
  deadline = none;
  depth = depth;
}

abbrev keep : String → String
keep objective = objective

abbrev one_child : DelegationLimits
one_child = record {
  max_depth = default_max_depth;
  max_concurrency = default_max_concurrency;
  max_children_per_task = 1;
}

abbrev node : TaskContract → List String → TaskNode
node contract children = record {
  contract = contract;
  fingerprint = contract.objective;
  children = children;
  cancelled = false;
}

abbrev top : TaskContract
top = task "t1" "find" none 0

abbrev below : TaskContract
below = task "t2" "read" (some "t1") 1

abbrev nothing : DelegationRegistry
nothing = record { limits = one_child; nodes = [] }

abbrev with_root : DelegationRegistry
with_root = record { limits = one_child; nodes = ("t1", node top []) ∷ [] }

abbrev with_child : DelegationRegistry
with_child = record {
  limits = one_child;
  nodes = ("t1", node top ("t2" ∷ [])) ∷ ("t2", node below []) ∷ [];
}

registered : register_child keep with_root below ≡ ok with_child
unfolding register_child lookup climb
registered = refl

-- a second child of the root, the root's objective two levels down, and a task six levels down
refused :
    (authorize_delegation keep with_child (task "t3" "sum" (some "t1") 1)
      ≡ err (too_many_children "t1" 1))
    × (authorize_delegation keep with_child (task "t3" "find" (some "t2") 2) ≡ err (recursion "t1"))
    × (authorize_delegation keep with_child (task "t3" "sum" (some "t2") 6) ≡ err (too_deep 6 5))
unfolding authorize_delegation lookup climb
refused = (refl, refl, refl)

grown : IsReachable keep one_child with_child
unfolding register_root lookup
grown =
    child {r = with_root} below (root top empty refl) refl
      (λ h. let it : ◌≡◌ {A = String} "t1" "t2" = cc in ground (arith, it, eq_iff "t1" "t2"))
      registered

authorize_delegation_iff_example : (authorize_delegation keep with_root below ≡ ok tt) ↔ (
    (1 ≤ default_max_depth)
    × ((parent_id : String) (parent : TaskNode)
        → below.parent_id ≡ some parent_id
        → lookup parent_id with_root.nodes ≡ some parent
        → Admits one_child with_root.nodes "read" parent))
authorize_delegation_iff_example = authorize_delegation_iff keep with_root below

reachable_children_bounded_example : 1 ≤ one_child.max_children_per_task
unfolding lookup
reachable_children_bounded_example =
    reachable_children_bounded keep one_child with_child "t1" (node top ("t2" ∷ [])) grown refl

abbrev outcomes : List (FanOutcome ℕ)
outcomes = other 4 ∷ result false ("a" ∷ "b" ∷ []) 5 ∷ exception "c" ∷ []

-- two failures are reported as three
reported : ((aggregate_results outcomes).total ≡ 3) × ((aggregate_results outcomes).failed ≡ 3)
unfolding aggregate_results
reported = (refl, refl)

abbrev deep : DelegationRegistry
deep = record {
  limits = one_child;
  nodes =
      ("t1", node top ("t2" ∷ []))
      ∷ ("t2", node below ("t3" ∷ []))
      ∷ ("t3", node (task "t3" "sum" (some "t2") 2) [])
      ∷ [];
}

-- cancelling the child reaches the grandchild and not the root
cancelled_below : (cancel_tree deep "t2").0 ≡ "t2" ∷ "t3" ∷ []
unfolding cancel_tree
cancelled_below = refl

-- the registry with both, after the child has been cancelled
after_cancel : IsGrown keep one_child (cancel_tree with_child "t2").1
unfolding register_root lookup
after_cancel = grown_cancelled "t2" (
    grown_child {r = with_root} below (grown_root top unused refl) refl
      (λ h. let it : ◌≡◌ {A = String} "t1" "t2" = cc in ground (arith, it, eq_iff "t1" "t2"))
      registered)

cancel_tree_exact_example :
    let r = (cancel_tree with_child "t2").1 in
    let queue = children_of r.nodes "t1" in
    ((rounds : ℕ)
      → sizes r.nodes queue ≤ rounds
      → walk rounds r.nodes queue ≡ descendants_of r "t1")
    × ((is_cancelled (cancel_tree r "t1").1 "t2" ≡ true) ↔ (
        (is_cancelled r "t2" ≡ true)
        ⊎ ((is_some (lookup "t2" r.nodes) ≡ true) × Reaches r.nodes "t2" "t1")))
cancel_tree_exact_example =
    cancel_tree_exact keep one_child (cancel_tree with_child "t2").1 "t1" "t2" after_cancel
