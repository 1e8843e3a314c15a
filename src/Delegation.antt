-- ===== src/Delegation.antt =====
-- praxis/agents/delegation.py: the tree of the tasks in flight, the limits on it, and the summary of
-- a fan-out. A fingerprint is made by hashlib of a normalized objective, and is a parameter.
pub mod Ancestry
pub mod Limits
pub mod Growth
pub mod Tree
pub mod Walk
pub mod Order
pub mod Marks
pub mod Cancelling
pub mod Results
mod Tests
use praxis_ai_agent_platform.Common.{
  ℕ, zero, suc, ◌+◌, String, Bool, true, false, ◌&&◌, Option, none, some, List, [], ◌∷◌, ◌++◌, ltb,
  if◌then◌else◌, ◌==◌, nat_eq, string_eq, length, contains, Dict, lookup, insert, Result, ok, err,
  ◌>>◌, cancelled,
}
use praxis_ai_agent_platform.Contract.{TaskContract, authorizes}

abbrev pub default_max_depth : ℕ
default_max_depth = 5

abbrev pub default_max_concurrency : ℕ
default_max_concurrency = 8

abbrev pub default_max_children_per_task : ℕ
default_max_children_per_task = 20

-- A refusal, with the limit it names; `recursion` with the ancestor that has the objective.
pub data DelegationLimitError : Type 0 where
  too_deep : (depth limit : ℕ) → DelegationLimitError
  too_many_children : (parent_id : String) (children : ℕ) → DelegationLimitError
  recursion : (ancestor_id : String) → DelegationLimitError

pub record DelegationLimits : Type 0 where
  pub max_depth : ℕ
  pub max_concurrency : ℕ
  pub max_children_per_task : ℕ

pub record TaskNode : Type 0 where
  pub contract : TaskContract
  pub fingerprint : String
  pub children : List String
  pub cancelled : Bool

abbrev pub Nodes : Type 0
Nodes = Dict String TaskNode

pub record DelegationRegistry : Type 0 where
  pub limits : DelegationLimits
  pub nodes : Nodes

-- the node that a parent link leads to
abbrev pub parent_in : Nodes → Option String → Option TaskNode
parent_in nodes none = none
parent_in nodes (some parent_id) = lookup parent_id nodes

-- `if parent_id in seen: break`; an absent link is never seen
abbrev pub is_seen : List String → Option String → Bool
is_seen seen none = false
is_seen seen (some parent_id) = contains seen parent_id

abbrev pub see : Option String → List String → List String
see none seen = seen
see (some parent_id) seen = parent_id ∷ seen

-- the loop of `_ancestry`, from a cursor
climb : ℕ → Nodes → List String → TaskNode → List TaskNode
climb zero nodes seen cursor = []
climb (suc fuel) nodes seen cursor =
    let link = cursor.contract.parent_id in
    if is_seen seen link then [] else elim (parent_in nodes link) [
      | none ↦ []
      | some parent ↦ parent ∷ climb fuel nodes (see link seen) parent
    ]

-- `_ancestry`: each round sees a name of one more node, so that the nodes bound the rounds
unfoldable pub ancestry : Nodes → String → List TaskNode
unfolding climb lookup
ancestry nodes task_id = elim (lookup task_id nodes) [
  | none ↦ []
  | some cursor ↦ climb (suc (length nodes)) nodes [] cursor
]

unfoldable pub check_depth :
    DelegationLimits → TaskContract → Result DelegationLimitError (Unit {0})
check_depth limits child =
    if ltb limits.max_depth child.depth then err (too_deep child.depth limits.max_depth) else ok tt

unfoldable pub check_children :
    DelegationLimits → String → TaskNode → Result DelegationLimitError (Unit {0})
check_children limits parent_id parent =
    if ltb limits.max_children_per_task (length parent.children + 1)
    then err (too_many_children parent_id (length parent.children))
    else ok tt

-- `if ancestor.fingerprint == fingerprint: raise`, over the chain
unfoldable pub check_recursion : String → List TaskNode → Result DelegationLimitError (Unit {0})
check_recursion fingerprint [] = ok tt
check_recursion fingerprint (a ∷ others) =
    let rest = check_recursion fingerprint others in
    if a.fingerprint == fingerprint then err (recursion a.contract.task_id) else rest

-- `for limit, detail in ...`, where the parent is a node
abbrev pub check_parent :
    DelegationLimits
    → Nodes
    → String
    → String
    → Option TaskNode
    → Result DelegationLimitError (Unit {0})
check_parent limits nodes fingerprint parent_id none = ok tt
check_parent limits nodes fingerprint parent_id (some parent) =
    check_children limits parent_id parent
    >> check_recursion fingerprint (parent ∷ ancestry nodes parent_id)

abbrev pub check_link :
    DelegationLimits → Nodes → String → Option String → Result DelegationLimitError (Unit {0})
check_link limits nodes fingerprint none = ok tt
check_link limits nodes fingerprint (some parent_id) =
    check_parent limits nodes fingerprint parent_id (lookup parent_id nodes)

module _ (objective_fingerprint : String → String) where
  abbrev pub node_of : TaskContract → TaskNode
  node_of contract = record {
    contract = contract;
    fingerprint = objective_fingerprint contract.objective;
    children = [];
    cancelled = false;
  }

  -- `register_root`
  unfoldable pub register_root : TaskContract → DelegationRegistry → DelegationRegistry
  unfolding insert
  register_root contract r = record r { nodes = insert contract.task_id (node_of contract) r.nodes }

  -- `authorize_delegation`
  unfoldable pub authorize_delegation :
      DelegationRegistry → TaskContract → Result DelegationLimitError (Unit {0})
  unfolding check_depth check_children check_recursion ancestry
  authorize_delegation r child =
      check_depth r.limits child
      >> check_link r.limits r.nodes (objective_fingerprint child.objective) child.parent_id

  abbrev pub add_child : String → TaskNode → TaskNode
  add_child task_id parent = record parent { children = parent.children ++ task_id ∷ [] }

  abbrev pub adopt_in : Nodes → String → String → Option TaskNode → Nodes
  adopt_in nodes task_id parent_id none = nodes
  adopt_in nodes task_id parent_id (some parent) = insert parent_id (add_child task_id parent) nodes

  -- `if child.parent_id is not None and child.parent_id in self._nodes`
  abbrev pub adopt : Nodes → String → Option String → Nodes
  adopt nodes task_id none = nodes
  adopt nodes task_id (some parent_id) = adopt_in nodes task_id parent_id (lookup parent_id nodes)

  -- `register_child`
  unfoldable pub register_child :
      DelegationRegistry → TaskContract → Result DelegationLimitError DelegationRegistry
  unfolding authorize_delegation insert lookup
  register_child r child =
      authorize_delegation r child
      >> ok (record r {
        nodes = adopt (insert child.task_id (node_of child) r.nodes) child.task_id child.parent_id;
      })

-- `node.cancelled if node is not None else False`
abbrev pub flag : Option TaskNode → Bool
flag none = false
flag (some node) = node.cancelled

-- `is_cancelled`
unfoldable pub is_cancelled : DelegationRegistry → String → Bool
unfolding lookup
is_cancelled r task_id = flag (lookup task_id r.nodes)

-- `enforce_authorized_tools`: the tool and the task of the `PermissionError`
unfoldable pub enforce_authorized_tools :
    TaskContract → String → Result (String × String) (Unit {0})
unfolding authorizes
enforce_authorized_tools contract tool =
    if authorizes contract tool then ok tt else err (contract.task_id, tool)

-- What a coroutine of a fan-out gives: an exception with its text, a specialist's result with its
-- `succeeded` flag and errors, or any other value, which counts as a success.
pub data FanOutcome (T : Type 0) : Type 0 where
  exception : String → FanOutcome T
  result : (succeeded : Bool) (errors : List String) → T → FanOutcome T
  other : T → FanOutcome T

pub record Aggregate (T : Type 0) : Type 0 where
  pub total : ℕ
  pub succeeded : ℕ
  pub failed : ℕ
  pub results : List T
  pub errors : List String
  pub is_partial : Bool

-- `errors or ["unspecified failure"]`
abbrev pub or_unspecified : List String → List String
or_unspecified [] = "unspecified failure" ∷ []
or_unspecified (e ∷ es) = e ∷ es

abbrev pub fold_outcomes : {T : Type 0} → List (FanOutcome T) → List T × List String
fold_outcomes [] = ([], [])
fold_outcomes (exception text ∷ os) = let rest = fold_outcomes os in (rest.0, text ∷ rest.1)
fold_outcomes (result true errors t ∷ os) = let rest = fold_outcomes os in (t ∷ rest.0, rest.1)
fold_outcomes (result false errors t ∷ os) =
    let rest = fold_outcomes os in (rest.0, or_unspecified errors ++ rest.1)
fold_outcomes (other t ∷ os) = let rest = fold_outcomes os in (t ∷ rest.0, rest.1)

-- `aggregate_results`
unfoldable pub aggregate_results : {T : Type 0} → List (FanOutcome T) → Aggregate T
aggregate_results outcomes =
    let folded = fold_outcomes outcomes in
    record {
      total = length outcomes;
      succeeded = length folded.0;
      failed = length folded.1;
      results = folded.0;
      errors = folded.1;
      is_partial = ltb 0 (length folded.0) && ltb 0 (length folded.1);
    }
