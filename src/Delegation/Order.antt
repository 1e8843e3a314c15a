-- ===== src/Delegation/Order.antt =====
-- Registration keeps children after their parents.
use praxis_ai_agent_platform.Common.{
  String, ◌≡◌, refl, sym, ap, ◌∙◌, ◌≢◌, inl, inr, false, Option, none, some, List, [], ◌∷◌, ◌++◌,
  arith, ◌==◌, nat_eq, string_eq, Bool-cases, Option-cases, contains, All, contains-append, lookup,
  insert, >>=-eq-ok, ok, ok_injective,
}
use mathlib.Core.Path.{subst}
use praxis_ai_agent_platform.Delegation.{
  DelegationRegistry, register_root, authorize_delegation, register_child, TaskNode, Nodes, node_of,
  add_child, adopt,
}
use praxis_ai_agent_platform.Contract.{TaskContract}
use praxis_ai_agent_platform.Delegation.Walk.{IsOrdered}

-- `k` is a child of none of the nodes.
abbrev pub IsAvoided : String → Nodes → Type 0
IsAvoided k nodes =
    All (λ (e : record { 0 : String; 1 : TaskNode }). contains e.1.children k ≡ false) nodes

pub insert-IsAvoided :
    (k id : String) (n : TaskNode) (nodes : Nodes)
    → contains n.children k ≡ false
    → IsAvoided k nodes
    → IsAvoided k (insert id n nodes)
unfolding insert
insert-IsAvoided k id n [] own h = (own, tt)
insert-IsAvoided k id n ((j, m) ∷ nodes) own h = elim (Bool-cases (j == id)) [
  | inl here ↦ rw here (own, h.1)
  | inr there ↦ rw there (h.0, insert-IsAvoided k id n nodes own h.1)
]

pub lookup-IsAvoided :
    (k p : String) (n : TaskNode) (nodes : Nodes)
    → IsAvoided k nodes
    → lookup p nodes ≡ some n
    → contains n.children k ≡ false
unfolding lookup
lookup-IsAvoided k p n [] h e = cc
lookup-IsAvoided k p n ((j, m) ∷ nodes) h e = elim (Bool-cases (j == p)) [
  | inl here ↦
      let both : some m ≡ some n = rw here at e in
      let it : m ≡ n = cc in ap (λ (v : TaskNode). contains v.children k) (sym it) ∙ h.0
  | inr there ↦ lookup-IsAvoided k p n nodes h.1 (rw there at e)
]

-- A name that has no node is not that of the first one.
not_first :
    (id k : String) (m : TaskNode) (nodes : Nodes)
    → lookup id ((k, m) ∷ nodes) ≡ none
    → ((k == id) ≡ false) × (lookup id nodes ≡ none)
unfolding lookup
not_first id k m nodes fresh = elim (Bool-cases (k == id)) [
  | inl here ↦ let no : some m ≡ none = rw here at fresh in cc
  | inr there ↦ (there, rw there at fresh)
]

insert-IsOrdered :
    (id : String) (n : TaskNode) (nodes : Nodes)
    → lookup id nodes ≡ none
    → n.children ≡ []
    → IsOrdered nodes
    → IsOrdered (insert id n nodes)
unfolding insert
insert-IsOrdered id n [] fresh childless ordered = (ap (λ c. contains c id) childless, tt, tt)
insert-IsOrdered id n ((k, m) ∷ nodes) fresh childless ordered =
    let (own, later_ones, rest_ordered) = ordered in
    let (apart, fresh') = not_first id k m nodes fresh in
    rw apart (
      own,
      insert-IsAvoided k id n nodes (ap (λ c. contains c k) childless) later_ones,
      insert-IsOrdered id n nodes fresh' childless rest_ordered,
    )

not_added :
    (id k : String) (children : List String)
    → (k == id) ≡ false
    → contains children k ≡ false
    → contains (children ++ id ∷ []) k ≡ false
not_added id k children apart h =
    contains-append children (id ∷ []) k
    ∙ ground (arith, h, apart, string_eq.same_iff k id, string_eq.same_iff id k)

module _ (objective_fingerprint : String → String) (id p : String) (new n : TaskNode)
    (apart : id ≢ p) where
  give_child-IsOrdered :
      (nodes : Nodes)
      → lookup id nodes ≡ none
      → new.children ≡ []
      → lookup p (insert id new nodes) ≡ some n
      → IsOrdered nodes
      → IsOrdered (insert p (add_child objective_fingerprint id n) (insert id new nodes))
  unfolding insert lookup
  give_child-IsOrdered [] fresh childless found ordered =
      let other : (id == p) ≡ false = ground (arith, string_eq.same_iff id p, apart) in
      let no : none ≡ some n = rw other at found in cc
  give_child-IsOrdered ((k, m) ∷ nodes) fresh childless found ordered =
      let (own, later_ones, rest_ordered) = ordered in
      let (unlike, fresh') = not_first id k m nodes fresh in
      let ins = insert id new nodes in
      let avoided = insert-IsAvoided k id new nodes (ap (λ c. contains c k) childless) later_ones in
      let found' : lookup p ((k, m) ∷ ins) ≡ some n = rw unlike at found in
      elim (Bool-cases (k == p)) [
        | inl here ↦
            let both : some m ≡ some n = rw here at found' in
            let it : m ≡ n = cc in
            let own' : contains n.children k ≡ false =
              ap (λ (v : TaskNode). contains v.children k) (sym it) ∙ own in
            rw (unlike, here)
              (
                not_added id k n.children unlike own',
                avoided,
                insert-IsOrdered id new nodes fresh' childless rest_ordered,
              )
        | inr there ↦
            let deeper : lookup p ins ≡ some n = rw there at found' in
            rw (unlike, there)
              (
                own,
                insert-IsAvoided k p (add_child objective_fingerprint id n) ins
                    (not_added id k n.children unlike (lookup-IsAvoided k p n ins avoided deeper))
                    avoided,
                give_child-IsOrdered nodes fresh' childless deeper rest_ordered,
              )
      ]

module _ (objective_fingerprint : String → String) where
  adopt-IsOrdered :
      (nodes : Nodes) (contract : TaskContract) (link : Option String)
      → lookup contract.task_id nodes ≡ none
      → link ≢ some contract.task_id
      → IsOrdered nodes
      → IsOrdered (
          adopt objective_fingerprint
            (insert contract.task_id (node_of objective_fingerprint contract) nodes)
            contract.task_id
            link)
  adopt-IsOrdered nodes contract none fresh apart ordered =
      insert-IsOrdered contract.task_id (node_of objective_fingerprint contract) nodes fresh refl
        ordered
  adopt-IsOrdered nodes contract (some p) fresh apart ordered =
      let new = node_of objective_fingerprint contract in
      elim (Option-cases (lookup p (insert contract.task_id new nodes))) [
        | inl gone ↦ rw gone (insert-IsOrdered contract.task_id new nodes fresh refl ordered)
        | inr (n, e) ↦ rw e (
            give_child-IsOrdered objective_fingerprint contract.task_id p new n
              (λ same. apart (ap some (sym same))) nodes fresh refl e ordered)
      ]

  pub register_root-IsOrdered :
      (r : DelegationRegistry) (contract : TaskContract)
      → lookup contract.task_id r.nodes ≡ none
      → IsOrdered r.nodes
      → IsOrdered (register_root objective_fingerprint contract r).nodes
  unfolding register_root
  register_root-IsOrdered r contract fresh ordered =
      insert-IsOrdered contract.task_id (node_of objective_fingerprint contract) r.nodes fresh refl
        ordered

  pub register_child-IsOrdered :
      (r r' : DelegationRegistry) (contract : TaskContract)
      → lookup contract.task_id r.nodes ≡ none
      → contract.parent_id ≢ some contract.task_id
      → register_child objective_fingerprint r contract ≡ ok r'
      → IsOrdered r.nodes
      → IsOrdered r'.nodes
  unfolding register_child
  register_child-IsOrdered r r' contract fresh apart done ordered =
      let (u, allowed, made) =
        >>=-eq-ok (authorize_delegation objective_fingerprint r contract) _ done in
      subst (λ (v : DelegationRegistry). IsOrdered v.nodes) (ok_injective made)
        (adopt-IsOrdered r.nodes contract contract.parent_id fresh apart ordered)
