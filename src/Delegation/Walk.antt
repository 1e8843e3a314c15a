-- ===== src/Delegation/Walk.antt =====
-- The walk of descendants_of: it ends, and finds everything below a task.
use praxis_ai_agent_platform.Common.{
  ℕ, zero, suc, ◌+◌, ◌≤◌, String, ◌≡◌, refl, sym, ap, ◌∙◌, inl, inr, Bool, true, false, ◌||◌, List,
  [], ◌∷◌, ◌++◌, arith, ◌==◌, nat_eq, string_eq, Bool-cases, contains, All, contains-append, lookup,
}
use praxis_ai_agent_platform.Delegation.{TaskNode, Nodes}
use praxis_ai_agent_platform.Delegation.Tree.{children_of, sum_over, subtree_size, sizes, walk}

-- No task is a child of itself or of one that stands later: children are registered after parents.
abbrev pub IsOrdered : Nodes → Type 0
IsOrdered [] = Unit
IsOrdered ((k, n) ∷ nodes) =
    (contains n.children k ≡ false)
    × All (λ (e : record { 0 : String; 1 : TaskNode }). contains e.1.children k ≡ false) nodes
    × IsOrdered nodes

-- `d` is the task `x`, or a child of it, or a child of a child, and so on.
pub data Reaches (nodes : Nodes) (d : String) : String → Type 0 where
  itself : Reaches nodes d d
  through :
      (x y : String)
      → contains (children_of nodes x) y ≡ true
      → Reaches nodes d y
      → Reaches nodes d x

-- A task that stands in front, and that no queue names, adds nothing to their size.
sizes-skip :
    (k : String) (n : TaskNode) (nodes : Nodes) (ids : List String)
    → contains ids k ≡ false
    → sizes ((k, n) ∷ nodes) ids ≡ sizes nodes ids
unfolding subtree_size sum_over
sizes-skip k n nodes [] apart = refl
sizes-skip k n nodes (id ∷ ids) apart =
    let other : (k == id) ≡ false =
      ground (arith, string_eq.same_iff k id, string_eq.same_iff id k) in
    let rest = sizes-skip k n nodes ids (ground arith) in
    rw other (ap (λ m. subtree_size nodes id + m) rest)

sizes-append :
    (f : String → ℕ) (xs ys : List String) → sum_over f (xs ++ ys) ≡ sum_over f xs + sum_over f ys
unfolding sum_over
sizes-append f [] ys = omega arith
sizes-append f (x ∷ xs) ys = omega (arith, sizes-append f xs ys)

children-All :
    (k id : String) (nodes : Nodes)
    → All (λ (e : record { 0 : String; 1 : TaskNode }). contains e.1.children k ≡ false) nodes
    → contains (children_of nodes id) k ≡ false
unfolding children_of lookup
children-All k id [] h = refl
children-All k id ((j, m) ∷ nodes) h = elim (Bool-cases (j == id)) [
  | inl here ↦ rw here h.0
  | inr there ↦ rw there (children-All k id nodes h.1)
]

-- A task takes one round more than its children.
size-children :
    (nodes : Nodes) (id : String)
    → IsOrdered nodes
    → suc (sizes nodes (children_of nodes id)) ≤ subtree_size nodes id
unfolding subtree_size sum_over children_of lookup
size-children [] id ordered = omega arith
size-children ((k, n) ∷ nodes) id ordered =
    let (own, later_ones, rest_ordered) = ordered in
    elim (Bool-cases (k == id)) [
      | inl here ↦ let skip = sizes-skip k n nodes n.children own in rw here (omega (arith, skip))
      | inr there ↦
          let skip =
            sizes-skip k n nodes (children_of nodes id) (children-All k id nodes later_ones) in
          let later = size-children nodes id rest_ordered in rw there (omega (arith, skip, later))
    ]

-- The walk of a queue, with the rounds it may take, finds what the queue reaches.
module _ (nodes : Nodes) where
  pub later : (b : Bool) {c : Bool} → c ≡ true → (b || c) ≡ true
  later b h = ground (arith, h)

  pub from_head :
      (c : String) (fuel : ℕ) (next : List String) (x d : String)
      → c ≡ x
      → Reaches nodes d x
      → ((y : String)
          → contains (children_of nodes c) y ≡ true
          → Reaches nodes d y
          → contains (walk fuel nodes next) d ≡ true)
      → ((c == d) || contains (walk fuel nodes next) d) ≡ true
  from_head c fuel next x d name itself further = ground (arith, (string_eq.same_iff c d).1 name)
  from_head c fuel next x d name (through _ y child path) further =
      later (c == d) (further y (ap (λ k. contains (children_of nodes k) y) name ∙ child) path)

  pub walk-finds :
      (fuel : ℕ) (queue : List String) (d x : String)
      → IsOrdered nodes
      → sizes nodes queue ≤ fuel
      → contains queue x ≡ true
      → Reaches nodes d x
      → contains (walk fuel nodes queue) d ≡ true
  unfolding walk sum_over
  walk-finds fuel [] d x ordered enough m path = cc
  walk-finds zero (c ∷ queue) d x ordered enough m path =
      absurd (omega (arith, size-children nodes c ordered, enough))
  walk-finds (suc fuel) (c ∷ queue) d x ordered enough m path =
      let next = queue ++ children_of nodes c in
      let split = sizes-append (subtree_size nodes) queue (children_of nodes c) in
      let law = size-children nodes c ordered in
      let less : sizes nodes next ≤ fuel = omega (arith, split, law, enough) in
      elim (Bool-cases (c == x)) [
        | inr other ↦
            let in_queue : contains queue x ≡ true = rw other at m in
            let in_next : contains next x ≡ true =
              contains-append queue (children_of nodes c) x ∙ ground (arith, in_queue) in
            later (c == d) (walk-finds fuel next d x ordered less in_next path)
        | inl same ↦
            let name = (string_eq.same_iff c x).0 same in
            from_head c fuel next x d name path (λ y child path'.
              walk-finds fuel next d y ordered less
                (contains-append queue (children_of nodes c) y ∙ ground (arith, child)) path')
      ]

  -- It finds nothing else.
  pub walk-only :
      (fuel : ℕ) (queue : List String) (d : String)
      → contains (walk fuel nodes queue) d ≡ true
      → (x : String) × (contains queue x ≡ true) × Reaches nodes d x
  unfolding walk
  walk-only zero queue d m = cc
  walk-only (suc fuel) [] d m = cc
  walk-only (suc fuel) (c ∷ queue) d m = elim (Bool-cases (c == d)) [
    | inl same ↦ let name = (string_eq.same_iff c d).0 same in (d, ground (arith, same), itself)
    | inr other ↦
        let deeper : contains (walk fuel nodes (queue ++ children_of nodes c)) d ≡ true =
          rw other at m in
        let (x, found, path) = walk-only fuel (queue ++ children_of nodes c) d deeper in
        let both : (contains queue x || contains (children_of nodes c) x) ≡ true =
          sym (contains-append queue (children_of nodes c) x) ∙ found in
        elim (Bool-cases (contains queue x)) [
          | inl waiting ↦ (x, later (c == x) waiting, path)
          | inr fresh ↦
              let child : contains (children_of nodes c) x ≡ true = rw fresh at both in
              (c, ground (arith, string_eq.same_iff c c), through c x child path)
        ]
  ]

  walk-empty : (fuel : ℕ) → walk fuel nodes [] ≡ []
  unfolding walk
  walk-empty zero = refl
  walk-empty (suc fuel) = refl

  -- It ends: any number of rounds from its size on gives the same list.
  pub walk-ends :
      (fuel rounds : ℕ) (queue : List String)
      → IsOrdered nodes
      → sizes nodes queue ≤ fuel
      → sizes nodes queue ≤ rounds
      → walk rounds nodes queue ≡ walk fuel nodes queue
  unfolding walk sum_over
  walk-ends fuel rounds [] ordered enough more = walk-empty rounds ∙ sym (walk-empty fuel)
  walk-ends zero rounds (c ∷ queue) ordered enough more =
      absurd (omega (arith, size-children nodes c ordered, enough))
  walk-ends (suc fuel) zero (c ∷ queue) ordered enough more =
      absurd (omega (arith, size-children nodes c ordered, more))
  walk-ends (suc fuel) (suc rounds) (c ∷ queue) ordered enough more =
      let split = sizes-append (subtree_size nodes) queue (children_of nodes c) in
      let law = size-children nodes c ordered in
      ap (λ ids. c ∷ ids)
        (walk-ends fuel rounds (queue ++ children_of nodes c) ordered
          (omega (arith, split, law, enough)) (omega (arith, split, law, more)))
