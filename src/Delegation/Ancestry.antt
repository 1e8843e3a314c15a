-- ===== src/Delegation/Ancestry.antt =====
-- The chain that _ancestry climbs holds everything above a node, also in a tree that has a cycle.
use praxis_ai_agent_platform.Common.{
  ℕ, zero, suc, ◌≤◌, ◌<◌, String, ◌≡◌, refl, sym, ap, ◌∙◌, ◌⊎◌, inl, inr, true, false, not, Option,
  none, some, List, [], ◌∷◌, arith, ◌==◌, nat_eq, string_eq, Bool-cases, Option-cases, length,
  filter, contains, All, lookup,
}
use mathlib.Core.Path.{subst}
use praxis_ai_agent_platform.Delegation.{TaskNode, Nodes, parent_in, is_seen, see, climb, ancestry}

-- `a` is reached from a node by its parent link, or by that of the parent, and so on.
pub data Above (nodes : Nodes) (a : TaskNode) : TaskNode → Type 0 where
  parent_of :
      {cursor : TaskNode}
      → parent_in nodes cursor.contract.parent_id ≡ some a
      → Above nodes a cursor
  higher :
      {cursor parent : TaskNode}
      → parent_in nodes cursor.contract.parent_id ≡ some parent
      → Above nodes a parent
      → Above nodes a cursor

abbrev unseen : List String → Nodes → ℕ
unseen seen nodes =
    length (filter (λ (e : record { 0 : String; 1 : TaskNode }). not (contains seen e.0)) nodes)

unseen_le :
    (q : String) (seen : List String) (nodes : Nodes) → unseen (q ∷ seen) nodes ≤ unseen seen nodes
unseen_le q seen [] = omega arith
unseen_le q seen ((k, n) ∷ nodes) = ground (arith, unseen_le q seen nodes)

unseen_all : (nodes : Nodes) → unseen [] nodes ≤ length nodes
unseen_all [] = omega arith
unseen_all (e ∷ nodes) = omega (arith, unseen_all nodes)

unseen_lt :
    (q : String) (seen : List String) (nodes : Nodes) (p : TaskNode)
    → lookup q nodes ≡ some p
    → contains seen q ≡ false
    → unseen (q ∷ seen) nodes < unseen seen nodes
unfolding lookup
unseen_lt q seen [] p found new = cc
unseen_lt q seen ((k, n) ∷ nodes) p found new = elim (Bool-cases (k == q)) [
  | inl here ↦
      let same = (string_eq.same_iff k q).0 here in
      let other_way = (string_eq.same_iff q k).1 (sym same) in
      let fresh : contains seen k ≡ false = ap (contains seen) same ∙ new in
      ground (arith, unseen_le q seen nodes, fresh, other_way)
  | inr there ↦
      let later : lookup q nodes ≡ some p = rw there at found in
      ground (arith, unseen_lt q seen nodes p later new, unseen_le q seen nodes)
]

module _ (nodes : Nodes) (P : TaskNode → Type 0) where
  -- the parent of a node has been seen, if it has one
  abbrev LinkSeen : List String → TaskNode → Type 0
  LinkSeen seen n =
      (q : String) (m : TaskNode)
      → n.contract.parent_id ≡ some q
      → lookup q nodes ≡ some m
      → contains seen q ≡ true

  -- Each seen node has the property, and its parent has been seen unless it is the cursor.
  record IsClosedBut (seen : List String) (cursor : TaskNode) : Type 0 where
    each :
        (s : String) (n : TaskNode)
        → contains seen s ≡ true
        → lookup s nodes ≡ some n
        → P n × ((n ≡ cursor) ⊎ LinkSeen seen n)

  record IsClosed (seen : List String) : Type 0 where
    each :
        (s : String) (n : TaskNode)
        → contains seen s ≡ true
        → lookup s nodes ≡ some n
        → P n × LinkSeen seen n

  link_of :
      (o : Option String) (p : TaskNode)
      → parent_in nodes o ≡ some p
      → (q : String) × (o ≡ some q) × (lookup q nodes ≡ some p)
  link_of none p h = cc
  link_of (some q) p h = (q, refl, h)

  closed_above :
      (seen : List String) {a n : TaskNode}
      → IsClosed seen
      → LinkSeen seen n
      → Above nodes a n
      → P a
  closed_above seen {n = n} closed links (parent_of e) =
      let (q, link, found) = link_of n.contract.parent_id _ e in
      (closed.each q _ (links q _ link found) found).0
  closed_above seen {n = n} closed links (higher e rest) =
      let (q, link, found) = link_of n.contract.parent_id _ e in
      closed_above seen closed (closed.each q _ (links q _ link found) found).1 rest

  none_above :
      {a n : TaskNode} → parent_in nodes n.contract.parent_id ≡ none → Above nodes a n → P a
  none_above gone (parent_of e) = cc
  none_above gone (higher e rest) = cc

  link_seen :
      (seen : List String) (n : TaskNode)
      → is_seen seen n.contract.parent_id ≡ true
      → LinkSeen seen n
  link_seen seen n h q m link found = sym (ap (is_seen seen) link) ∙ h

  close :
      (seen : List String) (cursor : TaskNode)
      → IsClosedBut seen cursor
      → LinkSeen seen cursor
      → IsClosed seen
  close seen cursor closed links = record {
    each = λ s n m e.
        let (holds, or_cursor) = closed.each s n m e in
        (holds, elim or_cursor [ inl it ↦ subst (LinkSeen seen) (sym it) links | inr l ↦ l ]);
  }

  see_more :
      (seen : List String) (cursor p : TaskNode) (q : String)
      → cursor.contract.parent_id ≡ some q
      → lookup q nodes ≡ some p
      → P p
      → IsClosedBut seen cursor
      → IsClosedBut (q ∷ seen) p
  see_more seen cursor p q link found holds closed = record {
    each = λ s n m e. elim (Bool-cases (q == s)) [
      | inl newest ↦
          let name = (string_eq.same_iff q s).0 newest in
          let there : lookup s nodes ≡ some p = ap (λ k. lookup k nodes) (sym name) ∙ found in
          let both : some p ≡ some n = sym there ∙ e in
          let it : p ≡ n = cc in (subst P it holds, inl (sym it))
      | inr older ↦
          let earlier : contains seen s ≡ true = rw older at m in
          let (kept, or_cursor) = closed.each s n earlier e in
          (
            kept,
            inr (λ q' m' link' found'. elim or_cursor [
              | inl it ↦
                  let both : some q ≡ some q' =
                    sym link ∙ ap (λ (v : TaskNode). v.contract.parent_id) (sym it) ∙ link' in
                  let name : q ≡ q' = cc in ground (arith, (string_eq.same_iff q q').1 name)
              | inr links ↦ ground (arith, links q' m' link' found')
            ]),
          )
    ];
  }

  from_parent :
      {n : TaskNode} (p : TaskNode)
      → parent_in nodes n.contract.parent_id ≡ some p
      → P p
      → ((a : TaskNode) → Above nodes a p → P a)
      → (a : TaskNode) → Above nodes a n
      → P a
  from_parent p e holds further a (parent_of e') =
      let both : some p ≡ some a = sym e ∙ e' in let it : p ≡ a = cc in subst P it holds
  from_parent p e holds further a (higher {parent = m} e' rest) =
      let both : some p ≡ some m = sym e ∙ e' in
      let it : m ≡ p = cc in further a (subst (Above nodes _) it rest)

  climb_complete :
      (fuel : ℕ) (seen : List String) (cursor : TaskNode)
      → unseen seen nodes < fuel
      → IsClosedBut seen cursor
      → All P (climb fuel nodes seen cursor)
      → (a : TaskNode) → Above nodes a cursor
      → P a
  unfolding climb
  climb_complete zero seen cursor enough closed holds a above = absurd (omega (arith, enough))
  climb_complete (suc fuel) seen cursor enough closed holds a above =
      let link = cursor.contract.parent_id in
      elim (Bool-cases (is_seen seen link)) [
        | inl met ↦
            let links = link_seen seen cursor met in
            closed_above seen (close seen cursor closed links) links above
        | inr unmet ↦ elim (Option-cases (parent_in nodes link)) [
          | inl gone ↦ none_above gone above
          | inr (p, e) ↦
              let (q, named, found) = link_of link p e in
              let new : contains seen q ≡ false = sym (ap (is_seen seen) named) ∙ unmet in
              let now : P p × All P (climb fuel nodes (see link seen) p) = rw (unmet, e) at holds in
              let later : All P (climb fuel nodes (q ∷ seen) p) =
                subst (λ o. All P (climb fuel nodes (see o seen) p)) named now.1 in
              let less = unseen_lt q seen nodes p found new in
              let further =
                climb_complete fuel (q ∷ seen) p (omega (arith, less, enough))
                  (see_more seen cursor p q named found now.0 closed) later in
              from_parent p e now.0 further a above
        ]
      ]

  from_node :
      (task_id : String) (n : TaskNode)
      → lookup task_id nodes ≡ some n
      → ancestry nodes task_id ≡ climb (suc (length nodes)) nodes [] n
  unfolding ancestry
  from_node task_id n e = rw (e, ancestry)

  -- What holds of the chain holds of everything above the node: the fuel and the test for names
  -- already seen leave nothing out.
  pub ancestry_complete :
      (task_id : String) (n : TaskNode)
      → lookup task_id nodes ≡ some n
      → All P (ancestry nodes task_id)
      → (a : TaskNode) → Above nodes a n
      → P a
  ancestry_complete task_id n e holds a above =
      let fits = unseen_all nodes in
      climb_complete (suc (length nodes)) [] n (omega (arith, fits))
        (record { each = λ s m in_none. cc }) (subst (All P) (from_node task_id n e) holds) a above

  climb_sound :
      (fuel : ℕ) (seen : List String) (cursor : TaskNode)
      → ((a : TaskNode) → Above nodes a cursor → P a)
      → All P (climb fuel nodes seen cursor)
  unfolding climb
  climb_sound zero seen cursor each = tt
  climb_sound (suc fuel) seen cursor each =
      let link = cursor.contract.parent_id in
      elim (Bool-cases (is_seen seen link)) [
        | inl met ↦ rw met tt
        | inr unmet ↦ elim (Option-cases (parent_in nodes link)) [
          | inl gone ↦ rw (unmet, gone) tt
          | inr (p, e) ↦
              rw (unmet, e)
                (
                  each p (parent_of e),
                  climb_sound fuel (see link seen) p (λ a above. each a (higher e above)),
                )
        ]
      ]

  -- The chain holds nothing but what is above the node.
  pub ancestry_sound :
      (task_id : String) (n : TaskNode)
      → lookup task_id nodes ≡ some n
      → ((a : TaskNode) → Above nodes a n → P a)
      → All P (ancestry nodes task_id)
  ancestry_sound task_id n e each =
      subst (All P) (sym (from_node task_id n e)) (climb_sound (suc (length nodes)) [] n each)
