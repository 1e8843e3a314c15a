-- ===== src/Budget/Chain.antt =====
-- The chain of a tracker: the tracker and its ancestors, each once.
use praxis_ai_agent_platform.Common.{
  ℕ, zero, suc, ◌≤◌, ◌<◌, ◌≡◌, refl, ap, inl, inr, true, none, some, List, [], ◌∷◌, arith,
  if◌then◌else◌, nat_eq, string_eq, Option-cases, get_elem?, contains, modify, map_option,
  get_elem?-modify,
}
use praxis_ai_agent_platform.Budget.{Tracker, Ledger, chain_from, chain, charge}

-- Every parent stands before its child.
pub record IsForest (l : Ledger) : Type 0 where
  pub before : (id : ℕ) (t : Tracker) (p : ℕ) → get_elem? l id ≡ some t → t.parent ≡ some p → p < id

-- The places fall along the list, from below a bound.
abbrev pub Descends : ℕ → List ℕ → Type 0
Descends bound [] = Unit
Descends bound (id ∷ ids) = (id < bound) × Descends id ids

pub lt_of_Descends :
    (bound : ℕ) (ids : List ℕ) (j : ℕ) → Descends bound ids → contains ids j ≡ true → j < bound
lt_of_Descends bound [] j d m = cc
lt_of_Descends bound (id ∷ ids) j d m = ground (arith, lt_of_Descends id ids j d.1)

-- Charging a chain changes each tracker of it, once, and no other.
pub get_elem?-charge :
    (own : Tracker → Tracker) (bound : ℕ) (ids : List ℕ) (l : Ledger) (j : ℕ)
    → Descends bound ids
    → get_elem? (charge own ids l) j
      ≡ (if contains ids j then map_option own (get_elem? l j) else get_elem? l j)
unfolding charge
get_elem?-charge own bound [] l j d = refl
get_elem?-charge own bound (id ∷ ids) l j d = ground (
  arith,
  get_elem?-charge own id ids (modify l id own) j d.1,
  get_elem?-modify l id j own,
  lt_of_Descends id ids j d.1,
)

Descends-weaken : (b c : ℕ) (ids : List ℕ) → b ≤ c → Descends b ids → Descends c ids
Descends-weaken b c [] le d = tt
Descends-weaken b c (id ∷ ids) le d = (omega arith, d.1)

module _ (l : Ledger) (forest : IsForest l) where
  chain_from-Descends : (fuel id : ℕ) → Descends (suc id) (chain_from fuel l id)
  unfolding chain_from
  chain_from-Descends zero id = tt
  chain_from-Descends (suc fuel) id = elim (Option-cases (get_elem? l id)) [
    | inl e ↦ rw (e, chain_from) tt
    | inr (t, e) ↦ elim (Option-cases t.parent) [
      | inl root ↦ rw (e, root, chain_from) (omega arith, tt)
      | inr (p, up) ↦
          rw (e, up, chain_from)
            (
              omega arith,
              Descends-weaken (suc p) id (chain_from fuel l p) (forest.before id t p e up)
                  (chain_from-Descends fuel p),
            )
    ]
  ]

  pub chain-Descends : (id : ℕ) → Descends (suc id) (chain l id)
  unfolding chain
  chain-Descends id = chain_from-Descends (suc id) id

  -- More fuel than the place makes the same chain.
  fuel_irrelevant : (f g id : ℕ) → id < f → id < g → chain_from f l id ≡ chain_from g l id
  unfolding chain_from
  fuel_irrelevant zero g id hf hg = elim hf [ ]
  fuel_irrelevant (suc f) zero id hf hg = elim hg [ ]
  fuel_irrelevant (suc f) (suc g) id hf hg = elim (Option-cases (get_elem? l id)) [
    | inl e ↦ rw (e, chain_from)
    | inr (t, e) ↦ elim (Option-cases t.parent) [
      | inl root ↦ rw (e, root, chain_from)
      | inr (p, up) ↦
          let less = forest.before id t p e up in
          rw (e, up, chain_from)
            (ap (λ c. id ∷ c) (fuel_irrelevant f g p (omega arith) (omega arith)))
    ]
  ]

  -- The chain of a tracker is the tracker before the chain of its parent, up to a tracker that has
  -- none: the fuel never cuts it short.
  pub chain_parent :
      (id : ℕ) (t : Tracker) (p : ℕ)
      → get_elem? l id ≡ some t
      → t.parent ≡ some p
      → chain l id ≡ id ∷ chain l p
  unfolding chain
  chain_parent id t p e up =
      let less = forest.before id t p e up in
      rw (e, up, chain_from) (ap (λ c. id ∷ c) (fuel_irrelevant id (suc p) p less (omega arith)))

  pub chain_root :
      (id : ℕ) (t : Tracker) → get_elem? l id ≡ some t → t.parent ≡ none → chain l id ≡ id ∷ []
  unfolding chain
  chain_root id t e root = rw (e, root, chain_from)
