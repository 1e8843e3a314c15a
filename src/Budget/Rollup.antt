-- ===== src/Budget/Rollup.antt =====
-- Who is charged for a call: the tracker that makes it and its ancestors.
use praxis_ai_agent_platform.Common.{
  ℕ, zero, suc, ◌+◌, String, ◌≡◌, ◌∙◌, ◌↔◌, inl, inr, true, none, some, [], ◌∷◌, arith, eqb,
  eqb_iff, nat_eq, string_eq, Bool-cases, Option-cases, get_elem?, contains,
}
use mathlib.Core.Path.{subst}
use praxis_ai_agent_platform.Budget.{
  Tracker, Ledger, chain_from, chain, own_record, record_llm_call, price_of,
}
use praxis_ai_agent_platform.Budget.Chain.{
  IsForest, get_elem?-charge, chain-Descends, chain_parent, chain_root,
}

-- `j` is the tracker `id` or one of its ancestors.
pub data Pays (l : Ledger) (j : ℕ) : ℕ → Type 0 where
  itself : {t : Tracker} → get_elem? l j ≡ some t → Pays l j j
  above :
      (id p : ℕ) (t : Tracker)
      → get_elem? l id ≡ some t
      → t.parent ≡ some p
      → Pays l j p
      → Pays l j id

module _ (l : Ledger) where
  missing : (fuel id : ℕ) → get_elem? l id ≡ none → chain_from (suc fuel) l id ≡ []
  unfolding chain_from
  missing fuel id e = rw (e, chain_from)

  topmost :
      (fuel id : ℕ) (t : Tracker)
      → get_elem? l id ≡ some t
      → t.parent ≡ none
      → chain_from (suc fuel) l id ≡ id ∷ []
  unfolding chain_from
  topmost fuel id t e root = rw (e, root, chain_from)

  upwards :
      (fuel id p : ℕ) (t : Tracker)
      → get_elem? l id ≡ some t
      → t.parent ≡ some p
      → chain_from (suc fuel) l id ≡ id ∷ chain_from fuel l p
  unfolding chain_from
  upwards fuel id p t e up = rw (e, up, chain_from)

  self-Pays : (id j : ℕ) (t : Tracker) → get_elem? l id ≡ some t → id ≡ j → Pays l j id
  self-Pays id j t e same = subst (λ k. Pays l k id) same (itself e)

  on_chain-Pays : (fuel id j : ℕ) → contains (chain_from fuel l id) j ≡ true → Pays l j id
  unfolding chain_from
  on_chain-Pays zero id j m = cc
  on_chain-Pays (suc fuel) id j m = elim (Option-cases (get_elem? l id)) [
    | inl e ↦ let m' : contains {A = ℕ} [] j ≡ true = rw (missing fuel id e) at m in cc
    | inr (t, e) ↦ elim (Option-cases t.parent) [
      | inl root ↦
          let m' : contains (id ∷ []) j ≡ true = rw (topmost fuel id t e root) at m in
          self-Pays id j t e (ground (arith, eqb_iff id j))
      | inr (p, up) ↦
          let m' : contains (id ∷ chain_from fuel l p) j ≡ true =
            rw (upwards fuel id p t e up) at m in
          elim (Bool-cases (eqb id j)) [
            | inl same ↦ self-Pays id j t e ((eqb_iff id j).0 same)
            | inr other ↦ above id p t e up (on_chain-Pays fuel p j (rw other at m'))
          ]
    ]
  ]

  module _ (forest : IsForest l) where
    head_on_chain :
        (id : ℕ) (t : Tracker) → get_elem? l id ≡ some t → contains (chain l id) id ≡ true
    head_on_chain id t e = elim (Option-cases t.parent) [
      | inl root ↦ rw (chain_root l forest id t e root) (ground (arith, eqb_iff id id))
      | inr (p, up) ↦ rw (chain_parent l forest id t p e up) (ground (arith, eqb_iff id id))
    ]

    Pays-on_chain : {j id : ℕ} → Pays l j id → contains (chain l id) j ≡ true
    Pays-on_chain (itself {t = t} e) = head_on_chain _ t e
    Pays-on_chain (above id p t e up rest) =
        rw (chain_parent l forest id t p e up) (ground (arith, Pays-on_chain rest))

    -- The chain of a tracker holds those who pay for it, and no other.
    pub chain_iff : (id j : ℕ) → (contains (chain l id) j ≡ true) ↔ Pays l j id
    unfolding chain
    chain_iff id j = ((λ m. on_chain-Pays (suc id) id j m), (λ p. Pays-on_chain p))

    -- A recorded call is charged to the tracker and to each of its ancestors exactly once, with its
    -- tokens, one call, and the cost by that tracker's pricing. Every other tracker is unchanged.
    pub record_llm_call_rolls_up :
        (model : String) (tokens_in tokens_out id j : ℕ) (t : Tracker)
        → get_elem? l j ≡ some t
        → let after = get_elem? (record_llm_call model tokens_in tokens_out l id) j in
          (Pays l j id
            → after
              ≡ some (record t {
                spend = record {
                  tokens_in = t.spend.tokens_in + tokens_in;
                  tokens_out = t.spend.tokens_out + tokens_out;
                  cost_usd = t.spend.cost_usd + price_of t model tokens_in tokens_out;
                  llm_calls = t.spend.llm_calls + 1;
                  descendants = t.spend.descendants;
                };
              }))
          × ((¬ Pays l j id) → after ≡ some t)
    unfolding record_llm_call
    record_llm_call_rolls_up model tokens_in tokens_out id j t e =
        let own = own_record model tokens_in tokens_out in
        let at = get_elem?-charge own (suc id) (chain l id) l j (chain-Descends l forest id) in
        (
          (λ p. at ∙ rw ((chain_iff id j).1 p, e)),
          (λ n. elim (Bool-cases (contains (chain l id) j)) [
            | inl m ↦ absurd (n ((chain_iff id j).0 m))
            | inr m ↦ at ∙ rw (m, e)
          ]),
        )
