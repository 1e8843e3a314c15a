-- ===== src/Budget/Guard.antt =====
-- The checks keep every tracker of a ledger within its budget.
use praxis_ai_agent_platform.Common.{
  ℕ, suc, ◌+◌, ◌≤◌, String, ◌≡◌, refl, sym, ap, ◌∙◌, inl, inr, true, Option, none, some, List, [],
  ◌∷◌, arith, eqb, eqb_iff, nat_eq, string_eq, Bool-cases, get_elem?, contains, map_option,
  map_option-eq-some, Result, ok, err, ◌>>◌,
}
use praxis_ai_agent_platform.Budget.{
  spent_tokens, Tracker, Ledger, price_of, BudgetExhaustedError, Resource, enforce, chain,
  on_tracker, ask, own_deadline, own_llm_call, ask_llm_call, check_llm_call, own_descendant,
  check_descendant, charge, own_record, record_llm_call, own_record_descendant, record_descendant,
}
use praxis_ai_agent_platform.Budget.Chain.{IsForest, get_elem?-charge, chain-Descends}
use mathlib.Core.Path.{subst}

-- A total within a limit, if there is one.
abbrev pub Fits : Option ℕ → ℕ → Type 0
Fits none n = Unit
Fits (some limit) n = n ≤ limit

pub record IsWithin (t : Tracker) : Type 0 where
  pub calls : Fits t.budget.max_llm_calls t.spend.llm_calls
  pub used : Fits t.budget.max_tokens (spent_tokens t.spend)
  pub cost : Fits t.budget.max_cost_usd t.spend.cost_usd
  pub children : Fits t.budget.max_descendants t.spend.descendants

-- Every tracker of a ledger is within its budget.
pub record IsSolvent (l : Ledger) : Type 0 where
  pub at : (id : ℕ) (t : Tracker) → get_elem? l id ≡ some t → IsWithin t

Fits-le : (o : Option ℕ) (m n : ℕ) → m ≤ n → Fits o n → Fits o m
Fits-le none m n le f = tt
Fits-le (some limit) m n le f = omega arith

enforce-Fits : (r : Resource) (o : Option ℕ) (n : ℕ) → enforce r o n ≡ ok tt → Fits o n
unfolding enforce
enforce-Fits r none n h = tt
enforce-Fits r (some limit) n h = ground arith

>>-left : {E : Type 0} (m k : Result E (Unit {0})) → (m >> k) ≡ ok tt → m ≡ ok tt
>>-left (ok tt) k h = refl
>>-left (err e) k h = cc

>>-right : {E : Type 0} (m k : Result E (Unit {0})) → (m >> k) ≡ ok tt → k ≡ ok tt
>>-right (ok tt) k h = h
>>-right (err e) k h = cc

-- A check that passes has passed at every tracker of the chain.
asked :
    (own : Tracker → Result BudgetExhaustedError (Unit {0})) (l : Ledger) (ids : List ℕ)
    → ask own l ids ≡ ok tt
    → (j : ℕ) (t : Tracker) → contains ids j ≡ true
    → get_elem? l j ≡ some t
    → own t ≡ ok tt
unfolding ask
asked own l [] h j t m e = cc
asked own l (id ∷ ids) h j t m e = elim (Bool-cases (eqb id j)) [
  | inl same ↦
      let here : get_elem? l id ≡ some t = ap (get_elem? l) ((eqb_iff id j).0 same) ∙ e in
      sym (ap (on_tracker own) here) ∙ >>-left (on_tracker own (get_elem? l id)) (ask own l ids) h
  | inr other ↦
      asked own l ids (>>-right (on_tracker own (get_elem? l id)) (ask own l ids) h) j t
        (rw other at m) e
]

-- A call that is let through passes the calls, tokens and cost checks of every tracker of the chain.
asked_llm_call :
    (now : ℕ) (model : String) (estimated : ℕ) (l : Ledger) (ids : List ℕ)
    → ask_llm_call now model estimated l ids ≡ ok tt
    → (j : ℕ) (t : Tracker) → contains ids j ≡ true
    → get_elem? l j ≡ some t
    → own_llm_call model estimated t ≡ ok tt
unfolding ask_llm_call
asked_llm_call now model estimated l [] h j t m e = cc
asked_llm_call now model estimated l (id ∷ ids) h j t m e =
    let own = on_tracker (own_llm_call model estimated) (get_elem? l id) in
    let later = ask_llm_call now model estimated l ids in
    let both = >>-right (ask (own_deadline now) l (id ∷ ids)) (own >> later) h in
    elim (Bool-cases (eqb id j)) [
      | inl same ↦
          let here : get_elem? l id ≡ some t = ap (get_elem? l) ((eqb_iff id j).0 same) ∙ e in
          sym (ap (on_tracker (own_llm_call model estimated)) here) ∙ >>-left own later both
      | inr other ↦
          asked_llm_call now model estimated l ids (>>-right own later both) j t (rw other at m) e
    ]

-- What the caller must keep to: no more tokens than it estimated and, by the pricing of each tracker
-- of the ledger, no higher cost than that of the estimate, which the check prices as input.
pub record IsHonest (l : Ledger) (model : String) (estimated tokens_in tokens_out : ℕ)
    : Type 0 where
  pub tokens_kept : tokens_in + tokens_out ≤ estimated
  pub cost_kept :
      (j : ℕ) (t : Tracker)
      → get_elem? l j ≡ some t
      → price_of t model tokens_in tokens_out ≤ price_of t model estimated 0

own_record-IsWithin :
    (model : String) (estimated tokens_in tokens_out : ℕ) (t : Tracker)
    → tokens_in + tokens_out ≤ estimated
    → price_of t model tokens_in tokens_out ≤ price_of t model estimated 0
    → own_llm_call model estimated t ≡ ok tt
    → IsWithin t
    → IsWithin (own_record model tokens_in tokens_out t)
unfolding own_llm_call own_record
own_record-IsWithin model estimated tokens_in tokens_out t short cheap h w =
    let calls_ok = enforce Resource.llm_calls t.budget.max_llm_calls (t.spend.llm_calls + 1) in
    let used_ok = enforce Resource.tokens t.budget.max_tokens (spent_tokens t.spend + estimated) in
    let cost_ok =
      enforce Resource.cost_usd t.budget.max_cost_usd
        (t.spend.cost_usd + price_of t model estimated 0) in
    let rest = >>-right calls_ok (used_ok >> cost_ok) h in
    record {
      calls = enforce-Fits Resource.llm_calls _ _ (>>-left calls_ok (used_ok >> cost_ok) h);
      used =
          Fits-le t.budget.max_tokens _ (spent_tokens t.spend + estimated) (omega arith)
            (enforce-Fits Resource.tokens _ _ (>>-left used_ok cost_ok rest));
      cost =
          Fits-le t.budget.max_cost_usd _ (t.spend.cost_usd + price_of t model estimated 0)
            (omega arith) (enforce-Fits Resource.cost_usd _ _ (>>-right used_ok cost_ok rest));
      children = w.children;
    }

module _ (l : Ledger) (forest : IsForest l) (solvent : IsSolvent l) where
  -- A change along a chain that keeps every tracker of it within its budget keeps the ledger solvent.
  charge-IsSolvent :
      (own : Tracker → Tracker) (id : ℕ)
      → ((j : ℕ) (t : Tracker)
          → contains (chain l id) j ≡ true
          → get_elem? l j ≡ some t
          → IsWithin t
          → IsWithin (own t))
      → IsSolvent (charge own (chain l id) l)
  charge-IsSolvent own id keeps = record {
    at = λ j t e.
        let moved = get_elem?-charge own (suc id) (chain l id) l j (chain-Descends l forest id) in
        elim (Bool-cases (contains (chain l id) j)) [
          | inr off ↦ solvent.at j t (sym (rw off at moved) ∙ e)
          | inl on ↦
              let here : map_option own (get_elem? l j) ≡ some t = sym (rw on at moved) ∙ e in
              let (u, was, same) = map_option-eq-some own (get_elem? l j) here in
              subst (λ v. IsWithin v) same (keeps j u on was (solvent.at j u was))
        ];
  }

  -- A call that check_llm_call let through, and that used no more than it was estimated to use and
  -- to cost, leaves every tracker of a solvent ledger within its budget when it is recorded.
  pub guarded_call-IsSolvent :
      (now : ℕ) (model : String) (estimated tokens_in tokens_out id : ℕ)
      → check_llm_call now model estimated l id ≡ ok tt
      → IsHonest l model estimated tokens_in tokens_out
      → IsSolvent (record_llm_call model tokens_in tokens_out l id)
  unfolding check_llm_call record_llm_call
  guarded_call-IsSolvent now model estimated tokens_in tokens_out id h honest =
      charge-IsSolvent (own_record model tokens_in tokens_out) id (λ j t on e w.
        own_record-IsWithin model estimated tokens_in tokens_out t honest.tokens_kept
          (honest.cost_kept j t e) (asked_llm_call now model estimated l (chain l id) h j t on e) w)

  own_record_descendant-IsWithin :
      (t : Tracker) → own_descendant t ≡ ok tt → IsWithin t → IsWithin (own_record_descendant t)
  unfolding own_descendant own_record_descendant
  own_record_descendant-IsWithin t h w = record {
    calls = w.calls;
    used = w.used;
    cost = w.cost;
    children = enforce-Fits Resource.descendants _ _ h;
  }

  pub record_descendant-IsSolvent :
      (id : ℕ) → check_descendant l id ≡ ok tt → IsSolvent (record_descendant l id)
  unfolding check_descendant record_descendant
  record_descendant-IsSolvent id h = charge-IsSolvent own_record_descendant id (λ j t on e w.
      own_record_descendant-IsWithin t (asked own_descendant l (chain l id) h j t on e) w)
