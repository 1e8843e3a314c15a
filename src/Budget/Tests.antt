-- ===== src/Budget/Tests.antt =====
-- A root with a child and the child's child, beside another child, run through the checks.
use praxis_ai_agent_platform.Common.{
  ℕ, zero, suc, ◌<◌, String, ◌≡◌, refl, ap, ◌∙◌, none, some, [], ◌∷◌, arith, nat_eq, string_eq,
  get_elem?, modify, lookup, ok, err, sym, ◌≤◌, Option,
}
use mathlib.Core.Path.{subst}
use praxis_ai_agent_platform.Budget.{
  Spend, price_of, Budget, unlimited, Tracker, Ledger, nothing_spent, default_pricing, from_dict,
  to_dict, child, record_llm_call, check_llm_call,
}
use praxis_ai_agent_platform.Budget.Chain.{IsForest}
use praxis_ai_agent_platform.Budget.Rollup.{Pays, itself, above, record_llm_call_rolls_up}
use praxis_ai_agent_platform.Budget.Guard.{IsHonest, IsSolvent, IsWithin}
use praxis_ai_agent_platform.Budget.Runs.{IsReachable, call, spawn, reachable-IsSolvent}

abbrev tight : Budget
tight = record unlimited {
  max_tokens = some 1000;
  max_llm_calls = some 2;
  max_descendants = some 3;
}

abbrev root : Tracker
root = record {
  budget = tight;
  parent = none;
  pricing = default_pricing;
  started_at = 5;
  spend = nothing_spent;
}

abbrev worker : ℕ → Tracker
worker p = record root { budget = unlimited; parent = some p }

-- The root 0 has the children 1 and 2, and 1 has the child 3.
abbrev family : Ledger
family = root ∷ worker 0 ∷ worker 0 ∷ worker 1 ∷ []

abbrev model : String
model = "gpt-5-mini"

places : (id : ℕ) (t : Tracker) (p : ℕ) → get_elem? family id ≡ some t → t.parent ≡ some p → p < id
places zero t p e up =
    let same : root ≡ t = cc in
    let no : none ≡ some p = ap (λ (v : Tracker). v.parent) same ∙ up in cc
places (suc zero) t p e up =
    let same : worker 0 ≡ t = cc in
    let no : some 0 ≡ some p = ap (λ (v : Tracker). v.parent) same ∙ up in
    let q : 0 ≡ p = cc in omega (arith, q)
places (suc (suc zero)) t p e up =
    let same : worker 0 ≡ t = cc in
    let no : some 0 ≡ some p = ap (λ (v : Tracker). v.parent) same ∙ up in
    let q : 0 ≡ p = cc in omega (arith, q)
places (suc (suc (suc zero))) t p e up =
    let same : worker 1 ≡ t = cc in
    let no : some 1 ≡ some p = ap (λ (v : Tracker). v.parent) same ∙ up in
    let q : 1 ≡ p = cc in omega (arith, q)
places (suc (suc (suc (suc i)))) t p e up = cc

family-IsForest : IsForest family
family-IsForest = record { before = places }

root-IsWithin : IsWithin root
root-IsWithin = record {
  calls = omega arith;
  used = omega arith;
  cost = tt;
  children = omega arith;
}

worker-IsWithin : (p : ℕ) → IsWithin (worker p)
worker-IsWithin p = record { calls = tt; used = tt; cost = tt; children = tt }

within : (id : ℕ) (t : Tracker) → get_elem? family id ≡ some t → IsWithin t
within zero t e = let same : root ≡ t = cc in subst IsWithin same root-IsWithin
within (suc zero) t e = let same : worker 0 ≡ t = cc in subst IsWithin same (worker-IsWithin 0)
within (suc (suc zero)) t e =
    let same : worker 0 ≡ t = cc in subst IsWithin same (worker-IsWithin 0)
within (suc (suc (suc zero))) t e =
    let same : worker 1 ≡ t = cc in subst IsWithin same (worker-IsWithin 1)
within (suc (suc (suc (suc i)))) t e = cc

family-IsSolvent : IsSolvent family
family-IsSolvent = record { at = within }

record_llm_call_rolls_up_example :
    let after = get_elem? (record_llm_call model 100 20 family 3) in
    (Pays family 0 3
      → after 0
        ≡ some (record root {
          spend = record {
            tokens_in = 100;
            tokens_out = 20;
            cost_usd = 6500;
            llm_calls = 1;
            descendants = 0;
          };
        }))
    × ((¬ Pays family 0 3) → after 0 ≡ some root)
unfolding price_of lookup default_pricing
record_llm_call_rolls_up_example =
    record_llm_call_rolls_up family family-IsForest model 100 20 3 0 root refl

-- the root pays for its grandchild, and is not its sibling's ancestor
root-Pays : Pays family 0 3
root-Pays = above 3 1 (worker 1) refl refl (above 1 0 (worker 0) refl refl (itself refl))

kept : (j : ℕ) (t : Tracker) → get_elem? family j ≡ some t → t.pricing ≡ default_pricing
kept zero t e = let same : root ≡ t = cc in ap (λ (v : Tracker). v.pricing) (sym same)
kept (suc zero) t e = let same : worker 0 ≡ t = cc in ap (λ (v : Tracker). v.pricing) (sym same)
kept (suc (suc zero)) t e =
    let same : worker 0 ≡ t = cc in ap (λ (v : Tracker). v.pricing) (sym same)
kept (suc (suc (suc zero))) t e =
    let same : worker 1 ≡ t = cc in ap (λ (v : Tracker). v.pricing) (sym same)
kept (suc (suc (suc (suc i)))) t e = cc

cheaper :
    (t : Tracker) → t.pricing ≡ default_pricing → price_of t model 20 10 ≤ price_of t model 100 0
unfolding price_of lookup default_pricing
cheaper t e = rw e (omega arith)

-- a hundred tokens estimated, twenty read and ten written: both cost the same
honest : IsHonest family model 100 20 10
honest = record { tokens_kept = omega arith; cost_kept = λ j t e. cheaper t (kept j t e) }

abbrev frugal : Ledger
frugal = record root { budget = record unlimited { max_cost_usd = some 2500 } } ∷ []

abbrev cost_of : Option Tracker → ℕ
cost_of none = 0
cost_of (some t) = t.spend.cost_usd

-- a call of no more tokens than estimated passes the check, and overruns the limit on cost
overrun :
    (check_llm_call 9 model 100 frugal 0 ≡ ok tt)
    × (cost_of (get_elem? (record_llm_call model 0 100 frugal 0) 0) ≡ 20000)
unfolding check_llm_call record_llm_call lookup modify default_pricing
overrun = (refl, refl)

abbrev root_spend : Ledger → Option Spend
root_spend [] = none
root_spend (t ∷ l) = some t.spend

abbrev first : Ledger
first = root ∷ []

abbrev grown : Ledger
grown = elim (child 9 none first 0) [ ok l ↦ l | err e ↦ [] ]

with_child : IsReachable grown
unfolding child modify
with_child = spawn 9 none 0 (IsReachable.root 5 tight default_pricing) refl

-- the child's call is charged to the root, which has been charged for the child
charged :
    root_spend (record_llm_call model 100 0 grown 1)
    ≡ some (record {
      tokens_in = 100;
      tokens_out = 0;
      cost_usd = 2500;
      llm_calls = 1;
      descendants = 1;
    })
unfolding child modify record_llm_call lookup default_pricing
charged = refl

reachable-IsSolvent_example :
    IsSolvent (record_llm_call model 100 0 grown 1) × IsForest (record_llm_call model 100 0 grown 1)
unfolding check_llm_call child modify
reachable-IsSolvent_example = reachable-IsSolvent (record_llm_call model 100 0 grown 1) (
    call 9 model 100 100 0 1 with_child refl
      (record { tokens_kept = omega arith; cost_kept = λ j t e. omega arith }))

-- what is written is read back, and an empty payload is no budget
read_back : (from_dict (some (to_dict tight)) ≡ some tight) × (from_dict (some []) ≡ none)
unfolding from_dict to_dict lookup
read_back = (refl, refl)
