-- ===== src/Budget.antt =====
-- praxis/agents/budget.py. The trackers are objects that refer to their parents, and several
-- children share one parent: they stand in a ledger, a tracker's name being its place there. Money
-- is exact: a rate is in cents for a million tokens, so that a cost is in units of 10⁻⁸ dollars.
pub mod Chain
pub mod Rollup
pub mod Guard
pub mod Children
pub mod Runs
mod Tests
use praxis_ai_agent_platform.Common.{
  ℕ, zero, suc, ◌+◌, ◌-◌, ◌*◌, String, Option, none, some, List, [], ◌∷◌, ◌++◌, ltb, if◌then◌else◌,
  nat_eq, string_eq, get_elem?, modify, Dict, lookup, Result, ok, err, ◌>>◌,
}

pub record Budget : Type 0 where
  pub max_tokens : Option ℕ
  pub max_cost_usd : Option ℕ
  pub max_llm_calls : Option ℕ
  pub max_wall_clock_seconds : Option ℕ
  pub max_descendants : Option ℕ

-- `Budget()`
abbrev pub unlimited : Budget
unlimited = record {
  max_tokens = none;
  max_cost_usd = none;
  max_llm_calls = none;
  max_wall_clock_seconds = none;
  max_descendants = none;
}

-- A payload of JSON: `None`, or numbers and nulls by their names.
abbrev pub Json : Type 0
Json = Option (Dict String (Option ℕ))

unfoldable pub to_dict : Budget → Dict String (Option ℕ)
to_dict b =
    ("max_tokens", b.max_tokens)
    ∷ ("max_cost_usd", b.max_cost_usd)
    ∷ ("max_llm_calls", b.max_llm_calls)
    ∷ ("max_wall_clock_seconds", b.max_wall_clock_seconds)
    ∷ ("max_descendants", b.max_descendants)
    ∷ []

-- `payload.get(key)`
abbrev pub get_key : String → Dict String (Option ℕ) → Option ℕ
get_key key d = elim (lookup key d) [ none ↦ none | some v ↦ v ]

-- `Budget.from_dict`: an empty payload is no budget
unfoldable pub from_dict : Json → Option Budget
from_dict none = none
from_dict (some []) = none
from_dict (some (entry ∷ d)) = some record {
  max_tokens = get_key "max_tokens" (entry ∷ d);
  max_cost_usd = get_key "max_cost_usd" (entry ∷ d);
  max_llm_calls = get_key "max_llm_calls" (entry ∷ d);
  max_wall_clock_seconds = get_key "max_wall_clock_seconds" (entry ∷ d);
  max_descendants = get_key "max_descendants" (entry ∷ d);
}

-- the rates for input and output
abbrev pub Rate : Type 0
Rate = ℕ × ℕ

unfoldable pub default_pricing : Dict String Rate
default_pricing =
    ("claude-haiku-4-5-20251001", (100, 500))
    ∷ ("claude-sonnet-5", (300, 1500))
    ∷ ("claude-opus-5", (1500, 7500))
    ∷ ("gpt-5", (125, 1000))
    ∷ ("gpt-5-mini", (25, 200))
    ∷ ("gpt-5-nano", (5, 40))
    ∷ ("gpt-4.1", (200, 800))
    ∷ ("gpt-4.1-mini", (40, 160))
    ∷ ("gpt-4.1-nano", (10, 40))
    ∷ ("gpt-4o", (250, 1000))
    ∷ ("gpt-4o-mini", (15, 60))
    ∷ []

abbrev pub unknown_model_pricing : Rate
unknown_model_pricing = (1500, 7500)

pub record Spend : Type 0 where
  pub tokens_in : ℕ
  pub tokens_out : ℕ
  pub cost_usd : ℕ
  pub llm_calls : ℕ
  pub descendants : ℕ

abbrev pub spent_tokens : Spend → ℕ
spent_tokens s = s.tokens_in + s.tokens_out

abbrev pub nothing_spent : Spend
nothing_spent = record {
  tokens_in = 0;
  tokens_out = 0;
  cost_usd = 0;
  llm_calls = 0;
  descendants = 0;
}

pub record Tracker : Type 0 where
  pub budget : Budget
  pub parent : Option ℕ
  pub pricing : Dict String Rate
  pub started_at : ℕ
  pub spend : Spend

abbrev pub Ledger : Type 0
Ledger = List Tracker

-- `price_of`
unfoldable pub price_of : Tracker → String → ℕ → ℕ → ℕ
price_of t model tokens_in tokens_out =
    let rate : Rate = elim (lookup model t.pricing) [ none ↦ unknown_model_pricing | some r ↦ r ] in
    tokens_in * rate.0 + tokens_out * rate.1

-- The resource, the limit and the attempted total of a `BudgetExhaustedError`.
pub data Resource : Type 0 where
  wall_clock_seconds llm_calls tokens cost_usd descendants : Resource

pub record BudgetExhaustedError : Type 0 where
  pub resource : Resource
  pub limit : ℕ
  pub attempted : ℕ

-- `if limit is not None and attempted > limit: raise`
unfoldable pub enforce : Resource → Option ℕ → ℕ → Result BudgetExhaustedError (Unit {0})
enforce resource none attempted = ok tt
enforce resource (some limit) attempted =
    if ltb limit attempted
    then err (record { resource = resource; limit = limit; attempted = attempted })
    else ok tt

-- A tracker, its parent, its parent's parent and so on.
chain_from : ℕ → Ledger → ℕ → List ℕ
chain_from zero l id = []
chain_from (suc fuel) l id = elim (get_elem? l id) [
  | none ↦ []
  | some t ↦ id ∷ elim t.parent [ none ↦ [] | some p ↦ chain_from fuel l p ]
]

-- A parent is made before its children, so that a place bounds the length of its chain.
unfoldable pub chain : Ledger → ℕ → List ℕ
unfolding chain_from
chain l id = chain_from (suc id) l id

-- A check of the tracker at a place. A reference is never dangling; there would be nothing to check.
abbrev pub on_tracker :
    (Tracker → Result BudgetExhaustedError (Unit {0}))
    → Option Tracker
    → Result BudgetExhaustedError (Unit {0})
on_tracker own none = ok tt
on_tracker own (some t) = own t

-- what a check asks of one tracker, asked up the chain
unfoldable pub ask :
    (Tracker → Result BudgetExhaustedError (Unit {0}))
    → Ledger
    → List ℕ
    → Result BudgetExhaustedError (Unit {0})
ask own l [] = ok tt
ask own l (id ∷ ids) = on_tracker own (get_elem? l id) >> ask own l ids

-- `check_deadline`, the tracker's own part
unfoldable pub own_deadline : ℕ → Tracker → Result BudgetExhaustedError (Unit {0})
unfolding enforce
own_deadline now t = enforce wall_clock_seconds t.budget.max_wall_clock_seconds (now - t.started_at)

unfoldable pub check_deadline : ℕ → Ledger → ℕ → Result BudgetExhaustedError (Unit {0})
unfolding own_deadline ask chain
check_deadline now l id = ask (own_deadline now) l (chain l id)

-- `check_llm_call`, the tracker's own part after its `check_deadline`
unfoldable pub own_llm_call : String → ℕ → Tracker → Result BudgetExhaustedError (Unit {0})
unfolding enforce price_of
own_llm_call model estimated t =
    enforce llm_calls t.budget.max_llm_calls (t.spend.llm_calls + 1)
    >> (enforce tokens t.budget.max_tokens (spent_tokens t.spend + estimated)
        >> enforce cost_usd t.budget.max_cost_usd (t.spend.cost_usd + price_of t model estimated 0))

-- each tracker of the chain asks first for the deadlines of the rest of the chain
unfoldable pub ask_llm_call :
    ℕ → String → ℕ → Ledger → List ℕ → Result BudgetExhaustedError (Unit {0})
unfolding own_llm_call ask own_deadline
ask_llm_call now model estimated l [] = ok tt
ask_llm_call now model estimated l (id ∷ ids) =
    ask (own_deadline now) l (id ∷ ids)
    >> (on_tracker (own_llm_call model estimated) (get_elem? l id)
        >> ask_llm_call now model estimated l ids)

unfoldable pub check_llm_call : ℕ → String → ℕ → Ledger → ℕ → Result BudgetExhaustedError (Unit {0})
unfolding ask_llm_call chain
check_llm_call now model estimated l id = ask_llm_call now model estimated l (chain l id)

-- `check_descendant`
unfoldable pub own_descendant : Tracker → Result BudgetExhaustedError (Unit {0})
unfolding enforce
own_descendant t = enforce descendants t.budget.max_descendants (t.spend.descendants + 1)

unfoldable pub check_descendant : Ledger → ℕ → Result BudgetExhaustedError (Unit {0})
unfolding own_descendant ask chain
check_descendant l id = ask own_descendant l (chain l id)

-- what a recording does to one tracker, done up the chain
unfoldable pub charge : (Tracker → Tracker) → List ℕ → Ledger → Ledger
charge own [] l = l
charge own (id ∷ ids) l = charge own ids (modify l id own)

unfoldable pub own_record : String → ℕ → ℕ → Tracker → Tracker
unfolding price_of
own_record model tokens_in tokens_out t = record t {
  spend = record {
    tokens_in = t.spend.tokens_in + tokens_in;
    tokens_out = t.spend.tokens_out + tokens_out;
    cost_usd = t.spend.cost_usd + price_of t model tokens_in tokens_out;
    llm_calls = t.spend.llm_calls + 1;
    descendants = t.spend.descendants;
  };
}

-- `record_llm_call`; the cost that it returns is `price_of` of the tracker
unfoldable pub record_llm_call : String → ℕ → ℕ → Ledger → ℕ → Ledger
unfolding own_record charge chain
record_llm_call model tokens_in tokens_out l id =
    charge (own_record model tokens_in tokens_out) (chain l id) l

unfoldable pub own_record_descendant : Tracker → Tracker
own_record_descendant t = record t {
  spend = record t.spend { descendants = t.spend.descendants + 1 };
}

-- `record_descendant`
unfoldable pub record_descendant : Ledger → ℕ → Ledger
unfolding own_record_descendant charge chain
record_descendant l id = charge own_record_descendant (chain l id) l

-- `budget if budget is not None else self._budget`, and the pricing of the parent
abbrev pub new_child : ℕ → Option Budget → ℕ → Tracker → Tracker
new_child now budget id t = record {
  budget = elim budget [ none ↦ t.budget | some b ↦ b ];
  parent = some id;
  pricing = t.pricing;
  started_at = now;
  spend = nothing_spent;
}

-- `child`: the new tracker stands at the end of the ledger
unfoldable pub child : ℕ → Option Budget → Ledger → ℕ → Result BudgetExhaustedError Ledger
unfolding check_descendant record_descendant
child now budget l id =
    check_descendant l id
    >> (let l' = record_descendant l id in
        elim (get_elem? l' id) [
          | none ↦ ok l'
          | some t ↦ ok (l' ++ new_child now budget id t ∷ [])
        ])
