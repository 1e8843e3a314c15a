-- ===== src/ExecutionGraph/Rounds.antt =====
-- One round of `compute_levels`: what is ready leaves what remains.
use praxis_ai_agent_platform.Common.{
  ℕ, ◌+◌, ◌<◌, ◌≡◌, refl, true, false, not, List, [], ◌∷◌, arith, eqb_iff, nat_eq, string_eq,
  length, filter, contains, count, contains-filter, count-filter, count-contains, length-filter_lt,
}
use praxis_ai_agent_platform.ExecutionGraph.{PlanStep, is_ready, difference, is_empty}

pub contains_head : (l : List ℕ) → is_empty l ≡ false → (i : ℕ) × (contains l i ≡ true)
contains_head [] h = cc
contains_head (i ∷ l) h = (i, ground (arith, eqb_iff i i))

pub none_of_empty : (l : List ℕ) (i : ℕ) → is_empty l ≡ true → contains l i ≡ false
none_of_empty [] i h = refl
none_of_empty (j ∷ l) i h = cc

module _ {A : Type 0} (steps : List (PlanStep A)) (resolved remaining : List ℕ) where
  abbrev pub ready : List ℕ
  ready = filter (is_ready steps resolved) remaining

  abbrev pub rest : List ℕ
  rest = difference remaining ready

  -- Every step that remained is in exactly one of the two, as often as it remained.
  pub ready_or_rest : (i : ℕ) → count i ready + count i rest ≡ count i remaining
  ready_or_rest i = ground (
    arith,
    count-filter (is_ready steps resolved) i remaining,
    count-filter (λ j. not (contains ready j)) i remaining,
    contains-filter (is_ready steps resolved) remaining i,
    count-contains i remaining,
  )

  pub ready-is_ready : (i : ℕ) → contains ready i ≡ true → is_ready steps resolved i ≡ true
  ready-is_ready i h = ground (arith, contains-filter (is_ready steps resolved) remaining i)

  -- A round that resolves something leaves less.
  pub fewer : (i : ℕ) → contains ready i ≡ true → length rest < length remaining
  fewer i h =
      length-filter_lt (λ j. not (contains ready j)) remaining i
        (ground (arith, contains-filter (is_ready steps resolved) remaining i)) (ground arith)
