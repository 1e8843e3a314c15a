-- ===== src/ExecutionGraph/Tests.antt =====
-- Levels of sample plans, and the theorems at them.
use praxis_ai_agent_platform.Common.{
  ℕ, zero, suc, ◌≡◌, refl, List, [], ◌∷◌, arith, ltb, if◌then◌else◌, nat_eq, string_eq, count, ℤ,
  pos, negsuc, ok, err,
}
use praxis_ai_agent_platform.ExecutionGraph.{
  PlanStep, invalid_dependency, dependency_cycle, compute_levels,
}
use praxis_ai_agent_platform.ExecutionGraph.Laws.{concat, IsLayered, compute_levels_sound}
use praxis_ai_agent_platform.ExecutionGraph.Complete.{IsRanked, compute_levels_complete}

abbrev step : List ℤ → PlanStep ℕ
step deps = record { skill_name = "query"; args = 0; depends_on = deps }

-- 1 needs 3, 2 needs 0 and 1
abbrev plan : List (PlanStep ℕ)
plan = step [] ∷ step (pos 3 ∷ []) ∷ step (pos 0 ∷ pos 1 ∷ []) ∷ step [] ∷ []

abbrev plan_in_levels : List (List ℕ)
plan_in_levels = (0 ∷ 3 ∷ []) ∷ (1 ∷ []) ∷ (2 ∷ []) ∷ []

plan_levels : compute_levels plan ≡ ok plan_in_levels
unfolding compute_levels
plan_levels = refl

cycle_refused : compute_levels (step (pos 1 ∷ []) ∷ step (pos 0 ∷ []) ∷ []) ≡ err dependency_cycle
unfolding compute_levels
cycle_refused = refl

negative_refused :
    compute_levels (step (negsuc 0 ∷ []) ∷ []) ≡ err (invalid_dependency 0 "query" (negsuc 0))
unfolding compute_levels
negative_refused = refl

compute_levels_sound_example :
    ((i : ℕ) → count i (concat plan_in_levels) ≡ (if ltb i 4 then 1 else 0))
    × IsLayered plan [] plan_in_levels
compute_levels_sound_example = compute_levels_sound plan plan_in_levels plan_levels

abbrev depth : ℕ → ℕ
depth zero = 0
depth (suc zero) = 1
depth (suc (suc zero)) = 2
depth (suc (suc (suc i))) = 0

plan-IsRanked : IsRanked depth plan
plan-IsRanked zero = tt
plan-IsRanked (suc zero) = ((3, refl, omega arith, omega arith), tt)
plan-IsRanked (suc (suc zero)) =
    ((0, refl, omega arith, omega arith), ((1, refl, omega arith, omega arith), tt))
plan-IsRanked (suc (suc (suc zero))) = tt
plan-IsRanked (suc (suc (suc (suc i)))) = tt

compute_levels_complete_example : (levels : List (List ℕ)) × (compute_levels plan ≡ ok levels)
compute_levels_complete_example = compute_levels_complete depth plan plan-IsRanked
