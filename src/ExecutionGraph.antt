-- ===== src/ExecutionGraph.antt =====
-- `PlanStep` and `compute_levels` of praxis/core/execution_graph.py. Of a step the levels read its
-- name and its dependencies; the arguments are a parameter.
pub mod Rounds
pub mod Laws
pub mod Complete
pub mod Arguments
pub mod References
mod ReferenceTests
mod Tests
use praxis_ai_agent_platform.Common.{
  ℕ, zero, suc, ◌+◌, String, Bool, true, false, not, ◌||◌, none, some, List, [], ◌∷◌, ◌++◌, ltb,
  if◌then◌else◌, ◌==◌, nat_eq, string_eq, length, get_elem?, filter, all, contains, range_from, ℤ,
  pos, negsuc, Result, ok, err, ◌>>=◌, ◌>>◌,
}

-- Dependencies come from a plan that a model wrote: any integer.
pub record PlanStep (A : Type 0) : Type 0 where
  pub skill_name : String
  pub args : A
  pub depends_on : List ℤ

pub data GraphError : Type 0 where
  -- the index of the step, its skill, and the dependency
  invalid_dependency : ℕ → String → ℤ → GraphError
  dependency_cycle : GraphError
  -- no exception of the code: the model's loop ran out of rounds
  fuel_spent : GraphError

-- `dep == index or not (0 <= dep < step_count)`
abbrev pub is_invalid : ℕ → ℕ → ℤ → Bool
is_invalid step_count index (negsuc _) = true
is_invalid step_count index (pos dep) = dep == index || not (ltb dep step_count)

-- `all(d in resolved for d in ...)`: a negative number is in no set of indices
abbrev pub is_resolved : List ℕ → ℤ → Bool
is_resolved resolved (negsuc _) = false
is_resolved resolved (pos dep) = contains resolved dep

-- the inner loop of the validation
check_deps : ℕ → ℕ → String → List ℤ → Result GraphError (Unit {0})
check_deps step_count index skill [] = ok tt
check_deps step_count index skill (dep ∷ deps) =
    let rest = check_deps step_count index skill deps in
    if is_invalid step_count index dep then err (invalid_dependency index skill dep) else rest

-- `remaining.difference_update(ready)`
abbrev pub difference : List ℕ → List ℕ → List ℕ
difference remaining ready = filter (λ i. not (contains ready i)) remaining

-- `not ready`
abbrev pub is_empty {ℓ} : {A : Type ℓ} → List A → Bool
is_empty [] = true
is_empty (_ ∷ _) = false

-- The end of a round: nothing ready is a cycle, else the level stands before the later ones.
unfoldable pub close_round :
    List ℕ → Result GraphError (List (List ℕ)) → Result GraphError (List (List ℕ))
close_round ready later =
    if is_empty ready then err dependency_cycle else (later >>= λ levels. ok (ready ∷ levels))

module _ {A : Type 0} where
  -- the outer loop, from `index` on
  validate_from : ℕ → ℕ → List (PlanStep A) → Result GraphError (Unit {0})
  validate_from step_count index [] = ok tt
  validate_from step_count index (step ∷ steps) =
      check_deps step_count index step.skill_name step.depends_on
      >> validate_from step_count (index + 1) steps

  -- `steps[i].depends_on`
  abbrev pub depends_of : List (PlanStep A) → ℕ → List ℤ
  depends_of steps i = elim (get_elem? steps i) [ none ↦ [] | some step ↦ step.depends_on ]

  abbrev pub is_ready : List (PlanStep A) → List ℕ → ℕ → Bool
  is_ready steps resolved i = all (is_resolved resolved) (depends_of steps i)

  -- The `while` loop. `remaining` is kept in ascending order, so that what is taken of it is sorted.
  -- The rounds are bounded: each resolves a step at least.
  unfoldable pub levels_from :
      ℕ → List (PlanStep A) → List ℕ → List ℕ → Result GraphError (List (List ℕ))
  unfolding close_round
  levels_from fuel steps resolved [] = ok []
  levels_from zero steps resolved (r ∷ rs) = err fuel_spent
  levels_from (suc fuel) steps resolved (r ∷ rs) =
      let ready = filter (is_ready steps resolved) (r ∷ rs) in
      let later = levels_from fuel steps (resolved ++ ready) (difference (r ∷ rs) ready) in
      close_round ready later

  -- `compute_levels`
  unfoldable pub compute_levels : List (PlanStep A) → Result GraphError (List (List ℕ))
  unfolding validate_from check_deps levels_from range_from
  compute_levels steps =
      let step_count = length steps in
      validate_from step_count 0 steps >> levels_from step_count steps [] (range_from 0 step_count)
