-- ===== src/ExecutionGraph/Laws.antt =====
-- `compute_levels` ends, places every step once, and every step after its dependencies.
use praxis_ai_agent_platform.Common.{
  ℕ, zero, suc, ◌+◌, ◌≤◌, String, ◌≡◌, refl, ◌∙◌, ◌≢◌, inl, inr, true, false, List, [], ◌∷◌, ◌++◌,
  arith, ltb, eqb_iff, if◌then◌else◌, nat_eq, string_eq, length, all, contains, count, All,
  count-append, range_from, count-range_from, length-range_from, ℤ, pos, negsuc, Result, ok, err,
  >>=-eq-ok, >>-eq-err, and_left, and_right,
}
use praxis_ai_agent_platform.ExecutionGraph.{
  PlanStep, GraphError, fuel_spent, is_resolved, check_deps, validate_from, depends_of, is_ready,
  is_empty, close_round, levels_from, compute_levels,
}
use praxis_ai_agent_platform.ExecutionGraph.Rounds.{
  contains_head, ready, rest, ready_or_rest, ready-is_ready, fewer,
}

abbrev pub concat {ℓ} : {A : Type ℓ} → List (List A) → List A
concat [] = []
concat (xs ∷ xss) = xs ++ concat xss

-- A dependency that stands among the steps before.
abbrev pub IsMet : List ℕ → ℤ → Type 0
IsMet before d = (k : ℕ) × (d ≡ pos k) × (contains before k ≡ true)

is_resolved-IsMet : (before : List ℕ) (d : ℤ) → is_resolved before d ≡ true → IsMet before d
is_resolved-IsMet before (pos k) h = (k, refl, h)
is_resolved-IsMet before (negsuc k) h = cc

all-IsMet :
    (before : List ℕ) (ds : List ℤ) → all (is_resolved before) ds ≡ true → All (IsMet before) ds
all-IsMet before [] h = tt
all-IsMet before (d ∷ ds) h =
    (is_resolved-IsMet before d (and_left _ _ h), all-IsMet before ds (and_right _ _ h))

ok-injective :
    {a b : List (List ℕ)} → (let r : Result GraphError (List (List ℕ)) = ok a in r) ≡ ok b → a ≡ b
ok-injective h = cc

-- A round that succeeds, taken apart.
pub close_round-ok :
    (now : List ℕ) (later : Result GraphError (List (List ℕ))) {levels : List (List ℕ)}
    → close_round now later ≡ ok levels
    → (l : List (List ℕ)) × (later ≡ ok l) × (levels ≡ now ∷ l)
unfolding close_round
close_round-ok [] later h = cc
close_round-ok (i ∷ now) (ok l) h = (l, refl, cc)
close_round-ok (i ∷ now) (err e) h = cc

close_round-spent :
    (now : List ℕ) (later : Result GraphError (List (List ℕ)))
    → close_round now later ≡ err fuel_spent
    → (is_empty now ≡ false) × (later ≡ err fuel_spent)
unfolding close_round
close_round-spent [] later h = cc
close_round-spent (i ∷ now) (ok l) h = cc
close_round-spent (i ∷ now) (err e) h = (refl, h)

check_deps-ends :
    (n index : ℕ) (skill : String) (ds : List ℤ) → check_deps n index skill ds ≢ err fuel_spent
unfolding check_deps
check_deps-ends n index skill [] h = cc
check_deps-ends n index skill (d ∷ ds) h = ground (arith, check_deps-ends n index skill ds)

validate_from-ends :
    {A : Type 0} (n index : ℕ) (steps : List (PlanStep A))
    → validate_from n index steps ≢ err fuel_spent
unfolding validate_from
validate_from-ends n index [] h = cc
validate_from-ends n index (step ∷ steps) h =
    elim (>>-eq-err (check_deps n index step.skill_name step.depends_on) _ h) [
      | inl e ↦ check_deps-ends n index step.skill_name step.depends_on e
      | inr e ↦ validate_from-ends n (index + 1) steps e
    ]

module _ {A : Type 0} (steps : List (PlanStep A)) where
  -- Every dependency of every step of a level stands in a level before it.
  abbrev pub IsLayered : List ℕ → List (List ℕ) → Type 0
  IsLayered before [] = Unit
  IsLayered before (level ∷ levels) =
      All (λ i. All (IsMet before) (depends_of steps i)) level × IsLayered (before ++ level) levels

  All-ready :
      (resolved l : List ℕ)
      → ((i : ℕ) → contains l i ≡ true → is_ready steps resolved i ≡ true)
      → All (λ i. All (IsMet resolved) (depends_of steps i)) l
  All-ready resolved [] h = tt
  All-ready resolved (i ∷ l) h = (
    all-IsMet resolved (depends_of steps i) (h i (ground (arith, eqb_iff i i))),
    All-ready resolved l (λ j m. h j (ground arith)),
  )

  IsLayered-from :
      (fuel : ℕ) (resolved remaining : List ℕ) (levels : List (List ℕ))
      → levels_from fuel steps resolved remaining ≡ ok levels
      → IsLayered resolved levels
  unfolding levels_from
  IsLayered-from fuel resolved [] levels h = let e : [] ≡ levels = ok-injective h in rw (← e) tt
  IsLayered-from zero resolved (r ∷ rs) levels h = cc
  IsLayered-from (suc fuel) resolved (r ∷ rs) levels h =
      let now = ready steps resolved (r ∷ rs) in
      let (later, after, e) = close_round-ok now _ h in
      rw e (
        All-ready resolved now (ready-is_ready steps resolved (r ∷ rs)),
        IsLayered-from fuel (resolved ++ now) (rest steps resolved (r ∷ rs)) later after,
      )

  placed_from :
      (fuel : ℕ) (resolved remaining : List ℕ) (levels : List (List ℕ))
      → levels_from fuel steps resolved remaining ≡ ok levels
      → (i : ℕ) → count i (concat levels) ≡ count i remaining
  unfolding levels_from
  placed_from fuel resolved [] levels h i = let e : [] ≡ levels = ok-injective h in rw (← e) refl
  placed_from zero resolved (r ∷ rs) levels h i = cc
  placed_from (suc fuel) resolved (r ∷ rs) levels h i =
      let now = ready steps resolved (r ∷ rs) in
      let (later, after, e) = close_round-ok now _ h in
      let so_far =
        placed_from fuel (resolved ++ now) (rest steps resolved (r ∷ rs)) later after i in
      rw e (
        omega (
          arith,
          count-append i now (concat later),
          so_far,
          ready_or_rest steps resolved (r ∷ rs) i,
        ))

  -- As many rounds as steps remain are enough.
  enough_fuel :
      (fuel : ℕ) (resolved remaining : List ℕ)
      → length remaining ≤ fuel
      → levels_from fuel steps resolved remaining ≢ err fuel_spent
  unfolding levels_from
  enough_fuel fuel resolved [] le h = cc
  enough_fuel zero resolved (r ∷ rs) le h = elim le [ ]
  enough_fuel (suc fuel) resolved (r ∷ rs) le h =
      let now = ready steps resolved (r ∷ rs) in
      let (some_ready, spent) = close_round-spent now _ h in
      let (i, m) = contains_head now some_ready in
      let less = fewer steps resolved (r ∷ rs) i m in
      enough_fuel fuel (resolved ++ now) (rest steps resolved (r ∷ rs)) (omega arith) spent

  -- `compute_levels` ends, with levels, with an invalid dependency or with a cycle.
  pub compute_levels_ends : compute_levels steps ≢ err fuel_spent
  unfolding compute_levels
  compute_levels_ends h = elim (>>-eq-err (validate_from (length steps) 0 steps) _ h) [
    | inl e ↦ validate_from-ends (length steps) 0 steps e
    | inr e ↦
        enough_fuel (length steps) [] (range_from 0 (length steps))
          (omega (arith, length-range_from 0 (length steps))) e
  ]

  -- If it returns levels, every step of the plan stands in exactly one of them, exactly once, nothing
  -- else stands there, and every dependency of every step stands in an earlier level than the step.
  pub compute_levels_sound :
      (levels : List (List ℕ))
      → compute_levels steps ≡ ok levels
      → ((i : ℕ) → count i (concat levels) ≡ (if ltb i (length steps) then 1 else 0))
        × IsLayered [] levels
  unfolding compute_levels
  compute_levels_sound levels h =
      let (u, valid, e) = >>=-eq-ok (validate_from (length steps) 0 steps) _ h in
      (
        (λ i.
            placed_from (length steps) [] (range_from 0 (length steps)) levels e i
            ∙ count-range_from i 0 (length steps)
            ∙ ground arith),
        IsLayered-from (length steps) [] (range_from 0 (length steps)) levels e,
      )
