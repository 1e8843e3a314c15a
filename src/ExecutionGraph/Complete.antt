-- ===== src/ExecutionGraph/Complete.antt =====
-- A plan without cycles is never refused.
use praxis_ai_agent_platform.Common.{
  ℕ, zero, suc, ◌+◌, ◌≤◌, ◌<◌, String, ◌≡◌, refl, ap, inl, inr, true, false, ◌||◌, List, [], ◌∷◌,
  ◌++◌, arith, eqb_iff, nat_eq, string_eq, Bool-cases, length, all, contains, All, contains-append,
  contains-filter, count-contains, range_from, count-range_from, length-range_from, ℤ, pos, Result,
  ok,
}
use praxis_ai_agent_platform.ExecutionGraph.{
  PlanStep, GraphError, is_invalid, is_resolved, check_deps, validate_from, depends_of, is_ready,
  is_empty, close_round, levels_from, compute_levels,
}
use praxis_ai_agent_platform.ExecutionGraph.Rounds.{
  contains_head, none_of_empty, ready, rest, ready_or_rest, fewer,
}
use native.Mathlib.Nat.{add-zero, zero-add}

-- A dependency on a step of the plan of lower rank.
abbrev pub IsBelow : (ℕ → ℕ) → ℕ → ℕ → ℤ → Type 0
IsBelow rank n i d = (k : ℕ) × (d ≡ pos k) × (k < n) × (rank k < rank i)

-- A rank that falls along every dependency: the plan has no cycle, and no dependency out of range.
abbrev pub IsRanked : {A : Type 0} → (ℕ → ℕ) → List (PlanStep A) → Type 0
IsRanked rank steps = (i : ℕ) → All (IsBelow rank (length steps) i) (depends_of steps i)

is_invalid-IsBelow :
    (rank : ℕ → ℕ) (n i : ℕ) (d : ℤ) → IsBelow rank n i d → is_invalid n i d ≡ false
is_invalid-IsBelow rank n i d (k, e, lt, less) =
    rw e (ground (arith, λ (same : k ≡ i). ap rank same))

check_deps-ok :
    (rank : ℕ → ℕ) (n i : ℕ) (skill : String) (ds : List ℤ)
    → All (IsBelow rank n i) ds
    → check_deps n i skill ds ≡ ok tt
unfolding check_deps
check_deps-ok rank n i skill [] h = refl
check_deps-ok rank n i skill (d ∷ ds) h =
    rw (is_invalid-IsBelow rank n i d h.0) (check_deps-ok rank n i skill ds h.1)

validate_from-ok :
    {A : Type 0} (rank : ℕ → ℕ) (n index : ℕ) (steps : List (PlanStep A))
    → ((i : ℕ) → All (IsBelow rank n (index + i)) (depends_of steps i))
    → validate_from n index steps ≡ ok tt
unfolding validate_from
validate_from-ok rank n index [] h = refl
validate_from-ok rank n index (step ∷ steps) h =
    rw (check_deps-ok rank n index step.skill_name step.depends_on (rw add-zero at (h zero))) (
      validate_from-ok rank n (index + 1) steps
        (λ i. let e : index + 1 + i ≡ index + suc i = omega arith in rw e (h (suc i))))

all_resolved :
    (rank : ℕ → ℕ) (n i : ℕ) (resolved : List ℕ) (ds : List ℤ)
    → All (IsBelow rank n i) ds
    → ((k : ℕ) → k < n → rank k < rank i → contains resolved k ≡ true)
    → all (is_resolved resolved) ds ≡ true
all_resolved rank n i resolved [] h met = refl
all_resolved rank n i resolved (d ∷ ds) ((k, e, lt, less), h) met =
    rw e (rw (met k lt less) (all_resolved rank n i resolved ds h met))

close_round-found :
    (now : List ℕ) (levels : List (List ℕ)) {later : Result GraphError (List (List ℕ))}
    → is_empty now ≡ false
    → later ≡ ok levels
    → close_round now later ≡ ok (now ∷ levels)
unfolding close_round
close_round-found now levels h e = rw (h, e)

module _ {A : Type 0} (rank : ℕ → ℕ) (steps : List (PlanStep A))
    (ranked : IsRanked rank steps) where
  -- Every step is resolved or remains.
  abbrev Covers : List ℕ → List ℕ → Type 0
  Covers resolved remaining =
      (k : ℕ) → k < length steps → (contains resolved k || contains remaining k) ≡ true

  -- If nothing is ready, no step of any rank remains.
  none_remains :
      (resolved remaining : List ℕ)
      → Covers resolved remaining
      → is_empty (ready steps resolved remaining) ≡ true
      → (bound i : ℕ) → rank i < bound
      → contains remaining i ≡ true
      → ⊥
  none_remains resolved remaining covers stuck zero i lt m = elim lt [ ]
  none_remains resolved remaining covers stuck (suc bound) i lt m =
      let all_met =
        all_resolved rank (length steps) i resolved (depends_of steps i) (ranked i) (λ k kn less.
          elim (Bool-cases (contains remaining k)) [
            | inl here ↦
                absurd (none_remains resolved remaining covers stuck bound k (omega arith) here)
            | inr gone ↦ ground (arith, covers k kn)
          ]) in
      ground (
        arith,
        all_met,
        contains-filter (is_ready steps resolved) remaining i,
        none_of_empty (ready steps resolved remaining) i stuck,
      )

  -- While steps remain, one is ready.
  some_ready :
      (resolved : List ℕ) (r : ℕ) (rs : List ℕ)
      → Covers resolved (r ∷ rs)
      → is_empty (ready steps resolved (r ∷ rs)) ≡ false
  some_ready resolved r rs covers = elim (Bool-cases (is_empty (ready steps resolved (r ∷ rs)))) [
    | inr e ↦ e
    | inl stuck ↦ absurd (
        none_remains resolved (r ∷ rs) covers stuck (suc (rank r)) r (omega arith)
          (ground (arith, eqb_iff r r)))
  ]

  Covers-next :
      (resolved remaining : List ℕ)
      → Covers resolved remaining
      → Covers (resolved ++ ready steps resolved remaining) (rest steps resolved remaining)
  Covers-next resolved remaining covers k lt = ground (
    arith,
    covers k lt,
    ready_or_rest steps resolved remaining k,
    count-contains k remaining,
    count-contains k (ready steps resolved remaining),
    count-contains k (rest steps resolved remaining),
    contains-append resolved (ready steps resolved remaining) k,
  )

  levels_found :
      (fuel : ℕ) (resolved remaining : List ℕ)
      → length remaining ≤ fuel
      → Covers resolved remaining
      → (levels : List (List ℕ)) × (levels_from fuel steps resolved remaining ≡ ok levels)
  unfolding levels_from
  levels_found fuel resolved [] le covers = ([], refl)
  levels_found zero resolved (r ∷ rs) le covers = elim le [ ]
  levels_found (suc fuel) resolved (r ∷ rs) le covers =
      let now = ready steps resolved (r ∷ rs) in
      let found = some_ready resolved r rs covers in
      let (i, m) = contains_head now found in
      let less = fewer steps resolved (r ∷ rs) i m in
      let (later, e) =
        levels_found fuel (resolved ++ now) (rest steps resolved (r ∷ rs)) (omega arith)
          (Covers-next resolved (r ∷ rs) covers) in
      (now ∷ later, close_round-found now later found e)

  Covers-all : Covers [] (range_from 0 (length steps))
  Covers-all k lt =
      ground
        (arith, count-contains k (range_from 0 (length steps)), count-range_from k 0 (length steps))

  -- If some rank falls along every dependency, so that the plan has no cycle and no dependency out
  -- of range, `compute_levels` returns levels.
  pub compute_levels_complete : (levels : List (List ℕ)) × (compute_levels steps ≡ ok levels)
  unfolding compute_levels
  compute_levels_complete =
      let valid = validate_from-ok rank (length steps) 0 steps (λ i. rw zero-add (ranked i)) in
      let (levels, e) =
        levels_found (length steps) [] (range_from 0 (length steps))
          (omega (arith, length-range_from 0 (length steps))) Covers-all in
      (levels, rw (valid, e))
