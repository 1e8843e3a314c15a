-- ===== src/Delegation/Results.antt =====
-- The summary of a fan-out.
use praxis_ai_agent_platform.Common.{
  ℕ, ◌+◌, ◌≤◌, ◌<◌, max, String, ◌≡◌, refl, ◌↔◌, Bool, true, false, List, [], ◌∷◌, arith, nat_eq,
  string_eq, length, length-append, filter,
}
use praxis_ai_agent_platform.Delegation.{
  FanOutcome, exception, result, other, or_unspecified, fold_outcomes, aggregate_results,
}

-- Whether an outcome is a failure.
abbrev pub is_failure : {T : Type 0} → FanOutcome T → Bool
is_failure (exception text) = true
is_failure (result true errors t) = false
is_failure (result false errors t) = true
is_failure (other t) = false

-- How many texts it adds to the errors.
abbrev pub texts : {T : Type 0} → FanOutcome T → ℕ
texts (exception text) = 1
texts (result true errors t) = 0
texts (result false errors t) = max 1 (length errors)
texts (other t) = 0

abbrev pub sum_texts : {T : Type 0} → List (FanOutcome T) → ℕ
sum_texts [] = 0
sum_texts (o ∷ os) = texts o + sum_texts os

length-or_unspecified :
    (errors : List String) → length (or_unspecified errors) ≡ max 1 (length errors)
length-or_unspecified [] = omega arith
length-or_unspecified (e ∷ es) = omega arith

module _ {T : Type 0} where
  folded :
      (os : List (FanOutcome T))
      → (length (fold_outcomes os).0 + length (filter is_failure os) ≡ length os)
        × (length (fold_outcomes os).1 ≡ sum_texts os)
        × (length (filter is_failure os) ≤ length (fold_outcomes os).1)
        × ((length (filter is_failure os) ≡ 0) → length (fold_outcomes os).1 ≡ 0)
  folded [] = (omega arith, refl, omega arith, λ h. refl)
  folded (exception text ∷ os) =
      let (a, b, c, d) = folded os in
      (omega (arith, a), omega (arith, b), omega (arith, c), λ h. absurd (omega (arith, h)))
  folded (result true errors t ∷ os) =
      let (a, b, c, d) = folded os in (omega (arith, a), omega (arith, b), omega (arith, c), d)
  folded (result false errors t ∷ os) =
      let (a, b, c, d) = folded os in
      let both = length-append (or_unspecified errors) (fold_outcomes os).1 in
      let here = length-or_unspecified errors in
      (
        omega (arith, a),
        omega (arith, b, both, here),
        omega (arith, c, both, here),
        λ h. absurd (omega (arith, h)),
      )
  folded (other t ∷ os) =
      let (a, b, c, d) = folded os in (omega (arith, a), omega (arith, b), omega (arith, c), d)

  -- Every outcome of a fan-out is counted: those that succeed are the results, and with those that
  -- fail they make the total. The number reported as failed is that of the error texts, one at least
  -- for each failure. The summary is partial exactly if something succeeded and something failed.
  pub aggregate_results_lem :
      (os : List (FanOutcome T))
      → let summary = aggregate_results os in
        let failures = length (filter is_failure os) in
        (summary.succeeded + failures ≡ summary.total)
        × (summary.failed ≡ sum_texts os)
        × (failures ≤ summary.failed)
        × ((summary.is_partial ≡ true) ↔ ((0 < summary.succeeded) × (0 < failures)))
  unfolding aggregate_results
  aggregate_results_lem os =
      let (a, b, c, d) = folded os in
      (a, b, c, ((λ h. (ground (arith, h), ground (arith, h, d))), (λ h. ground (arith, h, c))))
