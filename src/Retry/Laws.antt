-- ===== src/Retry/Laws.antt =====
-- How often a retried call is made, and what comes of it.
use praxis_ai_agent_platform.Common.{
  ℕ, zero, suc, ◌+◌, ◌-◌, ◌≤◌, ◌<◌, ◌≡◌, refl, ap, ◌∙◌, Option, none, some, arith, ltb,
  if◌then◌else◌, nat_eq, string_eq, Outcome, returned, raised,
}
use native.Mathlib.Nat.{add-zero}
use praxis_ai_agent_platform.Retry.{answer, connector_error, attempts_from, call_with_retry}

module _ {E T : Type 0} (fn : ℕ → Outcome E T) (max_attempts delay : ℕ) where
  -- The attempts from `attempt` on fail, each with the error that `errors` gives.
  abbrev pub Fails : (ℕ → E) → ℕ → ℕ → Type 0
  Fails errors attempt zero = Unit
  Fails errors attempt (suc n) =
      (fn attempt ≡ raised (errors attempt)) × Fails errors (attempt + 1) n

  -- `k` attempts fail and the next returns.
  succeeds_after :
      (errors : ℕ → E) (k total attempt : ℕ) (last : Option E) (v : T)
      → Fails errors attempt k
      → fn (attempt + k) ≡ returned v
      → k ≤ total
      → attempt + total ≡ max_attempts
      → let t = attempts_from fn max_attempts delay (suc total) attempt last in
        (t.reply ≡ answer v) × (t.calls ≡ attempt + k) × (t.sleeps ≡ (if ltb 0 delay then k else 0))
  unfolding attempts_from
  succeeds_after errors zero total attempt last v f h le e =
      let h' : fn attempt ≡ returned v = rw add-zero at h in ground arith
  succeeds_after errors (suc k) zero attempt last v f h le e = elim le [ ]
  succeeds_after errors (suc k) (suc total) attempt last v f h le e =
      let shift : attempt + 1 + k ≡ attempt + suc k = omega arith in
      ground (
        arith,
        f.0,
        succeeds_after errors k total (attempt + 1) (some (errors attempt)) v f.1 (rw shift h)
            (omega arith) (omega arith),
      )

  -- Every attempt left fails.
  exhausted :
      (errors : ℕ → E) (total attempt : ℕ) (last : Option E)
      → Fails errors attempt (suc total)
      → attempt + total ≡ max_attempts
      → let t = attempts_from fn max_attempts delay (suc total) attempt last in
        (t.reply ≡ connector_error max_attempts (some (errors max_attempts)))
        × (t.calls ≡ max_attempts)
        × (t.sleeps ≡ (if ltb 0 delay then total else 0))
  unfolding attempts_from
  exhausted errors zero attempt last f e =
      let same : attempt ≡ max_attempts = omega arith in ground (arith, f.0, ap errors same)
  exhausted errors (suc total) attempt last f e =
      ground
        (arith, f.0, exhausted errors total (attempt + 1) (some (errors attempt)) f.1 (omega arith))

  succeeds_from :
      (errors : ℕ → E) (k left : ℕ) (v : T)
      → Fails errors 1 k
      → fn (1 + k) ≡ returned v
      → k < left
      → left ≡ max_attempts
      → let t = attempts_from fn max_attempts delay left 1 none in
        (t.reply ≡ answer v) × (t.calls ≡ 1 + k) × (t.sleeps ≡ (if ltb 0 delay then k else 0))
  succeeds_from errors k zero v f h lt e = elim lt [ ]
  succeeds_from errors k (suc total) v f h lt e =
      succeeds_after errors k total 1 none v f h (omega arith) (omega arith)

  exhausted_from :
      (errors : ℕ → E) (left : ℕ)
      → Fails errors 1 left
      → 1 ≤ left
      → left ≡ max_attempts
      → let t = attempts_from fn max_attempts delay left 1 none in
        (t.reply ≡ connector_error max_attempts (some (errors max_attempts)))
        × (t.calls ≡ max_attempts)
        × (t.sleeps ≡ (if ltb 0 delay then left - 1 else 0))
  exhausted_from errors zero f h e = elim h [ ]
  exhausted_from errors (suc total) f h e =
      let t = exhausted errors total 1 none f (omega arith) in
      (
        t.0,
        t.1,
        t.2 ∙ ap (λ n. if ltb 0 delay then n else 0) {x = total} {y = suc total - 1} (omega arith),
      )

  -- If the first `k` attempts fail and the next one returns within the bound, the caller has its
  -- value after exactly `k + 1` calls and, where a delay is set, `k` sleeps.
  pub first_success_returned :
      (errors : ℕ → E) (k : ℕ) (v : T)
      → k < max_attempts
      → Fails errors 1 k
      → fn (1 + k) ≡ returned v
      → let t = call_with_retry fn max_attempts delay in
        (t.reply ≡ answer v) × (t.calls ≡ 1 + k) × (t.sleeps ≡ (if ltb 0 delay then k else 0))
  unfolding call_with_retry
  first_success_returned errors k v lt f h =
      ground (arith, succeeds_from errors k max_attempts v f h lt refl)

  -- If all of at least one attempt fail, exactly `max_attempts` calls are made, with a sleep between
  -- two of them where a delay is set, and the error carries that number and the last error.
  pub all_failed_surfaced :
      (errors : ℕ → E)
      → 1 ≤ max_attempts
      → Fails errors 1 max_attempts
      → let t = call_with_retry fn max_attempts delay in
        (t.reply ≡ connector_error max_attempts (some (errors max_attempts)))
        × (t.calls ≡ max_attempts)
        × (t.sleeps ≡ (if ltb 0 delay then max_attempts - 1 else 0))
  unfolding call_with_retry
  all_failed_surfaced errors h f = ground (arith, exhausted_from errors max_attempts f h refl)
