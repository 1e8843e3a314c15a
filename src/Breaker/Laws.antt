-- ===== src/Breaker/Laws.antt =====
-- What one step of the breaker does.
use praxis_ai_agent_platform.Common.{
  ℕ, ◌+◌, ◌≤◌, ◌<◌, String, ◌≡◌, ◌≢◌, ◌↔◌, Bool, true, false, Result, ok, err, arith,
}
use praxis_ai_agent_platform.Breaker.{
  closed, opened, half_open, CircuitBreaker, admit, Event, step, new,
}

-- What holds of a breaker between two steps.
pub record IsCoherent (b : CircuitBreaker) : Type 0 where
  pub trial_half_open : b.half_open_in_flight ≡ true → b.state ≡ half_open
  pub closed_below : b.state ≡ closed → b.consecutive_failures < b.failure_threshold
  pub open_failed : b.state ≡ opened → 0 < b.consecutive_failures

pub new-IsCoherent : (name : String) (k t : ℕ) → 0 < k → IsCoherent (new name k t)
unfolding new
new-IsCoherent name k t h = ground arith

pub threshold-step :
    (b : CircuitBreaker) (e : Event) → (step b e).failure_threshold ≡ b.failure_threshold
unfolding step
threshold-step b e = ground arith

-- Every step of every task keeps the invariant.
pub step-IsCoherent :
    (b : CircuitBreaker) (e : Event)
    → 0 < b.failure_threshold
    → IsCoherent b
    → IsCoherent (step b e)
unfolding step
step-IsCoherent b e h c = ground arith

abbrev pub is_admitted : {E : Type 0} → Result E (Unit {0}) → Bool
is_admitted (ok _) = true
is_admitted (err _) = false

-- When a call may proceed, read off the documentation and not off the code.
pub data MayProceed (b : CircuitBreaker) (now : ℕ) : Type 0 where
  healthy : b.state ≡ closed → MayProceed b now
  timed_out : b.state ≡ opened → b.opened_at + b.reset_timeout_seconds ≤ now → MayProceed b now
  no_trial : b.state ≡ half_open → b.half_open_in_flight ≡ false → MayProceed b now

-- A call is admitted exactly when the circuit is closed, or is open and its timeout has elapsed, or
-- is half-open with no trial in flight.
pub admit_iff :
    (operation : String) (now again : ℕ) (b : CircuitBreaker)
    → (is_admitted (admit operation now again b).1 ≡ true) ↔ MayProceed b now
unfolding admit
admit_iff operation now again b = (to, from)
  where
    to : is_admitted (admit operation now again b).1 ≡ true → MayProceed b now
    to h = grind (arith, healthy, timed_out, no_trial)

    from : MayProceed b now → is_admitted (admit operation now again b).1 ≡ true
    from (healthy s) = ground arith
    from (timed_out s t) = ground arith
    from (no_trial s t) = ground arith

-- A rejected call leaves the breaker as it was.
pub rejected_unchanged :
    (operation : String) (now again : ℕ) (b : CircuitBreaker)
    → is_admitted (admit operation now again b).1 ≡ false
    → (admit operation now again b).0 ≡ b
unfolding admit
rejected_unchanged operation now again b h = ground arith

-- An admitted call leaves a circuit that was not closed half-open, with itself as the trial.
pub admitted_trial :
    (operation : String) (now again : ℕ) (b : CircuitBreaker)
    → is_admitted (admit operation now again b).1 ≡ true
    → b.state ≢ closed
    → (admit operation now again b).0 ≡ record b { state = half_open; half_open_in_flight = true }
unfolding admit
admitted_trial operation now again b h n = ground arith
