-- ===== src/Breaker/Calls.antt =====
-- What a whole `call` does: failures in a row, a success, and a trial that is cancelled.
use praxis_ai_agent_platform.Common.{
  ℕ, ◌+◌, ◌≤◌, ◌<◌, String, ◌≡◌, refl, Bool, true, false, List, [], ◌∷◌, length, arith, nat_eq,
  string_eq, All, Result, ok, err, Outcome, returned, raised, cancelled,
}
use praxis_ai_agent_platform.Breaker.{
  closed, opened, half_open, CircuitBreaker, CircuitOpenError, admit, record_success, settle, Reply,
  value, rejected, interrupted, call, guarded, run,
}
use praxis_ai_agent_platform.Breaker.Traces.{Arrival, arrivals, IsRejected, trial_excludes}

-- What became of one call.
abbrev pub is_rejected {ℓ} : {E : Type 0} {T : Type ℓ} → Reply E T → Bool
is_rejected (rejected _) = true
is_rejected _ = false

-- An operation that fails while nothing else uses the breaker.
abbrev pub failing : {E T : Type 0} → E → CircuitBreaker → CircuitBreaker × Outcome E T
failing e b = (b, raised e)

-- The times of one call: its arrival, its second look at the clock, and its end.
abbrev pub Times : Type 0
Times = ℕ × ℕ × ℕ

module _ (T : Type 0) {E : Type 0} (e : E) (name : String) where
  -- a call that fails
  abbrev pub failing_call : Times → CircuitBreaker → CircuitBreaker
  failing_call t b = (call {T = T} name t.0 t.1 t.2 (failing e) b).0

  -- Failing calls, one after the other.
  pub failing_calls : List Times → CircuitBreaker → CircuitBreaker
  unfolding call
  failing_calls [] b = b
  failing_calls (t ∷ ts) b = failing_calls ts (failing_call t b)

  one_failure :
      (t : Times) (b : CircuitBreaker)
      → b.state ≡ closed
      → b.consecutive_failures + 1 < b.failure_threshold
      → let b' = failing_call t b in
        (b'.state ≡ closed)
        × (b'.consecutive_failures ≡ b.consecutive_failures + 1)
        × (b'.failure_threshold ≡ b.failure_threshold)
        × (b'.reset_timeout_seconds ≡ b.reset_timeout_seconds)
  unfolding call
  one_failure t b s h = ground arith

  last_failure :
      (t : Times) (b : CircuitBreaker)
      → b.state ≡ closed
      → b.failure_threshold ≡ b.consecutive_failures + 1
      → let b' = failing_call t b in
        (b'.state ≡ opened)
        × (b'.opened_at ≡ t.2)
        × (b'.reset_timeout_seconds ≡ b.reset_timeout_seconds)
  unfolding call
  last_failure t b s h = ground arith

  -- After fewer failures in a row than the threshold leaves, a closed circuit is closed, and has
  -- counted them.
  pub stays_closed :
      (ts : List Times) (b : CircuitBreaker)
      → b.state ≡ closed
      → b.consecutive_failures + length ts < b.failure_threshold
      → let b' = failing_calls ts b in
        (b'.state ≡ closed)
        × (b'.consecutive_failures ≡ b.consecutive_failures + length ts)
        × (b'.failure_threshold ≡ b.failure_threshold)
        × (b'.reset_timeout_seconds ≡ b.reset_timeout_seconds)
  unfolding failing_calls
  stays_closed [] b s h = (s, omega arith, refl, refl)
  stays_closed (t ∷ ts) b s h =
      let (s', c', k', r') = one_failure t b s (omega arith) in
      let (s'', c'', k'', r'') = stays_closed ts (failing_call t b) s' (omega arith) in
      (s'', omega arith, omega arith, omega arith)

open_call_rejected {ℓ} :
    {E : Type 0} {T : Type ℓ} (name : String) (start again finish : ℕ)
    (operation : CircuitBreaker → CircuitBreaker × Outcome E T) (b : CircuitBreaker)
    → b.state ≡ opened
    → start < b.opened_at + b.reset_timeout_seconds
    → (is_rejected (call name start again finish operation b).1 ≡ true)
      × ((call name start again finish operation b).0 ≡ b)
unfolding call
open_call_rejected name start again finish operation b s h = ground arith

-- A closed breaker that has counted no failure stays closed through fewer failing calls in a row than
-- its threshold, at whatever times they are made. The one that reaches the threshold opens it, and
-- until the timeout has elapsed since that call's end, every further call is rejected: its operation
-- does not run, and the breaker does not change.
pub threshold_trips :
    {E : Type 0} (e : E) (name : String) (ts : List Times) (last : Times) (b : CircuitBreaker)
    → b.state ≡ closed
    → b.consecutive_failures ≡ 0
    → (length ts < b.failure_threshold → (failing_calls Bool e name ts b).state ≡ closed)
      × (length ts + 1 ≡ b.failure_threshold
          → (operation : CircuitBreaker → CircuitBreaker × Outcome E Bool) (start again finish : ℕ)
          → start < last.2 + b.reset_timeout_seconds
          → let tripped = failing_call Bool e name last (failing_calls Bool e name ts b) in
            (tripped.state ≡ opened)
            × (is_rejected (call name start again finish operation tripped).1 ≡ true)
            × ((call name start again finish operation tripped).0 ≡ tripped))
threshold_trips {E} e name ts last b s none_counted = (
  (λ h. (stays_closed Bool e name ts b s (omega arith)).0),
  (λ reached operation start again finish soon.
      let (s', c', k', r') = stays_closed Bool e name ts b s (omega arith) in
      let before = failing_calls Bool e name ts b in
      let (s'', o, r'') = last_failure Bool e name last before s' (omega arith) in
      let (refused, still) =
        open_call_rejected name start again finish operation (failing_call Bool e name last before)
          s'' (omega arith) in
      (s'', refused, still)),
)

settle-value {ℓ} :
    {E : Type 0} {T : Type ℓ} (o : Outcome E T) (finish : ℕ) (b : CircuitBreaker) {v : T}
    → (settle o finish b).1 ≡ value v
    → (settle o finish b).0 ≡ record_success b
unfolding settle
settle-value (returned v) finish b h = refl
settle-value (raised e) finish b h = cc
settle-value cancelled finish b h = cc

guarded-value {ℓ} :
    {E : Type 0} {T : Type ℓ} (operation : CircuitBreaker → CircuitBreaker × Outcome E T)
    (finish : ℕ) (r : CircuitBreaker × Result CircuitOpenError (Unit {0})) {v : T}
    → (guarded operation finish r).1 ≡ value v
    → (b : CircuitBreaker) × ((guarded operation finish r).0 ≡ record_success b)
unfolding guarded
guarded-value operation finish (b, ok _) h =
    let (b', outcome) = operation b in (b', settle-value outcome finish b' h)
guarded-value operation finish (b, err e) h = cc

-- A call whose operation returns leaves the circuit closed with no failure counted and no trial in
-- flight, whatever other tasks did to the breaker while the operation ran, so the next arrival is
-- admitted at any time: also when those tasks had opened the circuit in between.
pub success_closes {ℓ} :
    {E : Type 0} {T : Type ℓ} (name : String) (now again finish : ℕ)
    (operation : CircuitBreaker → CircuitBreaker × Outcome E T) (b : CircuitBreaker) {v : T}
    → (call name now again finish operation b).1 ≡ value v
    → let b' = (call name now again finish operation b).0 in
      (b'.state ≡ closed)
      × (b'.consecutive_failures ≡ 0)
      × (b'.half_open_in_flight ≡ false)
      × ((next : String) (time time' : ℕ) → admit next time time' b' ≡ (b', ok tt))
unfolding call record_success admit
success_closes name now again finish operation b h =
    let (b', e) = guarded-value operation finish (admit name now again b) h in
    (cc e, cc e, cc e, λ next time time'. rw e (λ i. (record_success b', ok tt)))

cancelled_trial :
    {E T : Type 0} (name : String) (now again finish : ℕ) (b : CircuitBreaker)
    → b.state ≡ opened
    → b.opened_at + b.reset_timeout_seconds ≤ now
    → let r = call {E = E} {T = T} name now again finish (λ b'. (b', cancelled)) b in
      (r.1 ≡ interrupted) × (r.0.state ≡ half_open) × (r.0.half_open_in_flight ≡ true)
unfolding call
cancelled_trial name now again finish b s h = ground arith

-- Once the trial of a half-open circuit is cancelled, no exception is counted and no success
-- recorded: the caller is interrupted, and every later arrival, at whatever time, is rejected
-- without moving the breaker.
pub cancelled_trial_wedges :
    {E T : Type 0} (name : String) (now again finish : ℕ) (b : CircuitBreaker) (l : List Arrival)
    → b.state ≡ opened
    → b.opened_at + b.reset_timeout_seconds ≤ now
    → let r = call {E = E} {T = T} name now again finish (λ b'. (b', cancelled)) b in
      (r.1 ≡ interrupted) × All (IsRejected r.0) l × (run r.0 (arrivals l) ≡ r.0)
cancelled_trial_wedges {E} {T} name now again finish b l s h =
    let (i, s', t) = cancelled_trial {E = E} {T = T} name now again finish b s h in
    let (every, still) =
      trial_excludes (call {E = E} {T = T} name now again finish (λ b'. (b', cancelled)) b).0 l s'
        t in
    (i, every, still)
