-- ===== src/Breaker.antt =====
-- `CircuitBreaker` of praxis/connectors/resilience.py. The monotonic clock is an argument, a number
-- of ticks; the breaker's lock makes each of `_admit`, `_record_success` and `_record_failure` one step.
pub mod Laws
pub mod Traces
pub mod Calls
mod Tests
use praxis_ai_agent_platform.Common.{
  ℕ, ◌+◌, ◌-◌, String, Bool, true, false, List, [], ◌∷◌, Result, ok, err, Outcome, returned, raised,
  cancelled, ltb, leb, if◌then◌else◌,
}

pub data CircuitState : Type 0 where
  closed opened half_open : CircuitState

pub record CircuitBreaker : Type 0 where
  pub name : String
  pub failure_threshold : ℕ
  pub reset_timeout_seconds : ℕ
  pub state : CircuitState
  pub consecutive_failures : ℕ
  pub opened_at : ℕ
  pub half_open_in_flight : Bool

abbrev pub default_failure_threshold : ℕ
default_failure_threshold = 5

abbrev pub default_reset_timeout_seconds : ℕ
default_reset_timeout_seconds = 30

-- `CircuitBreaker(name, failure_threshold, reset_timeout_seconds)`
unfoldable pub new : String → ℕ → ℕ → CircuitBreaker
new name threshold timeout = record {
  name = name;
  failure_threshold = threshold;
  reset_timeout_seconds = timeout;
  state = closed;
  consecutive_failures = 0;
  opened_at = 0;
  half_open_in_flight = false;
}

-- The fields of the exception that a rejected call raises.
pub record CircuitOpenError : Type 0 where
  pub connector : String
  pub operation : String
  pub attempts : ℕ
  pub retry_after_seconds : ℕ

unfoldable pub circuit_open_error : String → String → ℕ → CircuitOpenError
circuit_open_error connector operation retry_after = record {
  connector = connector;
  operation = operation;
  attempts = 0;
  retry_after_seconds = retry_after;
}

-- max(0.0, timeout - (now - opened_at)), in one truncated subtraction
unfoldable pub retry_after : CircuitBreaker → ℕ → ℕ
retry_after b now = b.reset_timeout_seconds + b.opened_at - now

-- `_admit`, by the state. The clock is read a second time for the message of the exception.
admit_in :
    CircuitState
    → String
    → ℕ
    → ℕ
    → CircuitBreaker
    → CircuitBreaker × Result CircuitOpenError (Unit {0})
unfolding retry_after circuit_open_error
admit_in closed operation now again b = (b, ok tt)
admit_in opened operation now again b =
    if ltb 0 (retry_after b now)
    then (b, err (circuit_open_error b.name operation (retry_after b again)))
    else (record b { state = half_open; half_open_in_flight = true }, ok tt)
admit_in half_open operation now again b =
    if b.half_open_in_flight
    then (b, err (circuit_open_error b.name operation b.reset_timeout_seconds))
    else (record b { half_open_in_flight = true }, ok tt)

unfoldable pub admit :
    String → ℕ → ℕ → CircuitBreaker → CircuitBreaker × Result CircuitOpenError (Unit {0})
unfolding admit_in
admit operation now again b = admit_in b.state operation now again b

-- `_record_success`
unfoldable pub record_success : CircuitBreaker → CircuitBreaker
record_success b = record b {
  state = closed;
  consecutive_failures = 0;
  half_open_in_flight = false;
}

-- `_record_failure`: a failed trial opens at once, another failure at the threshold.
record_failure_in : CircuitState → ℕ → CircuitBreaker → CircuitBreaker
record_failure_in half_open now b = record b { state = opened; opened_at = now }
record_failure_in _ now b =
    if leb b.failure_threshold b.consecutive_failures
    then record b { state = opened; opened_at = now }
    else b

unfoldable pub record_failure : ℕ → CircuitBreaker → CircuitBreaker
unfolding record_failure_in
record_failure now b =
    record_failure_in b.state now
      (record b { half_open_in_flight = false; consecutive_failures = b.consecutive_failures + 1 })

-- `reset`
unfoldable pub reset : CircuitBreaker → CircuitBreaker
reset b = record b { state = closed; consecutive_failures = 0; half_open_in_flight = false }

-- What the caller of `call` gets.
pub data Reply {ℓ} (E : Type 0) (T : Type ℓ) : Type ℓ where
  value : T → Reply E T
  failure : E → Reply E T
  rejected : CircuitOpenError → Reply E T
  interrupted : Reply E T

module _ {ℓ} {E : Type 0} {T : Type ℓ} where
  -- the `try` of `call`, after the operation
  unfoldable pub settle : Outcome E T → ℕ → CircuitBreaker → CircuitBreaker × Reply E T
  unfolding record_success record_failure
  settle (returned v) now b = (record_success b, value v)
  settle (raised e) now b = (record_failure now b, failure e)
  settle cancelled now b = (b, interrupted)

  -- the body of `call`, once `_admit` has decided
  unfoldable pub guarded :
      (CircuitBreaker → CircuitBreaker × Outcome E T)
      → ℕ
      → CircuitBreaker × Result CircuitOpenError (Unit {0})
      → CircuitBreaker × Reply E T
  unfolding settle
  guarded operation finish (b, ok _) = let (b', outcome) = operation b in settle outcome finish b'
  guarded operation finish (b, err e) = (b, rejected e)

  -- `call`. While the operation is awaited other tasks may use the breaker: the operation gives the
  -- breaker that it leaves. `finish` is the time at which the outcome is recorded.
  unfoldable pub call :
      String
      → ℕ
      → ℕ
      → ℕ
      → (CircuitBreaker → CircuitBreaker × Outcome E T)
      → CircuitBreaker
      → CircuitBreaker × Reply E T
  unfolding guarded admit
  call name now again finish operation b = guarded operation finish (admit name now again b)

-- What a task does to the breaker in one step.
pub data Event : Type 0 where
  arrive : String → ℕ → ℕ → Event
  succeed : Event
  fail : ℕ → Event
  abandon : Event
  operator_reset : Event

unfoldable pub step : CircuitBreaker → Event → CircuitBreaker
unfolding admit record_success record_failure reset
step b (arrive name now again) = (admit name now again b).0
step b succeed = record_success b
step b (fail now) = record_failure now b
step b abandon = b
step b operator_reset = reset b

-- Any interleaving of the tasks that share the breaker.
unfoldable pub run : CircuitBreaker → List Event → CircuitBreaker
unfolding step
run b [] = b
run b (e ∷ es) = run (step b e) es
