-- ===== src/Breaker/Tests.antt =====
-- Runs of the circuit breaker, and its theorems at concrete inputs.
use praxis_ai_agent_platform.Common.{
  ℕ, ◌+◌, ◌<◌, String, ◌≡◌, refl, Bool, true, false, List, [], ◌∷◌, arith, nat_eq, string_eq, All,
  ok, Outcome, returned, cancelled,
}
use praxis_ai_agent_platform.Breaker.{
  closed, opened, half_open, CircuitBreaker, admit, interrupted, call, new, Event, arrive, fail,
  abandon, run,
}
use praxis_ai_agent_platform.Breaker.Laws.{IsCoherent}
use praxis_ai_agent_platform.Breaker.Traces.{run-IsCoherent, Arrival, arrivals, IsRejected}
use praxis_ai_agent_platform.Breaker.Calls.{
  is_rejected, Times, failing_call, failing_calls, threshold_trips, success_closes,
  cancelled_trial_wedges,
}

abbrev tripped : CircuitBreaker
tripped = record {
  name = "slack";
  failure_threshold = 2;
  reset_timeout_seconds = 30;
  state = opened;
  consecutive_failures = 2;
  opened_at = 100;
  half_open_in_flight = false;
}

abbrev trying : CircuitBreaker
trying = record tripped { state = half_open; half_open_in_flight = true }

-- two failures open it; a late success of a call that was admitted before closes it again
late_success : (run (new "slack" 2 30) (arrive "read" 1 1 ∷ fail 5 ∷ fail 6 ∷ [])).state ≡ opened
unfolding run new
late_success = refl

abbrev busy : List Event
busy = arrive "read" 1 1 ∷ arrive "read" 2 2 ∷ fail 5 ∷ fail 6 ∷ arrive "read" 40 40 ∷ abandon ∷ []

run-IsCoherent_example : IsCoherent (run (new "slack" 2 30) busy)
run-IsCoherent_example = run-IsCoherent "slack" 2 30 busy (omega arith)

abbrev read_error : String
read_error = "timeout"

abbrev later : List Arrival
later =
    record { operation = "read"; now = 140; again = 140 }
    ∷ record { operation = "write"; now = 900; again = 901 }
    ∷ []

abbrev sooner : List Arrival
sooner =
    record { operation = "read"; now = 101; again = 102 }
    ∷ record { operation = "write"; now = 129; again = 130 }
    ∷ []

threshold_trips_example :
    let fresh = new "read" 3 30 in
    let earlier : List Times = (7, 7, 8) ∷ (9, 9, 20) ∷ [] in
    let tripped =
      failing_call Bool read_error "read"
        (21, 21, 25)
        (failing_calls Bool read_error "read" earlier fresh) in
    (2 < 3 → (failing_calls Bool read_error "read" earlier fresh).state ≡ closed)
    × (◌≡◌ {A = ℕ} 3 3
        → (operation : CircuitBreaker → CircuitBreaker × Outcome String Bool)
          (start again finish : ℕ)
        → start < 25 + 30
        → (tripped.state ≡ opened)
          × (is_rejected (call "read" start again finish operation tripped).1 ≡ true)
          × ((call "read" start again finish operation tripped).0 ≡ tripped))
unfolding new
threshold_trips_example =
    threshold_trips read_error "read" ((7, 7, 8) ∷ (9, 9, 20) ∷ []) (21, 21, 25) (new "read" 3 30)
      refl refl

-- while the operation ran, other tasks opened the circuit
abbrev slow_success : CircuitBreaker → CircuitBreaker × Outcome String ℕ
slow_success b = (tripped, returned 42)

success_closes_example :
    let b' = (call "read" 1 1 110 slow_success (new "slack" 2 30)).0 in
    (b'.state ≡ closed)
    × (b'.consecutive_failures ≡ 0)
    × (b'.half_open_in_flight ≡ false)
    × ((next : String) (time time' : ℕ) → admit next time time' b' ≡ (b', ok tt))
unfolding call new
success_closes_example = success_closes "read" 1 1 110 slow_success (new "slack" 2 30) {v = 42} refl

cancelled_trial_wedges_example :
    let r = call {E = String} {T = ℕ} "read" 130 130 131 (λ b'. (b', cancelled)) tripped in
    (r.1 ≡ interrupted) × All (IsRejected r.0) later × (run r.0 (arrivals later) ≡ r.0)
cancelled_trial_wedges_example =
    cancelled_trial_wedges "read" 130 130 131 tripped later refl (omega arith)
