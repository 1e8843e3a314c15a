-- ===== src/Breaker/Traces.antt =====
-- What holds of the breaker after any interleaving of the tasks that share it.
use praxis_ai_agent_platform.Common.{
  ℕ, ◌+◌, ◌<◌, String, ◌≡◌, refl, ap, ◌∙◌, true, false, List, [], ◌∷◌, arith, All,
}
use praxis_ai_agent_platform.Breaker.{
  opened, half_open, CircuitBreaker, admit, Event, arrive, step, run, new,
}
use praxis_ai_agent_platform.Breaker.Laws.{
  IsCoherent, new-IsCoherent, step-IsCoherent, threshold-step, is_admitted, rejected_unchanged,
}

run-IsCoherent_from :
    (b : CircuitBreaker) (es : List Event)
    → 0 < b.failure_threshold
    → IsCoherent b
    → IsCoherent (run b es)
unfolding run
run-IsCoherent_from b [] h c = c
run-IsCoherent_from b (e ∷ es) h c =
    run-IsCoherent_from (step b e) es (omega (arith, threshold-step b e)) (step-IsCoherent b e h c)

-- From a new breaker with a positive threshold, after any steps of any tasks in any order: a trial
-- is in flight only while the circuit is half-open, a closed circuit has counted fewer consecutive
-- failures than its threshold, and an open one has counted some.
pub run-IsCoherent :
    (name : String) (threshold timeout : ℕ) (es : List Event)
    → 0 < threshold
    → IsCoherent (run (new name threshold timeout) es)
run-IsCoherent name threshold timeout es h =
    run-IsCoherent_from (new name threshold timeout) es (unfold new in h)
      (new-IsCoherent name threshold timeout h)

-- One arrival: the name of the operation and the two readings of the clock.
pub record Arrival : Type 0 where
  pub operation : String
  pub now : ℕ
  pub again : ℕ

abbrev pub arrivals : List Arrival → List Event
arrivals [] = []
arrivals (a ∷ as') = arrive a.operation a.now a.again ∷ arrivals as'

abbrev pub IsRejected : CircuitBreaker → Arrival → Type 0
IsRejected b a = is_admitted (admit a.operation a.now a.again b).1 ≡ false

-- Arrivals that the breaker rejects in its present state do not move it.
pub run-arrivals_rejected :
    (b : CircuitBreaker) (l : List Arrival) → All (IsRejected b) l → run b (arrivals l) ≡ b
unfolding run step
run-arrivals_rejected b [] h = refl
run-arrivals_rejected b (a ∷ l) h =
    ap (λ (b' : CircuitBreaker). run b' (arrivals l))
      (rejected_unchanged a.operation a.now a.again b h.0)
    ∙ run-arrivals_rejected b l h.1

trial_rejects :
    (b : CircuitBreaker) (a : Arrival)
    → b.state ≡ half_open
    → b.half_open_in_flight ≡ true
    → IsRejected b a
unfolding admit
trial_rejects b a s t = ground arith

All-IsRejected :
    (b : CircuitBreaker) (l : List Arrival)
    → ((a : Arrival) → IsRejected b a)
    → All (IsRejected b) l
All-IsRejected b [] h = tt
All-IsRejected b (a ∷ l) h = (h a, All-IsRejected b l h)

-- While a trial is in flight, and no call that was admitted before reports back, every arrival, at
-- whatever time and however many, is rejected, and the breaker does not change.
pub trial_excludes :
    (b : CircuitBreaker) (l : List Arrival)
    → b.state ≡ half_open
    → b.half_open_in_flight ≡ true
    → All (IsRejected b) l × (run b (arrivals l) ≡ b)
trial_excludes b l s t =
    let every : All (IsRejected b) l = All-IsRejected b l (λ a. trial_rejects b a s t) in
    (every, run-arrivals_rejected b l every)

early :
    (b : CircuitBreaker) (a : Arrival)
    → b.state ≡ opened
    → a.now < b.opened_at + b.reset_timeout_seconds
    → IsRejected b a
unfolding admit
early b a s t = ground arith

All-early :
    (b : CircuitBreaker) (l : List Arrival)
    → b.state ≡ opened
    → All (λ (a : Arrival). a.now < b.opened_at + b.reset_timeout_seconds) l
    → All (IsRejected b) l
All-early b [] s h = tt
All-early b (a ∷ l) s h = (early b a s h.0, All-early b l s h.1)

-- An open circuit rejects every arrival before its timeout has elapsed, and stays as it is.
pub open_holds :
    (b : CircuitBreaker) (l : List Arrival)
    → b.state ≡ opened
    → All (λ (a : Arrival). a.now < b.opened_at + b.reset_timeout_seconds) l
    → All (IsRejected b) l × (run b (arrivals l) ≡ b)
open_holds b l s h =
    let every : All (IsRejected b) l = All-early b l s h in (every, run-arrivals_rejected b l every)
