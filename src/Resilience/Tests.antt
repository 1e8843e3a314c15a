-- ===== src/Resilience/Tests.antt =====
-- Runs of the guarded calls over a limiter that counts, and their theorems at concrete inputs.
use praxis_ai_agent_platform.Common.{
  ℕ, String, arith, eq_iff, ◌-◌, ◌≡◌, refl, none, some, [], ◌∷◌, nat_eq, string_eq, lookup, insert,
  remove, Outcome, raised,
}
use praxis_ai_agent_platform.Breaker
use praxis_ai_agent_platform.Breaker.{CircuitBreaker, closed, opened, half_open}
use praxis_ai_agent_platform.Resilience.{LimiterLib, ConnectorResilience, configure, call, states}
use praxis_ai_agent_platform.Resilience.Laws.{call_isolates}

-- A limiter with what is left of its calls.
abbrev counting : LimiterLib
counting = record { Limiter = ℕ; make = λ calls period. calls; acquire = λ left. left - 1 }

abbrev start : ConnectorResilience counting
start = record {
  default_rate_limit = none;
  failure_threshold = 1;
  reset_timeout_seconds = 30;
  limiters = [];
  breakers = ("slack", Breaker.new "slack" 1 30) ∷ [];
  rate_limits = [];
}

abbrev limited : ConnectorResilience counting
limited = configure counting "sql" (record { max_calls = 10; period_seconds = 1 }) start

abbrev fails : ConnectorResilience counting → ConnectorResilience counting × Outcome ℕ ℕ
fails r = (r, raised 7)

-- one failure opens the breaker of `sql`, uses one call of its limiter, and no other breaker moves
one_failure :
    let r = (call counting "sql" "read" 5 5 6 (λ r. r) fails limited).0 in
    (states counting r ≡ ("slack", closed) ∷ ("sql", opened) ∷ [])
    × (lookup "sql" r.limiters ≡ some 9)
unfolding call configure states Breaker.new Breaker.admit Breaker.settle insert lookup remove
one_failure = (refl, refl)

call_isolates_example :
    lookup "slack" (call counting "sql" "read" 5 5 6 (λ r. r) fails limited).0.breakers
    ≡ lookup "slack" limited.breakers
call_isolates_example =
    call_isolates counting "sql" "slack" "read" 5 5 6 (λ r. r) fails limited
      (λ h.
        let it : ◌≡◌ {A = String} "sql" "slack" = cc in ground (arith, it, eq_iff "sql" "slack"))
      (λ r. refl) (λ r. refl)
