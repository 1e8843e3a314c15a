-- ===== src/Resilience.antt =====
-- `RateLimit`, `ConnectorResilience` and `ResilientConnector` of praxis/connectors/resilience.py. The
-- limiter is aiolimiter's: its type, its constructor and the wait for capacity are parameters.
pub mod Laws
mod Tests
use praxis_ai_agent_platform.Common.{
  ℕ, String, Option, none, some, [], ◌∷◌, nat_eq, string_eq, Dict, lookup, insert, remove, Result,
  ok, err, Outcome,
}
use praxis_ai_agent_platform.Breaker
use praxis_ai_agent_platform.Breaker.{
  CircuitState, CircuitBreaker, CircuitOpenError, Reply, rejected, admit, settle,
}

pub record RateLimit : Type 0 where
  pub max_calls : ℕ
  pub period_seconds : ℕ

-- What the code uses of `AsyncLimiter`.
pub record LimiterLib : Type 1 where
  pub Limiter : Type 0
  pub make : ℕ → ℕ → Limiter
  -- the limiter after `async with limiter` has let a call through
  pub acquire : Limiter → Limiter

circuit_states : Dict String CircuitBreaker → Dict String CircuitState
circuit_states [] = []
circuit_states ((name, b) ∷ d) = (name, b.state) ∷ circuit_states d

module _ (lib : LimiterLib) where
  open lib use {Limiter, make, acquire}

  pub record ConnectorResilience : Type 0 where
    pub default_rate_limit : Option RateLimit
    pub failure_threshold : ℕ
    pub reset_timeout_seconds : ℕ
    pub limiters : Dict String Limiter
    pub breakers : Dict String CircuitBreaker
    pub rate_limits : Dict String RateLimit

  -- `configure`
  unfoldable pub configure : String → RateLimit → ConnectorResilience → ConnectorResilience
  configure connector limit r = record r {
    rate_limits = insert connector limit r.rate_limits;
    limiters = remove connector r.limiters;
  }

  -- `breaker`: the breaker of the connector, and `self` with it
  unfoldable pub breaker : String → ConnectorResilience → ConnectorResilience × CircuitBreaker
  breaker connector r = elim (lookup connector r.breakers) [
    | some b ↦ (r, b)
    | none ↦
        let b = Breaker.new connector r.failure_threshold r.reset_timeout_seconds in
        (record r { breakers = insert connector b r.breakers }, b)
  ]

  -- `self._rate_limits.get(connector, self._default_rate_limit)`
  abbrev limit_of : String → ConnectorResilience → Option RateLimit
  limit_of connector r = elim (lookup connector r.rate_limits) [
    | some limit ↦ some limit
    | none ↦ r.default_rate_limit
  ]

  -- `_limiter`
  unfoldable pub limiter : String → ConnectorResilience → ConnectorResilience × Option Limiter
  limiter connector r = elim (limit_of connector r) [
    | none ↦ (r, none)
    | some limit ↦ elim (lookup connector r.limiters) [
      | some l ↦ (r, some l)
      | none ↦
          let l = make limit.max_calls limit.period_seconds in
          (record r { limiters = insert connector l r.limiters }, some l)
    ]
  ]

  -- the wait of `async with limiter`, and what other tasks do in that time
  abbrev pub waited :
      String
      → (meanwhile : ConnectorResilience → ConnectorResilience) → ConnectorResilience
      → Option Limiter
      → ConnectorResilience
  waited connector meanwhile r none = r
  waited connector meanwhile r (some l) =
      meanwhile (record r { limiters = insert connector (acquire l) r.limiters })

  -- `_limiter`, then the wait
  unfoldable pub throttle :
      String
      → (meanwhile : ConnectorResilience → ConnectorResilience) → ConnectorResilience
      → ConnectorResilience
  unfolding limiter
  throttle connector meanwhile r =
      waited connector meanwhile (limiter connector r).0 (limiter connector r).1

  -- the breaker is an object that the dictionary shares: what is done to it is seen there
  unfoldable pub store : String → CircuitBreaker → ConnectorResilience → ConnectorResilience
  store connector b r = record r { breakers = insert connector b r.breakers }

  module _ {E T : Type 0} where
    abbrev finish_call :
        String → ℕ → ConnectorResilience × Outcome E T → ConnectorResilience × Reply E T
    finish_call connector finish (r, outcome) =
        let (r', b) = breaker connector r in
        let (b', reply) = settle outcome finish b in (store connector b' r', reply)

    abbrev after_admission :
        String
        → ℕ
        → (ConnectorResilience → ConnectorResilience × Outcome E T)
        → ConnectorResilience
        → CircuitBreaker × Result CircuitOpenError (Unit {0})
        → ConnectorResilience × Reply E T
    after_admission connector finish operation r (b, ok _) =
        finish_call connector finish (operation (store connector b r))
    after_admission connector finish operation r (b, err e) = (store connector b r, rejected e)

    -- `call`: throttle, then the breaker, then the operation, which may use `self` meanwhile
    unfoldable pub call :
        String
        → String
        → ℕ
        → ℕ
        → ℕ
        → (meanwhile : ConnectorResilience → ConnectorResilience)
        → (ConnectorResilience → ConnectorResilience × Outcome E T)
        → ConnectorResilience
        → ConnectorResilience × Reply E T
    unfolding breaker store throttle
    call connector name now again finish meanwhile operation r =
        let (r', b) = breaker connector (throttle connector meanwhile r) in
        after_admission connector finish operation r' (admit name now again b)

  -- `states`
  unfoldable pub states : ConnectorResilience → Dict String CircuitState
  unfolding circuit_states
  states r = circuit_states r.breakers
