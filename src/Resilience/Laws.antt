-- ===== src/Resilience/Laws.antt =====
-- Each connector has its own breaker: a guarded call of one leaves the others alone.
use praxis_ai_agent_platform.Common.{
  Dict, arith, some, ap, ℕ, Option, none, insert, String, ◌≡◌, refl, ◌∙◌, ◌≢◌, inl, inr, nat_eq,
  string_eq, Option-cases, lookup, lookup-insert_ne, Result, ok, err, Outcome,
}
use praxis_ai_agent_platform.Breaker
use praxis_ai_agent_platform.Breaker.{
  CircuitBreaker, CircuitOpenError, Reply, rejected, admit, settle, guarded,
}
use praxis_ai_agent_platform.Resilience.{
  LimiterLib, ConnectorResilience, limiter, waited, breaker, throttle, store, call, after_admission,
}

module _ (lib : LimiterLib) where
  limiter-breakers :
      (connector : String) (r : ConnectorResilience lib)
      → (limiter lib connector r).0.breakers ≡ r.breakers
  unfolding limiter
  limiter-breakers connector r = ground arith

  module _ (connector other : String)
      (meanwhile : ConnectorResilience lib → ConnectorResilience lib)
      (leaves : (r' : ConnectorResilience lib)
        → lookup other (meanwhile r').breakers ≡ lookup other r'.breakers) where
    other-waited :
        (r : ConnectorResilience lib) (found : Option lib.Limiter)
        → lookup other (waited lib connector meanwhile r found).breakers ≡ lookup other r.breakers
    other-waited r none = refl
    other-waited r (some l) =
        leaves (record r { limiters = insert connector (lib.acquire l) r.limiters })

    other-throttle :
        (r : ConnectorResilience lib)
        → lookup other (throttle lib connector meanwhile r).breakers ≡ lookup other r.breakers
    unfolding throttle
    other-throttle r =
        other-waited (limiter lib connector r).0 (limiter lib connector r).1
        ∙ ap (λ (d : Dict String CircuitBreaker). lookup other d) (limiter-breakers connector r)

  other-breaker :
      (connector other : String) (r : ConnectorResilience lib)
      → connector ≢ other
      → lookup other (breaker lib connector r).0.breakers ≡ lookup other r.breakers
  unfolding breaker
  other-breaker connector other r h = elim (Option-cases (lookup connector r.breakers)) [
    | inl e ↦
        rw (e, breaker)
          (lookup-insert_ne connector other
            (Breaker.new connector r.failure_threshold r.reset_timeout_seconds) r.breakers h)
    | inr f ↦ rw (f.1, breaker)
  ]

  other-store :
      (connector other : String) (b : CircuitBreaker) (r : ConnectorResilience lib)
      → connector ≢ other
      → lookup other (store lib connector b r).breakers ≡ lookup other r.breakers
  unfolding store
  other-store connector other b r h = lookup-insert_ne connector other b r.breakers h

  module _ {E T : Type 0} where
    isolated_after :
        (connector other : String) (finish : ℕ)
        (operation : ConnectorResilience lib → ConnectorResilience lib × Outcome E T)
        (r : ConnectorResilience lib) (p : CircuitBreaker × Result CircuitOpenError (Unit {0}))
        → connector ≢ other
        → ((r' : ConnectorResilience lib)
            → lookup other (operation r').0.breakers ≡ lookup other r'.breakers)
        → lookup other (after_admission lib connector finish operation r p).0.breakers
          ≡ lookup other r.breakers
    isolated_after connector other finish operation r (b, ok _) h leaves =
        let s = (operation (store lib connector b r)).0 in
        other-store connector other
          (settle (operation (store lib connector b r)).1 finish (breaker lib connector s).1).0
          (breaker lib connector s).0 h
        ∙ other-breaker connector other s h
        ∙ leaves (store lib connector b r)
        ∙ other-store connector other b r h
    isolated_after connector other finish operation r (b, err e) h leaves =
        other-store connector other b r h

    -- A guarded call of one connector leaves every other connector's breaker as it was, whether it is
    -- rejected, returns, raises or is cancelled, if its operation leaves that breaker alone, and so does
    -- what other tasks do while it waits for its limiter.
    pub call_isolates :
        (connector other name : String) (now again finish : ℕ)
        (meanwhile : ConnectorResilience lib → ConnectorResilience lib)
        (operation : ConnectorResilience lib → ConnectorResilience lib × Outcome E T)
        (r : ConnectorResilience lib)
        → connector ≢ other
        → ((r' : ConnectorResilience lib)
            → lookup other (meanwhile r').breakers ≡ lookup other r'.breakers)
        → ((r' : ConnectorResilience lib)
            → lookup other (operation r').0.breakers ≡ lookup other r'.breakers)
        → lookup other (call lib connector name now again finish meanwhile operation r).0.breakers
          ≡ lookup other r.breakers
    unfolding call
    call_isolates connector other name now again finish meanwhile operation r h waits leaves =
        let t = throttle lib connector meanwhile r in
        isolated_after connector other finish operation (breaker lib connector t).0
          (admit name now again (breaker lib connector t).1) h leaves
        ∙ other-breaker connector other t h
        ∙ other-throttle connector other meanwhile waits r
