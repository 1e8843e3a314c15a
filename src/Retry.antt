-- ===== src/Retry.antt =====
-- `call_with_retry` of praxis/connectors/retry.py. The operation is a parameter: the outcome of its
-- first call, of its second, and so on, counted from 1.
pub mod Laws
mod Tests
use praxis_ai_agent_platform.Common.{
  ℕ, zero, suc, ◌+◌, ◌-◌, ◌&&◌, Option, none, some, ltb, if◌then◌else◌, nat_eq, string_eq, Outcome,
  returned, raised, cancelled,
}

-- What `call_with_retry` gives its caller.
pub data RetryReply (E T : Type 0) : Type 0 where
  answer : T → RetryReply E T
  -- `ConnectorError` with its attempts and the last error
  connector_error : ℕ → Option E → RetryReply E T
  value_error : RetryReply E T
  interrupted : RetryReply E T

-- The reply, with the calls and the sleeps that were made.
pub record Trace (E T : Type 0) : Type 0 where
  pub reply : RetryReply E T
  pub calls : ℕ
  pub sleeps : ℕ

module _ {E T : Type 0} (fn : ℕ → Outcome E T) (max_attempts delay : ℕ) where
  abbrev pauses : ℕ → ℕ
  pauses attempt = if ltb attempt max_attempts && ltb 0 delay then 1 else 0

  abbrev after_failure : ℕ → Trace E T → Trace E T
  after_failure attempt rest = record rest { sleeps = pauses attempt + rest.sleeps }

  -- the `for` loop from `attempt` on, with the attempts left
  attempts_from : ℕ → ℕ → Option E → Trace E T
  attempts_from zero attempt last_error = record {
    reply = connector_error max_attempts last_error;
    calls = attempt - 1;
    sleeps = 0;
  }
  attempts_from (suc left) attempt last_error = elim (fn attempt) [
    | returned v ↦ record { reply = answer v; calls = attempt; sleeps = 0 }
    | raised e ↦ after_failure attempt (attempts_from left (attempt + 1) (some e))
    | cancelled ↦ record { reply = interrupted; calls = attempt; sleeps = 0 }
  ]

  unfoldable pub call_with_retry : Trace E T
  unfolding attempts_from
  call_with_retry =
      if ltb max_attempts 1
      then record { reply = value_error; calls = 0; sleeps = 0 }
      else attempts_from max_attempts 1 none
