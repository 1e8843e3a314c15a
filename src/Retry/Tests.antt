-- ===== src/Retry/Tests.antt =====
-- Runs of the bounded retry, and its theorems at concrete inputs.
use praxis_ai_agent_platform.Common.{
  ℕ, ◌≡◌, refl, some, arith, ltb, if◌then◌else◌, nat_eq, string_eq, Outcome, returned, raised,
}
use praxis_ai_agent_platform.Retry.{answer, connector_error, value_error, call_with_retry}
use praxis_ai_agent_platform.Retry.Laws.{first_success_returned, all_failed_surfaced}

-- The first two calls fail, the others return their number.
abbrev flaky : ℕ → Outcome ℕ ℕ
flaky n = if ltb n 3 then raised n else returned n

abbrev number : ℕ → ℕ
number n = n

no_attempt : (call_with_retry flaky 0 1).reply ≡ value_error
unfolding call_with_retry
no_attempt = refl

first_success_returned_example :
    let t = call_with_retry flaky 5 1 in (t.reply ≡ answer 3) × (t.calls ≡ 3) × (t.sleeps ≡ 2)
first_success_returned_example =
    first_success_returned flaky 5 1 number 2 3 (omega arith) (refl, (refl, tt)) refl

all_failed_surfaced_example :
    let t = call_with_retry flaky 2 1 in
    (t.reply ≡ connector_error 2 (some 2)) × (t.calls ≡ 2) × (t.sleeps ≡ 1)
all_failed_surfaced_example = all_failed_surfaced flaky 2 1 number (omega arith) (refl, (refl, tt))
