-- ===== src/DeadLetter/Tests.antt =====
-- A job that fails again and again, and its theorems at concrete inputs.
use praxis_ai_agent_platform.Common.{
  ℕ, ◌*◌, String, ◌≡◌, refl, List, [], ◌∷◌, map, nat_eq, string_eq, filter, ok,
}
use praxis_ai_agent_platform.DeadLetter.{
  DeadLetterState, pending_retry, discarded, DeadLetterEntry, Failure, is_open_for, record_failure,
  default_max_attempts, Event, fails, discards, run,
}
use praxis_ai_agent_platform.DeadLetter.Laws.{IsSingle, run-IsSingle}
use praxis_ai_agent_platform.DeadLetter.Attempts.{failures, IsAfter, failures_exhaust}

abbrev crawl : Failure
crawl = record {
  tenant_id = "acme";
  job_type = "ingest";
  job_key = "crawl";
  payload = "";
  error = "timeout";
  error_type = "TimeoutError";
}

abbrev every_minute : ℕ → ℕ
every_minute n = 60 * n

abbrev events : List Event
events = fails 0 "e1" crawl ∷ discards "e1" ∷ fails 60 "e2" crawl ∷ fails 120 "e3" crawl ∷ []

-- the second failure after a discarded entry opens a new one, which then counts the third
states_after :
    map {B = DeadLetterState × ℕ} (λ (e : DeadLetterEntry). (e.state, e.attempts)) (run 3 events [])
    ≡ (pending_retry, 2) ∷ (discarded, 1) ∷ []
unfolding run
states_after = refl

run-IsSingle_example :
    let db = run default_max_attempts events [] in
    IsSingle db
    × ((now : ℕ) (id : String) (f : Failure)
        → (r : DeadLetterEntry × List DeadLetterEntry) × (record_failure default_max_attempts now id
              f db
            ≡ ok r))
run-IsSingle_example = run-IsSingle default_max_attempts events

failures_exhaust_example :
    (e : DeadLetterEntry) × (filter
        (is_open_for crawl.tenant_id crawl.job_key)
        (run default_max_attempts (failures every_minute "e1" crawl 2) [])
      ≡ e ∷ [])
    × IsAfter default_max_attempts 2 (every_minute 2) crawl e
failures_exhaust_example = failures_exhaust default_max_attempts 2 every_minute "e1" crawl [] refl

abbrev crawl_again : Failure
crawl_again = record crawl { error = "refused" }
