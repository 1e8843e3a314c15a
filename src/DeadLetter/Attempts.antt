-- ===== src/DeadLetter/Attempts.antt =====
-- How a job's entry grows with each failure, and how long it waits.
use praxis_ai_agent_platform.Common.{
  ℕ, zero, suc, ◌+◌, ◌-◌, ◌*◌, ◌^◌, ◌≤◌, ◌<◌, min, String, ◌≡◌, refl, ap, ◌∙◌, ◌⊎◌, inl, inr, true,
  false, none, some, List, [], ◌∷◌, ◌++◌, arith, leb, nat_eq, string_eq, Bool-cases, length,
  length-append, filter, filter-update_first,
}
use praxis_ai_agent_platform.DeadLetter.{
  pending_retry, dead, backoff_delay, DeadLetterEntry, failure_of, Table, Failure, is_open,
  is_open_for, first_entry, failed_again, record_failure, Event, fails, step, run,
}

pow_pos : (n : ℕ) → 1 ≤ 2 ^ n
pow_pos zero = omega arith
pow_pos (suc n) = omega (arith, pow_pos n)

delay_after : (n attempt : ℕ) → attempt - 1 ≡ n → backoff_delay attempt ≡ min (30 * 2 ^ n) 3600
unfolding backoff_delay
delay_after n attempt h = ap (λ k. min (30 * 2 ^ k) 3600) h

pow_suc : (n : ℕ) → 2 ^ suc n ≡ 2 * 2 ^ n
pow_suc n = omega arith

-- The wait is half a minute before the second attempt, doubles with each one after, and stops
-- growing at an hour.
pub backoff_delay_lem :
    (attempt : ℕ)
    → (backoff_delay 1 ≡ 30)
      × (backoff_delay (attempt + 2) ≡ min (2 * backoff_delay (attempt + 1)) 3600)
      × (30 ≤ backoff_delay attempt)
      × (backoff_delay attempt ≤ 3600)
backoff_delay_lem attempt =
    let now = delay_after (attempt - 1) attempt refl in
    let next = delay_after attempt (attempt + 1) (omega arith) in
    let later = delay_after (suc attempt) (attempt + 2) (omega arith) in
    (
      delay_after 0 1 refl,
      omega (arith, next, later, pow_suc attempt, pow_pos attempt),
      omega (arith, now, pow_pos (attempt - 1)),
      omega (arith, now),
    )

-- `n + 1` failures of one job, at the times that a function gives
abbrev pub failures : (ℕ → ℕ) → String → Failure → ℕ → List Event
failures clock id f zero = fails (clock 0) id f ∷ []
failures clock id f (suc n) = failures clock id f n ++ fails (clock (suc n)) id f ∷ []

run-append :
    (max_attempts : ℕ) (es es' : List Event) (db : Table)
    → run max_attempts (es ++ es') db ≡ run max_attempts es' (run max_attempts es db)
unfolding run
run-append max_attempts [] es' db = refl
run-append max_attempts (e ∷ es) es' db = run-append max_attempts es es' (step max_attempts e db)

-- What is known of the entry of a job after its failure number `n + 1`.
pub record IsAfter (max_attempts n : ℕ) (at : ℕ) (f : Failure) (e : DeadLetterEntry) : Type 0 where
  pub counted : e.attempts ≡ n + 1
  pub history : length e.failures ≡ n + 1
  pub tenant : e.tenant_id ≡ f.tenant_id
  pub job : e.job_key ≡ f.job_key
  pub opened : is_open e.state ≡ true
  pub waiting :
      (n ≡ 0) ⊎ (n + 1 < max_attempts)
      → (e.state ≡ pending_retry) × (e.next_retry_at ≡ some (at + backoff_delay (n + 1)))
  pub finished : 1 ≤ n → max_attempts ≤ n + 1 → (e.state ≡ dead) × (e.next_retry_at ≡ none)

IsAfter-first :
    (max_attempts now : ℕ) (id : String) (f : Failure)
    → IsAfter max_attempts 0 now f (first_entry now id f)
unfolding first_entry
IsAfter-first max_attempts now id f = record {
  counted = omega arith;
  history = omega arith;
  tenant = refl;
  job = refl;
  opened = refl;
  waiting = λ early. (refl, refl);
  finished = λ some_before enough. absurd (omega (arith, some_before));
}

open_after :
    (max_attempts n at : ℕ) (f : Failure) (e : DeadLetterEntry)
    → IsAfter max_attempts n at f e
    → is_open_for f.tenant_id f.job_key e ≡ true
unfolding is_open_for
open_after max_attempts n at f e h =
    rw ((string_eq.same_iff _ _).1 h.tenant, (string_eq.same_iff _ _).1 h.job) h.opened

spent_iff :
    (max_attempts n : ℕ) (e : DeadLetterEntry)
    → e.attempts ≡ n + 1
    → leb max_attempts (e.attempts + 1) ≡ leb max_attempts (suc n + 1)
spent_iff max_attempts n e h = ap (leb max_attempts) (omega (arith, h))

next_state :
    (max_attempts n at now : ℕ) (f : Failure) (e : DeadLetterEntry)
    → IsAfter max_attempts n at f e
    → IsAfter max_attempts (suc n) now f (failed_again max_attempts now f e)
unfolding failed_again
next_state max_attempts n at now f e h =
    let spent = spent_iff max_attempts n e h.counted in
    record {
      counted = omega (arith, h.counted);
      history =
          omega
            (arith, h.history, length-append e.failures (failure_of (e.attempts + 1) now f ∷ []));
      tenant = h.tenant;
      job = h.job;
      opened = elim (Bool-cases (leb max_attempts (e.attempts + 1))) [
        | inl over ↦ rw over
        | inr under ↦ rw under h.opened
      ];
      waiting = λ early.
          let few : suc n + 1 < max_attempts = elim early [
            | inl zeroth ↦ absurd (omega (arith, zeroth))
            | inr l ↦ l
          ] in
          let under : leb max_attempts (e.attempts + 1) ≡ false = spent ∙ (ground (arith, few)) in
          let count : e.attempts + 1 ≡ suc n + 1 = omega (arith, h.counted) in
          let before = h.waiting (inr (omega (arith, few))) in
          (rw under before.0, rw under (ap (λ k. some (now + backoff_delay k)) count));
      finished = λ some_before enough.
          let over : leb max_attempts (e.attempts + 1) ≡ true = spent ∙ (ground (arith, enough)) in
          (rw over, rw over);
    }

-- The failure number `n + 1` of a job with no open entry leaves it exactly one open entry, which has
-- counted and kept all of them. It waits for a retry, by the backoff of that number, if it is the
-- first or the limit is not reached; otherwise it is dead, with no time for a retry.
pub failures_exhaust :
    (max_attempts n : ℕ) (clock : ℕ → ℕ) (id : String) (f : Failure) (db : Table)
    → filter (is_open_for f.tenant_id f.job_key) db ≡ []
    → (e : DeadLetterEntry) × (filter
          (is_open_for f.tenant_id f.job_key)
          (run max_attempts (failures clock id f n) db)
        ≡ e ∷ [])
      × IsAfter max_attempts n (clock n) f e
unfolding run step record_failure
failures_exhaust max_attempts zero clock id f db free =
    let e = first_entry (clock 0) id f in
    let after = IsAfter-first max_attempts (clock 0) id f in
    (e, rw (free, open_after max_attempts 0 (clock 0) f e after, free), after)
failures_exhaust max_attempts (suc n) clock id f db free =
    let (e, found, h) = failures_exhaust max_attempts n clock id f db free in
    let now = clock (suc n) in
    let after = next_state max_attempts n (clock n) now f e h in
    (
      failed_again max_attempts now f e,
      rw (run-append max_attempts (failures clock id f n) (fails now id f ∷ []) db, found)
          (filter-update_first (is_open_for f.tenant_id f.job_key) (failed_again max_attempts now f)
            (run max_attempts (failures clock id f n) db) e found
            (open_after max_attempts (suc n) now f _ after)),
      after,
    )
