-- ===== src/DeadLetter.antt =====
-- praxis/core/dead_letter.py: background work that failed, its retries and its end. The table is a
-- list with the newest row first. A time is a number of seconds, and one reading of the clock
-- serves the two that record_failure makes. The text of an error stands as cut by to_dict.
pub mod Laws
pub mod Attempts
pub mod Overlaps
mod Tests
use praxis_ai_agent_platform.Common.{
  ℕ, ◌+◌, ◌-◌, ◌*◌, ◌^◌, min, String, Bool, true, false, ◌&&◌, Option, none, some, List, [], ◌∷◌,
  ◌++◌, leb, if◌then◌else◌, ◌==◌, nat_eq, string_eq, filter, any, update_first, Result, ok, err,
  ◌>>=◌,
}

pub data DeadLetterState : Type 0 where
  pending_retry dead replayed discarded : DeadLetterState

abbrev pub default_max_attempts : ℕ
default_max_attempts = 3

abbrev pub base_backoff_seconds : ℕ
base_backoff_seconds = 30

abbrev pub max_backoff_seconds : ℕ
max_backoff_seconds = 3600

-- `backoff_delay`; the subtraction stops at 0 like `max(0, attempt - 1)`
unfoldable pub backoff_delay : ℕ → ℕ
backoff_delay attempt = min (base_backoff_seconds * 2 ^ (attempt - 1)) max_backoff_seconds

pub record FailureRecord : Type 0 where
  pub attempt : ℕ
  pub error : String
  pub error_type : String
  pub occurred_at : ℕ

-- A row of `dead_letter`. Its payload is not read.
pub record DeadLetterEntry : Type 0 where
  pub id : String
  pub tenant_id : String
  pub job_type : String
  pub job_key : String
  pub payload : String
  pub attempts : ℕ
  pub failures : List FailureRecord
  pub state : DeadLetterState
  pub next_retry_at : Option ℕ

abbrev pub Table : Type 0
Table = List DeadLetterEntry

-- What fails, and how.
pub record Failure : Type 0 where
  pub tenant_id : String
  pub job_type : String
  pub job_key : String
  pub payload : String
  pub error : String
  pub error_type : String

-- `MultipleResultsFound` of `scalar_one_or_none`, and `KeyError`
pub data QueueError : Type 0 where
  multiple_results missing_entry : QueueError

-- `state.in_([PENDING_RETRY, DEAD])`
abbrev pub is_open : DeadLetterState → Bool
is_open pending_retry = true
is_open dead = true
is_open replayed = false
is_open discarded = false

abbrev pub is_pending : DeadLetterState → Bool
is_pending pending_retry = true
is_pending dead = false
is_pending replayed = false
is_pending discarded = false

abbrev pub is_dead : DeadLetterState → Bool
is_dead pending_retry = false
is_dead dead = true
is_dead replayed = false
is_dead discarded = false

unfoldable pub is_open_for : String → String → DeadLetterEntry → Bool
is_open_for tenant_id job_key e =
    e.tenant_id == tenant_id && (e.job_key == job_key && is_open e.state)

-- `scalar_one_or_none`
abbrev pub scalar_one_or_none : Table → Result QueueError (Option DeadLetterEntry)
scalar_one_or_none [] = ok none
scalar_one_or_none (e ∷ []) = ok (some e)
scalar_one_or_none (e ∷ e' ∷ es) = err multiple_results

abbrev pub failure_of : ℕ → ℕ → Failure → FailureRecord
failure_of attempt now f = record {
  attempt = attempt;
  error = f.error;
  error_type = f.error_type;
  occurred_at = now;
}

unfoldable pub first_entry : ℕ → String → Failure → DeadLetterEntry
unfolding backoff_delay
first_entry now id f = record {
  id = id;
  tenant_id = f.tenant_id;
  job_type = f.job_type;
  job_key = f.job_key;
  payload = f.payload;
  attempts = 1;
  failures = failure_of 1 now f ∷ [];
  state = pending_retry;
  next_retry_at = some (now + backoff_delay 1);
}

-- the `else` branch, on an entry that is found
unfoldable pub failed_again : (max_attempts : ℕ) → ℕ → Failure → DeadLetterEntry → DeadLetterEntry
unfolding backoff_delay
failed_again max_attempts now f e =
    let spent = leb max_attempts (e.attempts + 1) in
    record e {
      attempts = e.attempts + 1;
      failures = e.failures ++ failure_of (e.attempts + 1) now f ∷ [];
      state = if spent then dead else e.state;
      next_retry_at = if spent then none else some (now + backoff_delay (e.attempts + 1));
    }

abbrev pub recorded :
    ℕ → ℕ → String → Failure → Table → Option DeadLetterEntry → DeadLetterEntry × Table
recorded max_attempts now id f db none = (first_entry now id f, first_entry now id f ∷ db)
recorded max_attempts now id f db (some e) = (
  failed_again max_attempts now f e,
  update_first (is_open_for f.tenant_id f.job_key) (failed_again max_attempts now f) db,
)

-- the query of `record_failure`
unfoldable pub find_open : Failure → Table → Result QueueError (Option DeadLetterEntry)
unfolding is_open_for
find_open f db = scalar_one_or_none (filter (is_open_for f.tenant_id f.job_key) db)

-- `record_failure`, where no other call commits between its query and its commit; the identifier of a
-- new row is an argument. Where calls overlap, `find_open` and `recorded` are steps of their own.
unfoldable pub record_failure :
    (max_attempts now : ℕ) → String → Failure → Table → Result QueueError (DeadLetterEntry × Table)
unfolding find_open is_open_for first_entry failed_again
record_failure max_attempts now id f db =
    find_open f db >>= λ entry. ok (recorded max_attempts now id f db entry)

-- `DeadLetterEntry.next_retry_at <= now`: a comparison with NULL is not true
abbrev pub is_due_at : ℕ → Option ℕ → Bool
is_due_at now none = false
is_due_at now (some retry_at) = leb retry_at now

abbrev pub is_of : Option String → String → Bool
is_of none tenant_id = true
is_of (some t) tenant_id = tenant_id == t

-- `due_for_retry`
unfoldable pub due_for_retry : ℕ → Option String → Table → Table
due_for_retry now tenant_id db =
    filter
      (λ e. is_pending e.state && (is_due_at now e.next_retry_at && is_of tenant_id e.tenant_id)) db

-- `dead_entries`, without their order
unfoldable pub dead_entries : String → Table → Table
dead_entries tenant_id db = filter (λ e. e.tenant_id == tenant_id && is_dead e.state) db

abbrev pub end_entry : DeadLetterState → DeadLetterEntry → DeadLetterEntry
end_entry state e = record e { state = state; next_retry_at = none }

-- `_set_state`
unfoldable pub set_state : String → DeadLetterState → Table → Result QueueError Table
set_state id state db =
    if any (λ (e : DeadLetterEntry). e.id == id) db
    then ok (update_first (λ e. e.id == id) (end_entry state) db)
    else err missing_entry

unfoldable pub mark_replayed : String → Table → Result QueueError Table
unfolding set_state
mark_replayed id db = set_state id replayed db

unfoldable pub discard : String → Table → Result QueueError Table
unfolding set_state
discard id db = set_state id discarded db

-- The queue's operations that change the table, one after the other: each is a transaction of its own,
-- and no two overlap.
pub data Event : Type 0 where
  fails : (now : ℕ) (id : String) (f : Failure) → Event
  replays : (id : String) → Event
  discards : (id : String) → Event

-- A call that raises is rolled back.
abbrev pub kept : Table → Result QueueError Table → Table
kept db (ok db') = db'
kept db (err e) = db

abbrev pub table_of : Result QueueError (DeadLetterEntry × Table) → Result QueueError Table
table_of (ok r) = ok r.1
table_of (err e) = err e

unfoldable pub step : (max_attempts : ℕ) → Event → Table → Table
unfolding record_failure mark_replayed discard
step max_attempts (fails now id f) db = kept db (table_of (record_failure max_attempts now id f db))
step max_attempts (replays id) db = kept db (mark_replayed id db)
step max_attempts (discards id) db = kept db (discard id db)

unfoldable pub run : (max_attempts : ℕ) → List Event → Table → Table
unfolding step
run max_attempts [] db = db
run max_attempts (e ∷ es) db = run max_attempts es (step max_attempts e db)
