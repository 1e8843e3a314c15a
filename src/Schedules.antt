-- ===== src/Schedules.antt =====
-- praxis/agents/schedules.py: the check of a schedule, its missed runs and the overlap policy. The
-- trigger of APScheduler is a parameter: the fire time that it gives for a time, if any. Times are
-- numbers of seconds.
pub mod Catchup
mod Tests
use praxis_ai_agent_platform.Common.{
  ℕ, zero, suc, String, Bool, true, false, not, ◌||◌, Option, none, some, List, [], ◌∷◌, ltb,
  if◌then◌else◌, nat_eq, string_eq, ℤ, pos, negsuc, Result, ok, err, ◌>>=◌,
}

pub data ScheduleState : Type 0 where
  active paused cancelled : ScheduleState

pub data OverlapPolicy : Type 0 where
  skip queue concurrent : OverlapPolicy

pub data MissedRunPolicy : Type 0 where
  run_once run_all skip : MissedRunPolicy

pub data ScheduleError : Type 0 where
  no_trigger two_triggers short_interval : ScheduleError
  unknown_timezone invalid_cron no_future_fire_time : (text : String) → ScheduleError

pub record Schedule : Type 0 where
  pub schedule_id : String
  pub name : String
  pub intent_text : String
  pub tenant_id : String
  pub principal_user_id : Option String
  pub interval_seconds : Option ℤ
  pub cron : Option String
  pub timezone_name : String
  pub state : ScheduleState
  pub overlap : OverlapPolicy
  pub missed_run : MissedRunPolicy
  pub connector_name : Option String
  pub last_run_at : Option ℕ
  pub next_run_at : Option ℕ

-- What the code takes from zoneinfo and APScheduler: the timezones and the cron expressions that there
-- are, and `get_next_fire_time(None, after)` of the trigger that a schedule is defined by.
pub record TriggerLib : Type 0 where
  pub is_timezone : String → Bool
  pub is_cron : String → Bool
  pub get_next_fire_time : Schedule → ℕ → Option ℕ

-- `interval_seconds < 1`
abbrev pub is_short : ℤ → Bool
is_short (pos n) = ltb n 1
is_short (negsuc n) = true

abbrev pub check_zone :
    TriggerLib → Schedule → Result ScheduleError (Unit {0}) → Result ScheduleError (Unit {0})
check_zone lib s further =
    if lib.is_timezone s.timezone_name then further else err (unknown_timezone s.timezone_name)

-- the two fields that say when, and then the timezone and the trigger
abbrev pub check_triggers :
    TriggerLib → Schedule → Option ℤ → Option String → Result ScheduleError (Unit {0})
check_triggers lib s none none = err no_trigger
check_triggers lib s (some n) (some c) = err two_triggers
check_triggers lib s (some n) none =
    if is_short n then err short_interval else check_zone lib s (ok tt)
check_triggers lib s none (some c) =
    check_zone lib s (if lib.is_cron c then ok tt else err (invalid_cron c))

-- `__post_init__`
unfoldable pub check_schedule : TriggerLib → Schedule → Result ScheduleError (Unit {0})
check_schedule lib s = check_triggers lib s s.interval_seconds s.cron

abbrev pub fire_time_or_error : Schedule → Option ℕ → Result ScheduleError ℕ
fire_time_or_error s none = err (no_future_fire_time s.name)
fire_time_or_error s (some t) = ok t

-- `next_fire_time`
unfoldable pub next_fire_time : TriggerLib → Schedule → ℕ → Result ScheduleError ℕ
next_fire_time lib s after = fire_time_or_error s (lib.get_next_fire_time s after)

-- one round of the loop, given the rest of it
abbrev pub note_missed : ℕ → (ℕ → Result ScheduleError (List ℕ)) → ℕ → Result ScheduleError (List ℕ)
note_missed now further cursor =
    if ltb now cursor then ok [] else further cursor >>= λ missed. ok (cursor ∷ missed)

-- the loop, with the rounds that are left
unfoldable pub missed_from : TriggerLib → Schedule → ℕ → ℕ → ℕ → Result ScheduleError (List ℕ)
unfolding next_fire_time
missed_from lib s now zero cursor = ok []
missed_from lib s now (suc rounds) cursor =
    next_fire_time lib s cursor >>= note_missed now (λ c. missed_from lib s now rounds c)

abbrev pub max_missed : ℕ
max_missed = 1000

-- `[missed[-1]]`, and nothing of nothing
abbrev pub last_only : List ℕ → List ℕ
last_only [] = []
last_only (t ∷ []) = t ∷ []
last_only (t ∷ t' ∷ ts) = last_only (t' ∷ ts)

abbrev pub missed_for :
    MissedRunPolicy → Result ScheduleError (List ℕ) → Result ScheduleError (List ℕ)
missed_for MissedRunPolicy.skip missed = ok []
missed_for MissedRunPolicy.run_once missed = missed >>= λ ts. ok (last_only ts)
missed_for MissedRunPolicy.run_all missed = missed

-- `missed_fire_times`
unfoldable pub missed_fire_times : TriggerLib → Schedule → ℕ → ℕ → Result ScheduleError (List ℕ)
unfolding missed_from
missed_fire_times lib s since now = missed_for s.missed_run (missed_from lib s now max_missed since)

abbrev pub may_overlap : OverlapPolicy → Bool
may_overlap OverlapPolicy.concurrent = true
may_overlap OverlapPolicy.queue = false
may_overlap OverlapPolicy.skip = false

abbrev pub starts : ScheduleState → Bool → OverlapPolicy → Bool
starts ScheduleState.active is_previous_run_active overlap =
    not is_previous_run_active || may_overlap overlap
starts ScheduleState.paused is_previous_run_active overlap = false
starts ScheduleState.cancelled is_previous_run_active overlap = false

-- `should_start_run`, without the text of the reason
unfoldable pub should_start_run : Schedule → Bool → Bool
should_start_run s is_previous_run_active = starts s.state is_previous_run_active s.overlap
