-- ===== src/Schedules/Tests.antt =====
-- A schedule that fires every ten seconds.
use praxis_ai_agent_platform.Common.{
  ℕ, ◌+◌, ◌≡◌, refl, ◌⊎◌, true, false, none, some, List, [], ◌∷◌, ◌==◌, nat_eq, string_eq, pos, ok,
}
use praxis_ai_agent_platform.Schedules.{
  Schedule, ScheduleState, OverlapPolicy, MissedRunPolicy, TriggerLib, check_schedule,
  missed_fire_times, last_only, should_start_run,
}
use praxis_ai_agent_platform.Schedules.Catchup.{IsCaughtUp, missed_fire_times_lem}

abbrev lib : TriggerLib
lib = record {
  is_timezone = λ name. name == "UTC";
  is_cron = λ text. true;
  get_next_fire_time = λ s after. some (after + 10);
}

abbrev schedule : MissedRunPolicy → Schedule
schedule policy = record {
  schedule_id = "s1";
  name = "report";
  intent_text = "write the report";
  tenant_id = "acme";
  principal_user_id = none;
  interval_seconds = some (pos 10);
  cron = none;
  timezone_name = "UTC";
  state = ScheduleState.active;
  overlap = OverlapPolicy.queue;
  missed_run = policy;
  connector_name = none;
  last_run_at = none;
  next_run_at = none;
}

missed_runs :
    (missed_fire_times lib (schedule MissedRunPolicy.run_all) 0 35 ≡ ok (10 ∷ 20 ∷ 30 ∷ []))
    × (missed_fire_times lib (schedule MissedRunPolicy.run_once) 0 35 ≡ ok (30 ∷ []))
    × (missed_fire_times lib (schedule MissedRunPolicy.skip) 0 35 ≡ ok [])
    × (check_schedule lib (schedule MissedRunPolicy.skip) ≡ ok tt)
    × (should_start_run (schedule MissedRunPolicy.skip) true ≡ false)
unfolding missed_fire_times check_schedule should_start_run
missed_runs = (refl, refl, refl, refl, refl)

abbrev last_run : List ℕ
last_run = 30 ∷ []

missed_fire_times_lem_example :
    let s = schedule MissedRunPolicy.run_once in
    ((s.missed_run ≡ MissedRunPolicy.skip) × (last_run ≡ []))
    ⊎ ((s.missed_run ≡ MissedRunPolicy.run_all) × IsCaughtUp lib s 35 1000 0 last_run)
    ⊎ ((s.missed_run ≡ MissedRunPolicy.run_once)
        × (all_missed : List ℕ) × IsCaughtUp lib s 35 1000 0 all_missed
        × (last_run ≡ last_only all_missed))
unfolding missed_fire_times
missed_fire_times_lem_example =
    missed_fire_times_lem lib (schedule MissedRunPolicy.run_once) 0 35 last_run refl
