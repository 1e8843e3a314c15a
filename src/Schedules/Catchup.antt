-- ===== src/Schedules/Catchup.antt =====
-- Which runs are caught up.
use praxis_ai_agent_platform.Common.{
  ℕ, zero, suc, ◌≤◌, ◌<◌, ◌≡◌, refl, sym, ap, ◌∙◌, ◌⊎◌, inl, inr, some, List, [], ◌∷◌, arith, ltb,
  nat_eq, string_eq, Bool-cases, Option-cases, length, Result, ok, >>=-eq-ok, ok_injective,
}
use praxis_ai_agent_platform.Schedules.{
  Schedule, ScheduleError, MissedRunPolicy, TriggerLib, next_fire_time, missed_from, max_missed,
  last_only, missed_for, missed_fire_times,
}

-- Times that the trigger gives one after the other, the first after a given one, up to now.
unfoldable pub IsChain : TriggerLib → Schedule → ℕ → ℕ → List ℕ → Type 0
IsChain lib s now after [] = Unit
IsChain lib s now after (t ∷ ts) =
    (lib.get_next_fire_time s after ≡ some t) × (t ≤ now) × IsChain lib s now t ts

-- The last of the times, or the time they start after.
abbrev pub last_from : ℕ → List ℕ → ℕ
last_from t [] = t
last_from t (t' ∷ ts) = last_from t' ts

-- What the loop has found: a chain that is either cut off, or goes up to now.
abbrev pub IsCaughtUp : TriggerLib → Schedule → ℕ → ℕ → ℕ → List ℕ → Type 0
IsCaughtUp lib s now rounds after ts =
    IsChain lib s now after ts
    × ((length ts ≡ rounds)
        ⊎ ((length ts < rounds)
            × (t : ℕ) × (lib.get_next_fire_time s (last_from after ts) ≡ some t)
            × (now < t)))

next_fire_time-ok :
    (lib : TriggerLib) (s : Schedule) (after t : ℕ)
    → next_fire_time lib s after ≡ ok t
    → lib.get_next_fire_time s after ≡ some t
unfolding next_fire_time
next_fire_time-ok lib s after t h = elim (Option-cases (lib.get_next_fire_time s after)) [
  | inl never ↦ let clash = simp never at h in cc
  | inr (t', e) ↦
      let same : ◌≡◌ {A = Result ScheduleError ℕ} (ok t') (ok t) = simp e at h in
      let that : t' ≡ t = ok_injective same in e ∙ ap some that
]

missed_from-lem :
    (lib : TriggerLib) (s : Schedule) (now rounds after : ℕ) (ts : List ℕ)
    → missed_from lib s now rounds after ≡ ok ts
    → IsCaughtUp lib s now rounds after ts
unfolding missed_from IsChain
missed_from-lem lib s now zero after ts h =
    let same : [] ≡ ts = ok_injective h in simp (sym same) (tt, inl refl)
missed_from-lem lib s now (suc rounds) after ts h =
    let (t, fires, later) = >>=-eq-ok (next_fire_time lib s after) _ h in
    let gives = next_fire_time-ok lib s after t fires in
    elim (Bool-cases (ltb now t)) [
      | inl future ↦
          let same : [] ≡ ts = ok_injective (simp future at later) in
          simp (sym same) (tt, inr (omega arith, t, gives, ground (arith, future)))
      | inr past ↦
          let (rest, more, made) =
            >>=-eq-ok (missed_from lib s now rounds t) _ (simp past at later) in
          let same : t ∷ rest ≡ ts = ok_injective made in
          let (chain, ending) = missed_from-lem lib s now rounds t rest more in
          simp (sym same) (
            (gives, ground (arith, past), chain),
            elim ending [
              | inl cut ↦ inl (omega (arith, cut))
              | inr (shorter, t', e, over) ↦ inr (omega (arith, shorter), t', e, over)
            ],
          )
    ]

by_policy :
    (lib : TriggerLib) (s : Schedule) (since now : ℕ) (ts : List ℕ) (policy : MissedRunPolicy)
    → s.missed_run ≡ policy
    → missed_for policy (missed_from lib s now max_missed since) ≡ ok ts
    → ((s.missed_run ≡ MissedRunPolicy.skip) × (ts ≡ []))
      ⊎ ((s.missed_run ≡ MissedRunPolicy.run_all) × IsCaughtUp lib s now 1000 since ts)
      ⊎ ((s.missed_run ≡ MissedRunPolicy.run_once)
          × (all_missed : List ℕ) × IsCaughtUp lib s now 1000 since all_missed
          × (ts ≡ last_only all_missed))
by_policy lib s since now ts MissedRunPolicy.skip is h = inl (is, sym (ok_injective h))
by_policy lib s since now ts MissedRunPolicy.run_all is h =
    inr (inl (is, missed_from-lem lib s now max_missed since ts h))
by_policy lib s since now ts MissedRunPolicy.run_once is h =
    let (missed, found, made) = >>=-eq-ok (missed_from lib s now max_missed since) _ h in
    inr (
      inr (
        is,
        missed,
        missed_from-lem lib s now max_missed since missed found,
        sym (ok_injective made),
      ))

-- The runs that are caught up where no error is raised, by the policy: none; all the fire times that the trigger gives one
-- after the other from `since` on, up to now, or the first thousand of them if there are more; or the
-- last one of these.
pub missed_fire_times_lem :
    (lib : TriggerLib) (s : Schedule) (since now : ℕ) (ts : List ℕ)
    → missed_fire_times lib s since now ≡ ok ts
    → ((s.missed_run ≡ MissedRunPolicy.skip) × (ts ≡ []))
      ⊎ ((s.missed_run ≡ MissedRunPolicy.run_all) × IsCaughtUp lib s now 1000 since ts)
      ⊎ ((s.missed_run ≡ MissedRunPolicy.run_once)
          × (all_missed : List ℕ) × IsCaughtUp lib s now 1000 since all_missed
          × (ts ≡ last_only all_missed))
unfolding missed_fire_times
missed_fire_times_lem lib s since now ts h = by_policy lib s since now ts s.missed_run refl h
