-- ===== src/DeadLetter/Laws.antt =====
-- What stays true of the table: one open entry for a job, and an entry's count, history, state and
-- next retry agree.
use praxis_ai_agent_platform.Common.{
  ℕ, ◌≤◌, String, ◌≡◌, refl, ◌⊎◌, inl, inr, true, false, none, some, List, [], ◌∷◌, arith, ◌==◌,
  nat_eq, string_eq, Bool-cases, length, filter, any, length-filter-update_first, ok, and_left,
  and_right,
}
use praxis_ai_agent_platform.DeadLetter.{
  DeadLetterState, replayed, discarded, DeadLetterEntry, Table, Failure, is_open, is_open_for,
  first_entry, failed_again, recorded, find_open, record_failure, end_entry, set_state,
  mark_replayed, discard, Event, fails, replays, discards, kept, step, run,
}

-- At most one entry of each job is open.
pub record IsSingle (db : Table) : Type 0 where
  pub one : (tenant_id job_key : String) → length (filter (is_open_for tenant_id job_key) db) ≤ 1

one_or_none : (es : Table) → length es ≤ 1 → (es ≡ []) ⊎ ((e : DeadLetterEntry) × (es ≡ e ∷ []))
one_or_none [] h = inl refl
one_or_none (e ∷ []) h = inr (e, refl)
one_or_none (e ∷ e' ∷ es) h = absurd (omega (arith, h))

open_changes :
    (max_attempts now : ℕ) (f : Failure) (t k : String) (e : DeadLetterEntry)
    → is_open_for f.tenant_id f.job_key e ≡ true
    → is_open_for t k (failed_again max_attempts now f e) ≡ true
    → is_open_for t k e ≡ true
unfolding is_open_for failed_again
open_changes max_attempts now f t k e here there = ground arith

first_entry-clash :
    (now : ℕ) (id : String) (f : Failure) (t k : String)
    → is_open_for t k (first_entry now id f) ≡ true
    → (f.tenant_id ≡ t) × (f.job_key ≡ k)
unfolding is_open_for first_entry
first_entry-clash now id f t k here = (
  (string_eq.same_iff _ _).0 (and_left _ _ here),
  (string_eq.same_iff _ _).0 (and_left _ _ (and_right _ _ here)),
)

first_entry-IsSingle :
    (now : ℕ) (id : String) (f : Failure) (db : Table)
    → IsSingle db
    → filter (is_open_for f.tenant_id f.job_key) db ≡ []
    → IsSingle (first_entry now id f ∷ db)
first_entry-IsSingle now id f db single free = record {
  one = λ t k. elim (Bool-cases (is_open_for t k (first_entry now id f))) [
    | inr other ↦ rw other (single.one t k)
    | inl clash ↦
        let (tenant, key) = first_entry-clash now id f t k clash in
        let none_open : filter (is_open_for t k) db ≡ [] = rw (tenant, key) at free in
        rw (clash, none_open) (omega arith)
  ];
}

record_failure-IsSingle :
    (max_attempts now : ℕ) (id : String) (f : Failure) (db : Table)
    → IsSingle db
    → (r : DeadLetterEntry × Table) × (record_failure max_attempts now id f db ≡ ok r)
      × IsSingle r.1
unfolding record_failure find_open
record_failure-IsSingle max_attempts now id f db single =
    elim (one_or_none _ (single.one f.tenant_id f.job_key)) [
      | inl free ↦ (
        recorded max_attempts now id f db none,
        rw free,
        first_entry-IsSingle now id f db single free,
      )
      | inr (e, found) ↦ (
        recorded max_attempts now id f db (some e),
        rw found,
        record {
          one = λ t k.
              let fewer =
                length-filter-update_first (is_open_for f.tenant_id f.job_key) (is_open_for t k)
                  (failed_again max_attempts now f) db (open_changes max_attempts now f t k) in
              omega (arith, fewer, single.one t k);
        },
      )
    ]

closed_changes :
    (state : DeadLetterState) (t k : String) (e : DeadLetterEntry)
    → is_open state ≡ false
    → is_open_for t k (end_entry state e) ≡ true
    → is_open_for t k e ≡ true
unfolding is_open_for
closed_changes state t k e closed there = ground arith

set_state-IsSingle :
    (id : String) (state : DeadLetterState) (db : Table)
    → is_open state ≡ false
    → IsSingle db
    → IsSingle (kept db (set_state id state db))
unfolding set_state
set_state-IsSingle id state db closed single =
    elim (Bool-cases (any (λ (e : DeadLetterEntry). e.id == id) db)) [
      | inr missing ↦ rw missing single
      | inl found ↦ rw found record {
        one = λ t k.
            let fewer =
              length-filter-update_first (λ (e : DeadLetterEntry). e.id == id) (is_open_for t k)
                (end_entry state) db (λ e here there. closed_changes state t k e closed there) in
            omega (arith, fewer, single.one t k);
      }
    ]

step-IsSingle :
    (max_attempts : ℕ) (e : Event) (db : Table) → IsSingle db → IsSingle (step max_attempts e db)
unfolding step mark_replayed discard
step-IsSingle max_attempts (fails now id f) db single =
    let (r, done, after) = record_failure-IsSingle max_attempts now id f db single in rw done after
step-IsSingle max_attempts (replays id) db single = set_state-IsSingle id replayed db refl single
step-IsSingle max_attempts (discards id) db single = set_state-IsSingle id discarded db refl single

run-IsSingle_from :
    (max_attempts : ℕ) (es : List Event) (db : Table)
    → IsSingle db
    → IsSingle (run max_attempts es db)
unfolding run
run-IsSingle_from max_attempts [] db single = single
run-IsSingle_from max_attempts (e ∷ es) db single =
    run-IsSingle_from max_attempts es (step max_attempts e db)
      (step-IsSingle max_attempts e db single)

-- Whatever calls are made of a queue that starts empty, one after the other with no two that overlap,
-- no job has two open entries, and no failure is ever turned away: record_failure finds one entry or
-- none, and returns.
pub run-IsSingle :
    (max_attempts : ℕ) (es : List Event)
    → let db = run max_attempts es [] in
      IsSingle db
      × ((now : ℕ) (id : String) (f : Failure)
          → (r : DeadLetterEntry × Table) × (record_failure max_attempts now id f db ≡ ok r))
run-IsSingle max_attempts es =
    let single = run-IsSingle_from max_attempts es [] (record { one = λ t k. omega arith }) in
    (
      single,
      (λ now id f.
          let (r, done, after) =
            record_failure-IsSingle max_attempts now id f (run max_attempts es []) single in
          (r, done)),
    )
