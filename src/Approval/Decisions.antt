-- ===== src/Approval/Decisions.antt =====
-- The decision on a pending approval.
use praxis_ai_agent_platform.Common.{
  ℕ, ◌≤◌, ◌<◌, String, ◌≡◌, refl, sym, ap, ◌∙◌, inl, inr, Bool, true, false, Option, none, some,
  List, [], ◌∷◌, arith, leb, nat_eq, string_eq, Bool-cases, Option-cases, is_some, map_option,
  find_first, update_first, find_first-update_first, Result, ok, err, ok_injective,
}
use praxis_ai_agent_platform.Approval.{
  ApprovalRecord, Table, ApprovalError, missing_record, expired, is_decidable, decide_record,
  decide_approval,
}

module _ (task_id : String) (step_index : ℕ) (tenant_id : String) where
  decide_record-decidable :
      (approved : Bool) (user_id : Option String) (now : ℕ) (r : ApprovalRecord)
      → is_decidable task_id step_index tenant_id (decide_record approved user_id now r)
        ≡ is_decidable task_id step_index tenant_id r
  unfolding is_decidable
  decide_record-decidable approved user_id now r = refl

  -- What decide_approval does with the newest row of the step in the principal's tenant: none is an
  -- error; one that is decided is returned, and the table kept; one whose window has closed is an
  -- error; any other takes the decision, the approver and the time, in the answer and in the table.
  pub decide_approval_cases :
      (approved : Bool) (user_id : Option String) (now : ℕ) (db : Table)
      → let p = is_decidable task_id step_index tenant_id in
        let answer = decide_approval task_id step_index approved tenant_id user_id now db in
        (find_first p db ≡ none → answer ≡ err missing_record)
        × ((r : ApprovalRecord)
            → find_first p db ≡ some r
            → (is_some r.decided_at ≡ true → answer ≡ ok (r, db))
              × (is_some r.decided_at ≡ false
                  → r.expires_at ≤ now
                  → answer ≡ err (expired r.expires_at))
              × (is_some r.decided_at ≡ false
                  → now < r.expires_at
                  → (t : Table) × (answer ≡ ok (decide_record approved user_id now r, t))
                    × (find_first p t ≡ some (decide_record approved user_id now r))))
  unfolding decide_approval
  decide_approval_cases approved user_id now db =
      let p = is_decidable task_id step_index tenant_id in
      let stored =
        find_first-update_first p (decide_record approved user_id now) db
          (decide_record-decidable approved user_id now) in
      (
        (λ gone. rw gone),
        (λ r found. (
          (λ decided. rw (found, decided)),
          (λ undecided late. rw (found, undecided) (ground arith)),
          (λ undecided early.
              let soon : leb r.expires_at now ≡ false = ground arith in
              (
                update_first p (decide_record approved user_id now) db,
                rw (found, undecided, soon),
                stored ∙ ap (map_option (decide_record approved user_id now)) found,
              )),
        )),
      )

  decided_stays :
      (approved : Bool) (user_id : Option String) (now : ℕ) (db t : Table) (r : ApprovalRecord)
      → decide_approval task_id step_index approved tenant_id user_id now db ≡ ok (r, t)
      → (find_first (is_decidable task_id step_index tenant_id) t ≡ some r)
        × (is_some r.decided_at ≡ true)
  unfolding decide_approval
  decided_stays approved user_id now db t r done =
      let p = is_decidable task_id step_index tenant_id in
      let f = decide_record approved user_id now in
      let stored = find_first-update_first p f db (decide_record-decidable approved user_id now) in
      elim (Option-cases (find_first p db)) [
        | inl gone ↦
            let no : ◌≡◌ {A = Result ApprovalError (ApprovalRecord × Table)} (err missing_record)
                (ok (r, t)) =
              rw gone at done in
            cc
        | inr (q, found) ↦ elim (Bool-cases (is_some q.decided_at)) [
          | inl decided ↦
              let same : ◌≡◌ {A = ApprovalRecord × Table} (q, db) (r, t) =
                ok_injective (rw (found, decided) at done) in
              let row : q ≡ r = ap (λ (v : ApprovalRecord × Table). v.0) same in
              let kept : db ≡ t = ap (λ (v : ApprovalRecord × Table). v.1) same in
              (
                ap (find_first p) (sym kept) ∙ found ∙ ap some row,
                ap (λ (v : ApprovalRecord). is_some v.decided_at) (sym row) ∙ decided,
              )
          | inr undecided ↦ elim (Bool-cases (leb q.expires_at now)) [
            | inl late ↦
                let no : ◌≡◌ {A = Result ApprovalError (ApprovalRecord × Table)}
                    (err (expired q.expires_at)) (ok (r, t)) =
                  rw (found, undecided, late) at done in
                cc
            | inr early ↦
                let same : ◌≡◌ {A = ApprovalRecord × Table} (f q, update_first p f db) (r, t) =
                  ok_injective (rw (found, undecided, early) at done) in
                let row : f q ≡ r = ap (λ (v : ApprovalRecord × Table). v.0) same in
                let kept : update_first p f db ≡ t =
                  ap (λ (v : ApprovalRecord × Table). v.1) same in
                (
                  ap (find_first p) (sym kept) ∙ stored ∙ ap (map_option f) found ∙ ap some row,
                  ap (λ (v : ApprovalRecord). is_some v.decided_at) (sym row),
                )
          ]
        ]
      ]

-- A later decision, on any step of any tenant; it leaves the table, also where it raises.
pub record Decision : Type 0 where
  pub task_id : String
  pub step_index : ℕ
  pub tenant_id : String
  pub approved : Bool
  pub user_id : Option String
  pub now : ℕ

abbrev pub table_of : Table → Result ApprovalError (ApprovalRecord × Table) → Table
table_of db (ok answer) = answer.1
table_of db (err e) = db

unfoldable pub decide_all : List Decision → Table → Table
unfolding decide_approval
decide_all [] db = db
decide_all (d ∷ ds) db =
    decide_all ds (
      table_of db
        (decide_approval d.task_id d.step_index d.approved d.tenant_id d.user_id d.now db))

-- A row that is decided stays the first of its step where the first row of some step is decided.
first_stays :
    (p q : ApprovalRecord → Bool) (f : ApprovalRecord → ApprovalRecord) (db : Table)
    (r r' : ApprovalRecord)
    → ((x : ApprovalRecord) → p (f x) ≡ p x)
    → find_first p db ≡ some r
    → find_first q db ≡ some r'
    → is_some r.decided_at ≡ true
    → is_some r'.decided_at ≡ false
    → find_first p (update_first q f db) ≡ some r
first_stays p q f [] r r' same found found' decided undecided = cc
first_stays p q f (x ∷ db) r r' same found found' decided undecided = elim (Bool-cases (q x)) [
  | inl hit ↦
      let this : x ≡ r' = (let both : some x ≡ some r' = rw hit at found' in cc) in
      elim (Bool-cases (p x)) [
        | inl met ↦ let that : x ≡ r = (let both : some x ≡ some r = rw met at found in cc) in cc
        | inr apart ↦
            let rest : find_first p db ≡ some r = rw apart at found in
            let moved : p (f x) ≡ false = same x ∙ apart in rw (hit, moved) rest
      ]
  | inr miss ↦
      let next : find_first q db ≡ some r' = rw miss at found' in
      elim (Bool-cases (p x)) [
        | inl met ↦ let that : some x ≡ some r = rw met at found in rw (miss, met) that
        | inr apart ↦
            let rest : find_first p db ≡ some r = rw apart at found in
            rw (miss, apart) (first_stays p q f db r r' same rest next decided undecided)
      ]
]

module _ (task_id : String) (step_index : ℕ) (tenant_id : String) where
  decision_keeps :
      (d : Decision) (db : Table) (r : ApprovalRecord)
      → find_first (is_decidable task_id step_index tenant_id) db ≡ some r
      → is_some r.decided_at ≡ true
      → find_first (is_decidable task_id step_index tenant_id) (
          table_of db
            (decide_approval d.task_id d.step_index d.approved d.tenant_id d.user_id d.now db))
        ≡ some r
  unfolding decide_approval
  decision_keeps d db r found decided =
      let q = is_decidable d.task_id d.step_index d.tenant_id in
      elim (Option-cases (find_first q db)) [
        | inl gone ↦ rw gone found
        | inr (r', found') ↦ elim (Bool-cases (is_some r'.decided_at)) [
          | inl over ↦ rw (found', over) found
          | inr undecided ↦ elim (Bool-cases (leb r'.expires_at d.now)) [
            | inl late ↦ rw (found', undecided, late) found
            | inr early ↦
                rw (found', undecided, early)
                  (first_stays (is_decidable task_id step_index tenant_id) q
                    (decide_record d.approved d.user_id d.now) db r r'
                    (decide_record-decidable task_id step_index tenant_id d.approved d.user_id
                      d.now)
                    found found' decided undecided)
          ]
        ]
      ]

  decisions_keep :
      (ds : List Decision) (db : Table) (r : ApprovalRecord)
      → find_first (is_decidable task_id step_index tenant_id) db ≡ some r
      → is_some r.decided_at ≡ true
      → find_first (is_decidable task_id step_index tenant_id) (decide_all ds db) ≡ some r
  unfolding decide_all
  decisions_keep [] db r found decided = found
  decisions_keep (d ∷ ds) db r found decided =
      decisions_keep ds _ r (decision_keeps d db r found decided) decided

  -- A decision is final as long as no new row is added for the step: after one has been returned, and
  -- after any later decisions on any steps, in any tenants, by any users and at any times, a decision
  -- on the step in that tenant returns the same row and leaves the table as it is.
  pub decision_is_final :
      (approved approved' : Bool) (user_id user_id' : Option String) (now now' : ℕ) (db t : Table)
      (r : ApprovalRecord) (ds : List Decision)
      → decide_approval task_id step_index approved tenant_id user_id now db ≡ ok (r, t)
      → decide_approval task_id step_index approved' tenant_id user_id' now' (decide_all ds t)
        ≡ ok (r, decide_all ds t)
  decision_is_final approved approved' user_id user_id' now now' db t r ds done =
      let (found, decided) =
        decided_stays task_id step_index tenant_id approved user_id now db t r done in
      let still = decisions_keep ds t r found decided in
      ((decide_approval_cases task_id step_index tenant_id approved' user_id' now'
            (decide_all ds t)).1
          r still).0
        decided
