-- ===== src/Approval/Laws.antt =====
-- The pending row of an action, and the check before the action runs.
use praxis_ai_agent_platform.Common.{
  ℕ, String, ◌≡◌, refl, sym, ap, ◌∙◌, inl, inr, Bool, true, false, Option, none, some, ◌∷◌, eqb_iff,
  ◌==◌, nat_eq, string_eq, Bool-cases, Option-cases, find_first, Result, ok, err, ok_injective,
}
use praxis_ai_agent_platform.Approval.{
  TaskRow, Digests, ApprovalRequest, ApprovalRecord, Table, ApprovalError, binding, has_key,
  is_for_step, hash_of, key_of, pending, create_pending_approval, bound_record,
  verify_approval_binding, await_approval,
}

module _ {Args : Type 0} (h : Digests Args) where
  find_first-create :
      (request : ApprovalRequest Args) (tenant_id : String) (ttl now : ℕ) (db : Table)
      → find_first
          (has_key (key_of h request))
          (create_pending_approval h request tenant_id ttl now db).1
        ≡ some (create_pending_approval h request tenant_id ttl now db).0
  unfolding create_pending_approval pending has_key
  find_first-create request tenant_id ttl now db =
      elim (Option-cases (find_first (has_key (key_of h request)) db)) [
        | inr (r, e) ↦ rw (e, e)
        | inl e ↦ rw (e, (string_eq.same_iff (key_of h request) (key_of h request)).1 refl)
      ]

  -- The pending row of an action is made once: asking for it again, at any time and with any time
  -- to live, gives the same row and leaves the table as it is.
  pub create_pending_approval-once :
      (request : ApprovalRequest Args) (tenant_id tenant_id' : String) (ttl ttl' now now' : ℕ)
      (db : Table)
      → let first = create_pending_approval h request tenant_id ttl now db in
        create_pending_approval h request tenant_id' ttl' now' first.1 ≡ first
  unfolding create_pending_approval
  create_pending_approval-once request tenant_id tenant_id' ttl ttl' now now' db =
      rw (find_first-create request tenant_id ttl now db)

  verified :
      (actual : String) (o : Option ApprovalRecord) (r : ApprovalRecord)
      → bound_record h actual o ≡ ok r
      → (o ≡ some r) × (r.action_hash ≡ actual)
  verified actual none r e = cc
  verified actual (some r') r e = elim (Bool-cases (r'.action_hash == actual)) [
    | inr apart ↦
        let no : ◌≡◌ {A = Result ApprovalError ApprovalRecord} (err (binding r'.action_hash actual))
            (ok r) =
          rw apart at e in
        cc
    | inl matches ↦
        let same : r' ≡ r = ok_injective (rw matches at e) in
        (
          ap some same,
          ap (λ (v : ApprovalRecord). v.action_hash) (sym same)
              ∙ (string_eq.same_iff _ _).0 matches,
        )
  ]

  -- If the digest of an action tells actions apart, a check that passes has found that the newest row
  -- of the step, when it was made for a request, was made for this very skill and these arguments.
  pub verify_approval_binding-binds :
      (request : ApprovalRequest Args) (tenant_id : String) (ttl now : ℕ) (skill_name : String)
      (args : Args) (db : Table) (r : ApprovalRecord)
      → ((s t : String) (a b : Args)
          → h.compute_action_hash s a ≡ h.compute_action_hash t b
          → (s ≡ t) × (a ≡ b))
      → find_first (is_for_step request.task_id request.step_index) db
        ≡ some (pending h request tenant_id ttl now)
      → verify_approval_binding h request.task_id request.step_index skill_name args db ≡ ok r
      → (request.skill_name ≡ skill_name) × (request.args ≡ args)
  unfolding verify_approval_binding pending
  verify_approval_binding-binds request tenant_id ttl now skill_name args db r apart newest passes =
      let (found, same) = verified (h.compute_action_hash skill_name args) _ r passes in
      let that : some (pending h request tenant_id ttl now) ≡ some r = sym newest ∙ found in
      let row : pending h request tenant_id ttl now ≡ r = cc in
      apart request.skill_name skill_name request.args args
        (ap (λ (v : ApprovalRecord). v.action_hash) row ∙ same)

  find_first-new :
      (request : ApprovalRequest Args) (r : ApprovalRecord) (db : Table)
      → r.task_id ≡ request.task_id
      → r.step_index ≡ request.step_index
      → find_first (is_for_step request.task_id request.step_index) (r ∷ db) ≡ some r
  unfolding is_for_step
  find_first-new request r db task step = rw (
    (string_eq.same_iff r.task_id request.task_id).1 task,
    (eqb_iff r.step_index request.step_index).1 step,
  )

  -- A step that runs again after a human has decided passes its check, whatever was decided about
  -- and whatever stands in the table, if its arguments are now such that no row has their key: the
  -- row that the run itself has just added, which nobody has decided, is the one it is checked
  -- against.
  pub drifted_step_passes :
      (request : ApprovalRequest Args) (tenant_id : String) (ttl now : ℕ) (db : Table)
      (task : Option (TaskRow Args))
      → find_first (has_key (key_of h request)) db ≡ none
      → let run = await_approval h request tenant_id ttl now true db task in
        (run.answer ≡ ok true)
        × (find_first (is_for_step request.task_id request.step_index) run.table
            ≡ some (pending h request tenant_id ttl now))
        × ((pending h request tenant_id ttl now).decided_at ≡ none)
  unfolding await_approval create_pending_approval verify_approval_binding pending
  drifted_step_passes request tenant_id ttl now db task fresh =
      let new = pending h request tenant_id ttl now in
      let newest = find_first-new request new db refl refl in
      rw (fresh, newest, (string_eq.same_iff (hash_of h request) (hash_of h request)).1 refl)
        (refl, refl, refl)

  -- A step whose arguments are still those of the newest row of the step passes when a human said
  -- yes, and does not when a human said no; the table is unchanged.
  pub steady_step_follows_decision :
      (request : ApprovalRequest Args) (tenant_id : String) (ttl now : ℕ) (decision : Bool)
      (db : Table) (task : Option (TaskRow Args)) (r : ApprovalRecord)
      → find_first (has_key (key_of h request)) db ≡ some r
      → find_first (is_for_step request.task_id request.step_index) db ≡ some r
      → r.action_hash ≡ hash_of h request
      → let run = await_approval h request tenant_id ttl now decision db task in
        (run.answer ≡ ok decision) × (run.table ≡ db)
  unfolding await_approval create_pending_approval verify_approval_binding
  steady_step_follows_decision request tenant_id ttl now false db task r has newest same =
      rw has (refl, refl)
  steady_step_follows_decision request tenant_id ttl now true db task r has newest same =
      rw (has, newest, (string_eq.same_iff r.action_hash (hash_of h request)).1 same) (refl, refl)
