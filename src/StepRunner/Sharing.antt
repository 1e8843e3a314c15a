-- ===== src/StepRunner/Sharing.antt =====
-- The future that concurrent steps with the same call wait for: when it is resolved.
use praxis_ai_agent_platform.Common.{
  ℕ, String, ◌≡◌, refl, ap, ◌∙◌, ◌⊎◌, inl, inr, Bool, true, false, not, ◌&&◌, Option, none, some,
  [], ◌∷◌, ◌++◌, eq_iff, ◌==◌, nat_eq, string_eq, Bool-cases, contains, contains-filter, Json,
  lookup, insert, lookup-insert_self, Result, ok, err, Outcome, returned, raised, cancelled,
}
use praxis_ai_agent_platform.Modes.{Skill}
use praxis_ai_agent_platform.Checklist.{Reason}
use praxis_ai_agent_platform.Outputs.{OutputValidationError, validate_skill_output}
use praxis_ai_agent_platform.StepRunner.{
  Args, World, Platform, TaskContext, Turn, Escape, Ran, commit_task, update_checklist, TaskRow,
}
use praxis_ai_agent_platform.Approval.{TaskRow}
use praxis_ai_agent_platform.StepRunner.Running.{
  settle_in_flight, record_skill_used, complete, fail_step, store_result, after_validation,
  after_run, execute, stored, started,
}

-- What two worlds share of the calls in flight.
abbrev SameCalls : World → World → Type 0
SameCalls w w' = (w.in_flight ≡ w'.in_flight) × (w.settled ≡ w'.settled) × (w.cache ≡ w'.cache)

commit_task-calls : (task : Option (TaskRow Args)) (w : World) → SameCalls (commit_task task w) w
commit_task-calls none w = (refl, refl, refl)
commit_task-calls (some task) w = (refl, refl, refl)

update_checklist-calls :
    (index : ℕ) (status : String) (reason : Option Reason) (w : World)
    → SameCalls (update_checklist index status reason w) w
unfolding update_checklist
update_checklist-calls index status reason w = commit_task-calls _ w

record_skill_used-calls :
    (context : TaskContext) (name : String) (w : World)
    → SameCalls (record_skill_used context name w) w
record_skill_used-calls context name w = elim (Bool-cases context.is_graph_stored) [
  | inl stored ↦ simp stored (refl, refl, refl)
  | inr absent ↦ simp absent (refl, refl, refl)
]

-- The future of a key, once it was registered: gone from the calls in flight, and resolved with a
-- reply, unless it was done before.
abbrev pub IsSettled : String → Result String Json → World → World → Type 0
IsSettled key reply before after =
    (contains after.in_flight key ≡ false)
    × (contains before.in_flight key ≡ true
        → contains before.done key ≡ false
        → after.settled ≡ before.settled ++ (key, reply) ∷ [])
    × (contains before.done key ≡ true → after.settled ≡ before.settled)

settle-IsSettled :
    (key : String) (reply : Result String Json) (w : World)
    → IsSettled key reply w (settle_in_flight (some key) reply w)
unfolding settle_in_flight
settle-IsSettled key reply w = elim (Bool-cases (contains w.in_flight key)) [
  | inl pending ↦ simp pending (
    contains-filter (λ k. not (k == key)) w.in_flight key
        ∙ ap (λ (b : Bool). not b && contains w.in_flight key) ((eq_iff key key).1 refl),
    (λ p free. simp free refl),
    (λ over. simp over refl),
  )
  | inr free ↦ simp free (refl, (λ p q. cc), (λ q. refl))
]

module _ (py : Platform) (context : TaskContext) (turn : Turn) (index : ℕ) where
  moved :
      (key : String) (reply : Result String Json) (before settled after : World)
      → SameCalls after settled
      → IsSettled key reply before settled
      → IsSettled key reply before after
  moved key reply before settled after same h = simp (same.0, same.1) h

  complete-calls :
      (skill : Skill) (v : Json) (w : World)
      → SameCalls (complete py context turn index skill v w).world w
  unfolding complete
  complete-calls skill v w =
      let outer =
        update_checklist-calls index "completed" none (record_skill_used context skill.name w) in
      let inner = record_skill_used-calls context skill.name w in
      (outer.0 ∙ inner.0, outer.1 ∙ inner.1, outer.2 ∙ inner.2)

  fail_step-calls :
      (text : String) (error : Reason) (w : World)
      → SameCalls (fail_step py context turn index text error w).world w
  unfolding fail_step
  fail_step-calls text error w = update_checklist-calls index "failed" _ w

  -- What made an executed call fail: the skill, or its output.
  abbrev pub FailsWith : Skill → String → Type 0
  FailsWith skill error =
      (turn.output ≡ raised error)
      ⊎ ((v : Json) × (e : OutputValidationError) × (turn.output ≡ returned v)
          × (validate_skill_output skill.name skill.outputs v ≡ err e)
          × (error ≡ py.error_text e))

  -- How an executed call ends: cancelled; with a valid result, which is cached, and the future resolved
  -- with it, unless the cache raises; or failed, with the future resolved with the error.
  abbrev pub Ends : Skill → String → World → World → Type 0
  Ends skill key before after =
      ((turn.output ≡ cancelled) × (after ≡ before))
      ⊎ ((v : Json) × (v' : Json) × (turn.output ≡ returned v)
          × (validate_skill_output skill.name skill.outputs v ≡ ok v')
          × (((e : Escape) × (turn.store_error ≡ some e) × (after ≡ before))
              ⊎ ((turn.store_error ≡ none)
                  × (lookup key after.cache ≡ some v')
                  × IsSettled key (ok v') before after)))
      ⊎ ((error : String) × FailsWith skill error
          × (after.cache ≡ before.cache)
          × IsSettled key (err error) before after)

  settled_cache :
      (key : String) (reply : Result String Json) (w : World)
      → (settle_in_flight (some key) reply w).cache ≡ w.cache
  unfolding settle_in_flight
  settled_cache key reply w = elim (Bool-cases (contains w.in_flight key)) [
    | inl pending ↦ simp pending refl
    | inr free ↦ simp free refl
  ]

  failing-Ends :
      (skill : Skill) (key text : String) (error : Reason) (before : World)
      → FailsWith skill text
      → Ends skill key before
          (fail_step py context turn index text error
            (settle_in_flight (some key) (err text) before)).world
  failing-Ends skill key text error before why =
      let settled = settle_in_flight (some key) (err text) before in
      let same = fail_step-calls text error settled in
      inr (
        inr (
          text,
          why,
          same.2 ∙ settled_cache key (err text) before,
          moved key (err text) before settled
              (fail_step py context turn index text error settled).world same
              (settle-IsSettled key (err text) before),
        ))

  stored-Ends :
      (skill : Skill) (key : String) (v v' : Json) (error : Option Escape) (before : World)
      → turn.output ≡ returned v
      → validate_skill_output skill.name skill.outputs v ≡ ok v'
      → turn.store_error ≡ error
      → Ends skill key before (stored py context turn index skill (some key) v' before error).world
  unfolding store_result
  stored-Ends skill key v v' (some e) before out valid is =
      inr (inl (v, v', out, valid, inl (e, is, refl)))
  stored-Ends skill key v v' none before out valid is =
      let cached = record before { cache = insert key v' before.cache } in
      let settled = settle_in_flight (some key) (ok v') cached in
      let same = complete-calls skill v' settled in
      let found : lookup key (complete py context turn index skill v' settled).world.cache
          ≡ some v' =
        ap (lookup key) (same.2 ∙ settled_cache key (ok v') cached)
        ∙ lookup-insert_self key v' before.cache in
      let resolved =
        moved key (ok v') before settled (complete py context turn index skill v' settled).world
          same (settle-IsSettled key (ok v') cached) in
      inr (inl (v, v', out, valid, inr (is, found, resolved)))

  validated-Ends :
      (skill : Skill) (key : String) (v : Json) (r : Result OutputValidationError Json)
      (before : World)
      → turn.output ≡ returned v
      → validate_skill_output skill.name skill.outputs v ≡ r
      → Ends skill key before
          (after_validation py context turn index skill (some key) r before).world
  validated-Ends skill key v (err e) before out valid =
      failing-Ends skill key (py.error_text e) _ before (inr (v, e, out, valid, refl))
  validated-Ends skill key v (ok v') before out valid =
      stored-Ends skill key v v' turn.store_error before out valid refl

  after_run-Ends :
      (skill : Skill) (key : String) (out : Outcome String Json) (before : World)
      → turn.output ≡ out
      → Ends skill key before (after_run py context turn index skill (some key) out before).world
  after_run-Ends skill key (returned v) before is = validated-Ends skill key v _ before is refl
  after_run-Ends skill key (raised error) before is = failing-Ends skill key error _ before (inl is)
  after_run-Ends skill key cancelled before is = inl (is, refl)

  -- A started call, after the update of the checklist.
  abbrev pub Concludes : Skill → Args → String → World → Ran → Type 0
  Concludes skill args key w ran =
      ((e : Escape) × (turn.start_error ≡ some e) × (ran.called ≡ none) × (ran.world ≡ w))
      ⊎ ((turn.start_error ≡ none)
          × (ran.called ≡ some (skill, args))
          × Ends skill key (turn.meanwhile (update_checklist index "in_progress" none w)) ran.world)

  started-Concludes :
      (skill : Skill) (args : Args) (key : String) (w : World) (error : Option Escape)
      → turn.start_error ≡ error
      → Concludes skill args key w (started py context turn index skill args (some key) w error)
  started-Concludes skill args key w (some e) is = inl (e, is, refl, refl)
  started-Concludes skill args key w none is =
      inr (is, refl, after_run-Ends skill key turn.output _ refl)

  -- Whatever the skill does, and whatever other steps have done meanwhile, the future of a shared call
  -- that was started is taken out of the calls in flight, and resolved if it was still there: with the valid result, which is
  -- then cached, or with the error of the skill or of its output, and then nothing is cached. It is
  -- taken out, but not resolved, if it was done already, as a step that waited for it was cancelled.
  -- Three ends leave the calls in flight as they were, with the future pending: the skill is
  -- cancelled, or the update of the checklist before it or the write to the cache after it raises.
  pub shared_call_settles :
      (skill : Skill) (args : Args) (key : String) (w : World)
      → Concludes skill args key w (execute py context turn index skill args (some key) w)
  unfolding execute
  shared_call_settles skill args key w = started-Concludes skill args key w turn.start_error refl
