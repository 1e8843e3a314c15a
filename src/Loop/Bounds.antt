-- ===== src/Loop/Bounds.antt =====
-- What one step does, and why it stops.
use praxis_ai_agent_platform.Common.{
  ap, ◌⊎◌, Json, ℕ, String, ◌≡◌, refl, inl, inr, Bool, true, false, Option, none, some, List, [],
  ◌∷◌, ◌++◌, nat_eq, string_eq, Bool-cases, length, ℤ, lookup, Result, ok, err,
}
use praxis_ai_agent_platform.Contract.{TaskContract, is_expired}
use praxis_ai_agent_platform.Budget.{Ledger, BudgetExhaustedError, check_deadline}
use praxis_ai_agent_platform.Loop.{
  StopReason, ActionKind, Action, Observation, Iteration, Message, exhausted, policy_failed,
  Failure, budget, other, interrupted, Halt, exhausted_by, cut_off, Escape, misquoted,
  was_interrupted, Turn, Conversions, AgentLoop, Surroundings,
}
use praxis_ai_agent_platform.Loop.Acting.{act}
use praxis_ai_agent_platform.Loop.Running.{
  LoopState, Stepped, stepped, escaped, cited_of, cite, finish_with, observe, observed, take_action,
  decided, within_deadline, step,
}

-- The reasons that `run` gives, not a step.
abbrev pub is_bound : StopReason → Bool
is_bound StopReason.goal_reached = false
is_bound StopReason.max_iterations = true
is_bound StopReason.budget_exhausted = false
is_bound StopReason.deadline_exceeded = false
is_bound StopReason.stalled = true
is_bound StopReason.cancelled = false
is_bound StopReason.failed = false

module _ (py : Conversions) where
  -- the digests of an iteration
  abbrev pub print : Iteration → String × String
  print i = (py.action_digest i.action, py.observation_digest i.observation)

  -- The evidence that an action cites cannot be read.
  abbrev pub Uncitable : Action → Type 0
  Uncitable action = cite py (cited_of py (lookup "evidence" action.args)) ≡ none

  module _ (loop : AgentLoop) (contract : TaskContract) (tracker : ℕ) where
    -- What exhausts a budget in a turn, after what was seen before: the clock, the policy, the action.
    abbrev pub Exhausts : Turn → List Iteration → BudgetExhaustedError → Type 0
    Exhausts turn seen e =
        ((ledger : Ledger) × (check_deadline turn.now ledger tracker ≡ err e))
        ⊎ (turn.decide seen ≡ err (budget e))
        ⊎ ((action : Action) × (around : Surroundings) × (turn.decide seen ≡ ok action)
            × ((act py loop contract action.kind turn action tracker around).reply
                ≡ err (exhausted_by e)))

    -- What stands behind a reason that a step gives, with the answer, the evidence and the errors.
    abbrev pub Why :
        Turn → List Iteration → Option Json → List ℤ → List Message → StopReason → Type 0
    Why turn seen answer evidence errors StopReason.goal_reached =
        (action : Action) × (turn.decide seen ≡ ok action)
        × (action.kind ≡ ActionKind.finish)
        × (answer ≡ lookup "answer" action.args)
        × (cite py (cited_of py (lookup "evidence" action.args)) ≡ some evidence)
    Why turn seen answer evidence errors StopReason.cancelled = turn.is_cancelled ≡ true
    Why turn seen answer evidence errors StopReason.deadline_exceeded =
        is_expired turn.now contract ≡ true
    Why turn seen answer evidence errors StopReason.budget_exhausted =
        (e : BudgetExhaustedError) × (before : List Message) × (errors ≡ before ++ exhausted e ∷ [])
        × Exhausts turn seen e
    Why turn seen answer evidence errors StopReason.failed =
        (error_type : String) × (error : String) × (before : List Message) × (errors
          ≡ before ++ policy_failed error ∷ [])
        × (turn.decide seen ≡ err (other error_type error))
    Why turn seen answer evidence errors StopReason.max_iterations = Unit
    Why turn seen answer evidence errors StopReason.stalled = Unit

    -- What stands behind an exception: a final action with bad citations, or a cancelled policy or
    -- action.
    abbrev pub Breaks : Turn → List Iteration → Escape → Type 0
    Breaks turn seen misquoted =
        (action : Action) × (turn.decide seen ≡ ok action)
        × (action.kind ≡ ActionKind.finish)
        × Uncitable action
    Breaks turn seen was_interrupted =
        (turn.decide seen ≡ err interrupted)
        ⊎ ((action : Action) × (around : Surroundings) × (turn.decide seen ≡ ok action)
            × ((act py loop contract action.kind turn action tracker around).reply ≡ err cut_off))

    -- What one step makes of a state.
    pub data Progress (turn : Turn) (s : LoopState) : Stepped → Type 0 where
      stops :
          {s' : LoopState} {around : Surroundings} (reason : StopReason)
          → is_bound reason ≡ false
          → s'.stop_reason ≡ some reason
          → s'.iterations ≡ s.iterations
          → s'.fingerprints ≡ s.fingerprints
          → Why turn s.iterations s'.answer s'.evidence s'.errors reason
          → Progress turn s (stepped s' around)
      acts :
          {s' : LoopState} {around : Surroundings} (i : Iteration)
          → i.index ≡ length s.iterations
          → s'.stop_reason ≡ s.stop_reason
          → s'.iterations ≡ s.iterations ++ i ∷ []
          → s'.fingerprints ≡ s.fingerprints ++ print i ∷ []
          → Progress turn s (stepped s' around)
      escapes :
          {around : Surroundings} (e : Escape)
          → Breaks turn s.iterations e
          → Progress turn s (escaped e around)

    observe-Progress :
        (turn : Turn) (action : Action) (reply : Result Halt Observation)
        (before around : Surroundings) (s : LoopState)
        → turn.decide s.iterations ≡ ok action
        → (act py loop contract action.kind turn action tracker before).reply ≡ reply
        → Progress turn s (observe py action reply around s)
    observe-Progress turn action (ok o) before around s chosen is =
        acts (record { index = length s.iterations; action = action; observation = o }) refl refl
          refl refl
    observe-Progress turn action (err (exhausted_by e)) before around s chosen is =
        stops StopReason.budget_exhausted refl refl refl refl
          (e, s.errors, refl, inr (inr (action, before, chosen, is)))
    observe-Progress turn action (err cut_off) before around s chosen is =
        escapes was_interrupted (inr (action, before, chosen, is))

    finish_with-Progress :
        (turn : Turn) (action : Action) (o : Option (List ℤ)) (s : LoopState)
        (around : Surroundings)
        → turn.decide s.iterations ≡ ok action
        → action.kind ≡ ActionKind.finish
        → cite py (cited_of py (lookup "evidence" action.args)) ≡ o
        → Progress turn s (finish_with action o s around)
    finish_with-Progress turn action none s around chosen final e =
        escapes misquoted (action, chosen, final, e)
    finish_with-Progress turn action (some evidence) s around chosen final e =
        stops StopReason.goal_reached refl refl refl refl (action, chosen, final, refl, e)

    acted-Progress :
        (kind : ActionKind) (turn : Turn) (action : Action) (s : LoopState) (around : Surroundings)
        → turn.decide s.iterations ≡ ok action
        → action.kind ≡ kind
        → Progress turn s
            (observed py action (act py loop contract kind turn action tracker around) s)
    acted-Progress kind turn action s around chosen is =
        observe-Progress turn action (act py loop contract kind turn action tracker around).reply
          around (act py loop contract kind turn action tracker around).around s chosen
          (ap (λ (k : ActionKind). (act py loop contract k turn action tracker around).reply) is)

    take_action-Progress :
        (kind : ActionKind) (turn : Turn) (action : Action) (s : LoopState) (around : Surroundings)
        → turn.decide s.iterations ≡ ok action
        → action.kind ≡ kind
        → Progress turn s (take_action py loop contract tracker kind turn action s around)
    take_action-Progress ActionKind.finish turn action s around chosen is =
        finish_with-Progress turn action _ s around chosen is refl
    take_action-Progress ActionKind.skill turn action s around chosen is =
        acted-Progress ActionKind.skill turn action s around chosen is
    take_action-Progress ActionKind.chain turn action s around chosen is =
        acted-Progress ActionKind.chain turn action s around chosen is
    take_action-Progress ActionKind.delegate turn action s around chosen is =
        acted-Progress ActionKind.delegate turn action s around chosen is

    decided-Progress :
        (turn : Turn) (reply : Result Failure Action) (s : LoopState) (around : Surroundings)
        → turn.decide s.iterations ≡ reply
        → Progress turn s (decided py loop contract tracker turn reply s around)
    decided-Progress turn (err (budget e)) s around is =
        stops StopReason.budget_exhausted refl refl refl refl (e, s.errors, refl, inr (inl is))
    decided-Progress turn (err interrupted) s around is = escapes was_interrupted (inl is)
    decided-Progress turn (err (other error_type error)) s around is =
        stops StopReason.failed refl refl refl refl (error_type, error, s.errors, refl, is)
    decided-Progress turn (ok action) s around is =
        take_action-Progress action.kind turn action s around is refl

    within_deadline-Progress :
        (turn : Turn) (check : Result BudgetExhaustedError (Unit {0})) (s : LoopState)
        (around : Surroundings)
        → check_deadline turn.now around.ledger tracker ≡ check
        → Progress turn s (within_deadline py loop contract tracker turn check s around)
    within_deadline-Progress turn (err e) s around is =
        stops StopReason.budget_exhausted refl refl refl refl
          (e, s.errors, refl, inl (around.ledger, is))
    within_deadline-Progress turn (ok tt) s around is =
        decided-Progress turn (turn.decide s.iterations) s around refl

    pub step-Progress :
        (turn : Turn) (s : LoopState) (around : Surroundings)
        → Progress turn s (step py loop contract tracker turn s around)
    unfolding step
    step-Progress turn s around = elim (Bool-cases turn.is_cancelled) [
      | inl c ↦ simp c (stops StopReason.cancelled refl refl refl refl c)
      | inr c ↦ elim (Bool-cases (is_expired turn.now contract)) [
        | inl late ↦ simp (c, late) (stops StopReason.deadline_exceeded refl refl refl refl late)
        | inr early ↦
            simp (c, early)
              (within_deadline-Progress turn (check_deadline turn.now around.ledger tracker) s
                around refl)
      ]
    ]
