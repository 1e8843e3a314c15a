-- ===== src/Loop/Calls.antt =====
-- Every call of a whole run is granted.
use praxis_ai_agent_platform.Common.{
  ℕ, zero, suc, ◌+◌, ◌≡◌, refl, sym, inl, inr, Option, none, some, List, [], nat_eq, string_eq,
  Bool-cases, All, ℤ, Result, ok, err,
}
use mathlib.Core.Path.{subst}
use praxis_ai_agent_platform.Contract.{TaskContract, is_expired}
use praxis_ai_agent_platform.Budget.{BudgetExhaustedError, check_deadline}
use praxis_ai_agent_platform.Delegation.{DelegationLimits, register_root}
use praxis_ai_agent_platform.Loop.{
  ActionKind, Action, Observation, Failure, budget, other, interrupted, Halt, exhausted_by, cut_off,
  Turn, Conversions, AgentLoop, Surroundings,
}
use praxis_ai_agent_platform.Loop.Running.{
  LoopState, initial, Stepped, stepped, escaped, observe, finish_with, take_action, decided,
  within_deadline, step, route, Next, again, finished, stalled, Ended, go_to, after_step, invoke,
  result_of, run,
}
use praxis_ai_agent_platform.Loop.Grants.{IsGranted, IsLawful, act-IsLawful}

abbrev around_of : Stepped → Surroundings
around_of (stepped s around) = around
around_of (escaped e around) = around

module _ (py : Conversions) (loop : AgentLoop) (contract : TaskContract)
    (limits : DelegationLimits) where
  abbrev Lawful : Surroundings → Type 0
  Lawful = IsLawful py loop contract limits

  observe-IsLawful :
      (action : Action) (reply : Result Halt Observation) (around : Surroundings) (s : LoopState)
      → Lawful around
      → Lawful (around_of (observe py action reply around s))
  observe-IsLawful action (ok o) around s h = h
  observe-IsLawful action (err (exhausted_by e)) around s h = h
  observe-IsLawful action (err cut_off) around s h = h

  finish_with-IsLawful :
      (action : Action) (o : Option (List ℤ)) (s : LoopState) (around : Surroundings)
      → Lawful around
      → Lawful (around_of (finish_with action o s around))
  finish_with-IsLawful action none s around h = h
  finish_with-IsLawful action (some evidence) s around h = h

  module _ (tracker : ℕ) where
    take_action-IsLawful :
        (kind : ActionKind) (turn : Turn) (action : Action) (s : LoopState) (around : Surroundings)
        → Lawful around
        → Lawful (around_of (take_action py loop contract tracker kind turn action s around))
    take_action-IsLawful ActionKind.finish turn action s around h =
        finish_with-IsLawful action _ s around h
    take_action-IsLawful ActionKind.skill turn action s around h =
        observe-IsLawful action _ _ s
          (act-IsLawful py loop contract limits ActionKind.skill turn action tracker around h)
    take_action-IsLawful ActionKind.chain turn action s around h =
        observe-IsLawful action _ _ s
          (act-IsLawful py loop contract limits ActionKind.chain turn action tracker around h)
    take_action-IsLawful ActionKind.delegate turn action s around h =
        observe-IsLawful action _ _ s
          (act-IsLawful py loop contract limits ActionKind.delegate turn action tracker around h)

    decided-IsLawful :
        (turn : Turn) (reply : Result Failure Action) (s : LoopState) (around : Surroundings)
        → Lawful around
        → Lawful (around_of (decided py loop contract tracker turn reply s around))
    decided-IsLawful turn (err (budget e)) s around h = h
    decided-IsLawful turn (err interrupted) s around h = h
    decided-IsLawful turn (err (other error_type error)) s around h = h
    decided-IsLawful turn (ok action) s around h =
        take_action-IsLawful action.kind turn action s around h

    within_deadline-IsLawful :
        (turn : Turn) (check : Result BudgetExhaustedError (Unit {0})) (s : LoopState)
        (around : Surroundings)
        → Lawful around
        → Lawful (around_of (within_deadline py loop contract tracker turn check s around))
    within_deadline-IsLawful turn (err e) s around h = h
    within_deadline-IsLawful turn (ok tt) s around h =
        decided-IsLawful turn (turn.decide s.iterations) s around h

    step-IsLawful :
        (turn : Turn) (s : LoopState) (around : Surroundings)
        → Lawful around
        → Lawful (around_of (step py loop contract tracker turn s around))
    unfolding step
    step-IsLawful turn s around h = elim (Bool-cases turn.is_cancelled) [
      | inl c ↦ simp c h
      | inr c ↦ elim (Bool-cases (is_expired turn.now contract)) [
        | inl late ↦ simp (c, late) h
        | inr early ↦
            simp (c, early)
              (within_deadline-IsLawful turn (check_deadline turn.now around.ledger tracker) s
                around h)
      ]
    ]

    go_to-IsLawful :
        (further : LoopState → Surroundings → Ended) (next : Next) (s : LoopState)
        (around : Surroundings)
        → ((s' : LoopState) (around' : Surroundings)
            → Lawful around'
            → Lawful (result_of (further s' around')).1)
        → Lawful around
        → Lawful (result_of (go_to py loop contract tracker further next s around)).1
    go_to-IsLawful further again s around on h = on s around h
    go_to-IsLawful further finished s around on h = h
    go_to-IsLawful further stalled s around on h = h

    after_step-IsLawful :
        (further : LoopState → Surroundings → Ended) (r : Stepped)
        → ((s' : LoopState) (around' : Surroundings)
            → Lawful around'
            → Lawful (result_of (further s' around')).1)
        → Lawful (around_of r)
        → Lawful (result_of (after_step py loop contract tracker further r)).1
    after_step-IsLawful further (escaped e around) on h = h
    after_step-IsLawful further (stepped s around) on h =
        go_to-IsLawful further (route loop s) s around on h

    invoke-IsLawful :
        (fuel : ℕ) (turns : ℕ → Turn) (k : ℕ) (s : LoopState) (around : Surroundings)
        → Lawful around
        → Lawful (result_of (invoke py loop contract tracker fuel turns k s around)).1
    unfolding invoke
    invoke-IsLawful zero turns k s around h = h
    invoke-IsLawful (suc fuel) turns k s around h =
        after_step-IsLawful
          (λ s' around'. invoke py loop contract tracker fuel turns (suc k) s' around')
          (step py loop contract tracker (turns k) s around)
          (λ s' around' h'. invoke-IsLawful fuel turns (suc k) s' around' h')
          (step-IsLawful (turns k) s around h)

-- Started with no call on record, whatever the policy decides and the world answers, a run calls only what its contract grants: a
-- skill that the contract authorizes, a chain all of whose tools it authorizes, or an agent under a
-- contract made of this one, in the same tenant and by the same deadline, one deeper and within the
-- depth limit, that is handed only tools which its own contract authorizes. These are tools that the
-- run's contract authorizes too, unless the agent's contract is left with none.
pub run_calls_granted :
    (py : Conversions) (loop : AgentLoop) (contract : TaskContract) (tracker : ℕ) (turns : ℕ → Turn)
    (around : Surroundings)
    → around.calls ≡ []
    → All
        (IsGranted loop contract around.delegation.limits)
        (run py loop contract tracker turns around).1.calls
unfolding run register_root
run_calls_granted py loop contract tracker turns around empty =
    (invoke-IsLawful py loop contract around.delegation.limits tracker (loop.max_iterations + 2)
      turns 0 initial _
      (record {
        same = refl;
        granted = subst (All (IsGranted loop contract around.delegation.limits)) (sym empty) tt;
      })).granted
