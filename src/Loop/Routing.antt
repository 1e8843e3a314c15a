-- ===== src/Loop/Routing.antt =====
-- Where the loop goes after a step: it runs on within its bounds, or ends with a reason.
use praxis_ai_agent_platform.Common.{
  Option, Json, ℤ, ℕ, suc, ◌+◌, ◌≤◌, ◌<◌, max, String, ◌≡◌, refl, sym, ap, ◌∙◌, ◌⊎◌, inl, inr, Bool,
  true, false, none, some, List, [], ◌∷◌, ◌++◌, map, arith, leb, if◌then◌else◌, ◌==◌, nat_eq,
  string_eq, pair_eq, Bool-cases, is_some, length, length-append, count, count-append,
}
use mathlib.Core.Path.{subst}
use praxis_ai_agent_platform.Contract.{TaskContract}
use praxis_ai_agent_platform.Loop.{
  StopReason, Message, Escape, Iteration, Turn, Conversions, AgentLoop, Surroundings,
}
use praxis_ai_agent_platform.Loop.Running.{
  LoopState, Next, again, finished, stalled, last_of, route, Ended, exception, with_state,
}
use praxis_ai_agent_platform.Loop.Bounds.{is_bound, print, Why, Breaks}

last_of-append :
    (fs : List (String × String)) (f : String × String) → last_of (fs ++ f ∷ []) ≡ some f
last_of-append [] f = refl
last_of-append (g ∷ []) f = refl
last_of-append (g ∷ h ∷ fs) f = last_of-append (h ∷ fs) f

length-map : {A B : Type 0} (f : A → B) (xs : List A) → length (map f xs) ≡ length xs
length-map f [] = refl
length-map f (x ∷ xs) = ap suc (length-map f xs)

map-append_last :
    {A B : Type 0} (f : A → B) (xs : List A) (x : A) → map f (xs ++ x ∷ []) ≡ map f xs ++ f x ∷ []
map-append_last f [] x = refl
map-append_last f (y ∷ xs) x = ap (λ l. f y ∷ l) (map-append_last f xs x)

module _ (py : Conversions) (loop : AgentLoop) (contract : TaskContract) (tracker : ℕ)
    (turns : ℕ → Turn) where
  -- A state before a step: the loop has not stopped, has room, and no action has been repeated with
  -- the same observation as often as the threshold.
  pub record IsRunning (s : LoopState) : Type 0 where
    pub unstopped : s.stop_reason ≡ none
    pub prints : s.fingerprints ≡ map (print py) s.iterations
    pub room : (length s.iterations ≡ 0) ⊎ (length s.iterations < loop.max_iterations)
    pub fresh : (f : String × String) → count f s.fingerprints < loop.stall_threshold

  -- What stands behind a reason in the turn of a number.
  abbrev pub Explains :
      ℕ → List Iteration → Option Json → List ℤ → List Message → StopReason → Type 0
  Explains k seen answer evidence errors reason =
      Why py loop contract tracker (turns k) seen answer evidence errors reason

  -- A state at the end, and whether the loop had stalled.
  pub record IsFinal (is_stalled : Bool) (s : LoopState) : Type 0 where
    pub prints : s.fingerprints ≡ map (print py) s.iterations
    pub few : length s.iterations ≤ max 1 loop.max_iterations
    pub reasons :
        (is_stalled ≡ true)
        ⊎ (((r : StopReason) × (s.stop_reason ≡ some r)
              × (is_bound r ≡ false)
              × (k : ℕ) × Explains k s.iterations s.answer s.evidence s.errors r)
            ⊎ ((s.stop_reason ≡ none) × (length s.iterations ≡ max 1 loop.max_iterations)))
    pub stuck :
        is_stalled ≡ true → (f : String × String) × (count f s.fingerprints ≡ loop.stall_threshold)
    pub fresh :
        is_stalled ≡ false → (f : String × String) → count f s.fingerprints < loop.stall_threshold

  -- The graph ends with a final state, or by an exception; not at the recursion limit.
  pub data IsEnd : Ended → Type 0 where
    broken :
        {around : Surroundings} (e : Escape) (k : ℕ) (seen : List Iteration)
        → Breaks py loop contract tracker (turns k) seen e
        → IsEnd (exception e around)
    final :
        (is_stalled : Bool) {s : LoopState} {around : Surroundings}
        → IsFinal is_stalled s
        → IsEnd (with_state is_stalled s around)

  -- what `_route` makes of a state that has just acted
  pub data IsRouted (s : LoopState) : Next → Type 0 where
    goes_on : IsRunning s → IsRouted s again
    ends : IsFinal false s → IsRouted s finished
    stuck_at : IsFinal true s → IsRouted s stalled

  count-last :
      (f g : String × String) (fs : List (String × String))
      → count f (fs ++ g ∷ []) ≡ count f fs + (if g == f then 1 else 0)
  count-last f g fs = count-append f fs (g ∷ []) ∙ ground arith

  pub route_stops :
      (s s' : LoopState) (reason : StopReason) (k : ℕ)
      → IsRunning s
      → is_bound reason ≡ false
      → s'.stop_reason ≡ some reason
      → s'.iterations ≡ s.iterations
      → s'.fingerprints ≡ s.fingerprints
      → Explains k s.iterations s'.answer s'.evidence s'.errors reason
      → IsRouted s' (route loop s')
  unfolding route
  route_stops s s' reason k running own stop same prints why =
      let opened : is_some s'.stop_reason ≡ true = ap is_some stop in
      let size = ap length same in
      simp opened (
        ends record {
          prints = prints ∙ running.prints ∙ ap (map (print py)) (sym same);
          few = elim running.room [
            | inl nothing ↦ omega (arith, size, nothing)
            | inr room ↦ omega (arith, size, room)
          ];
          reasons =
              let now =
                subst (λ seen. Explains k seen s'.answer s'.evidence s'.errors reason) (sym same)
                  why in
              inr (inl (reason, stop, own, k, now));
          stuck = λ h. cc;
          fresh = λ h f. let kept = ap (count f) prints in omega (arith, kept, running.fresh f);
        })

  pub stopped_IsRunning :
      (s : LoopState) (reason : StopReason) → s.stop_reason ≡ some reason → ¬ IsRunning s
  stopped_IsRunning s reason stop running =
      let both : none ≡ some reason = sym running.unstopped ∙ stop in cc

  -- the state after an action
  module _ (s s' : LoopState) (i : Iteration) (running : IsRunning s)
      (stop : s'.stop_reason ≡ s.stop_reason) (more : s'.iterations ≡ s.iterations ++ i ∷ [])
      (prints : s'.fingerprints ≡ s.fingerprints ++ print py i ∷ []) where
    now_prints : s'.fingerprints ≡ map (print py) s'.iterations
    now_prints =
        prints
        ∙ ap (λ fs. fs ++ print py i ∷ []) running.prints
        ∙ sym (map-append_last (print py) s.iterations i)
        ∙ ap (map (print py)) (sym more)

    pub now_size : length s'.iterations ≡ length s.iterations + 1
    now_size = ap length more ∙ length-append s.iterations (i ∷ [])

    now_few : length s'.iterations ≤ max 1 loop.max_iterations
    now_few = elim running.room [
      | inl nothing ↦ omega (arith, now_size, nothing)
      | inr room ↦ omega (arith, now_size, room)
    ]

    now_count :
        (f : String × String)
        → count f s'.fingerprints ≡ count f s.fingerprints + (if print py i == f then 1 else 0)
    now_count f = ap (count f) prints ∙ count-last f (print py i) s.fingerprints

    own_count : count (print py i) s'.fingerprints ≡ count (print py i) s.fingerprints + 1
    own_count =
        let itself = (pair_eq.same_iff (print py i) (print py i)).1 refl in
        now_count (print py i)
        ∙ ap (λ b. count (print py i) s.fingerprints + (if b then 1 else 0)) itself

    other_count :
        count (print py i) s'.fingerprints < loop.stall_threshold
        → (f : String × String) → count f s'.fingerprints < loop.stall_threshold
    other_count few f = elim (Bool-cases (print py i == f)) [
      | inl same ↦
          let name : print py i ≡ f = (pair_eq.same_iff (print py i) f).0 same in
          subst (λ g. count g s'.fingerprints < loop.stall_threshold) name few
      | inr apart ↦
          let equal = now_count f ∙ ap (λ b. count f s.fingerprints + (if b then 1 else 0)) apart in
          omega (arith, equal, running.fresh f)
    ]

    pub route_acts : IsRouted s' (route loop s')
    unfolding route
    route_acts =
        let closed : is_some s'.stop_reason ≡ false = ap is_some (stop ∙ running.unstopped) in
        let latest : last_of s'.fingerprints ≡ some (print py i) =
          ap last_of prints ∙ last_of-append s.fingerprints (print py i) in
        elim (Bool-cases (leb loop.stall_threshold (count (print py i) s'.fingerprints))) [
          | inl many ↦
              simp (closed, latest, many)
                (stuck_at record {
                  prints = now_prints;
                  few = now_few;
                  reasons = inl refl;
                  stuck = λ h.
                      (print py i, ground (arith, many, own_count, running.fresh (print py i)));
                  fresh = λ h. cc;
                })
          | inr few ↦
              let under : count (print py i) s'.fingerprints < loop.stall_threshold =
                ground (arith, few) in
              elim (Bool-cases (leb loop.max_iterations (length s'.iterations))) [
                | inl full ↦
                    simp (closed, latest, few, full)
                      (ends record {
                        prints = now_prints;
                        few = now_few;
                        reasons = inr (
                            inr
                              (stop ∙ running.unstopped, ground (arith, now_few, full, now_size)));
                        stuck = λ h. cc;
                        fresh = λ h. other_count under;
                      })
                | inr room ↦
                    simp (closed, latest, few, room)
                      (goes_on record {
                        unstopped = stop ∙ running.unstopped;
                        prints = now_prints;
                        room = inr (ground (arith, room));
                        fresh = other_count under;
                      })
              ]
        ]
