-- ===== src/Budget/Runs.antt =====
-- Ledgers as a task and its children make them.
use praxis_ai_agent_platform.Common.{
  ℕ, zero, suc, ◌<◌, String, ◌≡◌, ap, ◌∙◌, Option, none, some, [], ◌∷◌, nat_eq, string_eq,
  get_elem?, Dict, ok,
}
use mathlib.Core.Path.{subst}
use praxis_ai_agent_platform.Budget.{
  Budget, Rate, Tracker, Ledger, nothing_spent, check_llm_call, record_llm_call, child,
}
use praxis_ai_agent_platform.Budget.Chain.{IsForest}
use praxis_ai_agent_platform.Budget.Guard.{IsHonest, IsSolvent, IsWithin, guarded_call-IsSolvent}
use praxis_ai_agent_platform.Budget.Children.{
  new_child-IsWithin, record_llm_call-IsForest, child-IsSolvent,
}

-- The tracker of a task that has no parent.
abbrev pub root_of : ℕ → Budget → Dict String Rate → Tracker
root_of now budget pricing = record {
  budget = budget;
  parent = none;
  pricing = pricing;
  started_at = now;
  spend = nothing_spent;
}

-- The ledgers reached from one tracker by calls that are checked, kept to their estimate and
-- recorded, and by children, in any order and of any trackers.
pub data IsReachable : Ledger → Type 0 where
  root :
      (now : ℕ) (budget : Budget) (pricing : Dict String Rate)
      → IsReachable (root_of now budget pricing ∷ [])
  call :
      {l : Ledger} (now : ℕ) (model : String) (estimated tokens_in tokens_out id : ℕ)
      → IsReachable l
      → check_llm_call now model estimated l id ≡ ok tt
      → IsHonest l model estimated tokens_in tokens_out
      → IsReachable (record_llm_call model tokens_in tokens_out l id)
  spawn :
      {l l' : Ledger} (now : ℕ) (budget : Option Budget) (id : ℕ)
      → IsReachable l
      → child now budget l id ≡ ok l'
      → IsReachable l'

module _ (now : ℕ) (budget : Budget) (pricing : Dict String Rate) where
  abbrev alone : Ledger
  alone = root_of now budget pricing ∷ []

  alone-IsForest :
      (id : ℕ) (t : Tracker) (p : ℕ) → get_elem? alone id ≡ some t → t.parent ≡ some p → p < id
  alone-IsForest zero t p e up =
      let same : root_of now budget pricing ≡ t = cc in
      let no : none ≡ some p = ap (λ (v : Tracker). v.parent) same ∙ up in cc
  alone-IsForest (suc id) t p e up = cc

  alone-IsWithin : (id : ℕ) (t : Tracker) → get_elem? alone id ≡ some t → IsWithin t
  alone-IsWithin zero t e =
      let same : root_of now budget pricing ≡ t = cc in
      let fresh = new_child-IsWithin now (some budget) 0 (root_of now budget pricing) in
      subst IsWithin same (record {
        calls = fresh.calls;
        used = fresh.used;
        cost = fresh.cost;
        children = fresh.children;
      })
  alone-IsWithin (suc id) t e = cc

-- From one tracker on, through any sequence of checked calls that keep to their estimates and of
-- children, every tracker of the tree stays within its limits on calls, tokens, cost and children,
-- and every parent stands before its child.
pub reachable-IsSolvent : (l : Ledger) → IsReachable l → IsSolvent l × IsForest l
reachable-IsSolvent _ (root now budget pricing) = (
  record { at = alone-IsWithin now budget pricing },
  record { before = alone-IsForest now budget pricing },
)
reachable-IsSolvent _
      (call {l = l} now model estimated tokens_in tokens_out id before allowed honest) =
    let (solvent, forest) = reachable-IsSolvent l before in
    (
      guarded_call-IsSolvent l forest solvent now model estimated tokens_in tokens_out id allowed
          honest,
      record_llm_call-IsForest l forest model tokens_in tokens_out id,
    )
reachable-IsSolvent _ (spawn {l = l} {l' = l'} now budget id before made) =
    let (solvent, forest) = reachable-IsSolvent l before in
    child-IsSolvent now budget l l' id forest solvent made
