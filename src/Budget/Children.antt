-- ===== src/Budget/Children.antt =====
-- New trackers: a child is charged to its ancestors, and leaves the ledger in order.
use praxis_ai_agent_platform.Common.{
  ℕ, suc, ◌<◌, String, ◌≡◌, refl, sym, ap, ◌∙◌, inl, inr, Option, none, some, List, [], ◌∷◌, ◌++◌,
  arith, eqb, eqb_iff, nat_eq, string_eq, Bool-cases, Option-cases, length, get_elem?, contains,
  modify, map_option, length-modify, get_elem?-append_last, lt-length_of_get_elem?,
  map_option-eq-some, ok, >>=-eq-ok, ok_injective,
}
use mathlib.Core.Path.{subst}
use praxis_ai_agent_platform.Budget.{
  Budget, Tracker, Ledger, chain, check_descendant, charge, own_record, record_llm_call,
  own_record_descendant, record_descendant, new_child, child,
}
use praxis_ai_agent_platform.Budget.Chain.{IsForest, get_elem?-charge, chain-Descends}
use praxis_ai_agent_platform.Budget.Guard.{Fits, IsWithin, IsSolvent, record_descendant-IsSolvent}

Fits-zero : (o : Option ℕ) → Fits o 0
Fits-zero none = tt
Fits-zero (some limit) = omega arith

pub new_child-IsWithin :
    (now : ℕ) (b : Option Budget) (id : ℕ) (t : Tracker) → IsWithin (new_child now b id t)
new_child-IsWithin now b id t = record {
  calls = Fits-zero _;
  used = Fits-zero _;
  cost = Fits-zero _;
  children = Fits-zero _;
}

module _ (l : Ledger) (forest : IsForest l) where
  -- A change of what is spent along a chain moves no tracker.
  charge-IsForest :
      (own : Tracker → Tracker) (id : ℕ)
      → ((t : Tracker) → (own t).parent ≡ t.parent)
      → IsForest (charge own (chain l id) l)
  charge-IsForest own id keeps = record {
    before = λ j t p e up.
        let moved = get_elem?-charge own (suc id) (chain l id) l j (chain-Descends l forest id) in
        elim (Bool-cases (contains (chain l id) j)) [
          | inr off ↦ forest.before j t p (sym (rw off at moved) ∙ e) up
          | inl on ↦
              let here : map_option own (get_elem? l j) ≡ some t = sym (rw on at moved) ∙ e in
              let (u, was, same) = map_option-eq-some own (get_elem? l j) here in
              forest.before j u p was (sym (keeps u) ∙ ap (λ (v : Tracker). v.parent) same ∙ up)
        ];
  }

  length-charge :
      (own : Tracker → Tracker) (ids : List ℕ) (m : Ledger) → length (charge own ids m) ≡ length m
  unfolding charge
  length-charge own [] m = refl
  length-charge own (id ∷ ids) m = length-charge own ids (modify m id own) ∙ length-modify m id own

  -- A recorded call keeps the order of parents.
  pub record_llm_call-IsForest :
      (model : String) (tokens_in tokens_out id : ℕ)
      → IsForest (record_llm_call model tokens_in tokens_out l id)
  unfolding record_llm_call own_record
  record_llm_call-IsForest model tokens_in tokens_out id =
      charge-IsForest (own_record model tokens_in tokens_out) id (λ t. refl)

  record_descendant-IsForest : (id : ℕ) → IsForest (record_descendant l id)
  unfolding record_descendant own_record_descendant
  record_descendant-IsForest id = charge-IsForest own_record_descendant id (λ t. refl)

-- A tracker after the others, with its parent among them.
append-IsForest :
    (l : Ledger) (b : Tracker) (p : ℕ)
    → IsForest l
    → b.parent ≡ some p
    → p < length l
    → IsForest (l ++ b ∷ [])
append-IsForest l b p forest up less = record {
  before = λ j t q e mine.
      let at = get_elem?-append_last l b j in
      elim (Bool-cases (eqb j (length l))) [
        | inr older ↦ forest.before j t q (sym (rw older at at) ∙ e) mine
        | inl newest ↦
            let same : some b ≡ some t = sym (rw newest at at) ∙ e in
            let that : b ≡ t = cc in
            let parents : some p ≡ some q = sym up ∙ ap (λ (v : Tracker). v.parent) that ∙ mine in
            let pq : p ≡ q = cc in
            let place = (eqb_iff j (length l)).0 newest in omega (arith, pq, place, less)
      ];
}

append-IsSolvent : (l : Ledger) (b : Tracker) → IsSolvent l → IsWithin b → IsSolvent (l ++ b ∷ [])
append-IsSolvent l b solvent w = record {
  at = λ j t e.
      let at = get_elem?-append_last l b j in
      elim (Bool-cases (eqb j (length l))) [
        | inr older ↦ solvent.at j t (sym (rw older at at) ∙ e)
        | inl newest ↦
            let same : some b ≡ some t = sym (rw newest at at) ∙ e in
            let that : b ≡ t = cc in subst (λ v. IsWithin v) that w
      ];
}

-- A child that is admitted leaves every tracker within its budget, the new one included, and every
-- parent before its child.
pub child-IsSolvent :
    (now : ℕ) (b : Option Budget) (l l' : Ledger) (id : ℕ)
    → IsForest l
    → IsSolvent l
    → child now b l id ≡ ok l'
    → IsSolvent l' × IsForest l'
unfolding child
child-IsSolvent now b l l' id forest solvent h =
    let (u, allowed, made) = >>=-eq-ok (check_descendant l id) _ h in
    let charged = record_descendant l id in
    let whole = record_descendant-IsSolvent l forest solvent id allowed in
    let order = record_descendant-IsForest l forest id in
    elim (Option-cases (get_elem? charged id)) [
      | inl nothing ↦
          let same : charged ≡ l' = ok_injective (rw nothing at made) in
          (subst IsSolvent same whole, subst IsForest same order)
      | inr (t, e) ↦
          let more = charged ++ new_child now b id t ∷ [] in
          let same : more ≡ l' = ok_injective (rw e at made) in
          (
            subst IsSolvent same (append-IsSolvent charged _ whole (new_child-IsWithin now b id t)),
            subst IsForest same
                (append-IsForest charged _ id order refl (lt-length_of_get_elem? charged id e)),
          )
    ]
