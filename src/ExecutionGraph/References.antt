-- ===== src/ExecutionGraph/References.antt =====
-- A step's validated output and the references that later steps make to it.
use praxis_ai_agent_platform.Common.{
  ℕ, String, ◌≡◌, refl, sym, inl, inr, true, false, not, Option, some, List, [], ◌∷◌, arith, ◌==◌,
  nat_eq, string_eq, Option-cases, filter, contains, contains-filter, ℤ, pos, Json, Fields, null,
  boolean, number, string, array, object, no_fields, field, get_field, Dict, lookup, ok,
}
use praxis_ai_agent_platform.Outputs.{
  keys, has_key, check_missing, wrap_bare, validate_expected, validate_declared,
  validate_skill_output,
}
use praxis_ai_agent_platform.ExecutionGraph.Arguments.{output_of, resolve_parts}

-- A result that has an output under a key.
abbrev HasOutput : String → Json → Type 0
HasOutput key v = (u : Json) × (output_of key v ≡ some u)

wrapped :
    (skill_name : String) (expected : List String) (result v : Json) (key : String)
    → wrap_bare skill_name expected result ≡ ok v
    → contains expected key ≡ true
    → HasOutput key v
unfolding get_field
wrapped skill_name [] result v key h member = cc
wrapped skill_name (k ∷ []) result v key h member =
    let same : object (field k result no_fields) ≡ v = cc in
    let here : (k == key) ≡ true = ground (arith, member) in (result, rw (sym same, here) refl)
wrapped skill_name (k ∷ k' ∷ ks) result v key h member = cc

complete_fields :
    (skill_name : String) (expected : List String) (fs : Fields) (absent : List String) (v : Json)
    (key : String)
    → filter (λ k. not (has_key fs k)) expected ≡ absent
    → check_missing skill_name expected fs absent ≡ ok v
    → contains expected key ≡ true
    → HasOutput key v
complete_fields skill_name expected fs [] v key none_absent h member =
    let same : object fs ≡ v = cc in
    let there : has_key fs key ≡ true =
      ground (arith, contains-filter (λ k. not (has_key fs k)) expected key, none_absent, member) in
    elim (Option-cases (get_field key fs)) [
      | inl lacks ↦ let clash = rw lacks at there in cc
      | inr (u, e) ↦ (u, rw (sym same) e)
    ]
complete_fields skill_name expected fs (k ∷ ks) v key none_absent h member = cc

expected_output :
    (skill_name : String) (expected : List String) (result v : Json) (key : String)
    → validate_expected skill_name expected result ≡ ok v
    → contains expected key ≡ true
    → HasOutput key v
expected_output skill_name expected (object fs) v key h member =
    complete_fields skill_name expected fs _ v key refl h member
expected_output skill_name expected null v key h member =
    wrapped skill_name expected _ v key h member
expected_output skill_name expected (boolean b) v key h member =
    wrapped skill_name expected _ v key h member
expected_output skill_name expected (number n) v key h member =
    wrapped skill_name expected _ v key h member
expected_output skill_name expected (string s) v key h member =
    wrapped skill_name expected _ v key h member
expected_output skill_name expected (array vs) v key h member =
    wrapped skill_name expected _ v key h member

declared_output :
    (skill_name : String) (expected : List String) (result v : Json) (key : String)
    → validate_declared skill_name expected result ≡ ok v
    → contains expected key ≡ true
    → HasOutput key v
declared_output skill_name [] result v key h member = cc
declared_output skill_name (k ∷ ks) result v key h member =
    expected_output skill_name (k ∷ ks) result v key h member

resolved_output :
    (int : String → Option ℤ) (results : Dict ℕ Json) (value : String) (index : ℕ) (key : String)
    (v u : Json)
    → lookup index results ≡ some v
    → (key == "") ≡ false
    → output_of key v ≡ some u
    → resolve_parts int results value (some (pos index)) key ≡ ok u
resolved_output int results value index key v u here named there = simp (here, named, there) refl

-- What a skill declares, later steps can rely on: if the output of a step has passed the validation
-- and is its result, then a reference to the step by one of the declared keys, which is not empty, resolves, to what the
-- output has under that key, and raises no `KeyError`.
pub declared_outputs_resolve :
    (int : String → Option ℤ) (results : Dict ℕ Json) (value : String) (index : ℕ) (key : String)
    (skill_name : String) (outputs : Dict String String) (result v : Json)
    → validate_skill_output skill_name outputs result ≡ ok v
    → lookup index results ≡ some v
    → contains (keys outputs) key ≡ true
    → (key == "") ≡ false
    → (u : Json) × (output_of key v ≡ some u)
      × (resolve_parts int results value (some (pos index)) key ≡ ok u)
unfolding validate_skill_output
declared_outputs_resolve int results value index key skill_name outputs result v valid here member
      named =
    let (u, there) = declared_output skill_name (keys outputs) result v key valid member in
    (u, there, resolved_output int results value index key v u here named there)
