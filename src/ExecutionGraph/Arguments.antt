-- ===== src/ExecutionGraph/Arguments.antt =====
-- praxis/core/execution_graph.py: `resolve_args`. Python's `int` on a text is a parameter, none where
-- it raises.
use praxis_ai_agent_platform.Common.{
  ℕ, String, not, Option, none, some, [], ◌∷◌, if◌then◌else◌, ◌==◌, nat_eq, string_eq, ℤ, pos,
  negsuc, Json, null, boolean, number, string, array, object, get_field, Dict, lookup, Result, ok,
  err, ◌>>=◌, is_reference, after_dollar, partition_dot,
}

-- `KeyError`: no result of the step, or no such output in it.
pub data ReferenceError : Type 0 where
  no_result : (value : String) (index : ℤ) → ReferenceError
  no_output : (value output_key : String) (index : ℤ) → ReferenceError

-- `results[index]`, where no result has a negative index
abbrev pub result_at : Dict ℕ Json → ℤ → Option Json
result_at results (pos n) = lookup n results
result_at results (negsuc n) = none

abbrev pub or_no_output : String → String → ℤ → Option Json → Result ReferenceError Json
or_no_output value output_key index (some v) = ok v
or_no_output value output_key index none = err (no_output value output_key index)

-- `step_result[output_key]`, which only a dict has
abbrev pub output_of : String → Json → Option Json
output_of output_key (object fs) = get_field output_key fs
output_of output_key null = none
output_of output_key (boolean b) = none
output_of output_key (number n) = none
output_of output_key (string s) = none
output_of output_key (array vs) = none

abbrev pub resolve_in : String → ℤ → String → Option Json → Result ReferenceError Json
resolve_in value index output_key none = err (no_result value index)
resolve_in value index output_key (some step_result) =
    if output_key == ""
    then ok step_result
    else or_no_output value output_key index (output_of output_key step_result)

module _ (int : String → Option ℤ) (results : Dict ℕ Json) where
  abbrev pub resolve_parts : String → Option ℤ → String → Result ReferenceError Json
  resolve_parts value none output_key = ok (string value)
  resolve_parts value (some index) output_key =
      resolve_in value index output_key (result_at results index)

  unfoldable pub resolve_text : String → Result ReferenceError Json
  unfolding is_reference after_dollar partition_dot lookup get_field
  resolve_text value =
      if not (is_reference value)
      then ok (string value)
      else let parts = partition_dot (after_dollar value) in
        resolve_parts value (int parts.0) parts.1

  -- `_resolve_value`
  abbrev pub resolve_value : Json → Result ReferenceError Json
  resolve_value (string value) = resolve_text value
  resolve_value null = ok null
  resolve_value (boolean b) = ok (boolean b)
  resolve_value (number n) = ok (number n)
  resolve_value (array vs) = ok (array vs)
  resolve_value (object fs) = ok (object fs)

  abbrev pub put :
      String
      → Result ReferenceError Json
      → Result ReferenceError (Dict String Json)
      → Result ReferenceError (Dict String Json)
  put key value rest = value >>= λ v. rest >>= λ args. ok ((key, v) ∷ args)

  -- `resolve_args`; the keys of a dict are distinct, so that the new dict has its order
  unfoldable pub resolve_args : Dict String Json → Result ReferenceError (Dict String Json)
  unfolding resolve_text
  resolve_args [] = ok []
  resolve_args ((key, value) ∷ args) =
      let rest = resolve_args args in put key (resolve_value value) rest
