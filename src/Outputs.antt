-- ===== src/Outputs.antt =====
-- praxis/safety/output_validation.py: `validate_skill_output`. The text of an error is kept as its parts.
use praxis_ai_agent_platform.Common.{
  String, Bool, not, List, [], ◌∷◌, nat_eq, string_eq, is_some, filter, Json, Fields, null, boolean,
  number, string, array, object, no_fields, field, get_field, Dict, Result, ok, err,
}

-- `OutputValidationError`: a result that is no dict, or the keys that one misses.
pub data OutputValidationError : Type 0 where
  bare : (skill_name : String) (expected : List String) (result : Json) → OutputValidationError
  missing : (skill_name : String) (expected absent : List String) → OutputValidationError

-- `list(d)`
abbrev pub keys : Dict String String → List String
keys [] = []
keys ((k, v) ∷ d) = k ∷ keys d

abbrev pub check_missing :
    String → List String → Fields → List String → Result OutputValidationError Json
check_missing skill_name expected fs [] = ok (object fs)
check_missing skill_name expected fs (k ∷ ks) = err (missing skill_name expected (k ∷ ks))

-- `key in result`
abbrev pub has_key : Fields → String → Bool
has_key fs key = is_some (get_field key fs)

abbrev pub wrap_bare : String → List String → Json → Result OutputValidationError Json
wrap_bare skill_name (k ∷ []) result = ok (object (field k result no_fields))
wrap_bare skill_name expected result = err (bare skill_name expected result)

abbrev pub validate_expected : String → List String → Json → Result OutputValidationError Json
validate_expected skill_name expected (object fs) =
    check_missing skill_name expected fs (filter (λ key. not (has_key fs key)) expected)
validate_expected skill_name expected null = wrap_bare skill_name expected null
validate_expected skill_name expected (boolean b) = wrap_bare skill_name expected (boolean b)
validate_expected skill_name expected (number n) = wrap_bare skill_name expected (number n)
validate_expected skill_name expected (string s) = wrap_bare skill_name expected (string s)
validate_expected skill_name expected (array vs) = wrap_bare skill_name expected (array vs)

abbrev pub validate_declared : String → List String → Json → Result OutputValidationError Json
validate_declared skill_name [] result = ok result
validate_declared skill_name (k ∷ ks) result = validate_expected skill_name (k ∷ ks) result

-- `validate_skill_output`
unfoldable pub validate_skill_output :
    String → Dict String String → Json → Result OutputValidationError Json
unfolding get_field
validate_skill_output skill_name declared_outputs result =
    validate_declared skill_name (keys declared_outputs) result
