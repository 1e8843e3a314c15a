-- ===== src/ExecutionGraph/ReferenceTests.antt =====
-- A reference to a validated output.
use praxis_ai_agent_platform.Common.{
  String, ◌≡◌, refl, Option, none, some, [], ◌∷◌, if◌then◌else◌, ◌==◌, nat_eq, string_eq, ℤ, pos,
  Json, string, object, no_fields, field, get_field, lookup, ok, is_reference, after_dollar,
  partition_dot,
}
use praxis_ai_agent_platform.ExecutionGraph.Arguments.{output_of, resolve_parts, resolve_args}
use praxis_ai_agent_platform.Outputs.{validate_skill_output}
use praxis_ai_agent_platform.ExecutionGraph.References.{declared_outputs_resolve}

abbrev int : String → Option ℤ
int s = if s == "0" then some (pos 0) else none

abbrev page : Json
page = object (field "page" (string "hello") no_fields)

-- a reference, a price that is no reference, and the whole result
resolves :
    resolve_args int
      ((0, page) ∷ [])
      (("a", string "$0.page") ∷ ("b", string "$5 off") ∷ ("c", string "$0") ∷ [])
    ≡ ok (("a", string "hello") ∷ ("b", string "$5 off") ∷ ("c", page) ∷ [])
unfolding resolve_args is_reference after_dollar partition_dot lookup get_field
resolves = refl

declared_outputs_resolve_example :
    (u : Json) × (output_of "page" page ≡ some u)
    × (resolve_parts int ((0, page) ∷ []) "$0.page" (some (pos 0)) "page" ≡ ok u)
unfolding lookup validate_skill_output
declared_outputs_resolve_example =
    declared_outputs_resolve int ((0, page) ∷ []) "$0.page" 0 "page" "fetch" (("page", "str") ∷ [])
      (string "hello") page refl refl refl refl
