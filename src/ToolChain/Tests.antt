-- ===== src/ToolChain/Tests.antt =====
-- A chain that queries and charts.
use praxis_ai_agent_platform.Common.{
  String, ◌≡◌, refl, sym, true, Option, none, some, List, [], ◌∷◌, ◌++◌, arith, if◌then◌else◌, ◌==◌,
  nat_eq, string_eq, Json, string, array, object, no_items, no_fields, field, get_field, any_truthy,
  Dict, lookup, insert, Result, ok, err, partition_dot,
}
use praxis_ai_agent_platform.ToolChain.{
  LinkableTool, ToolLink, ToolLinkError, unknown_guard, duplicate_step, ToolChainResult, validate,
  run, final,
}
use praxis_ai_agent_platform.ToolChain.Wiring.{IsReliable, IsOwnFailure, validated_chain_is_wired}

abbrev query : LinkableTool
query = record { name = "query"; inputs = ("sql", "str") ∷ []; outputs = ("rows", "list") ∷ [] }

abbrev chart : LinkableTool
chart = record { name = "chart"; inputs = ("data", "list") ∷ []; outputs = ("image", "str") ∷ [] }

abbrev link :
    LinkableTool → String → Dict String Json → Dict String String → Option String → ToolLink
link tool step_name static_args mapped_args continue_if = record {
  tool = tool;
  step_name = step_name;
  static_args = static_args;
  mapped_args = mapped_args;
  continue_if = continue_if;
}

abbrev chain : Option String → List ToolLink
chain guard =
    link query "q" (("sql", string "select") ∷ []) [] guard
    ∷ link chart "c" [] (("data", "q.rows") ∷ []) none
    ∷ []

-- the query finds nothing
abbrev run_tool : ToolLink → Dict String Json → Result String Json
run_tool l kwargs =
    if l.tool.name == "query"
    then ok (object (field "rows" (array no_items) no_fields))
    else ok (object (field "image" (string "png") no_fields))

abbrev stopped_at : Result ToolLinkError ToolChainResult → Option String
stopped_at (ok r) = r.stopped_early_at
stopped_at (err e) = none

abbrev final_of : Result ToolLinkError ToolChainResult → Option Json
final_of (ok r) = final r
final_of (err e) = none

chain_runs :
    (validate (chain none) ≡ ok tt)
    × (final_of (run run_tool (chain none))
        ≡ some (object (field "image" (string "png") no_fields)))
    × (stopped_at (run run_tool (chain (some "has_rows"))) ≡ some "q")
    × (run run_tool (chain (some "has_row")) ≡ err (unknown_guard "has_row"))
    × (validate (chain none ++ chain none) ≡ err (duplicate_step "q"))
unfolding validate run final partition_dot lookup insert get_field any_truthy
chain_runs = (refl, refl, refl, refl, refl)

query-IsReliable :
    IsReliable run_tool (link query "q" (("sql", string "select") ∷ []) [] (some "has_row"))
unfolding get_field
query-IsReliable = (
  refl,
  λ kwargs v h key member.
      let same : object (field "rows" (array no_items) no_fields) ≡ v = cc in
      let here : ("rows" == key) ≡ true = ground (arith, member) in
      (array no_items, rw (sym same, here) refl),
)

chart-IsReliable : IsReliable run_tool (link chart "c" [] (("data", "q.rows") ∷ []) none)
unfolding get_field
chart-IsReliable = (
  refl,
  λ kwargs v h key member.
      let same : object (field "image" (string "png") no_fields) ≡ v = cc in
      let here : ("image" == key) ≡ true = ground (arith, member) in
      (string "png", rw (sym same, here) refl),
)

validated_chain_is_wired_example : IsOwnFailure (unknown_guard "has_row")
unfolding validate run partition_dot lookup insert get_field
validated_chain_is_wired_example =
    validated_chain_is_wired run_tool (chain (some "has_row")) (unknown_guard "has_row") refl
      (query-IsReliable, (chart-IsReliable, tt)) refl
