-- ===== src/ToolChain.antt =====
-- praxis/agents/toollink.py: chains of tools, their validation and their run. A tool's run is a
-- parameter, which gives the output of a link for its arguments, or the error. The text of an error is
-- kept as its stage and reason. A cancelled run is not modelled.
pub mod Wiring
mod Tests
use praxis_ai_agent_platform.Common.{
  String, Bool, true, false, not, ◌&&◌, Option, none, some, List, [], ◌∷◌, ◌++◌, if◌then◌else◌,
  ◌==◌, nat_eq, string_eq, is_some, filter, contains, Json, null, boolean, number, string, array,
  object, truthy, get_field, any_truthy, Dict, lookup, insert, Result, ok, err, ◌>>=◌, ◌>>◌,
  partition_dot,
}
use praxis_ai_agent_platform.Outputs.{keys}
use praxis_ai_agent_platform.ExecutionGraph.Arguments.{output_of}

-- `LinkableTool`, without its run
pub record LinkableTool : Type 0 where
  pub name : String
  pub inputs : Dict String String
  pub outputs : Dict String String

pub record ToolLink : Type 0 where
  pub tool : LinkableTool
  pub step_name : String
  pub static_args : Dict String Json
  pub mapped_args : Dict String String
  pub continue_if : Option String

-- `ToolLinkError` by its reason, with its stage.
pub data ToolLinkError : Type 0 where
  duplicate_step unknown_argument missing_argument unknown_step unknown_output_key :
      (stage : String) → ToolLinkError
  tool_failed : (stage error : String) → ToolLinkError
  unknown_guard : (guard : String) → ToolLinkError

-- The reason to stop is the guard that was not satisfied.
pub record ToolChainResult : Type 0 where
  pub outputs : Dict String Json
  pub steps_run : List String
  pub stopped_early_at : Option String
  pub stop_reason : Option String

abbrev pub last_step : List String → Option String
last_step [] = none
last_step (s ∷ []) = some s
last_step (s ∷ s' ∷ ss) = last_step (s' ∷ ss)

abbrev pub output_at : Dict String Json → Option String → Option Json
output_at outputs none = none
output_at outputs (some s) = lookup s outputs

-- `final`
unfoldable pub final : ToolChainResult → Option Json
unfolding lookup
final r = output_at r.outputs (last_step r.steps_run)

-- the keys of the arguments that a link supplies
abbrev pub static_keys : Dict String Json → List String
static_keys [] = []
static_keys ((k, v) ∷ d) = k ∷ static_keys d

abbrev pub supplied : ToolLink → List String
supplied link = static_keys link.static_args ++ keys link.mapped_args

abbrev pub differs_from : List String → List String → List String
differs_from xs ys = filter (λ x. not (contains ys x)) xs

abbrev pub is_nonempty : List String → Bool
is_nonempty [] = false
is_nonempty (x ∷ xs) = true

-- the key of a reference against what the step it names declares
abbrev pub check_key : String → String → Option LinkableTool → Result ToolLinkError (Unit {0})
check_key stage key none = err (unknown_step stage)
check_key stage key (some producer) =
    if not (key == "")
      && (is_nonempty (keys producer.outputs) && not (contains (keys producer.outputs) key))
    then err (unknown_output_key stage)
    else ok tt

-- the loop over the mapped arguments of a link
unfoldable pub check_maps :
    String → Dict String LinkableTool → Dict String String → Result ToolLinkError (Unit {0})
unfolding partition_dot lookup
check_maps stage seen [] = ok tt
check_maps stage seen ((target, reference) ∷ maps) =
    let rest = check_maps stage seen maps in
    let parts = partition_dot reference in check_key stage parts.1 (lookup parts.0 seen) >> rest

-- the body of the loop over the links
unfoldable pub check_link : Dict String LinkableTool → ToolLink → Result ToolLinkError (Unit {0})
unfolding check_maps lookup
check_link seen link =
    if is_some (lookup link.step_name seen)
    then err (duplicate_step link.step_name)
    else if is_nonempty (keys link.tool.inputs)
        && is_nonempty (differs_from (supplied link) (keys link.tool.inputs))
    then err (unknown_argument link.step_name)
    else if is_nonempty (differs_from (keys link.tool.inputs) (supplied link))
    then err (missing_argument link.step_name)
    else check_maps link.step_name seen link.mapped_args

unfoldable pub validate_from :
    Dict String LinkableTool → List ToolLink → Result ToolLinkError (Unit {0})
unfolding check_link insert
validate_from seen [] = ok tt
validate_from seen (link ∷ links) =
    let rest = validate_from (insert link.step_name link.tool seen) links in
    check_link seen link >> rest

-- `validate`
unfoldable pub validate : List ToolLink → Result ToolLinkError (Unit {0})
unfolding validate_from
validate links = validate_from [] links

abbrev pub or_no_key : String → Option Json → Result ToolLinkError Json
or_no_key step_name none = err (unknown_output_key step_name)
or_no_key step_name (some v) = ok v

abbrev pub reference_in : String → String → Option Json → Result ToolLinkError Json
reference_in step_name key none = err (unknown_step step_name)
reference_in step_name key (some v) =
    if key == "" then ok v else or_no_key step_name (output_of key v)

-- `_resolve_reference`
unfoldable pub resolve_reference : String → Dict String Json → Result ToolLinkError Json
unfolding partition_dot lookup get_field
resolve_reference reference produced =
    let parts = partition_dot reference in reference_in parts.0 parts.1 (lookup parts.0 produced)

-- the arguments of a link: the static ones, and then the mapped ones
unfoldable pub arguments :
    Dict String Json
    → Dict String String
    → Dict String Json
    → Result ToolLinkError (Dict String Json)
unfolding resolve_reference insert
arguments produced [] kwargs = ok kwargs
arguments produced ((target, reference) ∷ maps) kwargs =
    resolve_reference reference produced >>= λ v. arguments produced maps (insert target v kwargs)

abbrev pub rows_truthy : Option Json → Bool → Bool
rows_truthy none default = default
rows_truthy (some v) default = truthy v

-- `value.get(key, default)` of a dict, and the value itself of anything else
abbrev pub member_truthy : String → Bool → Json → Bool
member_truthy key default (object fs) = rows_truthy (get_field key fs) default
member_truthy key default null = truthy null
member_truthy key default (boolean b) = truthy (boolean b)
member_truthy key default (number n) = truthy (number n)
member_truthy key default (string s) = truthy (string s)
member_truthy key default (array vs) = truthy (array vs)

abbrev pub some_member_truthy : Json → Bool
some_member_truthy (object fs) = any_truthy fs
some_member_truthy null = true
some_member_truthy (boolean b) = true
some_member_truthy (number n) = true
some_member_truthy (string s) = true
some_member_truthy (array vs) = true

-- `_guard_passes`
unfoldable pub guard_passes : String → Json → Result ToolLinkError Bool
unfolding get_field any_truthy
guard_passes guard output =
    if guard == "non_empty"
    then ok (truthy output && some_member_truthy output)
    else if guard == "has_rows"
    then ok (member_truthy "rows" false output)
    else if guard == "succeeded"
    then ok (member_truthy "succeeded" true output)
    else err (unknown_guard guard)

abbrev pub guard_of : Option String → Json → Result ToolLinkError Bool
guard_of none output = ok true
guard_of (some guard) output = guard_passes guard output

abbrev pub start : ToolChainResult
start = record { outputs = []; steps_run = []; stopped_early_at = none; stop_reason = none }

abbrev pub stopped : ToolLink → ToolChainResult → ToolChainResult
stopped link r = record r { stopped_early_at = some link.step_name; stop_reason = link.continue_if }

-- what the guard says, given how the chain goes on
abbrev pub go_on :
    ToolLink
    → ToolChainResult
    → Result ToolLinkError ToolChainResult
    → Bool
    → Result ToolLinkError ToolChainResult
go_on link r further true = further
go_on link r further false = ok (stopped link r)

abbrev pub noted : ToolLink → Json → ToolChainResult → ToolChainResult
noted link output r = record r {
  outputs = insert link.step_name output r.outputs;
  steps_run = r.steps_run ++ link.step_name ∷ [];
}

abbrev pub after_output :
    (ToolChainResult → Result ToolLinkError ToolChainResult)
    → ToolLink
    → ToolChainResult
    → Result String Json
    → Result ToolLinkError ToolChainResult
after_output further link r (err error) = err (tool_failed link.step_name error)
after_output further link r (ok output) =
    guard_of link.continue_if output
    >>= go_on link (noted link output r) (further (noted link output r))

module _ (run_tool : ToolLink → Dict String Json → Result String Json) where
  unfoldable pub run_from : List ToolLink → ToolChainResult → Result ToolLinkError ToolChainResult
  unfolding arguments guard_passes insert
  run_from [] r = ok r
  run_from (link ∷ links) r = arguments r.outputs link.mapped_args link.static_args >>= λ kwargs.
      after_output (λ r'. run_from links r') link r (run_tool link kwargs)

  -- `run`
  unfoldable pub run : List ToolLink → Result ToolLinkError ToolChainResult
  unfolding run_from
  run links = run_from links start
