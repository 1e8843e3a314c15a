-- ===== src/ToolChain/Wiring.antt =====
-- What the validation of a chain promises for its runs.
use praxis_ai_agent_platform.Common.{
  String, ◌≡◌, refl, ap, ◌∙◌, inl, inr, Bool, true, false, ◌&&◌, Option, none, some, List, [], ◌∷◌,
  ◌==◌, nat_eq, string_eq, Bool-cases, is_some, contains, All, Json, Dict, lookup, insert,
  lookup-insert, Result, ok, err, ◌>>=◌, >>=-eq-ok, partition_dot,
}
use mathlib.Core.Path.{subst}
use praxis_ai_agent_platform.Outputs.{keys}
use praxis_ai_agent_platform.ExecutionGraph.Arguments.{output_of}
use praxis_ai_agent_platform.ToolChain.{
  LinkableTool, ToolLink, ToolLinkError, tool_failed, unknown_guard, unknown_output_key,
  ToolChainResult, is_nonempty, supplied, differs_from, check_key, check_maps, check_link,
  validate_from, validate, reference_in, resolve_reference, arguments, guard_passes, guard_of,
  start, go_on, noted, after_output, run_from, run,
}

-- An output that has something under every key that the tool declares.
abbrev pub Meets : LinkableTool → Json → Type 0
Meets tool v =
    (key : String)
    → contains (keys tool.outputs) key ≡ true
    → (u : Json) × (output_of key v ≡ some u)

-- Tools that declare outputs and produce what they declare.
abbrev pub IsReliable : (ToolLink → Dict String Json → Result String Json) → ToolLink → Type 0
IsReliable run_tool link =
    (is_nonempty (keys link.tool.outputs) ≡ true)
    × ((kwargs : Dict String Json) (v : Json) → run_tool link kwargs ≡ ok v → Meets link.tool v)

-- What may still go wrong in a run: a tool's own failure, and a guard that there is none of.
pub data IsOwnFailure : ToolLinkError → Type 0 where
  by_tool : (stage error : String) → IsOwnFailure (tool_failed stage error)
  by_guard : (guard : String) → IsOwnFailure (unknown_guard guard)

-- The steps that the validation has seen have produced what they declare.
abbrev Supplies : Dict String LinkableTool → Dict String Json → Type 0
Supplies seen produced =
    (name : String) (tool : LinkableTool)
    → lookup name seen ≡ some tool
    → (is_nonempty (keys tool.outputs) ≡ true)
      × (v : Json) × (lookup name produced ≡ some v)
      × Meets tool v

reference_resolves :
    (stage key : String) (o : Option LinkableTool) (p : Option Json)
    → check_key stage key o ≡ ok tt
    → ((tool : LinkableTool)
        → o ≡ some tool
        → (is_nonempty (keys tool.outputs) ≡ true) × (v : Json) × (p ≡ some v) × Meets tool v)
    → (name : String) → (u : Json) × (reference_in name key p ≡ ok u)
reference_resolves stage key none p checked has name = cc
reference_resolves stage key (some tool) p checked has name =
    let (declares, v, here, meets) = has tool refl in
    elim (Bool-cases (key == "")) [
      | inl whole ↦ (v, simp (here, whole) refl)
      | inr part ↦ elim (Bool-cases (contains (keys tool.outputs) key)) [
        | inl declared ↦ let (u, there) = meets key declared in (u, simp (here, part, there) refl)
        | inr unknown ↦
            let impossible : ◌≡◌ {A = Result ToolLinkError (Unit {0})}
                (err (unknown_output_key stage)) (ok tt) =
              simp (part, declares, unknown) at checked in
            cc
      ]
    ]

arguments_resolve :
    (stage : String) (seen : Dict String LinkableTool) (produced : Dict String Json)
    (maps : Dict String String) (kwargs : Dict String Json)
    → check_maps stage seen maps ≡ ok tt
    → Supplies seen produced
    → (all_args : Dict String Json) × (arguments produced maps kwargs ≡ ok all_args)
unfolding check_maps arguments resolve_reference
arguments_resolve stage seen produced [] kwargs checked h = (kwargs, refl)
arguments_resolve stage seen produced ((target, reference) ∷ maps) kwargs checked h =
    let parts = partition_dot reference in
    let (u, first, rest) = >>=-eq-ok (check_key stage parts.1 (lookup parts.0 seen)) _ checked in
    let (v, resolved) =
      reference_resolves stage parts.1 (lookup parts.0 seen) (lookup parts.0 produced) first
        (λ tool found. h parts.0 tool found) parts.0 in
    let (a, more) = arguments_resolve stage seen produced maps (insert target v kwargs) rest h in
    (a, simp resolved more)

guard_fails :
    (guard : String) (output : Json) (e : ToolLinkError)
    → guard_passes guard output ≡ err e
    → IsOwnFailure e
unfolding guard_passes
guard_fails guard output e h = elim (Bool-cases (guard == "non_empty")) [
  | inl a ↦ let clash = simp a at h in cc
  | inr a ↦ elim (Bool-cases (guard == "has_rows")) [
    | inl b ↦ let clash = simp (a, b) at h in cc
    | inr b ↦ elim (Bool-cases (guard == "succeeded")) [
      | inl c ↦ let clash = simp (a, b, c) at h in cc
      | inr c ↦
          let that : ◌≡◌ {A = Result ToolLinkError Bool} (err (unknown_guard guard)) (err e) =
            simp (a, b, c) at h in
          let same : unknown_guard guard ≡ e = cc in subst IsOwnFailure same (by_guard guard)
    ]
  ]
]

guard_of_fails :
    (guard : Option String) (output : Json) (e : ToolLinkError)
    → guard_of guard output ≡ err e
    → IsOwnFailure e
guard_of_fails none output e h = cc
guard_of_fails (some guard) output e h = guard_fails guard output e h

check_link-maps :
    (seen : Dict String LinkableTool) (link : ToolLink)
    → check_link seen link ≡ ok tt
    → check_maps link.step_name seen link.mapped_args ≡ ok tt
unfolding check_link
check_link-maps seen link h = elim (Bool-cases (is_some (lookup link.step_name seen))) [
  | inl again ↦ let clash = simp again at h in cc
  | inr new ↦
      elim (Bool-cases (
        is_nonempty (keys link.tool.inputs)
        && is_nonempty (differs_from (supplied link) (keys link.tool.inputs)))) [
          | inl extra ↦ let clash = simp (new, extra) at h in cc
          | inr known ↦
              elim (Bool-cases
                (is_nonempty (differs_from (keys link.tool.inputs) (supplied link)))) [
                  | inl lacking ↦ let clash = simp (new, known, lacking) at h in cc
                  | inr all_there ↦ simp (new, known, all_there) at h
                ]
        ]
]

Supplies-insert :
    (name : String) (tool : LinkableTool) (v : Json) (seen : Dict String LinkableTool)
    (produced : Dict String Json)
    → is_nonempty (keys tool.outputs) ≡ true
    → Meets tool v
    → Supplies seen produced
    → Supplies (insert name tool seen) (insert name v produced)
Supplies-insert name tool v seen produced declares meets h other t found =
    elim (Bool-cases (name == other)) [
      | inl same ↦
          let looked = lookup-insert name other tool seen in
          let this : some tool ≡ some t = simp (looked, same) at found in
          let that : tool ≡ t = cc in
          let produced_here : lookup other (insert name v produced) ≡ some v =
            simp (lookup-insert name other v produced, same) refl in
          subst
            (λ (t' : LinkableTool).
              (is_nonempty (keys t'.outputs) ≡ true)
              × (v' : Json) × (lookup other (insert name v produced) ≡ some v')
              × Meets t' v')
            that (declares, v, produced_here, meets)
      | inr apart ↦
          let looked = lookup-insert name other tool seen in
          let before : lookup other seen ≡ some t = simp (looked, apart) at found in
          let (declares', v', here, meets') = h other t before in
          (declares', v', simp (lookup-insert name other v produced, apart) here, meets')
    ]

module _ (run_tool : ToolLink → Dict String Json → Result String Json) where
  go_on-fails :
      (link : ToolLink) (r : ToolChainResult) (further : Result ToolLinkError ToolChainResult)
      (b : Bool) (e : ToolLinkError)
      → go_on link r further b ≡ err e
      → further ≡ err e
  go_on-fails link r further true e h = h
  go_on-fails link r further false e h = cc

  guarded-fails :
      (link : ToolLink) (output : Json) (r : ToolChainResult)
      (further : Result ToolLinkError ToolChainResult) (reply : Result ToolLinkError Bool)
      (e : ToolLinkError)
      → guard_of link.continue_if output ≡ reply
      → (reply >>= go_on link r further) ≡ err e
      → (further ≡ err e → IsOwnFailure e)
      → IsOwnFailure e
  guarded-fails link output r further (ok b) e is h later = later (go_on-fails link r further b e h)
  guarded-fails link output r further (err e') e is h later =
      let same : e' ≡ e = cc in guard_of_fails link.continue_if output e (is ∙ ap err same)

  output-fails :
      (further : ToolChainResult → Result ToolLinkError ToolChainResult) (link : ToolLink)
      (r : ToolChainResult) (reply : Result String Json) (e : ToolLinkError)
      → after_output further link r reply ≡ err e
      → ((v : Json) → reply ≡ ok v → further (noted link v r) ≡ err e → IsOwnFailure e)
      → IsOwnFailure e
  output-fails further link r (err error) e h later =
      let same : tool_failed link.step_name error ≡ e = cc in
      subst IsOwnFailure same (by_tool link.step_name error)
  output-fails further link r (ok v) e h later =
      guarded-fails link v (noted link v r) (further (noted link v r)) _ e refl h
        (λ fails. later v refl fails)

  run_from-fails :
      (links : List ToolLink) (seen : Dict String LinkableTool) (r : ToolChainResult)
      (e : ToolLinkError)
      → validate_from seen links ≡ ok tt
      → All (IsReliable run_tool) links
      → Supplies seen r.outputs
      → run_from run_tool links r ≡ err e
      → IsOwnFailure e
  unfolding run_from validate_from
  run_from-fails [] seen r e valid reliable h fails = cc
  run_from-fails (link ∷ links) seen r e valid reliable h fails =
      let (u, first, rest) = >>=-eq-ok (check_link seen link) _ valid in
      let (kwargs, resolved) =
        arguments_resolve link.step_name seen r.outputs link.mapped_args link.static_args
          (check_link-maps seen link first) h in
      let ran : after_output (λ r'. run_from run_tool links r') link r (run_tool link kwargs)
          ≡ err e =
        simp resolved at fails in
      output-fails (λ r'. run_from run_tool links r') link r (run_tool link kwargs) e ran
        (λ v made later.
          run_from-fails links (insert link.step_name link.tool seen) (noted link v r) e rest
            reliable.1
            (Supplies-insert link.step_name link.tool v seen r.outputs reliable.0.0
              (reliable.0.1 kwargs v made) h)
            later)

-- A chain that is validated can be run: if its tools declare outputs and produce what they declare,
-- then no reference of the chain fails. What a run may still raise is a tool's own failure, or a guard
-- that does not exist, which the validation does not look at.
pub validated_chain_is_wired :
    (run_tool : ToolLink → Dict String Json → Result String Json) (links : List ToolLink)
    (e : ToolLinkError)
    → validate links ≡ ok tt
    → All (IsReliable run_tool) links
    → run run_tool links ≡ err e
    → IsOwnFailure e
unfolding validate run
validated_chain_is_wired run_tool links e valid reliable fails =
    run_from-fails run_tool links [] start e valid reliable (λ name tool found. cc) fails
