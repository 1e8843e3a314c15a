-- ===== src/StepRunner/Tests.antt =====
-- Steps at concrete inputs.
use praxis_ai_agent_platform.Common.{
  ℕ, String, ◌≡◌, refl, Bool, true, false, Option, none, some, List, [], ◌∷◌, if◌then◌else◌, ◌==◌,
  nat_eq, string_eq, contains, modify, pos, Json, number, string, object, no_fields, field,
  get_field, Dict, lookup, insert, remove, ok, returned, cancelled, is_reference, after_dollar,
  partition_dot,
}
use praxis_ai_agent_platform.Policy.{Principal, effective_permissions}
use praxis_ai_agent_platform.Modes.{Skill, ExecutionMode, execute, read_only, dry_run}
use praxis_ai_agent_platform.Publication.Operations.{Disk}
use praxis_ai_agent_platform.Publication.Operations
use praxis_ai_agent_platform.Publication.Entries.{Write, registers, Registration, run_writes}
use praxis_ai_agent_platform.Publication.Rulings.{Any}
use praxis_ai_agent_platform.Publication.Allowed.{IsRuledBy}
use praxis_ai_agent_platform.ExecutionGraph.{PlanStep}
use praxis_ai_agent_platform.ExecutionGraph.Arguments.{resolve_args}
use praxis_ai_agent_platform.StepRunner.{
  Args, World, Platform, TaskContext, Turn, no_factory, synthesizes, paused, update, escape, Ran,
}
use praxis_ai_agent_platform.StepRunner.Gates.{approval_gate_blocks, synthesize_missing_skill}
use praxis_ai_agent_platform.StepRunner.Running.{resumed, hit_of, run_step}
use praxis_ai_agent_platform.StepRunner.Running
use praxis_ai_agent_platform.StepRunner.Safety.{calls_are_cleared, synthesized_call_was_ruled}
use praxis_ai_agent_platform.StepRunner.Sharing.{Concludes, shared_call_settles}

abbrev py : Platform
py = record {
  int = λ s. if s == "0" then some (pos 0) else none;
  cache_key = λ name args. name;
  urls_of = λ v. [];
  digests = record {
    compute_action_hash = λ name args. name;
    compute_idempotency_key = λ task_id index hash. hash;
  };
  error_text = λ e. "invalid output";
}

abbrev ann : Principal
ann = record {
  tenant_id = "acme";
  user_id = some "ann";
  email = "ann@acme";
  roles = "admin" ∷ [];
  scopes = none;
  api_key_id = none;
  is_system = false;
}

abbrev context : ExecutionMode → TaskContext
context mode = record {
  task_id = "t1";
  principal = ann;
  mode = mode;
  cancelled = false;
  approval_ttl = 60;
  is_graph_stored = true;
}

abbrev fetch : Skill
fetch = record { name = "fetch"; risk = "read_only"; outputs = ("page", "str") ∷ [] }

abbrev restart : Skill
restart = record { name = "restart"; risk = "mutating"; outputs = [] }

abbrev turn : Skill → Option Bool → Turn
turn skill decision = record {
  now = 10;
  registered = some skill;
  synthesis = no_factory;
  catalogue = [];
  catalogue_at_gate = [];
  decision = decision;
  shared = cancelled;
  start_error = none;
  output = returned (string "done");
  store_error = none;
  meanwhile = λ w. w;
}

abbrev start : World
start = record {
  approvals = [];
  task = none;
  published = [];
  denials = [];
  cache = [];
  in_flight = [];
  done = [];
  settled = [];
  used = [];
}

abbrev step : String → PlanStep Args
step name = record {
  skill_name = name;
  args = ("host", string "$0.name") ∷ ("count", number (pos 2)) ∷ [];
  depends_on = [];
}

abbrev results : Dict ℕ Json
results = (0, object (field "name" (string "db1") no_fields)) ∷ []

abbrev arguments : Args
arguments = ("host", string "db1") ∷ ("count", number (pos 2)) ∷ []

abbrev go : ExecutionMode → Skill → Option Bool → Ran
go mode skill decision =
    run_step py (context mode) (turn skill decision) 1 (step skill.name) results start

-- the reference in the arguments is resolved
resolved : resolve_args py.int results (step "fetch").args ≡ ok arguments
unfolding resolve_args lookup get_field is_reference after_dollar partition_dot
resolved = refl

-- a bare result is wrapped under the one declared key, and cached
fetches :
    let ran = go read_only fetch none in
    (ran.called ≡ some (fetch, arguments))
    × (ran.answer
        ≡ update (some (object (field "page" (string "done") no_fields))) "completed" [] [])
    × (ran.world.in_flight ≡ [])
    × (ran.world.used ≡ "fetch" ∷ [])
unfolding run_step resolve_args lookup insert get_field is_reference after_dollar partition_dot
    modify
fetches = (refl, refl, refl, refl)

-- a mutating step pauses, and runs once it is approved; in a dry run it is not called
asks :
    ((go execute restart none).answer ≡ escape paused)
    × ((go execute restart none).called ≡ none)
    × ((go execute restart (some true)).called ≡ some (restart, arguments))
    × ((go dry_run restart (some true)).called ≡ none)
unfolding run_step resolve_args lookup insert get_field is_reference after_dollar partition_dot
    modify
asks = (refl, refl, refl, refl)

calls_are_cleared_example :
    ((context execute).cancelled ≡ false)
    × (resolve_args py.int results (step "restart").args ≡ ok arguments)
    × (approval_gate_blocks "restart" "acme" [] ≡ none)
    × (restart.risk ≡ "mutating"
        → (execute ≡ execute)
          × (some true ≡ some true)
          × ((resumed py
                (context execute)
                (turn restart (some true))
                1
                (step "restart")
                arguments
                true
                start).answer
              ≡ ok true))
    × (restart.risk ≡ "read_only"
        → (hit_of (lookup (py.cache_key "restart" arguments) start.cache) ≡ none)
          × (contains start.in_flight (py.cache_key "restart" arguments) ≡ false))
unfolding run_step resolve_args lookup insert get_field is_reference after_dollar partition_dot
    modify
calls_are_cleared_example =
    calls_are_cleared py (context execute) (turn restart (some true)) 1 (step "restart") results
      start restart arguments refl

abbrev publisher : Operations.Platform
publisher = record {
  compute_code_hash = λ code. code;
  is_in_package = λ path. false;
  destination = λ path. "skills/fetch.py";
  module_name = λ path. path;
  import_error = λ name. none;
}

abbrev disk : Disk
disk = record { files = ("quarantine/fetch.py", "v1") ∷ []; imported = [] }

-- a skill is generated in the run itself, with the gate of the factory off, and then called
abbrev generated : Registration
generated = record {
  tenant_id = "acme";
  skill_name = "fetch";
  risk = "read_only";
  inputs = [];
  outputs = ("page", "str") ∷ [];
  docstring = "";
  module_code = "v1";
  file_path = "skills/fetch.py";
  require_approval = false;
  is_known = true;
}

abbrev history : List Write
history = registers generated ∷ []

abbrev synthesizing_turn : Turn
synthesizing_turn = record (turn fetch none) {
  registered = none;
  synthesis = synthesizes fetch;
  catalogue_at_gate = (run_writes publisher history (record { table = []; disk = disk })).table;
}

synthesized_call_was_ruled_example : (version : ℕ) × Any (IsRuledBy "acme" "fetch" version) history
unfolding synthesize_missing_skill run_writes effective_permissions remove run_step resolve_args
    lookup insert get_field is_reference after_dollar partition_dot modify
synthesized_call_was_ruled_example =
    synthesized_call_was_ruled py (context execute) synthesizing_turn 1 (step "fetch") results start
      fetch arguments publisher history disk refl refl (λ h. cc)

shared_call_settles_example :
    Concludes py
      (context read_only)
      (turn fetch none)
      1
      fetch
      arguments
      "k"
      start
      (Running.execute py (context read_only) (turn fetch none) 1 fetch arguments (some "k") start)
shared_call_settles_example =
    shared_call_settles py (context read_only) (turn fetch none) 1 fetch arguments "k" start
