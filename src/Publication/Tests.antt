-- ===== src/Publication/Tests.antt =====
-- The life of a skill at concrete inputs.
use praxis_ai_agent_platform.Common.{
  ℕ, ◌≤◌, String, ◌≡◌, refl, ◌↔◌, ◌⊎◌, true, false, Option, none, some, List, [], ◌∷◌, arith,
  if◌then◌else◌, ◌==◌, nat_eq, string_eq, length, filter, contains, All, lookup, insert, remove, ok,
  err,
}
use praxis_ai_agent_platform.Policy.{Principal, effective_permissions}
use praxis_ai_agent_platform.Publication.{
  SkillStatus, active, deprecated, pending_approval, PublicationError, active_version,
  SkillManifest, SkillRecord, Table, is_callable_status, is_active, is_version, scalar_one_or_none,
  is_callable, pending,
}
use praxis_ai_agent_platform.Publication.Operations.{proposed, Platform, Disk, Catalogue, propose}
use praxis_ai_agent_platform.Publication.Decisions.{
  Event, proposes, approves, rejects, rolls_back, run, approve, reject, rollback_to, reactivated,
  revoked_row,
}
use praxis_ai_agent_platform.Publication.Activation.{run_keeps_versions_apart}
use praxis_ai_agent_platform.Publication.Proposals.{IsHeld, IsAdded, propose_iff}
use praxis_ai_agent_platform.Publication.Approving.{Returned, approve_binds}
use praxis_ai_agent_platform.Publication.Rulings.{Any, callable_was_ruled}
use praxis_ai_agent_platform.Publication.Allowed.{IsRuledBy}
use praxis_ai_agent_platform.Publication.Entries.{
  Registration, Submission, Write, publishes, registers, submits, run_writes,
}
use praxis_ai_agent_platform.Publication.Rollbacks.{rejected_version_rolls_back}

-- the digest of a code is the code; modules are named by their paths, and one of them cannot be imported
abbrev py : Platform
py = record {
  compute_code_hash = λ code. code;
  is_in_package = λ path. path == "skills/fetch.py";
  destination =
      λ path. if path == "quarantine/fetch.py" then "skills/fetch.py" else "skills/broken.py";
  module_name = λ path. path;
  import_error = λ name. if name == "skills/broken.py" then some "SyntaxError" else none;
}

abbrev admin : Principal
admin = record {
  tenant_id = "acme";
  user_id = some "ann";
  email = "ann@acme";
  roles = "admin" ∷ [];
  scopes = none;
  api_key_id = none;
  is_system = false;
}

abbrev analyst : Principal
analyst = record admin { user_id = some "bob"; roles = "analyst" ∷ [] }

abbrev fetch : SkillManifest
fetch = record {
  name = "fetch";
  description = "fetches a page";
  owner = "";
  risk = "read_only";
  inputs = ("url", "str") ∷ [];
  outputs = ("page", "str") ∷ [];
  required_permissions = "connector:read" ∷ [];
  supported_connectors = [];
  dependencies = [];
  model_requirements = [];
  execution_budget = [];
  test_cases = [];
  source_path = "quarantine/fetch.py";
  synthesized = true;
}

abbrev disk : Disk
disk = record {
  files = ("quarantine/fetch.py", "v1") ∷ ("quarantine/broken.py", "b1") ∷ [];
  imported = [];
}

abbrev empty : Catalogue
empty = record { table = []; disk = disk }

abbrev broken : SkillManifest
broken = record fetch { name = "broken"; source_path = "quarantine/broken.py" }

-- the catalogue with both proposed
abbrev two_pending : Catalogue
two_pending =
    run py (proposes [] fetch "v1" analyst "" [] ∷ proposes [] broken "b1" analyst "" [] ∷ []) empty

abbrev statuses : Table → List SkillStatus
statuses [] = []
statuses (r ∷ rs) = r.status ∷ statuses rs

-- proposed twice, the first version approved, the second rejected and then rolled back to
abbrev history : List Event
history =
    proposes [] fetch "v1" analyst "" []
    ∷ proposes [] fetch "v2" analyst "quarantine/other.py" []
    ∷ approves "fetch" 1 admin (some "v1") 10
    ∷ rejects "fetch" 2 admin 20
    ∷ rolls_back "fetch" 2 admin
    ∷ []

history_runs :
    let after = run py history empty in
    (statuses after.table ≡ deprecated ∷ active ∷ [])
    × (after.disk.imported ≡ ("skills/fetch.py", "v1") ∷ [])
    × (is_callable "acme" "fetch" after.table ≡ true)
    × (pending "acme" after.table ≡ [])
unfolding run lookup insert remove effective_permissions is_callable pending
history_runs = (refl, refl, refl, refl)

run_keeps_versions_apart_example :
    let db = (run py history empty).table in
    ((tenant_id name : String) → length (filter (is_active tenant_id name) db) ≤ 1)
    × ((tenant_id name : String) (version : ℕ)
        → (o : Option SkillRecord) × (scalar_one_or_none
              (filter (is_version tenant_id name version) db)
            ≡ ok o))
run_keeps_versions_apart_example =
    run_keeps_versions_apart py history empty
      (record { single = λ t n v. omega arith; one_active = λ t n. omega arith })

abbrev procedure : Submission
procedure = record {
  tenant_id = "acme";
  markdown = "# Weekly report";
  manifest = record fetch { name = "report"; source_path = "" };
  risk = "read_only";
  tool_names = "query" ∷ [];
  created_by_user_id = some "bob";
  require_approval = true;
}

abbrev generated : Registration
generated = record {
  tenant_id = "acme";
  skill_name = "scrape";
  risk = "read_only";
  inputs = [];
  outputs = [];
  docstring = "scrapes a page";
  module_code = "s1";
  file_path = "skills/fetch.py";
  require_approval = false;
  is_known = true;
}

-- a registration with the gate off, a submission with the gate on, and a proposal that is approved
abbrev writes : List Write
writes =
    registers generated
    ∷ submits procedure
    ∷ publishes (proposes [] fetch "v1" analyst "" [])
    ∷ publishes (approves "fetch" 1 admin (some "v1") 10)
    ∷ []

-- the approval finds the module of the registration in `sys.modules`, whose code stays
writes_run :
    let after = run_writes py writes empty in
    (statuses after.table ≡ active ∷ pending_approval ∷ active ∷ [])
    × (after.disk.imported ≡ ("skills/fetch.py", "s1") ∷ [])
unfolding run_writes lookup insert remove effective_permissions
writes_run = (refl, refl)

callable_was_ruled_example :
    All
      (λ r.
        is_callable_status r.status ≡ true → Any (IsRuledBy r.tenant_id r.name r.version) writes)
      (run_writes py writes empty).table
callable_was_ruled_example = callable_was_ruled py writes disk

propose_iff_example :
    let p = propose py [] fetch "v1" analyst "" [] empty in
    (((row : SkillRecord) × IsAdded py fetch "v1" analyst empty row p) ↔ (
      All (IsHeld analyst) fetch.required_permissions
      × All (λ d. contains {A = String} [] d ≡ true) fetch.dependencies
      × ((fetch.risk ≡ "read_only") ⊎ (fetch.risk ≡ "mutating"))))
    × ((e : PublicationError) → p.reply ≡ err e → p.catalogue ≡ empty)
propose_iff_example = propose_iff py [] fetch "v1" analyst "" [] empty

abbrev fetch_row : SkillRecord
fetch_row = proposed py fetch "v1" analyst "" [] 1

abbrev approved_fetch : SkillRecord
approved_fetch = record fetch_row {
  status = active;
  approved_by_user_id = some "ann";
  approved_at = some 10;
  source_path = "skills/fetch.py";
}

approve_binds_example :
    Returned py "fetch" 1 admin
      (some "v1")
      10
      two_pending
      approved_fetch
      (approve py "fetch" 1 admin (some "v1") 10 two_pending).catalogue
unfolding run lookup insert remove effective_permissions proposed approve
approve_binds_example =
    approve_binds py "fetch" 1 admin (some "v1") 10 two_pending approved_fetch refl

abbrev rejected_fetch : SkillRecord
rejected_fetch = revoked_row admin 20 fetch_row

rejected_version_rolls_back_example :
    let after = rollback_to "fetch" 1 admin (reject "fetch" 1 admin 20 two_pending).catalogue in
    (after.reply ≡ ok (reactivated rejected_fetch))
    × (active_version "acme" "fetch" after.catalogue.table ≡ some (reactivated rejected_fetch))
unfolding run lookup insert remove effective_permissions proposed reject
rejected_version_rolls_back_example =
    rejected_version_rolls_back "fetch" 1 admin 20 two_pending rejected_fetch refl
