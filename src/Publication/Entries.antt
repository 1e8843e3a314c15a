-- ===== src/Publication/Entries.antt =====
-- praxis/agents/capability_factory.py and praxis/agents/procedure_registry.py: the other two that enter
-- rows into the table of skills, `_register` of `CapabilityFactory` and `submit_procedure`. What they
-- read off generated code or off a document comes with the call.
use praxis_ai_agent_platform.Common.{
  true, false, String, Bool, Option, none, some, List, [], ◌∷◌, ◌++◌, if◌then◌else◌, any, Dict,
  lookup, insert, Result, ok, err, string_eq,
}
use praxis_ai_agent_platform.Publication.{
  pending_approval, active, SkillStatus, SkillManifest, named, SkillRecord, Table, is_version,
  PublicationError,
}
use praxis_ai_agent_platform.Publication.Operations.{
  Platform, Disk, Catalogue, next_version, or_text, Promoted, import_moved,
}
use praxis_ai_agent_platform.Publication.Decisions.{Event, step}

-- A registration: `require_approval` is the factory's setting, the path is that of the file in the
-- quarantine or in the package, and `is_known` says whether the registry has the skill after an import.
pub record Registration : Type 0 where
  pub tenant_id : String
  pub skill_name : String
  pub risk : String
  pub inputs : Dict String String
  pub outputs : Dict String String
  pub docstring : String
  pub module_code : String
  pub file_path : String
  pub require_approval : Bool
  pub is_known : Bool

-- `PENDING_APPROVAL if require_approval else ACTIVE`
abbrev pub entry_status : Bool → SkillStatus
entry_status require_approval = if require_approval then pending_approval else active

abbrev pub registered_row : Platform → Registration → SkillRecord
registered_row py g = record {
  tenant_id = g.tenant_id;
  name = g.skill_name;
  version = 1;
  status = entry_status g.require_approval;
  risk = g.risk;
  synthesized = true;
  inputs_schema = g.inputs;
  outputs_schema = g.outputs;
  owner = named "";
  description = g.docstring;
  required_permissions = [];
  supported_connectors = [];
  dependencies = [];
  model_requirements = [];
  execution_budget = [];
  test_cases = [];
  code_hash = py.compute_code_hash g.module_code;
  source_path = g.file_path;
  approved_by_user_id = none;
  approved_at = none;
}

-- the commit, which the unique constraint on the tenant, the name and the version may refuse
abbrev pub add_row : SkillRecord → Table → Table
add_row row db =
    if any (is_version row.tenant_id row.name row.version) db then db else db ++ row ∷ []

-- what follows the import of a file: `get_skill`, which raises for an unknown one, and the commit
abbrev pub after_import :
    Platform → Registration → Catalogue → Disk → Result PublicationError (Option String) → Catalogue
after_import py g c disk (err e) = record c { disk = disk }
after_import py g c disk (ok path) = record {
  table = if g.is_known then add_row (registered_row py g) c.table else c.table;
  disk = disk;
}

abbrev pub import_registered : Platform → Registration → Catalogue → Promoted → Catalogue
import_registered py g c promoted = after_import py g c promoted.disk promoted.path

-- `_register`: the file is written first; with the gate off it is imported before the row is added
unfoldable pub register : Platform → Registration → Catalogue → Catalogue
unfolding insert lookup is_version
register py g c =
    let written : Disk = record c.disk { files = insert g.file_path g.module_code c.disk.files } in
    if g.require_approval
    then record { table = add_row (registered_row py g) c.table; disk = written }
    else import_registered py g c (
        import_moved py g.file_path g.module_code
          (lookup (py.module_name g.file_path) c.disk.imported)
          (py.import_error (py.module_name g.file_path)) written)

-- A submission of a document that compiles.
pub record Submission : Type 0 where
  pub tenant_id : String
  pub markdown : String
  pub manifest : SkillManifest
  pub risk : String
  pub tool_names : List String
  pub created_by_user_id : Option String
  pub require_approval : Bool

-- `created_by_user_id or manifest.owner`
abbrev pub author : Option String → String → String
author none owner = owner
author (some user_id) owner = or_text user_id owner

abbrev pub submitted_row : Platform → Submission → Table → SkillRecord
submitted_row py s db = record {
  tenant_id = s.tenant_id;
  name = s.manifest.name;
  version = next_version s.tenant_id s.manifest.name db;
  status = entry_status s.require_approval;
  risk = s.risk;
  synthesized = false;
  inputs_schema = s.manifest.inputs;
  outputs_schema = s.manifest.outputs;
  owner = named (author s.created_by_user_id s.manifest.owner);
  description = s.manifest.description;
  required_permissions = s.manifest.required_permissions;
  supported_connectors = s.manifest.supported_connectors;
  dependencies = s.tool_names;
  model_requirements = [];
  execution_budget = [];
  test_cases = [];
  code_hash = py.compute_code_hash s.markdown;
  source_path = or_text s.manifest.source_path "(submitted via API)";
  approved_by_user_id = none;
  approved_at = none;
}

-- `submit_procedure`
unfoldable pub submit : Platform → Submission → Catalogue → Catalogue
unfolding next_version
submit py s c = record c { table = c.table ++ submitted_row py s c.table ∷ [] }

-- One write to the table: a call of the publisher, a registration, or a submission.
pub data Write : Type 0 where
  publishes : (e : Event) → Write
  registers : (g : Registration) → Write
  submits : (s : Submission) → Write

unfoldable pub write : Platform → Write → Catalogue → Catalogue
unfolding step register submit
write py (publishes e) c = step py e c
write py (registers g) c = register py g c
write py (submits s) c = submit py s c

unfoldable pub run_writes : Platform → List Write → Catalogue → Catalogue
unfolding write
run_writes py [] c = c
run_writes py (w ∷ ws) c = run_writes py ws (write py w c)
