-- ===== src/Publication/Operations.antt =====
-- praxis/agents/publication.py: `propose` of `SkillPublisher` and `promote_quarantined_code`.
use praxis_ai_agent_platform.Common.{
  ℕ, ◌+◌, max, String, Bool, not, ◌||◌, Option, none, some, List, [], ◌∷◌, ◌++◌, if◌then◌else◌,
  ◌==◌, nat_eq, string_eq, filter, Json, Dict, lookup, insert, remove, Result, ok, err,
}
use praxis_ai_agent_platform.Policy.{Principal, describe}
use praxis_ai_agent_platform.Publication.{
  pending_approval, SkillManifest, Owner, named, requester, SkillRecord, Table, PublicationError,
  policy_check_failed, code_hash_mismatch, import_failed, Problem, check_publication_policy,
  is_named,
}

-- What the code takes from Python: the digest of a code, the parts of a path and the path of a name in
-- the directory of skills, the name of the module of a path, and what the import of a module raises.
pub record Platform : Type 0 where
  pub compute_code_hash : String → String
  pub is_in_package : String → Bool
  pub destination : String → String
  pub module_name : String → String
  pub import_error : String → Option String

-- The files by their paths, and `sys.modules`: the modules imported so far, with the code that ran.
pub record Disk : Type 0 where
  pub files : Dict String String
  pub imported : Dict String String

pub record Catalogue : Type 0 where
  pub table : Table
  pub disk : Disk

-- What an operation leaves: its row or its exception, and the catalogue.
pub record Published : Type 0 where
  pub reply : Result PublicationError SkillRecord
  pub catalogue : Catalogue

-- `max(rows) + 1`, and 1 where there is no row
abbrev pub highest : Table → ℕ
highest [] = 0
highest (r ∷ rs) = max r.version (highest rs)

-- `_next_version`
unfoldable pub next_version : String → String → Table → ℕ
unfolding is_named
next_version tenant_id name db = highest (filter (is_named tenant_id name) db) + 1

-- `a or b` of two texts, and of two lists
abbrev pub or_text : String → String → String
or_text a b = if a == "" then b else a

abbrev pub or_list : List Json → List Json → List Json
or_list [] b = b
or_list (v ∷ vs) b = v ∷ vs

abbrev pub owner_of : SkillManifest → Principal → Owner
owner_of m principal = if m.owner == "" then requester (describe principal) else named m.owner

unfoldable pub proposed :
    Platform → SkillManifest → String → Principal → String → List Json → ℕ → SkillRecord
unfolding describe
proposed py m code principal source_path test_evidence version = record {
  tenant_id = principal.tenant_id;
  name = m.name;
  version = version;
  status = pending_approval;
  risk = m.risk;
  synthesized = m.synthesized;
  inputs_schema = m.inputs;
  outputs_schema = m.outputs;
  owner = owner_of m principal;
  description = m.description;
  required_permissions = m.required_permissions;
  supported_connectors = m.supported_connectors;
  dependencies = m.dependencies;
  model_requirements = m.model_requirements;
  execution_budget = m.execution_budget;
  test_cases = or_list test_evidence m.test_cases;
  code_hash = py.compute_code_hash code;
  source_path = or_text source_path m.source_path;
  approved_by_user_id = none;
  approved_at = none;
}

abbrev pub propose_checked :
    Platform
    → List Problem
    → SkillManifest
    → String
    → Principal
    → String
    → List Json
    → Catalogue
    → Published
propose_checked py (p ∷ ps) m code principal source_path test_evidence c = record {
  reply = err (policy_check_failed (p ∷ ps));
  catalogue = c;
}
propose_checked py [] m code principal source_path test_evidence c =
    let row =
      proposed py m code principal source_path test_evidence
        (next_version principal.tenant_id m.name c.table) in
    record { reply = ok row; catalogue = record c { table = c.table ++ row ∷ [] } }

-- `propose`
unfoldable pub propose :
    Platform
    → List String
    → SkillManifest
    → String
    → Principal
    → String
    → List Json
    → Catalogue
    → Published
unfolding check_publication_policy proposed next_version
propose py permitted m code principal source_path test_evidence c =
    propose_checked py (check_publication_policy permitted principal m) m code principal source_path
      test_evidence c

-- What a promotion leaves: the new path, if the code was moved, or its exception; and the disk.
pub record Promoted : Type 0 where
  pub path : Result PublicationError (Option String)
  pub disk : Disk

-- the import after the move: `import_module` returns the module of that name in `sys.modules`, if there
-- is one, and nothing is executed then
abbrev pub import_moved :
    Platform → String → String → Option String → Option String → Disk → Promoted
import_moved py path code (some loaded) error disk = record { path = ok (some path); disk = disk }
import_moved py path code none (some error) disk = record {
  path = err (import_failed error);
  disk = disk;
}
import_moved py path code none none disk = record {
  path = ok (some path);
  disk = record disk { imported = disk.imported ++ (py.module_name path, code) ∷ [] };
}

abbrev pub promote_checked : Platform → SkillRecord → String → Disk → Promoted
promote_checked py r code disk =
    let actual = py.compute_code_hash code in
    if not (actual == r.code_hash)
    then record { path = err (code_hash_mismatch actual r.code_hash); disk = disk }
    else import_moved py (py.destination r.source_path) code
        (lookup (py.module_name (py.destination r.source_path)) disk.imported)
        (py.import_error (py.module_name (py.destination r.source_path)))
        (record disk {
          files = insert (py.destination r.source_path) code (remove r.source_path disk.files);
        })

abbrev pub promote_found : Platform → SkillRecord → Option String → Disk → Promoted
promote_found py r none disk = record { path = ok none; disk = disk }
promote_found py r (some code) disk =
    if r.source_path == "" || py.is_in_package r.source_path
    then record { path = ok none; disk = disk }
    else promote_checked py r code disk

-- `promote_quarantined_code`
unfoldable pub promote_quarantined_code : Platform → SkillRecord → Disk → Promoted
unfolding lookup insert remove
promote_quarantined_code py r disk = promote_found py r (lookup r.source_path disk.files) disk
