-- ===== src/Publication/Decisions.antt =====
-- praxis/agents/publication.py: the operations of `SkillPublisher` that need an approver.
use praxis_ai_agent_platform.Common.{
  ℕ, String, not, Option, none, some, List, [], ◌∷◌, if◌then◌else◌, ◌==◌, nat_eq, string_eq,
  is_some, filter, map_where, Json, Result, ok, err,
}
use praxis_ai_agent_platform.Policy.{
  Principal, skill_approve, AuthorizationError, PolicyDecision, authorize,
}
use praxis_ai_agent_platform.Publication.{
  active, deprecated, revoked, is_pending_status, SkillManifest, SkillRecord, Table,
  PublicationError, not_found, wrong_status, code_hash_mismatch, never_approved, unauthorized,
  is_version, is_active, scalar_one_or_none,
}
use praxis_ai_agent_platform.Publication.Operations.{
  Platform, Disk, Catalogue, Published, propose, Promoted, promote_quarantined_code,
}

-- `engine.authorize(approver, Permission.SKILL_APPROVE, resource_type="skill")`
unfoldable pub authorize_approver : Principal → Result AuthorizationError PolicyDecision
unfolding authorize
authorize_approver approver =
    authorize approver skill_approve
      (record { resource_type = "skill"; resource_id = none; owner = none })

abbrev pub keep : PublicationError → Catalogue → Published
keep e c = record { reply = err e; catalogue = c }

-- the row of a version, for an operation that an approver may do
abbrev pub found :
    (SkillRecord → Published) → Catalogue → Result PublicationError (Option SkillRecord) → Published
found next c (err e) = keep e c
found next c (ok none) = keep not_found c
found next c (ok (some r)) = next r

abbrev pub permitted : Published → Catalogue → Result AuthorizationError PolicyDecision → Published
permitted next c (err e) = keep (unauthorized e) c
permitted next c (ok d) = next

abbrev pub on_version : String → ℕ → Principal → Catalogue → (SkillRecord → Published) → Published
on_version name version approver c next =
    permitted
      (found next c
        (scalar_one_or_none (filter (is_version approver.tenant_id name version) c.table)))
      c (authorize_approver approver)

abbrev pub deprecate : SkillRecord → SkillRecord
deprecate r = record r { status = deprecated }

-- the versions that are active give way, and then one becomes active
unfoldable pub supersede : String → String → ℕ → (SkillRecord → SkillRecord) → Table → Table
unfolding is_active is_version
supersede tenant_id name version activate db =
    map_where (is_version tenant_id name version) activate
      (map_where (is_active tenant_id name) deprecate db)

-- `record.source_path` as the promotion leaves it
abbrev pub moved_to : Option String → SkillRecord → SkillRecord
moved_to none r = r
moved_to (some path) r = record r { source_path = path }

abbrev pub approved_row : Principal → ℕ → Option String → SkillRecord → SkillRecord
approved_row approver now path r =
    moved_to path
      (record r { status = active; approved_by_user_id = approver.user_id; approved_at = some now })

-- the commit, which a refused promotion does not reach
abbrev pub commit_promoted :
    Principal
    → ℕ
    → SkillRecord
    → Catalogue
    → Disk
    → Result PublicationError (Option String)
    → Published
commit_promoted approver now r c disk (err e) = record {
  reply = err e;
  catalogue = record c { disk = disk };
}
commit_promoted approver now r c disk (ok path) = record {
  reply = ok (approved_row approver now path r);
  catalogue = record {
    table = supersede r.tenant_id r.name r.version (approved_row approver now path) c.table;
    disk = disk;
  };
}

abbrev pub commit_approval : Principal → ℕ → SkillRecord → Catalogue → Promoted → Published
commit_approval approver now r c promoted =
    commit_promoted approver now r c promoted.disk promoted.path

-- `expected_code_hash is not None and record.code_hash != expected_code_hash`
abbrev pub approve_expected :
    Platform → Principal → Option String → ℕ → Catalogue → SkillRecord → Published
approve_expected py approver none now c r =
    commit_approval approver now r c (promote_quarantined_code py r c.disk)
approve_expected py approver (some expected) now c r =
    if not (r.code_hash == expected)
    then keep (code_hash_mismatch r.code_hash expected) c
    else commit_approval approver now r c (promote_quarantined_code py r c.disk)

abbrev pub approve_found :
    Platform → Principal → Option String → ℕ → Catalogue → SkillRecord → Published
approve_found py approver expected now c r =
    if not (is_pending_status r.status)
    then keep (wrong_status r.status) c
    else approve_expected py approver expected now c r

-- `approve`
unfoldable pub approve :
    Platform → String → ℕ → Principal → Option String → ℕ → Catalogue → Published
unfolding promote_quarantined_code authorize_approver supersede is_version
approve py name version approver expected now c =
    on_version name version approver c (approve_found py approver expected now c)

abbrev pub revoked_row : Principal → ℕ → SkillRecord → SkillRecord
revoked_row approver now r = record r {
  status = revoked;
  approved_by_user_id = approver.user_id;
  approved_at = some now;
}

-- `reject`, which `revoke` calls
unfoldable pub reject : String → ℕ → Principal → ℕ → Catalogue → Published
unfolding authorize_approver is_version
reject name version approver now c = on_version name version approver c (λ r. record {
  reply = ok (revoked_row approver now r);
  catalogue = record c {
    table =
        map_where (is_version approver.tenant_id name version) (revoked_row approver now) c.table;
  };
})

abbrev pub reactivated : SkillRecord → SkillRecord
reactivated r = record r { status = active }

abbrev pub rollback_found : Catalogue → SkillRecord → Published
rollback_found c r =
    if is_some r.approved_at
    then record {
      reply = ok (reactivated r);
      catalogue = record c { table = supersede r.tenant_id r.name r.version reactivated c.table };
    }
    else keep never_approved c

-- `rollback_to`
unfoldable pub rollback_to : String → ℕ → Principal → Catalogue → Published
unfolding authorize_approver supersede is_version
rollback_to name version approver c = on_version name version approver c (rollback_found c)

-- One call of a publisher; a manifest comes with its code, its requester and its evidence.
pub data Event : Type 0 where
  proposes :
      (permitted : List String) (manifest : SkillManifest) (code : String) (requester : Principal)
      (source_path : String) (test_evidence : List Json)
      → Event
  approves :
      (name : String) (version : ℕ) (approver : Principal) (expected : Option String) (now : ℕ)
      → Event
  rejects : (name : String) (version : ℕ) (approver : Principal) (now : ℕ) → Event
  rolls_back : (name : String) (version : ℕ) (approver : Principal) → Event

unfoldable pub step : Platform → Event → Catalogue → Catalogue
unfolding propose approve reject rollback_to
step py (proposes permitted m code principal path evidence) c =
    (propose py permitted m code principal path evidence c).catalogue
step py (approves name version approver expected now) c =
    (approve py name version approver expected now c).catalogue
step py (rejects name version approver now) c = (reject name version approver now c).catalogue
step py (rolls_back name version approver) c = (rollback_to name version approver c).catalogue

unfoldable pub run : Platform → List Event → Catalogue → Catalogue
unfolding step
run py [] c = c
run py (e ∷ es) c = run py es (step py e c)
