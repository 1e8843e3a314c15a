-- ===== src/Publication/Activation.antt =====
-- What the operations of a publisher do to the versions of a skill, on each of their answers.
use praxis_ai_agent_platform.Common.{
  ℕ, ◌≤◌, String, ◌≡◌, refl, inl, inr, Option, none, some, List, [], ◌∷◌, ◌==◌, nat_eq, string_eq,
  Bool-cases, is_some, length, filter, Json, Result, ok, err,
}
use praxis_ai_agent_platform.Policy.{Principal}
use praxis_ai_agent_platform.Publication.{
  SkillManifest, SkillRecord, PublicationError, is_pending_status, is_version, is_active,
  scalar_one_or_none, Problem,
}
use praxis_ai_agent_platform.Publication.Operations.{
  Platform, Disk, Catalogue, Published, proposed, propose_checked, propose,
}
use praxis_ai_agent_platform.Publication.Decisions.{
  approved_row, commit_promoted, approve_expected, approve_found, approve, reject, reactivated,
  rollback_found, rollback_to, Event, proposes, approves, rejects, rolls_back, step, run,
}
use praxis_ai_agent_platform.Publication.Versions.{
  IsCoherent, approved_row-IsKeeping, reactivated-IsKeeping, supersede-IsCoherent,
  revoke-IsCoherent, add-IsCoherent,
}
use praxis_ai_agent_platform.Publication.Cases.{on_version-cases, scalar-single}

abbrev Coherent : Published → Type 0
Coherent p = IsCoherent p.catalogue.table

commit_promoted-IsCoherent :
    (approver : Principal) (now : ℕ) (r : SkillRecord) (c : Catalogue) (disk : Disk)
    (path : Result PublicationError (Option String))
    → IsCoherent c.table
    → Coherent (commit_promoted approver now r c disk path)
commit_promoted-IsCoherent approver now r c disk (err e) h = h
commit_promoted-IsCoherent approver now r c disk (ok path) h =
    supersede-IsCoherent r.tenant_id r.name r.version (approved_row approver now path)
      (approved_row-IsKeeping approver now path) c.table h

approve_expected-IsCoherent :
    (py : Platform) (approver : Principal) (expected : Option String) (now : ℕ) (c : Catalogue)
    (r : SkillRecord)
    → IsCoherent c.table
    → Coherent (approve_expected py approver expected now c r)
approve_expected-IsCoherent py approver none now c r h =
    commit_promoted-IsCoherent approver now r c _ _ h
approve_expected-IsCoherent py approver (some expected) now c r h =
    elim (Bool-cases (r.code_hash == expected)) [
      | inl same ↦ rw same (commit_promoted-IsCoherent approver now r c _ _ h)
      | inr other ↦ rw other h
    ]

approve_found-IsCoherent :
    (py : Platform) (approver : Principal) (expected : Option String) (now : ℕ) (c : Catalogue)
    (r : SkillRecord)
    → IsCoherent c.table
    → Coherent (approve_found py approver expected now c r)
approve_found-IsCoherent py approver expected now c r h =
    elim (Bool-cases (is_pending_status r.status)) [
      | inl waiting ↦ rw waiting (approve_expected-IsCoherent py approver expected now c r h)
      | inr other ↦ rw other h
    ]

rollback_found-IsCoherent :
    (c : Catalogue) (r : SkillRecord) → IsCoherent c.table → Coherent (rollback_found c r)
rollback_found-IsCoherent c r h = elim (Bool-cases (is_some r.approved_at)) [
  | inl ever ↦ rw ever (
      supersede-IsCoherent r.tenant_id r.name r.version reactivated reactivated-IsKeeping c.table h)
  | inr never ↦ rw never h
]

propose_checked-IsCoherent :
    (py : Platform) (problems : List Problem) (m : SkillManifest) (code : String)
    (principal : Principal) (path : String) (evidence : List Json) (c : Catalogue)
    → IsCoherent c.table
    → Coherent (propose_checked py problems m code principal path evidence c)
unfolding proposed
propose_checked-IsCoherent py (p ∷ ps) m code principal path evidence c h = h
propose_checked-IsCoherent py [] m code principal path evidence c h =
    add-IsCoherent _ c.table refl refl h

step-IsCoherent :
    (py : Platform) (e : Event) (c : Catalogue)
    → IsCoherent c.table
    → IsCoherent (step py e c).table
unfolding step propose approve reject rollback_to
step-IsCoherent py (proposes allowed m code principal path evidence) c h =
    propose_checked-IsCoherent py _ m code principal path evidence c h
step-IsCoherent py (approves name version approver expected now) c h =
    on_version-cases Coherent name version approver c _ (λ e. h)
      (λ d r may one. approve_found-IsCoherent py approver expected now c r h)
step-IsCoherent py (rejects name version approver now) c h =
    on_version-cases Coherent name version approver c _ (λ e. h)
      (λ d r may one. revoke-IsCoherent approver.tenant_id name version approver now c.table h)
step-IsCoherent py (rolls_back name version approver) c h =
    on_version-cases Coherent name version approver c _ (λ e. h)
      (λ d r may one. rollback_found-IsCoherent c r h)

run-IsCoherent_from :
    (py : Platform) (es : List Event) (c : Catalogue)
    → IsCoherent c.table
    → IsCoherent (run py es c).table
unfolding run
run-IsCoherent_from py [] c h = h
run-IsCoherent_from py (e ∷ es) c h =
    run-IsCoherent_from py es (step py e c) (step-IsCoherent py e c h)

-- In a catalogue where no version has two rows and no two versions of a name are active, and so in an
-- empty one: whatever is proposed, approved, rejected or rolled back, in any order, no version of a
-- skill of a tenant ever has two rows, so that the query for it never finds several, and at most one version of
-- it is active.
pub run_keeps_versions_apart :
    (py : Platform) (es : List Event) (c : Catalogue)
    → IsCoherent c.table
    → let db = (run py es c).table in
      ((tenant_id name : String) → length (filter (is_active tenant_id name) db) ≤ 1)
      × ((tenant_id name : String) (version : ℕ)
          → (o : Option SkillRecord) × (scalar_one_or_none
                (filter (is_version tenant_id name version) db)
              ≡ ok o))
run_keeps_versions_apart py es c h =
    let after = run-IsCoherent_from py es c h in
    (after.one_active, λ t n v. scalar-single _ (after.single t n v))
