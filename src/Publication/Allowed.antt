-- ===== src/Publication/Allowed.antt =====
-- The callable rows through the publisher's operations: each is of a version that was ruled on.
use praxis_ai_agent_platform.Common.{
  ℕ, String, ◌≡◌, refl, ◌⊎◌, inl, inr, Bool, true, false, Option, none, some, List, [], ◌∷◌, ◌==◌,
  nat_eq, string_eq, Bool-cases, is_some, All, All-append, All-map, map_where, All-map_where, Json,
  Result, ok, err, and_right,
}
use praxis_ai_agent_platform.Policy.{Principal, skill_approve, effective_permissions}
use praxis_ai_agent_platform.Publication.{
  SkillManifest, SkillRecord, Table, PublicationError, is_pending_status, is_active_status,
  is_version, is_active, active, Problem,
}
use praxis_ai_agent_platform.Publication.Operations.{
  Platform, Disk, Catalogue, proposed, propose_checked, propose,
}
use praxis_ai_agent_platform.Publication.Decisions.{
  deprecate, supersede, approved_row, commit_promoted, approve_expected, approve_found, approve,
  revoked_row, reject, reactivated, rollback_found, rollback_to, Event, proposes, approves, rejects,
  rolls_back, step,
}
use praxis_ai_agent_platform.Publication.Entries.{
  Write, publishes, registers, submits, Registration, Submission,
}
use praxis_ai_agent_platform.Publication.Versions.{is_version-same}
use praxis_ai_agent_platform.Publication.Cases.{
  on_version-cases, authorize_approver-ok, scalar-holds,
}
use praxis_ai_agent_platform.Publication.{
  SkillStatus, is_callable_status, deprecated, pending_approval, revoked,
}

-- What stands behind a callable version: its approval, or a rollback to it, by a principal of its
-- tenant that has the permission; or its entry by a registration or a submission that no approval was
-- required of.
pub data IsRuledBy (tenant_id name : String) (version : ℕ) : Write → Type 0 where
  by_approval :
      {approver : Principal} (expected : Option String) (now : ℕ)
      → approver.tenant_id ≡ tenant_id
      → effective_permissions approver skill_approve ≡ true
      → IsRuledBy tenant_id name version (publishes (approves name version approver expected now))
  by_rollback :
      {approver : Principal}
      → approver.tenant_id ≡ tenant_id
      → effective_permissions approver skill_approve ≡ true
      → IsRuledBy tenant_id name version (publishes (rolls_back name version approver))
  by_open_registration :
      {g : Registration}
      → g.tenant_id ≡ tenant_id
      → g.skill_name ≡ name
      → version ≡ 1
      → g.require_approval ≡ false
      → IsRuledBy tenant_id name version (registers g)
  by_open_submission :
      {s : Submission}
      → s.tenant_id ≡ tenant_id
      → s.manifest.name ≡ name
      → s.require_approval ≡ false
      → IsRuledBy tenant_id name version (submits s)

-- Every callable row is of a version that a predicate holds of.
abbrev pub Allowed : (String → String → ℕ → Type 0) → Table → Type 0
Allowed P db = All (λ r. is_callable_status r.status ≡ true → P r.tenant_id r.name r.version) db

-- A function that keeps the tenant, the name and the version of a row.
abbrev IsSameVersion : (SkillRecord → SkillRecord) → Type 0
IsSameVersion f =
    (r : SkillRecord)
    → ((f r).tenant_id ≡ r.tenant_id) × ((f r).name ≡ r.name) × ((f r).version ≡ r.version)

approved_row-IsSameVersion :
    (approver : Principal) (now : ℕ) (path : Option String)
    → IsSameVersion (approved_row approver now path)
approved_row-IsSameVersion approver now none r = (refl, refl, refl)
approved_row-IsSameVersion approver now (some path) r = (refl, refl, refl)

ruled_row :
    (t n : String) (v : ℕ) (r : SkillRecord) (Q : String → String → ℕ → Type 0)
    → is_version t n v r ≡ true
    → Q t n v
    → Q r.tenant_id r.name r.version
ruled_row t n v r Q met held =
    let (t_same, n_same, v_same) = is_version-same t n v r met in simp (t_same, n_same, v_same) held

active-callable : (s : SkillStatus) → is_active_status s ≡ true → is_callable_status s ≡ true
active-callable active h = refl
active-callable deprecated h = refl
active-callable pending_approval h = cc
active-callable revoked h = cc

is_active-callable :
    (t n : String) (r : SkillRecord) → is_active t n r ≡ true → is_callable_status r.status ≡ true
unfolding is_active
is_active-callable t n r h = active-callable r.status (and_right _ _ h)

module _ (P : String → String → ℕ → Type 0) where
  supersede-Allowed :
      (t n : String) (v : ℕ) (f : SkillRecord → SkillRecord) (db : Table)
      → IsSameVersion f
      → P t n v
      → Allowed P db
      → Allowed P (supersede t n v f db)
  unfolding supersede
  supersede-Allowed t n v f db same ruled h =
      All-map_where (λ r. is_callable_status r.status ≡ true → P r.tenant_id r.name r.version)
        (is_version t n v) f (map_where (is_active t n) deprecate db)
        (λ r met old callable.
          let (t_kept, n_kept, v_kept) = same r in
          simp (t_kept, n_kept, v_kept) (ruled_row t n v r P met ruled))
        (All-map_where (λ r. is_callable_status r.status ≡ true → P r.tenant_id r.name r.version)
          (is_active t n) deprecate db (λ r met old callable. old (is_active-callable t n r met)) h)

  propose_checked-Allowed :
      (py : Platform) (problems : List Problem) (m : SkillManifest) (code : String)
      (principal : Principal) (path : String) (evidence : List Json) (c : Catalogue)
      → Allowed P c.table
      → Allowed P (propose_checked py problems m code principal path evidence c).catalogue.table
  unfolding proposed
  propose_checked-Allowed py (p ∷ ps) m code principal path evidence c h = h
  propose_checked-Allowed py [] m code principal path evidence c h =
      All-append (λ r. is_callable_status r.status ≡ true → P r.tenant_id r.name r.version) c.table
        (_ ∷ []) h ((λ callable. cc), tt)

  revoke-Allowed :
      (p : SkillRecord → Bool) (approver : Principal) (now : ℕ) (db : Table)
      → Allowed P db
      → Allowed P (map_where p (revoked_row approver now) db)
  revoke-Allowed p approver now db h =
      All-map_where (λ r. is_callable_status r.status ≡ true → P r.tenant_id r.name r.version) p
        (revoked_row approver now) db (λ r met old callable. cc) h

  commit_promoted-Allowed :
      (approver : Principal) (now : ℕ) (r : SkillRecord) (c : Catalogue) (disk : Disk)
      (path : Result PublicationError (Option String))
      → P r.tenant_id r.name r.version
      → Allowed P c.table
      → Allowed P (commit_promoted approver now r c disk path).catalogue.table
  commit_promoted-Allowed approver now r c disk (err e) ruled h = h
  commit_promoted-Allowed approver now r c disk (ok path) ruled h =
      supersede-Allowed r.tenant_id r.name r.version (approved_row approver now path) c.table
        (approved_row-IsSameVersion approver now path) ruled h

  approve_expected-Allowed :
      (py : Platform) (approver : Principal) (expected : Option String) (now : ℕ) (c : Catalogue)
      (r : SkillRecord)
      → P r.tenant_id r.name r.version
      → Allowed P c.table
      → Allowed P (approve_expected py approver expected now c r).catalogue.table
  approve_expected-Allowed py approver none now c r ruled h =
      commit_promoted-Allowed approver now r c _ _ ruled h
  approve_expected-Allowed py approver (some expected) now c r ruled h =
      elim (Bool-cases (r.code_hash == expected)) [
        | inl same ↦ rw same (commit_promoted-Allowed approver now r c _ _ ruled h)
        | inr other ↦ rw other h
      ]

  approve_found-Allowed :
      (py : Platform) (approver : Principal) (expected : Option String) (now : ℕ) (c : Catalogue)
      (r : SkillRecord)
      → P r.tenant_id r.name r.version
      → Allowed P c.table
      → Allowed P (approve_found py approver expected now c r).catalogue.table
  approve_found-Allowed py approver expected now c r ruled h =
      elim (Bool-cases (is_pending_status r.status)) [
        | inl waiting ↦ rw waiting (approve_expected-Allowed py approver expected now c r ruled h)
        | inr other ↦ rw other h
      ]

  rollback_found-Allowed :
      (c : Catalogue) (r : SkillRecord)
      → P r.tenant_id r.name r.version
      → Allowed P c.table
      → Allowed P (rollback_found c r).catalogue.table
  rollback_found-Allowed c r ruled h = elim (Bool-cases (is_some r.approved_at)) [
    | inl ever ↦ rw ever (
        supersede-Allowed r.tenant_id r.name r.version reactivated c.table (λ x. (refl, refl, refl))
          ruled h)
    | inr never ↦ rw never h
  ]

-- What holds after a step: what held before, or the step's own ruling.
abbrev pub Extended : (String → String → ℕ → Type 0) → Write → String → String → ℕ → Type 0
Extended P e t n v = P t n v ⊎ IsRuledBy t n v e

pub weaken :
    (P Q : String → String → ℕ → Type 0) (db : Table)
    → ((t n : String) (v : ℕ) → P t n v → Q t n v)
    → Allowed P db
    → Allowed Q db
weaken P Q db f h =
    All-map _ _ db (λ r old callable. f r.tenant_id r.name r.version (old callable)) h

pub step-Allowed :
    (P : String → String → ℕ → Type 0) (py : Platform) (e : Event) (c : Catalogue)
    → Allowed P c.table
    → Allowed (Extended P (publishes e)) (step py e c).table
unfolding step propose approve reject rollback_to
step-Allowed P py (proposes allowed m code principal path evidence) c h =
    propose_checked-Allowed (Extended P _) py _ m code principal path evidence c
      (weaken P _ c.table (λ t n v old. inl old) h)
step-Allowed P py (approves name version approver expected now) c h =
    let Q : String → String → ℕ → Type 0 =
      Extended P (publishes (approves name version approver expected now)) in
    let h' : Allowed Q c.table = weaken P Q c.table (λ t n v old. inl old) h in
    on_version-cases (λ p. Allowed Q p.catalogue.table) name version approver c _ (λ e. h')
      (λ d r may one.
        approve_found-Allowed Q py approver expected now c r
          (ruled_row approver.tenant_id name version r Q
            (scalar-holds (is_version approver.tenant_id name version) c.table r one).0
            (inr (by_approval expected now refl (authorize_approver-ok approver d may))))
          h')
step-Allowed P py (rejects name version approver now) c h =
    let Q : String → String → ℕ → Type 0 =
      Extended P (publishes (rejects name version approver now)) in
    let h' : Allowed Q c.table = weaken P Q c.table (λ t n v old. inl old) h in
    on_version-cases (λ p. Allowed Q p.catalogue.table) name version approver c _ (λ e. h')
      (λ d r may one. revoke-Allowed Q _ approver now c.table h')
step-Allowed P py (rolls_back name version approver) c h =
    let Q : String → String → ℕ → Type 0 =
      Extended P (publishes (rolls_back name version approver)) in
    let h' : Allowed Q c.table = weaken P Q c.table (λ t n v old. inl old) h in
    on_version-cases (λ p. Allowed Q p.catalogue.table) name version approver c _ (λ e. h')
      (λ d r may one.
        rollback_found-Allowed Q c r
          (ruled_row approver.tenant_id name version r Q
            (scalar-holds (is_version approver.tenant_id name version) c.table r one).0
            (inr (by_rollback refl (authorize_approver-ok approver d may))))
          h')
