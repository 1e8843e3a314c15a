-- ===== src/Publication/Approving.antt =====
-- The two answers of an approval: what is approved is what runs, and what a refusal leaves.
use praxis_ai_agent_platform.Common.{
  ℕ, String, ◌≡◌, refl, ap, ◌∙◌, ◌⊎◌, inl, inr, true, Option, none, some, eq_iff, ◌==◌, nat_eq,
  string_eq, Bool-cases, find_first, lookup, Result, ok, err, ok_injective,
}
use praxis_ai_agent_platform.Policy.{Principal, skill_approve, effective_permissions}
use praxis_ai_agent_platform.Publication.{
  SkillStatus, pending_approval, deprecated, revoked, SkillRecord, PublicationError, import_failed,
  is_pending_status, is_active_status, is_version, active, active_version,
}
use praxis_ai_agent_platform.Publication.Operations.{Platform, Catalogue, Published, Promoted}
use praxis_ai_agent_platform.Publication.Decisions.{
  keep, deprecate, supersede, approved_row, commit_promoted, approve_expected, approve_found,
  approve,
}
use praxis_ai_agent_platform.Publication.Versions.{approved_row-IsKeeping}
use praxis_ai_agent_platform.Publication.Cases.{
  on_version-cases, authorize_approver-ok, scalar-holds, version-first,
}
use mathlib.Core.Path.{subst}
use praxis_ai_agent_platform.Publication.Effects.{
  active_version-supersede, Moves, Imports, Answers, promote-cases,
}

approved_row-stands :
    (approver : Principal) (now : ℕ) (path : Option String) (r : SkillRecord)
    → ((approved_row approver now path r).status ≡ active)
      × ((approved_row approver now path r).code_hash ≡ r.code_hash)
      × (approved_row approver now path (deprecate r) ≡ approved_row approver now path r)
approved_row-stands approver now none r = (refl, refl, refl)
approved_row-stands approver now (some path) r = (refl, refl, refl)

pending_status : (s : SkillStatus) → is_pending_status s ≡ true → s ≡ pending_approval
pending_status pending_approval h = refl
pending_status active h = cc
pending_status deprecated h = cc
pending_status revoked h = cc

module _ (py : Platform) (approver : Principal) (expected : Option String) (c : Catalogue) where
  -- What an approval of a row leaves that returns a row.
  pub record IsApproved (r row : SkillRecord) (after : Catalogue) : Type 0 where
    pub was_pending : is_pending_status r.status ≡ true
    pub as_expected : (hash : String) → expected ≡ some hash → r.code_hash ≡ hash
    pub same_code : row.code_hash ≡ r.code_hash
    pub now_active : active_version r.tenant_id r.name after.table ≡ some row
    pub on_disk :
        (after.disk ≡ c.disk)
        ⊎ ((code : String) × Moves py r c.disk after.disk code
            × Imports py r c.disk after.disk code)

  -- What an approval of a row leaves whose import has failed.
  abbrev pub IsLeft : SkillRecord → PublicationError → Catalogue → Type 0
  IsLeft r e after =
      (code : String) × (error : String) × (e ≡ import_failed error)
      × (r.status ≡ pending_approval)
      × Moves py r c.disk after.disk code
      × (lookup (py.module_name (py.destination r.source_path)) c.disk.imported ≡ none)
      × (after.disk.imported ≡ c.disk.imported)

  -- What an approval of a row leaves that raises.
  abbrev pub IsRefused : SkillRecord → PublicationError → Catalogue → Type 0
  IsRefused r e after = (after.table ≡ c.table) × ((after.disk ≡ c.disk) ⊎ IsLeft r e after)

  abbrev pub Settled : SkillRecord → Published → Type 0
  Settled r p =
      ((row : SkillRecord) → p.reply ≡ ok row → IsApproved r row p.catalogue)
      × ((e : PublicationError) → p.reply ≡ err e → IsRefused r e p.catalogue)

  keep-Settled : (r : SkillRecord) (e : PublicationError) → Settled r (keep e c)
  keep-Settled r e = ((λ row h. cc), (λ e' h. (refl, inl refl)))

  promotion-IsRefused :
      (r : SkillRecord) (promoted : Promoted) (e : PublicationError)
      → is_pending_status r.status ≡ true
      → promoted.path ≡ err e
      → Answers py r c.disk promoted
      → IsRefused r e (record c { disk = promoted.disk })
  promotion-IsRefused r promoted e waiting failed answers = (
    refl,
    elim answers [
      | inl (moved, same) ↦ cc
      | inr (inl (actual, path, same)) ↦ inl same
      | inr (inr (inl (code, error, moves, path, fresh, old))) ↦
          let this : e ≡ import_failed error = cc in
          inr (code, error, this, pending_status r.status waiting, moves, fresh, old)
      | inr (inr (inr (code, moves, path, imports))) ↦ cc
    ],
  )

  promotion-IsApproved :
      (now : ℕ) (r : SkillRecord) (promoted : Promoted) (path : Option String)
      → is_pending_status r.status ≡ true
      → ((hash : String) → expected ≡ some hash → r.code_hash ≡ hash)
      → find_first (is_version r.tenant_id r.name r.version) c.table ≡ some r
      → promoted.path ≡ ok path
      → Answers py r c.disk promoted
      → IsApproved r (approved_row approver now path r) (record {
        table = supersede r.tenant_id r.name r.version (approved_row approver now path) c.table;
        disk = promoted.disk;
      })
  promotion-IsApproved now r promoted path waiting wanted here done answers =
      let stands = approved_row-stands approver now path in
      record {
        was_pending = waiting;
        as_expected = wanted;
        same_code = (stands r).1;
        now_active =
            active_version-supersede r.tenant_id r.name r.version (approved_row approver now path)
              c.table r (λ x. ap is_active_status (stands x).0)
              (approved_row-IsKeeping approver now path) (λ x. (stands x).2) here;
        on_disk = elim answers [
          | inl (path', same) ↦ inl same
          | inr (inl (actual, path', same)) ↦ inl same
          | inr (inr (inl (code, error, moves, path', fresh, old))) ↦ cc
          | inr (inr (inr (code, moves, path', imports))) ↦ inr (code, moves, imports)
        ];
      }

  commit_promoted-Settled :
      (now : ℕ) (r : SkillRecord) (promoted : Promoted)
      (path : Result PublicationError (Option String))
      → is_pending_status r.status ≡ true
      → ((hash : String) → expected ≡ some hash → r.code_hash ≡ hash)
      → find_first (is_version r.tenant_id r.name r.version) c.table ≡ some r
      → promoted.path ≡ path
      → Answers py r c.disk promoted
      → Settled r (commit_promoted approver now r c promoted.disk path)
  commit_promoted-Settled now r promoted (err e) waiting wanted here done answers = (
    (λ row h. cc),
    (λ e' h.
        let same : e ≡ e' = cc in
        promotion-IsRefused r promoted e' waiting (done ∙ ap err same) answers),
  )
  commit_promoted-Settled now r promoted (ok path) waiting wanted here done answers = (
    (λ row h.
        subst
          (λ (v : SkillRecord). IsApproved r v (record {
            table = supersede r.tenant_id r.name r.version (approved_row approver now path) c.table;
            disk = promoted.disk;
          }))
          (ok_injective h)
          (promotion-IsApproved now r promoted path waiting wanted here done answers)),
    (λ e' h. cc),
  )

  approve_expected-Settled :
      (now : ℕ) (r : SkillRecord) (o : Option String)
      → expected ≡ o
      → is_pending_status r.status ≡ true
      → find_first (is_version r.tenant_id r.name r.version) c.table ≡ some r
      → Settled r (approve_expected py approver o now c r)
  approve_expected-Settled now r none is waiting here =
      commit_promoted-Settled now r _ _ waiting (λ hash h. cc) here refl (promote-cases py r c.disk)
  approve_expected-Settled now r (some hash) is waiting here =
      elim (Bool-cases (r.code_hash == hash)) [
        | inr other ↦ rw other (keep-Settled r _)
        | inl same ↦ rw same (
            commit_promoted-Settled now r _ _ waiting
              (λ hash' h. let that : hash ≡ hash' = cc in (eq_iff r.code_hash hash).0 same ∙ that)
              here refl (promote-cases py r c.disk))
      ]

  approve_found-Settled :
      (now : ℕ) (r : SkillRecord)
      → find_first (is_version r.tenant_id r.name r.version) c.table ≡ some r
      → Settled r (approve_found py approver expected now c r)
  approve_found-Settled now r here = elim (Bool-cases (is_pending_status r.status)) [
    | inr other ↦ rw other (keep-Settled r _)
    | inl waiting ↦ rw waiting (approve_expected-Settled now r expected refl waiting here)
  ]

module _ (py : Platform) (name : String) (version : ℕ) (approver : Principal)
    (expected : Option String) (now : ℕ) (c : Catalogue) where
  -- The row that an approval is of.
  abbrev pub IsRow : SkillRecord → Type 0
  IsRow r = find_first (is_version approver.tenant_id name version) c.table ≡ some r

  -- What an approval leaves that returns a row, and one that raises.
  abbrev pub Returned : SkillRecord → Catalogue → Type 0
  Returned row after =
      (effective_permissions approver skill_approve ≡ true)
      × (r : SkillRecord) × IsRow r
      × IsApproved py approver expected c r row after

  abbrev pub Raised : PublicationError → Catalogue → Type 0
  Raised e after =
      (after.table ≡ c.table)
      × ((after.disk ≡ c.disk)
          ⊎ ((effective_permissions approver skill_approve ≡ true)
              × (r : SkillRecord) × IsRow r
              × IsLeft py approver expected c r e after))

  abbrev IsAnswered : Published → Type 0
  IsAnswered p =
      ((row : SkillRecord) → p.reply ≡ ok row → Returned row p.catalogue)
      × ((e : PublicationError) → p.reply ≡ err e → Raised e p.catalogue)

  approve-IsAnswered : IsAnswered (approve py name version approver expected now c)
  unfolding approve
  approve-IsAnswered =
      on_version-cases IsAnswered name version approver c (approve_found py approver expected now c)
        (λ e. ((λ row h. cc), (λ e' h. (refl, inl refl))))
        (λ d r may one.
          let (met, here) =
            scalar-holds (is_version approver.tenant_id name version) c.table r one in
          let settled =
            approve_found-Settled py approver expected c now r
              (version-first approver.tenant_id name version c.table r met here) in
          let allowed = authorize_approver-ok approver d may in
          (
            (λ row h. (allowed, r, here, settled.0 row h)),
            (λ e h.
                let (rows, files) = settled.1 e h in
                (
                  rows,
                  elim files [ inl same ↦ inl same | inr left ↦ inr (allowed, r, here, left) ],
                )),
          ))

  -- An approval that returns was made by a principal with `skill:approve`, of the pending version of
  -- that name in the principal's own tenant, and with the very digest that the principal expected,
  -- when one was given. The version is then the active one, with its digest unchanged. Either nothing
  -- on the disk has changed, or a code of that digest has been moved to its new path. What is newly
  -- imported, if anything, is that code; but if a module of the new path's name had been imported
  -- before, then nothing is imported, and that module's code stays the one that runs.
  pub approve_binds :
      (row : SkillRecord)
      → (approve py name version approver expected now c).reply ≡ ok row
      → Returned row (approve py name version approver expected now c).catalogue
  approve_binds row h = approve-IsAnswered.0 row h
