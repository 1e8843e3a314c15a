-- ===== src/Publication/Rollbacks.antt =====
-- A rollback to a version that was rejected.
use praxis_ai_agent_platform.Common.{
  ℕ, String, ◌≡◌, ap, ◌∙◌, [], ◌∷◌, map, nat_eq, string_eq, filter, map_where, filter-map_where,
  Result, ok, ok_injective, Option, some, find_first, find_first-filter, find_first-holds, refl,
}
use mathlib.Core.Path.{subst}
use praxis_ai_agent_platform.Policy.{Principal}
use praxis_ai_agent_platform.Publication.{
  SkillRecord, Table, PublicationError, is_version, active_version,
}
use praxis_ai_agent_platform.Publication.Operations.{Catalogue}
use praxis_ai_agent_platform.Publication.Decisions.{
  supersede, revoked_row, reject, reactivated, rollback_to,
}
use praxis_ai_agent_platform.Publication.Versions.{
  revoked_row-IsKeeping, reactivated-IsKeeping, is_version-same,
}
use praxis_ai_agent_platform.Publication.Cases.{on_version-cases, scalar-some, version-first}
use praxis_ai_agent_platform.Publication.Effects.{active_version-supersede}

reactivated_active :
    (t n : String) (v : ℕ) (db : Table) (r : SkillRecord)
    → find_first (is_version t n v) db ≡ some r
    → active_version t n (supersede r.tenant_id r.name r.version reactivated db)
      ≡ some (reactivated r)
reactivated_active t n v db r here =
    let met = find_first-holds (is_version t n v) db here in
    let (t_same, n_same, v_same) = is_version-same t n v r met in
    let named : active_version r.tenant_id r.name
          (supersede r.tenant_id r.name r.version reactivated db)
        ≡ some (reactivated r) =
      active_version-supersede r.tenant_id r.name r.version reactivated db r (λ x. refl)
        reactivated-IsKeeping (λ x. refl) (version-first t n v db r met here) in
    subst
      (λ x.
        active_version x n (supersede r.tenant_id r.name r.version reactivated db)
        ≡ some (reactivated r))
      t_same
      (subst
        (λ x.
          active_version r.tenant_id x (supersede r.tenant_id r.name r.version reactivated db)
          ≡ some (reactivated r))
        n_same named)

-- A rejected version can be rolled back to, whether it was ever approved or not: the rejection itself
-- sets the time that the rollback looks for. The version is then the active one of its name.
pub rejected_version_rolls_back :
    (name : String) (version : ℕ) (approver : Principal) (now : ℕ) (c : Catalogue)
    (row : SkillRecord)
    → (reject name version approver now c).reply ≡ ok row
    → let after =
        rollback_to name version approver (reject name version approver now c).catalogue in
      (after.reply ≡ ok (reactivated row))
      × (active_version approver.tenant_id name after.catalogue.table ≡ some (reactivated row))
unfolding reject rollback_to
rejected_version_rolls_back name version approver now c row =
    on_version-cases
      (λ p.
        p.reply ≡ ok row
        → let after = rollback_to name version approver p.catalogue in
          (after.reply ≡ ok (reactivated row))
          × (active_version approver.tenant_id name after.catalogue.table ≡ some (reactivated row)))
      name version approver c _ (λ e h. cc)
      (λ d r may one h.
        let p = is_version approver.tenant_id name version in
        let gone = revoked_row approver now r in
        let db = map_where p (revoked_row approver now) c.table in
        let now_one : filter p db ≡ gone ∷ [] =
          filter-map_where p (revoked_row approver now) c.table
            (λ x. (revoked_row-IsKeeping approver now).versions x approver.tenant_id name version)
          ∙ ap (map (revoked_row approver now)) (scalar-some (filter p c.table) r one) in
        let same : gone ≡ row = ok_injective h in
        let back : active_version approver.tenant_id name
              (supersede r.tenant_id r.name r.version reactivated db)
            ≡ some (reactivated gone) =
          reactivated_active approver.tenant_id name version db gone
            (find_first-filter p db now_one) in
        let answer : ◌≡◌ {A = Result PublicationError SkillRecord} (ok (reactivated gone))
            (ok (reactivated row)) =
          cc in
        let stands : ◌≡◌ {A = Option SkillRecord} (some (reactivated gone))
            (some (reactivated row)) =
          cc in
        simp (may, now_one) (answer, back ∙ stands))
