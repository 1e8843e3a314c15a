-- ===== src/Publication/Cases.antt =====
-- The cases of an operation on a version: refused, or done on the one row by an approver who may.
use praxis_ai_agent_platform.Common.{
  ℕ, ◌≤◌, String, ◌≡◌, refl, Bool, true, Option, none, some, [], ◌∷◌, arith, nat_eq, string_eq,
  length, filter, find_first-filter, find_first, find_first-holds, Result, ok, err,
}
use praxis_ai_agent_platform.Policy.{
  Principal, skill_approve, AuthorizationError, PolicyDecision, effective_permissions, check,
  authorize,
}
use praxis_ai_agent_platform.Publication.{
  SkillRecord, Table, PublicationError, is_version, scalar_one_or_none,
}
use praxis_ai_agent_platform.Publication.Versions.{is_version-same}
use praxis_ai_agent_platform.Publication.Operations.{Catalogue, Published}
use praxis_ai_agent_platform.Publication.Decisions.{
  authorize_approver, keep, found, permitted, on_version,
}

-- An operation on a version leaves all as it is, or goes on with the one row of that version, for an
-- approver with the permission.
module _ {κ} (Q : Published → Type κ) (name : String) (version : ℕ) (approver : Principal)
    (c : Catalogue) (next : SkillRecord → Published) where
  found-cases :
      (reply : Result PublicationError (Option SkillRecord))
      → ((e : PublicationError) → Q (keep e c))
      → ((r : SkillRecord) → reply ≡ ok (some r) → Q (next r))
      → Q (found next c reply)
  found-cases (err e) kept goes = kept e
  found-cases (ok none) kept goes = kept _
  found-cases (ok (some r)) kept goes = goes r refl

  permitted-cases :
      (p : Published) (reply : Result AuthorizationError PolicyDecision)
      → ((e : PublicationError) → Q (keep e c))
      → ((d : PolicyDecision) → reply ≡ ok d → Q p)
      → Q (permitted p c reply)
  permitted-cases p (err e) kept goes = kept _
  permitted-cases p (ok d) kept goes = goes d refl

  pub on_version-cases :
      ((e : PublicationError) → Q (keep e c))
      → ((d : PolicyDecision) (r : SkillRecord)
          → authorize_approver approver ≡ ok d
          → scalar_one_or_none (filter (is_version approver.tenant_id name version) c.table)
            ≡ ok (some r)
          → Q (next r))
      → Q (on_version name version approver c next)
  on_version-cases kept goes =
      permitted-cases _ (authorize_approver approver) kept
        (λ d may. found-cases _ kept (λ r one. goes d r may one))

-- `authorize` passes an approver exactly with the permission.
pub authorize_approver-ok :
    (approver : Principal) (d : PolicyDecision)
    → authorize_approver approver ≡ ok d
    → effective_permissions approver skill_approve ≡ true
unfolding authorize_approver authorize check
authorize_approver-ok approver d h = ground arith

pub scalar-some : (rs : Table) (r : SkillRecord) → scalar_one_or_none rs ≡ ok (some r) → rs ≡ r ∷ []
scalar-some [] r h = cc
scalar-some (r' ∷ []) r h = cc
scalar-some (r' ∷ r'' ∷ rs) r h = cc

pub scalar-holds :
    (p : SkillRecord → Bool) (db : Table) (r : SkillRecord)
    → scalar_one_or_none (filter p db) ≡ ok (some r)
    → (p r ≡ true) × (find_first p db ≡ some r)
scalar-holds p db r h =
    let first = find_first-filter p db (scalar-some (filter p db) r h) in
    (find_first-holds p db first, first)

-- at most one row: no ambiguity
pub scalar-single :
    (rs : Table) → length rs ≤ 1 → (o : Option SkillRecord) × (scalar_one_or_none rs ≡ ok o)
scalar-single [] h = (none, refl)
scalar-single (r ∷ []) h = (some r, refl)
scalar-single (r ∷ r' ∷ rs) h = absurd (omega arith)

pub version-first :
    (t n : String) (v : ℕ) (db : Table) (r : SkillRecord)
    → is_version t n v r ≡ true
    → find_first (is_version t n v) db ≡ some r
    → find_first (is_version r.tenant_id r.name r.version) db ≡ some r
version-first t n v db r met here =
    let (t_same, n_same, v_same) = is_version-same t n v r met in simp (t_same, n_same, v_same) here
