-- ===== src/Publication/Proposals.antt =====
-- The policy check: when a proposal is recorded.
use praxis_ai_agent_platform.Common.{
  String, ◌≡◌, refl, ◌↔◌, ◌⊎◌, inl, inr, true, Option, none, some, List, [], ◌∷◌, ◌++◌, eq_iff,
  ◌==◌, nat_eq, string_eq, Bool-cases, contains, All, Json, ok, err,
}
use praxis_ai_agent_platform.Policy.{Principal, Permission, effective_permissions, permission_of}
use praxis_ai_agent_platform.Publication.{
  SkillManifest, SkillRecord, PublicationError, Problem, is_pending_status, dependency_problem,
  dependency_problems, permission_problem, permission_problems, risk_problems,
  check_publication_policy,
}
use praxis_ai_agent_platform.Publication.Operations.{
  Platform, Catalogue, Published, next_version, proposed, propose_checked, propose,
}

-- A permission that there is, and that the requester holds.
abbrev pub IsHeld : Principal → String → Type 0
IsHeld principal raw =
    (p : Permission) × (permission_of raw ≡ some p) × (effective_permissions principal p ≡ true)

append-empty {ℓ} : {A : Type ℓ} (xs ys : List A) → (xs ++ ys ≡ []) ↔ ((xs ≡ []) × (ys ≡ []))
append-empty [] ys = ((λ h. (refl, h)), (λ h. h.1))
append-empty (x ∷ xs) ys = ((λ h. cc), (λ h. cc))

permission_problem-none :
    (principal : Principal) (raw : String) (o : Option Permission)
    → permission_of raw ≡ o
    → (permission_problem principal raw o ≡ []) ↔ IsHeld principal raw
permission_problem-none principal raw none e = ((λ h. cc), (λ h. cc))
permission_problem-none principal raw (some p) e =
    elim (Bool-cases (effective_permissions principal p)) [
      | inl has ↦ ((λ h. (p, e, has)), (λ h. rw has refl))
      | inr lacks ↦ (
        (λ h. let impossible = rw lacks at h in cc),
        (λ h.
            let (q, found_q, has_q) = h in
            let same : p ≡ q = cc in
            let clash : effective_permissions principal p ≡ true = rw same has_q in cc),
      )
    ]

permission_problems-none :
    (principal : Principal) (raws : List String)
    → (permission_problems principal raws ≡ []) ↔ All (IsHeld principal) raws
unfolding permission_problems
permission_problems-none principal [] = ((λ h. tt), (λ h. refl))
permission_problems-none principal (raw ∷ raws) =
    let split =
      append-empty (permission_problem principal raw (permission_of raw))
        (permission_problems principal raws) in
    let first = permission_problem-none principal raw (permission_of raw) refl in
    let rest = permission_problems-none principal raws in
    (
      (λ h. let both = split.0 h in (first.0 both.0, rest.0 both.1)),
      (λ h. split.1 (first.1 h.0, rest.1 h.1)),
    )

dependency_problem-none :
    (permitted : List String) (d : String)
    → (dependency_problem permitted d ≡ []) ↔ (contains permitted d ≡ true)
dependency_problem-none permitted d = elim (Bool-cases (contains permitted d)) [
  | inl known ↦ ((λ h. known), (λ h. rw known refl))
  | inr unknown ↦ ((λ h. let impossible = rw unknown at h in cc), (λ h. cc))
]

dependency_problems-none :
    (permitted ds : List String)
    → (dependency_problems permitted ds ≡ []) ↔ All (λ d. contains permitted d ≡ true) ds
unfolding dependency_problems
dependency_problems-none permitted [] = ((λ h. tt), (λ h. refl))
dependency_problems-none permitted (d ∷ ds) =
    let split = append-empty (dependency_problem permitted d) (dependency_problems permitted ds) in
    let first = dependency_problem-none permitted d in
    let rest = dependency_problems-none permitted ds in
    (
      (λ h. let both = split.0 h in (first.0 both.0, rest.0 both.1)),
      (λ h. split.1 (first.1 h.0, rest.1 h.1)),
    )

risk_problems-none :
    (risk : String) → (risk_problems risk ≡ []) ↔ ((risk ≡ "read_only") ⊎ (risk ≡ "mutating"))
risk_problems-none risk = elim (Bool-cases (risk == "read_only")) [
  | inl reads ↦ ((λ h. inl ((eq_iff risk _).0 reads)), (λ h. rw reads refl))
  | inr other ↦ elim (Bool-cases (risk == "mutating")) [
    | inl mutates ↦ ((λ h. inr ((eq_iff risk _).0 mutates)), (λ h. rw (other, mutates) refl))
    | inr neither ↦ (
      (λ h. let impossible = rw (other, neither) at h in cc),
      (λ h. elim h [
        | inl reads ↦ let r : (risk == "read_only") ≡ true = (eq_iff risk _).1 reads in cc
        | inr mutates ↦ let m : (risk == "mutating") ≡ true = (eq_iff risk _).1 mutates in cc
      ]),
    )
  ]
]

policy-clean :
    (permitted : List String) (principal : Principal) (m : SkillManifest)
    → (check_publication_policy permitted principal m ≡ []) ↔ (
        All (IsHeld principal) m.required_permissions
        × All (λ d. contains permitted d ≡ true) m.dependencies
        × ((m.risk ≡ "read_only") ⊎ (m.risk ≡ "mutating")))
unfolding check_publication_policy
policy-clean permitted principal m =
    let outer =
      append-empty
        (dependency_problems permitted m.dependencies
          ++ permission_problems principal m.required_permissions)
        (risk_problems m.risk) in
    let inner =
      append-empty (dependency_problems permitted m.dependencies)
        (permission_problems principal m.required_permissions) in
    let held = permission_problems-none principal m.required_permissions in
    let known = dependency_problems-none permitted m.dependencies in
    let level = risk_problems-none m.risk in
    (
      (λ h.
          let (both, l) = outer.0 h in
          let (a, b) = inner.0 both in (held.0 b, known.0 a, level.0 l)),
      (λ h. outer.1 (inner.1 (known.1 h.1, held.1 h.0), level.1 h.2)),
    )

-- What a recorded proposal leaves: one more row, at the end, which is pending, of the requester's
-- tenant, with the next version of its name and the digest of the code.
abbrev pub IsAdded :
    Platform → SkillManifest → String → Principal → Catalogue → SkillRecord → Published → Type 0
IsAdded py m code requester c row p =
    (p.reply ≡ ok row)
    × (p.catalogue ≡ record c { table = c.table ++ row ∷ [] })
    × (is_pending_status row.status ≡ true)
    × (row.tenant_id ≡ requester.tenant_id)
    × (row.name ≡ m.name)
    × (row.version ≡ next_version requester.tenant_id m.name c.table)
    × (row.code_hash ≡ py.compute_code_hash code)

propose_checked-recorded :
    (py : Platform) (problems : List Problem) (m : SkillManifest) (code : String)
    (principal : Principal) (path : String) (evidence : List Json) (c : Catalogue)
    → let p = propose_checked py problems m code principal path evidence c in
      (((row : SkillRecord) × IsAdded py m code principal c row p) ↔ (problems ≡ []))
      × ((e : PublicationError) → p.reply ≡ err e → p.catalogue ≡ c)
unfolding proposed
propose_checked-recorded py (p ∷ ps) m code principal path evidence c =
    (((λ h. let answer = h.1.0 in cc), (λ h. cc)), (λ e h. refl))
propose_checked-recorded py [] m code principal path evidence c =
    (((λ h. refl), (λ h. (_, (refl, refl, refl, refl, refl, refl, refl)))), (λ e h. cc))

-- A proposal is recorded exactly if every permission that the manifest declares exists and is held by
-- the requester, every dependency is in the allowed set, and the risk is one of the two levels. It is
-- recorded as one more row, pending, in the requester's tenant, with the next version of its name and
-- the digest of its code; and a proposal that raises leaves the catalogue as it was.
pub propose_iff :
    (py : Platform) (permitted : List String) (m : SkillManifest) (code : String)
    (requester : Principal) (path : String) (evidence : List Json) (c : Catalogue)
    → let p = propose py permitted m code requester path evidence c in
      (((row : SkillRecord) × IsAdded py m code requester c row p) ↔ (
        All (IsHeld requester) m.required_permissions
        × All (λ d. contains permitted d ≡ true) m.dependencies
        × ((m.risk ≡ "read_only") ⊎ (m.risk ≡ "mutating"))))
      × ((e : PublicationError) → p.reply ≡ err e → p.catalogue ≡ c)
unfolding propose
propose_iff py permitted m code requester path evidence c =
    let problems = check_publication_policy permitted requester m in
    let (recorded, kept) = propose_checked-recorded py problems m code requester path evidence c in
    let clean = policy-clean permitted requester m in
    (((λ h. clean.0 (recorded.0 h)), (λ h. recorded.1 (clean.1 h))), kept)
