-- ===== src/Publication/Versions.antt =====
-- The versions of a skill: at most one row for a version, and at most one active version.
use praxis_ai_agent_platform.Common.{
  ℕ, ◌≤◌, ◌<◌, String, ◌≡◌, refl, sym, ◌∙◌, inl, inr, Bool, true, false, ◌&&◌, Option, none, some,
  [], ◌∷◌, ◌++◌, arith, eq_iff, eqb_iff, ◌==◌, nat_eq, string_eq, Bool-cases, length, filter,
  map_where, length-filter-map_where, length-filter-map_where_le, filter-map_where-out,
  length-filter-append, and_left, and_right,
}
use praxis_ai_agent_platform.Policy.{Principal}
use praxis_ai_agent_platform.Publication.{
  SkillRecord, Table, is_active_status, is_named, is_version, is_active,
}
use praxis_ai_agent_platform.Publication.Operations.{highest, next_version}
use praxis_ai_agent_platform.Publication.Decisions.{
  deprecate, supersede, approved_row, revoked_row, reactivated,
}

-- For every tenant and name, no version has two rows and no two versions are active.
pub record IsCoherent (db : Table) : Type 0 where
  pub single :
      (tenant_id name : String) (version : ℕ)
      → length (filter (is_version tenant_id name version) db) ≤ 1
  pub one_active : (tenant_id name : String) → length (filter (is_active tenant_id name) db) ≤ 1

pub is_version-same :
    (t n : String) (v : ℕ) (r : SkillRecord)
    → is_version t n v r ≡ true
    → (r.tenant_id ≡ t) × (r.name ≡ n) × (r.version ≡ v)
unfolding is_version is_named
is_version-same t n v r met =
    let of_name = and_left _ _ met in
    (
      (eq_iff r.tenant_id t).0 (and_left _ _ of_name),
      (eq_iff r.name n).0 (and_right _ _ of_name),
      (eqb_iff r.version v).0 (and_right _ _ met),
    )

above_highest :
    (tenant_id name : String) (version : ℕ) (db : Table)
    → highest (filter (is_named tenant_id name) db) < version
    → length (filter (is_version tenant_id name version) db) ≡ 0
unfolding is_version
above_highest tenant_id name version [] h = refl
above_highest tenant_id name version (r ∷ rs) h =
    ground (arith, above_highest tenant_id name version rs, eqb_iff r.version version)

-- A change that keeps the tenant, the name and the version keeps the number of rows of a version.
single-map_where :
    (p : SkillRecord → Bool) (f : SkillRecord → SkillRecord) (db : Table)
    → ((r : SkillRecord) (t n : String) (v : ℕ) → is_version t n v (f r) ≡ is_version t n v r)
    → (t n : String) (v : ℕ)
    → length (filter (is_version t n v) (map_where p f db)) ≡ length (filter (is_version t n v) db)
single-map_where p f db keeps t n v =
    length-filter-map_where p (is_version t n v) f db (λ r _. keeps r t n v)

-- Rows of another name or tenant do not count here.
active-elsewhere :
    (tenant_id name t n : String) (p : SkillRecord → Bool) (f : SkillRecord → SkillRecord)
    (db : Table)
    → ((r : SkillRecord) → p r ≡ true → is_named tenant_id name r ≡ true)
    → ((r : SkillRecord) (t' n' : String) → is_named t' n' (f r) ≡ is_named t' n' r)
    → (tenant_id == t && name == n) ≡ false
    → length (filter (is_active t n) (map_where p f db)) ≡ length (filter (is_active t n) db)
unfolding is_active is_named
active-elsewhere tenant_id name t n p f db of_name keeps apart =
    length-filter-map_where p (is_active t n) f db (λ r met.
      ground (arith, of_name r met, keeps r t n, eq_iff r.tenant_id tenant_id, eq_iff r.name name))

-- A function that changes nothing that tells the versions apart.
pub record IsKeeping (f : SkillRecord → SkillRecord) : Type 0 where
  pub versions :
      (r : SkillRecord) (t n : String) (v : ℕ) → is_version t n v (f r) ≡ is_version t n v r
  pub names : (r : SkillRecord) (t n : String) → is_named t n (f r) ≡ is_named t n r

pub deprecate-IsKeeping : IsKeeping deprecate
unfolding is_version is_named
deprecate-IsKeeping = record { versions = λ r t n v. refl; names = λ r t n. refl }

pub approved_row-IsKeeping :
    (approver : Principal) (now : ℕ) (path : Option String)
    → IsKeeping (approved_row approver now path)
unfolding is_version is_named
approved_row-IsKeeping approver now none = record {
  versions = λ r t n v. refl;
  names = λ r t n. refl;
}
approved_row-IsKeeping approver now (some path) = record {
  versions = λ r t n v. refl;
  names = λ r t n. refl;
}

pub revoked_row-IsKeeping : (approver : Principal) (now : ℕ) → IsKeeping (revoked_row approver now)
unfolding is_version is_named
revoked_row-IsKeeping approver now = record { versions = λ r t n v. refl; names = λ r t n. refl }

pub reactivated-IsKeeping : IsKeeping reactivated
unfolding is_version is_named
reactivated-IsKeeping = record { versions = λ r t n v. refl; names = λ r t n. refl }

is_active-is_named :
    (t n : String) (r : SkillRecord) → is_active t n r ≡ true → is_named t n r ≡ true
unfolding is_active
is_active-is_named t n r h = and_left _ _ h

is_version-is_named :
    (t n : String) (v : ℕ) (r : SkillRecord) → is_version t n v r ≡ true → is_named t n r ≡ true
unfolding is_version
is_version-is_named t n v r h = and_left _ _ h

pub none_active :
    (t n : String) (db : Table)
    → length (filter (is_active t n) (map_where (is_active t n) deprecate db)) ≡ 0
unfolding is_active
none_active t n db = filter-map_where-out (is_active t n) deprecate db (λ r _. ground arith)

module _ (tenant_id name : String) (version : ℕ) (f : SkillRecord → SkillRecord)
    (keeping : IsKeeping f) where
  pub supersede-IsCoherent :
      (db : Table) → IsCoherent db → IsCoherent (supersede tenant_id name version f db)
  unfolding supersede
  supersede-IsCoherent db h =
      let given_way = map_where (is_active tenant_id name) deprecate db in
      let single' : (t n : String) (v : ℕ)
          → length (
              filter (is_version t n v) (map_where (is_version tenant_id name version) f given_way))
            ≡ length (filter (is_version t n v) db) =
        λ t n v.
          single-map_where (is_version tenant_id name version) f given_way keeping.versions t n v
          ∙ single-map_where (is_active tenant_id name) deprecate db deprecate-IsKeeping.versions t
              n v in
      record {
        single = λ t n v. omega (arith, single' t n v, h.single t n v);
        one_active = λ t n. elim (Bool-cases (tenant_id == t && name == n)) [
          | inr apart ↦ omega (
            arith,
            active-elsewhere tenant_id name t n (is_version tenant_id name version) f given_way
                (is_version-is_named tenant_id name version) keeping.names apart,
            active-elsewhere tenant_id name t n (is_active tenant_id name) deprecate db
                (is_active-is_named tenant_id name) deprecate-IsKeeping.names apart,
            h.one_active t n,
          )
          | inl same ↦
              let t_same : tenant_id ≡ t =
                (eq_iff tenant_id t).0 (and_left (tenant_id == t) (name == n) same) in
              let n_same : name ≡ n =
                (eq_iff name n).0 (and_right (tenant_id == t) (name == n) same) in
              let few : length (
                    filter (is_active tenant_id name)
                      (map_where (is_version tenant_id name version) f given_way))
                  ≤ 1 =
                omega (
                  arith,
                  length-filter-map_where_le (is_version tenant_id name version)
                      (is_active tenant_id name) f given_way,
                  none_active tenant_id name db,
                  single-map_where (is_active tenant_id name) deprecate db
                      deprecate-IsKeeping.versions tenant_id name version,
                  h.single tenant_id name version,
                ) in
              rw (sym t_same, sym n_same) few
        ];
      }

fewer_active :
    (tenant_id name : String) (version : ℕ) (approver : Principal) (now : ℕ) (t n : String)
    (db : Table)
    → length (
        filter
          (is_active t n)
          (map_where (is_version tenant_id name version) (revoked_row approver now) db))
      ≤ length (filter (is_active t n) db)
unfolding is_active
fewer_active tenant_id name version approver now t n [] = omega arith
fewer_active tenant_id name version approver now t n (r ∷ rs) =
    ground (arith, fewer_active tenant_id name version approver now t n rs)

-- A revoked version is active no more.
pub revoke-IsCoherent :
    (tenant_id name : String) (version : ℕ) (approver : Principal) (now : ℕ) (db : Table)
    → IsCoherent db
    → IsCoherent (map_where (is_version tenant_id name version) (revoked_row approver now) db)
revoke-IsCoherent tenant_id name version approver now db h = record {
  single = λ t n v. omega (
    arith,
    single-map_where (is_version tenant_id name version) (revoked_row approver now) db
        (revoked_row-IsKeeping approver now).versions t n v,
    h.single t n v,
  );
  one_active = λ t n.
      omega (arith, fewer_active tenant_id name version approver now t n db, h.one_active t n);
}

-- A new version is one above the others, and is not active.
no_such_version :
    (row : SkillRecord) (db : Table) (t n : String) (v : ℕ)
    → row.version ≡ next_version row.tenant_id row.name db
    → is_version t n v row ≡ true
    → length (filter (is_version t n v) db) ≡ 0
unfolding next_version
no_such_version row db t n v fresh here =
    let (t_same, n_same, v_same) = is_version-same t n v row here in
    let above : highest (filter (is_named row.tenant_id row.name) db) < v =
      omega (arith, fresh, v_same) in
    rw (sym t_same, sym n_same) (above_highest row.tenant_id row.name v db above)

pub add-IsCoherent :
    (row : SkillRecord) (db : Table)
    → row.version ≡ next_version row.tenant_id row.name db
    → is_active_status row.status ≡ false
    → IsCoherent db
    → IsCoherent (db ++ row ∷ [])
unfolding is_active
add-IsCoherent row db fresh idle h = record {
  single = λ t n v. elim (Bool-cases (is_version t n v row)) [
    | inl here ↦ ground (
      arith,
      length-filter-append (is_version t n v) db (row ∷ []),
      no_such_version row db t n v fresh here,
    )
    | inr other ↦
        ground (arith, length-filter-append (is_version t n v) db (row ∷ []), h.single t n v)
  ];
  one_active =
      λ t n. ground (arith, length-filter-append (is_active t n) db (row ∷ []), h.one_active t n);
}
