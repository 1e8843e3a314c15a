-- ===== src/Publication/Effects.antt =====
-- What an approval, a rejection and a rollback of a version leave.
use praxis_ai_agent_platform.Common.{
  ℕ, Dict, String, ◌≡◌, refl, ap, ◌⊎◌, inl, inr, true, ◌||◌, Option, none, some, [], ◌∷◌, ◌++◌,
  eq_iff, if◌then◌else◌, ◌==◌, nat_eq, string_eq, Bool-cases, map_where, find_first-map_where,
  find_first-map_where_new, map_option, find_first, lookup, insert, remove, ok, err, and_left,
}
use praxis_ai_agent_platform.Publication.{
  SkillRecord, Table, import_failed, code_hash_mismatch, is_active_status, is_named, is_version,
  is_active, active_version,
}
use praxis_ai_agent_platform.Publication.Operations.{
  Platform, Disk, Promoted, import_moved, promote_checked, promote_found, promote_quarantined_code,
}
use praxis_ai_agent_platform.Publication.Decisions.{deprecate, supersede}
use praxis_ai_agent_platform.Publication.Versions.{IsKeeping, deprecate-IsKeeping, none_active}

pub active_version-supersede :
    (t n : String) (v : ℕ) (f : SkillRecord → SkillRecord) (db : Table) (r : SkillRecord)
    → ((x : SkillRecord) → is_active_status (f x).status ≡ true)
    → IsKeeping f
    → ((x : SkillRecord) → f (deprecate x) ≡ f x)
    → find_first (is_version t n v) db ≡ some r
    → active_version t n (supersede t n v f db) ≡ some (f r)
unfolding active_version supersede is_active is_version
active_version-supersede t n v f db r active_after keeping absorbs here =
    let given_way = map_where (is_active t n) deprecate db in
    let first : find_first (is_active t n) (map_where (is_version t n v) f given_way)
        ≡ map_option f (find_first (is_version t n v) given_way) =
      find_first-map_where_new (is_active t n) (is_version t n v) f given_way (none_active t n db)
        (λ x met.
          let of_name : is_named t n x ≡ true = and_left _ _ met in
          rw (keeping.names x t n, of_name) (active_after x)) in
    let moved : find_first (is_version t n v) given_way
        ≡ map_option (λ x. if is_active t n x then deprecate x else x)
            (find_first (is_version t n v) db) =
      find_first-map_where (is_version t n v) (is_active t n) deprecate db
        (λ x. deprecate-IsKeeping.versions x t n v) in
    let last : f (if is_active t n r then deprecate r else r) ≡ f r =
      elim (Bool-cases (is_active t n r)) [
        | inl held ↦ rw held (absorbs r)
        | inr free ↦ rw free refl
      ] in
    rw (first, moved, here) (ap some last)

-- A promotion's answers: nothing to move; refused before anything has changed, for its digest; or the
-- code, which has the row's digest, moved to its new path, and then imported or not.
abbrev pub Moves : Platform → SkillRecord → Disk → Disk → String → Type 0
Moves py r disk after code =
    (py.compute_code_hash code ≡ r.code_hash)
    × (lookup r.source_path disk.files ≡ some code)
    × (after.files ≡ insert (py.destination r.source_path) code (remove r.source_path disk.files))

-- What an import of the moved code leaves: the module that was loaded before, or the moved code.
abbrev pub Imports : Platform → SkillRecord → Disk → Disk → String → Type 0
Imports py r disk after code =
    let name = py.module_name (py.destination r.source_path) in
    ((loaded : String) × (lookup name disk.imported ≡ some loaded)
      × (after.imported ≡ disk.imported))
    ⊎ ((lookup name disk.imported ≡ none) × (after.imported ≡ disk.imported ++ (name, code) ∷ []))

abbrev pub Answers : Platform → SkillRecord → Disk → Promoted → Type 0
Answers py r disk promoted =
    ((promoted.path ≡ ok none) × (promoted.disk ≡ disk))
    ⊎ ((actual : String) × (promoted.path ≡ err (code_hash_mismatch actual r.code_hash))
        × (promoted.disk ≡ disk))
    ⊎ ((code : String) × (error : String) × Moves py r disk promoted.disk code
        × (promoted.path ≡ err (import_failed error))
        × (lookup (py.module_name (py.destination r.source_path)) disk.imported ≡ none)
        × (promoted.disk.imported ≡ disk.imported))
    ⊎ ((code : String) × Moves py r disk promoted.disk code
        × (promoted.path ≡ ok (some (py.destination r.source_path)))
        × Imports py r disk promoted.disk code)

import_moved-cases :
    (py : Platform) (r : SkillRecord) (code : String) (found error : Option String)
    (disk after : Disk)
    → lookup (py.module_name (py.destination r.source_path)) disk.imported ≡ found
    → after.imported ≡ disk.imported
    → Moves py r disk after code
    → Answers py r disk (import_moved py (py.destination r.source_path) code found error after)
import_moved-cases py r code (some loaded) error disk after found old moves =
    inr (inr (inr (code, moves, refl, inl (loaded, found, old))))
import_moved-cases py r code none none disk after found old moves = inr (
    inr (
      inr (
        code,
        moves,
        refl,
        inr (
          found,
          ap
              (λ (ms : Dict String String).
                ms ++ (py.module_name (py.destination r.source_path), code) ∷ [])
              old,
        ),
      )))
import_moved-cases py r code none (some error) disk after found old moves =
    inr (inr (inl (code, error, moves, refl, found, old)))

promote_checked-cases :
    (py : Platform) (r : SkillRecord) (code : String) (disk : Disk)
    → lookup r.source_path disk.files ≡ some code
    → Answers py r disk (promote_checked py r code disk)
promote_checked-cases py r code disk here =
    elim (Bool-cases (py.compute_code_hash code == r.code_hash)) [
      | inr other ↦ rw other (inr (inl (py.compute_code_hash code, refl, refl)))
      | inl same ↦
          rw same
            (import_moved-cases py r code _ _ disk _ refl refl ((eq_iff _ _).0 same, here, refl))
    ]

promote_found-cases :
    (py : Platform) (r : SkillRecord) (o : Option String) (disk : Disk)
    → lookup r.source_path disk.files ≡ o
    → Answers py r disk (promote_found py r o disk)
promote_found-cases py r none disk here = inl (refl, refl)
promote_found-cases py r (some code) disk here =
    elim (Bool-cases (r.source_path == "" || py.is_in_package r.source_path)) [
      | inl stays ↦ rw stays (inl (refl, refl))
      | inr moves ↦ rw moves (promote_checked-cases py r code disk here)
    ]

pub promote-cases :
    (py : Platform) (r : SkillRecord) (disk : Disk)
    → Answers py r disk (promote_quarantined_code py r disk)
unfolding promote_quarantined_code
promote-cases py r disk = promote_found-cases py r _ disk refl
