-- ===== src/Publication/Rulings.antt =====
-- The rulings that stand behind a callable version: who decided, and where.
use praxis_ai_agent_platform.Common.{
  ℕ, String, ◌≡◌, refl, ◌⊎◌, inl, inr, Bool, true, false, if◌then◌else◌, Option, List, [], ◌∷◌,
  nat_eq, string_eq, Bool-cases, All, any, All-append, Result, ok, err,
}
use praxis_ai_agent_platform.Publication.{SkillRecord, Table, PublicationError, is_version}
use praxis_ai_agent_platform.Publication.Operations.{Platform, Disk, Catalogue}
use praxis_ai_agent_platform.Publication.Entries.{
  Write, publishes, registers, submits, Registration, registered_row, add_row, entry_status,
  after_import, register, submitted_row, submit, write, run_writes,
}
use praxis_ai_agent_platform.Publication.{is_callable_status}
use praxis_ai_agent_platform.Publication.Allowed.{
  IsRuledBy, by_open_registration, by_open_submission, Allowed, Extended, weaken, step-Allowed,
}

-- Some member of a list.
abbrev pub Any {ℓ} : {A : Type ℓ} → (A → Type 0) → List A → Type 0
Any P [] = ⊥
Any P (x ∷ xs) = P x ⊎ Any P xs

add_row-Allowed :
    (P : String → String → ℕ → Type 0) (row : SkillRecord) (db : Table)
    → (is_callable_status row.status ≡ true → P row.tenant_id row.name row.version)
    → Allowed P db
    → Allowed P (add_row row db)
add_row-Allowed P row db new h =
    elim (Bool-cases (any (is_version row.tenant_id row.name row.version) db)) [
      | inl taken ↦ rw taken h
      | inr free ↦ rw free (
          All-append (λ r. is_callable_status r.status ≡ true → P r.tenant_id r.name r.version) db
            (row ∷ []) h (new, tt))
    ]

-- A row that enters callable was not required to be approved.
entry-open :
    (required : Bool) → is_callable_status (entry_status required) ≡ true → required ≡ false
entry-open true h = cc
entry-open false h = refl

after_import-Allowed :
    (P : String → String → ℕ → Type 0) (py : Platform) (g : Registration) (c : Catalogue)
    (disk : Disk) (path : Result PublicationError (Option String))
    → P g.tenant_id g.skill_name 1
    → Allowed P c.table
    → Allowed P (after_import py g c disk path).table
after_import-Allowed P py g c disk (err e) ruled h = h
after_import-Allowed P py g c disk (ok path) ruled h = elim (Bool-cases g.is_known) [
  | inl known ↦ rw known (add_row-Allowed P (registered_row py g) c.table (λ callable. ruled) h)
  | inr unknown ↦ rw unknown h
]

either-Allowed :
    (P : String → String → ℕ → Type 0) (b : Bool) (x y : Catalogue)
    → Allowed P x.table
    → (b ≡ false → Allowed P y.table)
    → Allowed P (if b then x else y).table
either-Allowed P true x y first second = first
either-Allowed P false x y first second = second refl

register-Allowed :
    (P : String → String → ℕ → Type 0) (py : Platform) (g : Registration) (c : Catalogue)
    → (g.require_approval ≡ false → P g.tenant_id g.skill_name 1)
    → Allowed P c.table
    → Allowed P (register py g c).table
unfolding register
register-Allowed P py g c ruled h =
    either-Allowed P g.require_approval _ _
      (add_row-Allowed P (registered_row py g) c.table
        (λ callable. ruled (entry-open g.require_approval callable)) h)
      (λ free. after_import-Allowed P py g c _ _ (ruled free) h)

write-Allowed :
    (P : String → String → ℕ → Type 0) (py : Platform) (w : Write) (c : Catalogue)
    → Allowed P c.table
    → Allowed (Extended P w) (write py w c).table
unfolding write submit
write-Allowed P py (publishes e) c h = step-Allowed P py e c h
write-Allowed P py (registers g) c h =
    register-Allowed (Extended P (registers g)) py g c
      (λ free. inr (by_open_registration refl refl refl free))
      (weaken P _ c.table (λ t n v old. inl old) h)
write-Allowed P py (submits s) c h =
    All-append _ c.table (submitted_row py s c.table ∷ [])
      (weaken P (Extended P (submits s)) c.table (λ t n v old. inl old) h)
      (
        (λ callable. inr (by_open_submission refl refl (entry-open s.require_approval callable))),
        tt,
      )

run_writes-Allowed :
    (P : String → String → ℕ → Type 0) (py : Platform) (ws : List Write) (c : Catalogue)
    → Allowed P c.table
    → Allowed (λ t n v. P t n v ⊎ Any (IsRuledBy t n v) ws) (run_writes py ws c).table
unfolding run_writes
run_writes-Allowed P py [] c h = weaken P _ c.table (λ t n v old. inl old) h
run_writes-Allowed P py (w ∷ ws) c h =
    weaken (λ t n v. Extended P w t n v ⊎ Any (IsRuledBy t n v) ws) _
      (run_writes py ws (write py w c)).table
      (λ t n v past. elim past [
        | inl (inl old) ↦ inl old
        | inl (inr ruled) ↦ inr (inl ruled)
        | inr later ↦ inr (inr later)
      ])
      (run_writes-Allowed (Extended P w) py ws (write py w c) (write-Allowed P py w c h))

-- In a catalogue that starts empty, after any writes to it, a version is callable only with a ruling on
-- that very version: an approval of it, or a rollback to it, by a principal of its own tenant that has
-- `skill:approve`; or its registration by the factory, or the submission of a procedure of its name, in
-- its own tenant, with the approval gate switched off.
pub callable_was_ruled :
    (py : Platform) (ws : List Write) (disk : Disk)
    → All
        (λ r. is_callable_status r.status ≡ true → Any (IsRuledBy r.tenant_id r.name r.version) ws)
        (run_writes py ws (record { table = []; disk = disk })).table
callable_was_ruled py ws disk =
    weaken (λ t n v. ⊥ ⊎ Any (IsRuledBy t n v) ws) (λ t n v. Any (IsRuledBy t n v) ws) _
      (λ t n v past. elim past [ inl never ↦ absurd never | inr ruled ↦ ruled ])
      (run_writes-Allowed (λ t n v. ⊥) py ws (record { table = []; disk = disk }) tt)
