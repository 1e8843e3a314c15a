-- ===== src/MemoryCache/Laws.antt =====
-- What is set is got until it expires.
use praxis_ai_agent_platform.Common.{
  ℕ, ◌≤◌, String, ◌≡◌, refl, sym, ◌∙◌, ◌⊎◌, inl, inr, true, false, Option, none, some, List, [],
  ◌∷◌, arith, eq_iff, if◌then◌else◌, ◌==◌, nat_eq, string_eq, pair_eq, Bool-cases, All, Json,
  lookup, insert, remove, lookup-insert, lookup-remove, lookup-insert_self,
}
use praxis_ai_agent_platform.MemoryCache.{
  Entries, is_expired, read_entry, get, expiry, set, Operation, gets, sets, run,
}

-- An operation up to a time that sets another key, or gets any.
abbrev pub Spares : String → ℕ → Operation → Type 0
Spares key until (gets k now) = now ≤ until
Spares key until (sets k v ttl_seconds now) = (k == key) ≡ false

module _ (key : String) (v : Json) (expires_at : Option ℕ) (until : ℕ) where
  -- The entry stands, or it is gone and would have expired by the time.
  abbrev Stands : Entries → Type 0
  Stands c =
      (lookup key c ≡ some (v, expires_at))
      ⊎ ((lookup key c ≡ none) × (is_expired expires_at until ≡ true))

  expires_later :
      (e : Option ℕ) (now : ℕ) → now ≤ until → is_expired e now ≡ true → is_expired e until ≡ true
  expires_later none now le h = h
  expires_later (some at) now le h = ground (arith, le, h)

  removed-Stands :
      (k : String) (now : ℕ) (c : Entries) (w : Json) (e : Option ℕ)
      → now ≤ until
      → lookup k c ≡ some (w, e)
      → is_expired e now ≡ true
      → Stands c
      → Stands (remove k c)
  removed-Stands k now c w e le there late h = elim (Bool-cases (k == key)) [
    | inl same ↦
        let k_same : k ≡ key = (eq_iff k key).0 same in
        let gone : lookup key (remove k c) ≡ none = simp (lookup-remove k key c, same) refl in
        elim h [
          | inl stands ↦
              let there' : lookup key c ≡ some (w, e) = simp (sym k_same) there in
              let both : ◌≡◌ {A = Option (Json × Option ℕ)} (some (w, e)) (some (v, expires_at)) =
                sym there' ∙ stands in
              let e_same : e ≡ expires_at = cc in
              inr (gone, expires_later expires_at now le (simp (sym e_same) late))
          | inr absent ↦ inr (gone, absent.1)
        ]
    | inr apart ↦
        let kept : lookup key (remove k c) ≡ lookup key c =
          simp (lookup-remove k key c, apart) refl in
        elim h [ inl stands ↦ inl (kept ∙ stands) | inr absent ↦ inr (kept ∙ absent.0, absent.1) ]
  ]

  read-Stands :
      (k : String) (now : ℕ) (c : Entries) (o : Option (Json × Option ℕ))
      → now ≤ until
      → lookup k c ≡ o
      → Stands c
      → Stands (read_entry k now c o).1
  read-Stands k now c none le there h = h
  read-Stands k now c (some (w, e)) le there h = elim (Bool-cases (is_expired e now)) [
    | inl late ↦ simp late (removed-Stands k now c w e le there late h)
    | inr early ↦ simp early h
  ]

  run-Stands :
      (ops : List Operation) (c : Entries)
      → All (Spares key until) ops
      → Stands c
      → Stands (run ops c)
  unfolding run get set
  run-Stands [] c spares h = h
  run-Stands (gets k now ∷ ops) c spares h =
      run-Stands ops _ spares.1 (read-Stands k now c (lookup k c) spares.0 refl h)
  run-Stands (sets k w ttl now ∷ ops) c spares h =
      let kept : lookup key (insert k (w, expiry now ttl) c) ≡ lookup key c =
        simp (lookup-insert k key (w, expiry now ttl) c, spares.0) refl in
      run-Stands ops _ spares.1
        (elim h [ inl stands ↦ inl (kept ∙ stands) | inr absent ↦ inr (kept ∙ absent.0, absent.1) ])

  got :
      (c : Entries)
      → Stands c
      → (get key until c).0 ≡ (if is_expired expires_at until then none else some v)
  unfolding get
  got c h = elim h [
    | inr (absent, late) ↦ simp (absent, late) refl
    | inl stands ↦ elim (Bool-cases (is_expired expires_at until)) [
      | inl late ↦ simp (stands, late) refl
      | inr early ↦ simp (stands, early) refl
    ]
  ]

-- What is set is got again: after any operations up to a time, none of which sets the same key, `get`
-- gives the value at that time, until the time to live is over, and then nothing; without one, always.
pub get-set :
    (key : String) (v : Json) (ttl_seconds : Option ℕ) (start until : ℕ) (c : Entries)
    (ops : List Operation)
    → All (Spares key until) ops
    → (get key until (run ops (set key v ttl_seconds start c))).0
      ≡ (if is_expired (expiry start ttl_seconds) until then none else some v)
unfolding set
get-set key v ttl_seconds start until c ops spares = got key v (expiry start ttl_seconds) until _ (
    run-Stands key v (expiry start ttl_seconds) until ops _ spares
      (inl (lookup-insert_self key (v, expiry start ttl_seconds) c)))
