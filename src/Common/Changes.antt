-- ===== src/Common/Changes.antt =====
-- An update of the rows of a table that a test picks, as a query's rows are changed one by one.
use Prim.Native.Nat.{◌+◌, ◌≤◌}
use mathlib.Core.Path.{◌≡◌, refl}
use mathlib.Core.Bool.{Bool, true, false}
use mathlib.Core.List.{List, [], ◌∷◌, ◌++◌, map}
use mathlib.Core.Option.{some}
use native.Mathlib.Omega.{arith}
use mathlib.Core.Logic.{inl, inr}
use praxis_ai_agent_platform.Common.Tests.{if◌then◌else◌, Bool-cases}
use praxis_ai_agent_platform.Common.Lists.{length, filter, All, find_first, map_option}

module _ {ℓ} {A : Type ℓ} where
  abbrev pub map_where : (A → Bool) → (A → A) → List A → List A
  map_where p f [] = []
  map_where p f (x ∷ xs) = (if p x then f x else x) ∷ map_where p f xs

  -- A change that keeps a test keeps the number of its members.
  pub length-filter-map_where :
      (p q : A → Bool) (f : A → A) (xs : List A)
      → ((x : A) → p x ≡ true → q (f x) ≡ q x)
      → length (filter q (map_where p f xs)) ≡ length (filter q xs)
  length-filter-map_where p q f [] keeps = refl
  length-filter-map_where p q f (x ∷ xs) keeps =
      ground (arith, length-filter-map_where p q f xs keeps, keeps x)

  -- A test gains at most the members that are changed.
  pub length-filter-map_where_le :
      (p q : A → Bool) (f : A → A) (xs : List A)
      → length (filter q (map_where p f xs)) ≤ length (filter q xs) + length (filter p xs)
  length-filter-map_where_le p q f [] = omega arith
  length-filter-map_where_le p q f (x ∷ xs) = ground (arith, length-filter-map_where_le p q f xs)

  -- A change of a test's own members that takes them out of it leaves it none.
  pub filter-map_where-out :
      (p : A → Bool) (f : A → A) (xs : List A)
      → ((x : A) → p x ≡ true → p (f x) ≡ false)
      → length (filter p (map_where p f xs)) ≡ 0
  filter-map_where-out p f [] out = refl
  filter-map_where-out p f (x ∷ xs) out = ground (arith, filter-map_where-out p f xs out, out x)

  pub length-filter-append :
      (p : A → Bool) (xs ys : List A)
      → length (filter p (xs ++ ys)) ≡ length (filter p xs) + length (filter p ys)
  length-filter-append p [] ys = omega arith
  length-filter-append p (x ∷ xs) ys = ground (arith, length-filter-append p xs ys)

  pub All-map_where {κ} :
      (P : A → Type κ) (p : A → Bool) (f : A → A) (xs : List A)
      → ((x : A) → p x ≡ true → P x → P (f x))
      → All P xs
      → All P (map_where p f xs)
  All-map_where P p f [] keeps h = tt
  All-map_where P p f (x ∷ xs) keeps h = elim (Bool-cases (p x)) [
    | inl met ↦ rw met (keeps x met h.0, All-map_where P p f xs keeps h.1)
    | inr unmet ↦ rw unmet (h.0, All-map_where P p f xs keeps h.1)
  ]

  -- Where a change keeps its own test, the members of the test are the changed ones.
  pub filter-map_where :
      (p : A → Bool) (f : A → A) (xs : List A)
      → ((x : A) → p (f x) ≡ p x)
      → filter p (map_where p f xs) ≡ map f (filter p xs)
  filter-map_where p f [] keeps = refl
  filter-map_where p f (x ∷ xs) keeps = elim (Bool-cases (p x)) [
    | inl met ↦ rw (met, keeps x, met, filter-map_where p f xs keeps)
    | inr unmet ↦ rw (unmet, unmet, filter-map_where p f xs keeps)
  ]

  -- The first member of a test, which a change of other or of the same rows keeps.
  pub find_first-map_where :
      (p q : A → Bool) (f : A → A) (xs : List A)
      → ((x : A) → p (f x) ≡ p x)
      → find_first p (map_where q f xs) ≡ map_option (λ x. if q x then f x else x) (find_first p xs)
  find_first-map_where p q f [] keeps = refl
  find_first-map_where p q f (x ∷ xs) keeps = elim (Bool-cases (q x)) [
    | inl met ↦ elim (Bool-cases (p x)) [
      | inl here ↦ rw (met, keeps x, here, met)
      | inr there ↦ rw (met, keeps x, there, find_first-map_where p q f xs keeps)
    ]
    | inr unmet ↦ elim (Bool-cases (p x)) [
      | inl here ↦ rw (unmet, here, unmet)
      | inr there ↦ rw (unmet, there, find_first-map_where p q f xs keeps)
    ]
  ]

  -- Where no row passes a test and the changed ones do, its first member is the first that changes.
  pub find_first-map_where_new :
      (p q : A → Bool) (f : A → A) (xs : List A)
      → length (filter p xs) ≡ 0
      → ((x : A) → q x ≡ true → p (f x) ≡ true)
      → find_first p (map_where q f xs) ≡ map_option f (find_first q xs)
  find_first-map_where_new p q f [] none_yet enters = refl
  find_first-map_where_new p q f (x ∷ xs) none_yet enters = elim (Bool-cases (q x)) [
    | inl met ↦ rw (met, enters x met)
    | inr unmet ↦ elim (Bool-cases (p x)) [
      | inl here ↦ ground arith
      | inr there ↦
          rw (unmet, there) (find_first-map_where_new p q f xs (rw there at none_yet) enters)
    ]
  ]

  pub find_first-filter :
      (p : A → Bool) (xs : List A) {x : A} {rest : List A}
      → filter p xs ≡ x ∷ rest
      → find_first p xs ≡ some x
  find_first-filter p [] h = cc
  find_first-filter p (x' ∷ xs) h = elim (Bool-cases (p x')) [
    | inl met ↦ rw met (let both = rw met at h in cc)
    | inr unmet ↦ rw unmet (find_first-filter p xs (rw unmet at h))
  ]
