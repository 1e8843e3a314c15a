-- ===== src/Common/Lists.antt =====
-- Lists measured by native numbers, membership tests and the quantifiers over a list.
use Prim.Native.Nat.{ℕ, zero, suc, ◌+◌, ◌≤◌, ◌<◌}
use mathlib.Core.Path.{◌≡◌, refl, ap, sym, ◌∙◌}
use mathlib.Core.Logic.{inl, inr}
use mathlib.Core.Bool.{Bool, true, false, ◌&&◌, ◌||◌}
use mathlib.Core.List.{List, [], ◌∷◌, ◌++◌}
use mathlib.Core.Option.{Option, none, some}
use native.Mathlib.Omega.{arith}
use praxis_ai_agent_platform.Common.Tests.{
  Eq, ◌==◌, if◌then◌else◌, nat_eq, eqb, ltb, leb, Bool-cases,
}

module _ {ℓ} {A : Type ℓ} where
  abbrev pub length : List A → ℕ
  length [] = 0
  length (x ∷ xs) = suc (length xs)

  abbrev pub get_elem? : List A → ℕ → Option A
  get_elem? [] i = none
  get_elem? (x ∷ xs) zero = some x
  get_elem? (x ∷ xs) (suc i) = get_elem? xs i

  abbrev pub take : ℕ → List A → List A
  take zero xs = []
  take (suc n) [] = []
  take (suc n) (x ∷ xs) = x ∷ take n xs

  pub length-append : (xs ys : List A) → length (xs ++ ys) ≡ length xs + length ys
  length-append [] ys = omega arith
  length-append (x ∷ xs) ys = omega (arith, length-append xs ys)

  -- `[x for x in xs if p(x)]`
  abbrev pub filter : (A → Bool) → List A → List A
  filter p [] = []
  filter p (x ∷ xs) = let rest = filter p xs in if p x then x ∷ rest else rest

  -- `all(p(x) for x in xs)` and `any(...)`
  abbrev pub all : (A → Bool) → List A → Bool
  all p [] = true
  all p (x ∷ xs) = p x && all p xs

  abbrev pub any : (A → Bool) → List A → Bool
  any p [] = false
  any p (x ∷ xs) = p x || any p xs

module _ {ℓ} {A : Type ℓ} ⦃e : Eq A⦄ where
  -- `x in xs`
  abbrev pub contains : List A → A → Bool
  contains [] a = false
  contains (x ∷ xs) a = x == a || contains xs a

  -- `xs.count(a)`
  abbrev pub count : A → List A → ℕ
  count a [] = 0
  count a (x ∷ xs) = let rest = count a xs in if x == a then suc rest else rest

-- A predicate of every member, which computes to a tuple.
abbrev pub All {ℓ κ} : {A : Type ℓ} → (A → Type κ) → List A → Type κ
All P [] = Unit
All P (x ∷ xs) = P x × All P xs

pub All-append {ℓ κ} :
    {A : Type ℓ} (P : A → Type κ) (xs ys : List A) → All P xs → All P ys → All P (xs ++ ys)
All-append P [] ys left right = right
All-append P (x ∷ xs) ys left right = (left.0, All-append P xs ys left.1 right)

pub contains-append {ℓ} :
    {A : Type ℓ} ⦃e : Eq A⦄ (xs ys : List A) (a : A)
    → contains (xs ++ ys) a ≡ (contains xs a || contains ys a)
contains-append [] ys a = refl
contains-append (x ∷ xs) ys a = ground (arith, contains-append xs ys a)

module _ {ℓ} {A : Type ℓ} ⦃e : Eq A⦄ where
  pub contains-filter :
      (p : A → Bool) (xs : List A) (a : A) → contains (filter p xs) a ≡ (p a && contains xs a)
  contains-filter p [] a = ground arith
  contains-filter p (x ∷ xs) a =
      ground (arith, contains-filter p xs a, e.same_iff x a, λ (h : x ≡ a). ap p h)

  pub count-append : (a : A) (xs ys : List A) → count a (xs ++ ys) ≡ count a xs + count a ys
  count-append a [] ys = omega arith
  count-append a (x ∷ xs) ys = ground (arith, count-append a xs ys)

  pub count-filter :
      (p : A → Bool) (a : A) (xs : List A) → count a (filter p xs) ≡ (if p a then count a xs else 0)
  count-filter p a [] = ground arith
  count-filter p a (x ∷ xs) =
      ground (arith, count-filter p a xs, e.same_iff x a, λ (h : x ≡ a). ap p h)

  pub count-contains : (a : A) (xs : List A) → contains xs a ≡ ltb 0 (count a xs)
  count-contains a [] = refl
  count-contains a (x ∷ xs) = ground (arith, count-contains a xs)

  pub all-contains :
      (p : A → Bool) (xs : List A) (a : A) → all p xs ≡ true → contains xs a ≡ true → p a ≡ true
  all-contains p [] a h m = cc
  all-contains p (x ∷ xs) a h m =
      ground (arith, all-contains p xs a, e.same_iff x a, λ (k : x ≡ a). ap p k)

  pub length-filter : (p : A → Bool) (xs : List A) → length (filter p xs) ≤ length xs
  length-filter p [] = omega arith
  length-filter p (x ∷ xs) = ground (arith, length-filter p xs)

  pub length-filter_lt :
      (p : A → Bool) (xs : List A) (a : A)
      → contains xs a ≡ true
      → p a ≡ false
      → length (filter p xs) < length xs
  length-filter_lt p [] a m h = cc
  length-filter_lt p (x ∷ xs) a m h =
      ground
        (arith, length-filter p xs, length-filter_lt p xs a, e.same_iff x a, λ (k : x ≡ a). ap p k)

-- The numbers from `i` on, `n` of them.
unfoldable pub range_from : ℕ → ℕ → List ℕ
range_from i zero = []
range_from i (suc n) = i ∷ range_from (i + 1) n

pub count-range_from :
    (j i n : ℕ) → count j (range_from i n) ≡ (if leb i j && ltb j (i + n) then 1 else 0)
unfolding range_from
count-range_from j i zero = ground arith
count-range_from j i (suc n) = ground (arith, count-range_from j (i + 1) n)

pub length-range_from : (i n : ℕ) → length (range_from i n) ≡ n
unfolding range_from
length-range_from i zero = refl
length-range_from i (suc n) = omega (arith, length-range_from (i + 1) n)

module _ {ℓ} {A : Type ℓ} where
  -- An element replaced by what a function makes of it.
  unfoldable pub modify : List A → ℕ → (A → A) → List A
  modify [] i f = []
  modify (x ∷ xs) zero f = f x ∷ xs
  modify (x ∷ xs) (suc i) f = x ∷ modify xs i f

  abbrev pub map_option : (A → A) → Option A → Option A
  map_option f none = none
  map_option f (some a) = some (f a)

  pub get_elem?-modify :
      (xs : List A) (i j : ℕ) (f : A → A)
      → get_elem? (modify xs i f) j
        ≡ (if eqb i j then map_option f (get_elem? xs j) else get_elem? xs j)
  unfolding modify
  get_elem?-modify [] i j f = ground arith
  get_elem?-modify (x ∷ xs) zero zero f = refl
  get_elem?-modify (x ∷ xs) zero (suc j) f = ground arith
  get_elem?-modify (x ∷ xs) (suc i) zero f = ground arith
  get_elem?-modify (x ∷ xs) (suc i) (suc j) f = ground (arith, get_elem?-modify xs i j f)

  pub length-modify : (xs : List A) (i : ℕ) (f : A → A) → length (modify xs i f) ≡ length xs
  unfolding modify
  length-modify [] i f = refl
  length-modify (x ∷ xs) zero f = refl
  length-modify (x ∷ xs) (suc i) f = ap suc (length-modify xs i f)

  pub get_elem?-append_last :
      (xs : List A) (a : A) (j : ℕ)
      → get_elem? (xs ++ a ∷ []) j ≡ (if eqb j (length xs) then some a else get_elem? xs j)
  get_elem?-append_last [] a zero = refl
  get_elem?-append_last [] a (suc j) = ground arith
  get_elem?-append_last (x ∷ xs) a zero = ground arith
  get_elem?-append_last (x ∷ xs) a (suc j) = ground (arith, get_elem?-append_last xs a j)

  pub lt-length_of_get_elem? :
      (xs : List A) (j : ℕ) {a : A} → get_elem? xs j ≡ some a → j < length xs
  lt-length_of_get_elem? [] j h = cc
  lt-length_of_get_elem? (x ∷ xs) zero h = omega arith
  lt-length_of_get_elem? (x ∷ xs) (suc j) h = omega (arith, lt-length_of_get_elem? xs j h)

pub map_option-eq-some {ℓ} :
    {A : Type ℓ} (f : A → A) (o : Option A) {b : A}
    → map_option f o ≡ some b
    → (a : A) × (o ≡ some a) × (f a ≡ b)
map_option-eq-some f none h = cc
map_option-eq-some f (some a) h = (a, refl, cc)

module _ {ℓ} {A : Type ℓ} where
  -- The first element that passes a test, and the list with that element replaced.
  abbrev pub find_first : (A → Bool) → List A → Option A
  find_first p [] = none
  find_first p (x ∷ xs) = let rest = find_first p xs in if p x then some x else rest

  abbrev pub update_first : (A → Bool) → (A → A) → List A → List A
  update_first p f [] = []
  update_first p f (x ∷ xs) = let rest = update_first p f xs in if p x then f x ∷ xs else x ∷ rest

  pub find_first-update_first :
      (p : A → Bool) (f : A → A) (xs : List A)
      → ((x : A) → p (f x) ≡ p x)
      → find_first p (update_first p f xs) ≡ map_option f (find_first p xs)
  find_first-update_first p f [] keeps = refl
  find_first-update_first p f (x ∷ xs) keeps = elim (Bool-cases (p x)) [
    | inl met ↦ rw (met, keeps x, met)
    | inr unmet ↦ rw (unmet, unmet) (find_first-update_first p f xs keeps)
  ]

  pub find_first-holds :
      (p : A → Bool) (xs : List A) {a : A} → find_first p xs ≡ some a → p a ≡ true
  find_first-holds p [] h = cc
  find_first-holds p (x ∷ xs) {a} h = elim (Bool-cases (p x)) [
    | inl met ↦
        let same : some x ≡ some a = rw met at h in let that : x ≡ a = cc in ap p (sym that) ∙ met
    | inr unmet ↦ find_first-holds p xs (rw unmet at h)
  ]

  -- A change of one element that gives a test no new member leaves it no more members.
  pub length-filter-update_first :
      (p q : A → Bool) (f : A → A) (xs : List A)
      → ((x : A) → p x ≡ true → q (f x) ≡ true → q x ≡ true)
      → length (filter q (update_first p f xs)) ≤ length (filter q xs)
  length-filter-update_first p q f [] keeps = omega arith
  length-filter-update_first p q f (x ∷ xs) keeps =
      ground (arith, length-filter-update_first p q f xs keeps, keeps x)

  -- The one member of a test is the one that is changed.
  pub filter-update_first :
      (p : A → Bool) (f : A → A) (xs : List A) (a : A)
      → filter p xs ≡ a ∷ []
      → p (f a) ≡ true
      → filter p (update_first p f xs) ≡ f a ∷ []
  filter-update_first p f [] a h m = cc
  filter-update_first p f (x ∷ xs) a h m = elim (Bool-cases (p x)) [
    | inr unmet ↦ rw (unmet, unmet) (filter-update_first p f xs a (rw unmet at h) m)
    | inl met ↦
        let both : x ∷ filter p xs ≡ a ∷ [] = rw met at h in
        let head : x ≡ a = cc in let tail : filter p xs ≡ [] = cc in rw (met, head, m, tail)
  ]

module _ {ℓ} {A : Type ℓ} where
  pub All-filter : (p : A → Bool) (xs : List A) → All (λ x. p x ≡ true) (filter p xs)
  All-filter p [] = tt
  All-filter p (x ∷ xs) = elim (Bool-cases (p x)) [
    | inl met ↦ rw met (met, All-filter p xs)
    | inr unmet ↦ rw unmet (All-filter p xs)
  ]

  pub find_first-none :
      (p : A → Bool) (xs : List A) → find_first p xs ≡ none → All (λ x. p x ≡ false) xs
  find_first-none p [] h = tt
  find_first-none p (x ∷ xs) h = elim (Bool-cases (p x)) [
    | inl met ↦ let impossible : some x ≡ none = rw met at h in cc
    | inr unmet ↦ (unmet, find_first-none p xs (rw unmet at h))
  ]

pub All-map {ℓ κ μ} :
    {A : Type ℓ} (P : A → Type κ) (Q : A → Type μ) (xs : List A)
    → ((x : A) → P x → Q x)
    → All P xs
    → All Q xs
All-map P Q [] f h = tt
All-map P Q (x ∷ xs) f h = (f x h.0, All-map P Q xs f h.1)

pub All-filter_both {ℓ κ} :
    {A : Type ℓ} (P : A → Type κ) (p : A → Bool) (xs : List A)
    → All P xs
    → All (λ x. (p x ≡ true) × P x) (filter p xs)
All-filter_both P p [] h = tt
All-filter_both P p (x ∷ xs) h = elim (Bool-cases (p x)) [
  | inl met ↦ rw met ((met, h.0), All-filter_both P p xs h.1)
  | inr unmet ↦ rw unmet (All-filter_both P p xs h.1)
]

-- A member that passes a test has what every member has.
pub any-All {ℓ κ} :
    {A : Type ℓ} (P : A → Type κ) (p : A → Bool) (xs : List A)
    → any p xs ≡ true
    → All P xs
    → (x : A) × (p x ≡ true) × P x
any-All P p [] some_one h = cc
any-All P p (x ∷ xs) some_one h = elim (Bool-cases (p x)) [
  | inl met ↦ (x, met, h.0)
  | inr unmet ↦ any-All P p xs (rw unmet at some_one) h.1
]
