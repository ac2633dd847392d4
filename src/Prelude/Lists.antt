-- ===== src/Prelude/Lists.antt =====
-- Lists measured by native numbers, predicates on their elements, and options as results.
use Prim.Native.Nat.{ℕ, suc}
use mathlib.Core.Path.{◌≡◌, refl, ap}
use mathlib.Core.Bool.{Bool, true, false, ◌&&◌}
use mathlib.Core.List.{List, [], ◌∷◌, ◌++◌, map}
use mathlib.Core.Logic.{◌⊎◌, inl, inr}
use mathlib.Core.Option.{Option, none, some}
use native.Mathlib.Omega.{arith}
use ddd_samples.Prelude.Tests.{if◌then◌else◌, Bool-cases}

module _ {ℓ} {A : Type ℓ} where
  abbrev pub length : List A → ℕ
  length [] = 0
  length (_ ∷ xs) = suc (length xs)

  abbrev pub is_empty : List A → Bool
  is_empty [] = true
  is_empty (_ ∷ _) = false

  -- `iter().all(p)`
  abbrev pub all : (A → Bool) → List A → Bool
  all p [] = true
  all p (x ∷ xs) = p x && all p xs

  -- `iter().find(p)`
  abbrev pub find : (A → Bool) → List A → Option A
  find p [] = none
  find p (x ∷ xs) = if p x then some x else find p xs

  abbrev pub filter_by : (A → Bool) → List A → List A
  filter_by p [] = []
  filter_by p (x ∷ xs) = if p x then x ∷ filter_by p xs else filter_by p xs

module _ {ℓ} {A : Type ℓ} where
  abbrev pub All : (A → Type 0) → List A → Type 0
  All P [] = Unit
  All P (x ∷ xs) = P x × All P xs

  -- Some element has the property.
  abbrev pub Any : (A → Type 0) → List A → Type 0
  Any P [] = ⊥
  Any P (x ∷ xs) = P x ⊎ Any P xs

  pub All-append : (P : A → Type 0) (xs ys : List A) → All P xs → All P ys → All P (xs ++ ys)
  All-append P [] ys hx hy = hy
  All-append P (x ∷ xs) ys hx hy = (hx.0, All-append P xs ys hx.1 hy)

  pub Any-of_all : (p : A → Bool) (xs : List A) → all p xs ≡ false → Any (λ x. p x ≡ false) xs
  Any-of_all p [] h = cc
  Any-of_all p (x ∷ xs) h = ground (arith, Any-of_all p xs)

  pub all_of_Any : (p : A → Bool) (xs : List A) → Any (λ x. p x ≡ false) xs → all p xs ≡ false
  all_of_Any p [] h = absurd h
  all_of_Any p (x ∷ xs) (inl h) = rw h
  all_of_Any p (x ∷ xs) (inr h) = ground (arith, all_of_Any p xs h)

abbrev pub is_none {ℓ} : {A : Type ℓ} → Option A → Bool
is_none none = true
is_none (some _) = false

-- `Option::and_then`, and a chain of calls that may panic.
abbrev pub and_then : {A B : Type 0} → Option A → (A → Option B) → Option B
and_then none f = none
and_then (some a) f = f a

pub and_then-eq-some :
    {A B : Type 0} (o : Option A) (f : A → Option B) {b : B}
    → and_then o f ≡ some b
    → (a : A) × (o ≡ some a) × (f a ≡ some b)
and_then-eq-some none f h = cc
and_then-eq-some (some a) f h = (a, refl, h)

abbrev pub ⊤ : Type 0
⊤ = Unit

module _ {A : Type 0} (p : A → Bool) where
  pub filter_by-append :
      (xs ys : List A) → filter_by p (xs ++ ys) ≡ filter_by p xs ++ filter_by p ys
  filter_by-append [] ys = refl
  filter_by-append (x ∷ xs) ys = elim (Bool-cases (p x)) [
    | inl t ↦ rw t (ap (◌∷◌ x) (filter_by-append xs ys))
    | inr f ↦ rw f (filter_by-append xs ys)
  ]

  pub filter_by-all : (xs : List A) → All (λ x. p x ≡ true) xs → filter_by p xs ≡ xs
  filter_by-all [] h = refl
  filter_by-all (x ∷ xs) h = rw h.0 (ap (◌∷◌ x) (filter_by-all xs h.1))

  pub filter_by-none : (xs : List A) → All (λ x. p x ≡ false) xs → filter_by p xs ≡ []
  filter_by-none [] h = refl
  filter_by-none (x ∷ xs) h = rw h.0 (filter_by-none xs h.1)

  -- Filtering by `p` what was filtered by `q`, where `q` keeps all that `p` keeps, or none of it.
  pub filter_by-wider :
      (q : A → Bool) (xs : List A)
      → ((x : A) → p x ≡ true → q x ≡ true)
      → filter_by p (filter_by q xs) ≡ filter_by p xs
  filter_by-wider q [] h = refl
  filter_by-wider q (x ∷ xs) h = ground (arith, filter_by-wider q xs h, h x)

  pub filter_by-apart :
      (q : A → Bool) (xs : List A)
      → ((x : A) → p x ≡ true → q x ≡ false)
      → filter_by p (filter_by q xs) ≡ []
  filter_by-apart q [] h = refl
  filter_by-apart q (x ∷ xs) h = ground (arith, filter_by-apart q xs h, h x)

pub All-map :
    {A B : Type 0} (P : B → Type 0) (f : A → B) (xs : List A)
    → ((x : A) → P (f x))
    → All P (map f xs)
All-map P f [] h = tt
All-map P f (x ∷ xs) h = (h x, All-map P f xs h)
