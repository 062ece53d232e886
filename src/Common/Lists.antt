-- ===== src/Common/Lists.antt =====
-- Lists measured by native numbers, under the library's names, and predicates on their members.
use Prim.Native.Nat.{ℕ, zero, suc, ◌+◌}
use mathlib.Core.Option.{Option, none, some}
use mathlib.Core.Path.{◌≡◌, refl}
use mathlib.Core.Logic.{inl, inr}
use mathlib.Core.Bool.{Bool, true, false, ◌&&◌, ◌||◌}
use mathlib.Core.List.{List, [], ◌∷◌, ◌++◌, map}
use native.Mathlib.Omega.{arith}
use netcheck.Common.Tests.{and-true, Bool-cases, if◌then◌else◌}

module _ {ℓ} {A : Type ℓ} where
  abbrev pub length : List A → ℕ
  length [] = 0
  length (x ∷ xs) = suc (length xs)

  abbrev pub get_elem? : List A → ℕ → Option A
  get_elem? [] n = none
  get_elem? (x ∷ xs) zero = some x
  get_elem? (x ∷ xs) (suc n) = get_elem? xs n

  abbrev pub take : ℕ → List A → List A
  take zero xs = []
  take (suc n) [] = []
  take (suc n) (x ∷ xs) = x ∷ take n xs

  abbrev pub drop : ℕ → List A → List A
  drop zero xs = xs
  drop (suc n) [] = []
  drop (suc n) (x ∷ xs) = drop n xs

  -- The list but the element at this place.
  abbrev pub remove_at : ℕ → List A → List A
  remove_at n [] = []
  remove_at zero (x ∷ xs) = xs
  remove_at (suc n) (x ∷ xs) = x ∷ remove_at n xs

  -- `Array.prototype.some`, `every` and `filter` at a Boolean test.
  abbrev pub any : (A → Bool) → List A → Bool
  any p [] = false
  any p (x ∷ xs) = p x || any p xs

  abbrev pub all : (A → Bool) → List A → Bool
  all p [] = true
  all p (x ∷ xs) = p x && all p xs

module _ {ℓ} {A : Type ℓ} (p : A → Bool) where
  abbrev pub count : List A → ℕ
  count [] = 0
  count (x ∷ xs) = (if p x then 1 else 0) + count xs

  pub count-append : (xs ys : List A) → count (xs ++ ys) ≡ count xs + count ys
  count-append [] ys = omega arith
  count-append (x ∷ xs) ys = omega (arith, count-append xs ys)

  -- What is taken out is counted no more.
  pub count-remove_at :
      (n : ℕ) (xs : List A) {x : A}
      → get_elem? xs n ≡ some x
      → count xs ≡ (if p x then 1 else 0) + count (remove_at n xs)
  count-remove_at n [] h = cc
  count-remove_at zero (x ∷ xs) h = ground arith
  count-remove_at (suc n) (x ∷ xs) h = ground (arith, count-remove_at n xs h)

module _ {ℓ κ} {A : Type ℓ} (P : A → Type κ) where
  abbrev pub All : List A → Type κ
  All [] = Unit
  All (x ∷ xs) = P x × All xs

  pub All-append : (xs ys : List A) → All xs → All ys → All (xs ++ ys)
  All-append [] ys h k = k
  All-append (x ∷ xs) ys (p, h) k = (p, All-append xs ys h k)

-- A Boolean sweep over a list, read as a predicate.
pub all-All {ℓ κ} :
    {A : Type ℓ} (p : A → Bool) (P : A → Type κ)
    → ((x : A) → p x ≡ true → P x)
    → (xs : List A) → all p xs ≡ true
    → All P xs
all-All p P sound [] h = tt
all-All p P sound (x ∷ xs) h =
    let both = and-true (p x) (all p xs) h in (sound x both.0, all-All p P sound xs both.1)

pub All-imp {ℓ κ μ} :
    {A : Type ℓ} (P : A → Type κ) (Q : A → Type μ)
    → ((x : A) → P x → Q x)
    → (xs : List A) → All P xs
    → All Q xs
All-imp P Q f [] h = tt
All-imp P Q f (x ∷ xs) (p, h) = (f x p, All-imp P Q f xs h)

module _ {ℓ} {A : Type ℓ} (p : A → Bool) where
  pub any-append : (xs ys : List A) → any p (xs ++ ys) ≡ (any p xs || any p ys)
  any-append [] ys = refl
  any-append (x ∷ xs) ys = ground (arith, any-append xs ys)

module _ {ℓ} {A : Type ℓ} (p : A → Bool) where
  abbrev pub filter : List A → List A
  filter [] = []
  filter (x ∷ xs) = if p x then x ∷ filter xs else filter xs

  pub filter-All : (xs : List A) → All (λ x. p x ≡ true) (filter xs)
  filter-All [] = tt
  filter-All (x ∷ xs) = elim (Bool-cases (p x)) [
    | inl e ↦ rw (e, filter) (e, filter-All xs)
    | inr e ↦ rw (e, filter) (filter-All xs)
  ]

module _ {ℓ κ μ} {A : Type ℓ} where
  pub All-map :
      {B : Type ℓ} (P : A → Type κ) (Q : B → Type μ) (f : A → B)
      → ((x : A) → P x → Q (f x))
      → (xs : List A) → All P xs
      → All Q (map f xs)
  All-map P Q f h [] k = tt
  All-map P Q f h (x ∷ xs) (k, ks) = (h x k, All-map P Q f h xs ks)

  pub All-both :
      (P : A → Type κ) (Q : A → Type μ) (xs : List A)
      → All P xs
      → All Q xs
      → All (λ x. P x × Q x) xs
  All-both P Q [] h k = tt
  All-both P Q (x ∷ xs) (h, hs) (k, ks) = ((h, k), All-both P Q xs hs ks)

module _ {ℓ κ} {A : Type ℓ} where
  pub All-filter : (P : A → Type κ) (p : A → Bool) (xs : List A) → All P xs → All P (filter p xs)
  All-filter P p [] h = tt
  All-filter P p (x ∷ xs) (h, hs) = elim (Bool-cases (p x)) [
    | inl e ↦ rw (e, filter) (h, All-filter P p xs hs)
    | inr e ↦ rw (e, filter) (All-filter P p xs hs)
  ]
