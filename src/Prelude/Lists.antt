-- ===== src/Prelude/Lists.antt =====
-- Lists measured by native numbers, and Python's comprehensions, `any` and `all`.
use Prim.Native.Nat.{ℕ, zero, suc, ◌+◌, ◌≤◌}
use mathlib.Core.Path.{◌≡◌, refl}
use mathlib.Core.Bool.{Bool, true, false, not, ◌&&◌, ◌||◌}
use mathlib.Core.List.{List, [], ◌∷◌, ◌++◌, map}
use native.Mathlib.Omega.{arith}
use integrated_work.Prelude.Tests.{if◌then◌else◌}

module _ {ℓ} {A : Type ℓ} where
  abbrev pub length : List A → ℕ
  length [] = 0
  length (x ∷ xs) = suc (length xs)

  -- `xs[:n]`
  abbrev pub take : ℕ → List A → List A
  take zero xs = []
  take (suc n) [] = []
  take (suc n) (x ∷ xs) = x ∷ take n xs

  -- `[x for x in xs if p(x)]`
  unfoldable pub keep : (A → Bool) → List A → List A
  keep p [] = []
  keep p (x ∷ xs) = let rest = keep p xs in if p x then x ∷ rest else rest

  unfoldable pub any : (A → Bool) → List A → Bool
  any p [] = false
  any p (x ∷ xs) = p x || any p xs

  unfoldable pub all : (A → Bool) → List A → Bool
  all p [] = true
  all p (x ∷ xs) = p x && all p xs

  -- `bool(xs)`
  abbrev pub nonempty : List A → Bool
  nonempty [] = false
  nonempty (x ∷ xs) = true

  pub length-append : (xs ys : List A) → length (xs ++ ys) ≡ length xs + length ys
  length-append [] ys = omega arith
  length-append (x ∷ xs) ys = omega (arith, length-append xs ys)

  pub keep-append : (p : A → Bool) (xs ys : List A) → keep p (xs ++ ys) ≡ keep p xs ++ keep p ys
  unfolding keep
  keep-append p [] ys = refl
  keep-append p (x ∷ xs) ys = ground (arith, keep-append p xs ys)

  pub length-keep-le : (p : A → Bool) (xs : List A) → length (keep p xs) ≤ length xs
  unfolding keep
  length-keep-le p [] = omega arith
  length-keep-le p (x ∷ xs) = ground (arith, length-keep-le p xs)

  -- A kept list and what was left out have all the elements.
  pub length-keep-not :
      (p : A → Bool) (xs : List A)
      → length (keep p xs) + length (keep (λ x. not (p x)) xs) ≡ length xs
  unfolding keep
  length-keep-not p [] = omega arith
  length-keep-not p (x ∷ xs) = ground (arith, length-keep-not p xs)

  pub all-keep : (p : A → Bool) (xs : List A) → all p (keep p xs) ≡ true
  unfolding keep all
  all-keep p [] = refl
  all-keep p (x ∷ xs) = ground (arith, all-keep p xs)

  pub any-append : (p : A → Bool) (xs ys : List A) → any p (xs ++ ys) ≡ (any p xs || any p ys)
  unfolding any
  any-append p [] ys = refl
  any-append p (x ∷ xs) ys = ground (arith, any-append p xs ys)

  -- `for x in xs: out.extend(f(x))`
  unfoldable pub extend_all {κ} : {B : Type κ} → (B → List A) → List B → List A
  extend_all f [] = []
  extend_all f (x ∷ xs) = f x ++ extend_all f xs

-- Every element satisfies a predicate.
abbrev pub All {ℓ κ} : {A : Type ℓ} → (A → Type κ) → List A → Type κ
All P [] = Unit
All P (x ∷ xs) = P x × All P xs

pub All-append {ℓ κ} :
    {A : Type ℓ} (P : A → Type κ) (xs ys : List A) → All P xs → All P ys → All P (xs ++ ys)
All-append P [] ys h g = g
All-append P (x ∷ xs) ys h g = (h.0, All-append P xs ys h.1 g)

pub All-map {ℓ κ μ} :
    {A : Type ℓ} (P : A → Type κ) (Q : A → Type μ) (xs : List A)
    → ((x : A) → P x → Q x)
    → All P xs
    → All Q xs
All-map P Q [] f h = tt
All-map P Q (x ∷ xs) f h = (f x h.0, All-map P Q xs f h.1)

All-if {ℓ κ} :
    {A : Type ℓ} (P : A → Type κ) (b : Bool) (x : A) (xs : List A)
    → P x
    → All P xs
    → All P (if b then x ∷ xs else xs)
All-if P true x xs h g = (h, g)
All-if P false x xs h g = g

-- What holds of all the elements that a comprehension ran over holds of those that it kept.
pub All-keep {ℓ κ} :
    {A : Type ℓ} (P : A → Type κ) (p : A → Bool) (xs : List A) → All P xs → All P (keep p xs)
unfolding keep
All-keep P p [] h = tt
All-keep P p (x ∷ xs) h = All-if P (p x) x (keep p xs) h.0 (All-keep P p xs h.1)

-- Comprehensions by tests that agree on the list are equal.
pub keep-congr {ℓ} :
    {A : Type ℓ} (p q : A → Bool) (xs : List A) → All (λ x. p x ≡ q x) xs → keep p xs ≡ keep q xs
unfolding keep
keep-congr p q [] h = refl
keep-congr p q (x ∷ xs) h = ground (arith, keep-congr p q xs h.1, h.0)

pub keep_eq_self {ℓ} :
    {A : Type ℓ} (p : A → Bool) (xs : List A) → All (λ x. p x ≡ true) xs → keep p xs ≡ xs
unfolding keep
keep_eq_self p [] h = refl
keep_eq_self p (x ∷ xs) h = ground (arith, keep_eq_self p xs h.1, h.0)

keep-All-if {ℓ} :
    {A : Type ℓ} (p : A → Bool) (x : A) (xs : List A) (b : Bool)
    → p x ≡ b
    → All (λ y. p y ≡ true) xs
    → All (λ y. p y ≡ true) (if b then x ∷ xs else xs)
keep-All-if p x xs true e h = (e, h)
keep-All-if p x xs false e h = h

pub keep-All {ℓ} : {A : Type ℓ} (p : A → Bool) (xs : List A) → All (λ x. p x ≡ true) (keep p xs)
unfolding keep
keep-All p [] = tt
keep-All p (x ∷ xs) = keep-All-if p x (keep p xs) (p x) refl (keep-All p xs)

pub nonempty-keep {ℓ} : {A : Type ℓ} (p : A → Bool) (xs : List A) → nonempty (keep p xs) ≡ any p xs
unfolding keep any
nonempty-keep p [] = refl
nonempty-keep p (x ∷ xs) = ground (arith, nonempty-keep p xs)

-- What holds of the image of every element holds of all that a comprehension makes.
pub map-All {ℓ κ μ} :
    {A : Type ℓ} {B : Type κ} (Q : B → Type μ) (g : A → B) (xs : List A)
    → All (λ x. Q (g x)) xs
    → All Q (map g xs)
map-All Q g [] h = tt
map-All Q g (x ∷ xs) h = (h.0, map-All Q g xs h.1)

pub extend_all-All {ℓ κ μ} :
    {A : Type ℓ} {B : Type κ} (Q : B → Type μ) (f : A → List B) (xs : List A)
    → All (λ x. All Q (f x)) xs
    → All Q (extend_all f xs)
unfolding extend_all
extend_all-All Q f [] h = tt
extend_all-All Q f (x ∷ xs) h = All-append Q (f x) (extend_all f xs) h.0 (extend_all-All Q f xs h.1)
