-- ===== src/Prelude/Raises.antt =====
-- Code that may raise: `none` is an exception that the caller does not catch.
use mathlib.Core.Path.{◌≡◌, refl}
use mathlib.Core.Bool.{Bool, true, false}
use integrated_work.Prelude.Tests.{if◌then◌else◌}
use mathlib.Core.Option.{Option, none, some}

infixl 5 ◌>>=◌
abbrev pub ◌>>=◌ {ℓ κ} : {A : Type ℓ} {B : Type κ} → Option A → (A → Option B) → Option B
none >>= f = none
some a >>= f = f a

-- The result satisfies P, if there is one.
abbrev pub IfSome {ℓ κ} : {A : Type ℓ} → (A → Type κ) → Option A → Type κ
IfSome P none = Unit
IfSome P (some a) = P a

pub bind-IfSome {ℓ κ} :
    {A B : Type ℓ} (P : A → Type κ) (Q : B → Type κ) (m : Option A) (f : A → Option B)
    → IfSome P m
    → ((a : A) → P a → IfSome Q (f a))
    → IfSome Q (m >>= f)
bind-IfSome P Q none f h g = tt
bind-IfSome P Q (some a) f h g = g a h

pub bind-IfSome_any {ℓ κ} :
    {A B : Type ℓ} (Q : B → Type κ) (m : Option A) (f : A → Option B)
    → ((a : A) → IfSome Q (f a))
    → IfSome Q (m >>= f)
bind-IfSome_any Q none f g = tt
bind-IfSome_any Q (some a) f g = g a

pub if-IfSome {ℓ κ} :
    {A : Type ℓ} (P : A → Type κ) (c : Bool) (m n : Option A)
    → (c ≡ true → IfSome P m)
    → (c ≡ false → IfSome P n)
    → IfSome P (if c then m else n)
if-IfSome P true m n h g = h refl
if-IfSome P false m n h g = g refl

pub IfSome-map {ℓ κ} :
    {A : Type ℓ} (P Q : A → Type κ) (m : Option A) → ((a : A) → P a → Q a) → IfSome P m → IfSome Q m
IfSome-map P Q none f h = tt
IfSome-map P Q (some a) f h = f a h
