-- ===== src/Base/Tests.antt =====
-- Boolean tests on the native numbers, the conditional, and C's conversions between `bool` and `int`.
use Prim.Native.Nat.{ℕ, compare, Ordering}
use mathlib.Core.Path.{◌≡◌, refl}
use mathlib.Core.Logic.{◌≢◌, ◌↔◌, ◌⊎◌, inl, inr}
use mathlib.Core.Bool.{Bool, true, false}
use mathlib.Core.Option.{Option, none, some}
use native.Mathlib.Omega.{arith}

abbrev pub ltb : ℕ → ℕ → Bool
ltb a b = elim (compare a b) [ Ordering.lt ↦ true | _ ↦ false ]

abbrev pub leb : ℕ → ℕ → Bool
leb a b = elim (compare a b) [ Ordering.gt ↦ false | _ ↦ true ]

infix 50 ◌==◌ ◌!=◌
abbrev pub ◌==◌ : ℕ → ℕ → Bool
a == b = elim (compare a b) [ Ordering.eq ↦ true | _ ↦ false ]

abbrev pub ◌!=◌ : ℕ → ℕ → Bool
a != b = elim (compare a b) [ Ordering.eq ↦ false | _ ↦ true ]

infix 1 if◌then◌else◌
abbrev pub if◌then◌else◌ {ℓ} : {A : Type ℓ} → Bool → A → A → A
if true then x else y = x
if false then x else y = y

-- The value of a comparison in an arithmetic expression.
abbrev pub int_of : Bool → ℕ
int_of true = 1
int_of false = 0

pub Bool-cases : (b : Bool) → (b ≡ true) ⊎ (b ≡ false)
Bool-cases true = inl refl
Bool-cases false = inr refl

pub ==_iff : (a b : ℕ) → ((a == b) ≡ true) ↔ (a ≡ b)
==_iff a b = ground arith

pub Option-cases {ℓ} : {A : Type ℓ} (o : Option A) → (o ≡ none) ⊎ ((a : A) × (o ≡ some a))
Option-cases none = inl refl
Option-cases (some a) = inr (a, refl)

pub equal-cases : (a b : ℕ) → (a ≡ b) ⊎ (a ≢ b)
equal-cases a b = ground arith

-- What holds of both branches, each under its test, holds of the conditional.
pub if-either {ℓ ℓ'} :
    {A : Type ℓ} (P : A → Type ℓ') (b : Bool) {x y : A}
    → (b ≡ true → P x)
    → (b ≡ false → P y)
    → P (if b then x else y)
if-either P true first second = first refl
if-either P false first second = second refl

pub ==_true : (a b : ℕ) → (a == b) ≡ true → a ≡ b
==_true a b test = ground arith

pub ==_false : (a b : ℕ) → (a == b) ≡ false → a ≢ b
==_false a b test = ground arith
