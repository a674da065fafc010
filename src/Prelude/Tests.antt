-- ===== src/Prelude/Tests.antt =====
-- Boolean tests on the native numbers and on texts, and the conditional.
use Prim.Native.Nat.{ℕ, compare, Ordering}
use Prim.Native.String.{String}
use mathlib.Core.Path.{◌≡◌, refl}
use mathlib.Core.Logic.{◌⊎◌, inl, inr}
use mathlib.Core.Bool.{Bool, true, false, ◌&&◌}
use mathlib.Core.Option.{Option, none, some}
use native.Mathlib.Omega.{arith}
use text.Mathlib.Text.{◌==◌ as text_eq}
use text.Mathlib.TextEquality.{eq_iff}

abbrev pub ltb : ℕ → ℕ → Bool
ltb a b = elim (compare a b) [ Ordering.lt ↦ true | _ ↦ false ]

abbrev pub leb : ℕ → ℕ → Bool
leb a b = elim (compare a b) [ Ordering.gt ↦ false | _ ↦ true ]

infix 50 ◌==◌
abbrev pub ◌==◌ : ℕ → ℕ → Bool
a == b = elim (compare a b) [ Ordering.eq ↦ true | _ ↦ false ]

infix 1 if◌then◌else◌
abbrev pub if◌then◌else◌ {ℓ} : {A : Type ℓ} → Bool → A → A → A
if true then x else y = x
if false then x else y = y

-- Equality of texts.
abbrev pub str_eq : String → String → Bool
str_eq = text_eq

pub str_eq_refl : (s : String) → str_eq s s ≡ true
str_eq_refl s = (eq_iff s s).1 refl

-- Equality of optional numbers and texts, as Python's `==` on values that may be `None`.
abbrev pub opt_eq : Option ℕ → Option ℕ → Bool
opt_eq none none = true
opt_eq (some a) (some b) = a == b
opt_eq _ _ = false

abbrev pub opt_str_eq : Option String → Option String → Bool
opt_str_eq none none = true
opt_str_eq (some a) (some b) = str_eq a b
opt_str_eq _ _ = false

abbrev pub is_some {ℓ} : {A : Type ℓ} → Option A → Bool
is_some none = false
is_some (some _) = true

abbrev pub is_none {ℓ} : {A : Type ℓ} → Option A → Bool
is_none none = true
is_none (some _) = false

-- SQL's `COALESCE(a, b)` and Python's `a or b` on values that may be missing.
abbrev pub coalesce {ℓ} : {A : Type ℓ} → Option A → Option A → Option A
coalesce (some a) _ = some a
coalesce none b = b

abbrev pub or_else {ℓ} : {A : Type ℓ} → Option A → A → A
or_else (some a) _ = a
or_else none b = b

pub Bool-cases : (b : Bool) → (b ≡ true) ⊎ (b ≡ false)
Bool-cases true = inl refl
Bool-cases false = inr refl

pub Option-cases {ℓ} : {A : Type ℓ} (o : Option A) → (o ≡ none) ⊎ ((a : A) × (o ≡ some a))
Option-cases none = inl refl
Option-cases (some a) = inr (a, refl)

pub &&-eq-true : (a b : Bool) → (a && b) ≡ true → (a ≡ true) × (b ≡ true)
&&-eq-true a b h = ground arith
