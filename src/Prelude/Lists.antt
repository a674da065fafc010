-- ===== src/Prelude/Lists.antt =====
-- Lists as SQL tables and as Python's dicts in insertion order: select, update and count by a test.
use Prim.Native.Nat.{ℕ, suc, ◌+◌}
use mathlib.Core.Path.{◌≡◌, refl}
use mathlib.Core.Logic.{inl, inr}
use mathlib.Core.Bool.{Bool, true, false, ◌&&◌, ◌||◌}
use mathlib.Core.Option.{Option, none, some}
use mathlib.Core.List.{List, [], ◌∷◌, ◌++◌}
use native.Mathlib.Omega.{arith}
use notebook_launcher.Prelude.Tests.{if◌then◌else◌, Bool-cases}

module _ {ℓ} {A : Type ℓ} where
  abbrev pub length : List A → ℕ
  length [] = 0
  length (x ∷ xs) = suc (length xs)

  -- The first row that passes the test: `SELECT … WHERE p` with `fetchone()`.
  abbrev pub find : (A → Bool) → List A → Option A
  find p [] = none
  find p (x ∷ xs) = if p x then some x else find p xs

  abbrev pub any : (A → Bool) → List A → Bool
  any p [] = false
  any p (x ∷ xs) = p x || any p xs

  abbrev pub all : (A → Bool) → List A → Bool
  all p [] = true
  all p (x ∷ xs) = p x && all p xs

  -- The rows that pass the test, in order.
  abbrev pub select : (A → Bool) → List A → List A
  select p [] = []
  select p (x ∷ xs) = let rest = select p xs in if p x then x ∷ rest else rest

  -- The number of rows that pass the test: `cursor.rowcount` of an update.
  abbrev pub count : (A → Bool) → List A → ℕ
  count p [] = 0
  count p (x ∷ xs) = (if p x then 1 else 0) + count p xs

  -- `UPDATE … SET f WHERE p`.
  abbrev pub update : (A → Bool) → (A → A) → List A → List A
  update p f [] = []
  update p f (x ∷ xs) = (if p x then f x else x) ∷ update p f xs

  -- Every element has the property, as a type.
  abbrev pub All {κ} : (A → Type κ) → List A → Type κ
  All P [] = Unit
  All P (x ∷ xs) = P x × All P xs

  pub count-append : (p : A → Bool) (xs ys : List A) → count p (xs ++ ys) ≡ count p xs + count p ys
  count-append p [] ys = omega arith
  count-append p (x ∷ xs) ys = omega (arith, count-append p xs ys)

  pub find-eq-none : (p : A → Bool) (xs : List A) → find p xs ≡ none → count p xs ≡ 0
  find-eq-none p [] h = refl
  find-eq-none p (x ∷ xs) h = ground (arith, find-eq-none p xs)

  -- What `find` returns passes the test.
  pub find_passes : (p : A → Bool) (xs : List A) {a : A} → find p xs ≡ some a → p a ≡ true
  find_passes p [] h = cc
  find_passes p (x ∷ xs) {a} h = elim (Bool-cases (p x)) [
    | inl e ↦ ground arith
    | inr e ↦ ground (arith, find_passes p xs {a = a})
  ]
