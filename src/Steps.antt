-- ===== src/Steps.antt =====
-- Python code that mutates an object and may raise, as in Action, with each part kept shut: a proof
-- about a long function applies one rule for each part.
pub mod Preserves
pub mod Ends
use mathlib.Core.Path.{◌≡◌, refl, sym, fun_ext}
use notebook_launcher.Prelude.{Bool, Option, none, some, List, [], ◌∷◌, if◌then◌else◌}
use notebook_launcher.Action.{Action, Result, ok, err, Error, found}

module _ {S A : Type 0} where
  unfoldable pub pure : A → Action S A
  pure a s = (ok a, s)

  unfoldable pub raise : Error → Action S A
  raise e s = (err e, s)

  unfoldable pub lift : Result A → Action S A
  lift r s = (r, s)

  unfoldable pub gets : (S → A) → Action S A
  gets f s = (ok (f s), s)

  -- A value that must be there, or the exception of its absence.
  unfoldable pub or_raise : Option A → Error → Action S A
  or_raise o e s = (found o e, s)

  -- What a call raises is kept as its answer: `try: …` with `except Exception as exc`.
  unfoldable pub attempt : Action S A → Action S (Result A)
  attempt m s = let (r, s') = m s in (ok r, s')

unfoldable pub raise_if : {S : Type 0} → Bool → Error → Action S (Unit {0})
raise_if c e s = (if c then err e else ok tt, s)

unfoldable pub modify : {S : Type 0} → (S → S) → Action S (Unit {0})
modify f s = (ok tt, f s)

module _ {S A B : Type 0} where
  infixl 5 ◌>>=◌ ◌>>◌
  abbrev continue : Result A → (A → Action S B) → Action S B
  continue (ok a) f s = f a s
  continue (err e) f s = (err e, s)

  unfoldable pub ◌>>=◌ : Action S A → (A → Action S B) → Action S B
  ◌>>=◌ m f s = let (r, s') = m s in continue r f s'

  abbrev pub ◌>>◌ : Action S A → Action S B → Action S B
  m >> k = m >>= λ _. k

module _ {S A B : Type 0} where
  -- A part for each case of a value.
  unfoldable pub on_option : Option A → Action S B → (A → Action S B) → Action S B
  on_option none m f = m
  on_option (some a) m f = f a

  unfoldable pub on_list : List A → Action S B → (A → List A → Action S B) → Action S B
  on_list [] m f = m
  on_list (a ∷ l) m f = f a l

  unfoldable pub on_result : Result A → (A → Action S B) → (Error → Action S B) → Action S B
  on_result (ok a) f g = f a
  on_result (err e) f g = g e

module _ {S A B C : Type 0} where
  continue_assoc :
      (r : Result A) (f : A → Action S B) (g : B → Action S C) (s : S)
      → (((λ (t : S). (r, t)) >>= f) >>= g) s ≡ ((λ (t : S). (r, t)) >>= λ a. f a >>= g) s
  unfolding ◌>>=◌
  continue_assoc (ok a) f g s = refl
  continue_assoc (err e) f g s = refl

  pub bind_assoc :
      (m : Action S A) (f : A → Action S B) (g : B → Action S C)
      → ((m >>= λ a. f a >>= g)) ≡ ((m >>= f) >>= g)
  unfolding ◌>>=◌
  bind_assoc m f g = sym (fun_ext λ s. let (r, s') = m s in continue_assoc r f g s')
