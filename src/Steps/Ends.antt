-- ===== src/Steps/Ends.antt =====
-- Postconditions of actions: what holds of the result and the state when the action does not raise.
use mathlib.Core.Path.{subst}
use notebook_launcher.Prelude.{◌≡◌, ◌≢◌, refl, Bool, true, false, Option, none, some, if◌then◌else◌}
use notebook_launcher.Action.{Action, Result, ok, err, Error}
use notebook_launcher.Steps.{raise, on_option, on_result, ◌>>=◌}

abbrev pub Returned {κ} : {S A : Type 0} → (A → S → Type κ) → Result A × S → Type κ
Returned Q (ok a, s) = Q a s
Returned Q (err e, s) = Unit

-- If the action returns, its result and the state that it leaves satisfy `Q`.
pub record Ends {κ} {S A : Type 0} (Q : A → S → Type κ) (m : Action S A) : Type κ where
  pub after : (s : S) → Returned Q (m s)

returned {κ} :
    {S A : Type 0} (Q : A → S → Type κ) (r : Result A) (s : S)
    → ((a : A) → r ≡ ok a → Q a s)
    → Returned Q (r, s)
returned Q (ok a) s h = h a refl
returned Q (err e) s h = tt

err-neq-ok : {A : Type 0} {f : Error} {a : A} → err f ≢ ok a
err-neq-ok e = cc

pub returned_at {κ} :
    {S A : Type 0} (Q : A → S → Type κ) (r : Result A) (s : S) (a : A)
    → Returned Q (r, s)
    → r ≡ ok a
    → Q a s
returned_at Q (ok b) s a h e =
    subst (λ t. elim t as (λ _. Type κ) [ ok c ↦ Q c s | err f ↦ Unit ]) e h
returned_at Q (err f) s a h e = elim (err-neq-ok e) [ ]

module _ {κ} {S A : Type 0} {Q : A → S → Type κ} where
  pub Ends-elim : (m : Action S A) → Ends Q m → (s : S) (a : A) → (m s).0 ≡ ok a → Q a (m s).1
  Ends-elim m h s a e = returned_at Q (m s).0 (m s).1 a (h.after s) e

  pub Ends-intro : (m : Action S A) → ((s : S) (a : A) → (m s).0 ≡ ok a → Q a (m s).1) → Ends Q m
  Ends-intro m h = record { after = λ s. returned Q (m s).0 (m s).1 (h s) }

  pub Ends-raise : (e : Error) → Ends Q (raise {A = A} e)
  unfolding raise
  Ends-raise e = record { after = λ s. tt }

  pub Ends-if : (c : Bool) (m k : Action S A) → Ends Q m → Ends Q k → Ends Q (if c then m else k)
  Ends-if true m k p q = p
  Ends-if false m k p q = q

module _ {κ} {S A B : Type 0} {Q : B → S → Type κ} where
  continue-Ends :
      (r : Result A) (f : A → Action S B) (s : S)
      → ((a : A) → Ends Q (f a))
      → Returned Q (((λ (t : S). (r, t)) >>= f) s)
  unfolding ◌>>=◌
  continue-Ends (ok a) f s k = (k a).after s
  continue-Ends (err e) f s k = tt

  -- Whatever the first part does, the rest ends so.
  pub Ends-bind :
      (m : Action S A) (f : A → Action S B) → ((a : A) → Ends Q (f a)) → Ends Q (m >>= f)
  unfolding ◌>>=◌
  Ends-bind m f k = record { after = λ s. let (r, s') = m s in continue-Ends r f s' k }

module _ {κ μ} {S A B : Type 0} where
  continue_then :
      (P : A → S → Type κ) (Q : B → S → Type μ) (r : Result A) (f : A → Action S B) (s : S)
      → Returned P (r, s)
      → ((a : A) (s' : S) → P a s' → Returned Q (f a s'))
      → Returned Q (((λ (t : S). (r, t)) >>= f) s)
  unfolding ◌>>=◌
  continue_then P Q (ok a) f s h k = k a s h
  continue_then P Q (err e) f s h k = tt

module _ {κ μ} {S A B : Type 0} {P : A → S → Type κ} {Q : B → S → Type μ} where
  -- The rest may use what the first part establishes.
  pub Ends-then :
      (m : Action S A) (f : A → Action S B)
      → Ends P m
      → ((a : A) (s : S) → P a s → Returned Q (f a s))
      → Ends Q (m >>= f)
  unfolding ◌>>=◌
  Ends-then m f h k = record {
    after = λ s. let (r, s') = m s in continue_then P Q r f s' (h.after s) k;
  }

module _ {κ} {S A B : Type 0} {Q : B → S → Type κ} where
  pub Ends-option :
      (o : Option A) (m : Action S B) (f : A → Action S B)
      → Ends Q m
      → ((a : A) → Ends Q (f a))
      → Ends Q (on_option o m f)
  unfolding on_option
  Ends-option none m f h k = h
  Ends-option (some a) m f h k = k a

  pub Ends-result :
      (r : Result A) (f : A → Action S B) (g : Error → Action S B)
      → ((a : A) → Ends Q (f a))
      → ((e : Error) → Ends Q (g e))
      → Ends Q (on_result r f g)
  unfolding on_result
  Ends-result (ok a) f g h k = h a
  Ends-result (err e) f g h k = k e

pub ruleset ends_rules = (Ends-raise, Ends-if, Ends-bind, Ends-option, Ends-result)
