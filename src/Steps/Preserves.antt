-- ===== src/Steps/Preserves.antt =====
-- Invariants of an action of Steps, by its parts.
use notebook_launcher.Prelude.{Bool, true, false, Option, none, some, List, [], ◌∷◌, if◌then◌else◌}
use notebook_launcher.Action.{Action, Result, ok, err, Error}
use notebook_launcher.Steps.{
  pure, raise, lift, gets, or_raise, attempt, raise_if, ◌>>=◌, bind_assoc, on_option, on_list,
  on_result,
}

-- A state with the property goes to a state with the property, whatever the action answers.
pub record Preserves {κ} {S A : Type 0} (P : S → Type κ) (m : Action S A) : Type κ where
  pub holds_after : (s : S) → P s → P (m s).1

module _ {κ} {S : Type 0} {P : S → Type κ} where
  pub Preserves-raise_if : (test : Bool) (e : Error) → Preserves P (raise_if test e)
  unfolding raise_if
  Preserves-raise_if test e = record { holds_after = λ s p. p }

module _ {κ} {S A B : Type 0} {P : S → Type κ} where
  pub Preserves-option :
      (o : Option A) (m : Action S B) (f : A → Action S B)
      → Preserves P m
      → ((a : A) → Preserves P (f a))
      → Preserves P (on_option o m f)
  unfolding on_option
  Preserves-option none m f h k = h
  Preserves-option (some a) m f h k = k a

  pub Preserves-list :
      (l : List A) (m : Action S B) (f : A → List A → Action S B)
      → Preserves P m
      → ((a : A) (r : List A) → Preserves P (f a r))
      → Preserves P (on_list l m f)
  unfolding on_list
  Preserves-list [] m f h k = h
  Preserves-list (a ∷ r) m f h k = k a r

  pub Preserves-result :
      (r : Result A) (f : A → Action S B) (g : Error → Action S B)
      → ((a : A) → Preserves P (f a))
      → ((e : Error) → Preserves P (g e))
      → Preserves P (on_result r f g)
  unfolding on_result
  Preserves-result (ok a) f g h k = h a
  Preserves-result (err e) f g h k = k e

  pub Preserves-answer :
      (r : Result A) (f : A → Action S B) (s : S)
      → P s
      → ((a : A) → Preserves P (f a))
      → P ((lift r >>= f) s).1
  unfolding ◌>>=◌ lift
  Preserves-answer (ok a) f s p k = (k a).holds_after s p
  Preserves-answer (err e) f s p k = p

  pub Preserves-bind :
      (m : Action S A) (f : A → Action S B)
      → Preserves P m
      → ((a : A) → Preserves P (f a))
      → Preserves P (m >>= f)
  unfolding ◌>>=◌ lift
  Preserves-bind m f h k = record {
    holds_after = λ s p. let (r, t) = m s in Preserves-answer r f t (h.holds_after s p) k;
  }

module _ {κ} {S A B C : Type 0} {P : S → Type κ} where
  -- Two parts that keep the property together.
  pub Preserves-both :
      (m : Action S A) (f : A → Action S B) (g : B → Action S C)
      → Preserves P (m >>= f)
      → ((b : B) → Preserves P (g b))
      → Preserves P (m >>= λ a. f a >>= g)
  Preserves-both m f g h k = rw (bind_assoc m f g) (Preserves-bind (m >>= f) g h k)

module _ {κ} {S A : Type 0} {P : S → Type κ} where
  pub Preserves-attempt : (m : Action S A) → Preserves P m → Preserves P (attempt m)
  unfolding attempt
  Preserves-attempt m h = record { holds_after = h.holds_after }

  pub Preserves-or_raise : (o : Option A) (e : Error) → Preserves P (or_raise o e)
  unfolding or_raise
  Preserves-or_raise o e = record { holds_after = λ s p. p }

  pub Preserves-if :
      (test : Bool) (m k : Action S A)
      → Preserves P m
      → Preserves P k
      → Preserves P (if test then m else k)
  Preserves-if true m k h g = h
  Preserves-if false m k h g = g

  pub Preserves-lift : (answer : Result A) → Preserves P (lift answer)
  unfolding lift
  Preserves-lift answer = record { holds_after = λ s p. p }

  pub Preserves-raise : (e : Error) → Preserves P (raise {A = A} e)
  unfolding raise
  Preserves-raise e = record { holds_after = λ s p. p }

  pub Preserves-pure : (a : A) → Preserves P (pure a)
  unfolding pure
  Preserves-pure a = record { holds_after = λ s p. p }

  pub Preserves-gets : (view : S → A) → Preserves P (gets view)
  unfolding gets
  Preserves-gets view = record { holds_after = λ s p. p }

pub ruleset preserving = (
  Preserves-bind, Preserves-raise_if, Preserves-if, Preserves-option, Preserves-list,
  Preserves-result, Preserves-attempt, Preserves-or_raise, Preserves-lift, Preserves-raise,
  Preserves-gets, Preserves-pure,
)
