-- ===== src/Action/Parts.antt =====
-- Actions by their parts: a first part that changes nothing, and a part whose answer is computed.
use notebook_launcher.Prelude.{◌≡◌, refl, Bool, true, false}
use notebook_launcher.Action.{Action, Result, ok, err, Error, raise_if, ◌>>=◌}

module _ {κ} {S A B : Type 0} (P : Result B × S → Type κ) (f : A → Action S B) (s : S) where
  answered :
      (r : Result A) (s' : S)
      → s' ≡ s
      → ((e : Error) → r ≡ err e → P (err e, s))
      → ((a : A) → r ≡ ok a → P (f a s))
      → P (((λ (_ : S). (r, s')) >>= f) s)
  answered (ok a) s' same stops goes = rw same (goes a refl)
  answered (err e) s' same stops goes = rw same (stops e refl)

  -- A first part that changes nothing.
  pub after_reader :
      (m : Action S A)
      → (m s).1 ≡ s
      → ((e : Error) → (m s).0 ≡ err e → P (err e, s))
      → ((a : A) → (m s).0 ≡ ok a → P (f a s))
      → P ((m >>= f) s)
  after_reader m same stops goes = answered (m s).0 (m s).1 same stops goes

  -- A last part that answers what was computed.
  pub before_answer :
      (m : Action S A)
      → ((e : Error) → (m s).0 ≡ err e → P (err e, (m s).1))
      → ((a : A) → (m s).0 ≡ ok a → P (f a (m s).1))
      → P ((m >>= f) s)
  before_answer m stops goes = go (m s).0 (m s).1 stops goes
    where
      go :
          (r : Result A) (s' : S)
          → ((e : Error) → r ≡ err e → P (err e, s'))
          → ((a : A) → r ≡ ok a → P (f a s'))
          → P (((λ (_ : S). (r, s')) >>= f) s)
      go (ok a) s' stops goes = goes a refl
      go (err e) s' stops goes = stops e refl

abbrev pub error_or : {A : Type 0} → Error → Result A → Error
error_or e (ok a) = e
error_or e (err f) = f

pub not_raised :
    {u : Unit {0}} (b : Bool) (e : Error) → (raise_if {S = Unit {0}} b e tt).0 ≡ ok u → b ≡ false
not_raised true e h = cc
not_raised false e h = refl
