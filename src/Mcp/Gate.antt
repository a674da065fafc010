-- ===== src/Mcp/Gate.antt =====
-- What reaches a backend: a write only right after the lease was found to be valid, and by `call` no
-- write at all.
use mathlib.Core.Path.{subst}
use notebook_launcher.Prelude.{
  ℕ, sym, ◌∙◌, ◌≡◌, String, Bool, true, false, ◌&&◌, Option, none, some, List, [], ◌∷◌, refl, arith,
  if◌then◌else◌,
}
use notebook_launcher.Action.{Action, Result, ok, err, is_ok, Error}
use notebook_launcher.Steps.{lift, gets, raise_if, ◌>>=◌}
use notebook_launcher.Steps.Preserves.{Preserves, Preserves-answer, preserving}
use notebook_launcher.Steps.Ends.{Ends, Returned, Ends-intro, ends_rules}
use notebook_launcher.Mcp.Requests.{
  Request, inspect, read_cell, read_output, Event, attached, leased, requested, Adapter, Gateway,
  validated,
}
use notebook_launcher.Mcp.Adapter.{
  request, attach, validate_attachment, validate_lease, require_write, assert_not_active, activate,
}

abbrev pub is_read : Request → Bool
is_read (inspect p) = true
is_read (read_cell p c) = true
is_read (read_output p) = true
is_read _ = false

-- The last call was that of the lease's validator, which let it pass.
abbrev pub after_lease : List Event → Bool
after_lease (leased true ∷ _) = true
after_lease _ = false

-- Each request of a backend that is not a read came right after the lease was found to be valid.
abbrev pub is_guarded : Event → List Event → Bool
is_guarded (requested r) h = if is_read r then true else after_lease h
is_guarded _ h = true

abbrev pub guarded : List Event → Bool
guarded [] = true
guarded (e ∷ h) = is_guarded e h && guarded h

abbrev pub IsGuarded : Adapter → Type 0
IsGuarded a = guarded a.events ≡ true

abbrev pub HasLease : Adapter → Type 0
HasLease a = (after_lease a.events ≡ true) × IsGuarded a

-- After a valid lease the action leaves the history guarded.
pub record Uses {A : Type 0} (m : Action Adapter A) : Type 0 where
  pub guarded_after : (a : Adapter) → HasLease a → IsGuarded (m a).1

-- The action does not touch the state.
pub record Quiet {A : Type 0} (m : Action Adapter A) : Type 0 where
  pub untouched : (a : Adapter) → (m a).1 ≡ a

module _ {A : Type 0} where
  pub Quiet-lift : (r : Result A) → Quiet (lift r)
  unfolding lift
  Quiet-lift r = record { untouched = λ a. refl }

  pub Quiet-gets : (view : Adapter → A) → Quiet (gets view)
  unfolding gets
  Quiet-gets view = record { untouched = λ a. refl }

pub Quiet-raise_if : (test : Bool) (e : Error) → Quiet (raise_if test e)
unfolding raise_if
Quiet-raise_if test e = record { untouched = λ a. refl }

module _ {A B : Type 0} where
  Quiet-answer :
      (r : Result A) (f : A → Action Adapter B) (a : Adapter)
      → ((x : A) → Quiet (f x))
      → ((lift r >>= f) a).1 ≡ a
  unfolding ◌>>=◌ lift
  Quiet-answer (ok x) f a k = (k x).untouched a
  Quiet-answer (err e) f a k = refl

  Uses-answer :
      (r : Result A) (f : A → Action Adapter B) (a : Adapter)
      → HasLease a
      → ((x : A) → Uses (f x))
      → IsGuarded ((lift r >>= f) a).1
  unfolding ◌>>=◌ lift
  Uses-answer (ok x) f a h k = (k x).guarded_after a h
  Uses-answer (err e) f a h k = h.1

  pub Quiet-bind :
      (m : Action Adapter A) (f : A → Action Adapter B)
      → Quiet m
      → ((x : A) → Quiet (f x))
      → Quiet (m >>= f)
  unfolding ◌>>=◌ lift
  Quiet-bind m f h k = record {
    untouched = λ a. let (r, b) = m a in Quiet-answer r f b k ∙ h.untouched a;
  }

  pub Uses-Quiet :
      (m : Action Adapter A) (f : A → Action Adapter B)
      → Quiet m
      → ((x : A) → Uses (f x))
      → Uses (m >>= f)
  unfolding ◌>>=◌ lift
  Uses-Quiet m f h k = record {
    guarded_after =
        λ a l. let (r, b) = m a in Uses-answer r f b (subst HasLease (sym (h.untouched a)) l) k;
  }

  pub Uses-bind :
      (m : Action Adapter A) (f : A → Action Adapter B)
      → Uses m
      → ((x : A) → Preserves IsGuarded (f x))
      → Uses (m >>= f)
  unfolding ◌>>=◌ lift
  Uses-bind m f h k = record {
    guarded_after = λ a l. let (r, b) = m a in Preserves-answer r f b (h.guarded_after a l) k;
  }

  leased_answer :
      (r : Result A) (f : A → Action Adapter B) (a : Adapter)
      → IsGuarded a
      → Returned (λ x b. after_lease b.events ≡ true) (r, a)
      → ((x : A) → Uses (f x))
      → IsGuarded ((lift r >>= f) a).1
  unfolding ◌>>=◌ lift
  leased_answer (ok x) f a h l k = (k x).guarded_after a (l, h)
  leased_answer (err e) f a h l k = h

pub ruleset quiet_rules = (Quiet-lift, Quiet-gets, Quiet-raise_if, Quiet-bind)

module _ {V : Type 0} (g : Gateway V) where
  pub Uses-request : (r : Request) → Uses (request g r)
  unfolding request
  Uses-request r = record { guarded_after = λ a h. ground (arith, h.0, h.1) }

  pub request-IsGuarded : (r : Request) → is_read r ≡ true → Preserves IsGuarded (request g r)
  unfolding request
  request-IsGuarded r e = record { holds_after = λ a h. ground arith }

  validated-IsGuarded :
      {A : Type 0} (f : List Event → Result A) (event : Bool → Event)
      → ((b : Bool) (h : List Event) → is_guarded (event b) h ≡ true)
      → Preserves IsGuarded (validated f event)
  unfolding validated
  validated-IsGuarded f event c = record {
    holds_after = λ a h. ground (arith, c (is_ok (f a.events)) a.events);
  }

  pub attach-IsGuarded :
      (v : Option (ℕ → List Event → Result (Unit {0}))) (i : Option ℕ)
      → Preserves IsGuarded (attach g v i)
  unfolding attach
  attach-IsGuarded none i = search preserving
  attach-IsGuarded (some v) none = search preserving
  attach-IsGuarded (some v) (some i) = validated-IsGuarded (v i) attached (λ b h. refl)

  validate_lease-IsGuarded :
      (v : Option (ℕ → ℕ → List Event → Result (Unit {0}))) (i l : Option ℕ)
      → Preserves IsGuarded (validate_lease g v i l)
  unfolding validate_lease
  validate_lease-IsGuarded none i l = search preserving
  validate_lease-IsGuarded (some v) none l = search preserving
  validate_lease-IsGuarded (some v) (some i) none = search preserving
  validate_lease-IsGuarded (some v) (some i) (some l) =
      validated-IsGuarded (v i l) leased (λ b h. refl)

  validate_lease_leased :
      (v : Option (ℕ → ℕ → List Event → Result (Unit {0}))) (i l : Option ℕ)
      → Ends (λ u a. after_lease a.events ≡ true) (validate_lease g v i l)
  unfolding validate_lease validated
  validate_lease_leased none i l = search ends_rules
  validate_lease_leased (some v) none l = search ends_rules
  validate_lease_leased (some v) (some i) none = search ends_rules
  validate_lease_leased (some v) (some i) (some l) = Ends-intro _ λ a u e. ground arith

  require_write-IsGuarded : Preserves IsGuarded (require_write g)
  unfolding require_write validate_attachment
  require_write-IsGuarded = search (preserving, attach-IsGuarded, validate_lease-IsGuarded)

  require_write_leased : Ends (λ u a. after_lease a.events ≡ true) (require_write g)
  unfolding require_write
  require_write_leased = search (ends_rules, validate_lease_leased)

  pub Preserves-leased :
      {B : Type 0} (f : Unit {0} → Action Adapter B)
      → ((u : Unit {0}) → Uses (f u))
      → Preserves IsGuarded (require_write g >>= f)
  unfolding ◌>>=◌ lift
  Preserves-leased f k = record {
    holds_after = λ a h.
        let (r, b) = require_write g a in
        leased_answer r f b (require_write-IsGuarded.holds_after a h) (require_write_leased.after a)
          k;
  }

  pub Quiet-assert_not_active : (p : String) → Quiet (assert_not_active g p)
  unfolding assert_not_active
  Quiet-assert_not_active p = search quiet_rules

  pub activate-IsGuarded : (p : String) → Preserves IsGuarded (activate g p)
  unfolding activate
  activate-IsGuarded p = record { holds_after = λ a h. h }
