-- ===== src/Action.antt =====
-- Python code that mutates an object and may raise: errors.py and the built-in exceptions that the
-- modelled code raises. What was written before a raise stays written, so the state comes back
-- beside the error too; a database transaction is the place where it does not.
pub mod Parts
use notebook_launcher.Prelude.{
  ℕ, List, String, Bool, true, false, if◌then◌else◌, Option, none, some, ◌≡◌, ◌⊎◌, inl, inr, refl,
}

-- `NetworkPolicyError` of network.py, its messages as constructors. A return code is a number; a
-- command stands for the words of it that the message has.
pub data CleanupFailure : Type 0 where
  left_over : List String → ℕ → CleanupFailure
  not_run : List String → CleanupFailure

pub data NetworkFailure : Type 0 where
  runner_raised invalid_identity plan_mismatch : NetworkFailure
  create_failed remove_failed inspect_failed : ℕ → NetworkFailure
  rule_failed verification_failed : List String → ℕ → NetworkFailure
  network_rm_failed : NetworkFailure → NetworkFailure
  cleanup_failed : List CleanupFailure → NetworkFailure

-- The classes of errors.py that the modelled code raises, and `ValueError`, `KeyError`,
-- `TypeError`, `RuntimeError`, `FileNotFoundError`, `FileExistsError`, `NotADirectoryError`, other
-- `OSError`s by their number, `AssertionError`, `subprocess.SubprocessError`, `RuntimePolicyError` of runtime.py, `sqlite3.IntegrityError` and an `ExceptionGroup` of two.
pub data Error : Type 0 where
  conflict permission_denied writable_agent_busy workspace_active : Error
  invalid_launch_token launch_token_expired : Error
  session_not_ready unknown_session unknown_workspace trust_not_found : Error
  execution_timeout execution_cancelled : Error
  key_error type_error integrity_error file_not_found file_exists not_a_directory : Error
  host_path_escape storage_full repository_identity_changed assertion_error : Error
  os_error : ℕ → Error
  subprocess_error : Error
  value_error runtime_error runtime_policy_error : String → Error
  exception_group : Error → Error → Error
  network_policy_error : NetworkFailure → Error

pub data Result (A : Type 0) : Type 0 where
  ok : A → Result A
  err : Error → Result A

abbrev pub is_ok : {A : Type 0} → Result A → Bool
is_ok (ok _) = true
is_ok (err _) = false

abbrev pub found : {A : Type 0} → Option A → Error → Result A
found none e = err e
found (some a) e = ok a

abbrev pub Action : Type 0 → Type 0 → Type 0
Action S A = S → Result A × S

module _ {S A : Type 0} where
  abbrev pub pure : A → Action S A
  pure a s = (ok a, s)

  abbrev pub raise : Error → Action S A
  raise e s = (err e, s)

  -- A result that does not depend on the state.
  abbrev pub lift : Result A → Action S A
  lift r s = (r, s)

  -- An answer that is computed from the state, or an exception.
  abbrev pub asks : (S → Result A) → Action S A
  asks f s = (f s, s)

  abbrev pub gets : (S → A) → Action S A
  gets f s = (ok (f s), s)

  -- A value that must be there, or the exception of its absence.
  abbrev pub or_raise : Option A → Error → Action S A
  or_raise o e s = (found o e, s)

  -- A transaction of the database: the changes of a body that raises are rolled back.
  abbrev pub atomically : Action S A → Action S A
  atomically m s = let (r, s') = m s in elim r [ ok a ↦ (ok a, s') | err e ↦ (err e, s) ]

abbrev pub raise_if : {S : Type 0} → Bool → Error → Action S (Unit {0})
raise_if c e s = (if c then err e else ok tt, s)

abbrev pub modify : {S : Type 0} → (S → S) → Action S (Unit {0})
modify f s = (ok tt, f s)

infixl 5 ◌>>=◌ ◌>>◌
abbrev pub ◌>>=◌ : {S A B : Type 0} → Action S A → (A → Action S B) → Action S B
◌>>=◌ m f s = let (r, s') = m s in elim r [ ok a ↦ f a s' | err e ↦ (err e, s') ]

abbrev pub ◌>>◌ : {S A B : Type 0} → Action S A → Action S B → Action S B
m >> k = m >>= λ _. k

-- What the first part leaves satisfies `P`, and so does what the rest makes of it.
pub bind_keeps {κ} :
    {S A B : Type 0} (P : S → Type κ) (m : Action S A) (f : A → Action S B) (s : S)
    → P (m s).1
    → ((a : A) → P (f a (m s).1).1)
    → P ((m >>= f) s).1
bind_keeps {S} {A} {B} P m f s h k =
    elim (m s).0
      as (λ r.
        P (elim r as (λ _. Result B × S) [ ok a ↦ f a (m s).1 | err e ↦ (err e, (m s).1) ]).1) [
          | ok a ↦ k a
          | err e ↦ h
        ]

pub Result-cases :
    {A : Type 0} (r : Result A) → ((a : A) × (r ≡ ok a)) ⊎ ((e : Error) × (r ≡ err e))
Result-cases (ok a) = inl (a, refl)
Result-cases (err e) = inr (e, refl)
