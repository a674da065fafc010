-- ===== src/SafePaths/Handles.antt =====
-- safe_paths.py: which directories are open after some calls, and where the calls have acted.
use notebook_launcher.Prelude.{
  ℕ, ◌≡◌, refl, ap, ◌∙◌, String, Bool, true, false, List, [], ◌∷◌, arith, any, ◌==◌, ◌&&◌,
  if◌then◌else◌, Bool-cases, inl, inr,
}
use notebook_launcher.Action.{Action, Result, ok, err, Error, ◌>>◌}
use notebook_launcher.SafePaths.{is_unsafe_part}
use notebook_launcher.SafePaths.Posix.{
  Call, Calls, System, opened_root, opened_directory, closed, made_directory, opened_file,
  created_file, unlinked, replaced, linked, renamed, wrote, synced, noted, system, closing, caught,
  open_directory, make_and_open, not_opened, open_component, is_missing,
}

abbrev pub drop_one : ℕ → List ℕ → List ℕ
drop_one fd [] = []
drop_one fd (x ∷ l) = let rest = drop_one fd l in if x == fd then l else x ∷ rest

-- The descriptors of directories that are open, the last opened first.
abbrev pub open_directories : Calls → List ℕ
open_directories [] = []
open_directories (opened_root _ fd ∷ l) = fd ∷ open_directories l
open_directories (opened_directory _ _ fd ∷ l) = fd ∷ open_directories l
open_directories (closed fd ∷ l) = drop_one fd (open_directories l)
open_directories (made_directory _ _ ∷ l) = open_directories l
open_directories (opened_file _ _ ∷ l) = open_directories l
open_directories (created_file _ _ ∷ l) = open_directories l
open_directories (unlinked _ _ ∷ l) = open_directories l
open_directories (replaced _ _ _ ∷ l) = open_directories l
open_directories (linked _ _ _ ∷ l) = open_directories l
open_directories (renamed _ _ _ _ ∷ l) = open_directories l
open_directories (wrote _ ∷ l) = open_directories l
open_directories (synced _ ∷ l) = open_directories l

abbrev pub IsOpen : ℕ → Calls → Type 0
IsOpen fd l = any (λ x. x == fd) (open_directories l) ≡ true

abbrev pub IsEntry : ℕ → String → Calls → Type 0
IsEntry fd name l = IsOpen fd l × (is_unsafe_part name ≡ false)

-- Every name is a safe one, looked up in a directory that was open.
abbrev pub IsConfined : Calls → Type 0
IsConfined [] = Unit
IsConfined (opened_root _ _ ∷ l) = IsConfined l
IsConfined (opened_directory fd name _ ∷ l) = IsEntry fd name l × IsConfined l
IsConfined (closed _ ∷ l) = IsConfined l
IsConfined (made_directory fd name ∷ l) = IsEntry fd name l × IsConfined l
IsConfined (opened_file fd name ∷ l) = IsEntry fd name l × IsConfined l
IsConfined (created_file fd name ∷ l) = IsEntry fd name l × IsConfined l
IsConfined (unlinked fd name ∷ l) = IsEntry fd name l × IsConfined l
IsConfined (replaced fd name other ∷ l) = IsEntry fd name l × IsEntry fd other l × IsConfined l
IsConfined (linked fd name other ∷ l) = IsEntry fd name l × IsEntry fd other l × IsConfined l
IsConfined (renamed fd name to other ∷ l) = IsEntry fd name l × IsEntry to other l × IsConfined l
IsConfined (wrote _ ∷ l) = IsConfined l
IsConfined (synced _ ∷ l) = IsConfined l

-- The same directories are open as before, and the calls are confined.
abbrev pub Kept : {A : Type 0} → Calls → Result A × Calls → Type 0
Kept w p = (open_directories p.1 ≡ open_directories w) × IsConfined p.1

-- What was open is open still.
abbrev pub Extends : Calls → Calls → Type 0
Extends w w' = (x : ℕ) → IsOpen x w → IsOpen x w'

module _ {κ} {A : Type 0} (P : Result A × Calls → Type κ) where
  pub system_cases :
      (f : Calls → Result A) (call : A → Call) (w : Calls)
      → ((e : Error) → P (err e, w))
      → ((a : A) → P (ok a, call a ∷ w))
      → P (system f call w)
  system_cases f call w stops goes = go (f w)
    where
      go : (r : Result A) → P (noted call r w)
      go (ok a) = goes a
      go (err e) = stops e

  pub caught_cases :
      (handler : Error → Action Calls A) (m : Action Calls A) (w : Calls)
      → ((a : A) → (m w).0 ≡ ok a → P (ok a, (m w).1))
      → ((e : Error) → (m w).0 ≡ err e → P (handler e (m w).1))
      → P (caught handler m w)
  caught_cases handler m w goes stops = go (m w).0 (m w).1 goes stops
    where
      go :
          (r : Result A) (w' : Calls)
          → ((a : A) → r ≡ ok a → P (ok a, w'))
          → ((e : Error) → r ≡ err e → P (handler e w'))
          → P (caught handler (λ (_ : Calls). (r, w')) w)
      go (ok a) w' g s = g a refl
      go (err e) w' g s = s e refl

drop_one_head : (fd : ℕ) (l : List ℕ) → drop_one fd (fd ∷ l) ≡ l
drop_one_head fd l = ground arith

-- The descriptor that was opened on top is closed again.
pub closing-Kept :
    {A : Type 0} (fd : ℕ) (m : Action Calls A) (w w' : Calls)
    → open_directories w' ≡ fd ∷ open_directories w
    → Kept w' (m w')
    → Kept w (closing fd m w')
closing-Kept fd m w w' top (same, confined) =
    (ap (drop_one fd) (same ∙ top) ∙ drop_one_head fd (open_directories w), confined)

module _ (y : System) (fd : ℕ) (name : String) where
  -- The directory was opened on top of those that are open, or none was.
  abbrev pub Opens : Calls → Result ℕ × Calls → Type 0
  Opens w (ok next, calls) = (open_directories calls ≡ next ∷ open_directories w) × IsConfined calls
  Opens w (err e, calls) = (open_directories calls ≡ open_directories w) × IsConfined calls

  open_directory-Opens :
      (w : Calls) → IsEntry fd name w → IsConfined w → Opens w (open_directory y fd name w)
  open_directory-Opens w here confined =
      system_cases (Opens w) (λ calls. y.open_directory calls fd name)
        (λ next. opened_directory fd name next) w (λ e. (refl, confined))
        (λ next. (refl, (here, confined)))

  Opens-congr :
      (w w' : Calls) (p : Result ℕ × Calls)
      → open_directories w' ≡ open_directories w
      → Opens w' p
      → Opens w p
  Opens-congr w w' (ok next, calls) same (top, confined) = (top ∙ ap (λ l. next ∷ l) same, confined)
  Opens-congr w w' (err e, calls) same (kept, confined) = (kept ∙ same, confined)

  make_and_open-Opens :
      (w : Calls) → IsEntry fd name w → IsConfined w → Opens w (make_and_open y fd name w)
  make_and_open-Opens w here confined = go (y.mkdir w fd name)
    where
      go :
          (r : Result (Unit {0}))
          → Opens w (
              ((λ (_ : Calls). noted (λ _. made_directory fd name) r w) >> open_directory y fd name)
                w)
      go (ok u) =
          Opens-congr w (made_directory fd name ∷ w)
            (open_directory y fd name (made_directory fd name ∷ w)) refl
            (open_directory-Opens (made_directory fd name ∷ w) here (here, confined))
      go (err e) = (refl, confined)

  not_opened-Opens :
      (create : Bool) (e : Error) (w : Calls)
      → IsEntry fd name w
      → IsConfined w
      → Opens w (not_opened y create fd name e w)
  not_opened-Opens create e w here confined = elim (Bool-cases (is_missing e && create)) [
    | inl q ↦ rw q (make_and_open-Opens w here confined)
    | inr q ↦ rw q (refl, confined)
  ]

  pub open_component-Opens :
      (create : Bool) (w : Calls)
      → IsEntry fd name w
      → IsConfined w
      → Opens w (open_component y create fd name w)
  open_component-Opens create w here confined = go (y.open_directory w fd name)
    where
      go :
          (r : Result ℕ)
          → Opens w (
              caught
                (not_opened y create fd name)
                (λ (_ : Calls). noted (λ next. opened_directory fd name next) r w)
                w)
      go (ok next) = (refl, (here, confined))
      go (err e) = not_opened-Opens create e w here confined
