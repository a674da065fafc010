-- ===== src/SafePaths/Steady.antt =====
-- safe_paths.py: what the operations on a file in an open directory do to those that are open.
use notebook_launcher.Prelude.{
  ℕ, ◌≡◌, refl, ap, ◌∙◌, String, Bool, true, false, List, [], ◌∷◌, any, All, ◌==◌, if◌then◌else◌,
  Bool-cases, inl, inr,
}
use notebook_launcher.Action.{Action, Result, ok, err, Error, raise, ◌>>=◌, ◌>>◌}
use notebook_launcher.Action.Parts.{before_answer}
use notebook_launcher.SafePaths.{is_unsafe_part}
use notebook_launcher.SafePaths.Posix.{
  Call, Calls, System, created_file, opened_file, unlinked, replaced, linked, renamed, wrote,
  synced, noted, system, caught, translate_escape, is_os_error, is_missing,
}
use notebook_launcher.SafePaths.Files.{
  write_failure, ignore_missing, unlink_entry, fsync, write_descriptor, put_in_place, not_written,
  atomic_write_at, open_final, after_unlink, remove_final, rename_entry,
}
use notebook_launcher.SafePaths.Handles.{
  open_directories, IsOpen, IsConfined, Kept, system_cases, caught_cases,
}

abbrev pub AreOpen : List ℕ → Calls → Type 0
AreOpen fds w = All (λ fd. IsOpen fd w) fds

-- Where these directories are open, the action keeps those that are open.
abbrev pub Steady : {A : Type 0} → List ℕ → Action Calls A → Type 0
Steady fds m = (w : Calls) → IsConfined w → AreOpen fds w → Kept w (m w)

AreOpen-congr :
    (fds : List ℕ) (w w' : Calls)
    → open_directories w' ≡ open_directories w
    → AreOpen fds w
    → AreOpen fds w'
AreOpen-congr [] w w' same there = tt
AreOpen-congr (fd ∷ fds) w w' same (here, there) =
    (ap (any (λ x. x == fd)) same ∙ here, AreOpen-congr fds w w' same there)

module _ {A : Type 0} (fds : List ℕ) where
  bind-Steady :
      {B : Type 0} (m : Action Calls A) (f : A → Action Calls B)
      → Steady fds m
      → ((a : A) → Steady fds (f a))
      → Steady fds (m >>= f)
  bind-Steady m f first rest w confined there =
      let (same, confined') = first w confined there in
      before_answer (Kept w) f w m (λ e q. (same, confined'))
        (λ a q.
          let (same', done) = rest a (m w).1 confined' (AreOpen-congr fds w (m w).1 same there) in
          (same' ∙ same, done))

  caught-Steady :
      (handler : Error → Action Calls A) (m : Action Calls A)
      → Steady fds m
      → ((e : Error) → Steady fds (handler e))
      → Steady fds (caught handler m)
  caught-Steady handler m first rest w confined there =
      let (same, confined') = first w confined there in
      caught_cases (Kept w) handler m w (λ a q. (same, confined'))
        (λ e q.
          let (same', done) = rest e (m w).1 confined' (AreOpen-congr fds w (m w).1 same there) in
          (same' ∙ same, done))

  system-Steady :
      (f : Calls → Result A) (call : A → Call)
      → ((a : A) (w : Calls) → IsConfined w → AreOpen fds w → Kept {A = A} w (ok a, call a ∷ w))
      → Steady fds (system f call)
  system-Steady f call effect w confined there =
      system_cases (Kept w) f call w (λ e. (refl, confined)) (λ a. effect a w confined there)

raise-Steady : (A : Type 0) (fds : List ℕ) (e : Error) → Steady {A = A} fds (raise e)
raise-Steady A fds e w confined there = (refl, confined)

module _ (y : System) (fd : ℕ) where
  unlink_entry-Steady :
      (name : String) → is_unsafe_part name ≡ false → Steady (fd ∷ []) (unlink_entry y fd name)
  unlink_entry-Steady name safe =
      system-Steady (fd ∷ []) (λ calls. y.unlink calls fd name) (λ _. unlinked fd name)
        (λ u w confined (here, _). (refl, ((here, safe), confined)))

  fsync-Steady : Steady (fd ∷ []) (fsync y fd)
  fsync-Steady =
      system-Steady (fd ∷ []) (λ calls. y.fsync calls fd) (λ _. synced fd)
        (λ u w confined there. (refl, confined))

  put_in_place-Steady :
      (overwrite : Bool) (temporary name : String)
      → is_unsafe_part temporary ≡ false
      → is_unsafe_part name ≡ false
      → Steady (fd ∷ []) (put_in_place y overwrite fd temporary name)
  put_in_place-Steady true temporary name safe_temporary safe =
      system-Steady (fd ∷ []) (λ calls. y.replace calls fd temporary name)
        (λ _. replaced fd temporary name)
        (λ u w confined (here, _). (refl, ((here, safe_temporary), (here, safe), confined)))
  put_in_place-Steady false temporary name safe_temporary safe =
      bind-Steady (fd ∷ [])
        (system (λ calls. y.link calls fd temporary name) (λ _. linked fd temporary name))
        (λ _. unlink_entry y fd temporary)
        (system-Steady (fd ∷ []) (λ calls. y.link calls fd temporary name)
          (λ _. linked fd temporary name)
          (λ u w confined (here, _). (refl, ((here, safe_temporary), (here, safe), confined))))
        (λ _. unlink_entry-Steady temporary safe_temporary)

  ignore_missing-Steady : (e : Error) → Steady (fd ∷ []) (ignore_missing y e)
  ignore_missing-Steady e w confined there = elim (Bool-cases (is_missing e)) [
    | inl q ↦ rw q (refl, confined)
    | inr q ↦ rw q (refl, confined)
  ]

  not_written-Steady :
      (temporary : String) (e : Error)
      → is_unsafe_part temporary ≡ false
      → Steady (fd ∷ []) (not_written y fd temporary e)
  not_written-Steady temporary e safe w confined there = elim (Bool-cases (is_os_error e)) [
    | inl q ↦ rw q (
        bind-Steady (fd ∷ []) (caught (ignore_missing y) (unlink_entry y fd temporary))
          (λ _. raise (write_failure y e))
          (caught-Steady (fd ∷ []) (ignore_missing y) (unlink_entry y fd temporary)
            (unlink_entry-Steady temporary safe) ignore_missing-Steady)
          (λ _. raise-Steady (Unit {0}) (fd ∷ []) (write_failure y e)) w confined there)
    | inr q ↦ rw q (refl, confined)
  ]

  pub atomic_write_at-Steady :
      (temporary name bytes : String) (overwrite : Bool)
      → is_unsafe_part temporary ≡ false
      → is_unsafe_part name ≡ false
      → Steady (fd ∷ []) (atomic_write_at y fd temporary name bytes overwrite)
  unfolding atomic_write_at
  atomic_write_at-Steady temporary name bytes overwrite safe_temporary safe =
      let create : Action Calls ℕ =
        system (λ calls. y.create_file calls fd temporary) (λ _. created_file fd temporary) in
      let finish : Action Calls (Unit {0}) =
        put_in_place y overwrite fd temporary name >> fsync y fd in
      let fill : ℕ → Action Calls (Unit {0}) =
        λ file. write_descriptor y file temporary bytes >> finish in
      caught-Steady (fd ∷ []) (not_written y fd temporary) (create >>= fill)
        (bind-Steady (fd ∷ []) create fill
          (system-Steady (fd ∷ []) (λ calls. y.create_file calls fd temporary)
            (λ _. created_file fd temporary)
            (λ u w confined (here, _). (refl, ((here, safe_temporary), confined))))
          (λ file.
            bind-Steady (fd ∷ []) (write_descriptor y file temporary bytes) (λ _. finish)
              (system-Steady (fd ∷ []) (λ calls. y.write calls file bytes) (λ _. wrote temporary)
                (λ u w confined there. (refl, confined)))
              (λ _.
                bind-Steady (fd ∷ []) (put_in_place y overwrite fd temporary name) (λ _. fsync y fd)
                  (put_in_place-Steady overwrite temporary name safe_temporary safe)
                  (λ _. fsync-Steady))))
        (λ e. not_written-Steady temporary e safe_temporary)

  pub open_final-Steady :
      (name : String) → is_unsafe_part name ≡ false → Steady (fd ∷ []) (open_final y fd name)
  open_final-Steady name safe =
      caught-Steady (fd ∷ []) (λ e. raise (translate_escape e))
        (system (λ calls. y.open_file calls fd name) (λ _. opened_file fd name))
        (system-Steady (fd ∷ []) (λ calls. y.open_file calls fd name) (λ _. opened_file fd name)
          (λ u w confined (here, _). (refl, ((here, safe), confined))))
        (λ e. raise-Steady ℕ (fd ∷ []) (translate_escape e))

  pub remove_final-Steady :
      (missing_ok : Bool) (name : String)
      → is_unsafe_part name ≡ false
      → Steady (fd ∷ []) (remove_final y missing_ok fd name)
  remove_final-Steady missing_ok name safe w confined there = go (y.unlink w fd name)
    where
      left : (b : Bool) (e : Error) → Kept w ((if b then ignore_missing y e else raise e) w)
      left true e = ignore_missing-Steady e w confined there
      left false e = (refl, confined)

      go :
          (r : Result (Unit {0}))
          → Kept w (
              after_unlink y missing_ok fd
                (noted (λ _. unlinked fd name) r w).0
                (noted (λ _. unlinked fd name) r w).1)
      go (ok u) = fsync-Steady (unlinked fd name ∷ w) ((there.0, safe), confined) there
      go (err e) = left missing_ok e

pub rename_entry-Steady :
    (y : System) (overwrite : Bool) (source_fd fd : ℕ) (source destination : String)
    → is_unsafe_part source ≡ false
    → is_unsafe_part destination ≡ false
    → Steady (fd ∷ source_fd ∷ []) (rename_entry y overwrite source_fd source fd destination)
rename_entry-Steady y overwrite source_fd fd source destination safe safe_destination =
    let move : Action Calls (Unit {0}) =
      system (λ calls. y.rename overwrite calls source_fd source fd destination)
        (λ _. renamed source_fd source fd destination) in
    bind-Steady (fd ∷ source_fd ∷ []) (caught (λ e. raise (translate_escape e)) move)
      (λ _. fsync y fd)
      (caught-Steady (fd ∷ source_fd ∷ []) (λ e. raise (translate_escape e)) move
        (system-Steady (fd ∷ source_fd ∷ [])
          (λ calls. y.rename overwrite calls source_fd source fd destination)
          (λ _. renamed source_fd source fd destination)
          (λ u w confined (here, (there, _)).
            (refl, ((there, safe), (here, safe_destination), confined))))
        (λ e. raise-Steady (Unit {0}) (fd ∷ source_fd ∷ []) (translate_escape e)))
      (λ _ w confined (here, _). fsync-Steady y fd w confined (here, tt))
