-- ===== src/SafePaths/Files.antt =====
-- safe_paths.py: what is done with a file in its directory, and the operations under a root.
use notebook_launcher.Prelude.{
  ℕ, String, Bool, true, false, not, ◌||◌, Option, none, some, ◌==◌, if◌then◌else◌,
}
use notebook_launcher.Action.{
  lift, Action, Result, ok, err, Error, host_path_escape, storage_full, not_a_directory, os_error,
  pure, raise, raise_if, ◌>>=◌, ◌>>◌,
}
use notebook_launcher.SafePaths.{
  PathTexts, HostPaths, RootIdentity, safe_relative_parts, validate_root_identity,
}
use notebook_launcher.SafePaths.Posix.{
  Calls, System, caught, created_file, final_part, is_missing, is_os_error, linked, opened_file,
  renamed, replaced, synced, system, translate_escape, unlinked, with_parent_fd, wrote,
}

module _ (y : System) where
  -- `except FileNotFoundError` of an `unlink`
  abbrev pub ignore_missing : Error → Action Calls (Unit {0})
  ignore_missing e = if is_missing e then pure tt else raise e

  abbrev pub unlink_entry : ℕ → String → Action Calls (Unit {0})
  unlink_entry fd name = system (λ calls. y.unlink calls fd name) (λ _. unlinked fd name)

  abbrev pub fsync : ℕ → Action Calls (Unit {0})
  fsync fd = system (λ calls. y.fsync calls fd) (λ _. synced fd)

  -- `_write_descriptor`
  abbrev pub write_descriptor : ℕ → String → String → Action Calls (Unit {0})
  write_descriptor file temporary bytes =
      system (λ calls. y.write calls file bytes) (λ _. wrote temporary)

  abbrev pub put_in_place : Bool → ℕ → String → String → Action Calls (Unit {0})
  put_in_place true fd temporary name =
      system (λ calls. y.replace calls fd temporary name) (λ _. replaced fd temporary name)
  put_in_place false fd temporary name = do
    system (λ calls. y.link calls fd temporary name) (λ _. linked fd temporary name)
    unlink_entry fd temporary

  -- What is raised for an `OSError`, 28 being `ENOSPC`.
  abbrev pub write_failure : Error → Error
  write_failure (os_error n) = if n == 28 then storage_full else translate_escape (os_error n)
  write_failure not_a_directory = host_path_escape
  write_failure e = e

  abbrev pub not_written : ℕ → String → Error → Action Calls (Unit {0})
  not_written fd temporary e =
      if is_os_error e
      then (caught ignore_missing (unlink_entry fd temporary) >> raise (write_failure e))
      else raise e

  unfoldable pub atomic_write_at : ℕ → String → String → String → Bool → Action Calls (Unit {0})
  atomic_write_at fd temporary name bytes overwrite = caught (not_written fd temporary) (do
    file ← system (λ calls. y.create_file calls fd temporary) (λ _. created_file fd temporary)
    write_descriptor file temporary bytes
    put_in_place overwrite fd temporary name
    fsync fd)

  abbrev pub open_final : ℕ → String → Action Calls ℕ
  open_final fd name =
      caught (λ e. raise (translate_escape e))
        (system (λ calls. y.open_file calls fd name) (λ _. opened_file fd name))

  -- The `except` and the `else` of the removal.
  abbrev pub after_unlink : Bool → ℕ → Result (Unit {0}) → Action Calls (Unit {0})
  after_unlink missing_ok fd (ok _) = fsync fd
  after_unlink missing_ok fd (err e) = if missing_ok then ignore_missing e else raise e

  abbrev pub remove_final : Bool → ℕ → String → Action Calls (Unit {0})
  remove_final missing_ok fd name calls =
      let (r, calls') = unlink_entry fd name calls in after_unlink missing_ok fd r calls'

  abbrev pub rename_entry : Bool → ℕ → String → ℕ → String → Action Calls (Unit {0})
  rename_entry overwrite source_fd source fd destination = do
    caught (λ e. raise (translate_escape e))
        (system (λ calls. y.rename overwrite calls source_fd source fd destination)
          (λ _. renamed source_fd source fd destination))
    fsync fd

module _ (y : System) (t : PathTexts) (h : HostPaths Calls) where
  -- `_validated_root`
  unfoldable pub validated_root : String → Option RootIdentity → Action Calls String
  validated_root root none = do
    canonical ← (λ calls. (h.resolve true (h.expanduser root) calls, calls))
    reparse ← (λ calls. (ok (h.is_reparse_point canonical calls), calls))
    directory ← (λ calls. (ok (h.is_dir canonical calls), calls))
    raise_if (reparse || not directory) host_path_escape
    pure canonical
  validated_root root (some expected) = do
    canonical ← (λ calls. (h.resolve true (h.expanduser root) calls, calls))
    validate_root_identity h canonical expected
    pure canonical

  -- The parts of the path, the root, and what is done in the parent of the last part.
  abbrev pub under_root :
      {A : Type 0}
      → Bool
      → String
      → String
      → Option RootIdentity
      → (ℕ → String → Action Calls A)
      → Action Calls A
  under_root create root relative expected body = do
    parts ← lift (safe_relative_parts t relative)
    canonical ← validated_root root expected
    with_parent_fd y create canonical parts expected (λ fd. body fd (final_part parts))

  unfoldable pub safe_open_under_root : String → String → Option RootIdentity → Action Calls ℕ
  safe_open_under_root root relative expected =
      under_root false root relative expected (open_final y)

  unfoldable pub read_bytes_under_root : String → String → Option RootIdentity → Action Calls String
  read_bytes_under_root root relative expected = do
    descriptor ← safe_open_under_root root relative expected
    (λ calls. (y.read calls descriptor, calls))

  -- `temporary` is the name of the temporary file for a name.
  unfoldable pub atomic_write_under_root :
      (String → String)
      → String
      → String
      → String
      → Bool
      → Option RootIdentity
      → Action Calls (Unit {0})
  atomic_write_under_root temporary root relative bytes overwrite expected =
      under_root true root relative expected
        (λ fd name. atomic_write_at y fd (temporary name) name bytes overwrite)

  unfoldable pub unlink_under_root :
      String → String → Bool → Option RootIdentity → Action Calls (Unit {0})
  unlink_under_root root relative missing_ok expected =
      under_root false root relative expected (remove_final y missing_ok)

  unfoldable pub rename_under_root :
      String → String → String → Bool → Option RootIdentity → Action Calls (Unit {0})
  rename_under_root root source destination overwrite expected = do
    source_parts ← lift (safe_relative_parts t source)
    destination_parts ← lift (safe_relative_parts t destination)
    canonical ← validated_root root expected
    with_parent_fd y false canonical source_parts expected (λ source_fd.
        with_parent_fd y false canonical destination_parts expected (λ fd.
          rename_entry y overwrite source_fd (final_part source_parts) fd
            (final_part destination_parts)))
