-- ===== src/SafePaths/Confined.antt =====
-- safe_paths.py: sequences of operations under a root.
use notebook_launcher.Prelude.{
  ℕ, ◌≡◌, refl, ◌∙◌, String, Bool, true, false, not, ◌||◌, Option, none, some, List, [], ◌∷◌,
}
use notebook_launcher.Action.{
  lift, Action, ok, host_path_escape, pure, raise_if, bind_keeps, ◌>>=◌, ◌>>◌,
}
use notebook_launcher.Action.Parts.{after_reader, before_answer}
use notebook_launcher.SafePaths.{
  PathTexts, HostPaths, RootIdentity, is_unsafe_part, safe_relative_parts, validate_root_identity,
}
use notebook_launcher.SafePaths.Roots.{validate_root_identity_keeps}
use notebook_launcher.SafePaths.Posix.{Calls, System, final_part, with_parent_fd}
use notebook_launcher.SafePaths.Files.{
  atomic_write_at, open_final, remove_final, rename_entry, validated_root, under_root,
  atomic_write_under_root, unlink_under_root, rename_under_root, safe_open_under_root,
  read_bytes_under_root,
}
use notebook_launcher.SafePaths.Handles.{open_directories, IsConfined, Kept}
use notebook_launcher.SafePaths.Walked.{with_parent_fd-Kept}
use notebook_launcher.SafePaths.Steady.{
  Steady, atomic_write_at-Steady, open_final-Steady, remove_final-Steady, rename_entry-Steady,
}
use notebook_launcher.SafePaths.Passed.{safe_relative_parts-ArePassed}

-- A read, a write, a removal and a rename, with their arguments.
pub data FileOperation : Type 0 where
  read_file : String → String → Option RootIdentity → FileOperation
  write_file : String → String → String → Bool → Option RootIdentity → FileOperation
  remove_file : String → String → Bool → Option RootIdentity → FileOperation
  rename_file : String → String → String → Bool → Option RootIdentity → FileOperation

module _ (y : System) (t : PathTexts) (h : HostPaths Calls) where
  validated_root_keeps :
      (root : String) (expected : Option RootIdentity) (w : Calls)
      → (validated_root y t h root expected w).1 ≡ w
  unfolding validated_root
  validated_root_keeps root none w =
      after_reader (λ p. p.1 ≡ w)
        (λ canonical.
          (λ (calls : Calls). (ok (h.is_reparse_point canonical calls), calls)) >>= λ reparse.
          (λ (calls : Calls). (ok (h.is_dir canonical calls), calls)) >>= λ directory.
          raise_if (reparse || not directory) host_path_escape >> pure canonical)
        w (λ calls. (h.resolve true (h.expanduser root) calls, calls)) refl (λ e q. refl)
        (λ canonical q.
          bind_keeps (λ s. s ≡ w)
            (raise_if (h.is_reparse_point canonical w || not (h.is_dir canonical w))
              host_path_escape)
            (λ _. pure canonical) w refl (λ _. refl))
  validated_root_keeps root (some expected) w =
      after_reader (λ p. p.1 ≡ w)
        (λ canonical. validate_root_identity h canonical expected >> pure canonical) w
        (λ calls. (h.resolve true (h.expanduser root) calls, calls)) refl (λ e q. refl)
        (λ canonical q.
          after_reader (λ p. p.1 ≡ w) (λ _. pure canonical) w
            (validate_root_identity h canonical expected)
            (validate_root_identity_keeps h canonical expected w) (λ e q. refl) (λ _ _. refl))

  under_root-Kept :
      {A : Type 0} (create : Bool) (root relative : String) (expected : Option RootIdentity)
      (body : ℕ → String → Action Calls A)
      → ((fd : ℕ) (name : String) → is_unsafe_part name ≡ false → Steady (fd ∷ []) (body fd name))
      → (w : Calls) → IsConfined w
      → Kept w (under_root y t h create root relative expected body w)
  under_root-Kept create root relative expected body steady w confined =
      after_reader (Kept w)
        (λ parts. validated_root y t h root expected >>= λ canonical.
          with_parent_fd y create canonical parts expected (λ fd. body fd (final_part parts)))
        w (lift (safe_relative_parts t relative)) refl (λ e q. (refl, confined))
        (λ parts named.
          let (way, last) = safe_relative_parts-ArePassed t relative parts named in
          after_reader (Kept w)
            (λ canonical.
              with_parent_fd y create canonical parts expected (λ fd. body fd (final_part parts)))
            w (validated_root y t h root expected) (validated_root_keeps root expected w)
            (λ e q. (refl, confined))
            (λ canonical q.
              with_parent_fd-Kept y create (λ fd. body fd (final_part parts)) w
                (λ fd w' here there later. steady fd (final_part parts) last w' here (there, tt))
                canonical parts expected way confined))

  module _ (temporary : String → String)
      (temporary_safe : (name : String) → is_unsafe_part (temporary name) ≡ false) where
    safe_open-Kept :
        (root relative : String) (expected : Option RootIdentity) (w : Calls)
        → IsConfined w
        → Kept w (safe_open_under_root y t h root relative expected w)
    unfolding safe_open_under_root
    safe_open-Kept root relative expected w confined =
        under_root-Kept false root relative expected (open_final y)
          (λ fd name safe. open_final-Steady y fd name safe) w confined

    rename-Kept :
        (root source destination : String) (overwrite : Bool) (expected : Option RootIdentity)
        (w : Calls)
        → IsConfined w
        → Kept w (rename_under_root y t h root source destination overwrite expected w)
    unfolding rename_under_root
    rename-Kept root source destination overwrite expected w confined =
        after_reader (Kept w) to_destination w (lift (safe_relative_parts t source)) refl
          (λ e q. (refl, confined))
          (λ source_parts is_source.
            after_reader (Kept w) (to_root source_parts) w
              (lift (safe_relative_parts t destination)) refl (λ e q. (refl, confined))
              (λ parts is_destination.
                after_reader (Kept w) (inside source_parts parts) w
                  (validated_root y t h root expected) (validated_root_keeps root expected w)
                  (λ e q. (refl, confined))
                  (λ canonical q.
                    let (way, last) =
                      safe_relative_parts-ArePassed t source source_parts is_source in
                    let (way', last') =
                      safe_relative_parts-ArePassed t destination parts is_destination in
                    with_parent_fd-Kept y false (at_source source_parts parts canonical) w
                      (λ source_fd w' here source_open later.
                        with_parent_fd-Kept y false (at_both source_parts parts source_fd) w'
                          (λ fd w'' here' there kept.
                            rename_entry-Steady y overwrite source_fd fd (final_part source_parts)
                              (final_part parts) last last' w'' here'
                              (there, (kept source_fd source_open, tt)))
                          canonical parts expected way' here)
                      canonical source_parts expected way confined)))
      where
        at_both : List String → List String → ℕ → ℕ → Action Calls (Unit {0})
        at_both source_parts parts source_fd fd =
            rename_entry y overwrite source_fd (final_part source_parts) fd (final_part parts)

        at_source : List String → List String → String → ℕ → Action Calls (Unit {0})
        at_source source_parts parts canonical source_fd =
            with_parent_fd y false canonical parts expected (at_both source_parts parts source_fd)

        inside : List String → List String → String → Action Calls (Unit {0})
        inside source_parts parts canonical =
            with_parent_fd y false canonical source_parts expected
              (at_source source_parts parts canonical)

        to_root : List String → List String → Action Calls (Unit {0})
        to_root source_parts parts =
            validated_root y t h root expected >>= inside source_parts parts

        to_destination : List String → Action Calls (Unit {0})
        to_destination source_parts =
            lift (safe_relative_parts t destination) >>= to_root source_parts

    -- The calls after an operation.
    abbrev pub perform : FileOperation → Calls → Calls
    perform (read_file root relative expected) w =
        (read_bytes_under_root y t h root relative expected w).1
    perform (write_file root relative bytes overwrite expected) w =
        (atomic_write_under_root y t h temporary root relative bytes overwrite expected w).1
    perform (remove_file root relative missing_ok expected) w =
        (unlink_under_root y t h root relative missing_ok expected w).1
    perform (rename_file root source destination overwrite expected) w =
        (rename_under_root y t h root source destination overwrite expected w).1

    abbrev pub perform_all : List FileOperation → Calls → Calls
    perform_all [] w = w
    perform_all (o ∷ operations) w = perform_all operations (perform o w)

    perform_keeps :
        (o : FileOperation) (w : Calls)
        → IsConfined w
        → (open_directories (perform o w) ≡ open_directories w) × IsConfined (perform o w)
    unfolding read_bytes_under_root atomic_write_under_root unlink_under_root
    perform_keeps (read_file root relative expected) w confined =
        let kept = safe_open-Kept root relative expected w confined in
        before_answer (Kept w) (λ descriptor calls. (y.read calls descriptor, calls)) w
          (safe_open_under_root y t h root relative expected) (λ e q. kept) (λ descriptor q. kept)
    perform_keeps (write_file root relative bytes overwrite expected) w confined =
        under_root-Kept true root relative expected
          (λ fd name. atomic_write_at y fd (temporary name) name bytes overwrite)
          (λ fd name safe.
            atomic_write_at-Steady y fd (temporary name) name bytes overwrite (temporary_safe name)
              safe)
          w confined
    perform_keeps (remove_file root relative missing_ok expected) w confined =
        under_root-Kept false root relative expected (remove_final y missing_ok)
          (λ fd name safe. remove_final-Steady y fd missing_ok name safe) w confined
    perform_keeps (rename_file root source destination overwrite expected) w confined =
        rename-Kept root source destination overwrite expected w confined

    performed :
        (operations : List FileOperation) (w : Calls)
        → IsConfined w
        → open_directories w ≡ []
        → IsConfined (perform_all operations w) × (open_directories (perform_all operations w) ≡ [])
    performed [] w confined closed = (confined, closed)
    performed (o ∷ operations) w confined closed =
        let (same, confined') = perform_keeps o w confined in
        performed operations (perform o w) confined' (same ∙ closed)

    -- Where the names of temporary files are not empty, "." or "..", after any operations on files under roots, whatever the system answers, each call has named one
    -- entry, which is not empty, "." or "..", of a directory that was open at that time, and no directory is
    -- open any more.
    pub perform_all-IsConfined :
        (operations : List FileOperation)
        → IsConfined (perform_all operations [])
          × (open_directories (perform_all operations []) ≡ [])
    perform_all-IsConfined operations = performed operations [] tt refl
