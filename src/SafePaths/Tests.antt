-- ===== src/SafePaths/Tests.antt =====
-- The theorem on files under a root at a concrete system.
use notebook_launcher.Prelude.{
  ◌≡◌, ◌+◌, refl, String, true, false, some, List, [], ◌∷◌, length, str_eq, if◌then◌else◌,
}
use notebook_launcher.Action.{ok, err, host_path_escape, os_error}
use notebook_launcher.SafePaths.{
  PathTexts, RootIdentity, is_unsafe_part, safe_relative_parts, validate_root_identity,
  root_identity,
}
use notebook_launcher.SafePaths.Samples.{plain_paths}
use notebook_launcher.SafePaths.Posix.{
  System, opened_root, opened_directory, closed, renamed, walk, with_parent_fd,
}
use notebook_launcher.SafePaths.Files.{validated_root, rename_under_root}
use notebook_launcher.SafePaths.Handles.{open_directories, IsConfined}
use notebook_launcher.SafePaths.Confined.{
  FileOperation, read_file, write_file, perform_all, perform_all-IsConfined,
}

-- Every path is the file "b" in the directory "a", but for one that steps out.
abbrev texts : PathTexts
texts = record {
  slashes = λ s. s;
  is_absolute = λ s. false;
  parts = λ s. if str_eq s "../b" then ".." ∷ "b" ∷ [] else "a" ∷ "b" ∷ [];
  as_posix = λ l. "a/b";
  has_colon = λ s. false;
}

abbrev identity : RootIdentity
identity = record { device = 1; inode = 2 }

-- Each descriptor is a new number, and no directory can be synchronised.
abbrev unsynced : System
unsynced = record {
  open_root = λ w root. ok (length w + 3);
  fstat = λ w fd. ok (record { is_directory = true; identity = identity });
  open_directory = λ w fd name. ok (length w + 3);
  mkdir = λ w fd name. ok tt;
  open_file = λ w fd name. ok (length w + 3);
  create_file = λ w fd name. ok (length w + 3);
  read = λ w fd. ok "";
  write = λ w fd bytes. ok tt;
  replace = λ w fd a b. ok tt;
  link = λ w fd a b. ok tt;
  unlink = λ w fd name. ok tt;
  rename = λ overwrite w fd a to b. ok tt;
  fsync = λ w fd. err (os_error 5);
}

-- The rename raises though the entry was renamed.
renamed_and_raised :
    rename_under_root unsynced texts plain_paths "/w" "x" "y" false (some identity) [] ≡ (
      err (os_error 5),
      closed 3
          ∷ closed 4
          ∷ closed 5
          ∷ closed 6
          ∷ renamed 4 "b" 6 "b"
          ∷ opened_directory 5 "a" 6
          ∷ opened_root "/w" 5
          ∷ opened_directory 3 "a" 4
          ∷ opened_root "/w" 3
          ∷ [],
    )
unfolding rename_under_root safe_relative_parts validated_root validate_root_identity root_identity
    with_parent_fd walk
renamed_and_raised = refl

-- A path that steps out is refused before any call.
stepped_out :
    rename_under_root unsynced texts plain_paths "/w" "../b" "y" false (some identity) []
    ≡ (err host_path_escape, [])
unfolding rename_under_root safe_relative_parts
stepped_out = refl

abbrev operations : List FileOperation
operations =
    write_file "/w" "x" "new" true (some identity) ∷ read_file "/w" "x" (some identity) ∷ []

temporary_safe : (name : String) → is_unsafe_part ".tmp" ≡ false
temporary_safe name = refl

perform_all-IsConfined_example :
    IsConfined
      (perform_all unsynced texts plain_paths (λ name. ".tmp") temporary_safe operations [])
    × (open_directories
          (perform_all unsynced texts plain_paths (λ name. ".tmp") temporary_safe operations [])
        ≡ [])
perform_all-IsConfined_example =
    perform_all-IsConfined unsynced texts plain_paths (λ name. ".tmp") temporary_safe operations
