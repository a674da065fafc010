-- ===== src/Workspace/Files.antt =====
-- workspace.py: what the workspace asks of the files under a root, and the operations of safe_paths.py
-- that it calls for it. `D` is the state of the disk; for safe_paths.py it is the list of the system
-- calls. A text stands for the bytes of a file.
use notebook_launcher.Prelude.{String, Bool, true, false, Option, none, some}
use notebook_launcher.Action.{Action, Result, ok, err, file_not_found, pure, ◌>>◌}
use notebook_launcher.SafePaths.{PathTexts, HostPaths, RootIdentity}
use notebook_launcher.SafePaths.Posix.{Calls, System}
use notebook_launcher.SafePaths.Files.{
  safe_open_under_root, read_bytes_under_root, atomic_write_under_root, unlink_under_root,
  rename_under_root,
}

-- `safe_open_under_root` to read, closed at once, `read_bytes_under_root`, `atomic_write_under_root`,
-- `unlink_under_root` with `missing_ok` and `rename_under_root`, each of a root, a path and the identity
-- that the root is to have.
pub record FileStore (D : Type 0) : Type 0 where
  pub open_file : String → String → RootIdentity → Action D (Unit {0})
  pub read_bytes : String → String → RootIdentity → Action D String
  pub atomic_write : String → String → String → Bool → RootIdentity → Action D (Unit {0})
  pub unlink : String → String → RootIdentity → Action D (Unit {0})
  pub rename : String → String → String → RootIdentity → Action D (Unit {0})

-- What a read answers, a missing file as `none`.
abbrev pub contents : Result String → Result (Option String)
contents (ok bytes) = ok (some bytes)
contents (err file_not_found) = ok none
contents (err e) = err e

-- The functions of safe_paths.py; `temporary` is the name of the temporary file for a name.
abbrev pub files_under_root :
    System → PathTexts → HostPaths Calls → (String → String) → FileStore Calls
files_under_root y t h temporary = record {
  open_file = λ root path i. safe_open_under_root y t h root path (some i) >> pure tt;
  read_bytes = λ root path i. read_bytes_under_root y t h root path (some i);
  atomic_write = λ root path bytes overwrite i.
      atomic_write_under_root y t h temporary root path bytes overwrite (some i);
  unlink = λ root path i. unlink_under_root y t h root path true (some i);
  rename =
      λ root source destination i. rename_under_root y t h root source destination false (some i);
}
