-- ===== src/SafePaths/Posix.antt =====
-- safe_paths.py where `_supports_secure_dir_fd()` holds: files under a root, reached by one descriptor
-- for each directory on the way. The state is the list of the system calls, newest first, and a call
-- answers by those before it; `os.close` does not raise.
use notebook_launcher.Prelude.{
  ℕ, String, Bool, true, false, not, ◌&&◌, Option, none, some, List, [], ◌∷◌, ◌==◌, if◌then◌else◌,
}
use notebook_launcher.Action.{
  Action, Result, ok, err, Error, host_path_escape, file_not_found, file_exists, not_a_directory,
  os_error, raise, raise_if, ◌>>=◌, ◌>>◌,
}
use notebook_launcher.SafePaths.{RootIdentity, FileInfo, same_identity}

-- A call that names an entry of a directory has the descriptor of the directory before the name.
pub data Call : Type 0 where
  opened_root : String → ℕ → Call
  opened_directory : ℕ → String → ℕ → Call
  closed : ℕ → Call
  made_directory opened_file created_file unlinked : ℕ → String → Call
  replaced linked : ℕ → String → String → Call
  renamed : ℕ → String → ℕ → String → Call
  wrote : String → Call
  synced : ℕ → Call

abbrev pub Calls : Type 0
Calls = List Call

-- What the system answers. `read` and `write` close the file; `write` flushes and synchronises it.
pub record System : Type 0 where
  pub open_root : Calls → String → Result ℕ
  pub fstat : Calls → ℕ → Result FileInfo
  pub open_directory : Calls → ℕ → String → Result ℕ
  pub mkdir : Calls → ℕ → String → Result (Unit {0})
  pub open_file : Calls → ℕ → String → Result ℕ
  pub create_file : Calls → ℕ → String → Result ℕ
  pub read : Calls → ℕ → Result String
  pub write : Calls → ℕ → String → Result (Unit {0})
  pub replace : Calls → ℕ → String → String → Result (Unit {0})
  pub link : Calls → ℕ → String → String → Result (Unit {0})
  pub unlink : Calls → ℕ → String → Result (Unit {0})
  pub rename : Bool → Calls → ℕ → String → ℕ → String → Result (Unit {0})
  pub fsync : Calls → ℕ → Result (Unit {0})

-- A call is noted where it succeeds.
abbrev pub noted : {A : Type 0} → (A → Call) → Result A → Action Calls A
noted call (ok a) calls = (ok a, call a ∷ calls)
noted call (err e) calls = (err e, calls)

abbrev pub system : {A : Type 0} → (Calls → Result A) → (A → Call) → Action Calls A
system f call calls = noted call (f calls) calls

-- `finally: os.close(descriptor)`
abbrev pub closing : {A : Type 0} → ℕ → Action Calls A → Action Calls A
closing fd m calls = let (r, calls') = m calls in (r, closed fd ∷ calls')

-- `_translate_escape`, `ELOOP` being 40 and `ENOTDIR` the class `NotADirectoryError`
abbrev pub translate_escape : Error → Error
translate_escape not_a_directory = host_path_escape
translate_escape (os_error n) = if n == 40 then host_path_escape else os_error n
translate_escape e = e

-- An exception handler, whose parts act on the state that the body has left.
abbrev pub caught : {A : Type 0} → (Error → Action Calls A) → Action Calls A → Action Calls A
caught handler m calls =
    let (r, calls') = m calls in elim r [ ok a ↦ (ok a, calls') | err e ↦ handler e calls' ]

-- `parts[:-1]` and `parts[-1]`, the latter "" of no parts
abbrev pub parents : List String → List String
parents [] = []
parents (part ∷ []) = []
parents (part ∷ next ∷ rest) = part ∷ parents (next ∷ rest)

abbrev pub final_part : List String → String
final_part [] = ""
final_part (part ∷ []) = part
final_part (part ∷ next ∷ rest) = final_part (next ∷ rest)

abbrev pub is_missing : Error → Bool
is_missing file_not_found = true
is_missing _ = false

-- `except OSError`
abbrev pub is_os_error : Error → Bool
is_os_error file_not_found = true
is_os_error file_exists = true
is_os_error not_a_directory = true
is_os_error (os_error n) = true
is_os_error _ = false

module _ (y : System) where
  abbrev pub open_directory : ℕ → String → Action Calls ℕ
  open_directory fd name =
      system (λ calls. y.open_directory calls fd name) (λ next. opened_directory fd name next)

  abbrev pub make_and_open : ℕ → String → Action Calls ℕ
  make_and_open fd name = do
    system (λ calls. y.mkdir calls fd name) (λ _. made_directory fd name)
    open_directory fd name

  -- The handlers of the first try to open a directory; a missing one is no escape.
  abbrev pub not_opened : Bool → ℕ → String → Error → Action Calls ℕ
  not_opened create fd name e =
      if is_missing e && create then make_and_open fd name else raise (translate_escape e)

  abbrev pub open_component : Bool → ℕ → String → Action Calls ℕ
  open_component create fd name = caught (not_opened create fd name) (open_directory fd name)

  -- The loop over the components, the body, and the closing of what the loop has opened.
  unfoldable pub walk :
      {A : Type 0} → Bool → ℕ → List String → (ℕ → Action Calls A) → Action Calls A
  walk create fd [] body = body fd
  walk create fd (name ∷ names) body = do
    next ← open_component create fd name
    closing next (walk create next names body)

  abbrev pub is_unexpected : Option RootIdentity → RootIdentity → Bool
  is_unexpected none found = false
  is_unexpected (some expected) found = not (same_identity found expected)

  abbrev pub check_root : Option RootIdentity → ℕ → Action Calls (Unit {0})
  check_root expected fd = do
    info ← (λ calls. (y.fstat calls fd, calls))
    raise_if (not info.is_directory) host_path_escape
    raise_if (is_unexpected expected info.identity) host_path_escape

  -- `_open_parent_fd` round the body of its `with`
  unfoldable pub with_parent_fd :
      {A : Type 0}
      → Bool
      → String
      → List String
      → Option RootIdentity
      → (ℕ → Action Calls A)
      → Action Calls A
  with_parent_fd create root parts expected body = do
    root_fd ← system (λ calls. y.open_root calls root) (λ fd. opened_root root fd)
    closing root_fd (check_root expected root_fd >> walk create root_fd (parents parts) body)
