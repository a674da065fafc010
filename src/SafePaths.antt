-- ===== src/SafePaths.antt =====
-- safe_paths.py: relative paths inside of a root, and the identity of a root. Python's text and path
-- functions and what `stat` and `resolve` answer are parameters; `D` is the state of the disk.
pub mod Roots
pub mod Posix
pub mod Files
pub mod Handles
pub mod Walked
pub mod Steady
pub mod Passed
pub mod Confined
pub mod Samples
mod Tests
use notebook_launcher.Prelude.{
  ℕ, String, Bool, true, false, not, ◌&&◌, ◌||◌, Option, none, some, List, [], ◌∷◌, any, ◌==◌,
  str_eq, if◌then◌else◌,
}
use notebook_launcher.Action.{
  Action, Result, ok, err, value_error, host_path_escape, pure, asks, raise_if, ◌>>=◌, ◌>>◌,
}

-- `replace("\\", "/")`, `is_absolute`, `parts` and `as_posix` of a `PurePosixPath`, and whether a text
-- contains a colon.
pub record PathTexts : Type 0 where
  pub slashes : String → String
  pub is_absolute : String → Bool
  pub parts : String → List String
  pub as_posix : List String → String
  pub has_colon : String → Bool

pub record RootIdentity : Type 0 where
  pub device : ℕ
  pub inode : ℕ

abbrev pub same_identity : RootIdentity → RootIdentity → Bool
same_identity a b = a.device == b.device && a.inode == b.inode

-- What `stat(follow_symlinks=False)` answers of a path.
pub record FileInfo : Type 0 where
  pub is_directory : Bool
  pub identity : RootIdentity

-- `expanduser`, `resolve(strict=…)`, `is_dir`, `anchor`, `os.path.normcase`, `stat` and
-- `_is_reparse_point` on the paths of the host.
pub record HostPaths (D : Type 0) : Type 0 where
  pub expanduser : String → String
  pub resolve : Bool → String → D → Result String
  pub is_dir : String → D → Bool
  pub anchor : String → String
  pub normcase : String → String
  pub stat : String → D → Result FileInfo
  pub is_reparse_point : String → D → Bool

-- A part that steps out of its directory or names none.
abbrev pub is_unsafe_part : String → Bool
is_unsafe_part part = str_eq part "" || str_eq part "." || str_eq part ".."

module _ (t : PathTexts) where
  abbrev pub checked_parts : List String → Result (List String)
  checked_parts [] = err host_path_escape
  checked_parts (part ∷ rest) =
      if any is_unsafe_part (part ∷ rest)
      then err host_path_escape
      else if t.has_colon part
      then err host_path_escape
      else ok (part ∷ rest)

  unfoldable pub safe_relative_parts : String → Result (List String)
  safe_relative_parts relative =
      if t.is_absolute (t.slashes relative)
      then err host_path_escape
      else checked_parts (t.parts (t.slashes relative))

  abbrev pub spelled : Result (List String) → Result String
  spelled (ok parts) = ok (t.as_posix parts)
  spelled (err e) = err e

  -- `PurePosixPath(*parts).as_posix()`, as all callers have it
  unfoldable pub validate_relative_path : String → Result String
  validate_relative_path relative = spelled (safe_relative_parts relative)

module _ {D : Type 0} (h : HostPaths D) where
  abbrev pub same_path : String → String → Bool
  same_path left right = str_eq (h.normcase left) (h.normcase right)

  abbrev pub checked_root : String → FileInfo → Action D RootIdentity
  checked_root root info = do
    reparse ← asks (λ d. ok (h.is_reparse_point root d))
    raise_if (not info.is_directory || reparse) host_path_escape
    pure info.identity

  unfoldable pub root_identity : String → Action D RootIdentity
  root_identity root = asks (h.stat root) >>= checked_root root

  unfoldable pub validate_root_identity : String → RootIdentity → Action D String
  validate_root_identity root expected = do
    canonical ← asks (h.resolve true (h.expanduser root))
    current ← root_identity canonical
    raise_if (not (same_identity current expected)) host_path_escape
    pure canonical

  -- `[home.expanduser().resolve(strict=False)]` where a home is given
  abbrev pub forbidden_home : Option String → Action D (List String)
  forbidden_home none = pure []
  forbidden_home (some home) = do
    resolved ← asks (h.resolve false (h.expanduser home))
    pure (resolved ∷ [])

  -- without `forbidden_roots`, which no caller gives
  unfoldable pub canonical_grant_root : String → Option String → Action D String
  canonical_grant_root path home = do
    root ← asks (h.resolve true (h.expanduser path))
    directory ← asks (λ d. ok (h.is_dir root d))
    raise_if (not directory) (value_error "granted path must be a directory")
    anchor ← asks (h.resolve true (h.anchor root))
    homes ← forbidden_home home
    raise_if (any (same_path root) (anchor ∷ homes))
        (value_error "whole home or filesystem root cannot be granted")
    reparse ← asks (λ d. ok (h.is_reparse_point root d))
    raise_if reparse host_path_escape
    pure root
