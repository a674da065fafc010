-- ===== src/Grants.antt =====
-- grants.py: the directory of the user that a workspace may use, in the table `user_data_grants`. The
-- disk is the type `D`.
pub mod Single
pub mod Revoked
mod Tests
use notebook_launcher.Prelude.{
  ℕ, String, Bool, true, false, not, ◌&&◌, ◌||◌, Option, none, some, List, [], ◌∷◌, ◌++◌, ◌==◌,
  is_none, find, count, update, str_eq, if◌then◌else◌,
}
use notebook_launcher.Action.{
  Action, Result, ok, err, Error, value_error, runtime_error, integrity_error, file_not_found,
  file_exists, not_a_directory, os_error, host_path_escape, pure, raise, gets, asks, raise_if,
  modify, atomically, ◌>>=◌, ◌>>◌,
}
use notebook_launcher.State.{Db, set_grants, is_mode}
use notebook_launcher.State.Rows.{GrantRow, WorkspaceRow}
use notebook_launcher.State.Guards.{on_db, on_files, has_workspace_id}
use notebook_launcher.SafePaths.{
  HostPaths, RootIdentity, FileInfo, canonical_grant_root, validate_root_identity,
}

pub record GrantRecord : Type 0 where
  pub id : ℕ
  pub workspace_id : ℕ
  pub display_path : String
  pub canonical_root : String
  pub root_dev : ℕ
  pub root_ino : ℕ
  pub mode : String
  pub created_at : ℕ
  pub revoked_at : Option ℕ

-- `WHERE workspace_id = ? AND revoked_at IS NULL`
abbrev pub is_active : ℕ → GrantRow → Bool
is_active workspace_id g = g.workspace_id == workspace_id && is_none g.revoked_at

-- The row of the grant and the record that `grant` returns.
abbrev pub grant_row : GrantRecord → GrantRow
grant_row g = record {
  id = g.id;
  workspace_id = g.workspace_id;
  display_path = g.display_path;
  canonical_root = g.canonical_root;
  root_dev = some g.root_dev;
  root_ino = some g.root_ino;
  container_path = "/mnt/user-data";
  mode = g.mode;
  created_at = g.created_at;
  revoked_at = none;
}

-- `UPDATE workspaces SET user_data_grant_id = ?, updated_at = ? WHERE id = ?`
abbrev pub with_grant : Option ℕ → ℕ → WorkspaceRow → WorkspaceRow
with_grant grant_id now w = record w { user_data_grant_id = grant_id; updated_at = now }

abbrev pub link_grant : ℕ → Option ℕ → ℕ → Action Db (Unit {0})
link_grant workspace_id grant_id now = modify (λ db. record db {
  workspaces = update (has_workspace_id workspace_id) (with_grant grant_id now) db.workspaces;
})

-- The transaction of `grant`.
unfoldable pub insert_grant : GrantRecord → Action Db (Unit {0})
insert_grant g = atomically (do
  rows ← gets (λ db. db.grants)
  set_grants (rows ++ grant_row g ∷ [])
  link_grant g.workspace_id (some g.id) g.created_at)

-- `except sqlite3.IntegrityError`
abbrev pub refused_grant : Error → Error
refused_grant integrity_error =
    value_error "workspace already has an active data grant or does not exist"
refused_grant e = e

abbrev pub or_refuse : {A : Type 0} → Result A → Result A
or_refuse (ok a) = ok a
or_refuse (err e) = err (refused_grant e)

abbrev pub recorded : GrantRecord → Action Db GrantRecord
recorded g db = let (r, db') = (insert_grant g >> (λ (s : Db). (ok g, s))) db in (or_refuse r, db')

module _ {D : Type 0} (h : HostPaths D) where
  unfoldable pub grant : ℕ → ℕ → String → String → Option String → ℕ → Action (Db × D) GrantRecord
  grant grant_id workspace_id path mode home now = do
    raise_if (not (is_mode mode)) (value_error "mode must be ro or rw")
    canonical ← on_files (canonical_grant_root h path home)
    info ← on_files (asks (h.stat canonical))
    on_db (
        recorded (record {
          id = grant_id;
          workspace_id = workspace_id;
          display_path = path;
          canonical_root = canonical;
          root_dev = info.identity.device;
          root_ino = info.identity.inode;
          mode = mode;
          created_at = now;
          revoked_at = none;
        }))

-- The record of a row, which a row without an identity has none of.
abbrev pub record_of : GrantRow → Option ℕ → Option ℕ → Result (Option GrantRecord)
record_of g (some dev) (some ino) = ok (
    some (record {
      id = g.id;
      workspace_id = g.workspace_id;
      display_path = g.display_path;
      canonical_root = g.canonical_root;
      root_dev = dev;
      root_ino = ino;
      mode = g.mode;
      created_at = g.created_at;
      revoked_at = none;
    }))
record_of g _ _ =
    err (runtime_error "data grant predates filesystem-identity tracking; re-grant required")

abbrev pub active_of : Option GrantRow → Result (Option GrantRecord)
active_of none = ok none
active_of (some g) = record_of g g.root_dev g.root_ino

unfoldable pub active : ℕ → Action Db (Option GrantRecord)
active workspace_id = asks (λ db. active_of (find (is_active workspace_id) db.grants))

-- `except (OSError, HostPathEscape, RuntimeError, ValueError)`
abbrev pub is_unavailable : Error → Bool
is_unavailable file_not_found = true
is_unavailable file_exists = true
is_unavailable not_a_directory = true
is_unavailable (os_error n) = true
is_unavailable host_path_escape = true
is_unavailable (runtime_error m) = true
is_unavailable (value_error m) = true
is_unavailable _ = false

abbrev pub changed : Error
changed = runtime_error "granted directory identity changed or became unavailable"

abbrev pub or_changed : {A : Type 0} → Result A → Result A
or_changed (ok a) = ok a
or_changed (err e) = err (if is_unavailable e then changed else e)

abbrev pub guard_changed : {S A : Type 0} → Action S A → Action S A
guard_changed m s = let (r, s') = m s in (or_changed r, s')

module _ {D : Type 0} (h : HostPaths D) where
  -- The path that the granted directory has now.
  abbrev pub current_path : GrantRecord → Action D String
  current_path g = do
    current ← asks (h.resolve true (h.expanduser g.display_path))
    validate_root_identity h current (record { device = g.root_dev; inode = g.root_ino })
    pure current

  abbrev pub revalidated : Option GrantRecord → Action D (Option GrantRecord)
  revalidated none = pure none
  revalidated (some g) = do
    current ← guard_changed (current_path g)
    raise_if (not (str_eq current g.canonical_root)) changed
    pure (some g)

  unfoldable pub revalidate : ℕ → Action (Db × D) (Option GrantRecord)
  revalidate workspace_id = do g ← on_db (active workspace_id); on_files (revalidated g)

abbrev pub revoked : ℕ → GrantRow → GrantRow
revoked now g = record g { revoked_at = some now }

unfoldable pub revoke : ℕ → ℕ → Action Db Bool
revoke workspace_id now = atomically (do
  rows ← gets (λ db. db.grants)
  set_grants (update (is_active workspace_id) (revoked now) rows)
  (if count (is_active workspace_id) rows == 1 then link_grant workspace_id none now else pure tt)
  pure (count (is_active workspace_id) rows == 1))
