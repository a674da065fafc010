-- ===== src/Workspace.antt =====
-- workspace.py: the files of a workspace, `WorkspaceManager`. The state is the database and the disk,
-- whose type is `D`; a service that the code calls is a field of `Site`.
pub mod Files
pub mod Documents
pub mod Renames
pub mod Restored
pub mod Parts
pub mod Outputs
pub mod Stripped
pub mod Atomic
pub mod Creation
pub mod Cleaned
mod Tests
pub mod Moved
use notebook_launcher.Prelude.{
  ℕ, String, Bool, true, false, not, ◌&&◌, ◌||◌, Option, none, some, List, [], ◌∷◌, is_some,
  opt_str_eq, str_eq, if◌then◌else◌,
}
use notebook_launcher.Action.{
  Action, Result, ok, err, Error, conflict, permission_denied, key_error, value_error,
  file_not_found, file_exists, pure, raise, gets, asks, raise_if, or_raise, modify, ◌>>=◌, ◌>>◌,
}
use notebook_launcher.State.{Db}
use notebook_launcher.State.Rows.{WorkspaceRow, DocumentRow, DocumentKind, notebook, file}
use notebook_launcher.State.Documents.{Host, document_path_key, DocumentWrite, get_document_version}
use notebook_launcher.State.Guards.{on_db, on_files, document_write_guard}
use notebook_launcher.State.Workspaces.{get_workspace, active_notebook_rename_guard}
use notebook_launcher.Mcp.Lines.{Json}
use notebook_launcher.SafePaths.{
  PathTexts, HostPaths, RootIdentity, root_identity, validate_relative_path,
}
use notebook_launcher.Grants.{GrantRecord, revalidate}
use Files.{FileStore, contents}

-- The services, `endswith(".ipynb")`, `content_hash`, and Python's `json`.
pub record Site (D : Type 0) : Type 0 where
  pub host : Host
  pub texts : PathTexts
  pub paths : HostPaths D
  pub store : FileStore D
  pub is_notebook_name : String → Bool
  pub content_hash : String → String
  pub loads : String → Option Json
  pub dumps : Json → String

-- A part of the transaction with the local variables that its compensation reads.
abbrev pub with_locals : {D L A : Type 0} → L → Action (Db × (D × L)) A → Action (Db × D) A
with_locals l m (db, d) = let (r, (db', (d', l'))) = m (db, (d, l)) in (r, (db', d'))

abbrev pub on_disk : {D L A : Type 0} → Action D A → Action (D × L) A
on_disk m (d, l) = let (r, d') = m d in (r, (d', l))

abbrev pub remember : {D L : Type 0} → (L → L) → Action (D × L) (Unit {0})
remember f = modify (λ (d, l). (d, f l))

unfoldable pub workspace : ℕ → Action Db WorkspaceRow
workspace workspace_id = do found ← get_workspace workspace_id; or_raise found key_error

-- `previous` is missing where `previous_exists` is false.
pub record WriteLocals : Type 0 where
  pub previous : Option String
  pub write_attempted : Bool

abbrev pub initial : WriteLocals
initial = record { previous = none; write_attempted = false }

abbrev pub if_present : {D : Type 0} → Action D String → Action D (Option String)
if_present m d = let (r, d') = m d in (contents r, d')

-- The arguments of `_write_workspace_document`.
pub record DocumentChange : Type 0 where
  pub path : String
  pub bytes : String
  pub kind : DocumentKind
  pub version : String
  pub expected_version : Option String
  pub overwrite : Bool
  pub allow_active_notebook : Bool

module _ {D : Type 0} (x : Site D) where
  abbrev pub read_current : WorkspaceRow → String → RootIdentity → Action D (Option String)
  read_current w path identity = if_present (x.store.read_bytes w.work_path path identity)

  -- Puts the previous contents back.
  abbrev pub restore : WorkspaceRow → String → RootIdentity → Option String → Action D (Unit {0})
  restore w path identity none = x.store.unlink w.work_path path identity
  restore w path identity (some bytes) = x.store.atomic_write w.work_path path bytes true identity

  abbrev pub restore_changed :
      WorkspaceRow → String → RootIdentity → Option String → Option String → Action D (Unit {0})
  restore_changed w path identity previous current =
      if opt_str_eq current previous then pure tt else restore w path identity previous

  abbrev pub compensate_attempted :
      WorkspaceRow → String → RootIdentity → Option String → Bool → Action D (Unit {0})
  compensate_attempted w path identity previous false = pure tt
  compensate_attempted w path identity previous true = do
    current ← read_current w path identity
    restore_changed w path identity previous current

  unfoldable pub compensate_write :
      WorkspaceRow → String → RootIdentity → Action (D × WriteLocals) (Unit {0})
  compensate_write w path identity (d, l) =
      on_disk (compensate_attempted w path identity l.previous l.write_attempted) (d, l)

  -- The body of the `with`.
  unfoldable pub write_body :
      WorkspaceRow → String → RootIdentity → String → Bool → Action (D × WriteLocals) (Unit {0})
  write_body w path identity bytes overwrite = do
    previous ← on_disk (read_current w path identity)
    remember (λ l. record l { previous = previous; write_attempted = true })
    on_disk (x.store.atomic_write w.work_path path bytes overwrite identity)

  abbrev pub document_write : WorkspaceRow → DocumentChange → ℕ → DocumentWrite
  document_write w c now = record {
    workspace_id = w.id;
    path = c.path;
    kind = c.kind;
    version = c.version;
    content_digest = some (x.content_hash c.bytes);
    expected_version = c.expected_version;
    now = now;
  }

  unfoldable pub write_workspace_document :
      WorkspaceRow
      → DocumentChange
      → RootIdentity
      → ℕ
      → Result (Unit {0})
      → Action (Db × D) (Unit {0})
  write_workspace_document w c identity now commit = with_locals initial (
      document_write_guard x.host (document_write w c now) c.allow_active_notebook
        (some (compensate_write w c.path identity)) commit
        (write_body w c.path identity c.bytes c.overwrite))
