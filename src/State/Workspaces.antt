-- ===== src/State/Workspaces.antt =====
-- state.py: the workspaces and the path of their active notebook.
use notebook_launcher.Prelude.{
  ℕ, String, Bool, true, false, not, ◌&&◌, Option, none, some, [], ◌∷◌, ◌++◌, ◌==◌, is_some, find,
  count, update, str_eq,
}
use notebook_launcher.Action.{
  Action, Result, conflict, key_error, pure, gets, raise_if, or_raise, modify, atomically, ◌>>=◌,
  ◌>>◌,
}
use notebook_launcher.State.{Db, set_workspaces, set_documents}
use notebook_launcher.State.Rows.{DocumentKind, notebook, file, WorkspaceRow, DocumentRow}
use notebook_launcher.State.Documents.{Host, document_path_key, document_version_row}
use notebook_launcher.State.Guards.{has_workspace_id, guarded}

-- The columns that `create_workspace` is given.
pub record NewWorkspace : Type 0 where
  pub workspace_id : ℕ
  pub source_repository_id : ℕ
  pub source_owner : String
  pub source_repository : String
  pub source_commit_sha : String
  pub source_notebook_path : String
  pub root_path : String
  pub work_path : String
  pub outputs_path : String
  pub active_notebook_path : String

abbrev pub workspace_row : NewWorkspace → ℕ → WorkspaceRow
workspace_row n now = record {
  id = n.workspace_id;
  source_repository_id = n.source_repository_id;
  source_owner = n.source_owner;
  source_repository = n.source_repository;
  source_commit_sha = n.source_commit_sha;
  source_notebook_path = n.source_notebook_path;
  root_path = n.root_path;
  work_path = n.work_path;
  outputs_path = n.outputs_path;
  active_notebook_path = n.active_notebook_path;
  user_data_grant_id = none;
  created_at = now;
  updated_at = now;
}

unfoldable pub get_workspace : ℕ → Action Db (Option WorkspaceRow)
get_workspace workspace_id = gets (λ db. find (has_workspace_id workspace_id) db.workspaces)

unfoldable pub create_workspace : NewWorkspace → ℕ → Action Db WorkspaceRow
create_workspace n now = atomically (do
  rows ← gets (λ db. db.workspaces)
  set_workspaces (rows ++ workspace_row n now ∷ [])
  found ← get_workspace n.workspace_id
  or_raise found key_error)

-- `WHERE id = ? AND active_notebook_path = ?`
abbrev pub has_active : ℕ → String → WorkspaceRow → Bool
has_active workspace_id path w = w.id == workspace_id && str_eq w.active_notebook_path path

-- The update of the path, and whether one row was there.
unfoldable pub move_active : ℕ → String → String → ℕ → Action Db (Unit {0})
move_active workspace_id path new_path now = do
  rows ← gets (λ db. db.workspaces)
  modify (λ db. record db {
    workspaces =
        update (has_active workspace_id path)
          (λ w. record w { active_notebook_path = new_path; updated_at = now }) rows;
  })
  raise_if (not (count (has_active workspace_id path) rows == 1)) conflict

-- `SET path = ?, updated_at = ?`
abbrev pub moved : String → ℕ → DocumentRow → DocumentRow
moved new_path now d = record d { path = new_path; updated_at = now }

abbrev pub is_notebook : DocumentKind → Bool
is_notebook notebook = true
is_notebook file = false

-- `WHERE workspace_id = ? AND path = ?`
abbrev pub has_path : ℕ → String → DocumentRow → Bool
has_path workspace_id path d = d.workspace_id == workspace_id && str_eq d.path path

unfoldable pub update_active_notebook : ℕ → String → String → ℕ → Action Db WorkspaceRow
update_active_notebook workspace_id expected_path new_path now = atomically (do
  move_active workspace_id expected_path new_path now
  rows ← gets (λ db. db.documents)
  set_documents (
      update (λ d. has_path workspace_id expected_path d && is_notebook d.kind) (moved new_path now)
        rows)
  found ← get_workspace workspace_id
  or_raise found key_error)

-- The rename guard up to its `yield`: the current path and the version row of the notebook.
unfoldable pub admit_rename : Host → ℕ → String → String → Action Db (String × Option DocumentRow)
admit_rename host workspace_id expected_path new_path = do
  found ← gets (λ db. find (has_workspace_id workspace_id) db.workspaces)
  workspace ← or_raise found key_error
  raise_if
      (not (
        str_eq (document_path_key host workspace.active_notebook_path)
          (document_path_key host expected_path)))
      conflict
  raise_if
      (str_eq (document_path_key host workspace.active_notebook_path)
        (document_path_key host new_path))
      conflict
  source ← document_version_row host workspace_id workspace.active_notebook_path
  destination ← document_version_row host workspace_id new_path
  raise_if (is_some destination) conflict
  pure (workspace.active_notebook_path, source)

unfoldable pub move_document : ℕ → String → ℕ → Option DocumentRow → Action Db (Unit {0})
move_document workspace_id new_path now none = pure tt
move_document workspace_id new_path now (some d) = do
  rows ← gets (λ db. db.documents)
  set_documents (update (has_path workspace_id d.path) (moved new_path now) rows)

-- The guard round the body of its `with`, which is given the current path.
unfoldable pub active_notebook_rename_guard :
    {F : Type 0}
    → Host
    → ℕ
    → String
    → String
    → ℕ
    → Option (Action F (Unit {0}))
    → Result (Unit {0})
    → (String → Action F (Unit {0}))
    → Action (Db × F) (Unit {0})
active_notebook_rename_guard host workspace_id expected_path new_path now compensation commit
      rename =
    guarded compensation commit (admit_rename host workspace_id expected_path new_path)
      (λ (current_path, _). rename current_path)
      (λ (current_path, source). do
        move_active workspace_id current_path new_path now
        move_document workspace_id new_path now source)
