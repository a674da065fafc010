-- ===== src/Workspace/Renames.antt =====
-- workspace.py: `rename_active_notebook`.
use notebook_launcher.Prelude.{ℕ, String, Bool, true, false, not, some}
use notebook_launcher.Action.{
  lift, Action, Result, assertion_error, value_error, pure, raise_if, or_raise, ◌>>=◌, ◌>>◌,
}
use notebook_launcher.State.{Db}
use notebook_launcher.State.Rows.{WorkspaceRow}
use notebook_launcher.State.Guards.{on_db, on_files}
use notebook_launcher.State.Workspaces.{get_workspace, active_notebook_rename_guard}
use notebook_launcher.SafePaths.{RootIdentity, root_identity, validate_relative_path}
use notebook_launcher.Workspace.{Site, with_locals, on_disk, remember, workspace}

-- What the compensation reads.
pub record RenameLocals : Type 0 where
  pub moved : Bool
  pub current_path : String

module _ {D : Type 0} (x : Site D) where
  abbrev pub move_back : WorkspaceRow → String → RootIdentity → Bool → String → Action D (Unit {0})
  move_back w destination_path identity false current_path = pure tt
  move_back w destination_path identity true current_path =
      x.store.rename w.work_path destination_path current_path identity

  unfoldable pub compensate_rename :
      WorkspaceRow → String → RootIdentity → Action (D × RenameLocals) (Unit {0})
  compensate_rename w destination_path identity (d, l) =
      on_disk (move_back w destination_path identity l.moved l.current_path) (d, l)

  -- The body of the `with`.
  unfoldable pub rename_body :
      WorkspaceRow → String → RootIdentity → String → Action (D × RenameLocals) (Unit {0})
  rename_body w destination_path identity guarded_path = do
    remember (λ l. record l { current_path = guarded_path })
    on_disk (x.store.rename w.work_path guarded_path destination_path identity)
    remember (λ l. record l { moved = true })

  unfoldable pub move_active_notebook :
      WorkspaceRow
      → ℕ
      → String
      → String
      → RootIdentity
      → ℕ
      → Result (Unit {0})
      → Action (Db × D) (Unit {0})
  move_active_notebook w workspace_id old_path destination_path identity now commit =
      with_locals (record { moved = false; current_path = old_path })
        (active_notebook_rename_guard x.host workspace_id old_path destination_path now
          (some (compensate_rename w destination_path identity)) commit
          (rename_body w destination_path identity))

  unfoldable pub rename_active_notebook :
      ℕ → String → ℕ → Result (Unit {0}) → Action (Db × D) WorkspaceRow
  rename_active_notebook workspace_id destination_path now commit = do
    w ← on_db (workspace workspace_id)
    identity ← on_files (root_identity x.paths w.work_path)
    old_path ← lift (validate_relative_path x.texts w.active_notebook_path)
    destination ← lift (validate_relative_path x.texts destination_path)
    raise_if (not (x.is_notebook_name (x.host.casefold destination)))
        (value_error "destination_path must end in .ipynb")
    move_active_notebook w workspace_id old_path destination identity now commit
    updated ← on_db (get_workspace workspace_id)
    or_raise updated assertion_error
