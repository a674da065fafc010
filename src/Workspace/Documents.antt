-- ===== src/Workspace/Documents.antt =====
-- workspace.py: `write_file`, `save_copy` and `reopen`. The identities of the rows and versions that are
-- made, the time and the outcome of the commit are arguments.
use notebook_launcher.Prelude.{
  ℕ, String, Bool, false, not, ◌&&◌, ◌||◌, Option, none, some, is_some, str_eq, if◌then◌else◌,
}
use notebook_launcher.Action.{
  lift, Action, Result, ok, conflict, permission_denied, value_error, file_not_found, file_exists,
  pure, raise, asks, raise_if, ◌>>=◌, ◌>>◌,
}
use notebook_launcher.State.{Db}
use notebook_launcher.State.Rows.{WorkspaceRow, DocumentRow, DocumentKind, notebook, file}
use notebook_launcher.State.Documents.{document_path_key, get_document_version}
use notebook_launcher.State.Guards.{on_db, on_files}
use notebook_launcher.SafePaths.{RootIdentity, root_identity, validate_relative_path}
use notebook_launcher.Grants.{GrantRecord, revalidate}
use notebook_launcher.Workspace.Outputs.{without_notebook_outputs}
use notebook_launcher.Workspace.{Site, workspace, DocumentChange, write_workspace_document}

module _ {D : Type 0} (x : Site D) where
  abbrev pub same_key : String → String → Bool
  same_key a b = str_eq (document_path_key x.host a) (document_path_key x.host b)

  abbrev pub kind_of : String → DocumentKind
  kind_of path = if x.is_notebook_name path then notebook else file

  -- The end of `write_file`, behind the paths.
  unfoldable pub write_checked :
      WorkspaceRow
      → RootIdentity
      → String
      → String
      → DocumentChange
      → ℕ
      → Result (Unit {0})
      → Action (Db × D) String
  write_checked w identity normalized_path active_path c now commit = do
    raise_if (same_key normalized_path active_path && not c.allow_active_notebook) conflict
    write_workspace_document x w
        (record c { path = normalized_path; kind = kind_of normalized_path }) identity now commit
    pure c.version

  -- The path and the kind of `c` are those that the caller gave, and are replaced.
  unfoldable pub write_file : ℕ → DocumentChange → ℕ → Result (Unit {0}) → Action (Db × D) String
  write_file workspace_id c now commit = do
    w ← on_db (workspace workspace_id)
    identity ← on_files (root_identity x.paths w.work_path)
    normalized_path ← lift (validate_relative_path x.texts c.path)
    active_path ← lift (validate_relative_path x.texts w.active_notebook_path)
    write_checked w identity normalized_path active_path c now commit

  -- The checks of a copy into the workspace.
  abbrev pub check_copy : WorkspaceRow → String → String → Action (Db × D) (Unit {0})
  check_copy w source_path destination_path = do
    raise_if (same_key source_path destination_path)
        (value_error "Save a Copy requires a distinct destination")
    active_path ← lift (validate_relative_path x.texts w.active_notebook_path)
    raise_if (same_key destination_path active_path) conflict

  abbrev pub version_of : Option DocumentRow → Option String
  version_of none = none
  version_of (some d) = some d.version

  abbrev pub copy_into_workspace :
      WorkspaceRow
      → ℕ
      → String
      → String
      → Bool
      → RootIdentity
      → String
      → ℕ
      → Result (Unit {0})
      → Action (Db × D) (Unit {0})
  copy_into_workspace w workspace_id destination_path bytes overwrite identity version now commit =
      do
        existing ← on_db (get_document_version x.host workspace_id destination_path)
        raise_if (is_some existing && not overwrite) file_exists
        write_workspace_document x w
            (record {
              path = destination_path;
              bytes = bytes;
              kind = notebook;
              version = version;
              expected_version = version_of existing;
              overwrite = overwrite;
              allow_active_notebook = false;
            })
            identity now commit

  abbrev pub copy_to_grant :
      Option GrantRecord → String → String → Bool → Action (Db × D) (Unit {0})
  copy_to_grant none destination_path bytes overwrite = raise permission_denied
  copy_to_grant (some g) destination_path bytes overwrite = do
    raise_if (not (str_eq g.mode "rw")) permission_denied
    on_files (
        x.store.atomic_write g.canonical_root destination_path bytes overwrite
          (record { device = g.root_dev; inode = g.root_ino }))

  abbrev pub copy_to_user_data : Bool → ℕ → String → String → Bool → Action (Db × D) (Unit {0})
  copy_to_user_data has_grants workspace_id destination_path bytes overwrite = do
    raise_if (not has_grants) permission_denied
    g ← revalidate x.paths workspace_id
    copy_to_grant g destination_path bytes overwrite

  -- The end of `save_copy`, by its scope.
  abbrev pub copy_to :
      Bool
      → WorkspaceRow
      → ℕ
      → String
      → String
      → String
      → Bool
      → RootIdentity
      → String
      → ℕ
      → Result (Unit {0})
      → Action (Db × D) (Unit {0})
  copy_to has_grants w workspace_id scope destination_path bytes overwrite identity version now
        commit =
      if str_eq scope "workspace"
      then copy_into_workspace w workspace_id destination_path bytes overwrite identity version now
          commit
      else if not (str_eq scope "user_data")
      then raise (value_error "destination_scope must be workspace or user_data")
      else copy_to_user_data has_grants workspace_id destination_path bytes overwrite

  unfoldable pub save_copy :
      Bool
      → ℕ
      → String
      → String
      → String
      → Bool
      → Bool
      → String
      → ℕ
      → Result (Unit {0})
      → Action (Db × D) (Unit {0})
  save_copy has_grants workspace_id source_path destination_scope destination_path include_outputs
        overwrite version now commit =
      do
        w ← on_db (workspace workspace_id)
        identity ← on_files (root_identity x.paths w.work_path)
        source ← lift (validate_relative_path x.texts source_path)
        destination ← lift (validate_relative_path x.texts destination_path)
        raise_if (not (x.is_notebook_name (x.host.casefold source)))
            (value_error "source_path must name a notebook")
        raise_if (not (x.is_notebook_name (x.host.casefold destination)))
            (value_error "destination_path must end in .ipynb")
        (if str_eq destination_scope "workspace" then check_copy w source destination else pure tt)
        bytes ← on_files (x.store.read_bytes w.work_path source identity)
        copied ←
            lift
              (if include_outputs then ok bytes else without_notebook_outputs x.loads x.dumps bytes)
        copy_to has_grants w workspace_id destination_scope destination copied overwrite identity
            version now commit

  unfoldable pub reopen : ℕ → Action (Db × D) WorkspaceRow
  reopen workspace_id = do
    w ← on_db (workspace workspace_id)
    work ← on_files (asks (λ d. ok (x.paths.is_dir w.work_path d)))
    outputs ← on_files (asks (λ d. ok (x.paths.is_dir w.outputs_path d)))
    raise_if (not work || not outputs) file_not_found
    identity ← on_files (root_identity x.paths w.work_path)
    on_files (x.store.open_file w.work_path w.active_notebook_path identity)
    pure w
