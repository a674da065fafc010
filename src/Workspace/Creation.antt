-- ===== src/Workspace/Creation.antt =====
-- workspace.py: `create`, on directory trees whose operations are a parameter, with
-- `SourceCache.verify_unchanged` of repository.py.
use notebook_launcher.Prelude.{ℕ, String, Bool, not, str_eq, if◌then◌else◌}
use notebook_launcher.Action.{
  Action, Result, ok, err, file_exists, repository_identity_changed, asks, raise_if, ◌>>=◌, ◌>>◌,
}
use notebook_launcher.State.{Db}
use notebook_launcher.State.Rows.{WorkspaceRow}
use notebook_launcher.State.Guards.{on_db, on_files, compensated}
use notebook_launcher.State.Workspaces.{NewWorkspace, create_workspace}

-- The fields of `SourceSnapshot` that are read.
pub record SourceSnapshot : Type 0 where
  pub root : String
  pub repository_id : ℕ
  pub commit_sha : String
  pub tree_digest : String

-- `exists`, `mkdir` with the parents, `shutil.copytree` without the manifest, `shutil.rmtree`, the
-- digest that `verify_unchanged` computes of a source, and `source_tree_digest`.
pub record Trees (D : Type 0) : Type 0 where
  pub exists : String → D → Bool
  pub mkdir : String → Action D (Unit {0})
  pub mkdir_parents : String → Action D (Unit {0})
  pub copytree : String → String → Action D (Unit {0})
  pub rmtree : String → Action D (Unit {0})
  pub current_digest : String → Action D String
  pub source_tree_digest : String → Action D String
  pub parent : String → String

pub record WorkspacePaths : Type 0 where
  pub root : String
  pub work : String
  pub outputs : String

-- The arguments of `create` that go into the row.
pub record NewSource : Type 0 where
  pub source_owner : String
  pub source_repository : String
  pub source_notebook_path : String

abbrev pub new_workspace : ℕ → SourceSnapshot → NewSource → WorkspacePaths → NewWorkspace
new_workspace workspace_id source n paths = record {
  workspace_id = workspace_id;
  source_repository_id = source.repository_id;
  source_owner = n.source_owner;
  source_repository = n.source_repository;
  source_commit_sha = source.commit_sha;
  source_notebook_path = n.source_notebook_path;
  root_path = paths.root;
  work_path = paths.work;
  outputs_path = paths.outputs;
  active_notebook_path = n.source_notebook_path;
}

module _ {D : Type 0} (t : Trees D) where
  unfoldable pub verify_unchanged : SourceSnapshot → Action D (Unit {0})
  verify_unchanged source = do
    current ← t.current_digest source.root
    raise_if (not (str_eq current source.tree_digest)) repository_identity_changed

  unfoldable pub materialize_workspace : String → String → Action D (Unit {0})
  materialize_workspace source_root work_root = do
    there ← asks (λ d. ok (t.exists work_root d))
    raise_if there file_exists
    t.mkdir_parents (t.parent work_root)
    t.copytree source_root work_root

  unfoldable pub remove_workspace_tree : String → Action D (Unit {0})
  remove_workspace_tree path d = if t.exists path d then t.rmtree path d else (ok tt, d)

  -- The `try` of `create` up to the database.
  unfoldable pub fill_workspace : SourceSnapshot → WorkspacePaths → Action D (Unit {0})
  fill_workspace source paths = do
    verify_unchanged source
    materialize_workspace source.root paths.work
    digest ← t.source_tree_digest paths.work
    raise_if (not (str_eq digest source.tree_digest)) repository_identity_changed
    t.mkdir paths.outputs
    verify_unchanged source

  -- The `except` of `create`.
  abbrev pub clean_up : {A : Type 0} → String → Result A × (Db × D) → Result A × (Db × D)
  clean_up root (ok a, s) = (ok a, s)
  clean_up root (err e, (db, d)) =
      let (r, d') = remove_workspace_tree root d in (err (compensated e r), (db, d'))

  unfoldable pub build_workspace :
      ℕ → SourceSnapshot → NewSource → WorkspacePaths → ℕ → Action (Db × D) WorkspaceRow
  build_workspace workspace_id source n paths now s = clean_up paths.root (
      (on_files (fill_workspace source paths)
          >> on_db (create_workspace (new_workspace workspace_id source n paths) now))
        s)

  unfoldable pub create :
      ℕ → SourceSnapshot → NewSource → WorkspacePaths → ℕ → Action (Db × D) WorkspaceRow
  create workspace_id source n paths now = do
    there ← on_files (asks (λ d. ok (t.exists paths.root d)))
    raise_if there file_exists
    on_files (t.mkdir_parents paths.root)
    build_workspace workspace_id source n paths now
