-- ===== src/Workspace/Tests.antt =====
-- The theorems on workspaces, with the files of safe_paths.py on a concrete system.
use notebook_launcher.Prelude.{
  ◌+◌, length, ◌≡◌, refl, String, Bool, true, false, none, List, [], ◌∷◌, str_eq, if◌then◌else◌,
  Bool-cases, inl, inr,
}
use notebook_launcher.Action.{ok, err, is_ok, os_error}
use notebook_launcher.State.{Db, empty}
use notebook_launcher.State.Rows.{notebook}
use notebook_launcher.State.Documents.{document_version_row}
use notebook_launcher.State.Workspaces.{
  admit_rename, active_notebook_rename_guard, move_active, move_document,
}
use notebook_launcher.State.Rollback.{IsRolledBack}
use notebook_launcher.SafePaths.{
  PathTexts, RootIdentity, safe_relative_parts, validate_root_identity, root_identity,
}
use notebook_launcher.SafePaths.Samples.{plain_paths}
use notebook_launcher.State.Samples.{sample_workspace}
use notebook_launcher.Workspace.{Site, DocumentChange}
use notebook_launcher.Workspace.Files.{files_under_root}
use notebook_launcher.SafePaths.Posix.{Calls, System, walk, with_parent_fd}
use notebook_launcher.SafePaths.Files.{validated_root, rename_under_root}
use notebook_launcher.Workspace.Documents.{write_file}
use notebook_launcher.Workspace.Renames.{compensate_rename, rename_body, move_active_notebook}
use notebook_launcher.Workspace.Creation.{
  SourceSnapshot, Trees, WorkspacePaths, NewSource, verify_unchanged, materialize_workspace,
  remove_workspace_tree, fill_workspace, build_workspace, create,
}
use notebook_launcher.Workspace.Outputs.{clear_notebook, set_key, clear_cells, without_outputs}
use notebook_launcher.Workspace.Restored.{is_group}
use notebook_launcher.Workspace.Atomic.{IsAtomic, write_file-IsAtomic}
use notebook_launcher.Workspace.Moved.{IsMovedBack, move_active_notebook-IsRolledBack}
use notebook_launcher.Workspace.Cleaned.{create-IsRolledBack}
use notebook_launcher.Workspace.Stripped.{IsStripped, clear_notebook-IsStripped}
use notebook_launcher.Mcp.Lines.{
  Json, null, string, number, array, object, no_items, item, no_entries, entry,
}

abbrev identity : RootIdentity
identity = record { device = 1; inode = 2 }

abbrev first_part : List String → String
first_part [] = ""
first_part (part ∷ _) = part

abbrev texts : PathTexts
texts = record {
  slashes = λ s. s;
  is_absolute = λ s. false;
  parts = λ s. s ∷ [];
  as_posix = first_part;
  has_colon = λ s. false;
}

-- Each descriptor is a new number, every file has the contents "old", and each call succeeds.
abbrev willing : System
willing = record {
  open_root = λ w root. ok (length w + 3);
  fstat = λ w fd. ok (record { is_directory = true; identity = identity });
  open_directory = λ w fd name. ok (length w + 3);
  mkdir = λ w fd name. ok tt;
  open_file = λ w fd name. ok (length w + 3);
  create_file = λ w fd name. ok (length w + 3);
  read = λ w fd. ok "old";
  write = λ w fd bytes. ok tt;
  replace = λ w fd a b. ok tt;
  link = λ w fd a b. ok tt;
  unlink = λ w fd name. ok tt;
  rename = λ overwrite w fd a to b. ok tt;
  fsync = λ w fd. ok tt;
}

abbrev site_of : System → Site Calls
site_of y = record {
  host = record { is_nt = false; casefold = λ s. s };
  texts = texts;
  paths = plain_paths;
  store = files_under_root y texts plain_paths (λ name. ".tmp");
  is_notebook_name = λ s. true;
  content_hash = λ s. s;
  loads = λ s. none;
  dumps = λ document. "";
}

abbrev site : Site Calls
site = site_of willing

abbrev db : Db
db = record empty { workspaces = sample_workspace ∷ [] }

abbrev change : DocumentChange
change = record {
  path = "b.ipynb";
  bytes = "new";
  kind = notebook;
  version = "v1";
  expected_version = none;
  overwrite = true;
  allow_active_notebook = false;
}

write_file-IsAtomic_example :
    IsAtomic site 1 change 50 (ok tt) db [] (write_file site 1 change 50 (ok tt) (db, []))
write_file-IsAtomic_example = write_file-IsAtomic site 1 change 50 (ok tt) db []

rename_failed :
    is_ok
      (move_active_notebook site sample_workspace 1 "a.ipynb" "c.ipynb" identity 50
        (err (os_error 5))
        (db, [])).0
    ≡ false
unfolding move_active_notebook active_notebook_rename_guard admit_rename document_version_row
    rename_body compensate_rename move_active move_document rename_under_root safe_relative_parts
    validated_root validate_root_identity root_identity with_parent_fd walk
rename_failed = refl

move_active_notebook-IsRolledBack_example :
    IsRolledBack (IsMovedBack site db sample_workspace 1 "c.ipynb" identity []) db (
      move_active_notebook site sample_workspace 1 "a.ipynb" "c.ipynb" identity 50
        (err (os_error 5))
        (db, []))
move_active_notebook-IsRolledBack_example =
    move_active_notebook-IsRolledBack site sample_workspace 1 "a.ipynb" "c.ipynb" identity 50
      (err (os_error 5)) db [] rename_failed

-- No directory can be synchronised, so a rename raises after it has moved the file.
abbrev unsynced : Site Calls
unsynced = site_of (record willing { fsync = λ w fd. err (os_error 5) })

-- Then the notebook is not moved back, and the workspace still has its old path.
left_moved :
    move_active_notebook unsynced sample_workspace 1 "a.ipynb" "c.ipynb" identity 50
      (ok tt)
      (db, [])
    ≡ (err (os_error 5), (db, (unsynced.store.rename "/w/work" "a.ipynb" "c.ipynb" identity []).1))
unfolding move_active_notebook active_notebook_rename_guard admit_rename document_version_row
    rename_body compensate_rename rename_under_root safe_relative_parts validated_root
    validate_root_identity root_identity with_parent_fd walk
left_moved = refl

-- Trees: whether the directory of the workspace is there.
abbrev trees : Trees Bool
trees = record {
  exists = λ path there. if str_eq path "/w" then there else false;
  mkdir = λ path there. (ok tt, there);
  mkdir_parents = λ path there. (ok tt, if str_eq path "/w" then true else there);
  copytree = λ source work there. (err (os_error 28), there);
  rmtree = λ path there. (ok tt, if str_eq path "/w" then false else there);
  current_digest = λ root there. (ok "t", there);
  source_tree_digest = λ root there. (ok "t", there);
  parent = λ path. "/w";
}

abbrev snapshot : SourceSnapshot
snapshot = record { root = "/s"; repository_id = 7; commit_sha = "c0ffee"; tree_digest = "t" }

abbrev new_paths : WorkspacePaths
new_paths = record { root = "/w"; work = "/w/work"; outputs = "/w/outputs" }

abbrev new_source : NewSource
new_source = record {
  source_owner = "o";
  source_repository = "r";
  source_notebook_path = "a.ipynb";
}

copy_failed : is_ok (create trees 1 snapshot new_source new_paths 50 (db, false)).0 ≡ false
unfolding create build_workspace fill_workspace verify_unchanged materialize_workspace
    remove_workspace_tree
copy_failed = refl

rmtree_removes :
    (root : String) (d : Bool)
    → (trees.rmtree root d).0 ≡ ok tt
    → trees.exists root (trees.rmtree root d).1 ≡ false
rmtree_removes root d h = elim (Bool-cases (str_eq root "/w")) [
  | inl e ↦ rw e refl
  | inr e ↦ rw e refl
]

create-IsRolledBack_example :
    IsRolledBack
      (λ e d'. is_group e ≡ false → trees.exists "/w" d' ≡ false)
      db
      (create trees 1 snapshot new_source new_paths 50 (db, false))
create-IsRolledBack_example =
    create-IsRolledBack trees rmtree_removes 1 snapshot new_source new_paths 50 db false refl refl
      copy_failed

abbrev code_cell : Json
code_cell = object (
    entry "cell_type" (string "code") (
      entry "execution_count" (number "3")
        (entry "outputs" (array (item null no_items)) no_entries)))

abbrev plain_cell : Json
plain_cell = object (
    entry "cell_type" (string "code")
      (entry "execution_count" null (entry "outputs" (array no_items) no_entries)))

cleared_example :
    clear_notebook (object (entry "cells" (array (item code_cell no_items)) no_entries))
    ≡ ok (object (entry "cells" (array (item plain_cell no_items)) no_entries))
unfolding clear_notebook clear_cells without_outputs set_key
cleared_example = refl

clear_notebook-IsStripped_example :
    IsStripped
      (entry "cells" (array (item code_cell no_items)) no_entries)
      (object (entry "cells" (array (item plain_cell no_items)) no_entries))
clear_notebook-IsStripped_example =
    clear_notebook-IsStripped (entry "cells" (array (item code_cell no_items)) no_entries)
      (object (entry "cells" (array (item plain_cell no_items)) no_entries)) cleared_example
