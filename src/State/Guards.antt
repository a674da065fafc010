-- ===== src/State/Guards.antt =====
-- state.py: `transaction` with a compensation, and the guard that replaces a file together with its
-- version. The files are a type of their own, `F`; the body of the `with` and the compensation act on
-- them, and `commit` is the outcome of the commit.
use notebook_launcher.Prelude.{
  ℕ, String, Bool, not, ◌&&◌, Option, none, some, ◌==◌, find, count, str_eq,
}
use notebook_launcher.Action.{
  Action, Result, ok, err, conflict, key_error, Error, exception_group, pure, gets, raise_if,
  or_raise, ◌>>=◌, ◌>>◌,
}
use notebook_launcher.State.{Db}
use notebook_launcher.State.Rows.{WorkspaceRow, DocumentRow}
use notebook_launcher.State.Documents.{
  Host, document_path_key, document_version_row, DocumentWrite, is_expected, is_outdated,
  insert_document, rewrite_document,
}

-- What a failure raises once the compensation has run.
abbrev pub compensated : Error → Result (Unit {0}) → Error
compensated original (ok _) = original
compensated original (err failure) = exception_group original failure

module _ {F A : Type 0} where
  abbrev pub on_db : Action Db A → Action (Db × F) A
  on_db m (db, f) = let (r, db') = m db in (r, (db', f))

  abbrev pub on_files : Action F A → Action (Db × F) A
  on_files m (db, f) = let (r, f') = m f in (r, (db, f'))

  -- `_compensate_before_rollback` and the rollback
  abbrev pub roll_back : Option (Action F (Unit {0})) → Error → Db → F → Result A × (Db × F)
  roll_back none original db f = (err original, (db, f))
  roll_back (some compensation) original db f =
      let (r, f') = compensation f in (err (compensated original r), (db, f'))

  -- The end of a transaction on `db` whose body ends so.
  abbrev pub end_transaction :
      Option (Action F (Unit {0}))
      → Result (Unit {0})
      → Db
      → Result A
      → Db × F
      → Result A × (Db × F)
  end_transaction compensation (ok _) db (ok a) s = (ok a, s)
  end_transaction compensation (err e) db (ok a) s = roll_back compensation e db s.1
  end_transaction compensation commit db (err e) s = roll_back compensation e db s.1

  abbrev pub transaction :
      Option (Action F (Unit {0})) → Result (Unit {0}) → Action (Db × F) A → Action (Db × F) A
  transaction compensation commit m (db, f) =
      let (r, s) = m (db, f) in end_transaction compensation commit db r s

-- The shape of both guards: what is read first, the body of the `with`, what is recorded after it.
abbrev pub guarded :
    {F A : Type 0}
    → Option (Action F (Unit {0}))
    → Result (Unit {0})
    → Action Db A
    → (A → Action F (Unit {0}))
    → (A → Action Db (Unit {0}))
    → Action (Db × F) (Unit {0})
guarded compensation commit admit body note =
    transaction compensation commit (do a ← on_db admit; on_files (body a); on_db (note a))

abbrev pub has_workspace_id : ℕ → WorkspaceRow → Bool
has_workspace_id workspace_id w = w.id == workspace_id

-- The update of the guard checks its row count.
unfoldable pub rewrite_expected : DocumentWrite → String → Action Db (Unit {0})
unfolding rewrite_document
rewrite_expected w path = do
  rows ← gets (λ db. db.documents)
  rewrite_document w path
  raise_if (not (count (is_expected w path) rows == 1)) conflict

-- The guard up to its `yield`: the row that was found.
unfoldable pub admit_write : Host → DocumentWrite → Bool → Action Db (Option DocumentRow)
admit_write host w allow_active_notebook = do
  found ← gets (λ db. find (has_workspace_id w.workspace_id) db.workspaces)
  workspace ← or_raise found key_error
  raise_if
      (not allow_active_notebook
        && str_eq (document_path_key host w.path)
            (document_path_key host workspace.active_notebook_path))
      conflict
  row ← document_version_row host w.workspace_id w.path
  raise_if (is_outdated w row) conflict
  pure row

unfoldable pub record_write : DocumentWrite → Option DocumentRow → Action Db (Unit {0})
record_write w none = insert_document w
record_write w (some d) = rewrite_expected w d.path

-- The guard round the body `write` of its `with`.
unfoldable pub document_write_guard :
    {F : Type 0}
    → Host
    → DocumentWrite
    → Bool
    → Option (Action F (Unit {0}))
    → Result (Unit {0})
    → Action F (Unit {0})
    → Action (Db × F) (Unit {0})
document_write_guard host w allow_active_notebook compensation commit write =
    guarded compensation commit (admit_write host w allow_active_notebook) (λ _. write)
      (record_write w)
