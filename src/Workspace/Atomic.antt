-- ===== src/Workspace/Atomic.antt =====
-- workspace.py: `write_file`, where it returns and where it raises.
use notebook_launcher.Prelude.{
  ℕ, ◌≡◌, ◌⊎◌, inl, inr, refl, ap, sym, ◌∙◌, String, Bool, true, false, not, ◌&&◌, some, find,
  arith,
}
use mathlib.Core.Path.{subst}
use notebook_launcher.Action.{
  lift, Action, Result, ok, err, Error, conflict, is_ok, pure, raise_if, ◌>>=◌, ◌>>◌,
}
use notebook_launcher.State.{Db}
use notebook_launcher.State.Rows.{WorkspaceRow}
use notebook_launcher.State.Guards.{
  has_workspace_id, on_db, on_files, document_write_guard, admit_write, record_write,
}
use notebook_launcher.State.Rollback.{IsRolledBack}
use notebook_launcher.SafePaths.{RootIdentity, root_identity, validate_relative_path}
use notebook_launcher.Workspace.{
  Site, workspace, on_disk, remember, read_current, initial, compensate_write, write_body,
  DocumentChange, document_write, write_workspace_document,
}
use notebook_launcher.Workspace.Documents.{same_key, kind_of, write_checked, write_file}
use notebook_launcher.Workspace.Restored.{IsUndone, write_workspace_document-IsRolledBack}
use notebook_launcher.Action.Parts.{after_reader, before_answer, error_or, not_raised}
use notebook_launcher.SafePaths.Roots.{root_identity_keeps}
use notebook_launcher.Workspace.Parts.{guarded_done, workspace_keeps, workspace_found}

module _ {D : Type 0} (x : Site D) where
  -- The file was read, and then these bytes were written to it, which has succeeded.
  abbrev pub Wrote : String → String → RootIdentity → String → Bool → D → D → Type 0
  Wrote root path i bytes overwrite d d' =
      x.store.atomic_write root path bytes overwrite i (x.store.read_bytes root path i d).1
      ≡ (ok tt, d')

  write_body-Wrote :
      (w : WorkspaceRow) (path bytes : String) (overwrite : Bool) (i : RootIdentity) (d : D)
      → (write_body x w path i bytes overwrite (d, initial)).0 ≡ ok tt
      → Wrote w.work_path path i bytes overwrite d
          (write_body x w path i bytes overwrite (d, initial)).1.0
  unfolding write_body
  write_body-Wrote w path bytes overwrite i d done =
      before_answer (λ p. p.0 ≡ ok tt → Wrote w.work_path path i bytes overwrite d p.1.0)
        (λ previous.
          remember (λ l. record l { previous = previous; write_attempted = true })
          >> on_disk (x.store.atomic_write w.work_path path bytes overwrite i))
        (d, initial) (on_disk (read_current x w path i)) (λ e q. λ done. cc)
        (λ previous q. λ wrote. ground arith) done

  write_workspace_document-Wrote :
      (w : WorkspaceRow) (c : DocumentChange) (i : RootIdentity) (now : ℕ)
      (commit : Result (Unit {0})) (db : Db) (d : D)
      → is_ok (write_workspace_document x w c i now commit (db, d)).0 ≡ true
      → Wrote w.work_path c.path i c.bytes c.overwrite d
          (write_workspace_document x w c i now commit (db, d)).1.1
  unfolding write_workspace_document document_write_guard
  write_workspace_document-Wrote w c i now commit db d done =
      let (a, wrote, left) =
        guarded_done (some (compensate_write x w c.path i)) commit
          (admit_write x.host (document_write x w c now) c.allow_active_notebook)
          (λ _. write_body x w c.path i c.bytes c.overwrite)
          (record_write (document_write x w c now)) db (d, initial) done in
      write_body-Wrote w c.path c.bytes c.overwrite i d wrote ∙ ap (λ s. (ok tt, s.0)) (sym left)

  rolled_back_as :
      (K : Error → D → Type 0) {db : Db} (p : Result (Unit {0}) × (Db × D)) (e : Error)
      → p.0 ≡ err e
      → (is_ok p.0 ≡ false → IsRolledBack K db p)
      → (p.1.0 ≡ db) × K e p.1.1
  rolled_back_as K (ok a, s) e raised h = cc
  rolled_back_as K (err f, s) e raised h =
      let same : f ≡ e = ap (error_or e) raised in
      let (db_same, kept) = h refl in (db_same, subst (λ g. K g s.1) same kept)

  module _ (workspace_id : ℕ) (c : DocumentChange) (now : ℕ) (commit : Result (Unit {0})) (db : Db)
      (d : D) where
    -- The workspace, its root and the path that the call has named.
    abbrev pub IsTarget : WorkspaceRow → RootIdentity → String → Type 0
    IsTarget w i path =
        (find (has_workspace_id workspace_id) db.workspaces ≡ some w)
        × ((root_identity x.paths w.work_path d).0 ≡ ok i)
        × (validate_relative_path x.texts c.path ≡ ok path)

    -- The named file of the workspace was written, and it is not the active notebook unless that is
    -- allowed.
    abbrev pub IsWritten : D → Type 0
    IsWritten d' =
        (w : WorkspaceRow) × (i : RootIdentity) × (path : String) × (active : String) × (IsTarget w
            i path
          × (validate_relative_path x.texts w.active_notebook_path ≡ ok active)
          × (((same_key x path active) && not c.allow_active_notebook) ≡ false)
          × Wrote w.work_path path i c.bytes c.overwrite d d')

    -- Nothing was done to the files, or the write of the named file was undone.
    abbrev pub IsUnwritten : Error → D → Type 0
    IsUnwritten e d' =
        (d' ≡ d)
        ⊎ ((w : WorkspaceRow) × (i : RootIdentity) × (path : String) × (IsTarget w i path
              × IsUndone x w.work_path path i c.bytes c.overwrite d e d'))

    abbrev pub IsAtomic : Result String × (Db × D) → Type 0
    IsAtomic (ok v, (db', d')) = (v ≡ c.version) × IsWritten d'
    IsAtomic (err e, (db', d')) = (db' ≡ db) × IsUnwritten e d'

    nothing_done : (e : Error) → IsAtomic (err e, (db, d))
    nothing_done e = (refl, inl refl)

    abbrev after_path : WorkspaceRow → RootIdentity → String → Action (Db × D) String
    after_path w identity path =
        lift (validate_relative_path x.texts w.active_notebook_path) >>= λ active.
        write_checked x w identity path active c now commit

    abbrev after_identity : WorkspaceRow → RootIdentity → Action (Db × D) String
    after_identity w identity =
        lift (validate_relative_path x.texts c.path) >>= after_path w identity

    abbrev after_workspace : WorkspaceRow → Action (Db × D) String
    after_workspace w = on_files (root_identity x.paths w.work_path) >>= after_identity w

    write_checked-IsAtomic :
        (w : WorkspaceRow) (identity : RootIdentity) (path active : String)
        → IsTarget w identity path
        → validate_relative_path x.texts w.active_notebook_path ≡ ok active
        → IsAtomic (write_checked x w identity path active c now commit (db, d))
    unfolding write_checked
    write_checked-IsAtomic w identity path active target is_active =
        let c' : DocumentChange = record c { path = path; kind = kind_of x path } in
        let write = write_workspace_document x w c' identity now commit in
        let refused = same_key x path active && not c.allow_active_notebook in
        after_reader IsAtomic (λ _. write >>= λ _. pure c.version) (db, d)
          (raise_if refused conflict) refl (λ e q. nothing_done e)
          (λ u q.
            before_answer IsAtomic (λ _. pure c.version) (db, d) write
              (λ e raised.
                let (db_same, undone) =
                  rolled_back_as (IsUndone x w.work_path path identity c.bytes c.overwrite d)
                    (write (db, d)) e raised
                    (write_workspace_document-IsRolledBack x w c' identity now commit db d) in
                (db_same, inr (w, identity, path, (target, undone))))
              (λ u done.
                let wrote =
                  write_workspace_document-Wrote w c' identity now commit db d (ap is_ok done) in
                (
                  refl,
                  (
                    w,
                    identity,
                    path,
                    active,
                    (target, is_active, not_raised refused conflict q, wrote),
                  ),
                )))

    -- `write_file` returns the new version and has, last of all, written the bytes to the named file
    -- of the workspace; or it raises and leaves the database as it was, and it has done nothing to the
    -- files, or the write was undone: the file has the contents that were read before it, was given
    -- them back or was removed if there were none, unless the exception says that the cleanup has failed
    -- as well.
    pub write_file-IsAtomic : IsAtomic (write_file x workspace_id c now commit (db, d))
    unfolding write_file
    write_file-IsAtomic =
        after_reader IsAtomic after_workspace (db, d) (on_db (workspace workspace_id))
          (ap (λ q. (q, d)) (workspace_keeps workspace_id db)) (λ e q. nothing_done e)
          (λ w listed.
            after_reader IsAtomic (after_identity w) (db, d)
              (on_files (root_identity x.paths w.work_path))
              (ap (λ q. (db, q)) (root_identity_keeps x.paths w.work_path d))
              (λ e q. nothing_done e)
              (λ identity is_root.
                after_reader IsAtomic (after_path w identity) (db, d)
                  (lift (validate_relative_path x.texts c.path)) refl (λ e q. nothing_done e)
                  (λ path named.
                    after_reader IsAtomic
                      (λ active. write_checked x w identity path active c now commit) (db, d)
                      (lift (validate_relative_path x.texts w.active_notebook_path)) refl
                      (λ e q. nothing_done e)
                      (λ active is_active.
                        write_checked-IsAtomic w identity path active
                          (workspace_found workspace_id db w listed, is_root, named) is_active))))
