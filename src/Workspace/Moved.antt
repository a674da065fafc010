-- ===== src/Workspace/Moved.antt =====
-- workspace.py: what a rename of the active notebook leaves that fails.
use notebook_launcher.Prelude.{
  ℕ, ◌≡◌, ◌⊎◌, refl, ap, String, true, false, Option, some, find, str_eq, arith, Bool-cases,
  Option-cases, inl, inr,
}
use notebook_launcher.Action.{Result, ok, err, Error, is_ok, Action, ◌>>◌}
use notebook_launcher.Action.Parts.{}
use notebook_launcher.State.{Db}
use notebook_launcher.State.Guards.{compensated, has_workspace_id}
use notebook_launcher.State.Rows.{WorkspaceRow, DocumentRow}
use notebook_launcher.State.Documents.{document_path_key, document_version_row}
use notebook_launcher.State.Workspaces.{
  active_notebook_rename_guard, admit_rename, move_active, move_document,
}
use notebook_launcher.State.Rollback.{IsRolledBack, Compensates, guarded-IsRolledBack}
use notebook_launcher.SafePaths.{RootIdentity}
use notebook_launcher.Workspace.{Site, remember}
use notebook_launcher.Workspace.Renames.{
  RenameLocals, compensate_rename, rename_body, move_active_notebook,
}
use notebook_launcher.Workspace.Restored.{is_group, without_locals}

module _ {D : Type 0} (x : Site D) (db : Db) (w : WorkspaceRow) (workspace_id : ℕ)
    (destination : String) (i : RootIdentity) (d : D) where
  abbrev rename_to : String → String → Action D (Unit {0})
  rename_to source target = x.store.rename w.work_path source target i

  -- The path of the active notebook in the database.
  abbrev pub IsActive : String → Type 0
  IsActive path =
      (row : WorkspaceRow) × (find (has_workspace_id workspace_id) db.workspaces ≡ some row)
      × (path ≡ row.active_notebook_path)

  -- No rename was tried; or the rename raised, and nothing was done after it; or it succeeded, and after
  -- it the notebook was renamed back, which has succeeded unless the exception says that it has not.
  abbrev pub IsMovedBack : Error → D → Type 0
  IsMovedBack e d' =
      (d' ≡ d)
      ⊎ ((current : String) × (IsActive current
            × (((f : Error) × (x.store.rename w.work_path current destination i d ≡ (err f, d')))
                ⊎ ((moved : D) × ((x.store.rename w.work_path current destination i d
                        ≡ (ok tt, moved))
                      × ((x.store.rename w.work_path destination current i moved ≡ (ok tt, d'))
                          ⊎ (((x.store.rename w.work_path destination current i moved).1 ≡ d')
                              × (is_group e ≡ true))))))))

  abbrev Kept : Error → D × RenameLocals → Type 0
  Kept e s = IsMovedBack e s.0

  idle-Compensates :
      (current : String)
      → Compensates
          (compensate_rename x w destination i)
          Kept
          (d, record { moved = false; current_path = current })
  unfolding compensate_rename
  idle-Compensates current e = inl refl

  moved_back :
      (e : Error) (r : Result (Unit {0})) (d2 d1 : D) (current : String)
      → x.store.rename w.work_path destination current i d1 ≡ (r, d2)
      → (x.store.rename w.work_path destination current i d1 ≡ (ok tt, d2))
        ⊎ (((x.store.rename w.work_path destination current i d1).1 ≡ d2)
            × (is_group (compensated e r) ≡ true))
  moved_back e (ok u) d2 d1 current h = inl h
  moved_back e (err f) d2 d1 current h = inr (ap (λ p. p.1) h, refl)

  -- The body given what its rename answers.
  abbrev body_answered : String → Result (Unit {0}) → D → Result (Unit {0}) × (D × RenameLocals)
  body_answered current r d1 =
      ((λ (_ : D × RenameLocals). (r, (d1, record { moved = false; current_path = current })))
          >> remember (λ l. record l { moved = true }))
        (d, record { moved = false; current_path = current })

  body_answered-Compensates :
      (current : String) (r : Result (Unit {0})) (d1 : D)
      → IsActive current
      → x.store.rename w.work_path current destination i d ≡ (r, d1)
      → Compensates (compensate_rename x w destination i) Kept (body_answered current r d1).1
  unfolding compensate_rename
  body_answered-Compensates current (ok tt) d1 active h e =
      let back = x.store.rename w.work_path destination current i d1 in
      inr (current, (active, inr (d1, (h, moved_back e back.0 back.1 d1 current refl))))
  body_answered-Compensates current (err f) d1 active h e = inr (current, (active, inl (f, h)))

  rename_body-Compensates :
      (old current : String)
      → IsActive current
      → Compensates
          (compensate_rename x w destination i)
          Kept
          (rename_body x w destination i current
            (d, record { moved = false; current_path = old })).1
  unfolding rename_body
  rename_body-Compensates old current active =
      let ran = x.store.rename w.work_path current destination i d in
      body_answered-Compensates current ran.0 ran.1 active refl

  -- The path that the guard admits is the one of the database.
  admit_rename-IsActive :
      (old : String) (a : String × Option DocumentRow)
      → (admit_rename x.host workspace_id old destination db).0 ≡ ok a
      → IsActive a.0
  unfolding admit_rename document_version_row
  admit_rename-IsActive old a h =
      elim (Option-cases (find (has_workspace_id workspace_id) db.workspaces)) [
        | inl e ↦ absurd (ground arith)
        | inr (row, e) ↦ (
          row,
          e,
          ground (
            arith,
            Bool-cases (
                str_eq (document_path_key x.host row.active_notebook_path)
                  (document_path_key x.host old)),
            Bool-cases (
                str_eq (document_path_key x.host row.active_notebook_path)
                  (document_path_key x.host destination)),
          ),
        )
      ]

module _ {D : Type 0} (x : Site D) where
  -- A rename of the active notebook that does not succeed, be it refused or failed on the disk, in the
  -- database or in the commit, leaves the database as it was; and no rename of a file was tried, or the
  -- one of the active notebook raised and nothing was done after it, or it succeeded and then the
  -- notebook was renamed back, which has succeeded unless the exception says that its cleanup has
  -- failed as well.
  pub move_active_notebook-IsRolledBack :
      (w : WorkspaceRow) (workspace_id : ℕ) (old destination : String) (i : RootIdentity) (now : ℕ)
      (commit : Result (Unit {0})) (db : Db) (d : D)
      → is_ok (move_active_notebook x w workspace_id old destination i now commit (db, d)).0 ≡ false
      → IsRolledBack
          (IsMovedBack x db w workspace_id destination i d)
          db
          (move_active_notebook x w workspace_id old destination i now commit (db, d))
  unfolding move_active_notebook active_notebook_rename_guard
  move_active_notebook-IsRolledBack w workspace_id old destination i now commit db d failed =
      let s : D × RenameLocals = (d, record { moved = false; current_path = old }) in
      without_locals (IsMovedBack x db w workspace_id destination i d) db
        (active_notebook_rename_guard x.host workspace_id old destination now
          (some (compensate_rename x w destination i)) commit (rename_body x w destination i)
          (db, s))
        (guarded-IsRolledBack (compensate_rename x w destination i)
          (Kept x db w workspace_id destination i d) commit
          (admit_rename x.host workspace_id old destination)
          (λ (path, _). rename_body x w destination i path)
          (λ (path, source).
            move_active workspace_id path destination now
            >> move_document workspace_id destination now source)
          db s (idle-Compensates x db w workspace_id destination i d old)
          (λ a q.
            rename_body-Compensates x db w workspace_id destination i d old a.0
              (admit_rename-IsActive x db w workspace_id destination i d old a q))
          failed)
