-- ===== src/State/Rollback.antt =====
-- The guards of state.py: one that fails leaves nothing.
use notebook_launcher.Prelude.{ℕ, ◌≡◌, String, Bool, false, some, refl}
use notebook_launcher.Action.{Action, Result, ok, err, Error, bind_keeps, is_ok, ◌>>=◌, ◌>>◌}
use notebook_launcher.Action.Parts.{before_answer}
use notebook_launcher.State.{Db}
use notebook_launcher.State.Documents.{Host, DocumentWrite}
use notebook_launcher.State.Guards.{
  on_db, on_files, compensated, end_transaction, guarded, admit_write, record_write,
  document_write_guard,
}
use notebook_launcher.State.Workspaces.{
  active_notebook_rename_guard, admit_rename, move_active, move_document,
}

-- The transaction has raised, `K` holds of the exception and of the files that are left, and the
-- database is as before.
abbrev pub IsRolledBack : {F A : Type 0} → (Error → F → Type 0) → Db → Result A × (Db × F) → Type 0
IsRolledBack K db (ok a, s) = ⊥
IsRolledBack K db (err e, (db', f')) = (db' ≡ db) × K e f'

module _ {F : Type 0} (compensation : Action F (Unit {0})) (K : Error → F → Type 0) where
  -- What the compensation makes of these files, whatever the exception is.
  abbrev pub Compensates : F → Type 0
  Compensates f = (e : Error) → K (compensated e (compensation f).0) (compensation f).1

  end_transaction-IsRolledBack :
      {A : Type 0} (commit : Result (Unit {0})) (db : Db) (r : Result A) (s : Db × F)
      → Compensates s.1
      → is_ok (end_transaction (some compensation) commit db r s).0 ≡ false
      → IsRolledBack K db (end_transaction (some compensation) commit db r s)
  end_transaction-IsRolledBack (ok u) db (ok a) s back failed = cc
  end_transaction-IsRolledBack (err e) db (ok a) s back failed = (refl, back e)
  end_transaction-IsRolledBack (ok u) db (err e) s back failed = (refl, back e)
  end_transaction-IsRolledBack (err x) db (err e) s back failed = (refl, back e)

  pub guarded-IsRolledBack :
      {A : Type 0} (commit : Result (Unit {0})) (admit : Action Db A)
      (body : A → Action F (Unit {0})) (note : A → Action Db (Unit {0})) (db : Db) (f : F)
      → Compensates f
      → ((a : A) → (admit db).0 ≡ ok a → Compensates (body a f).1)
      → is_ok (guarded (some compensation) commit admit body note (db, f)).0 ≡ false
      → IsRolledBack K db (guarded (some compensation) commit admit body note (db, f))
  guarded-IsRolledBack commit admit body note db f idle back failed =
      end_transaction-IsRolledBack commit db ran.0 ran.1 undone failed
    where
      ran : Result (Unit {0}) × (Db × F)
      ran = (on_db admit >>= λ a. on_files (body a) >> on_db (note a)) (db, f)

      undone : Compensates ran.1.1
      undone =
          before_answer (λ p. Compensates p.1.1) (λ a. on_files (body a) >> on_db (note a)) (db, f)
            (on_db admit) (λ e q. idle)
            (λ a q.
              bind_keeps (λ s. Compensates s.1) (on_files (body a)) (λ _. on_db (note a))
                (on_db admit (db, f)).1 (back a q) (λ _. back a q))

-- Files that are those of before are the special case.
left_as_before :
    {F A : Type 0} (db : Db) (f : F) (p : Result A × (Db × F))
    → IsRolledBack (λ _ g. g ≡ f) db p
    → p.1 ≡ (db, f)
left_as_before db f (ok a, s) h = elim h [ ]
left_as_before db f (err e, (db', f')) (same, back) = rw (same, back) refl

module _ {F : Type 0} (host : Host) (compensation : Action F (Unit {0})) where
  -- A guarded write of a document that does not succeed, be it refused, failed in the body of the
  -- `with`, in the database or in the commit, leaves the database and the files as they were, if the
  -- compensation brings the files back.
  pub document_write_guard_undone :
      (w : DocumentWrite) (allow : Bool) (commit : Result (Unit {0})) (write : Action F (Unit {0}))
      (db : Db) (f : F)
      → (compensation f).1 ≡ f
      → (compensation (write f).1).1 ≡ f
      → is_ok (document_write_guard host w allow (some compensation) commit write (db, f)).0 ≡ false
      → (document_write_guard host w allow (some compensation) commit write (db, f)).1 ≡ (db, f)
  unfolding document_write_guard
  document_write_guard_undone w allow commit write db f idle back failed =
      left_as_before db f
        (document_write_guard host w allow (some compensation) commit write (db, f))
        (guarded-IsRolledBack compensation (λ _ g. g ≡ f) commit (admit_write host w allow)
          (λ _. write) (record_write w) db f (λ _. idle) (λ _ _ _. back) failed)

  -- The same of a guarded rename of the active notebook.
  pub active_notebook_rename_guard_undone :
      (i : ℕ) (expected new : String) (now : ℕ) (commit : Result (Unit {0}))
      (rename : String → Action F (Unit {0})) (db : Db) (f : F)
      → (compensation f).1 ≡ f
      → ((path : String) → (compensation (rename path f).1).1 ≡ f)
      → is_ok
          (active_notebook_rename_guard host i expected new now
            (some compensation)
            commit
            rename
            (db, f)).0
        ≡ false
      → (active_notebook_rename_guard host i expected new now
          (some compensation)
          commit
          rename
          (db, f)).1
        ≡ (db, f)
  unfolding active_notebook_rename_guard
  active_notebook_rename_guard_undone i expected new now commit rename db f idle back failed =
      left_as_before db f
        (active_notebook_rename_guard host i expected new now (some compensation) commit rename
          (db, f))
        (guarded-IsRolledBack compensation (λ _ g. g ≡ f) commit (admit_rename host i expected new)
          (λ (path, _). rename path)
          (λ (path, source). move_active i path new now >> move_document i new now source) db f
          (λ _. idle) (λ a _ _. back a.0) failed)
