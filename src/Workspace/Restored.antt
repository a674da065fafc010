-- ===== src/Workspace/Restored.antt =====
-- workspace.py: what a write of a document leaves that fails.
use notebook_launcher.Prelude.{
  ℕ, ◌≡◌, ◌≢◌, ◌⊎◌, refl, ap, sym, String, Bool, true, false, Option, none, some, opt_str_eq,
  eq_iff, arith, Bool-cases, inl, inr,
}
use notebook_launcher.Action.{
  Result, ok, err, Error, is_ok, exception_group, Result-cases, ◌>>=◌, ◌>>◌,
}
use notebook_launcher.State.{Db}
use notebook_launcher.State.Rows.{WorkspaceRow}
use notebook_launcher.State.Guards.{compensated, document_write_guard, admit_write, record_write}
use notebook_launcher.State.Rollback.{IsRolledBack, Compensates, guarded-IsRolledBack}
use notebook_launcher.SafePaths.{RootIdentity}
use notebook_launcher.Workspace.{
  Site, on_disk, remember, WriteLocals, initial, restore, restore_changed, compensate_attempted,
  compensate_write, write_body, DocumentChange, document_write, write_workspace_document,
}
use notebook_launcher.Workspace.Files.{contents}

abbrev pub is_group : Error → Bool
is_group (exception_group _ _) = true
is_group _ = false

opt_str_eq-true : (a b : Option String) → opt_str_eq a b ≡ true → a ≡ b
opt_str_eq-true none none h = refl
opt_str_eq-true (some a) (some b) h = ap some ((eq_iff a b).0 h)
opt_str_eq-true none (some b) h = cc
opt_str_eq-true (some a) none h = cc

opt_str_eq-false : (a b : Option String) → opt_str_eq a b ≡ false → a ≢ b
opt_str_eq-false none none h = cc
opt_str_eq-false (some a) (some b) h = λ e. ground (arith, eq_iff a b)
opt_str_eq-false none (some b) h = λ e. cc
opt_str_eq-false (some a) none h = λ e. cc

module _ {D : Type 0} (x : Site D) (root path : String) (i : RootIdentity) where
  -- The file has been given these contents, or been removed.
  abbrev pub PutBack : Option String → D → D → Type 0
  PutBack none d d' = x.store.unlink root path i d ≡ (ok tt, d')
  PutBack (some bytes) d d' = x.store.atomic_write root path bytes true i d ≡ (ok tt, d')

  -- The cleanup has failed, and the exception says so; or the file was read, and it has the previous
  -- contents, or it was given them or, if there was none, removed.
  abbrev pub IsRestored : Option String → D → Error → D → Type 0
  IsRestored previous d e d' =
      let read = x.store.read_bytes root path i d in
      (is_group e ≡ true)
      ⊎ ((current : Option String) × (contents read.0 ≡ ok current)
          × (((current ≡ previous) × (d' ≡ read.1))
              ⊎ ((current ≢ previous) × PutBack previous read.1 d')))

  -- Nothing was done; or the first read raised; or the write of these bytes was attempted, whatever it
  -- answered, and the file was restored to what the first read had found.
  abbrev pub IsUndone : String → Bool → D → Error → D → Type 0
  IsUndone bytes overwrite d e d' =
      let read = x.store.read_bytes root path i d in
      (d' ≡ d)
      ⊎ (((f : Error) × (contents read.0 ≡ err f) × (d' ≡ read.1))
          ⊎ ((previous : Option String) × (contents read.0 ≡ ok previous)
              × IsRestored previous (x.store.atomic_write root path bytes overwrite i read.1).1 e
                  d'))

module _ {D : Type 0} (x : Site D) (w : WorkspaceRow) (path : String) (i : RootIdentity) where
  put_back :
      (e : Error) (previous : Option String) (d : D)
      → (is_group (compensated e (restore x w path i previous d).0) ≡ true)
        ⊎ PutBack x w.work_path path i previous d (restore x w path i previous d).1
  put_back e none d = elim (Result-cases (x.store.unlink w.work_path path i d).0) [
    | inl (u, h) ↦ inr (ground arith)
    | inr (f, h) ↦ inl (rw h refl)
  ]
  put_back e (some bytes) d =
      elim (Result-cases (x.store.atomic_write w.work_path path bytes true i d).0) [
        | inl (u, h) ↦ inr (ground arith)
        | inr (f, h) ↦ inl (rw h refl)
      ]

  -- The end of the compensation, given what its read answers.
  changed_back :
      (e : Error) (previous current : Option String) (d : D)
      → (is_group (compensated e (restore_changed x w path i previous current d).0) ≡ true)
        ⊎ (((current ≡ previous) × ((restore_changed x w path i previous current d).1 ≡ d))
            ⊎ ((current ≢ previous)
                × PutBack x w.work_path path i previous d
                    (restore_changed x w path i previous current d).1))
  changed_back e previous current d = elim (Bool-cases (opt_str_eq current previous)) [
    | inl same ↦ rw same (inr (inl (opt_str_eq-true current previous same, refl)))
    | inr differs ↦ rw differs (elim (put_back e previous d) [
      | inl group ↦ inl group
      | inr back ↦ inr (inr (opt_str_eq-false current previous differs, back))
    ])
  ]

  abbrev answered : Option String → Result (Option String) → D → Result (Unit {0}) × D
  answered previous r d = ((λ (_ : D). (r, d)) >>= restore_changed x w path i previous) d

  answered-IsRestored :
      (e : Error) (previous : Option String) (r : Result (Option String)) (d : D)
      → (is_group (compensated e (answered previous r d).0) ≡ true)
        ⊎ ((current : Option String) × (r ≡ ok current)
            × (((current ≡ previous) × ((answered previous r d).1 ≡ d))
                ⊎ ((current ≢ previous)
                    × PutBack x w.work_path path i previous d (answered previous r d).1)))
  answered-IsRestored e previous (err f) d = inl refl
  answered-IsRestored e previous (ok current) d = elim (changed_back e previous current d) [
    | inl group ↦ inl group
    | inr ends ↦ inr (current, refl, ends)
  ]

  attempted-IsRestored :
      (e : Error) (previous : Option String) (d : D)
      → IsRestored x w.work_path path i previous d
          (compensated e (compensate_attempted x w path i previous true d).0)
          (compensate_attempted x w path i previous true d).1
  attempted-IsRestored e previous d =
      let read = x.store.read_bytes w.work_path path i d in
      answered-IsRestored e previous (contents read.0) read.1

  module _ (bytes : String) (overwrite : Bool) (d : D) where
    abbrev Kept : Error → D × WriteLocals → Type 0
    Kept e s = IsUndone x w.work_path path i bytes overwrite d e s.0

    idle-Compensates : Compensates (compensate_write x w path i) Kept (d, initial)
    unfolding compensate_write
    idle-Compensates e = inl refl

    -- The rest of the body, given what its read answers.
    abbrev body_answered : Result (Option String) → D → Result (Unit {0}) × (D × WriteLocals)
    body_answered r d1 =
        ((λ (_ : D × WriteLocals). (r, (d1, initial))) >>= λ previous.
        remember (λ l. record l { previous = previous; write_attempted = true })
        >> on_disk (x.store.atomic_write w.work_path path bytes overwrite i))
          (d, initial)

    body_answered-Compensates :
        (r : Result (Option String)) (d1 : D)
        → contents (x.store.read_bytes w.work_path path i d).0 ≡ r
        → (x.store.read_bytes w.work_path path i d).1 ≡ d1
        → Compensates (compensate_write x w path i) Kept (body_answered r d1).1
    unfolding compensate_write
    body_answered-Compensates (err f) d1 shown same e = inr (inl (f, shown, sym same))
    body_answered-Compensates (ok previous) d1 shown same e =
        let wrote = (x.store.atomic_write w.work_path path bytes overwrite i d1).1 in
        inr (inr (previous, shown, rw same (attempted-IsRestored e previous wrote)))

    write_body-Compensates :
        Compensates
          (compensate_write x w path i)
          Kept
          (write_body x w path i bytes overwrite (d, initial)).1
    unfolding write_body
    write_body-Compensates =
        let read = x.store.read_bytes w.work_path path i d in
        body_answered-Compensates (contents read.0) read.1 refl refl

pub without_locals :
    {D L A : Type 0} (K : Error → D → Type 0) (db : Db) (p : Result A × (Db × (D × L)))
    → IsRolledBack (λ e s. K e s.0) db p
    → IsRolledBack K db (p.0, (p.1.0, p.1.1.0))
without_locals K db (ok a, s) h = elim h [ ]
without_locals K db (err e, s) h = h

module _ {D : Type 0} (x : Site D) where
  -- A write of a document that does not succeed, for whatever reason, leaves the database as it was, and
  -- the file is undone.
  pub write_workspace_document-IsRolledBack :
      (w : WorkspaceRow) (c : DocumentChange) (i : RootIdentity) (now : ℕ)
      (commit : Result (Unit {0})) (db : Db) (d : D)
      → is_ok (write_workspace_document x w c i now commit (db, d)).0 ≡ false
      → IsRolledBack
          (IsUndone x w.work_path c.path i c.bytes c.overwrite d)
          db
          (write_workspace_document x w c i now commit (db, d))
  unfolding write_workspace_document document_write_guard
  write_workspace_document-IsRolledBack w c i now commit db d failed =
      without_locals (IsUndone x w.work_path c.path i c.bytes c.overwrite d) db
        (document_write_guard x.host (document_write x w c now) c.allow_active_notebook
          (some (compensate_write x w c.path i)) commit
          (write_body x w c.path i c.bytes c.overwrite) (db, (d, initial)))
        (guarded-IsRolledBack (compensate_write x w c.path i)
          (Kept x w c.path i c.bytes c.overwrite d) commit
          (admit_write x.host (document_write x w c now) c.allow_active_notebook)
          (λ _. write_body x w c.path i c.bytes c.overwrite)
          (record_write (document_write x w c now)) db (d, initial)
          (idle-Compensates x w c.path i c.bytes c.overwrite d)
          (λ _ _. write_body-Compensates x w c.path i c.bytes c.overwrite d) failed)
