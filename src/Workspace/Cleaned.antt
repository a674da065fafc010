-- ===== src/Workspace/Cleaned.antt =====
-- workspace.py: what a creation of a workspace leaves that fails.
use notebook_launcher.Prelude.{
  ℕ, ◌≡◌, refl, ap, ◌∙◌, sym, String, Bool, true, false, [], ◌∷◌, ◌++◌, Bool-cases, inl, inr,
}
use notebook_launcher.Action.{
  Action, Result, ok, err, Error, is_ok, atomically, file_exists, key_error, or_raise, gets, asks,
  raise_if, ◌>>=◌, ◌>>◌,
}
use notebook_launcher.State.{Db, set_workspaces}
use notebook_launcher.State.Rows.{WorkspaceRow}
use notebook_launcher.State.Guards.{on_db, on_files, compensated}
use notebook_launcher.State.Workspaces.{
  NewWorkspace, workspace_row, get_workspace, create_workspace,
}
use notebook_launcher.State.Rollback.{IsRolledBack}
use notebook_launcher.Workspace.Creation.{
  SourceSnapshot, Trees, WorkspacePaths, NewSource, new_workspace, remove_workspace_tree,
  fill_workspace, clean_up, build_workspace, create,
}
use notebook_launcher.Workspace.Restored.{is_group}
use notebook_launcher.Action.Parts.{after_reader, before_answer}

-- A transaction that raises has changed nothing.
atomically_kept :
    {S A : Type 0} (m : Action S A) (s : S)
    → is_ok (atomically m s).0 ≡ false
    → (atomically m s).1 ≡ s
atomically_kept {S} {A} m s failed = go (m s).0 (m s).1 failed
  where
    go :
        (r : Result A) (s' : S)
        → is_ok (atomically (λ (_ : S). (r, s')) s).0 ≡ false
        → (atomically (λ (_ : S). (r, s')) s).1 ≡ s
    go (ok a) s' h = cc
    go (err e) s' h = refl

create_workspace_kept :
    (n : NewWorkspace) (now : ℕ) (db : Db)
    → is_ok (create_workspace n now db).0 ≡ false
    → (create_workspace n now db).1 ≡ db
unfolding create_workspace
create_workspace_kept n now db failed =
    atomically_kept
      (do
        rows ← gets (λ db. db.workspaces)
        set_workspaces (rows ++ workspace_row n now ∷ [])
        found ← get_workspace n.workspace_id
        or_raise found key_error)
      db failed

module _ {D : Type 0} (t : Trees D)
    (removes : (root : String) (d : D)
      → (t.rmtree root d).0 ≡ ok tt
      → t.exists root (t.rmtree root d).1 ≡ false) where
  abbrev IsGone : String → Error → D → Type 0
  IsGone root e d = is_group e ≡ false → t.exists root d ≡ false

  remove_workspace_tree_lem :
      (root : String) (e : Error) (d : D)
      → IsGone root
          (compensated e (remove_workspace_tree t root d).0)
          (remove_workspace_tree t root d).1
  unfolding remove_workspace_tree
  remove_workspace_tree_lem root e d = elim (Bool-cases (t.exists root d)) [
    | inl there ↦ rw there (removed (t.rmtree root d).0 (t.rmtree root d).1 (removes root d))
    | inr gone ↦ rw gone λ group. gone
  ]
    where
      removed :
          (r : Result (Unit {0})) (d' : D)
          → (r ≡ ok tt → t.exists root d' ≡ false)
          → IsGone root (compensated e r) d'
      removed (ok u) d' h group = h refl
      removed (err f) d' h group = cc

  clean_up-IsRolledBack :
      {A : Type 0} (root : String) (db : Db) (p : Result A × (Db × D))
      → (is_ok p.0 ≡ false → p.1.0 ≡ db)
      → is_ok (clean_up t root p).0 ≡ false
      → IsRolledBack (IsGone root) db (clean_up t root p)
  clean_up-IsRolledBack root db (ok a, s) same failed = cc
  clean_up-IsRolledBack root db (err e, (db', d)) same failed =
      (same refl, remove_workspace_tree_lem root e d)

  build_workspace-IsRolledBack :
      (i : ℕ) (source : SourceSnapshot) (n : NewSource) (paths : WorkspacePaths) (now : ℕ) (db : Db)
      (d : D)
      → is_ok (build_workspace t i source n paths now (db, d)).0 ≡ false
      → IsRolledBack (IsGone paths.root) db (build_workspace t i source n paths now (db, d))
  unfolding build_workspace
  build_workspace-IsRolledBack i source n paths now db d failed =
      let make : Action (Db × D) WorkspaceRow =
        on_db (create_workspace (new_workspace i source n paths) now) in
      clean_up-IsRolledBack paths.root db
        ((on_files (fill_workspace t source paths) >> make) (db, d))
        (before_answer (λ p. is_ok p.0 ≡ false → p.1.0 ≡ db) (λ _. make) (db, d)
          (on_files (fill_workspace t source paths)) (λ e q. λ raised. refl)
          (λ u q. λ raised. create_workspace_kept (new_workspace i source n paths) now db raised))
        failed

  -- Where the removal of a tree that succeeds leaves none, a workspace whose directory is new and was
  -- made but that could not be created is in neither the database nor, unless the exception says that
  -- the cleanup has failed as well, the file system.
  pub create-IsRolledBack :
      (i : ℕ) (source : SourceSnapshot) (n : NewSource) (paths : WorkspacePaths) (now : ℕ) (db : Db)
      (d : D)
      → t.exists paths.root d ≡ false
      → (t.mkdir_parents paths.root d).0 ≡ ok tt
      → is_ok (create t i source n paths now (db, d)).0 ≡ false
      → IsRolledBack (IsGone paths.root) db (create t i source n paths now (db, d))
  unfolding create
  create-IsRolledBack i source n paths now db d fresh made failed =
      after_reader P (λ there. rest there) (db, d)
        (on_files (asks (λ d. ok (t.exists paths.root d)))) refl (λ e q. cc)
        (λ there q.
          let is_fresh : there ≡ false = ap (ok_or true) (sym q) ∙ fresh in
          after_reader P (λ _. make >> build) (db, d) (raise_if there file_exists) refl
            (λ e q'. absurd there e is_fresh q')
            (λ u q'.
              before_answer P (λ _. build) (db, d) make (λ e q''. cc)
                (λ u q''.
                  build_workspace-IsRolledBack i source n paths now db
                    (t.mkdir_parents paths.root d).1)))
        failed
    where
      P : Result WorkspaceRow × (Db × D) → Type 0
      P p = is_ok p.0 ≡ false → IsRolledBack (IsGone paths.root) db p

      make : Action (Db × D) (Unit {0})
      make = on_files (t.mkdir_parents paths.root)

      build : Action (Db × D) WorkspaceRow
      build = build_workspace t i source n paths now

      rest : Bool → Action (Db × D) WorkspaceRow
      rest there = raise_if there file_exists >> (make >> build)

      ok_or : Bool → Result Bool → Bool
      ok_or b (ok c) = c
      ok_or b (err e) = b

      absurd :
          (there : Bool) (e : Error)
          → there ≡ false
          → (raise_if {S = Unit {0}} there file_exists tt).0 ≡ err e
          → P (err e, (db, d))
      absurd true e h q = cc
      absurd false e h q = cc
