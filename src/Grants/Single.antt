-- ===== src/Grants/Single.antt =====
-- grants.py: when a grant is recorded.
use notebook_launcher.Prelude.{
  ℕ, ◌≡◌, refl, ap, ◌∙◌, String, Bool, true, false, not, ◌&&◌, Option, none, some, List, [], ◌∷◌,
  ◌++◌, ◌==◌, arith, is_none, any, find, update, if◌then◌else◌, Bool-cases, inl, inr,
}
use notebook_launcher.Action.{
  Result, ok, err, value_error, integrity_error, atomically, ◌>>=◌, ◌>>◌, asks,
}
use notebook_launcher.State.{Db, same_grant_id, same_active_grant, is_mode, grants_ok, set_grants}
use notebook_launcher.State.Rows.{GrantRow}
use notebook_launcher.State.Guards.{has_workspace_id, on_db, on_files}
use notebook_launcher.State.Indexes.{unique-append, all-append, any_ext}
use notebook_launcher.SafePaths.{HostPaths, FileInfo, canonical_grant_root}
use notebook_launcher.Grants.{
  GrantRecord, is_active, grant_row, with_grant, link_grant, insert_grant, recorded, or_refuse,
  grant,
}

abbrev pub GrantsValid : Db → Type 0
GrantsValid db = grants_ok db.workspaces db.grants ≡ true

-- Whether the workspace is there and has no grant.
abbrev pub can_grant : ℕ → Db → Bool
can_grant workspace_id db =
    is_none (find (is_active workspace_id) db.grants)
    && any (has_workspace_id workspace_id) db.workspaces

abbrev pub granted : GrantRecord → Db → Db
granted g db = record db {
  grants = db.grants ++ (grant_row g ∷ []);
  workspaces =
      update (has_workspace_id g.workspace_id) (with_grant (some g.id) g.created_at) db.workspaces;
}

is_none-find : {A : Type 0} (p : A → Bool) (l : List A) → is_none (find p l) ≡ not (any p l)
is_none-find p [] = refl
is_none-find p (x ∷ l) = ground (arith, is_none-find p l)

module _ (g : GrantRecord) (db : Db) where
  append-grants_ok :
      GrantsValid db
      → any (λ x. same_grant_id x (grant_row g)) db.grants ≡ false
      → is_mode g.mode ≡ true
      → grants_ok db.workspaces (db.grants ++ (grant_row g ∷ [])) ≡ can_grant g.workspace_id db
  unfolding grants_ok
  append-grants_ok valid fresh mode = ground (
    arith,
    unique-append same_grant_id db.grants (grant_row g),
    unique-append same_active_grant db.grants (grant_row g),
    all-append (λ g. is_mode g.mode) db.grants (grant_row g ∷ []),
    all-append (λ g. any (λ w. w.id == g.workspace_id) db.workspaces) db.grants (grant_row g ∷ []),
    any_ext (λ x. same_active_grant x (grant_row g)) (is_active g.workspace_id) db.grants
        (λ x. ground arith),
    is_none-find (is_active g.workspace_id) db.grants,
  )

  abbrev rows : List GrantRow
  rows = db.grants ++ (grant_row g ∷ [])

  -- The rest of `insert_grant`.
  abbrev inserted : Result (Unit {0}) × Db → Result (Unit {0}) × Db
  inserted q = atomically ((λ (s : Db). q) >> link_grant g.workspace_id (some g.id) g.created_at) db

  kept :
      grants_ok db.workspaces rows ≡ true
      → set_grants rows db ≡ (ok tt, record db { grants = rows })
  unfolding set_grants
  kept e = rw e refl

  refused : grants_ok db.workspaces rows ≡ false → set_grants rows db ≡ (err integrity_error, db)
  unfolding set_grants
  refused e = rw e refl

  insert_kept : grants_ok db.workspaces rows ≡ true → insert_grant g db ≡ (ok tt, granted g db)
  unfolding insert_grant set_grants
  insert_kept e = ap inserted (kept e)

  insert_refused :
      grants_ok db.workspaces rows ≡ false → insert_grant g db ≡ (err integrity_error, db)
  unfolding insert_grant set_grants
  insert_refused e = ap inserted (refused e)

  abbrev answered : Result (Unit {0}) × Db → Result GrantRecord × Db
  answered q = let (r, db') = ((λ (s : Db). q) >> (λ (s : Db). (ok g, s))) db in (or_refuse r, db')

  pub recorded_lem :
      (b : Bool)
      → grants_ok db.workspaces rows ≡ b
      → recorded g db ≡ (
          if b then (ok g, granted g db) else (
            err (value_error "workspace already has an active data grant or does not exist"),
            db,
          ))
  recorded_lem true e = ap answered (insert_kept e)
  recorded_lem false e = ap answered (insert_refused e)

module _ {D : Type 0} (h : HostPaths D) where
  -- In a valid database, where the mode and the directory may be granted and the id is new, a grant is recorded exactly if the workspace
  -- is there and has no active grant, and otherwise it is refused and the database stays as it was.
  pub grant_exact :
      (i workspace_id now : ℕ) (path mode root : String) (home : Option String) (info : FileInfo)
      (db : Db) (d d' : D)
      → GrantsValid db
      → any (λ x. x.id == i) db.grants ≡ false
      → is_mode mode ≡ true
      → canonical_grant_root h path home d ≡ (ok root, d')
      → h.stat root d' ≡ ok info
      → let g : GrantRecord = record {
        id = i;
        workspace_id = workspace_id;
        display_path = path;
        canonical_root = root;
        root_dev = info.identity.device;
        root_ino = info.identity.inode;
        mode = mode;
        created_at = now;
        revoked_at = none;
      } in
        grant h i workspace_id path mode home now (db, d) ≡ (
          if can_grant workspace_id db then (ok g, (granted g db, d')) else (
            err (value_error "workspace already has an active data grant or does not exist"),
            (db, d'),
          ))
  unfolding grant
  grant_exact i workspace_id now path mode root home info db d d' valid fresh m c s =
      let g : GrantRecord = record {
        id = i;
        workspace_id = workspace_id;
        display_path = path;
        canonical_root = root;
        root_dev = info.identity.device;
        root_ino = info.identity.inode;
        mode = mode;
        created_at = now;
        revoked_at = none;
      } in
      let stat_answered : Result FileInfo × D → Result GrantRecord × (Db × D) = λ q.
        (on_files (λ _. q) >>= λ info.
        on_db
          (recorded (record g { root_dev = info.identity.device; root_ino = info.identity.inode })))
          (db, d') in
      let root_answered : Result String × D → Result GrantRecord × (Db × D) = λ q.
        (on_files (λ _. q) >>= λ canonical. on_files (asks (h.stat canonical)) >>= λ info. on_db (
            recorded (record g {
              canonical_root = canonical;
              root_dev = info.identity.device;
              root_ino = info.identity.inode;
            })))
          (db, d) in
      let admitted : grant h i workspace_id path mode home now (db, d)
          ≡ root_answered (canonical_grant_root h path home d) =
        rw m refl in
      let ended : grant h i workspace_id path mode home now (db, d) ≡ on_db (recorded g) (db, d') =
        admitted ∙ ap root_answered c ∙ ap (λ r. stat_answered (r, d')) s in
      ended
      ∙ ap (λ q. (q.0, (q.1, d')))
          (recorded_lem g db (can_grant workspace_id db) (append-grants_ok g db valid fresh m))
      ∙ elim (Bool-cases (can_grant workspace_id db)) [ inl e ↦ rw e refl | inr e ↦ rw e refl ]
