-- ===== src/State/Versions.antt =====
-- The versions of the documents: what `set_document_version` answers and writes, and that a writer
-- with an outdated version is refused.
use notebook_launcher.Prelude.{
  ◌≡◌, String, true, false, some, List, [], ◌∷◌, ◌++◌, ◌==◌, arith, is_some, any, update,
  opt_str_eq, if◌then◌else◌, refl, ap, sym, ◌∙◌, Bool-cases, inl, inr,
}
use notebook_launcher.Action.{Result, ok, err, is_ok, conflict}
use notebook_launcher.State.{Db, documents_ok, set_documents}
use notebook_launcher.State.Rows.{DocumentRow}
use notebook_launcher.State.Documents.{
  Host, DocumentWrite, matches, document_row, written, is_expected, insert_document,
  rewrite_document, set_document_version,
}
use notebook_launcher.State.Matches.{
  DocumentsValid, document_version_row_lem, written_alone, inserted_alone, documents_ok-insert,
}

module _ (host : Host) (w : DocumentWrite) where
  set_documents_accepted :
      (l : List DocumentRow) (db : Db)
      → documents_ok db.workspaces l ≡ true
      → set_documents l db ≡ (ok tt, record db { documents = l })
  unfolding set_documents
  set_documents_accepted l db h = rw h

  insert_document_lem :
      (db : Db)
      → documents_ok db.workspaces (db.documents ++ document_row w ∷ []) ≡ true
      → insert_document w db
        ≡ (ok tt, record db { documents = db.documents ++ document_row w ∷ [] })
  unfolding insert_document
  insert_document_lem db h = set_documents_accepted (db.documents ++ document_row w ∷ []) db h

  rewrite_document_lem :
      (path : String) (db : Db)
      → rewrite_document w path db
        ≡ (ok tt, record db { documents = update (is_expected w path) (written w) db.documents })
  unfolding rewrite_document
  rewrite_document_lem path db = refl

  -- What `set_document_version` answers and leaves when the rows of the document are these.
  abbrev pub set_outcome : List DocumentRow → Db → Result DocumentRow × Db
  set_outcome [] db =
      if is_some w.expected_version
      then (err conflict, db)
      else (ok (document_row w), record db { documents = db.documents ++ document_row w ∷ [] })
  set_outcome (d ∷ []) db =
      if opt_str_eq (some d.version) w.expected_version
      then (
        ok (written w d),
        record db { documents = update (is_expected w d.path) (written w) db.documents },
      )
      else (err conflict, db)
  set_outcome (d ∷ e ∷ l) db = (err conflict, db)

  set_by_rows :
      (db : Db) (l : List DocumentRow)
      → DocumentsValid db
      → any (λ x. x.id == w.workspace_id) db.workspaces ≡ true
      → matches host w.workspace_id w.path db.documents ≡ l
      → set_document_version host w db ≡ set_outcome l db
  unfolding set_document_version
  set_by_rows db [] v there h = elim (Bool-cases (is_some w.expected_version)) [
    | inl e ↦ ground (arith, document_version_row_lem host w.workspace_id w.path db {l = []} h)
    | inr e ↦
        let db' = record db { documents = db.documents ++ document_row w ∷ [] } in
        ground (
          arith,
          document_version_row_lem host w.workspace_id w.path db {l = []} h,
          insert_document_lem db (documents_ok-insert host w db v h there),
          document_version_row_lem host w.workspace_id w.path db' {l = document_row w ∷ []}
              (inserted_alone host w db.documents h),
        )
  ]
  set_by_rows db (d ∷ []) v there h =
      elim (Bool-cases (opt_str_eq (some d.version) w.expected_version)) [
        | inl e ↦
            let rows = update (is_expected w d.path) (written w) db.documents in
            ground (
              arith,
              document_version_row_lem host w.workspace_id w.path db {l = d ∷ []} h,
              rewrite_document_lem d.path db,
              document_version_row_lem host w.workspace_id w.path (record db { documents = rows })
                  {l = written w d ∷ []} (written_alone host w db.documents h e),
            )
        | inr e ↦
            ground (arith, document_version_row_lem host w.workspace_id w.path db {l = d ∷ []} h)
      ]
  set_by_rows db (d ∷ e ∷ l) v there h =
      ground (arith, document_version_row_lem host w.workspace_id w.path db {l = d ∷ e ∷ l} h)

  outdated_refused :
      (db : Db) {d : DocumentRow}
      → matches host w.workspace_id w.path db.documents ≡ d ∷ []
      → opt_str_eq (some d.version) w.expected_version ≡ false
      → set_document_version host w db ≡ (err conflict, db)
  unfolding set_document_version
  outdated_refused db {d} h e =
      ground (arith, document_version_row_lem host w.workspace_id w.path db {l = d ∷ []} h)

  -- In a database that meets its constraints and has the workspace, a write of a document is accepted
  -- exactly if the writer expects the version that the document has, or none where it has no row: then
  -- the row is there with what was written, and no other row changes. A document with several rows is
  -- a conflict, and every conflict leaves the database as it was.
  pub set_document_version_exact :
      (db : Db)
      → DocumentsValid db
      → any (λ x. x.id == w.workspace_id) db.workspaces ≡ true
      → set_document_version host w db
        ≡ set_outcome (matches host w.workspace_id w.path db.documents) db
  set_document_version_exact db v there = set_by_rows db _ v there refl

  version_left :
      (db : Db) (l : List DocumentRow)
      → matches host w.workspace_id w.path db.documents ≡ l
      → is_ok (set_outcome l db).0 ≡ true
      → (d : DocumentRow) × ((matches host w.workspace_id w.path (set_outcome l db).1.documents
            ≡ d ∷ [])
          × (d.version ≡ w.version))
  version_left db [] h k = elim (Bool-cases (is_some w.expected_version)) [
    | inl e ↦ ground arith
    | inr e ↦ (document_row w, (ground (arith, inserted_alone host w db.documents h), refl))
  ]
  version_left db (d ∷ []) h k =
      elim (Bool-cases (opt_str_eq (some d.version) w.expected_version)) [
        | inl e ↦ (written w d, (ground (arith, written_alone host w db.documents h e), refl))
        | inr e ↦ ground arith
      ]
  version_left db (d ∷ e ∷ l) h k = ground arith

-- In a database that meets its constraints and has the workspace, of two writers of a document one who does not expect the version that the other has just written is
-- refused with a conflict, and what is there stays.
pub set_document_version_outdated :
    (host : Host) (w later : DocumentWrite) (db : Db)
    → DocumentsValid db
    → any (λ x. x.id == w.workspace_id) db.workspaces ≡ true
    → later.workspace_id ≡ w.workspace_id
    → later.path ≡ w.path
    → opt_str_eq (some w.version) later.expected_version ≡ false
    → is_ok (set_document_version host w db).0 ≡ true
    → set_document_version host later (set_document_version host w db).1
      ≡ (err conflict, (set_document_version host w db).1)
set_document_version_outdated host w later db v there same_workspace same_path outdated done =
    let exact = set_document_version_exact host w db v there in
    let (d, (rows, version)) =
      version_left host w db (matches host w.workspace_id w.path db.documents) refl
        (ap (λ x. is_ok x.0) (sym exact) ∙ done) in
    outdated_refused host later (set_document_version host w db).1 {d = d}
      (rw same_workspace (rw same_path (rw exact rows))) (rw version outdated)
