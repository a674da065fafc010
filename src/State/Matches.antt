-- ===== src/State/Matches.antt =====
-- The version rows of a document: how they are found, and what a write makes of them.
use notebook_launcher.Prelude.{
  ℕ, ◌≡◌, String, Bool, true, false, some, List, [], ◌∷◌, ◌++◌, ◌==◌, arith, ltb, length, any, all,
  select, update, str_eq, str_eq_refl, eq_iff, opt_str_eq, if◌then◌else◌, refl, ap,
}
use notebook_launcher.Action.{ok, err, conflict}
use notebook_launcher.State.{Db, documents_ok, same_document}
use notebook_launcher.State.Rows.{DocumentRow}
use notebook_launcher.State.Documents.{
  Host, document_path_key, in_workspace, has_key, DocumentWrite, matches, first,
  document_version_row, document_row, written, is_expected,
}
use notebook_launcher.State.Indexes.{all-append, unique-append}

abbrev pub DocumentsValid : Db → Type 0
DocumentsValid db = documents_ok db.workspaces db.documents ≡ true

select-append :
    {A : Type 0} (p : A → Bool) (xs ys : List A) → select p (xs ++ ys) ≡ select p xs ++ select p ys
select-append p [] ys = refl
select-append p (x ∷ xs) ys = ground (arith, select-append p xs ys)

select-update :
    {A : Type 0} (q p : A → Bool) (f : A → A)
    → ((x : A) → q (if p x then f x else x) ≡ q x)
    → (xs : List A) → select q (update p f xs) ≡ update p f (select q xs)
select-update q p f h [] = refl
select-update q p f h (x ∷ xs) = ground (arith, h x, select-update q p f h xs)

all-select-true : {A : Type 0} (p : A → Bool) (xs : List A) → all p (select p xs) ≡ true
all-select-true p [] = refl
all-select-true p (x ∷ xs) = ground (arith, all-select-true p xs)

all-select :
    {A : Type 0} (q p : A → Bool) (xs : List A) → all q xs ≡ true → all q (select p xs) ≡ true
all-select q p [] h = refl
all-select q p (x ∷ xs) h = ground (arith, all-select q p xs)

pub document_version_row_lem :
    (host : Host) (i : ℕ) (path : String) (db : Db) {l : List DocumentRow}
    → matches host i path db.documents ≡ l
    → document_version_row host i path db
      ≡ (if ltb 1 (length l) then err conflict else ok (first l), db)
unfolding document_version_row
document_version_row_lem host i path db {l} h = ground arith

module _ (host : Host) (w : DocumentWrite) where
  in_rows :
      (rows : List DocumentRow) {d : DocumentRow}
      → matches host w.workspace_id w.path rows ≡ d ∷ []
      → in_workspace w.workspace_id d ≡ true
  in_rows rows {d} h = ground (
    arith,
    h,
    all-select (in_workspace w.workspace_id) (has_key host w.path)
        (select (in_workspace w.workspace_id) rows),
    all-select-true (in_workspace w.workspace_id) rows,
  )

  pub written_alone :
      (rows : List DocumentRow) {d : DocumentRow}
      → matches host w.workspace_id w.path rows ≡ d ∷ []
      → opt_str_eq (some d.version) w.expected_version ≡ true
      → matches host w.workspace_id w.path (update (is_expected w d.path) (written w) rows)
        ≡ written w d ∷ []
  written_alone rows {d} h e = ground (
    arith,
    h,
    str_eq_refl d.path,
    in_rows rows h,
    select-update (in_workspace w.workspace_id) (is_expected w d.path) (written w)
        (λ x. ground arith) rows,
    select-update (has_key host w.path) (is_expected w d.path) (written w) (λ x. ground arith)
        (select (in_workspace w.workspace_id) rows),
  )

  pub inserted_alone :
      (rows : List DocumentRow)
      → matches host w.workspace_id w.path rows ≡ []
      → matches host w.workspace_id w.path (rows ++ document_row w ∷ []) ≡ document_row w ∷ []
  inserted_alone rows h = ground (
    arith,
    h,
    str_eq_refl (document_path_key host w.path),
    select-append (in_workspace w.workspace_id) rows (document_row w ∷ []),
    select-append (has_key host w.path) (select (in_workspace w.workspace_id) rows)
        (document_row w ∷ []),
  )

  no_same_document :
      (rows : List DocumentRow)
      → matches host w.workspace_id w.path rows ≡ []
      → any (λ d. same_document d (document_row w)) rows ≡ false
  no_same_document [] h = refl
  no_same_document (d ∷ rows) h = ground (arith, no_same_document rows, same_key d)
    where
      same_key : (d : DocumentRow) → str_eq d.path w.path ≡ true → has_key host w.path d ≡ true
      same_key d e = ground (
        arith,
        ap (document_path_key host) ((eq_iff d.path w.path).0 e),
        str_eq_refl (document_path_key host w.path),
      )

  pub documents_ok-insert :
      (db : Db)
      → DocumentsValid db
      → matches host w.workspace_id w.path db.documents ≡ []
      → any (λ x. x.id == w.workspace_id) db.workspaces ≡ true
      → documents_ok db.workspaces (db.documents ++ document_row w ∷ []) ≡ true
  unfolding documents_ok
  documents_ok-insert db v h there = ground (
    arith,
    unique-append same_document db.documents (document_row w),
    all-append (λ d. any (λ x. x.id == d.workspace_id) db.workspaces) db.documents
        (document_row w ∷ []),
    no_same_document db.documents h,
  )
