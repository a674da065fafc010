-- ===== src/State/Documents.antt =====
-- state.py: the optimistic versions of the documents of a workspace.
use notebook_launcher.Prelude.{
  ℕ, String, Bool, not, ◌&&◌, Option, none, some, List, [], ◌∷◌, ◌++◌, ◌==◌, ltb, is_some, length,
  str_eq, opt_str_eq, select, update, if◌then◌else◌,
}
use notebook_launcher.Action.{
  Action, conflict, key_error, pure, gets, raise_if, or_raise, modify, atomically, ◌>>=◌, ◌>>◌,
}
use notebook_launcher.State.{Db, set_documents}
use notebook_launcher.State.Rows.{DocumentKind, DocumentRow}

-- What the code asks of its host: `os.name == "nt"` and `str.casefold`.
pub record Host : Type 0 where
  pub is_nt : Bool
  pub casefold : String → String

abbrev pub document_path_key : Host → String → String
document_path_key host path = if host.is_nt then host.casefold path else path

abbrev pub in_workspace : ℕ → DocumentRow → Bool
in_workspace workspace_id d = d.workspace_id == workspace_id

abbrev pub has_key : Host → String → DocumentRow → Bool
has_key host path d = str_eq (document_path_key host d.path) (document_path_key host path)

abbrev pub first {ℓ} : {A : Type ℓ} → List A → Option A
first [] = none
first (x ∷ _) = some x

-- the rows that `_document_version_row` calls `matches`
abbrev pub matches : Host → ℕ → String → List DocumentRow → List DocumentRow
matches host workspace_id path rows =
    select (has_key host path) (select (in_workspace workspace_id) rows)

unfoldable pub document_version_row : Host → ℕ → String → Action Db (Option DocumentRow)
document_version_row host workspace_id path = do
  rows ← gets (λ db. db.documents)
  raise_if (ltb 1 (length (matches host workspace_id path rows))) conflict
  pure (first (matches host workspace_id path rows))

unfoldable pub get_document_version : Host → ℕ → String → Action Db (Option DocumentRow)
get_document_version host workspace_id path = document_version_row host workspace_id path

-- What a writer gives: the columns of the row and the version it has read.
pub record DocumentWrite : Type 0 where
  pub workspace_id : ℕ
  pub path : String
  pub kind : DocumentKind
  pub version : String
  pub content_digest : Option String
  pub expected_version : Option String
  pub now : ℕ

abbrev pub document_row : DocumentWrite → DocumentRow
document_row w = record {
  workspace_id = w.workspace_id;
  path = w.path;
  kind = w.kind;
  version = w.version;
  content_hash = w.content_digest;
  updated_at = w.now;
}

abbrev pub written : DocumentWrite → DocumentRow → DocumentRow
written w d = record d {
  kind = w.kind;
  version = w.version;
  content_hash = w.content_digest;
  updated_at = w.now;
}

-- `WHERE workspace_id = ? AND path = ? AND version = ?`
abbrev pub is_expected : DocumentWrite → String → DocumentRow → Bool
is_expected w path d =
    d.workspace_id == w.workspace_id
    && str_eq d.path path
    && opt_str_eq (some d.version) w.expected_version

-- Whether the row that was found is not the one that the writer has read.
abbrev pub is_outdated : DocumentWrite → Option DocumentRow → Bool
is_outdated w none = is_some w.expected_version
is_outdated w (some d) = not (opt_str_eq (some d.version) w.expected_version)

unfoldable pub insert_document : DocumentWrite → Action Db (Unit {0})
insert_document w = do rows ← gets (λ db. db.documents); set_documents (rows ++ document_row w ∷ [])

unfoldable pub rewrite_document : DocumentWrite → String → Action Db (Unit {0})
rewrite_document w path =
    modify (λ db. record db { documents = update (is_expected w path) (written w) db.documents })

unfoldable pub set_document_version : Host → DocumentWrite → Action Db DocumentRow
set_document_version host w = atomically (do
  row ← document_version_row host w.workspace_id w.path
  raise_if (is_outdated w row) conflict
  elim row [ none ↦ insert_document w | some d ↦ rewrite_document w d.path ]
  updated ← document_version_row host w.workspace_id w.path
  or_raise updated key_error)
