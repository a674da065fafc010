-- ===== src/SourceUrl.antt =====
-- source.py: which part of a GitHub URL is the ref and which the notebook. Python's text and path
-- functions are a parameter.
pub mod Boundary
mod Tests
use notebook_launcher.Prelude.{
  ℕ, suc, String, Bool, true, false, not, ◌&&◌, ◌||◌, Option, none, some, List, [], ◌∷◌, ◌++◌, any,
  leb, ltb, str_eq, if◌then◌else◌,
}
use notebook_launcher.Action.{Result, ok, err, value_error}

-- `unquote`, `is_absolute`, `parts` and `as_posix` of a `PurePosixPath`, whether the lower case of a
-- text ends with ".ipynb", and `"/".join`.
pub record UrlTexts : Type 0 where
  pub unquote : String → String
  pub is_absolute : String → Bool
  pub parts : String → List String
  pub as_posix : String → String
  pub is_notebook : String → Bool
  pub join : List String → String

pub record ParsedBlobUrl : Type 0 where
  pub owner : String
  pub repository : String
  pub tail : List String

pub record ParsedGitHubSource : Type 0 where
  pub owner : String
  pub repository : String
  pub requested_ref : String
  pub notebook_path : String

-- The number of parts of a ref, the ref, and the notebook's path.
abbrev pub Candidate : Type 0
Candidate = ℕ × (String × String)

abbrev pub is_empty_list : List String → Bool
is_empty_list [] = true
is_empty_list (x ∷ l) = false

module _ (t : UrlTexts) where
  abbrev pub is_unsafe : List String → Bool
  is_unsafe parts =
      is_empty_list parts || any (λ q. str_eq q "" || str_eq q "." || str_eq q "..") parts

  unfoldable pub normalize_notebook_path : String → Result String
  normalize_notebook_path value =
      let path = t.unquote value in
      if t.is_absolute path
      then err (value_error "absolute notebook path is not allowed")
      else if is_unsafe (t.parts path)
      then err (value_error "unsafe notebook path")
      else if not (t.is_notebook (t.as_posix path))
      then err (value_error "target must be an .ipynb file")
      else ok (t.as_posix path)

  -- The candidate of this boundary, if the ref is known and the path is one of a notebook.
  abbrev pub candidate : ℕ → Bool → String → Result String → List Candidate
  candidate n true ref (ok path) = (n, (ref, path)) ∷ []
  candidate n true ref (err e) = []
  candidate n false ref path = []

  -- `for split_at in range(1, len(blob.tail))`, where `n` parts are before the boundary.
  unfoldable pub candidates : (String → Bool) → ℕ → List String → List String → List Candidate
  candidates known n ref [] = []
  candidates known n ref (x ∷ []) = []
  candidates known n ref (x ∷ y ∷ rest) =
      candidate (suc n) (known (t.join (ref ++ (x ∷ [])))) (t.join (ref ++ (x ∷ [])))
        (normalize_notebook_path (t.join (y ∷ rest)))
      ++ candidates known (suc n) (ref ++ (x ∷ [])) (y ∷ rest)

-- `max(candidates, key=…)`, the first of the greatest
abbrev pub greater : Candidate → Option Candidate → Candidate
greater c none = c
greater c (some d) = if ltb c.0 d.0 then d else c

unfoldable pub longest : List Candidate → Option Candidate
longest [] = none
longest (c ∷ l) = some (greater c (longest l))

module _ (t : UrlTexts) where
  abbrev pub resolved : ParsedBlobUrl → Option Candidate → Result ParsedGitHubSource
  resolved blob none = err (value_error "could not resolve GitHub ref/path boundary")
  resolved blob (some c) = ok (record {
    owner = blob.owner;
    repository = blob.repository;
    requested_ref = c.1.0;
    notebook_path = c.1.1;
  })

  unfoldable pub resolve_blob_tail : ParsedBlobUrl → (String → Bool) → Result ParsedGitHubSource
  resolve_blob_tail blob known = resolved blob (longest (candidates t known 0 [] blob.tail))
