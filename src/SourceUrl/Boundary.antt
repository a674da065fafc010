-- ===== src/SourceUrl/Boundary.antt =====
-- The longest known ref wins.
use notebook_launcher.Prelude.{
  ℕ, suc, ◌<◌, ◌≡◌, String, Bool, true, false, Option, none, some, List, [], ◌∷◌, ◌++◌, ltb, refl,
  arith,
}
use notebook_launcher.Action.{Result, ok, err, value_error}
use notebook_launcher.SourceUrl.{
  UrlTexts, ParsedBlobUrl, ParsedGitHubSource, Candidate, normalize_notebook_path, candidate,
  longest,
}

abbrev pub prefer : {A : Type 0} → Option A → Option A → Option A
prefer (some a) o = some a
prefer none o = o

abbrev pub first_of : List Candidate → Option Candidate
first_of [] = none
first_of (c ∷ l) = some c

ltb-true : (m n : ℕ) → m < n → ltb m n ≡ true
ltb-true m n h = ground arith

module _ (t : UrlTexts) (known : String → Bool) where
  -- The boundary behind as many parts as can be.
  abbrev pub last_boundary : ℕ → List String → List String → Option Candidate
  last_boundary n ref [] = none
  last_boundary n ref (x ∷ []) = none
  last_boundary n ref (x ∷ y ∷ rest) = prefer (last_boundary (suc n) (ref ++ (x ∷ [])) (y ∷ rest)) (
      first_of (
        candidate t (suc n) (known (t.join (ref ++ (x ∷ [])))) (t.join (ref ++ (x ∷ [])))
          (normalize_notebook_path t (t.join (y ∷ rest)))))

  -- Each boundary from here on is behind more than `n` parts.
  abbrev IsBeyond : ℕ → Option Candidate → Type 0
  IsBeyond n none = Unit
  IsBeyond n (some c) = n < c.0

  step :
      (n : ℕ) (b : Bool) (ref : String) (path : Result String) (o : Option Candidate)
      (l : List Candidate)
      → longest l ≡ o
      → IsBeyond (suc n) o
      → (longest (candidate t (suc n) b ref path ++ l)
          ≡ prefer o (first_of (candidate t (suc n) b ref path)))
        × IsBeyond n (prefer o (first_of (candidate t (suc n) b ref path)))
  unfolding longest
  step n true ref (ok path) none l e h = (rw e refl, omega arith)
  step n true ref (ok path) (some c) l e h = (rw (e, ltb-true (suc n) c.0 h) refl, omega (arith, h))
  step n true ref (err f) none l e h = (e, tt)
  step n true ref (err f) (some c) l e h = (e, omega (arith, h))
  step n false ref path none l e h = (e, tt)
  step n false ref path (some c) l e h = (e, omega (arith, h))

-- The source of a boundary: the owner and the repository of the URL, the ref before the boundary and the
-- path behind it.
abbrev pub IsSourceAt : ParsedBlobUrl → Option Candidate → Result ParsedGitHubSource → Type 0
IsSourceAt blob none (ok s) = ⊥
IsSourceAt blob none (err e) = e ≡ value_error "could not resolve GitHub ref/path boundary"
IsSourceAt blob (some (n, (ref, path))) (ok s) =
    (s.owner ≡ blob.owner)
    × (s.repository ≡ blob.repository)
    × (s.requested_ref ≡ ref)
    × (s.notebook_path ≡ path)
IsSourceAt blob (some _) (err e) = ⊥
