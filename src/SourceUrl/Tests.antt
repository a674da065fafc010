-- ===== src/SourceUrl/Tests.antt =====
-- A blob URL whose ref has a slash; the join keeps the last part.
use notebook_launcher.Prelude.{String, true, false, List, [], ◌∷◌}
use notebook_launcher.SourceUrl.{UrlTexts, ParsedBlobUrl}

abbrev last_part : List String → String
last_part [] = ""
last_part (x ∷ []) = x
last_part (x ∷ y ∷ rest) = last_part (y ∷ rest)

abbrev url_texts : UrlTexts
url_texts = record {
  unquote = λ s. s;
  is_absolute = λ s. false;
  parts = λ s. s ∷ [];
  as_posix = λ s. s;
  is_notebook = λ s. true;
  join = last_part;
}

abbrev blob : ParsedBlobUrl
blob = record { owner = "o"; repository = "r"; tail = "feature" ∷ "one" ∷ "n.ipynb" ∷ [] }
