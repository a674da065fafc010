-- ===== src/Mcp/Tests.antt =====
-- The theorems on the gateway at concrete values; a text is as many bytes as characters.
use notebook_launcher.Prelude.{
  ℕ, ◌≡◌, refl, String, Bool, true, false, none, some, List, [], ◌∷◌, leb, arith,
}
use notebook_launcher.Action.{ok}
use notebook_launcher.State.Rows.{AgentMode}
use notebook_launcher.Mcp.Largest.{largest_fitting, search_from, start}
use notebook_launcher.Mcp.Fitting.{
  Shrinks, IsEnded, largest_by_scan, largest_fitting_scan, search_from-IsEnded,
}
use notebook_launcher.Mcp.Lines.{
  Json, null, object, Entries, no_entries, entry, JsonTexts, structured_preview,
  encode_response_line,
}
use notebook_launcher.Mcp.Sized.{
  Fits, IsWritten, structured_preview_bounds, encode_response_line_bounds,
}
use notebook_launcher.Mcp.Requests.{Method, file_write, cell_read, Adapter, Gateway, Values}
use notebook_launcher.Mcp.Gate.{IsGuarded}
use notebook_launcher.Mcp.Reads.{
  IsHarmless, calls, dispatches, calls-IsHarmless, dispatches-IsGuarded,
}

abbrev small : ℕ → Bool
small n = leb n 5

small-Shrinks : Shrinks small
small-Shrinks m n h e = ground arith

largest_fitting_scan_example :
    largest_fitting (λ n. ok (small n)) 0 9 ≡ ok (largest_by_scan small 0 9)
largest_fitting_scan_example = largest_fitting_scan small 0 9 small-Shrinks

-- Ten lengths take four rounds.
search_from-IsEnded_example :
    IsEnded (λ n. ok (small n)) (search_from 4 (λ n. ok (small n)) (start 0 9))
search_from-IsEnded_example = search_from-IsEnded 4 (λ n. ok (small n)) (start 0 9) (omega arith)

abbrev json_texts : JsonTexts
json_texts = record {
  dump = λ v. "{}";
  dump_ascii = λ v. "{}";
  bytes = λ s. ok 2;
  length = λ s. 2;
  prefix = λ n s. s;
  text = λ v. "{}";
  is_finite = λ s. true;
}

abbrev response : Entries
response = entry "jsonrpc" (Json.string "2.0") (entry "id" null no_entries)

previewed : structured_preview json_texts (object response) 4 ≡ ok (object response)
unfolding structured_preview
previewed = refl

structured_preview_bounds_example : Fits json_texts 4 (object response)
structured_preview_bounds_example =
    structured_preview_bounds json_texts 4 (2, refl, omega arith) (2, refl, omega arith)
      (2, refl, omega arith) (object response) (object response) previewed

encode_response_line_bounds_example :
    IsWritten json_texts response 3 (encode_response_line json_texts response 3)
encode_response_line_bounds_example = encode_response_line_bounds json_texts response 3

abbrev gateway : Gateway String
gateway = record {
  mode = AgentMode.write;
  session_id = some 5;
  lease_id = some 6;
  attachment_validator = some (λ i h. ok tt);
  lease_validator = some (λ i l h. ok tt);
  backend = λ r h. ok "done";
  path_of = λ v. v;
  paths = record {
    slashes = λ s. s;
    is_absolute = λ s. false;
    parts = λ s. s ∷ [];
    as_posix = λ s. s;
  };
}

abbrev adapter : Adapter
adapter = record { active_notebook_path = "a.ipynb"; events = [] }

abbrev values : Values
values = record { get = λ k. some "b.txt"; limit = none }

abbrev script : List (Method × Values)
script = (file_write, values) ∷ (cell_read, values) ∷ []

calls-IsHarmless_example : IsHarmless (calls gateway script adapter)
calls-IsHarmless_example = calls-IsHarmless gateway script adapter refl

dispatches-IsGuarded_example : IsGuarded (dispatches gateway script adapter)
dispatches-IsGuarded_example = dispatches-IsGuarded gateway script adapter refl
