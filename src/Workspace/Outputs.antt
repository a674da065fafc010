-- ===== src/Workspace/Outputs.antt =====
-- workspace.py: `_without_notebook_outputs`. Python's `json` is a parameter: `loads` answers no value
-- where it raises an error that the code catches, and `dumps` is the compact text in bytes.
use notebook_launcher.Prelude.{String, Bool, false, Option, none, some, str_eq, if◌then◌else◌}
use notebook_launcher.Action.{Result, ok, err, value_error}
use notebook_launcher.Mcp.Lines.{
  Json, null, boolean, number, string, array, object, Items, no_items, item, Entries, no_entries,
  entry, get_or,
}

-- `mapping[key] = value`
unfoldable pub set_key : String → Json → Entries → Entries
set_key key value no_entries = entry key value no_entries
set_key key value (entry k v rest) =
    let later = set_key key value rest in
    if str_eq k key then entry k value rest else entry k v later

abbrev pub is_code : Json → Bool
is_code (string s) = str_eq s "code"
is_code _ = false

-- A cell's fields without its outputs.
abbrev pub cleared : Entries → Entries
cleared e = set_key "execution_count" null (set_key "outputs" (array no_items) e)

unfoldable pub without_outputs : Json → Json
without_outputs (object e) = object (if is_code (get_or "cell_type" null e) then cleared e else e)
without_outputs null = null
without_outputs (boolean b) = boolean b
without_outputs (number n) = number n
without_outputs (string s) = string s
without_outputs (array l) = array l

-- the loop over `cells`
unfoldable pub clear_cells : Items → Items
clear_cells no_items = no_items
clear_cells (item cell rest) = item (without_outputs cell) (clear_cells rest)

abbrev pub invalid_notebook : {A : Type 0} → Result A
invalid_notebook = err (value_error "source_path does not contain a valid notebook")

-- `document["cells"]`, which is missing as `null` here: neither is a list.
abbrev pub with_cells : Entries → Json → Result Json
with_cells document (array cells) =
    ok (object (set_key "cells" (array (clear_cells cells)) document))
with_cells document null = invalid_notebook
with_cells document (boolean b) = invalid_notebook
with_cells document (number n) = invalid_notebook
with_cells document (string s) = invalid_notebook
with_cells document (object e) = invalid_notebook

unfoldable pub clear_notebook : Json → Result Json
clear_notebook (object document) = with_cells document (get_or "cells" null document)
clear_notebook null = invalid_notebook
clear_notebook (boolean b) = invalid_notebook
clear_notebook (number n) = invalid_notebook
clear_notebook (string s) = invalid_notebook
clear_notebook (array l) = invalid_notebook

abbrev pub dumped : (Json → String) → Result Json → Result String
dumped dumps (ok document) = ok (dumps document)
dumped dumps (err e) = err e

unfoldable pub without_notebook_outputs :
    (String → Option Json) → (Json → String) → String → Result String
without_notebook_outputs loads dumps bytes = elim (loads bytes) [
  | none ↦ invalid_notebook
  | some document ↦ dumped dumps (clear_notebook document)
]
