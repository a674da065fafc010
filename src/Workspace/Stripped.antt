-- ===== src/Workspace/Stripped.antt =====
-- workspace.py: a notebook and its copy without outputs.
use notebook_launcher.Prelude.{
  ◌≡◌, refl, ap, sym, ◌∙◌, String, true, false, arith, str_eq, str_eq_refl, eq_iff, Bool-cases, inl,
  inr,
}
use notebook_launcher.Action.{Result, ok, err}
use notebook_launcher.Mcp.Lines.{
  Json, null, boolean, number, string, array, object, Items, no_items, item, Entries, no_entries,
  entry, get_or,
}
use notebook_launcher.Workspace.Outputs.{
  set_key, is_code, without_outputs, clear_cells, with_cells, clear_notebook,
}

get_or-set_key_same :
    (key : String) (value other : Json) (e : Entries)
    → get_or key other (set_key key value e) ≡ value
unfolding set_key
get_or-set_key_same key value other no_entries = rw (str_eq_refl key) refl
get_or-set_key_same key value other (entry k v rest) = elim (Bool-cases (str_eq k key)) [
  | inl e ↦ ground arith
  | inr e ↦ ground (arith, get_or-set_key_same key value other rest)
]

get_or-set_key_other :
    (key name : String) (value other : Json) (e : Entries)
    → str_eq key name ≡ false
    → get_or name other (set_key key value e) ≡ get_or name other e
unfolding set_key
get_or-set_key_other key name value other no_entries apart = rw apart refl
get_or-set_key_other key name value other (entry k v rest) apart =
    elim (Bool-cases (str_eq k key)) [
      | inl e ↦
          let differs : str_eq k name ≡ false = rw ((eq_iff k key).0 e) apart in
          rw (e, differs) refl
      | inr e ↦ ground (arith, get_or-set_key_other key name value other rest apart)
    ]

-- The entry of any other name is that of before.
abbrev pub SameBut : String → Entries → Entries → Type 0
SameBut key e e' =
    (name : String) (other : Json)
    → str_eq key name ≡ false
    → get_or name other e' ≡ get_or name other e

-- What a cell is to become.
abbrev pub IsCleared : Json → Json → Type 0
IsCleared (object e) (object e') =
    (is_code (get_or "cell_type" null e) ≡ false → e' ≡ e)
    × (is_code (get_or "cell_type" null e) ≡ true
        → (get_or "outputs" null e' ≡ array no_items)
          × (get_or "execution_count" (string "") e' ≡ null)
          × ((name : String) (other : Json)
              → str_eq "outputs" name ≡ false
              → str_eq "execution_count" name ≡ false
              → get_or name other e' ≡ get_or name other e))
IsCleared cell cell' = cell' ≡ cell

abbrev pub AreCleared : Items → Items → Type 0
AreCleared no_items no_items = Unit
AreCleared (item cell rest) (item cell' rest') = IsCleared cell cell' × AreCleared rest rest'
AreCleared _ _ = ⊥

without_outputs-IsCleared : (cell : Json) → IsCleared cell (without_outputs cell)
unfolding without_outputs
without_outputs-IsCleared (object e) = (
  λ other. rw other refl,
  λ code. rw code (
    get_or-set_key_other "execution_count" "outputs" null null
          (set_key "outputs" (array no_items) e) refl
        ∙ get_or-set_key_same "outputs" (array no_items) null e,
    get_or-set_key_same "execution_count" null (string "") (set_key "outputs" (array no_items) e),
    λ name other not_outputs not_count.
        get_or-set_key_other "execution_count" name null other
          (set_key "outputs" (array no_items) e) not_count
        ∙ get_or-set_key_other "outputs" name (array no_items) other e not_outputs,
  ),
)
without_outputs-IsCleared null = refl
without_outputs-IsCleared (boolean b) = refl
without_outputs-IsCleared (number n) = refl
without_outputs-IsCleared (string s) = refl
without_outputs-IsCleared (array l) = refl

clear_cells-AreCleared : (l : Items) → AreCleared l (clear_cells l)
unfolding clear_cells
clear_cells-AreCleared no_items = tt
clear_cells-AreCleared (item cell rest) =
    (without_outputs-IsCleared cell, clear_cells-AreCleared rest)

-- The notebook with cleared cells.
abbrev pub IsStripped : Entries → Json → Type 0
IsStripped document (object document') =
    (cells : Items) × (cells' : Items) × (get_or "cells" null document ≡ array cells)
    × (get_or "cells" null document' ≡ array cells')
    × AreCleared cells cells'
    × SameBut "cells" document document'
IsStripped document _ = ⊥

abbrev json_or : Json → Result Json → Json
json_or d (ok j) = j
json_or d (err e) = d

stripped :
    (document : Entries) (cells result : Json)
    → get_or "cells" null document ≡ cells
    → with_cells document cells ≡ ok result
    → IsStripped document result
stripped document (array cells) result here done =
    let same : result ≡ object (set_key "cells" (array (clear_cells cells)) document) =
      sym (ap (json_or result) done) in
    rw same (
      cells,
      clear_cells cells,
      here,
      get_or-set_key_same "cells" (array (clear_cells cells)) null document,
      clear_cells-AreCleared cells,
      λ name other apart.
          get_or-set_key_other "cells" name (array (clear_cells cells)) other document apart,
    )
stripped document null result here done = cc
stripped document (boolean b) result here done = cc
stripped document (number n) result here done = cc
stripped document (string s) result here done = cc
stripped document (object e) result here done = cc

-- Where it can be made, a notebook without its outputs has the same entries and the same cells in the same order, but that
-- each code cell has no outputs and no execution count.
pub clear_notebook-IsStripped :
    (document : Entries) (result : Json)
    → clear_notebook (object document) ≡ ok result
    → IsStripped document result
unfolding clear_notebook
clear_notebook-IsStripped document result done =
    stripped document (get_or "cells" null document) result refl done
