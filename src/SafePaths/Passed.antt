-- ===== src/SafePaths/Passed.antt =====
-- safe_paths.py: the parts of a path that is accepted.
use notebook_launcher.Prelude.{
  ◌≡◌, refl, ap, sym, String, Bool, true, false, List, [], ◌∷◌, arith, any, All, if◌then◌else◌,
  Bool-cases, inl, inr,
}
use notebook_launcher.Action.{Result, ok, err, host_path_escape}
use notebook_launcher.SafePaths.{PathTexts, is_unsafe_part, checked_parts, safe_relative_parts}
use notebook_launcher.SafePaths.Posix.{parents, final_part}

All-safe :
    (l : List String) → any is_unsafe_part l ≡ false → All (λ name. is_unsafe_part name ≡ false) l
All-safe [] h = tt
All-safe (part ∷ l) h = (ground (arith, h), All-safe l (ground (arith, h)))

parents-All :
    (l : List String)
    → All (λ name. is_unsafe_part name ≡ false) l
    → All (λ name. is_unsafe_part name ≡ false) (parents l)
parents-All [] h = tt
parents-All (part ∷ []) h = tt
parents-All (part ∷ next ∷ rest) (safe, h) = (safe, parents-All (next ∷ rest) h)

-- The parts of a path that is accepted: the way to its directory, and its name there.
abbrev pub ArePassed : List String → Type 0
ArePassed parts =
    All (λ name. is_unsafe_part name ≡ false) (parents parts)
    × (is_unsafe_part (final_part parts) ≡ false)

final_safe :
    (part : String) (l : List String)
    → All (λ name. is_unsafe_part name ≡ false) (part ∷ l)
    → is_unsafe_part (final_part (part ∷ l)) ≡ false
final_safe part [] (safe, h) = safe
final_safe part (next ∷ l) (safe, h) = final_safe next l h

abbrev parts_or : List String → Result (List String) → List String
parts_or l (ok parts) = parts
parts_or l (err e) = l

passed :
    (unsafe colon : Bool) (l parts : List String)
    → (if unsafe then err host_path_escape else if colon then err host_path_escape else ok l)
      ≡ ok parts
    → (unsafe ≡ false → ArePassed l)
    → ArePassed parts
passed true colon l parts h safe = cc
passed false true l parts h safe = cc
passed false false l parts h safe =
    let same : l ≡ parts = ap (parts_or l) h in rw (sym same) (safe refl)

checked_parts-ArePassed :
    (t : PathTexts) (l parts : List String) → checked_parts t l ≡ ok parts → ArePassed parts
checked_parts-ArePassed t [] parts h = cc
checked_parts-ArePassed t (part ∷ rest) parts h =
    passed (any is_unsafe_part (part ∷ rest)) (t.has_colon part) (part ∷ rest) parts h λ safe.
      let all = All-safe (part ∷ rest) safe in
      (parents-All (part ∷ rest) all, final_safe part rest all)

pub safe_relative_parts-ArePassed :
    (t : PathTexts) (relative : String) (parts : List String)
    → safe_relative_parts t relative ≡ ok parts
    → ArePassed parts
unfolding safe_relative_parts
safe_relative_parts-ArePassed t relative parts h =
    elim (Bool-cases (t.is_absolute (t.slashes relative))) [
      | inl e ↦ (let q : err host_path_escape ≡ ok parts = rw e at h in cc)
      | inr e ↦ checked_parts-ArePassed t (t.parts (t.slashes relative)) parts (rw e at h)
    ]
