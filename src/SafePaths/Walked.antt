-- ===== src/SafePaths/Walked.antt =====
-- safe_paths.py: the directories that are open on the way to the directory of a path.
use notebook_launcher.Prelude.{
  ℕ, ◌≡◌, refl, String, Bool, false, not, Option, List, [], ◌∷◌, arith, All,
}
use notebook_launcher.Action.{Action, Result, ok, err, host_path_escape, raise_if, ◌>>=◌, ◌>>◌}
use notebook_launcher.Action.Parts.{after_reader}
use notebook_launcher.SafePaths.{RootIdentity, is_unsafe_part}
use notebook_launcher.SafePaths.Posix.{
  Calls, System, opened_root, noted, closing, open_component, walk, check_root, with_parent_fd,
  parents, is_unexpected,
}
use notebook_launcher.SafePaths.Handles.{
  Extends, IsConfined, IsOpen, Kept, Opens, closing-Kept, open_component-Opens, open_directories,
}

check_root_keeps :
    (y : System) (expected : Option RootIdentity) (fd : ℕ) (w : Calls)
    → (check_root y expected fd w).1 ≡ w
check_root_keeps y expected fd w =
    after_reader (λ p. p.1 ≡ w)
      (λ info.
        raise_if (not info.is_directory) host_path_escape
        >> raise_if (is_unexpected y expected info.identity) host_path_escape)
      w (λ calls. (y.fstat calls fd, calls)) refl (λ e q. refl) (λ info q. ground arith)

-- What a body does that is run in an open directory, at any later time.
abbrev pub IsOrderly : {A : Type 0} → Calls → (ℕ → Action Calls A) → Type 0
IsOrderly w body =
    (fd : ℕ) (w' : Calls) → IsConfined w' → IsOpen fd w' → Extends w w' → Kept w' (body fd w')

top_IsOpen : (fd : ℕ) (w w' : Calls) → open_directories w' ≡ fd ∷ open_directories w → IsOpen fd w'
top_IsOpen fd w w' top = rw top (ground arith)

top-Extends : (fd : ℕ) (w w' : Calls) → open_directories w' ≡ fd ∷ open_directories w → Extends w w'
top-Extends fd w w' top x there = rw top (ground (arith, there))

module _ (y : System) {A : Type 0} (create : Bool) (body : ℕ → Action Calls A) (base : Calls)
    (orderly : IsOrderly base body) where
  walk-Kept :
      (names : List String) (fd : ℕ) (w : Calls)
      → All (λ name. is_unsafe_part name ≡ false) names
      → IsConfined w
      → IsOpen fd w
      → Extends base w
      → Kept w (walk y create fd names body w)
  unfolding walk
  walk-Kept [] fd w safe confined there later = orderly fd w confined there later
  walk-Kept (name ∷ names) fd w (safe, others) confined there later =
      go (open_component y create fd name w).0 (open_component y create fd name w).1
        (open_component-Opens y fd name create w (there, safe) confined)
        (λ next w'. walk-Kept names next w' others)
    where
      go :
          (r : Result ℕ) (w' : Calls)
          → Opens y fd name w (r, w')
          → ((next : ℕ) (w' : Calls)
              → IsConfined w'
              → IsOpen next w'
              → Extends base w'
              → Kept w' (walk y create next names body w'))
          → Kept w (
              ((λ (_ : Calls). (r, w')) >>= λ next. closing next (walk y create next names body)) w)
      go (ok next) w' (top, confined') rest =
          closing-Kept next (walk y create next names body) w w' top (
            rest next w' confined' (top_IsOpen next w w' top)
              (λ x h. top-Extends next w w' top x (later x h)))
      go (err e) w' (same, confined') rest = (same, confined')

  -- With the parent of a path open the body keeps the directories that are open.
  pub with_parent_fd-Kept :
      (root : String) (parts : List String) (expected : Option RootIdentity)
      → All (λ name. is_unsafe_part name ≡ false) (parents parts)
      → IsConfined base
      → Kept base (with_parent_fd y create root parts expected body base)
  unfolding with_parent_fd
  with_parent_fd-Kept root parts expected safe confined = go (y.open_root base root)
    where
      inside : ℕ → Action Calls A
      inside fd = check_root y expected fd >> walk y create fd (parents parts) body

      entered : (fd : ℕ) → let w = opened_root root fd ∷ base in Kept w (inside fd w)
      entered fd =
          let w = opened_root root fd ∷ base in
          after_reader (Kept w) (λ _. walk y create fd (parents parts) body) w
            (check_root y expected fd) (check_root_keeps y expected fd w) (λ e q. (refl, confined))
            (λ u q.
              walk-Kept (parents parts) fd w safe confined (top_IsOpen fd base w refl)
                (top-Extends fd base w refl))

      go :
          (r : Result ℕ)
          → Kept base (
              ((λ (_ : Calls). noted (λ fd. opened_root root fd) r base) >>= λ fd.
              closing fd (inside fd))
                base)
      go (ok fd) = closing-Kept fd (inside fd) base (opened_root root fd ∷ base) refl (entered fd)
      go (err e) = (refl, confined)
