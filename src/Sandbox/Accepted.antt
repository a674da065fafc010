-- ===== src/Sandbox/Accepted.antt =====
-- sandbox.py: the single tests of a policy, where they pass.
use notebook_launcher.Prelude.{
  ℕ, ◌≤◌, ◌≡◌, ◌≢◌, refl, String, Bool, true, false, List, [], ◌∷◌, arith, any, All, str_eq, eq_iff,
}
use notebook_launcher.Action.{Result, ok, err}
use notebook_launcher.Sandbox.{
  SandboxTexts, refuse, ◌⨟◌, each, validate_container_path, check_destinations, is_port,
}
use notebook_launcher.Sandbox.Policy.{with_path}

pub ⨟-ok :
    {A : Type 0} {a : A} (r : Result (Unit {0})) (rest : Result A)
    → (r ⨟ rest) ≡ ok a
    → (r ≡ ok tt) × (rest ≡ ok a)
⨟-ok (ok u) rest h = (refl, h)
⨟-ok (err e) rest h = cc

pub refuse_ok : (c : Bool) (message : String) → refuse c message ≡ ok tt → c ≡ false
refuse_ok true message h = cc
refuse_ok false message h = refl

pub each_ok :
    {A : Type 0} (f : A → Result (Unit {0})) (l : List A)
    → each f l ≡ ok tt
    → All (λ x. f x ≡ ok tt) l
each_ok f [] h = tt
each_ok f (x ∷ l) h = let (first, rest) = ⨟-ok (f x) (each f l) h in (first, each_ok f l rest)

pub All-map :
    {A : Type 0} (P Q : A → Type 0) → ((x : A) → P x → Q x) → (l : List A) → All P l → All Q l
All-map P Q f [] h = tt
All-map P Q f (x ∷ l) (p, h) = (f x p, All-map P Q f l h)

pub with_path_ok :
    (r : Result String) (f : String → Result (Unit {0}))
    → with_path r f ≡ ok tt
    → (path : String) × (r ≡ ok path) × (f path ≡ ok tt)
with_path_ok (ok path) f h = (path, refl, h)
with_path_ok (err e) f h = cc

-- No two mounts have the same container path.
abbrev pub AreDistinct : List (String × String) → Type 0
AreDistinct [] = Unit
AreDistinct ((_, container) ∷ l) = All (λ m. m.1 ≢ container) l × AreDistinct l

abbrev pub IsPort : ℕ → Type 0
IsPort port = (1 ≤ port) × (port ≤ 65535)

pub is_port-IsPort : (port : ℕ) → is_port port ≡ true → IsPort port
is_port-IsPort port h = (ground (arith, h), ground (arith, h))

module _ {D : Type 0} (t : SandboxTexts D) where
  not_seen :
      (seen : List String) (container other : String)
      → any (str_eq other) (container ∷ seen) ≡ false
      → (other ≢ container) × (any (str_eq other) seen ≡ false)
  not_seen seen container other h = (
    λ e.
        (let q : str_eq other container ≡ true = (eq_iff other container).1 e in ground (arith, q)),
    ground arith,
  )

  pub check_destinations-AreDistinct :
      (seen : List String) (l : List (String × String))
      → check_destinations t seen l ≡ ok tt
      → All (λ m. any (str_eq m.1) seen ≡ false) l × AreDistinct l
  unfolding check_destinations
  check_destinations-AreDistinct seen [] h = (tt, tt)
  check_destinations-AreDistinct seen ((host, container) ∷ l) h =
      let (path, rest) = ⨟-ok (validate_container_path t container) _ h in
      let (unseen, others) =
        ⨟-ok (refuse (any (str_eq container) seen) "duplicate container mount destination")
          (check_destinations t (container ∷ seen) l) rest in
      let (apart, distinct) = check_destinations-AreDistinct (container ∷ seen) l others in
      (
        (
          refuse_ok (any (str_eq container) seen) "duplicate container mount destination" unseen,
          All-map (λ m. any (str_eq m.1) (container ∷ seen) ≡ false)
              (λ m. any (str_eq m.1) seen ≡ false) (λ m k. (not_seen seen container m.1 k).1) l
              apart,
        ),
        (
          All-map (λ m. any (str_eq m.1) (container ∷ seen) ≡ false) (λ m. m.1 ≢ container)
              (λ m k. (not_seen seen container m.1 k).0) l apart,
          distinct,
        ),
      )
