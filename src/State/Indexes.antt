-- ===== src/State/Indexes.antt =====
-- The unique indexes of the tables: what an insertion and an update do to them.
use notebook_launcher.Prelude.{
  ◌≤◌, ◌≡◌, Bool, true, false, not, ◌&&◌, ◌||◌, none, some, List, [], ◌∷◌, ◌++◌, arith, any, all,
  find, count, update, if◌then◌else◌, refl, Bool-cases, inl, inr,
}
use notebook_launcher.State.{unique}

module _ {ℓ} {A : Type ℓ} where
  pub any-append : (p : A → Bool) (xs ys : List A) → any p (xs ++ ys) ≡ (any p xs || any p ys)
  any-append p [] ys = refl
  any-append p (x ∷ xs) ys = ground (arith, any-append p xs ys)

  pub all-append : (p : A → Bool) (xs ys : List A) → all p (xs ++ ys) ≡ (all p xs && all p ys)
  all-append p [] ys = refl
  all-append p (x ∷ xs) ys = ground (arith, all-append p xs ys)

  pub find-eq-none-any : (p : A → Bool) (xs : List A) → find p xs ≡ none → any p xs ≡ false
  find-eq-none-any p [] h = refl
  find-eq-none-any p (x ∷ xs) h = ground (arith, find-eq-none-any p xs)

  pub any-find-eq-none : (p : A → Bool) (xs : List A) → any p xs ≡ false → find p xs ≡ none
  any-find-eq-none p [] h = refl
  any-find-eq-none p (x ∷ xs) h = ground (arith, any-find-eq-none p xs)

  pub find-append_none :
      (p : A → Bool) (xs ys : List A) → find p xs ≡ none → find p (xs ++ ys) ≡ find p ys
  find-append_none p [] ys h = refl
  find-append_none p (x ∷ xs) ys h = ground (arith, find-append_none p xs ys)

  pub find-append_some :
      (p : A → Bool) (xs ys : List A) {a : A} → find p xs ≡ some a → find p (xs ++ ys) ≡ some a
  find-append_some p [] ys h = ground arith
  find-append_some p (x ∷ xs) ys {a} h = ground (arith, find-append_some p xs ys {a = a})

  -- Tests that agree on every row find and count the same.
  pub any_ext : (p q : A → Bool) (xs : List A) → ((x : A) → p x ≡ q x) → any p xs ≡ any q xs
  any_ext p q [] h = refl
  any_ext p q (x ∷ xs) h = ground (arith, h x, any_ext p q xs h)

  pub count-eq-zero : (p : A → Bool) (xs : List A) → any p xs ≡ false → count p xs ≡ 0
  count-eq-zero p [] h = refl
  count-eq-zero p (x ∷ xs) h = ground (arith, count-eq-zero p xs)

  -- An update without a fitting row changes nothing.
  pub update-eq_self :
      (p : A → Bool) (f : A → A) (xs : List A) → any p xs ≡ false → update p f xs ≡ xs
  update-eq_self p f [] h = refl
  update-eq_self p f (x ∷ xs) h = ground (arith, update-eq_self p f xs)

  pub unique-append :
      (same : A → A → Bool) (xs : List A) (y : A)
      → unique same (xs ++ y ∷ []) ≡ (unique same xs && not (any (λ x. same x y) xs))
  unique-append same [] y = refl
  unique-append same (x ∷ xs) y =
      ground (arith, unique-append same xs y, any-append (same x) xs (y ∷ []))

  -- Of the rows that pass a test under which any two agree on the key there is one at most.
  pub unique-count :
      (same : A → A → Bool) (p : A → Bool)
      → ((x y : A) → p x ≡ true → p y ≡ true → same x y ≡ true)
      → (xs : List A) → unique same xs ≡ true
      → count p xs ≤ 1
  unique-count same p h [] u = omega arith
  unique-count same p h (x ∷ xs) u = elim (Bool-cases (p x)) [
    | inl e ↦ ground (arith, count-eq-zero p xs, none_fits x xs e)
    | inr e ↦ ground (arith, unique-count same p h xs)
  ]
    where
      none_fits : (x : A) (xs : List A) → p x ≡ true → any (same x) xs ≡ false → any p xs ≡ false
      none_fits x [] e a = refl
      none_fits x (y ∷ ys) e a = ground (arith, h x y, none_fits x ys e)

  -- An update keeps a unique index if it makes no two rows agree that did not.
  pub unique-update :
      (same : A → A → Bool) (p : A → Bool) (f : A → A)
      → ((x y : A)
          → same (if p x then f x else x) (if p y then f y else y) ≡ true
          → same x y ≡ true)
      → (xs : List A) → unique same xs ≡ true
      → unique same (update p f xs) ≡ true
  unique-update same p f h [] u = refl
  unique-update same p f h (x ∷ xs) u = ground (arith, unique-update same p f h xs, apart x xs)
    where
      apart :
          (x : A) (xs : List A)
          → any (same x) xs ≡ false
          → any (same (if p x then f x else x)) (update p f xs) ≡ false
      apart x [] a = refl
      apart x (y ∷ ys) a = ground (arith, h x y, apart x ys)

  -- An update keeps a test that it keeps on every row.
  pub all-update :
      (q p : A → Bool) (f : A → A)
      → ((x : A) → q (if p x then f x else x) ≡ q x)
      → (xs : List A) → all q (update p f xs) ≡ all q xs
  all-update q p f h [] = refl
  all-update q p f h (x ∷ xs) = ground (arith, h x, all-update q p f h xs)
