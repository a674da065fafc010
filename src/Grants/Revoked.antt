-- ===== src/Grants/Revoked.antt =====
-- grants.py: what a revocation leaves.
use notebook_launcher.Prelude.{
  ℕ, ◌≡◌, refl, ap, ◌∙◌, Bool, true, false, Option, none, List, [], ◌∷◌, ◌==◌, arith, any, all,
  find, count, update, if◌then◌else◌, Bool-cases, inl, inr, ◌≤◌,
}
use notebook_launcher.Action.{Result, ok, atomically, ◌>>◌, pure}
use notebook_launcher.State.{Db, same_grant_id, same_active_grant, is_mode, grants_ok, set_grants}
use notebook_launcher.State.Rows.{GrantRow, WorkspaceRow}
use notebook_launcher.State.Guards.{has_workspace_id}
use notebook_launcher.State.Indexes.{
  unique-update, all-update, unique-count, count-eq-zero, any-find-eq-none,
}
use notebook_launcher.Grants.{is_active, with_grant, link_grant, active, revoked, revoke}
use notebook_launcher.Grants.Single.{GrantsValid, can_grant}

all_ext : {A : Type 0} (q r : A → Bool) → ((x : A) → q x ≡ r x) → (l : List A) → all q l ≡ all r l
all_ext q r h [] = refl
all_ext q r h (x ∷ l) = ground (arith, h x, all_ext q r h l)

module _ {A : Type 0} (p : A → Bool) where
  count_some : (l : List A) → any p l ≡ true → 1 ≤ count p l
  count_some [] h = ground arith
  count_some (x ∷ l) h = ground (arith, count_some l)

  -- Of one fitting row at most, the row count says whether there is one.
  count_one : (l : List A) → count p l ≤ 1 → (count p l == 1) ≡ any p l
  count_one l h = elim (Bool-cases (any p l)) [
    | inl e ↦ ground (arith, h, count_some l e)
    | inr e ↦ ground (arith, count-eq-zero p l e)
  ]

  any-update :
      (q : A → Bool) (f : A → A)
      → ((x : A) → q (if p x then f x else x) ≡ q x)
      → (l : List A) → any q (update p f l) ≡ any q l
  any-update q f h [] = refl
  any-update q f h (x ∷ l) = ground (arith, h x, any-update q f h l)

  none_left :
      (f : A → A)
      → ((x : A) → p x ≡ true → p (f x) ≡ false)
      → (l : List A) → any p (update p f l) ≡ false
  none_left f h [] = refl
  none_left f h (x ∷ l) = elim (Bool-cases (p x)) [
    | inl e ↦ ground (arith, h x e, none_left f h l)
    | inr e ↦ ground (arith, none_left f h l)
  ]

module _ (workspace_id now : ℕ) (db : Db) where
  abbrev rows : List GrantRow
  rows = update (is_active workspace_id) (revoked now) db.grants

  revoked-grants_ok :
      (workspaces : List WorkspaceRow)
      → grants_ok workspaces db.grants ≡ true
      → grants_ok workspaces rows ≡ true
  unfolding grants_ok
  revoked-grants_ok workspaces valid = ground (
    arith,
    unique-update same_grant_id (is_active workspace_id) (revoked now) (λ a b e. ground arith)
        db.grants,
    unique-update same_active_grant (is_active workspace_id) (revoked now) (λ a b e. ground arith)
        db.grants,
    all-update (λ g. is_mode g.mode) (is_active workspace_id) (revoked now) (λ a. ground arith)
        db.grants,
    all-update (λ g. any (λ w. w.id == g.workspace_id) workspaces) (is_active workspace_id)
        (revoked now) (λ a. ground arith) db.grants,
  )

  linked-grants_ok :
      (grant_id : Option ℕ) (l : List GrantRow)
      → grants_ok (update (has_workspace_id workspace_id) (with_grant grant_id now) db.workspaces) l
        ≡ grants_ok db.workspaces l
  unfolding grants_ok
  linked-grants_ok grant_id l = ground (
    arith,
    all_ext
        (λ g.
          any (λ w. w.id == g.workspace_id)
            (update (has_workspace_id workspace_id) (with_grant grant_id now) db.workspaces))
        (λ g. any (λ w. w.id == g.workspace_id) db.workspaces)
        (λ g.
          any-update (has_workspace_id workspace_id) (λ w. w.id == g.workspace_id)
            (with_grant grant_id now) (λ w. ground arith) db.workspaces)
        l,
  )

  abbrev had : Bool
  had = any (is_active workspace_id) db.grants

  abbrev linked : Bool → List WorkspaceRow
  linked b =
      if b
      then update (has_workspace_id workspace_id) (with_grant none now) db.workspaces
      else db.workspaces

  abbrev after : Db
  after = record db { grants = rows; workspaces = linked had }

  kept : GrantsValid db → set_grants rows db ≡ (ok tt, record db { grants = rows })
  unfolding set_grants
  kept valid = rw (revoked-grants_ok db.workspaces valid) refl

  one_active : GrantsValid db → (count (is_active workspace_id) db.grants == 1) ≡ had
  unfolding grants_ok
  one_active valid = count_one (is_active workspace_id) db.grants (
      unique-count same_active_grant (is_active workspace_id) (λ a b p q. ground arith) db.grants
        (ground (arith, valid)))

  -- The rest of `revoke`, given whether the row count is one.
  abbrev rest : Bool → Result (Unit {0}) × Db → Result Bool × Db
  rest one q =
      atomically
        ((λ (s : Db). q)
          >> ((if one then link_grant workspace_id none now else pure tt) >> pure one))
        db

  rest_lem :
      (one : Bool)
      → rest one (ok tt, record db { grants = rows })
        ≡ (ok one, record db { grants = rows; workspaces = linked one })
  rest_lem true = refl
  rest_lem false = refl

  revoke_lem : GrantsValid db → revoke workspace_id now db ≡ (ok had, after)
  unfolding revoke
  revoke_lem valid =
      ap (rest (count (is_active workspace_id) db.grants == 1)) (kept valid)
      ∙ ap (λ b. rest b (ok tt, record db { grants = rows })) (one_active valid)
      ∙ rest_lem had

  after-GrantsValid : GrantsValid db → GrantsValid after
  after-GrantsValid valid = elim (Bool-cases had) [
    | inl e ↦ rw (e, linked-grants_ok none rows) (revoked-grants_ok db.workspaces valid)
    | inr e ↦ rw e (revoked-grants_ok db.workspaces valid)
  ]

  after_inactive : find (is_active workspace_id) rows ≡ none
  after_inactive =
      any-find-eq-none (is_active workspace_id) rows
        (none_left (is_active workspace_id) (revoked now) (λ g e. ground arith) db.grants)

  -- In a valid database a revocation says whether there was an active grant; after it there is none,
  -- the database is valid, and a workspace that is there may have a new one.
  pub revoke_inactive :
      GrantsValid db
      → let (r, db') = revoke workspace_id now db in
        (r ≡ ok (any (is_active workspace_id) db.grants))
        × (active workspace_id db' ≡ (ok none, db'))
        × GrantsValid db'
        × (can_grant workspace_id db' ≡ any (has_workspace_id workspace_id) db.workspaces)
  unfolding active
  revoke_inactive valid =
      rw (revoke_lem valid)
        (refl, rw after_inactive refl, after-GrantsValid valid, rw after_inactive same_workspaces)
    where
      same_workspaces :
          any (has_workspace_id workspace_id) (linked had)
          ≡ any (has_workspace_id workspace_id) db.workspaces
      same_workspaces = elim (Bool-cases had) [
        | inl e ↦ rw e (
            any-update (has_workspace_id workspace_id) (has_workspace_id workspace_id)
              (with_grant none now) (λ w. ground arith) db.workspaces)
        | inr e ↦ rw e refl
      ]
