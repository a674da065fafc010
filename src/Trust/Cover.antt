-- ===== src/Trust/Cover.antt =====
-- Which sources are trusted, and how grants and revocations change that.
use notebook_launcher.Prelude.{
  ℕ, ◌≡◌, Bool, true, false, not, ◌&&◌, ◌||◌, some, List, [], ◌∷◌, ◌++◌, ◌==◌, arith, is_none,
  str_eq, any, find, update, refl, Bool-cases, inl, inr,
}
use notebook_launcher.Action.{Result, ok, err, is_ok, integrity_error}
use notebook_launcher.State.{Db, trust_ok, set_trust_records}
use notebook_launcher.State.Rows.{TrustScope, exact_commit, repository, TrustRow}
use notebook_launcher.State.Indexes.{any-append}
use notebook_launcher.Trust.{
  Source, TrustMatch, covers_commit, covers_repository, find_trust, trust_row, grant, revoke,
  is_active,
}

-- An active record of the source's repository, for every commit or for the source's.
abbrev pub covers : Source → TrustRow → Bool
covers source t =
    covers_commit source.repository_id source.commit_sha t
    || covers_repository source.repository_id t

abbrev pub is_trusted : Result TrustMatch → Bool
is_trusted (ok m) = m.trusted
is_trusted (err e) = false

pub any-covers :
    (source : Source) (l : List TrustRow)
    → any (covers source) l ≡ (
        any (covers_commit source.repository_id source.commit_sha) l
        || any (covers_repository source.repository_id) l)
any-covers source [] = refl
any-covers source (x ∷ l) = ground (arith, any-covers source l)

find-any {ℓ} : {A : Type ℓ} (p : A → Bool) (l : List A) → is_none (find p l) ≡ not (any p l)
find-any p [] = refl
find-any p (x ∷ l) = ground (arith, find-any p l)

-- A source is trusted exactly if an active record covers its repository or its commit.
pub trusted-covers :
    (source : Source) (db : Db)
    → is_trusted (find_trust source db).0 ≡ any (covers source) db.trust_records
unfolding find_trust
trusted-covers source db = ground (
  arith,
  any-covers source db.trust_records,
  find-any (covers_commit source.repository_id source.commit_sha) db.trust_records,
  find-any (covers_repository source.repository_id) db.trust_records,
)

pub set_trust_records_lem :
    (l : List TrustRow) (db : Db)
    → (trust_ok l ≡ true → set_trust_records l db ≡ (ok tt, record db { trust_records = l }))
      × (trust_ok l ≡ false → set_trust_records l db ≡ (err integrity_error, db))
unfolding set_trust_records
set_trust_records_lem l db = (λ h. rw h, λ h. rw h)

-- What a grant for `source` covers: the repository, or the one commit.
abbrev pub granted_covers : Source → TrustScope → Source → Bool
granted_covers source repository other = other.repository_id == source.repository_id
granted_covers source exact_commit other =
    other.repository_id == source.repository_id && str_eq source.commit_sha other.commit_sha

-- the rows after a grant that succeeds
pub grant_rows :
    (trust_id : ℕ) (source : Source) (scope : TrustScope) (now : ℕ) (db : Db)
    → is_ok (grant trust_id source scope now db).0 ≡ true
    → (grant trust_id source scope now db).1.trust_records
      ≡ db.trust_records ++ trust_row trust_id source scope now ∷ []
unfolding grant
grant_rows trust_id source scope now db h =
    let l = db.trust_records ++ trust_row trust_id source scope now ∷ [] in
    elim (Bool-cases (trust_ok l)) [
      | inl e ↦ ground (arith, (set_trust_records_lem l db).0 e)
      | inr e ↦ absurd (ground (arith, (set_trust_records_lem l db).1 e))
    ]

-- After a grant has succeeded, exactly these sources are trusted: those that were, and those that the
-- grant is for, which are all commits of the repository for the scope `repository` and the one commit
-- for `exact_commit`.
pub trusted-grant :
    (trust_id : ℕ) (source other : Source) (scope : TrustScope) (now : ℕ) (db : Db)
    → is_ok (grant trust_id source scope now db).0 ≡ true
    → is_trusted (find_trust other (grant trust_id source scope now db).1).0
      ≡ (is_trusted (find_trust other db).0 || granted_covers source scope other)
trusted-grant trust_id source other scope now db h = ground (
  arith,
  trusted-covers other db,
  trusted-covers other (grant trust_id source scope now db).1,
  grant_rows trust_id source scope now db h,
  any-append (covers other) db.trust_records (trust_row trust_id source scope now ∷ []),
)

any-revoke :
    (source : Source) (trust_id now : ℕ) (l : List TrustRow)
    → any (covers source) (update (is_active trust_id) (λ t. record t { revoked_at = some now }) l)
      ≡ any (λ t. covers source t && not (t.id == trust_id)) l
any-revoke source trust_id now [] = refl
any-revoke source trust_id now (x ∷ l) = ground (arith, any-revoke source trust_id now l)

-- After a revocation exactly the sources are trusted that another active record covers.
pub trusted-revoke :
    (trust_id now : ℕ) (source : Source) (db : Db)
    → is_trusted (find_trust source (revoke trust_id now db).1).0
      ≡ any (λ t. covers source t && not (t.id == trust_id)) db.trust_records
trusted-revoke trust_id now source db =
    rw trusted-covers (unfold revoke in any-revoke source trust_id now db.trust_records)
