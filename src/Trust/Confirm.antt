-- ===== src/Trust/Confirm.antt =====
-- What a confirmed challenge makes trusted, and how long a challenge can be answered.
use notebook_launcher.Prelude.{
  ℕ, ◌+◌, ◌≡◌, String, true, not, ◌&&◌, ◌||◌, none, some, List, [], ◌∷◌, ◌++◌, leb, arith, eq_iff,
  str_eq, any, find, select, refl, Bool-cases, Option-cases, inl, inr,
}
use notebook_launcher.Action.{ok, is_ok}
use notebook_launcher.State.{Db, trust_ok}
use notebook_launcher.State.Rows.{
  TrustScope, exact_commit, repository, TrustRow, LaunchSourceRow, ChallengeRow,
}
use notebook_launcher.State.Indexes.{any-append, find-append_none}
use notebook_launcher.Trust.{Source, find_trust, trust_row}
use notebook_launcher.Trust.Cover.{
  covers, is_trusted, trusted-covers, granted_covers, set_trust_records_lem,
}
use notebook_launcher.Trust.Flow.{
  challenge_of, source_of, known_launch, granted_source, existing_trust, create_challenge,
  validate_challenge, ensure_trust, complete_trust,
}
use notebook_launcher.Trust.Challenges.{complete_steps}

existing_covers :
    (scope : TrustScope) (s : LaunchSourceRow) (other : Source) (l : List TrustRow) {t : TrustRow}
    → existing_trust scope s l ≡ some t
    → granted_covers (granted_source s) scope other ≡ true
    → any (covers other) l ≡ true
existing_covers exact_commit s other [] e g = cc
existing_covers exact_commit s other (x ∷ l) {t} e g =
    ground
      (arith, existing_covers exact_commit s other l {t = t}, eq_iff s.commit_sha other.commit_sha)
existing_covers repository s other [] e g = cc
existing_covers repository s other (x ∷ l) {t} e g =
    ground (arith, existing_covers repository s other l {t = t})

module _ (hash : String → String) where
  ensure_covers :
      (id : ℕ) (s : LaunchSourceRow) (scope : TrustScope) (now : ℕ) (db : Db) (other : Source)
      → is_ok (ensure_trust hash id s scope now db).0 ≡ true
      → any (covers other) (ensure_trust hash id s scope now db).1.trust_records
        ≡ (any (covers other) db.trust_records || granted_covers (granted_source s) scope other)
  unfolding ensure_trust
  ensure_covers id s scope now db other h =
      let l = db.trust_records ++ trust_row id (granted_source s) scope now ∷ [] in
      elim (Option-cases (existing_trust scope s db.trust_records)) [
        | inr (t, e) ↦ ground (arith, existing_covers scope s other db.trust_records {t = t} e)
        | inl e ↦ elim (Bool-cases (trust_ok l)) [
          | inl fits ↦ ground (
            arith,
            (set_trust_records_lem l db).0 fits,
            any-append (covers other) db.trust_records
                (trust_row id (granted_source s) scope now ∷ []),
          )
          | inr clash ↦ absurd (ground (arith, (set_trust_records_lem l db).1 clash))
        ]
      ]

  -- After a confirmation has succeeded, exactly these sources are trusted: those that were, and those
  -- that the launch's stored source and the chosen scope cover. An active record that is there already
  -- serves in place of a new one.
  pub trusted-complete_trust :
      (launch_id : ℕ) (nonce : String) (scope : TrustScope) (id now : ℕ) (db : Db)
      (s : LaunchSourceRow) (other : Source)
      → is_ok (complete_trust hash launch_id nonce scope id now db).0 ≡ true
      → find (source_of launch_id) db.launch_sources ≡ some s
      → is_trusted (find_trust other (complete_trust hash launch_id nonce scope id now db).1).0
        ≡ (is_trusted (find_trust other db).0 || granted_covers (granted_source s) scope other)
  trusted-complete_trust launch_id nonce scope id now db s other h there =
      let (c, s', e, f, answered, ensured, one, eq) =
        complete_steps hash launch_id nonce scope id now db h in
      ground (
        arith,
        eq,
        there,
        f,
        ensured,
        ensure_covers id s scope now db other,
        trusted-covers other db,
        trusted-covers other (complete_trust hash launch_id nonce scope id now db).1,
      )

  no_old_challenge :
      (launch_id : ℕ) (l : List ChallengeRow)
      → find (challenge_of launch_id) (select (λ c. not (challenge_of launch_id c)) l) ≡ none
  no_old_challenge launch_id [] = refl
  no_old_challenge launch_id (x ∷ l) = ground (arith, no_old_challenge launch_id l)

  -- A new challenge of a known launch replaces its old one: its nonce is accepted up to and including the time
  -- `now + ttl` and not later, and a nonce with another hash is not accepted.
  pub validate-create_challenge :
      (launch_id : ℕ) (source : Source) (nonce other : String) (ttl now later : ℕ) (db : Db)
      → known_launch launch_id db ≡ true
      → (validate_challenge hash launch_id other later
          (create_challenge hash launch_id source nonce ttl now db).1).0
        ≡ ok (leb later (now + ttl) && str_eq (hash nonce) (hash other))
  unfolding validate_challenge create_challenge
  validate-create_challenge launch_id source nonce other ttl now later db known = ground (
    arith,
    no_old_challenge launch_id db.challenges,
    find-append_none (challenge_of launch_id)
        (select (λ c. not (challenge_of launch_id c)) db.challenges)
        (record {
          launch_id = launch_id;
          nonce_hash = hash nonce;
          expires_at = now + ttl;
          used_at = none;
        }
          ∷ []),
  )
