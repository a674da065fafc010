-- ===== src/Trust/Challenges.antt =====
-- The trust challenge of a launch is answered once, in time, and with its nonce.
use notebook_launcher.Prelude.{
  ℕ, ◌≡◌, String, true, false, some, List, [], ◌∷◌, ◌++◌, ◌==◌, arith, is_some, find, count, update,
  refl, Bool-cases, Option-cases, inl, inr,
}
use notebook_launcher.Action.{ok, err, is_ok, value_error}
use notebook_launcher.State.{Db, set_trust_records, trust_ok}
use notebook_launcher.State.Rows.{TrustScope, TrustRow, LaunchSourceRow, ChallengeRow}
use notebook_launcher.Trust.{trust_row}
use notebook_launcher.Trust.Flow.{
  challenge_of, source_of, pending_launch, use_challenge, authorised, granted_source, is_answered,
  validate_challenge, deny, ensure_trust, complete_trust,
}

-- the challenge that is read after `use_challenge`
used-find :
    (launch_id now : ℕ) (l : List ChallengeRow) {c : ChallengeRow}
    → find (challenge_of launch_id) l ≡ some c
    → find
        (challenge_of launch_id)
        (update (challenge_of launch_id) (λ x. record x { used_at = some now }) l)
      ≡ some (record c { used_at = some now })
used-find launch_id now [] e = cc
used-find launch_id now (x ∷ l) {c} e = ground (arith, used-find launch_id now l {c = c})

set_trust_records_frame :
    (l : List TrustRow) (db : Db)
    → ((set_trust_records l db).1.challenges ≡ db.challenges)
      × ((set_trust_records l db).1.launches ≡ db.launches)
unfolding set_trust_records
set_trust_records_frame l db = elim (Bool-cases (trust_ok l)) [
  | inl e ↦ rw e (refl, refl)
  | inr e ↦ rw e (refl, refl)
]

module _ (hash : String → String) where
  -- `ensure_trust` touches the trust records alone.
  ensure_trust_frame :
      (id : ℕ) (s : LaunchSourceRow) (scope : TrustScope) (now : ℕ) (db : Db)
      → ((ensure_trust hash id s scope now db).1.challenges ≡ db.challenges)
        × ((ensure_trust hash id s scope now db).1.launches ≡ db.launches)
  unfolding ensure_trust
  ensure_trust_frame id s scope now db = ground (
    arith,
    set_trust_records_frame (db.trust_records ++ trust_row id (granted_source s) scope now ∷ []) db,
  )

  module _ (launch_id : ℕ) (nonce : String) (scope : TrustScope) (id now : ℕ) (db : Db) where
    pub complete_steps :
        is_ok (complete_trust hash launch_id nonce scope id now db).0 ≡ true
        → (c : ChallengeRow) × (s : LaunchSourceRow) × (find (challenge_of launch_id) db.challenges
            ≡ some c)
          × (find (source_of launch_id) db.launch_sources ≡ some s)
          × (is_answered hash (some c) nonce now ≡ true)
          × (is_ok (ensure_trust hash id s scope now db).0 ≡ true)
          × ((count (pending_launch launch_id) db.launches == 1) ≡ true)
          × ((complete_trust hash launch_id nonce scope id now db).1
              ≡ record (ensure_trust hash id s scope now db).1 {
                challenges = (use_challenge launch_id now db).challenges;
                launches = update (pending_launch launch_id) (authorised now) db.launches;
              })
    unfolding complete_trust
    complete_steps h = elim (Option-cases (find (challenge_of launch_id) db.challenges)) [
      | inl e ↦ absurd (ground arith)
      | inr (c, e) ↦ elim (Option-cases (find (source_of launch_id) db.launch_sources)) [
        | inl f ↦ absurd (ground arith)
        | inr (s, f) ↦
            let frame = ensure_trust_frame id s scope now db in
            (c, s, e, f, ground arith, ground arith, ground (arith, frame), ground (arith, frame))
      ]
    ]

    -- the challenge of the launch, as the database is after a confirmation
    complete_used :
        is_ok (complete_trust hash launch_id nonce scope id now db).0 ≡ true
        → (c : ChallengeRow) × (find
              (challenge_of launch_id)
              (complete_trust hash launch_id nonce scope id now db).1.challenges
            ≡ some (record c { used_at = some now }))
    complete_used h =
        let (c, s, e, f, answered, ensured, one, eq) = complete_steps h in
        (c, rw eq (used-find launch_id now db.challenges e))

    -- A confirmation that succeeds has met a challenge that was unused, not expired and of its nonce,
    -- and exactly one launch that was waiting for trust; that launch, and no other, is now authorised.
    pub complete_trust_checks :
        is_ok (complete_trust hash launch_id nonce scope id now db).0 ≡ true
        → (is_answered hash (find (challenge_of launch_id) db.challenges) nonce now ≡ true)
          × (count (pending_launch launch_id) db.launches ≡ 1)
          × ((complete_trust hash launch_id nonce scope id now db).1.launches
              ≡ update (pending_launch launch_id) (authorised now) db.launches)
    complete_trust_checks h =
        let (c, s, e, f, answered, ensured, one, eq) = complete_steps h in
        (rw e answered, ground arith, rw eq)

-- A row whose challenge is used is refused by everybody.
used_refused :
    (hash : String → String) (launch_id : ℕ) (nonce : String) (scope : TrustScope) (id now : ℕ)
    (db : Db) {c : ChallengeRow}
    → find (challenge_of launch_id) db.challenges ≡ some c
    → is_some c.used_at ≡ true
    → (complete_trust hash launch_id nonce scope id now db
        ≡ (err (value_error "trust challenge already used"), db))
      × (deny hash launch_id nonce now db
          ≡ (err (value_error "trust challenge not found or already used"), db))
      × (validate_challenge hash launch_id nonce now db ≡ (ok false, db))
unfolding complete_trust deny validate_challenge
used_refused hash launch_id nonce scope id now db e u = (ground arith, ground arith, ground arith)

-- A challenge serves once: after a confirmation has succeeded, each further confirmation or denial
-- of the launch is refused and writes nothing, whatever its nonce, scope and time.
pub complete_trust_once :
    (hash : String → String) (launch_id : ℕ) (nonce nonce' : String) (scope scope' : TrustScope)
    (id id' now later : ℕ) (db : Db)
    → is_ok (complete_trust hash launch_id nonce scope id now db).0 ≡ true
    → let db' = (complete_trust hash launch_id nonce scope id now db).1 in
      (complete_trust hash launch_id nonce' scope' id' later db'
        ≡ (err (value_error "trust challenge already used"), db'))
      × (deny hash launch_id nonce' later db'
          ≡ (err (value_error "trust challenge not found or already used"), db'))
      × (validate_challenge hash launch_id nonce' later db' ≡ (ok false, db'))
complete_trust_once hash launch_id nonce nonce' scope scope' id id' now later db h =
    let (c, e) = complete_used hash launch_id nonce scope id now db h in
    used_refused hash launch_id nonce' scope' id' later
      (complete_trust hash launch_id nonce scope id now db).1 e refl
