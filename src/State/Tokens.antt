-- ===== src/State/Tokens.antt =====
-- The one-time launch tokens of state.py: what a consumption answers and writes, and that a token is
-- accepted once.
use notebook_launcher.Prelude.{
  ℕ, ◌≡◌, String, Bool, true, false, List, [], ◌∷◌, ◌++◌, arith, any, str_eq, str_eq_refl,
  if◌then◌else◌, Bool-cases, inl, inr,
}
use notebook_launcher.Action.{ok, err, integrity_error}
use notebook_launcher.State.{Db, unique, set_replays}
use notebook_launcher.State.Rows.{ReplayRow}
use notebook_launcher.State.Launches.{consume_launch_jti}
use notebook_launcher.State.Indexes.{any-append, unique-append}

abbrev pub same_jti : ReplayRow → ReplayRow → Bool
same_jti a b = str_eq a.jti_hash b.jti_hash

abbrev pub replay_row : String → String → ℕ → ReplayRow
replay_row h digest now = record { jti_hash = h; request_digest = digest; consumed_at = now }

-- The replay table meets its primary key.
abbrev pub ReplaysValid : Db → Type 0
ReplaysValid db = unique same_jti db.replays ≡ true

-- the row of a token that has been consumed
abbrev pub consumed : String → ReplayRow → Bool
consumed h x = str_eq x.jti_hash h

set_replays_accepted :
    (l : List ReplayRow) (db : Db)
    → unique same_jti l ≡ true
    → set_replays l db ≡ (ok tt, record db { replays = l })
unfolding set_replays
set_replays_accepted l db h = rw h

set_replays_refused :
    (l : List ReplayRow) (db : Db)
    → unique same_jti l ≡ false
    → set_replays l db ≡ (err integrity_error, db)
unfolding set_replays
set_replays_refused l db h = rw h

consume_by_row :
    (h digest : String) (now : ℕ) (db : Db)
    → consume_launch_jti h digest now db ≡ (
        if unique same_jti (db.replays ++ replay_row h digest now ∷ [])
        then (ok true, record db { replays = db.replays ++ replay_row h digest now ∷ [] })
        else (ok false, db))
unfolding consume_launch_jti
consume_by_row h digest now db =
    let rows = db.replays ++ replay_row h digest now ∷ [] in
    elim (Bool-cases (unique same_jti rows)) [
      | inl e ↦ ground (arith, set_replays_accepted rows db e)
      | inr e ↦ ground (arith, set_replays_refused rows db e)
    ]

-- In a table that meets its primary key, a consumption is accepted exactly if the token has no row: its row is then added; otherwise nothing
-- is written.
pub consume_launch_jti_exact :
    (h digest : String) (now : ℕ) (db : Db)
    → ReplaysValid db
    → consume_launch_jti h digest now db ≡ (
        if any (consumed h) db.replays
        then (ok false, db)
        else (ok true, record db { replays = db.replays ++ replay_row h digest now ∷ [] }))
consume_launch_jti_exact h digest now db v = ground (
  arith,
  consume_by_row h digest now db,
  unique-append same_jti db.replays (replay_row h digest now),
  Bool-cases (any (consumed h) db.replays),
)

-- Whatever the first consumption of a token answers, a second one answers no, for any request and at
-- any time, and writes nothing.
pub consume_launch_jti_once :
    (h digest digest' : String) (now now' : ℕ) (db : Db)
    → consume_launch_jti h digest' now' (consume_launch_jti h digest now db).1
      ≡ (ok false, (consume_launch_jti h digest now db).1)
consume_launch_jti_once h digest digest' now now' db =
    let one = replay_row h digest now in
    let two = replay_row h digest' now' in
    let added = record db { replays = db.replays ++ one ∷ [] } in
    elim (Bool-cases (unique same_jti (db.replays ++ one ∷ []))) [
      | inl e ↦ ground (
        arith,
        consume_by_row h digest now db,
        consume_by_row h digest' now' added,
        unique-append same_jti db.replays one,
        unique-append same_jti (db.replays ++ one ∷ []) two,
        any-append (λ x. same_jti x two) db.replays (one ∷ []),
        str_eq_refl h,
      )
      | inr e ↦ ground (
        arith,
        consume_by_row h digest now db,
        consume_by_row h digest' now' db,
        unique-append same_jti db.replays one,
        unique-append same_jti db.replays two,
      )
    ]
