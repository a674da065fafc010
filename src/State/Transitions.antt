-- ===== src/State/Transitions.antt =====
-- Transitions of sessions: what they answer, what they leave, and that they keep the constraints.
use notebook_launcher.Prelude.{
  ℕ, ◌≡◌, ◌≢◌, Bool, true, false, none, some, List, [], ◌∷◌, ◌==◌, arith, any, all, find, count,
  update, if◌then◌else◌, refl, Bool-cases, Option-cases, inl, inr,
}
use notebook_launcher.Action.{ok, err, conflict}
use notebook_launcher.State.{Db, is_live, sessions_ok, same_session_id, same_live_workspace, unique}
use notebook_launcher.State.Rows.{SessionState, SessionRow, WorkspaceRow}
use notebook_launcher.State.Sessions.{
  has_session_id, Transition, apply_transition, session_in, same_session_state, transition_session,
}
use notebook_launcher.State.Claims.{SessionsValid, set_sessions_accepted}
use notebook_launcher.State.Indexes.{
  find-eq-none-any, unique-count, unique-update, all-update, count-eq-zero,
}

-- the rows that a transition is for
found_transition :
    (t : Transition) (i : ℕ) (es : List SessionState) (l : List SessionRow) {s : SessionRow}
    → unique same_session_id l ≡ true
    → find (session_in i es) l ≡ some s
    → find (has_session_id i) (update (session_in i es) (apply_transition t) l)
      ≡ some (apply_transition t s)
found_transition t i es [] u e = cc
found_transition t i es (x ∷ l) {s} u e = elim (Bool-cases (session_in i es x)) [
  | inl m ↦ ground arith
  | inr m ↦
      ground (arith, found_transition t i es l {s = s}, no_later i x l, find_in_has i es l {s = s})
]
  where
    no_later :
        (i : ℕ) (x : SessionRow) (l : List SessionRow)
        → any (same_session_id x) l ≡ false
        → x.id ≡ i
        → find (has_session_id i) l ≡ none
    no_later i x [] a e = refl
    no_later i x (y ∷ l) a e = ground (arith, no_later i x l)

    find_in_has :
        (i : ℕ) (es : List SessionState) (l : List SessionRow) {s : SessionRow}
        → find (session_in i es) l ≡ some s
        → find (has_session_id i) l ≢ none
    find_in_has i es [] h = cc
    find_in_has i es (y ∷ l) {s} h = ground (arith, find_in_has i es l {s = s})

count-find :
    (p : SessionRow → Bool) (l : List SessionRow) {s : SessionRow}
    → find p l ≡ some s
    → count p l ≢ 0
count-find p [] e = cc
count-find p (x ∷ l) {s} e = ground (arith, count-find p l {s = s})

session_in-same :
    (i : ℕ) (es : List SessionState) (a b : SessionRow)
    → session_in i es a ≡ true
    → session_in i es b ≡ true
    → same_session_id a b ≡ true
session_in-same i es a b p q = ground arith

any-live :
    (st : SessionState) (es : List SessionState)
    → any (same_session_state st) es ≡ true
    → all is_live es ≡ true
    → is_live st ≡ true
any-live st [] h a = cc
any-live st (e ∷ es) h a = ground (arith, any-live st es)

-- A transition into a live state starts from live states only.
abbrev pub StaysLive : List SessionState → Transition → Type 0
StaysLive es t = is_live t.new_state ≡ true → all is_live es ≡ true

transition_agrees :
    (i : ℕ) (es : List SessionState) (t : Transition) (x y : SessionRow)
    → StaysLive es t
    → same_live_workspace
        (if session_in i es x then apply_transition t x else x)
        (if session_in i es y then apply_transition t y else y)
      ≡ true
    → same_live_workspace x y ≡ true
transition_agrees i es t x y keeps h = ground (arith, any-live x.state es, any-live y.state es)

sessions_ok-update :
    (i : ℕ) (es : List SessionState) (t : Transition) (db : Db)
    → SessionsValid db
    → StaysLive es t
    → sessions_ok db.workspaces (update (session_in i es) (apply_transition t) db.sessions) ≡ true
unfolding sessions_ok
sessions_ok-update i es t db v keeps = ground (
  arith,
  unique-update same_session_id (session_in i es) (apply_transition t) (λ x y h. ground arith)
      db.sessions,
  unique-update same_live_workspace (session_in i es) (apply_transition t)
      (λ x y. transition_agrees i es t x y keeps) db.sessions,
  all-update (λ s. any (λ w. w.id == s.workspace_id) db.workspaces) (session_in i es)
      (apply_transition t) (λ x. ground arith) db.sessions,
)

same_id_unique :
    (ws : List WorkspaceRow) (l : List SessionRow)
    → sessions_ok ws l ≡ true
    → unique same_session_id l ≡ true
unfolding sessions_ok
same_id_unique ws l h = ground arith

one_row :
    (i : ℕ) (es : List SessionState) (db : Db) {s : SessionRow}
    → SessionsValid db
    → find (session_in i es) db.sessions ≡ some s
    → count (session_in i es) db.sessions ≡ 1
one_row i es db {s} v e = omega (
  arith,
  unique-count same_session_id (session_in i es) (session_in-same i es) db.sessions
      (same_id_unique db.workspaces db.sessions v),
  count-find (session_in i es) db.sessions {s = s} e,
)

-- In a database that meets its constraints, a transition into a state that is not live, or from live
-- states only, succeeds exactly if the session is there in an expected state: it then answers the
-- changed row and changes that row alone; otherwise it is a conflict, and nothing is written.
pub transition_session_exact :
    (i : ℕ) (e : SessionState) (es : List SessionState) (t : Transition) (db : Db)
    → SessionsValid db
    → StaysLive (e ∷ es) t
    → transition_session i (e ∷ es) t db ≡ elim (find (session_in i (e ∷ es)) db.sessions) [
      | none ↦ (err conflict, db)
      | some s ↦ (
        ok (apply_transition t s),
        record db { sessions = update (session_in i (e ∷ es)) (apply_transition t) db.sessions },
      )
    ]
unfolding transition_session
transition_session_exact i e es t db v keeps =
    let rows = update (session_in i (e ∷ es)) (apply_transition t) db.sessions in
    let set = set_sessions_accepted rows db (sessions_ok-update i (e ∷ es) t db v keeps) in
    elim (Option-cases (find (session_in i (e ∷ es)) db.sessions)) [
      | inl no_row ↦
          let absent = find-eq-none-any (session_in i (e ∷ es)) db.sessions no_row in
          ground (arith, set, count-eq-zero (session_in i (e ∷ es)) db.sessions absent)
      | inr (s, there) ↦ ground (
        arith,
        set,
        one_row i (e ∷ es) db {s = s} v there,
        found_transition t i (e ∷ es) db.sessions (same_id_unique db.workspaces db.sessions v)
            there,
      )
    ]
