-- ===== src/State/Claims.antt =====
-- Claims and transitions of sessions: what they answer, what they leave, and that a workspace never
-- has two live sessions.
use notebook_launcher.Prelude.{
  ℕ, ◌≤◌, ◌≡◌, Bool, true, false, none, some, List, [], ◌∷◌, ◌++◌, ◌==◌, arith, any, find, count,
  if◌then◌else◌, refl, Option-cases, inl, inr,
}
use notebook_launcher.Action.{ok, err, workspace_active}
use notebook_launcher.State.{
  Db, sessions_ok, set_sessions, same_session_id, same_live_workspace, unique,
}
use notebook_launcher.State.Rows.{SessionRow, WorkspaceRow}
use notebook_launcher.State.Sessions.{
  live_in, has_session_id, NewSession, session_row, claim_session, insert_session,
}
use notebook_launcher.State.Indexes.{
  all-append, find-eq-none-any, find-append_none, any-find-eq-none, unique-append, unique-count,
}

-- The constraints on the sessions hold.
abbrev pub SessionsValid : Db → Type 0
SessionsValid db = sessions_ok db.workspaces db.sessions ≡ true

abbrev pub has_workspace : ℕ → Db → Bool
has_workspace workspace_id db = any (λ w. w.id == workspace_id) db.workspaces

pub set_sessions_accepted :
    (l : List SessionRow) (db : Db)
    → sessions_ok db.workspaces l ≡ true
    → set_sessions l db ≡ (ok tt, record db { sessions = l })
unfolding set_sessions
set_sessions_accepted l db h = rw h

module _ (n : NewSession) (now : ℕ) where
  no_same_id :
      (l : List SessionRow)
      → any (has_session_id n.session_id) l ≡ false
      → any (λ s. same_session_id s (session_row n now)) l ≡ false
  no_same_id [] h = refl
  no_same_id (s ∷ l) h = ground (arith, no_same_id l)

  no_same_live :
      (l : List SessionRow)
      → any (live_in n.workspace_id) l ≡ false
      → any (λ s. same_live_workspace s (session_row n now)) l ≡ false
  no_same_live [] h = refl
  no_same_live (s ∷ l) h = ground (arith, no_same_live l)

  sessions_ok-insert :
      (db : Db)
      → SessionsValid db
      → any (has_session_id n.session_id) db.sessions ≡ false
      → any (live_in n.workspace_id) db.sessions ≡ false
      → has_workspace n.workspace_id db ≡ true
      → sessions_ok db.workspaces (db.sessions ++ session_row n now ∷ []) ≡ true
  unfolding sessions_ok
  sessions_ok-insert db v fresh free there = ground (
    arith,
    unique-append same_session_id db.sessions (session_row n now),
    unique-append same_live_workspace db.sessions (session_row n now),
    all-append (λ s. any (λ w. w.id == s.workspace_id) db.workspaces) db.sessions
        (session_row n now ∷ []),
    no_same_id db.sessions fresh,
    no_same_live db.sessions free,
  )

  found_new :
      (db : Db)
      → any (has_session_id n.session_id) db.sessions ≡ false
      → find (has_session_id n.session_id) (db.sessions ++ session_row n now ∷ [])
        ≡ some (session_row n now)
  found_new db fresh = ground (
    arith,
    any-find-eq-none (has_session_id n.session_id) db.sessions fresh,
    find-append_none (has_session_id n.session_id) db.sessions (session_row n now ∷ []),
  )

  insert_session_lem :
      (db : Db)
      → sessions_ok db.workspaces (db.sessions ++ session_row n now ∷ []) ≡ true
      → any (has_session_id n.session_id) db.sessions ≡ false
      → insert_session n now db ≡ (
        ok (session_row n now, true),
        record db { sessions = db.sessions ++ session_row n now ∷ [] },
      )
  unfolding insert_session
  insert_session_lem db fits fresh = ground (
    arith,
    found_new db fresh,
    set_sessions_accepted (db.sessions ++ session_row n now ∷ []) db fits,
  )

  -- In a database that meets its constraints, a claim with a new id for a workspace that is there
  -- answers the live session of the workspace, or `WorkspaceActive` where no reuse is asked for, and
  -- writes nothing; without a live session it adds a starting one and answers that. No constraint is
  -- violated on the way.
  pub claim_session_exact :
      (reuse : Bool) (db : Db)
      → SessionsValid db
      → any (has_session_id n.session_id) db.sessions ≡ false
      → has_workspace n.workspace_id db ≡ true
      → claim_session n now reuse db ≡ elim (find (live_in n.workspace_id) db.sessions) [
        | some s ↦ (if reuse then ok (s, false) else err workspace_active, db)
        | none ↦ (
          ok (session_row n now, true),
          record db { sessions = db.sessions ++ session_row n now ∷ [] },
        )
      ]
  unfolding claim_session
  claim_session_exact reuse db v fresh there =
      elim (Option-cases (find (live_in n.workspace_id) db.sessions)) [
        | inl e ↦ ground (
          arith,
          find-eq-none-any (live_in n.workspace_id) db.sessions e,
          sessions_ok-insert db v fresh,
          insert_session_lem db,
        )
        | inr (s, e) ↦ ground arith
      ]

live_in-same :
    (w : ℕ) (a b : SessionRow)
    → live_in w a ≡ true
    → live_in w b ≡ true
    → same_live_workspace a b ≡ true
live_in-same w a b p q = ground arith

-- While the constraints hold, no workspace has two live sessions.
pub one_live_session : (w : ℕ) (db : Db) → SessionsValid db → count (live_in w) db.sessions ≤ 1
one_live_session w db v =
    unique-count same_live_workspace (live_in w) (live_in-same w) db.sessions
      (live_unique db.workspaces db.sessions v)
  where
    live_unique :
        (ws : List WorkspaceRow) (l : List SessionRow)
        → sessions_ok ws l ≡ true
        → unique same_live_workspace l ≡ true
    live_unique ws l h = unfold sessions_ok in ground arith
