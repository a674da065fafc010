-- ===== src/State/Sessions.antt =====
-- state.py: the sessions of the workspaces.
use notebook_launcher.Prelude.{
  ℕ, String, Bool, true, false, not, ◌&&◌, Option, none, some, List, [], ◌∷◌, ◌++◌, ◌==◌, coalesce,
  or_else, any, find, count, update, select, if◌then◌else◌,
}
use notebook_launcher.Action.{
  Action, ok, err, conflict, workspace_active, integrity_error, value_error, pure, raise, gets,
  raise_if, or_raise, key_error, modify, atomically, ◌>>=◌, ◌>>◌,
}
use notebook_launcher.State.{Db, set_sessions, is_live}
use notebook_launcher.State.Launches.{is_empty}
use notebook_launcher.State.Rows.{
  AgentMode, SessionState, starting, ready, stopping, stopped, failed, SessionRow,
}

-- `WHERE workspace_id = ? AND state IN ('starting','ready','stopping')`
abbrev pub live_in : ℕ → SessionRow → Bool
live_in workspace_id s = s.workspace_id == workspace_id && is_live s.state

abbrev pub has_session_id : ℕ → SessionRow → Bool
has_session_id session_id s = s.id == session_id

unfoldable pub active_session : ℕ → Action Db (Option SessionRow)
active_session workspace_id = gets (λ db. find (live_in workspace_id) db.sessions)

unfoldable pub get_session : ℕ → Action Db (Option SessionRow)
get_session session_id = gets (λ db. find (has_session_id session_id) db.sessions)

abbrev pub same_session_state : SessionState → SessionState → Bool
same_session_state starting starting = true
same_session_state ready ready = true
same_session_state stopping stopping = true
same_session_state stopped stopped = true
same_session_state failed failed = true
same_session_state _ _ = false

unfoldable pub sessions_in_states : List SessionState → Action Db (List SessionRow)
sessions_in_states states =
    if is_empty states
    then pure []
    else gets (λ db. select (λ s. any (same_session_state s.state) states) db.sessions)

-- The columns that `claim_session` is given.
pub record NewSession : Type 0 where
  pub session_id : ℕ
  pub workspace_id : ℕ
  pub runtime_id : String
  pub host_port : ℕ
  pub gpu_enabled : Bool
  pub agent_mode : AgentMode
  pub notebook_url : String

abbrev pub session_row : NewSession → ℕ → SessionRow
session_row n now = record {
  id = n.session_id;
  workspace_id = n.workspace_id;
  runtime_id = n.runtime_id;
  host_port = n.host_port;
  gpu_enabled = n.gpu_enabled;
  agent_mode = n.agent_mode;
  sandbox_verified = false;
  network_verified = false;
  collaboration_ready = false;
  state = starting;
  notebook_url = n.notebook_url;
  started_at = now;
  stopped_at = none;
}

-- `except sqlite3.IntegrityError: raise WorkspaceActive()` round the insertion
abbrev pub busy_on_integrity : Action Db (Unit {0}) → Action Db (Unit {0})
busy_on_integrity m db =
    let (r, db') = m db in
    elim r [
      | ok a ↦ (ok a, db')
      | err e ↦ (err (elim e [ integrity_error ↦ workspace_active | other ↦ other ]), db')
    ]

-- The body of `claim_session` where no session of the workspace is live.
unfoldable pub insert_session : NewSession → ℕ → Action Db (SessionRow × Bool)
insert_session n now = do
  rows ← gets (λ db. db.sessions)
  busy_on_integrity (set_sessions (rows ++ session_row n now ∷ []))
  found ← gets (λ db. find (has_session_id n.session_id) db.sessions)
  row ← or_raise found key_error
  pure (row, true)

-- The flag says that the session is new.
unfoldable pub claim_session : NewSession → ℕ → Bool → Action Db (SessionRow × Bool)
claim_session n now reuse_existing = atomically (do
  existing ← gets (λ db. find (live_in n.workspace_id) db.sessions)
  elim existing [
    | some s ↦ if reuse_existing then pure (s, false) else raise workspace_active
    | none ↦ insert_session n now
  ])

-- The columns that `transition_session` is given; a missing one is left alone.
pub record Transition : Type 0 where
  pub new_state : SessionState
  pub stopped_at : Option ℕ
  pub sandbox_verified : Option Bool
  pub network_verified : Option Bool
  pub collaboration_ready : Option Bool

abbrev pub apply_transition : Transition → SessionRow → SessionRow
apply_transition t s = record s {
  state = t.new_state;
  stopped_at = coalesce t.stopped_at s.stopped_at;
  sandbox_verified = or_else t.sandbox_verified s.sandbox_verified;
  network_verified = or_else t.network_verified s.network_verified;
  collaboration_ready = or_else t.collaboration_ready s.collaboration_ready;
}

-- `WHERE id = ? AND state IN (…)`
abbrev pub session_in : ℕ → List SessionState → SessionRow → Bool
session_in session_id expected_states s =
    s.id == session_id && any (same_session_state s.state) expected_states

unfoldable pub transition_session : ℕ → List SessionState → Transition → Action Db SessionRow
transition_session session_id expected_states t = do
  raise_if (is_empty expected_states) (value_error "expected_states must not be empty")
  atomically (do
    rows ← gets (λ db. db.sessions)
    set_sessions (update (session_in session_id expected_states) (apply_transition t) rows)
    raise_if (not (count (session_in session_id expected_states) rows == 1)) conflict
    found ← gets (λ db. find (has_session_id session_id) db.sessions)
    or_raise found key_error)

unfoldable pub release_session_leases : ℕ → ℕ → Action Db (Unit {0})
release_session_leases session_id now = atomically (
    modify (λ db. record db {
      leases =
          update (λ l. l.session_id == session_id)
            (λ l. record l { released_at = coalesce l.released_at (some now) }) db.leases;
    }))
