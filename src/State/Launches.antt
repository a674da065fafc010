-- ===== src/State/Launches.antt =====
-- state.py: the one-time launch tokens and the launches.
use notebook_launcher.Prelude.{
  ℕ, String, Bool, true, false, not, ◌&&◌, Option, none, some, List, [], ◌∷◌, ◌++◌, ◌==◌, coalesce,
  any, find, count, update,
}
use notebook_launcher.Action.{
  Action, ok, err, conflict, integrity_error, value_error, pure, gets, raise_if, modify, atomically,
  ◌>>=◌, ◌>>◌,
}
use notebook_launcher.State.{Db, set_replays, set_launches}
use notebook_launcher.State.Rows.{
  Gpu, AgentMode, LaunchState, pending_trust, authorized, starting, ready, failed, stopped,
  LaunchRow,
}

-- `except sqlite3.IntegrityError: return False`
abbrev pub false_on_integrity : Action Db Bool → Action Db Bool
false_on_integrity m db =
    let (r, db') = m db in
    elim r [
      | ok a ↦ (ok a, db')
      | err e ↦ (elim e [ integrity_error ↦ ok false | other ↦ err other ], db')
    ]

unfoldable pub consume_launch_jti : String → String → ℕ → Action Db Bool
consume_launch_jti jti_hash request_digest consumed_at = false_on_integrity (
    atomically (do
      rows ← gets (λ db. db.replays)
      set_replays (
          rows
          ++ record {
            jti_hash = jti_hash;
            request_digest = request_digest;
            consumed_at = consumed_at;
          }
            ∷ [])
      pure true))

-- The columns that `create_launch` is given.
pub record NewLaunch : Type 0 where
  pub request_digest : String
  pub repository_id : Option ℕ
  pub commit_sha : Option String
  pub notebook_path : Option String
  pub workspace_id : Option ℕ
  pub gpu : Gpu
  pub agent_mode : AgentMode
  pub trust_covered : Bool
  pub state : LaunchState

abbrev pub launch_row : ℕ → NewLaunch → ℕ → LaunchRow
launch_row launch_id n now = record {
  id = launch_id;
  request_digest = n.request_digest;
  repository_id = n.repository_id;
  commit_sha = n.commit_sha;
  notebook_path = n.notebook_path;
  workspace_id = n.workspace_id;
  gpu = n.gpu;
  agent_mode = n.agent_mode;
  trust_covered = n.trust_covered;
  state = n.state;
  session_id = none;
  message = none;
  error_code = none;
  created_at = now;
  updated_at = now;
}

-- `launch_id` is the `uuid4()`.
unfoldable pub create_launch : ℕ → NewLaunch → ℕ → Action Db ℕ
unfolding set_launches
create_launch launch_id n now = atomically (do
  rows ← gets (λ db. db.launches)
  set_launches (rows ++ launch_row launch_id n now ∷ [])
  pure launch_id)

abbrev pub has_launch_id : ℕ → LaunchRow → Bool
has_launch_id launch_id l = l.id == launch_id

unfoldable pub get_launch : ℕ → Action Db (Option LaunchRow)
get_launch launch_id = gets (λ db. find (has_launch_id launch_id) db.launches)

abbrev pub same_launch_state : LaunchState → LaunchState → Bool
same_launch_state pending_trust pending_trust = true
same_launch_state authorized authorized = true
same_launch_state starting starting = true
same_launch_state ready ready = true
same_launch_state failed failed = true
same_launch_state stopped stopped = true
same_launch_state _ _ = false

-- `WHERE id = ? AND state IN (…)`
abbrev pub launch_in : ℕ → List LaunchState → LaunchRow → Bool
launch_in launch_id expected_states l =
    l.id == launch_id && any (same_launch_state l.state) expected_states

-- The columns that `update_launch_state` is given; a missing id keeps the old one.
pub record LaunchUpdate : Type 0 where
  pub new_state : LaunchState
  pub workspace_id : Option ℕ
  pub session_id : Option ℕ
  pub message : Option String
  pub error_code : Option String

abbrev pub apply_update : LaunchUpdate → ℕ → LaunchRow → LaunchRow
apply_update u now l = record l {
  state = u.new_state;
  updated_at = now;
  workspace_id = coalesce u.workspace_id l.workspace_id;
  session_id = coalesce u.session_id l.session_id;
  message = u.message;
  error_code = u.error_code;
}

abbrev pub is_empty {ℓ} : {A : Type ℓ} → List A → Bool
is_empty [] = true
is_empty (x ∷ xs) = false

unfoldable pub update_launch_state : ℕ → List LaunchState → LaunchUpdate → ℕ → Action Db (Unit {0})
update_launch_state launch_id expected_states u now = do
  raise_if (is_empty expected_states) (value_error "expected_states must not be empty")
  atomically (do
    rows ← gets (λ db. db.launches)
    modify (λ db. record db {
      launches = update (launch_in launch_id expected_states) (apply_update u now) rows;
    })
    raise_if (not (count (launch_in launch_id expected_states) rows == 1)) conflict)

abbrev pub is_starting : LaunchState → Bool
is_starting starting = true
is_starting _ = false

-- `session_id = ?`, which holds of no missing value
abbrev pub is_of_session : ℕ → Option ℕ → Bool
is_of_session session_id none = false
is_of_session session_id (some s) = s == session_id

abbrev pub starting_for : ℕ → LaunchRow → Bool
starting_for session_id l = is_of_session session_id l.session_id && is_starting l.state

-- The answer is the number of rows.
unfoldable pub fail_launches_for_session : ℕ → ℕ → String → String → Action Db ℕ
fail_launches_for_session session_id now message error_code = atomically (do
  rows ← gets (λ db. db.launches)
  modify (λ db. record db {
    launches =
        update (starting_for session_id)
          (λ l. record l {
            state = failed;
            updated_at = now;
            message = some message;
            error_code = some error_code;
          })
          rows;
  })
  pure (count (starting_for session_id) rows))
