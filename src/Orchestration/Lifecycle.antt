-- ===== src/Orchestration/Lifecycle.antt =====
-- orchestration.py: `LifecycleOrchestrator`. The state is the history of the calls of the store, the
-- runtime, the invalidators and the starter, newest first; each answers by that history. An
-- invalidator is its place in the list.
use notebook_launcher.Prelude.{
  ℕ, zero, suc, ◌-◌, String, Bool, true, false, not, Option, none, some, List, ◌∷◌, if◌then◌else◌,
}
use notebook_launcher.Action.{Action, Result, ok, err, is_ok, file_not_found}
use notebook_launcher.Steps.{pure, raise_if, on_option, ◌>>=◌, ◌>>◌}
use notebook_launcher.State.Rows.{SessionState, starting, ready, stopping, stopped, failed}

pub record SessionSnapshot : Type 0 where
  pub session_id : ℕ
  pub workspace_id : ℕ
  pub runtime_id : String
  pub state : SessionState

-- A call, with the session, workspace or runtime that it is about, and its answer where it decides.
pub data Event : Type 0 where
  looked_up : ℕ → Result (Option SessionSnapshot) → Event
  looked_for_active : Result (Option SessionSnapshot) → Event
  authorized : Bool → Event
  notebook_there : ℕ → Bool → Event
  liveness : String → Result Bool → Event
  runtime_stopped : String → Bool → Event
  invalidated : ℕ → ℕ → Event
  marked : ℕ → SessionState → Event
  started : ℕ → Event

abbrev pub History : Type 0
History = List Event

abbrev pub Answer : Type 0 → Type 0
Answer A = History → Result A

pub record Collaborators : Type 0 where
  pub require_authorized_launch : ℕ → ℕ → Answer (Unit {0})
  pub active_session : ℕ → Answer (Option SessionSnapshot)
  pub get_session : ℕ → Answer (Option SessionSnapshot)
  pub active_notebook_exists : ℕ → Answer Bool
  pub mark_session_state : ℕ → SessionState → Answer (Unit {0})
  pub is_alive : String → Answer Bool
  pub stop : String → Answer (Unit {0})
  pub invalidators : ℕ
  pub invalidate : ℕ → ℕ → Answer (Unit {0})
  pub start : ℕ → ℕ → Answer SessionSnapshot

unfoldable pub perform : {A : Type 0} → Answer A → (Result A → Event) → Action History A
perform answer event h = let r = answer h in (r, event r ∷ h)

abbrev pub is_there : Result Bool → Bool
is_there (ok b) = b
is_there (err e) = false

abbrev pub is_live : SessionState → Bool
is_live starting = true
is_live ready = true
is_live stopping = true
is_live _ = false

module _ (x : Collaborators) where
  abbrev pub get_session : ℕ → Action History (Option SessionSnapshot)
  get_session session_id = perform (x.get_session session_id) (looked_up session_id)

  abbrev pub is_alive : String → Action History Bool
  is_alive runtime_id = perform (x.is_alive runtime_id) (liveness runtime_id)

  abbrev pub mark_session_state : ℕ → SessionState → Action History (Unit {0})
  mark_session_state session_id state =
      perform (x.mark_session_state session_id state) (λ _. marked session_id state)

  abbrev pub active_session : ℕ → Action History (Option SessionSnapshot)
  active_session workspace_id = perform (x.active_session workspace_id) looked_for_active

  abbrev pub active_notebook_exists : ℕ → Action History Bool
  active_notebook_exists workspace_id =
      perform (x.active_notebook_exists workspace_id)
        (λ r. notebook_there workspace_id (is_there r))

  abbrev pub stop_container : String → Action History (Unit {0})
  stop_container runtime_id =
      perform (x.stop runtime_id) (λ r. runtime_stopped runtime_id (is_ok r))

  abbrev pub invalidate : ℕ → ℕ → Action History (Unit {0})
  invalidate invalidator session_id =
      perform (x.invalidate invalidator session_id) (λ _. invalidated invalidator session_id)

  abbrev pub start_session : ℕ → ℕ → Action History SessionSnapshot
  start_session workspace_id launch_id =
      perform (x.start workspace_id launch_id) (λ _. started workspace_id)

  -- `for invalidator in self.invalidators`, of which some are left
  unfoldable pub invalidate_each : ℕ → ℕ → Action History (Unit {0})
  invalidate_each zero session_id = pure tt
  invalidate_each (suc left) session_id = do
    invalidate (x.invalidators - suc left) session_id
    invalidate_each left session_id

  -- The invalidators, and then the mark that the session has ended.
  unfoldable pub end_session : ℕ → SessionState → Action History (Unit {0})
  end_session session_id state = do
    invalidate_each x.invalidators session_id
    mark_session_state session_id state

  unfoldable pub reconcile_live : SessionSnapshot → ℕ → Action History Bool
  reconcile_live s session_id = do
    alive ← is_alive s.runtime_id
    if alive then pure true else (end_session session_id failed >> pure false)

  unfoldable pub reconcile : ℕ → Action History Bool
  reconcile session_id = do
    snapshot ← get_session session_id
    on_option snapshot (pure false)
        (λ s. if is_live s.state then reconcile_live s session_id else pure false)

  unfoldable pub status : ℕ → Action History (Option SessionSnapshot)
  status session_id = do
    snapshot ← get_session session_id
    on_option snapshot (pure none) (λ s.
        if is_live s.state then (reconcile session_id >> get_session session_id) else pure (some s))

  unfoldable pub stop_runtime : String → Action History (Unit {0})
  stop_runtime runtime_id = do
    alive ← is_alive runtime_id
    if alive then stop_container runtime_id else pure tt

  unfoldable pub stop_live : SessionSnapshot → ℕ → Action History Bool
  stop_live s session_id = do
    mark_session_state session_id stopping
    stop_runtime s.runtime_id
    end_session session_id stopped
    pure true

  unfoldable pub stop : ℕ → Action History Bool
  stop session_id = do
    snapshot ← get_session session_id
    on_option snapshot (pure false) (λ s.
        if is_live s.state
        then stop_live s session_id
        else (invalidate_each x.invalidators session_id >> pure true))

  unfoldable pub start_fresh : ℕ → ℕ → Action History (SessionSnapshot × Bool)
  start_fresh workspace_id launch_id = do
    there ← active_notebook_exists workspace_id
    raise_if (not there) file_not_found
    s ← start_session workspace_id launch_id
    pure (s, false)

  unfoldable pub reopen_existing : SessionSnapshot → ℕ → ℕ → Action History (SessionSnapshot × Bool)
  reopen_existing s workspace_id launch_id = do
    alive ← is_alive s.runtime_id
    if alive
        then pure (s, true)
        else (end_session s.session_id failed >> start_fresh workspace_id launch_id)

  unfoldable pub reopen : ℕ → ℕ → Action History (SessionSnapshot × Bool)
  reopen workspace_id launch_id = do
    perform (x.require_authorized_launch launch_id workspace_id) (λ r. authorized (is_ok r))
    existing ← active_session workspace_id
    on_option existing (start_fresh workspace_id launch_id)
        (λ s. reopen_existing s workspace_id launch_id)
