-- ===== src/Pipeline/Cleanup.antt =====
-- pipeline.py: stopping runtimes, retiring sessions, and `LaunchPipeline.stop`. `now` is the time of
-- the call.
use notebook_launcher.Prelude.{
  ℕ, suc, String, Bool, true, false, ◌&&◌, Option, none, some, List, [], ◌∷◌, ◌++◌, ◌==◌, any,
  select, if◌then◌else◌,
}
use notebook_launcher.Action.{Action, Result, ok, err, Error, runtime_error, exception_group}
use notebook_launcher.Steps.{on_option, on_list, pure, raise, gets, attempt, ◌>>=◌, ◌>>◌}
use notebook_launcher.State.Rows.{
  SessionState, starting, ready, stopping, stopped, failed, LaunchState, LaunchRow, SessionRow,
}
use notebook_launcher.State.Launches.{update_launch_state, fail_launches_for_session}
use notebook_launcher.State.Sessions.{
  Transition, get_session, sessions_in_states, transition_session, release_session_leases,
}
use notebook_launcher.Pipeline.{
  Services, World, stopped as runtime_stopped, invalidated, on_db, perform, is_alive,
  network_remove,
}

-- The failures of a call that was tried.
abbrev pub failures_of : {A : Type 0} → Result A → List Error
failures_of (ok _) = []
failures_of (err e) = e ∷ []

abbrev pub remained_alive : List Error → List Error
remained_alive [] = runtime_error "runtime remained alive during cleanup" ∷ []
remained_alive (e ∷ l) = e ∷ l

-- `_raise_cleanup_failures`; the list of an `ExceptionGroup` is folded.
abbrev pub group : Error → List Error → Error
group e [] = e
group e (f ∷ l) = exception_group e (group f l)

-- A transition to a state, with the time of the stop if there is one.
abbrev pub becomes : SessionState → Option ℕ → Transition
becomes new_state stopped_at = record {
  new_state = new_state;
  stopped_at = stopped_at;
  sandbox_verified = none;
  network_verified = none;
  collaboration_ready = none;
}

module _ (x : Services) where
  unfoldable pub stop_and_confirm_runtime : String → Bool → Action World (Bool × List Error)
  stop_and_confirm_runtime runtime_id stop_if_alive = do
    alive ← attempt (is_alive x runtime_id)
    elim alive [
      | err e ↦ pure (false, e ∷ [])
      | ok a ↦ do
        stop_answer ←
            (if a && stop_if_alive
              then attempt (perform (x.stop runtime_id) (λ _. runtime_stopped runtime_id))
              else pure (ok tt))
        still_alive ← attempt (is_alive x runtime_id)
        elim still_alive [
          | err e ↦ pure (false, failures_of stop_answer ++ e ∷ [])
          | ok b ↦
              if b
              then pure (false, remained_alive (failures_of stop_answer))
              else pure (true, failures_of stop_answer)
        ]
    ]

  -- `if runtime_confirmed_stopped: try: self.network.remove(plan)`, and the failures after it
  unfoldable pub remove_if_confirmed : ℕ → Bool × List Error → Action World (List Error)
  remove_if_confirmed session_id (confirmed, failures) =
      if confirmed
      then (attempt (network_remove x session_id) >>= λ r. pure (failures ++ failures_of r))
      else pure failures

  abbrev pub invalidate_session_private_state : ℕ → Action World (Unit {0})
  invalidate_session_private_state session_id =
      perform (x.invalidate session_id) (λ _. invalidated session_id)

  -- The two statements that follow every cleanup of a runtime.
  abbrev pub release_session : ℕ → ℕ → Action World (Unit {0})
  release_session session_id now = do
    invalidate_session_private_state session_id
    on_db (release_session_leases session_id now)

  abbrev pub is_stopping : SessionState → Bool
  is_stopping stopping = true
  is_stopping _ = false

  -- The end of `_retire_session` where the cleanup failed.
  unfoldable pub retire_failed :
      {A : Type 0} → SessionRow → SessionState → Error → List Error → Action World A
  retire_failed session expected_state e failures =
      if is_stopping session.state
      then raise (group e failures)
      else (attempt
            (on_db (transition_session session.id (expected_state ∷ []) (becomes stopping none)))
          >>= λ r. raise (group e (failures ++ failures_of r)))

  unfoldable pub retire_session : SessionRow → SessionState → Bool → ℕ → Action World (Unit {0})
  retire_session session expected_state stop_if_alive now = do
    confirmed ← stop_and_confirm_runtime session.runtime_id stop_if_alive
    failures ← remove_if_confirmed session.id confirmed
    release_session session.id now
    on_list failures
        (do
          on_db (transition_session session.id (expected_state ∷ []) (becomes failed (some now)))
          on_db (
              fail_launches_for_session session.id now
                "Previous runtime did not survive launcher restart." "stale_runtime_reconciled")
          pure tt)
        (retire_failed session expected_state)

  -- `for session in …` of `reconcile_starting_sessions`
  unfoldable pub reconcile_each : List SessionRow → ℕ → Action World ℕ
  reconcile_each [] now = pure 0
  reconcile_each (s ∷ l) now = do
    owned ← gets (λ w. any (λ i. i == s.id) w.owners)
    if owned
        then reconcile_each l now
        else (do retire_session s starting true now; n ← reconcile_each l now; pure (suc n))

  unfoldable pub reconcile_starting_sessions : ℕ → Action World ℕ
  reconcile_starting_sessions now = do
    sessions ← on_db (sessions_in_states (starting ∷ []))
    reconcile_each sessions now

  -- `WHERE workspace_id = ? AND state IN ('starting','ready')`
  abbrev pub is_running : LaunchState → Bool
  is_running LaunchState.starting = true
  is_running LaunchState.ready = true
  is_running _ = false

  abbrev pub of_workspace : ℕ → Option ℕ → Bool
  of_workspace workspace_id none = false
  of_workspace workspace_id (some i) = i == workspace_id

  abbrev pub running_in : ℕ → LaunchRow → Bool
  running_in workspace_id l = of_workspace workspace_id l.workspace_id && is_running l.state

  -- `for row in rows: try: …`
  unfoldable pub update_each : List LaunchRow → LaunchState → ℕ → ℕ → Action World (Unit {0})
  update_each [] new_state workspace_id now = pure tt
  update_each (l ∷ rows) new_state workspace_id now = do
    attempt (
        on_db (
          update_launch_state l.id (l.state ∷ [])
            (record {
              new_state = new_state;
              workspace_id = some workspace_id;
              session_id = none;
              message = none;
              error_code = none;
            })
            now))
    update_each rows new_state workspace_id now

  unfoldable pub set_workspace_launch_state : ℕ → LaunchState → ℕ → Action World (Unit {0})
  set_workspace_launch_state workspace_id new_state now = do
    rows ← on_db (gets (λ db. select (running_in workspace_id) db.launches))
    update_each rows new_state workspace_id now

  -- `stop` of a session that has ended.
  unfoldable pub stop_ended : SessionRow → ℕ → Action World Bool
  stop_ended session now = do
    release_session session.id now
    set_workspace_launch_state session.workspace_id LaunchState.stopped now
    pure true

  -- `stop` of a session that is stopping.
  unfoldable pub stop_live : SessionRow → ℕ → Action World Bool
  stop_live session now = do
    confirmed ← stop_and_confirm_runtime session.runtime_id true
    failures ← remove_if_confirmed session.id confirmed
    release_session session.id now
    on_list failures
        (do
          on_db (transition_session session.id (stopping ∷ []) (becomes stopped (some now)))
          set_workspace_launch_state session.workspace_id LaunchState.stopped now
          pure true)
        (λ e l. raise (group e l))

  -- `stop` of a session that has not ended, from the transition to stopping.
  unfoldable pub stop_running : SessionRow → ℕ → Action World Bool
  stop_running s now = do
    t ← on_db (transition_session s.id (starting ∷ ready ∷ []) (becomes stopping none))
    stop_live t now

  unfoldable pub stop_found : SessionRow → SessionState → ℕ → Action World Bool
  stop_found s stopped now = stop_ended s now
  stop_found s failed now = stop_ended s now
  stop_found s stopping now = stop_live s now
  stop_found s starting now = stop_running s now
  stop_found s ready now = stop_running s now

  unfoldable pub stop : ℕ → ℕ → Action World Bool
  stop session_id now = do
    found ← on_db (get_session session_id)
    on_option found (pure false) (λ s. stop_found s s.state now)
