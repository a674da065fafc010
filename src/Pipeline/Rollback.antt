-- ===== src/Pipeline/Rollback.antt =====
-- pipeline.py: the `except` of `run`, and `run`.
use notebook_launcher.Prelude.{
  ℕ, Bool, true, false, not, Option, none, some, List, [], ◌∷◌, ◌++◌, ◌==◌, select, if◌then◌else◌,
}
use notebook_launcher.Action.{Action, Result, ok, err, Error, value_error, key_error}
use notebook_launcher.Steps.{on_option, pure, raise, raise_if, or_raise, attempt, ◌>>=◌, ◌>>◌}
use notebook_launcher.State.Rows.{LaunchState, SessionState, SessionRow, WorkspaceRow}
use notebook_launcher.State.Launches.{
  LaunchUpdate, get_launch, update_launch_state, same_launch_state,
}
use notebook_launcher.State.Sessions.{get_session, transition_session}
use notebook_launcher.Trust.{Source}
use notebook_launcher.Trust.Flow.{source_for_launch}
use notebook_launcher.Pipeline.{Services, World, on_db}
use notebook_launcher.Pipeline.Plan.{Texts, runtime_name}
use notebook_launcher.Pipeline.Cleanup.{
  failures_of, group, becomes, stop_and_confirm_runtime, remove_if_confirmed, release_session,
}
use notebook_launcher.Pipeline.Reuse.{LaunchRequest, PipelineLaunchResult}
use notebook_launcher.Pipeline.Bindings.{Locals, no_locals, verify_launch_binding, still_starting}
use notebook_launcher.Pipeline.Launch.{launch_body}

abbrev pub launch_failed : Option WorkspaceRow → LaunchUpdate
launch_failed workspace = record {
  new_state = LaunchState.failed;
  workspace_id = elim workspace [ none ↦ none | some w ↦ some w.id ];
  session_id = none;
  message = some "Notebook runtime launch failed.";
  error_code = some "launch_pipeline_failed";
}

-- `row["state"] in {"authorized", "starting"}`
abbrev pub is_underway : LaunchState → Bool
is_underway LaunchState.authorized = true
is_underway LaunchState.starting = true
is_underway _ = false

unfoldable pub fail_launch : ℕ → Option WorkspaceRow → ℕ → Action World (Unit {0})
fail_launch launch_id workspace now = do
  found ← on_db (get_launch launch_id)
  on_option found (pure tt) (λ row.
      if is_underway row.state
      then (attempt
            (on_db (update_launch_state launch_id (row.state ∷ []) (launch_failed workspace) now))
          >> pure tt)
      else pure tt)

unfoldable pub end_session : SessionRow → ℕ → Action World (Unit {0})
end_session s now =
    attempt
      (on_db (transition_session s.id (s.state ∷ []) (becomes SessionState.failed (some now))))
    >> pure tt

-- What the rollback makes of a session in this state.
unfoldable pub preserve_state : SessionRow → SessionState → List Error → ℕ → Action World (Unit {0})
preserve_state s SessionState.starting [] now = end_session s now
preserve_state s SessionState.stopping [] now = end_session s now
preserve_state s SessionState.starting (e ∷ failures) now =
    attempt (on_db (transition_session s.id (s.state ∷ []) (becomes SessionState.stopping none)))
    >> pure tt
preserve_state s _ _ now = pure tt

-- `_raise_cleanup_failures(…, cause=launch_failure)`, or the failure itself
abbrev pub final_failure : Error → List Error → Error
final_failure failure [] = failure
final_failure failure (e ∷ l) = group e l

-- `except Exception as e: …` after a body that ended so
abbrev pub rescue : {A : Type 0} → (Error → Action World A) → Result A → Action World A
rescue handler (ok a) w = (ok a, w)
rescue handler (err e) w = handler e w

abbrev pub release_owner : Option ℕ → World → World
release_owner none w = w
release_owner (some i) w = record w { owners = select (λ j. not (j == i)) w.owners }

module _ (x : Services) (texts : Texts) where
  -- The runtime of the session is stopped, and then its network removed if there is a plan.
  unfoldable pub undo_runtime : ℕ → Bool → Action World (List Error)
  undo_runtime session_id planned = do
    confirmed ← stop_and_confirm_runtime x (runtime_name texts session_id) true
    if planned then remove_if_confirmed x session_id confirmed else pure confirmed.1

  unfoldable pub undo_session : ℕ → List Error → ℕ → Action World (Unit {0})
  undo_session session_id failures now = do
    release_session x session_id now
    found ← on_db (get_session session_id)
    on_option found (pure tt) (λ s. preserve_state s s.state failures now)

  unfoldable pub roll_back_session : Locals → ℕ → Action World (List Error)
  roll_back_session l now =
      on_option l.session_id (pure [])
        (λ i. do failures ← undo_runtime i l.planned; undo_session i failures now; pure failures)

  unfoldable pub roll_back_launch : {A : Type 0} → ℕ → Locals → Error → ℕ → Action World A
  roll_back_launch launch_id l failure now = do
    failures ← roll_back_session l now
    r ← attempt (fail_launch launch_id l.workspace now)
    raise (final_failure failure (failures ++ failures_of r))

  unfoldable pub admit_launch : ℕ → LaunchRequest → Option Source → ℕ → Action World (Unit {0})
  admit_launch launch_id request source now = do
    found ← on_db (get_launch launch_id)
    launch ← or_raise found key_error
    raise_if (not (same_launch_state launch.state LaunchState.authorized))
        (value_error "launch is not authorized")
    verify_launch_binding launch request source
    on_db (
        update_launch_state launch_id (LaunchState.authorized ∷ []) (still_starting none none none)
          now)

  -- `try: … except: … finally: …` round the body
  unfoldable pub run_body :
      ℕ → LaunchRequest → Option Source → ℕ → ℕ → Action World PipelineLaunchResult
  run_body launch_id request source session_id now w =
      let (r, f) = launch_body x texts launch_id request source session_id now (w, no_locals) in
      let (r', w') = rescue (λ e. roll_back_launch launch_id f.1 e now) r f.0 in
      (r', release_owner f.1.owned w')

  unfoldable pub run : ℕ → LaunchRequest → Option Source → ℕ → ℕ → Action World PipelineLaunchResult
  run launch_id request source session_id now = do
    admit_launch launch_id request source now
    run_body launch_id request source session_id now

-- `_persisted_request`: the request of a launch as it was authorised.
unfoldable pub persisted_request : ℕ → Option Source → Action World (LaunchRequest × Option Source)
persisted_request launch_id source = do
  found ← on_db (get_launch launch_id)
  launch ← or_raise found key_error
  raise_if (not (same_launch_state launch.state LaunchState.authorized))
      (value_error "launch is not authorized")
  on_option launch.workspace_id
      (do
        stored ← on_db (source_for_launch launch_id)
        resolved ←
            or_raise (elim source [ some s ↦ some s | none ↦ stored ])
              (value_error "resolved source is required for a fresh launch")
        pure (
          record { workspace_id = none; gpu = launch.gpu; agent_mode = launch.agent_mode },
          some resolved,
        ))
      (λ i. pure (
        record { workspace_id = some i; gpu = launch.gpu; agent_mode = launch.agent_mode },
        source,
      ))

-- `run_authorized`
unfoldable pub run_authorized :
    Services → Texts → ℕ → Option Source → ℕ → ℕ → Action World PipelineLaunchResult
run_authorized x texts launch_id source session_id now = do
  persisted ← persisted_request launch_id source
  run x texts launch_id persisted.0 persisted.1 session_id now
