-- ===== src/Pipeline/Reuse.antt =====
-- pipeline.py: `_reuse_existing_session`, which lets a launch use the live session of its workspace.
use notebook_launcher.Prelude.{
  ℕ, String, Bool, true, false, not, ◌&&◌, Option, none, some, [], ◌∷◌, ◌==◌, any, if◌then◌else◌,
}
use notebook_launcher.Action.{Action, ok, Error, runtime_error}
use notebook_launcher.Steps.{gets, on_result, pure, raise, raise_if, or_raise, attempt, ◌>>=◌, ◌>>◌}
use notebook_launcher.Gpu.{GpuAllocation, is_on, is_off}
use notebook_launcher.State.Rows.{
  SessionState, starting, ready, stopping, stopped, failed, LaunchState, Gpu, AgentMode, write,
  readonly, SessionRow,
}
use notebook_launcher.State.Launches.{LaunchUpdate, update_launch_state}
use notebook_launcher.State.Sessions.{get_session}
use notebook_launcher.State.Workspaces.{get_workspace}
use notebook_launcher.Pipeline.{Services, World, on_db, perform, work, is_alive, verified}
use notebook_launcher.Pipeline.Cleanup.{retire_session}

-- What the pipeline reads of a `LaunchRequest`.
pub record LaunchRequest : Type 0 where
  pub workspace_id : Option ℕ
  pub gpu : Gpu
  pub agent_mode : AgentMode

pub record PipelineLaunchResult : Type 0 where
  pub launch_id : ℕ
  pub workspace_id : ℕ
  pub session_id : ℕ
  pub notebook_url : String
  pub reused_existing : Bool
  pub cache_hit : Option Bool
  pub gpu : Option GpuAllocation

abbrev pub existing_result : ℕ → SessionRow → PipelineLaunchResult
existing_result launch_id s = record {
  launch_id = launch_id;
  workspace_id = s.workspace_id;
  session_id = s.id;
  notebook_url = s.notebook_url;
  reused_existing = true;
  cache_hit = none;
  gpu = none;
}

abbrev pub same_mode : AgentMode → AgentMode → Bool
same_mode write write = true
same_mode readonly readonly = true
same_mode _ _ = false

unfoldable pub assert_session_compatible : SessionRow → LaunchRequest → Action World (Unit {0})
assert_session_compatible s request = do
  raise_if (not (same_mode s.agent_mode request.agent_mode))
      (runtime_error "active workspace session agent mode does not match the launch request")
  raise_if (is_on request.gpu && not s.gpu_enabled)
      (runtime_error "GPU-required launch cannot reuse a CPU-only session")
  raise_if (is_off request.gpu && s.gpu_enabled)
      (runtime_error "GPU-disabled launch cannot reuse a GPU-enabled session")

abbrev pub is_gated : SessionRow → Bool
is_gated s = s.sandbox_verified && s.network_verified && s.collaboration_ready

-- An update of a launch with its workspace, its session and a message.
abbrev pub with_session : LaunchState → ℕ → ℕ → String → LaunchUpdate
with_session new_state workspace_id session_id message = record {
  new_state = new_state;
  workspace_id = some workspace_id;
  session_id = some session_id;
  message = some message;
  error_code = none;
}

unfoldable pub mark_launch_ready : ℕ → SessionRow → ℕ → Action World (Unit {0})
mark_launch_ready launch_id s now = on_db (
    update_launch_state launch_id (LaunchState.starting ∷ [])
      (with_session LaunchState.ready s.workspace_id s.id "Reused existing notebook runtime.") now)

module _ (x : Services) where
  unfoldable pub reattest_ready_session : SessionRow → Action World (Unit {0})
  reattest_ready_session s = do
    found ← on_db (get_workspace s.workspace_id)
    workspace ← or_raise found (runtime_error "ready session workspace is unavailable")
    attestation ← perform (x.network_verify s.id) (λ _. verified s.id)
    raise_if (not attestation.verified)
        (runtime_error "ready session network policy is not verified")
    work (x.read_credentials s)
    collaboration ← work (x.wait_ready s.id workspace.active_notebook_path)
    r ← work (x.readiness s.id s.sandbox_verified attestation.verified collaboration)
    raise_if (not (r.ready && r.sandbox_verified && r.network_verified && r.collaboration_ready))
        (runtime_error "ready session failed live readiness attestation")

  -- The live attestation of a ready session, which retires it where it fails.
  unfoldable pub reuse_attested : ℕ → SessionRow → ℕ → Action World (Option PipelineLaunchResult)
  reuse_attested launch_id s now = do
    attested ← attempt (reattest_ready_session s)
    on_result attested
        (λ u. mark_launch_ready launch_id s now >> pure (some (existing_result launch_id s)))
        (λ e. retire_session x s ready true now >> pure none)

  unfoldable pub reuse_ready :
      ℕ → LaunchRequest → SessionRow → ℕ → Action World (Option PipelineLaunchResult)
  reuse_ready launch_id request s now = do
    if not (is_gated s)
        then (retire_session x s ready true now >> pure none)
        else (is_alive x s.runtime_id >>= λ alive.
            if not alive
            then (retire_session x s ready false now >> pure none)
            else (assert_session_compatible s request >> reuse_attested launch_id s now))

  -- A session that is not starting, by its state.
  unfoldable pub reuse_in :
      SessionState → ℕ → LaunchRequest → SessionRow → ℕ → Action World (Option PipelineLaunchResult)
  reuse_in stopping launch_id request s now = raise (runtime_error "workspace runtime is stopping")
  reuse_in ready launch_id request s now = reuse_ready launch_id request s now
  reuse_in stopped launch_id request s now =
      raise (runtime_error "workspace runtime cannot be reused from stopped")
  reuse_in failed launch_id request s now =
      raise (runtime_error "workspace runtime cannot be reused from failed")
  reuse_in starting launch_id request s now =
      raise (runtime_error "workspace runtime cannot be reused from starting")

  abbrev pub reuse_settled :
      ℕ → LaunchRequest → SessionRow → ℕ → Action World (Option PipelineLaunchResult)
  reuse_settled launch_id request s now = reuse_in s.state launch_id request s now

  abbrev pub is_starting_session : SessionState → Bool
  is_starting_session starting = true
  is_starting_session _ = false

  abbrev pub is_ready_session : SessionState → Bool
  is_ready_session ready = true
  is_ready_session _ = false

  -- A starting session that no worker of this process owns.
  unfoldable pub reuse_orphan :
      ℕ → LaunchRequest → SessionRow → ℕ → Action World (Option PipelineLaunchResult)
  reuse_orphan launch_id request s now = do
    found ← on_db (get_session s.id)
    current ← or_raise found (runtime_error "existing workspace runtime disappeared during startup")
    if not (is_starting_session current.state)
        then reuse_settled launch_id request current now
        else (retire_session x s starting true now >> pure none)

  abbrev pub finished_as : SessionState → Error
  finished_as stopped = runtime_error "existing workspace runtime finished startup as stopped"
  finished_as failed = runtime_error "existing workspace runtime finished startup as failed"
  finished_as stopping = runtime_error "existing workspace runtime finished startup as stopping"
  finished_as starting = runtime_error "existing workspace runtime finished startup as starting"
  finished_as ready = runtime_error "existing workspace runtime finished startup as ready"

  -- `owner.wait(timeout=…)`
  unfoldable pub follow : ℕ → Action World Bool
  follow session_id w = let (done, db) = x.follow session_id w.db in (ok done, record w { db = db })

  -- A starting session of another worker: the launch waits for it.
  unfoldable pub reuse_followed :
      ℕ → LaunchRequest → SessionRow → ℕ → Action World (Option PipelineLaunchResult)
  reuse_followed launch_id request s now = do
    assert_session_compatible s request
    on_db (
        update_launch_state launch_id (LaunchState.starting ∷ [])
          (with_session LaunchState.starting s.workspace_id s.id
            "Following existing workspace runtime startup.")
          now)
    done ← follow s.id
    raise_if (not done) (runtime_error "timed out following existing workspace runtime startup")
    found ← on_db (get_session s.id)
    current ← or_raise found (runtime_error "existing workspace runtime disappeared during startup")
    assert_session_compatible current request
    raise_if (not (is_ready_session current.state)) (finished_as current.state)
    reuse_settled launch_id request current now

  unfoldable pub reuse_existing_session :
      ℕ → LaunchRequest → SessionRow → ℕ → Action World (Option PipelineLaunchResult)
  reuse_existing_session launch_id request s now = do
    owned ← gets (λ w. any (λ i. i == s.id) w.owners)
    if not (is_starting_session s.state)
        then reuse_settled launch_id request s now
        else if owned
        then reuse_followed launch_id request s now
        else reuse_orphan launch_id request s now
