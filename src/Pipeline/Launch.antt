-- ===== src/Pipeline/Launch.antt =====
-- pipeline.py: `LaunchPipeline.run` up to its `except`. What the rollback reads of the local
-- variables is kept beside the world.
use notebook_launcher.Prelude.{
  ℕ, String, Bool, true, false, not, ◌&&◌, Option, none, some, [], ◌∷◌, or_else, if◌then◌else◌,
}
use notebook_launcher.Action.{Action, runtime_error, value_error}
use notebook_launcher.Steps.{on_option, lift, pure, raise_if, or_raise, ◌>>=◌, ◌>>◌}
use notebook_launcher.Gpu.{GpuAllocation, unavailable, is_off, resolve_gpu_allocation}
use notebook_launcher.State.Rows.{LaunchState, SessionState, Gpu, SessionRow, WorkspaceRow}
use notebook_launcher.State.Launches.{update_launch_state}
use notebook_launcher.State.Sessions.{NewSession, active_session, claim_session, transition_session}
use notebook_launcher.Trust.{Source}
use notebook_launcher.Trust.Flow.{source_for_launch}
use notebook_launcher.Pipeline.{
  Services, World, BuildResult, on_db, perform, work, network_apply, secrets_written,
  container_started,
}
use notebook_launcher.Pipeline.Plan.{Texts, runtime_name, base_url, notebook_url}
use notebook_launcher.Pipeline.Reuse.{
  LaunchRequest, PipelineLaunchResult, with_session, reuse_existing_session,
}
use notebook_launcher.Pipeline.Bindings.{
  Frame, in_world, own, set_local, set_starting, source_from_workspace, verify_workspace_source,
}

module _ (x : Services) (texts : Texts) where
  -- The fresh workspace of a launch.
  unfoldable pub create_workspace_for :
      ℕ → Option Source → Action World (Source × (Option String × WorkspaceRow))
  create_workspace_for launch_id source = do
    stored ← on_db (source_for_launch launch_id)
    resolved ←
        or_raise (elim source [ some s ↦ some s | none ↦ stored ])
          (value_error "resolved source is required for a fresh launch")
    snapshot ← work (x.acquire resolved)
    workspace ← on_db (x.create snapshot resolved)
    pure (resolved, (some snapshot, workspace))

  unfoldable pub reopen_workspace_for :
      ℕ → Option Source → Action World (Source × (Option String × WorkspaceRow))
  reopen_workspace_for workspace_id source = do
    workspace ← on_db (x.reopen workspace_id)
    let resolved = or_else source (source_from_workspace workspace)
    verify_workspace_source workspace resolved
    pure (resolved, (none, workspace))

  unfoldable pub prepare_workspace :
      LaunchRequest → Option Source → ℕ → ℕ → Action World (Source × (Option String × WorkspaceRow))
  prepare_workspace request source launch_id now = do
    prepared ←
        on_option request.workspace_id (create_workspace_for launch_id source)
          (λ i. reopen_workspace_for i source)
    set_starting launch_id (some prepared.1.1.id) none none now
    pure prepared

  unfoldable pub gpu_allocation : Gpu → String → Action World GpuAllocation
  gpu_allocation mode image = do
    host ← if is_off mode then pure (unavailable none) else work x.host_gpu_probe
    container ←
        (if not (is_off mode) && host.available
          then (work (x.container_gpu_probe image) >>= λ c. pure (some c))
          else pure none)
    lift (resolve_gpu_allocation mode host container)

  -- The part of `run` from the runtime's secrets to its result.
  unfoldable pub start_runtime :
      ℕ
      → ℕ
      → WorkspaceRow
      → BuildResult
      → GpuAllocation
      → String
      → ℕ
      → Action Frame PipelineLaunchResult
  start_runtime launch_id session_id workspace build allocation url now = do
    in_world (
        set_starting launch_id (some workspace.id) (some session_id)
          (some "Preparing sandboxed Jupyter runtime.") now)
    in_world (perform (x.write_secrets session_id) (λ _. secrets_written session_id))
    set_local (λ l. record l { planned = true })
    attestation ← in_world (network_apply x session_id)
    started ← in_world (
        perform (x.start session_id workspace build.image_tag attestation)
          (λ _. container_started session_id))
    collaboration ← in_world (work (x.wait_ready session_id workspace.active_notebook_path))
    r ← in_world (work (x.readiness session_id started.0 started.1 collaboration))
    raise_if (not r.ready) (runtime_error "runtime readiness gates did not pass")
    private_there ← in_world (work (x.private_state_there session_id))
    raise_if (not private_there) (runtime_error "MCP private state is unavailable")
    in_world (
        on_db (
          transition_session session_id (SessionState.starting ∷ []) (record {
            new_state = SessionState.ready;
            stopped_at = none;
            sandbox_verified = some r.sandbox_verified;
            network_verified = some r.network_verified;
            collaboration_ready = some r.collaboration_ready;
          })))
    in_world (
        on_db (
          update_launch_state launch_id (LaunchState.starting ∷ [])
            (with_session LaunchState.ready workspace.id session_id "Notebook runtime is ready.")
            now))
    pure (record {
      launch_id = launch_id;
      workspace_id = workspace.id;
      session_id = session_id;
      notebook_url = url;
      reused_existing = false;
      cache_hit = some build.cache_hit;
      gpu = some allocation;
    })

  -- `claim_session`, and the owner that a new session gets
  unfoldable pub claim_and_own : NewSession → ℕ → Action Frame (SessionRow × Bool)
  claim_and_own n now = do
    claimed ← in_world (on_db (claim_session n now true))
    if claimed.1
        then (do
          in_world (own n.session_id)
          set_local (λ l. record l { owned = some n.session_id })
          pure claimed)
        else pure claimed

  -- The part of `run` behind the reuse of a session that was there.
  unfoldable pub launch_fresh :
      ℕ
      → LaunchRequest
      → Source
      → Option String
      → WorkspaceRow
      → ℕ
      → ℕ
      → Action Frame PipelineLaunchResult
  launch_fresh launch_id request source snapshot workspace session_id now = do
    root ← on_option snapshot (in_world (work (x.acquire source))) pure
    build ←
        in_world (work (x.build workspace.source_repository_id workspace.source_commit_sha root))
    allocation ← in_world (gpu_allocation request.gpu build.image_tag)
    set_local (λ l. record l { session_id = some session_id })
    host_port ← in_world (work x.allocate_port)
    let url = notebook_url texts (base_url texts host_port) workspace.active_notebook_path
    claimed ←
        claim_and_own
          (record {
            session_id = session_id;
            workspace_id = workspace.id;
            runtime_id = runtime_name texts session_id;
            host_port = host_port;
            gpu_enabled = allocation.enabled;
            agent_mode = request.agent_mode;
            notebook_url = url;
          })
          now
    if claimed.1 then start_runtime launch_id session_id workspace build allocation url now else (do
      reused ← in_world (reuse_existing_session x launch_id request claimed.0 now)
      or_raise reused (runtime_error "stale active session was retired; retry launch"))

  -- The `try` of `run`; `session_id` is the `uuid4()`.
  unfoldable pub launch_body :
      ℕ → LaunchRequest → Option Source → ℕ → ℕ → Action Frame PipelineLaunchResult
  launch_body launch_id request source session_id now = do
    prepared ← in_world (prepare_workspace request source launch_id now)
    let workspace = prepared.1.1
    set_local (λ l. record l { workspace = some workspace })
    existing ← in_world (on_db (active_session workspace.id))
    reused ←
        on_option existing (pure none)
          (λ s. in_world (reuse_existing_session x launch_id request s now))
    on_option reused
        (launch_fresh launch_id request prepared.0 prepared.1.0 workspace session_id now) pure
