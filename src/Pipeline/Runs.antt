-- ===== src/Pipeline/Runs.antt =====
-- A run of a launch, its rollback included, keeps the runtimes confined.
use notebook_launcher.Prelude.{
  ℕ, String, Bool, true, false, Option, none, some, List, [], ◌∷◌, arith, inl, inr,
}
use notebook_launcher.Action.{Action, Result, ok, err, Error, Result-cases}
use notebook_launcher.Gpu.{GpuAllocation}
use notebook_launcher.Network.Applier.{NetworkPolicyAttestation}
use notebook_launcher.Steps.{◌>>=◌}
use notebook_launcher.Steps.Preserves.{Preserves, Preserves-bind, Preserves-both}
use notebook_launcher.State.Rows.{SessionState, LaunchRow, SessionRow, WorkspaceRow, Gpu}
use notebook_launcher.State.Sessions.{NewSession}
use notebook_launcher.Trust.{Source}
use notebook_launcher.Pipeline.{
  Services, World, BuildResult, perform, container_started, network_apply,
}
use notebook_launcher.Pipeline.Plan.{Texts}
use notebook_launcher.Pipeline.Reuse.{LaunchRequest, PipelineLaunchResult}
use notebook_launcher.Pipeline.Bindings.{
  Locals, no_locals, Frame, in_world, set_local, verify_source_binding, verify_launch_binding,
  verify_workspace_source, own,
}
use notebook_launcher.Pipeline.Launch.{
  create_workspace_for, reopen_workspace_for, prepare_workspace, gpu_allocation, start_runtime,
  claim_and_own, launch_fresh, launch_body,
}
use notebook_launcher.Pipeline.Rollback.{
  end_session, preserve_state, rescue, release_owner, undo_runtime, undo_session, roll_back_session,
  roll_back_launch, admit_launch, run_body, run, fail_launch, persisted_request, run_authorized,
}
use notebook_launcher.Pipeline.History.{IsConfined, confined_rules}
use notebook_launcher.Pipeline.Confined.{stop_and_confirm-IsConfined, removal-IsConfined}
use notebook_launcher.Pipeline.Reused.{reuse-IsConfined}

abbrev FrameConfined : Frame → Type 0
FrameConfined f = IsConfined f.0

Preserves-in_world :
    {A : Type 0} (m : Action World A)
    → Preserves IsConfined m
    → Preserves FrameConfined (in_world m)
unfolding in_world
Preserves-in_world m h = record { holds_after = λ f p. h.holds_after f.0 p }

Preserves-set_local : (f : Locals → Locals) → Preserves FrameConfined (set_local f)
unfolding set_local
Preserves-set_local f = record { holds_after = λ f h. h }

own-IsConfined : (session_id : ℕ) → Preserves IsConfined (own session_id)
unfolding own
own-IsConfined session_id = record { holds_after = λ w h. h }

ruleset frame_rules = (confined_rules, Preserves-in_world, Preserves-set_local, own-IsConfined)

module _ (x : Services) (texts : Texts) where
  prepare-IsConfined :
      (request : LaunchRequest) (source : Option Source) (launch_id now : ℕ)
      → Preserves IsConfined (prepare_workspace x texts request source launch_id now)
  unfolding prepare_workspace create_workspace_for reopen_workspace_for verify_workspace_source
  prepare-IsConfined request source launch_id now = search confined_rules depth 30

  start_confined :
      (session_id : ℕ) (start : NetworkPolicyAttestation → List _ → Result (Bool × Bool))
      → Preserves FrameConfined (
          in_world (network_apply x session_id) >>= λ a.
          in_world (perform (start a) (λ _. container_started session_id)))
  unfolding in_world ◌>>=◌ perform
  start_confined session_id start = record {
    holds_after = λ f h. elim (Result-cases (x.network_apply session_id f.0.events)) [
      | inl (a, e) ↦ ground arith
      | inr (e, q) ↦ ground arith
    ];
  }

  start_runtime_confined :
      (launch_id session_id : ℕ) (w : WorkspaceRow) (b : BuildResult) (g : GpuAllocation)
      (url : String) (now : ℕ)
      → Preserves FrameConfined (start_runtime x texts launch_id session_id w b g url now)
  unfolding start_runtime
  start_runtime_confined launch_id session_id w b g url now =
      Preserves-bind _ _ (search frame_rules) λ u. Preserves-bind _ _ (search frame_rules) λ u.
        Preserves-bind _ _ (search frame_rules) λ u.
          Preserves-both _ _ _ (start_confined session_id (λ a. x.start session_id w b.image_tag a))
            λ started. search frame_rules depth 30

  gpu-IsConfined :
      (mode : Gpu) (image : String) → Preserves IsConfined (gpu_allocation x texts mode image)
  unfolding gpu_allocation
  gpu-IsConfined mode image = search confined_rules depth 30

  claim_confined :
      (n : NewSession) (now : ℕ) → Preserves FrameConfined (claim_and_own x texts n now)
  unfolding claim_and_own
  claim_confined n now = search frame_rules depth 30

  launch_fresh_confined :
      (launch_id : ℕ) (request : LaunchRequest) (source : Source) (snapshot : Option String)
      (w : WorkspaceRow) (session_id now : ℕ)
      → Preserves FrameConfined
          (launch_fresh x texts launch_id request source snapshot w session_id now)
  unfolding launch_fresh
  launch_fresh_confined launch_id request source snapshot w session_id now =
      search
        (frame_rules, gpu-IsConfined, claim_confined, start_runtime_confined, reuse-IsConfined x)
        depth 30

  launch_body_confined :
      (launch_id : ℕ) (request : LaunchRequest) (source : Option Source) (session_id now : ℕ)
      → Preserves FrameConfined (launch_body x texts launch_id request source session_id now)
  unfolding launch_body
  launch_body_confined launch_id request source session_id now =
      search (frame_rules, prepare-IsConfined, launch_fresh_confined, reuse-IsConfined x) depth 30

  undo_runtime-IsConfined :
      (session_id : ℕ) (planned : Bool)
      → Preserves IsConfined (undo_runtime x texts session_id planned)
  unfolding undo_runtime
  undo_runtime-IsConfined session_id true = removal-IsConfined x _ true session_id
  undo_runtime-IsConfined session_id false =
      search (confined_rules, stop_and_confirm-IsConfined x) depth 30

  preserve-IsConfined :
      (s : SessionRow) (state : SessionState) (l : List Error) (now : ℕ)
      → Preserves IsConfined (preserve_state s state l now)
  unfolding preserve_state end_session
  preserve-IsConfined s SessionState.starting [] now = search confined_rules
  preserve-IsConfined s SessionState.stopping [] now = search confined_rules
  preserve-IsConfined s SessionState.starting (e ∷ l) now = search confined_rules
  preserve-IsConfined s SessionState.stopping (e ∷ l) now = search confined_rules
  preserve-IsConfined s SessionState.ready [] now = search confined_rules
  preserve-IsConfined s SessionState.ready (e ∷ l) now = search confined_rules
  preserve-IsConfined s SessionState.stopped [] now = search confined_rules
  preserve-IsConfined s SessionState.stopped (e ∷ l) now = search confined_rules
  preserve-IsConfined s SessionState.failed [] now = search confined_rules
  preserve-IsConfined s SessionState.failed (e ∷ l) now = search confined_rules

  roll_back-IsConfined :
      {A : Type 0} (launch_id : ℕ) (l : Locals) (failure : Error) (now : ℕ)
      → Preserves IsConfined (roll_back_launch x texts {A = A} launch_id l failure now)
  unfolding roll_back_launch roll_back_session undo_session fail_launch
  roll_back-IsConfined launch_id l failure now =
      search (confined_rules, undo_runtime-IsConfined, preserve-IsConfined) depth 30

  source-IsConfined :
      (row : LaunchRow) (source : Option Source)
      → Preserves IsConfined (verify_source_binding row source)
  unfolding verify_source_binding
  source-IsConfined row none = search confined_rules
  source-IsConfined row (some s) = search confined_rules

  released-IsConfined : (o : Option ℕ) (w : World) → IsConfined w → IsConfined (release_owner o w)
  released-IsConfined none w h = h
  released-IsConfined (some i) w h = h

  run_body-IsConfined :
      (launch_id : ℕ) (request : LaunchRequest) (source : Option Source) (session_id now : ℕ)
      → Preserves IsConfined (run_body x texts launch_id request source session_id now)
  unfolding run_body
  run_body-IsConfined launch_id request source session_id now = record {
    holds_after = λ w h.
        let (r, f) = launch_body x texts launch_id request source session_id now (w, no_locals) in
        rescued r f (
          (launch_body_confined launch_id request source session_id now).holds_after (w, no_locals)
            h);
  }
    where
      rescued :
          (r : Result PipelineLaunchResult) (f : Frame)
          → IsConfined f.0
          → IsConfined (
              release_owner f.1.owned
                (rescue (λ e. roll_back_launch x texts launch_id f.1 e now) r f.0).1)
      rescued (ok a) f h = released-IsConfined f.1.owned f.0 h
      rescued (err e) f h =
          released-IsConfined f.1.owned _
            ((roll_back-IsConfined launch_id f.1 e now).holds_after f.0 h)

  run-IsConfined :
      (launch_id : ℕ) (request : LaunchRequest) (source : Option Source) (session_id now : ℕ)
      → Preserves IsConfined (run x texts launch_id request source session_id now)
  unfolding run admit_launch verify_launch_binding
  run-IsConfined launch_id request source session_id now =
      search (confined_rules, source-IsConfined, run_body-IsConfined) depth 30

  pub run_authorized-IsConfined :
      (launch_id : ℕ) (source : Option Source) (session_id now : ℕ)
      → Preserves IsConfined (run_authorized x texts launch_id source session_id now)
  unfolding run_authorized persisted_request
  run_authorized-IsConfined launch_id source session_id now =
      search (confined_rules, run-IsConfined) depth 30
