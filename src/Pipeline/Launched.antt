-- ===== src/Pipeline/Launched.antt =====
-- A run that returns leaves the launch ready, from its last statements to the whole of `run`.
use notebook_launcher.Prelude.{ℕ, ◌≡◌, String, Option, none, some, [], ◌∷◌}
use notebook_launcher.Action.{Action, Result, ok, err, Error}
use notebook_launcher.Gpu.{GpuAllocation}
use notebook_launcher.Steps.{◌>>=◌, ◌>>◌, pure, on_option, or_raise}
use notebook_launcher.Steps.Ends.{
  Ends, Returned, Ends-intro, Ends-elim, returned_at, Ends-then, Ends-bind, Ends-option, ends_rules,
}
use notebook_launcher.State.Rows.{LaunchState, SessionRow, WorkspaceRow}
use notebook_launcher.State.Launches.{update_launch_state}
use notebook_launcher.Trust.{Source}
use notebook_launcher.Pipeline.{Services, World, BuildResult, on_db}
use notebook_launcher.Pipeline.Plan.{Texts}
use notebook_launcher.Pipeline.Reuse.{
  LaunchRequest, PipelineLaunchResult, with_session, reuse_existing_session,
}
use notebook_launcher.Pipeline.Bindings.{Locals, no_locals, Frame, in_world}
use notebook_launcher.Pipeline.Launch.{start_runtime, launch_fresh, launch_body}
use notebook_launcher.Pipeline.Rollback.{
  rescue, release_owner, roll_back_launch, run_body, run, run_authorized,
}
use notebook_launcher.Pipeline.Ready.{
  IsLaunched, Reused, Launched, Ends-in_world, marked, reuse-Reused,
}

module _ (x : Services) (launch_id : ℕ) where
  last-Launched :
      (workspace_id session_id : ℕ) (message : String) (now : ℕ) (r : PipelineLaunchResult)
      → r.launch_id ≡ launch_id
      → r.workspace_id ≡ workspace_id
      → r.session_id ≡ session_id
      → Ends (Launched launch_id) (
          in_world (
            on_db (
              update_launch_state launch_id
                (LaunchState.starting ∷ [])
                (with_session LaunchState.ready workspace_id session_id message)
                now))
          >> pure r)
  unfolding pure
  last-Launched workspace_id session_id message now r h p q =
      Ends-then _ _ (Ends-in_world _ _ (marked launch_id workspace_id session_id message now))
        λ u f m. (h, rw (p, q) m)

  body-Launched :
      (m : Action Frame (Option PipelineLaunchResult)) (k : Action Frame PipelineLaunchResult)
      → Ends (λ r (f : Frame). Reused launch_id r f.0) m
      → Ends (Launched launch_id) k
      → Ends (Launched launch_id) (m >>= λ r. on_option r k pure)
  unfolding pure on_option
  body-Launched m k h g = Ends-then m _ h λ r f p.
      elim r
          as (λ r. Reused launch_id r f.0 → Returned (Launched launch_id) (on_option r k pure f)) [
            | none ↦ λ p. g.after f
            | some r ↦ λ p. p
          ]
        p

  module _ (texts : Texts) where
    start-Launched :
        (session_id : ℕ) (w : WorkspaceRow) (b : BuildResult) (g : GpuAllocation) (url : String)
        (now : ℕ)
        → Ends (Launched launch_id) (start_runtime x texts launch_id session_id w b g url now)
    unfolding start_runtime
    start-Launched session_id w b g url now =
        search (ends_rules, last-Launched w.id session_id) depth 40

    claimed-Launched :
        (request : LaunchRequest) (s : SessionRow) (now : ℕ) (e : Error)
        → Ends
            (Launched launch_id)
            (in_world (reuse_existing_session x launch_id request s now) >>= λ r. or_raise r e)
    unfolding or_raise
    claimed-Launched request s now e =
        Ends-then _ _ (Ends-in_world _ _ (reuse-Reused x launch_id request s now)) λ r f p.
          elim r
              as (λ r.
                Reused launch_id r f.0
                → Returned (Launched launch_id) (or_raise {S = Frame} r e f)) [
                  | none ↦ λ p. tt
                  | some r ↦ λ p. p
                ]
            p

    fresh-Launched :
        (request : LaunchRequest) (source : Source) (snapshot : Option String) (w : WorkspaceRow)
        (session_id now : ℕ)
        → Ends
            (Launched launch_id)
            (launch_fresh x texts launch_id request source snapshot w session_id now)
    unfolding launch_fresh
    fresh-Launched request source snapshot w session_id now =
        search (ends_rules, start-Launched, claimed-Launched) depth 40

    launch-Launched :
        (request : LaunchRequest) (source : Option Source) (session_id now : ℕ)
        → Ends (Launched launch_id) (launch_body x texts launch_id request source session_id now)
    unfolding launch_body
    launch-Launched request source session_id now = Ends-bind _ _ λ p. Ends-bind _ _ λ u.
        Ends-bind _ _ λ existing.
          body-Launched _ _
            (Ends-option existing _ _ no_session
              λ s. Ends-in_world _ _ (reuse-Reused x launch_id request s now))
            (fresh-Launched request p.0 p.1.0 p.1.1 session_id now)
      where
        no_session : Ends (λ r (f : Frame). Reused launch_id r f.0) (pure none)
        no_session = unfold pure in record { after = λ f. tt }

    rolled-IsLaunched :
        (l : Locals) (e : Error) (now : ℕ)
        → Ends (IsLaunched launch_id) (roll_back_launch x texts launch_id l e now)
    unfolding roll_back_launch
    rolled-IsLaunched l e now = search ends_rules

    release-IsLaunched :
        (r : PipelineLaunchResult) (o : Option ℕ) (w : World)
        → IsLaunched launch_id r w
        → IsLaunched launch_id r (release_owner o w)
    release-IsLaunched r none w h = h
    release-IsLaunched r (some i) w h = h

    run_body-IsLaunched :
        (request : LaunchRequest) (source : Option Source) (session_id now : ℕ)
        → Ends (IsLaunched launch_id) (run_body x texts launch_id request source session_id now)
    unfolding run_body
    run_body-IsLaunched request source session_id now = Ends-intro _ λ w r e.
        let (b, f) = launch_body x texts launch_id request source session_id now (w, no_locals) in
        rescued b f r ((launch-Launched request source session_id now).after (w, no_locals)) e
      where
        rescued :
            (b : Result PipelineLaunchResult) (f : Frame) (r : PipelineLaunchResult)
            → Returned (Launched launch_id) (b, f)
            → (rescue (λ e. roll_back_launch x texts launch_id f.1 e now) b f.0).0 ≡ ok r
            → IsLaunched launch_id r (
                release_owner f.1.owned
                  (rescue (λ e. roll_back_launch x texts launch_id f.1 e now) b f.0).1)
        rescued (ok a) f r h e =
            release-IsLaunched r f.1.owned f.0 (returned_at (IsLaunched launch_id) (ok a) f.0 r h e)
        rescued (err q) f r h e =
            release-IsLaunched r f.1.owned _ (Ends-elim _ (rolled-IsLaunched f.1 q now) f.0 r e)

    run-IsLaunched :
        (request : LaunchRequest) (source : Option Source) (session_id now : ℕ)
        → Ends (IsLaunched launch_id) (run x texts launch_id request source session_id now)
    unfolding run
    run-IsLaunched request source session_id now =
        Ends-bind _ _ λ u. run_body-IsLaunched request source session_id now

    pub run_authorized-Launched :
        (source : Option Source) (session_id now : ℕ)
        → Ends (IsLaunched launch_id) (run_authorized x texts launch_id source session_id now)
    unfolding run_authorized
    run_authorized-Launched source session_id now =
        Ends-bind _ _ λ p. run-IsLaunched p.0 p.1 session_id now
