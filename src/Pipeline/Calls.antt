-- ===== src/Pipeline/Calls.antt =====
-- The calls of a pipeline one after another, and what every one of them guarantees.
use notebook_launcher.Prelude.{ℕ, ◌≡◌, Option, List, [], ◌∷◌, refl}
use notebook_launcher.Action.{ok}
use notebook_launcher.Steps.Ends.{Ends-elim}
use notebook_launcher.Trust.{Source}
use notebook_launcher.Pipeline.{Services, World}
use notebook_launcher.Pipeline.Plan.{Texts}
use notebook_launcher.Pipeline.Cleanup.{stop, reconcile_starting_sessions}
use notebook_launcher.Pipeline.Reuse.{PipelineLaunchResult}
use notebook_launcher.Pipeline.Rollback.{run_authorized}
use notebook_launcher.Pipeline.History.{IsConfined}
use notebook_launcher.Pipeline.Confined.{stop-IsConfined, reconcile_starting-IsConfined}
use notebook_launcher.Pipeline.Runs.{run_authorized-IsConfined}
use notebook_launcher.Pipeline.Ready.{IsLaunched}
use notebook_launcher.Pipeline.Launched.{run_authorized-Launched}

-- A call, each with its time; a launch has its source and the new session's id.
pub data Call : Type 0 where
  launch : ℕ → Option Source → ℕ → ℕ → Call
  stop_session : ℕ → ℕ → Call
  reconcile : ℕ → Call

module _ (x : Services) (texts : Texts) where
  abbrev pub call : Call → World → World
  call (launch launch_id source session_id now) w =
      (run_authorized x texts launch_id source session_id now w).1
  call (stop_session session_id now) w = (stop x session_id now w).1
  call (reconcile now) w = (reconcile_starting_sessions x now w).1

  abbrev pub calls : List Call → World → World
  calls [] w = w
  calls (c ∷ l) w = calls l (call c w)

  call-IsConfined : (c : Call) (w : World) → IsConfined w → IsConfined (call c w)
  call-IsConfined (launch i s j now) w h =
      (run_authorized-IsConfined x texts i s j now).holds_after w h
  call-IsConfined (stop_session i now) w h = (stop-IsConfined x i now).holds_after w h
  call-IsConfined (reconcile now) w h = (reconcile_starting-IsConfined x now).holds_after w h

  keep-IsConfined : (l : List Call) (w : World) → IsConfined w → IsConfined (calls l w)
  keep-IsConfined [] w h = h
  keep-IsConfined (c ∷ l) w h = keep-IsConfined l (call c w) (call-IsConfined c w h)

  -- After any calls on a pipeline without a history, whatever the services answer or raise, each
  -- removal of a network came right after an answer that the runtime asked about is not alive, and
  -- each start of a container right after the network policy of its session was applied without an
  -- error.
  pub calls-IsConfined : (l : List Call) (w : World) → w.events ≡ [] → IsConfined (calls l w)
  calls-IsConfined l w e = keep-IsConfined l w (rw e refl)

  -- If `run_authorized` returns, whichever way it went, its result names the launch, and the
  -- launch's row is ready with the workspace and the session of the result.
  pub run_authorized-IsLaunched :
      (launch_id : ℕ) (source : Option Source) (session_id now : ℕ) (w : World)
      (r : PipelineLaunchResult)
      → (run_authorized x texts launch_id source session_id now w).0 ≡ ok r
      → IsLaunched launch_id r (run_authorized x texts launch_id source session_id now w).1
  run_authorized-IsLaunched launch_id source session_id now w r e =
      Ends-elim _ (run_authorized-Launched x launch_id texts source session_id now) w r e
