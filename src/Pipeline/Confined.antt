-- ===== src/Pipeline/Confined.antt =====
-- Every operation of the pipeline keeps the runtimes confined.
use notebook_launcher.Prelude.{
  ℕ, suc, String, Bool, true, List, [], ◌∷◌, arith, if◌then◌else◌, inl, inr,
}
use notebook_launcher.Action.{Action, Error, Result-cases}
use notebook_launcher.Steps.{◌>>=◌, ◌>>◌, attempt, pure}
use notebook_launcher.Steps.Preserves.{Preserves, Preserves-bind, Preserves-both}
use notebook_launcher.State.Rows.{LaunchState, LaunchRow, SessionState, SessionRow}
use notebook_launcher.Pipeline.{Services, World, perform}
use notebook_launcher.Pipeline.Cleanup.{
  stop_and_confirm_runtime, remove_if_confirmed, release_session, retire_session, stop,
  retire_failed, set_workspace_launch_state, update_each, stop_ended, stop_live, reconcile_each,
  stop_found, stop_running, reconcile_starting_sessions,
}
use notebook_launcher.Pipeline.History.{IsConfined, confined_rules}

module _ (x : Services) where
  pub stop_and_confirm-IsConfined :
      (runtime_id : String) (b : Bool)
      → Preserves IsConfined (stop_and_confirm_runtime x runtime_id b)
  unfolding stop_and_confirm_runtime
  stop_and_confirm-IsConfined runtime_id b = record {
    holds_after = λ w h.
        unfold ◌>>=◌ attempt pure perform in
        (elim (Result-cases (x.is_alive runtime_id w.events)) [
          | inl (a, e) ↦ ground arith
          | inr (e, q) ↦ ground arith
        ]);
  }

  pub removal-IsConfined :
      (runtime_id : String) (b : Bool) (session_id : ℕ)
      → Preserves IsConfined
          (stop_and_confirm_runtime x runtime_id b >>= λ c. remove_if_confirmed x session_id c)
  unfolding stop_and_confirm_runtime remove_if_confirmed ◌>>=◌ attempt pure perform
  removal-IsConfined runtime_id b session_id = record {
    holds_after = λ w h. elim (Result-cases (x.is_alive runtime_id w.events)) [
      | inl (a, e) ↦ ground arith
      | inr (e, q) ↦ ground arith
    ];
  }

  release-IsConfined :
      (session_id now : ℕ) → Preserves IsConfined (release_session x session_id now)
  release-IsConfined session_id now = search confined_rules

  retire_failed-IsConfined :
      {A : Type 0} (s : SessionRow) (expected : SessionState) (e : Error) (l : List Error)
      → Preserves IsConfined (retire_failed x {A = A} s expected e l)
  unfolding retire_failed
  retire_failed-IsConfined s expected e l = search confined_rules

  pub retire_session-IsConfined :
      (s : SessionRow) (expected : SessionState) (b : Bool) (now : ℕ)
      → Preserves IsConfined (retire_session x s expected b now)
  unfolding retire_session
  retire_session-IsConfined s expected b now =
      Preserves-both _ _ _ (removal-IsConfined s.runtime_id b s.id)
        λ failures. search (confined_rules, retire_failed-IsConfined)

  update_each-IsConfined :
      (rows : List LaunchRow) (new_state : LaunchState) (workspace_id now : ℕ)
      → Preserves IsConfined (update_each x rows new_state workspace_id now)
  unfolding update_each
  update_each-IsConfined [] new_state workspace_id now = search confined_rules
  update_each-IsConfined (l ∷ rows) new_state workspace_id now =
      Preserves-bind _ _ (search confined_rules)
        λ r. update_each-IsConfined rows new_state workspace_id now

  set_workspace-IsConfined :
      (workspace_id : ℕ) (new_state : LaunchState) (now : ℕ)
      → Preserves IsConfined (set_workspace_launch_state x workspace_id new_state now)
  unfolding set_workspace_launch_state
  set_workspace-IsConfined workspace_id new_state now =
      search (confined_rules, update_each-IsConfined)

  stop_ended-IsConfined : (s : SessionRow) (now : ℕ) → Preserves IsConfined (stop_ended x s now)
  unfolding stop_ended
  stop_ended-IsConfined s now = search (confined_rules, set_workspace-IsConfined)

  stop_live-IsConfined : (s : SessionRow) (now : ℕ) → Preserves IsConfined (stop_live x s now)
  unfolding stop_live
  stop_live-IsConfined s now =
      Preserves-both _ _ _ (removal-IsConfined s.runtime_id true s.id)
        λ failures. search (confined_rules, set_workspace-IsConfined)

  stop_found-IsConfined :
      (s : SessionRow) (state : SessionState) (now : ℕ)
      → Preserves IsConfined (stop_found x s state now)
  unfolding stop_found stop_running
  stop_found-IsConfined s SessionState.stopped now = stop_ended-IsConfined s now
  stop_found-IsConfined s SessionState.failed now = stop_ended-IsConfined s now
  stop_found-IsConfined s SessionState.stopping now = stop_live-IsConfined s now
  stop_found-IsConfined s _ now = search (confined_rules, stop_live-IsConfined)

  pub stop-IsConfined : (session_id now : ℕ) → Preserves IsConfined (stop x session_id now)
  unfolding stop
  stop-IsConfined session_id now = search (confined_rules, stop_found-IsConfined)

  reconcile_one-IsConfined :
      (s : SessionRow) (now : ℕ) (owned : Bool) (m : Action World ℕ)
      → Preserves IsConfined m
      → Preserves IsConfined (
          if owned
          then m
          else (retire_session x s SessionState.starting true now >> (m >>= λ n. pure (suc n))))
  reconcile_one-IsConfined s now owned m h = search (confined_rules, retire_session-IsConfined)

  reconcile_each-IsConfined :
      (sessions : List SessionRow) (now : ℕ) → Preserves IsConfined (reconcile_each x sessions now)
  unfolding reconcile_each
  reconcile_each-IsConfined [] now = search confined_rules
  reconcile_each-IsConfined (s ∷ l) now =
      Preserves-bind _ _ (search confined_rules)
        λ owned. reconcile_one-IsConfined s now owned _ (reconcile_each-IsConfined l now)

  pub reconcile_starting-IsConfined :
      (now : ℕ) → Preserves IsConfined (reconcile_starting_sessions x now)
  unfolding reconcile_starting_sessions
  reconcile_starting-IsConfined now = search (confined_rules, reconcile_each-IsConfined)
