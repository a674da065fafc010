-- ===== src/Orchestration/Tests.antt =====
-- The theorems on captures and the orchestrator at concrete values.
use notebook_launcher.Prelude.{ℕ, ◌≡◌, ◌≤◌, true, false, some, List, [], ◌∷◌, length}
use notebook_launcher.Action.{ok}
use notebook_launcher.State.Rows.{SessionState}
use notebook_launcher.Orchestration.Capture.{take, read, new_capture, value}
use notebook_launcher.Orchestration.Captured.{bytes_of, read_refines}
use notebook_launcher.Orchestration.Lifecycle.{SessionSnapshot, Collaborators}
use notebook_launcher.Orchestration.Ended.{IsInOrder}
use notebook_launcher.Orchestration.Ordered.{
  Operation, reopen_workspace, stop_session, reconcile_session, apply_all, apply_all-IsInOrder,
}

abbrev stream : List (List ℕ)
stream = (1 ∷ 2 ∷ []) ∷ (3 ∷ 4 ∷ []) ∷ [] ∷ []

read_refines_example :
    (value (read stream (new_capture 3)) ≡ take 3 (bytes_of stream))
    × (length (value (read stream (new_capture 3))) ≤ 3)
    × ((read stream (new_capture 3)).total ≡ length (bytes_of stream))
read_refines_example = read_refines stream 3

abbrev snapshot : SessionSnapshot
snapshot = record {
  session_id = 1;
  workspace_id = 2;
  runtime_id = "c1";
  state = SessionState.ready;
}

abbrev collaborators : Collaborators
collaborators = record {
  require_authorized_launch = λ l w h. ok tt;
  active_session = λ w h. ok (some snapshot);
  get_session = λ i h. ok (some snapshot);
  active_notebook_exists = λ w h. ok true;
  mark_session_state = λ i s h. ok tt;
  is_alive = λ r h. ok false;
  stop = λ r h. ok tt;
  invalidators = 2;
  invalidate = λ n i h. ok tt;
  start = λ w l h. ok snapshot;
}

abbrev script : List Operation
script = reopen_workspace 2 3 ∷ stop_session 1 ∷ reconcile_session 1 ∷ []

apply_all-IsInOrder_example : IsInOrder 2 (apply_all collaborators script [])
apply_all-IsInOrder_example = apply_all-IsInOrder collaborators script
