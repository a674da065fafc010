-- ===== src/State/Tests.antt =====
-- The theorems on the state database at a concrete database.
use notebook_launcher.Prelude.{◌≡◌, refl, ap, String, true, false, none, some, [], ◌∷◌}
use notebook_launcher.Action.{Action, ok, err, is_ok, conflict, file_not_found}
use notebook_launcher.State.{Db, empty, sessions_ok, documents_ok}
use notebook_launcher.State.Rows.{AgentMode, ready, stopped, starting, SessionRow, notebook}
use notebook_launcher.State.Samples.{sample_workspace}
use notebook_launcher.State.Sessions.{
  NewSession, session_row, claim_session, Transition, apply_transition, transition_session,
}
use notebook_launcher.State.Claims.{SessionsValid, claim_session_exact}
use notebook_launcher.State.Transitions.{transition_session_exact}
use notebook_launcher.State.Launches.{consume_launch_jti}
use notebook_launcher.State.Tokens.{consume_launch_jti_once}
use notebook_launcher.State.Documents.{
  Host, DocumentWrite, document_row, document_version_row, set_document_version,
}
use notebook_launcher.State.Matches.{DocumentsValid}
use notebook_launcher.State.Versions.{set_document_version_exact, set_document_version_outdated}
use notebook_launcher.State.Guards.{admit_write, document_write_guard}
use notebook_launcher.State.Workspaces.{admit_rename, active_notebook_rename_guard}

abbrev session : SessionRow
session = record {
  id = 5;
  workspace_id = 1;
  runtime_id = "c1";
  host_port = 9000;
  gpu_enabled = false;
  agent_mode = AgentMode.write;
  sandbox_verified = false;
  network_verified = false;
  collaboration_ready = false;
  state = starting;
  notebook_url = "http://127.0.0.1:9000";
  started_at = 10;
  stopped_at = none;
}

abbrev new_session : NewSession
new_session = record {
  session_id = 6;
  workspace_id = 1;
  runtime_id = "c2";
  host_port = 9001;
  gpu_enabled = true;
  agent_mode = AgentMode.write;
  notebook_url = "http://127.0.0.1:9001";
}

abbrev ended_session : SessionRow
ended_session = record session { state = stopped; stopped_at = some 20 }

abbrev ended : Db
ended = record empty { workspaces = sample_workspace ∷ []; sessions = ended_session ∷ [] }

abbrev running : Db
running = record empty { workspaces = sample_workspace ∷ []; sessions = session ∷ [] }

ended-SessionsValid : SessionsValid ended
unfolding sessions_ok
ended-SessionsValid = refl

running-SessionsValid : SessionsValid running
unfolding sessions_ok
running-SessionsValid = refl

-- Beside an ended session a claim adds a starting one.
claim_session_exact_example : claim_session new_session 30 true ended ≡ (
  ok (session_row new_session 30, true),
  record ended { sessions = ended_session ∷ session_row new_session 30 ∷ [] },
)
claim_session_exact_example =
    claim_session_exact new_session 30 true ended ended-SessionsValid refl refl

-- Beside a live session it answers that one.
claim_running : claim_session new_session 30 true running ≡ (ok (session, false), running)
claim_running = claim_session_exact new_session 30 true running running-SessionsValid refl refl

abbrev becomes_ready : Transition
becomes_ready = record {
  new_state = ready;
  stopped_at = none;
  sandbox_verified = some true;
  network_verified = some true;
  collaboration_ready = some true;
}

transition_session_exact_example : transition_session 5 (starting ∷ []) becomes_ready running ≡ (
  ok (apply_transition becomes_ready session),
  record running { sessions = apply_transition becomes_ready session ∷ [] },
)
transition_session_exact_example =
    transition_session_exact 5 starting [] becomes_ready running running-SessionsValid (λ h. refl)

-- From another state it is a conflict.
transition_ended : transition_session 5 (starting ∷ []) becomes_ready ended ≡ (err conflict, ended)
transition_ended =
    transition_session_exact 5 starting [] becomes_ready ended ended-SessionsValid (λ h. refl)

-- A token is accepted once.

consume_launch_jti_once_example :
    consume_launch_jti "jti" "other" 41 (consume_launch_jti "jti" "digest" 40 empty).1
    ≡ (ok false, (consume_launch_jti "jti" "digest" 40 empty).1)
consume_launch_jti_once_example = consume_launch_jti_once "jti" "digest" "other" 40 41 empty

-- A host whose file names are told apart by case.
abbrev posix : Host
posix = record { is_nt = false; casefold = λ s. s }

abbrev first_write : DocumentWrite
first_write = record {
  workspace_id = 1;
  path = "b.ipynb";
  kind = notebook;
  version = "v1";
  content_digest = none;
  expected_version = none;
  now = 50;
}

abbrev second_write : DocumentWrite
second_write = record first_write { version = "v2"; expected_version = some "v1"; now = 51 }

running-DocumentsValid : DocumentsValid running
unfolding documents_ok
running-DocumentsValid = refl

set_document_version_exact_example :
    set_document_version posix first_write running
    ≡ (ok (document_row first_write), record running { documents = document_row first_write ∷ [] })
set_document_version_exact_example =
    set_document_version_exact posix first_write running running-DocumentsValid refl

abbrev one_version : Db
one_version = record running { documents = document_row first_write ∷ [] }

one_version-DocumentsValid : DocumentsValid one_version
unfolding documents_ok
one_version-DocumentsValid = refl

-- The version that was read is replaced.
second_accepted : set_document_version posix second_write one_version ≡ (
  ok (document_row second_write),
  record one_version { documents = document_row second_write ∷ [] },
)
second_accepted =
    set_document_version_exact posix second_write one_version one_version-DocumentsValid refl

-- A second writer who has read `v1` too is refused.
set_document_version_outdated_example :
    set_document_version posix second_write (set_document_version posix second_write one_version).1
    ≡ (err conflict, (set_document_version posix second_write one_version).1)
set_document_version_outdated_example =
    set_document_version_outdated posix second_write second_write one_version
      one_version-DocumentsValid refl refl refl refl (ap (λ x. is_ok x.0) second_accepted)

-- The files are one text; the body writes `new` and fails.
abbrev failing : Action String (Unit {0})
failing files = (err file_not_found, "new")

abbrev restore_old : Action String (Unit {0})
restore_old files = (ok tt, "old")

guard_failed :
    is_ok
      (document_write_guard posix first_write false
        (some restore_old)
        (ok tt)
        failing
        (running, "old")).0
    ≡ false
unfolding document_write_guard admit_write document_version_row
guard_failed = refl

rename_failed :
    is_ok
      (active_notebook_rename_guard posix 1 "a.ipynb" "c.ipynb" 60
        (some restore_old)
        (ok tt)
        (λ _. failing)
        (running, "old")).0
    ≡ false
unfolding active_notebook_rename_guard admit_rename document_version_row
rename_failed = refl
