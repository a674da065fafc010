-- ===== src/Launches/Tests.antt =====
-- A launch of an uncovered source at a concrete database.
use notebook_launcher.Prelude.{◌≡◌, refl, Bool, false, none, some}
use notebook_launcher.Action.{ok, err, value_error}
use notebook_launcher.State.{set_launches}
use notebook_launcher.State.Rows.{Gpu, AgentMode, LaunchState}
use notebook_launcher.State.Launches.{create_launch}
use notebook_launcher.Trust.{Source}
use notebook_launcher.Trust.Flow.{create_challenge}
use notebook_launcher.Pipeline.{World}
use notebook_launcher.Pipeline.Reuse.{LaunchRequest}
use notebook_launcher.Pipeline.Rollback.{run_authorized}
use notebook_launcher.Pipeline.Tests.{services, texts, world}
use notebook_launcher.Launches.{Digests, LaunchStart, start, start_and_schedule}
use notebook_launcher.Launches.Started.{start-run_refused}

abbrev digests : Digests
digests = record { hash = λ s. s; request_digest = λ r s. "digest" }

abbrev request : LaunchRequest
request = record { workspace_id = none; gpu = Gpu.auto; agent_mode = AgentMode.write }

abbrev source : Source
source = record {
  repository_id = 7;
  repository_node_id = none;
  owner = "o";
  repository = "r";
  requested_ref = "main";
  commit_sha = "c1";
  notebook_path = "n.ipynb";
  clone_url = "https://github.com/o/r.git";
}

abbrev answer : LaunchStart
answer = record {
  launch_id = 9;
  state = LaunchState.pending_trust;
  trust_covered = false;
  nonce = some "nonce";
  trust_expires_at = some 130;
}

abbrev pending : World
pending = record world {
  db = (start_and_schedule digests 9 request (some source) false "nonce" 30 100 world.db).1;
}

answered :
    start_and_schedule digests 9 request (some source) false "nonce" 30 100 world.db
    ≡ (ok (answer, false), pending.db)
unfolding start_and_schedule start create_launch set_launches create_challenge
answered = refl

start-run_refused_example :
    (◌≡◌ {A = Bool} false false)
    × (run_authorized services texts 9 none 8 120 pending
        ≡ (err (value_error "launch is not authorized"), pending))
start-run_refused_example =
    start-run_refused digests 9 request source "nonce" 30 100 services texts world pending
      (answer, false) none 8 120 refl answered
