-- ===== src/Pipeline/Tests.antt =====
-- The theorems on the pipeline for concrete services; the text of a number is empty.
use notebook_launcher.Prelude.{◌≡◌, refl, true, false, none, some, List, [], ◌∷◌}
use notebook_launcher.Action.{ok}
use notebook_launcher.Gpu.{
  unavailable, resolve_gpu_allocation, usable_gpu_probe, effective_gpu_probe,
}
use notebook_launcher.Network.Applier.{NetworkPolicyAttestation}
use notebook_launcher.State.{empty, set_sessions, sessions_ok}
use notebook_launcher.State.Rows.{Gpu, AgentMode, LaunchState, LaunchRow, WorkspaceRow}
use notebook_launcher.State.Workspaces.{get_workspace}
use notebook_launcher.Pipeline.{Services, World, on_db, perform, RuntimeReadiness}
use notebook_launcher.Pipeline.Plan.{Texts}
use notebook_launcher.Pipeline.Reuse.{PipelineLaunchResult}
use notebook_launcher.Pipeline.Rollback.{
  run_authorized, persisted_request, run, admit_launch, run_body, roll_back_launch,
}
use notebook_launcher.Pipeline.Bindings.{
  verify_workspace_source, verify_launch_binding, own, in_world, set_local,
}
use notebook_launcher.Pipeline.Launch.{
  launch_body, prepare_workspace, reopen_workspace_for, launch_fresh, gpu_allocation, claim_and_own,
  start_runtime,
}
use notebook_launcher.Steps.{pure, raise, lift, gets, or_raise, attempt, raise_if, ◌>>=◌, on_option}
use notebook_launcher.State.Launches.{get_launch, update_launch_state}
use notebook_launcher.State.Sessions.{
  active_session, claim_session, insert_session, transition_session,
}
use notebook_launcher.Pipeline.History.{IsConfined}
use notebook_launcher.Pipeline.Ready.{IsLaunched}
use notebook_launcher.Pipeline.Calls.{
  Call, launch, stop_session, reconcile, calls, calls-IsConfined, run_authorized-IsLaunched,
}

abbrev pub workspace : WorkspaceRow
workspace = record {
  id = 1;
  source_repository_id = 7;
  source_owner = "o";
  source_repository = "r";
  source_commit_sha = "c0ffee";
  source_notebook_path = "a.ipynb";
  root_path = "/w";
  work_path = "/w/work";
  outputs_path = "/w/outputs";
  active_notebook_path = "a.ipynb";
  user_data_grant_id = none;
  created_at = 5;
  updated_at = 5;
}

abbrev pub launch_row : LaunchRow
launch_row = record {
  id = 3;
  request_digest = "d";
  repository_id = none;
  commit_sha = none;
  notebook_path = none;
  workspace_id = some 1;
  gpu = Gpu.auto;
  agent_mode = AgentMode.write;
  trust_covered = true;
  state = LaunchState.authorized;
  session_id = none;
  message = none;
  error_code = none;
  created_at = 10;
  updated_at = 10;
}

abbrev pub world : World
world = record {
  db = record empty { workspaces = workspace ∷ []; launches = launch_row ∷ [] };
  owners = [];
  events = [];
}

abbrev pub attestation : NetworkPolicyAttestation
attestation = record {
  network_name = "n";
  bridge_name = "b";
  verified = true;
  commands_verified = 1;
  deny_non_global = true;
  dns_exceptions_port_53_only = true;
  host_gateway_alias_present = false;
  verification_commands = [];
}

abbrev pub readiness : RuntimeReadiness
readiness = record {
  sandbox_verified = true;
  network_verified = true;
  collaboration_ready = true;
  ready = true;
}

abbrev pub services : Services
services = record {
  is_alive = λ r h. ok false;
  stop = λ r h. ok tt;
  network_apply = λ i h. ok attestation;
  network_verify = λ i h. ok attestation;
  network_remove = λ i h. ok tt;
  acquire = λ s h. ok "snapshot";
  build = λ i c r h. ok (record { image_tag = "image"; cache_hit = true });
  host_gpu_probe = λ h. ok (unavailable none);
  container_gpu_probe = λ i h. ok (unavailable none);
  allocate_port = λ h. ok 9000;
  start = λ i w t a h. ok (true, true);
  wait_ready = λ i p h. ok true;
  readiness = λ i a b c h. ok readiness;
  write_secrets = λ i h. ok tt;
  private_state_there = λ i h. ok true;
  read_credentials = λ s h. ok tt;
  invalidate = λ i h. ok tt;
  create = λ r s db. (ok workspace, db);
  reopen = λ i db. (ok workspace, db);
  follow = λ i db. (true, db);
}

abbrev pub texts : Texts
texts = record {
  hex = λ n. "";
  decimal = λ n. "";
  quote = λ s. s;
  first_8 = λ s. s;
  first_10 = λ s. s;
}

abbrev result : PipelineLaunchResult
result = record {
  launch_id = 3;
  workspace_id = 1;
  session_id = 8;
  notebook_url = "http://127.0.0.1:/lab/tree/a.ipynb";
  reused_existing = false;
  cache_hit = some true;
  gpu = some (record {
    requested_mode = Gpu.auto;
    enabled = false;
    devices = [];
    host_available = false;
    container_available = false;
    reason = some "usable_gpu_unavailable";
  });
}

runs : (run_authorized services texts 3 none 8 20 world).0 ≡ ok result
unfolding run_authorized persisted_request run admit_launch run_body launch_body prepare_workspace
    reopen_workspace_for verify_workspace_source verify_launch_binding launch_fresh gpu_allocation
    claim_and_own start_runtime own in_world set_local on_db perform pure raise lift gets or_raise
    attempt raise_if ◌>>=◌ on_option get_launch update_launch_state active_session claim_session
    insert_session transition_session get_workspace resolve_gpu_allocation usable_gpu_probe
    effective_gpu_probe roll_back_launch set_sessions sessions_ok
runs = refl

abbrev script : List Call
script = launch 3 none 8 20 ∷ stop_session 8 30 ∷ reconcile 40 ∷ []

calls-IsConfined_example : IsConfined (calls services texts script world)
calls-IsConfined_example = calls-IsConfined services texts script world refl

run_authorized-IsLaunched_example :
    IsLaunched 3 result (run_authorized services texts 3 none 8 20 world).1
run_authorized-IsLaunched_example =
    run_authorized-IsLaunched services texts 3 none 8 20 world result runs
