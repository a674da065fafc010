-- ===== src/Sandbox/Tests.antt =====
-- The theorem on policies at a concrete policy.
use notebook_launcher.Prelude.{◌≡◌, refl, some, [], ◌∷◌}
use notebook_launcher.Action.{err, value_error}
use notebook_launcher.SafePaths.Samples.{plain_paths}
use notebook_launcher.Sandbox.Samples.{sandbox_texts, policy}
use notebook_launcher.Sandbox.{check_destinations, validate_container_path, scrub_host_environment}
use notebook_launcher.Sandbox.Policy.{
  check_resolved, validate_mount_policy, validate_sandbox_policy,
}
use notebook_launcher.Sandbox.Argv.{docker_run_argv}

-- The home directory is not mounted, and no container path twice.
home_refused :
    docker_run_argv sandbox_texts plain_paths
      (record policy { workspace_host = "/home/u" })
      []
      "/home/u"
      tt
    ≡ err (value_error "whole home directory must not be mounted")
unfolding docker_run_argv validate_sandbox_policy validate_mount_policy check_resolved
home_refused = refl

twice_refused :
    docker_run_argv sandbox_texts plain_paths
      (record policy { workspace_container = "/mnt/user-data" })
      []
      "/home/u"
      tt
    ≡ err (value_error "duplicate container mount destination")
unfolding docker_run_argv validate_sandbox_policy validate_mount_policy check_resolved
    check_destinations validate_container_path
twice_refused = refl

secret_refused :
    scrub_host_environment sandbox_texts (λ key. some "v") ("HOME" ∷ "TOKEN" ∷ [])
    ≡ err (value_error "host secret environment variable is forbidden")
unfolding scrub_host_environment
secret_refused = refl
