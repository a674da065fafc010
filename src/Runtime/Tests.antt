-- ===== src/Runtime/Tests.antt =====
-- The theorem on the start of a container at a concrete runner.
use notebook_launcher.Prelude.{◌≡◌, refl, true, false, none, [], ◌∷◌}
use notebook_launcher.Action.{ok, err, is_ok, runtime_policy_error}
use notebook_launcher.Network.Applier.{CommandResult, NetworkPolicyAttestation}
use notebook_launcher.SafePaths.Samples.{plain_paths}
use notebook_launcher.Sandbox.Samples.{sandbox_texts, policy}
use notebook_launcher.Sandbox.{check_destinations, validate_container_path}
use notebook_launcher.Sandbox.Policy.{
  check_resolved, validate_mount_policy, validate_sandbox_policy,
}
use notebook_launcher.Sandbox.Argv.{docker_run_argv}
use notebook_launcher.Runtime.{RuntimeTexts, Runner, verification}
use notebook_launcher.Runtime.Docker.{verify_each, start_verified, start}
use notebook_launcher.Runtime.Guarded.{IsStarted, start-IsStarted}

abbrev texts : RuntimeTexts
texts = record {
  lines = λ s. s ∷ [];
  partition = λ s. (s, none);
  strip = λ s. s;
  lower = λ s. s;
  is_loopback = λ s. true;
  class_name = λ e. "";
  docker_run_failed = λ n. "docker_run_failed";
}

abbrev network : NetworkPolicyAttestation
network = record {
  network_name = "net";
  bridge_name = "br";
  verified = true;
  commands_verified = 1;
  deny_non_global = true;
  dns_exceptions_port_53_only = true;
  host_gateway_alias_present = false;
  verification_commands = ("iptables" ∷ []) ∷ [];
}

abbrev done : CommandResult
done = record { returncode = 0; stdout = "c1"; stderr = "" }

abbrev willing : Runner
willing calls argv = ok done

abbrev failing : Runner
failing calls argv = ok (record done { returncode = 1 })

-- It starts, and with a verification that fails it does not.
starts :
    is_ok
      (start texts sandbox_texts plain_paths willing policy [] network "/home/u" "/home/u" tt []).0
    ≡ true
unfolding start start_verified verify_each docker_run_argv validate_sandbox_policy
    validate_mount_policy check_resolved check_destinations validate_container_path
starts = refl

stale :
    start texts sandbox_texts plain_paths failing policy [] network "/home/u" "/home/u" tt [] ≡ (
      err (runtime_policy_error "network policy verification is stale"),
      verification ("iptables" ∷ []) (ok (record done { returncode = 1 })) ∷ [],
    )
unfolding start start_verified verify_each docker_run_argv validate_sandbox_policy
    validate_mount_policy check_resolved check_destinations validate_container_path
stale = refl

start-IsStarted_example :
    IsStarted texts sandbox_texts plain_paths willing policy [] network "/home/u" "/home/u" tt
      (start texts sandbox_texts plain_paths willing policy [] network "/home/u" "/home/u" tt [])
start-IsStarted_example =
    start-IsStarted texts sandbox_texts plain_paths willing policy [] network "/home/u" "/home/u" tt
