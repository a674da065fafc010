-- ===== src/Runtime/Docker.antt =====
-- runtime.py: `DockerRuntime`, which starts a container only after the network policy was verified.
use notebook_launcher.Prelude.{
  String, Bool, true, false, not, ◌&&◌, ◌||◌, some, List, [], ◌∷◌, ◌++◌, any, all, ◌==◌, opt_str_eq,
  str_eq, if◌then◌else◌,
}
use notebook_launcher.Action.{
  lift, Result, ok, err, runtime_policy_error, pure, raise_if, ◌>>=◌, ◌>>◌,
}
use notebook_launcher.SafePaths.{HostPaths}
use notebook_launcher.Network.Applier.{CommandResult, NetworkPolicyAttestation}
use notebook_launcher.Sandbox.{SandboxPolicy, SandboxTexts}
use notebook_launcher.Sandbox.Policy.{validate_sandbox_policy}
use notebook_launcher.Sandbox.Argv.{docker_run_argv}
use notebook_launcher.Runtime.{
  RuntimeTexts, RuntimeStartResult, RuntimeReadiness, verification, container, command, Runner, Run,
  run, is_runner_failure, is_failure,
}

abbrev pub is_empty_list : {A : Type 0} → List A → Bool
is_empty_list [] = true
is_empty_list (_ ∷ _) = false

-- What the attestation has to say of the network of the policy.
abbrev pub check_attestation : SandboxPolicy → NetworkPolicyAttestation → Run (Unit {0})
check_attestation p network = do
  raise_if (not network.verified) (runtime_policy_error "network policy is not verified")
  raise_if (network.commands_verified == 0 || not network.deny_non_global)
      (runtime_policy_error "non-global destination denial is not verified")
  raise_if (not network.dns_exceptions_port_53_only)
      (runtime_policy_error "DNS exception scope is not verified")
  raise_if network.host_gateway_alias_present
      (runtime_policy_error "host gateway alias is forbidden")
  raise_if (not (opt_str_eq p.network_name (some network.network_name)))
      (runtime_policy_error "sandbox network does not match verified network")
  raise_if (is_empty_list network.verification_commands)
      (runtime_policy_error "network attestation has no verification evidence")

-- The value behind each `--publish`.
abbrev pub published : List String → List String
published [] = []
published (flag ∷ []) = []
published (flag ∷ value ∷ rest) =
    let others = published (value ∷ rest) in
    if str_eq flag "--publish" then value ∷ others else others

-- `(*argv[:2], "--detach", *argv[2:])`
abbrev pub detached : List String → List String
detached (docker ∷ run ∷ rest) = docker ∷ run ∷ "--detach" ∷ rest
detached argv = argv ++ ("--detach" ∷ [])

abbrev pub or_policy_error : RuntimeTexts → Result CommandResult → Result CommandResult
or_policy_error t (ok r) = ok r
or_policy_error t (err e) =
    err (if is_runner_failure e then runtime_policy_error (t.class_name e) else e)

module _ {D : Type 0} (t : RuntimeTexts) (s : SandboxTexts D) (h : HostPaths D)
    (runner : Runner) where
  -- The verification commands once more, each of which has to answer 0.
  unfoldable pub verify_each : List (List String) → Run (Unit {0})
  verify_each [] = pure tt
  verify_each (c ∷ commands) = do
    r ← run runner verification c
    raise_if (is_failure r) (runtime_policy_error "network policy verification is stale")
    verify_each commands

  abbrev pub check_argv : List String → Run (Unit {0})
  check_argv argv = do
    raise_if (any (str_eq "--add-host") argv || any (s.contains "host-gateway") argv)
        (runtime_policy_error "host gateway aliases are forbidden")
    raise_if (not (all t.is_loopback (published argv)))
        (runtime_policy_error "published ports must bind to loopback")

  -- The container is run, and has to answer its id.
  abbrev pub run_detached : SandboxPolicy → List String → Run RuntimeStartResult
  run_detached p argv = do
    r ← (λ calls.
        let (r, calls') = run runner container argv calls in (or_policy_error t r, calls'))
    raise_if (is_failure r) (runtime_policy_error (t.docker_run_failed r.returncode))
    raise_if (str_eq (t.strip r.stdout) "") (runtime_policy_error "docker_run_missing_container_id")
    pure (record {
      container_id = t.strip r.stdout;
      argv = argv;
      sandbox_verified = true;
      network_verified = true;
      gpu_enabled = p.gpu_enabled;
      ready = false;
    })

  -- The end of `start`, behind the verification.
  unfoldable pub start_verified : SandboxPolicy → List String → String → D → Run RuntimeStartResult
  start_verified p entries home d = do
    argv ← lift (docker_run_argv s h p entries home d)
    check_argv argv
    run_detached p (detached argv)

  -- `own_home` is the home directory of this runtime, `home` is `Path.home()`, and `d` the disk.
  unfoldable pub start :
      SandboxPolicy
      → List String
      → NetworkPolicyAttestation
      → String
      → String
      → D
      → Run RuntimeStartResult
  start p entries network own_home home d = do
    lift (validate_sandbox_policy s h p own_home true d)
    check_attestation p network
    verify_each network.verification_commands
    start_verified p entries home d

  abbrev pub is_running : CommandResult → Bool
  is_running r = not (is_failure r) && str_eq (t.lower (t.strip r.stdout)) "true"

  unfoldable pub readiness : RuntimeStartResult → Bool → Run RuntimeReadiness
  readiness started collaboration_ready = do
    raise_if (not started.sandbox_verified) (runtime_policy_error "sandbox policy is not verified")
    raise_if (not started.network_verified) (runtime_policy_error "network policy is not verified")
    raise_if (not collaboration_ready) (runtime_policy_error "Jupyter collaboration is not ready")
    r ← (λ calls.
        let argv =
          "docker" ∷ "inspect" ∷ "--format" ∷ "{{.State.Running}}" ∷ started.container_id ∷ [] in
        let (r, calls') = run runner command argv calls in (or_policy_error t r, calls'))
    raise_if (not (is_running r)) (runtime_policy_error "runtime container is not running")
    pure (record {
      container_id = started.container_id;
      sandbox_verified = true;
      network_verified = true;
      collaboration_ready = true;
      ready = true;
    })
