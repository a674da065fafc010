-- ===== src/Runtime/Guarded.antt =====
-- runtime.py: the calls of `DockerRuntime.start`.
use notebook_launcher.Prelude.{
  ◌≡◌, ◌≢◌, ◌≤◌, refl, ap, String, true, false, some, List, [], ◌∷◌, arith, all, All, opt_str_eq,
  str_eq,
}
use notebook_launcher.Action.{
  lift, Result, ok, err, is_ok, runtime_policy_error, pure, raise_if, ◌>>◌,
}
use notebook_launcher.Action.Parts.{after_reader, before_answer, not_raised}
use notebook_launcher.SafePaths.{HostPaths}
use notebook_launcher.Network.Applier.{CommandResult, NetworkPolicyAttestation}
use notebook_launcher.Sandbox.{SandboxPolicy, SandboxTexts}
use notebook_launcher.Sandbox.Policy.{validate_sandbox_policy}
use notebook_launcher.Sandbox.Argv.{docker_run_argv}
use notebook_launcher.Sandbox.Allowed.{IsAccepted, validate_sandbox_policy-IsAccepted}
use notebook_launcher.Runtime.{
  RuntimeTexts, RuntimeStartResult, Call, verification, container, command, Runner, Run, run,
  is_failure,
}
use notebook_launcher.Runtime.Docker.{
  check_attestation, published, detached, or_policy_error, verify_each, check_argv, run_detached,
  start_verified, start,
}

abbrev pub IsVerification : Call → Type 0
IsVerification (verification _ _) = Unit
IsVerification (container _ _) = ⊥
IsVerification (command _ _) = ⊥

-- On top of `base` each of the commands was run in order as a verification and answered 0.
abbrev pub IsVerified : List (List String) → List Call → List Call → Type 0
IsVerified [] base calls = calls ≡ base
IsVerified (c ∷ commands) base calls =
    (answer : Result CommandResult) × (r : CommandResult) × (answer ≡ ok r)
    × (r.returncode ≡ 0)
    × IsVerified commands (verification c answer ∷ base) calls

-- The attestation says that the network of the policy is verified, by commands of which there is one at
-- least, that it denies what is not global and lets DNS through at port 53 only, and that it has no
-- alias for the gateway of the host.
abbrev pub IsAttested : SandboxPolicy → NetworkPolicyAttestation → Type 0
IsAttested p network =
    (network.verified ≡ true)
    × (1 ≤ network.commands_verified)
    × (network.deny_non_global ≡ true)
    × (network.dns_exceptions_port_53_only ≡ true)
    × (network.host_gateway_alias_present ≡ false)
    × (opt_str_eq p.network_name (some network.network_name) ≡ true)
    × (network.verification_commands ≢ [])

answered_ok :
    (t : RuntimeTexts) (a : Result CommandResult) (r : CommandResult)
    → or_policy_error t a ≡ ok r
    → a ≡ ok r
answered_ok t (ok b) r h = h
answered_ok t (err e) r h = cc

zero_of : (r : CommandResult) → is_failure r ≡ false → r.returncode ≡ 0
zero_of r h = ground (arith, h)

module _ {D : Type 0} (t : RuntimeTexts) (s : SandboxTexts D) (h : HostPaths D)
    (runner : Runner) where
  abbrev Verifies : List (List String) → List Call → Result (Unit {0}) × List Call → Type 0
  Verifies commands base p =
      (is_ok p.0 ≡ true → IsVerified commands base p.1) × All IsVerification p.1

  verify_each-Verifies :
      (commands : List (List String)) (base : List Call)
      → All IsVerification base
      → Verifies commands base (verify_each t s h runner commands base)
  unfolding verify_each
  verify_each-Verifies [] base only = (λ done. refl, only)
  verify_each-Verifies (c ∷ commands) base only =
      let stale = runtime_policy_error "network policy verification is stale" in
      let after = verification c (runner base c) ∷ base in
      before_answer (Verifies (c ∷ commands) base)
        (λ r. raise_if (is_failure r) stale >> verify_each t s h runner commands) base
        (run runner verification c) (λ e q. (λ done. cc, (tt, only)))
        (λ r q.
          after_reader (Verifies (c ∷ commands) base) (λ _. verify_each t s h runner commands) after
            (raise_if (is_failure r) stale) refl (λ e raised. (λ done. cc, (tt, only)))
            (λ u passed.
              let (rest, all_only) = verify_each-Verifies commands after (tt, only) in
              let zero = zero_of r (not_raised (is_failure r) stale passed) in
              (λ done. (runner base c, r, q, zero, rest done), all_only)))

  check_attestation_keeps :
      (p : SandboxPolicy) (network : NetworkPolicyAttestation) (calls : List Call)
      → (check_attestation p network calls).1 ≡ calls
  check_attestation_keeps p network calls = ground arith

  attested :
      (p : SandboxPolicy) (network : NetworkPolicyAttestation) (calls : List Call)
      → is_ok (check_attestation p network calls).0 ≡ true
      → IsAttested p network
  attested p network calls done = (
    ground (arith, done),
    ground (arith, done),
    ground (arith, done),
    ground (arith, done),
    ground (arith, done),
    ground (arith, done),
    ground (arith, done),
  )

  check_argv_keeps :
      (argv : List String) (calls : List Call) → (check_argv t s h runner argv calls).1 ≡ calls
  check_argv_keeps argv calls = ground arith

  loopback_only :
      (argv : List String) (calls : List Call)
      → is_ok (check_argv t s h runner argv calls).0 ≡ true
      → all t.is_loopback (published argv) ≡ true
  loopback_only argv calls done = ground (arith, done)

  module _ (p : SandboxPolicy) (entries : List String) (network : NetworkPolicyAttestation)
      (own_home home : String) (d : D) where
    -- When a container may be run, after the calls `l`: the attestation holds of the network of the
    -- policy and each of its commands has just answered 0, the policy is accepted, and the command is
    -- the one of the policy, with ports at the loopback only.
    abbrev pub MayRun : List String → List Call → Type 0
    MayRun argv l =
        IsVerified network.verification_commands [] l
        × IsAttested p network
        × IsAccepted s h own_home d p
        × ((inner : List String) × (argv ≡ detached inner)
            × (docker_run_argv s h p entries home d ≡ ok inner)
            × (all t.is_loopback (published inner) ≡ true))

    abbrev pub IsGuarded : List Call → Type 0
    IsGuarded [] = Unit
    IsGuarded (verification _ _ ∷ l) = All IsVerification l
    IsGuarded (container argv _ ∷ l) = MayRun argv l
    IsGuarded (command _ _ ∷ l) = ⊥

    abbrev pub IsStarted : Result RuntimeStartResult × List Call → Type 0
    IsStarted (err e, calls) = IsGuarded calls
    IsStarted (ok started, container argv answer ∷ l) =
        MayRun argv l
        × (started.argv ≡ argv)
        × ((r : CommandResult) × (answer ≡ ok r) × (r.returncode ≡ 0))
    IsStarted (ok started, _) = ⊥

    only_verifications : (l : List Call) → All IsVerification l → IsGuarded l
    only_verifications [] only = tt
    only_verifications (verification _ _ ∷ l) (u, only) = only
    only_verifications (container _ _ ∷ l) (never, only) = elim never [ ]
    only_verifications (command _ _ ∷ l) (never, only) = elim never [ ]

    module _ (argv : List String) (l : List Call) (may : MayRun argv l) where
      abbrev answer : Result CommandResult
      answer = runner l argv

      abbrev after : List Call
      after = container argv answer ∷ l

      abbrev finish : CommandResult → Run RuntimeStartResult
      finish r =
          raise_if (str_eq (t.strip r.stdout) "")
            (runtime_policy_error "docker_run_missing_container_id")
          >> pure (record {
            container_id = t.strip r.stdout;
            argv = argv;
            sandbox_verified = true;
            network_verified = true;
            gpu_enabled = p.gpu_enabled;
            ready = false;
          })

      abbrev check : CommandResult → Run RuntimeStartResult
      check r =
          raise_if (is_failure r) (runtime_policy_error (t.docker_run_failed r.returncode))
          >> finish r

      run_detached-IsStarted : IsStarted (run_detached t s h runner p argv l)
      run_detached-IsStarted =
          before_answer IsStarted check l
            (λ calls.
              (or_policy_error t (runner calls argv), container argv (runner calls argv) ∷ calls))
            (λ e q. may)
            (λ r q.
              after_reader IsStarted (λ _. finish r) after
                (raise_if (is_failure r) (runtime_policy_error (t.docker_run_failed r.returncode)))
                refl (λ e raised. may)
                (λ u passed.
                  let zero = zero_of r (
                    not_raised (is_failure r)
                      (runtime_policy_error (t.docker_run_failed r.returncode)) passed) in
                  after_reader IsStarted
                    (λ _. pure (record {
                      container_id = t.strip r.stdout;
                      argv = argv;
                      sandbox_verified = true;
                      network_verified = true;
                      gpu_enabled = p.gpu_enabled;
                      ready = false;
                    }))
                    after
                    (raise_if (str_eq (t.strip r.stdout) "")
                      (runtime_policy_error "docker_run_missing_container_id"))
                    refl (λ e raised. may)
                    (λ v named. (may, refl, (r, answered_ok t answer r q, zero)))))

    start_verified-IsStarted :
        (l : List Call)
        → All IsVerification l
        → IsVerified network.verification_commands [] l
        → IsAttested p network
        → IsAccepted s h own_home d p
        → IsStarted (start_verified t s h runner p entries home d l)
    unfolding start_verified
    start_verified-IsStarted l only verified attests accepted =
        after_reader IsStarted
          (λ argv. check_argv t s h runner argv >> run_detached t s h runner p (detached argv)) l
          (lift (docker_run_argv s h p entries home d)) refl (λ e q. only_verifications l only)
          (λ argv made.
            after_reader IsStarted (λ _. run_detached t s h runner p (detached argv)) l
              (check_argv t s h runner argv) (check_argv_keeps argv l)
              (λ e q. only_verifications l only)
              (λ u passed. run_detached-IsStarted (detached argv) l (
                verified,
                attests,
                accepted,
                (argv, refl, made, loopback_only argv l (ap is_ok passed)),
              )))

    -- Started without earlier calls, a container is run only after the attestation was found to say of
    -- the network of the policy that it is verified by commands, denies what is not global, lets DNS
    -- through at port 53 only and has no alias for the gateway of the host, and each of the commands has
    -- answered 0, with an accepted policy and ports at the loopback only, and it is the last call; where
    -- `start` returns, the container was run and has answered 0.
    pub start-IsStarted : IsStarted (start t s h runner p entries network own_home home d [])
    unfolding start
    start-IsStarted =
        let verify = verify_each t s h runner network.verification_commands in
        let rest = start_verified t s h runner p entries home d in
        let ran = verify_each-Verifies network.verification_commands [] tt in
        after_reader IsStarted (λ _. check_attestation p network >> (verify >> rest)) []
          (lift (validate_sandbox_policy s h p own_home true d)) refl (λ e q. tt)
          (λ u valid.
            after_reader IsStarted (λ _. verify >> rest) [] (check_attestation p network)
              (check_attestation_keeps p network []) (λ e q. tt)
              (λ v holds.
                let attests = attested p network [] (ap is_ok holds) in
                before_answer IsStarted (λ _. rest) [] verify
                  (λ e q. only_verifications (verify []).1 ran.1)
                  (λ w passed.
                    start_verified-IsStarted (verify []).1 ran.1 (ran.0 (ap is_ok passed)) attests
                      (validate_sandbox_policy-IsAccepted s h own_home d p true valid))))
