-- ===== src/Network/Applier.antt =====
-- network.py: `NetworkPolicyApplier`. The state is the list of the commands that were run; the runner
-- answers a command by what was run before it, and answers nothing where it raises one of the two
-- exceptions that `_run` catches, `ExecutionTimeout` and `OSError`; that it raises no other is taken for
-- granted.
use notebook_launcher.Prelude.{
  ℕ, String, Bool, true, false, not, ◌&&◌, ◌||◌, Option, none, some, List, [], ◌∷◌, ◌++◌, ◌==◌, ◌+◌,
  str_eq, if◌then◌else◌,
}
use notebook_launcher.Action.{
  Action, Result, ok, err, Error, network_policy_error, NetworkFailure, runner_raised,
  invalid_identity, plan_mismatch, create_failed, remove_failed, inspect_failed, rule_failed,
  verification_failed, network_rm_failed, cleanup_failed, CleanupFailure, left_over, not_run, pure,
  raise, raise_if, ◌>>=◌, ◌>>◌,
}
use notebook_launcher.Network.Rules.{
  Command, Texts, FirewallPlan, join, docker_network_create_argv, docker_network_inspect_argv,
  network_plan_identity, firewall_rule_argv, firewall_verification_argv, removal_argv,
}

pub record CommandResult : Type 0 where
  pub returncode : ℕ
  pub stdout : String
  pub stderr : String

abbrev pub Runner : Type 0
Runner = List Command → Command → Option CommandResult

abbrev pub Run : Type 0 → Type 0
Run A = Action (List Command) A

pub record NetworkPolicyAttestation : Type 0 where
  pub network_name : String
  pub bridge_name : String
  pub verified : Bool
  pub commands_verified : ℕ
  pub deny_non_global : Bool
  pub dns_exceptions_port_53_only : Bool
  pub host_gateway_alias_present : Bool
  pub verification_commands : List Command

module _ (texts : Texts) (runner : Runner) where
  -- `_run`
  unfoldable pub run : Command → Run CommandResult
  run argv log = elim (runner log argv) [
    | none ↦ (err (network_policy_error runner_raised), log ++ argv ∷ [])
    | some r ↦ (ok r, log ++ argv ∷ [])
  ]

  -- `_cleanup_target_absent`
  abbrev pub message : CommandResult → String
  message r = texts.casefold (join "\n" (r.stdout ∷ r.stderr ∷ []))

  abbrev pub last_word : Command → String
  last_word [] = ""
  last_word (x ∷ []) = x
  last_word (x ∷ y ∷ l) = last_word (y ∷ l)

  abbrev pub is_network_command : Command → Bool
  is_network_command (a ∷ b ∷ c ∷ _) =
      str_eq a "docker" && str_eq b "network" && (str_eq c "inspect" || str_eq c "rm")
  is_network_command _ = false

  abbrev pub is_iptables : Command → Bool
  is_iptables [] = false
  is_iptables (a ∷ _) = str_eq a "iptables"

  abbrev pub cleanup_target_absent : Command → CommandResult → Bool
  cleanup_target_absent command r =
      if is_iptables command
      then (texts.is_in "bad rule (does a matching rule exist" (message r)
          || texts.is_in "no chain/target/match by that name" (message r))
      else let target = texts.casefold (last_word command) in
        is_network_command command
        && (texts.is_in (join "" ("network " ∷ target ∷ " not found" ∷ [])) (message r)
            || texts.is_in (join "" ("no such network: " ∷ target ∷ [])) (message r))

  abbrev pub is_failure : CommandResult → Bool
  is_failure r = not (r.returncode == 0)

  -- `len(fields) != 2 or not _NETWORK_ID.fullmatch(fields[0])`
  abbrev pub identity_of : List String → Option (String × String)
  identity_of (network_id ∷ label ∷ []) =
      if texts.is_network_id network_id then some (network_id, label) else none
  identity_of _ = none

  -- `_inspect_network_identity`, the id and the label
  unfoldable pub inspect_network_identity : FirewallPlan → Run (Option (String × String))
  unfolding run
  inspect_network_identity plan = do
    let command = docker_network_inspect_argv texts plan
    r ← run command
    if is_failure r
        then (if cleanup_target_absent command r
            then pure none
            else raise (network_policy_error (inspect_failed r.returncode)))
        else elim (identity_of (texts.tab_fields r.stdout)) [
          | none ↦ raise (network_policy_error invalid_identity)
          | some identity ↦ pure (some identity)
        ]

  unfoldable pub remove_verified_network : String → Run (Unit {0})
  unfolding run
  remove_verified_network network_id = do
    let command = "docker" ∷ "network" ∷ "rm" ∷ network_id ∷ []
    r ← run command
    raise_if (is_failure r && not (cleanup_target_absent command r))
        (network_policy_error (remove_failed r.returncode))

  unfoldable pub remove_owned_network : FirewallPlan → Run (Unit {0})
  unfolding inspect_network_identity remove_verified_network
  remove_owned_network plan = do
    identity ← inspect_network_identity plan
    elim identity [
      | none ↦ pure tt
      | some (network_id, label) ↦ do
        raise_if (not (str_eq label (network_plan_identity texts plan)))
            (network_policy_error plan_mismatch)
        remove_verified_network network_id
    ]

  -- `for command in commands` of `remove`: every command is run, and the failures are collected.
  unfoldable pub remove_each : List Command → List Command → List CleanupFailure × List Command
  unfolding run
  remove_each [] log = ([], log)
  remove_each (c ∷ commands) log =
      let (r, log') = run c log in
      let (rest, log'') = remove_each commands log' in
      elim r [
        | err _ ↦ (not_run c ∷ rest, log'')
        | ok a ↦
            if is_failure a && not (cleanup_target_absent c a)
            then (left_over c a.returncode ∷ rest, log'')
            else (rest, log'')
      ]

  abbrev pub raise_failures : List CleanupFailure → Result (Unit {0})
  raise_failures [] = ok tt
  raise_failures (f ∷ l) = err (network_policy_error (cleanup_failed (f ∷ l)))

  -- `except NetworkPolicyError` round the removal of the network
  abbrev pub as_rm_failure : Error → Error
  as_rm_failure (network_policy_error f) = network_policy_error (network_rm_failed f)
  as_rm_failure e = e

  unfoldable pub remove : FirewallPlan → Run (Unit {0})
  remove plan log =
      let (r, log') = remove_owned_network plan log in
      elim r [
        | err e ↦ (err (as_rm_failure e), log')
        | ok _ ↦
            let (failures, log'') = remove_each (removal_argv texts plan) log' in
            (raise_failures failures, log'')
      ]

  -- The loops of `apply` and `verify`: each command has to answer 0.
  unfoldable pub run_each : (Command → ℕ → NetworkFailure) → List Command → Run ℕ
  unfolding run
  run_each failure [] = pure 0
  run_each failure (c ∷ commands) = do
    r ← run c
    raise_if (is_failure r) (network_policy_error (failure c r.returncode))
    n ← run_each failure commands
    pure (n + 1)

  unfoldable pub verify : FirewallPlan → Run NetworkPolicyAttestation
  verify plan = do
    n ← run_each verification_failed (firewall_verification_argv texts plan)
    pure (record {
      network_name = plan.network_name;
      bridge_name = plan.bridge_name;
      verified = true;
      commands_verified = n;
      deny_non_global = true;
      dns_exceptions_port_53_only = true;
      host_gateway_alias_present = false;
      verification_commands = firewall_verification_argv texts plan;
    })

  -- `_reconcile_create_failure`, and the exception that is raised after it
  unfoldable pub reconcile_create_failure : {A : Type 0} → FirewallPlan → Error → Run A
  reconcile_create_failure plan original log = (err original, (remove_owned_network plan log).1)

  -- The `try` of `apply` round the rules: what fails is removed, and raised again.
  unfoldable pub removing : {A : Type 0} → FirewallPlan → Run A → Run A
  removing plan m log =
      let (r, log') = m log in
      elim r [ ok a ↦ (ok a, log') | err e ↦ (err e, (remove plan log').1) ]

  unfoldable pub install : FirewallPlan → Run NetworkPolicyAttestation
  install plan = do run_each rule_failed (firewall_rule_argv texts plan); verify plan

  unfoldable pub apply : FirewallPlan → Run NetworkPolicyAttestation
  apply plan log =
      let (r, log') = run (docker_network_create_argv texts plan) log in
      elim r [
        | err e ↦ reconcile_create_failure plan e log'
        | ok a ↦
            if is_failure a
            then reconcile_create_failure plan (network_policy_error (create_failed a.returncode))
                log'
            else removing plan (install plan) log'
      ]
