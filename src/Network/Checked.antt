-- ===== src/Network/Checked.antt =====
-- When the network policy is attested: exactly if every command has answered 0.
use notebook_launcher.Prelude.{
  ℕ, ◌≡◌, Bool, true, false, ◌&&◌, Option, none, some, List, [], ◌∷◌, ◌++◌, ◌==◌, length, arith,
  refl, sym, ◌∙◌, Bool-cases, Option-cases, inl, inr,
}
use notebook_launcher.Action.{
  ok, is_ok, Result-cases, NetworkFailure, rule_failed, verification_failed,
}
use notebook_launcher.Network.Rules.{
  Command, Texts, FirewallPlan, docker_network_create_argv, firewall_rule_argv,
  firewall_verification_argv,
}
use notebook_launcher.Network.Applier.{
  CommandResult, Runner, run, run_each, verify, install, apply, is_failure, removing,
  reconcile_create_failure,
}

pub append_assoc : {A : Type 0} (x y z : List A) → (x ++ y) ++ z ≡ x ++ (y ++ z)
append_assoc [] y z = refl
append_assoc (a ∷ x) y z = ground (arith, append_assoc x y z)

pub append-nil : {A : Type 0} (x : List A) → x ++ [] ≡ x
append-nil [] = refl
append-nil (a ∷ x) = ground (arith, append-nil x)

abbrev pub is_zero : Option CommandResult → Bool
is_zero none = false
is_zero (some r) = r.returncode == 0

-- The runner answers 0 to each of the commands, run one after the other after these.
abbrev pub answers_zero : Runner → List Command → List Command → Bool
answers_zero runner [] log = true
answers_zero runner (c ∷ commands) log =
    is_zero (runner log c) && answers_zero runner commands (log ++ c ∷ [])

module _ (texts : Texts) (runner : Runner) where
  pub answers_zero-append :
      (cs ds : List Command) (log : List Command)
      → answers_zero runner (cs ++ ds) log
        ≡ (answers_zero runner cs log && answers_zero runner ds (log ++ cs))
  answers_zero-append [] ds log = ground (arith, append-nil log)
  answers_zero-append (c ∷ cs) ds log =
      ground (arith, answers_zero-append cs ds (log ++ c ∷ []), append_assoc log (c ∷ []) cs)

  pub run_each_ok :
      (f : Command → ℕ → NetworkFailure) (cs : List Command) (log : List Command)
      → answers_zero runner cs log ≡ true
      → run_each texts runner f cs log ≡ (ok (length cs), log ++ cs)
  unfolding run_each
  run_each_ok f [] log h = ground (arith, append-nil log)
  run_each_ok f (c ∷ cs) log h = elim (Option-cases (runner log c)) [
    | inl e ↦ ground arith
    | inr (r, e) ↦ ground (arith, run_each_ok f cs (log ++ c ∷ []), append_assoc log (c ∷ []) cs)
  ]

  pub run_each_failed :
      (f : Command → ℕ → NetworkFailure) (cs : List Command) (log : List Command)
      → answers_zero runner cs log ≡ false
      → is_ok (run_each texts runner f cs log).0 ≡ false
  unfolding run_each
  run_each_failed f [] log h = ground arith
  run_each_failed f (c ∷ cs) log h = elim (Option-cases (runner log c)) [
    | inl e ↦ ground arith
    | inr (r, e) ↦ ground (
      arith,
      run_each_failed f cs (log ++ c ∷ []),
      Bool-cases (is_failure texts runner r),
      Result-cases (run_each texts runner f cs (log ++ c ∷ [])).0,
    )
  ]

  verify_ok :
      (plan : FirewallPlan) (log : List Command)
      → is_ok (verify texts runner plan log).0
        ≡ answers_zero runner (firewall_verification_argv texts plan) log
  unfolding verify
  verify_ok plan log =
      let checks = firewall_verification_argv texts plan in
      elim (Bool-cases (answers_zero runner checks log)) [
        | inl e ↦ ground (arith, run_each_ok verification_failed checks log e)
        | inr e ↦ ground (
          arith,
          run_each_failed verification_failed checks log e,
          Result-cases (run_each texts runner verification_failed checks log).0,
        )
      ]

  -- A verification that succeeds has run every check and nothing else, each has answered 0, and it
  -- attests their number.
  pub verify_exact :
      (plan : FirewallPlan) (log : List Command)
      → is_ok (verify texts runner plan log).0 ≡ true
      → let checks = firewall_verification_argv texts plan in
        (answers_zero runner checks log ≡ true)
        × (verify texts runner plan log ≡ (
          ok (record {
            network_name = plan.network_name;
            bridge_name = plan.bridge_name;
            verified = true;
            commands_verified = length checks;
            deny_non_global = true;
            dns_exceptions_port_53_only = true;
            host_gateway_alias_present = false;
            verification_commands = checks;
          }),
          log ++ checks,
        ))
  unfolding verify
  verify_exact plan log h =
      let checks = firewall_verification_argv texts plan in
      let zero = sym (verify_ok plan log) ∙ h in
      (zero, ground (arith, run_each_ok verification_failed checks log zero))

  install_ok :
      (plan : FirewallPlan) (log : List Command)
      → is_ok (install texts runner plan log).0
        ≡ answers_zero runner
            (firewall_rule_argv texts plan ++ firewall_verification_argv texts plan)
            log
  unfolding install
  install_ok plan log =
      let rules = firewall_rule_argv texts plan in
      let checks = firewall_verification_argv texts plan in
      elim (Bool-cases (answers_zero runner rules log)) [
        | inl e ↦ ground (
          arith,
          run_each_ok rule_failed rules log e,
          answers_zero-append rules checks log,
          verify_ok plan (log ++ rules),
        )
        | inr e ↦ ground (
          arith,
          run_each_failed rule_failed rules log e,
          answers_zero-append rules checks log,
          Result-cases (run_each texts runner rule_failed rules log).0,
        )
      ]

  -- `apply` succeeds exactly if the creation of the network, every rule and then every check of a rule
  -- answer 0, run in this order.
  pub apply_exact :
      (plan : FirewallPlan) (log : List Command)
      → is_ok (apply texts runner plan log).0
        ≡ answers_zero runner
            (docker_network_create_argv texts plan
              ∷ (firewall_rule_argv texts plan ++ firewall_verification_argv texts plan))
            log
  unfolding apply run removing reconcile_create_failure
  apply_exact plan log =
      let create = docker_network_create_argv texts plan in
      elim (Option-cases (runner log create)) [
        | inl e ↦ ground arith
        | inr (r, e) ↦ ground (
          arith,
          install_ok plan (log ++ create ∷ []),
          Bool-cases (is_failure texts runner r),
          Result-cases (install texts runner plan (log ++ create ∷ [])).0,
        )
      ]
