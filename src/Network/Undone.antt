-- ===== src/Network/Undone.antt =====
-- network.py: what `apply` has run where it fails after the network was created.
use notebook_launcher.Prelude.{◌≡◌, false, List, [], ◌∷◌, ◌++◌}
use notebook_launcher.Network.Rules.{
  Command, Texts, FirewallPlan, docker_network_create_argv, firewall_rule_argv,
  firewall_verification_argv,
}
use notebook_launcher.Network.Applier.{Runner}
use notebook_launcher.Network.Checked.{answers_zero}
use notebook_launcher.Network.Removed.{IsRemoval}

module _ (texts : Texts) (runner : Runner) where
  -- The commands are the first of a list, up to one that does not answer 0.
  abbrev pub FailsWithin : List Command → List Command → List Command → Type 0
  FailsWithin commands log ran =
      ((rest : List Command) × (commands ≡ ran ++ rest)) × (answers_zero runner ran log ≡ false)

  -- The rules and then the checks were run up to one that did not answer 0, and then the removal.
  abbrev pub IsUndone : FirewallPlan → List Command → List Command → Type 0
  IsUndone plan log final =
      let log' = log ++ docker_network_create_argv texts plan ∷ [] in
      (ran : List Command) × (tail : List Command) × (final ≡ (log' ++ ran) ++ tail)
      × FailsWithin (firewall_rule_argv texts plan ++ firewall_verification_argv texts plan) log'
          ran
      × IsRemoval texts runner plan (log' ++ ran) tail
