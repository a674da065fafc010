-- ===== src/Network/Tests.antt =====
-- The network theorems at a concrete plan, runner and destination.
use notebook_launcher.Prelude.{
  ◌≡◌, ◌≢◌, ◌↔◌, refl, String, Bool, true, false, none, some, List, [], ◌∷◌, ◌++◌, All, str_eq,
  if◌then◌else◌,
}
use notebook_launcher.Action.{is_ok}
use notebook_launcher.Network.Rules.{
  Command, Texts, FirewallPlan, docker_network_create_argv, firewall_rule_argv,
  firewall_verification_argv,
}
use notebook_launcher.Network.Applier.{
  CommandResult, Runner, run, run_each, verify, apply, remove_owned_network,
  inspect_network_identity, remove_verified_network,
}
use notebook_launcher.Network.Checked.{answers_zero, apply_exact}
use notebook_launcher.Network.Destinations.{
  Addresses, all_destinations_allowed, classify_destination, validate_resolved_addresses,
}
use notebook_launcher.Network.Approved.{IsAddress, IsAllowed, all_destinations_allowed_exact}

abbrev same : String → String
same s = s

-- An inspection answers the id `id` and a label that is the plan's identity.
abbrev texts : Texts
texts = record {
  sha256_hexdigest = λ s. "digest";
  upper = same;
  letters_and_digits = same;
  first_8 = same;
  first_9 = same;
  sorted = λ l. l;
  casefold = same;
  is_in = λ a b. false;
  tab_fields = λ s. "id" ∷ "digest" ∷ [];
  is_network_id = λ s. true;
}

abbrev plan : FirewallPlan
plan = record {
  network_name = "net";
  bridge_name = "nl0";
  ipv4_subnet = "10.9.0.0/24";
  approved_dns_endpoints = "9.9.9.9" ∷ [];
}

abbrev done : CommandResult
done = record { returncode = 0; stdout = ""; stderr = "" }

abbrev willing : Runner
willing log c = some done

abbrev is_link_check : Command → Bool
is_link_check [] = false
is_link_check (x ∷ _) = str_eq x "ip"

-- The bridge is not there.
abbrev no_bridge : Runner
no_bridge log c = if is_link_check c then some (record done { returncode = 1 }) else some done

verified : is_ok (verify texts willing plan []).0 ≡ true
unfolding verify run_each run firewall_verification_argv firewall_rule_argv
verified = refl

apply_exact_example :
    is_ok (apply texts no_bridge plan []).0
    ≡ answers_zero no_bridge
        (docker_network_create_argv texts plan
          ∷ (firewall_rule_argv texts plan ++ firewall_verification_argv texts plan))
        []
apply_exact_example = apply_exact texts no_bridge plan []

network_removed : is_ok (remove_owned_network texts willing plan []).0 ≡ true
unfolding remove_owned_network inspect_network_identity remove_verified_network run
network_removed = refl

-- The addresses are their texts; `9.9.9.9` is global and nothing else.
abbrev ip : Addresses
ip = record {
  Address = String;
  ip_address = λ s. some s;
  ipv4_mapped = λ a. none;
  same = str_eq;
  is_loopback = λ a. false;
  is_private = λ a. false;
  is_link_local = λ a. false;
  is_multicast = λ a. false;
  is_unspecified = λ a. false;
  is_global = λ a. str_eq a "9.9.9.9";
  in_6to4_relay = λ a. false;
}

abbrev resolver : List String
resolver = "9.9.9.9" ∷ []

one_allowed : all_destinations_allowed ip [] resolver ≡ true
unfolding all_destinations_allowed validate_resolved_addresses classify_destination
one_allowed = refl

all_destinations_allowed_exact_example :
    (all_destinations_allowed ip [] resolver ≡ true)
    ↔ ((resolver ≢ []) × All (IsAddress ip) [] × All (IsAllowed ip []) resolver)
all_destinations_allowed_exact_example = all_destinations_allowed_exact ip [] resolver
