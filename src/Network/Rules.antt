-- ===== src/Network/Rules.antt =====
-- network.py: the commands that make, check and remove the firewall of a runtime network.
use notebook_launcher.Prelude.{String, Bool, ◌||◌, List, [], ◌∷◌, ◌++◌, map, str_eq, if◌then◌else◌}
use Prim.Native.String.{◌++◌ as join_text}

abbrev pub Command : Type 0
Command = List String

-- What the code asks of Python: `hashlib.sha256(…).hexdigest()`, the letters and digits of a text in
-- upper case, the first 8 and the first 9 characters, `sorted`, `casefold`, `in` on texts,
-- `rstrip("\r\n").split("\t", 1)`, and whether a text is 64 hexadecimal digits.
pub record Texts : Type 0 where
  pub sha256_hexdigest : String → String
  pub upper : String → String
  pub letters_and_digits : String → String
  pub first_8 : String → String
  pub first_9 : String → String
  pub sorted : List String → List String
  pub casefold : String → String
  pub is_in : String → String → Bool
  pub tab_fields : String → List String
  pub is_network_id : String → Bool

-- The checks of `__post_init__` have passed: the endpoints are IPv4 and `ipv6_subnet` is `None`.
pub record FirewallPlan : Type 0 where
  pub network_name : String
  pub bridge_name : String
  pub ipv4_subnet : String
  pub approved_dns_endpoints : List String

abbrev pub ipv4_deny_cidrs : List String
ipv4_deny_cidrs =
    "0.0.0.0/8" ∷ "10.0.0.0/8" ∷ "100.64.0.0/10" ∷ "127.0.0.0/8" ∷ "169.254.0.0/16"
    ∷ "172.16.0.0/12" ∷ "192.0.0.0/29" ∷ "192.0.0.8/32" ∷ "192.0.0.11/32" ∷ "192.0.0.12/30"
    ∷ "192.0.0.16/28" ∷ "192.0.0.32/27" ∷ "192.0.0.64/26" ∷ "192.0.0.128/25" ∷ "192.0.2.0/24"
    ∷ "192.88.99.0/24" ∷ "192.168.0.0/16" ∷ "198.18.0.0/15" ∷ "198.51.100.0/24" ∷ "203.0.113.0/24"
    ∷ "224.0.0.0/4" ∷ "240.0.0.0/4" ∷ []

-- `sep.join(texts)`
abbrev pub join : String → List String → String
join sep [] = ""
join sep (x ∷ []) = x
join sep (x ∷ y ∷ l) = join_text x (join_text sep (join sep (y ∷ l)))

abbrev pub concat : List (List Command) → List Command
concat [] = []
concat (x ∷ l) = x ++ concat l

module _ (texts : Texts) where
  abbrev pub chain_name : String → String → FirewallPlan → String
  chain_name role purpose plan =
      let safe = texts.upper (texts.letters_and_digits plan.network_name) in
      let digest = texts.sha256_hexdigest (join ":" (purpose ∷ plan.network_name ∷ [])) in
      join "" ("NL4" ∷ role ∷ texts.first_9 safe ∷ texts.upper (texts.first_8 digest) ∷ [])

  abbrev pub egress_chain : FirewallPlan → String
  egress_chain = chain_name "E" "egress"

  abbrev pub input_chain : FirewallPlan → String
  input_chain = chain_name "I" "input"

  abbrev pub network_plan_identity : FirewallPlan → String
  network_plan_identity plan = texts.sha256_hexdigest (
      join "\0" (
        plan.network_name
        ∷ plan.bridge_name
        ∷ plan.ipv4_subnet
        ∷ ""
        ∷ texts.sorted plan.approved_dns_endpoints))

  abbrev pub docker_network_create_argv : FirewallPlan → Command
  docker_network_create_argv plan =
      "docker"
      ∷ "network"
      ∷ "create"
      ∷ "--driver"
      ∷ "bridge"
      ∷ "--opt"
      ∷ join "" ("com.docker.network.bridge.name=" ∷ plan.bridge_name ∷ [])
      ∷ "--label"
      ∷ join "" ("io.notebook-launcher.plan=" ∷ network_plan_identity plan ∷ [])
      ∷ "--subnet"
      ∷ plan.ipv4_subnet
      ∷ plan.network_name
      ∷ []

  abbrev pub docker_network_inspect_argv : FirewallPlan → Command
  docker_network_inspect_argv plan =
      "docker" ∷ "network" ∷ "inspect" ∷ "--format"
      ∷ "{{.Id}}\t{{ index .Labels \"io.notebook-launcher.plan\" }}" ∷ plan.network_name ∷ []

  -- `for protocol in ("udp", "tcp")`
  abbrev pub accept_dns : String → String → List Command
  accept_dns chain endpoint =
      map
        (λ protocol.
          "iptables" ∷ "-w" ∷ "-A" ∷ chain ∷ "-p" ∷ protocol ∷ "-d" ∷ endpoint ∷ "--dport" ∷ "53"
          ∷ "-j" ∷ "ACCEPT" ∷ [])
        ("udp" ∷ "tcp" ∷ [])

  abbrev pub reject_dns : String → List Command
  reject_dns chain =
      map
        (λ protocol.
          "iptables" ∷ "-w" ∷ "-A" ∷ chain ∷ "-p" ∷ protocol ∷ "--dport" ∷ "53" ∷ "-j" ∷ "REJECT"
          ∷ [])
        ("udp" ∷ "tcp" ∷ [])

  abbrev pub reject_destination : String → String → Command
  reject_destination chain destination =
      "iptables" ∷ "-w" ∷ "-A" ∷ chain ∷ "-d" ∷ destination ∷ "-j" ∷ "REJECT" ∷ []

  unfoldable pub firewall_rule_argv : FirewallPlan → List Command
  firewall_rule_argv plan =
      let egress = egress_chain plan in
      let input = input_chain plan in
      (("iptables" ∷ "-w" ∷ "-N" ∷ egress ∷ []) ∷ ("iptables" ∷ "-w" ∷ "-F" ∷ egress ∷ []) ∷ [])
      ++ concat (map (accept_dns egress) plan.approved_dns_endpoints)
      ++ reject_dns egress
      ++ map (reject_destination egress) ipv4_deny_cidrs
      ++ (("iptables" ∷ "-w" ∷ "-A" ∷ egress ∷ "-j" ∷ "RETURN" ∷ [])
          ∷ ("iptables" ∷ "-w" ∷ "-I" ∷ "DOCKER-USER" ∷ "1" ∷ "-s" ∷ plan.ipv4_subnet ∷ "-j"
              ∷ egress ∷ [])
          ∷ ("iptables" ∷ "-w" ∷ "-N" ∷ input ∷ [])
          ∷ ("iptables" ∷ "-w" ∷ "-F" ∷ input ∷ [])
          ∷ [])
      ++ concat (map (accept_dns input) plan.approved_dns_endpoints)
      ++ (("iptables" ∷ "-w" ∷ "-A" ∷ input ∷ "-j" ∷ "REJECT" ∷ [])
          ∷ ("iptables" ∷ "-w" ∷ "-I" ∷ "INPUT" ∷ "1" ∷ "-i" ∷ plan.bridge_name ∷ "-s"
              ∷ plan.ipv4_subnet ∷ "-j" ∷ input ∷ [])
          ∷ [])

  -- The check of one rule: none for `-N` and `-F`; a position that `-I` has is taken out.
  abbrev pub check_of : Command → List Command
  check_of (exe ∷ wait ∷ action ∷ chain ∷ rest) =
      if str_eq action "-N" || str_eq action "-F"
      then []
      else (exe ∷ wait ∷ "-C" ∷ chain ∷ (if str_eq action "-I" then drop_1 rest else rest)) ∷ []
    where
      drop_1 : List String → List String
      drop_1 [] = []
      drop_1 (_ ∷ l) = l
  check_of _ = []

  unfoldable pub firewall_verification_argv : FirewallPlan → List Command
  unfolding firewall_rule_argv
  firewall_verification_argv plan =
      ("ip" ∷ "link" ∷ "show" ∷ "dev" ∷ plan.bridge_name ∷ [])
      ∷ concat (map check_of (firewall_rule_argv plan))

  -- The commands of `remove` on the two chains.
  unfoldable pub removal_argv : FirewallPlan → List Command
  removal_argv plan =
      let egress = egress_chain plan in
      let input = input_chain plan in
      ("iptables" ∷ "-w" ∷ "-D" ∷ "DOCKER-USER" ∷ "-s" ∷ plan.ipv4_subnet ∷ "-j" ∷ egress ∷ [])
      ∷ ("iptables" ∷ "-w" ∷ "-D" ∷ "INPUT" ∷ "-i" ∷ plan.bridge_name ∷ "-s" ∷ plan.ipv4_subnet
          ∷ "-j" ∷ input ∷ [])
      ∷ ("iptables" ∷ "-w" ∷ "-F" ∷ egress ∷ [])
      ∷ ("iptables" ∷ "-w" ∷ "-X" ∷ egress ∷ [])
      ∷ ("iptables" ∷ "-w" ∷ "-F" ∷ input ∷ [])
      ∷ ("iptables" ∷ "-w" ∷ "-X" ∷ input ∷ [])
      ∷ []
