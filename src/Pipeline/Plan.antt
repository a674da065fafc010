-- ===== src/Pipeline/Plan.antt =====
-- pipeline.py: the names, addresses and commands of a runtime. A session's UUID is its number.
use notebook_launcher.Prelude.{ℕ, ◌+◌, ◌≤◌, String, List, [], ◌∷◌, arith}
use Prim.Native.Nat.{◌/◌, ◌%◌}
use notebook_launcher.Network.Rules.{Command, FirewallPlan, join}

-- What the code asks of Python: `UUID.hex`, the text of a number, `quote(…, safe='/')`, and the first
-- 8 and the first 10 characters.
pub record Texts : Type 0 where
  pub hex : ℕ → String
  pub decimal : ℕ → String
  pub quote : String → String
  pub first_8 : String → String
  pub first_10 : String → String

abbrev pub second_octet : ℕ → ℕ
second_octet session_id = 16 + (session_id / 256) % 224

abbrev pub third_octet : ℕ → ℕ
third_octet session_id = 1 + session_id % 253

module _ (texts : Texts) where
  abbrev pub runtime_name : ℕ → String
  runtime_name session_id = join "" ("notebook-launcher-" ∷ texts.hex session_id ∷ [])

  abbrev pub base_url : ℕ → String
  base_url host_port = join "" ("http://127.0.0.1:" ∷ texts.decimal host_port ∷ [])

  abbrev pub notebook_url : String → String → String
  notebook_url base notebook_path = join "" (base ∷ "/lab/tree/" ∷ texts.quote notebook_path ∷ [])

  abbrev pub jupyter_command : String → Command
  jupyter_command notebook_path =
      "jupyter"
      ∷ "lab"
      ∷ "--config=/jupyter_server_config.py"
      ∷ "--collaborative"
      ∷ "--ServerApp.port=8888"
      ∷ "--ServerApp.port_retries=0"
      ∷ "--ServerApp.root_dir=/workspace"
      ∷ join "" ("--ServerApp.default_url=/lab/tree/" ∷ texts.quote notebook_path ∷ [])
      ∷ "--no-browser"
      ∷ []

  abbrev pub firewall_plan : List String → ℕ → FirewallPlan
  firewall_plan approved_dns_endpoints session_id = record {
    network_name = join "" ("nl-" ∷ texts.first_10 (texts.hex session_id) ∷ []);
    bridge_name = join "" ("nlbr" ∷ texts.first_8 (texts.hex session_id) ∷ []);
    ipv4_subnet = join "" (
        "10."
        ∷ texts.decimal (second_octet session_id)
        ∷ "."
        ∷ texts.decimal (third_octet session_id)
        ∷ ".0/24"
        ∷ []);
    approved_dns_endpoints = approved_dns_endpoints;
  }

-- The subnet of a session is a subnet of 10.0.0.0/8 whose second number is 16 to 239 and whose third
-- number is 1 to 253, whatever the UUID.
pub firewall_plan_bounds :
    (session_id : ℕ)
    → (16 ≤ second_octet session_id)
      × (second_octet session_id ≤ 239)
      × (1 ≤ third_octet session_id)
      × (third_octet session_id ≤ 253)
firewall_plan_bounds session_id = (omega arith, omega arith, omega arith, omega arith)
