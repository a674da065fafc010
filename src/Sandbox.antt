-- ===== src/Sandbox.antt =====
-- sandbox.py: what a container may be started with. Python's text and path functions are a parameter;
-- `D` is the state of the disk. A limit or a port is a natural number, so the
-- negative ones, which the code refuses as it does 0, are left out, and `cpus`, a float, is its text.
pub mod Policy
pub mod Argv
pub mod Accepted
pub mod Allowed
pub mod Options
pub mod Commands
pub mod Samples
mod Tests
use notebook_launcher.Prelude.{
  ℕ, String, Bool, true, false, not, ◌&&◌, ◌||◌, Option, none, some, List, [], ◌∷◌, ◌++◌, any,
  is_none, ◌==◌, leb, str_eq, if◌then◌else◌,
}
use Prim.Native.String.{◌++◌ as join_text}
use notebook_launcher.Action.{Result, ok, err, Error, value_error}
use notebook_launcher.SafePaths.{HostPaths}

pub record SandboxPolicy : Type 0 where
  pub image : String
  pub container_name : String
  pub workspace_host : String
  pub workspace_container : String
  pub readonly_mounts : List (String × String)
  pub readwrite_mounts : List (String × String)
  pub environment : List (String × String)
  pub memory : String
  pub cpus : String
  pub pids_limit : ℕ
  pub gpu_enabled : Bool
  pub seccomp_profile : Option String
  pub network_name : Option String
  pub published_ports : List (ℕ × ℕ)
  pub tmpfs_size : String
  pub nofile_limit : ℕ

-- `not s.strip()`, `in` on texts, `upper`, `lower`, `casefold`, whether `_CONTAINER_NAME` matches the
-- whole text, whether the number is at most 0, `str` of a number, `is_file`, and of a path `name`,
-- `parts`, `as_posix`, the root of its anchor, `relative_to` without an error, and of a `PurePosixPath`
-- `is_absolute` and `parts`.
pub record SandboxTexts (D : Type 0) : Type 0 where
  pub is_blank : String → Bool
  pub contains : String → String → Bool
  pub upper : String → String
  pub lower : String → String
  pub casefold : String → String
  pub is_container_name : String → Bool
  pub is_positive : String → Bool
  pub text : ℕ → String
  pub is_file : String → D → Bool
  pub name : String → String
  pub parts : String → List String
  pub as_posix : String → String
  pub is_within : String → String → Bool
  pub posix_is_absolute : String → Bool
  pub posix_parts : String → List String

abbrev pub forbidden_env_fragments : List String
forbidden_env_fragments =
    "AWS_" ∷ "AZURE_" ∷ "GOOGLE_" ∷ "GITHUB_" ∷ "GH_TOKEN" ∷ "SSH_" ∷ "DOCKER_" ∷ "KUBECONFIG"
    ∷ "PASSWORD" ∷ "SECRET" ∷ "PRIVATE_KEY" ∷ "API_KEY" ∷ "TOKEN" ∷ "CREDENTIAL" ∷ "AUTH" ∷ []

abbrev pub container_control_names : List String
container_control_names = "docker.sock" ∷ "podman.sock" ∷ "containerd.sock" ∷ "crio.sock" ∷ []

abbrev pub forbidden_parts : List String
forbidden_parts = ".ssh" ∷ ".aws" ∷ ".docker" ∷ ".kube" ∷ ".gnupg" ∷ []

-- A test that raises, and a sequence of them.
abbrev pub refuse : Bool → String → Result (Unit {0})
refuse c message = if c then err (value_error message) else ok tt

infixr 5 ◌⨟◌
abbrev pub ◌⨟◌ : {A : Type 0} → Result (Unit {0}) → Result A → Result A
◌⨟◌ (ok _) rest = rest
◌⨟◌ (err e) rest = err e

-- A test of each element, in order.
abbrev pub each : {A : Type 0} → (A → Result (Unit {0})) → List A → Result (Unit {0})
each f [] = ok tt
each f (x ∷ l) = f x ⨟ each f l

-- The host path and the container path of every mount.
abbrev pub mounts : SandboxPolicy → List (String × String)
mounts p = (p.workspace_host, p.workspace_container) ∷ p.readonly_mounts ++ p.readwrite_mounts

abbrev pub is_port : ℕ → Bool
is_port port = leb 1 port && leb port 65535

module _ {D : Type 0} (t : SandboxTexts D) where
  abbrev pub has_secret_name : String → Bool
  has_secret_name key = any (λ fragment. t.contains fragment (t.upper key)) forbidden_env_fragments

  abbrev pub keep :
      String × String → Result (List (String × String)) → Result (List (String × String))
  keep entry (ok clean) = ok (entry ∷ clean)
  keep entry (err e) = err e

  -- The value of a name that is allowed, if there is one.
  abbrev pub scrubbed :
      String → Option String → Result (List (String × String)) → Result (List (String × String))
  scrubbed key none clean = clean
  scrubbed key (some value) clean =
      refuse (has_secret_name key) "host secret environment variable is forbidden"
      ⨟ keep (key, value) clean

  -- `allowed` is the set of the names in the order of the loop.
  unfoldable pub scrub_host_environment :
      (String → Option String) → List String → Result (List (String × String))
  scrub_host_environment environment [] = ok []
  scrub_host_environment environment (key ∷ allowed) =
      scrubbed key (environment key) (scrub_host_environment environment allowed)

  unfoldable pub validate_container_path : String → Result (Unit {0})
  validate_container_path value =
      refuse (not (t.posix_is_absolute value) || any (str_eq "..") (t.posix_parts value))
        "container mount path must be absolute and normalized"
      ⨟ refuse (str_eq value "/" || str_eq value "/var/run/docker.sock")
          "container mount path is forbidden"

  -- the loop that fills `destinations`
  unfoldable pub check_destinations : List String → List (String × String) → Result (Unit {0})
  check_destinations destinations [] = ok tt
  check_destinations destinations ((_, container) ∷ l) =
      validate_container_path container
      ⨟ refuse (any (str_eq container) destinations) "duplicate container mount destination"
      ⨟ check_destinations (container ∷ destinations) l

  abbrev pub check_commas : String × String → Result (Unit {0})
  check_commas (host, container) =
      refuse (t.contains "," host || t.contains "," container)
        "Docker mount paths must not contain commas"

  abbrev pub check_environment : String × String → Result (Unit {0})
  check_environment (key, value) =
      refuse (str_eq key "" || t.contains "=" key || t.contains "\0" key || t.contains "\0" value)
        "invalid container environment entry"
      ⨟ refuse (has_secret_name key) "host credential variable must not be injected"

  abbrev pub check_ports : ℕ × ℕ → Result (Unit {0})
  check_ports (host_port, container_port) =
      refuse (not (is_port host_port && is_port container_port))
        "published ports must be between 1 and 65535"
