-- ===== src/Sandbox/Argv.antt =====
-- sandbox.py: `docker_run_argv`, the command that starts a container.
use notebook_launcher.Prelude.{
  ℕ, String, false, Option, none, some, List, [], ◌∷◌, ◌++◌, any, if◌then◌else◌,
}
use Prim.Native.String.{◌++◌ as join_text}
use notebook_launcher.Action.{Result, ok}
use notebook_launcher.SafePaths.{HostPaths}
use notebook_launcher.Sandbox.{SandboxPolicy, SandboxTexts, refuse, ◌⨟◌}
use notebook_launcher.Sandbox.Policy.{validate_sandbox_policy}

abbrev pub flat : {A : Type 0} → (A → List String) → List A → List String
flat f [] = []
flat f (x ∷ l) = f x ++ flat f l

abbrev pub joined : List String → String
joined [] = ""
joined (s ∷ l) = join_text s (joined l)

abbrev pub readonly_flags : String × String → List String
readonly_flags (host, container) =
    "--mount" ∷ joined ("type=bind,source=" ∷ host ∷ ",target=" ∷ container ∷ ",readonly" ∷ []) ∷ []

abbrev pub readwrite_flags : String × String → List String
readwrite_flags (host, container) =
    "--mount" ∷ joined ("type=bind,source=" ∷ host ∷ ",target=" ∷ container ∷ []) ∷ []

abbrev pub env_flags : String × String → List String
env_flags (key, value) = "--env" ∷ joined (key ∷ "=" ∷ value ∷ []) ∷ []

abbrev pub profile_flags : Option String → List String
profile_flags none = []
profile_flags (some profile) = "--security-opt" ∷ join_text "seccomp=" profile ∷ []

abbrev pub network_flags : Option String → List String
network_flags none = []
network_flags (some name) = "--network" ∷ name ∷ []

module _ {D : Type 0} (t : SandboxTexts D) where
  abbrev pub port_flags : ℕ × ℕ → List String
  port_flags (host_port, container_port) =
      "--publish" ∷ joined ("127.0.0.1:" ∷ t.text host_port ∷ ":" ∷ t.text container_port ∷ []) ∷ []

  -- The flags that every container has.
  abbrev pub fixed_flags : SandboxPolicy → List String
  fixed_flags p =
      "docker"
      ∷ "run"
      ∷ "--rm"
      ∷ "--name"
      ∷ p.container_name
      ∷ "--user"
      ∷ "1000:1000"
      ∷ "--security-opt"
      ∷ "no-new-privileges:true"
      ∷ "--cap-drop"
      ∷ "ALL"
      ∷ "--memory"
      ∷ p.memory
      ∷ "--cpus"
      ∷ p.cpus
      ∷ "--pids-limit"
      ∷ t.text p.pids_limit
      ∷ "--ulimit"
      ∷ joined ("nofile=" ∷ t.text p.nofile_limit ∷ ":" ∷ t.text p.nofile_limit ∷ [])
      ∷ "--read-only"
      ∷ "--tmpfs"
      ∷ join_text "/tmp:rw,noexec,nosuid,nodev,size=" p.tmpfs_size
      ∷ "--tmpfs"
      ∷ "/run:rw,noexec,nosuid,nodev,size=64m"
      ∷ "--init"
      ∷ readwrite_flags (p.workspace_host, p.workspace_container)

  abbrev pub argv_of : SandboxPolicy → List String → List String
  argv_of p command =
      fixed_flags p
      ++ profile_flags p.seccomp_profile
      ++ flat readonly_flags p.readonly_mounts
      ++ flat readwrite_flags p.readwrite_mounts
      ++ flat env_flags p.environment
      ++ network_flags p.network_name
      ++ flat port_flags p.published_ports
      ++ (if p.gpu_enabled then "--gpus" ∷ "all" ∷ [] else [])
      ++ p.image ∷ command

  -- `home` is `Path.home()`; each entry of a command is a text.
  unfoldable pub docker_run_argv :
      HostPaths D → SandboxPolicy → List String → String → D → Result (List String)
  docker_run_argv h p command home d =
      validate_sandbox_policy t h p home false d
      ⨟ refuse (any (t.contains "\0") command)
          "container command entries must be strings without NUL bytes"
      ⨟ ok (argv_of p command)
