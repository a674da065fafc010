-- ===== src/Sandbox/Options.antt =====
-- sandbox.py: what the options of a command may be.
use notebook_launcher.Prelude.{ℕ, ◌≡◌, ◌⊎◌, String, false, true, some, List, [], ◌∷◌, ◌++◌}
use Prim.Native.String.{◌++◌ as join_text}
use notebook_launcher.SafePaths.{HostPaths}
use notebook_launcher.Sandbox.{SandboxPolicy, SandboxTexts, has_secret_name}
use notebook_launcher.Sandbox.Argv.{joined, readonly_flags, readwrite_flags, env_flags, port_flags}
use notebook_launcher.Sandbox.Accepted.{IsPort}
use notebook_launcher.Sandbox.Allowed.{IsMountable}

abbrev pub concat : List (List String) → List String
concat [] = []
concat (x ∷ l) = x ++ concat l

abbrev pub IsOneOf : List String → List (List String) → Type 0
IsOneOf words [] = ⊥
IsOneOf words (x ∷ l) = (words ≡ x) ⊎ IsOneOf words l

-- No capability, no new privilege, no root user and no file of the image that can be written.
abbrev pub hardening : List (List String)
hardening =
    ("--user" ∷ "1000:1000" ∷ [])
    ∷ ("--security-opt" ∷ "no-new-privileges:true" ∷ [])
    ∷ ("--cap-drop" ∷ "ALL" ∷ [])
    ∷ ("--read-only" ∷ [])
    ∷ []

module _ {D : Type 0} (t : SandboxTexts D) (h : HostPaths D) (home : String) (d : D)
    (p : SandboxPolicy) where
  -- The options that set a limit of the policy, or only restrict.
  abbrev pub restrictions : List (List String)
  restrictions =
      ("--rm" ∷ [])
      ∷ ("--name" ∷ p.container_name ∷ [])
      ∷ ("--user" ∷ "1000:1000" ∷ [])
      ∷ ("--security-opt" ∷ "no-new-privileges:true" ∷ [])
      ∷ ("--cap-drop" ∷ "ALL" ∷ [])
      ∷ ("--memory" ∷ p.memory ∷ [])
      ∷ ("--cpus" ∷ p.cpus ∷ [])
      ∷ ("--pids-limit" ∷ t.text p.pids_limit ∷ [])
      ∷ ("--ulimit"
          ∷ joined ("nofile=" ∷ t.text p.nofile_limit ∷ ":" ∷ t.text p.nofile_limit ∷ [])
          ∷ [])
      ∷ ("--read-only" ∷ [])
      ∷ ("--tmpfs" ∷ join_text "/tmp:rw,noexec,nosuid,nodev,size=" p.tmpfs_size ∷ [])
      ∷ ("--tmpfs" ∷ "/run:rw,noexec,nosuid,nodev,size=64m" ∷ [])
      ∷ ("--init" ∷ [])
      ∷ []

  -- An option that the policy switches on.
  abbrev pub IsSwitched : List String → Type 0
  IsSwitched words =
      ((profile : String) × (p.seccomp_profile ≡ some profile)
        × (words ≡ "--security-opt" ∷ join_text "seccomp=" profile ∷ []))
      ⊎ (((name : String) × (p.network_name ≡ some name) × (words ≡ "--network" ∷ name ∷ []))
          ⊎ ((p.gpu_enabled ≡ true) × (words ≡ "--gpus" ∷ "all" ∷ [])))

  -- An option that makes something of the host or a value known to the container: a mount of a host
  -- path that may be mounted, a variable that does not have the name of a secret, or a port of the
  -- loopback.
  abbrev pub IsShared : List String → Type 0
  IsShared words =
      ((host : String) × (container : String) × (IsMountable t h home d host
          × ((words ≡ readwrite_flags (host, container))
              ⊎ (words ≡ readonly_flags (host, container)))))
      ⊎ (((key : String) × (value : String) × ((has_secret_name t key ≡ false)
              × (words ≡ env_flags (key, value))))
          ⊎ ((host_port : ℕ) × (container_port : ℕ) × ((IsPort host_port × IsPort container_port)
                × (words ≡ port_flags t (host_port, container_port)))))

  abbrev pub IsSafe : List String → Type 0
  IsSafe words = IsOneOf words restrictions ⊎ (IsSwitched words ⊎ IsShared words)
