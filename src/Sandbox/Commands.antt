-- ===== src/Sandbox/Commands.antt =====
-- sandbox.py: the commands that are made.
use notebook_launcher.Prelude.{
  ◌≡◌, String, Bool, Option, none, some, List, [], ◌∷◌, ◌++◌, map, All, if◌then◌else◌,
}
use Prim.Native.String.{}
use notebook_launcher.SafePaths.{HostPaths}
use notebook_launcher.Sandbox.{SandboxPolicy, SandboxTexts}
use notebook_launcher.Sandbox.Argv.{
  readonly_flags, readwrite_flags, env_flags, profile_flags, network_flags, port_flags,
}
use notebook_launcher.Sandbox.Options.{concat, IsOneOf, hardening, restrictions, IsSafe}

module _ {D : Type 0} (t : SandboxTexts D) (h : HostPaths D) (home : String) (d : D)
    (p : SandboxPolicy) where
  abbrev Safe : List String → Type 0
  Safe words = IsSafe t h home d p words

  abbrev limits : List (List String)
  limits = restrictions t h home d p

  abbrev profile_options : Option String → List (List String)
  profile_options none = []
  profile_options (some profile) = profile_flags (some profile) ∷ []

  abbrev network_options : Option String → List (List String)
  network_options none = []
  network_options (some name) = network_flags (some name) ∷ []

  abbrev gpu_options : Bool → List (List String)
  gpu_options b = if b then ("--gpus" ∷ "all" ∷ []) ∷ [] else []

  abbrev later_options : List (List String)
  later_options =
      profile_options p.seccomp_profile
      ++ map readonly_flags p.readonly_mounts
      ++ map readwrite_flags p.readwrite_mounts
      ++ map env_flags p.environment
      ++ network_options p.network_name
      ++ map (port_flags t) p.published_ports
      ++ gpu_options p.gpu_enabled

  abbrev pub options : List (List String)
  options = limits ++ (readwrite_flags (p.workspace_host, p.workspace_container) ∷ later_options)

  -- The words are those of the options.
  record Concats (words : List String) (options : List (List String)) : Type 0 where
    same : words ≡ concat options

  -- A command is `docker run` with these options, and then the image and the container's command.
  abbrev pub IsRun : List String → List String → Type 0
  IsRun command argv =
      (given : List (List String)) × ((argv
          ≡ "docker" ∷ "run" ∷ (concat given ++ (p.image ∷ command)))
        × All Safe given
        × All (λ o. IsOneOf o given) hardening)
