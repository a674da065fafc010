-- ===== src/Runtime.antt =====
-- runtime.py: the GPUs that `nvidia-smi` names, and `DockerRuntime`. The state is the list of the
-- commands that were run, newest first; the runner answers a command by what was run before it, and
-- raises by an exception.
pub mod Docker
pub mod Guarded
mod Tests
use notebook_launcher.Prelude.{
  ℕ, String, Bool, true, false, not, ◌&&◌, ◌||◌, Option, none, some, List, [], ◌∷◌, ◌++◌, any, all,
  ◌==◌, is_none, opt_str_eq, str_eq, if◌then◌else◌,
}
use notebook_launcher.Action.{
  Action, Result, ok, err, Error, execution_timeout, file_not_found, file_exists, not_a_directory,
  os_error, subprocess_error, value_error, runtime_policy_error, pure, raise, raise_if, ◌>>=◌, ◌>>◌,
}
use notebook_launcher.SafePaths.{HostPaths}
use notebook_launcher.Gpu.{GpuDevice, GpuProbeResult, unavailable}
use notebook_launcher.Network.Applier.{CommandResult, NetworkPolicyAttestation}
use notebook_launcher.Sandbox.{SandboxPolicy, SandboxTexts}
use notebook_launcher.Sandbox.Policy.{validate_sandbox_policy}
use notebook_launcher.Sandbox.Argv.{docker_run_argv}

-- `splitlines`, `partition(",")` as the text before a comma and the text behind it where there is one,
-- `strip`, `startswith("127.0.0.1:")`, `type(exc).__name__`, and `f"docker_run_failed_{code}"`.
pub record RuntimeTexts : Type 0 where
  pub lines : String → List String
  pub partition : String → String × Option String
  pub strip : String → String
  pub lower : String → String
  pub is_loopback : String → Bool
  pub class_name : Error → String
  pub docker_run_failed : ℕ → String

pub record RuntimeStartResult : Type 0 where
  pub container_id : String
  pub argv : List String
  pub sandbox_verified : Bool
  pub network_verified : Bool
  pub gpu_enabled : Bool
  pub ready : Bool

pub record RuntimeReadiness : Type 0 where
  pub container_id : String
  pub sandbox_verified : Bool
  pub network_verified : Bool
  pub collaboration_ready : Bool
  pub ready : Bool

-- What was run: a verification, a container or another command, with its answer.
pub data Call : Type 0 where
  verification : List String → Result CommandResult → Call
  container : List String → Result CommandResult → Call
  command : List String → Result CommandResult → Call

abbrev pub Runner : Type 0
Runner = List Call → List String → Result CommandResult

abbrev pub Run : Type 0 → Type 0
Run A = Action (List Call) A

abbrev pub run :
    Runner → (List String → Result CommandResult → Call) → List String → Run CommandResult
run runner kind argv calls = (runner calls argv, kind argv (runner calls argv) ∷ calls)

-- `except (OSError, subprocess.SubprocessError)`
abbrev pub is_process_failure : Error → Bool
is_process_failure file_not_found = true
is_process_failure file_exists = true
is_process_failure not_a_directory = true
is_process_failure (os_error n) = true
is_process_failure subprocess_error = true
is_process_failure _ = false

-- `except (ExecutionTimeout, OSError, subprocess.SubprocessError)`
abbrev pub is_runner_failure : Error → Bool
is_runner_failure execution_timeout = true
is_runner_failure e = is_process_failure e

abbrev pub is_failure : CommandResult → Bool
is_failure r = not (r.returncode == 0)

module _ (t : RuntimeTexts) where
  abbrev pub device_of : String × Option String → List GpuDevice
  device_of (uuid, none) = []
  device_of (uuid, some name) = record { uuid = t.strip uuid; name = t.strip name } ∷ []

  -- the loop of `_parse_gpu_devices`
  unfoldable pub gpu_devices : List String → List GpuDevice
  gpu_devices [] = []
  gpu_devices (line ∷ lines) =
      (if str_eq (t.strip line) "" then [] else device_of (t.partition line)) ++ gpu_devices lines

  abbrev pub is_some_device : List GpuDevice → Bool
  is_some_device [] = false
  is_some_device (_ ∷ _) = true

  unfoldable pub parse_gpu_devices : String → GpuProbeResult
  parse_gpu_devices stdout =
      let devices = gpu_devices (t.lines stdout) in
      record { available = is_some_device devices; devices = devices; error = none }

  -- What a probe answers, by the answer of its command.
  abbrev pub probed : (Error → Bool) → String → Result CommandResult → Result GpuProbeResult
  probed caught failed (err e) =
      if caught e then ok (unavailable (some (t.class_name e))) else err e
  probed caught failed (ok r) =
      if is_failure r then ok (unavailable (some failed)) else ok (parse_gpu_devices r.stdout)

  abbrev pub nvidia_smi : List String
  nvidia_smi = "nvidia-smi" ∷ "--query-gpu=uuid,name" ∷ "--format=csv,noheader" ∷ []

  unfoldable pub probe_nvidia : Runner → Run GpuProbeResult
  probe_nvidia runner calls =
      let (r, calls') = run runner command nvidia_smi calls in
      (probed is_process_failure "nvidia_smi_failed" r, calls')

  abbrev pub probe_argv : String → List String
  probe_argv image =
      "docker" ∷ "run" ∷ "--rm" ∷ "--network" ∷ "none" ∷ "--security-opt" ∷ "no-new-privileges:true"
      ∷ "--cap-drop" ∷ "ALL" ∷ "--user" ∷ "1000:1000" ∷ "--read-only" ∷ "--pids-limit" ∷ "64"
      ∷ "--memory" ∷ "1g" ∷ "--cpus" ∷ "1" ∷ "--gpus" ∷ "all" ∷ image ∷ nvidia_smi

  abbrev pub run_probe : Runner → String → Run GpuProbeResult
  run_probe runner image calls =
      let (r, calls') = run runner command (probe_argv image) calls in
      (probed is_runner_failure "container_gpu_probe_failed" r, calls')

  -- `contains_nul` is `"\x00" in image`.
  unfoldable pub probe_nvidia_container : (String → Bool) → Runner → String → Run GpuProbeResult
  probe_nvidia_container contains_nul runner image = do
    raise_if (str_eq (t.strip image) "" || contains_nul image)
        (value_error "container image is required")
    run_probe runner image
