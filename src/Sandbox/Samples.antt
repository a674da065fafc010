-- ===== src/Sandbox/Samples.antt =====
-- A policy for the tests.
use notebook_launcher.Prelude.{true, false, none, some, [], ◌∷◌, str_eq}
use notebook_launcher.Sandbox.{SandboxPolicy, SandboxTexts}

abbrev pub sandbox_texts : SandboxTexts (Unit {0})
sandbox_texts = record {
  is_blank = λ s. str_eq s "";
  contains = λ part s. str_eq part s;
  upper = λ s. s;
  lower = λ s. s;
  casefold = λ s. s;
  is_container_name = λ s. str_eq s "nl-1";
  is_positive = λ s. str_eq s "4.0";
  text = λ n. "8888";
  is_file = λ s d. true;
  name = λ s. s;
  parts = λ s. s ∷ [];
  as_posix = λ s. s;
  is_within = λ a b. false;
  posix_is_absolute = λ s. true;
  posix_parts = λ s. s ∷ [];
}

abbrev pub policy : SandboxPolicy
policy = record {
  image = "img";
  container_name = "nl-1";
  workspace_host = "/data/w";
  workspace_container = "/workspace";
  readonly_mounts = ("/data/ro", "/mnt/user-data") ∷ [];
  readwrite_mounts = [];
  environment = ("HOME", "/workspace") ∷ [];
  memory = "8g";
  cpus = "4.0";
  pids_limit = 1024;
  gpu_enabled = false;
  seccomp_profile = none;
  network_name = some "net";
  published_ports = (9000, 8888) ∷ [];
  tmpfs_size = "512m";
  nofile_limit = 4096;
}
