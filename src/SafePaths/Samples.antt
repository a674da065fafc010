-- ===== src/SafePaths/Samples.antt =====
-- A host for the tests.
use notebook_launcher.Prelude.{true, false}
use notebook_launcher.Action.{ok}
use notebook_launcher.SafePaths.{HostPaths}

-- Each path is a directory of its own name.
abbrev pub plain_paths : {D : Type 0} → HostPaths D
plain_paths = record {
  expanduser = λ s. s;
  resolve = λ strict s d. ok s;
  is_dir = λ s d. true;
  anchor = λ s. "/";
  normcase = λ s. s;
  stat = λ s d. ok (record { is_directory = true; identity = record { device = 1; inode = 2 } });
  is_reparse_point = λ s d. false;
}
