-- ===== src/State/Samples.antt =====
-- A workspace for the tests.
use notebook_launcher.Prelude.{none}
use notebook_launcher.State.Rows.{WorkspaceRow}

abbrev pub sample_workspace : WorkspaceRow
sample_workspace = record {
  id = 1;
  source_repository_id = 7;
  source_owner = "o";
  source_repository = "r";
  source_commit_sha = "c0ffee";
  source_notebook_path = "a.ipynb";
  root_path = "/w";
  work_path = "/w/work";
  outputs_path = "/w/outputs";
  active_notebook_path = "a.ipynb";
  user_data_grant_id = none;
  created_at = 5;
  updated_at = 5;
}
