-- ===== src/Trust/Tests.antt =====
-- The trust theorems at a concrete database; the hash is the identity.
use notebook_launcher.Prelude.{
  ◌≡◌, refl, String, true, false, ◌||◌, ◌&&◌, none, some, [], ◌∷◌, leb, str_eq,
}
use notebook_launcher.Action.{ok, err, is_ok, value_error}
use notebook_launcher.State.{Db, empty, trust_ok, set_trust_records}
use notebook_launcher.State.Rows.{
  Gpu, AgentMode, LaunchState, TrustScope, LaunchRow, LaunchSourceRow,
}
use notebook_launcher.Trust.{Source, find_trust, grant}
use notebook_launcher.Trust.Cover.{is_trusted}
use notebook_launcher.Trust.Flow.{
  create_challenge, validate_challenge, deny, ensure_trust, complete_trust,
}
use notebook_launcher.Trust.Challenges.{complete_trust_once}
use notebook_launcher.Trust.Confirm.{trusted-complete_trust, validate-create_challenge}

abbrev same : String → String
same s = s

abbrev source : Source
source = record {
  repository_id = 77;
  repository_node_id = none;
  owner = "o";
  repository = "r";
  requested_ref = "main";
  commit_sha = "c1";
  notebook_path = "n.ipynb";
  clone_url = "https://github.com/o/r.git";
}

abbrev later_commit : Source
later_commit = record source { commit_sha = "c2" }

abbrev launch : LaunchRow
launch = record {
  id = 3;
  request_digest = "d";
  repository_id = some 77;
  commit_sha = some "c1";
  notebook_path = some "n.ipynb";
  workspace_id = none;
  gpu = Gpu.auto;
  agent_mode = AgentMode.write;
  trust_covered = false;
  state = LaunchState.pending_trust;
  session_id = none;
  message = none;
  error_code = none;
  created_at = 10;
  updated_at = 10;
}

abbrev source_of_launch : LaunchSourceRow
source_of_launch = record {
  launch_id = 3;
  repository_id = 77;
  repository_node_id = none;
  owner = "o";
  repository = "r";
  commit_sha = "c1";
  notebook_path = "n.ipynb";
  requested_ref = some "main";
  clone_url = some "https://github.com/o/r.git";
}

abbrev db : Db
db = record empty {
  launches = launch ∷ [];
  launch_sources = source_of_launch ∷ [];
  challenges = record { launch_id = 3; nonce_hash = "n"; expires_at = 600; used_at = none } ∷ [];
}

completes : is_ok (complete_trust same 3 "n" TrustScope.exact_commit 9 100 db).0 ≡ true
unfolding complete_trust ensure_trust set_trust_records trust_ok
completes = refl

complete_trust_once_example :
    let db' = (complete_trust same 3 "n" TrustScope.exact_commit 9 100 db).1 in
    (complete_trust same 3 "n" TrustScope.repository 10 101 db'
      ≡ (err (value_error "trust challenge already used"), db'))
    × (deny same 3 "n" 101 db'
        ≡ (err (value_error "trust challenge not found or already used"), db'))
    × (validate_challenge same 3 "n" 101 db' ≡ (ok false, db'))
complete_trust_once_example =
    complete_trust_once same 3 "n" "n" TrustScope.exact_commit TrustScope.repository 9 10 100 101 db
      completes

-- Another commit of the repository does not become trusted with the one that was confirmed.
trusted-complete_trust_example :
    is_trusted
      (find_trust later_commit (complete_trust same 3 "n" TrustScope.exact_commit 9 100 db).1).0
    ≡ (is_trusted (find_trust later_commit db).0 || false)
trusted-complete_trust_example =
    trusted-complete_trust same 3 "n" TrustScope.exact_commit 9 100 db source_of_launch later_commit
      completes refl

validate-create_challenge_example :
    (validate_challenge same 3 "x" 160 (create_challenge same 3 source "x" 60 100 db).1).0
    ≡ ok (leb 160 160 && str_eq "x" "x")
validate-create_challenge_example =
    validate-create_challenge same 3 source "x" "x" 60 100 160 db refl

grants : is_ok (grant 9 source TrustScope.repository 100 db).0 ≡ true
unfolding grant set_trust_records trust_ok
grants = refl
