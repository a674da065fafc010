-- ===== src/Grants/Tests.antt =====
-- The theorems on grants at a concrete database.
use notebook_launcher.Prelude.{◌≡◌, refl, true, none, some, [], ◌∷◌}
use notebook_launcher.Action.{ok, err, value_error}
use notebook_launcher.State.{Db, empty, grants_ok}
use notebook_launcher.SafePaths.{canonical_grant_root}
use notebook_launcher.SafePaths.Samples.{plain_paths}
use notebook_launcher.State.Samples.{sample_workspace}
use notebook_launcher.Grants.{GrantRecord, grant_row, grant, active, revoke}
use notebook_launcher.Grants.Single.{GrantsValid, can_grant, granted, grant_exact}
use notebook_launcher.Grants.Revoked.{revoke_inactive}

abbrev record_1 : GrantRecord
record_1 = record {
  id = 9;
  workspace_id = 1;
  display_path = "/data";
  canonical_root = "/data";
  root_dev = 1;
  root_ino = 2;
  mode = "ro";
  created_at = 50;
  revoked_at = none;
}

abbrev db : Db
db = record empty { workspaces = sample_workspace ∷ [] }

abbrev with_active : Db
with_active = record db { grants = grant_row record_1 ∷ [] }

db-GrantsValid : GrantsValid db
unfolding grants_ok
db-GrantsValid = refl

with_active-GrantsValid : GrantsValid with_active
unfolding grants_ok
with_active-GrantsValid = refl

may_grant : canonical_grant_root plain_paths "/data" (some "/home/u") tt ≡ (ok "/data", tt)
unfolding canonical_grant_root
may_grant = refl

grant_exact_example :
    grant plain_paths 9 1 "/data" "ro" (some "/home/u") 50 (db, tt)
    ≡ (ok record_1, (granted record_1 db, tt))
grant_exact_example =
    grant_exact plain_paths 9 1 50 "/data" "ro" "/data" (some "/home/u")
      (record { is_directory = true; identity = record { device = 1; inode = 2 } }) db tt tt
      db-GrantsValid refl refl may_grant refl

other_allowed : canonical_grant_root plain_paths "/other" none tt ≡ (ok "/other", tt)
unfolding canonical_grant_root
other_allowed = refl

-- A second one is refused.
second_refused : grant plain_paths 10 1 "/other" "rw" none 60 (with_active, tt) ≡ (
  err (value_error "workspace already has an active data grant or does not exist"),
  (with_active, tt),
)
second_refused =
    grant_exact plain_paths 10 1 60 "/other" "rw" "/other" none
      (record { is_directory = true; identity = record { device = 1; inode = 2 } }) with_active tt
      tt with_active-GrantsValid refl refl other_allowed refl

revoke_inactive_example :
    let (r, db') = revoke 1 70 with_active in
    (r ≡ ok true) × (active 1 db' ≡ (ok none, db')) × GrantsValid db' × (can_grant 1 db' ≡ true)
revoke_inactive_example = revoke_inactive 1 70 with_active with_active-GrantsValid
