-- ===== src/State.antt =====
-- state.py: the database of `StateStore`, a table a list of rows in the order of insertion. A
-- statement that breaks a constraint of the schema raises `integrity_error`; `atomically` is
-- `StateStore.transaction`, without a compensation.
pub mod Rows
pub mod Launches
pub mod Sessions
pub mod Documents
pub mod Guards
pub mod Workspaces
pub mod Indexes
pub mod Claims
pub mod Transitions
pub mod Tokens
pub mod Rollback
pub mod Matches
pub mod Versions
pub mod Samples
mod Tests
use notebook_launcher.Prelude.{
  ℕ, String, Bool, true, false, not, ◌&&◌, ◌||◌, Option, none, some, List, [], ◌∷◌, ◌++◌, ◌==◌,
  is_none, any, all, str_eq, if◌then◌else◌,
}
use notebook_launcher.Action.{Action, ok, err, integrity_error}
use Rows.{
  SessionState, TrustScope, exact_commit, repository, ReplayRow, LaunchRow, TrustRow, WorkspaceRow,
  SessionRow, LeaseRow, DocumentRow, LaunchSourceRow, ChallengeRow, GrantRow,
}

pub record Db : Type 0 where
  pub replays : List ReplayRow
  pub launches : List LaunchRow
  pub trust_records : List TrustRow
  pub workspaces : List WorkspaceRow
  pub sessions : List SessionRow
  pub leases : List LeaseRow
  pub documents : List DocumentRow
  pub launch_sources : List LaunchSourceRow
  pub challenges : List ChallengeRow
  pub grants : List GrantRow

-- The database after `initialize`.
abbrev pub empty : Db
empty = record {
  replays = [];
  launches = [];
  trust_records = [];
  workspaces = [];
  sessions = [];
  leases = [];
  documents = [];
  launch_sources = [];
  challenges = [];
  grants = [];
}

-- A unique index: no two rows agree on the key.
abbrev pub unique {ℓ} : {A : Type ℓ} → (A → A → Bool) → List A → Bool
unique same [] = true
unique same (x ∷ xs) = not (any (same x) xs) && unique same xs

-- `state IN ('starting','ready','stopping')`
abbrev pub is_live : SessionState → Bool
is_live SessionState.starting = true
is_live SessionState.ready = true
is_live SessionState.stopping = true
is_live _ = false

-- notebook_sessions: the primary key, `ux_one_active_session_per_workspace` and the foreign key
abbrev pub same_session_id : SessionRow → SessionRow → Bool
same_session_id a b = a.id == b.id

abbrev pub same_live_workspace : SessionRow → SessionRow → Bool
same_live_workspace a b = is_live a.state && is_live b.state && a.workspace_id == b.workspace_id

unfoldable pub sessions_ok : List WorkspaceRow → List SessionRow → Bool
sessions_ok workspaces l =
    unique same_session_id l
    && unique same_live_workspace l
    && all (λ s. any (λ w. w.id == s.workspace_id) workspaces) l

unfoldable pub set_sessions : List SessionRow → Action Db (Unit {0})
set_sessions l db =
    if sessions_ok db.workspaces l
    then (ok tt, record db { sessions = l })
    else (err integrity_error, db)

-- writable_agent_leases: the primary key, `ux_one_active_writable_lease` and the foreign key
abbrev pub same_lease_id : LeaseRow → LeaseRow → Bool
same_lease_id a b = a.id == b.id

abbrev pub same_held_session : LeaseRow → LeaseRow → Bool
same_held_session a b =
    is_none a.released_at && is_none b.released_at && a.session_id == b.session_id

unfoldable pub leases_ok : List SessionRow → List LeaseRow → Bool
leases_ok sessions l =
    unique same_lease_id l
    && unique same_held_session l
    && all (λ x. any (λ s. s.id == x.session_id) sessions) l

unfoldable pub set_leases : List LeaseRow → Action Db (Unit {0})
set_leases l db =
    if leases_ok db.sessions l then (ok tt, record db { leases = l }) else (err integrity_error, db)

-- trust_records: the primary key, the two unique indexes and the check on `commit_sha`
abbrev pub same_trust_id : TrustRow → TrustRow → Bool
same_trust_id a b = a.id == b.id

abbrev pub is_repository : TrustScope → Bool
is_repository repository = true
is_repository exact_commit = false

abbrev pub same_repository_trust : TrustRow → TrustRow → Bool
same_repository_trust a b =
    is_none a.revoked_at
    && is_none b.revoked_at
    && is_repository a.scope
    && is_repository b.scope
    && a.repository_id == b.repository_id

-- SQL's `=`, which holds of no missing value
abbrev pub sql_eq : Option String → Option String → Bool
sql_eq (some a) (some b) = str_eq a b
sql_eq _ _ = false

abbrev pub same_commit_trust : TrustRow → TrustRow → Bool
same_commit_trust a b =
    is_none a.revoked_at
    && is_none b.revoked_at
    && not (is_repository a.scope)
    && not (is_repository b.scope)
    && a.repository_id == b.repository_id
    && sql_eq a.commit_sha b.commit_sha

abbrev pub trust_scope_ok : TrustRow → Bool
trust_scope_ok t =
    if is_repository t.scope then is_none t.commit_sha else not (is_none t.commit_sha)

unfoldable pub trust_ok : List TrustRow → Bool
trust_ok l =
    unique same_trust_id l
    && unique same_repository_trust l
    && unique same_commit_trust l
    && all trust_scope_ok l

unfoldable pub set_trust_records : List TrustRow → Action Db (Unit {0})
set_trust_records l db =
    if trust_ok l then (ok tt, record db { trust_records = l }) else (err integrity_error, db)

-- document_versions: the primary key and the foreign key
abbrev pub same_document : DocumentRow → DocumentRow → Bool
same_document a b = a.workspace_id == b.workspace_id && str_eq a.path b.path

unfoldable pub documents_ok : List WorkspaceRow → List DocumentRow → Bool
documents_ok workspaces l =
    unique same_document l && all (λ d. any (λ w. w.id == d.workspace_id) workspaces) l

unfoldable pub set_documents : List DocumentRow → Action Db (Unit {0})
set_documents l db =
    if documents_ok db.workspaces l
    then (ok tt, record db { documents = l })
    else (err integrity_error, db)

-- The other tables have a primary key alone that an insertion can break.
unfoldable pub set_launches : List LaunchRow → Action Db (Unit {0})
set_launches l db =
    if unique (λ a b. a.id == b.id) l
    then (ok tt, record db { launches = l })
    else (err integrity_error, db)

unfoldable pub set_workspaces : List WorkspaceRow → Action Db (Unit {0})
set_workspaces l db =
    if unique (λ a b. a.id == b.id) l
    then (ok tt, record db { workspaces = l })
    else (err integrity_error, db)

unfoldable pub set_replays : List ReplayRow → Action Db (Unit {0})
set_replays l db =
    if unique (λ a b. str_eq a.jti_hash b.jti_hash) l
    then (ok tt, record db { replays = l })
    else (err integrity_error, db)

-- user_data_grants: the primary key, `ux_one_active_user_data_grant`, the foreign key and the check
-- on `mode`
abbrev pub same_grant_id : GrantRow → GrantRow → Bool
same_grant_id a b = a.id == b.id

abbrev pub same_active_grant : GrantRow → GrantRow → Bool
same_active_grant a b =
    is_none a.revoked_at && is_none b.revoked_at && a.workspace_id == b.workspace_id

abbrev pub is_mode : String → Bool
is_mode mode = str_eq mode "ro" || str_eq mode "rw"

unfoldable pub grants_ok : List WorkspaceRow → List GrantRow → Bool
grants_ok workspaces l =
    unique same_grant_id l
    && unique same_active_grant l
    && all (λ g. is_mode g.mode) l
    && all (λ g. any (λ w. w.id == g.workspace_id) workspaces) l

unfoldable pub set_grants : List GrantRow → Action Db (Unit {0})
set_grants l db =
    if grants_ok db.workspaces l
    then (ok tt, record db { grants = l })
    else (err integrity_error, db)
