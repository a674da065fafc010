-- ===== src/State/Rows.antt =====
-- The rows of the state database: the tables of `SCHEMA` in state.py and the two tables that
-- trust_flow.py adds. UUIDs and repository ids are numbers; a timestamp is the number of
-- microseconds (the ISO texts of UTC times that the code stores and compares have the same order).
use notebook_launcher.Prelude.{ℕ, String, Bool, Option}

pub data Gpu : Type 0 where
  auto on off : Gpu

pub data AgentMode : Type 0 where
  write readonly : AgentMode

pub data LaunchState : Type 0 where
  pending_trust authorized starting ready failed stopped : LaunchState

pub data SessionState : Type 0 where
  starting ready stopping stopped failed : SessionState

pub data TrustScope : Type 0 where
  exact_commit repository : TrustScope

pub data DocumentKind : Type 0 where
  notebook file : DocumentKind

-- launch_authorization_replay
pub record ReplayRow : Type 0 where
  pub jti_hash : String
  pub request_digest : String
  pub consumed_at : ℕ

-- launches
pub record LaunchRow : Type 0 where
  pub id : ℕ
  pub request_digest : String
  pub repository_id : Option ℕ
  pub commit_sha : Option String
  pub notebook_path : Option String
  pub workspace_id : Option ℕ
  pub gpu : Gpu
  pub agent_mode : AgentMode
  pub trust_covered : Bool
  pub state : LaunchState
  pub session_id : Option ℕ
  pub message : Option String
  pub error_code : Option String
  pub created_at : ℕ
  pub updated_at : ℕ

-- trust_records
pub record TrustRow : Type 0 where
  pub id : ℕ
  pub repository_id : ℕ
  pub repository_node_id : Option String
  pub grant_owner : String
  pub grant_repository : String
  pub scope : TrustScope
  pub commit_sha : Option String
  pub created_at : ℕ
  pub revoked_at : Option ℕ

-- workspaces
pub record WorkspaceRow : Type 0 where
  pub id : ℕ
  pub source_repository_id : ℕ
  pub source_owner : String
  pub source_repository : String
  pub source_commit_sha : String
  pub source_notebook_path : String
  pub root_path : String
  pub work_path : String
  pub outputs_path : String
  pub active_notebook_path : String
  pub user_data_grant_id : Option ℕ
  pub created_at : ℕ
  pub updated_at : ℕ

-- notebook_sessions
pub record SessionRow : Type 0 where
  pub id : ℕ
  pub workspace_id : ℕ
  pub runtime_id : String
  pub host_port : ℕ
  pub gpu_enabled : Bool
  pub agent_mode : AgentMode
  pub sandbox_verified : Bool
  pub network_verified : Bool
  pub collaboration_ready : Bool
  pub state : SessionState
  pub notebook_url : String
  pub started_at : ℕ
  pub stopped_at : Option ℕ

-- writable_agent_leases
pub record LeaseRow : Type 0 where
  pub id : ℕ
  pub session_id : ℕ
  pub client_label : Option String
  pub acquired_at : ℕ
  pub heartbeat_at : Option ℕ
  pub released_at : Option ℕ

-- document_versions
pub record DocumentRow : Type 0 where
  pub workspace_id : ℕ
  pub path : String
  pub kind : DocumentKind
  pub version : String
  pub content_hash : Option String
  pub updated_at : ℕ

-- launch_sources
pub record LaunchSourceRow : Type 0 where
  pub launch_id : ℕ
  pub repository_id : ℕ
  pub repository_node_id : Option String
  pub owner : String
  pub repository : String
  pub commit_sha : String
  pub notebook_path : String
  pub requested_ref : Option String
  pub clone_url : Option String

-- trust_challenges
pub record ChallengeRow : Type 0 where
  pub launch_id : ℕ
  pub nonce_hash : String
  pub expires_at : ℕ
  pub used_at : Option ℕ

-- user_data_grants; `root_dev` and `root_ino` are missing in the rows of older launchers
pub record GrantRow : Type 0 where
  pub id : ℕ
  pub workspace_id : ℕ
  pub display_path : String
  pub canonical_root : String
  pub root_dev : Option ℕ
  pub root_ino : Option ℕ
  pub container_path : String
  pub mode : String
  pub created_at : ℕ
  pub revoked_at : Option ℕ
