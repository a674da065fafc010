-- ===== src/Launches.antt =====
-- launches.py: `StateLaunchStarter` and `PipelineLaunchStarter`, which write a launch down before it
-- may run. A nonce and a UUID are parameters, and so are the digest of a request and the hash.
pub mod Started
mod Tests
use notebook_launcher.Prelude.{
  ℕ, String, Bool, true, false, not, ◌&&◌, ◌||◌, Option, none, some, is_none, if◌then◌else◌,
}
use notebook_launcher.Action.{Action, pure, ◌>>=◌, ◌>>◌}
use notebook_launcher.State.{Db}
use notebook_launcher.State.Rows.{LaunchState, pending_trust, authorized}
use notebook_launcher.State.Launches.{NewLaunch, create_launch, same_launch_state}
use notebook_launcher.Trust.{Source}
use notebook_launcher.Trust.Flow.{create_challenge}
use notebook_launcher.Pipeline.Reuse.{LaunchRequest}

pub record Digests : Type 0 where
  pub hash : String → String
  pub request_digest : LaunchRequest → Option Source → String

-- The answer of `start`; the confirmation's address is its launch and its nonce.
pub record LaunchStart : Type 0 where
  pub launch_id : ℕ
  pub state : LaunchState
  pub trust_covered : Bool
  pub nonce : Option String
  pub trust_expires_at : Option ℕ

abbrev pub field_of : {A : Type 0} → Option Source → (Source → A) → Option A
field_of none f = none
field_of (some s) f = some (f s)

abbrev pub state_name : Option Source → Bool → LaunchState
state_name source trust_covered =
    if trust_covered || is_none source then authorized else pending_trust

module _ (d : Digests) where
  abbrev pub new_launch : LaunchRequest → Option Source → Bool → NewLaunch
  new_launch request source trust_covered = record {
    request_digest = d.request_digest request source;
    repository_id = field_of source (λ s. s.repository_id);
    commit_sha = field_of source (λ s. s.commit_sha);
    notebook_path = field_of source (λ s. s.notebook_path);
    workspace_id = request.workspace_id;
    gpu = request.gpu;
    agent_mode = request.agent_mode;
    trust_covered = trust_covered;
    state = state_name source trust_covered;
  }

  abbrev pub without_challenge : ℕ → Option Source → Bool → LaunchStart
  without_challenge launch_id source trust_covered = record {
    launch_id = launch_id;
    state = state_name source trust_covered;
    trust_covered = trust_covered;
    nonce = none;
    trust_expires_at = none;
  }

  -- The challenge of a source that is not covered.
  abbrev pub challenged : ℕ → Source → String → ℕ → ℕ → Action Db LaunchStart
  challenged launch_id s nonce ttl now = do
    c ← create_challenge d.hash launch_id s nonce ttl now
    pure (record {
      launch_id = launch_id;
      state = pending_trust;
      trust_covered = false;
      nonce = some c.0;
      trust_expires_at = some c.1;
    })

  abbrev pub confirmation : ℕ → Option Source → Bool → String → ℕ → ℕ → Action Db LaunchStart
  confirmation launch_id (some s) false nonce ttl now = challenged launch_id s nonce ttl now
  confirmation launch_id (some s) true nonce ttl now =
      pure (without_challenge launch_id (some s) true)
  confirmation launch_id none trust_covered nonce ttl now =
      pure (without_challenge launch_id none trust_covered)

  unfoldable pub start :
      ℕ → LaunchRequest → Option Source → Bool → String → ℕ → ℕ → Action Db LaunchStart
  start launch_id request source trust_covered nonce ttl now = do
    create_launch launch_id (new_launch request source trust_covered) now
    confirmation launch_id source trust_covered nonce ttl now

  -- `PipelineLaunchStarter.start`: the answer, and whether the launch was scheduled.
  unfoldable pub start_and_schedule :
      ℕ → LaunchRequest → Option Source → Bool → String → ℕ → ℕ → Action Db (LaunchStart × Bool)
  start_and_schedule launch_id request source trust_covered nonce ttl now = do
    result ← start launch_id request source trust_covered nonce ttl now
    pure (result, same_launch_state result.state authorized)
