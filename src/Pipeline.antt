-- ===== src/Pipeline.antt =====
-- pipeline.py: the launch pipeline. The state is the database, the sessions that a worker of this
-- process owns, and the history of the calls of the injected services, newest first; a service answers
-- by that history. One call of the pipeline is one step: the other workers act only where it waits.
pub mod Plan
pub mod Cleanup
pub mod Reuse
pub mod Bindings
pub mod Launch
pub mod Rollback
pub mod History
pub mod Confined
pub mod Reused
pub mod Runs
pub mod Ready
pub mod Launched
pub mod Calls
pub mod Tests
use notebook_launcher.Prelude.{ℕ, String, Bool, Option, List, [], ◌∷◌}
use notebook_launcher.Action.{Action, Result, is_ok}
use notebook_launcher.Gpu.{GpuProbeResult}
use notebook_launcher.Network.Applier.{NetworkPolicyAttestation}
use notebook_launcher.State.{Db}
use notebook_launcher.State.Rows.{WorkspaceRow, SessionRow}
use notebook_launcher.Trust.{Source}

-- What a call of a service was: `is_alive` with its answer, `stop`, `network.remove`, `apply` and
-- `verify` of the plan of a session, the invalidation and the writing of its private state, and
-- `runtime.start`; `worked` stands for each other call.
pub data Event : Type 0 where
  liveness : String → Result Bool → Event
  stopped : String → Event
  removed : ℕ → Event
  applied : ℕ → Bool → Event
  verified : ℕ → Event
  invalidated : ℕ → Event
  secrets_written : ℕ → Event
  container_started : ℕ → Event
  worked : Event

pub record World : Type 0 where
  pub db : Db
  pub owners : List ℕ
  pub events : List Event

pub record BuildResult : Type 0 where
  pub image_tag : String
  pub cache_hit : Bool

-- `RuntimeReadiness`, without the container's id
pub record RuntimeReadiness : Type 0 where
  pub sandbox_verified : Bool
  pub network_verified : Bool
  pub collaboration_ready : Bool
  pub ready : Bool

-- The answer of a service to a call, by the history.
abbrev pub Answer : Type 0 → Type 0
Answer A = List Event → Result A

-- The injected services, and the functions of the operating system; `create` and `reopen` are those of
-- the workspace manager, `start` answers whether sandbox and network
-- are verified, and `follow` is `owner.wait` with what the owner does to the database in the
-- meantime.
pub record Services : Type 0 where
  pub is_alive : String → Answer Bool
  pub stop : String → Answer (Unit {0})
  pub network_apply : ℕ → Answer NetworkPolicyAttestation
  pub network_verify : ℕ → Answer NetworkPolicyAttestation
  pub network_remove : ℕ → Answer (Unit {0})
  pub acquire : Source → Answer String
  pub build : ℕ → String → String → Answer BuildResult
  pub host_gpu_probe : Answer GpuProbeResult
  pub container_gpu_probe : String → Answer GpuProbeResult
  pub allocate_port : Answer ℕ
  pub start : ℕ → WorkspaceRow → String → NetworkPolicyAttestation → Answer (Bool × Bool)
  pub wait_ready : ℕ → String → Answer Bool
  pub readiness : ℕ → Bool → Bool → Bool → Answer RuntimeReadiness
  pub write_secrets : ℕ → Answer (Unit {0})
  pub private_state_there : ℕ → Answer Bool
  pub read_credentials : SessionRow → Answer (Unit {0})
  pub invalidate : ℕ → Answer (Unit {0})
  pub create : String → Source → Action Db WorkspaceRow
  pub reopen : ℕ → Action Db WorkspaceRow
  pub follow : ℕ → Db → Bool × Db

module _ {A : Type 0} where
  unfoldable pub on_db : Action Db A → Action World A
  on_db m w = let (r, db) = m w.db in (r, record w { db = db })

  -- A call of a service, which goes into the history with its answer.
  unfoldable pub perform : Answer A → (Result A → Event) → Action World A
  perform answer event w = let r = answer w.events in (r, record w { events = event r ∷ w.events })

  abbrev pub work : Answer A → Action World A
  work answer = perform answer (λ _. worked)

abbrev pub is_alive : Services → String → Action World Bool
is_alive x runtime_id = perform (x.is_alive runtime_id) (liveness runtime_id)

abbrev pub network_remove : Services → ℕ → Action World (Unit {0})
network_remove x session_id = perform (x.network_remove session_id) (λ _. removed session_id)

abbrev pub network_apply : Services → ℕ → Action World NetworkPolicyAttestation
network_apply x session_id =
    perform (x.network_apply session_id) (λ r. applied session_id (is_ok r))
