-- ===== src/Pipeline/Bindings.antt =====
-- pipeline.py: the local variables of `run`, and the checks that a launch still is what was authorised.
use notebook_launcher.Prelude.{
  ℕ, String, Bool, true, false, not, ◌&&◌, ◌||◌, Option, none, some, [], ◌∷◌, ◌==◌, opt_eq, or_else,
  str_eq,
}
use notebook_launcher.Action.{Action, ok, value_error, type_error}
use notebook_launcher.Steps.{on_option, pure, raise_if, or_raise, ◌>>=◌, ◌>>◌}
use notebook_launcher.State.Rows.{LaunchState, Gpu, auto, on, off, LaunchRow, WorkspaceRow}
use notebook_launcher.State.Launches.{LaunchUpdate, update_launch_state}
use notebook_launcher.Trust.{Source}
use notebook_launcher.Trust.Flow.{github_clone_url}
use notebook_launcher.Pipeline.{World, on_db}
use notebook_launcher.Pipeline.Reuse.{LaunchRequest, same_mode}

-- `session_id`, `owned_session_id`, `workspace` and whether `plan` is set; `runtime_name` is set with
-- `session_id`.
pub record Locals : Type 0 where
  pub session_id : Option ℕ
  pub owned : Option ℕ
  pub workspace : Option WorkspaceRow
  pub planned : Bool

abbrev pub no_locals : Locals
no_locals = record { session_id = none; owned = none; workspace = none; planned = false }

abbrev pub Frame : Type 0
Frame = World × Locals

unfoldable pub in_world : {A : Type 0} → Action World A → Action Frame A
in_world m (w, l) = let (r, w') = m w in (r, (w', l))

unfoldable pub set_local : (Locals → Locals) → Action Frame (Unit {0})
set_local f (w, l) = (ok tt, (w, f l))

abbrev pub same_gpu : Gpu → Gpu → Bool
same_gpu auto auto = true
same_gpu on on = true
same_gpu off off = true
same_gpu _ _ = false

-- The last part of `_verify_launch_binding`: `int(None)` raises, `str(None)` is "None".
unfoldable pub verify_source_binding : LaunchRow → Option Source → Action World (Unit {0})
verify_source_binding row none = pure tt
verify_source_binding row (some s) = do
  repository_id ← or_raise row.repository_id type_error
  raise_if
      (not (
        s.repository_id == repository_id
        && str_eq s.commit_sha (or_else row.commit_sha "None")
        && str_eq s.notebook_path (or_else row.notebook_path "None")))
      (value_error "launch source binding changed")

unfoldable pub verify_launch_binding :
    LaunchRow → LaunchRequest → Option Source → Action World (Unit {0})
verify_launch_binding row request source = do
  raise_if (not (same_gpu row.gpu request.gpu) || not (same_mode row.agent_mode request.agent_mode))
      (value_error "launch runtime policy binding changed")
  on_option request.workspace_id (verify_source_binding row source) (λ i.
      raise_if (not (opt_eq row.workspace_id (some i)))
        (value_error "launch workspace binding changed"))

abbrev pub source_from_workspace : WorkspaceRow → Source
source_from_workspace w = record {
  repository_id = w.source_repository_id;
  repository_node_id = none;
  owner = w.source_owner;
  repository = w.source_repository;
  requested_ref = w.source_commit_sha;
  commit_sha = w.source_commit_sha;
  notebook_path = w.source_notebook_path;
  clone_url = github_clone_url w.source_owner w.source_repository;
}

unfoldable pub verify_workspace_source : WorkspaceRow → Source → Action World (Unit {0})
verify_workspace_source w s =
    raise_if
      (not (
        s.repository_id == w.source_repository_id
        && str_eq s.commit_sha w.source_commit_sha
        && str_eq s.notebook_path w.source_notebook_path))
      (value_error "workspace source identity changed")

-- An update of a starting launch that stays starting.
abbrev pub still_starting : Option ℕ → Option ℕ → Option String → LaunchUpdate
still_starting workspace_id session_id message = record {
  new_state = LaunchState.starting;
  workspace_id = workspace_id;
  session_id = session_id;
  message = message;
  error_code = none;
}

abbrev pub set_starting : ℕ → Option ℕ → Option ℕ → Option String → ℕ → Action World (Unit {0})
set_starting launch_id workspace_id session_id message now = on_db (
    update_launch_state launch_id (LaunchState.starting ∷ [])
      (still_starting workspace_id session_id message) now)

-- `self._owners[session.id] = owner`
unfoldable pub own : ℕ → Action World (Unit {0})
own session_id w = (ok tt, record w { owners = session_id ∷ w.owners })
