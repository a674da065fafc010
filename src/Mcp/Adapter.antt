-- ===== src/Mcp/Adapter.antt =====
-- mcp.py: `SemanticMcpAdapter`, which decides what an agent's call may do. The state is the path of the
-- active notebook and the history of the calls of the backends and of the validators, newest first; a
-- backend answers by that history with a value of a type `V`.
use notebook_launcher.Prelude.{
  ℕ, String, Bool, true, false, not, ◌||◌, Option, none, some, List, any, leb, str_eq,
  if◌then◌else◌,
}
use notebook_launcher.Action.{Action, Result, ok, err, permission_denied, conflict, value_error}
use notebook_launcher.Steps.{pure, raise, lift, gets, raise_if, ◌>>=◌, ◌>>◌}
use notebook_launcher.State.Rows.{AgentMode, write, readonly}
use notebook_launcher.Mcp.Requests.{
  Adapter, Event, Gateway, Method, Request, attached, cancel, delete_file, execute, inspect, leased,
  list_files, move, move_file, mutate, observe, read_cell, read_file, read_output, requested,
  restart_kernel, validated, write_file,
}

module _ {V : Type 0} (g : Gateway V) where
  unfoldable pub request : Request → Action Adapter V
  request r = observe (g.backend r) (λ _. requested r)

  -- `_normalize_workspace_path`
  abbrev pub normalized : String → Result String
  normalized path =
      let p = g.paths.slashes path in
      if g.paths.is_absolute p || any (str_eq "..") (g.paths.parts p)
      then err permission_denied
      else ok (
          if str_eq (g.paths.as_posix p) "" || str_eq (g.paths.as_posix p) "."
          then "."
          else g.paths.as_posix p)

  abbrev pub normalize_workspace_path : String → Action Adapter String
  normalize_workspace_path path = lift (normalized path)

  unfoldable pub attach :
      Option (ℕ → List Event → Result (Unit {0})) → Option ℕ → Action Adapter (Unit {0})
  attach none session_id = pure tt
  attach (some validate) none = raise permission_denied
  attach (some validate) (some i) = validated (validate i) attached

  unfoldable pub validate_attachment : Action Adapter (Unit {0})
  validate_attachment = attach g.attachment_validator g.session_id

  unfoldable pub validate_lease :
      Option (ℕ → ℕ → List Event → Result (Unit {0}))
      → Option ℕ
      → Option ℕ
      → Action Adapter (Unit {0})
  validate_lease none _ _ = raise permission_denied
  validate_lease (some validate) none _ = raise permission_denied
  validate_lease (some validate) (some i) none = raise permission_denied
  validate_lease (some validate) (some i) (some l) = validated (validate i l) leased

  abbrev pub is_readonly : AgentMode → Bool
  is_readonly readonly = true
  is_readonly write = false

  unfoldable pub require_write : Action Adapter (Unit {0})
  require_write = do
    validate_attachment
    raise_if (is_readonly g.mode) permission_denied
    validate_lease g.lease_validator g.session_id g.lease_id

  -- versions.py: `_normalized_path`, whose parts are never empty or a dot
  abbrev pub normalized_path : String → Result String
  normalized_path path =
      let p = g.paths.slashes path in
      if g.paths.is_absolute p
        || any (λ q. str_eq q "" || str_eq q "." || str_eq q "..") (g.paths.parts p)
      then err conflict
      else ok (g.paths.as_posix p)

  unfoldable pub assert_not_active : String → Action Adapter (Unit {0})
  assert_not_active path = do
    target ← lift (normalized_path path)
    active_path ← gets (λ a. a.active_notebook_path)
    active ← lift (normalized_path active_path)
    raise_if (str_eq target active) conflict

  abbrev pub active_path : Action Adapter String
  active_path = gets (λ a. a.active_notebook_path)

  unfoldable pub inspect_notebook : Action Adapter V
  inspect_notebook = do validate_attachment; p ← active_path; request (inspect p)

  unfoldable pub read_notebook_cell : String → Action Adapter V
  read_notebook_cell cell_id = do
    validate_attachment
    p ← active_path
    request (read_cell p cell_id)

  unfoldable pub read_notebook_output : Action Adapter V
  read_notebook_output = do validate_attachment; p ← active_path; request (read_output p)

  unfoldable pub mutate_notebook : Method → String → Action Adapter V
  mutate_notebook operation expected_version = do
    require_write
    p ← active_path
    request (mutate p operation expected_version)

  unfoldable pub activate : String → Action Adapter (Unit {0})
  activate path a = (ok tt, record a { active_notebook_path = path })

  unfoldable pub move_notebook : String → String → Action Adapter String
  move_notebook destination expected_version = do
    require_write
    d ← normalize_workspace_path destination
    p ← active_path
    updated ← request (move p d expected_version)
    path ← normalize_workspace_path (g.path_of updated)
    activate path
    pure path

  unfoldable pub execute_cells : Method → Action Adapter V
  execute_cells m = do require_write; p ← active_path; request (execute p m)

  unfoldable pub cancel_execution : String → Action Adapter V
  cancel_execution operation_id = do require_write; request (cancel operation_id)

  unfoldable pub restart : Action Adapter V
  restart = do require_write; p ← active_path; request (restart_kernel p)

  unfoldable pub read_workspace_file : String → Action Adapter V
  read_workspace_file path = do
    require_write
    p ← normalize_workspace_path path
    request (read_file p)

  unfoldable pub write_workspace_file : String → Action Adapter V
  write_workspace_file path = do
    require_write
    p ← normalize_workspace_path path
    assert_not_active p
    request (write_file p)

  unfoldable pub move_workspace_file : String → String → Action Adapter V
  move_workspace_file source destination = do
    require_write
    s ← normalize_workspace_path source
    d ← normalize_workspace_path destination
    assert_not_active s
    assert_not_active d
    request (move_file s d)

  unfoldable pub delete_workspace_file : String → Action Adapter V
  delete_workspace_file path = do
    require_write
    p ← normalize_workspace_path path
    assert_not_active p
    request (delete_file p)

  unfoldable pub list_workspace_files : String → ℕ → Action Adapter V
  list_workspace_files path limit = do
    require_write
    raise_if (leb limit 0 || not (leb limit 1000)) (value_error "limit must be between 1 and 1000")
    p ← normalize_workspace_path path
    request (list_files p limit)
