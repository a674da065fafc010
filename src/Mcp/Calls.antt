-- ===== src/Mcp/Calls.antt =====
-- mcp.py: `SemanticMcpAdapter.call`, by the method's name. The bounding of an output is left out, and
-- of the values a request keeps those that decide.
use notebook_launcher.Prelude.{ℕ, String, not, Option, none, some}
use notebook_launcher.Action.{Action, permission_denied}
use notebook_launcher.Steps.{pure, raise, raise_if, ◌>>=◌, ◌>>◌}
use notebook_launcher.Mcp.Requests.{
  Method, notebook_read, cell_read, output_read, cell_insert, cell_update, cell_delete,
  notebook_move, cell_execute, notebook_execute_all, kernel_execute_code, execution_cancel,
  kernel_restart, file_read, file_write, file_move, file_delete, file_list, other_method,
  capabilities_for_mode, has_method, Adapter, Gateway, Values, value, default,
}
use notebook_launcher.Mcp.Adapter.{inspect_notebook, mutate_notebook}
use notebook_launcher.Mcp.Adapter.{
  read_notebook_cell, read_notebook_output, move_notebook, execute_cells, cancel_execution, restart,
  read_workspace_file, write_workspace_file, move_workspace_file, delete_workspace_file,
  list_workspace_files,
}

-- The answer of a call: what the backend said, a version, the notebook's path, or that it is done.
pub data Reply (V : Type 0) : Type 0 where
  answer : V → Reply V
  document_version : V → Reply V
  notebook_path : String → Reply V
  finished : Reply V

abbrev limit_or : Option ℕ → ℕ
limit_or none = 1000
limit_or (some n) = n

module _ {V : Type 0} (g : Gateway V) where
  abbrev pub answered : Action Adapter V → Action Adapter (Reply V)
  answered m = m >>= λ v. pure (answer v)

  abbrev pub done : Action Adapter V → Action Adapter (Reply V)
  done m = m >> pure finished

  unfoldable pub mutate : Method → Values → Action Adapter (Reply V)
  mutate m values = do
    expected_version ← value values "expected_document_version"
    version ← mutate_notebook g m expected_version
    pure (document_version version)

  -- The part of `call` behind the test of the method.
  unfoldable pub dispatch : Method → Values → Action Adapter (Reply V)
  dispatch notebook_read values = answered (inspect_notebook g)
  dispatch cell_read values =
      value values "cell_id" >>= λ cell_id. answered (read_notebook_cell g cell_id)
  dispatch cell_insert values = mutate cell_insert values
  dispatch cell_update values = mutate cell_update values
  dispatch cell_delete values = mutate cell_delete values
  dispatch notebook_move values = do
    destination ← value values "destination"
    expected_version ← value values "expected_document_version"
    path ← move_notebook g destination expected_version
    pure (notebook_path path)
  dispatch cell_execute values = answered (execute_cells g cell_execute)
  dispatch notebook_execute_all values = answered (execute_cells g notebook_execute_all)
  dispatch kernel_execute_code values = answered (execute_cells g kernel_execute_code)
  dispatch execution_cancel values =
      value values "operation_id" >>= λ operation_id. answered (cancel_execution g operation_id)
  dispatch output_read values = answered (read_notebook_output g)
  dispatch kernel_restart values = done (restart g)
  dispatch file_read values = value values "path" >>= λ path. answered (read_workspace_file g path)
  dispatch file_write values = value values "path" >>= λ path. done (write_workspace_file g path)
  dispatch file_move values = do
    source ← value values "source"
    destination ← value values "destination"
    done (move_workspace_file g source destination)
  dispatch file_delete values = value values "path" >>= λ path. done (delete_workspace_file g path)
  dispatch file_list values =
      answered (list_workspace_files g (default (values.get "path") ".") (limit_or values.limit))
  dispatch (other_method name) values = raise permission_denied

  unfoldable pub call : Method → Values → Action Adapter (Reply V)
  call m values = do
    raise_if (not (has_method (capabilities_for_mode g.mode) m)) permission_denied
    dispatch m values
