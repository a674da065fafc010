-- ===== src/Mcp/Guarded.antt =====
-- Every method of the adapter keeps the backends guarded.
use notebook_launcher.Prelude.{String, ℕ}
use notebook_launcher.Steps.Preserves.{Preserves, preserving}
use notebook_launcher.Mcp.Requests.{Method, cell_insert, cell_update, cell_delete, Gateway, Values}
use notebook_launcher.Mcp.Adapter.{inspect_notebook, mutate_notebook}
use notebook_launcher.Mcp.Adapter.{
  validate_attachment, read_notebook_cell, read_notebook_output, move_notebook, execute_cells,
  cancel_execution, restart, read_workspace_file, write_workspace_file, move_workspace_file,
  delete_workspace_file, list_workspace_files,
}
use notebook_launcher.Mcp.Calls.{mutate, dispatch}
use notebook_launcher.Mcp.Gate.{
  IsGuarded, request-IsGuarded, Preserves-leased, attach-IsGuarded, activate-IsGuarded,
  Uses-request, Quiet-assert_not_active, Uses-Quiet, Uses-bind, quiet_rules,
}

module _ {V : Type 0} (g : Gateway V) where
  validate-IsGuarded : Preserves IsGuarded (validate_attachment g)
  unfolding validate_attachment
  validate-IsGuarded = attach-IsGuarded g g.attachment_validator g.session_id

  inspect-IsGuarded : Preserves IsGuarded (inspect_notebook g)
  unfolding inspect_notebook
  inspect-IsGuarded = search (preserving, validate-IsGuarded, request-IsGuarded g) depth 20

  read_cell-IsGuarded : (c : String) → Preserves IsGuarded (read_notebook_cell g c)
  unfolding read_notebook_cell
  read_cell-IsGuarded c = search (preserving, validate-IsGuarded, request-IsGuarded g) depth 20

  read_output-IsGuarded : Preserves IsGuarded (read_notebook_output g)
  unfolding read_notebook_output
  read_output-IsGuarded = search (preserving, validate-IsGuarded, request-IsGuarded g) depth 20

  mutate-IsGuarded : (m : Method) (v : String) → Preserves IsGuarded (mutate_notebook g m v)
  unfolding mutate_notebook
  mutate-IsGuarded m v =
      Preserves-leased g _ λ u. search (quiet_rules, Uses-Quiet, Uses-request g) depth 20

  move-IsGuarded : (d v : String) → Preserves IsGuarded (move_notebook g d v)
  unfolding move_notebook
  move-IsGuarded d v = Preserves-leased g _ λ u.
      search (quiet_rules, preserving, Uses-Quiet, Uses-bind, Uses-request g, activate-IsGuarded g)
        depth 20

  execute-IsGuarded : (m : Method) → Preserves IsGuarded (execute_cells g m)
  unfolding execute_cells
  execute-IsGuarded m =
      Preserves-leased g _ λ u. search (quiet_rules, Uses-Quiet, Uses-request g) depth 20

  cancel-IsGuarded : (o : String) → Preserves IsGuarded (cancel_execution g o)
  unfolding cancel_execution
  cancel-IsGuarded o = Preserves-leased g _ λ u. search (Uses-request g)

  restart-IsGuarded : Preserves IsGuarded (restart g)
  unfolding restart
  restart-IsGuarded =
      Preserves-leased g _ λ u. search (quiet_rules, Uses-Quiet, Uses-request g) depth 20

  read_file-IsGuarded : (p : String) → Preserves IsGuarded (read_workspace_file g p)
  unfolding read_workspace_file
  read_file-IsGuarded p =
      Preserves-leased g _ λ u. search (quiet_rules, Uses-Quiet, Uses-request g) depth 20

  write_file-IsGuarded : (p : String) → Preserves IsGuarded (write_workspace_file g p)
  unfolding write_workspace_file
  write_file-IsGuarded p =
      Preserves-leased g _
        λ u. search (quiet_rules, Uses-Quiet, Uses-request g, Quiet-assert_not_active g) depth 20

  move_file-IsGuarded : (s d : String) → Preserves IsGuarded (move_workspace_file g s d)
  unfolding move_workspace_file
  move_file-IsGuarded s d =
      Preserves-leased g _
        λ u. search (quiet_rules, Uses-Quiet, Uses-request g, Quiet-assert_not_active g) depth 20

  delete_file-IsGuarded : (p : String) → Preserves IsGuarded (delete_workspace_file g p)
  unfolding delete_workspace_file
  delete_file-IsGuarded p =
      Preserves-leased g _
        λ u. search (quiet_rules, Uses-Quiet, Uses-request g, Quiet-assert_not_active g) depth 20

  list_files-IsGuarded : (p : String) (n : ℕ) → Preserves IsGuarded (list_workspace_files g p n)
  unfolding list_workspace_files
  list_files-IsGuarded p n =
      Preserves-leased g _ λ u. search (quiet_rules, Uses-Quiet, Uses-request g) depth 20

  ruleset method_rules = (
    preserving, inspect-IsGuarded, read_cell-IsGuarded, read_output-IsGuarded, mutate-IsGuarded,
    move-IsGuarded, execute-IsGuarded, cancel-IsGuarded, restart-IsGuarded, read_file-IsGuarded,
    write_file-IsGuarded, move_file-IsGuarded, delete_file-IsGuarded, list_files-IsGuarded,
  )

  mutate_cell-IsGuarded : (m : Method) (v : Values) → Preserves IsGuarded (mutate g m v)
  unfolding mutate
  mutate_cell-IsGuarded m v = search method_rules depth 20

  pub dispatch-IsGuarded : (m : Method) (v : Values) → Preserves IsGuarded (dispatch g m v)
  unfolding dispatch
  dispatch-IsGuarded cell_insert v = mutate_cell-IsGuarded cell_insert v
  dispatch-IsGuarded cell_update v = mutate_cell-IsGuarded cell_update v
  dispatch-IsGuarded cell_delete v = mutate_cell-IsGuarded cell_delete v
  dispatch-IsGuarded _ v = search method_rules depth 20
