-- ===== src/Mcp/Requests.antt =====
-- mcp.py: the methods and what each mode has, the requests that reach a backend, and the parts of an
-- adapter.
use notebook_launcher.Prelude.{
  ℕ, String, Bool, true, false, Option, none, some, List, ◌∷◌, if◌then◌else◌,
}
use notebook_launcher.Action.{Action, Result, is_ok, key_error}
use notebook_launcher.Steps.{or_raise}
use notebook_launcher.State.Rows.{AgentMode}

pub data Method : Type 0 where
  notebook_read cell_read output_read : Method
  cell_insert cell_update cell_delete notebook_move : Method
  cell_execute notebook_execute_all kernel_execute_code execution_cancel kernel_restart : Method
  file_read file_write file_move file_delete file_list : Method
  other_method : String → Method

abbrev pub is_readonly_method : Method → Bool
is_readonly_method notebook_read = true
is_readonly_method cell_read = true
is_readonly_method output_read = true
is_readonly_method _ = false

-- `EXPOSED_WRITE_METHODS`, the same as `READONLY_METHODS`
abbrev pub is_exposed_write_method : Method → Bool
is_exposed_write_method = is_readonly_method

pub record McpCapabilities : Type 0 where
  pub inspect_notebook : Bool
  pub mutate_notebook : Bool
  pub execute : Bool
  pub workspace_read : Bool
  pub workspace_write : Bool
  pub restart_kernel : Bool

-- The two branches of the function are the same.
abbrev pub capabilities_for_mode : AgentMode → McpCapabilities
capabilities_for_mode mode = record {
  inspect_notebook = true;
  mutate_notebook = false;
  execute = false;
  workspace_read = false;
  workspace_write = false;
  restart_kernel = false;
}

-- Whether a method is among `McpCapabilities.methods`.
abbrev pub has_method : McpCapabilities → Method → Bool
has_method c m = if c.mutate_notebook then is_exposed_write_method m else is_readonly_method m

-- A call of a backend with its arguments.
pub data Request : Type 0 where
  inspect : String → Request
  read_cell : String → String → Request
  read_output : String → Request
  mutate : String → Method → String → Request
  move : String → String → String → Request
  execute : String → Method → Request
  cancel : String → Request
  restart_kernel : String → Request
  read_file write_file delete_file : String → Request
  move_file : String → String → Request
  list_files : String → ℕ → Request

-- The validators' calls, with whether they let the call pass, and the backends'.
pub data Event : Type 0 where
  attached : Bool → Event
  leased : Bool → Event
  requested : Request → Event

pub record Adapter : Type 0 where
  pub active_notebook_path : String
  pub events : List Event

-- Python's `PurePosixPath`: `path.replace("\\", "/")`, `is_absolute`, `parts` and `as_posix`.
pub record PosixPaths : Type 0 where
  pub slashes : String → String
  pub is_absolute : String → Bool
  pub parts : String → List String
  pub as_posix : String → String

pub record Gateway (V : Type 0) : Type 0 where
  pub mode : AgentMode
  pub session_id : Option ℕ
  pub lease_id : Option ℕ
  pub attachment_validator : Option (ℕ → List Event → Result (Unit {0}))
  pub lease_validator : Option (ℕ → ℕ → List Event → Result (Unit {0}))
  pub backend : Request → List Event → Result V
  pub path_of : V → String
  pub paths : PosixPaths

-- The parameters of a call; the method passes them on as a whole too.
pub record Values : Type 0 where
  pub get : String → Option String
  pub limit : Option ℕ

abbrev pub observe : {A : Type 0} → (List Event → Result A) → (Result A → Event) → Action Adapter A
observe answer event a = let r = answer a.events in (r, record a { events = event r ∷ a.events })

unfoldable pub validated :
    {A : Type 0} → (List Event → Result A) → (Bool → Event) → Action Adapter A
validated answer event = observe answer (λ r. event (is_ok r))

abbrev pub default : Option String → String → String
default none d = d
default (some s) d = s

abbrev pub value : Values → String → Action Adapter String
value v key = or_raise (v.get key) key_error
