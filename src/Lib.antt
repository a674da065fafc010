-- ===== src/Lib.antt =====
-- The launcher opens a notebook of a GitHub repository in a sandboxed container on this machine
-- and lets agents edit and run it through MCP. This library models the parts that keep its state
-- and decide who may do what; the code is in src/notebook_launcher.
--
-- * execution.py, the broker that runs the agents' operations one at a time and decides when the
--   kernel may be interrupted: Execution/Operation.antt has the record of an operation and
--   Execution.antt the broker's state, `Broker`, and one function per method;
--   Execution/Coordinator.antt has `ExecutionCoordinator` over it, with the kernel's answers as
--   the parameter `Answers` and the signals that were sent as a list. `request_end` is the common
--   text of `request_cancel` and `request_timeout`. The lock is left out, since each method is one
--   step; `invalidate_session` and `expire`, which take it for each operation anew, are also one
--   step, so what another thread does between is not modelled.
-- * state.py, the SQLite database: State.antt has the tables as lists of rows and the constraints
--   that an operation can break, State/Rows.antt the rows, and State/Launches, State/Sessions,
--   State/Documents, State/Guards and State/Workspaces the methods of `StateStore`, with their
--   names.
-- * leases.py, the writable lease of a session: Leases.antt, on the table `writable_agent_leases`.
-- * trust.py and trust_flow.py, which sources may be run, and how the user confirms one:
--   Trust.antt and Trust/Flow.antt, on the tables `trust_records`, `trust_challenges`,
--   `launch_sources` and `launches`. `find` is `find_trust`, and the hash of a nonce is a
--   parameter.
-- * network.py, the network policy of a runtime: Network/Rules.antt has the commands, each a list
--   of words, Network/Applier.antt `NetworkPolicyApplier`, whose state is the list of the commands
--   that were run and whose runner is a parameter that answers by that list, and
--   Network/Destinations.antt the classification of addresses, with Python's `ipaddress` as the
--   parameter `Addresses`.
-- * pipeline.py, `LaunchPipeline`, from an authorised launch to a ready runtime: Pipeline.antt has
--   the state, which is the database, the sessions that this process owns and the history of the
--   calls of the injected services, newest first; the services are the parameter `Services` and
--   answer by that history. Pipeline/Plan.antt has the names and commands of a runtime,
--   Pipeline/Cleanup.antt `_stop_and_confirm_runtime`, `_retire_session`,
--   `reconcile_starting_sessions` and `stop`, Pipeline/Reuse.antt `_reuse_existing_session`,
--   Pipeline/Bindings.antt `_verify_launch_binding`, Pipeline/Launch.antt the `try` of `run` and
--   Pipeline/Rollback.antt its `except` and `finally`. `_now()` is one time for each call, and the
--   failures of an `ExceptionGroup` are folded. Steps.antt has the same actions as Action.antt
--   with each part kept shut, for the rules of Steps/Preserves.antt and Steps/Ends.antt.
-- * runtime.py, GPUs and containers: Gpu.antt has the decision whether a runtime gets the host's
--   GPUs, Runtime.antt the probes of the GPUs and Runtime/Docker.antt `DockerRuntime`, whose
--   runner answers by the commands that were run before.
-- * sandbox.py, the policy of a container: Sandbox.antt and Sandbox/Policy.antt have its checks,
--   as results in their order, and Sandbox/Argv.antt `docker_run_argv`.
-- * mcp.py, the gateway between an agent and the notebook: Mcp/Requests.antt has the methods, the
--   capabilities and the requests, Mcp/Adapter.antt `SemanticMcpAdapter`, with the backends and
--   validators as parameters that answer by the history of calls, and Mcp/Calls.antt its `call`;
--   Mcp/Largest.antt has the binary search that bounds what is written, on fuel that is the size
--   of the range where its logarithm is enough, and Mcp/Lines.antt the previews and response lines made with it.
-- * orchestration.py, the lifecycle of a session and the output of a command:
--   Orchestration/Lifecycle.antt has `LifecycleOrchestrator`, whose collaborators answer by the
--   history of calls, and Orchestration/Capture.antt `_BoundedCapture`, on the list of the chunks
--   that the stream answers.
-- * launches.py, which writes a launch down before it may run: Launches.antt, on the database and
--   the trust challenges.
-- * source.py, which part of a URL is the ref and which the notebook: SourceUrl.antt.
-- * workspace.py, the files of a workspace: Workspace.antt has the guarded write with its
--   compensation, and Workspace/Documents, Workspace/Renames, Workspace/Creation and
--   Workspace/Outputs the methods of `WorkspaceManager`, with their names. Workspace/Files.antt
--   says what they ask of the files under a root, of which nothing is assumed, and has the
--   functions of safe_paths.py that answer it.
-- * grants.py, the directories of the user: Grants.antt, on the table `user_data_grants`.
-- * safe_paths.py, relative paths and files under a root: SafePaths.antt has the paths and the
--   identity of a root, on what `stat` and `resolve` answer, SafePaths/Posix.antt the way to a
--   directory by descriptors and SafePaths/Files.antt the operations, on the list of the system
--   calls, which answer by those before.
-- Action.antt has what they share: a method is a function of the state that answers a result or an
-- exception beside the new state, and a transaction puts the old database back when its body
-- raises. State/Guards.antt has the transaction with a compensation: there the type of the files,
-- the body of the `with`, the compensation and the outcome of the commit are parameters.
--
-- UUIDs and repository ids are numbers, and a fresh `uuid4()` is a parameter; times are numbers of
-- microseconds and the time of a call is a parameter. Each loop is recursion on a list, but for
-- the binary search of mcp.py, whose fuel is the size of its range. The leases and the trust flow
-- share the database `Db`, so that the theorems speak of one state.
--
-- Not modelled: the migrations of the database, the queries that only list rows for display, and
-- the modules that are glue round libraries (app.py, cli.py, config.py, audit.py, github.py,
-- jupyter.py, repository.py, launch_auth.py), the Windows handles of safe_paths.py, and
-- environment.py. Of the modelled files these parts are left out: the executor of pipeline.py;
-- `bound_output`, `DatalayerBackend`, `JsonLineTransport` and `run_stdio_bridge` of mcp.py;
-- `run_argv` with its redaction and signals of orchestration.py; `StateMcpDescriptorProvider` of
-- launches.py; and the parsing of URLs and repository names of source.py.
pub mod Action
pub mod Execution
pub mod Gpu
pub mod Grants
pub mod Launches
pub mod Leases
pub mod Mcp
pub mod Network
pub mod Orchestration
pub mod Pipeline
pub mod Prelude
pub mod Runtime
pub mod SafePaths
pub mod Sandbox
pub mod SourceUrl
pub mod State
pub mod Steps
pub mod Trust
pub mod Workspace
