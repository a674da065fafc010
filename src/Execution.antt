-- ===== src/Execution.antt =====
-- execution.py: the records of agent executions and the broker that serialises them.
-- `self._records` is a dict keyed by `operation_id`, in insertion order: a list of records. The lock
-- makes each method one step. Message ids are texts, of which the empty one is falsy; operation and
-- session ids and times are numbers (a time in microseconds, given by the caller as `now`).
mod Operation
pub mod Records
pub mod Serial
pub mod Ends
pub mod Queue
pub mod Runs
pub mod Coordinator
pub mod Interrupts
pub mod Outcomes
pub mod Sessions
mod Tests
use notebook_launcher.Prelude.{
  ℕ, ◌+◌, String, Bool, true, false, not, ◌&&◌, ◌||◌, Option, none, some, List, [], ◌∷◌, ◌++◌, ◌==◌,
  leb, str_eq, is_some, or_else, find, select, map, if◌then◌else◌,
}
use notebook_launcher.Action.{
  key_error, value_error, runtime_error, Action, Result, ok, err, pure, gets, or_raise, raise_if,
  modify, ◌>>=◌, ◌>>◌,
}
unfoldable pub use Operation.*

pub record Broker : Type 0 where
  pub records : List ExecutionRecord
  pub queue : List ℕ
  pub active : Option ℕ
  pub kernel_busy_parent : Option String

-- `ExecutionBroker()`
abbrev pub empty : Broker
empty = record { records = []; queue = []; active = none; kernel_busy_parent = none }

abbrev pub has_id : ℕ → ExecutionRecord → Bool
has_id i r = r.operation_id == i

-- `self._records[i] = r`, on a dict in insertion order
unfoldable pub put : ExecutionRecord → List ExecutionRecord → List ExecutionRecord
put r [] = r ∷ []
put r (x ∷ xs) = if x.operation_id == r.operation_id then r ∷ xs else x ∷ put r xs

-- `self._records[i]`
unfoldable pub get : ℕ → Action Broker ExecutionRecord
get i = do r ← gets (λ b. find (has_id i) b.records); or_raise r key_error

abbrev pub store : ExecutionRecord → Action Broker ExecutionRecord
store r b = (ok r, record b { records = put r b.records })

-- A timeout of zero stands for every timeout that is not positive; `operation_id` is the `uuid4()`.
unfoldable pub enqueue : ℕ → Option ℕ → ℕ → ℕ → Action Broker ExecutionRecord
enqueue session_id timeout_limit operation_id now = do
  raise_if (elim timeout_limit [ none ↦ false | some t ↦ t == 0 ])
      (value_error "timeout_seconds must be positive")
  let r : ExecutionRecord = record {
    operation_id = operation_id;
    session_id = session_id;
    state = queued;
    queued_at = now;
    jupyter_msg_id = none;
    active_parent_msg_id = none;
    dispatched_at = none;
    started_at = none;
    cancel_requested_at = none;
    requested_outcome = none;
    deadline_at = elim timeout_limit [ none ↦ none | some t ↦ some (now + t) ];
    finished_at = none;
  }
  store r
  modify (λ b. record b { queue = b.queue ++ operation_id ∷ [] })
  pure r

-- `while self._queue: …`: the record at the front that is still queued, and the queue from there on.
unfoldable pub skip : List ExecutionRecord → List ℕ → Result (Option ExecutionRecord) × List ℕ
skip records [] = (ok none, [])
skip records (i ∷ q) = elim (find (has_id i) records) [
  | none ↦ (err key_error, i ∷ q)
  | some r ↦ if is_queued r.state then (ok (some r), i ∷ q) else skip records q
]

unfoldable pub next_queued : Action Broker (Option ExecutionRecord)
unfolding skip
next_queued b =
    if is_some b.active || is_some b.kernel_busy_parent
    then (ok none, b)
    else let (r, q) = skip b.records b.queue in (r, record b { queue = q })

-- `self._queue and self._queue[0] != operation_id`
abbrev pub out_of_order : List ℕ → ℕ → Bool
out_of_order [] i = false
out_of_order (j ∷ q) i = not (j == i)

abbrev pub drop_head : List ℕ → List ℕ
drop_head [] = []
drop_head (j ∷ q) = q

unfoldable pub dispatch : ℕ → String → ℕ → Action Broker ExecutionRecord
unfolding get put
dispatch operation_id jupyter_msg_id now = do
  raise_if (str_eq jupyter_msg_id "") (value_error "jupyter_msg_id is required")
  raise_if (is_some (← gets (λ b. b.active)))
      (runtime_error "another agent execution is already dispatched")
  raise_if (is_some (← gets (λ b. b.kernel_busy_parent)))
      (runtime_error "kernel is busy with another request")
  r ← get operation_id
  raise_if (not (is_queued r.state)) (runtime_error "only queued operations may be dispatched")
  raise_if (out_of_order (← gets (λ b. b.queue)) operation_id)
      (runtime_error "execution dispatch must preserve queue order")
  modify (λ b. record b { queue = drop_head b.queue })
  updated ← store (sent jupyter_msg_id now r)
  modify (λ b. record b { active = some operation_id })
  pure updated

unfoldable pub observe_busy_parent : ℕ → String → ℕ → Action Broker ExecutionRecord
unfolding get put
observe_busy_parent operation_id parent_msg_id now = do
  modify (λ b. record b { kernel_busy_parent = some parent_msg_id })
  r ← get operation_id
  store (observed parent_msg_id now r)

unfoldable pub observe_kernel_busy : String → Action Broker (Unit {0})
observe_kernel_busy parent_msg_id =
    modify (λ b. record b { kernel_busy_parent = some parent_msg_id })

unfoldable pub observe_kernel_idle : Action Broker (Unit {0})
observe_kernel_idle = modify (λ b. record b { kernel_busy_parent = none })

unfoldable pub interrupt_required : ℕ → Action Broker Bool
unfolding get
interrupt_required operation_id = do r ← get operation_id; pure (owns_active_kernel_request r)

-- The flag says that the kernel has to be interrupted.
unfoldable pub request_end : ExecutionState → ℕ → ℕ → Action Broker (ExecutionRecord × Bool)
unfolding get put is_terminal owns_active_kernel_request
request_end outcome operation_id now = do
  r ← get operation_id
  if is_terminal r.state
      then pure (r, false)
      else if is_queued r.state
      then (store (ended outcome now r) >>= λ updated. pure (updated, false))
      else (store (pending outcome now r) >>= λ updated.
          pure (updated, owns_active_kernel_request updated))

unfoldable pub request_cancel : ℕ → ℕ → Action Broker (ExecutionRecord × Bool)
request_cancel = request_end cancelled

unfoldable pub request_timeout : ℕ → ℕ → Action Broker (ExecutionRecord × Bool)
request_timeout = request_end timeout

unfoldable pub mark_cancelling : ℕ → Action Broker ExecutionRecord
unfolding get put owns_active_kernel_request
mark_cancelling operation_id = do
  r ← get operation_id
  raise_if (not (owns_active_kernel_request r))
      (runtime_error "kernel interrupt requires confirmed agent ownership")
  store (record r { state = cancelling })

-- One round of the loop `for operation_id in operation_ids: …`.
unfoldable pub expire_one : ℕ → ℕ → Action Broker (List (ExecutionRecord × Bool))
unfolding get is_due request_timeout
expire_one current i = do
  r ← get i
  if is_due current r then (request_timeout i current >>= λ t. pure (t ∷ [])) else pure []

unfoldable pub expire_each : ℕ → List ℕ → Action Broker (List (ExecutionRecord × Bool))
unfolding expire_one
expire_each current [] = pure []
expire_each current (i ∷ ids) = do
  here ← expire_one current i
  rest ← expire_each current ids
  pure (here ++ rest)

unfoldable pub expire : ℕ → Action Broker (List (ExecutionRecord × Bool))
unfolding expire_each
expire current = do ids ← gets (λ b. map (λ r. r.operation_id) b.records); expire_each current ids

abbrev pub clear_active : ℕ → Option ℕ → Option ℕ
clear_active i none = none
clear_active i (some j) = if j == i then none else some j

unfoldable pub finish : ℕ → ExecutionState → ℕ → Action Broker ExecutionRecord
unfolding get put is_terminal
finish operation_id outcome now = do
  raise_if (not (is_terminal outcome)) (value_error "outcome must be terminal")
  r ← get operation_id
  updated ← store (finished outcome now r)
  modify (λ b. record b { active = clear_active operation_id b.active })
  pure updated

unfoldable pub finish_each : List ℕ → ℕ → Action Broker (List ExecutionRecord)
unfolding finish
finish_each [] now = pure []
finish_each (i ∷ ids) now = do
  r ← finish i cancelled now
  rest ← finish_each ids now
  pure (r ∷ rest)

unfoldable pub invalidate_session : ℕ → ℕ → Action Broker (List ExecutionRecord)
unfolding finish_each is_terminal
invalidate_session session_id now = do
  ids ← gets (λ b.
      map (λ r. r.operation_id)
        (select (λ r. r.session_id == session_id && not (is_terminal r.state)) b.records))
  finish_each ids now
