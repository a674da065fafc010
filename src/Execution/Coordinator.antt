-- ===== src/Execution/Coordinator.antt =====
-- `ExecutionCoordinator` of execution.py. The kernel and `wait_for_idle` are adapters that the
-- coordinator is given: what they answer is an argument, and what they are told is recorded.
use notebook_launcher.Prelude.{
  ℕ, String, Bool, true, false, ◌&&◌, Option, none, some, List, [], ◌∷◌, ◌++◌, or_else,
  if◌then◌else◌,
}
use notebook_launcher.Action.{Action, Result, pure, ◌>>=◌, ◌>>◌}
use notebook_launcher.Execution
use notebook_launcher.Execution.{
  ExecutionState, cancel_pending, cancelled, ExecutionRecord, Broker, get, next_queued,
  request_cancel, request_timeout, mark_cancelling, finish, owns_active_kernel_request,
}

pub data Signal : Type 0 where
  sent interrupted restarted : Signal

-- The answers of `kernel.dispatch`, `kernel.interrupt`, `kernel.restart`, each of which may raise,
-- and of `wait_for_idle`, which is `none` where the coordinator has no such callback.
pub record Answers : Type 0 where
  pub dispatched : Result String
  pub interrupt : Result (Unit {0})
  pub restart : Result (Unit {0})
  pub idle : Option Bool

pub record World : Type 0 where
  pub broker : Broker
  pub signals : List Signal

unfoldable pub on_broker : {A : Type 0} → Action Broker A → Action World A
on_broker m w = let (r, b) = m w.broker in (r, record w { broker = b })

unfoldable pub send : {A : Type 0} → Signal → Result A → Action World A
send s answer w = (answer, record w { signals = w.signals ++ s ∷ [] })

unfoldable pub dispatch_next : Answers → ℕ → Action World (Option ExecutionRecord)
unfolding on_broker send
dispatch_next k now = do
  queued ← on_broker next_queued
  elim queued [
    | none ↦ pure none
    | some r ↦ do
      message_id ← send sent k.dispatched
      updated ← on_broker (Execution.dispatch r.operation_id message_id now)
      pure (some updated)
  ]

-- `record.requested_outcome or ExecutionState.CANCELLED`
abbrev pub outcome_of : ExecutionRecord → ExecutionState
outcome_of r = or_else r.requested_outcome cancelled

-- The part of `_interrupt_owned` behind `if self.wait_for_idle is None: return`.
unfoldable pub settle : ExecutionRecord → ℕ → ℕ → Answers → Bool → Action World (Unit {0})
unfolding on_broker send
settle r operation_id now k idle = do
  if idle then pure tt else send restarted k.restart
  on_broker (finish operation_id (outcome_of r) now)
  pure tt

unfoldable pub interrupt_owned : ℕ → ℕ → Answers → Action World (Unit {0})
unfolding on_broker send
interrupt_owned operation_id now k = do
  r ← on_broker (mark_cancelling operation_id)
  send interrupted k.interrupt
  elim k.idle [ none ↦ pure tt | some idle ↦ settle r operation_id now k idle ]

-- What `cancel` and `timeout` do with the broker's answer.
unfoldable pub interrupt_if :
    ℕ → ℕ → Answers → ExecutionRecord → Bool → Action World ExecutionRecord
unfolding on_broker
interrupt_if operation_id now k r should_interrupt =
    if should_interrupt
    then (interrupt_owned operation_id now k >> on_broker (get operation_id))
    else pure r

unfoldable pub cancel : ℕ → ℕ → Answers → Action World ExecutionRecord
unfolding on_broker
cancel operation_id now k = do
  x ← on_broker (request_cancel operation_id now)
  interrupt_if operation_id now k x.0 x.1

unfoldable pub timeout : ℕ → ℕ → Answers → Action World ExecutionRecord
unfolding on_broker
timeout operation_id now k = do
  x ← on_broker (request_timeout operation_id now)
  interrupt_if operation_id now k x.0 x.1

abbrev pub is_cancel_pending : ExecutionState → Bool
is_cancel_pending cancel_pending = true
is_cancel_pending _ = false

unfoldable pub observe_busy_parent : ℕ → String → ℕ → Answers → Action World ExecutionRecord
unfolding on_broker
observe_busy_parent operation_id parent_msg_id now k = do
  r ← on_broker (Execution.observe_busy_parent operation_id parent_msg_id now)
  interrupt_if operation_id now k r (is_cancel_pending r.state && owns_active_kernel_request r)
