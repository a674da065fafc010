-- ===== src/Execution/Outcomes.antt =====
-- How an interrupted operation ends, when the coordinator waits for the kernel to go idle.
use notebook_launcher.Prelude.{
  ℕ, ◌≡◌, Bool, true, false, Option, none, some, [], ◌∷◌, ◌++◌, arith, refl, ◌∙◌,
}
use notebook_launcher.Action.{ok}
use notebook_launcher.Execution.{
  ExecutionState, cancelling, cancelled, is_terminal, is_queued, ExecutionRecord, Broker, get,
  finish, same_message, put, pending, finished, owns_active_kernel_request, request_cancel,
  request_timeout, mark_cancelling, clear_active,
}
use notebook_launcher.Execution.Records.{lookup, lookup-put, lookup_id}
use notebook_launcher.Execution.Serial.{IsValid}
use notebook_launcher.Execution.Ends.{request_end_in_flight}
use notebook_launcher.Execution.Coordinator.{
  Answers, World, on_broker, settle, interrupt_owned, interrupt_if, cancel, timeout, outcome_of,
  interrupted,
}
use notebook_launcher.Execution.Interrupts.{holds_kernel, pending_owns, kinds, ending}

abbrev pub state_of : ℕ → Broker → Option ExecutionState
state_of i b = elim (lookup i b.records) [ none ↦ none | some r ↦ some r.state ]

pub finish_lem :
    (i now : ℕ) (outcome : ExecutionState) (b : Broker) (r : ExecutionRecord)
    → lookup i b.records ≡ some r
    → is_terminal outcome ≡ true
    → (finish i outcome now b).1 ≡ record b {
      records = put (finished outcome now r) b.records;
      active = clear_active i b.active;
    }
unfolding finish
finish_lem i now outcome b r e t = ground arith

settle_state :
    (i now : ℕ) (k : Answers) (idle : Bool) (w : World) (r0 r : ExecutionRecord)
    → lookup i w.broker.records ≡ some r
    → is_terminal (outcome_of r0) ≡ true
    → k.restart ≡ ok tt
    → ((settle r0 i now k idle w).1.broker.active ≡ clear_active i w.broker.active)
      × (state_of i (settle r0 i now k idle w).1.broker ≡ some (outcome_of r0))
unfolding settle
settle_state i now k idle w r0 r e t fine = ground (
  arith,
  finish_lem i now (outcome_of r0) w.broker r e t,
  lookup-put i (finished (outcome_of r0) now r) w.broker.records,
  lookup_id i w.broker.records e,
)

marked :
    (i : ℕ) (b : Broker) (r : ExecutionRecord)
    → lookup i b.records ≡ some r
    → owns_active_kernel_request r ≡ true
    → mark_cancelling i b ≡ (
      ok (record r { state = cancelling }),
      record b { records = put (record r { state = cancelling }) b.records },
    )
unfolding mark_cancelling
marked i b r e owns = ground arith

interrupt_owned_state :
    (i now : ℕ) (k : Answers) (idle : Bool) (w : World) (r : ExecutionRecord)
    → lookup i w.broker.records ≡ some r
    → owns_active_kernel_request r ≡ true
    → is_terminal (outcome_of r) ≡ true
    → k.interrupt ≡ ok tt
    → k.restart ≡ ok tt
    → k.idle ≡ some idle
    → ((interrupt_owned i now k w).1.broker.active ≡ clear_active i w.broker.active)
      × (state_of i (interrupt_owned i now k w).1.broker ≡ some (outcome_of r))
unfolding interrupt_owned
interrupt_owned_state i now k idle w r e owns t fine fine' waits =
    let r' : ExecutionRecord = record r { state = cancelling } in
    let b : Broker = record w.broker { records = put r' w.broker.records } in
    let w' : World = record w { broker = b; signals = w.signals ++ interrupted ∷ [] } in
    ground (
      arith,
      marked i w.broker r e owns,
      waits,
      lookup-put i r' w.broker.records,
      lookup_id i w.broker.records e,
      settle_state i now k idle w' r' r',
    )

holder :
    (r : ExecutionRecord)
    → holds_kernel r ≡ true
    → (is_terminal r.state ≡ false)
      × (is_queued r.state ≡ false)
      × (same_message r.jupyter_msg_id r.active_parent_msg_id ≡ true)
holder r h = ground (arith, kinds r)

ending_lem :
    (outcome : ExecutionState) (i now : ℕ) (k : Answers) (w : World) (r : ExecutionRecord)
    → lookup i w.broker.records ≡ some r
    → holds_kernel r ≡ true
    → ending outcome i now k w
      ≡ interrupt_if i now k (pending outcome now r) true (record w {
        broker = record w.broker { records = put (pending outcome now r) w.broker.records };
      })
unfolding on_broker
ending_lem outcome i now k w r e holds =
    let (live, q, same) = holder r holds in
    ground (
      arith,
      request_end_in_flight outcome i now w.broker r e live q,
      pending_owns outcome now r,
      same,
    )

interrupt_if_state :
    (i now : ℕ) (k : Answers) (r : ExecutionRecord) (w : World)
    → (interrupt_if i now k r true w).1 ≡ (interrupt_owned i now k w).1
unfolding interrupt_if get
interrupt_if_state i now k r w = ground arith

ended_lookup :
    (outcome : ExecutionState) (i now : ℕ) (w : World) (r : ExecutionRecord)
    → lookup i w.broker.records ≡ some r
    → lookup i (put (pending outcome now r) w.broker.records) ≡ some (pending outcome now r)
ended_lookup outcome i now w r e = rw lookup-put (ground (arith, lookup_id i w.broker.records e))

cleared :
    (i : ℕ) (b : Broker) (r : ExecutionRecord)
    → IsValid b
    → lookup i b.records ≡ some r
    → holds_kernel r ≡ true
    → clear_active i b.active ≡ none
cleared i b r v e holds = ground (arith, v.serial i)

ending_state :
    (outcome : ExecutionState) (i now : ℕ) (k : Answers) (idle : Bool) (w : World)
    (r : ExecutionRecord)
    → IsValid w.broker
    → lookup i w.broker.records ≡ some r
    → holds_kernel r ≡ true
    → is_terminal outcome ≡ true
    → k.interrupt ≡ ok tt
    → k.restart ≡ ok tt
    → k.idle ≡ some idle
    → ((ending outcome i now k w).1.broker.active ≡ none)
      × (state_of i (ending outcome i now k w).1.broker ≡ some outcome)
unfolding on_broker interrupt_if
ending_state outcome i now k idle w r v e holds t fine fine' waits =
    let r' = pending outcome now r in
    let b : Broker = record w.broker { records = put r' w.broker.records } in
    let w' : World = record w { broker = b } in
    let there = ended_lookup outcome i now w r e in
    let owns = pending_owns outcome now r ∙ (holder r holds).2 in
    rw (ending_lem outcome i now k w r e holds, interrupt_if_state i now k r' w')
      (let (free, end) = interrupt_owned_state i now k idle w' r' there owns t fine fine' waits in
        (free ∙ cleared i w.broker r v e holds, end))

-- In a broker that meets its invariant, where the coordinator waits for the kernel and the kernel's calls do not raise, an operation that
-- holds the kernel ends in the outcome that was asked for, `cancelled` after a cancellation and
-- `timeout` after a timeout, whether the kernel went idle or had to be restarted, and the slot is free.
pub end_outcome :
    (i now : ℕ) (k : Answers) (idle : Bool) (w : World) (r : ExecutionRecord)
    → IsValid w.broker
    → lookup i w.broker.records ≡ some r
    → holds_kernel r ≡ true
    → k.interrupt ≡ ok tt
    → k.restart ≡ ok tt
    → k.idle ≡ some idle
    → ((cancel i now k w).1.broker.active ≡ none)
      × (state_of i (cancel i now k w).1.broker ≡ some cancelled)
      × ((timeout i now k w).1.broker.active ≡ none)
      × (state_of i (timeout i now k w).1.broker ≡ some ExecutionState.timeout)
unfolding cancel timeout request_cancel request_timeout is_terminal
end_outcome i now k idle w r v e holds fine fine' waits =
    let (a, b) = ending_state cancelled i now k idle w r v e holds refl fine fine' waits in
    let (c, d) =
      ending_state ExecutionState.timeout i now k idle w r v e holds refl fine fine' waits in
    (a, b, c, d)
