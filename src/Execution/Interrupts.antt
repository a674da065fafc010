-- ===== src/Execution/Interrupts.antt =====
-- When the coordinator interrupts the kernel.
use notebook_launcher.Prelude.{
  ℕ, ◌+◌, ◌≡◌, String, Bool, true, false, ◌&&◌, ◌||◌, not, some, [], ◌∷◌, arith, str_eq,
  if◌then◌else◌, Bool-cases, inl, inr, count, count-append, refl, eq_iff,
}
use notebook_launcher.Action.{Action, is_ok, ◌>>=◌, ◌>>◌}
use notebook_launcher.Execution
use notebook_launcher.Execution.{
  ExecutionState, running, cancel_pending, cancelled, is_terminal, is_queued, same_message,
  ExecutionRecord, Broker, get, mark_cancelling, request_cancel, request_timeout, request_end,
  ended, observed, may_own, owns_active_kernel_request, pending, observe_kernel_idle,
  observe_kernel_busy, put,
}
use notebook_launcher.Execution.Records.{is_in_flight, lookup, lookup-put, lookup_id}
use notebook_launcher.Execution.Ends.{
  request_end_terminal, request_end_queued, request_end_in_flight,
}
use notebook_launcher.Execution.Coordinator.{
  Signal, interrupted, restarted, Answers, World, on_broker, interrupt_owned, interrupt_if, settle,
  cancel, timeout, is_cancel_pending, observe_busy_parent,
}

abbrev is_interrupt : Signal → Bool
is_interrupt interrupted = true
is_interrupt _ = false

abbrev pub interrupts : World → ℕ
interrupts w = count is_interrupt w.signals

interrupts-settle :
    (r : ExecutionRecord) (i now : ℕ) (k : Answers) (idle : Bool) (w : World)
    → interrupts (settle r i now k idle w).1 ≡ interrupts w
unfolding settle
interrupts-settle r i now k idle w =
    ground (arith, count-append is_interrupt w.signals (restarted ∷ []))

interrupts-interrupt_owned :
    (i now : ℕ) (k : Answers) (w : World)
    → interrupts (interrupt_owned i now k w).1
      ≡ interrupts w + (if is_ok (mark_cancelling i w.broker).0 then 1 else 0)
unfolding interrupt_owned
interrupts-interrupt_owned i now k w =
    grind (arith, count-append is_interrupt w.signals (interrupted ∷ []), interrupts-settle)

-- An operation that owns the kernel's request may be marked.
mark_cancelling_ok :
    (i : ℕ) (b : Broker) {r : ExecutionRecord}
    → lookup i b.records ≡ some r
    → is_ok (mark_cancelling i b).0 ≡ owns_active_kernel_request r
unfolding mark_cancelling
mark_cancelling_ok i b e = ground arith

interrupts-interrupt_if :
    (i now : ℕ) (k : Answers) (r : ExecutionRecord) (flag : Bool) (w : World)
    → (flag ≡ true → owns_active_kernel_request r ≡ true)
    → lookup i w.broker.records ≡ some r
    → interrupts (interrupt_if i now k r flag w).1 ≡ interrupts w + (if flag then 1 else 0)
unfolding interrupt_if
interrupts-interrupt_if i now k r true w owns e = ground (
  arith,
  owns refl,
  interrupts-interrupt_owned i now k w,
  mark_cancelling_ok i w.broker {r = r} e,
)
interrupts-interrupt_if i now k r false w owns e = ground arith

-- Handed to the kernel, not finished, and last seen as the kernel's busy parent.
abbrev pub holds_kernel : ExecutionRecord → Bool
holds_kernel r = is_in_flight r.state && same_message r.jupyter_msg_id r.active_parent_msg_id

pub pending_owns :
    (outcome : ExecutionState) (now : ℕ) (r : ExecutionRecord)
    → owns_active_kernel_request (pending outcome now r)
      ≡ same_message r.jupyter_msg_id r.active_parent_msg_id
unfolding owns_active_kernel_request
pending_owns outcome now r = ground arith

pub kinds :
    (r : ExecutionRecord) → is_in_flight r.state ≡ not (is_terminal r.state || is_queued r.state)
unfolding is_terminal
kinds r = ground arith

-- `cancel` and `timeout`, which differ in the outcome.
abbrev pub ending : ExecutionState → ℕ → ℕ → Answers → Action World ExecutionRecord
ending outcome i now k = on_broker (request_end outcome i now) >>= λ x. interrupt_if i now k x.0 x.1

interrupts-ending :
    (outcome : ExecutionState) (i now : ℕ) (k : Answers) (w : World) (r : ExecutionRecord)
    → lookup i w.broker.records ≡ some r
    → interrupts (ending outcome i now k w).1 ≡ interrupts w + (if holds_kernel r then 1 else 0)
unfolding on_broker
interrupts-ending outcome i now k w r e = elim (Bool-cases (is_terminal r.state)) [
  | inl over ↦ ground (
    arith,
    request_end_terminal outcome i now w.broker r e over,
    interrupts-interrupt_if i now k r false w,
    kinds r,
  )
  | inr live ↦ elim (Bool-cases (is_queued r.state)) [
    | inl q ↦
        let b : Broker = record w.broker { records = put (ended outcome now r) w.broker.records } in
        ground (
          arith,
          request_end_queued outcome i now w.broker r e q,
          interrupts-interrupt_if i now k (ended outcome now r) false (record w { broker = b }),
          kinds r,
          lookup-put i (ended outcome now r) w.broker.records,
          lookup_id i w.broker.records e,
        )
    | inr q ↦
        let r' = pending outcome now r in
        let b : Broker = record w.broker { records = put r' w.broker.records } in
        ground (
          arith,
          request_end_in_flight outcome i now w.broker r e live q,
          interrupts-interrupt_if i now k r' (owns_active_kernel_request r')
              (record w { broker = b }),
          kinds r,
          pending_owns outcome now r,
          lookup-put i r' w.broker.records,
          lookup_id i w.broker.records e,
        )
  ]
]

-- A cancellation or a timeout of a known operation interrupts the kernel once if the operation is
-- in flight and its message is the busy parent that was last recorded for it, and otherwise never:
-- a queued or a finished operation has no interrupt.
pub end_interrupts :
    (i now : ℕ) (k : Answers) (w : World) (r : ExecutionRecord)
    → lookup i w.broker.records ≡ some r
    → (interrupts (cancel i now k w).1 ≡ interrupts w + (if holds_kernel r then 1 else 0))
      × (interrupts (timeout i now k w).1 ≡ interrupts w + (if holds_kernel r then 1 else 0))
unfolding cancel timeout request_cancel request_timeout
end_interrupts i now k w r e = (
  interrupts-ending cancelled i now k w r e,
  interrupts-ending ExecutionState.timeout i now k w r e,
)

observed_owner :
    (m : String) (now : ℕ) (r : ExecutionRecord)
    → owns_active_kernel_request (observed m now r)
      ≡ (same_message r.jupyter_msg_id (some m) && may_own (observed m now r).state)
unfolding owns_active_kernel_request
observed_owner m now r = ground arith

-- When the kernel is seen busy, a known operation whose cancellation is pending is interrupted exactly if
-- the busy parent is its own message, and an operation in any other state is not interrupted.
pub observe_interrupts :
    (i now : ℕ) (m : String) (k : Answers) (w : World) (r : ExecutionRecord)
    → lookup i w.broker.records ≡ some r
    → interrupts (observe_busy_parent i m now k w).1
      ≡ interrupts w
        + (if is_cancel_pending r.state && same_message r.jupyter_msg_id (some m) then 1 else 0)
unfolding observe_busy_parent Execution.observe_busy_parent
observe_interrupts i now m k w r e =
    let r' = observed m now r in
    let b : Broker = record w.broker {
      records = put r' w.broker.records;
      kernel_busy_parent = some m;
    } in
    ground (
      arith,
      interrupts-interrupt_if i now k r'
          (is_cancel_pending r'.state && owns_active_kernel_request r') (record w { broker = b }),
      observed_owner m now r,
      lookup-put i r' w.broker.records,
      lookup_id i w.broker.records e,
    )

-- The record keeps the busy parent that was last seen: after the kernel went idle and then busy with
-- a request of somebody else, the cancellation of a known running operation whose message is not empty
-- and is its recorded busy parent still interrupts.
pub interrupts_foreign_request :
    (i now : ℕ) (m p : String) (k : Answers) (w : World) (r : ExecutionRecord)
    → lookup i w.broker.records ≡ some r
    → r.state ≡ running
    → r.jupyter_msg_id ≡ some m
    → r.active_parent_msg_id ≡ some m
    → str_eq m "" ≡ false
    → str_eq p m ≡ false
    → let w' = (on_broker (observe_kernel_idle >> observe_kernel_busy p) w).1 in
      (w'.broker.kernel_busy_parent ≡ some p)
      × (interrupts (cancel i now k w').1 ≡ interrupts w' + 1)
unfolding on_broker observe_kernel_idle observe_kernel_busy
interrupts_foreign_request i now m p k w r e s own parent named other =
    let w' : World = record w { broker = record w.broker { kernel_busy_parent = some p } } in
    (refl, ground (arith, (end_interrupts i now k w' r e).0, eq_iff m m))
