-- ===== src/Execution/Tests.antt =====
-- Runs of the broker and the coordinator, and the theorems at concrete brokers.
use notebook_launcher.Prelude.{ℕ, ◌+◌, ◌≡◌, refl, true, false, none, some, [], ◌∷◌, arith}
use notebook_launcher.Action.{ok, err, runtime_error, ◌>>◌}
use notebook_launcher.Execution
use notebook_launcher.Execution.{
  ExecutionState, queued, running, cancel_pending, cancelled, ExecutionRecord, Broker, empty,
  enqueue, dispatch, next_queued, is_queued, observe_kernel_idle, observe_kernel_busy, finish_each,
  finish, get, put, is_terminal, skip,
}
use notebook_launcher.Execution.Records.{is_in_flight, lookup, state_is}
use notebook_launcher.Execution.Serial.{IsValid}
use notebook_launcher.Execution.Runs.{
  enqueue_call, dispatch_call, step, Reachable, new, call, one_in_flight,
}
use notebook_launcher.Execution.Coordinator.{Answers, World, cancel, timeout, on_broker}
use notebook_launcher.Execution.Interrupts.{interrupts, end_interrupts, interrupts_foreign_request}
use notebook_launcher.Execution.Outcomes.{state_of, end_outcome}
use notebook_launcher.Execution.Sessions.{invalidate_session_exact}

abbrev waiting_op : ExecutionRecord
waiting_op = record {
  operation_id = 2;
  session_id = 8;
  state = queued;
  queued_at = 100;
  jupyter_msg_id = none;
  active_parent_msg_id = none;
  dispatched_at = none;
  started_at = none;
  cancel_requested_at = none;
  requested_outcome = none;
  deadline_at = none;
  finished_at = none;
}

abbrev running_op : ExecutionRecord
running_op = record waiting_op {
  operation_id = 1;
  session_id = 7;
  state = running;
  jupyter_msg_id = some "m";
  active_parent_msg_id = some "m";
}

-- one operation runs, and one waits
abbrev busy : Broker
busy = record {
  records = running_op ∷ waiting_op ∷ [];
  queue = 2 ∷ [];
  active = some 1;
  kernel_busy_parent = some "m";
}

-- the slot is free; the queue's first id is no longer waiting
abbrev idle : Broker
idle = record {
  records = record running_op { state = cancelled } ∷ waiting_op ∷ [];
  queue = 1 ∷ 2 ∷ [];
  active = none;
  kernel_busy_parent = none;
}

busy-IsValid : IsValid busy
busy-IsValid = record {
  serial = λ i. ground arith;
  waiting = λ i h. ground arith;
  known = λ i h. ground arith;
  keys = (refl, (refl, tt));
}

idle-IsValid : IsValid idle
idle-IsValid = record {
  serial = λ i. ground arith;
  waiting = λ i h. ground arith;
  known = λ i h. ground arith;
  keys = (refl, (refl, tt));
}

abbrev calm : Answers
calm = record { dispatched = ok "m"; interrupt = ok tt; restart = ok tt; idle = some false }

abbrev world : World
world = record { broker = busy; signals = [] }

abbrev one_call : Broker
one_call = step (dispatch_call 1 "m" 101) (step (enqueue_call 7 none 1 100) empty)

one_call-Reachable : Reachable one_call
one_call-Reachable =
    call (dispatch_call 1 "m" 101) (call (enqueue_call 7 none 1 100) (new refl) refl refl) tt refl

one_call_flies : state_is is_in_flight (lookup 1 one_call.records) ≡ true
unfolding step enqueue dispatch get put
one_call_flies = refl

one_in_flight_example : (◌≡◌ {A = ℕ} 1 1) × (one_call.active ≡ some 1)
one_in_flight_example = one_in_flight 1 1 one_call-Reachable one_call_flies one_call_flies

end_interrupts_example :
    (interrupts (cancel 1 200 calm world).1 ≡ interrupts world + 1)
    × (interrupts (timeout 1 200 calm world).1 ≡ interrupts world + 1)
end_interrupts_example = end_interrupts 1 200 calm world running_op refl

interrupts_foreign_request_example :
    let w' = (on_broker (observe_kernel_idle >> observe_kernel_busy "browser") world).1 in
    (w'.broker.kernel_busy_parent ≡ some "browser")
    × (interrupts (cancel 1 200 calm w').1 ≡ interrupts w' + 1)
interrupts_foreign_request_example =
    interrupts_foreign_request 1 200 "m" "browser" calm world running_op refl refl refl refl refl
      refl

end_outcome_example :
    ((cancel 1 200 calm world).1.broker.active ≡ none)
    × (state_of 1 (cancel 1 200 calm world).1.broker ≡ some cancelled)
    × ((timeout 1 200 calm world).1.broker.active ≡ none)
    × (state_of 1 (timeout 1 200 calm world).1.broker ≡ some ExecutionState.timeout)
end_outcome_example =
    end_outcome 1 200 calm false world running_op busy-IsValid refl refl refl refl refl

next_answer : (next_queued idle).0 ≡ ok (some waiting_op)
unfolding next_queued
next_answer = refl

invalidate_session_exact_example :
    lookup 1 (Execution.invalidate_session 7 400 busy).1.records
    ≡ some (record running_op { state = cancelled; finished_at = some 400 })
unfolding is_terminal
invalidate_session_exact_example = invalidate_session_exact 7 400 1 busy busy-IsValid

-- A dispatch out of the order of the queue is refused.
out_of_order_refused :
    (dispatch 2 "m" 5 (record idle { queue = 3 ∷ 2 ∷ [] })).0
    ≡ err (runtime_error "execution dispatch must preserve queue order")
unfolding dispatch
out_of_order_refused = refl
