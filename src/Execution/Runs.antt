-- ===== src/Execution/Runs.antt =====
-- Sequences of the broker's methods, from a new broker on.
use notebook_launcher.Prelude.{
  ℕ, ◌≡◌, true, false, Option, none, some, List, [], ◌∷◌, ◌++◌, String, arith, refl, Bool-cases,
  Option-cases, inl, inr,
}
use notebook_launcher.Action.{ok, err, bind_keeps, key_error, pure, ◌>>=◌}
use notebook_launcher.Execution.{
  ExecutionState, timeout, cancelled, ExecutionRecord, Broker, empty, is_terminal, is_due,
  expire_one, enqueue, next_queued, dispatch, observe_busy_parent, observe_kernel_busy,
  observe_kernel_idle, request_cancel, request_timeout, mark_cancelling, expire, expire_each,
  finish, finish_each, invalidate_session,
}
use notebook_launcher.Execution.Records.{is_in_flight, lookup, state_is}
use notebook_launcher.Execution.Serial.{
  IsValid, empty-IsValid, busy-IsValid, enqueue-IsValid, dispatch-IsValid,
  observe_busy_parent-IsValid,
}
use notebook_launcher.Execution.Ends.{request_end-IsValid, mark_cancelling-IsValid, finish-IsValid}
use notebook_launcher.Execution.Queue.{next_queued-IsValid}

request_timeout-IsValid : (i now : ℕ) (b : Broker) → IsValid b → IsValid (request_timeout i now b).1
unfolding request_timeout is_terminal
request_timeout-IsValid i now b = request_end-IsValid timeout i now b refl

request_cancel-IsValid : (i now : ℕ) (b : Broker) → IsValid b → IsValid (request_cancel i now b).1
unfolding request_cancel is_terminal
request_cancel-IsValid i now b = request_end-IsValid cancelled i now b refl

pub expire_one_due :
    (current i : ℕ) (b : Broker) (r : ExecutionRecord)
    → lookup i b.records ≡ some r
    → is_due current r ≡ true
    → (expire_one current i b).1 ≡ (request_timeout i current b).1
unfolding expire_one
expire_one_due current i b r e d = ground arith

pub expire_one_kept :
    (current i : ℕ) (b : Broker) (r : ExecutionRecord)
    → lookup i b.records ≡ some r
    → is_due current r ≡ false
    → expire_one current i b ≡ (ok [], b)
unfolding expire_one
expire_one_kept current i b r e d = ground arith

pub expire_one_unknown :
    (current i : ℕ) (b : Broker)
    → lookup i b.records ≡ none
    → expire_one current i b ≡ (err key_error, b)
unfolding expire_one
expire_one_unknown current i b e = ground arith

expire_one-IsValid : (current i : ℕ) (b : Broker) → IsValid b → IsValid (expire_one current i b).1
expire_one-IsValid current i b v = elim (Option-cases (lookup i b.records)) [
  | inl e ↦ rw (expire_one_unknown current i b e) v
  | inr (r, e) ↦ elim (Bool-cases (is_due current r)) [
    | inl d ↦ rw (expire_one_due current i b r e d) (request_timeout-IsValid i current b v)
    | inr d ↦ rw (expire_one_kept current i b r e d) v
  ]
]

expire_each-IsValid :
    (current : ℕ) (ids : List ℕ) (b : Broker) → IsValid b → IsValid (expire_each current ids b).1
unfolding expire_each
expire_each-IsValid current [] b v = v
expire_each-IsValid current (i ∷ ids) b v =
    let here = expire_one-IsValid current i b v in
    bind_keeps IsValid (expire_one current i)
      (λ x. expire_each current ids >>= λ rest. pure (x ++ rest)) b here
      λ x.
        bind_keeps IsValid (expire_each current ids) (λ rest. pure (x ++ rest))
          (expire_one current i b).1
          (expire_each-IsValid current ids (expire_one current i b).1 here)
          λ rest. expire_each-IsValid current ids (expire_one current i b).1 here

finish_each-IsValid :
    (ids : List ℕ) (now : ℕ) (b : Broker) → IsValid b → IsValid (finish_each ids now b).1
unfolding finish_each
finish_each-IsValid [] now b v = v
finish_each-IsValid (i ∷ ids) now b v =
    let here = finish-IsValid cancelled i now b v in
    let rest = finish_each-IsValid ids now (finish i cancelled now b).1 here in
    bind_keeps IsValid (finish i cancelled now)
      (λ x. finish_each ids now >>= λ rest. pure (x ∷ rest)) b here
      λ x.
        bind_keeps IsValid (finish_each ids now) (λ rest. pure (x ∷ rest))
          (finish i cancelled now b).1 rest λ _. rest

-- The public methods that change the broker; an id of `enqueue` is its `uuid4()`, and times are the
-- clock's answers.
pub data Call : Type 0 where
  enqueue_call : ℕ → Option ℕ → ℕ → ℕ → Call
  next_call : Call
  dispatch_call : ℕ → String → ℕ → Call
  observe_call : ℕ → String → ℕ → Call
  busy_call : String → Call
  idle_call : Call
  cancel_call timeout_call : ℕ → ℕ → Call
  cancelling_call : ℕ → Call
  expire_call : ℕ → Call
  finish_call : ℕ → ExecutionState → ℕ → Call
  invalidate_call : ℕ → ℕ → Call

-- The broker after a call, also after one that raised.
unfoldable pub step : Call → Broker → Broker
step (enqueue_call session limit i now) b = (enqueue session limit i now b).1
step next_call b = (next_queued b).1
step (dispatch_call i m now) b = (dispatch i m now b).1
step (observe_call i m now) b = (observe_busy_parent i m now b).1
step (busy_call m) b = (observe_kernel_busy m b).1
step idle_call b = (observe_kernel_idle b).1
step (cancel_call i now) b = (request_cancel i now b).1
step (timeout_call i now) b = (request_timeout i now b).1
step (cancelling_call i) b = (mark_cancelling i b).1
step (expire_call now) b = (expire now b).1
step (finish_call i outcome now) b = (finish i outcome now b).1
step (invalidate_call session now) b = (invalidate_session session now b).1

-- A new operation's id is not in use.
abbrev pub IsFresh : Call → Broker → Type 0
IsFresh (enqueue_call session limit i now) b = lookup i b.records ≡ none
IsFresh _ b = Unit

step-IsValid : (c : Call) (b : Broker) → IsFresh c b → IsValid b → IsValid (step c b)
unfolding step
step-IsValid (enqueue_call session limit i now) b f v = enqueue-IsValid session i now limit b f v
step-IsValid next_call b f v = next_queued-IsValid b v
step-IsValid (dispatch_call i m now) b f v = dispatch-IsValid i now m b v
step-IsValid (observe_call i m now) b f v = observe_busy_parent-IsValid i now m b v
step-IsValid (busy_call m) b f v = unfold observe_kernel_busy in busy-IsValid (some m) b v
step-IsValid idle_call b f v = unfold observe_kernel_idle in busy-IsValid none b v
step-IsValid (cancel_call i now) b f v = request_cancel-IsValid i now b v
step-IsValid (timeout_call i now) b f v = request_timeout-IsValid i now b v
step-IsValid (cancelling_call i) b f v = mark_cancelling-IsValid i b v
step-IsValid (expire_call now) b f v = unfold expire in expire_each-IsValid now _ b v
step-IsValid (finish_call i outcome now) b f v = finish-IsValid outcome i now b v
step-IsValid (invalidate_call session now) b f v =
    unfold invalidate_session in finish_each-IsValid _ now b v

-- The brokers that calls can make of a new one.
pub data Reachable : Broker → Type 0 where
  new : {b : Broker} → b ≡ empty → Reachable b
  call : {b b' : Broker} (c : Call) → Reachable b → IsFresh c b → b' ≡ step c b → Reachable b'

pub Reachable-IsValid : {b : Broker} → Reachable b → IsValid b
Reachable-IsValid (new e) = rw e empty-IsValid
Reachable-IsValid (call {b = b} c r f e) = rw e (step-IsValid c b f (Reachable-IsValid r))

-- After any calls on a new broker, two operations that have been handed to the kernel and are not
-- finished are one operation, and it is the one in the broker's slot.
pub one_in_flight :
    {b : Broker} (i j : ℕ)
    → Reachable b
    → state_is is_in_flight (lookup i b.records) ≡ true
    → state_is is_in_flight (lookup j b.records) ≡ true
    → (i ≡ j) × (b.active ≡ some i)
one_in_flight {b} i j r p q = let v = Reachable-IsValid r in ground (arith, v.serial i, v.serial j)
