-- ===== src/Execution/Ends.antt =====
-- Cancellations, time-outs, interrupts and ends of operations keep the broker's invariant.
use notebook_launcher.Prelude.{
  ℕ, ◌≡◌, true, false, none, some, arith, Bool-cases, Option-cases, inl, inr,
}
use notebook_launcher.Action.{is_ok, ok, err, key_error, found}
use notebook_launcher.Execution.{
  ExecutionState, ExecutionRecord, Broker, put, is_queued, is_terminal, ended, pending, finished,
  clear_active, cancelling, request_end, mark_cancelling, finish, owns_active_kernel_request,
}
use notebook_launcher.Execution.Records.{is_in_flight, lookup, lookup-put, lookup_id, put-Unique}
use notebook_launcher.Execution.Serial.{IsValid, write-IsValid}

pending_kind :
    (outcome : ExecutionState) (now : ℕ) (r : ExecutionRecord)
    → is_terminal r.state ≡ false
    → is_queued r.state ≡ false
    → (is_in_flight (pending outcome now r).state ≡ is_in_flight r.state)
      × (is_queued (pending outcome now r).state ≡ true → is_queued r.state ≡ true)
unfolding is_terminal
pending_kind outcome now r t q = ground arith

ended_kind :
    (outcome : ExecutionState) (now : ℕ) (r : ExecutionRecord)
    → is_terminal outcome ≡ true
    → is_queued r.state ≡ true
    → (is_in_flight (ended outcome now r).state ≡ is_in_flight r.state)
      × (is_queued (ended outcome now r).state ≡ true → is_queued r.state ≡ true)
unfolding is_terminal
ended_kind outcome now r t q = ground arith

-- The branches of `request_cancel` and `request_timeout`.
module _ (outcome : ExecutionState) (i now : ℕ) (b : Broker) where
  pub request_end_unknown :
      lookup i b.records ≡ none → request_end outcome i now b ≡ (err key_error, b)
  unfolding request_end
  request_end_unknown e = ground arith

  module _ (r : ExecutionRecord) (e : lookup i b.records ≡ some r) where
    pub request_end_terminal :
        is_terminal r.state ≡ true → request_end outcome i now b ≡ (ok (r, false), b)
    unfolding request_end
    request_end_terminal t = ground arith

    pub request_end_queued :
        is_queued r.state ≡ true
        → request_end outcome i now b ≡ (
          ok (ended outcome now r, false),
          record b { records = put (ended outcome now r) b.records },
        )
    unfolding request_end
    request_end_queued q = ground arith

    pub request_end_in_flight :
        is_terminal r.state ≡ false
        → is_queued r.state ≡ false
        → request_end outcome i now b ≡ (
          ok (pending outcome now r, owns_active_kernel_request (pending outcome now r)),
          record b { records = put (pending outcome now r) b.records },
        )
    unfolding request_end
    request_end_in_flight t q = ground arith

  pub request_end-IsValid :
      is_terminal outcome ≡ true → IsValid b → IsValid (request_end outcome i now b).1
  request_end-IsValid t v = elim (Option-cases (lookup i b.records)) [
    | inl e ↦ rw (request_end_unknown e) v
    | inr (r, e) ↦ elim (Bool-cases (is_terminal r.state)) [
      | inl over ↦ rw (request_end_terminal r e over) v
      | inr live ↦ elim (Bool-cases (is_queued r.state)) [
        | inl q ↦ rw (request_end_queued r e q) (
            let (flight, wait) = ended_kind outcome now r t q in
            write-IsValid i (ended outcome now r) b e (lookup_id i b.records e) flight wait v)
        | inr q ↦ rw (request_end_in_flight r e live q) (
            let (flight, wait) = pending_kind outcome now r live q in
            write-IsValid i (pending outcome now r) b e (lookup_id i b.records e) flight wait v)
      ]
    ]
  ]

-- `mark_cancelling` is refused unless the operation owns the kernel's request.
pub mark_cancelling_refused :
    (i : ℕ) (b : Broker) → is_ok (mark_cancelling i b).0 ≡ false → (mark_cancelling i b).1 ≡ b
unfolding mark_cancelling
mark_cancelling_refused i b h = ground arith

pub mark_cancelling_accepted :
    (i : ℕ) (b : Broker)
    → is_ok (mark_cancelling i b).0 ≡ true
    → (r : ExecutionRecord) × (lookup i b.records ≡ some r)
      × (owns_active_kernel_request r ≡ true)
      × (mark_cancelling i b ≡ (
        ok (record r { state = cancelling }),
        record b { records = put (record r { state = cancelling }) b.records },
      ))
unfolding mark_cancelling
mark_cancelling_accepted i b h = elim (Option-cases (lookup i b.records)) [
  | inl unknown ↦ absurd (ground arith)
  | inr (r, is_there) ↦ (r, is_there, ground arith, ground arith)
]

owner_kind :
    (r : ExecutionRecord) → owns_active_kernel_request r ≡ true → (is_in_flight r.state ≡ true)
unfolding owns_active_kernel_request
owner_kind r h = ground arith

pub mark_cancelling-IsValid : (i : ℕ) (b : Broker) → IsValid b → IsValid (mark_cancelling i b).1
mark_cancelling-IsValid i b v = elim (Bool-cases (is_ok (mark_cancelling i b).0)) [
  | inl done ↦
      let (r, is_there, owns, eq) = mark_cancelling_accepted i b done in
      rw eq (
        write-IsValid i (record r { state = cancelling }) b is_there
          (lookup_id i b.records is_there) (cc (owner_kind r owns)) (λ q. cc) v)
  | inr no_way ↦ rw (mark_cancelling_refused i b no_way) v
]

-- the record of `i` gets a terminal state, and the slot is cleared if `i` held it
finished-IsValid :
    (outcome : ExecutionState) (i now : ℕ) (b : Broker) {r : ExecutionRecord}
    → lookup i b.records ≡ some r
    → is_terminal outcome ≡ true
    → IsValid b
    → IsValid (record b {
      records = put (finished outcome now r) b.records;
      active = clear_active i b.active;
    })
unfolding is_terminal
finished-IsValid outcome i now b {r} is_there t v = record {
  serial = λ j. rw lookup-put (ground (arith, v.serial j, lookup_id i b.records is_there));
  waiting = λ j. rw lookup-put (ground (arith, v.waiting j, lookup_id i b.records is_there));
  known = λ j. rw lookup-put (ground (arith, v.known j, lookup_id i b.records is_there));
  keys = put-Unique (finished outcome now r) b.records v.keys;
}

pub finish-IsValid :
    (outcome : ExecutionState) (i now : ℕ) (b : Broker)
    → IsValid b
    → IsValid (finish i outcome now b).1
unfolding finish
finish-IsValid outcome i now b v = elim (Bool-cases (is_terminal outcome)) [
  | inl t ↦ elim (Option-cases (lookup i b.records)) [
    | inl e ↦ rw t (rw (e, found) v)
    | inr (r, e) ↦ rw t (rw (e, found) (finished-IsValid outcome i now b e t v))
  ]
  | inr t ↦ rw t v
]
