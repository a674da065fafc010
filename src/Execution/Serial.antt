-- ===== src/Execution/Serial.antt =====
-- The broker's invariant: one slot for the kernel, and a queue that covers the waiting operations.
use notebook_launcher.Prelude.{
  ℕ, ◌≡◌, true, false, Option, none, some, [], ◌∷◌, String, arith, ◌==◌, is_some, Bool-cases,
  Option-cases, inl, inr, not, refl,
}
use notebook_launcher.Action.{is_ok, found}
use notebook_launcher.Execution.{
  ExecutionRecord, Broker, empty, put, is_queued, enqueue, sent, observed, drop_head, out_of_order,
  dispatch, observe_busy_parent,
}
use notebook_launcher.Execution.Records.{
  is_in_flight, lookup, state_is, contains, is_active, lookup-put, lookup_id, contains-append,
  Unique, put-Unique,
}

pub record IsValid (b : Broker) : Type 0 where
  -- the operation in the slot, and no other, has been handed to the kernel and is not finished
  pub serial : (i : ℕ) → state_is is_in_flight (lookup i b.records) ≡ is_active b.active i
  -- every operation that waits stands in the queue
  pub waiting : (i : ℕ) → state_is is_queued (lookup i b.records) ≡ true → contains i b.queue ≡ true
  -- every id in the queue has a record
  pub known : (i : ℕ) → contains i b.queue ≡ true → is_some (lookup i b.records) ≡ true
  pub keys : Unique b.records

pub empty-IsValid : IsValid empty
empty-IsValid = record { serial = λ i. refl; waiting = λ i h. cc; known = λ i h. cc; keys = tt }

-- the record of `i` is replaced by one that waits, or is in flight, only if the old one was
pub write-IsValid :
    (i : ℕ) (r' : ExecutionRecord) (b : Broker) {r : ExecutionRecord}
    → lookup i b.records ≡ some r
    → r'.operation_id ≡ i
    → is_in_flight r'.state ≡ is_in_flight r.state
    → (is_queued r'.state ≡ true → is_queued r.state ≡ true)
    → IsValid b
    → IsValid (record b { records = put r' b.records })
write-IsValid i r' b is_there same flight wait v = record {
  serial = λ j. rw lookup-put (ground (arith, v.serial j));
  waiting = λ j. rw lookup-put (ground (arith, v.waiting j));
  known = λ j. rw lookup-put (ground (arith, v.known j));
  keys = put-Unique r' b.records v.keys;
}

pub enqueue-IsValid :
    (session i now : ℕ) (limit : Option ℕ) (b : Broker)
    → lookup i b.records ≡ none
    → IsValid b
    → IsValid (enqueue session limit i now b).1
unfolding enqueue
enqueue-IsValid session i now none b fresh v = record {
  serial = λ j. rw lookup-put (ground (arith, v.serial j));
  waiting = λ j. rw lookup-put (ground (arith, v.waiting j, contains-append j b.queue (i ∷ [])));
  known = λ j. rw lookup-put (ground (arith, v.known j, contains-append j b.queue (i ∷ [])));
  keys = put-Unique _ b.records v.keys;
}
enqueue-IsValid session i now (some t) b fresh v = elim (Bool-cases (t == 0)) [
  | inl e ↦ rw e v
  | inr e ↦ rw e (record {
    serial = λ j. rw lookup-put (ground (arith, v.serial j));
    waiting = λ j. rw lookup-put (ground (arith, v.waiting j, contains-append j b.queue (i ∷ [])));
    known = λ j. rw lookup-put (ground (arith, v.known j, contains-append j b.queue (i ∷ [])));
    keys = put-Unique _ b.records v.keys;
  })
]

-- what `dispatch` has done when it returns
dispatched-IsValid :
    (i now : ℕ) (m : String) (b : Broker) {r : ExecutionRecord}
    → lookup i b.records ≡ some r
    → is_some b.active ≡ false
    → not (is_queued r.state) ≡ false
    → out_of_order b.queue i ≡ false
    → IsValid b
    → IsValid (record b {
      records = put (sent m now r) b.records;
      queue = drop_head b.queue;
      active = some i;
    })
dispatched-IsValid i now m b {r} is_there free wait order v = record {
  serial = λ j. rw lookup-put (ground (arith, v.serial j, lookup_id i b.records is_there));
  waiting =
      λ j. rw lookup-put (ground (arith, v.waiting j, v.waiting i, lookup_id i b.records is_there));
  known = λ j. rw lookup-put (ground (arith, v.known j, lookup_id i b.records is_there));
  keys = put-Unique (sent m now r) b.records v.keys;
}

-- A refused dispatch changes nothing.
pub dispatch_refused :
    (i now : ℕ) (m : String) (b : Broker)
    → is_ok (dispatch i m now b).0 ≡ false
    → (dispatch i m now b).1 ≡ b
unfolding dispatch
dispatch_refused i now m b h = ground arith

pub dispatch_accepted :
    (i now : ℕ) (m : String) (b : Broker)
    → is_ok (dispatch i m now b).0 ≡ true
    → (r : ExecutionRecord) × (lookup i b.records ≡ some r)
      × (is_some b.active ≡ false)
      × (not (is_queued r.state) ≡ false)
      × (out_of_order b.queue i ≡ false)
      × ((dispatch i m now b).1 ≡ record b {
        records = put (sent m now r) b.records;
        queue = drop_head b.queue;
        active = some i;
      })
unfolding dispatch
dispatch_accepted i now m b h = elim (Option-cases (lookup i b.records)) [
  | inl unknown ↦ absurd (ground arith)
  | inr (r, is_there) ↦ (r, is_there, ground arith, ground arith, ground arith, ground arith)
]

pub dispatch-IsValid :
    (i now : ℕ) (m : String) (b : Broker) → IsValid b → IsValid (dispatch i m now b).1
dispatch-IsValid i now m b v = elim (Bool-cases (is_ok (dispatch i m now b).0)) [
  | inl done ↦
      let (r, is_there, free, wait, order, eq) = dispatch_accepted i now m b done in
      rw eq (dispatched-IsValid i now m b is_there free wait order v)
  | inr no_way ↦ rw (dispatch_refused i now m b no_way) v
]

pub busy-IsValid :
    (p : Option String) (b : Broker) → IsValid b → IsValid (record b { kernel_busy_parent = p })
busy-IsValid p b v = record {
  serial = v.serial;
  waiting = v.waiting;
  known = v.known;
  keys = v.keys;
}

observed_kind :
    (m : String) (now : ℕ) (r : ExecutionRecord)
    → (is_in_flight (observed m now r).state ≡ is_in_flight r.state)
      × (is_queued (observed m now r).state ≡ true → is_queued r.state ≡ true)
observed_kind m now r = ground arith

pub observe_busy_parent-IsValid :
    (i now : ℕ) (m : String) (b : Broker) → IsValid b → IsValid (observe_busy_parent i m now b).1
unfolding observe_busy_parent
observe_busy_parent-IsValid i now m b v = elim (Option-cases (lookup i b.records)) [
  | inl e ↦ rw (e, found) (busy-IsValid (some m) b v)
  | inr (r, e) ↦
      rw (e, found)
        (let (flight, wait) = observed_kind m now r in
          write-IsValid i (observed m now r) (record b { kernel_busy_parent = some m }) e
            (lookup_id i b.records e) flight wait (busy-IsValid (some m) b v))
]
