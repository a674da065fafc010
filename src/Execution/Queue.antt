-- ===== src/Execution/Queue.antt =====
-- `next_queued` and `dispatch`: operations are handed to the kernel in the order of the queue.
use notebook_launcher.Prelude.{
  ℕ, ◌≡◌, true, false, none, some, List, [], ◌∷◌, String, arith, refl, is_some, str_eq, Bool-cases,
  Option-cases, inl, inr, find, ◌||◌,
}
use notebook_launcher.Action.{is_ok, ok}
use notebook_launcher.Execution.{ExecutionRecord, Broker, is_queued, next_queued, skip, dispatch}
use notebook_launcher.Execution.Records.{lookup, state_is, contains, lookup_id}
use notebook_launcher.Execution.Serial.{IsValid}

-- The records of the queue's ids, in the order of the queue.
abbrev pub records_of : List ExecutionRecord → List ℕ → List ExecutionRecord
records_of records [] = []
records_of records (i ∷ q) = elim (lookup i records) [
  | none ↦ records_of records q
  | some r ↦ r ∷ records_of records q
]

-- Every id of the queue has a record.
abbrev pub AllKnown : List ExecutionRecord → List ℕ → Type 0
AllKnown records q = (i : ℕ) → contains i q ≡ true → is_some (lookup i records) ≡ true

AllKnown-tail :
    (records : List ExecutionRecord) (i : ℕ) (q : List ℕ)
    → AllKnown records (i ∷ q)
    → AllKnown records q
AllKnown-tail records i q h j = ground (arith, h j)

skip_finds :
    (records : List ExecutionRecord) (q : List ℕ)
    → AllKnown records q
    → (skip records q).0 ≡ ok (find (λ r. is_queued r.state) (records_of records q))
unfolding skip
skip_finds records [] h = refl
skip_finds records (i ∷ q) h =
    ground (arith, h i, skip_finds records q (AllKnown-tail records i q h))

skip_keeps :
    (records : List ExecutionRecord) (q : List ℕ) (j : ℕ)
    → state_is is_queued (lookup j records) ≡ true
    → contains j q ≡ true
    → contains j (skip records q).1 ≡ true
unfolding skip
skip_keeps records [] j wait h = h
skip_keeps records (i ∷ q) j wait h = ground (arith, skip_keeps records q j wait)

contains-skip :
    (records : List ExecutionRecord) (q : List ℕ) (j : ℕ)
    → contains j (skip records q).1 ≡ true
    → contains j q ≡ true
unfolding skip
contains-skip records [] j h = h
contains-skip records (i ∷ q) j h = ground (arith, contains-skip records q j)

skip_head :
    (records : List ExecutionRecord) (q : List ℕ) {r : ExecutionRecord}
    → (skip records q).0 ≡ ok (some r)
    → (i : ℕ) × (rest : List ℕ) × ((skip records q).1 ≡ i ∷ rest)
      × (lookup i records ≡ some r)
      × (is_queued r.state ≡ true)
unfolding skip
skip_head records [] h = cc
skip_head records (i ∷ q) {r} h = elim (Option-cases (lookup i records)) [
  | inl e ↦ absurd (ground arith)
  | inr (x, e) ↦ elim (Bool-cases (is_queued x.state)) [
    | inl w ↦ (i, q, ground arith, ground arith, ground arith)
    | inr w ↦
        let (j, rest, a, b, c) = skip_head records q {r = r} (ground arith) in
        (j, rest, ground arith, b, c)
  ]
]

-- In a broker that meets its invariant, while the kernel is free, the answer is the first operation of the queue that still waits.
pub next_queued_fifo :
    (b : Broker)
    → IsValid b
    → b.active ≡ none
    → b.kernel_busy_parent ≡ none
    → (next_queued b).0 ≡ ok (find (λ r. is_queued r.state) (records_of b.records b.queue))
unfolding next_queued
next_queued_fifo b v free idle = ground (arith, skip_finds b.records b.queue v.known)

-- While an operation is in flight, or the kernel works for somebody else, there is no next one.
pub next_queued_blocked :
    (b : Broker)
    → (is_some b.active || is_some b.kernel_busy_parent) ≡ true
    → next_queued b ≡ (ok none, b)
unfolding next_queued
next_queued_blocked b h = ground arith

pub next_queued-IsValid : (b : Broker) → IsValid b → IsValid (next_queued b).1
unfolding next_queued
next_queued-IsValid b v = elim (Bool-cases (is_some b.active || is_some b.kernel_busy_parent)) [
  | inl e ↦ rw e v
  | inr e ↦ rw e (record {
    serial = v.serial;
    waiting = λ i h. skip_keeps b.records b.queue i h (v.waiting i h);
    known = λ i h. v.known i (contains-skip b.records b.queue i h);
    keys = v.keys;
  })
]

next_queued_accepts :
    (b : Broker) {r : ExecutionRecord} (m : String) (now : ℕ)
    → (next_queued b).0 ≡ ok (some r)
    → str_eq m "" ≡ false
    → (is_some b.active ≡ false)
      × (is_some b.kernel_busy_parent ≡ false)
      × ((skip b.records b.queue).0 ≡ ok (some r))
      × ((next_queued b).1 ≡ record b { queue = (skip b.records b.queue).1 })
unfolding next_queued
next_queued_accepts b m now h named = (ground arith, ground arith, ground arith, ground arith)

-- The operation that `next_queued` names is accepted by `dispatch` with any message id that is not
-- empty.
pub dispatch-next_queued :
    (b : Broker) {r : ExecutionRecord} (m : String) (now : ℕ)
    → (next_queued b).0 ≡ ok (some r)
    → str_eq m "" ≡ false
    → is_ok (dispatch r.operation_id m now (next_queued b).1).0 ≡ true
unfolding dispatch
dispatch-next_queued b {r} m now h named =
    let (free, idle, answer, eq) = next_queued_accepts b {r = r} m now h named in
    let (i, rest, queue, is_there, wait) = skip_head b.records b.queue {r = r} answer in
    rw eq (ground (arith, lookup_id i b.records is_there))
