-- ===== src/Execution/Records.antt =====
-- The broker's dict of records, seen through lookups: the state of an operation by its id.
use notebook_launcher.Prelude.{
  ℕ, ◌≡◌, Bool, true, false, ◌||◌, Option, none, some, List, [], ◌∷◌, ◌++◌, arith, ◌==◌, find,
  if◌then◌else◌, refl, map, select,
}
use notebook_launcher.Execution.{
  ExecutionState, dispatched, running, cancel_pending, cancelling, ExecutionRecord, has_id, put,
}

-- Handed to the kernel and not finished.
abbrev pub is_in_flight : ExecutionState → Bool
is_in_flight dispatched = true
is_in_flight running = true
is_in_flight cancel_pending = true
is_in_flight cancelling = true
is_in_flight _ = false

abbrev pub lookup : ℕ → List ExecutionRecord → Option ExecutionRecord
lookup i = find (has_id i)

-- A test on the state of an operation; an unknown operation fails it.
abbrev pub state_is : (ExecutionState → Bool) → Option ExecutionRecord → Bool
state_is p none = false
state_is p (some r) = p r.state

abbrev pub passes : (ExecutionRecord → Bool) → Option ExecutionRecord → Bool
passes p none = false
passes p (some r) = p r

abbrev pub contains : ℕ → List ℕ → Bool
contains i [] = false
contains i (j ∷ q) = j == i || contains i q

abbrev pub is_active : Option ℕ → ℕ → Bool
is_active none i = false
is_active (some j) i = j == i

-- A write is seen by the lookup of its own id, and by no other.
pub lookup-put :
    (i : ℕ) (r : ExecutionRecord) (l : List ExecutionRecord)
    → lookup i (put r l) ≡ (if r.operation_id == i then some r else lookup i l)
unfolding put
lookup-put i r [] = refl
lookup-put i r (x ∷ l) = ground (arith, lookup-put i r l)

pub lookup_id :
    (i : ℕ) (l : List ExecutionRecord) {r : ExecutionRecord}
    → lookup i l ≡ some r
    → r.operation_id ≡ i
lookup_id i [] h = cc
lookup_id i (x ∷ l) {r} h = ground (arith, lookup_id i l {r = r})

pub contains-append : (i : ℕ) (q p : List ℕ) → contains i (q ++ p) ≡ (contains i q || contains i p)
contains-append i [] p = refl
contains-append i (j ∷ q) p = ground (arith, contains-append i q p)

-- No two records have one id, as in a dict.
abbrev pub Unique : List ExecutionRecord → Type 0
Unique [] = Unit
Unique (x ∷ l) = (lookup x.operation_id l ≡ none) × Unique l

pub put-Unique : (r : ExecutionRecord) (l : List ExecutionRecord) → Unique l → Unique (put r l)
unfolding put
put-Unique r [] h = (refl, tt)
put-Unique r (x ∷ l) h = ground (arith, put-Unique r l h.1, lookup-put x.operation_id r l)

-- In such a list the ids of the selected records are those whose record is selected.
pub contains-select :
    (p : ExecutionRecord → Bool) (j : ℕ) (l : List ExecutionRecord)
    → Unique l
    → contains j (map (λ r. r.operation_id) (select p l)) ≡ passes p (lookup j l)
contains-select p j [] h = refl
contains-select p j (x ∷ l) h = ground (arith, contains-select p j l h.1)
