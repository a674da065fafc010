-- ===== src/Execution/Sessions.antt =====
-- `invalidate_session` and `expire`: every operation that they are for, and no other.
use notebook_launcher.Prelude.{
  ℕ, ◌≡◌, Bool, true, ◌&&◌, not, Option, none, some, List, [], ◌∷◌, arith, Option-cases, inl, inr,
  refl, ◌==◌, if◌then◌else◌, select, map,
}
use notebook_launcher.Action.{is_ok}
use notebook_launcher.Execution.{
  cancelled, is_terminal, ExecutionRecord, Broker, finish, finish_each, finished,
  invalidate_session,
}
use notebook_launcher.Execution.Records.{
  lookup, contains, lookup-put, lookup_id, passes, Unique, contains-select,
}
use notebook_launcher.Execution.Serial.{IsValid}
use notebook_launcher.Execution.Queue.{AllKnown}
use notebook_launcher.Execution.Outcomes.{finish_lem}

abbrev pub finish_opt : ℕ → Option ExecutionRecord → Option ExecutionRecord
finish_opt now none = none
finish_opt now (some r) = some (finished cancelled now r)

finish_known :
    (i now : ℕ) (b : Broker) (r : ExecutionRecord)
    → lookup i b.records ≡ some r
    → is_ok (finish i cancelled now b).0 ≡ true
unfolding finish is_terminal
finish_known i now b r e = ground arith

-- one round of the loop in `invalidate_session`
finish_each_cons :
    (i : ℕ) (ids : List ℕ) (now : ℕ) (b : Broker)
    → is_ok (finish i cancelled now b).0 ≡ true
    → (finish_each (i ∷ ids) now b).1 ≡ (finish_each ids now (finish i cancelled now b).1).1
unfolding finish_each
finish_each_cons i ids now b h = ground arith

lookup-finish :
    (i now j : ℕ) (b : Broker) (r : ExecutionRecord)
    → lookup i b.records ≡ some r
    → lookup j (finish i cancelled now b).1.records
      ≡ (if i == j then finish_opt now (lookup j b.records) else lookup j b.records)
unfolding is_terminal
lookup-finish i now j b r e =
    rw (finish_lem i now cancelled b r e refl)
      (rw lookup-put (ground (arith, lookup_id i b.records e)))

lookup-finish_each :
    (ids : List ℕ) (now j : ℕ) (b : Broker)
    → AllKnown b.records ids
    → lookup j (finish_each ids now b).1.records
      ≡ (if contains j ids then finish_opt now (lookup j b.records) else lookup j b.records)
lookup-finish_each [] now j b h = unfold finish_each in refl
lookup-finish_each (i ∷ ids) now j b h = elim (Option-cases (lookup i b.records)) [
  | inl e ↦ absurd (ground (arith, h i))
  | inr (r, e) ↦
      let b' = (finish i cancelled now b).1 in
      rw (finish_each_cons i ids now b (finish_known i now b r e)) (
        ground (
          arith,
          lookup-finish i now j b r e,
          lookup-finish_each ids now j b' (λ x. ground (arith, h x, lookup-finish i now x b r e)),
        ))
]

-- A record that `invalidate_session` is for.
abbrev pub of_session : ℕ → ExecutionRecord → Bool
of_session session_id r = r.session_id == session_id && not (is_terminal r.state)

AllKnown-select :
    (p : ExecutionRecord → Bool) (b : Broker)
    → Unique b.records
    → AllKnown b.records (map (λ r. r.operation_id) (select p b.records))
AllKnown-select p b u j h = ground (arith, contains-select p j b.records u)

-- In a broker that meets its invariant, invalidating a session cancels each of its operations that is not finished, and leaves every other
-- operation as it was.
pub invalidate_session_exact :
    (session_id now j : ℕ) (b : Broker)
    → IsValid b
    → lookup j (invalidate_session session_id now b).1.records ≡ (
        if passes (of_session session_id) (lookup j b.records)
        then finish_opt now (lookup j b.records)
        else lookup j b.records)
unfolding invalidate_session
invalidate_session_exact session_id now j b v =
    let p = of_session session_id in
    ground (
      arith,
      lookup-finish_each (map (λ r. r.operation_id) (select p b.records)) now j b
          (AllKnown-select p b v.keys),
      contains-select p j b.records v.keys,
    )
