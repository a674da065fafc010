-- ===== src/Leases/Upkeep.antt =====
-- Heartbeats, releases and the reconciliation of leases.
use notebook_launcher.Prelude.{
  ℕ, ◌+◌, ◌≤◌, ◌<◌, ◌≡◌, ◌⊎◌, Bool, true, false, not, ◌&&◌, Option, none, some, List, [], ◌∷◌, ◌==◌,
  arith, any, find, find-eq-none, count, update, coalesce, or_else, refl, is_none, is_some, ◌≢◌,
  Bool-cases, Option-cases, inl, inr, if◌then◌else◌,
}
use notebook_launcher.Action.{Result, ok}
use notebook_launcher.State.{Db, leases_ok, unique, same_lease_id, is_live}
use notebook_launcher.State.Rows.{LeaseRow, SessionRow}
use notebook_launcher.State.Indexes.{unique-count}
use notebook_launcher.Leases.{
  held_in, is_held, is_stale, is_dead, is_expired, heartbeat, invalidate_session, reconcile,
}
use notebook_launcher.Leases.Exclusive.{LeasesValid, blocks}

-- The lease has given no sign of life within `stale_after`, or its session has ended.
abbrev pub IsOver : ℕ → ℕ → List SessionRow → LeaseRow → Type 0
IsOver stale_after now sessions l =
    (or_else l.heartbeat_at l.acquired_at + stale_after < now)
    ⊎ (any (λ s. (s.id == l.session_id) && not (is_live s.state)) sessions ≡ true)

-- The lease has given one, and no session that has ended is its own.
abbrev pub IsLasting : ℕ → ℕ → List SessionRow → LeaseRow → Type 0
IsLasting stale_after now sessions l =
    (now ≤ or_else l.heartbeat_at l.acquired_at + stale_after)
    × (any (λ s. (s.id == l.session_id) && not (is_live s.state)) sessions ≡ false)

-- What becomes of a lease: one that is released or lasting stays as it was, and one that is held and
-- over is released now.
abbrev pub BecomesOf : ℕ → ℕ → List SessionRow → LeaseRow → LeaseRow → Type 0
BecomesOf stale_after now sessions old new =
    ((new ≡ old) × ((is_some old.released_at ≡ true) ⊎ IsLasting stale_after now sessions old))
    ⊎ ((new ≡ record old { released_at = some now })
        × (old.released_at ≡ none)
        × IsOver stale_after now sessions old)

-- So for each lease, in order, and the number of those that were released.
abbrev pub AllBecome : ℕ → ℕ → List SessionRow → List LeaseRow → List LeaseRow → Type 0
AllBecome stale_after now sessions [] [] = Unit
AllBecome stale_after now sessions (x ∷ l) (y ∷ m) =
    BecomesOf stale_after now sessions x y × AllBecome stale_after now sessions l m
AllBecome stale_after now sessions _ _ = ⊥

abbrev pub number_held : List LeaseRow → ℕ
number_held l = count (λ x. is_none x.released_at) l

module _ (stale_after now : ℕ) (sessions : List SessionRow) where
  abbrev after : List LeaseRow → List LeaseRow
  after l =
      update (is_expired stale_after now sessions)
        (λ x. record x { released_at = coalesce x.released_at (some now) }) l

  becomes :
      (x : LeaseRow)
      → BecomesOf stale_after now sessions x (
          if is_expired stale_after now sessions x
          then record x { released_at = coalesce x.released_at (some now) }
          else x)
  becomes x = elim (Option-cases x.released_at) [
    | inr (t, e) ↦ inl (ground arith, inl (ground arith))
    | inl e ↦ elim (Bool-cases (is_stale stale_after now x)) [
      | inl f ↦ inr (ground arith, e, inl (ground arith))
      | inr f ↦ elim (Bool-cases (is_dead sessions x.session_id)) [
        | inl g ↦ inr (ground arith, e, inr g)
        | inr g ↦ inl (ground arith, inr (ground arith, g))
      ]
    ]
  ]

  all_become : (l : List LeaseRow) → AllBecome stale_after now sessions l (after l)
  all_become [] = tt
  all_become (x ∷ l) = (becomes x, all_become l)

  fewer_held :
      (l : List LeaseRow)
      → number_held l ≡ number_held (after l) + count (is_expired stale_after now sessions) l
  fewer_held [] = refl
  fewer_held (x ∷ l) = ground (
    arith,
    fewer_held l,
    Bool-cases (is_stale stale_after now x),
    Bool-cases (is_dead sessions x.session_id),
    Option-cases x.released_at,
  )

-- The reconciliation releases each held lease that has given no sign of life within `stale_after` or
-- whose session has ended, leaves every other lease as it was, answers how many leases fewer are
-- held, and does not touch the sessions.
pub reconcile_exact :
    (stale_after now : ℕ) (db : Db)
    → let (answer, db') = reconcile stale_after now db in
      AllBecome stale_after now db.sessions db.leases db'.leases
      × ((released : ℕ) × (answer ≡ ok released)
          × (number_held db.leases ≡ number_held db'.leases + released))
      × (db'.sessions ≡ db.sessions)
unfolding reconcile
reconcile_exact stale_after now db = (
  all_become stale_after now db.sessions db.leases,
  (
    count (is_expired stale_after now db.sessions) db.leases,
    refl,
    fewer_held stale_after now db.sessions db.leases,
  ),
  refl,
)

-- After `invalidate_session` no lease of the session is held, and the held lease of every other
-- session is as it was.
pub invalidate_leases_exact :
    (session_id now other : ℕ) (db : Db)
    → (other == session_id) ≡ false
    → (count (held_in session_id) (invalidate_session session_id now db).1.leases ≡ 0)
      × (find (held_in other) (invalidate_session session_id now db).1.leases
          ≡ find (held_in other) db.leases)
unfolding invalidate_session
invalidate_leases_exact session_id now other db ne = (gone db.leases, others db.leases)
  where
    gone :
        (l : List LeaseRow)
        → count (held_in session_id) (
            update
              (λ x. x.session_id == session_id)
              (λ x. record x { released_at = coalesce x.released_at (some now) })
              l)
          ≡ 0
    gone [] = refl
    gone (x ∷ l) = ground (arith, gone l)

    others :
        (l : List LeaseRow)
        → find (held_in other) (
            update
              (λ x. x.session_id == session_id)
              (λ x. record x { released_at = coalesce x.released_at (some now) })
              l)
          ≡ find (held_in other) l
    others [] = refl
    others (x ∷ l) = ground (arith, others l)

held-id :
    (lease_id : ℕ) (l : List LeaseRow) {r : LeaseRow}
    → find (is_held lease_id) l ≡ some r
    → (count (is_held lease_id) l ≢ 0)
      × ((session_id later stale_after now : ℕ)
          → r.session_id ≡ session_id
          → later ≤ now + stale_after
          → any
              (blocks stale_after session_id later)
              (update (is_held lease_id) (λ x. record x { heartbeat_at = some now }) l)
            ≡ true)
held-id lease_id [] e = cc
held-id lease_id (x ∷ l) {r} e = elim (Bool-cases (is_held lease_id x)) [
  | inl h ↦ (ground arith, λ s later stale now same soon. ground arith)
  | inr h ↦
      let (some_row, rest) = held-id lease_id l {r = r} (ground arith) in
      (
        ground arith,
        λ s later stale now same soon. ground (arith, rest s later stale now same soon),
      )
]

lease_id_unique :
    (sessions : List SessionRow) (l : List LeaseRow)
    → leases_ok sessions l ≡ true
    → unique same_lease_id l ≡ true
unfolding leases_ok
lease_id_unique sessions l h = ground arith

-- What a heartbeat of the lease answers, and what blocks its session `later`.
abbrev pub Beats : ℕ → ℕ → Option LeaseRow → Result Bool × Db → Type 0
Beats stale_after later none (answer, db) = answer ≡ ok false
Beats stale_after later (some r) (answer, db) =
    (answer ≡ ok true) × (any (blocks stale_after r.session_id later) db.leases ≡ true)

-- In a database that meets its constraints, a heartbeat of a held lease answers true, and up to `stale_after` later the lease then blocks every
-- other request for its session; a heartbeat of a lease that is not held answers false.
pub heartbeat_exact :
    (stale_after lease_id now later : ℕ) (db : Db)
    → LeasesValid db
    → later ≤ now + stale_after
    → Beats stale_after later (find (is_held lease_id) db.leases) (heartbeat lease_id now db)
unfolding heartbeat
heartbeat_exact stale_after lease_id now later db v soon =
    elim (Option-cases (find (is_held lease_id) db.leases)) [
      | inl e ↦ rw e (ground (arith, find-eq-none (is_held lease_id) db.leases e))
      | inr (r, e) ↦
          let (some_row, rest) = held-id lease_id db.leases {r = r} e in
          let one =
            unique-count same_lease_id (is_held lease_id) (λ a b p q. ground arith) db.leases
              (lease_id_unique db.sessions db.leases v) in
          rw e (ground (arith, one, some_row), rest r.session_id later stale_after now refl soon)
    ]
