-- ===== src/Leases/Exclusive.antt =====
-- A session has one writer at most: what `acquire` answers on every branch.
use notebook_launcher.Prelude.{
  ℕ, ◌+◌, ◌≤◌, ◌≡◌, String, Bool, true, false, not, ◌&&◌, Option, List, [], ◌∷◌, ◌++◌, ◌==◌, arith,
  any, find, count, update, if◌then◌else◌, refl, Bool-cases, inl, inr, ◌∙◌, ap,
}
use notebook_launcher.Action.{ok, err, writable_agent_busy, integrity_error}
use notebook_launcher.State.{Db, leases_ok, set_leases, unique, same_lease_id, same_held_session}
use notebook_launcher.State.Rows.{LeaseRow, SessionRow}
use notebook_launcher.State.Sessions.{has_session_id}
use notebook_launcher.State.Indexes.{
  any-append, all-append, unique-append, unique-count, unique-update, all-update,
}
use notebook_launcher.Leases.{
  is_stale, is_writable, held_in, reclaimed, released, lease_row, take_lease, acquire,
}

abbrev pub LeasesValid : Db → Type 0
LeasesValid db = leases_ok db.sessions db.leases ≡ true

-- A lease of the session that is neither released nor stale.
abbrev pub blocks : ℕ → ℕ → ℕ → LeaseRow → Bool
blocks stale_after session_id now l = held_in session_id l && not (is_stale stale_after now l)

module _ (stale_after session_id now : ℕ) where
  -- what is left of the session's leases after the reclaiming update
  held-update :
      (l : List LeaseRow)
      → any (held_in session_id) (update (reclaimed stale_after session_id now) (released now) l)
        ≡ any (blocks stale_after session_id now) l
  held-update [] = refl
  held-update (x ∷ l) = ground (arith, held-update l)

  update-leases_ok :
      (sessions : List SessionRow) (l : List LeaseRow)
      → leases_ok sessions l ≡ true
      → leases_ok sessions (update (reclaimed stale_after session_id now) (released now) l) ≡ true
  unfolding leases_ok
  update-leases_ok sessions l h = ground (
    arith,
    unique-update same_lease_id (reclaimed stale_after session_id now) (released now)
        (λ x y e. ground arith) l,
    unique-update same_held_session (reclaimed stale_after session_id now) (released now)
        (λ x y e. ground arith) l,
    all-update (λ x. any (λ s. s.id == x.session_id) sessions)
        (reclaimed stale_after session_id now) (released now) (λ x. ground arith) l,
  )

  module _ (lease_id : ℕ) (label : Option String) where
    same_held_any :
        (l : List LeaseRow)
        → any (λ x. same_held_session x (lease_row lease_id session_id label now)) l
          ≡ any (held_in session_id) l
    same_held_any [] = refl
    same_held_any (x ∷ l) = ground (arith, same_held_any l)

    same_id_any :
        (l : List LeaseRow)
        → any
            (λ x. same_lease_id x (lease_row lease_id session_id label now))
            (update (reclaimed stale_after session_id now) (released now) l)
          ≡ any (λ x. x.id == lease_id) l
    same_id_any [] = refl
    same_id_any (x ∷ l) = ground (arith, same_id_any l)

    has_session :
        (sessions : List SessionRow)
        → is_writable (find (has_session_id session_id) sessions) ≡ true
        → any (λ s. s.id == session_id) sessions ≡ true
    has_session [] h = cc
    has_session (s ∷ l) h = ground (arith, has_session l)

    -- the constraints after the insertion
    insert_leases_ok :
        (sessions : List SessionRow) (l : List LeaseRow)
        → leases_ok sessions l ≡ true
        → is_writable (find (has_session_id session_id) sessions) ≡ true
        → any (λ x. x.id == lease_id) l ≡ false
        → leases_ok sessions (
            update (reclaimed stale_after session_id now) (released now) l
            ++ lease_row lease_id session_id label now ∷ [])
          ≡ not (any (blocks stale_after session_id now) l)
    insert_leases_ok sessions l v w fresh =
        let l' = update (reclaimed stale_after session_id now) (released now) l in
        let kept = update-leases_ok sessions l v in
        unfold leases_ok in
        ground (
          arith,
          kept,
          held-update l,
          same_held_any l',
          same_id_any l,
          has_session sessions w,
          unique-append same_lease_id l' (lease_row lease_id session_id label now),
          unique-append same_held_session l' (lease_row lease_id session_id label now),
          all-append (λ x. any (λ s. s.id == x.session_id) sessions) l'
              (lease_row lease_id session_id label now ∷ []),
        )

set_leases_lem :
    (l : List LeaseRow) (db : Db)
    → (leases_ok db.sessions l ≡ true → set_leases l db ≡ (ok tt, record db { leases = l }))
      × (leases_ok db.sessions l ≡ false → set_leases l db ≡ (err integrity_error, db))
unfolding set_leases
set_leases_lem l db = (λ h. rw h, λ h. rw h)

-- The database after a granted lease: stale leases of the session are released, and the new lease is
-- the last row.
abbrev pub with_lease : ℕ → ℕ → ℕ → Option String → ℕ → Db → Db
with_lease stale_after session_id lease_id label now db = record db {
  leases =
      update (reclaimed stale_after session_id now) (released now) db.leases
      ++ lease_row lease_id session_id label now ∷ [];
}

module _ (stale_after session_id lease_id : ℕ) (label : Option String) (now : ℕ) (db : Db) where
  -- Nobody can write a session that is not there, not ready or read-only.
  pub acquire_unwritable :
      is_writable (find (has_session_id session_id) db.sessions) ≡ false
      → acquire stale_after session_id lease_id label now db ≡ (err writable_agent_busy, db)
  unfolding acquire
  acquire_unwritable h = ground arith

  take_lease_granted :
      leases_ok db.sessions (with_lease stale_after session_id lease_id label now db).leases ≡ true
      → take_lease stale_after session_id lease_id label now db
        ≡ (ok lease_id, with_lease stale_after session_id lease_id label now db)
  unfolding take_lease
  take_lease_granted h = ground (
    arith,
    (set_leases_lem (with_lease stale_after session_id lease_id label now db).leases (record db {
      leases = update (reclaimed stale_after session_id now) (released now) db.leases;
    })).0
        h,
  )

  take_lease_refused :
      leases_ok db.sessions (with_lease stale_after session_id lease_id label now db).leases ≡ false
      → (take_lease stale_after session_id lease_id label now db).0 ≡ err integrity_error
  unfolding take_lease
  take_lease_refused h = ground (
    arith,
    (set_leases_lem (with_lease stale_after session_id lease_id label now db).leases (record db {
      leases = update (reclaimed stale_after session_id now) (released now) db.leases;
    })).1
        h,
  )

  -- In a database that meets its constraints, for a writable session and a new id, the lease is granted exactly if no lease of the session
  -- blocks it, that is, none is held with a sign of life within `stale_after`; the stale leases of the
  -- session are then released. A refusal is `WritableAgentBusy` and writes nothing.
  pub acquire_exact :
      LeasesValid db
      → is_writable (find (has_session_id session_id) db.sessions) ≡ true
      → any (λ x. x.id == lease_id) db.leases ≡ false
      → acquire stale_after session_id lease_id label now db ≡ (
          if any (blocks stale_after session_id now) db.leases
          then (err writable_agent_busy, db)
          else (ok lease_id, with_lease stale_after session_id lease_id label now db))
  unfolding acquire
  acquire_exact v w fresh =
      let fits =
        insert_leases_ok stale_after session_id now lease_id label db.sessions db.leases v w
          fresh in
      elim (Bool-cases (any (blocks stale_after session_id now) db.leases)) [
        | inl e ↦ ground (arith, take_lease_refused (fits ∙ ap not e))
        | inr e ↦ ground (arith, take_lease_granted (fits ∙ ap not e))
      ]

-- While the constraints hold, a session has one lease at most that is not released.
pub one_held_lease :
    (session_id : ℕ) (db : Db) → LeasesValid db → count (held_in session_id) db.leases ≤ 1
one_held_lease session_id db v =
    unique-count same_held_session (held_in session_id) (λ a b p q. ground arith) db.leases
      (held_unique db.sessions db.leases v)
  where
    held_unique :
        (sessions : List SessionRow) (l : List LeaseRow)
        → leases_ok sessions l ≡ true
        → unique same_held_session l ≡ true
    held_unique sessions l h = unfold leases_ok in ground arith

-- A request with a new id keeps the constraints, whatever it answers.
pub acquire-LeasesValid :
    (stale_after session_id lease_id : ℕ) (label : Option String) (now : ℕ) (db : Db)
    → LeasesValid db
    → any (λ x. x.id == lease_id) db.leases ≡ false
    → LeasesValid (acquire stale_after session_id lease_id label now db).1
acquire-LeasesValid stale_after session_id lease_id label now db v fresh =
    elim (Bool-cases (is_writable (find (has_session_id session_id) db.sessions))) [
      | inl w ↦
          let fits =
            insert_leases_ok stale_after session_id now lease_id label db.sessions db.leases v w
              fresh in
          rw (acquire_exact stale_after session_id lease_id label now db v w fresh)
            (elim (Bool-cases (any (blocks stale_after session_id now) db.leases)) [
              | inl e ↦ rw e v
              | inr e ↦ rw e (fits ∙ ap not e)
            ])
      | inr w ↦ rw (acquire_unwritable stale_after session_id lease_id label now db w) v
    ]

acquire_granted :
    (stale_after session_id lease_id now : ℕ) (label : Option String) (db : Db)
    → LeasesValid db
    → is_writable (find (has_session_id session_id) db.sessions) ≡ true
    → any (λ x. x.id == lease_id) db.leases ≡ false
    → any (blocks stale_after session_id now) db.leases ≡ false
    → acquire stale_after session_id lease_id label now db
      ≡ (ok lease_id, with_lease stale_after session_id lease_id label now db)
acquire_granted stale_after session_id lease_id now label db v w fresh free =
    ground (arith, acquire_exact stale_after session_id lease_id label now db v w fresh)

acquire_blocked :
    (stale_after session_id lease_id : ℕ) (label : Option String) (now : ℕ) (db : Db)
    → LeasesValid db
    → is_writable (find (has_session_id session_id) db.sessions) ≡ true
    → any (λ x. x.id == lease_id) db.leases ≡ false
    → any (blocks stale_after session_id now) db.leases ≡ true
    → acquire stale_after session_id lease_id label now db ≡ (err writable_agent_busy, db)
acquire_blocked stale_after session_id lease_id label now db v w fresh held =
    ground (arith, acquire_exact stale_after session_id lease_id label now db v w fresh)

blocks-with_lease :
    (stale_after session_id lease_id : ℕ) (label : Option String) (now later : ℕ) (db : Db)
    → later ≤ now + stale_after
    → any
        (blocks stale_after session_id later)
        (with_lease stale_after session_id lease_id label now db).leases
      ≡ true
blocks-with_lease stale_after session_id lease_id label now later db soon = ground (
  arith,
  any-append (blocks stale_after session_id later)
      (update (reclaimed stale_after session_id now) (released now) db.leases)
      (lease_row lease_id session_id label now ∷ []),
)

-- In a database that meets its constraints, after a lease with a new id was granted to a writable
-- session at `now`, every request with a new id for the same session up to `stale_after` later is
-- refused and writes nothing, as long as no statement comes between.
pub acquire_exclusive :
    (stale_after session_id first second now later : ℕ) (a b : Option String) (db : Db)
    → LeasesValid db
    → is_writable (find (has_session_id session_id) db.sessions) ≡ true
    → any (λ x. x.id == first) db.leases ≡ false
    → any (blocks stale_after session_id now) db.leases ≡ false
    → later ≤ now + stale_after
    → any (λ x. x.id == second) (acquire stale_after session_id first a now db).1.leases ≡ false
    → acquire stale_after session_id second b later
        (acquire stale_after session_id first a now db).1
      ≡ (err writable_agent_busy, (acquire stale_after session_id first a now db).1)
acquire_exclusive stale_after session_id first second now later a b db v w fresh free soon new =
    let db' = (acquire stale_after session_id first a now db).1 in
    let granted = acquire_granted stale_after session_id first now a db v w fresh free in
    acquire_blocked stale_after session_id second b later db'
      (acquire-LeasesValid stale_after session_id first a now db v fresh) (rw granted w) new
      (rw granted (blocks-with_lease stale_after session_id first a now later db soon))
