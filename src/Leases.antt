-- ===== src/Leases.antt =====
-- leases.py: the writable leases of the sessions. A lease is stale when its last sign of life is more
-- than `stale_after` before `now`: the code's `COALESCE(heartbeat_at, acquired_at) < now - stale_after`
-- is written with a sum, which does not stop at 0. Releasing a lease takes a row out of the unique
-- index, so such an update can break no constraint.
pub mod Exclusive
pub mod Upkeep
mod Tests
use notebook_launcher.Prelude.{
  ℕ, ◌+◌, String, Bool, true, false, not, ◌&&◌, ◌||◌, Option, none, some, List, [], ◌∷◌, ◌++◌, ◌==◌,
  ltb, coalesce, or_else, is_none, any, find, count, update, if◌then◌else◌,
}
use notebook_launcher.Action.{
  Action, ok, err, writable_agent_busy, integrity_error, pure, gets, raise_if, modify, atomically,
  ◌>>=◌, ◌>>◌,
}
use notebook_launcher.State.{Db, is_live, set_leases}
use notebook_launcher.State.Rows.{
  AgentMode, write, readonly, SessionState, ready, SessionRow, LeaseRow,
}
use notebook_launcher.State.Sessions.{has_session_id}

abbrev pub last_seen : LeaseRow → ℕ
last_seen l = or_else l.heartbeat_at l.acquired_at

abbrev pub is_stale : ℕ → ℕ → LeaseRow → Bool
is_stale stale_after now l = ltb (last_seen l + stale_after) now

abbrev pub is_ready : SessionState → Bool
is_ready ready = true
is_ready _ = false

abbrev pub is_write : AgentMode → Bool
is_write write = true
is_write readonly = false

-- The session exists, is ready and lets an agent write.
abbrev pub is_writable : Option SessionRow → Bool
is_writable none = false
is_writable (some s) = is_ready s.state && is_write s.agent_mode

-- `WHERE session_id = ? AND released_at IS NULL`
abbrev pub held_in : ℕ → LeaseRow → Bool
held_in session_id l = l.session_id == session_id && is_none l.released_at

-- The leases that `acquire` reclaims.
abbrev pub reclaimed : ℕ → ℕ → ℕ → LeaseRow → Bool
reclaimed stale_after session_id now l = held_in session_id l && is_stale stale_after now l

abbrev pub released : ℕ → LeaseRow → LeaseRow
released now l = record l { released_at = some now }

abbrev pub lease_row : ℕ → ℕ → Option String → ℕ → LeaseRow
lease_row lease_id session_id client_label now = record {
  id = lease_id;
  session_id = session_id;
  client_label = client_label;
  acquired_at = now;
  heartbeat_at = some now;
  released_at = none;
}

-- `except sqlite3.IntegrityError: raise WritableAgentBusy()`
abbrev pub busy_on_integrity : Action Db ℕ → Action Db ℕ
busy_on_integrity m db =
    let (r, db') = m db in
    elim r [
      | ok a ↦ (ok a, db')
      | err e ↦ (err (elim e [ integrity_error ↦ writable_agent_busy | other ↦ other ]), db')
    ]

-- The statements of `acquire` behind the test of the session.
unfoldable pub take_lease : ℕ → ℕ → ℕ → Option String → ℕ → Action Db ℕ
take_lease stale_after session_id lease_id client_label now = do
  modify (λ db. record db {
    leases = update (reclaimed stale_after session_id now) (released now) db.leases;
  })
  rows ← gets (λ db. db.leases)
  set_leases (rows ++ lease_row lease_id session_id client_label now ∷ [])
  pure lease_id

-- `lease_id` is the `uuid4()`.
unfoldable pub acquire : ℕ → ℕ → ℕ → Option String → ℕ → Action Db ℕ
acquire stale_after session_id lease_id client_label now = busy_on_integrity (
    atomically (do
      session ← gets (λ db. find (has_session_id session_id) db.sessions)
      raise_if (not (is_writable session)) writable_agent_busy
      take_lease stale_after session_id lease_id client_label now))

-- `WHERE id = ? AND released_at IS NULL`
abbrev pub is_held : ℕ → LeaseRow → Bool
is_held lease_id l = l.id == lease_id && is_none l.released_at

unfoldable pub release : ℕ → ℕ → Action Db (Unit {0})
release lease_id now =
    atomically
      (modify (λ db. record db { leases = update (is_held lease_id) (released now) db.leases }))

unfoldable pub heartbeat : ℕ → ℕ → Action Db Bool
heartbeat lease_id now = atomically (do
  rows ← gets (λ db. db.leases)
  modify (λ db. record db {
    leases = update (is_held lease_id) (λ l. record l { heartbeat_at = some now }) rows;
  })
  pure (count (is_held lease_id) rows == 1))

unfoldable pub invalidate_session : ℕ → ℕ → Action Db (Unit {0})
invalidate_session session_id now = atomically (
    modify (λ db. record db {
      leases =
          update (λ l. l.session_id == session_id)
            (λ l. record l { released_at = coalesce l.released_at (some now) }) db.leases;
    }))

-- `session_id IN (SELECT id FROM notebook_sessions WHERE state NOT IN (…))`
abbrev pub is_dead : List SessionRow → ℕ → Bool
is_dead sessions session_id = any (λ s. s.id == session_id && not (is_live s.state)) sessions

abbrev pub is_expired : ℕ → ℕ → List SessionRow → LeaseRow → Bool
is_expired stale_after now sessions l =
    is_none l.released_at && (is_stale stale_after now l || is_dead sessions l.session_id)

-- The answer is the number of leases that were released.
unfoldable pub reconcile : ℕ → ℕ → Action Db ℕ
reconcile stale_after now = atomically (do
  rows ← gets (λ db. db.leases)
  sessions ← gets (λ db. db.sessions)
  modify (λ db. record db {
    leases =
        update (is_expired stale_after now sessions)
          (λ l. record l { released_at = coalesce l.released_at (some now) }) rows;
  })
  pure (count (is_expired stale_after now sessions) rows))
