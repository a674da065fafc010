-- ===== src/Launches/Started.antt =====
-- A launch whose source is not covered by a trust record does not run before it is confirmed.
use notebook_launcher.Prelude.{
  ℕ, ◌≡◌, ◌==◌, ◌++◌, String, Bool, true, false, Option, some, List, [], ◌∷◌, refl, arith, find,
  any, ap, sym, ◌∙◌, Bool-cases, inl, inr,
}
use notebook_launcher.Action.{Result, ok, err, value_error, integrity_error, Result-cases}
use notebook_launcher.State.{Db, set_launches, unique}
use notebook_launcher.State.Rows.{pending_trust, LaunchRow}
use notebook_launcher.State.Launches.{
  NewLaunch, launch_row, create_launch, has_launch_id, get_launch,
}
use notebook_launcher.Trust.{Source}
use notebook_launcher.Trust.Flow.{create_challenge}
use notebook_launcher.Pipeline.{Services, World, on_db}
use notebook_launcher.Pipeline.Plan.{Texts}
use notebook_launcher.Pipeline.Reuse.{LaunchRequest}
use notebook_launcher.Pipeline.Rollback.{run_authorized, persisted_request}
use notebook_launcher.Steps.{◌>>=◌ as ◌>>>◌, or_raise, raise_if}
use notebook_launcher.Action.{atomically, pure, ◌>>=◌}
use notebook_launcher.Launches.{Digests, LaunchStart, new_launch, start, start_and_schedule}

find-append_new :
    {A : Type 0} (p : A → Bool) (l : List A) (a : A)
    → any p l ≡ false
    → p a ≡ true
    → find p (l ++ (a ∷ [])) ≡ some a
find-append_new p [] a h e = ground arith
find-append_new p (x ∷ l) a h e = ground (arith, find-append_new p l a)

unconfirmed_refused :
    (x : Services) (texts : Texts) (w : World) (l : LaunchRow) (launch_id : ℕ)
    (source : Option Source) (session_id now : ℕ)
    → find (has_launch_id launch_id) w.db.launches ≡ some l
    → l.state ≡ pending_trust
    → run_authorized x texts launch_id source session_id now w
      ≡ (err (value_error "launch is not authorized"), w)
unfolding run_authorized persisted_request on_db get_launch ◌>>>◌ or_raise raise_if
unconfirmed_refused x texts w l launch_id source session_id now h e = rw (h, e) refl

module _ (launch_id : ℕ) (n : NewLaunch) (now : ℕ) (db : Db) where
  abbrev rows : List LaunchRow
  rows = db.launches ++ (launch_row launch_id n now ∷ [])

  abbrev are_unique : Bool
  are_unique = unique (λ a b. a.id == b.id) rows

  kept : are_unique ≡ true → set_launches rows db ≡ (ok tt, record db { launches = rows })
  unfolding set_launches
  kept e = rw e refl

  refused : are_unique ≡ false → set_launches rows db ≡ (err integrity_error, db)
  unfolding set_launches
  refused e = rw e refl

  -- The rest of `create_launch`.
  abbrev inserted : Result (Unit {0}) × Db → Result ℕ × Db
  inserted q = atomically ((λ (s : Db). q) >>= λ _. pure launch_id) db

  created :
      are_unique ≡ true
      → create_launch launch_id n now db ≡ (ok launch_id, record db { launches = rows })
  unfolding create_launch set_launches
  created e = ap inserted (kept e)

  not_created : are_unique ≡ false → create_launch launch_id n now db ≡ (err integrity_error, db)
  unfolding create_launch set_launches
  not_created e = ap inserted (refused e)

  create_launch_lem :
      (k : ℕ)
      → (create_launch launch_id n now db).0 ≡ ok k
      → (create_launch launch_id n now db).1.launches ≡ rows
  create_launch_lem k h = elim (Bool-cases are_unique) [
    | inl e ↦ ap (λ q. q.1.launches) (created e)
    | inr e ↦ ground (arith, ap (λ q. q.0) (not_created e))
  ]

create_challenge_lem :
    (hash : String → String) (launch_id : ℕ) (s : Source) (nonce : String) (ttl now : ℕ) (db : Db)
    → (create_challenge hash launch_id s nonce ttl now db).1.launches ≡ db.launches
unfolding create_challenge
create_challenge_lem hash launch_id s nonce ttl now db = ground arith

module _ (d : Digests) (launch_id : ℕ) (request : LaunchRequest) (s : Source) (nonce : String)
    (ttl now : ℕ) where
  start_pending :
      (db : Db) (r : LaunchStart × Bool)
      → any (has_launch_id launch_id) db.launches ≡ false
      → (start_and_schedule d launch_id request (some s) false nonce ttl now db).0 ≡ ok r
      → (find
            (has_launch_id launch_id)
            (start_and_schedule d launch_id request (some s) false nonce ttl now db).1.launches
          ≡ some (launch_row launch_id (new_launch d request (some s) false) now))
        × (r.1 ≡ false)
  unfolding start_and_schedule start
  start_pending db r h e =
      let n = new_launch d request (some s) false in
      let made = create_launch launch_id n now db in
      elim (Result-cases made.0) [
        | inl (k, q) ↦ ground (
          arith,
          create_launch_lem launch_id n now db k q,
          create_challenge_lem d.hash launch_id s nonce ttl now made.1,
          find-append_new (has_launch_id launch_id) db.launches (launch_row launch_id n now),
        )
        | inr (f, q) ↦ ground arith
      ]

  -- A launch that was started with a new id and a source that is not covered is not scheduled, and
  -- running it before a confirmation is refused, with no call of a service and no change of the state.
  pub start-run_refused :
      (x : Services) (texts : Texts) (w w' : World) (r : LaunchStart × Bool)
      (source : Option Source) (session_id later : ℕ)
      → any (has_launch_id launch_id) w.db.launches ≡ false
      → start_and_schedule d launch_id request (some s) false nonce ttl now w.db ≡ (ok r, w'.db)
      → (r.1 ≡ false)
        × (run_authorized x texts launch_id source session_id later w'
            ≡ (err (value_error "launch is not authorized"), w'))
  start-run_refused x texts w w' r source session_id later h e =
      let p = start_pending w.db r h (ap (λ q. q.0) e) in
      (
        p.1,
        unconfirmed_refused x texts w' _ launch_id source session_id later
            (ap (λ q. find (has_launch_id launch_id) q.1.launches) (sym e) ∙ p.0) refl,
      )
