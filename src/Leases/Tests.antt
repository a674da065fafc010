-- ===== src/Leases/Tests.antt =====
-- The lease theorems at a concrete database.
use notebook_launcher.Prelude.{ℕ, ◌+◌, ◌≡◌, refl, true, false, none, some, [], ◌∷◌, any, ◌==◌}
use notebook_launcher.Action.{ok, err, writable_agent_busy}
use notebook_launcher.State.{Db, empty, leases_ok, set_leases}
use notebook_launcher.State.Rows.{AgentMode, SessionState, SessionRow, LeaseRow}
use notebook_launcher.Leases.{acquire, reconcile, take_lease}
use notebook_launcher.Leases.Exclusive.{LeasesValid, acquire_exact, with_lease}
use notebook_launcher.Leases.Upkeep.{AllBecome, number_held, reconcile_exact}

abbrev ready_session : SessionRow
ready_session = record {
  id = 5;
  workspace_id = 1;
  runtime_id = "c1";
  host_port = 9000;
  gpu_enabled = false;
  agent_mode = AgentMode.write;
  sandbox_verified = true;
  network_verified = true;
  collaboration_ready = true;
  state = SessionState.ready;
  notebook_url = "http://127.0.0.1:9000";
  started_at = 10;
  stopped_at = none;
}

abbrev lease : LeaseRow
lease = record {
  id = 20;
  session_id = 5;
  client_label = none;
  acquired_at = 100;
  heartbeat_at = some 110;
  released_at = none;
}

abbrev db : Db
db = record empty { sessions = ready_session ∷ []; leases = lease ∷ [] }

db-LeasesValid : LeasesValid db
unfolding leases_ok
db-LeasesValid = refl

-- 30 after the heartbeat at 110 the lease is stale, and is reclaimed.
acquire_exact_example : acquire 30 5 21 none 141 db ≡ (ok 21, with_lease 30 5 21 none 141 db)
acquire_exact_example = acquire_exact 30 5 21 none 141 db db-LeasesValid refl refl

-- At 140 it is not.
acquire_in_time : acquire 30 5 21 none 140 db ≡ (err writable_agent_busy, db)
acquire_in_time = acquire_exact 30 5 21 none 140 db db-LeasesValid refl refl

acquire_new : any (λ x. x.id == 22) (acquire 30 5 21 none 141 db).1.leases ≡ false
unfolding acquire take_lease set_leases leases_ok
acquire_new = refl

-- At 150 the lease is stale.
reconcile_exact_example :
    AllBecome 30 150 (ready_session ∷ []) (lease ∷ []) (reconcile 30 150 db).1.leases
    × ((released : ℕ) × ((reconcile 30 150 db).0 ≡ ok released)
        × (number_held (lease ∷ []) ≡ number_held (reconcile 30 150 db).1.leases + released))
    × ((reconcile 30 150 db).1.sessions ≡ ready_session ∷ [])
reconcile_exact_example = reconcile_exact 30 150 db
