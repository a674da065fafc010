-- ===== src/Pipeline/Reused.antt =====
-- Reusing a session and running a launch keep the runtimes confined.
use notebook_launcher.Prelude.{ℕ}
use notebook_launcher.Steps.Preserves.{Preserves}
use notebook_launcher.State.Rows.{SessionState, SessionRow}
use notebook_launcher.Pipeline.{Services}
use notebook_launcher.Pipeline.Reuse.{
  LaunchRequest, reattest_ready_session, reuse_attested, reuse_ready, reuse_in, reuse_orphan,
  follow, reuse_followed, reuse_existing_session, assert_session_compatible, mark_launch_ready,
}
use notebook_launcher.Pipeline.History.{IsConfined, confined_rules}
use notebook_launcher.Pipeline.Confined.{retire_session-IsConfined}

module _ (x : Services) where
  reattest-IsConfined : (s : SessionRow) → Preserves IsConfined (reattest_ready_session x s)
  unfolding reattest_ready_session
  reattest-IsConfined s = search confined_rules depth 30

  compatible-IsConfined :
      (s : SessionRow) (request : LaunchRequest)
      → Preserves IsConfined (assert_session_compatible s request)
  unfolding assert_session_compatible
  compatible-IsConfined s request = search confined_rules

  follow-IsConfined : (session_id : ℕ) → Preserves IsConfined (follow x session_id)
  unfolding follow
  follow-IsConfined session_id = record { holds_after = λ w h. h }

  ready-IsConfined :
      (launch_id : ℕ) (request : LaunchRequest) (s : SessionRow) (now : ℕ)
      → Preserves IsConfined (reuse_ready x launch_id request s now)
  unfolding reuse_ready reuse_attested mark_launch_ready
  ready-IsConfined launch_id request s now =
      search
        (confined_rules, reattest-IsConfined, compatible-IsConfined, retire_session-IsConfined x)
        depth 30

  in-IsConfined :
      (state : SessionState) (launch_id : ℕ) (request : LaunchRequest) (s : SessionRow) (now : ℕ)
      → Preserves IsConfined (reuse_in x state launch_id request s now)
  unfolding reuse_in
  in-IsConfined SessionState.ready launch_id request s now =
      ready-IsConfined launch_id request s now
  in-IsConfined _ launch_id request s now = search confined_rules

  pub reuse-IsConfined :
      (launch_id : ℕ) (request : LaunchRequest) (s : SessionRow) (now : ℕ)
      → Preserves IsConfined (reuse_existing_session x launch_id request s now)
  unfolding reuse_existing_session reuse_orphan reuse_followed
  reuse-IsConfined launch_id request s now =
      search
        (
          confined_rules,
          in-IsConfined,
          follow-IsConfined,
          compatible-IsConfined,
          retire_session-IsConfined x,
        )
        depth 30
