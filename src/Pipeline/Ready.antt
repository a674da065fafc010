-- ===== src/Pipeline/Ready.antt =====
-- What a launch that returns leaves in the database: its row is ready and names the workspace and the
-- session of the result.
use notebook_launcher.Prelude.{
  ℕ, ◌≡◌, ◌==◌, ◌&&◌, ◌+◌, String, Bool, true, Option, none, some, List, [], ◌∷◌, refl, arith, any,
  count, update, opt_eq, inl, inr, Bool-cases,
}
use notebook_launcher.Action.{Action}
use notebook_launcher.Steps.{◌>>◌, pure}
use notebook_launcher.Steps.Ends.{
  Ends, Ends-intro, Ends-elim, Ends-then, Ends-bind, Ends-result, ends_rules,
}
use notebook_launcher.State.{Db}
use notebook_launcher.State.Rows.{LaunchState, LaunchRow, SessionState, SessionRow}
use notebook_launcher.State.Launches.{
  LaunchUpdate, launch_in, apply_update, update_launch_state, same_launch_state,
}
use notebook_launcher.Pipeline.{Services, World, on_db}
use notebook_launcher.Pipeline.Reuse.{
  LaunchRequest, PipelineLaunchResult, with_session, mark_launch_ready, reuse_attested, reuse_ready,
  reuse_in, reuse_orphan, reuse_followed, reuse_existing_session,
}
use notebook_launcher.Pipeline.Bindings.{Frame, in_world}

-- The row is ready and names this workspace and this session.
abbrev pub is_ready_row : ℕ → ℕ → ℕ → LaunchRow → Bool
is_ready_row launch_id workspace_id session_id l =
    l.id == launch_id
    && same_launch_state l.state LaunchState.ready
    && opt_eq l.workspace_id (some workspace_id)
    && opt_eq l.session_id (some session_id)

abbrev pub IsMarked : ℕ → ℕ → ℕ → Db → Type 0
IsMarked launch_id workspace_id session_id db =
    any (is_ready_row launch_id workspace_id session_id) db.launches ≡ true

abbrev pub IsLaunched : ℕ → PipelineLaunchResult → World → Type 0
IsLaunched launch_id r w =
    (r.launch_id ≡ launch_id) × IsMarked launch_id r.workspace_id r.session_id w.db

any-update :
    {A : Type 0} (p q : A → Bool) (f : A → A)
    → ((a : A) → p a ≡ true → q (f a) ≡ true)
    → (rows : List A) (n : ℕ) → count p rows ≡ 1 + n
    → any q (update p f rows) ≡ true
any-update p q f h [] n e = ground arith
any-update p q f h (a ∷ rows) n e = elim (Bool-cases (p a)) [
  | inl t ↦ ground (arith, h a t)
  | inr t ↦ ground (arith, any-update p q f h rows n)
]

module _ (launch_id workspace_id session_id : ℕ) (message : String) (now : ℕ) where
  abbrev pub ready_update : LaunchUpdate
  ready_update = with_session LaunchState.ready workspace_id session_id message

  updated-is_ready_row :
      (l : LaunchRow)
      → launch_in launch_id (LaunchState.starting ∷ []) l ≡ true
      → is_ready_row launch_id workspace_id session_id (apply_update ready_update now l) ≡ true
  updated-is_ready_row l h = ground arith

  pub marked :
      Ends
        (λ _ w. IsMarked launch_id workspace_id session_id w.db)
        (on_db (update_launch_state launch_id (LaunchState.starting ∷ []) ready_update now))
  unfolding on_db update_launch_state
  marked = Ends-intro _ λ w u h. ground (
    arith,
    any-update (launch_in launch_id (LaunchState.starting ∷ []))
        (is_ready_row launch_id workspace_id session_id) (apply_update ready_update now)
        updated-is_ready_row w.db.launches 0,
  )

-- Of a reuse: if there is a result, the launch is ready as it says.
abbrev pub Reused : ℕ → Option PipelineLaunchResult → World → Type 0
Reused launch_id none w = Unit
Reused launch_id (some r) w = IsLaunched launch_id r w

-- The same of a part of `run` that has local variables.
abbrev pub Launched : ℕ → PipelineLaunchResult → Frame → Type 0
Launched launch_id r f = IsLaunched launch_id r f.0

pub Ends-in_world :
    {A : Type 0} (Q : A → World → Type 0) (m : Action World A)
    → Ends Q m
    → Ends (λ a (f : Frame). Q a f.0) (in_world m)
unfolding in_world
Ends-in_world Q m h = Ends-intro _ λ f a e. Ends-elim m h f.0 a e

module _ (x : Services) (launch_id : ℕ) where
  none-Reused : {S : Type 0} (m : Action World S) → Ends (Reused launch_id) (m >> pure none)
  unfolding pure
  none-Reused m = Ends-bind m _ λ a. record { after = λ w. tt }

  attested-Reused :
      (s : SessionRow) (now : ℕ) → Ends (Reused launch_id) (reuse_attested x launch_id s now)
  unfolding reuse_attested mark_launch_ready
  attested-Reused s now = Ends-bind _ _ λ r.
      Ends-result _ _ _
        (λ u.
          Ends-then _ _ (marked launch_id s.workspace_id s.id _ now)
            λ u w h. unfold pure in (refl, h))
        (λ e. none-Reused _)

  ready-Reused :
      (request : LaunchRequest) (s : SessionRow) (now : ℕ)
      → Ends (Reused launch_id) (reuse_ready x launch_id request s now)
  unfolding reuse_ready
  ready-Reused request s now = search (ends_rules, none-Reused, attested-Reused) depth 30

  in-Reused :
      (state : SessionState) (request : LaunchRequest) (s : SessionRow) (now : ℕ)
      → Ends (Reused launch_id) (reuse_in x state launch_id request s now)
  unfolding reuse_in
  in-Reused SessionState.ready request s now = ready-Reused request s now
  in-Reused _ request s now = search ends_rules

  pub reuse-Reused :
      (request : LaunchRequest) (s : SessionRow) (now : ℕ)
      → Ends (Reused launch_id) (reuse_existing_session x launch_id request s now)
  unfolding reuse_existing_session reuse_orphan reuse_followed
  reuse-Reused request s now = search (ends_rules, none-Reused, in-Reused) depth 30
