-- ===== src/Orchestration/Ordered.antt =====
-- Every operation of the orchestrator ends and starts sessions in order.
use notebook_launcher.Prelude.{
  ℕ, zero, suc, ◌≡◌, String, Bool, true, false, List, [], ◌∷◌, refl, arith, inl, inr, if◌then◌else◌,
}
use notebook_launcher.Action.{Action, Result, ok, err, is_ok, Result-cases}
use notebook_launcher.Steps.{pure, raise_if, on_option, ◌>>=◌}
use notebook_launcher.Steps.Preserves.{Preserves, Preserves-bind, preserving}
use notebook_launcher.State.Rows.{SessionState, stopped, stopping, failed}
use notebook_launcher.Orchestration.Lifecycle.{
  Event, History, Answer, Collaborators, perform, invalidate_each, end_session, SessionSnapshot,
  is_alive, is_live, get_session, reconcile_live, reconcile, status, stop_runtime, stop_live, stop,
  start_fresh, reopen_existing, reopen, runtime_stopped, marked,
}
use notebook_launcher.Orchestration.Ended.{
  IsInOrder, is_in_order, Leads, Anyhow, Cleared, Known, Seen, SeenIn, SeenActive, Post, Leads-bind,
  Leads-perform, Leads-Preserves, Preserves-Leads, Preserves-perform, dead, looked, looked_active,
  Leads-is_alive, Leads-end_session, Leads-on_option,
}

pub data Operation : Type 0 where
  reopen_workspace : ℕ → ℕ → Operation
  stop_session reconcile_session read_status : ℕ → Operation

module _ (x : Collaborators) where
  abbrev InOrder : History → Type 0
  InOrder h = IsInOrder x.invalidators h

  perform-IsInOrder :
      {A : Type 0} (answer : Answer A) (event : Result A → Event)
      → ((r : Result A) (h : History) → is_in_order x.invalidators (event r) h ≡ true)
      → Preserves InOrder (perform answer event)
  perform-IsInOrder = Preserves-perform x.invalidators

  ruleset order_rules = (preserving, perform-IsInOrder)

  invalidate_each-IsInOrder : (left i : ℕ) → Preserves InOrder (invalidate_each x left i)
  unfolding invalidate_each
  invalidate_each-IsInOrder zero i = search order_rules
  invalidate_each-IsInOrder (suc left) i =
      Preserves-bind _ _ (search order_rules) λ u. invalidate_each-IsInOrder left i

  abbrev Follows : {A : Type 0} → (History → Type 0) → Action History A → Type 0
  Follows P m = Leads x.invalidators P (Anyhow x.invalidators) m

  -- The rest after the answer of `is_alive`.
  is_alive-Follows :
      {A : Type 0} (r : String) (m : Action History A) (i : ℕ) (state : SessionState)
      (k : Unit {0} → Action History A)
      → Preserves InOrder m
      → ((u : Unit {0}) → Preserves InOrder (k u))
      → Follows
          (Seen x.invalidators i r)
          (is_alive x r >>= λ alive. if alive then m else (end_session x i state >>= k))
  is_alive-Follows r m i state k p q =
      Leads-bind x.invalidators _ (Known x.invalidators i r) _ _ _ (Leads-is_alive x i r) rest
    where
      rest :
          (b : Bool)
          → Follows (Known x.invalidators i r b) (if b then m else (end_session x i state >>= k))
      rest true = Preserves-Leads x.invalidators _ m (λ h (f, a). a) p
      rest false =
          Leads-bind x.invalidators _ (Anyhow x.invalidators) _ _ _ (Leads-end_session x i state)
            λ u. Preserves-Leads x.invalidators _ (k u) (λ h a. a) (q u)

  -- What is done with a session that was looked up.
  get_session-IsInOrder :
      {A : Type 0} (i : ℕ) (m : Action History A) (k l : SessionSnapshot → Action History A)
      → Preserves InOrder m
      → ((s : SessionSnapshot) → Follows (Seen x.invalidators i s.runtime_id) (k s))
      → ((s : SessionSnapshot) → Preserves InOrder (l s))
      → Preserves InOrder
          (get_session x i >>= λ o. on_option o m (λ s. if is_live s.state then k s else l s))
  get_session-IsInOrder i m k l p q r = Leads-Preserves x.invalidators _ (
      Leads-bind x.invalidators _ (SeenIn x.invalidators i) _ _ _
        (Leads-perform x.invalidators _ _ _ _ (looked x.invalidators i))
        λ o.
          Leads-on_option x (SeenIn x.invalidators i) o m _ (λ h a. a) p
            (λ s. branch s (is_live s.state)))
    where
      branch :
          (s : SessionSnapshot) (b : Bool)
          → Follows (Seen x.invalidators i s.runtime_id) (if b then k s else l s)
      branch s true = q s
      branch s false = Preserves-Leads x.invalidators _ (l s) (λ h (f, a). a) (r s)

  reconcile-IsInOrder : (i : ℕ) → Preserves InOrder (reconcile x i)
  unfolding reconcile reconcile_live
  reconcile-IsInOrder i =
      get_session-IsInOrder i (pure false) (λ s. reconcile_live x s i) (λ s. pure false)
        (search order_rules)
        (λ s.
          is_alive-Follows s.runtime_id (pure true) i failed (λ u. pure false) (search order_rules)
            (λ u. search order_rules))
        (λ s. search order_rules)

  status-IsInOrder : (i : ℕ) → Preserves InOrder (status x i)
  unfolding status
  status-IsInOrder i = search (order_rules, reconcile-IsInOrder) depth 20

  stop_runtime-Leads :
      (i : ℕ) (r : String)
      → Leads x.invalidators
          (Seen x.invalidators i r)
          (λ u. Cleared x.invalidators i 0)
          (stop_runtime x r)
  unfolding stop_runtime
  stop_runtime-Leads i r =
      Leads-bind x.invalidators _ (Known x.invalidators i r) _ _ _ (Leads-is_alive x i r) rest
    where
      rest :
          (b : Bool)
          → Leads x.invalidators
              (Known x.invalidators i r b)
              (λ (u : Unit {0}). Cleared x.invalidators i 0)
              (if b then perform (x.stop r) (λ a. runtime_stopped r (is_ok a)) else pure tt)
      rest true = Leads-perform x.invalidators _ _ _ _ (dead x.invalidators i r)
      rest false = unfold pure in record { then_holds = λ h p. p }

  stop_live-Follows :
      (s : SessionSnapshot) (i : ℕ) → Follows (Seen x.invalidators i s.runtime_id) (stop_live x s i)
  unfolding stop_live
  stop_live-Follows s i =
      Leads-bind x.invalidators _ (λ u. Seen x.invalidators i s.runtime_id) _ _ _
        (Leads-perform x.invalidators _ _ _ _ marked_first)
        λ u.
          Leads-bind x.invalidators _ (λ u. Cleared x.invalidators i 0) _ _ _
            (stop_runtime-Leads i s.runtime_id)
            λ u.
              Leads-bind x.invalidators _ (Anyhow x.invalidators) _ _ _
                (Leads-end_session x i stopped)
                λ u. Preserves-Leads x.invalidators _ (pure true) (λ h a. a) (search order_rules)
    where
      marked_first :
          (h : History)
          → Seen x.invalidators i s.runtime_id h
          → (r : Result (Unit {0}))
          → Post x.invalidators
              (λ (u : Unit {0}). Seen x.invalidators i s.runtime_id)
              (r, marked i stopping ∷ h)
      marked_first h p (ok u) = p
      marked_first h (f, p) (err e) = p

  stop-IsInOrder : (i : ℕ) → Preserves InOrder (stop x i)
  unfolding stop
  stop-IsInOrder i =
      get_session-IsInOrder i (pure false) (λ s. stop_live x s i)
        (λ s. invalidate_each x x.invalidators i >>= λ u. pure true) (search order_rules)
        (λ s. stop_live-Follows s i) (λ s. search (order_rules, invalidate_each-IsInOrder))

  start_fresh-IsInOrder : (w l : ℕ) → Preserves InOrder (start_fresh x w l)
  unfolding start_fresh raise_if ◌>>=◌ pure perform
  start_fresh-IsInOrder w l = record {
    holds_after = λ h p. elim (Result-cases (x.active_notebook_exists w h)) [
      | inl (b, e) ↦ ground arith
      | inr (e, q) ↦ ground arith
    ];
  }

  reopen-IsInOrder : (w l : ℕ) → Preserves InOrder (reopen x w l)
  unfolding reopen reopen_existing
  reopen-IsInOrder w l = Preserves-bind _ _ (search order_rules) λ u.
      Leads-Preserves x.invalidators _ (
        Leads-bind x.invalidators _ (SeenActive x.invalidators) _ _ _
          (Leads-perform x.invalidators _ _ _ _ (looked_active x.invalidators))
          λ o.
            Leads-on_option x (SeenActive x.invalidators) o (start_fresh x w l) _ (λ h a. a)
              (start_fresh-IsInOrder w l)
              (λ s.
                is_alive-Follows s.runtime_id (pure (s, true)) s.session_id failed
                  (λ u. start_fresh x w l) (search order_rules) (λ u. start_fresh-IsInOrder w l)))

  -- The operations one after another.
  abbrev pub apply : Operation → History → History
  apply (reopen_workspace w l) h = (reopen x w l h).1
  apply (stop_session i) h = (stop x i h).1
  apply (reconcile_session i) h = (reconcile x i h).1
  apply (read_status i) h = (status x i h).1

  abbrev pub apply_all : List Operation → History → History
  apply_all [] h = h
  apply_all (o ∷ l) h = apply_all l (apply o h)

  apply-IsInOrder : (o : Operation) (h : History) → InOrder h → InOrder (apply o h)
  apply-IsInOrder (reopen_workspace w l) h p = (reopen-IsInOrder w l).holds_after h p
  apply-IsInOrder (stop_session i) h p = (stop-IsInOrder i).holds_after h p
  apply-IsInOrder (reconcile_session i) h p = (reconcile-IsInOrder i).holds_after h p
  apply-IsInOrder (read_status i) h p = (status-IsInOrder i).holds_after h p

  keep-IsInOrder : (l : List Operation) (h : History) → InOrder h → InOrder (apply_all l h)
  keep-IsInOrder [] h p = p
  keep-IsInOrder (o ∷ l) h p = keep-IsInOrder l (apply o h) (apply-IsInOrder o h p)

  -- After any operations, whatever the others answer or raise, a session was marked failed or stopped
  -- only right after a call of every invalidator on it, from the first one to the last, and those right
  -- after its runtime, the one that a look-up had answered for it, was found dead or was stopped; and a
  -- session was started for a workspace only right after that workspace's notebook was found to be
  -- there.
  pub apply_all-IsInOrder : (l : List Operation) → IsInOrder x.invalidators (apply_all l [])
  apply_all-IsInOrder l = keep-IsInOrder l [] refl
