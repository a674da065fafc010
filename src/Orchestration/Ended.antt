-- ===== src/Orchestration/Ended.antt =====
-- The order in which a session is ended and one is started.
use notebook_launcher.Prelude.{
  ℕ, zero, suc, ◌+◌, ◌-◌, ◌≡◌, ◌==◌, String, Bool, true, false, ◌&&◌, Option, none, some, [], ◌∷◌,
  arith, any, str_eq, str_eq_refl,
}
use notebook_launcher.Action.{Action, Result, ok, err, is_ok}
use mathlib.Core.Path.{subst}
use notebook_launcher.Steps.Preserves.{Preserves}
use notebook_launcher.Steps.{pure, lift, on_option, ◌>>=◌}
use notebook_launcher.State.Rows.{SessionState, starting, ready, stopping, stopped, failed}
use notebook_launcher.Orchestration.Lifecycle.{
  Event, SessionSnapshot, looked_up, looked_for_active, notebook_there, liveness, runtime_stopped,
  invalidated, marked, started, History, Answer, Collaborators, perform, invalidate_each,
  end_session, is_alive,
}

-- The call has answered the session with this runtime.
abbrev pub names : ℕ → String → Event → Bool
names i r (looked_up j (ok (some s))) = (j == i) && str_eq s.runtime_id r
names i r (looked_for_active (ok (some s))) = (s.session_id == i) && str_eq s.runtime_id r
names i r _ = false

-- The runtime was answered to be the one of the session.
abbrev pub was_found : ℕ → String → History → Bool
was_found i r h = any (names i r) h

-- The call has found the runtime of the session dead, or has stopped it.
abbrev pub has_ended : ℕ → History → Event → Bool
has_ended i h (liveness r (ok false)) = was_found i r h
has_ended i h (runtime_stopped r true) = was_found i r h
has_ended i h _ = false

abbrev pub is_over : ℕ → History → Bool
is_over i [] = false
is_over i (e ∷ h) = has_ended i h e

abbrev pub is_call : ℕ → ℕ → Event → Bool
is_call i k (invalidated n j) = (n == k) && (j == i)
is_call i k _ = false

-- After that came the invalidators from the first one on, each on the session.
abbrev pub is_cleared : ℕ → ℕ → History → Bool
is_cleared i zero h = is_over i h
is_cleared i (suc k) [] = false
is_cleared i (suc k) (e ∷ h) = is_call i k e && is_cleared i k h

abbrev pub is_check : ℕ → Event → Bool
is_check w (notebook_there v true) = v == w
is_check w _ = false

abbrev pub is_notebook_there : ℕ → History → Bool
is_notebook_there w [] = false
is_notebook_there w (e ∷ _) = is_check w e

module _ (n : ℕ) where
  abbrev pub is_in_order : Event → History → Bool
  is_in_order (marked i failed) h = is_cleared i n h
  is_in_order (marked i stopped) h = is_cleared i n h
  is_in_order (started w) h = is_notebook_there w h
  is_in_order _ h = true

  abbrev pub in_order : History → Bool
  in_order [] = true
  in_order (e ∷ h) = is_in_order e h && in_order h

  abbrev pub IsInOrder : History → Type 0
  IsInOrder h = in_order h ≡ true

  -- What an action leaves: where it raises, the history is in order.
  abbrev pub Post : {A : Type 0} → (A → History → Type 0) → Result A × History → Type 0
  Post Q (ok a, h) = Q a h
  Post Q (err e, h) = IsInOrder h

  pub record Leads {A : Type 0} (P : History → Type 0) (Q : A → History → Type 0)
      (m : Action History A) : Type 0 where
    pub then_holds : (h : History) → P h → Post Q (m h)

  abbrev pub Anyhow : {A : Type 0} → A → History → Type 0
  Anyhow a h = IsInOrder h

  Leads-answer :
      {A B : Type 0} (Q : A → History → Type 0) (R : B → History → Type 0) (r : Result A)
      (f : A → Action History B) (h : History)
      → Post Q (r, h)
      → ((a : A) → Leads (Q a) R (f a))
      → Post R ((lift r >>= f) h)
  unfolding ◌>>=◌ lift
  Leads-answer Q R (ok a) f h p k = (k a).then_holds h p
  Leads-answer Q R (err e) f h p k = p

  pub Leads-bind :
      {A B : Type 0} (P : History → Type 0) (Q : A → History → Type 0) (R : B → History → Type 0)
      (m : Action History A) (f : A → Action History B)
      → Leads P Q m
      → ((a : A) → Leads (Q a) R (f a))
      → Leads P R (m >>= f)
  unfolding ◌>>=◌ lift
  Leads-bind P Q R m f h k = record {
    then_holds = λ s p. let (r, t) = m s in Leads-answer Q R r f t (h.then_holds s p) k;
  }

  pub Leads-perform :
      {A : Type 0} (answer : Answer A) (event : Result A → Event) (P : History → Type 0)
      (Q : A → History → Type 0)
      → ((h : History) → P h → (r : Result A) → Post Q (r, event r ∷ h))
      → Leads P Q (perform answer event)
  unfolding perform
  Leads-perform answer event P Q k = record { then_holds = λ h p. k h p (answer h) }

  Post-IsInOrder : {A : Type 0} (r : Result A) (h : History) → Post Anyhow (r, h) → IsInOrder h
  Post-IsInOrder (ok a) h p = p
  Post-IsInOrder (err e) h p = p

  pub Leads-Preserves :
      {A : Type 0} (m : Action History A) → Leads IsInOrder Anyhow m → Preserves IsInOrder m
  Leads-Preserves m k = record {
    holds_after = λ h p. Post-IsInOrder (m h).0 (m h).1 (k.then_holds h p);
  }

  pub in_order-Post : {A : Type 0} (r : Result A) (h : History) → IsInOrder h → Post Anyhow (r, h)
  in_order-Post (ok a) h p = p
  in_order-Post (err e) h p = p

  pub Preserves-Leads :
      {A : Type 0} (P : History → Type 0) (m : Action History A)
      → ((h : History) → P h → IsInOrder h)
      → Preserves IsInOrder m
      → Leads P Anyhow m
  Preserves-Leads P m w k = record {
    then_holds = λ h p. in_order-Post (m h).0 (m h).1 (k.holds_after h (w h p));
  }

  pub Preserves-perform :
      {A : Type 0} (answer : Answer A) (event : Result A → Event)
      → ((r : Result A) (h : History) → is_in_order (event r) h ≡ true)
      → Preserves IsInOrder (perform answer event)
  unfolding perform
  Preserves-perform answer event c = record { holds_after = λ h p. ground (arith, c (answer h) h) }

  abbrev pub Cleared : ℕ → ℕ → History → Type 0
  Cleared i k h = (is_cleared i k h ≡ true) × IsInOrder h

  -- The session was found to have this runtime.
  abbrev pub Seen : ℕ → String → History → Type 0
  Seen i r h = (was_found i r h ≡ true) × IsInOrder h

  abbrev pub SeenIn : ℕ → Option SessionSnapshot → History → Type 0
  SeenIn i none h = IsInOrder h
  SeenIn i (some s) h = Seen i s.runtime_id h

  abbrev pub SeenActive : Option SessionSnapshot → History → Type 0
  SeenActive none h = IsInOrder h
  SeenActive (some s) h = Seen s.session_id s.runtime_id h

  pub looked :
      (i : ℕ) (h : History)
      → IsInOrder h
      → (r : Result (Option SessionSnapshot)) → Post (SeenIn i) (r, looked_up i r ∷ h)
  looked i h p (ok none) = p
  looked i h p (ok (some s)) = (ground (arith, str_eq_refl s.runtime_id), p)
  looked i h p (err e) = p

  pub looked_active :
      (h : History)
      → IsInOrder h
      → (r : Result (Option SessionSnapshot)) → Post SeenActive (r, looked_for_active r ∷ h)
  looked_active h p (ok none) = p
  looked_active h p (ok (some s)) = (ground (arith, str_eq_refl s.runtime_id), p)
  looked_active h p (err e) = p

  -- What the answer of `is_alive` says.
  abbrev pub Known : ℕ → String → Bool → History → Type 0
  Known i r true h = Seen i r h
  Known i r false h = Cleared i 0 h

  known :
      (i : ℕ) (r : String) (h : History)
      → Seen i r h
      → (a : Result Bool) → Post (Known i r) (a, liveness r a ∷ h)
  known i r h (f, p) (ok true) = (f, p)
  known i r h (f, p) (ok false) = (f, p)
  known i r h (f, p) (err e) = p

  pub dead :
      (i : ℕ) (r : String) (h : History)
      → Seen i r h
      → (a : Result (Unit {0})) → Post (λ u. Cleared i 0) (a, runtime_stopped r (is_ok a) ∷ h)
  dead i r h (f, p) (ok u) = (f, p)
  dead i r h (f, p) (err e) = p

module _ (x : Collaborators) where
  pub Leads-is_alive :
      (i : ℕ) (r : String)
      → Leads x.invalidators (Seen x.invalidators i r) (Known x.invalidators i r) (is_alive x r)
  Leads-is_alive i r = Leads-perform x.invalidators _ _ _ _ (known x.invalidators i r)

  pub Leads-invalidate_each :
      (left k : ℕ) (i : ℕ)
      → left + k ≡ x.invalidators
      → Leads x.invalidators
          (Cleared x.invalidators i k)
          (λ u. Cleared x.invalidators i x.invalidators)
          (invalidate_each x left i)
  unfolding invalidate_each pure
  Leads-invalidate_each zero k i e = record {
    then_holds = λ h p. subst (λ n. Cleared x.invalidators i n h) same p;
  }
    where
      same : k ≡ x.invalidators
      same = omega (arith, e)
  Leads-invalidate_each (suc left) k i e =
      Leads-bind x.invalidators _ (λ u. Cleared x.invalidators i (suc k)) _ _ _
        (Leads-perform x.invalidators _ _ _ _ one)
        λ u. Leads-invalidate_each left (suc k) i (omega (arith, e))
    where
      here : x.invalidators - suc left ≡ k
      here = omega (arith, e)

      one :
          (h : History)
          → Cleared x.invalidators i k h
          → (r : Result (Unit {0}))
          → Post x.invalidators
              (λ (u : Unit {0}). Cleared x.invalidators i (suc k))
              (r, invalidated (x.invalidators - suc left) i ∷ h)
      one h (c, p) (ok u) = (ground (arith, here), p)
      one h (c, p) (err f) = p

  pub Leads-end_session :
      (i : ℕ) (state : SessionState)
      → Leads x.invalidators
          (Cleared x.invalidators i 0)
          (Anyhow x.invalidators)
          (end_session x i state)
  unfolding end_session
  Leads-end_session i state =
      Leads-bind x.invalidators _ (λ u. Cleared x.invalidators i x.invalidators) _ _ _
        (Leads-invalidate_each x.invalidators 0 i (omega arith))
        λ u.
          Leads-perform x.invalidators _ _ _ _
            (λ h p r. in_order-Post x.invalidators r _ (mark state h p))
    where
      mark :
          (s : SessionState) (h : History)
          → Cleared x.invalidators i x.invalidators h
          → IsInOrder x.invalidators (marked i s ∷ h)
      mark starting h p = p.1
      mark ready h p = p.1
      mark stopping h p = p.1
      mark stopped h (p, q) = ground arith
      mark failed h (p, q) = ground arith

  pub Leads-on_option :
      {B : Type 0} (P : Option SessionSnapshot → History → Type 0) (o : Option SessionSnapshot)
      (m : Action History B) (k : SessionSnapshot → Action History B)
      → ((h : History) → P none h → IsInOrder x.invalidators h)
      → Preserves (IsInOrder x.invalidators) m
      → ((s : SessionSnapshot) → Leads x.invalidators (P (some s)) (Anyhow x.invalidators) (k s))
      → Leads x.invalidators (P o) (Anyhow x.invalidators) (on_option o m k)
  unfolding on_option
  Leads-on_option P none m k w p q = Preserves-Leads x.invalidators (P none) m w p
  Leads-on_option P (some s) m k w p q = q s
