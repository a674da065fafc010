-- ===== src/Pipeline/History.antt =====
-- The histories in which a network is taken away only after a runtime was found not alive, and a
-- container is started only under its own network policy; rules by which an action keeps that.
use notebook_launcher.Prelude.{ℕ, ◌≡◌, Bool, true, false, ◌&&◌, List, [], ◌∷◌, ◌==◌, arith}
use notebook_launcher.Action.{Action, Result, ok}
use notebook_launcher.Steps.Preserves.{Preserves, preserving}
use notebook_launcher.Pipeline.{
  Event, liveness, removed, applied, container_started, World, Answer, on_db, perform,
}
use notebook_launcher.State.{Db}

-- The last call was `is_alive`, and its answer was no.
abbrev pub after_dead : List Event → Bool
after_dead (liveness r (ok false) ∷ _) = true
after_dead _ = false

-- The last call was the application of the network policy of the session, which succeeded.
abbrev pub after_applied : ℕ → List Event → Bool
after_applied i (applied j true ∷ _) = i == j
after_applied i _ = false

abbrev pub is_confined : Event → List Event → Bool
is_confined (removed i) h = after_dead h
is_confined (container_started i) h = after_applied i h
is_confined _ h = true

-- Each removal of a network came right after an answer that a runtime is not alive, and each
-- start of a container right after its network policy was applied.
abbrev pub confined : List Event → Bool
confined [] = true
confined (e ∷ h) = is_confined e h && confined h

abbrev pub IsConfined : World → Type 0
IsConfined w = confined w.events ≡ true

module _ {A : Type 0} where
  pub Preserves-on_db : (m : Action Db A) → Preserves IsConfined (on_db m)
  unfolding on_db
  Preserves-on_db m = record { holds_after = λ w h. h }

  pub Preserves-perform :
      (answer : Answer A) (event : Result A → Event)
      → ((r : Result A) (h : List Event) → is_confined (event r) h ≡ true)
      → Preserves IsConfined (perform answer event)
  unfolding perform
  Preserves-perform answer event c = record {
    holds_after = λ w h. ground (arith, c (answer w.events) w.events);
  }

pub ruleset confined_rules = (preserving, Preserves-on_db, Preserves-perform)
