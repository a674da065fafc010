-- ===== src/Network/Removal.antt =====
-- What `remove` runs, and when it succeeds.
use notebook_launcher.Prelude.{
  ◌≡◌, Bool, true, false, not, ◌&&◌, ◌||◌, Option, none, some, List, [], ◌∷◌, ◌++◌, ◌==◌, arith,
  refl, Bool-cases, Option-cases, inl, inr,
}
use notebook_launcher.Action.{is_ok, Result-cases, CleanupFailure}
use notebook_launcher.Network.Rules.{Command, Texts, FirewallPlan, removal_argv}
use notebook_launcher.Network.Applier.{
  CommandResult, Runner, is_failure, cleanup_target_absent, remove_each, raise_failures,
  remove_owned_network, remove,
}
use notebook_launcher.Network.Checked.{append_assoc, append-nil}

abbrev pub is_empty_list : {A : Type 0} → List A → Bool
is_empty_list [] = true
is_empty_list (x ∷ l) = false

module _ (texts : Texts) (runner : Runner) where
  -- The command has answered 0, or that its target is not there.
  abbrev pub is_gone : Command → Option CommandResult → Bool
  is_gone c none = false
  is_gone c (some r) = r.returncode == 0 || cleanup_target_absent texts runner c r

  -- This holds of each of the commands, run one after the other after these.
  abbrev pub all_gone : List Command → List Command → Bool
  all_gone [] log = true
  all_gone (c ∷ commands) log = is_gone c (runner log c) && all_gone commands (log ++ c ∷ [])

  pub remove_each_runs : (cs log : List Command) → (remove_each texts runner cs log).1 ≡ log ++ cs
  unfolding remove_each
  remove_each_runs [] log = ground (arith, append-nil log)
  remove_each_runs (c ∷ cs) log = elim (Option-cases (runner log c)) [
    | inl e ↦ ground (arith, remove_each_runs cs (log ++ c ∷ []), append_assoc log (c ∷ []) cs)
    | inr (r, e) ↦ ground (
      arith,
      remove_each_runs cs (log ++ c ∷ []),
      append_assoc log (c ∷ []) cs,
      Bool-cases (is_failure texts runner r && not (cleanup_target_absent texts runner c r)),
    )
  ]

  remove_each_failures :
      (cs log : List Command) → is_empty_list (remove_each texts runner cs log).0 ≡ all_gone cs log
  unfolding remove_each
  remove_each_failures [] log = refl
  remove_each_failures (c ∷ cs) log = elim (Option-cases (runner log c)) [
    | inl e ↦ ground arith
    | inr (r, e) ↦ ground (
      arith,
      remove_each_failures cs (log ++ c ∷ []),
      Bool-cases (is_failure texts runner r && not (cleanup_target_absent texts runner c r)),
      Bool-cases (cleanup_target_absent texts runner c r),
      Bool-cases (r.returncode == 0),
    )
  ]

  raise_failures_ok :
      (l : List CleanupFailure) → is_ok (raise_failures texts runner l) ≡ is_empty_list l
  raise_failures_ok [] = refl
  raise_failures_ok (f ∷ l) = refl

  -- Once the network itself is removed or was not there, `remove` runs all of its six commands, also
  -- after one that failed, and it succeeds exactly if each of them has answered 0 or that its target
  -- is not there.
  pub remove_exact :
      (plan : FirewallPlan) (log : List Command)
      → is_ok (remove_owned_network texts runner plan log).0 ≡ true
      → let log' = (remove_owned_network texts runner plan log).1 in
        ((remove texts runner plan log).1 ≡ log' ++ removal_argv texts plan)
        × (is_ok (remove texts runner plan log).0 ≡ all_gone (removal_argv texts plan) log')
  unfolding remove
  remove_exact plan log h =
      let log' = (remove_owned_network texts runner plan log).1 in
      let commands = removal_argv texts plan in
      elim (Result-cases (remove_owned_network texts runner plan log).0) [
        | inl (u, e) ↦ (
          ground (arith, remove_each_runs commands log'),
          ground (
            arith,
            remove_each_failures commands log',
            raise_failures_ok (remove_each texts runner commands log').0,
          ),
        )
        | inr (x, e) ↦ ground arith
      ]
