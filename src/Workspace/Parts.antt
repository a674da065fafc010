-- ===== src/Workspace/Parts.antt =====
-- Actions of workspace.py by their parts: those that change nothing, and what a guarded change leaves.
use notebook_launcher.Prelude.{ℕ, ◌≡◌, refl, ap, ◌∙◌, true, Option, none, some, find}
use notebook_launcher.Action.{Action, Result, ok, err, key_error, is_ok, found, ◌>>=◌, ◌>>◌}
use notebook_launcher.Action.Parts.{before_answer}
use notebook_launcher.State.{Db}
use notebook_launcher.State.Rows.{WorkspaceRow}
use notebook_launcher.State.Workspaces.{get_workspace}
use notebook_launcher.State.Guards.{has_workspace_id, on_db, on_files, end_transaction, guarded}
use notebook_launcher.Workspace.{workspace}

pub workspace_keeps : (i : ℕ) (db : Db) → (workspace i db).1 ≡ db
unfolding workspace get_workspace
workspace_keeps i db = refl

pub workspace_found :
    (i : ℕ) (db : Db) (w : WorkspaceRow)
    → (workspace i db).0 ≡ ok w
    → find (has_workspace_id i) db.workspaces ≡ some w
unfolding workspace get_workspace
workspace_found i db w h = is_found (find (has_workspace_id i) db.workspaces) h
  where
    is_found : (o : Option WorkspaceRow) → found o key_error ≡ ok w → o ≡ some w
    is_found none q = cc
    is_found (some v) q = cc

committed :
    {F A : Type 0} (compensation : Option (Action F (Unit {0}))) (commit : Result (Unit {0}))
    (db : Db) (r : Result A) (s : Db × F)
    → is_ok (end_transaction compensation commit db r s).0 ≡ true
    → (is_ok r ≡ true) × ((end_transaction compensation commit db r s).1 ≡ s)
committed compensation (ok u) db (ok a) s done = (refl, refl)
committed none (err e) db (ok a) s done = cc
committed (some c) (err e) db (ok a) s done = cc
committed none (ok u) db (err e) s done = cc
committed (some c) (ok u) db (err e) s done = cc
committed none (err x) db (err e) s done = cc
committed (some c) (err x) db (err e) s done = cc

-- What the commit of a guarded change has left.
pub guarded_done :
    {F A : Type 0} (compensation : Option (Action F (Unit {0}))) (commit : Result (Unit {0}))
    (admit : Action Db A) (body : A → Action F (Unit {0})) (note : A → Action Db (Unit {0}))
    (db : Db) (f : F)
    → is_ok (guarded compensation commit admit body note (db, f)).0 ≡ true
    → (a : A) × ((body a f).0 ≡ ok tt)
      × ((guarded compensation commit admit body note (db, f)).1.1 ≡ (body a f).1)
guarded_done {F} {A} compensation commit admit body note db f done =
    let ends = committed compensation commit db ran.0 ran.1 done in
    let (a, wrote, left) = reached ends.0 in (a, wrote, ap (λ s. s.1) ends.1 ∙ left)
  where
    ran : Result (Unit {0}) × (Db × F)
    ran = (on_db admit >>= λ a. on_files (body a) >> on_db (note a)) (db, f)

    Reached : Result (Unit {0}) × (Db × F) → Type 0
    Reached p = is_ok p.0 ≡ true → (a : A) × ((body a f).0 ≡ ok tt) × (p.1.1 ≡ (body a f).1)

    reached : Reached ran
    reached =
        before_answer Reached (λ a. on_files (body a) >> on_db (note a)) (db, f) (on_db admit)
          (λ e q. λ done. cc)
          (λ a q.
            before_answer Reached (λ _. on_db (note a)) (on_db admit (db, f)).1 (on_files (body a))
              (λ e q'. λ done. cc) (λ u wrote. λ done. (a, wrote, refl)))
