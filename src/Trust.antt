-- ===== src/Trust.antt =====
-- trust.py: the trust records of repositories and commits.
pub mod Flow
pub mod Cover
pub mod Challenges
pub mod Confirm
mod Tests
use notebook_launcher.Prelude.{
  ℕ, String, Bool, true, false, not, ◌&&◌, ◌||◌, Option, none, some, List, [], ◌∷◌, ◌++◌, ◌==◌,
  is_none, str_eq, find, count, update, if◌then◌else◌,
}
use notebook_launcher.Action.{Action, ok, pure, gets, modify, atomically, ◌>>=◌, ◌>>◌}
use notebook_launcher.State.{Db, set_trust_records, is_repository}
use notebook_launcher.State.Rows.{TrustScope, exact_commit, repository, TrustRow}

-- What the trust store reads of a `ResolvedSource`.
pub record Source : Type 0 where
  pub repository_id : ℕ
  pub repository_node_id : Option String
  pub owner : String
  pub repository : String
  pub requested_ref : String
  pub commit_sha : String
  pub notebook_path : String
  pub clone_url : String

pub record TrustMatch : Type 0 where
  pub trusted : Bool
  pub trust_id : Option ℕ
  pub scope : Option TrustScope

-- `commit_sha = ?`, which holds of no missing value
abbrev pub is_commit : Option String → String → Bool
is_commit none sha = false
is_commit (some c) sha = str_eq c sha

-- `repository_id = ? AND scope = 'exact_commit' AND commit_sha = ? AND revoked_at IS NULL`
abbrev pub covers_commit : ℕ → String → TrustRow → Bool
covers_commit repository_id commit_sha t =
    t.repository_id == repository_id
    && is_none t.revoked_at
    && not (is_repository t.scope)
    && is_commit t.commit_sha commit_sha

-- `repository_id = ? AND scope = 'repository' AND revoked_at IS NULL`
abbrev pub covers_repository : ℕ → TrustRow → Bool
covers_repository repository_id t =
    t.repository_id == repository_id && is_none t.revoked_at && is_repository t.scope

abbrev pub match_of : Option TrustRow → TrustMatch
match_of none = record { trusted = false; trust_id = none; scope = none }
match_of (some t) = record { trusted = true; trust_id = some t.id; scope = some t.scope }

-- `ORDER BY CASE scope WHEN 'exact_commit' THEN 0 ELSE 1 END LIMIT 1`
abbrev pub first_of : Option TrustRow → Option TrustRow → Option TrustRow
first_of (some t) _ = some t
first_of none o = o

-- `TrustStore.find`
unfoldable pub find_trust : Source → Action Db TrustMatch
find_trust source = do
  rows ← gets (λ db. db.trust_records)
  pure (
      match_of (
        first_of (find (covers_commit source.repository_id source.commit_sha) rows)
          (find (covers_repository source.repository_id) rows)))

abbrev pub scoped_commit : TrustScope → String → Option String
scoped_commit exact_commit commit_sha = some commit_sha
scoped_commit repository commit_sha = none

abbrev pub trust_row : ℕ → Source → TrustScope → ℕ → TrustRow
trust_row trust_id source scope now = record {
  id = trust_id;
  repository_id = source.repository_id;
  repository_node_id = source.repository_node_id;
  grant_owner = source.owner;
  grant_repository = source.repository;
  scope = scope;
  commit_sha = scoped_commit scope source.commit_sha;
  created_at = now;
  revoked_at = none;
}

-- `TrustStore.grant`, and `grant_identity` on the fields of a source; `trust_id` is the `uuid4()`.
unfoldable pub grant : ℕ → Source → TrustScope → ℕ → Action Db ℕ
grant trust_id source scope now = atomically (do
  rows ← gets (λ db. db.trust_records)
  set_trust_records (rows ++ trust_row trust_id source scope now ∷ [])
  pure trust_id)

abbrev pub is_active : ℕ → TrustRow → Bool
is_active trust_id t = t.id == trust_id && is_none t.revoked_at

unfoldable pub revoke : ℕ → ℕ → Action Db Bool
revoke trust_id now = atomically (do
  rows ← gets (λ db. db.trust_records)
  modify (λ db. record db {
    trust_records = update (is_active trust_id) (λ t. record t { revoked_at = some now }) rows;
  })
  pure (count (is_active trust_id) rows == 1))
