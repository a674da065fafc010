-- ===== src/Trust/Flow.antt =====
-- trust_flow.py: the challenge by which a user confirms or denies the trust of a launch. The SHA-256
-- of a nonce is a parameter, of which nothing is assumed.
use notebook_launcher.Prelude.{
  ℕ, ◌+◌, String, Bool, true, false, not, ◌&&◌, Option, none, some, List, [], ◌∷◌, ◌++◌, ◌==◌, ltb,
  is_none, is_some, or_else, str_eq, any, find, if◌then◌else◌, count, update, select,
}
use Prim.Native.String.{◌++◌ as join_text}
use notebook_launcher.Action.{
  Action, integrity_error, value_error, pure, gets, raise_if, or_raise, modify, atomically, ◌>>=◌,
  ◌>>◌,
}
use notebook_launcher.State.{Db, set_trust_records}
use notebook_launcher.State.Rows.{
  TrustScope, exact_commit, repository, LaunchState, pending_trust, TrustRow, LaunchRow,
  LaunchSourceRow, ChallengeRow,
}
use notebook_launcher.State.Launches.{has_launch_id}
use notebook_launcher.Trust.{Source, covers_commit, covers_repository, trust_row}

abbrev pub source_of : ℕ → LaunchSourceRow → Bool
source_of launch_id s = s.launch_id == launch_id

abbrev pub challenge_of : ℕ → ChallengeRow → Bool
challenge_of launch_id c = c.launch_id == launch_id

-- The foreign key of both tables.
abbrev pub known_launch : ℕ → Db → Bool
known_launch launch_id db = any (has_launch_id launch_id) db.launches

abbrev pub source_row : ℕ → Source → LaunchSourceRow
source_row launch_id s = record {
  launch_id = launch_id;
  repository_id = s.repository_id;
  repository_node_id = s.repository_node_id;
  owner = s.owner;
  repository = s.repository;
  commit_sha = s.commit_sha;
  notebook_path = s.notebook_path;
  requested_ref = some s.requested_ref;
  clone_url = some s.clone_url;
}

abbrev pub is_pending : LaunchState → Bool
is_pending pending_trust = true
is_pending _ = false

-- `WHERE id = ? AND state = 'pending_trust'`
abbrev pub pending_launch : ℕ → LaunchRow → Bool
pending_launch launch_id l = l.id == launch_id && is_pending l.state

-- `UPDATE trust_challenges SET used_at = ? WHERE launch_id = ?`
abbrev pub use_challenge : ℕ → ℕ → Db → Db
use_challenge launch_id now db = record db {
  challenges = update (challenge_of launch_id) (λ c. record c { used_at = some now }) db.challenges;
}

abbrev pub denied : ℕ → LaunchRow → LaunchRow
denied now l = record l {
  state = LaunchState.failed;
  message = some "Source trust was denied.";
  error_code = some "trust_denied";
  updated_at = now;
}

abbrev pub authorised : ℕ → LaunchRow → LaunchRow
authorised now l = record l {
  state = LaunchState.authorized;
  trust_covered = true;
  updated_at = now;
}

-- The scope's record that is active already.
abbrev pub existing_trust : TrustScope → LaunchSourceRow → List TrustRow → Option TrustRow
existing_trust exact_commit s rows = find (covers_commit s.repository_id s.commit_sha) rows
existing_trust repository s rows = find (covers_repository s.repository_id) rows

-- The columns that an insertion of `complete_trust` takes from the launch's source.
abbrev pub granted_source : LaunchSourceRow → Source
granted_source s = record {
  repository_id = s.repository_id;
  repository_node_id = s.repository_node_id;
  owner = s.owner;
  repository = s.repository;
  requested_ref = or_else s.requested_ref "";
  commit_sha = s.commit_sha;
  notebook_path = s.notebook_path;
  clone_url = or_else s.clone_url "";
}

-- `row["requested_ref"] or row["commit_sha"]`
abbrev pub or_text : Option String → String → String
or_text none b = b
or_text (some a) b = if str_eq a "" then b else a

abbrev pub github_clone_url : String → String → String
github_clone_url owner repo =
    join_text "https://github.com/" (join_text owner (join_text "/" (join_text repo ".git")))

-- `LaunchSourceIdentity` of a row
abbrev pub launch_source : LaunchSourceRow → Source
launch_source s = record {
  repository_id = s.repository_id;
  repository_node_id = s.repository_node_id;
  owner = s.owner;
  repository = s.repository;
  requested_ref = or_text s.requested_ref s.commit_sha;
  commit_sha = s.commit_sha;
  notebook_path = s.notebook_path;
  clone_url = or_text s.clone_url (github_clone_url s.owner s.repository);
}

unfoldable pub source_for_launch : ℕ → Action Db (Option Source)
source_for_launch launch_id = gets (λ db. elim (find (source_of launch_id) db.launch_sources) [
  | none ↦ none
  | some s ↦ some (launch_source s)
])

module _ (hash : String → String) where
  -- `nonce` is the random one; `INSERT OR REPLACE` takes the old row of the launch away.
  unfoldable pub create_challenge : ℕ → Source → String → ℕ → ℕ → Action Db (String × ℕ)
  create_challenge launch_id source nonce ttl now = atomically (do
    known ← gets (known_launch launch_id)
    raise_if (not known) integrity_error
    modify (λ db. record db {
      launch_sources =
          select (λ s. not (source_of launch_id s)) db.launch_sources
          ++ source_row launch_id source ∷ [];
    })
    modify (λ db. record db {
      challenges =
          select (λ c. not (challenge_of launch_id c)) db.challenges
          ++ record {
            launch_id = launch_id;
            nonce_hash = hash nonce;
            expires_at = now + ttl;
            used_at = none;
          }
            ∷ [];
    })
    pure (nonce, now + ttl))

  -- Unused, not expired, and of this nonce: `validate_challenge`, on the row that was read.
  abbrev pub is_answered : Option ChallengeRow → String → ℕ → Bool
  is_answered none nonce now = false
  is_answered (some c) nonce now =
      is_none c.used_at && not (ltb c.expires_at now) && str_eq c.nonce_hash (hash nonce)

  unfoldable pub validate_challenge : ℕ → String → ℕ → Action Db Bool
  validate_challenge launch_id nonce now =
      gets (λ db. is_answered (find (challenge_of launch_id) db.challenges) nonce now)

  -- The tests of `deny` and `complete_trust` on a challenge that is there.
  unfoldable pub check_challenge : ChallengeRow → String → ℕ → Action Db (Unit {0})
  check_challenge c nonce now = do
    raise_if (ltb c.expires_at now) (value_error "trust challenge expired")
    raise_if (not (str_eq c.nonce_hash (hash nonce))) (value_error "invalid trust challenge")

  unfoldable pub deny : ℕ → String → ℕ → Action Db (Unit {0})
  unfolding check_challenge
  deny launch_id nonce now = atomically (do
    challenge ← gets (λ db. find (challenge_of launch_id) db.challenges)
    c ← or_raise challenge (value_error "trust challenge not found or already used")
    raise_if (is_some c.used_at) (value_error "trust challenge not found or already used")
    check_challenge c nonce now
    modify (use_challenge launch_id now)
    rows ← gets (λ db. db.launches)
    modify (λ db. record db { launches = update (pending_launch launch_id) (denied now) rows })
    raise_if (not (count (pending_launch launch_id) rows == 1))
        (value_error "launch is not pending trust"))

  -- The record that covers the source: the active one, or a new one with the id `trust_id`.
  unfoldable pub ensure_trust : ℕ → LaunchSourceRow → TrustScope → ℕ → Action Db ℕ
  ensure_trust trust_id s scope now = do
    rows ← gets (λ db. db.trust_records)
    elim (existing_trust scope s rows) [
      | some t ↦ pure t.id
      | none ↦
          set_trust_records (rows ++ trust_row trust_id (granted_source s) scope now ∷ [])
          >> pure trust_id
    ]

  unfoldable pub complete_trust : ℕ → String → TrustScope → ℕ → ℕ → Action Db ℕ
  unfolding check_challenge
  complete_trust launch_id nonce scope new_trust_id now = atomically (do
    challenge ← gets (λ db. find (challenge_of launch_id) db.challenges)
    c ← or_raise challenge (value_error "trust challenge not found")
    raise_if (is_some c.used_at) (value_error "trust challenge already used")
    check_challenge c nonce now
    source ← gets (λ db. find (source_of launch_id) db.launch_sources)
    s ← or_raise source (value_error "launch source identity missing")
    trust_id ← ensure_trust new_trust_id s scope now
    modify (use_challenge launch_id now)
    rows ← gets (λ db. db.launches)
    modify (λ db. record db { launches = update (pending_launch launch_id) (authorised now) rows })
    raise_if (not (count (pending_launch launch_id) rows == 1))
        (value_error "launch is not pending trust")
    pure trust_id)
