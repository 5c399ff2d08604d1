-- ===== src/Messages/Send.antt =====
-- crates/of-core/src/messages.rs: find_replayed_message and send_message.
use otto_factory.AgentLabel
use otto_factory.Common.{
  Bool, List, Option, [], if◌then◌else◌, is_text, leb, none, not, some, true, ℕ, ◌&&◌, ◌++◌, ◌+◌,
  ◌==◌, ◌∷◌,
}
use otto_factory.Common.Lists.{is_empty}
use otto_factory.Common.Text.{Text, byte_len, trim}
use otto_factory.Error.{
  Result, db, empty_body, err, guard, idempotency_key_conflict, invalid, no_channel, ok, too_long,
  two_channels, ◌>>=◌, ◌>>◌,
}
use otto_factory.Idempotency
use otto_factory.Jobs.Row.{is_job}
use otto_factory.Store.{Message, Repo, Store, Tx}
use otto_factory.Table.{exists_where, fetch_optional, update_where}
use otto_factory.Teams.{VerifiedTeam, in_org}
use otto_factory.Jobs.Cancel.{distinct, is_about, is_repo, or_none}
use otto_factory.Messages.{max_body_len, Post, NewMessage, Board, scope_teams}

abbrev pub check_channel : Option ℕ → Option VerifiedTeam → Result (Unit {0})
check_channel (some r) none = ok tt
check_channel none (some t) = ok tt
check_channel none none = err (invalid no_channel)
check_channel (some r) (some t) = err (invalid two_channels)

abbrev pub check_key : Option Text → Result (Unit {0})
check_key none = ok tt
check_key (some key) = Idempotency.validate key

unfoldable pub check_body : Text → Result (Unit {0})
check_body body = do
  guard (not (is_empty (trim body))) (invalid empty_body)
  guard (leb (byte_len (trim body)) max_body_len) (invalid (too_long (byte_len (trim body))))

-- `t.in_org(org)` of the team, if there is one.
unfoldable pub team_in : ℕ → Option VerifiedTeam → Result (Option ℕ)
team_in org none = ok none
team_in org (some v) = do t ← in_org v org; ok (some t)

unfoldable pub has_key : ℕ → Text → Post → Bool
has_key org key p = p.row.org_id == org && is_text p.idempotency_key key

-- The row that the unique index on the replay key finds in the way.
unfoldable pub holder_of_key : ℕ → Option Text → List Post → Option Post
unfolding has_key
holder_of_key org none posts = none
holder_of_key org (some key) posts = fetch_optional (has_key org key) posts

-- The foreign keys: a repo, a job of the org, a message.
unfoldable pub links_exist : ℕ → NewMessage → Store → List Post → Bool
links_exist org new s posts =
    repo_exists new.repo_id && job_exists new.job_id && parent_exists new.in_reply_to
  where
    repo_exists : Option ℕ → Bool
    repo_exists none = true
    repo_exists (some id) = exists_where (λ (r : Repo). r.id == id) s.repos

    job_exists : Option Text → Bool
    job_exists none = true
    job_exists (some id) = exists_where (is_job org id) s.jobs

    parent_exists : Option ℕ → Bool
    parent_exists none = true
    parent_exists (some id) = exists_where (λ (p : Post). p.row.id == id) posts

module _ (fingerprint : ℕ → NewMessage → Text) where
  -- The insert, or the error of a foreign key.
  unfoldable pub insert_post :
      Tx → ℕ → NewMessage → Option Text → Option ℕ → Store → Board → Result (Post × Board)
  unfolding scope_teams links_exist
  insert_post tx sender new label team s b = do
    guard (links_exist tx.org new s b.posts) db
    let links : Message = record {
      id = b.next_id;
      org_id = tx.org;
      team_id = team;
      repo_id = new.repo_id;
      job_id = new.job_id;
      scope_teams = scope_teams tx.org team new.repo_id new.job_id new.in_reply_to s b.posts;
    }
    let post : Post = record {
      row = links;
      created_at = tx.now;
      sender_user_id = sender;
      sender_label = label;
      sender_kind = new.sender_kind;
      kind = new.kind;
      body = trim new.body;
      in_reply_to = new.in_reply_to;
      idempotency_key = new.idempotency_key;
      idempotency_payload_hash = hash_of new.idempotency_key;
    }
    ok (post, record b { posts = b.posts ++ post ∷ []; next_id = b.next_id + 1 })
    where
      hash_of : Option Text → Option Text
      hash_of none = none
      hash_of (some key) = some (fingerprint sender new)

  -- The message that holds the key, if it was the same call.
  unfoldable pub replay : ℕ → NewMessage → Post → Result Post
  replay sender new p =
      if is_text p.idempotency_payload_hash (fingerprint sender new)
      then ok p
      else err (idempotency_key_conflict (key_of new.idempotency_key))
    where
      key_of : Option Text → Text
      key_of none = []
      key_of (some key) = key

  unfoldable pub find_replayed_message : Tx → ℕ → NewMessage → Board → Result (Option Post)
  unfolding check_body holder_of_key replay
  find_replayed_message tx sender new b = elim new.idempotency_key [
    | none ↦ ok none
    | some key ↦ do
      Idempotency.validate key
      check_body new.body
      found (holder_of_key tx.org new.idempotency_key b.posts)
  ]
    where
      found : Option Post → Result (Option Post)
      found none = do label ← AgentLabel.validate new.sender_label; ok none
      found (some p) = do same ← replay sender new p; ok (some same)

  unfoldable pub post_or_replay :
      Tx
      → ℕ
      → NewMessage
      → Option Text
      → Option ℕ
      → Store
      → Board
      → Option Post
      → Result (Post × Board)
  unfolding insert_post replay
  post_or_replay tx sender new label team s b none = insert_post tx sender new label team s b
  post_or_replay tx sender new label team s b (some p) = do same ← replay sender new p; ok (same, b)

  unfoldable pub send_message : Tx → ℕ → NewMessage → Store → Board → Result (Post × Board)
  unfolding check_body team_in holder_of_key post_or_replay
  send_message tx sender new s b = do
    check_body new.body
    check_channel new.repo_id new.team_id
    check_key new.idempotency_key
    label ← AgentLabel.validate new.sender_label
    team ← team_in tx.org new.team_id
    post_or_replay tx sender new label team s b (holder_of_key tx.org new.idempotency_key b.posts)

-- What delete_job adds to the teams of a message about the job: those of the job and of its repo.
unfoldable pub widened_teams : Tx → Text → Store → List ℕ → List ℕ
widened_teams tx id s kept = elim (fetch_optional (is_job tx.org id) s.jobs) [
  | none ↦ kept
  | some j ↦ elim (fetch_optional (is_repo j.org_id j.repo_id) s.repos) [
    | none ↦ kept
    | some r ↦ distinct (kept ++ (or_none j.team_id ++ or_none r.team_id))
  ]
]

-- The board when delete_job deletes the job from `s`: the messages about it lose the link.
unfoldable pub delete_job_posts : Tx → Text → Store → List Post → List Post
unfolding widened_teams
delete_job_posts tx id s posts =
    update_where (λ p. is_about tx.org id p.row)
      (λ p. record p {
        row = record p.row { job_id = none; scope_teams = widened_teams tx id s p.row.scope_teams };
      })
      posts
