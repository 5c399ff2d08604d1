-- ===== src/Jobs/Create.antt =====
-- Creating jobs and tying them to tickets: find_replayed_job, add_job, create_from_ticket,
-- update_from_ticket and link_ticket.
use mathlib.Core.Option
use otto_factory.Idempotency
use otto_factory.AgentLabel.{holder}
use otto_factory.Common.{
  Bool, List, Option, [], false, if◌then◌else◌, ltb, none, not, or_else, some, suc, true, unwrap_or,
  zero, ℕ, ◌%◌, ◌&&◌, ◌++◌, ◌+◌, ◌/◌, ◌==◌, ◌∷◌,
}
use otto_factory.Common.Lists.{is_empty}
use otto_factory.Common.Text.{Text, codes, is_text, text_ltb, trim}
use otto_factory.Error.{
  Result, db, empty_ticket_ref, empty_title, err, guard, idempotency_key_conflict, invalid,
  job_not_found, ok, ok_or, pending, race_lost, repo_not_found, ticket_already_linked, ◌>>=◌, ◌>>◌,
}
use otto_factory.Jobs.Cancel.{is_repo}
use otto_factory.Jobs.Counters.{next_job_seq}
use otto_factory.Jobs.Dependencies.{set_dependencies}
use otto_factory.Jobs.Query.{get_job_by_ticket_for_repo, get_live_job_by_ticket_for_repo}
use otto_factory.Jobs.Row.{get_job, is_job, ticket_taken, write_row}
use otto_factory.Store.{Job, Repo, Store, Tracker, Tx}
use otto_factory.Table.{exists_where, fetch_optional}
use otto_factory.Teams.{VerifiedTeam, in_org}

-- `NewJob`, less the replay key.
pub record Payload : Type 0 where
  pub repo_id : ℕ
  pub team_id : Option VerifiedTeam
  pub title : Text
  pub description : Option Text
  pub ticket_ref : Option Text
  pub tracker : Option Tracker
  pub agent_type : Option Text
  pub metadata : Option Text
  pub depends_on : List Text
  pub created_by : Option ℕ

-- `serde_json::json!({})`.
abbrev pub empty_object : Text
empty_object = codes "{}"

-- What `job_idempotency_fingerprint` hashes: the request, with its title trimmed, its metadata
-- filled in and its dependencies sorted, the team as the caller named it.
unfoldable pub normalize : Payload → Payload
normalize new = record new {
  title = trim new.title;
  metadata = some (unwrap_or new.metadata empty_object);
  depends_on = sort_ids new.depends_on;
}
  where
    insert_sorted : Text → List Text → List Text
    insert_sorted id [] = id ∷ []
    insert_sorted id (x ∷ xs) = if text_ltb x id then x ∷ insert_sorted id xs else id ∷ x ∷ xs

    sort_ids : List Text → List Text
    sort_ids [] = []
    sort_ids (x ∷ xs) = insert_sorted x (sort_ids xs)

-- The decimal digits of a number, as `format!("{seq}")` writes them.
unfoldable pub decimal_on : ℕ → ℕ → Text
decimal_on zero n = []
decimal_on (suc fuel) n =
    let rest = decimal_on fuel (n / 10) in
    if ltb n 10 then (0x30 + n) ∷ [] else rest ++ (0x30 + n % 10) ∷ []

unfoldable pub decimal : ℕ → Text
unfolding decimal_on
decimal n = decimal_on (n + 1) n

-- `JobId::from_seq`.
unfoldable pub from_seq : ℕ → Text
unfolding decimal
from_seq seq = codes "job-" ++ decimal seq

unfoldable pub get_repo : Tx → ℕ → Store → Option Repo
get_repo tx id s = fetch_optional (is_repo tx.org id) s.repos

-- A row as the inserts leave it: the columns that they do not name have their defaults.
abbrev pub new_row : Tx → Text → ℕ → Option ℕ → Text → Job
new_row tx id repo_id team_id title = record {
  id = id;
  org_id = tx.org;
  repo_id = repo_id;
  team_id = team_id;
  title = title;
  description = none;
  status = pending;
  ticket_ref = none;
  tracker = none;
  remote_revision = none;
  agent_type = none;
  metadata = empty_object;
  created_at = tx.now;
  started_at = none;
  completed_at = none;
  attempts = 0;
  result = none;
  error = none;
  created_by = none;
  claimed_by = none;
  claimed_by_label = none;
  claim_expires_at = none;
  cancel_requested_at = none;
  cancel_requested_by = none;
  cancel_reason = none;
  idempotency_key = none;
  idempotency_payload_hash = none;
}

unfoldable pub has_key : ℕ → Text → Job → Bool
has_key org key j = j.org_id == org && is_text j.idempotency_key key

-- How an insert into `jobs` ends: with the row, or refused by the primary key or a unique index.
pub data Inserted : Type 0 where
  row : Job → Store → Inserted
  key_used ticket_used id_used : Inserted

abbrev pub key_taken : Job → List Job → Bool
key_taken j jobs = elim j.idempotency_key [
  | none ↦ false
  | some key ↦ exists_where (has_key j.org_id key) jobs
]

unfoldable pub insert_row : Job → Store → Inserted
insert_row j s =
    if exists_where (is_job j.org_id j.id) s.jobs
    then id_used
    else if key_taken j s.jobs
    then key_used
    else if ticket_taken j s.jobs
    then ticket_used
    else row j (record s { jobs = s.jobs ++ j ∷ [] })

-- The row that `create_from_ticket` inserts under job number `seq`.
unfoldable pub ticket_row :
    Tx → ℕ → ℕ → Option ℕ → Tracker → Text → Text → Option Text → Option Text → Job
ticket_row tx seq repo_id team_id tracker ticket_ref title description remote_revision =
    record (new_row tx (from_seq seq) repo_id team_id (trim title)) {
      description = description;
      ticket_ref = some ticket_ref;
      tracker = some tracker;
      remote_revision = remote_revision;
    }

-- On a ticket that an open job holds, hand back the newest job of that ticket.
unfoldable pub settle_ticket : Tx → ℕ → Tracker → Text → Store → Inserted → Result (Job × Store)
settle_ticket tx repo_id tracker ticket_ref s (row job s1) = ok (job, s1)
settle_ticket tx repo_id tracker ticket_ref s ticket_used =
    ok_or
      (Option.map (λ found. (found, s))
        (get_job_by_ticket_for_repo tx repo_id tracker ticket_ref s))
      race_lost
settle_ticket tx repo_id tracker ticket_ref s key_used = err db
settle_ticket tx repo_id tracker ticket_ref s id_used = err db

unfoldable pub create_from_ticket :
    Tx → ℕ → Tracker → Text → Text → Option Text → Option Text → Store → Result (Job × Store)
create_from_ticket tx repo_id tracker ticket_ref title description remote_revision s = do
  guard (not (is_empty (trim title))) (invalid empty_title)
  repo ← ok_or (get_repo tx repo_id s) (repo_not_found repo_id)
  let (seq, s1) = next_job_seq tx s
  let j =
      ticket_row tx seq repo_id repo.team_id tracker ticket_ref title description remote_revision
  settle_ticket tx repo_id tracker ticket_ref s1 (insert_row j s1)

unfoldable pub settle_plain : Inserted → Result (Job × Bool × Store)
settle_plain (row job s1) = ok (job, true, s1)
settle_plain key_used = err db
settle_plain ticket_used = err db
settle_plain id_used = err db

-- The row that `add_job` inserts under job number `seq`, less the replay key.
unfoldable pub payload_row : Tx → ℕ → Option ℕ → Payload → Job
payload_row tx seq team_id new =
    record (new_row tx (from_seq seq) new.repo_id team_id (trim new.title)) {
      description = new.description;
      ticket_ref = new.ticket_ref;
      tracker = new.tracker;
      agent_type = new.agent_type;
      metadata = unwrap_or new.metadata empty_object;
      created_by = new.created_by;
    }

-- Only for a row that this call inserted.
unfoldable pub depend : Tx → Payload → Job × Bool × Store → Result (Job × Store)
depend tx new (job, created, s) = elim (created && not (is_empty new.depends_on)) [
  | false ↦ ok (job, s)
  | true ↦ do (_, s1) ← set_dependencies tx job.id new.depends_on [] s; ok (job, s1)
]

abbrev pub check_key : Option Text → Result (Unit {0})
check_key none = ok tt
check_key (some key) = Idempotency.validate key

abbrev pub team_of : Tx → Option VerifiedTeam → Repo → Result (Option ℕ)
team_of tx none repo = ok repo.team_id
team_of tx (some v) repo = do t ← in_org v tx.org; ok (some t)

-- The fingerprint, SHA-256 of the payload's JSON, is a parameter.
module _ (fingerprint : Payload → Text) where
  abbrev hash_of : Payload → Text
  hash_of new = fingerprint (normalize new)

  unfoldable pub find_replayed_job : Tx → Payload → Option Text → Store → Result (Option Job)
  unfolding normalize
  find_replayed_job tx new none s = ok none
  find_replayed_job tx new (some key) s = do
    Idempotency.validate key
    elim (fetch_optional (has_key tx.org key) s.jobs) [
      | none ↦ ok none
      | some j ↦ do
        guard (is_text j.idempotency_payload_hash (hash_of new)) (idempotency_key_conflict key)
        found ← get_job tx j.id s
        ok (some found)
    ]

  -- With a key already used, converge on the job of that key. The flag says whether a row was
  -- inserted.
  unfoldable pub settle_key : Tx → Payload → Text → Store → Inserted → Result (Job × Bool × Store)
  unfolding normalize
  settle_key tx new key s (row job s1) = ok (job, true, s1)
  settle_key tx new key s key_used = do
    winner ← ok_or (fetch_optional (has_key tx.org key) s.jobs) race_lost
    guard (is_text winner.idempotency_payload_hash (hash_of new)) (idempotency_key_conflict key)
    job ← get_job tx winner.id s
    ok (job, false, s)
  settle_key tx new key s ticket_used = err db
  settle_key tx new key s id_used = err db

  abbrev keyed : Payload → Text → Job → Job
  keyed new key j = record j {
    idempotency_key = some key;
    idempotency_payload_hash = some (hash_of new);
  }

  unfoldable pub place : Tx → Payload → Job → Option Text → Store → Result (Job × Bool × Store)
  unfolding settle_key settle_plain
  place tx new j none s = settle_plain (insert_row j s)
  place tx new j (some key) s = settle_key tx new key s (insert_row (keyed new key j) s)

  unfoldable pub add_job : Tx → Payload → Option Text → Store → Result (Job × Store)
  add_job tx new idempotency_key s = do
    guard (not (is_empty (trim new.title))) (invalid empty_title)
    check_key idempotency_key
    repo ← ok_or (get_repo tx new.repo_id s) (repo_not_found new.repo_id)
    let (seq, s1) = next_job_seq tx s
    team_id ← team_of tx new.team_id repo
    placed ← place tx new (payload_row tx seq team_id new) idempotency_key s1
    depend tx new placed

unfoldable pub retitle : Text → Option Text → Option Text → Job → Job
retitle title description remote_revision j = record j {
  title = title;
  description = description;
  remote_revision = or_else remote_revision j.remote_revision;
}

unfoldable pub update_from_ticket :
    Tx → Text → Text → Option Text → Option Text → Store → Result (Job × Store)
unfolding retitle
update_from_ticket tx id title description remote_revision s = do
  guard (not (is_empty (trim title))) (invalid empty_title)
  current ← ok_or (fetch_optional (is_job tx.org id) s.jobs) (job_not_found id)
  write_row tx id (retitle (trim title) description remote_revision) s

unfoldable pub relink : Tracker → Text → Job → Job
relink tracker ticket_ref j = record j {
  tracker = some tracker;
  ticket_ref = some ticket_ref;
  remote_revision = none;
}

unfoldable pub link_ticket : Tx → Text → Tracker → Text → Store → Result (Job × Store)
unfolding relink
link_ticket tx id tracker ticket_ref s = do
  guard (not (is_empty (trim ticket_ref))) (invalid empty_ticket_ref)
  current ← ok_or (fetch_optional (is_job tx.org id) s.jobs) (job_not_found id)
  elim (ticket_taken (relink tracker ticket_ref current) s.jobs) [
    | false ↦ write_row tx id (relink tracker ticket_ref) s
    | true ↦ do
      holder ←
          ok_or (get_live_job_by_ticket_for_repo tx current.repo_id tracker ticket_ref s) race_lost
      err (ticket_already_linked ticket_ref holder.id)
  ]
