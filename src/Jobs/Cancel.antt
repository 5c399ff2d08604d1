-- ===== src/Jobs/Cancel.antt =====
-- Stopping, closing, returning and removing a job: request_cancel, cancel_job, close_from_ticket,
-- repend_job, delete_job, update_job and set_remote_revision.
use otto_factory.Common.{
  Bool, List, Option, [], false, if◌then◌else◌, is_some, none, not, or_else, some, true, unwrap_or,
  ℕ, ◌&&◌, ◌++◌, ◌==◌, ◌||◌, ◌∷◌,
}
use otto_factory.Common.Int.{negsuc, pos}
use otto_factory.Common.Lists.{any}
use otto_factory.Common.Text.{Text, is_text, text_eq}
use otto_factory.Error.{
  Result, Status, cancelled, completed, db, empty_update, expected_live, expected_not_pending,
  failed, guard, in_status, invalid, job_not_found, no_cancel_request, not_a_close, ok, ok_or,
  pending, wrong_status, ◌>>=◌, ◌>>◌,
}
use otto_factory.Jobs.Claim.{ensure_claim_held}
use otto_factory.Jobs.Counters.{bump_terminal_counter}
use otto_factory.Jobs.Row.{is_job, is_live, is_pending, is_terminal, ticket_taken, write_row}
use otto_factory.Store.{Dependency, Job, Message, Repo, Store, Tx}
use otto_factory.Table.{delete_where, exists_where, fetch_optional, update_where}

abbrev pub is_close : Status → Bool
is_close completed = true
is_close failed = true
is_close _ = false

-- A pending job has no holder to wait on, so it is cancelled at once.
unfoldable pub stamp_cancel : Tx → ℕ → Option Text → Job → Job
stamp_cancel tx requested_by reason j = record j {
  cancel_requested_at = some tx.now;
  cancel_requested_by = some requested_by;
  cancel_reason = reason;
}

unfoldable pub cancel_now : Tx → ℕ → Option Text → Job → Job
unfolding stamp_cancel
cancel_now tx requested_by reason j = record (stamp_cancel tx requested_by reason j) {
  status = cancelled;
  completed_at = some tx.now;
}

unfoldable pub request_cancel : Tx → Text → ℕ → Option Text → Store → Result (Job × Store)
unfolding stamp_cancel cancel_now
request_cancel tx id requested_by reason s = do
  current ← ok_or (fetch_optional (is_job tx.org id) s.jobs) (job_not_found id)
  guard (not (is_terminal current.status))
      (wrong_status id (in_status current.status) expected_live)
  write_row tx id (stop current.status) s
  where
    stop : Status → Job → Job
    stop status =
        if is_pending status
        then cancel_now tx requested_by reason
        else stamp_cancel tx requested_by reason

unfoldable pub confirm_cancel : Tx → Option Text → Job → Job
confirm_cancel tx note j = record j {
  status = cancelled;
  completed_at = some tx.now;
  error = note;
  claim_expires_at = none;
}

unfoldable pub cancel_job : Tx → Text → ℕ → Option Text → Option ℕ → Store → Result (Job × Store)
unfolding confirm_cancel
cancel_job tx id caller note expected_attempts s = do
  ensure_claim_held tx id caller expected_attempts true s
  current ← ok_or (fetch_optional (is_job tx.org id) s.jobs) db
  guard (is_some current.cancel_requested_at) (invalid no_cancel_request)
  write_row tx id (confirm_cancel tx note) s

unfoldable pub close : Tx → Status → Option Text → Option Text → Option Text → Job → Job
close tx to result error remote_revision j = record j {
  status = to;
  completed_at = some tx.now;
  result = result;
  error = error;
  remote_revision = or_else remote_revision j.remote_revision;
  claim_expires_at = none;
}

unfoldable pub close_from_ticket :
    Tx → Text → Status → Option Text → Option Text → Option Text → Store → Result (Job × Store)
unfolding close
close_from_ticket tx id to result error remote_revision s = do
  guard (is_close to) (invalid not_a_close)
  current ← ok_or (fetch_optional (is_job tx.org id) s.jobs) (job_not_found id)
  guard (is_live current.status) (wrong_status id (in_status current.status) expected_live)
  (job, s1) ← write_row tx id (close tx to result error remote_revision) s
  ok (job, bump_terminal_counter tx to (pos 1) s1)

unfoldable pub repend : Job → Job
repend j = record j {
  status = pending;
  started_at = none;
  completed_at = none;
  result = none;
  error = none;
  claimed_by = none;
  claimed_by_label = none;
  claim_expires_at = none;
  cancel_requested_at = none;
  cancel_requested_by = none;
  cancel_reason = none;
}

-- A terminal job that comes back enters the index of open tickets, which may refuse it.
unfoldable pub repend_job : Tx → Text → Store → Result (Job × Store)
unfolding repend
repend_job tx id s = do
  current ← ok_or (fetch_optional (is_job tx.org id) s.jobs) (job_not_found id)
  guard (not (is_pending current.status))
      (wrong_status id (in_status current.status) expected_not_pending)
  guard (not (ticket_taken (repend current) s.jobs)) db
  (job, s1) ← write_row tx id repend s
  ok (job, bump_terminal_counter tx current.status (negsuc 0) s1)

-- `SELECT DISTINCT`.
unfoldable pub distinct : List ℕ → List ℕ
distinct [] = []
distinct (x ∷ xs) = if any (λ y. y == x) xs then distinct xs else x ∷ distinct xs

abbrev pub or_none : Option ℕ → List ℕ
or_none none = []
or_none (some t) = t ∷ []

unfoldable pub is_repo : ℕ → ℕ → Repo → Bool
is_repo org id r = r.org_id == org && r.id == id

unfoldable pub is_about : ℕ → Text → Message → Bool
is_about org id m = m.org_id == org && is_text m.job_id id

unfoldable pub widen : Job → Repo → Message → Message
widen j r m = record m {
  scope_teams = distinct (m.scope_teams ++ (or_none j.team_id ++ or_none r.team_id));
}

-- The statement joins the job and its repo: without either it changes no message.
unfoldable pub widen_messages : Tx → Text → Store → List Message
unfolding widen
widen_messages tx id s = elim (fetch_optional (is_job tx.org id) s.jobs) [
  | none ↦ s.messages
  | some j ↦ elim (fetch_optional (is_repo j.org_id j.repo_id) s.repos) [
    | none ↦ s.messages
    | some r ↦ update_where (is_about tx.org id) (widen j r) s.messages
  ]
]

abbrev pub unlink : Message → Message
unlink m = record m { job_id = none }

unfoldable pub mentions : ℕ → Text → Dependency → Bool
mentions org id d = d.org_id == org && (text_eq d.job_id id || text_eq d.depends_on id)

-- The foreign keys cascade: the job's dependencies go with it, and its messages lose the link.
unfoldable pub delete_job : Tx → Text → Store → Result Store
unfolding widen_messages
delete_job tx id s = do
  let messages = widen_messages tx id s
  deleted ← ok_or (fetch_optional (is_job tx.org id) s.jobs) (job_not_found id)
  ok (
      bump_terminal_counter tx deleted.status (negsuc 0) (record s {
        jobs = delete_where (is_job tx.org id) s.jobs;
        job_dependencies = delete_where (mentions tx.org id) s.job_dependencies;
        messages = update_where (is_about tx.org id) unlink messages;
      }))

unfoldable pub set_revision : Text → Job → Job
set_revision revision j = record j { remote_revision = some revision }

unfoldable pub set_remote_revision : Tx → Text → Text → Store → Result Store
unfolding set_revision
set_remote_revision tx id revision s = do
  guard (exists_where (is_job tx.org id) s.jobs) (job_not_found id)
  ok (record s { jobs = update_where (is_job tx.org id) (set_revision revision) s.jobs })

unfoldable pub edit : Option Text → Option Text → Option Text → Option Text → Job → Job
edit title description agent_type metadata j = record j {
  title = unwrap_or title j.title;
  description = or_else description j.description;
  agent_type = or_else agent_type j.agent_type;
  metadata = unwrap_or metadata j.metadata;
}

unfoldable pub update_job :
    Tx → Text → Option Text → Option Text → Option Text → Option Text → Store → Result (Job × Store)
unfolding edit
update_job tx id title description agent_type metadata s = do
  guard (is_some title || is_some description || is_some agent_type || is_some metadata)
      (invalid empty_update)
  current ← ok_or (fetch_optional (is_job tx.org id) s.jobs) (job_not_found id)
  write_row tx id (edit title description agent_type metadata) s
