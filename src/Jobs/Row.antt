-- ===== src/Jobs/Row.antt =====
-- The rows of `jobs`: their key, what their status says, and the statements that read or write one
-- row of the transaction's org.
use otto_factory.Common.{
  Bool, List, Option, false, if◌then◌else◌, leb, none, not, some, true, ℕ, ◌&&◌, ◌==◌,
}
use otto_factory.Common.Text.{Text, codes, text_eq}
use otto_factory.Error.{
  Result, Status, active, cancelled, completed, db, failed, in_progress, job_not_found, ok, ok_or,
  pending, ◌>>=◌,
}
use otto_factory.Store.{Job, Store, Tracker, Tx, github, jira}
use otto_factory.Table.{exists_where, fetch_optional, update_where}

pub Status-discrete : Discrete Status
Status-discrete = hlevel

abbrev pub is_pending : Status → Bool
is_pending pending = true
is_pending _ = false

abbrev pub is_completed : Status → Bool
is_completed completed = true
is_completed _ = false

abbrev pub is_failed : Status → Bool
is_failed failed = true
is_failed _ = false

-- `status IN ('in-progress', 'active')`.
abbrev pub is_claimed : Status → Bool
is_claimed in_progress = true
is_claimed active = true
is_claimed _ = false

-- `Status::is_terminal`.
abbrev pub is_terminal : Status → Bool
is_terminal completed = true
is_terminal failed = true
is_terminal cancelled = true
is_terminal _ = false

-- `status IN ('pending', 'in-progress', 'active')`, the open rows of the ticket index.
abbrev pub is_live : Status → Bool
is_live s = not (is_terminal s)

abbrev pub same_status : Status → Status → Bool
same_status pending pending = true
same_status in_progress in_progress = true
same_status active active = true
same_status completed completed = true
same_status failed failed = true
same_status cancelled cancelled = true
same_status _ _ = false

-- `org_id = $1 AND id = $2`, the primary key.
unfoldable pub is_job : ℕ → Text → Job → Bool
is_job org id j = j.org_id == org && text_eq j.id id

unfoldable pub in_org_job : ℕ → Job → Bool
in_org_job org j = j.org_id == org

-- `Status::as_str` and `Status::from_str`.
unfoldable pub as_str : Status → Text
as_str pending = codes "pending"
as_str in_progress = codes "in-progress"
as_str active = codes "active"
as_str completed = codes "completed"
as_str failed = codes "failed"
as_str cancelled = codes "cancelled"

unfoldable pub from_str : Text → Option Status
from_str s =
    if text_eq s (codes "pending")
    then some pending
    else if text_eq s (codes "in-progress")
    then some in_progress
    else if text_eq s (codes "active")
    then some active
    else if text_eq s (codes "completed")
    then some completed
    else if text_eq s (codes "failed")
    then some failed
    else if text_eq s (codes "cancelled")
    then some cancelled
    else none

-- `claim_expires_at <= now()`, where NULL is not true.
abbrev pub has_lapsed : ℕ → Option ℕ → Bool
has_lapsed now none = false
has_lapsed now (some t) = leb t now

-- A claim that has lapsed: what `claim_jobs` reaps and `ready` offers.
abbrev pub is_stranded : ℕ → Job → Bool
is_stranded now j = is_claimed j.status && has_lapsed now j.claim_expires_at

unfoldable pub get_job : Tx → Text → Store → Result Job
get_job tx id s = ok_or (fetch_optional (is_job tx.org id) s.jobs) (job_not_found id)

-- `UPDATE jobs SET … WHERE org_id = $1 AND id = $2 RETURNING …`, read by `fetch_one`.
unfoldable pub write_row : Tx → Text → (Job → Job) → Store → Result (Job × Store)
write_row tx id f s = do
  j ← ok_or (fetch_optional (is_job tx.org id) s.jobs) db
  ok (f j, record s { jobs = update_where (is_job tx.org id) f s.jobs })

abbrev pub same_tracker : Option Tracker → Option Tracker → Bool
same_tracker (some jira) (some jira) = true
same_tracker (some github) (some github) = true
same_tracker _ _ = false

abbrev pub same_text : Option Text → Option Text → Bool
same_text (some a) (some b) = text_eq a b
same_text _ _ = false

-- The unique index `jobs_org_repo_tracker_ticket_open_idx`: `k` already holds the entry that `j`
-- would have in it.
unfoldable pub holds_ticket : Job → Job → Bool
holds_ticket j k =
    k.org_id == j.org_id
    && not (text_eq k.id j.id)
    && is_live j.status
    && is_live k.status
    && k.repo_id == j.repo_id
    && same_tracker k.tracker j.tracker
    && same_text k.ticket_ref j.ticket_ref

unfoldable pub ticket_taken : Job → List Job → Bool
ticket_taken j jobs = exists_where (holds_ticket j) jobs
