-- ===== src/Store.antt =====
-- The tables of crates/of-core/migrations that the modelled operations read and write, and the
-- tenant transaction `Tx`: the org it is pinned to and its time, `now()`, in microseconds.
use otto_factory.Common.{Bool, List, Option, ℕ, ◌*◌}
use otto_factory.Common.Int.{ℤ}
use otto_factory.Common.Text.{Text}
use otto_factory.Error.{Status}

pub data Tracker : Type 0 where
  jira github : Tracker

-- jobs.rs, `struct Job`, with the two columns of the replay key. Ids of users, orgs, repos and teams
-- are numbers; `metadata` is opaque.
pub record Job : Type 0 where
  pub id : Text
  pub org_id : ℕ
  pub repo_id : ℕ
  pub team_id : Option ℕ
  pub title : Text
  pub description : Option Text
  pub status : Status
  pub ticket_ref : Option Text
  pub tracker : Option Tracker
  pub remote_revision : Option Text
  pub agent_type : Option Text
  pub metadata : Text
  pub created_at : ℕ
  pub started_at : Option ℕ
  pub completed_at : Option ℕ
  pub attempts : ℕ
  pub result : Option Text
  pub error : Option Text
  pub created_by : Option ℕ
  pub claimed_by : Option ℕ
  pub claimed_by_label : Option Text
  pub claim_expires_at : Option ℕ
  pub cancel_requested_at : Option ℕ
  pub cancel_requested_by : Option ℕ
  pub cancel_reason : Option Text
  pub idempotency_key : Option Text
  pub idempotency_payload_hash : Option Text

pub record Dependency : Type 0 where
  pub org_id : ℕ
  pub job_id : Text
  pub depends_on : Text

-- repos.rs, `enum Provider`.
pub data Provider : Type 0 where
  on_github on_gitlab on_bitbucket other_provider : Provider

-- repos.rs, `struct Repo`. `tracker_binding` is opaque.
pub record Repo : Type 0 where
  pub id : ℕ
  pub org_id : ℕ
  pub slug : Text
  pub name : Text
  pub provider : Provider
  pub default_branch : Text
  pub team_id : Option ℕ
  pub default_agent_type : Option Text
  pub tracker_binding : Text
  pub active : Bool
  pub created_at : ℕ
  pub created_by : Option ℕ

-- A row of repo_remotes.
pub record RepoRemote : Type 0 where
  pub org_id : ℕ
  pub repo_id : ℕ
  pub normalized : Text

-- messages.rs, `struct Message`: its links and the teams it was scoped to when it was sent.
pub record Message : Type 0 where
  pub id : ℕ
  pub org_id : ℕ
  pub team_id : Option ℕ
  pub repo_id : Option ℕ
  pub job_id : Option Text
  pub scope_teams : List ℕ

-- The row of `org_counters`, created on first use.
pub record OrgCounters : Type 0 where
  pub org_id : ℕ
  pub next_job_seq : ℕ
  pub jobs_completed_total : ℤ
  pub jobs_failed_total : ℤ

pub record Store : Type 0 where
  pub jobs : List Job
  pub job_dependencies : List Dependency
  pub org_counters : List OrgCounters
  pub repos : List Repo
  pub messages : List Message

pub record Tx : Type 0 where
  pub org : ℕ
  pub now : ℕ

-- `make_interval(secs => n)`.
abbrev pub secs : ℕ → ℕ
secs n = n * 1000000
