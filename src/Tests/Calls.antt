-- ===== src/Tests/Calls.antt =====
-- The theorems on the tools on jobs: a caller on team 5, and a repo of team 9.
use otto_factory.Billing.Meter.{billable_blocked, charge_completion}
use otto_factory.Billing.Outbox.{enqueue, record_job_completed, tool_of}
use otto_factory.Common.{
  List, [], arith, false, none, refl, some, true, ℕ, false, ◌∙◌, ◌∷◌, ◌≡◌, ◌≤◌,
}
use otto_factory.Common.Text.{Text, codes, text_eq}
use otto_factory.Error.{Result, err, in_progress, ok}
use otto_factory.Jobs.Cancel.{is_repo}
use otto_factory.Jobs.Claim.{check_claim, complete_job, ensure_claim_held, finalize, finish}
use otto_factory.Jobs.Counters.{bump_rows, bump_terminal_counter}
use otto_factory.Jobs.Create.{Payload}
use otto_factory.Jobs.History.{adds, no_rows, run, run-IsConsistent, Call, step}
use otto_factory.Jobs.Tenancy.{step-IsUntouched}
use otto_factory.Jobs.Row.{get_job, is_job, write_row}
use otto_factory.Jobs.Visible.{get_job_visible_held}
use otto_factory.Lifecycle.{Database, begin_live, is_tombstoned, revoked}
use otto_factory.Repos.{hold_repo_visible}
use otto_factory.Store.{Job, Repo, Store, Tx, other_provider, secs}
use otto_factory.Table.{count_where, exists_where, fetch_optional, update_where}
use otto_factory.Teams.{allows, for_member, is_all, member_ids}
use otto_factory.Tests.Queue.{pending_job}
use otto_factory.Tools.{
  Reply, Request, charge_completed, ensure_each, ensure_jobs_visible, has_scope, job_out, open_call,
  open_tx, require_scope, team_scope,
}
use otto_factory.Tools.Calls.{after_call, call_complete, call_delete, perform}
use otto_factory.Tools.Hidden.{IsContained}
use otto_factory.Tools.Opening.{tx_of}
use otto_factory.Tools.Recorded.{IsRecorded, perform-IsRecorded}
use otto_factory.Tools.Unseen.{after_call-IsContained}
use otto_factory.Tools.Writes.{complete_job_tool, complete_job_work}

abbrev print : Payload → Text
print new = new.title

abbrev pub same_case : Text → Text
same_case t = t

abbrev pub open_repo : Repo
open_repo = record {
  id = 3;
  org_id = 1;
  slug = codes "core";
  name = codes "core";
  provider = other_provider;
  default_branch = codes "main";
  team_id = none;
  default_agent_type = none;
  tracker_binding = codes "{}";
  active = true;
  created_at = 0;
  created_by = none;
}

abbrev pub closed_repo : Repo
closed_repo = record open_repo { id = 4; slug = codes "vault"; team_id = some 9 }

abbrev pub both_repos : List Repo
both_repos = closed_repo ∷ open_repo ∷ []

abbrev first_work : ℕ → List Text → Payload
first_work repo_id depends_on = record {
  repo_id = repo_id;
  team_id = none;
  title = codes "build";
  description = none;
  ticket_ref = none;
  tracker = none;
  agent_type = none;
  metadata = none;
  depends_on = depends_on;
  created_by = some 8;
}

abbrev pub dawn : Tx
dawn = record { org = 1; now = 0 }

-- A job of the open repo, and one of the closed repo that depends on it.
abbrev two_jobs : List (Tx × Call)
two_jobs =
    (dawn, adds (first_work 3 []) none) ∷ (dawn, adds (first_work 4 (codes "job-1" ∷ [])) none) ∷ []

abbrev database_of : Store → Database
database_of s = record {
  queue = s;
  leases = [];
  cursors = [];
  usage_outbox = [];
  usage_outbox_rejected = [];
  sessions = [];
  tracker_bindings = [];
  tracker_connection_index = [];
  tracker_connections = [];
  repo_remotes = [];
  audit_events = [];
  platform_events = [];
  deleted_orgs = [];
  removed_members = [];
}

abbrev member_call : Request
member_call = record {
  caller = record { user_id = 7; org_id = 1; scopes = codes "jobs:write" ∷ [] };
  now = secs 1;
  usage_id = 1;
  event_id = 50;
  platform_member = λ org user. ok (some false);
  platform_member_teams = λ org user. ok (some (record { id = 5; org_id = 1 } ∷ []));
  warmed = record { status = none };
}

abbrev shared_database : Database
shared_database = database_of (run print (record no_rows { repos = both_repos }) two_jobs)

distinct_ids : (id : ℕ) → count_where (is_repo 1 id) shared_database.queue.repos ≤ 1
unfolding count_where is_repo
distinct_ids id = rw repos_kept (ground arith)
  where
    first : Store
    first = step print (record no_rows { repos = both_repos }) (dawn, adds (first_work 3 []) none)

    repos_kept : shared_database.queue.repos ≡ both_repos
    repos_kept =
        unfold run in
        ((step-IsUntouched print 2 dawn first (adds (first_work 4 (codes "job-1" ∷ [])) none)
            (omega arith)).repos
          ∙ (step-IsUntouched print 2 dawn (record no_rows { repos = both_repos })
              (adds (first_work 3 []) none) (omega arith)).repos)

after_call-IsContained_example :
    IsContained
      (tx_of member_call)
      (5 ∷ [])
      shared_database.queue
      (after_call same_case print member_call (call_delete (codes "job-1")) shared_database).queue
unfolding team_scope for_member member_ids
after_call-IsContained_example =
    after_call-IsContained same_case print member_call (5 ∷ []) shared_database
      (run-IsConsistent print both_repos two_jobs) distinct_ids refl (call_delete (codes "job-1"))

abbrev held_job : Job
held_job = record pending_job {
  status = in_progress;
  attempts = 1;
  claimed_by = some 7;
  claim_expires_at = some (secs 900);
}

abbrev held_database : Database
held_database = database_of (record no_rows { jobs = held_job ∷ []; repos = both_repos })

abbrev reply_of : Result (Reply × Database) → Reply
reply_of (ok (reply, d)) = reply
reply_of (err e) = job_out pending_job

abbrev completion : Result (Reply × Database)
completion =
    perform same_case print member_call (call_complete (codes "job-1") none (some 1)) held_database

perform-IsRecorded_example :
    IsRecorded member_call (codes "jobs:write") (codes "complete_job") true held_database (
      after_call same_case print member_call
        (call_complete (codes "job-1") none (some 1))
        held_database)
unfolding perform after_call complete_job_tool complete_job_work text_eq for_member member_ids
    begin_live revoked is_tombstoned exists_where charge_completion billable_blocked
    record_job_completed enqueue ensure_jobs_visible ensure_each is_all get_job_visible_held get_job
    hold_repo_visible fetch_optional is_job allows is_repo complete_job ensure_claim_held
    check_claim finalize write_row finish update_where bump_terminal_counter bump_rows open_call
    charge_completed require_scope has_scope team_scope open_tx tool_of
perform-IsRecorded_example =
    perform-IsRecorded same_case print member_call held_database
      (call_complete (codes "job-1") none (some 1)) (reply_of completion)
      (after_call same_case print member_call (call_complete (codes "job-1") none (some 1))
        held_database)
      refl
