-- ===== src/Tools/Reads.antt =====
-- crates/of-mcp/src/tools/jobs.rs: the tools that read jobs.
use otto_factory.Common.{Bool, Option, if◌then◌else◌, none, some}
use otto_factory.Common.Int.{ℤ}
use otto_factory.Common.Text.{Text, codes}
use otto_factory.Error.{Result, Status, bad_status, invalid, ok, ok_or, ◌>>=◌, ◌>>◌}
use otto_factory.Jobs.Query.{blocked, ready, stats}
use otto_factory.Jobs.Row.{from_str}
use otto_factory.Jobs.Visible.{get_job_visible, list_jobs, stats_for_teams}
use otto_factory.Lifecycle.{Database}
use otto_factory.Scopes.{jobs_read}
use otto_factory.Teams.{restriction}
use otto_factory.Tools.{
  Reply, Work, require_scope, Request, job_out, jobs_out, maybe_repo_of, metered, retain_visible,
  stats_out,
}

-- The repo as the caller names it, by slug or by remote.
pub record RepoScopeArgs : Type 0 where
  pub repo : Option Text
  pub remote : Option Text

pub record ListJobsArgs : Type 0 where
  pub status : Option Text
  pub scope : RepoScopeArgs
  pub mine : Bool
  pub agent_type : Option Text
  pub limit : Option ℤ

unfoldable pub get_job_work : Text → Work
get_job_work id team tx d = do job ← get_job_visible tx id team d.queue; ok (job_out job, d)

unfoldable pub get_job_tool : Request → Text → Database → Result (Reply × Database)
unfolding get_job_work metered
get_job_tool q id d = metered q jobs_read (codes "get_job") (get_job_work id) d

abbrev pub parse_status : Option Text → Result (Option Status)
parse_status none = ok none
parse_status (some s) = do status ← ok_or (from_str s) (invalid (bad_status s)); ok (some status)

module _ (to_lowercase : Text → Text) where
  unfoldable pub list_jobs_work : Request → Option Status → ListJobsArgs → Work
  list_jobs_work q status a team tx d = do
    repo_id ← maybe_repo_of to_lowercase tx team a.scope.repo a.scope.remote d
    ok (
      jobs_out (
          list_jobs tx
            (record {
              status = status;
              repo_id = repo_id;
              team_id = none;
              visible_teams = restriction team;
              created_by = if a.mine then some q.caller.user_id else none;
              agent_type = a.agent_type;
              limit = a.limit;
            })
            d.queue),
      d,
    )

  -- The status is read before anything is asked of the platform or the database.
  unfoldable pub list_jobs_tool : Request → ListJobsArgs → Database → Result (Reply × Database)
  unfolding list_jobs_work metered
  list_jobs_tool q a d = do
    require_scope q.caller jobs_read
    status ← parse_status a.status
    metered q jobs_read (codes "list_jobs") (list_jobs_work q status a) d

  unfoldable pub ready_work : RepoScopeArgs → Option Text → Work
  ready_work a agent_type team tx d = do
    repo_id ← maybe_repo_of to_lowercase tx team a.repo a.remote d
    ok (jobs_out (retain_visible tx team (ready tx repo_id agent_type d.queue) d.queue), d)

  unfoldable pub ready_tool :
      Request → RepoScopeArgs → Option Text → Database → Result (Reply × Database)
  unfolding ready_work metered
  ready_tool q a agent_type d = metered q jobs_read (codes "ready") (ready_work a agent_type) d

  unfoldable pub blocked_work : RepoScopeArgs → Work
  blocked_work a team tx d = do
    repo_id ← maybe_repo_of to_lowercase tx team a.repo a.remote d
    ok (jobs_out (retain_visible tx team (blocked tx repo_id d.queue) d.queue), d)

  unfoldable pub blocked_tool : Request → RepoScopeArgs → Database → Result (Reply × Database)
  unfolding blocked_work metered
  blocked_tool q a d = metered q jobs_read (codes "blocked") (blocked_work a) d

  unfoldable pub stats_work : RepoScopeArgs → Work
  stats_work a team tx d = do
    repo_id ← maybe_repo_of to_lowercase tx team a.repo a.remote d
    ok (
      stats_out (elim (restriction team) [
        | none ↦ stats tx repo_id d.queue
        | some mine ↦ stats_for_teams tx repo_id mine d.queue
      ]),
      d,
    )

  unfoldable pub stats_tool : Request → RepoScopeArgs → Database → Result (Reply × Database)
  unfolding stats_work metered
  stats_tool q a d = metered q jobs_read (codes "stats") (stats_work a) d
