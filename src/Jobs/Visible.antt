-- ===== src/Jobs/Visible.antt =====
-- What a team scope sees of the queue: job_visible_sql and the reads that use it.
use otto_factory.Common.{
  Bool, List, Option, [], false, map, none, not, some, true, unwrap_or, ℕ, ◌&&◌, ◌==◌, ◌||◌,
}
use otto_factory.Common.Int.{clamp, pos, ℤ}
use otto_factory.Common.Lists.{any, take}
use otto_factory.Common.Text.{Text, text_eq}
use otto_factory.Error.{Result, Status, guard, job_not_found, ok, ◌>>=◌, ◌>>◌}
use otto_factory.Jobs.Claim.{has_id, sort_dedup}
use otto_factory.Jobs.Query.{Stats, newest_first, none_or, routed_to, scan_stats}
use otto_factory.Jobs.Row.{get_job, same_status}
use otto_factory.Repos.{hold_repo_visible}
use otto_factory.Store.{Dependency, Job, Repo, Store, Tx}
use otto_factory.Table.{exists_where, select_where}
use otto_factory.Teams.{TeamScope, allows, has_team, is_all, restriction}

-- `team_id IS NOT NULL AND NOT team_id = ANY($n)`.
abbrev pub outside : List ℕ → Option ℕ → Bool
outside mine none = false
outside mine (some t) = not (has_team mine t)

-- The repo of the job is there and belongs to a team that is not listed.
unfoldable pub on_hidden_repo : List ℕ → List Repo → Job → Bool
on_hidden_repo mine repos j =
    exists_where (λ (r : Repo). r.org_id == j.org_id && r.id == j.repo_id && outside mine r.team_id)
      repos

-- `job_visible_sql`: `none` is the NULL array.
unfoldable pub job_visible : Option (List ℕ) → List Repo → Job → Bool
unfolding on_hidden_repo
job_visible none repos j = true
job_visible (some mine) repos j = not (outside mine j.team_id) && not (on_hidden_repo mine repos j)

pub record JobFilter : Type 0 where
  pub status : Option Status
  pub repo_id : Option ℕ
  pub team_id : Option ℕ
  pub visible_teams : Option (List ℕ)
  pub created_by : Option ℕ
  pub agent_type : Option Text
  pub limit : Option ℤ

abbrev pub none_or_status : Option Status → Status → Bool
none_or_status none s = true
none_or_status (some wanted) s = same_status s wanted

-- `$4 IS NULL OR column = $4`, for a column that may be NULL.
abbrev pub none_or_id : Option ℕ → Option ℕ → Bool
none_or_id none column = true
none_or_id (some n) none = false
none_or_id (some n) (some m) = m == n

unfoldable pub is_listed : Tx → JobFilter → Store → Job → Bool
is_listed tx f s j =
    j.org_id == tx.org
    && none_or_status f.status j.status
    && none_or f.repo_id j.repo_id
    && none_or_id f.team_id j.team_id
    && none_or_id f.created_by j.created_by
    && routed_to f.agent_type j.agent_type
    && job_visible f.visible_teams s.repos j

unfoldable pub list_jobs : Tx → JobFilter → Store → List Job
unfolding is_listed
list_jobs tx f s =
    take (clamp (unwrap_or f.limit (pos 200)) 1 1000)
      (newest_first (select_where (is_listed tx f s) s.jobs))

unfoldable pub stats_for_teams : Tx → Option ℕ → List ℕ → Store → Stats
unfolding job_visible
stats_for_teams tx repo_id mine s =
    scan_stats
      (λ j. j.org_id == tx.org && none_or repo_id j.repo_id && job_visible (some mine) s.repos j) s

-- The set of `hidden_repo_ids`, and whether it has a repo.
unfoldable pub hidden_repo_ids : Tx → TeamScope → Store → List ℕ
hidden_repo_ids tx scope s = hidden_of (restriction scope)
  where
    hidden_of : Option (List ℕ) → List ℕ
    hidden_of none = []
    hidden_of (some mine) =
        map (λ (r : Repo). r.id)
          (select_where (λ (r : Repo). r.org_id == tx.org && outside mine r.team_id) s.repos)

abbrev pub contains_id : List ℕ → ℕ → Bool
contains_id ids id = any (λ n. n == id) ids

-- `retain_visible` and `get_job_visible` test a job alike.
unfoldable pub is_shown : Tx → TeamScope → Store → Job → Bool
unfolding hidden_repo_ids
is_shown tx scope s j =
    allows scope j.team_id && not (contains_id (hidden_repo_ids tx scope s) j.repo_id)

unfoldable pub get_job_visible : Tx → Text → TeamScope → Store → Result Job
unfolding get_job is_shown
get_job_visible tx id scope s = do
  job ← get_job tx id s
  guard (is_all scope || is_shown tx scope s job) (job_not_found id)
  ok job

-- The row lock on the repo keeps the answer true until the transaction ends.
unfoldable pub get_job_visible_held : Tx → Text → TeamScope → Store → Result Job
unfolding get_job hold_repo_visible
get_job_visible_held tx id scope s = do
  job ← get_job tx id s
  guard
      (is_all scope
        || (allows scope job.team_id
            && hold_repo_visible tx job.repo_id scope (record { repos = s.repos; remotes = [] })))
      (job_not_found id)
  ok job

-- `ORDER BY j.id`.
unfoldable pub visible_job_ids : Tx → List Text → TeamScope → Store → List Text
unfolding job_visible
visible_job_ids tx ids scope s = sort_dedup (
    map (λ (j : Job). j.id)
      (select_where
        (λ (j : Job).
          j.org_id == tx.org && has_id ids j.id && job_visible (restriction scope) s.repos j)
        s.jobs))

-- An edge of another job to this one, from a job that the scope does not see.
unfoldable pub is_hidden_dependent : Tx → Text → Option (List ℕ) → Store → Dependency → Bool
unfolding job_visible
is_hidden_dependent tx id mine s d =
    d.org_id == tx.org
    && text_eq d.depends_on id
    && exists_where
        (λ (j : Job).
          j.org_id == d.org_id && text_eq j.id d.job_id && not (job_visible mine s.repos j))
        s.jobs

unfoldable pub has_hidden_dependents : Tx → Text → TeamScope → Store → Bool
unfolding is_hidden_dependent
has_hidden_dependents tx id scope s =
    not (is_all scope)
    && exists_where (is_hidden_dependent tx id (restriction scope) s) s.job_dependencies
