-- ===== src/Jobs/Query.antt =====
-- The reads of the queue: ready, blocked, list_jobs, the lookups by ticket, and the counts.
use mathlib.Core.List.{reverse}
use otto_factory.Common.{
  Bool, List, Option, [], if◌then◌else◌, leb, none, not, some, true, ℕ, ◌&&◌, ◌==◌, ◌||◌, ◌∷◌,
}
use otto_factory.Common.Int.{pos, ℤ, ◌+ℤ◌}
use otto_factory.Common.Text.{Text, is_text, text_eq}
use otto_factory.Error.{Status, active, cancelled, completed, failed, in_progress, pending}
use otto_factory.Jobs.Claim.{is_blocked}
use otto_factory.Jobs.Counters.{is_org}
use otto_factory.Jobs.Row.{
  is_completed, is_failed, is_live, is_pending, is_stranded, same_status, same_tracker,
}
use otto_factory.Store.{Job, Store, Tracker, Tx}
use otto_factory.Table.{count_where, fetch_optional, select_where}

-- `ORDER BY created_at`, by insertion; rows of one time keep their order.
unfoldable pub insert_by_age : Job → List Job → List Job
insert_by_age j [] = j ∷ []
insert_by_age j (k ∷ ks) =
    if leb j.created_at k.created_at then j ∷ k ∷ ks else k ∷ insert_by_age j ks

unfoldable pub oldest_first : List Job → List Job
unfolding insert_by_age
oldest_first [] = []
oldest_first (j ∷ js) = insert_by_age j (oldest_first js)

unfoldable pub newest_first : List Job → List Job
unfolding oldest_first
newest_first js = reverse (oldest_first js)

abbrev pub none_or : Option ℕ → ℕ → Bool
none_or none n = true
none_or (some m) n = n == m

-- `$3 IS NULL OR agent_type = $3 OR agent_type IS NULL`.
abbrev pub routed_to : Option Text → Option Text → Bool
routed_to none agent_type = true
routed_to (some hint) none = true
routed_to (some hint) (some agent_type) = text_eq agent_type hint

unfoldable pub is_ready : Tx → Option ℕ → Option Text → Store → Job → Bool
is_ready tx repo_id agent_type s j =
    j.org_id == tx.org
    && (is_pending j.status || is_stranded tx.now j)
    && none_or repo_id j.repo_id
    && routed_to agent_type j.agent_type
    && not (is_blocked j.org_id s.jobs s.job_dependencies j.id)

unfoldable pub ready : Tx → Option ℕ → Option Text → Store → List Job
unfolding is_ready
ready tx repo_id agent_type s =
    oldest_first (select_where (is_ready tx repo_id agent_type s) s.jobs)

unfoldable pub is_waiting : Tx → Option ℕ → Store → Job → Bool
is_waiting tx repo_id s j =
    j.org_id == tx.org
    && is_pending j.status
    && none_or repo_id j.repo_id
    && is_blocked j.org_id s.jobs s.job_dependencies j.id

unfoldable pub blocked : Tx → Option ℕ → Store → List Job
unfolding is_waiting
blocked tx repo_id s = oldest_first (select_where (is_waiting tx repo_id s) s.jobs)

unfoldable pub get_job_by_ticket : Tx → Text → Store → Option Job
get_job_by_ticket tx ticket_ref s =
    fetch_optional (λ _. true)
      (newest_first
        (select_where (λ j. j.org_id == tx.org && is_text j.ticket_ref ticket_ref) s.jobs))

abbrev pub is_ticket : ℕ → ℕ → Tracker → Text → Job → Bool
is_ticket org repo_id tracker ticket_ref j =
    j.org_id == org
    && j.repo_id == repo_id
    && same_tracker j.tracker (some tracker)
    && is_text j.ticket_ref ticket_ref

unfoldable pub get_job_by_ticket_for_repo : Tx → ℕ → Tracker → Text → Store → Option Job
get_job_by_ticket_for_repo tx repo_id tracker ticket_ref s =
    fetch_optional (λ _. true)
      (newest_first (select_where (is_ticket tx.org repo_id tracker ticket_ref) s.jobs))

unfoldable pub get_live_job_by_ticket_for_repo : Tx → ℕ → Tracker → Text → Store → Option Job
get_live_job_by_ticket_for_repo tx repo_id tracker ticket_ref s =
    fetch_optional (λ j. is_ticket tx.org repo_id tracker ticket_ref j && is_live j.status) s.jobs

pub record Stats : Type 0 where
  pub pending : ℕ
  pub in_progress : ℕ
  pub active : ℕ
  pub completed : ℤ
  pub failed : ℤ
  pub cancelled : ℕ
  pub blocked : ℕ
  pub total : ℤ

-- `COUNT(*) FILTER (WHERE status = …)` over the rows that pass `p`.
unfoldable pub count_status : (Job → Bool) → Status → List Job → ℕ
count_status p status jobs = count_where (λ j. p j && same_status j.status status) jobs

unfoldable pub count_blocked : (Job → Bool) → Store → ℕ
count_blocked p s =
    count_where
      (λ j. p j && (is_pending j.status && is_blocked j.org_id s.jobs s.job_dependencies j.id))
      s.jobs

unfoldable pub totals : Tx → Store → ℤ × ℤ
totals tx s = elim (fetch_optional (is_org tx.org) s.org_counters) [
  | none ↦ (pos 0, pos 0)
  | some c ↦ (c.jobs_completed_total, c.jobs_failed_total)
]

unfoldable pub org_wide_stats : Tx → Store → Stats
unfolding count_status count_blocked totals
org_wide_stats tx s =
    let rows =
      λ (j : Job). j.org_id == tx.org && not (is_completed j.status || is_failed j.status) in
    let waiting = count_status rows pending s.jobs in
    let held = count_status rows in_progress s.jobs in
    let working = count_status rows active s.jobs in
    let stopped = count_status rows cancelled s.jobs in
    let (done, broken) = totals tx s in
    record {
      pending = waiting;
      in_progress = held;
      active = working;
      completed = done;
      failed = broken;
      cancelled = stopped;
      blocked = count_blocked rows s;
      total = pos waiting +ℤ pos held +ℤ pos working +ℤ done +ℤ broken +ℤ pos stopped;
    }

-- The full scan of `stats` for one repo and of `stats_for_teams`.
unfoldable pub scan_stats : (Job → Bool) → Store → Stats
unfolding count_status count_blocked
scan_stats rows s = record {
  pending = count_status rows pending s.jobs;
  in_progress = count_status rows in_progress s.jobs;
  active = count_status rows active s.jobs;
  completed = pos (count_status rows completed s.jobs);
  failed = pos (count_status rows failed s.jobs);
  cancelled = count_status rows cancelled s.jobs;
  blocked = count_blocked rows s;
  total = pos (count_where rows s.jobs);
}

unfoldable pub stats : Tx → Option ℕ → Store → Stats
unfolding org_wide_stats scan_stats
stats tx none s = org_wide_stats tx s
stats tx (some repo_id) s = scan_stats (λ j. j.org_id == tx.org && j.repo_id == repo_id) s
