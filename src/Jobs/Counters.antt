-- ===== src/Jobs/Counters.antt =====
-- The per-org counters: the next job number and the totals of completed and failed jobs.
use otto_factory.Common.{
  Bool, List, Option, [], if◌then◌else◌, none, some, ℕ, ◌++◌, ◌+◌, ◌-◌, ◌==◌, ◌∷◌,
}
use otto_factory.Common.Int.{negsuc, pos, ℤ, ◌+ℤ◌}
use otto_factory.Error.{Status, completed, failed}
use otto_factory.Store.{OrgCounters, Store, Tx}
use otto_factory.Table.{exists_where, fetch_optional, update_where}

unfoldable pub is_org : ℕ → OrgCounters → Bool
is_org org c = c.org_id == org

-- `GREATEST($2, 0)`.
abbrev pub greatest_zero : ℤ → ℤ
greatest_zero (pos n) = pos n
greatest_zero (negsuc n) = pos 0

-- `INSERT INTO org_counters … ON CONFLICT (org_id) DO UPDATE SET f`.
unfoldable pub upsert :
    ℕ → OrgCounters → (OrgCounters → OrgCounters) → List OrgCounters → List OrgCounters
upsert org fresh f t =
    if exists_where (is_org org) t then update_where (is_org org) f t else t ++ fresh ∷ []

unfoldable pub add_completed : ℤ → OrgCounters → OrgCounters
add_completed delta c = record c { jobs_completed_total = c.jobs_completed_total +ℤ delta }

unfoldable pub add_failed : ℤ → OrgCounters → OrgCounters
add_failed delta c = record c { jobs_failed_total = c.jobs_failed_total +ℤ delta }

abbrev pub no_counters : ℕ → OrgCounters
no_counters org = record {
  org_id = org;
  next_job_seq = 1;
  jobs_completed_total = pos 0;
  jobs_failed_total = pos 0;
}

-- The counter that a transition into or out of `status` moves, if any.
unfoldable pub bump_rows : ℕ → Status → ℤ → List OrgCounters → List OrgCounters
bump_rows org completed delta t =
    upsert org (record (no_counters org) { jobs_completed_total = greatest_zero delta })
      (add_completed delta) t
bump_rows org failed delta t =
    upsert org (record (no_counters org) { jobs_failed_total = greatest_zero delta })
      (add_failed delta) t
bump_rows org _ delta t = t

unfoldable pub bump_terminal_counter : Tx → Status → ℤ → Store → Store
unfolding bump_rows
bump_terminal_counter tx status delta s = record s {
  org_counters = bump_rows tx.org status delta s.org_counters;
}

unfoldable pub bump_seq : OrgCounters → OrgCounters
bump_seq c = record c { next_job_seq = c.next_job_seq + 1 }

-- `RETURNING next_job_seq - 1`, after the upsert.
unfoldable pub next_job_seq : Tx → Store → ℕ × Store
next_job_seq tx s =
    let t =
      upsert tx.org (record (no_counters tx.org) { next_job_seq = 2 }) bump_seq s.org_counters in
    (seq_of (fetch_optional (is_org tx.org) t), record s { org_counters = t })
  where
    seq_of : Option OrgCounters → ℕ
    seq_of none = 0
    seq_of (some c) = c.next_job_seq - 1
