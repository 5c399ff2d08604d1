-- ===== src/Jobs/Invariant.antt =====
-- What holds of the store between two operations on jobs, and the rules by which a write of one row
-- keeps it.
use otto_factory.Common.{Bool, List, arith, refl, some, true, ℕ, ◌&&◌, ◌==◌, ◌≡◌, ◌≤◌}
use otto_factory.Common.Int.{negsuc, pos}
use otto_factory.Common.Lists.{All}
use otto_factory.Common.Text.{Text, text_eq_sound}
use otto_factory.Jobs.Counters.{bump_rows}
use otto_factory.Jobs.Row.{is_completed, is_failed, is_job, is_live}
use otto_factory.Jobs.RowInvariant.{IsWellFormed}
use otto_factory.Jobs.Totals.{
  completed_total, completed_total-bump_down, completed_total-bump_up, failed_total,
  failed_total-bump_down, failed_total-bump_up,
}
use otto_factory.Store.{Job, Store}
use otto_factory.Table.{count_where, fetch_optional, update_where}
use otto_factory.Table.Keys.{All-update_key, count-update_key}
use otto_factory.Table.Rows.{All-fetch, count-update_same, fetch_optional-test}

unfoldable pub is_done : ℕ → Job → Bool
is_done org j = j.org_id == org && is_completed j.status

unfoldable pub is_broken : ℕ → Job → Bool
is_broken org j = j.org_id == org && is_failed j.status

-- Every row is well formed, the primary key holds, and each org's totals are what a count of its
-- completed and failed jobs gives.
pub record IsConsistent (s : Store) : Type 0 where
  pub rows : All IsWellFormed s.jobs
  pub keys : (org : ℕ) (id : Text) → count_where (is_job org id) s.jobs ≤ 1
  pub completed_counted :
      (org : ℕ) → completed_total org s.org_counters ≡ pos (count_where (is_done org) s.jobs)
  pub failed_counted :
      (org : ℕ) → failed_total org s.org_counters ≡ pos (count_where (is_broken org) s.jobs)

-- A change that keeps the key of a row.
abbrev pub KeepsKey : (Job → Job) → Type 0
KeepsKey f = (x : Job) → ((f x).org_id ≡ x.org_id) × ((f x).id ≡ x.id)

is_job-keeps :
    (f : Job → Job)
    → KeepsKey f
    → (org : ℕ) (id : Text) (x : Job) → is_job org id (f x) ≡ is_job org id x
unfolding is_job
is_job-keeps f k org id x = rw ((k x).0, (k x).1) refl

module _ (s : Store) (v : IsConsistent s) (org : ℕ) (id : Text) (f : Job → Job) (j : Job)
    (found : fetch_optional (is_job org id) s.jobs ≡ some j) where
  -- The row read is well formed and belongs to the org.
  pub found-IsWellFormed : IsWellFormed j
  found-IsWellFormed = All-fetch IsWellFormed (is_job org id) s.jobs j found v.rows

  pub found-org : j.org_id ≡ org
  unfolding is_job
  found-org = ground (arith, fetch_optional-test (is_job org id) s.jobs j found)

  pub found-id : j.id ≡ id
  unfolding is_job
  found-id =
      ground (arith, fetch_optional-test (is_job org id) s.jobs j found, text_eq_sound j.id id)

  abbrev jobs_after : List Job
  jobs_after = update_where (is_job org id) f s.jobs

  module _ (k : KeepsKey f) (w : IsWellFormed (f j)) where
    rows_after : All IsWellFormed jobs_after
    rows_after =
        All-update_key IsWellFormed (is_job org id) f s.jobs j (v.keys org id) found (λ _. w) v.rows

    keys_after : (o : ℕ) (i : Text) → count_where (is_job o i) jobs_after ≤ 1
    keys_after o i = omega (
      arith,
      v.keys o i,
      count-update_same (is_job o i) (is_job org id) f s.jobs (λ x _. is_job-keeps f k o i x),
    )

    -- A write that enters and leaves no counted status.
    pub write-IsConsistent :
        is_completed (f j).status ≡ is_completed j.status
        → is_failed (f j).status ≡ is_failed j.status
        → IsConsistent (record s { jobs = jobs_after })
    unfolding is_done is_broken
    write-IsConsistent c b = record {
      rows = rows_after;
      keys = keys_after;
      completed_counted = λ o. ground (
        arith,
        k j,
        v.completed_counted o,
        count-update_key (is_done o) (is_job org id) f s.jobs j (v.keys org id) found,
      );
      failed_counted = λ o. ground (
        arith,
        k j,
        v.failed_counted o,
        count-update_key (is_broken o) (is_job org id) f s.jobs j (v.keys org id) found,
      );
    }

    -- A write that finishes a live job, with the counter of the status entered.
    pub enter-IsConsistent :
        is_live j.status ≡ true
        → IsConsistent (record s {
          jobs = jobs_after;
          org_counters = bump_rows org (f j).status (pos 1) s.org_counters;
        })
    unfolding is_done is_broken
    enter-IsConsistent l = record {
      rows = rows_after;
      keys = keys_after;
      completed_counted = λ o. ground (
        arith,
        k j,
        found-org,
        v.completed_counted o,
        count-update_key (is_done o) (is_job org id) f s.jobs j (v.keys org id) found,
        completed_total-bump_up o org (count_where (is_done o) s.jobs) (f j).status s.org_counters,
      );
      failed_counted = λ o. ground (
        arith,
        k j,
        found-org,
        v.failed_counted o,
        count-update_key (is_broken o) (is_job org id) f s.jobs j (v.keys org id) found,
        failed_total-bump_up o org (count_where (is_broken o) s.jobs) (f j).status s.org_counters,
      );
    }

    -- A write that makes a job live again, with the counter of the status left.
    pub leave-IsConsistent :
        is_live (f j).status ≡ true
        → IsConsistent (record s {
          jobs = jobs_after;
          org_counters = bump_rows org j.status (negsuc 0) s.org_counters;
        })
    unfolding is_done is_broken
    leave-IsConsistent l = record {
      rows = rows_after;
      keys = keys_after;
      completed_counted = λ o. ground (
        arith,
        k j,
        found-org,
        v.completed_counted o,
        count-update_key (is_done o) (is_job org id) f s.jobs j (v.keys org id) found,
        completed_total-bump_down o org (count_where (is_done o) jobs_after) j.status
            s.org_counters,
      );
      failed_counted = λ o. ground (
        arith,
        k j,
        found-org,
        v.failed_counted o,
        count-update_key (is_broken o) (is_job org id) f s.jobs j (v.keys org id) found,
        failed_total-bump_down o org (count_where (is_broken o) jobs_after) j.status s.org_counters,
      );
    }
