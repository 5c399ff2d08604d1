-- ===== src/Jobs/CreateInvariant.antt =====
-- Inserting and deleting jobs keeps the store consistent.
use otto_factory.Common.{
  List, Option, [], arith, false, refl, subst, sym, true, ℕ, ◌&&◌, ◌++◌, ◌==◌, ◌∙◌, ◌∷◌, ◌≡◌,
}
use otto_factory.Common.Lists.{All-append}
use otto_factory.Common.Text.{Text, text_eq, text_eq_sound}
use otto_factory.Error.{ok, pending}
use otto_factory.Jobs.Cancel.{delete_job}
use otto_factory.Jobs.Counters.{bump_seq, next_job_seq, no_counters, upsert}
use otto_factory.Jobs.Create.{Payload, add_job, create_from_ticket, insert_row, row}
use otto_factory.Jobs.CreateRule.{add_job-rule, create_from_ticket-rule}
use otto_factory.Jobs.Dependencies.{set_dependencies}
use otto_factory.Jobs.Dependencies.Effects.{set_dependencies_ok}
use otto_factory.Jobs.Effects.{delete_job_ok}
use otto_factory.Jobs.Invariant.{IsConsistent, found-org, is_broken, is_done}
use otto_factory.Jobs.Row.{is_job}
use otto_factory.Jobs.RowInvariant.{IsWellFormed}
use otto_factory.Jobs.Totals.{
  completed_total, completed_total-bump_down, failed_total, failed_total-bump_down, fetch-upsert,
}
use otto_factory.Store.{Job, OrgCounters, Store, Tracker, Tx}
use otto_factory.Table.{count_where, delete_where, exists_where}
use otto_factory.Table.Keys.{count-delete_key}
use otto_factory.Table.Rows.{All-delete, count-append, count-delete_le, exists-false-count}

-- The counters that an allocation of a job number touches keep their totals.
completed_total-bump_seq :
    (o org n : ℕ) (t : List OrgCounters)
    → completed_total o (upsert org (record (no_counters org) { next_job_seq = n }) bump_seq t)
      ≡ completed_total o t
unfolding completed_total bump_seq
completed_total-bump_seq o org n t = ground (
  arith,
  fetch-upsert org (record (no_counters org) { next_job_seq = n }) bump_seq t refl (λ c. refl) o,
)

failed_total-bump_seq :
    (o org n : ℕ) (t : List OrgCounters)
    → failed_total o (upsert org (record (no_counters org) { next_job_seq = n }) bump_seq t)
      ≡ failed_total o t
unfolding failed_total bump_seq
failed_total-bump_seq o org n t = ground (
  arith,
  fetch-upsert org (record (no_counters org) { next_job_seq = n }) bump_seq t refl (λ c. refl) o,
)

pub next_job_seq-IsConsistent :
    (tx : Tx) (s : Store) → IsConsistent s → IsConsistent (next_job_seq tx s).1
unfolding next_job_seq
next_job_seq-IsConsistent tx s v = record {
  rows = v.rows;
  keys = v.keys;
  completed_counted =
      λ o. completed_total-bump_seq o tx.org 2 s.org_counters ∙ v.completed_counted o;
  failed_counted = λ o. failed_total-bump_seq o tx.org 2 s.org_counters ∙ v.failed_counted o;
}

is_job_unique :
    (o : ℕ) (i : Text) (j : Job) (jobs : List Job)
    → is_job o i j ≡ true
    → exists_where (is_job j.org_id j.id) jobs ≡ false
    → count_where (is_job o i) jobs ≡ 0
unfolding is_job
is_job_unique o i j jobs h e =
    let same_org : j.org_id ≡ o = ground arith in
    let same_id : j.id ≡ i = text_eq_sound j.id i (ground arith) in
    rw (← same_org, ← same_id)
      (exists-false-count (λ (k : Job). k.org_id == j.org_id && text_eq k.id j.id) jobs e)

module _ (j : Job) (s : Store) (v : IsConsistent s) where
  pub insert_row-IsConsistent :
      (job : Job) (s' : Store)
      → IsWellFormed j
      → j.status ≡ pending
      → insert_row j s ≡ row job s'
      → IsConsistent s'
  unfolding insert_row is_done is_broken count_where
  insert_row-IsConsistent job s' w p h =
      let free : exists_where (is_job j.org_id j.id) s.jobs ≡ false = ground arith in
      let e : s' ≡ record s { jobs = s.jobs ++ j ∷ [] } = ground arith in
      subst IsConsistent (sym e) (record {
        rows = All-append IsWellFormed s.jobs (j ∷ []) v.rows (w, tt);
        keys = λ o i. ground (
          arith,
          v.keys o i,
          count-append (is_job o i) s.jobs (j ∷ []),
          is_job_unique o i j s.jobs,
        );
        completed_counted =
            λ o. ground (arith, v.completed_counted o, count-append (is_done o) s.jobs (j ∷ []));
        failed_counted =
            λ o. ground (arith, v.failed_counted o, count-append (is_broken o) s.jobs (j ∷ []));
      })

module _ (tx : Tx) (id : Text) (s : Store) (v : IsConsistent s) where
  pub delete_job-IsConsistent : (s' : Store) → delete_job tx id s ≡ ok s' → IsConsistent s'
  unfolding is_done is_broken
  delete_job-IsConsistent s' h =
      let (j, found, jobs, counters, _, _, _) = delete_job_ok tx id s s' h in
      let org = found-org s v tx.org id (λ x. x) j found in
      record {
        rows = rw jobs (All-delete IsWellFormed (is_job tx.org id) s.jobs v.rows);
        keys = λ o i.
            rw jobs
              (omega (arith, v.keys o i, count-delete_le (is_job o i) (is_job tx.org id) s.jobs));
        completed_counted = λ o. ground (
          arith,
          v.completed_counted o,
          count-delete_key (is_done o) (is_job tx.org id) s.jobs j (v.keys tx.org id) found,
          completed_total-bump_down o tx.org
              (count_where (is_done o) (delete_where (is_job tx.org id) s.jobs)) j.status
              s.org_counters,
        );
        failed_counted = λ o. ground (
          arith,
          v.failed_counted o,
          count-delete_key (is_broken o) (is_job tx.org id) s.jobs j (v.keys tx.org id) found,
          failed_total-bump_down o tx.org
              (count_where (is_broken o) (delete_where (is_job tx.org id) s.jobs)) j.status
              s.org_counters,
        );
      }

  pub set_dependencies-IsConsistent :
      (add remove deps : List Text) (s' : Store)
      → set_dependencies tx id add remove s ≡ ok (deps, s')
      → IsConsistent s'
  set_dependencies-IsConsistent add remove deps s' h =
      let e = (set_dependencies_ok tx id add remove s deps s' h).store in
      subst IsConsistent (sym e) (record {
        rows = v.rows;
        keys = v.keys;
        completed_counted = v.completed_counted;
        failed_counted = v.failed_counted;
      })

module _ (tx : Tx) (s s' : Store) (job : Job) (v : IsConsistent s) where
  pub create_from_ticket-IsConsistent :
      (repo_id : ℕ) (tracker : Tracker) (ticket_ref title : Text)
      (description revision : Option Text)
      → create_from_ticket tx repo_id tracker ticket_ref title description revision s ≡ ok (job, s')
      → IsConsistent s'
  create_from_ticket-IsConsistent repo_id tracker ticket_ref title description revision h =
      create_from_ticket-rule tx IsConsistent (next_job_seq-IsConsistent tx)
        (λ j k t t' n e w. insert_row-IsConsistent j t w k t' n.formed n.open_status e)
        (λ id add deps t t' e w. set_dependencies-IsConsistent tx id t w add [] deps t' e) repo_id
        tracker ticket_ref title description revision s s' job v h

  pub add_job-IsConsistent :
      (fingerprint : Payload → Text) (new : Payload) (key : Option Text)
      → add_job fingerprint tx new key s ≡ ok (job, s')
      → IsConsistent s'
  add_job-IsConsistent fingerprint new key h =
      add_job-rule tx IsConsistent (next_job_seq-IsConsistent tx)
        (λ j k t t' n e w. insert_row-IsConsistent j t w k t' n.formed n.open_status e)
        (λ id add deps t t' e w. set_dependencies-IsConsistent tx id t w add [] deps t' e)
        fingerprint new key s s' job v h
