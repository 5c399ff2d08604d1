-- ===== src/Jobs/ClaimInvariant.antt =====
-- claim_jobs: what a successful call found, and that it keeps the store consistent.
use otto_factory.AgentLabel
use otto_factory.Common.{
  Bool, List, Option, [], ap, arith, false, ltb, not, refl, some, subst, sym, true, ℕ, ◌&&◌, ◌||◌,
  ◌∙◌, ◌∷◌, ◌≡◌, ◌≤◌,
}
use otto_factory.Common.Int.{pos, ℤ}
use otto_factory.Common.Lists.{All, all, is_empty}
use otto_factory.Common.Text.{Text}
use otto_factory.Error.{db, invalid, job_not_found, no_job_ids, ok, ok_or, pending}
use otto_factory.Error.Laws.{>>=-eq-ok, guard-eq-ok, ok_or-eq-ok}
use otto_factory.Jobs.Claim.{
  check_pending, check_unblocked, claim, claim_jobs, clamp_claim_ttl, in_batch, lock_rows,
  max_attempts, reap, reap_batch, sort_dedup,
}
use otto_factory.Jobs.Invariant.{IsConsistent, is_broken, is_done}
use otto_factory.Jobs.Row.{is_claimed, is_job, is_pending, is_stranded}
use otto_factory.Jobs.RowInvariant.{IsWellFormed, claim-IsWellFormed, reap-IsWellFormed}
use otto_factory.Store.{Job, Store, Tx}
use otto_factory.Table.{count_where, fetch_optional, select_where, update_where}
use otto_factory.Table.Keys.{All-key}
use otto_factory.Table.Rows.{
  All-both, All-map, All-true, All-update_to, count-update_each, count-update_same,
}

-- A row of the batch was open to a claim: pending, or under a claim that has lapsed.
abbrev pub IsOpen : Tx → Job → Type 0
IsOpen tx j = (is_pending j.status || is_stranded tx.now j) ≡ true

check_pending_cons :
    (tx : Tx) (j : Job) (rest : List Job)
    → check_pending tx.now (j ∷ rest) ≡ ok tt
    → IsOpen tx j × (check_pending tx.now rest ≡ ok tt)
unfolding check_pending
check_pending_cons tx j rest h = (ground arith, ground arith)

pub lock_rows_cons :
    (org : ℕ) (jobs : List Job) (id : Text) (ids : List Text) (locked : List Job)
    → lock_rows org jobs (id ∷ ids) ≡ ok locked
    → (j : Job) × (rest : List Job) × (fetch_optional (is_job org id) jobs ≡ some j)
      × (lock_rows org jobs ids ≡ ok rest)
      × (locked ≡ j ∷ rest)
unfolding lock_rows
lock_rows_cons org jobs id ids locked h =
    let (j, e, h1) =
      >>=-eq-ok (ok_or (fetch_optional (is_job org id) jobs) (job_not_found id)) _ h in
    let (rest, e1, h2) = >>=-eq-ok (lock_rows org jobs ids) _ h1 in
    (
      j,
      rest,
      ok_or-eq-ok (fetch_optional (is_job org id) jobs) (job_not_found id) e,
      e1,
      ground arith,
    )

module _ (tx : Tx) (jobs : List Job) (u : (i : Text) → count_where (is_job tx.org i) jobs ≤ 1) where
  batch_cons :
      (id : Text) (ids : List Text)
      → All (λ j. is_job tx.org id j ≡ true → IsOpen tx j) jobs
      → All (λ j. in_batch tx.org ids j ≡ true → IsOpen tx j) jobs
      → All (λ j. in_batch tx.org (id ∷ ids) j ≡ true → IsOpen tx j) jobs
  unfolding in_batch is_job
  batch_cons id ids a b =
      All-map
        (λ j.
          (is_job tx.org id j ≡ true → IsOpen tx j) × (in_batch tx.org ids j ≡ true → IsOpen tx j))
        (λ j. in_batch tx.org (id ∷ ids) j ≡ true → IsOpen tx j) jobs
        (λ j h m. ground (arith, h.0, h.1))
        (All-both (λ j. is_job tx.org id j ≡ true → IsOpen tx j)
          (λ j. in_batch tx.org ids j ≡ true → IsOpen tx j) jobs a b)

  -- Each row of the batch was open to a claim.
  pub locked-IsOpen :
      (ids : List Text) (locked : List Job)
      → lock_rows tx.org jobs ids ≡ ok locked
      → check_pending tx.now locked ≡ ok tt
      → All (λ j. in_batch tx.org ids j ≡ true → IsOpen tx j) jobs
  unfolding in_batch
  locked-IsOpen [] locked h c =
      All-true (λ j. in_batch tx.org [] j ≡ true → IsOpen tx j) jobs (λ j a. ground arith)
  locked-IsOpen (id ∷ ids) locked h c =
      let (j, rest, e, e1, e2) = lock_rows_cons tx.org jobs id ids locked h in
      let (o, c1) = check_pending_cons tx j rest (rw e2 at c) in
      batch_cons id ids (All-key (IsOpen tx) (is_job tx.org id) jobs j (u id) e o)
        (locked-IsOpen ids rest e1 c1)

-- What a successful claim found, step by step, and the store that it left.
pub record Claimed (tx : Tx) (ids : List Text) (claimer : ℕ) (label : Option Text) (ttl : Option ℤ)
    (s : Store) (claimed : List Job) (s' : Store) : Type 0 where
  pub stored : Option Text
  pub locked : List Job
  pub some_ids : is_empty ids ≡ false
  pub valid : AgentLabel.validate label ≡ ok stored
  pub rows_locked : lock_rows tx.org s.jobs (sort_dedup ids) ≡ ok locked
  pub rows_open : check_pending tx.now locked ≡ ok tt
  pub unblocked :
      check_unblocked tx.org
        (reap_batch tx (sort_dedup ids) s.jobs)
        s.job_dependencies
        (sort_dedup ids)
      ≡ ok tt
  pub store : s' ≡ record s {
    jobs =
        update_where
          (in_batch tx.org (sort_dedup ids))
          (claim tx claimer stored (clamp_claim_ttl ttl))
          (reap_batch tx (sort_dedup ids) s.jobs);
  }
  pub answer : claimed ≡ select_where (in_batch tx.org (sort_dedup ids)) s'.jobs

module _ (tx : Tx) (ids : List Text) (claimer : ℕ) (label : Option Text) (ttl : Option ℤ)
    (s : Store) {claimed : List Job} {s' : Store} where
  pub claim_jobs_ok :
      claim_jobs tx ids claimer label ttl s ≡ ok (claimed, s')
      → Claimed tx ids claimer label ttl s claimed s'
  unfolding claim_jobs claim
  claim_jobs_ok h =
      let (e0, h0) = guard-eq-ok (not (is_empty ids)) (invalid no_job_ids) _ h in
      let (stored, e1, h1) = >>=-eq-ok (AgentLabel.validate label) _ h0 in
      let (locked, e2, h2) = >>=-eq-ok (lock_rows tx.org s.jobs (sort_dedup ids)) _ h1 in
      let (u3, e3, h3) = >>=-eq-ok (check_pending tx.now locked) _ h2 in
      let (u4, e4, h4) =
        >>=-eq-ok
          (check_unblocked tx.org (reap_batch tx (sort_dedup ids) s.jobs) s.job_dependencies
            (sort_dedup ids))
          _ h3 in
      let (e5, h5) = guard-eq-ok (all (λ j. ltb j.attempts max_attempts) locked) db _ h4 in
      record {
        stored = stored;
        locked = locked;
        some_ids = ground arith;
        valid = e1;
        rows_locked = e2;
        rows_open = e3;
        unblocked = e4;
        store = ground arith;
        answer = ground arith;
      }

-- The batch as the reap leaves it: well formed, and pending.
abbrev Ready : Tx → List Text → Job → Type 0
Ready tx ids j = IsWellFormed j × (in_batch tx.org ids j ≡ true → j.status ≡ pending)

reap_batch-Ready :
    (tx : Tx) (ids : List Text) (jobs : List Job)
    → All IsWellFormed jobs
    → All (λ j. in_batch tx.org ids j ≡ true → IsOpen tx j) jobs
    → All (Ready tx ids) (reap_batch tx ids jobs)
unfolding reap_batch reap
reap_batch-Ready tx ids jobs w o =
    All-update_to (λ j. IsWellFormed j × (in_batch tx.org ids j ≡ true → IsOpen tx j))
      (Ready tx ids) (λ j. in_batch tx.org ids j && is_stranded tx.now j) reap jobs
      (λ j h p. (reap-IsWellFormed j h.0 (ground arith), λ _. refl))
      (λ j h p. (h.0, λ m. ground (arith, h.1)))
      (All-both IsWellFormed (λ j. in_batch tx.org ids j ≡ true → IsOpen tx j) jobs w o)

-- A count that a reap and a claim leave alone row by row is left alone by the whole statement.
module _ (tx : Tx) (ids : List Text) (claimer : ℕ) (label : Option Text) (ttl : ℕ) (q : Job → Bool)
    (reaped : (j : Job) → is_claimed j.status ≡ true → q (reap j) ≡ q j)
    (claimed : (j : Job) → j.status ≡ pending → q (claim tx claimer label ttl j) ≡ q j) where
  count-claim :
      (jobs : List Job)
      → All (Ready tx ids) (reap_batch tx ids jobs)
      → count_where q
          (update_where (in_batch tx.org ids) (claim tx claimer label ttl) (reap_batch tx ids jobs))
        ≡ count_where q jobs
  unfolding reap_batch
  count-claim jobs a =
      count-update_each q (in_batch tx.org ids) (claim tx claimer label ttl)
        (reap_batch tx ids jobs)
        (All-map (Ready tx ids)
          (λ j. in_batch tx.org ids j ≡ true → q (claim tx claimer label ttl j) ≡ q j)
          (reap_batch tx ids jobs) (λ j r m. claimed j (r.1 m)) a)
      ∙ count-update_same q (λ j. in_batch tx.org ids j && is_stranded tx.now j) reap jobs
          (λ j p. reaped j (ground arith))

module _ (tx : Tx) (ids : List Text) (claimer : ℕ) (label : Option Text) (ttl : Option ℤ)
    (s : Store) {claimed : List Job} {s' : Store} where
  -- A claim neither makes nor unmakes a completed or failed job, and keeps every key.
  pub claim_jobs-IsConsistent :
      IsConsistent s → claim_jobs tx ids claimer label ttl s ≡ ok (claimed, s') → IsConsistent s'
  unfolding claim reap is_done is_broken is_job
  claim_jobs-IsConsistent v h =
      let c = claim_jobs_ok tx ids claimer label ttl s h in
      let batch = sort_dedup ids in
      let n = clamp_claim_ttl ttl in
      let ready =
        reap_batch-Ready tx batch s.jobs v.rows
          (locked-IsOpen tx s.jobs (v.keys tx.org) batch c.locked c.rows_locked c.rows_open) in
      subst IsConsistent (sym c.store) (record {
        rows =
            All-update_to (Ready tx batch) IsWellFormed (in_batch tx.org batch)
              (claim tx claimer c.stored n) (reap_batch tx batch s.jobs)
              (λ j r p. claim-IsWellFormed j r.0 tx claimer c.stored n (r.1 p)) (λ j r p. r.0)
              ready;
        keys = λ o i.
            rw
              (count-claim tx batch claimer c.stored n (is_job o i) (λ j p. refl) (λ j p. refl)
                s.jobs ready)
              (v.keys o i);
        completed_counted = λ o.
            v.completed_counted o
            ∙ ap pos (
                sym (
                  count-claim tx batch claimer c.stored n (is_done o) (λ j p. ground arith)
                    (λ j p. ground arith) s.jobs ready));
        failed_counted = λ o.
            v.failed_counted o
            ∙ ap pos (
                sym (
                  count-claim tx batch claimer c.stored n (is_broken o) (λ j p. ground arith)
                    (λ j p. ground arith) s.jobs ready));
      })
