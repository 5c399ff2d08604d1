-- ===== src/Jobs/Readiness.antt =====
-- The jobs that ready lists, and those that claim_jobs gives.
use otto_factory.AgentLabel
use otto_factory.Common.{
  Bool, List, Option, [], arith, false, none, not, refl, some, sym, true, ℕ, ◌&&◌, ◌<◌, ◌∙◌, ◌∷◌,
  ◌≡◌, ◌≤◌, ◌||◌,
}
use otto_factory.Common.Int.{ℤ}
use otto_factory.Common.Text.{Text, text_eq_sound}
use otto_factory.Error.{is_ok, ok}
use otto_factory.Jobs.Claim.{
  check_pending, check_unblocked, claim_jobs, in_batch, insert_id, is_blocked, is_blocking,
  lock_rows, reap, reap_batch, sort_dedup,
}
use otto_factory.Jobs.Effects.{Found}
use otto_factory.Jobs.Query.{insert_by_age, is_ready, oldest_first, ready}
use otto_factory.Jobs.Row.{is_completed, is_job, is_stranded}
use otto_factory.Store.{Dependency, Job, Store, Tx}
use otto_factory.Table.{count_where, exists_where, fetch_optional, select_where, update_where}
use otto_factory.Table.Rows.{fetch_optional-test}

-- A reap changes no key and completes nothing.
blocking-reap :
    (org : ℕ) (p : Job → Bool) (i : Text) (jobs : List Job)
    → ((j : Job) → p j ≡ true → is_completed j.status ≡ false)
    → exists_where
        (λ dep. is_job org i dep && not (is_completed dep.status))
        (update_where p reap jobs)
      ≡ exists_where (λ dep. is_job org i dep && not (is_completed dep.status)) jobs
unfolding exists_where update_where reap is_job
blocking-reap org p i [] h = refl
blocking-reap org p i (j ∷ js) h = ground (arith, h j, blocking-reap org p i js h)

blocked-reap :
    (tx : Tx) (ids : List Text) (jobs : List Job) (deps : List Dependency) (i : Text)
    → is_blocked tx.org (reap_batch tx ids jobs) deps i ≡ is_blocked tx.org jobs deps i
unfolding is_blocked is_blocking exists_where reap_batch
blocked-reap tx ids jobs [] i = refl
blocked-reap tx ids jobs (d ∷ ds) i =
    rw
      (
        blocking-reap tx.org (λ j. in_batch tx.org ids j && is_stranded tx.now j) d.depends_on jobs
            (λ j h. stranded-open tx.now j (ground (arith, h))),
        blocked-reap tx ids jobs ds i,
      )
      refl
  where
    stranded-open : (now : ℕ) (j : Job) → is_stranded now j ≡ true → is_completed j.status ≡ false
    stranded-open now j h = ground (arith, h)

is_job_key :
    (org : ℕ) (id : Text) (j : Job) → is_job org id j ≡ true → (j.org_id ≡ org) × (j.id ≡ id)
unfolding is_job
is_job_key org id j h = (ground arith, text_eq_sound j.id id (ground arith))

claim_jobs-is_ready :
    (tx : Tx) (s : Store) (id : Text) (j : Job) (claimer : ℕ) (label stored : Option Text)
    (ttl : Option ℤ)
    → Found tx id s j
    → AgentLabel.validate label ≡ ok stored
    → j.attempts < 2147483647
    → is_ok (claim_jobs tx (id ∷ []) claimer label ttl s) ≡ is_ready tx none none s j
unfolding claim_jobs sort_dedup insert_id lock_rows check_pending check_unblocked is_ready
claim_jobs-is_ready tx s id j claimer label stored ttl e l a =
    let mine = fetch_optional-test (is_job tx.org id) s.jobs j e in
    let key = is_job_key tx.org id j mine in
    rw (l, e, blocked-reap tx (id ∷ []) s.jobs s.job_dependencies id, key.0, key.1) (ground arith)

exists-insert :
    (q : Job → Bool) (j : Job) (ks : List Job)
    → exists_where q (insert_by_age j ks) ≡ (q j || exists_where q ks)
unfolding exists_where insert_by_age
exists-insert q j [] = refl
exists-insert q j (k ∷ ks) = ground (arith, exists-insert q j ks)

exists-oldest :
    (q : Job → Bool) (js : List Job) → exists_where q (oldest_first js) ≡ exists_where q js
unfolding exists_where oldest_first
exists-oldest q [] = refl
exists-oldest q (j ∷ js) = exists-insert q j (oldest_first js) ∙ ground (arith, exists-oldest q js)

-- Whether a selection has the one row that a test finds.
exists-selected :
    (q p : Job → Bool) (t : List Job) (j : Job)
    → fetch_optional q t ≡ some j
    → count_where q t ≤ 1
    → exists_where q (select_where p t) ≡ p j
unfolding exists_where select_where fetch_optional count_where
exists-selected q p [] j h c = cc
exists-selected q p (x ∷ xs) j h c = ground (arith, exists-selected q p xs j, none_selected q p xs)
  where
    none_selected :
        (q p : Job → Bool) (t : List Job)
        → count_where q t ≡ 0
        → exists_where q (select_where p t) ≡ false
    none_selected q p [] c = refl
    none_selected q p (x ∷ xs) c = ground (arith, none_selected q p xs)

-- Where no two jobs of the org have the id: with a label that is allowed, and a job that is there with a
-- generation below the limit of its column, claim_jobs of that one job succeeds exactly when ready, asked
-- for every repo and no agent type, lists a job of that id.
pub claim_jobs-ready :
    (tx : Tx) (s : Store) (id : Text) (j : Job) (claimer : ℕ) (label stored : Option Text)
    (ttl : Option ℤ)
    → count_where (is_job tx.org id) s.jobs ≤ 1
    → Found tx id s j
    → AgentLabel.validate label ≡ ok stored
    → j.attempts < 2147483647
    → is_ok (claim_jobs tx (id ∷ []) claimer label ttl s)
      ≡ exists_where (is_job tx.org id) (ready tx none none s)
unfolding ready
claim_jobs-ready tx s id j claimer label stored ttl c e l a =
    claim_jobs-is_ready tx s id j claimer label stored ttl e l a
    ∙ sym (
        exists-oldest (is_job tx.org id) (select_where (is_ready tx none none s) s.jobs)
        ∙ exists-selected (is_job tx.org id) (is_ready tx none none s) s.jobs j e c)
