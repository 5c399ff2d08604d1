-- ===== src/Jobs/Exclusion.antt =====
-- What a successful claim gives, and that nobody else gets the same job while it holds.
use otto_factory.Common.{
  Bool, List, Option, arith, false, if◌then◌else◌, inl, inr, refl, some, subst, sym, true, ℕ, ◌+◌,
  ◌<◌, ◌||◌, ◌∙◌, ◌≡◌, ◌≤◌,
}
use otto_factory.Common.Int.{ℤ}
use otto_factory.Common.Text.{Text}
use otto_factory.Error.{Error, err, in_progress, is_ok, ok, pending}
use otto_factory.Error.Laws.{Result-cases}
use otto_factory.Jobs.Batch.{claim-fetch, has_id-sort_dedup, in_batch-found, lock_rows-found}
use otto_factory.Jobs.Cancel.{cancel_job}
use otto_factory.Jobs.Claim.{
  claim, claim_jobs, clamp_claim_ttl, complete_job, ensure_claim_held, fail_job, finalize, has_id,
  in_batch, reap, renew_claim, sort_dedup,
}
use otto_factory.Jobs.ClaimInvariant.{IsOpen, claim_jobs-IsConsistent, claim_jobs_ok, locked-IsOpen}
use otto_factory.Jobs.Effects.{Found, ensure_claim_held_ok}
use otto_factory.Jobs.Invariant.{IsConsistent}
use otto_factory.Jobs.Row.{has_lapsed, is_claimed, is_job, is_pending, is_stranded}
use otto_factory.Store.{Job, Store, Tx, secs}
use otto_factory.Table.{fetch_optional}
use otto_factory.Table.Rows.{All-fetch}

-- The row under `id` is claimed anew: held by `claimer` under a new generation, for the time asked.
pub record IsGranted (tx : Tx) (id : Text) (claimer : ℕ) (ttl : Option ℤ) (s s' : Store)
    : Type 0 where
  pub before : Job
  pub found : Found tx id s before
  pub was_open : (is_pending before.status || is_stranded tx.now before) ≡ true
  pub now_held : Job
  pub stored : Found tx id s' now_held
  pub in_progress_now : now_held.status ≡ in_progress
  pub holder : now_held.claimed_by ≡ some claimer
  pub generation : now_held.attempts ≡ before.attempts + 1
  pub expiry : now_held.claim_expires_at ≡ some (tx.now + secs (clamp_claim_ttl ttl))
  pub unflagged :
      before.status ≡ pending → now_held.cancel_requested_at ≡ before.cancel_requested_at

module _ (tx : Tx) (ids : List Text) (claimer : ℕ) (label : Option Text) (ttl : Option ℤ)
    (s : Store) (v : IsConsistent s) where
  -- A successful claim_jobs grants every job of the batch: each was there and was pending or under a
  -- lapsed claim, and each is now in progress, held by the caller, at the next generation, until the
  -- time that the clamped lifetime gives.
  pub claim_jobs-grants :
      (claimed : List Job) (s' : Store) (id : Text)
      → claim_jobs tx ids claimer label ttl s ≡ ok (claimed, s')
      → has_id ids id ≡ true
      → IsGranted tx id claimer ttl s s'
  unfolding claim reap
  claim_jobs-grants claimed s' id h m =
      let c = claim_jobs_ok tx ids claimer label ttl s h in
      let batch = sort_dedup ids in
      let mine : has_id batch id ≡ true = has_id-sort_dedup id ids ∙ m in
      let (j, e) = lock_rows-found tx.org s.jobs batch c.locked id c.rows_locked mine in
      let opened =
        All-fetch (λ k. in_batch tx.org batch k ≡ true → IsOpen tx k) (is_job tx.org id) s.jobs j e
          (locked-IsOpen tx s.jobs (v.keys tx.org) batch c.locked c.rows_locked c.rows_open) in
      let k =
        claim tx claimer c.stored (clamp_claim_ttl ttl)
          (if is_stranded tx.now j then reap j else j) in
      record {
        before = j;
        found = e;
        was_open = opened (in_batch-found tx.org batch s.jobs id j mine e);
        now_held = k;
        stored =
            subst (λ (t : Store). fetch_optional (is_job tx.org id) t.jobs ≡ some k) (sym c.store)
              (claim-fetch tx batch claimer c.stored (clamp_claim_ttl ttl) s.jobs id j mine e);
        in_progress_now = refl;
        holder = refl;
        generation = ground arith;
        expiry = refl;
        unflagged = λ p. ground arith;
      }

  -- While a job is under a claim that has not lapsed, no batch with it in can be claimed, by anyone.
  pub claim_jobs-held :
      (id : Text) (j : Job)
      → has_id ids id ≡ true
      → Found tx id s j
      → is_claimed j.status ≡ true
      → has_lapsed tx.now j.claim_expires_at ≡ false
      → is_ok (claim_jobs tx ids claimer label ttl s) ≡ false
  claim_jobs-held id j m e c l = elim (Result-cases (claim_jobs tx ids claimer label ttl s)) [
    | inl (a, h) ↦
        let g = claim_jobs-grants a.0 a.1 id h m in
        let same : j ≡ g.before = ground (arith, g.found) in absurd (ground (arith, g.was_open))
    | inr (x, h) ↦ ground arith
  ]

stale_refused :
    (tx tx2 : Tx) (id : Text) (caller generation : ℕ) (s s' : Store) (claimer : ℕ)
    (ttl ttl2 : Option ℤ)
    → IsGranted tx id claimer ttl s s'
    → (j : Job) → Found tx id s j
    → generation ≤ j.attempts
    → tx2.org ≡ tx.org
    → (honor : Bool)
    → (x : Error) × (ensure_claim_held tx2 id caller (some generation) honor s' ≡ err x)
stale_refused tx tx2 id caller generation s s' claimer ttl ttl2 g j e le o honor =
    elim (Result-cases (ensure_claim_held tx2 id caller (some generation) honor s')) [
      | inl (_, h) ↦
          let (k, f, held) =
            ensure_claim_held_ok tx2 id s' caller (some generation) honor (ground arith) in
          let k_now : k ≡ g.now_held = ground (arith, g.stored, rw o at f) in
          let j_before : j ≡ g.before = ground (arith, g.found) in
          absurd (ground (arith, held.generation generation refl, g.generation))
      | inr r ↦ r
    ]

module _ (tx tx2 : Tx) (ids ids2 : List Text) (claimer other : ℕ) (label label2 : Option Text)
    (ttl ttl2 : Option ℤ) (s : Store) (v : IsConsistent s) where
  -- After a successful claim, another claim in the same org that shares a job with it fails, whoever
  -- makes it, until the clamped lifetime of the first is over.
  pub claim_jobs-excludes :
      (claimed : List Job) (s' : Store) (id : Text)
      → claim_jobs tx ids claimer label ttl s ≡ ok (claimed, s')
      → has_id ids id ≡ true
      → has_id ids2 id ≡ true
      → tx2.org ≡ tx.org
      → tx2.now < tx.now + secs (clamp_claim_ttl ttl)
      → is_ok (claim_jobs tx2 ids2 other label2 ttl2 s') ≡ false
  claim_jobs-excludes claimed s' id h m m2 o t =
      let g = claim_jobs-grants tx ids claimer label ttl s v claimed s' id h m in
      claim_jobs-held tx2 ids2 other label2 ttl2 s'
        (claim_jobs-IsConsistent tx ids claimer label ttl s v h) id g.now_held m2 (rw o g.stored)
        (ground (arith, g.in_progress_now)) (ground (arith, g.expiry))

  -- Once a job has been claimed again, its earlier holder can no longer complete, fail, renew or
  -- confirm the cancellation of it under the generation that it held, not even as the same user.
  pub reclaim-fences :
      (claimed : List Job) (s' : Store) (id : Text) (caller generation : ℕ) (result : Option Text)
      → (j : Job) → Found tx id s j
      → generation ≤ j.attempts
      → claim_jobs tx ids claimer label ttl s ≡ ok (claimed, s')
      → has_id ids id ≡ true
      → tx2.org ≡ tx.org
      → (is_ok (complete_job tx2 id caller result (some generation) s') ≡ false)
        × (is_ok (fail_job tx2 id caller result (some generation) s') ≡ false)
        × (is_ok (renew_claim tx2 id caller ttl2 (some generation) s') ≡ false)
        × (is_ok (cancel_job tx2 id caller result (some generation) s') ≡ false)
  unfolding complete_job fail_job finalize renew_claim cancel_job
  reclaim-fences claimed s' id caller generation result j e le h m o =
      let g = claim_jobs-grants tx ids claimer label ttl s v claimed s' id h m in
      let stale = stale_refused tx tx2 id caller generation s s' claimer ttl ttl2 g j e le o in
      (
        ground (arith, stale false),
        ground (arith, stale false),
        ground (arith, stale false),
        ground (arith, stale true),
      )
