-- ===== src/Jobs/StatsScan.antt =====
-- The counts that org_wide_stats assembles from the totals, against a scan of every row.
use otto_factory.Common.{
  Bool, Bool-cases, List, Option-cases, [], ap, arith, false, inl, inr, not, refl, true, ℕ, ◌&&◌,
  ◌+◌, ◌==◌, ◌||◌, ◌∷◌, ◌≡◌, ◌⊎◌,
}
use otto_factory.Common.Int.{pos, ◌+ℤ◌}
use otto_factory.Error.{Status, active, cancelled, completed, failed, in_progress, pending}
use otto_factory.Jobs.Claim.{is_blocked}
use otto_factory.Jobs.Counters.{is_org}
use otto_factory.Jobs.Invariant.{IsConsistent, is_broken, is_done}
use otto_factory.Jobs.Query.{count_blocked, count_status, org_wide_stats, scan_stats, totals}
use otto_factory.Jobs.Row.{is_completed, is_failed, is_pending, same_status}
use otto_factory.Jobs.Totals.{completed_total, failed_total}
use otto_factory.Store.{Job, Store, Tx}
use otto_factory.Table.{count_where, fetch_optional}

-- Each row has one of the six statuses.
count-partition :
    (p : Job → Bool) (jobs : List Job)
    → count_where p jobs
      ≡ count_status p pending jobs
        + count_status p in_progress jobs
        + count_status p active jobs
        + count_status p completed jobs
        + count_status p failed jobs
        + count_status p cancelled jobs
unfolding count_where count_status
count-partition p [] = refl
count-partition p (j ∷ js) =
    let rest = count-partition p js in
    elim (status-cases j.status) [
      | inl e ↦ ground (arith, e, rest)
      | inr (inl e) ↦ ground (arith, e, rest)
      | inr (inr (inl e)) ↦ ground (arith, e, rest)
      | inr (inr (inr (inl e))) ↦ ground (arith, e, rest)
      | inr (inr (inr (inr (inl e)))) ↦ ground (arith, e, rest)
      | inr (inr (inr (inr (inr e)))) ↦ ground (arith, e, rest)
    ]
  where
    status-cases :
        (st : Status)
        → (st ≡ pending)
          ⊎ (st ≡ in_progress)
          ⊎ (st ≡ active)
          ⊎ (st ≡ completed)
          ⊎ (st ≡ failed)
          ⊎ (st ≡ cancelled)
    status-cases pending = inl refl
    status-cases in_progress = inr (inl refl)
    status-cases active = inr (inr (inl refl))
    status-cases completed = inr (inr (inr (inl refl)))
    status-cases failed = inr (inr (inr (inr (inl refl))))
    status-cases cancelled = inr (inr (inr (inr (inr refl))))

count-same {ℓ} :
    {A : Type ℓ} (p q : A → Bool) (t : List A)
    → ((x : A) → p x ≡ q x)
    → count_where p t ≡ count_where q t
unfolding count_where
count-same p q [] e = refl
count-same p q (x ∷ xs) e = ground (arith, e x, count-same p q xs e)

+ℤ_pos : (m n : ℕ) → pos m +ℤ pos n ≡ pos (m + n)
unfolding ◌+ℤ◌
+ℤ_pos m n = ground arith

same_status_sound : (a b : Status) → same_status a b ≡ true → a ≡ b
same_status_sound pending pending h = refl
same_status_sound in_progress in_progress h = refl
same_status_sound active active h = refl
same_status_sound completed completed h = refl
same_status_sound failed failed h = refl
same_status_sound cancelled cancelled h = refl
same_status_sound _ _ h = cc

completed-same : (a : Status) → same_status a completed ≡ is_completed a
completed-same completed = refl
completed-same _ = refl

failed-same : (a : Status) → same_status a failed ≡ is_failed a
failed-same failed = refl
failed-same _ = refl

pending-only :
    (o w : Bool) (a : Status)
    → ((o && not (is_completed a || is_failed a)) && (is_pending a && w))
      ≡ (o && (is_pending a && w))
pending-only o w pending = ground arith
pending-only o w completed = ground arith
pending-only o w failed = ground arith
pending-only o w _ = ground arith

module _ (tx : Tx) (s : Store) where
  totals-counted :
      IsConsistent s
      → totals tx s
        ≡ (pos (count_where (is_done tx.org) s.jobs), pos (count_where (is_broken tx.org) s.jobs))
  unfolding totals completed_total failed_total
  totals-counted v =
      let c = v.completed_counted tx.org in
      let f = v.failed_counted tx.org in
      elim (Option-cases (fetch_optional (is_org tx.org) s.org_counters)) [
        | inl e ↦ ground (arith, e, c, f)
        | inr (k, e) ↦ ground (arith, e, c, f)
      ]

  same-count :
      (status : Status)
      → (is_completed status || is_failed status) ≡ false
      → count_status
          (λ j. j.org_id == tx.org && not (is_completed j.status || is_failed j.status))
          status
          s.jobs
        ≡ count_status (λ j. j.org_id == tx.org) status s.jobs
  unfolding count_status
  same-count status o =
      count-same
        (λ j.
          (j.org_id == tx.org && not (is_completed j.status || is_failed j.status))
          && same_status j.status status)
        (λ j. j.org_id == tx.org && same_status j.status status) s.jobs
        (λ j. elim (Bool-cases (same_status j.status status)) [
          | inl e ↦ ground (arith, same_status_sound j.status status e, o)
          | inr e ↦ ground (arith, e)
        ])

  done-count :
      (count_status (λ j. j.org_id == tx.org) completed s.jobs
        ≡ count_where (is_done tx.org) s.jobs)
      × (count_status (λ j. j.org_id == tx.org) failed s.jobs
          ≡ count_where (is_broken tx.org) s.jobs)
  unfolding count_status is_done is_broken
  done-count = (
    count-same (λ j. j.org_id == tx.org && same_status j.status completed) (is_done tx.org) s.jobs
        (λ j. ap (λ b. j.org_id == tx.org && b) (completed-same j.status)),
    count-same (λ j. j.org_id == tx.org && same_status j.status failed) (is_broken tx.org) s.jobs
        (λ j. ap (λ b. j.org_id == tx.org && b) (failed-same j.status)),
  )

  blocked-count :
      count_blocked (λ j. j.org_id == tx.org && not (is_completed j.status || is_failed j.status)) s
      ≡ count_blocked (λ j. j.org_id == tx.org) s
  unfolding count_blocked
  blocked-count =
      count-same
        (λ j.
          (j.org_id == tx.org && not (is_completed j.status || is_failed j.status))
          && (is_pending j.status && is_blocked j.org_id s.jobs s.job_dependencies j.id))
        (λ j.
          j.org_id == tx.org
          && (is_pending j.status && is_blocked j.org_id s.jobs s.job_dependencies j.id))
        s.jobs (λ j. pending-only (j.org_id == tx.org) _ j.status)

  -- On a consistent store, the counts that org_wide_stats reads from the totals and from a scan of the
  -- rows that are neither completed nor failed are the counts that a scan of every row of the org gives.
  pub org_wide_stats-scan :
      IsConsistent s → org_wide_stats tx s ≡ scan_stats (λ j. j.org_id == tx.org) s
  unfolding org_wide_stats scan_stats
  org_wide_stats-scan v =
      rw
        (
          totals-counted v,
          same-count pending refl,
          same-count in_progress refl,
          same-count active refl,
          same-count cancelled refl,
          blocked-count,
          count-partition (λ j. j.org_id == tx.org) s.jobs,
          done-count.0,
          done-count.1,
        )
        (rw (+ℤ_pos, +ℤ_pos, +ℤ_pos, +ℤ_pos, +ℤ_pos) refl)
