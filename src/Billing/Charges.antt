-- ===== src/Billing/Charges.antt =====
-- What the recording of a call asks the platform to bill, and what a failed lookup leaves remembered.
use otto_factory.Billing.Classify.{classify, contains, free}
use otto_factory.Billing.Meter.{
  Charged, Lookup, MeterState, MeterStep, Remembered, UsageStatus, Warmed, after_answer, begins,
  ends, meter_run, meter_step, remove_one, as_charge, billable_blocked, charge, charge_completion,
  charged, fail_open_for, forget, is_entry, record_replay, refused, remember, skips, status_for,
  warm,
}
use otto_factory.Billing.Outbox.{
  Metered, UsageRow, complete_job, enqueue, jobs_completed, meter_jobs_completed,
  record_job_completed, tool_of, usage_row,
}
use otto_factory.Common.{
  Bool, Bool-cases, List, Option, [], ap, arith, false, if◌then◌else◌, inl, inr, none, not, refl,
  subst, sym, some, ◌&&◌, ◌∙◌, true, ℕ, ◌+◌, ◌<◌, ◌==◌, ◌∷◌, ◌≡◌,
}
use otto_factory.Common.Lists.{All}
use otto_factory.Common.Text.{Text, text_eq}
use otto_factory.Common.Int.{pos, ℤ}
use otto_factory.Table.{count_where, delete_where, exists_where, fetch_optional}
use otto_factory.Table.Rows.{count-append}

-- The rows of an outbox that the platform is asked to bill.
abbrev pub billed : List UsageRow → ℕ
billed t = count_where (λ (r : UsageRow). r.billable) t

-- The rows after a call; a refusal is rolled back.
abbrev pub rows_after : List UsageRow → Charged → List UsageRow
rows_after t (charged b u) = u
rows_after t (refused e) = t

pub classify-free : (tool : Text) → classify tool ≡ free
unfolding classify contains
classify-free tool = ground arith

-- A call that is recorded: a tool call, the replay of one, and a completed job with what `warm` gave.
pub data Recording : Type 0 where
  calls replays : Text → Recording
  completes : Warmed → Recording

-- A row that asks for one completed job to be billed.
unfoldable pub is_completion : UsageRow → Bool
is_completion r = r.billable && has_meter r.meter && is_one r.quantity
  where
    has_meter : Option Text → Bool
    has_meter none = false
    has_meter (some m) = text_eq m meter_jobs_completed

    is_one : Option ℤ → Bool
    is_one (some (pos n)) = n == 1
    is_one _ = false

module _ (now id event_id org user : ℕ) where
  unfoldable pub perform : Recording → List UsageRow → Charged
  perform (calls tool) t = charge now id event_id org user tool t
  perform (replays tool) t = record_replay now id event_id org user tool t
  perform (completes w) t = charge_completion now id event_id org user w t

  -- Whether a call is to be billed: the completion of a job in an org that the platform has not blocked. The
  -- unique constraint refuses an event that is there already.
  unfoldable pub bills : Recording → List UsageRow → Bool
  bills (calls tool) t = false
  bills (replays tool) t = false
  bills (completes w) t =
      not (billable_blocked w) && not (exists_where (λ (r : UsageRow). r.event_id == event_id) t)

  count-enqueue :
      (q : UsageRow → Bool) (tool : Text) (billable : Bool) (metered : Option Metered)
      (t : List UsageRow)
      → count_where q (
          rows_after t
            (as_charge billable (enqueue now id event_id org (some user) tool billable metered t)))
        ≡ count_where q t
          + (if not (exists_where (λ (r : UsageRow). r.event_id == event_id) t)
                && q (usage_row now id event_id org (some user) tool billable metered)
              then 1
              else 0)
  unfolding enqueue
  count-enqueue q tool billable metered t =
      elim (Bool-cases (exists_where (λ (r : UsageRow). r.event_id == event_id) t)) [
        | inl y ↦ rw y (ground arith)
        | inr n ↦ rw n (
            count-append q t (usage_row now id event_id org (some user) tool billable metered ∷ [])
            ∙ unfold count_where in ground arith)
      ]

  -- A recorded call adds at most one billable row: one for a completed job of an org that is not blocked, which is
  -- on the completed-jobs meter with quantity one, and none for any other call, whatever the tool is named.
  pub perform-bills :
      (c : Recording) (t : List UsageRow)
      → (count_where (λ (r : UsageRow). r.billable) (rows_after t (perform c t))
          ≡ count_where (λ (r : UsageRow). r.billable) t + (if bills c t then 1 else 0))
        × (count_where is_completion (rows_after t (perform c t))
            ≡ count_where is_completion t + (if bills c t then 1 else 0))
  unfolding perform bills charge record_replay charge_completion record_job_completed tool_of
      is_completion text_eq
  perform-bills (calls tool) t = rw (classify-free tool) (
    count-enqueue (λ (r : UsageRow). r.billable) tool false none t ∙ ground arith,
    count-enqueue is_completion tool false none t ∙ ground arith,
  )
  perform-bills (replays tool) t = (
    count-enqueue (λ (r : UsageRow). r.billable) tool false none t ∙ ground arith,
    count-enqueue is_completion tool false none t ∙ ground arith,
  )
  perform-bills (completes w) t = elim (Bool-cases (billable_blocked w)) [
    | inl y ↦ rw y (omega arith, omega arith)
    | inr n ↦ rw n (
      count-enqueue (λ (r : UsageRow). r.billable) (tool_of complete_job) true (some jobs_completed)
            t
          ∙ ground arith,
      count-enqueue is_completion (tool_of complete_job) true (some jobs_completed) t
          ∙ ground arith,
    )
  ]

abbrev IsRemembered : ℕ → ℕ → Remembered → Type 0
IsRemembered org until m = fetch_optional (is_entry org) m ≡ some (org, until)

fetch-forget_other :
    (org other : ℕ) (m : Remembered)
    → (other == org) ≡ false
    → fetch_optional (is_entry org) (forget other m) ≡ fetch_optional (is_entry org) m
unfolding forget fetch_optional delete_where
fetch-forget_other org other [] n = refl
fetch-forget_other org other ((o, u) ∷ m) n = ground (arith, fetch-forget_other org other m n)

-- The org is remembered as one not to ask about, and no lookup of it waits.
record IsQuiet (org until : ℕ) (m : MeterState) : Type 0 where
  kept : IsRemembered org until m.fail_open
  idle : exists_where (λ o. o == org) m.asking ≡ false

idle-remove :
    (org other : ℕ) (os : List ℕ)
    → exists_where (λ o. o == org) os ≡ false
    → exists_where (λ o. o == org) (remove_one other os) ≡ false
unfolding remove_one exists_where
idle-remove org other [] h = refl
idle-remove org other (o ∷ os) h = ground (arith, idle-remove org other os)

-- The one lookup of the org that waits is over.
last-removed :
    (org : ℕ) (os : List ℕ)
    → count_where (λ o. o == org) os ≡ 1
    → (exists_where (λ o. o == org) os ≡ true)
      × (exists_where (λ o. o == org) (remove_one org os) ≡ false)
unfolding remove_one exists_where count_where
last-removed org [] h = absurd (omega arith)
last-removed org (o ∷ os) h = elim (Bool-cases (o == org)) [
  | inl y ↦ rw y (refl, no_more os (ground (arith, h, y)))
  | inr n ↦
      let (a, b) = last-removed org os (ground (arith, h, n)) in
      rw n (ground (arith, a), ground (arith, b, n))
]
  where
    no_more :
        (os : List ℕ) → count_where (λ o. o == org) os ≡ 0 → exists_where (λ o. o == org) os ≡ false
    no_more [] h = refl
    no_more (o ∷ os) h = ground (arith, no_more os)

module _ (org until : ℕ) where
  -- A lookup that begins, begins before the failure is forgotten.
  abbrev pub Begun : MeterStep → Type 0
  Begun (begins o now) = now < until
  Begun (ends o now answer) = Unit

  IsRemembered-skips :
      (o now : ℕ) (m : Remembered)
      → o ≡ org
      → now < until
      → IsRemembered org until m
      → skips now (fetch_optional (is_entry o) m) ≡ true
  IsRemembered-skips o now m e h r =
      subst (λ o. skips now (fetch_optional (is_entry o) m) ≡ true) (sym e) (rw r (ground arith))

  answer-IsRemembered :
      (o now : ℕ) (m : Remembered) (a : Option UsageStatus)
      → (o == org) ≡ false
      → IsRemembered org until m
      → IsRemembered org until (after_answer o now a m).1
  unfolding after_answer remember fetch_optional
  answer-IsRemembered o now m (some status) n r = fetch-forget_other org o m n ∙ r
  answer-IsRemembered o now m none n r = rw n (fetch-forget_other org o m n ∙ r)

  step-IsQuiet :
      (m : MeterState) (a : MeterStep)
      → Begun a
      → IsQuiet org until m
      → IsQuiet org until (meter_step m a)
  unfolding meter_step exists_where
  step-IsQuiet m (begins o now) h q = elim (Bool-cases (o == org)) [
    | inl y ↦ rw (IsRemembered-skips o now m.fail_open (ground arith) h q.kept) q
    | inr n ↦ elim (Bool-cases (skips now (fetch_optional (is_entry o) m.fail_open))) [
      | inl y ↦ rw y q
      | inr y ↦ rw y (record { kept = q.kept; idle = ground (arith, q.idle, n) })
    ]
  ]
  step-IsQuiet m (ends o now answer) h q = elim (Bool-cases (exists_where (λ x. x == o) m.asking)) [
    | inr n ↦ rw n q
    | inl y ↦ rw y (record {
      kept = answer-IsRemembered o now m.fail_open answer (elsewhere y) q.kept;
      idle = idle-remove org o m.asking q.idle;
    })
  ]
    where
      elsewhere : exists_where (λ x. x == o) m.asking ≡ true → (o == org) ≡ false
      elsewhere y = elim (Bool-cases (o == org)) [
        | inr n ↦ n
        | inl e ↦
            let same : o ≡ org = ground arith in
            absurd (ground (arith, y, q.idle, ap (λ z. exists_where (λ x. x == z) m.asking) same))
      ]

  run-IsQuiet :
      (m : MeterState) (steps : List MeterStep)
      → All Begun steps
      → IsQuiet org until m
      → IsQuiet org until (meter_run m steps)
  unfolding meter_run
  run-IsQuiet m [] h q = q
  run-IsQuiet m (a ∷ rest) h q = run-IsQuiet (meter_step m a) rest h.1 (step-IsQuiet m a h.0 q)

-- When the only lookup of an org that waits fails at a time: for five seconds from then, after any other lookups
-- of any orgs have begun and ended in any order, a lookup of that org allows the completion whatever the platform
-- would answer, asks nothing and leaves what is remembered as it is. Other orgs' lookups may wait at the failure.
pub failed-allows :
    (m : MeterState) (org now : ℕ) (steps : List MeterStep) (l : Lookup)
    → count_where (λ o. o == org) m.asking ≡ 1
    → All (Begun org (now + fail_open_for)) steps
    → l.org ≡ org
    → l.asked_at < now + fail_open_for
    → (billable_blocked (warm l (meter_run m (ends org now none ∷ steps)).fail_open).0 ≡ false)
      × ((warm l (meter_run m (ends org now none ∷ steps)).fail_open).1
          ≡ (meter_run m (ends org now none ∷ steps)).fail_open)
      × (meter_step (meter_run m (ends org now none ∷ steps)) (begins org l.asked_at)
          ≡ meter_run m (ends org now none ∷ steps))
unfolding warm status_for billable_blocked meter_step meter_run
failed-allows m org now steps l c a o h =
    let until = now + fail_open_for in
    let (one, rest) = last-removed org m.asking c in
    let failed : IsQuiet org until (meter_step m (ends org now none)) = rw one (record {
      kept = unfold after_answer remember fetch_optional in ground arith;
      idle = rest;
    }) in
    let q = run-IsQuiet org until (meter_step m (ends org now none)) steps a failed in
    let after = meter_run (meter_step m (ends org now none)) steps in
    let skip = IsRemembered-skips org until l.org l.asked_at after.fail_open o h q.kept in
    let skip_own = IsRemembered-skips org until org l.asked_at after.fail_open refl h q.kept in
    (rw skip refl, rw skip refl, rw skip_own refl)
