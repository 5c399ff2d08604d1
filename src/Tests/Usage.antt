-- ===== src/Tests/Usage.antt =====
-- The theorems on the usage outbox at concrete inputs: two replicas and a platform that counts each event once.
use otto_factory.Billing.Charges.{
  bills, completes, failed-allows, is_completion, perform, perform-bills, rows_after,
}
use otto_factory.Billing.Delivery.{IsDelivered, run-delivers}
use otto_factory.Billing.Due.{longest_wait, run-due}
use otto_factory.Billing.Fleet.{
  Act, Platform, System, after_claim, after_record, after_send, at_rest, claim_step, claims,
  crashes, records, run, set_flight, settle_step, settles, ship_step, ships, step, waits,
}
use otto_factory.Billing.Meter.{
  Lookup, MeterState, MeterStep, Warmed, begins, billable_blocked, ends, meter_run, meter_step,
  warm,
}
use otto_factory.Billing.Outbox.{
  Answer, ShipperConfig, UsageEvent, UsageRow, claim_due, due_ids, enqueue, event_of, events_of,
  has_num, insert_by_id, is_due, sort_by_id, take_row, to_event, jobs_completed, on_meter, receipt,
  retired_meters, rewrite_meters, usage_row,
}
use otto_factory.Billing.Retired.{rewrite_meters-sends}
use otto_factory.Common.{
  List, [], arith, false, if◌then◌else◌, map, none, not, refl, some, true, ℕ, ◌+◌, ◌∷◌, ◌≡◌, ◌≤◌,
}
use otto_factory.Common.Lists.{All, length, take}
use otto_factory.Common.Text.{codes}
use otto_factory.Store.{secs}
use otto_factory.Table.{count_where, exists_where, select_where, update_where}

-- The events counted so far.
abbrev count_events : List UsageEvent → List ℕ → List ℕ
count_events [] seen = seen
count_events (u ∷ us) seen = u.event_id ∷ count_events us seen

abbrev accept_all : List UsageEvent → List ℕ → Answer × List ℕ
accept_all es seen =
    (receipt (record { accepted = length es; duplicates = 0; rejected = [] }), count_events es seen)

abbrev times : List ℕ → ℕ → ℕ
times seen e = if has_num seen e then 1 else 0

count_events-has :
    (es : List UsageEvent) (seen : List ℕ) (e : ℕ) → times seen e ≤ times (count_events es seen) e
unfolding has_num
count_events-has [] seen e = omega arith
count_events-has (u ∷ us) seen e = ground (arith, count_events-has us seen e)

count_events-new :
    (es : List UsageEvent) (seen : List ℕ) (e : ℕ)
    → has_num (map (λ (u : UsageEvent). u.event_id) es) e ≡ true
    → 1 ≤ times (count_events es seen) e
unfolding has_num
count_events-new [] seen e h = cc
count_events-new (u ∷ us) seen e h = ground (arith, count_events-new us seen e)

times-le : (seen : List ℕ) (e : ℕ) → times seen e ≤ 1
times-le seen e = ground arith

abbrev counting : Platform
counting = record {
  State = List ℕ;
  ship_usage = accept_all;
  counted = times;
  keeps = count_events-has;
  dedupes = λ es p e _. times-le (count_events es p) e;
  accounts = λ es p r e _ _ h _. count_events-new es p e h;
}

abbrev shipper : ShipperConfig
shipper = record {
  batch = 100;
  poll = secs 5;
  claim_lease = secs 120;
  base_backoff = secs 5;
  max_backoff = secs 900;
}

-- Two calls are recorded; replica 0 claims and dies; replica 1 delivers after the claim's lifetime.
abbrev acts : List Act
acts =
    records 50 1 (some 7) (codes "complete_job") true (some jobs_completed)
    ∷ records 51 1 (some 7) (codes "watch") false none
    ∷ claims 0 (λ _. false)
    ∷ crashes 0
    ∷ waits (secs 120)
    ∷ claims 1 (λ _. false)
    ∷ ships 1
    ∷ settles 1 (codes "mismatch")
    ∷ []

abbrev delivered : System counting
delivered = run counting shipper (at_rest counting []) acts

run-delivers_example :
    All (IsDelivered counting delivered) delivered.recorded
    × ((e : ℕ) → times delivered.state e ≤ 1)
run-delivers_example = run-delivers counting shipper [] acts (times-le [])

-- After the crash of replica 0 both rows still carry its claim.
abbrev stranded : System counting
stranded = run counting shipper (at_rest counting []) (take 4 acts)

run-due_example :
    All (λ r. is_due (stranded.now + secs 900) (λ _. false) r ≡ not false) stranded.outbox.rows
unfolding longest_wait
run-due_example = run-due counting shipper [] (take 4 acts) (secs 900) (λ _. false) (omega arith)

abbrev waiting : System counting
waiting = run counting shipper (at_rest counting []) (take 2 acts)

-- The run above empties the outbox and counts both events.
delivered_counts : delivered.state ≡ 50 ∷ 51 ∷ []
unfolding run step after_record enqueue exists_where claim_step after_claim claim_due due_ids
    sort_by_id insert_by_id select_where is_due update_where has_num take_row set_flight events_of
    event_of to_event ship_step after_send settle_step
delivered_counts = refl

abbrev open_org : Warmed
open_org = record { status = none }

perform-bills_example :
    (count_where
        (λ (r : UsageRow). r.billable)
        (rows_after waiting.outbox.rows
          (perform 9 2 52 1 7 (completes open_org) waiting.outbox.rows))
      ≡ count_where (λ (r : UsageRow). r.billable) waiting.outbox.rows
        + (if bills 9 2 52 1 7 (completes open_org) waiting.outbox.rows then 1 else 0))
    × (count_where is_completion (
          rows_after waiting.outbox.rows
            (perform 9 2 52 1 7 (completes open_org) waiting.outbox.rows))
        ≡ count_where is_completion waiting.outbox.rows
          + (if bills 9 2 52 1 7 (completes open_org) waiting.outbox.rows then 1 else 0))
perform-bills_example = perform-bills 9 2 52 1 7 (completes open_org) waiting.outbox.rows

-- A lookup of org 1 waits, and one of org 2.
abbrev two_waiting : MeterState
two_waiting = record { fail_open = []; asking = 2 ∷ 1 ∷ [] }

abbrev meanwhile : List MeterStep
meanwhile =
    begins 1 (secs 3) ∷ ends 2 (secs 3) (some (record { is_blocked = false; reason = none })) ∷ []

abbrev again : Lookup
again = record {
  org = 1;
  asked_at = secs 6;
  answered_at = secs 6;
  answer = some (record { is_blocked = true; reason = none });
}

failed-allows_example :
    (billable_blocked
        (warm again (meter_run two_waiting (ends 1 (secs 2) none ∷ meanwhile)).fail_open).0
      ≡ false)
    × ((warm again (meter_run two_waiting (ends 1 (secs 2) none ∷ meanwhile)).fail_open).1
        ≡ (meter_run two_waiting (ends 1 (secs 2) none ∷ meanwhile)).fail_open)
    × (meter_step (meter_run two_waiting (ends 1 (secs 2) none ∷ meanwhile)) (begins 1 (secs 6))
        ≡ meter_run two_waiting (ends 1 (secs 2) none ∷ meanwhile))
unfolding count_where
failed-allows_example =
    failed-allows two_waiting 1 (secs 2) meanwhile again refl (omega arith, (tt, tt)) refl
      (omega arith)

abbrev old_row : UsageRow
old_row = record (usage_row 0 0 50 1 none (codes "complete_job") true (some jobs_completed)) {
  meter = some (codes "otto-factory/jobs_completed");
}

rewrite_meters-sends_example :
    All
      (λ r. on_meter r.meter (codes "otto-factory/jobs_completed") ≡ false)
      (rewrite_meters retired_meters (old_row ∷ []))
    × (events_of (rewrite_meters retired_meters (old_row ∷ [])) ≡ events_of (old_row ∷ []))
rewrite_meters-sends_example = rewrite_meters-sends (old_row ∷ [])
