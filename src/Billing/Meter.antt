-- ===== src/Billing/Meter.antt =====
-- crates/of-billing/src/meter.rs: recording tool calls, and refusing a billable one when the platform says to.
-- What `PlatformClient::usage_status` answers is an argument of each lookup; times are in microseconds.
use otto_factory.Billing.Classify.{classify, is_billable}
use otto_factory.Billing.Outbox.{UsageRow, complete_job, enqueue, record_job_completed}
use otto_factory.Common.{
  Bool, List, Option, [], false, if◌then◌else◌, ltb, none, some, true, ℕ, ◌+◌, ◌-◌, ◌==◌, ◌∷◌,
}
use otto_factory.Common.Int.{ℤ, pos_part, neg_part}
use otto_factory.Common.Text.{Text, codes, text_eq}
use otto_factory.Table.{delete_where, exists_where, fetch_optional}

-- What the meter reads of a `UsageStatus`: `billable_blocked()` and the reason.
pub record UsageStatus : Type 0 where
  pub is_blocked : Bool
  pub reason : Option Text

pub record Warmed : Type 0 where
  pub status : Option UsageStatus

abbrev pub status_blocked : Option UsageStatus → Bool
status_blocked none = false
status_blocked (some s) = s.is_blocked

unfoldable pub billable_blocked : Warmed → Bool
billable_blocked w = status_blocked w.status

abbrev pub reason_if_blocked : Option UsageStatus → Option Text
reason_if_blocked none = none
reason_if_blocked (some s) = if s.is_blocked then s.reason else none

unfoldable pub blocked_reason : Warmed → Option Text
blocked_reason w = reason_if_blocked w.status

-- error.rs, `blocked_code`: the two codes an agent can meet.
pub data BlockedCode : Type 0 where
  budget_exceeded payment_required : BlockedCode

unfoldable pub blocked_code : Option Text → BlockedCode
blocked_code none = budget_exceeded
blocked_code (some reason) =
    if text_eq reason (codes "payment_required") then payment_required else budget_exceeded

pub data BillingError : Type 0 where
  blocked : Option Text → BillingError
  db : BillingError

pub data Charged : Type 0 where
  charged : Bool → List UsageRow → Charged
  refused : BillingError → Charged

abbrev pub as_charge : Bool → Option (ℕ × List UsageRow) → Charged
as_charge billable none = refused db
as_charge billable (some (event, t)) = charged billable t

-- `now`, `id` and `event_id` are what the database gives a new row.
module _ (now id event_id org : ℕ) where
  unfoldable pub charge : ℕ → Text → List UsageRow → Charged
  charge user tool t =
      let billable = is_billable (classify tool) in
      as_charge billable (enqueue now id event_id org (some user) tool billable none t)

  unfoldable pub charge_completion : ℕ → Warmed → List UsageRow → Charged
  charge_completion user warmed t =
      if billable_blocked warmed
      then refused (blocked (blocked_reason warmed))
      else as_charge true (record_job_completed now id event_id org (some user) complete_job true t)

  unfoldable pub record_replay : ℕ → Text → List UsageRow → Charged
  record_replay user tool t =
      as_charge false (enqueue now id event_id org (some user) tool false none t)

-- The map `fail_open`: orgs whose last lookup failed, and until when not to ask.
abbrev pub Remembered : Type 0
Remembered = List (ℕ × ℕ)

abbrev pub is_entry : ℕ → ℕ × ℕ → Bool
is_entry org e = e.0 == org

-- `HashMap::remove` and `HashMap::insert`.
unfoldable pub forget : ℕ → Remembered → Remembered
forget org m = delete_where (is_entry org) m

unfoldable pub remember : ℕ → ℕ → Remembered → Remembered
unfolding forget
remember org until m = (org, until) ∷ forget org m

abbrev pub fail_open_for : ℕ
fail_open_for = 5000000

-- One call of `warm`: when it is made, when the platform answered or the wait ended, and the answer, `none` for
-- an error or a time-out.
pub record Lookup : Type 0 where
  pub org : ℕ
  pub asked_at : ℕ
  pub answered_at : ℕ
  pub answer : Option UsageStatus

abbrev pub skips : ℕ → Option (ℕ × ℕ) → Bool
skips now none = false
skips now (some (org, until)) = ltb now until

unfoldable pub after_answer :
    ℕ → ℕ → Option UsageStatus → Remembered → Option UsageStatus × Remembered
unfolding remember forget
after_answer org now (some status) m = (some status, forget org m)
after_answer org now none m = (none, remember org (now + fail_open_for) m)

-- A lookup that no other one overlaps.
unfoldable pub status_for : Lookup → Remembered → Option UsageStatus × Remembered
unfolding after_answer
status_for l m =
    if skips l.asked_at (fetch_optional (is_entry l.org) m)
    then (none, m)
    else after_answer l.org l.answered_at l.answer m

unfoldable pub warm : Lookup → Remembered → Warmed × Remembered
unfolding status_for
warm l m = (record { status = (status_for l m).0 }, (status_for l m).1)

-- Lookups that overlap: the lock on the map is not held while one waits for the platform. `asking` has the org of
-- each that waits.
pub record MeterState : Type 0 where
  pub fail_open : Remembered
  pub asking : List ℕ

-- A lookup of an org reads the map at a time; one that waits has its answer, or has none, at a time.
pub data MeterStep : Type 0 where
  begins : ℕ → ℕ → MeterStep
  ends : ℕ → ℕ → Option UsageStatus → MeterStep

unfoldable pub remove_one : ℕ → List ℕ → List ℕ
remove_one org [] = []
remove_one org (o ∷ os) = if o == org then os else o ∷ remove_one org os

unfoldable pub meter_step : MeterState → MeterStep → MeterState
unfolding after_answer remove_one
meter_step m (begins org now) =
    if skips now (fetch_optional (is_entry org) m.fail_open)
    then m
    else record m { asking = org ∷ m.asking }
meter_step m (ends org now answer) =
    if exists_where (λ o. o == org) m.asking
    then record {
      fail_open = (after_answer org now answer m.fail_open).1;
      asking = remove_one org m.asking;
    }
    else m

unfoldable pub meter_run : MeterState → List MeterStep → MeterState
unfolding meter_step
meter_run m [] = m
meter_run m (a ∷ rest) = meter_run (meter_step m a) rest

-- `included.saturating_sub(used).max(0)`, where the difference is in the range of i64.
unfoldable pub remaining : ℤ → ℤ → ℕ
remaining used included = (pos_part included + neg_part used) - (pos_part used + neg_part included)
