-- ===== src/Billing/Outbox.antt =====
-- crates/of-billing/src/outbox.rs and completion.rs: the rows of usage_outbox, how a call is recorded and how a
-- batch is claimed, shipped and settled. Times and durations are in microseconds. The platform's answer
-- is an argument; a claim and what follows the answer are two transactions, each at its own time.
use otto_factory.Common.{
  Bool, List, Option, [], false, if◌then◌else◌, leb, ltb, map, none, not, some, ℕ, ◌&&◌, ◌*◌, ◌++◌,
  ◌+◌, ◌-◌, ◌/◌, ◌==◌, ◌^◌, ◌∷◌,
}
use otto_factory.Common.Int.{ℤ, negsuc, pos}
use otto_factory.Common.Lists.{any, is_empty, length, take}
use otto_factory.Common.Text.{Text, codes, text_eq, trim}
use otto_factory.Table.{delete_where, exists_where, select_where, update_where}

abbrev pub meter_jobs_completed : Text
meter_jobs_completed = codes "otto-tower/jobs_completed"

abbrev pub retired_meters : List (Text × Text)
retired_meters = (codes "otto-factory/jobs_completed", meter_jobs_completed) ∷ []

unfoldable pub successor_in : List (Text × Text) → Text → Text
successor_in [] key = key
successor_in ((retired, successor) ∷ rest) key =
    if text_eq retired key then successor else successor_in rest key

unfoldable pub current_meter : Text → Text
unfolding successor_in
current_meter key = successor_in retired_meters key

pub record Metered : Type 0 where
  pub meter : Text
  pub quantity : ℕ

abbrev pub jobs_completed : Metered
jobs_completed = record { meter = meter_jobs_completed; quantity = 1 }

-- A row of usage_outbox.
pub record UsageRow : Type 0 where
  pub id : ℕ
  pub event_id : ℕ
  pub org_id : ℕ
  pub user_id : Option ℕ
  pub tool : Text
  pub billable : Bool
  pub occurred_at : ℕ
  pub meter : Option Text
  pub quantity : Option ℤ
  pub attempts : ℕ
  pub next_attempt_at : ℕ
  pub last_error : Option Text

abbrev pub meter_of : Option Metered → Option Text
meter_of none = none
meter_of (some m) = some m.meter

abbrev pub quantity_of : Option Metered → Option ℤ
quantity_of none = none
quantity_of (some m) = some (pos m.quantity)

-- The row that `enqueue` inserts; `id` is the sequence's next value, `event_id` that of `gen_random_uuid()`.
abbrev pub usage_row : ℕ → ℕ → ℕ → ℕ → Option ℕ → Text → Bool → Option Metered → UsageRow
usage_row now id event_id org user tool billable metered = record {
  id = id;
  event_id = event_id;
  org_id = org;
  user_id = user;
  tool = tool;
  billable = billable;
  occurred_at = now;
  meter = meter_of metered;
  quantity = quantity_of metered;
  attempts = 0;
  next_attempt_at = now;
  last_error = none;
}

-- The unique constraint on `event_id`: `none` is the error of the database.
unfoldable pub enqueue :
    ℕ
    → ℕ
    → ℕ
    → ℕ
    → Option ℕ
    → Text
    → Bool
    → Option Metered
    → List UsageRow
    → Option (ℕ × List UsageRow)
enqueue now id event_id org user tool billable metered t =
    if exists_where (λ (r : UsageRow). r.event_id == event_id) t
    then none
    else some (event_id, t ++ usage_row now id event_id org user tool billable metered ∷ [])

pub data CompletionSource : Type 0 where
  complete_job inbound_ticket_close : CompletionSource

unfoldable pub tool_of : CompletionSource → Text
tool_of complete_job = codes "complete_job"
tool_of inbound_ticket_close = codes "inbound_ticket_close"

unfoldable pub record_job_completed :
    ℕ → ℕ → ℕ → ℕ → Option ℕ → CompletionSource → Bool → List UsageRow → Option (ℕ × List UsageRow)
unfolding enqueue
record_job_completed now id event_id org user source billed t =
    enqueue now id event_id org user (tool_of source) billed
      (if billed then some jobs_completed else none) t

pub record ShipperConfig : Type 0 where
  pub batch : ℕ
  pub poll : ℕ
  pub claim_lease : ℕ
  pub base_backoff : ℕ
  pub max_backoff : ℕ

-- What the platform is sent of a row.
pub record UsageEvent : Type 0 where
  pub event_id : ℕ
  pub org_id : ℕ
  pub user_id : Option ℕ
  pub tool : Text
  pub billable : Bool
  pub occurred_at : ℕ
  pub service : Option Text
  pub meter : Option Text
  pub quantity : Option ℕ

pub record Rejection : Type 0 where
  pub event_id : ℕ
  pub reason : Text

pub record Receipt : Type 0 where
  pub accepted : ℕ
  pub duplicates : ℕ
  pub rejected : List Rejection

-- What `ship_usage` gives: a receipt, or an error and its sentence.
pub data Answer : Type 0 where
  receipt : Receipt → Answer
  failure : Text → Answer

-- A row of usage_outbox_rejected.
pub record DeadLetter : Type 0 where
  pub event_id : ℕ
  pub org_id : ℕ
  pub user_id : Option ℕ
  pub tool : Text
  pub billable : Bool
  pub occurred_at : ℕ
  pub reason : Text
  pub meter : Option Text
  pub quantity : Option ℤ

unfoldable pub has_num : List ℕ → ℕ → Bool
has_num ns n = any (λ m. m == n) ns

unfoldable pub before_colon : Text → Text
before_colon [] = []
before_colon (c ∷ cs) = if c == 0x3a then [] else c ∷ before_colon cs

unfoldable pub is_unknown_meter : Text → Bool
is_unknown_meter reason = text_eq (trim (before_colon reason)) (codes "unknown_meter")

abbrev pub least : ℕ → ℕ → ℕ
least a b = if leb a b then a else b

-- `LEAST(base * power(2, LEAST(attempts - 1, 20)), max)`; at no attempts the power is a half.
unfoldable pub backoff : ShipperConfig → ℕ → ℕ
backoff cfg attempts =
    least
      (if attempts == 0
        then cfg.base_backoff / 2
        else cfg.base_backoff * 2 ^ least (attempts - 1) 20)
      cfg.max_backoff

-- `ORDER BY id`.
unfoldable pub insert_by_id : UsageRow → List UsageRow → List UsageRow
insert_by_id r [] = r ∷ []
insert_by_id r (x ∷ xs) = if leb r.id x.id then r ∷ x ∷ xs else x ∷ insert_by_id r xs

unfoldable pub sort_by_id : List UsageRow → List UsageRow
unfolding insert_by_id
sort_by_id [] = []
sort_by_id (r ∷ rs) = insert_by_id r (sort_by_id rs)

abbrev pub ids_of : List UsageRow → List ℕ
ids_of rows = map (λ (r : UsageRow). r.id) rows

-- `locked` are the rows that another replica's open transaction holds, which SKIP LOCKED passes over.
unfoldable pub is_due : ℕ → (ℕ → Bool) → UsageRow → Bool
is_due now locked r = leb r.next_attempt_at now && not (locked r.id)

unfoldable pub due_ids : ShipperConfig → ℕ → (ℕ → Bool) → List UsageRow → List ℕ
due_ids cfg now locked t = ids_of (take cfg.batch (sort_by_id (select_where (is_due now locked) t)))

abbrev pub in_ids : List ℕ → UsageRow → Bool
in_ids ids r = has_num ids r.id

unfoldable pub take_row : ShipperConfig → ℕ → UsageRow → UsageRow
take_row cfg now r = record r { attempts = r.attempts + 1; next_attempt_at = now + cfg.claim_lease }

abbrev pub max_attempts : ℕ
max_attempts = 2147483647

-- The claim: the rows taken, in the order of their ids, and the table. `none` is the error of the column's
-- range, which changes nothing.
unfoldable pub claim_due :
    ShipperConfig → ℕ → (ℕ → Bool) → List UsageRow → Option (List UsageRow × List UsageRow)
claim_due cfg now locked t =
    let ids = due_ids cfg now locked t in
    let claimed = update_where (in_ids ids) (take_row cfg now) t in
    if exists_where (λ (r : UsageRow). in_ids ids r && leb max_attempts r.attempts) t
    then none
    else some (sort_by_id (select_where (in_ids ids) claimed), claimed)

abbrev pub current_of : Option Text → Option Text
current_of none = none
current_of (some m) = some (current_meter m)

unfoldable pub to_event : UsageRow → Option ℕ → UsageEvent
to_event r quantity = record {
  event_id = r.event_id;
  org_id = r.org_id;
  user_id = r.user_id;
  tool = r.tool;
  billable = r.billable;
  occurred_at = r.occurred_at;
  service = none;
  meter = current_of r.meter;
  quantity = quantity;
}

abbrev pub add_event : Option UsageEvent → Option (List UsageEvent) → Option (List UsageEvent)
add_event (some e) (some es) = some (e ∷ es)
add_event _ _ = none

-- A negative quantity is a row that cannot be sent.
unfoldable pub event_of : UsageRow → Option ℤ → Option UsageEvent
event_of r none = some (to_event r none)
event_of r (some (pos n)) = some (to_event r (some n))
event_of r (some (negsuc n)) = none

unfoldable pub events_of : List UsageRow → Option (List UsageEvent)
unfolding event_of
events_of [] = some []
events_of (r ∷ rs) = add_event (event_of r r.quantity) (events_of rs)

unfoldable pub postpone : ShipperConfig → ℕ → Text → UsageRow → UsageRow
postpone cfg now reason r = record r {
  last_error = some reason;
  next_attempt_at = now + backoff cfg r.attempts;
}

unfoldable pub reschedule : ShipperConfig → ℕ → List ℕ → Text → List UsageRow → List UsageRow
unfolding postpone
reschedule cfg now ids message t = update_where (in_ids ids) (postpone cfg now (take 500 message)) t

-- `partition(|r| is_unknown_meter(&r.reason))`: the events held, and the rejections that are final.
unfoldable pub held_events : List Rejection → List ℕ
held_events rejected =
    map (λ (r : Rejection). r.event_id) (select_where (λ r. is_unknown_meter r.reason) rejected)

unfoldable pub final_rejections : List Rejection → List Rejection
final_rejections rejected = select_where (λ r. not (is_unknown_meter r.reason)) rejected

unfoldable pub dead_letter : Text → UsageRow → DeadLetter
dead_letter reason r = record {
  event_id = r.event_id;
  org_id = r.org_id;
  user_id = r.user_id;
  tool = r.tool;
  billable = r.billable;
  occurred_at = r.occurred_at;
  reason = reason;
  meter = r.meter;
  quantity = r.quantity;
}

-- The INSERT … SELECT of each final rejection.
unfoldable pub dead_letters : List Rejection → List UsageRow → List DeadLetter
dead_letters [] t = []
dead_letters (r ∷ rs) t =
    map (dead_letter r.reason) (select_where (λ (x : UsageRow). x.event_id == r.event_id) t)
    ++ dead_letters rs t

unfoldable pub is_answered : List ℕ → List ℕ → UsageRow → Bool
is_answered ids held r = in_ids ids r && not (has_num held r.event_id)

pub record Outbox : Type 0 where
  pub rows : List UsageRow
  pub rejected : List DeadLetter

pub record ShipReport : Type 0 where
  pub claimed : ℕ
  pub accepted : ℕ
  pub duplicates : ℕ
  pub rejected : ℕ
  pub unknown_meter : ℕ

pub data ShipResult : Type 0 where
  shipped : ShipReport → ShipResult
  platform_error : Text → ShipResult
  db_error : ShipResult

abbrev pub unknown_meter_error : Text
unknown_meter_error = codes "unknown_meter: the platform has no declaration for this meter"

unfoldable pub answers_for : Receipt → ℕ
answers_for r = r.accepted + r.duplicates + length r.rejected

-- The transaction that follows a receipt which accounts for the whole batch.
unfoldable pub apply_receipt : ShipperConfig → ℕ → List ℕ → Receipt → Outbox → Outbox
apply_receipt cfg now ids r o =
    let held = held_events r.rejected in
    let kept = delete_where (is_answered ids held) o.rows in
    record {
      rows =
          if not (is_empty held)
          then update_where (λ (x : UsageRow). has_num held x.event_id)
              (postpone cfg now unknown_meter_error) kept
          else kept;
      rejected = o.rejected ++ dead_letters (final_rejections r.rejected) o.rows;
    }

unfoldable pub report_of : List ℕ → Receipt → ShipReport
report_of ids r = record {
  claimed = length ids;
  accepted = r.accepted;
  duplicates = r.duplicates;
  rejected = length (final_rejections r.rejected);
  unknown_meter = length (held_events r.rejected);
}

-- What `ship_batch` does with the platform's answer. `mismatch` is the sentence of a receipt that does not
-- account for the batch.
unfoldable pub settle : ShipperConfig → ℕ → List ℕ → Text → Answer → Outbox → ShipResult × Outbox
unfolding apply_receipt reschedule
settle cfg now ids mismatch (receipt r) o =
    if answers_for r == length ids
    then (shipped (report_of ids r), apply_receipt cfg now ids r o)
    else (platform_error mismatch, record o { rows = reschedule cfg now ids mismatch o.rows })
settle cfg now ids mismatch (failure message) o =
    (platform_error message, record o { rows = reschedule cfg now ids message o.rows })

abbrev pub empty_report : ShipReport
empty_report = record { claimed = 0; accepted = 0; duplicates = 0; rejected = 0; unknown_meter = 0 }

-- `ship_batch` of one replica with nothing between its transactions. Rows that cannot be sent leave the claim
-- as it is.
unfoldable pub send :
    ShipperConfig
    → ℕ
    → Text
    → (List UsageEvent → Answer)
    → List UsageRow
    → Outbox
    → ShipResult × Outbox
unfolding settle
send cfg answered_at mismatch ship_usage [] o = (shipped empty_report, o)
send cfg answered_at mismatch ship_usage (r ∷ rs) o = elim (events_of (r ∷ rs)) [
  | none ↦ (db_error, o)
  | some events ↦ settle cfg answered_at (ids_of (r ∷ rs)) mismatch (ship_usage events) o
]

unfoldable pub ship_batch :
    ShipperConfig
    → ℕ
    → ℕ
    → (ℕ → Bool)
    → Text
    → (List UsageEvent → Answer)
    → Outbox
    → ShipResult × Outbox
unfolding claim_due send
ship_batch cfg now answered_at locked mismatch ship_usage o =
    elim (claim_due cfg now locked o.rows) [
      | none ↦ (db_error, o)
      | some (rows, t) ↦ send cfg answered_at mismatch ship_usage rows (record o { rows = t })
    ]

abbrev pub on_meter : Option Text → Text → Bool
on_meter none key = false
on_meter (some m) key = text_eq m key

-- `SELECT DISTINCT org_id … ORDER BY org_id`.
unfoldable pub insert_org : ℕ → List ℕ → List ℕ
insert_org o [] = o ∷ []
insert_org o (p ∷ ps) =
    if o == p then p ∷ ps else if ltb o p then o ∷ p ∷ ps else p ∷ insert_org o ps

unfoldable pub orgs_on : Text → List UsageRow → List ℕ
unfolding insert_org
orgs_on retired [] = []
orgs_on retired (r ∷ rs) =
    let rest = orgs_on retired rs in
    if on_meter r.meter retired then insert_org r.org_id rest else rest

unfoldable pub is_org_on : ℕ → Text → UsageRow → Bool
is_org_on org retired r = r.org_id == org && on_meter r.meter retired

unfoldable pub rename : Text → UsageRow → UsageRow
rename successor r = record r { meter = some successor }

unfoldable pub rename_orgs : Text → Text → List ℕ → List UsageRow → List UsageRow
unfolding is_org_on rename
rename_orgs retired successor [] t = t
rename_orgs retired successor (org ∷ orgs) t =
    rename_orgs retired successor orgs (update_where (is_org_on org retired) (rename successor) t)

-- `rewrite_retired_meters_in`, over the list of retired keys.
unfoldable pub rewrite_meters : List (Text × Text) → List UsageRow → List UsageRow
unfolding rename_orgs orgs_on
rewrite_meters [] t = t
rewrite_meters ((retired, successor) ∷ rest) t =
    rewrite_meters rest (rename_orgs retired successor (orgs_on retired t) t)
