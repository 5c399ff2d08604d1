-- ===== src/Billing/Fleet.antt =====
-- crates/of-billing/src/outbox.rs, `run` in every replica: the calls that record usage, and the claims, the requests
-- and the settlements of any number of replicas, in any order.
use otto_factory.Billing.Outbox.{
  Answer, Metered, Outbox, Receipt, Rejection, ShipperConfig, UsageEvent, UsageRow, answers_for,
  claim_due, enqueue, events_of, has_num, ids_of, receipt, settle,
}
use otto_factory.Common.{
  Bool, List, Option, [], false, if◌then◌else◌, map, none, some, true, ℕ, ◌+◌, ◌==◌, ◌∷◌, ◌≡◌, ◌≤◌,
}
use otto_factory.Common.Lists.{length}
use otto_factory.Common.Text.{Text}

-- The platform, as the module's documentation describes it: it counts an event once however often it is sent,
-- never forgets one, and in a receipt that accounts for a batch names each event that it refused.
pub record Platform : Type 1 where
  pub State : Type 0
  pub ship_usage : List UsageEvent → State → Answer × State
  pub counted : State → ℕ → ℕ
  pub keeps :
      (es : List UsageEvent) (p : State) (e : ℕ) → counted p e ≤ counted (ship_usage es p).1 e
  pub dedupes :
      (es : List UsageEvent) (p : State) (e : ℕ)
      → counted p e ≤ 1
      → counted (ship_usage es p).1 e ≤ 1
  pub accounts :
      (es : List UsageEvent) (p : State) (r : Receipt) (e : ℕ)
      → (ship_usage es p).0 ≡ receipt r
      → answers_for r ≡ length es
      → has_num (map (λ (u : UsageEvent). u.event_id) es) e ≡ true
      → has_num (map (λ (x : Rejection). x.event_id) r.rejected) e ≡ false
      → 1 ≤ counted (ship_usage es p).1 e

-- Where a replica is in `ship_batch`: it holds nothing, a batch, or a batch and the answer.
pub data Flight : Type 0 where
  idle : Flight
  claimed : List UsageRow → Flight
  answered : List UsageRow → Answer → Flight

pub data Act : Type 0 where
  records : ℕ → ℕ → Option ℕ → Text → Bool → Option Metered → Act
  claims : ℕ → (ℕ → Bool) → Act
  ships : ℕ → Act
  settles : ℕ → Text → Act
  crashes : ℕ → Act
  waits : ℕ → Act

-- A batch that cannot be sent is given up with its claim standing.
abbrev pub sendable : List UsageRow → Option (List UsageEvent) → Flight
sendable rows none = idle
sendable rows (some _) = claimed rows

abbrev pub flight_of : List UsageRow → Flight
flight_of [] = idle
flight_of (r ∷ rs) = sendable (r ∷ rs) (events_of (r ∷ rs))

module _ (platform : Platform) where
  open platform use {State, ship_usage}

  -- `recorded` lists the events that calls have recorded; the rest is the state of the fleet.
  pub record System : Type 0 where
    pub outbox : Outbox
    pub flights : ℕ → Flight
    pub state : State
    pub now : ℕ
    pub next_id : ℕ
    pub recorded : List ℕ

  unfoldable pub set_flight : ℕ → Flight → System → System
  set_flight k f s = record s { flights = λ j. if j == k then f else s.flights j }

  unfoldable pub after_record : System → Option (ℕ × List UsageRow) → System
  after_record s none = s
  after_record s (some (e, t)) = record s {
    outbox = record s.outbox { rows = t };
    next_id = s.next_id + 1;
    recorded = e ∷ s.recorded;
  }

  unfoldable pub after_claim : ℕ → System → Option (List UsageRow × List UsageRow) → System
  unfolding set_flight
  after_claim k s none = s
  after_claim k s (some (rows, t)) =
      set_flight k (flight_of rows) (record s { outbox = record s.outbox { rows = t } })

  unfoldable pub after_send : ℕ → System → List UsageRow → Option (List UsageEvent) → System
  unfolding set_flight
  after_send k s rows none = s
  after_send k s rows (some es) =
      set_flight k (answered rows (ship_usage es s.state).0)
        (record s { state = (ship_usage es s.state).1 })

  unfoldable pub claim_step : ShipperConfig → ℕ → (ℕ → Bool) → System → Flight → System
  unfolding after_claim
  claim_step cfg k locked s idle = after_claim k s (claim_due cfg s.now locked s.outbox.rows)
  claim_step cfg k locked s (claimed _) = s
  claim_step cfg k locked s (answered _ _) = s

  unfoldable pub ship_step : ℕ → System → Flight → System
  unfolding after_send
  ship_step k s (claimed rows) = after_send k s rows (events_of rows)
  ship_step k s idle = s
  ship_step k s (answered _ _) = s

  unfoldable pub settle_step : ShipperConfig → ℕ → Text → System → Flight → System
  unfolding set_flight
  settle_step cfg k mismatch s (answered rows a) =
      set_flight k idle
        (record s { outbox = (settle cfg s.now (ids_of rows) mismatch a s.outbox).1 })
  settle_step cfg k mismatch s idle = s
  settle_step cfg k mismatch s (claimed _) = s

  unfoldable pub step : ShipperConfig → System → Act → System
  unfolding claim_step ship_step settle_step after_record
  step cfg s (records event_id org user tool billable metered) =
      after_record s (enqueue s.now s.next_id event_id org user tool billable metered s.outbox.rows)
  step cfg s (claims k locked) = claim_step cfg k locked s (s.flights k)
  step cfg s (ships k) = ship_step k s (s.flights k)
  step cfg s (settles k mismatch) = settle_step cfg k mismatch s (s.flights k)
  step cfg s (crashes k) = set_flight k idle s
  step cfg s (waits d) = record s { now = s.now + d }

  unfoldable pub run : ShipperConfig → System → List Act → System
  unfolding step
  run cfg s [] = s
  run cfg s (a ∷ acts) = run cfg (step cfg s a) acts

  -- Before any call, with the platform in some state.
  abbrev pub at_rest : State → System
  at_rest p = record {
    outbox = record { rows = []; rejected = [] };
    flights = λ _. idle;
    state = p;
    now = 0;
    next_id = 0;
    recorded = [];
  }
