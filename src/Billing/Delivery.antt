-- ===== src/Billing/Delivery.antt =====
-- No recorded event is lost and none is counted twice, whatever the replicas and the platform do.
use otto_factory.Billing.Fleet.{
  Act, Flight, Platform, System, answered, at_rest, claim_step, claimed, claims, crashes, idle,
  records, run, settle_step, settles, ship_step, ships, step, waits,
}
use otto_factory.Billing.Outbox.{ShipperConfig, ids_of, settle}
use otto_factory.Common.{Bool, List, [], arith, true, ℕ, ◌∷◌, ◌≡◌, ◌≤◌, ◌⊎◌}
use otto_factory.Common.Lists.{All}
use otto_factory.Common.Text.{Text}
use otto_factory.Table.Rows.{All-map}
use otto_factory.Billing.Sound.{
  FlightOk, IsSound, IsTracked, claim-IsSound, in_outbox, in_rejected, sent-IsSound,
  set_flight-IsSound,
}
use otto_factory.Billing.Settlement.{settled-IsSound}
use otto_factory.Billing.Recording.{recorded-IsSound}

module _ (platform : Platform) where
  open platform use {State, counted}

  -- Where an event that a call has recorded is.
  unfoldable pub IsDelivered : System platform → ℕ → Type 0
  IsDelivered s e =
      (in_outbox e s.outbox.rows ≡ true)
      ⊎ (in_rejected e s.outbox.rejected ≡ true)
      ⊎ (counted s.state e ≡ 1)

  module _ (cfg : ShipperConfig) where
    claim_step-IsSound :
        (s : System platform) (k : ℕ) (locked : ℕ → Bool) (f : Flight)
        → IsSound platform s
        → IsSound platform (claim_step platform cfg k locked s f)
    unfolding claim_step
    claim_step-IsSound s k locked idle v = claim-IsSound platform cfg k locked s v
    claim_step-IsSound s k locked (claimed rows) v = v
    claim_step-IsSound s k locked (answered rows a) v = v

    ship_step-IsSound :
        (s : System platform) (k : ℕ) (f : Flight)
        → IsSound platform s
        → FlightOk platform s.outbox.rows s.next_id s.state f
        → IsSound platform (ship_step platform k s f)
    unfolding ship_step
    ship_step-IsSound s k idle v h = v
    ship_step-IsSound s k (claimed rows) v h = sent-IsSound platform k s rows v h
    ship_step-IsSound s k (answered rows a) v h = v

    settle_step-IsSound :
        (s : System platform) (k : ℕ) (mismatch : Text) (f : Flight)
        → IsSound platform s
        → FlightOk platform s.outbox.rows s.next_id s.state f
        → IsSound platform (settle_step platform cfg k mismatch s f)
    unfolding settle_step
    settle_step-IsSound s k mismatch idle v h = v
    settle_step-IsSound s k mismatch (claimed rows) v h = v
    settle_step-IsSound s k mismatch (answered rows a) v h =
        set_flight-IsSound platform k idle
          (record s { outbox = (settle cfg s.now (ids_of rows) mismatch a s.outbox).1 })
          (settled-IsSound platform s cfg rows a mismatch v h.0 h.1) tt

    pub step-IsSound :
        (s : System platform) (a : Act)
        → IsSound platform s
        → IsSound platform (step platform cfg s a)
    unfolding step
    step-IsSound s (records event_id org user tool billable metered) v =
        recorded-IsSound platform s event_id org user tool billable metered v
    step-IsSound s (claims k locked) v = claim_step-IsSound s k locked (s.flights k) v
    step-IsSound s (ships k) v = ship_step-IsSound s k (s.flights k) v (v.flights k)
    step-IsSound s (settles k m) v = settle_step-IsSound s k m (s.flights k) v (v.flights k)
    step-IsSound s (crashes k) v = set_flight-IsSound platform k idle s v tt
    step-IsSound s (waits d) v = record {
      ids = v.ids;
      agree = v.agree;
      once = v.once;
      tracked = v.tracked;
      flights = v.flights;
    }

    run-IsSound :
        (acts : List Act) (s : System platform)
        → IsSound platform s
        → IsSound platform (run platform cfg s acts)
    unfolding run
    run-IsSound [] s v = v
    run-IsSound (a ∷ acts) s v = run-IsSound acts (step platform cfg s a) (step-IsSound s a v)

    -- After any calls that record usage and any claims, requests, answers, settlements and crashes
    -- of any replicas in any order, on a platform that keeps the three laws of the interface and
    -- has counted no event twice before, each recorded event is in the outbox, in the table of
    -- refused events or counted exactly once by the platform, and no event is counted twice.
    pub run-delivers :
        (p : State) (acts : List Act)
        → ((e : ℕ) → counted p e ≤ 1)
        → All
            (IsDelivered (run platform cfg (at_rest platform p) acts))
            (run platform cfg (at_rest platform p) acts).recorded
          × ((e : ℕ) → counted (run platform cfg (at_rest platform p) acts).state e ≤ 1)
    unfolding IsTracked IsDelivered
    run-delivers p acts once =
        let s = run platform cfg (at_rest platform p) acts in
        let v : IsSound platform s =
          run-IsSound acts (at_rest platform p)
            (record { ids = tt; agree = tt; once = once; tracked = tt; flights = λ _. tt }) in
        (
          All-map (IsTracked platform s.outbox s.state) (IsDelivered s) s.recorded
              (λ e h. ground (arith, h, v.once e)) v.tracked,
          v.once,
        )
