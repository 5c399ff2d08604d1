-- ===== src/Billing/Recording.antt =====
-- A call that records usage adds an event that is then followed like the others.
use otto_factory.Billing.Agreement.{Agrees, SameEvent, exists-append}
use otto_factory.Billing.Fleet.{Platform, System, after_record}
use otto_factory.Billing.Outbox.{Metered, UsageRow, enqueue, usage_row}
use otto_factory.Common.{
  Bool, Bool-cases, List, Option, [], arith, inl, inr, refl, true, ℕ, ◌++◌, ◌+◌, ◌<◌, ◌==◌, ◌∷◌,
  ◌≡◌, ◌||◌,
}
use otto_factory.Common.Lists.{All, All-append}
use otto_factory.Common.Text.{Text}
use otto_factory.Table.{exists_where}
use otto_factory.Table.Rows.{All-both, All-map}
use otto_factory.Billing.Sound.{FlightOk-later, Held, IsSound, IsTracked, in_outbox}

module _ (platform : Platform) where
  open platform use {counted}

  -- A recorded call: the new row has an id that no row has had.
  module _ (s : System platform) (v : IsSound platform s) (x : UsageRow)
      (fresh : x.id ≡ s.next_id) where
    abbrev longer : List UsageRow
    longer = s.outbox.rows ++ x ∷ []

    older :
        (rows : List UsageRow)
        → All (λ r. r.id < s.next_id) rows
        → All (λ r. r.id < s.next_id + 1) rows
    older rows =
        All-map (λ r. r.id < s.next_id) (λ r. r.id < s.next_id + 1) rows (λ r h. omega arith)

    apart : (rows : List UsageRow) → All (λ r. r.id < s.next_id) rows → All (SameEvent x) rows
    apart rows = All-map (λ r. r.id < s.next_id) (SameEvent x) rows (λ r h e. absurd (omega arith))

    longer-Held :
        (rows : List UsageRow)
        → Held s.outbox.rows s.next_id rows
        → Held longer (s.next_id + 1) rows
    longer-Held rows h = (
      older rows h.0,
      All-append (λ y. All (SameEvent y) rows) s.outbox.rows (x ∷ []) h.1 (apart rows h.0, tt),
    )

    longer-Agrees : Agrees longer longer
    longer-Agrees =
        All-append (λ y. All (SameEvent y) longer) s.outbox.rows (x ∷ [])
          (All-map (λ y. (y.id < s.next_id) × All (SameEvent y) s.outbox.rows)
            (λ y. All (SameEvent y) longer) s.outbox.rows
            (λ y h.
              All-append (SameEvent y) s.outbox.rows (x ∷ []) h.1
                (λ e. absurd (omega (arith, h.0)), tt))
            (All-both (λ y. y.id < s.next_id) (λ y. All (SameEvent y) s.outbox.rows) s.outbox.rows
              v.ids v.agree))
          (
            All-append (SameEvent x) s.outbox.rows (x ∷ []) (apart s.outbox.rows v.ids)
                (λ e. refl, tt),
            tt,
          )

    added-IsSound : IsSound platform (record s {
      outbox = record s.outbox { rows = longer };
      next_id = s.next_id + 1;
      recorded = x.event_id ∷ s.recorded;
    })
    unfolding IsTracked
    added-IsSound = record {
      ids =
          All-append (λ r. r.id < s.next_id + 1) s.outbox.rows (x ∷ []) (older s.outbox.rows v.ids)
            (omega arith, tt);
      agree = longer-Agrees;
      once = v.once;
      tracked = (
        ground (arith, more x.event_id, exists_one),
        All-map (IsTracked platform s.outbox s.state)
            (IsTracked platform (record s.outbox { rows = longer }) s.state) s.recorded
            (λ e h. ground (arith, more e)) v.tracked,
      );
      flights = λ k.
          FlightOk-later platform s.outbox.rows longer s.next_id (s.next_id + 1) s.state s.state
            (s.flights k) longer-Held (λ e. omega arith) (v.flights k);
    }
      where
        more : (e : ℕ) → in_outbox e longer ≡ (in_outbox e s.outbox.rows || in_outbox e (x ∷ []))
        more e = exists-append (λ (y : UsageRow). y.event_id == e) s.outbox.rows (x ∷ [])

        exists_one : in_outbox x.event_id (x ∷ []) ≡ true
        exists_one = unfold exists_where in ground arith

  pub recorded-IsSound :
      (s : System platform) (event_id org : ℕ) (user : Option ℕ) (tool : Text) (billable : Bool)
      (metered : Option Metered)
      → IsSound platform s
      → IsSound platform (
          after_record platform s
            (enqueue s.now s.next_id event_id org user tool billable metered s.outbox.rows))
  unfolding after_record enqueue
  recorded-IsSound s event_id org user tool billable metered v =
      elim (Bool-cases (exists_where (λ (r : UsageRow). r.event_id == event_id) s.outbox.rows)) [
        | inl y ↦ rw y v
        | inr n ↦ rw n (
            added-IsSound s v (usage_row s.now s.next_id event_id org user tool billable metered)
              refl)
      ]
