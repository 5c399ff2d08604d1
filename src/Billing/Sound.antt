-- ===== src/Billing/Sound.antt =====
-- What holds of the outbox and of the batches in flight between any two steps of the replicas, and that a
-- claim and a request keep it.
use otto_factory.Billing.Agreement.{
  Agrees, Agrees-update, Agrees-update_self, All-select, All-sort, Keeps, SameEvent, below-update,
  claim_due-ok, events_of-rows, events_own, exists-update, take_row-Keeps,
}
use otto_factory.Billing.Fleet.{
  Flight, Platform, System, after_claim, after_send, answered, claimed, flight_of, idle, sendable,
  set_flight,
}
use otto_factory.Billing.Outbox.{
  Answer, DeadLetter, Outbox, Receipt, Rejection, ShipperConfig, UsageEvent, UsageRow, answers_for,
  claim_due, due_ids, events_of, failure, has_num, ids_of, in_ids, receipt, sort_by_id, take_row,
}
use otto_factory.Common.{
  Bool, Bool-cases, List, Option, Option-cases, [], arith, false, inl, inr, leb, map, none, refl,
  some, sym, true, ℕ, ◌<◌, ◌==◌, ◌∙◌, ◌∷◌, ◌≡◌, ◌≤◌, ◌||◌,
}
use otto_factory.Common.Lists.{All, length}
use otto_factory.Table.{exists_where, select_where, update_where}
use otto_factory.Table.Rows.{All-map}

abbrev pub in_outbox : ℕ → List UsageRow → Bool
in_outbox e t = exists_where (λ (x : UsageRow). x.event_id == e) t

abbrev pub in_rejected : ℕ → List DeadLetter → Bool
in_rejected e d = exists_where (λ (x : DeadLetter). x.event_id == e) d

abbrev pub refused : Receipt → ℕ → Bool
refused r e = has_num (map (λ (x : Rejection). x.event_id) r.rejected) e

abbrev pub Held : List UsageRow → ℕ → List UsageRow → Type 0
Held t n rows = All (λ r. r.id < n) rows × Agrees t rows

module _ (platform : Platform) where
  open platform use {State, ship_usage, counted, keeps, dedupes, accounts}

  -- The event waits, is a dead letter, or has been counted.
  unfoldable pub IsTracked : Outbox → State → ℕ → Type 0
  IsTracked o p e = (in_outbox e o.rows || in_rejected e o.rejected || leb 1 (counted p e)) ≡ true

  abbrev pub Counted : State → List UsageRow → Answer → Type 0
  Counted p rows (failure _) = Unit
  Counted p rows (receipt r) =
      answers_for r ≡ length (ids_of rows)
      → All (λ x. refused r x.event_id ≡ false → 1 ≤ counted p x.event_id) rows

  abbrev pub FlightOk : List UsageRow → ℕ → State → Flight → Type 0
  FlightOk t n p idle = Unit
  FlightOk t n p (claimed rows) = Held t n rows
  FlightOk t n p (answered rows a) = Held t n rows × Counted p rows a

  pub record IsSound (s : System platform) : Type 0 where
    pub ids : All (λ (r : UsageRow). r.id < s.next_id) s.outbox.rows
    pub agree : Agrees s.outbox.rows s.outbox.rows
    pub once : (e : ℕ) → counted s.state e ≤ 1
    pub tracked : All (IsTracked s.outbox s.state) s.recorded
    pub flights : (k : ℕ) → FlightOk s.outbox.rows s.next_id s.state (s.flights k)

  Counted-later :
      (p p' : State) (rows : List UsageRow) (a : Answer)
      → ((e : ℕ) → counted p e ≤ counted p' e)
      → Counted p rows a
      → Counted p' rows a
  Counted-later p p' rows (failure _) m c = tt
  Counted-later p p' rows (receipt r) m c = λ e.
      All-map (λ x. refused r x.event_id ≡ false → 1 ≤ counted p x.event_id)
        (λ x. refused r x.event_id ≡ false → 1 ≤ counted p' x.event_id) rows
        (λ x h q. omega (arith, h q, m x.event_id)) (c e)

  pub FlightOk-later :
      (t t' : List UsageRow) (n n' : ℕ) (p p' : State) (f : Flight)
      → ((rows : List UsageRow) → Held t n rows → Held t' n' rows)
      → ((e : ℕ) → counted p e ≤ counted p' e)
      → FlightOk t n p f
      → FlightOk t' n' p' f
  FlightOk-later t t' n n' p p' idle h m ok = tt
  FlightOk-later t t' n n' p p' (claimed rows) h m ok = h rows ok
  FlightOk-later t t' n n' p p' (answered rows a) h m ok =
      (h rows ok.0, Counted-later p p' rows a m ok.1)

  pub set_flight-IsSound :
      (k : ℕ) (f : Flight) (s : System platform)
      → IsSound s
      → FlightOk s.outbox.rows s.next_id s.state f
      → IsSound (set_flight platform k f s)
  unfolding set_flight
  set_flight-IsSound k f s v ok = record {
    ids = v.ids;
    agree = v.agree;
    once = v.once;
    tracked = v.tracked;
    flights = λ j. elim (Bool-cases (j == k)) [ inl e ↦ rw e ok | inr e ↦ rw e (v.flights j) ];
  }

  -- A change of the outbox that keeps rows on their events and no event out of sight.
  pub outbox-IsSound :
      (s : System platform) (o : Outbox)
      → IsSound s
      → All (λ (r : UsageRow). r.id < s.next_id) o.rows
      → Agrees o.rows o.rows
      → ((rows : List UsageRow) → Agrees s.outbox.rows rows → Agrees o.rows rows)
      → ((e : ℕ) → IsTracked s.outbox s.state e → IsTracked o s.state e)
      → IsSound (record s { outbox = o })
  outbox-IsSound s o v i a b t = record {
    ids = i;
    agree = a;
    once = v.once;
    tracked = All-map (IsTracked s.outbox s.state) (IsTracked o s.state) s.recorded t v.tracked;
    flights = λ k.
        FlightOk-later s.outbox.rows o.rows s.next_id s.next_id s.state s.state (s.flights k)
          (λ rows h. (h.0, b rows h.1)) (λ e. omega arith) (v.flights k);
  }

  -- An update of rows that keeps ids and events, as a claim and a retry are.
  pub update-IsSound :
      (s : System platform) (q : UsageRow → Bool) (f : UsageRow → UsageRow)
      → Keeps f
      → IsSound s
      → IsSound (record s { outbox = record s.outbox { rows = update_where q f s.outbox.rows } })
  unfolding IsTracked
  update-IsSound s q f k v =
      outbox-IsSound s (record s.outbox { rows = update_where q f s.outbox.rows }) v
        (below-update q f k s.next_id s.outbox.rows v.ids)
        (Agrees-update_self q f k s.outbox.rows v.agree)
        (λ rows. Agrees-update q f k s.outbox.rows rows)
        (λ e h. rw (exists-update q f k e s.outbox.rows) h)

  flight_of-Held :
      (t rows : List UsageRow) (n : ℕ) (p : State) → Held t n rows → FlightOk t n p (flight_of rows)
  flight_of-Held t [] n p h = tt
  flight_of-Held t (r ∷ rs) n p h = by_events (events_of (r ∷ rs))
    where
      by_events : (o : Option (List UsageEvent)) → FlightOk t n p (sendable (r ∷ rs) o)
      by_events none = tt
      by_events (some es) = h

  pub claim-IsSound :
      (cfg : ShipperConfig) (k : ℕ) (locked : ℕ → Bool) (s : System platform)
      → IsSound s
      → IsSound (after_claim platform k s (claim_due cfg s.now locked s.outbox.rows))
  unfolding after_claim
  claim-IsSound cfg k locked s v = elim (Option-cases (claim_due cfg s.now locked s.outbox.rows)) [
    | inl e ↦ rw e v
    | inr ((rows, t'), e) ↦
        let ids = due_ids cfg s.now locked s.outbox.rows in
        let (te, re) = claim_due-ok cfg s.now locked s.outbox.rows rows t' e in
        let w : IsSound (record s { outbox = record s.outbox { rows = t' } }) =
          rw te (update-IsSound s (in_ids ids) (take_row cfg s.now) (take_row-Keeps cfg s.now) v) in
        let held : Held t' s.next_id rows = rw re (
          All-sort (λ r. r.id < s.next_id) (select_where (in_ids ids) t')
              (All-select (λ r. r.id < s.next_id) (in_ids ids) t' w.ids),
          All-map (λ x. All (SameEvent x) t')
              (λ x. All (SameEvent x) (sort_by_id (select_where (in_ids ids) t'))) t'
              (λ x a.
                All-sort (SameEvent x) (select_where (in_ids ids) t')
                  (All-select (SameEvent x) (in_ids ids) t' a))
              w.agree,
        ) in
        rw e (
          set_flight-IsSound k (flight_of rows)
            (record s { outbox = record s.outbox { rows = t' } }) w
            (flight_of-Held t' rows s.next_id s.state held))
  ]

  -- The answer to a batch is a promise about its rows.
  Counted-sent :
      (p : State) (rows : List UsageRow) (es : List UsageEvent)
      → events_of rows ≡ some es
      → Counted (ship_usage es p).1 rows (ship_usage es p).0
  Counted-sent p rows es h = by_answer (ship_usage es p).0 refl
    where
      by_answer : (a : Answer) → (ship_usage es p).0 ≡ a → Counted (ship_usage es p).1 rows a
      by_answer (failure m) e = tt
      by_answer (receipt r) e = λ n.
          let (len, names) = events_of-rows rows es h in
          All-map (λ x. has_num (map (λ (y : UsageRow). y.event_id) rows) x.event_id ≡ true)
            (λ x. refused r x.event_id ≡ false → 1 ≤ counted (ship_usage es p).1 x.event_id) rows
            (λ x m q. accounts es p r x.event_id e (n ∙ sym len) (rw names m) q) (events_own rows)

  -- The platform's part of a request, and the flight that comes back with its answer.
  pub sent-IsSound :
      (k : ℕ) (s : System platform) (rows : List UsageRow)
      → IsSound s
      → Held s.outbox.rows s.next_id rows
      → IsSound (after_send platform k s rows (events_of rows))
  unfolding after_send IsTracked
  sent-IsSound k s rows v h = elim (Option-cases (events_of rows)) [
    | inl e ↦ rw e v
    | inr (es, e) ↦
        let p' = (ship_usage es s.state).1 in
        let w : IsSound (record s { state = p' }) = record {
          ids = v.ids;
          agree = v.agree;
          once = λ n. dedupes es s.state n (v.once n);
          tracked =
              All-map (IsTracked s.outbox s.state) (IsTracked s.outbox p') s.recorded
                (λ n t. ground (arith, keeps es s.state n)) v.tracked;
          flights = λ j.
              FlightOk-later s.outbox.rows s.outbox.rows s.next_id s.next_id s.state p'
                (s.flights j) (λ r q. q) (keeps es s.state) (v.flights j);
        } in
        rw e (
          set_flight-IsSound k (answered rows (ship_usage es s.state).0) (record s { state = p' }) w
            (h, Counted-sent s.state rows es e))
  ]
