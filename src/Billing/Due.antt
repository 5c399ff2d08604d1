-- ===== src/Billing/Due.antt =====
-- No row of the outbox is put off for longer than a claim or the longest retry.
use otto_factory.Billing.Fleet.{
  Act, Flight, Platform, System, after_claim, after_record, after_send, answered, at_rest,
  claim_step, claimed, claims, crashes, idle, records, run, set_flight, settle_step, settles,
  ship_step, ships, step, waits,
}
use otto_factory.Billing.Outbox.{
  Answer, Metered, Outbox, ShipperConfig, UsageEvent, UsageRow, answers_for, apply_receipt, backoff,
  claim_due, due_ids, enqueue, events_of, failure, has_num, held_events, ids_of, in_ids,
  is_answered, is_due, least, postpone, receipt, reschedule, settle, take_row, unknown_meter_error,
  usage_row,
}
use otto_factory.Billing.Agreement.{claim_due-ok}
use otto_factory.Common.{
  Bool, Bool-cases, List, Option, Option-cases, [], arith, false, if◌then◌else◌, inl, inr, leb,
  none, not, some, true, ℕ, ◌+◌, ◌*◌, ◌-◌, ◌^◌, ◌/◌, ◌⊎◌, ◌==◌, ◌∷◌, ◌≡◌, ◌≤◌,
}
use otto_factory.Common.Lists.{All, All-append, is_empty, length, take}
use otto_factory.Common.Text.{Text}
use otto_factory.Table.{delete_where, exists_where, update_where}
use otto_factory.Table.Rows.{All-delete, All-map, All-update}

-- The longest that a claim or a retry puts a row off.
unfoldable pub longest_wait : ShipperConfig → ℕ
longest_wait cfg = if leb cfg.claim_lease cfg.max_backoff then cfg.max_backoff else cfg.claim_lease

backoff-le : (cfg : ShipperConfig) (n : ℕ) → backoff cfg n ≤ cfg.max_backoff
unfolding backoff
backoff-le cfg n =
    least-le (if n == 0 then cfg.base_backoff / 2 else cfg.base_backoff * 2 ^ least (n - 1) 20)
      cfg.max_backoff
  where
    least-le : (a b : ℕ) → least a b ≤ b
    least-le a b = ground arith

module _ (platform : Platform) (cfg : ShipperConfig) where
  open platform use {State}

  abbrev IsSoon : ℕ → UsageRow → Type 0
  IsSoon now r = r.next_attempt_at ≤ now + longest_wait cfg

  abbrev AllSoon : System platform → Type 0
  AllSoon s = All (IsSoon s.now) s.outbox.rows

  module _ (now : ℕ) where
    taken-IsSoon :
        (t : List UsageRow) (p : UsageRow → Bool)
        → All (IsSoon now) t
        → All (IsSoon now) (update_where p (take_row cfg now) t)
    unfolding take_row longest_wait
    taken-IsSoon t p a = All-update (IsSoon now) p (take_row cfg now) t (λ x _ _. ground arith) a

    postponed-IsSoon :
        (m : Text) (t : List UsageRow) (p : UsageRow → Bool)
        → All (IsSoon now) t
        → All (IsSoon now) (update_where p (postpone cfg now m) t)
    unfolding postpone longest_wait
    postponed-IsSoon m t p a =
        All-update (IsSoon now) p (postpone cfg now m) t
          (λ x _ _. ground (arith, backoff-le cfg x.attempts)) a

    settled-IsSoon :
        (ids : List ℕ) (mismatch : Text) (a : Answer) (o : Outbox)
        → All (IsSoon now) o.rows
        → All (IsSoon now) (settle cfg now ids mismatch a o).1.rows
    unfolding settle reschedule apply_receipt
    settled-IsSoon ids mismatch (failure m) o h =
        postponed-IsSoon (take 500 m) o.rows (in_ids ids) h
    settled-IsSoon ids mismatch (receipt r) o h = elim (Bool-cases (answers_for r == length ids)) [
      | inr n ↦ rw n (postponed-IsSoon (take 500 mismatch) o.rows (in_ids ids) h)
      | inl y ↦ rw y (kept (Bool-cases (not (is_empty (held_events r.rejected)))))
    ]
      where
        kept :
            (not (is_empty (held_events r.rejected)) ≡ true)
              ⊎ (not (is_empty (held_events r.rejected)) ≡ false)
            → All (IsSoon now) (apply_receipt cfg now ids r o).rows
        kept (inl y) = rw y (
            postponed-IsSoon unknown_meter_error
              (delete_where (is_answered ids (held_events r.rejected)) o.rows)
              (λ x. has_num (held_events r.rejected) x.event_id)
              (All-delete (IsSoon now) (is_answered ids (held_events r.rejected)) o.rows h))
        kept (inr n) =
            rw n (All-delete (IsSoon now) (is_answered ids (held_events r.rejected)) o.rows h)

  claim-AllSoon :
      (k : ℕ) (locked : ℕ → Bool) (s : System platform)
      → AllSoon s
      → AllSoon (after_claim platform k s (claim_due cfg s.now locked s.outbox.rows))
  unfolding after_claim set_flight
  claim-AllSoon k locked s h = elim (Option-cases (claim_due cfg s.now locked s.outbox.rows)) [
    | inl e ↦ rw e h
    | inr ((rows, t'), e) ↦
        rw (e, (claim_due-ok cfg s.now locked s.outbox.rows rows t' e).0)
          (taken-IsSoon s.now s.outbox.rows (in_ids (due_ids cfg s.now locked s.outbox.rows)) h)
  ]

  record-AllSoon :
      (s : System platform) (event_id org : ℕ) (user : Option ℕ) (tool : Text) (billable : Bool)
      (metered : Option Metered)
      → AllSoon s
      → AllSoon (
          after_record platform s
            (enqueue s.now s.next_id event_id org user tool billable metered s.outbox.rows))
  unfolding after_record enqueue
  record-AllSoon s event_id org user tool billable metered h =
      elim (Bool-cases (exists_where (λ (r : UsageRow). r.event_id == event_id) s.outbox.rows)) [
        | inl y ↦ rw y h
        | inr n ↦ rw n (
            All-append (IsSoon s.now) s.outbox.rows
              (usage_row s.now s.next_id event_id org user tool billable metered ∷ []) h
              (omega arith, tt))
      ]

  step-AllSoon : (s : System platform) (a : Act) → AllSoon s → AllSoon (step platform cfg s a)
  unfolding step
  step-AllSoon s (records event_id org user tool billable metered) h =
      record-AllSoon s event_id org user tool billable metered h
  step-AllSoon s (claims k locked) h = by_flight (s.flights k)
    where
      by_flight : (f : Flight) → AllSoon (claim_step platform cfg k locked s f)
      by_flight idle = unfold claim_step in claim-AllSoon k locked s h
      by_flight (claimed rows) = unfold claim_step in h
      by_flight (answered rows a) = unfold claim_step in h
  step-AllSoon s (ships k) h = by_flight (s.flights k)
    where
      by_events :
          (rows : List UsageRow) (o : Option (List UsageEvent))
          → AllSoon (after_send platform k s rows o)
      by_events rows none = unfold after_send in h
      by_events rows (some es) = unfold after_send set_flight in h

      by_flight : (f : Flight) → AllSoon (ship_step platform k s f)
      by_flight idle = unfold ship_step in h
      by_flight (claimed rows) = unfold ship_step in by_events rows (events_of rows)
      by_flight (answered rows a) = unfold ship_step in h
  step-AllSoon s (settles k m) h = by_flight (s.flights k)
    where
      by_flight : (f : Flight) → AllSoon (settle_step platform cfg k m s f)
      by_flight idle = unfold settle_step in h
      by_flight (claimed rows) = unfold settle_step in h
      by_flight (answered rows a) =
          unfold settle_step set_flight in settled-IsSoon s.now (ids_of rows) m a s.outbox h
  step-AllSoon s (crashes k) h = unfold set_flight in h
  step-AllSoon s (waits d) h =
      All-map (IsSoon s.now) (IsSoon (s.now + d)) s.outbox.rows (λ r q. omega arith) h

  run-AllSoon :
      (acts : List Act) (s : System platform) → AllSoon s → AllSoon (run platform cfg s acts)
  unfolding run
  run-AllSoon [] s h = h
  run-AllSoon (a ∷ acts) s h = run-AllSoon acts (step platform cfg s a) (step-AllSoon s a h)

  -- After any calls, claims, requests, answers and crashes of any replicas, once the longer of the claim's
  -- lifetime and the longest retry has passed, every row of the outbox that is not locked is due: no
  -- row can be stranded by a replica that died or by failures that repeat.
  pub run-due :
      (p : State) (acts : List Act) (d : ℕ) (locked : ℕ → Bool)
      → longest_wait cfg ≤ d
      → All
          (λ r.
            is_due ((run platform cfg (at_rest platform p) acts).now + d) locked r
            ≡ not (locked r.id))
          (run platform cfg (at_rest platform p) acts).outbox.rows
  unfolding is_due
  run-due p acts d locked le =
      let s = run platform cfg (at_rest platform p) acts in
      All-map (IsSoon s.now) (λ r. is_due (s.now + d) locked r ≡ not (locked r.id)) s.outbox.rows
        (λ r h. ground (arith, h)) (run-AllSoon acts (at_rest platform p) tt)
