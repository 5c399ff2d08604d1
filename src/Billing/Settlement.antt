-- ===== src/Billing/Settlement.antt =====
-- What a replica does with the platform's answer loses no event.
use otto_factory.Billing.Agreement.{
  Agrees-delete_self, SameEvent, dead_letters-has, exists-append, exists-spared, held-or_final,
  postpone-Keeps, row_of,
}
use otto_factory.Billing.Fleet.{Platform, System}
use otto_factory.Billing.Outbox.{
  Answer, DeadLetter, Outbox, Receipt, ShipperConfig, UsageRow, answers_for, apply_receipt,
  dead_letters, failure, final_rejections, has_num, held_events, ids_of, in_ids, is_answered,
  postpone, receipt, reschedule, settle, unknown_meter_error,
}
use otto_factory.Common.{
  Bool, Bool-cases, List, arith, false, inl, inr, leb, not, true, ℕ, ◌++◌, ◌<◌, ◌==◌, ◌≡◌, ◌≤◌,
}
use otto_factory.Common.Lists.{All, is_empty, length, take}
use otto_factory.Common.Text.{Text}
use otto_factory.Table.{delete_where}
use otto_factory.Table.Rows.{All-both, All-delete, All-map}
use otto_factory.Billing.Sound.{
  Counted, Held, IsSound, IsTracked, in_outbox, in_rejected, outbox-IsSound, refused,
  update-IsSound,
}

module _ (platform : Platform) where
  open platform use {State, counted}

  module _ (s : System platform) (v : IsSound platform s) (cfg : ShipperConfig)
      (rows : List UsageRow) (h : Held s.outbox.rows s.next_id rows) (r : Receipt)
      (c : All (λ x. refused r x.event_id ≡ false → 1 ≤ counted s.state x.event_id) rows) where
    abbrev answered_test : UsageRow → Bool
    answered_test = is_answered (ids_of rows) (held_events r.rejected)

    abbrev letters : List DeadLetter
    letters = s.outbox.rejected ++ dead_letters (final_rejections r.rejected) s.outbox.rows

    -- An event that neither is counted nor reached the dead letters has none of its rows deleted.
    spared :
        (e : ℕ)
        → in_outbox e s.outbox.rows ≡ true
        → in_rejected e letters ≡ false
        → leb 1 (counted s.state e) ≡ false
        → All (λ x. (x.event_id == e) ≡ true → answered_test x ≡ false) s.outbox.rows
    unfolding is_answered
    spared e o d n =
        All-map (λ x. All (SameEvent x) rows)
          (λ x. (x.event_id == e) ≡ true → answered_test x ≡ false) s.outbox.rows
          (λ x a m. elim (Bool-cases (answered_test x)) [
            | inr f ↦ f
            | inl y ↦ absurd (impossible x a m y)
          ])
          h.1
      where
        impossible :
            (x : UsageRow)
            → All (SameEvent x) rows
            → (x.event_id == e) ≡ true
            → answered_test x ≡ true
            → ⊥
        impossible x a m y =
            let (q, id, (same, cnt)) =
              row_of rows x.id (ground (arith, y))
                (λ z.
                  SameEvent x z × (refused r z.event_id ≡ false → 1 ≤ counted s.state z.event_id))
                (All-both (SameEvent x)
                  (λ z. refused r z.event_id ≡ false → 1 ≤ counted s.state z.event_id) rows a c) in
            let name : q.event_id ≡ e = ground (arith, same id, m) in
            let unheld : has_num (held_events r.rejected) e ≡ false = ground (arith, y, m) in
            elim (Bool-cases (refused r e)) [
              | inr f ↦ ground (arith, rw name at cnt)
              | inl f ↦
                  let found =
                    dead_letters-has (final_rejections r.rejected) s.outbox.rows e
                      (held-or_final r.rejected e f unheld) o in
                  let split =
                    exists-append (λ (z : DeadLetter). z.event_id == e) s.outbox.rejected
                      (dead_letters (final_rejections r.rejected) s.outbox.rows) in
                  ground (arith, found, split)
            ]

    -- The rows that stay, before the held ones are postponed.
    abbrev spared_rows : Outbox
    spared_rows = record { rows = delete_where answered_test s.outbox.rows; rejected = letters }

    deleted-IsSound : IsSound platform (record s { outbox = spared_rows })
    unfolding IsTracked
    deleted-IsSound =
        outbox-IsSound platform s spared_rows v
          (All-delete (λ r. r.id < s.next_id) answered_test s.outbox.rows v.ids)
          (Agrees-delete_self answered_test s.outbox.rows v.agree)
          (λ rs. All-delete (λ x. All (SameEvent x) rs) answered_test s.outbox.rows)
          (λ e t. still e t)
      where
        still :
            (e : ℕ)
            → IsTracked platform s.outbox s.state e
            → IsTracked platform spared_rows s.state e
        still e t =
            let split =
              exists-append (λ (z : DeadLetter). z.event_id == e) s.outbox.rejected
                (dead_letters (final_rejections r.rejected) s.outbox.rows) in
            elim (Bool-cases (leb 1 (counted s.state e))) [
              | inl y ↦ ground (arith, y)
              | inr n ↦ elim (Bool-cases (in_rejected e letters)) [
                | inl d ↦ ground (arith, d)
                | inr d ↦
                    let o : in_outbox e s.outbox.rows ≡ true = ground (arith, t, n, d, split) in
                    ground (arith, exists-spared e answered_test s.outbox.rows (spared e o d n), o)
              ]
            ]

    received-IsSound :
        (now : ℕ)
        → IsSound platform (record s { outbox = apply_receipt cfg now (ids_of rows) r s.outbox })
    unfolding apply_receipt
    received-IsSound now = elim (Bool-cases (not (is_empty (held_events r.rejected)))) [
      | inl y ↦ rw y (
          update-IsSound platform (record s { outbox = spared_rows })
            (λ x. has_num (held_events r.rejected) x.event_id)
            (postpone cfg now unknown_meter_error) (postpone-Keeps cfg now unknown_meter_error)
            deleted-IsSound)
      | inr n ↦ rw n deleted-IsSound
    ]

  pub settled-IsSound :
      (s : System platform) (cfg : ShipperConfig) (rows : List UsageRow) (a : Answer)
      (mismatch : Text)
      → IsSound platform s
      → Held s.outbox.rows s.next_id rows
      → Counted platform s.state rows a
      → IsSound platform
          (record s { outbox = (settle cfg s.now (ids_of rows) mismatch a s.outbox).1 })
  unfolding settle reschedule
  settled-IsSound s cfg rows (failure m) mismatch v h c =
      update-IsSound platform s (in_ids (ids_of rows)) (postpone cfg s.now (take 500 m))
        (postpone-Keeps cfg s.now (take 500 m)) v
  settled-IsSound s cfg rows (receipt r) mismatch v h c =
      elim (Bool-cases (answers_for r == length (ids_of rows))) [
        | inl y ↦ rw y (received-IsSound s v cfg rows h r (c (ground arith)) s.now)
        | inr n ↦ rw n (
            update-IsSound platform s (in_ids (ids_of rows))
              (postpone cfg s.now (take 500 mismatch))
              (postpone-Keeps cfg s.now (take 500 mismatch)) v)
      ]
