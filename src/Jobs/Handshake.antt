-- ===== src/Jobs/Handshake.antt =====
-- The handshake of a cancellation: a request, and the holder's answer to it.
use otto_factory.Common.{
  Option, arith, false, inl, inr, is_some, none, refl, some, subst, sym, true, ℕ, ◌∙◌, ◌≡◌,
}
use otto_factory.Common.Text.{Text}
use otto_factory.Error.{cancelled, is_ok, ok}
use otto_factory.Error.Laws.{Result-cases}
use otto_factory.Jobs.Cancel.{cancel_job, confirm_cancel, request_cancel, stamp_cancel}
use otto_factory.Jobs.Effects.{Found, HoldsClaim, cancel_job_ok, request_cancel_ok, written_at}
use otto_factory.Jobs.Fencing.{ensure_of_holds}
use otto_factory.Jobs.Invariant.{KeepsKey}
use otto_factory.Jobs.Row.{is_claimed, is_job, write_row}
use otto_factory.Store.{Job, Store, Tx}
use otto_factory.Table.Rows.{fetch_optional-test, fetch_optional-update_any}

-- The row after a write that keeps keys.
written-Found :
    (tx : Tx) (id : Text) (s : Store) (f : Job → Job) (j : Job)
    → KeepsKey f
    → Found tx id s j
    → Found tx id (written_at tx.org id f s) (f j)
unfolding is_job
written-Found tx id s f j k e =
    let mine = fetch_optional-test (is_job tx.org id) s.jobs j e in
    fetch_optional-update_any (is_job tx.org id) (is_job tx.org id) f s.jobs j
      (λ y. rw ((k y).0, (k y).1) refl) e
    ∙ ground (arith, mine)

cancel_of_holds :
    (tx : Tx) (id : Text) (owner : ℕ) (reply : Option Text) (expected : Option ℕ) (s : Store)
    (j : Job)
    → Found tx id s j
    → HoldsClaim tx owner expected true j
    → is_some j.cancel_requested_at ≡ true
    → cancel_job tx id owner reply expected s
      ≡ ok (confirm_cancel tx reply j, written_at tx.org id (confirm_cancel tx reply) s)
unfolding cancel_job write_row confirm_cancel
cancel_of_holds tx id owner reply expected s j e h c =
    rw (ensure_of_holds tx id owner expected s true j e h, cancel_job)
      (rw (e, cancel_job) (rw c refl))

module _ (tx tx2 : Tx) (id : Text) (by owner : ℕ) (reason reply : Option Text) (s : Store) where
  unasked-refused :
      (j : Job)
      → Found tx2 id s j
      → j.cancel_requested_at ≡ none
      → is_ok (cancel_job tx2 id owner reply (some j.attempts) s) ≡ false
  unasked-refused j e n = elim (Result-cases (cancel_job tx2 id owner reply (some j.attempts) s)) [
    | inl (a, h) ↦
        let (k, w, _, c) = cancel_job_ok tx2 id s a.0 a.1 owner reply (some j.attempts) h in
        let same : k ≡ j = ground (arith, w.0) in absurd (ground (arith, c, same))
    | inr (x, h) ↦ ground arith
  ]

  -- After a request_cancel on a claimed job that had no request before, made before or after the claim has run out,
  -- and as long as no other call has changed the queue since: the holder can confirm with cancel_job under the
  -- generation that it claimed, whenever it does; the job is then cancelled, the reply is kept, and the
  -- generation stays. On the queue as it was before the request, cancel_job refuses.
  pub request_cancel-confirmed :
      (j job : Job) (s' : Store)
      → Found tx id s j
      → is_claimed j.status ≡ true
      → j.claimed_by ≡ some owner
      → j.cancel_requested_at ≡ none
      → tx2.org ≡ tx.org
      → request_cancel tx id by reason s ≡ ok (job, s')
      → (is_ok (cancel_job tx2 id owner reply (some j.attempts) s) ≡ false)
        × ((ended : Job) × (s2 : Store) × (cancel_job tx2 id owner reply (some j.attempts) s'
              ≡ ok (ended, s2))
            × (ended.status ≡ cancelled)
            × (ended.error ≡ reply)
            × (ended.attempts ≡ j.attempts)
            × Found tx2 id s2 ended)
  unfolding stamp_cancel confirm_cancel
  request_cancel-confirmed j job s' e c h n o r =
      let f = stamp_cancel tx by reason in
      let g = confirm_cancel tx2 reply in
      let store : s' ≡ written_at tx.org id f s = stamped j job s' e c r in
      let asked : Found tx2 id s' (f j) =
        subst (λ (t : Store). Found tx2 id t (f j)) (sym store)
          (rw o (written-Found tx id s f j (λ _. (refl, refl)) e)) in
      let held : HoldsClaim tx2 owner (some j.attempts) true (f j) = record {
        claimed = c;
        held = h;
        generation = λ m q. ground arith;
        unexpired = inr (refl, refl);
      } in
      (
        unasked-refused j (rw o e) n,
        (
          g (f j),
          written_at tx2.org id g s',
          cancel_of_holds tx2 id owner reply (some j.attempts) s' (f j) asked held refl,
          refl,
          refl,
          refl,
          written-Found tx2 id s' g (f j) (λ _. (refl, refl)) asked,
        ),
      )
    where
      stamped :
          (j job : Job) (s' : Store)
          → Found tx id s j
          → is_claimed j.status ≡ true
          → request_cancel tx id by reason s ≡ ok (job, s')
          → s' ≡ written_at tx.org id (stamp_cancel tx by reason) s
      stamped j job s' e c r =
          let (k, cases) = request_cancel_ok tx id s job s' by reason r in
          elim cases [
            | inl (p, w) ↦
                let same : k ≡ j = ground (arith, w.0) in absurd (ground (arith, p, same))
            | inr (p, w) ↦ w.2
          ]
