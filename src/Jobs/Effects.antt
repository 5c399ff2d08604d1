-- ===== src/Jobs/Effects.antt =====
-- What an operation on one job found and did, when it succeeded: the row read, the guards that it
-- passed, and the store that it left.
use otto_factory.Common.{
  Bool, Bool-cases, Option, Option-cases, arith, false, inl, inr, is_some, none, some, true, ℕ, ◌≡◌,
  ◌⊎◌,
}
use otto_factory.Common.Int.{negsuc, pos, ℤ}
use otto_factory.Common.Text.{Text, trim}
use otto_factory.Error.{Status, in_progress, ok, pending}
use otto_factory.Error.Laws.{>>=-eq-ok}
use otto_factory.Jobs.Cancel.{
  cancel_job, cancel_now, close, close_from_ticket, confirm_cancel, delete_job, edit, is_about,
  is_close, mentions, repend, repend_job, request_cancel, stamp_cancel, unlink, update_job,
  widen_messages,
}
use otto_factory.Jobs.Claim.{
  activate, activate_job, check_claim, clamp_claim_ttl, ensure_claim_held, extend_claim, finalize,
  finish, renew_claim,
}
use otto_factory.Jobs.Counters.{bump_rows, bump_terminal_counter}
use otto_factory.Jobs.Create.{link_ticket, relink, retitle, update_from_ticket}
use otto_factory.Jobs.Row.{
  has_lapsed, is_claimed, is_job, is_live, is_pending, ticket_taken, write_row,
}
use otto_factory.Store.{Job, Store, Tracker, Tx}
use otto_factory.Table.{delete_where, fetch_optional, update_where}

abbrev pub written_at : ℕ → Text → (Job → Job) → Store → Store
written_at org id f s = record s { jobs = update_where (is_job org id) f s.jobs }

-- A claim that `check_claim` lets pass.
pub record HoldsClaim (tx : Tx) (caller : ℕ) (expected : Option ℕ) (honor : Bool) (j : Job)
    : Type 0 where
  pub claimed : is_claimed j.status ≡ true
  pub held : j.claimed_by ≡ some caller
  pub generation : (n : ℕ) → expected ≡ some n → j.attempts ≡ n
  pub unexpired :
      (has_lapsed tx.now j.claim_expires_at ≡ false)
      ⊎ ((honor ≡ true) × (is_some j.cancel_requested_at ≡ true))

module _ (tx : Tx) (id : Text) (s : Store) where
  abbrev pub Found : Job → Type 0
  Found j = fetch_optional (is_job tx.org id) s.jobs ≡ some j

  row_cases : (fetch_optional (is_job tx.org id) s.jobs ≡ none) ⊎ ((j : Job) × Found j)
  row_cases = Option-cases (fetch_optional (is_job tx.org id) s.jobs)

  module _ (caller : ℕ) (expected : Option ℕ) where
    check_claim_ok :
        (honor : Bool) (j : Job)
        → check_claim tx caller expected honor j ≡ ok tt
        → HoldsClaim tx caller expected honor j
    unfolding check_claim
    check_claim_ok honor j h = record {
      claimed = ground arith;
      held = ground arith;
      generation = λ n e. ground arith;
      unexpired = ground arith;
    }

    pub ensure_claim_held_ok :
        (honor : Bool)
        → ensure_claim_held tx id caller expected honor s ≡ ok tt
        → (j : Job) × Found j × HoldsClaim tx caller expected honor j
    unfolding ensure_claim_held
    ensure_claim_held_ok honor h = elim row_cases [
      | inl e ↦ absurd (ground arith)
      | inr (j, e) ↦ (j, e, check_claim_ok honor j (ground arith))
    ]

  -- What a change of the row that was read leaves.
  abbrev pub Wrote : Job → (Job → Job) → Job → Store → Type 0
  Wrote j f job s' = Found j × (job ≡ f j) × (s' ≡ written_at tx.org id f s)

  write_row_ok :
      (f : Job → Job) (j job : Job) (s' : Store)
      → Found j
      → write_row tx id f s ≡ ok (job, s')
      → Wrote j f job s'
  unfolding write_row
  write_row_ok f j job s' e h = (e, ground arith, ground arith)

  module _ (job : Job) (s' : Store) where
    -- A write with the counter of a status moved by `delta`.
    abbrev pub WroteCounted : Job → (Job → Job) → Status → ℤ → Type 0
    WroteCounted j f status delta =
        Found j
        × (job ≡ f j)
        × (s' ≡ record (written_at tx.org id f s) {
          org_counters = bump_rows tx.org status delta s.org_counters;
        })

    pub finalize_ok :
        (caller : ℕ) (to : Status) (result error : Option Text) (expected : Option ℕ)
        → finalize tx id caller to result error expected s ≡ ok (job, s')
        → (j : Job) × WroteCounted j (finish tx to result error) to (pos 1)
          × HoldsClaim tx caller expected false j
    unfolding finalize write_row bump_terminal_counter finish
    finalize_ok caller to result error expected h =
        let (u, e, rest) = >>=-eq-ok (ensure_claim_held tx id caller expected false s) _ h in
        let (j, found, held) = ensure_claim_held_ok caller expected false e in
        (j, (found, ground arith, ground arith), held)

    pub activate_job_ok :
        activate_job tx id s ≡ ok (job, s')
        → (j : Job) × Wrote j activate job s' × (j.status ≡ in_progress)
    unfolding activate_job write_row
    activate_job_ok h = elim row_cases [
      | inl e ↦ absurd (ground arith)
      | inr (j, e) ↦ (j, (e, ground arith, ground arith), ground arith)
    ]

    pub renew_claim_ok :
        (caller : ℕ) (ttl : Option ℤ) (expected : Option ℕ)
        → renew_claim tx id caller ttl expected s ≡ ok (job, s')
        → (j : Job) × Wrote j (extend_claim tx (clamp_claim_ttl ttl)) job s'
          × HoldsClaim tx caller expected false j
    unfolding renew_claim write_row extend_claim
    renew_claim_ok caller ttl expected h =
        let (u, e, rest) = >>=-eq-ok (ensure_claim_held tx id caller expected false s) _ h in
        let (j, found, held) = ensure_claim_held_ok caller expected false e in
        (j, (found, ground arith, ground arith), held)

    -- A pending job is cancelled at once, a claimed one is only asked to stop.
    pub request_cancel_ok :
        (by : ℕ) (reason : Option Text)
        → request_cancel tx id by reason s ≡ ok (job, s')
        → (j : Job) × (((j.status ≡ pending) × Wrote j (cancel_now tx by reason) job s')
            ⊎ ((is_claimed j.status ≡ true) × Wrote j (stamp_cancel tx by reason) job s'))
    unfolding request_cancel write_row cancel_now stamp_cancel
    request_cancel_ok by reason h = elim row_cases [
      | inl e ↦ absurd (ground arith)
      | inr (j, e) ↦ (j, stop_cases j e)
    ]
      where
        stop_cases :
            (j : Job)
            → Found j
            → ((j.status ≡ pending) × Wrote j (cancel_now tx by reason) job s')
              ⊎ ((is_claimed j.status ≡ true) × Wrote j (stamp_cancel tx by reason) job s')
        stop_cases j e = elim (Bool-cases (is_pending j.status)) [
          | inl p ↦ inl (ground arith, (e, ground arith, ground arith))
          | inr p ↦ inr (ground arith, (e, ground arith, ground arith))
        ]

    pub cancel_job_ok :
        (caller : ℕ) (reason : Option Text) (expected : Option ℕ)
        → cancel_job tx id caller reason expected s ≡ ok (job, s')
        → (j : Job) × Wrote j (confirm_cancel tx reason) job s'
          × HoldsClaim tx caller expected true j
          × (is_some j.cancel_requested_at ≡ true)
    unfolding cancel_job write_row confirm_cancel
    cancel_job_ok caller reason expected h =
        let (u, e, rest) = >>=-eq-ok (ensure_claim_held tx id caller expected true s) _ h in
        let (j, found, held) = ensure_claim_held_ok caller expected true e in
        (j, (found, ground arith, ground arith), held, ground arith)

    pub close_from_ticket_ok :
        (to : Status) (result error revision : Option Text)
        → close_from_ticket tx id to result error revision s ≡ ok (job, s')
        → (j : Job) × WroteCounted j (close tx to result error revision) to (pos 1)
          × (is_close to ≡ true)
          × (is_live j.status ≡ true)
    unfolding close_from_ticket write_row bump_terminal_counter close
    close_from_ticket_ok to result error revision h = elim row_cases [
      | inl e ↦ absurd (ground arith)
      | inr (j, e) ↦ (j, (e, ground arith, ground arith), ground arith, ground arith)
    ]

    pub repend_job_ok :
        repend_job tx id s ≡ ok (job, s')
        → (j : Job) × WroteCounted j repend j.status (negsuc 0)
          × (is_pending j.status ≡ false)
          × (ticket_taken (repend j) s.jobs ≡ false)
    unfolding repend_job write_row bump_terminal_counter repend
    repend_job_ok h = elim row_cases [
      | inl e ↦ absurd (ground arith)
      | inr (j, e) ↦ (j, (e, ground arith, ground arith), ground arith, ground arith)
    ]

    pub update_job_ok :
        (title description agent_type metadata : Option Text)
        → update_job tx id title description agent_type metadata s ≡ ok (job, s')
        → (j : Job) × Wrote j (edit title description agent_type metadata) job s'
    unfolding update_job write_row edit
    update_job_ok title description agent_type metadata h = elim row_cases [
      | inl e ↦ absurd (ground arith)
      | inr (j, e) ↦ (j, (e, ground arith, ground arith))
    ]

    pub update_from_ticket_ok :
        (title : Text) (description revision : Option Text)
        → update_from_ticket tx id title description revision s ≡ ok (job, s')
        → (j : Job) × Wrote j (retitle (trim title) description revision) job s'
    unfolding update_from_ticket write_row retitle
    update_from_ticket_ok title description revision h = elim row_cases [
      | inl e ↦ absurd (ground arith)
      | inr (j, e) ↦ (j, (e, ground arith, ground arith))
    ]

    pub link_ticket_ok :
        (tracker : Tracker) (ticket_ref : Text)
        → link_ticket tx id tracker ticket_ref s ≡ ok (job, s')
        → (j : Job) × Wrote j (relink tracker ticket_ref) job s'
          × (ticket_taken (relink tracker ticket_ref j) s.jobs ≡ false)
    unfolding link_ticket write_row relink
    link_ticket_ok tracker ticket_ref h = elim row_cases [
      | inl e ↦ absurd (ground arith)
      | inr (j, e) ↦ (j, (e, ground arith, ground arith), ground arith)
    ]

  pub delete_job_ok :
      (s' : Store)
      → delete_job tx id s ≡ ok s'
      → (j : Job) × Found j
        × (s'.jobs ≡ delete_where (is_job tx.org id) s.jobs)
        × (s'.org_counters ≡ bump_rows tx.org j.status (negsuc 0) s.org_counters)
        × (s'.job_dependencies ≡ delete_where (mentions tx.org id) s.job_dependencies)
        × (s'.messages ≡ update_where (is_about tx.org id) unlink (widen_messages tx id s))
        × (s'.repos ≡ s.repos)
  unfolding delete_job bump_terminal_counter
  delete_job_ok s' h = elim row_cases [
    | inl e ↦ absurd (ground arith)
    | inr (j, e) ↦ (j, e, ground arith, ground arith, ground arith, ground arith, ground arith)
  ]
