-- ===== src/Jobs/Preservation.antt =====
-- Every operation on one job keeps the store consistent.
use otto_factory.Common.{Option, arith, inl, inr, refl, subst, sym, true, ℕ, ◌≡◌}
use otto_factory.Common.Int.{ℤ}
use otto_factory.Common.Text.{Text, trim}
use otto_factory.Error.{Status, ok}
use otto_factory.Jobs.Cancel.{
  cancel_job, cancel_now, close, close_from_ticket, confirm_cancel, edit, is_close, repend,
  repend_job, request_cancel, stamp_cancel, update_job,
}
use otto_factory.Jobs.Claim.{
  activate, activate_job, clamp_claim_ttl, extend_claim, finalize, finish, renew_claim,
}
use otto_factory.Jobs.Create.{link_ticket, relink, retitle, update_from_ticket}
use otto_factory.Jobs.Effects.{
  activate_job_ok, cancel_job_ok, close_from_ticket_ok, finalize_ok, link_ticket_ok, renew_claim_ok,
  repend_job_ok, request_cancel_ok, update_from_ticket_ok, update_job_ok,
}
use otto_factory.Jobs.Invariant.{
  IsConsistent, enter-IsConsistent, found-IsWellFormed, leave-IsConsistent, write-IsConsistent,
}
use otto_factory.Jobs.RowInvariant.{
  activate-IsWellFormed, cancel_now-IsWellFormed, close-IsWellFormed, confirm_cancel-IsWellFormed,
  edit-IsWellFormed, extend_claim-IsWellFormed, finish-IsWellFormed, relink-IsWellFormed,
  repend-IsWellFormed, retitle-IsWellFormed, stamp_cancel-IsWellFormed,
}
use otto_factory.Store.{Job, Store, Tracker, Tx}

-- A field of the store that the equation of an effect names.
to_state : (P : Store → Type 0) {s t : Store} → s ≡ t → P t → P s
to_state P e p = subst P (sym e) p

module _ (tx : Tx) (id : Text) (s : Store) (v : IsConsistent s) {job : Job} {s' : Store} where
  pub finalize-IsConsistent :
      (caller : ℕ) (to : Status) (result error : Option Text) (expected : Option ℕ)
      → is_close to ≡ true
      → finalize tx id caller to result error expected s ≡ ok (job, s')
      → IsConsistent s'
  unfolding finish
  finalize-IsConsistent caller to result error expected c h =
      let (j, (found, _, e), held) = finalize_ok tx id s job s' caller to result error expected h in
      let w = found-IsWellFormed s v tx.org id (finish tx to result error) j found in
      to_state IsConsistent e (
        enter-IsConsistent s v tx.org id (finish tx to result error) j found (λ _. (refl, refl))
          (finish-IsWellFormed j w tx to result error c) (ground (arith, held.claimed)))

  pub activate_job-IsConsistent : activate_job tx id s ≡ ok (job, s') → IsConsistent s'
  unfolding activate
  activate_job-IsConsistent h =
      let (j, (found, _, e), claimed) = activate_job_ok tx id s job s' h in
      let w = found-IsWellFormed s v tx.org id activate j found in
      to_state IsConsistent e (
        write-IsConsistent s v tx.org id activate j found (λ _. (refl, refl))
          (activate-IsWellFormed j w claimed) (ground arith) (ground arith))

  pub renew_claim-IsConsistent :
      (caller : ℕ) (ttl : Option ℤ) (expected : Option ℕ)
      → renew_claim tx id caller ttl expected s ≡ ok (job, s')
      → IsConsistent s'
  unfolding extend_claim
  renew_claim-IsConsistent caller ttl expected h =
      let (j, (found, _, e), held) = renew_claim_ok tx id s job s' caller ttl expected h in
      let f = extend_claim tx (clamp_claim_ttl ttl) in
      let w = found-IsWellFormed s v tx.org id f j found in
      to_state IsConsistent e (
        write-IsConsistent s v tx.org id f j found (λ _. (refl, refl))
          (extend_claim-IsWellFormed j w tx (clamp_claim_ttl ttl) held.claimed) refl refl)

  pub request_cancel-IsConsistent :
      (by : ℕ) (reason : Option Text)
      → request_cancel tx id by reason s ≡ ok (job, s')
      → IsConsistent s'
  unfolding cancel_now stamp_cancel
  request_cancel-IsConsistent by reason h =
      let (j, cases) = request_cancel_ok tx id s job s' by reason h in
      elim cases [
        | inl (p, (found, _, e)) ↦ to_state IsConsistent e (
            write-IsConsistent s v tx.org id (cancel_now tx by reason) j found (λ _. (refl, refl))
              (cancel_now-IsWellFormed j
                (found-IsWellFormed s v tx.org id (cancel_now tx by reason) j found) tx by reason p)
              (ground arith) (ground arith))
        | inr (c, (found, _, e)) ↦ to_state IsConsistent e (
            write-IsConsistent s v tx.org id (stamp_cancel tx by reason) j found (λ _. (refl, refl))
              (stamp_cancel-IsWellFormed j
                (found-IsWellFormed s v tx.org id (stamp_cancel tx by reason) j found) tx by reason
                c)
              refl refl)
      ]

  pub cancel_job-IsConsistent :
      (caller : ℕ) (reason : Option Text) (expected : Option ℕ)
      → cancel_job tx id caller reason expected s ≡ ok (job, s')
      → IsConsistent s'
  unfolding confirm_cancel
  cancel_job-IsConsistent caller reason expected h =
      let (j, (found, _, e), held, flagged) =
        cancel_job_ok tx id s job s' caller reason expected h in
      let f = confirm_cancel tx reason in
      to_state IsConsistent e (
        write-IsConsistent s v tx.org id f j found (λ _. (refl, refl))
          (confirm_cancel-IsWellFormed j (found-IsWellFormed s v tx.org id f j found) tx reason
            flagged)
          (ground (arith, held.claimed)) (ground (arith, held.claimed)))

  pub close_from_ticket-IsConsistent :
      (to : Status) (result error revision : Option Text)
      → close_from_ticket tx id to result error revision s ≡ ok (job, s')
      → IsConsistent s'
  unfolding close
  close_from_ticket-IsConsistent to result error revision h =
      let (j, (found, _, e), closes, live) =
        close_from_ticket_ok tx id s job s' to result error revision h in
      let f = close tx to result error revision in
      to_state IsConsistent e (
        enter-IsConsistent s v tx.org id f j found (λ _. (refl, refl))
          (close-IsWellFormed j (found-IsWellFormed s v tx.org id f j found) tx to result error
            revision closes)
          live)

  pub repend_job-IsConsistent : repend_job tx id s ≡ ok (job, s') → IsConsistent s'
  unfolding repend
  repend_job-IsConsistent h =
      let (j, (found, _, e), _, _) = repend_job_ok tx id s job s' h in
      to_state IsConsistent e (
        leave-IsConsistent s v tx.org id repend j found (λ _. (refl, refl))
          (repend-IsWellFormed j (found-IsWellFormed s v tx.org id repend j found)) refl)

  pub update_job-IsConsistent :
      (title description agent_type metadata : Option Text)
      → update_job tx id title description agent_type metadata s ≡ ok (job, s')
      → IsConsistent s'
  unfolding edit
  update_job-IsConsistent title description agent_type metadata h =
      let (j, (found, _, e)) =
        update_job_ok tx id s job s' title description agent_type metadata h in
      let f = edit title description agent_type metadata in
      to_state IsConsistent e (
        write-IsConsistent s v tx.org id f j found (λ _. (refl, refl))
          (edit-IsWellFormed j (found-IsWellFormed s v tx.org id f j found) title description
            agent_type metadata)
          refl refl)

  pub update_from_ticket-IsConsistent :
      (title : Text) (description revision : Option Text)
      → update_from_ticket tx id title description revision s ≡ ok (job, s')
      → IsConsistent s'
  unfolding retitle
  update_from_ticket-IsConsistent title description revision h =
      let (j, (found, _, e)) = update_from_ticket_ok tx id s job s' title description revision h in
      let f = retitle (trim title) description revision in
      to_state IsConsistent e (
        write-IsConsistent s v tx.org id f j found (λ _. (refl, refl))
          (retitle-IsWellFormed j (found-IsWellFormed s v tx.org id f j found) (trim title)
            description revision)
          refl refl)

  pub link_ticket-IsConsistent :
      (tracker : Tracker) (ticket_ref : Text)
      → link_ticket tx id tracker ticket_ref s ≡ ok (job, s')
      → IsConsistent s'
  unfolding relink
  link_ticket-IsConsistent tracker ticket_ref h =
      let (j, (found, _, e), _) = link_ticket_ok tx id s job s' tracker ticket_ref h in
      let f = relink tracker ticket_ref in
      to_state IsConsistent e (
        write-IsConsistent s v tx.org id f j found (λ _. (refl, refl))
          (relink-IsWellFormed j (found-IsWellFormed s v tx.org id f j found) tracker ticket_ref)
          refl refl)
