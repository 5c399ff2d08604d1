-- ===== src/Jobs/RowInvariant.antt =====
-- What holds of a row of `jobs` between two operations, and that every change of a row keeps it.
use otto_factory.Common.{Option, arith, false, is_some, none, true, ℕ, ◌<◌, ◌≡◌}
use otto_factory.Common.Text.{Text}
use otto_factory.Error.{Status, cancelled, in_progress, pending}
use otto_factory.Jobs.Cancel.{
  cancel_now, close, confirm_cancel, edit, is_close, repend, set_revision, stamp_cancel,
}
use otto_factory.Jobs.Claim.{activate, claim, extend_claim, finish, reap}
use otto_factory.Jobs.Create.{relink, retitle}
use otto_factory.Jobs.Row.{is_claimed, is_terminal}
use otto_factory.Store.{Job, Tracker, Tx}

-- A claim has its expiry, holder and count exactly while the status says so; a finished job has its
-- time; a cancelled one was asked to stop; a pending one carries nothing of an earlier claim.
pub record IsWellFormed (j : Job) : Type 0 where
  pub claim_timed : is_some j.claim_expires_at ≡ is_claimed j.status
  pub claim_held : is_claimed j.status ≡ true → is_some j.claimed_by ≡ true
  pub claim_counted : is_claimed j.status ≡ true → 0 < j.attempts
  pub claim_started : is_claimed j.status ≡ true → is_some j.started_at ≡ true
  pub end_timed : is_some j.completed_at ≡ is_terminal j.status
  pub cancel_requested : j.status ≡ cancelled → is_some j.cancel_requested_at ≡ true
  pub pending_unclaimed : j.status ≡ pending → (j.claimed_by ≡ none) × (j.claimed_by_label ≡ none)
  pub pending_unstarted : j.status ≡ pending → j.started_at ≡ none
  pub pending_unflagged : j.status ≡ pending → j.cancel_requested_at ≡ none
  pub open_without_outcome : is_terminal j.status ≡ false → (j.result ≡ none) × (j.error ≡ none)

module _ (j : Job) (v : IsWellFormed j) where
  pub reap-IsWellFormed : is_claimed j.status ≡ true → IsWellFormed (reap j)
  unfolding reap
  reap-IsWellFormed h = ground arith

  pub claim-IsWellFormed :
      (tx : Tx) (claimer : ℕ) (label : Option Text) (ttl : ℕ)
      → j.status ≡ pending
      → IsWellFormed (claim tx claimer label ttl j)
  unfolding claim
  claim-IsWellFormed tx claimer label ttl h = ground arith

  pub finish-IsWellFormed :
      (tx : Tx) (to : Status) (result error : Option Text)
      → is_close to ≡ true
      → IsWellFormed (finish tx to result error j)
  unfolding finish
  finish-IsWellFormed tx to result error h = ground arith

  pub activate-IsWellFormed : j.status ≡ in_progress → IsWellFormed (activate j)
  unfolding activate
  activate-IsWellFormed h = ground arith

  pub extend_claim-IsWellFormed :
      (tx : Tx) (ttl : ℕ) → is_claimed j.status ≡ true → IsWellFormed (extend_claim tx ttl j)
  unfolding extend_claim
  extend_claim-IsWellFormed tx ttl h = ground arith

  pub cancel_now-IsWellFormed :
      (tx : Tx) (requested_by : ℕ) (reason : Option Text)
      → j.status ≡ pending
      → IsWellFormed (cancel_now tx requested_by reason j)
  unfolding cancel_now
  cancel_now-IsWellFormed tx requested_by reason h = ground arith

  pub stamp_cancel-IsWellFormed :
      (tx : Tx) (requested_by : ℕ) (reason : Option Text)
      → is_claimed j.status ≡ true
      → IsWellFormed (stamp_cancel tx requested_by reason j)
  unfolding stamp_cancel
  stamp_cancel-IsWellFormed tx requested_by reason h = ground arith

  pub confirm_cancel-IsWellFormed :
      (tx : Tx) (note : Option Text)
      → is_some j.cancel_requested_at ≡ true
      → IsWellFormed (confirm_cancel tx note j)
  unfolding confirm_cancel
  confirm_cancel-IsWellFormed tx reason h = ground arith

  pub close-IsWellFormed :
      (tx : Tx) (to : Status) (result error remote_revision : Option Text)
      → is_close to ≡ true
      → IsWellFormed (close tx to result error remote_revision j)
  unfolding close
  close-IsWellFormed tx to result error remote_revision h = ground arith

  pub repend-IsWellFormed : IsWellFormed (repend j)
  unfolding repend
  repend-IsWellFormed = ground arith

  pub set_revision-IsWellFormed : (revision : Text) → IsWellFormed (set_revision revision j)
  unfolding set_revision
  set_revision-IsWellFormed revision = ground arith

  pub edit-IsWellFormed :
      (title description agent_type metadata : Option Text)
      → IsWellFormed (edit title description agent_type metadata j)
  unfolding edit
  edit-IsWellFormed title description agent_type metadata = ground arith

  pub retitle-IsWellFormed :
      (title : Text) (description remote_revision : Option Text)
      → IsWellFormed (retitle title description remote_revision j)
  unfolding retitle
  retitle-IsWellFormed title description remote_revision = ground arith

  pub relink-IsWellFormed :
      (tracker : Tracker) (ticket_ref : Text) → IsWellFormed (relink tracker ticket_ref j)
  unfolding relink
  relink-IsWellFormed tracker ticket_ref = ground arith
