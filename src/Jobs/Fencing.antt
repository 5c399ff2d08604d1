-- ===== src/Jobs/Fencing.antt =====
-- Who may act on a claim, and for how long it holds.
use otto_factory.Common.{Bool, Option, arith, false, inl, inr, true, unwrap_or, ℕ, ◌↔◌, ◌≡◌}
use otto_factory.Common.Text.{Text}
use otto_factory.Error.{is_ok, ok}
use otto_factory.Error.Laws.{Result-cases}
use otto_factory.Jobs.Claim.{check_claim, complete_job, ensure_claim_held, finalize}
use otto_factory.Jobs.Effects.{Found, HoldsClaim, ensure_claim_held_ok}
use otto_factory.Jobs.Row.{write_row}
use otto_factory.Store.{Job, Store, Tx}

module _ (tx : Tx) (id : Text) (caller : ℕ) (expected : Option ℕ) (s : Store) where
  holds-check :
      (honor : Bool) (j : Job)
      → HoldsClaim tx caller expected honor j
      → check_claim tx caller expected honor j ≡ ok tt
  unfolding check_claim
  holds-check honor j h =
      ground (arith, h.claimed, h.held, h.unexpired, h.generation (unwrap_or expected 0))

  pub ensure_of_holds :
      (honor : Bool) (j : Job)
      → Found tx id s j
      → HoldsClaim tx caller expected honor j
      → ensure_claim_held tx id caller expected honor s ≡ ok tt
  unfolding ensure_claim_held
  ensure_of_holds honor j e h = rw (e, ensure_claim_held) (holds-check honor j h)

  -- complete_job succeeds exactly when the job is there and claimed, the caller is the one who holds
  -- the claim, the claim has not lapsed, and its generation is the one expected, if any is.
  pub complete_job-ok_iff :
      (result : Option Text)
      → (is_ok (complete_job tx id caller result expected s) ≡ true)
        ↔ ((j : Job) × Found tx id s j × HoldsClaim tx caller expected false j)
  unfolding complete_job finalize write_row
  complete_job-ok_iff result = (
    λ h. elim (Result-cases (ensure_claim_held tx id caller expected false s)) [
      | inl (u, e) ↦ ensure_claim_held_ok tx id s caller expected false (ground arith)
      | inr (x, e) ↦ absurd (ground arith)
    ],
    λ (j, e, h). rw (ensure_of_holds false j e h, complete_job) (ground arith),
  )
