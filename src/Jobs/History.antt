-- ===== src/Jobs/History.antt =====
-- Histories of the queue: any calls by any org at any times, one transaction after another. The row
-- locks of the statements make the transactions on one job follow one another; a call that fails is
-- rolled back.
use otto_factory.Common.{
  List, Option, Option-cases, [], arith, inl, inr, none, refl, subst, ℕ, ◌∷◌, ◌≡◌,
}
use otto_factory.Common.Int.{ℤ}
use otto_factory.Common.Text.{Text}
use otto_factory.Error.{Result, Status, completed, err, failed, ok}
use otto_factory.Jobs.Cancel.{
  cancel_job, close_from_ticket, delete_job, repend_job, request_cancel, set_remote_revision,
  set_revision, update_job,
}
use otto_factory.Jobs.Claim.{
  activate_job, claim_jobs, complete_job, fail_job, finalize, renew_claim,
}
use otto_factory.Jobs.ClaimInvariant.{claim_jobs-IsConsistent}
use otto_factory.Jobs.Create.{Payload, add_job, create_from_ticket, link_ticket, update_from_ticket}
use otto_factory.Jobs.CreateInvariant.{
  add_job-IsConsistent, create_from_ticket-IsConsistent, delete_job-IsConsistent,
  set_dependencies-IsConsistent,
}
use otto_factory.Jobs.Dependencies.{set_dependencies}
use otto_factory.Jobs.Invariant.{IsConsistent, found-IsWellFormed, write-IsConsistent}
use otto_factory.Jobs.Preservation.{
  activate_job-IsConsistent, cancel_job-IsConsistent, close_from_ticket-IsConsistent,
  finalize-IsConsistent, link_ticket-IsConsistent, renew_claim-IsConsistent,
  repend_job-IsConsistent, request_cancel-IsConsistent, update_from_ticket-IsConsistent,
  update_job-IsConsistent,
}
use otto_factory.Jobs.Row.{is_job}
use otto_factory.Jobs.RowInvariant.{set_revision-IsWellFormed}
use otto_factory.Jobs.Totals.{completed_total, failed_total}
use otto_factory.Store.{Repo, Store, Tracker, Tx}
use otto_factory.Table.{count_where, fetch_optional}
use otto_factory.Table.Rows.{fetch_optional-exists}

pub data Call : Type 0 where
  adds : Payload → Option Text → Call
  creates : ℕ → Tracker → Text → Text → Option Text → Option Text → Call
  retitles : Text → Text → Option Text → Option Text → Call
  links : Text → Tracker → Text → Call
  claims : List Text → ℕ → Option Text → Option ℤ → Call
  activates : Text → Call
  renews : Text → ℕ → Option ℤ → Option ℕ → Call
  completes : Text → ℕ → Option Text → Option ℕ → Call
  fails : Text → ℕ → Option Text → Option ℕ → Call
  requests_cancel : Text → ℕ → Option Text → Call
  cancels : Text → ℕ → Option Text → Option ℕ → Call
  closes : Text → Status → Option Text → Option Text → Option Text → Call
  repends : Text → Call
  deletes : Text → Call
  edits : Text → Option Text → Option Text → Option Text → Option Text → Call
  revises : Text → Text → Call
  depends : Text → List Text → List Text → Call

abbrev pub after {ℓ} : {A : Type ℓ} → Store → Result (A × Store) → Store
after s (ok (a, s')) = s'
after s (err e) = s

abbrev pub after_unit : Store → Result Store → Store
after_unit s (ok s') = s'
after_unit s (err e) = s

abbrev pub no_rows : Store
no_rows = record { jobs = []; job_dependencies = []; org_counters = []; repos = []; messages = [] }

module _ (fingerprint : Payload → Text) where
  unfoldable pub step : Store → Tx × Call → Store
  step s (tx, adds new key) = after s (add_job fingerprint tx new key s)
  step s (tx, creates repo tracker ticket title description revision) =
      after s (create_from_ticket tx repo tracker ticket title description revision s)
  step s (tx, retitles id title description revision) =
      after s (update_from_ticket tx id title description revision s)
  step s (tx, links id tracker ticket) = after s (link_ticket tx id tracker ticket s)
  step s (tx, claims ids claimer label ttl) = after s (claim_jobs tx ids claimer label ttl s)
  step s (tx, activates id) = after s (activate_job tx id s)
  step s (tx, renews id caller ttl expected) = after s (renew_claim tx id caller ttl expected s)
  step s (tx, completes id caller result expected) =
      after s (complete_job tx id caller result expected s)
  step s (tx, fails id caller error expected) = after s (fail_job tx id caller error expected s)
  step s (tx, requests_cancel id caller reason) = after s (request_cancel tx id caller reason s)
  step s (tx, cancels id caller reason expected) =
      after s (cancel_job tx id caller reason expected s)
  step s (tx, closes id to result error revision) =
      after s (close_from_ticket tx id to result error revision s)
  step s (tx, repends id) = after s (repend_job tx id s)
  step s (tx, deletes id) = after_unit s (delete_job tx id s)
  step s (tx, edits id title description agent_type metadata) =
      after s (update_job tx id title description agent_type metadata s)
  step s (tx, revises id revision) = after_unit s (set_remote_revision tx id revision s)
  step s (tx, depends id add remove) = after s (set_dependencies tx id add remove s)

  unfoldable pub run : Store → List (Tx × Call) → Store
  unfolding step
  run s [] = s
  run s (c ∷ cs) = run (step s c) cs

-- The store after a call is the one before it, or the one that the call gave: a rule for any property.
pub after-keeps {ℓ} :
    {A : Type ℓ} (P : Store → Type 0) (s : Store) (r : Result (A × Store))
    → P s
    → ((a : A) (s' : Store) → r ≡ ok (a, s') → P s')
    → P (after s r)
after-keeps P s (ok (a, s')) v k = k a s' refl
after-keeps P s (err e) v k = v

pub after_unit-keeps :
    (P : Store → Type 0) (s : Store) (r : Result Store)
    → P s
    → ((s' : Store) → r ≡ ok s' → P s')
    → P (after_unit s r)
after_unit-keeps P s (ok s') v k = k s' refl
after_unit-keeps P s (err e) v k = v

set_remote_revision-IsConsistent :
    (tx : Tx) (id revision : Text) (s s' : Store)
    → IsConsistent s
    → set_remote_revision tx id revision s ≡ ok s'
    → IsConsistent s'
unfolding set_remote_revision set_revision
set_remote_revision-IsConsistent tx id revision s s' v h =
    elim (Option-cases (fetch_optional (is_job tx.org id) s.jobs)) [
      | inl e ↦ absurd (ground (arith, fetch_optional-exists (is_job tx.org id) s.jobs))
      | inr (j, e) ↦
          let w = found-IsWellFormed s v tx.org id (set_revision revision) j e in
          subst IsConsistent (ground arith) (
            write-IsConsistent s v tx.org id (set_revision revision) j e (λ _. (refl, refl))
              (set_revision-IsWellFormed j w revision) refl refl)
    ]

module _ (fingerprint : Payload → Text) where
  -- One call of any kind, whether it succeeds or fails, keeps the store consistent.
  pub step-IsConsistent :
      (s : Store) (tx : Tx) (c : Call) → IsConsistent s → IsConsistent (step fingerprint s (tx, c))
  unfolding step complete_job fail_job
  step-IsConsistent s tx (adds new key) v =
      after-keeps IsConsistent s (add_job fingerprint tx new key s) v
        (λ a s'. add_job-IsConsistent tx s s' a v fingerprint new key)
  step-IsConsistent s tx (creates repo tracker ticket title description revision) v =
      after-keeps IsConsistent s
        (create_from_ticket tx repo tracker ticket title description revision s) v
        (λ a s'.
          create_from_ticket-IsConsistent tx s s' a v repo tracker ticket title description
            revision)
  step-IsConsistent s tx (retitles id title description revision) v =
      after-keeps IsConsistent s (update_from_ticket tx id title description revision s) v
        (λ a s'. update_from_ticket-IsConsistent tx id s v title description revision)
  step-IsConsistent s tx (links id tracker ticket) v =
      after-keeps IsConsistent s (link_ticket tx id tracker ticket s) v
        (λ a s'. link_ticket-IsConsistent tx id s v tracker ticket)
  step-IsConsistent s tx (claims ids claimer label ttl) v =
      after-keeps IsConsistent s (claim_jobs tx ids claimer label ttl s) v
        (λ a s'. claim_jobs-IsConsistent tx ids claimer label ttl s v)
  step-IsConsistent s tx (activates id) v =
      after-keeps IsConsistent s (activate_job tx id s) v
        (λ a s'. activate_job-IsConsistent tx id s v)
  step-IsConsistent s tx (renews id caller ttl expected) v =
      after-keeps IsConsistent s (renew_claim tx id caller ttl expected s) v
        (λ a s'. renew_claim-IsConsistent tx id s v caller ttl expected)
  step-IsConsistent s tx (completes id caller result expected) v =
      after-keeps IsConsistent s (finalize tx id caller completed result none expected s) v
        (λ a s'. finalize-IsConsistent tx id s v caller completed result none expected refl)
  step-IsConsistent s tx (fails id caller error expected) v =
      after-keeps IsConsistent s (finalize tx id caller failed none error expected s) v
        (λ a s'. finalize-IsConsistent tx id s v caller failed none error expected refl)
  step-IsConsistent s tx (requests_cancel id caller reason) v =
      after-keeps IsConsistent s (request_cancel tx id caller reason s) v
        (λ a s'. request_cancel-IsConsistent tx id s v caller reason)
  step-IsConsistent s tx (cancels id caller reason expected) v =
      after-keeps IsConsistent s (cancel_job tx id caller reason expected s) v
        (λ a s'. cancel_job-IsConsistent tx id s v caller reason expected)
  step-IsConsistent s tx (closes id to result error revision) v =
      after-keeps IsConsistent s (close_from_ticket tx id to result error revision s) v
        (λ a s'. close_from_ticket-IsConsistent tx id s v to result error revision)
  step-IsConsistent s tx (repends id) v =
      after-keeps IsConsistent s (repend_job tx id s) v (λ a s'. repend_job-IsConsistent tx id s v)
  step-IsConsistent s tx (deletes id) v =
      after_unit-keeps IsConsistent s (delete_job tx id s) v (delete_job-IsConsistent tx id s v)
  step-IsConsistent s tx (edits id title description agent_type metadata) v =
      after-keeps IsConsistent s (update_job tx id title description agent_type metadata s) v
        (λ a s'. update_job-IsConsistent tx id s v title description agent_type metadata)
  step-IsConsistent s tx (revises id revision) v =
      after_unit-keeps IsConsistent s (set_remote_revision tx id revision s) v
        (λ s'. set_remote_revision-IsConsistent tx id revision s s' v)
  step-IsConsistent s tx (depends id add remove) v =
      after-keeps IsConsistent s (set_dependencies tx id add remove s) v
        (λ a s'. set_dependencies-IsConsistent tx id s v add remove a s')

  run-keeps :
      (s : Store) (cs : List (Tx × Call)) → IsConsistent s → IsConsistent (run fingerprint s cs)
  unfolding run
  run-keeps s [] v = v
  run-keeps s ((tx, c) ∷ cs) v =
      run-keeps (step fingerprint s (tx, c)) cs (step-IsConsistent s tx c v)

  empty-IsConsistent : (repos : List Repo) → IsConsistent (record no_rows { repos = repos })
  unfolding count_where completed_total failed_total fetch_optional
  empty-IsConsistent repos = record {
    rows = tt;
    keys = λ o i. omega arith;
    completed_counted = λ o. refl;
    failed_counted = λ o. refl;
  }

  -- After any history of calls on a database with no job, of every org and every caller and whatever
  -- failed, each row of jobs is well formed, no two rows share a key, and the totals of each org are
  -- the numbers of its completed and its failed jobs.
  pub run-IsConsistent :
      (repos : List Repo) (calls : List (Tx × Call))
      → IsConsistent (run fingerprint (record no_rows { repos = repos }) calls)
  run-IsConsistent repos calls =
      run-keeps (record no_rows { repos = repos }) calls (empty-IsConsistent repos)
