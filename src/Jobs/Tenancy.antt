-- ===== src/Jobs/Tenancy.antt =====
-- The isolation of tenants over every operation on jobs.
use otto_factory.Common.{List, [], arith, inl, inr, none, refl, ℕ, ◌∙◌, ◌≡◌, ◌≢◌}
use otto_factory.Common.Int.{negsuc, pos, ℤ}
use otto_factory.Common.Text.{Text, trim}
use otto_factory.Error.{Status, completed, failed, job_not_found, ok}
use otto_factory.Error.Laws.{guard-eq-ok}
use otto_factory.Jobs.Cancel.{
  cancel_job, cancel_now, close, close_from_ticket, confirm_cancel, delete_job, edit, repend,
  repend_job, request_cancel, set_remote_revision, set_revision, stamp_cancel, update_job,
}
use otto_factory.Jobs.Claim.{
  activate, activate_job, claim_jobs, clamp_claim_ttl, complete_job, extend_claim, fail_job,
  finalize, finish, renew_claim,
}
use otto_factory.Jobs.Counters.{next_job_seq}
use otto_factory.Jobs.Create.{
  Payload, add_job, create_from_ticket, insert_row, link_ticket, relink, retitle, row,
  update_from_ticket,
}
use otto_factory.Jobs.CreateRule.{IsNew, add_job-rule, create_from_ticket-rule}
use otto_factory.Jobs.Dependencies.{set_dependencies}
use otto_factory.Jobs.Effects.{
  Wrote, WroteCounted, activate_job_ok, cancel_job_ok, close_from_ticket_ok, finalize_ok,
  link_ticket_ok, renew_claim_ok, repend_job_ok, request_cancel_ok, update_from_ticket_ok,
  update_job_ok, written_at,
}
use otto_factory.Jobs.History.{
  Call, activates, adds, after-keeps, after_unit-keeps, cancels, claims, closes, completes, creates,
  deletes, depends, edits, fails, links, renews, repends, requests_cancel, retitles, revises, step,
}
use otto_factory.Jobs.Invariant.{KeepsKey}
use otto_factory.Jobs.Isolation.{
  IsUntouched, claim_jobs-IsUntouched, counted-IsUntouched, delete_job-IsUntouched,
  insert_row-IsUntouched, next_job_seq-IsUntouched, same-IsUntouched, set_dependencies-IsUntouched,
  written-IsUntouched,
}
use otto_factory.Jobs.Row.{is_job}
use otto_factory.Store.{Job, Store, Tx}
use otto_factory.Table.{exists_where}

IsUntouched-trans :
    (o : ℕ) (s t u : Store) → IsUntouched o s t → IsUntouched o t u → IsUntouched o s u
IsUntouched-trans o s t u a b = record {
  jobs = b.jobs ∙ a.jobs;
  dependencies = b.dependencies ∙ a.dependencies;
  counters = b.counters ∙ a.counters;
  messages = b.messages ∙ a.messages;
  repos = b.repos ∙ a.repos;
}

module _ (o : ℕ) (tx : Tx) (other : o ≢ tx.org) (s : Store) where
  numbered : (t : Store) → IsUntouched o s t → IsUntouched o s (next_job_seq tx t).1
  numbered t a =
      IsUntouched-trans o s t (next_job_seq tx t).1 a (next_job_seq-IsUntouched o tx other t)

  inserted :
      (j job : Job) (t t' : Store)
      → IsNew tx j
      → insert_row j t ≡ row job t'
      → IsUntouched o s t
      → IsUntouched o s t'
  inserted j job t t' n e a =
      IsUntouched-trans o s t t' a (insert_row-IsUntouched o tx other j job t t' n.own e)

  linked :
      (id : Text) (add deps : List Text) (t t' : Store)
      → set_dependencies tx id add [] t ≡ ok (deps, t')
      → IsUntouched o s t
      → IsUntouched o s t'
  linked id add deps t t' e a =
      IsUntouched-trans o s t t' a (set_dependencies-IsUntouched o tx other id t add [] deps t' e)

  wrote :
      (id : Text) (f : Job → Job) (j job : Job) (s' : Store)
      → KeepsKey f
      → Wrote tx id s j f job s'
      → IsUntouched o s s'
  wrote id f j job s' k w = written-IsUntouched o tx other id s f s' k w.2

  counted :
      (id : Text) (f : Job → Job) (j job : Job) (s' : Store) (status : Status) (delta : ℤ)
      → KeepsKey f
      → WroteCounted tx id s job s' j f status delta
      → IsUntouched o s s'
  counted id f j job s' status delta k w =
      counted-IsUntouched o tx other id s f status delta s' k w.2

module _ (fingerprint : Payload → Text) (o : ℕ) (tx : Tx) (s : Store) where
  -- A call of any kind in one org's transaction leaves the jobs, dependencies, counters and messages
  -- of every other org, and the repos of all, as they were, whether it succeeds or fails.
  pub step-IsUntouched : (c : Call) → o ≢ tx.org → IsUntouched o s (step fingerprint s (tx, c))
  unfolding step complete_job fail_job set_remote_revision finish activate extend_claim cancel_now
      stamp_cancel confirm_cancel close repend edit retitle relink set_revision
  step-IsUntouched (adds new key) x =
      after-keeps (IsUntouched o s) s (add_job fingerprint tx new key s) (same-IsUntouched o s)
        λ a s' h.
          add_job-rule tx (IsUntouched o s) (numbered o tx x s) (inserted o tx x s)
            (linked o tx x s) fingerprint new key s s' a (same-IsUntouched o s) h
  step-IsUntouched (creates repo tracker ticket title description revision) x =
      after-keeps (IsUntouched o s) s
        (create_from_ticket tx repo tracker ticket title description revision s)
        (same-IsUntouched o s)
        λ a s' h.
          create_from_ticket-rule tx (IsUntouched o s) (numbered o tx x s) (inserted o tx x s)
            (linked o tx x s) repo tracker ticket title description revision s s' a
            (same-IsUntouched o s) h
  step-IsUntouched (retitles id title description revision) x =
      after-keeps (IsUntouched o s) s (update_from_ticket tx id title description revision s)
        (same-IsUntouched o s)
        λ a s' h.
          let (j, w) = update_from_ticket_ok tx id s a s' title description revision h in
          wrote o tx x s id (retitle (trim title) description revision) j a s' (λ _. (refl, refl)) w
  step-IsUntouched (links id tracker ticket) x =
      after-keeps (IsUntouched o s) s (link_ticket tx id tracker ticket s) (same-IsUntouched o s)
        λ a s' h.
          let (j, w, _) = link_ticket_ok tx id s a s' tracker ticket h in
          wrote o tx x s id (relink tracker ticket) j a s' (λ _. (refl, refl)) w
  step-IsUntouched (claims ids claimer label ttl) x =
      after-keeps (IsUntouched o s) s (claim_jobs tx ids claimer label ttl s) (same-IsUntouched o s)
        λ a s' h. claim_jobs-IsUntouched o tx x ids claimer label ttl s a s' h
  step-IsUntouched (activates id) x =
      after-keeps (IsUntouched o s) s (activate_job tx id s) (same-IsUntouched o s) λ a s' h.
        let (j, w, _) = activate_job_ok tx id s a s' h in
        wrote o tx x s id activate j a s' (λ _. (refl, refl)) w
  step-IsUntouched (renews id caller ttl expected) x =
      after-keeps (IsUntouched o s) s (renew_claim tx id caller ttl expected s)
        (same-IsUntouched o s)
        λ a s' h.
          let (j, w, _) = renew_claim_ok tx id s a s' caller ttl expected h in
          wrote o tx x s id (extend_claim tx (clamp_claim_ttl ttl)) j a s' (λ _. (refl, refl)) w
  step-IsUntouched (completes id caller result expected) x =
      after-keeps (IsUntouched o s) s (finalize tx id caller completed result none expected s)
        (same-IsUntouched o s)
        λ a s' h.
          let (j, w, _) = finalize_ok tx id s a s' caller completed result none expected h in
          counted o tx x s id (finish tx completed result none) j a s' completed (pos 1)
            (λ _. (refl, refl)) w
  step-IsUntouched (fails id caller error expected) x =
      after-keeps (IsUntouched o s) s (finalize tx id caller failed none error expected s)
        (same-IsUntouched o s)
        λ a s' h.
          let (j, w, _) = finalize_ok tx id s a s' caller failed none error expected h in
          counted o tx x s id (finish tx failed none error) j a s' failed (pos 1)
            (λ _. (refl, refl)) w
  step-IsUntouched (requests_cancel id caller reason) x =
      after-keeps (IsUntouched o s) s (request_cancel tx id caller reason s) (same-IsUntouched o s)
        λ a s' h.
          let (j, cases) = request_cancel_ok tx id s a s' caller reason h in
          elim cases [
            | inl (_, w) ↦
                wrote o tx x s id (cancel_now tx caller reason) j a s' (λ _. (refl, refl)) w
            | inr (_, w) ↦
                wrote o tx x s id (stamp_cancel tx caller reason) j a s' (λ _. (refl, refl)) w
          ]
  step-IsUntouched (cancels id caller reason expected) x =
      after-keeps (IsUntouched o s) s (cancel_job tx id caller reason expected s)
        (same-IsUntouched o s)
        λ a s' h.
          let (j, w, _, _) = cancel_job_ok tx id s a s' caller reason expected h in
          wrote o tx x s id (confirm_cancel tx reason) j a s' (λ _. (refl, refl)) w
  step-IsUntouched (closes id to result error revision) x =
      after-keeps (IsUntouched o s) s (close_from_ticket tx id to result error revision s)
        (same-IsUntouched o s)
        λ a s' h.
          let (j, w, _, _) = close_from_ticket_ok tx id s a s' to result error revision h in
          counted o tx x s id (close tx to result error revision) j a s' to (pos 1)
            (λ _. (refl, refl)) w
  step-IsUntouched (repends id) x =
      after-keeps (IsUntouched o s) s (repend_job tx id s) (same-IsUntouched o s) λ a s' h.
        let (j, w, _, _) = repend_job_ok tx id s a s' h in
        counted o tx x s id repend j a s' j.status (negsuc 0) (λ _. (refl, refl)) w
  step-IsUntouched (deletes id) x =
      after_unit-keeps (IsUntouched o s) s (delete_job tx id s) (same-IsUntouched o s)
        (delete_job-IsUntouched o tx x id s)
  step-IsUntouched (edits id title description agent_type metadata) x =
      after-keeps (IsUntouched o s) s (update_job tx id title description agent_type metadata s)
        (same-IsUntouched o s)
        λ a s' h.
          let (j, w) = update_job_ok tx id s a s' title description agent_type metadata h in
          wrote o tx x s id (edit title description agent_type metadata) j a s' (λ _. (refl, refl))
            w
  step-IsUntouched (revises id revision) x =
      after_unit-keeps (IsUntouched o s) s (set_remote_revision tx id revision s)
        (same-IsUntouched o s)
        λ s' h.
          let (_, e) =
            guard-eq-ok (exists_where (is_job tx.org id) s.jobs) (job_not_found id)
              (ok (written_at tx.org id (set_revision revision) s)) h in
          written-IsUntouched o tx x id s (set_revision revision) s' (λ _. (refl, refl))
            (ground arith)
  step-IsUntouched (depends id add remove) x =
      after-keeps (IsUntouched o s) s (set_dependencies tx id add remove s) (same-IsUntouched o s)
        λ a s' h. set_dependencies-IsUntouched o tx x id s add remove a s' h
