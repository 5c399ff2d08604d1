-- ===== src/Jobs/Graph.antt =====
-- No history of calls makes a job depend on itself, directly or through others.
use otto_factory.Common.{List, [], ap, arith, inl, inr, none, refl, ◌∷◌, ◌≡◌}
use otto_factory.Common.Int.{negsuc, pos, ℤ}
use otto_factory.Common.Text.{Text, trim}
use otto_factory.Error.{Status, completed, failed, job_not_found, ok}
use otto_factory.Error.Laws.{guard-eq-ok}
use otto_factory.Jobs.Cancel.{
  cancel_job, cancel_now, close, close_from_ticket, confirm_cancel, delete_job, edit, mentions,
  repend, repend_job, request_cancel, set_remote_revision, set_revision, stamp_cancel, update_job,
}
use otto_factory.Jobs.Claim.{
  activate, activate_job, claim_jobs, clamp_claim_ttl, complete_job, extend_claim, fail_job,
  finalize, finish, renew_claim,
}
use otto_factory.Jobs.ClaimInvariant.{claim_jobs_ok}
use otto_factory.Jobs.Counters.{next_job_seq}
use otto_factory.Jobs.Create.{
  Payload, add_job, create_from_ticket, insert_row, link_ticket, relink, retitle, row,
  update_from_ticket,
}
use otto_factory.Jobs.CreateRule.{add_job-rule, create_from_ticket-rule}
use otto_factory.Jobs.Dependencies.{edges, set_dependencies}
use otto_factory.Jobs.Dependencies.Acyclic.{
  IsAcyclic, NoCycles, edge-delete, fewer-IsAcyclic, same-NoCycles, set_dependencies-NoCycles,
}
use otto_factory.Jobs.Dependencies.Reach.{Leads, and_then, by_edge, has_edge}
use otto_factory.Jobs.Effects.{
  Wrote, WroteCounted, activate_job_ok, cancel_job_ok, close_from_ticket_ok, delete_job_ok,
  finalize_ok, link_ticket_ok, renew_claim_ok, repend_job_ok, request_cancel_ok,
  update_from_ticket_ok, update_job_ok, written_at,
}
use otto_factory.Jobs.History.{
  Call, activates, adds, after-keeps, after_unit-keeps, cancels, claims, closes, completes, creates,
  deletes, depends, edits, fails, links, no_rows, renews, repends, requests_cancel, retitles,
  revises, run, step,
}
use otto_factory.Jobs.Row.{is_job}
use otto_factory.Store.{Job, Repo, Store, Tx}
use otto_factory.Table.{delete_where, exists_where}

after_insert : (j job : Job) (s s' : Store) → insert_row j s ≡ row job s' → NoCycles s → NoCycles s'
unfolding insert_row
after_insert j job s s' e = same-NoCycles s s' (ground arith)

module _ (tx : Tx) where
  numbered : (s : Store) → NoCycles s → NoCycles (next_job_seq tx s).1
  unfolding next_job_seq
  numbered s = same-NoCycles s (next_job_seq tx s).1 refl

  linked :
      (id : Text) (add deps : List Text) (s s' : Store)
      → set_dependencies tx id add [] s ≡ ok (deps, s')
      → NoCycles s
      → NoCycles s'
  linked id add deps s s' h = set_dependencies-NoCycles tx id add [] s deps s' h

  wrote :
      (s : Store) (id : Text) (f : Job → Job) (j job : Job) (s' : Store)
      → NoCycles s
      → Wrote tx id s j f job s'
      → NoCycles s'
  wrote s id f j job s' v w = same-NoCycles s s' (ap (λ (t : Store). t.job_dependencies) w.2) v

  counted :
      (s : Store) (id : Text) (f : Job → Job) (j job : Job) (s' : Store) (status : Status)
      (delta : ℤ)
      → NoCycles s
      → WroteCounted tx id s job s' j f status delta
      → NoCycles s'
  counted s id f j job s' status delta v w =
      same-NoCycles s s' (ap (λ (t : Store). t.job_dependencies) w.2) v

  deleted : (id : Text) (s s' : Store) → delete_job tx id s ≡ ok s' → NoCycles s → NoCycles s'
  unfolding NoCycles
  deleted id s s' h v o =
      let (j, _, _, _, deps, _, _) = delete_job_ok tx id s s' h in
      rw deps (
        fewer-IsAcyclic (edges o (delete_where (mentions tx.org id) s.job_dependencies))
          (edges o s.job_dependencies) (edge-delete o (mentions tx.org id) s.job_dependencies)
          (v o))

no_edge-Leads : (a b : Text) → ¬ Leads [] a b
unfolding has_edge
no_edge-Leads a b (by_edge e) = ground (arith, e)
no_edge-Leads a b (and_then e p) = ground (arith, e)

module _ (fingerprint : Payload → Text) where
  -- One call of any kind adds no cycle.
  pub step-NoCycles :
      (s : Store) (tx : Tx) (c : Call) → NoCycles s → NoCycles (step fingerprint s (tx, c))
  unfolding step complete_job fail_job set_remote_revision
  step-NoCycles s tx (adds new key) v =
      after-keeps NoCycles s (add_job fingerprint tx new key s) v λ a s' h.
        add_job-rule tx NoCycles (numbered tx) (λ j job t t' n e. after_insert j job t t' e)
          (linked tx) fingerprint new key s s' a v h
  step-NoCycles s tx (creates repo tracker ticket title description revision) v =
      after-keeps NoCycles s
        (create_from_ticket tx repo tracker ticket title description revision s) v
        λ a s' h.
          create_from_ticket-rule tx NoCycles (numbered tx)
            (λ j job t t' n e. after_insert j job t t' e) (linked tx) repo tracker ticket title
            description revision s s' a v h
  step-NoCycles s tx (retitles id title description revision) v =
      after-keeps NoCycles s (update_from_ticket tx id title description revision s) v λ a s' h.
        let (j, w) = update_from_ticket_ok tx id s a s' title description revision h in
        wrote tx s id (retitle (trim title) description revision) j a s' v w
  step-NoCycles s tx (links id tracker ticket) v =
      after-keeps NoCycles s (link_ticket tx id tracker ticket s) v λ a s' h.
        let (j, w, _) = link_ticket_ok tx id s a s' tracker ticket h in
        wrote tx s id (relink tracker ticket) j a s' v w
  step-NoCycles s tx (claims ids claimer label ttl) v =
      after-keeps NoCycles s (claim_jobs tx ids claimer label ttl s) v λ a s' h.
        let c = claim_jobs_ok tx ids claimer label ttl s h in
        same-NoCycles s s' (ap (λ (t : Store). t.job_dependencies) c.store) v
  step-NoCycles s tx (activates id) v =
      after-keeps NoCycles s (activate_job tx id s) v λ a s' h.
        let (j, w, _) = activate_job_ok tx id s a s' h in wrote tx s id activate j a s' v w
  step-NoCycles s tx (renews id caller ttl expected) v =
      after-keeps NoCycles s (renew_claim tx id caller ttl expected s) v λ a s' h.
        let (j, w, _) = renew_claim_ok tx id s a s' caller ttl expected h in
        wrote tx s id (extend_claim tx (clamp_claim_ttl ttl)) j a s' v w
  step-NoCycles s tx (completes id caller result expected) v =
      after-keeps NoCycles s (finalize tx id caller completed result none expected s) v λ a s' h.
        let (j, w, _) = finalize_ok tx id s a s' caller completed result none expected h in
        counted tx s id (finish tx completed result none) j a s' completed (pos 1) v w
  step-NoCycles s tx (fails id caller error expected) v =
      after-keeps NoCycles s (finalize tx id caller failed none error expected s) v λ a s' h.
        let (j, w, _) = finalize_ok tx id s a s' caller failed none error expected h in
        counted tx s id (finish tx failed none error) j a s' failed (pos 1) v w
  step-NoCycles s tx (requests_cancel id caller reason) v =
      after-keeps NoCycles s (request_cancel tx id caller reason s) v λ a s' h.
        let (j, cases) = request_cancel_ok tx id s a s' caller reason h in
        elim cases [
          | inl (_, w) ↦ wrote tx s id (cancel_now tx caller reason) j a s' v w
          | inr (_, w) ↦ wrote tx s id (stamp_cancel tx caller reason) j a s' v w
        ]
  step-NoCycles s tx (cancels id caller reason expected) v =
      after-keeps NoCycles s (cancel_job tx id caller reason expected s) v λ a s' h.
        let (j, w, _, _) = cancel_job_ok tx id s a s' caller reason expected h in
        wrote tx s id (confirm_cancel tx reason) j a s' v w
  step-NoCycles s tx (closes id to result error revision) v =
      after-keeps NoCycles s (close_from_ticket tx id to result error revision s) v λ a s' h.
        let (j, w, _, _) = close_from_ticket_ok tx id s a s' to result error revision h in
        counted tx s id (close tx to result error revision) j a s' to (pos 1) v w
  step-NoCycles s tx (repends id) v = after-keeps NoCycles s (repend_job tx id s) v λ a s' h.
      let (j, w, _, _) = repend_job_ok tx id s a s' h in
      counted tx s id repend j a s' j.status (negsuc 0) v w
  step-NoCycles s tx (deletes id) v =
      after_unit-keeps NoCycles s (delete_job tx id s) v (λ s' h. deleted tx id s s' h v)
  step-NoCycles s tx (edits id title description agent_type metadata) v =
      after-keeps NoCycles s (update_job tx id title description agent_type metadata s) v λ a s' h.
        let (j, w) = update_job_ok tx id s a s' title description agent_type metadata h in
        wrote tx s id (edit title description agent_type metadata) j a s' v w
  step-NoCycles s tx (revises id revision) v =
      after_unit-keeps NoCycles s (set_remote_revision tx id revision s) v λ s' h.
        let (_, e) =
          guard-eq-ok (exists_where (is_job tx.org id) s.jobs) (job_not_found id)
            (ok (written_at tx.org id (set_revision revision) s)) h in
        same-NoCycles s s' (ground arith) v
  step-NoCycles s tx (depends id add remove) v =
      after-keeps NoCycles s (set_dependencies tx id add remove s) v
        λ a s' h. set_dependencies-NoCycles tx id add remove s a s' h v

  run-keeps :
      (s : Store) (calls : List (Tx × Call)) → NoCycles s → NoCycles (run fingerprint s calls)
  unfolding run
  run-keeps s [] v = v
  run-keeps s ((tx, c) ∷ cs) v = run-keeps (step fingerprint s (tx, c)) cs (step-NoCycles s tx c v)

  -- After any history of calls on a database with no job, no job of any org depends on itself, neither
  -- directly nor through other jobs.
  pub run-NoCycles :
      (repos : List Repo) (calls : List (Tx × Call))
      → NoCycles (run fingerprint (record no_rows { repos = repos }) calls)
  unfolding NoCycles IsAcyclic edges
  run-NoCycles repos calls =
      run-keeps (record no_rows { repos = repos }) calls (λ o a p. no_edge-Leads a a p)
