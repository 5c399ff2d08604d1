-- ===== src/Tools/Writes.antt =====
-- crates/of-mcp/src/tools/jobs.rs: the tools that change a job, each up to its commit. The write-back to
-- a linked ticket, which follows in transactions of its own and whose failure is only logged, is left out.
use otto_factory.Common.{List, Option, [], false, if◌then◌else◌, true, ℕ, ◌++◌, ◌∷◌}
use otto_factory.Common.Int.{ℤ}
use otto_factory.Common.Text.{Text, codes}
use otto_factory.Error.{Result, cancelled, guard, hidden_dependents, invalid, ok, ◌>>=◌, ◌>>◌}
use otto_factory.Jobs.Cancel.{cancel_job, delete_job, repend_job, request_cancel, update_job}
use otto_factory.Jobs.Claim.{activate_job, claim_jobs, complete_job, fail_job, renew_claim}
use otto_factory.Jobs.Create.{link_ticket}
use otto_factory.Jobs.Dependencies.{set_dependencies}
use otto_factory.Jobs.Row.{same_status}
use otto_factory.Jobs.Visible.{has_hidden_dependents}
use otto_factory.Lifecycle.{Database, labelled}
use otto_factory.Scopes.{jobs_write, trackers}
use otto_factory.Store.{Tracker}
use otto_factory.Tools.{
  Reply, Work, Request, audit_job, charge_completed, deleted_out, dependencies_out,
  ensure_jobs_visible, job_out, job_reply, jobs_reply, metered, open_call, redacting, visible_ids,
}

pub record UpdateJobArgs : Type 0 where
  pub title : Option Text
  pub description : Option Text
  pub agent_type : Option Text
  pub metadata : Option Text

unfoldable pub update_job_work : Text → UpdateJobArgs → Work
update_job_work id a team tx d = do
  ensure_jobs_visible tx team (id ∷ []) d.queue
  job_reply d (update_job tx id a.title a.description a.agent_type a.metadata d.queue)

unfoldable pub update_job_tool :
    Request → Text → UpdateJobArgs → Database → Result (Reply × Database)
unfolding update_job_work metered
update_job_tool q id a d = metered q jobs_write (codes "update_job") (update_job_work id a) d

unfoldable pub delete_job_work : Text → Work
delete_job_work id team tx d = do
  ensure_jobs_visible tx team (id ∷ []) d.queue
  guard (if has_hidden_dependents tx id team d.queue then false else true)
      (invalid hidden_dependents)
  s ← delete_job tx id d.queue
  ok (deleted_out id, record d { queue = s })

unfoldable pub delete_job_tool : Request → Text → Database → Result (Reply × Database)
unfolding delete_job_work metered
delete_job_tool q id d = metered q jobs_write (codes "delete_job") (delete_job_work id) d

unfoldable pub claim_jobs_work : ℕ → List Text → Option Text → Option ℤ → Work
claim_jobs_work user ids agent ttl team tx d = do
  ensure_jobs_visible tx team ids d.queue
  jobs_reply d (claim_jobs tx ids user agent ttl d.queue)

unfoldable pub claim_jobs_tool :
    Request → List Text → Option Text → Option ℤ → Database → Result (Reply × Database)
unfolding claim_jobs_work metered
claim_jobs_tool q ids agent ttl d =
    metered q jobs_write (codes "claim_jobs") (claim_jobs_work q.caller.user_id ids agent ttl) d

unfoldable pub renew_claim_work : ℕ → Text → Option ℤ → Option ℕ → Work
renew_claim_work user id ttl expected_attempts team tx d = do
  ensure_jobs_visible tx team (id ∷ []) d.queue
  job_reply d (renew_claim tx id user ttl expected_attempts d.queue)

unfoldable pub renew_claim_tool :
    Request → Text → Option ℤ → Option ℕ → Database → Result (Reply × Database)
unfolding renew_claim_work metered
renew_claim_tool q id ttl expected_attempts d =
    metered q jobs_write (codes "renew_claim")
      (renew_claim_work q.caller.user_id id ttl expected_attempts) d

unfoldable pub complete_job_work : ℕ → Text → Option Text → Option ℕ → Work
complete_job_work user id result expected_attempts team tx d = do
  ensure_jobs_visible tx team (id ∷ []) d.queue
  job_reply d (complete_job tx id user result expected_attempts d.queue)

-- The one tool that is charged as a completion.
unfoldable pub complete_job_tool :
    Request → Text → Option Text → Option ℕ → Database → Result (Reply × Database)
unfolding complete_job_work open_call charge_completed
complete_job_tool q id result expected_attempts d = do
  (team, tx) ← open_call q jobs_write d
  d1 ← charge_completed q d
  complete_job_work q.caller.user_id id result expected_attempts team tx d1

unfoldable pub fail_job_work : ℕ → Text → Option Text → Option ℕ → Work
fail_job_work user id error expected_attempts team tx d = do
  ensure_jobs_visible tx team (id ∷ []) d.queue
  job_reply d (fail_job tx id user error expected_attempts d.queue)

unfoldable pub fail_job_tool :
    Request → Text → Option Text → Option ℕ → Database → Result (Reply × Database)
unfolding fail_job_work metered
fail_job_tool q id error expected_attempts d =
    metered q jobs_write (codes "fail_job")
      (fail_job_work q.caller.user_id id error expected_attempts) d

-- A pending job is cancelled in the same call: the trail then has both events.
unfoldable pub request_cancel_work : Request → Text → Option Text → Work
request_cancel_work q id reason team tx d = do
  ensure_jobs_visible tx team (id ∷ []) d.queue
  (job, s) ← request_cancel tx id q.caller.user_id reason d.queue
  let detail = labelled (codes "reason") reason
  let d1 = audit_job tx q (codes "job.cancel.requested") job.id detail (record d { queue = s })
  ok (
    job_out job,
    if same_status job.status cancelled
        then audit_job tx q (codes "job.cancelled") job.id detail d1
        else d1,
  )

unfoldable pub request_cancel_tool :
    Request → Text → Option Text → Database → Result (Reply × Database)
unfolding request_cancel_work metered
request_cancel_tool q id reason d =
    metered q jobs_write (codes "request_cancel") (request_cancel_work q id reason) d

unfoldable pub cancel_job_work : Request → Text → Option Text → Option ℕ → Work
cancel_job_work q id note expected_attempts team tx d = do
  ensure_jobs_visible tx team (id ∷ []) d.queue
  (job, s) ← cancel_job tx id q.caller.user_id note expected_attempts d.queue
  ok (
    job_out job,
    audit_job tx q (codes "job.cancelled") job.id (labelled (codes "note") note)
        (record d { queue = s }),
  )

unfoldable pub cancel_job_tool :
    Request → Text → Option Text → Option ℕ → Database → Result (Reply × Database)
unfolding cancel_job_work metered
cancel_job_tool q id note expected_attempts d =
    metered q jobs_write (codes "cancel_job") (cancel_job_work q id note expected_attempts) d

unfoldable pub activate_job_work : Text → Work
activate_job_work id team tx d = do
  ensure_jobs_visible tx team (id ∷ []) d.queue
  job_reply d (activate_job tx id d.queue)

unfoldable pub activate_job_tool : Request → Text → Database → Result (Reply × Database)
unfolding activate_job_work metered
activate_job_tool q id d = metered q jobs_write (codes "activate_job") (activate_job_work id) d

unfoldable pub repend_job_work : Text → Work
repend_job_work id team tx d = do
  ensure_jobs_visible tx team (id ∷ []) d.queue
  job_reply d (repend_job tx id d.queue)

unfoldable pub repend_job_tool : Request → Text → Database → Result (Reply × Database)
unfolding repend_job_work metered
repend_job_tool q id d = metered q jobs_write (codes "repend_job") (repend_job_work id) d

unfoldable pub set_dependencies_work : Text → List Text → List Text → Work
set_dependencies_work id add remove team tx d = do
  ensure_jobs_visible tx team (id ∷ (add ++ remove)) d.queue
  (deps, s) ← redacting team (set_dependencies tx id add remove d.queue)
  ok (dependencies_out id (visible_ids tx team deps s), record d { queue = s })

unfoldable pub set_dependencies_tool :
    Request → Text → List Text → List Text → Database → Result (Reply × Database)
unfolding set_dependencies_work metered
set_dependencies_tool q id add remove d =
    metered q jobs_write (codes "set_dependencies") (set_dependencies_work id add remove) d

unfoldable pub link_ticket_work : Text → Tracker → Text → Work
link_ticket_work id tracker ticket_ref team tx d = do
  ensure_jobs_visible tx team (id ∷ []) d.queue
  job_reply d (redacting team (link_ticket tx id tracker ticket_ref d.queue))

unfoldable pub link_ticket_tool :
    Request → Text → Tracker → Text → Database → Result (Reply × Database)
unfolding link_ticket_work metered
link_ticket_tool q id tracker ticket_ref d =
    metered q trackers (codes "link_ticket") (link_ticket_work id tracker ticket_ref) d
