-- ===== src/Tools/Recorded.antt =====
-- What a tool on jobs that is answered has passed, and the row of usage that it leaves.
use otto_factory.Common.{
  Bool, Option, Option-cases, ap, arith, false, inl, inr, none, refl, some, true, ℕ, ◌&&◌, ◌∙◌, ◌≡◌,
}
use otto_factory.Common.Text.{Text, codes}
use otto_factory.Error.{Result, ok, ◌>>=◌, ◌>>◌}
use otto_factory.Error.Laws.{>>=-eq-ok}
use otto_factory.Jobs.Create.{Payload, add_job, find_replayed_job}
use otto_factory.Jobs.Visible.{get_job_visible}
use otto_factory.Lifecycle.{Database, revoked}
use otto_factory.Scopes.{jobs_read, jobs_write, trackers}
use otto_factory.Store.{Job, Tx}
use otto_factory.Teams.{TeamScope}
use otto_factory.Tools.{
  Reply, Request, Work, charge_call, job_out, charge_completed, ensure_jobs_visible, job_reply,
  metered, open_call, record_replayed, repo_for_write, require_scope, team_scope, has_scope,
}
use otto_factory.Tools.Adds.{
  AddJobArgs, add_job_tool, add_job_work, keyed_work, new_job, seen_replay,
}
use otto_factory.Billing.Meter.{billable_blocked}
use otto_factory.Tools.Calls.{
  is_completing, scope_of, tool_name, ToolCall, call_activate, call_add, call_blocked, call_cancel,
  call_claim, call_complete, call_delete, call_fail, call_get, call_link, call_list, call_ready,
  call_renew, call_repend, call_request_cancel, call_set_dependencies, call_stats, call_update,
  perform,
}
use otto_factory.Tools.Contained.{job_reply_ok}
use otto_factory.Tools.Opening.{
  charge_call_ok, charge_completed_ok, metered_ok, open_call_ok, record_replayed_ok, recorded,
  tx_of,
}
use otto_factory.Tools.Reads.{
  ListJobsArgs, blocked_tool, blocked_work, get_job_tool, get_job_work, list_jobs_tool,
  list_jobs_work, parse_status, ready_tool, ready_work, stats_tool, stats_work,
}
use otto_factory.Tools.Writes.{
  activate_job_tool, activate_job_work, cancel_job_tool, cancel_job_work, claim_jobs_tool,
  claim_jobs_work, complete_job_tool, complete_job_work, delete_job_tool, delete_job_work,
  fail_job_tool, fail_job_work, link_ticket_tool, link_ticket_work, renew_claim_tool,
  renew_claim_work, repend_job_tool, repend_job_work, request_cancel_tool, request_cancel_work,
  set_dependencies_tool, set_dependencies_work, update_job_tool, update_job_work,
}
use otto_factory.Tools.Outbox.{
  KeepsOutbox, then_job, then_reply, update_outbox, delete_outbox, claim_outbox,
  request_cancel_outbox, cancel_outbox, set_dependencies_outbox,
}

pub record IsRecorded (q : Request) (scope tool : Text) (billable : Bool) (d d' : Database)
    : Type 0 where
  pub scoped : has_scope q.caller scope ≡ true
  pub member : (team : TeamScope) × (team_scope q ≡ ok team)
  pub admitted : revoked q.now q.caller.org_id (some q.caller.user_id) d ≡ false
  pub allowed : (billable && billable_blocked q.warmed) ≡ false
  pub row : d'.usage_outbox ≡ (recorded q tool billable d).usage_outbox

module _ (to_lowercase : Text → Text) (fingerprint : Payload → Text) (q : Request)
    (d : Database) where
  abbrev Recorded : Text → Text → Bool → Result (Reply × Database) → Type 0
  Recorded scope tool billable r =
      (reply : Reply) (d' : Database) → r ≡ ok (reply, d') → IsRecorded q scope tool billable d d'

  metered-Recorded :
      (scope tool : Text) (work : Work)
      → KeepsOutbox work
      → Recorded scope tool false (metered q scope tool work d)
  metered-Recorded scope tool work k reply d' h =
      let (team, o, e) = metered_ok q d scope tool work reply d' h in
      record {
        scoped = o.scoped;
        member = (team, o.teams_known);
        admitted = o.admitted;
        allowed = refl;
        row = k team (tx_of q) (recorded q tool false d) reply d' e;
      }

  completes-Recorded :
      (id : Text) (result : Option Text) (expected : Option ℕ)
      → Recorded jobs_write (codes "complete_job") true (complete_job_tool q id result expected d)
  unfolding complete_job_tool complete_job_work
  completes-Recorded id result expected reply d' h =
      let (o, e, h1) = >>=-eq-ok (open_call q jobs_write d) _ h in
      let (d1, e1, h2) = >>=-eq-ok (charge_completed q d) _ h1 in
      let op = open_call_ok q d jobs_write o.0 o.1 e in
      let (free, same) = charge_completed_ok q d d1 e1 in
      record {
        scoped = op.scoped;
        member = (o.0, op.teams_known);
        admitted = op.admitted;
        allowed = free;
        row = then_job _ d1 _ reply d' h2 ∙ ap (λ (x : Database). x.usage_outbox) same;
      }

  keyed_row :
      (a : AddJobArgs) (key : Text) (team : TeamScope) (tx : Tx) (reply : Reply) (d' : Database)
      → keyed_work to_lowercase fingerprint q a key team tx d ≡ ok (reply, d')
      → d'.usage_outbox ≡ (recorded q (codes "add_job") false d).usage_outbox
  unfolding keyed_work
  keyed_row a key team tx reply d' h =
      let (repo, e, h1) = >>=-eq-ok (repo_for_write to_lowercase tx team a.repo a.remote d) _ h in
      let (u, e1, h2) = >>=-eq-ok (ensure_jobs_visible tx team a.depends_on d.queue) _ h1 in
      let (found, e2, h3) =
        >>=-eq-ok (find_replayed_job fingerprint tx (new_job q a repo.id) (some key) d.queue) _
          h2 in
      after_lookup repo.id found h3
    where
      after_lookup :
          (repo_id : ℕ) (found : Option Job)
          → elim found [
            | some existing ↦
                (seen_replay (get_job_visible tx existing.id team d.queue)
                  >> (record_replayed q (codes "add_job") d >>= λ (d1 : Database).
                      ok (job_out existing, d1)))
            | none ↦
                (charge_call q (codes "add_job") d >>= λ (d1 : Database).
                job_reply d1 (add_job fingerprint tx (new_job q a repo_id) (some key) d1.queue))
          ]
            ≡ ok (reply, d')
          → d'.usage_outbox ≡ (recorded q (codes "add_job") false d).usage_outbox
      after_lookup repo_id (some existing) g =
          let (u, e, g1) =
            >>=-eq-ok (seen_replay (get_job_visible tx existing.id team d.queue)) _ g in
          let (d1, e1, g2) = >>=-eq-ok (record_replayed q (codes "add_job") d) _ g1 in
          let same : d'.usage_outbox ≡ d1.usage_outbox = ground arith in
          same
          ∙ ap (λ (x : Database). x.usage_outbox) (record_replayed_ok q d (codes "add_job") d1 e1)
      after_lookup repo_id none g =
          let (d1, e1, g1) = >>=-eq-ok (charge_call q (codes "add_job") d) _ g in
          let (job, s', e2, e3) =
            job_reply_ok d1 (add_job fingerprint tx (new_job q a repo_id) (some key) d1.queue) reply
              d' g1 in
          ap (λ (x : Database). x.usage_outbox) e3
          ∙ ap (λ (x : Database). x.usage_outbox) (charge_call_ok q d (codes "add_job") d1 e1)

  add_outbox : (a : AddJobArgs) → KeepsOutbox (add_job_work to_lowercase fingerprint q a)
  unfolding add_job_work
  add_outbox a team tx d1 reply d' h =
      let (repo, e, h1) = >>=-eq-ok (repo_for_write to_lowercase tx team a.repo a.remote d1) _ h in
      then_job (ensure_jobs_visible tx team a.depends_on d1.queue) d1
        (add_job fingerprint tx (new_job q a repo.id) none d1.queue) reply d' h1

  adds-Recorded :
      (a : AddJobArgs)
      → Recorded jobs_write (codes "add_job") false (add_job_tool to_lowercase fingerprint q a d)
  unfolding add_job_tool
  adds-Recorded a reply d' h = elim (Option-cases a.idempotency_key) [
    | inl e ↦
        metered-Recorded jobs_write (codes "add_job") (add_job_work to_lowercase fingerprint q a)
          (add_outbox a) reply d' (rw (e, add_job_tool) at h)
    | inr (key, e) ↦
        let (o, e1, h1) = >>=-eq-ok (open_call q jobs_write d) _ (rw (e, add_job_tool) at h) in
        let op = open_call_ok q d jobs_write o.0 o.1 e1 in
        record {
          scoped = op.scoped;
          member = (o.0, op.teams_known);
          admitted = op.admitted;
          allowed = refl;
          row = keyed_row a key o.0 o.1 reply d' h1;
        }
  ]

  lists-Recorded :
      (a : ListJobsArgs)
      → Recorded jobs_read (codes "list_jobs") false (list_jobs_tool to_lowercase q a d)
  unfolding list_jobs_tool list_jobs_work
  lists-Recorded a reply d' h =
      let (u, e, h1) = >>=-eq-ok (require_scope q.caller jobs_read) _ h in
      let (status, e1, h2) = >>=-eq-ok (parse_status a.status) _ h1 in
      metered-Recorded jobs_read (codes "list_jobs") (list_jobs_work to_lowercase q status a)
        (λ team tx d1. then_reply _ d1 _) reply d' h2

  -- A tool on jobs is answered only when the token has the scope that the tool asks for, the platform
  -- knows the caller as a member and gives its teams, neither the org nor the member has been removed,
  -- and, for complete_job, the platform had not blocked the org. The call then has one row more in the
  -- outbox, under the tool's name, of the caller and its org: it is billable, on the completed-jobs
  -- meter, for complete_job, and free for any other tool, a replay included.
  pub perform-IsRecorded :
      (call : ToolCall) (reply : Reply) (d' : Database)
      → perform to_lowercase fingerprint q call d ≡ ok (reply, d')
      → IsRecorded q (scope_of call) (tool_name call) (is_completing call) d d'
  unfolding perform get_job_tool update_job_tool delete_job_tool claim_jobs_tool renew_claim_tool
      fail_job_tool request_cancel_tool cancel_job_tool activate_job_tool repend_job_tool
      set_dependencies_tool ready_tool blocked_tool stats_tool link_ticket_tool get_job_work
      ready_work blocked_work stats_work renew_claim_work fail_job_work activate_job_work
      repend_job_work link_ticket_work
  perform-IsRecorded (call_add a) = adds-Recorded a
  perform-IsRecorded (call_get id) =
      metered-Recorded jobs_read (codes "get_job") (get_job_work id)
        (λ team tx d1. then_reply _ d1 _)
  perform-IsRecorded (call_list a) = lists-Recorded a
  perform-IsRecorded (call_update id a) =
      metered-Recorded jobs_write (codes "update_job") (update_job_work id a) (update_outbox id a)
  perform-IsRecorded (call_delete id) =
      metered-Recorded jobs_write (codes "delete_job") (delete_job_work id) (delete_outbox id)
  perform-IsRecorded (call_claim ids agent ttl) =
      metered-Recorded jobs_write (codes "claim_jobs")
        (claim_jobs_work q.caller.user_id ids agent ttl)
        (claim_outbox q.caller.user_id ids agent ttl)
  perform-IsRecorded (call_renew id ttl expected) =
      metered-Recorded jobs_write (codes "renew_claim")
        (renew_claim_work q.caller.user_id id ttl expected) (λ team tx d1. then_job _ d1 _)
  perform-IsRecorded (call_complete id result expected) = completes-Recorded id result expected
  perform-IsRecorded (call_fail id error expected) =
      metered-Recorded jobs_write (codes "fail_job")
        (fail_job_work q.caller.user_id id error expected) (λ team tx d1. then_job _ d1 _)
  perform-IsRecorded (call_request_cancel id reason) =
      metered-Recorded jobs_write (codes "request_cancel") (request_cancel_work q id reason)
        (request_cancel_outbox q id reason)
  perform-IsRecorded (call_cancel id remark expected) =
      metered-Recorded jobs_write (codes "cancel_job") (cancel_job_work q id remark expected)
        (cancel_outbox q id remark expected)
  perform-IsRecorded (call_activate id) =
      metered-Recorded jobs_write (codes "activate_job") (activate_job_work id)
        (λ team tx d1. then_job _ d1 _)
  perform-IsRecorded (call_repend id) =
      metered-Recorded jobs_write (codes "repend_job") (repend_job_work id)
        (λ team tx d1. then_job _ d1 _)
  perform-IsRecorded (call_set_dependencies id add remove) =
      metered-Recorded jobs_write (codes "set_dependencies") (set_dependencies_work id add remove)
        (set_dependencies_outbox id add remove)
  perform-IsRecorded (call_ready a agent_type) =
      metered-Recorded jobs_read (codes "ready") (ready_work to_lowercase a agent_type)
        (λ team tx d1. then_reply _ d1 _)
  perform-IsRecorded (call_blocked a) =
      metered-Recorded jobs_read (codes "blocked") (blocked_work to_lowercase a)
        (λ team tx d1. then_reply _ d1 _)
  perform-IsRecorded (call_stats a) =
      metered-Recorded jobs_read (codes "stats") (stats_work to_lowercase a)
        (λ team tx d1. then_reply _ d1 _)
  perform-IsRecorded (call_link id tracker ticket) =
      metered-Recorded trackers (codes "link_ticket") (link_ticket_work id tracker ticket)
        (λ team tx d1. then_job _ d1 _)
