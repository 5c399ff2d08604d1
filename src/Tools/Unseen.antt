-- ===== src/Tools/Unseen.antt =====
-- The tools on jobs together, and the jobs that a caller on some teams does not see.
use otto_factory.Common.{
  List, Option, Option-cases, ap, arith, false, inl, inr, none, refl, some, subst, sym, true, ℕ,
  ◌∙◌, ◌≡◌, ◌≤◌,
}
use otto_factory.Common.Text.{Text, codes}
use otto_factory.Error.{Result, ok, ◌>>=◌, ◌>>◌}
use otto_factory.Error.Laws.{Result-cases, >>=-eq-ok}
use otto_factory.Jobs.Cancel.{is_repo}
use otto_factory.Jobs.Create.{Payload, add_job, find_replayed_job}
use otto_factory.Jobs.Invariant.{IsConsistent}
use otto_factory.Jobs.Visible.{get_job_visible}
use otto_factory.Lifecycle.{Database}
use otto_factory.Scopes.{jobs_read, jobs_write, trackers}
use otto_factory.Store.{Job, Tx}
use otto_factory.Table.{count_where}
use otto_factory.Teams.{TeamScope, teams}
use otto_factory.Tools.{
  Reply, Request, Work, charge_call, job_out, charge_completed, ensure_jobs_visible, job_reply,
  maybe_repo_of, metered, open_call, record_replayed, repo_for_write, require_scope, team_scope,
}
use otto_factory.Tools.Adds.{
  AddJobArgs, add_job_tool, add_job_work, keyed_work, new_job, seen_replay,
}
use otto_factory.Tools.Calls.{
  ToolCall, after_call, call_activate, call_add, call_blocked, call_cancel, call_claim,
  call_complete, call_delete, call_fail, call_get, call_link, call_list, call_ready, call_renew,
  call_repend, call_request_cancel, call_set_dependencies, call_stats, call_update, perform,
}
use otto_factory.Tools.Contained.{
  Kept, KeptBy, activate_work, cancel_work, claim_work, complete_work, delete_work, fail_work,
  job_reply_ok, link_work, renew_work, repend_work, request_cancel_work_kept, set_dependencies_kept,
  update_work,
}
use otto_factory.Tools.Hidden.{IsContained, same-IsContained}
use otto_factory.Tools.Opening.{
  Opened, charge_call_ok, charge_completed_ok, metered_ok, open_call_ok, record_replayed_ok,
  recorded, tx_of,
}
use otto_factory.Tools.Reads.{
  ListJobsArgs, blocked_tool, blocked_work, get_job_tool, get_job_work, list_jobs_tool,
  list_jobs_work, parse_status, ready_tool, ready_work, stats_tool, stats_work,
}
use otto_factory.Tools.Writes.{
  activate_job_tool, activate_job_work, cancel_job_tool, cancel_job_work, claim_jobs_tool,
  claim_jobs_work, complete_job_tool, complete_job_work, delete_job_tool, delete_job_work,
  fail_job_tool, fail_job_work, link_ticket_tool, link_ticket_work, renew_claim_tool,
  renew_claim_work, repend_job_tool, repend_job_work, request_cancel_tool, request_cancel_work,
  set_dependencies_tool, set_dependencies_work, update_job_tool, update_job_work,
}
use otto_factory.Tools.Inserted.{add_job-IsContained}

module _ (to_lowercase : Text → Text) (fingerprint : Payload → Text) (q : Request) (mine : List ℕ)
    (d : Database) (v : IsConsistent d.queue)
    (repo_keys : (id : ℕ) → count_where (is_repo q.caller.org_id id) d.queue.repos ≤ 1)
    (known : team_scope q ≡ ok (teams mine)) where
  abbrev Safe : Result (Reply × Database) → Type 0
  Safe r = (reply : Reply) (d' : Database) → r ≡ ok (reply, d') → Kept q mine d v repo_keys d'

  same_teams :
      (scope : Text) (team : TeamScope) (tx : Tx) → Opened q scope d team tx → team ≡ teams mine
  same_teams scope team tx o = ground (arith, known, o.teams_known)

  metered-Safe :
      (scope tool : Text) (work : Work)
      → KeptBy q mine d v repo_keys tool false work
      → Safe (metered q scope tool work d)
  metered-Safe scope tool work k reply d' h =
      let (team, o, e) = metered_ok q d scope tool work reply d' h in
      k reply d' (
        ap (λ (t : TeamScope). work t (tx_of q) (recorded q tool false d))
          (sym (same_teams scope team (tx_of q) o))
        ∙ e)

  -- A tool that reads leaves the queue as it was.
  read-Kept :
      {A : Type 0} (tool : Text) (r : Result A) (give : A → Result (Reply × Database))
      → ((a : A) (reply : Reply) (d' : Database) → give a ≡ ok (reply, d') → d'.queue ≡ d.queue)
      → (reply : Reply) (d' : Database) → (r >>= give) ≡ ok (reply, d')
      → Kept q mine d v repo_keys d'
  read-Kept tool r give k reply d' h =
      let (a, e, h1) = >>=-eq-ok r give h in
      subst (IsContained (tx_of q) mine d.queue) (sym (k a reply d' h1))
        (same-IsContained (tx_of q) mine d.queue)

  add_kept :
      (a : AddJobArgs)
      → KeptBy q mine d v repo_keys
          (codes "add_job")
          false
          (add_job_work to_lowercase fingerprint q a)
  unfolding add_job_work
  add_kept a reply d' h =
      let d1 = recorded q (codes "add_job") false d in
      let (repo, e, h1) =
        >>=-eq-ok (repo_for_write to_lowercase (tx_of q) (teams mine) a.repo a.remote d1) _ h in
      let (u, e1, h2) =
        >>=-eq-ok (ensure_jobs_visible (tx_of q) (teams mine) a.depends_on d.queue) _ h1 in
      let (job, s', e2, e3) =
        job_reply_ok d1 (add_job fingerprint (tx_of q) (new_job q a repo.id) none d.queue) reply d'
          h2 in
      subst (Kept q mine d v repo_keys) (sym e3) (
        add_job-IsContained (tx_of q) mine fingerprint (new_job q a repo.id) none d.queue s' job e2)

  keyed-Kept :
      (a : AddJobArgs) (key : Text) (reply : Reply) (d' : Database)
      → keyed_work to_lowercase fingerprint q a key (teams mine) (tx_of q) d ≡ ok (reply, d')
      → Kept q mine d v repo_keys d'
  unfolding keyed_work
  keyed-Kept a key reply d' h =
      let (repo, e, h1) =
        >>=-eq-ok (repo_for_write to_lowercase (tx_of q) (teams mine) a.repo a.remote d) _ h in
      let (u, e1, h2) =
        >>=-eq-ok (ensure_jobs_visible (tx_of q) (teams mine) a.depends_on d.queue) _ h1 in
      let (found, e2, h3) =
        >>=-eq-ok (find_replayed_job fingerprint (tx_of q) (new_job q a repo.id) (some key) d.queue)
          _ h2 in
      after_lookup repo.id found h3
    where
      after_lookup :
          (repo_id : ℕ) (found : Option Job)
          → elim found [
            | some existing ↦
                (seen_replay (get_job_visible (tx_of q) existing.id (teams mine) d.queue)
                  >> (record_replayed q (codes "add_job") d >>= λ (d1 : Database).
                      ok (job_out existing, d1)))
            | none ↦
                (charge_call q (codes "add_job") d >>= λ (d1 : Database).
                job_reply d1
                  (add_job fingerprint (tx_of q) (new_job q a repo_id) (some key) d1.queue))
          ]
            ≡ ok (reply, d')
          → Kept q mine d v repo_keys d'
      after_lookup repo_id (some existing) g =
          let (u, e, g1) =
            >>=-eq-ok (seen_replay (get_job_visible (tx_of q) existing.id (teams mine) d.queue)) _
              g in
          let (d1, e1, g2) = >>=-eq-ok (record_replayed q (codes "add_job") d) _ g1 in
          subst (IsContained (tx_of q) mine d.queue)
            (sym (ap (λ (x : Database). x.queue) (record_replayed_ok q d (codes "add_job") d1 e1))
              ∙ ground arith)
            (same-IsContained (tx_of q) mine d.queue)
      after_lookup repo_id none g =
          let (d1, e1, g1) = >>=-eq-ok (charge_call q (codes "add_job") d) _ g in
          let (job, s', e2, e3) =
            job_reply_ok d1
              (add_job fingerprint (tx_of q) (new_job q a repo_id) (some key) d1.queue) reply d'
              g1 in
          let same : d1.queue ≡ d.queue =
            ap (λ (x : Database). x.queue) (charge_call_ok q d (codes "add_job") d1 e1) in
          subst (Kept q mine d v repo_keys) (sym e3) (
            add_job-IsContained (tx_of q) mine fingerprint (new_job q a repo_id) (some key) d.queue
              s' job
              (ap (add_job fingerprint (tx_of q) (new_job q a repo_id) (some key)) (sym same) ∙ e2))

  adds-Safe : (a : AddJobArgs) → Safe (add_job_tool to_lowercase fingerprint q a d)
  unfolding add_job_tool
  adds-Safe a reply d' h = elim (Option-cases a.idempotency_key) [
    | inl e ↦
        metered-Safe jobs_write (codes "add_job") (add_job_work to_lowercase fingerprint q a)
          (add_kept a) reply d' (rw (e, add_job_tool) at h)
    | inr (key, e) ↦
        let (o, e1, h1) = >>=-eq-ok (open_call q jobs_write d) _ (rw (e, add_job_tool) at h) in
        let op = open_call_ok q d jobs_write o.0 o.1 e1 in
        keyed-Kept a key reply d' (
          sym (λ i.
            keyed_work to_lowercase fingerprint q a key (same_teams jobs_write o.0 o.1 op i)
              (op.opened i) d)
          ∙ h1)
  ]

  completes-Safe :
      (id : Text) (result : Option Text) (expected : Option ℕ)
      → Safe (complete_job_tool q id result expected d)
  unfolding complete_job_tool
  completes-Safe id result expected reply d' h =
      let (o, e, h1) = >>=-eq-ok (open_call q jobs_write d) _ h in
      let (d1, e1, h2) = >>=-eq-ok (charge_completed q d) _ h1 in
      let op = open_call_ok q d jobs_write o.0 o.1 e in
      complete_work q mine d v repo_keys (codes "complete_job") true id result expected reply d' (
        sym (λ i.
          complete_job_work q.caller.user_id id result expected (same_teams jobs_write o.0 o.1 op i)
            (op.opened i) ((charge_completed_ok q d d1 e1).1 i))
        ∙ h2)

  lists-Safe : (a : ListJobsArgs) → Safe (list_jobs_tool to_lowercase q a d)
  unfolding list_jobs_tool list_jobs_work
  lists-Safe a reply d' h =
      let (u, e, h1) = >>=-eq-ok (require_scope q.caller jobs_read) _ h in
      let (status, e1, h2) = >>=-eq-ok (parse_status a.status) _ h1 in
      metered-Safe jobs_read (codes "list_jobs") (list_jobs_work to_lowercase q status a)
        (read-Kept (codes "list_jobs")
          (maybe_repo_of to_lowercase (tx_of q) (teams mine) a.scope.repo a.scope.remote
            (recorded q (codes "list_jobs") false d))
          _ (λ r reply d' h. ground arith))
        reply d' h2

  perform-Safe : (call : ToolCall) → Safe (perform to_lowercase fingerprint q call d)
  unfolding perform get_job_tool update_job_tool delete_job_tool claim_jobs_tool renew_claim_tool
      fail_job_tool request_cancel_tool cancel_job_tool activate_job_tool repend_job_tool
      set_dependencies_tool ready_tool blocked_tool stats_tool link_ticket_tool get_job_work
      ready_work blocked_work stats_work
  perform-Safe (call_add a) = adds-Safe a
  perform-Safe (call_get id) = metered-Safe jobs_read (codes "get_job") (get_job_work id) (
      read-Kept (codes "get_job") (get_job_visible (tx_of q) id (teams mine) d.queue) _
        (λ a reply d' h. ground arith))
  perform-Safe (call_list a) = lists-Safe a
  perform-Safe (call_update id a) =
      metered-Safe jobs_write (codes "update_job") (update_job_work id a)
        (update_work q mine d v repo_keys (codes "update_job") false id a)
  perform-Safe (call_delete id) =
      metered-Safe jobs_write (codes "delete_job") (delete_job_work id)
        (delete_work q mine d v repo_keys (codes "delete_job") false id)
  perform-Safe (call_claim ids agent ttl) =
      metered-Safe jobs_write (codes "claim_jobs") (claim_jobs_work q.caller.user_id ids agent ttl)
        (claim_work q mine d v repo_keys (codes "claim_jobs") false ids agent ttl)
  perform-Safe (call_renew id ttl expected) =
      metered-Safe jobs_write (codes "renew_claim")
        (renew_claim_work q.caller.user_id id ttl expected)
        (renew_work q mine d v repo_keys (codes "renew_claim") false id ttl expected)
  perform-Safe (call_complete id result expected) = completes-Safe id result expected
  perform-Safe (call_fail id error expected) =
      metered-Safe jobs_write (codes "fail_job") (fail_job_work q.caller.user_id id error expected)
        (fail_work q mine d v repo_keys (codes "fail_job") false id error expected)
  perform-Safe (call_request_cancel id reason) =
      metered-Safe jobs_write (codes "request_cancel") (request_cancel_work q id reason)
        (request_cancel_work_kept q mine d v repo_keys (codes "request_cancel") false id reason)
  perform-Safe (call_cancel id remark expected) =
      metered-Safe jobs_write (codes "cancel_job") (cancel_job_work q id remark expected)
        (cancel_work q mine d v repo_keys (codes "cancel_job") false id remark expected)
  perform-Safe (call_activate id) =
      metered-Safe jobs_write (codes "activate_job") (activate_job_work id)
        (activate_work q mine d v repo_keys (codes "activate_job") false id)
  perform-Safe (call_repend id) =
      metered-Safe jobs_write (codes "repend_job") (repend_job_work id)
        (repend_work q mine d v repo_keys (codes "repend_job") false id)
  perform-Safe (call_set_dependencies id add remove) =
      metered-Safe jobs_write (codes "set_dependencies") (set_dependencies_work id add remove)
        (set_dependencies_kept q mine d v repo_keys (codes "set_dependencies") false id add remove)
  perform-Safe (call_ready a agent_type) =
      metered-Safe jobs_read (codes "ready") (ready_work to_lowercase a agent_type) (
        read-Kept (codes "ready")
          (maybe_repo_of to_lowercase (tx_of q) (teams mine) a.repo a.remote
            (recorded q (codes "ready") false d))
          _ (λ r reply d' h. ground arith))
  perform-Safe (call_blocked a) =
      metered-Safe jobs_read (codes "blocked") (blocked_work to_lowercase a) (
        read-Kept (codes "blocked")
          (maybe_repo_of to_lowercase (tx_of q) (teams mine) a.repo a.remote
            (recorded q (codes "blocked") false d))
          _ (λ r reply d' h. ground arith))
  perform-Safe (call_stats a) = metered-Safe jobs_read (codes "stats") (stats_work to_lowercase a) (
      read-Kept (codes "stats")
        (maybe_repo_of to_lowercase (tx_of q) (teams mine) a.repo a.remote
          (recorded q (codes "stats") false d))
        _ (λ r reply d' h. ground arith))
  perform-Safe (call_link id tracker ticket) =
      metered-Safe trackers (codes "link_ticket") (link_ticket_work id tracker ticket)
        (link_work q mine d v repo_keys (codes "link_ticket") false id tracker ticket)

  -- On a database with a consistent queue and repos of distinct ids: a tool on jobs, called by a member
  -- who is held to teams, leaves each job of the org that those teams do not see as it was, in its place
  -- and with its dependencies, and the repos too, whatever the arguments and whether the call succeeds
  -- or fails.
  pub after_call-IsContained :
      (call : ToolCall)
      → IsContained (tx_of q) mine d.queue (after_call to_lowercase fingerprint q call d).queue
  unfolding after_call
  after_call-IsContained call = elim (Result-cases (perform to_lowercase fingerprint q call d)) [
    | inl (r, e) ↦
        subst (IsContained (tx_of q) mine d.queue) (rw (e, after_call) refl)
          (perform-Safe call r.0 r.1 e)
    | inr (e, h) ↦
        subst (IsContained (tx_of q) mine d.queue) (rw (h, after_call) refl)
          (same-IsContained (tx_of q) mine d.queue)
  ]
