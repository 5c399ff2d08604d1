-- ===== src/Tools/Calls.antt =====
-- The tools on jobs as one function of the call: `Factory::jobs_router`, less sync_ticket.
use otto_factory.Common.{Bool, List, Option, false, true, ℕ}
use otto_factory.Common.Int.{ℤ}
use otto_factory.Common.Text.{Text, codes}
use otto_factory.Error.{Result, err, ok}
use otto_factory.Jobs.Create.{Payload}
use otto_factory.Lifecycle.{Database}
use otto_factory.Scopes.{jobs_read, jobs_write, trackers}
use otto_factory.Store.{Tracker}
use otto_factory.Tools.{Reply, Request}
use otto_factory.Tools.Adds.{AddJobArgs, add_job_tool}
use otto_factory.Tools.Reads.{
  ListJobsArgs, RepoScopeArgs, blocked_tool, get_job_tool, list_jobs_tool, ready_tool, stats_tool,
}
use otto_factory.Tools.Writes.{
  UpdateJobArgs, activate_job_tool, cancel_job_tool, claim_jobs_tool, complete_job_tool,
  delete_job_tool, fail_job_tool, link_ticket_tool, renew_claim_tool, repend_job_tool,
  request_cancel_tool, set_dependencies_tool, update_job_tool,
}

pub data ToolCall : Type 0 where
  call_add : AddJobArgs → ToolCall
  call_get : Text → ToolCall
  call_list : ListJobsArgs → ToolCall
  call_update : Text → UpdateJobArgs → ToolCall
  call_delete : Text → ToolCall
  call_claim : List Text → Option Text → Option ℤ → ToolCall
  call_renew : Text → Option ℤ → Option ℕ → ToolCall
  call_complete : Text → Option Text → Option ℕ → ToolCall
  call_fail : Text → Option Text → Option ℕ → ToolCall
  call_request_cancel : Text → Option Text → ToolCall
  call_cancel : Text → Option Text → Option ℕ → ToolCall
  call_activate : Text → ToolCall
  call_repend : Text → ToolCall
  call_set_dependencies : Text → List Text → List Text → ToolCall
  call_ready : RepoScopeArgs → Option Text → ToolCall
  call_blocked : RepoScopeArgs → ToolCall
  call_stats : RepoScopeArgs → ToolCall
  call_link : Text → Tracker → Text → ToolCall

abbrev pub tool_name : ToolCall → Text
tool_name (call_add a) = codes "add_job"
tool_name (call_get id) = codes "get_job"
tool_name (call_list a) = codes "list_jobs"
tool_name (call_update id a) = codes "update_job"
tool_name (call_delete id) = codes "delete_job"
tool_name (call_claim ids agent ttl) = codes "claim_jobs"
tool_name (call_renew id ttl expected) = codes "renew_claim"
tool_name (call_complete id result expected) = codes "complete_job"
tool_name (call_fail id error expected) = codes "fail_job"
tool_name (call_request_cancel id reason) = codes "request_cancel"
tool_name (call_cancel id remark expected) = codes "cancel_job"
tool_name (call_activate id) = codes "activate_job"
tool_name (call_repend id) = codes "repend_job"
tool_name (call_set_dependencies id add remove) = codes "set_dependencies"
tool_name (call_ready a agent_type) = codes "ready"
tool_name (call_blocked a) = codes "blocked"
tool_name (call_stats a) = codes "stats"
tool_name (call_link id tracker ticket) = codes "link_ticket"

-- The scope that each tool asks for.
abbrev pub scope_of : ToolCall → Text
scope_of (call_get id) = jobs_read
scope_of (call_list a) = jobs_read
scope_of (call_ready a agent_type) = jobs_read
scope_of (call_blocked a) = jobs_read
scope_of (call_stats a) = jobs_read
scope_of (call_link id tracker ticket) = trackers
scope_of _ = jobs_write

abbrev pub is_completing : ToolCall → Bool
is_completing (call_complete id result expected) = true
is_completing _ = false

module _ (to_lowercase : Text → Text) (fingerprint : Payload → Text) where
  unfoldable pub perform : Request → ToolCall → Database → Result (Reply × Database)
  perform q (call_add a) d = add_job_tool to_lowercase fingerprint q a d
  perform q (call_get id) d = get_job_tool q id d
  perform q (call_list a) d = list_jobs_tool to_lowercase q a d
  perform q (call_update id a) d = update_job_tool q id a d
  perform q (call_delete id) d = delete_job_tool q id d
  perform q (call_claim ids agent ttl) d = claim_jobs_tool q ids agent ttl d
  perform q (call_renew id ttl expected) d = renew_claim_tool q id ttl expected d
  perform q (call_complete id result expected) d = complete_job_tool q id result expected d
  perform q (call_fail id error expected) d = fail_job_tool q id error expected d
  perform q (call_request_cancel id reason) d = request_cancel_tool q id reason d
  perform q (call_cancel id remark expected) d = cancel_job_tool q id remark expected d
  perform q (call_activate id) d = activate_job_tool q id d
  perform q (call_repend id) d = repend_job_tool q id d
  perform q (call_set_dependencies id add remove) d = set_dependencies_tool q id add remove d
  perform q (call_ready a agent_type) d = ready_tool to_lowercase q a agent_type d
  perform q (call_blocked a) d = blocked_tool to_lowercase q a d
  perform q (call_stats a) d = stats_tool to_lowercase q a d
  perform q (call_link id tracker ticket) d = link_ticket_tool q id tracker ticket d

  -- The database after a call: a refused one is rolled back.
  unfoldable pub after_call : Request → ToolCall → Database → Database
  unfolding perform
  after_call q call d = elim (perform q call d) [ ok (reply, d') ↦ d' | err e ↦ d ]
