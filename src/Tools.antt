-- ===== src/Tools.antt =====
-- crates/of-mcp/src/server.rs, auth.rs and tools/mod.rs: what each MCP tool does around its work. A call
-- is refused, and its transaction rolled back, or answered, with the database as the commit leaves it.
-- The platform's answers, the transaction's time and the ids of a new usage row are arguments.

pub mod Writes
pub mod Hidden
pub mod Effects
pub mod Calls
pub mod Opening
pub mod Contained
pub mod Inserted
pub mod Unseen
pub mod Outbox
pub mod Recorded
pub mod Adds
pub mod Reads
use otto_factory.Billing.Meter.{
  BillingError, Charged, Warmed, blocked, charge, charge_completion, charged, db, record_replay,
  refused,
}
use otto_factory.Billing.Outbox.{UsageRow}
use otto_factory.Common.{
  Bool, List, Option, [], false, none, not, some, true, ℕ, ◌&&◌, ◌++◌, ◌∷◌, ◌||◌,
}
use otto_factory.Common.Lists.{any}
use otto_factory.Common.Text.{Text, text_eq}
use otto_factory.Error.{
  Error, Result, access_revoked, billing_refused, cycle, dependency_cycle, err, guard,
  linked_elsewhere, missing_scope, ok, ok_or, redacted, remote_elsewhere, remote_taken,
  ticket_already_linked, ◌>>=◌, ◌>>◌,
}
use otto_factory.Jobs.Query.{Stats}
use otto_factory.Jobs.Visible.{get_job_visible_held, is_shown, visible_job_ids}
use otto_factory.Lifecycle.{AuditDetail, Database, begin_live, labelled, on_job}
use otto_factory.Repos.{Registry, RepoRef, named, resolve_repo_visible, resolve_repo_visible_held}
use otto_factory.Store.{Job, Repo, Store, Tx}
use otto_factory.Table.{select_where}
use otto_factory.Teams.{TeamInfo, TeamScope, for_member, is_all}

-- auth.rs, `Principal`: what a tool reads of it.
pub record Principal : Type 0 where
  pub user_id : ℕ
  pub org_id : ℕ
  pub scopes : List Text

unfoldable pub has_scope : Principal → Text → Bool
has_scope caller scope = any (λ s. text_eq s scope) caller.scopes

unfoldable pub require_scope : Principal → Text → Result (Unit {0})
unfolding has_scope
require_scope caller scope = guard (has_scope caller scope) (missing_scope scope)

-- A call: who makes it, at what time its transaction opens, the ids that the database gives its usage
-- row, and what the platform answers: whether the caller is a member and administers the org, the
-- caller's teams, and the billing status that was looked up before.
pub record Request : Type 0 where
  pub caller : Principal
  pub now : ℕ
  pub usage_id : ℕ
  pub event_id : ℕ
  pub platform_member : ℕ → ℕ → Result (Option Bool)
  pub platform_member_teams : ℕ → ℕ → Result (Option (List TeamInfo))
  pub warmed : Warmed

unfoldable pub team_scope : Request → Result TeamScope
team_scope q = do
  member ← q.platform_member q.caller.org_id q.caller.user_id
  administers ← ok_or member access_revoked
  for_member q.platform_member_teams q.caller.org_id q.caller.user_id administers

unfoldable pub open_tx : Request → Database → Result Tx
open_tx q d = begin_live q.now q.caller.org_id (some q.caller.user_id) d

abbrev pub from_billing : BillingError → Error
from_billing (blocked reason) = billing_refused reason
from_billing db = Error.db

abbrev pub as_recorded : Database → Charged → Result Database
as_recorded d (charged billable t) = ok (record d { usage_outbox = t })
as_recorded d (refused e) = err (from_billing e)

unfoldable pub charge_call : Request → Text → Database → Result Database
charge_call q tool d =
    as_recorded d
      (charge q.now q.usage_id q.event_id q.caller.org_id q.caller.user_id tool d.usage_outbox)

unfoldable pub charge_completed : Request → Database → Result Database
charge_completed q d = as_recorded d (
    charge_completion q.now q.usage_id q.event_id q.caller.org_id q.caller.user_id q.warmed
      d.usage_outbox)

unfoldable pub record_replayed : Request → Text → Database → Result Database
record_replayed q tool d =
    as_recorded d (
      record_replay q.now q.usage_id q.event_id q.caller.org_id q.caller.user_id tool
        d.usage_outbox)

-- tools/mod.rs.
abbrev pub registry_of : Database → Registry
registry_of d = record { repos = d.queue.repos; remotes = d.repo_remotes }

-- Each in turn, its repo held; the first that is not visible refuses.
unfoldable pub ensure_each : Tx → TeamScope → List Text → Store → Result (Unit {0})
ensure_each tx team [] s = ok tt
ensure_each tx team (id ∷ rest) s = do
  job ← get_job_visible_held tx id team s
  ensure_each tx team rest s

unfoldable pub ensure_jobs_visible : Tx → TeamScope → List Text → Store → Result (Unit {0})
unfolding ensure_each
ensure_jobs_visible tx team ids s = elim (is_all team) [
  | true ↦ ok tt
  | false ↦ ensure_each tx team ids s
]

unfoldable pub retain_visible : Tx → TeamScope → List Job → Store → List Job
retain_visible tx team jobs s = select_where (λ j. is_all team || is_shown tx team s j) jobs

unfoldable pub visible_ids : Tx → TeamScope → List Text → Store → List Text
visible_ids tx team ids s = elim (is_all team) [
  | true ↦ ids
  | false ↦ visible_job_ids tx ids team s
]

abbrev pub without_ids : Error → Error
without_ids (ticket_already_linked ticket holder) = redacted linked_elsewhere
without_ids (remote_taken remote owner) = redacted remote_elsewhere
without_ids (dependency_cycle a b) = redacted cycle
without_ids e = e

unfoldable pub redact_foreign_ids : TeamScope → Error → Error
redact_foreign_ids team e = elim (is_all team) [ true ↦ e | false ↦ without_ids e ]

-- `.map_err(|e| redact_foreign_ids(&team, e))`.
abbrev pub redacting {ℓ} : {A : Type ℓ} → TeamScope → Result A → Result A
redacting team (ok a) = ok a
redacting team (err e) = err (redact_foreign_ids team e)

module _ (to_lowercase : Text → Text) where
  unfoldable pub repo_of : Tx → TeamScope → Option Text → Option Text → Database → Result Repo
  repo_of tx team slug remote d =
      resolve_repo_visible to_lowercase tx (record { slug = slug; remote = remote }) team
        (registry_of d)

  unfoldable pub repo_for_write :
      Tx → TeamScope → Option Text → Option Text → Database → Result Repo
  repo_for_write tx team slug remote d =
      resolve_repo_visible_held to_lowercase tx (record { slug = slug; remote = remote }) team
        (registry_of d)

  abbrev pub is_named : Option Text → Bool
  is_named none = false
  is_named (some t) = true

  unfoldable pub maybe_repo_of :
      Tx → TeamScope → Option Text → Option Text → Database → Result (Option ℕ)
  unfolding repo_of
  maybe_repo_of tx team slug remote d = elim (is_named (named slug) || is_named (named remote)) [
    | false ↦ ok none
    | true ↦ do repo ← repo_of tx team slug remote d; ok (some repo.id)
  ]

-- `tx.audit`, on a job.
abbrev pub audit_job : Tx → Request → Text → Text → AuditDetail → Database → Database
audit_job tx q action id detail d = record d {
  audit_events =
      d.audit_events
      ++ record {
        org_id = tx.org;
        action = action;
        actor = some q.caller.user_id;
        target = on_job id;
        detail = detail;
      }
        ∷ [];
}

-- What opens a tool: the scope that the token must have, the caller's teams, the transaction.
unfoldable pub open_call : Request → Text → Database → Result (TeamScope × Tx)
unfolding require_scope team_scope open_tx
open_call q scope d = do
  require_scope q.caller scope
  team ← team_scope q
  tx ← open_tx q d
  ok (team, tx)

-- tools/out.rs: what a tool gives back.
pub data Reply : Type 0 where
  job_out : Job → Reply
  jobs_out : List Job → Reply
  deleted_out : Text → Reply
  dependencies_out : Text → List Text → Reply
  stats_out : Stats → Reply

-- What a tool does between the record of the call and the commit.
abbrev pub Work : Type 0
Work = TeamScope → Tx → Database → Result (Reply × Database)

-- A tool that is recorded before its work; what it gives back is with the database at the commit.
unfoldable pub metered : Request → Text → Text → Work → Database → Result (Reply × Database)
unfolding open_call charge_call
metered q scope tool work d = do
  (team, tx) ← open_call q scope d
  d1 ← charge_call q tool d
  work team tx d1

-- Work on the queue alone.
abbrev pub job_reply : Database → Result (Job × Store) → Result (Reply × Database)
job_reply d (ok (j, s)) = ok (job_out j, record d { queue = s })
job_reply d (err e) = err e

abbrev pub jobs_reply : Database → Result (List Job × Store) → Result (Reply × Database)
jobs_reply d (ok (js, s)) = ok (jobs_out js, record d { queue = s })
jobs_reply d (err e) = err e
