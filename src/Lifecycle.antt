-- ===== src/Lifecycle.antt =====
-- crates/of-core/src/platform_events.rs: what the platform's lifecycle webhooks do to the tables, and the check that
-- opens every tenant transaction. Times are in microseconds. A table that only a purge touches here is
-- a list of rows with their org.
pub mod Requests
pub mod Gone
pub mod CleanUp
pub mod Purge
pub mod Member
pub mod Redelivery
use otto_factory.Billing.Outbox.{DeadLetter, UsageRow}
use otto_factory.Common.{
  Bool, List, Option, [], false, if◌then◌else◌, is_id, ltb, none, some, true, ℕ, ◌&&◌, ◌*◌, ◌++◌,
  ◌+◌, ◌==◌, ◌∷◌, ◌||◌,
}
use otto_factory.Common.Text.{Text, codes}
use otto_factory.Error.{Result, access_revoked, err, ok, pending}
use otto_factory.Jobs.Row.{is_claimed}
use otto_factory.Leases.{Lease, release}
pub use otto_factory.Messages.{Cursor}
use otto_factory.Store.{RepoRemote, Dependency, Job, Message, OrgCounters, Repo, Store, Tx, secs}
use otto_factory.Table.{count_where, delete_where, exists_where, update_where}

-- The columns of console_sessions that decide who is signed in where; `secrets` are the sealed tokens.
pub record Session : Type 0 where
  pub id_hash : Text
  pub user_id : ℕ
  pub org_id : ℕ
  pub secrets : Text
  pub expires_at : ℕ

pub record OrgRow : Type 0 where
  pub org_id : ℕ
  pub content : Text

pub data AuditTarget : Type 0 where
  on_team on_user : ℕ → AuditTarget
  on_job : Text → AuditTarget

-- The JSON object of an entry: counts of rows, or one text under a name.
pub data AuditDetail : Type 0 where
  counts : List ℕ → AuditDetail
  labelled : Text → Option Text → AuditDetail

pub record AuditEntry : Type 0 where
  pub org_id : ℕ
  pub action : Text
  pub actor : Option ℕ
  pub target : AuditTarget
  pub detail : AuditDetail

-- A row of platform_events.
pub record Delivery : Type 0 where
  pub event_id : ℕ
  pub org_id : ℕ
  pub kind : Text
  pub received_at : ℕ

pub record RemovedMember : Type 0 where
  pub org_id : ℕ
  pub user_id : ℕ
  pub removed_at : ℕ

pub record Database : Type 0 where
  pub queue : Store
  pub leases : List Lease
  pub cursors : List Cursor
  pub usage_outbox : List UsageRow
  pub usage_outbox_rejected : List DeadLetter
  pub sessions : List Session
  pub tracker_bindings : List OrgRow
  pub tracker_connection_index : List OrgRow
  pub tracker_connections : List OrgRow
  pub repo_remotes : List RepoRemote
  pub audit_events : List AuditEntry
  pub platform_events : List Delivery
  pub deleted_orgs : List ℕ
  pub removed_members : List RemovedMember

abbrev pub removed_member_ttl_secs : ℕ
removed_member_ttl_secs = 300

abbrev pub org_is : ℕ → ℕ → Bool
org_is org o = o == org

unfoldable pub is_tombstoned : ℕ → Database → Bool
is_tombstoned org db = exists_where (org_is org) db.deleted_orgs

-- `removed_at > now() - make_interval(secs => 300)`.
unfoldable pub is_just_removed : ℕ → ℕ → Option ℕ → RemovedMember → Bool
is_just_removed now org user m =
    m.org_id == org && is_id user m.user_id && ltb now (m.removed_at + secs removed_member_ttl_secs)

unfoldable pub revoked : ℕ → ℕ → Option ℕ → Database → Bool
unfolding is_tombstoned is_just_removed
revoked now org user db =
    is_tombstoned org db || exists_where (is_just_removed now org user) db.removed_members

unfoldable pub begin_live : ℕ → ℕ → Option ℕ → Database → Result Tx
unfolding revoked
begin_live now org user db =
    if revoked now org user db then err access_revoked else ok (record { org = org; now = now })

-- `days` of 24 hours, in microseconds.
abbrev pub days : ℕ → ℕ
days n = n * 86400000000

unfoldable pub is_old_event : ℕ → ℕ → Delivery → Bool
is_old_event now keep_days d = ltb (d.received_at + days keep_days) now

unfoldable pub is_old_tombstone : ℕ → RemovedMember → Bool
is_old_tombstone now m = ltb (m.removed_at + secs (removed_member_ttl_secs * 2)) now

unfoldable pub sweep : ℕ → ℕ → Database → ℕ × Database
unfolding is_old_event is_old_tombstone
sweep now keep_days db = (
  count_where (is_old_event now keep_days) db.platform_events
      + count_where (is_old_tombstone now) db.removed_members,
  record db {
    platform_events = delete_where (is_old_event now keep_days) db.platform_events;
    removed_members = delete_where (is_old_tombstone now) db.removed_members;
  },
)

pub data LifecycleEvent : Type 0 where
  org_deleted : ℕ → LifecycleEvent
  team_deleted : ℕ → ℕ → LifecycleEvent
  member_removed : ℕ → ℕ → LifecycleEvent
  unknown : Text → LifecycleEvent

pub data Outcome : Type 0 where
  applied : List ℕ → Outcome
  duplicate ignored : Outcome

abbrev pub is_delivery : ℕ → Delivery → Bool
is_delivery event d = d.event_id == event

-- `ON CONFLICT (event_id) DO NOTHING`, and whether a row was inserted.
unfoldable pub first_delivery : ℕ → ℕ → ℕ → Text → Database → Bool × Database
first_delivery now event org kind db =
    if exists_where (is_delivery event) db.platform_events then (false, db) else (
      true,
      record db {
        platform_events =
            db.platform_events
            ++ record { event_id = event; org_id = org; kind = kind; received_at = now } ∷ [];
      },
    )

unfoldable pub tombstone_org : ℕ → Database → Database
tombstone_org org db =
    if exists_where (org_is org) db.deleted_orgs
    then db
    else record db { deleted_orgs = db.deleted_orgs ++ org ∷ [] }

unfoldable pub purge_queue : ℕ → Store → Store
purge_queue org s = record {
  jobs = delete_where (λ (r : Job). r.org_id == org) s.jobs;
  job_dependencies = delete_where (λ (r : Dependency). r.org_id == org) s.job_dependencies;
  org_counters = delete_where (λ (r : OrgCounters). r.org_id == org) s.org_counters;
  repos = delete_where (λ (r : Repo). r.org_id == org) s.repos;
  messages = delete_where (λ (r : Message). r.org_id == org) s.messages;
}

-- The DELETE of each table, and of the audit trail.
unfoldable pub purge : ℕ → Database → Database
unfolding purge_queue
purge org db = record db {
  queue = purge_queue org db.queue;
  leases = delete_where (λ (r : Lease). r.org_id == org) db.leases;
  cursors = delete_where (λ (r : Cursor). r.org_id == org) db.cursors;
  usage_outbox = delete_where (λ (r : UsageRow). r.org_id == org) db.usage_outbox;
  sessions = delete_where (λ (r : Session). r.org_id == org) db.sessions;
  tracker_bindings = delete_where (λ (r : OrgRow). r.org_id == org) db.tracker_bindings;
  tracker_connection_index =
      delete_where (λ (r : OrgRow). r.org_id == org) db.tracker_connection_index;
  tracker_connections = delete_where (λ (r : OrgRow). r.org_id == org) db.tracker_connections;
  repo_remotes = delete_where (λ (r : RepoRemote). r.org_id == org) db.repo_remotes;
  audit_events = delete_where (λ (r : AuditEntry). r.org_id == org) db.audit_events;
}

-- The rows deleted, in the order of the statements, the audit trail last.
unfoldable pub purged_rows : ℕ → Database → List ℕ
purged_rows org db =
    count_where (λ (r : Message). r.org_id == org) db.queue.messages
    ∷ count_where (λ (r : Cursor). r.org_id == org) db.cursors
    ∷ count_where (λ (r : OrgRow). r.org_id == org) db.tracker_bindings
    ∷ count_where (λ (r : OrgRow). r.org_id == org) db.tracker_connection_index
    ∷ count_where (λ (r : OrgRow). r.org_id == org) db.tracker_connections
    ∷ count_where (λ (r : Lease). r.org_id == org) db.leases
    ∷ count_where (λ (r : Dependency). r.org_id == org) db.queue.job_dependencies
    ∷ count_where (λ (r : Job). r.org_id == org) db.queue.jobs
    ∷ count_where (λ (r : RepoRemote). r.org_id == org) db.repo_remotes
    ∷ count_where (λ (r : Repo). r.org_id == org) db.queue.repos
    ∷ count_where (λ (r : OrgCounters). r.org_id == org) db.queue.org_counters
    ∷ count_where (λ (r : UsageRow). r.org_id == org) db.usage_outbox
    ∷ count_where (λ (r : Session). r.org_id == org) db.sessions
    ∷ count_where (λ (r : AuditEntry). r.org_id == org) db.audit_events
    ∷ []

abbrev pub outcome_of : Bool → List ℕ → Outcome
outcome_of true detail = applied detail
outcome_of false detail = duplicate

-- What follows the tombstone, under the exclusive lock.
unfoldable pub purge_org : ℕ → ℕ → ℕ → Database → Outcome × Database
unfolding purge first_delivery
purge_org now event org db =
    let (first, marked) = first_delivery now event org (codes "org.deleted") db in
    (outcome_of first (purged_rows org db), purge org marked)

unfoldable pub delete_org : ℕ → ℕ → ℕ → Database → Outcome × Database
unfolding purge_org tombstone_org
delete_org now event org db = purge_org now event org (tombstone_org org db)

-- `tx.audit`, which is called on a first delivery.
unfoldable pub audit_if : Bool → AuditEntry → Database → Database
audit_if true entry db = record db { audit_events = db.audit_events ++ entry ∷ [] }
audit_if false entry db = db

unfoldable pub orphaned : ℕ → ℕ → Database → List ℕ
orphaned org team db =
    count_where (λ (r : Repo). r.org_id == org && is_id r.team_id team) db.queue.repos
    ∷ count_where (λ (r : Job). r.org_id == org && is_id r.team_id team) db.queue.jobs
    ∷ count_where (λ (r : Message). r.org_id == org && is_id r.team_id team) db.queue.messages
    ∷ []

unfoldable pub delete_team : ℕ → ℕ → ℕ → ℕ → Database → Outcome × Database
unfolding first_delivery audit_if
delete_team now event org team db =
    let (first, marked) = first_delivery now event org (codes "team.deleted") db in
    let detail = orphaned org team db in
    let entry : AuditEntry = record {
      org_id = org;
      action = codes "platform.team.deleted";
      actor = none;
      target = on_team team;
      detail = counts (detail);
    } in
    (outcome_of first detail, audit_if first entry marked)

abbrev pub is_member : ℕ → ℕ → RemovedMember → Bool
is_member org user m = m.org_id == org && m.user_id == user

-- `ON CONFLICT (org_id, user_id) DO UPDATE SET removed_at = now()`.
unfoldable pub tombstone_member : ℕ → ℕ → ℕ → Database → Database
tombstone_member now org user db = record db {
  removed_members =
      if exists_where (is_member org user) db.removed_members
      then update_where (is_member org user) (λ m. record m { removed_at = now }) db.removed_members
      else db.removed_members ++ record { org_id = org; user_id = user; removed_at = now } ∷ [];
}

unfoldable pub is_held_lease : ℕ → ℕ → Lease → Bool
is_held_lease org user l =
    l.org_id == org && l.holder_user_id == user && is_unreleased l.released_at
  where
    is_unreleased : Option ℕ → Bool
    is_unreleased none = true
    is_unreleased (some _) = false

unfoldable pub is_held_job : ℕ → ℕ → Job → Bool
is_held_job org user j = j.org_id == org && is_id j.claimed_by user && is_claimed j.status

unfoldable pub give_back : Job → Job
give_back j = record j {
  status = pending;
  claimed_by = none;
  claimed_by_label = none;
  started_at = none;
  claim_expires_at = none;
  cancel_requested_at = none;
  cancel_requested_by = none;
  cancel_reason = none;
}

unfoldable pub is_cursor_of : ℕ → ℕ → Cursor → Bool
is_cursor_of org user c = c.org_id == org && c.user_id == user

-- console_sessions.rs, `delete_for_user`.
unfoldable pub is_session_of : ℕ → ℕ → Session → Bool
is_session_of org user s = s.org_id == org && s.user_id == user

unfoldable pub release_member : Tx → ℕ → Database → Database
unfolding is_held_lease is_held_job give_back is_cursor_of is_session_of
release_member tx user db = record db {
  leases = update_where (is_held_lease tx.org user) (release tx) db.leases;
  queue = record db.queue { jobs = update_where (is_held_job tx.org user) give_back db.queue.jobs };
  cursors = delete_where (is_cursor_of tx.org user) db.cursors;
  sessions = delete_where (is_session_of tx.org user) db.sessions;
}

unfoldable pub released_rows : ℕ → ℕ → Database → List ℕ
released_rows org user db =
    count_where (is_held_lease org user) db.leases
    ∷ count_where (is_held_job org user) db.queue.jobs
    ∷ count_where (is_cursor_of org user) db.cursors
    ∷ count_where (is_session_of org user) db.sessions
    ∷ []

-- What follows the tombstone, under the exclusive lock.
unfoldable pub clear_member : ℕ → ℕ → ℕ → ℕ → Database → Outcome × Database
unfolding first_delivery release_member audit_if
clear_member now event org user db =
    let (first, marked) = first_delivery now event org (codes "member.removed") db in
    let detail = released_rows org user db in
    let entry : AuditEntry = record {
      org_id = org;
      action = codes "platform.member.removed";
      actor = none;
      target = on_user user;
      detail = counts (detail);
    } in
    (
      outcome_of first detail,
      audit_if first entry (release_member (record { org = org; now = now }) user marked),
    )

unfoldable pub remove_member : ℕ → ℕ → ℕ → ℕ → Database → Outcome × Database
unfolding clear_member tombstone_member
remove_member now event org user db =
    clear_member now event org user (tombstone_member now org user db)

unfoldable pub apply : ℕ → ℕ → LifecycleEvent → Database → Outcome × Database
unfolding delete_org delete_team remove_member
apply now event (org_deleted org) db = delete_org now event org db
apply now event (team_deleted org team) db = delete_team now event org team db
apply now event (member_removed org user) db = remove_member now event org user db
apply now event (unknown kind) db = (ignored, db)
