-- ===== src/Lifecycle/CleanUp.antt =====
-- What each part of a clean-up does to the rows of one org and to its tombstone.
use otto_factory.Billing.Outbox.{UsageRow}
use otto_factory.Common.{
  Bool, Bool-cases, List, [], arith, false, inl, inr, refl, true, ℕ, ◌++◌, ◌==◌, ◌∙◌, ◌∷◌, ◌≡◌,
}
use otto_factory.Common.Text.{Text}
use otto_factory.Jobs.Create.{Payload}
use otto_factory.Leases.{Lease, release}
use otto_factory.Lifecycle.{
  AuditEntry, Cursor, Database, Delivery, OrgRow, RemovedMember, Session, audit_if, first_delivery,
  give_back, is_cursor_of, is_delivery, is_held_job, is_held_lease, is_session_of, purge,
  release_member,
}
use otto_factory.Lifecycle.Gone.{IsGone, exists-kept}
use otto_factory.Lifecycle.Requests.{
  Work, acquires, meters, queues, releases, renews, signs_in, work, work_all,
}
use otto_factory.Store.{RepoRemote, Dependency, Job, Message, OrgCounters, Repo, Tx}
use otto_factory.Table.{delete_where, exists_where}

pub exists-deleted {ℓ} :
    {A : Type ℓ} (p : A → Bool) (t : List A) → exists_where p (delete_where p t) ≡ false
unfolding exists_where delete_where
exists-deleted p [] = refl
exists-deleted p (x ∷ xs) = ground (arith, exists-deleted p xs)

pub exists-fewer {ℓ} :
    {A : Type ℓ} (p q : A → Bool) (t : List A)
    → exists_where p t ≡ false
    → exists_where p (delete_where q t) ≡ false
unfolding exists_where delete_where
exists-fewer p q [] h = refl
exists-fewer p q (x ∷ xs) h = ground (arith, exists-fewer p q xs)

pub purge-IsGone : (o : ℕ) (d : Database) → IsGone o (purge o d)
unfolding purge
purge-IsGone o d = record {
  jobs = exists-deleted (λ (r : Job). r.org_id == o) d.queue.jobs;
  dependencies = exists-deleted (λ (r : Dependency). r.org_id == o) d.queue.job_dependencies;
  counters = exists-deleted (λ (r : OrgCounters). r.org_id == o) d.queue.org_counters;
  repos = exists-deleted (λ (r : Repo). r.org_id == o) d.queue.repos;
  messages = exists-deleted (λ (r : Message). r.org_id == o) d.queue.messages;
  leases = exists-deleted (λ (r : Lease). r.org_id == o) d.leases;
  cursors = exists-deleted (λ (r : Cursor). r.org_id == o) d.cursors;
  usage = exists-deleted (λ (r : UsageRow). r.org_id == o) d.usage_outbox;
  sessions = exists-deleted (λ (r : Session). r.org_id == o) d.sessions;
  bindings = exists-deleted (λ (r : OrgRow). r.org_id == o) d.tracker_bindings;
  index = exists-deleted (λ (r : OrgRow). r.org_id == o) d.tracker_connection_index;
  connections = exists-deleted (λ (r : OrgRow). r.org_id == o) d.tracker_connections;
  remotes = exists-deleted (λ (r : RepoRemote). r.org_id == o) d.repo_remotes;
}

module _ (o : ℕ) where
  pub purge_other-IsGone : (org : ℕ) (d : Database) → IsGone o d → IsGone o (purge org d)
  unfolding purge
  purge_other-IsGone org d g = record {
    jobs =
        exists-fewer (λ (r : Job). r.org_id == o) (λ (r : Job). r.org_id == org) d.queue.jobs
          g.jobs;
    dependencies =
        exists-fewer (λ (r : Dependency). r.org_id == o) (λ (r : Dependency). r.org_id == org)
          d.queue.job_dependencies g.dependencies;
    counters =
        exists-fewer (λ (r : OrgCounters). r.org_id == o) (λ (r : OrgCounters). r.org_id == org)
          d.queue.org_counters g.counters;
    repos =
        exists-fewer (λ (r : Repo). r.org_id == o) (λ (r : Repo). r.org_id == org) d.queue.repos
          g.repos;
    messages =
        exists-fewer (λ (r : Message). r.org_id == o) (λ (r : Message). r.org_id == org)
          d.queue.messages g.messages;
    leases =
        exists-fewer (λ (r : Lease). r.org_id == o) (λ (r : Lease). r.org_id == org) d.leases
          g.leases;
    cursors =
        exists-fewer (λ (r : Cursor). r.org_id == o) (λ (r : Cursor). r.org_id == org) d.cursors
          g.cursors;
    usage =
        exists-fewer (λ (r : UsageRow). r.org_id == o) (λ (r : UsageRow). r.org_id == org)
          d.usage_outbox g.usage;
    sessions =
        exists-fewer (λ (r : Session). r.org_id == o) (λ (r : Session). r.org_id == org) d.sessions
          g.sessions;
    bindings =
        exists-fewer (λ (r : OrgRow). r.org_id == o) (λ (r : OrgRow). r.org_id == org)
          d.tracker_bindings g.bindings;
    index =
        exists-fewer (λ (r : OrgRow). r.org_id == o) (λ (r : OrgRow). r.org_id == org)
          d.tracker_connection_index g.index;
    connections =
        exists-fewer (λ (r : OrgRow). r.org_id == o) (λ (r : OrgRow). r.org_id == org)
          d.tracker_connections g.connections;
    remotes =
        exists-fewer (λ (r : RepoRemote). r.org_id == o) (λ (r : RepoRemote). r.org_id == org)
          d.repo_remotes g.remotes;
  }

  -- The audit trail, the events and the tombstones are no part of it.
  pub beside-IsGone :
      (d : Database) (audit : List AuditEntry) (events : List Delivery) (orgs : List ℕ)
      (members : List RemovedMember)
      → IsGone o d
      → IsGone o (record d {
        audit_events = audit;
        platform_events = events;
        deleted_orgs = orgs;
        removed_members = members;
      })
  beside-IsGone d audit events orgs members g = record {
    jobs = g.jobs;
    dependencies = g.dependencies;
    counters = g.counters;
    repos = g.repos;
    messages = g.messages;
    leases = g.leases;
    cursors = g.cursors;
    usage = g.usage;
    sessions = g.sessions;
    bindings = g.bindings;
    index = g.index;
    connections = g.connections;
    remotes = g.remotes;
  }

  pub release_member-IsGone :
      (tx : Tx) (user : ℕ) (d : Database) → IsGone o d → IsGone o (release_member tx user d)
  unfolding release_member give_back release
  release_member-IsGone tx user d g = record {
    jobs =
        exists-kept (λ (r : Job). r.org_id == o) (is_held_job tx.org user) give_back d.queue.jobs
          (λ x. refl)
        ∙ g.jobs;
    dependencies = g.dependencies;
    counters = g.counters;
    repos = g.repos;
    messages = g.messages;
    leases =
        exists-kept (λ (r : Lease). r.org_id == o) (is_held_lease tx.org user) (release tx) d.leases
          (λ x. refl)
        ∙ g.leases;
    cursors =
        exists-fewer (λ (r : Cursor). r.org_id == o) (is_cursor_of tx.org user) d.cursors g.cursors;
    usage = g.usage;
    sessions =
        exists-fewer (λ (r : Session). r.org_id == o) (is_session_of tx.org user) d.sessions
          g.sessions;
    bindings = g.bindings;
    index = g.index;
    connections = g.connections;
    remotes = g.remotes;
  }

  pub delivered-IsGone :
      (now event org : ℕ) (kind : Text) (d : Database)
      → IsGone o d
      → IsGone o (first_delivery now event org kind d).1
  unfolding first_delivery
  delivered-IsGone now event org kind d g =
      elim (Bool-cases (exists_where (is_delivery event) d.platform_events)) [
        | inl y ↦ rw y g
        | inr n ↦ rw n (
            beside-IsGone d d.audit_events
              (d.platform_events
                ++ record { event_id = event; org_id = org; kind = kind; received_at = now } ∷ [])
              d.deleted_orgs d.removed_members g)
      ]

  pub audited-IsGone :
      (first : Bool) (entry : AuditEntry) (d : Database)
      → IsGone o d
      → IsGone o (audit_if first entry d)
  unfolding audit_if
  audited-IsGone true entry d g =
      beside-IsGone d (d.audit_events ++ entry ∷ []) d.platform_events d.deleted_orgs
        d.removed_members g
  audited-IsGone false entry d g = g

-- The tombstone stands through everything but its own statement.
pub delivered-orgs :
    (now event org : ℕ) (kind : Text) (d : Database)
    → (first_delivery now event org kind d).1.deleted_orgs ≡ d.deleted_orgs
unfolding first_delivery
delivered-orgs now event org kind d = ground arith

pub audited-orgs :
    (first : Bool) (entry : AuditEntry) (d : Database)
    → (audit_if first entry d).deleted_orgs ≡ d.deleted_orgs
unfolding audit_if
audited-orgs true entry d = refl
audited-orgs false entry d = refl

worked_one-orgs :
    (fingerprint : Payload → Text) (tx : Tx) (w : Work) (d : Database)
    → (work fingerprint tx w d).deleted_orgs ≡ d.deleted_orgs
unfolding work
worked_one-orgs fingerprint tx (queues c) d = refl
worked_one-orgs fingerprint tx (acquires fresh repo resource holder label job ttl) d = refl
worked_one-orgs fingerprint tx (renews lease holder ttl) d = refl
worked_one-orgs fingerprint tx (releases lease holder) d = refl
worked_one-orgs fingerprint tx (meters id event user tool billable metered) d = refl
worked_one-orgs fingerprint tx (signs_in id_hash user secrets expires_at) d = refl

pub worked-orgs :
    (fingerprint : Payload → Text) (tx : Tx) (ws : List Work) (d : Database)
    → (work_all fingerprint tx ws d).deleted_orgs ≡ d.deleted_orgs
unfolding work_all
worked-orgs fingerprint tx [] d = refl
worked-orgs fingerprint tx (w ∷ ws) d =
    worked-orgs fingerprint tx ws (work fingerprint tx w d) ∙ worked_one-orgs fingerprint tx w d
