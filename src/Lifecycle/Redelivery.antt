-- ===== src/Lifecycle/Redelivery.antt =====
-- A delivery that comes again, at once or later, and what the clean-ups do then.
use otto_factory.Billing.Agreement.{exists-append}
use otto_factory.Billing.Outbox.{UsageRow}
use otto_factory.Common.{
  none, Bool, Bool-cases, List, [], arith, false, inl, inr, refl, true, ℕ, ◌+◌, ◌==◌, ◌∙◌, ◌∷◌, ◌≡◌,
}
use otto_factory.Common.Text.{Text, codes}
use otto_factory.Leases.{Lease, release}
use otto_factory.Lifecycle.{
  on_team, on_user, counts, AuditEntry, Cursor, Database, LifecycleEvent, OrgRow, Outcome, Session,
  apply, audit_if, delete_org, delete_team, duplicate, RemovedMember, member_removed, unknown,
  ignored, released_rows, removed_member_ttl_secs, remove_member, clear_member, release_member,
  is_held_lease, is_held_job, give_back, is_cursor_of, is_session_of, tombstone_member,
  first_delivery, is_delivery, org_deleted, org_is, orphaned, purge, purge_org, purge_queue,
  team_deleted, tombstone_org,
}
use otto_factory.Lifecycle.Member.{IsReleased, removed-IsReleased}
use otto_factory.Store.{RepoRemote, Dependency, Job, Message, OrgCounters, Repo, Store, secs}
use otto_factory.Table.{delete_where, exists_where, update_where}

delete-again {ℓ} :
    {A : Type ℓ} (p : A → Bool) (t : List A) → delete_where p (delete_where p t) ≡ delete_where p t
unfolding delete_where
delete-again p [] = refl
delete-again p (x ∷ xs) = elim (Bool-cases (p x)) [
  | inl y ↦ rw y (delete-again p xs)
  | inr n ↦ rw (n, n, delete-again p xs) refl
]

purge_queue-again : (org : ℕ) (s : Store) → purge_queue org (purge_queue org s) ≡ purge_queue org s
unfolding purge_queue
purge_queue-again org s =
    rw
      (
        delete-again (λ (r : Job). r.org_id == org) s.jobs,
        delete-again (λ (r : Dependency). r.org_id == org) s.job_dependencies,
        delete-again (λ (r : OrgCounters). r.org_id == org) s.org_counters,
        delete-again (λ (r : Repo). r.org_id == org) s.repos,
        delete-again (λ (r : Message). r.org_id == org) s.messages,
      )
      refl

purge-again : (org : ℕ) (d : Database) → purge org (purge org d) ≡ purge org d
unfolding purge
purge-again org d =
    rw
      (
        purge_queue-again org d.queue,
        delete-again (λ (r : Lease). r.org_id == org) d.leases,
        delete-again (λ (r : Cursor). r.org_id == org) d.cursors,
        delete-again (λ (r : UsageRow). r.org_id == org) d.usage_outbox,
        delete-again (λ (r : Session). r.org_id == org) d.sessions,
        delete-again (λ (r : OrgRow). r.org_id == org) d.tracker_bindings,
        delete-again (λ (r : OrgRow). r.org_id == org) d.tracker_connection_index,
        delete-again (λ (r : OrgRow). r.org_id == org) d.tracker_connections,
        delete-again (λ (r : RepoRemote). r.org_id == org) d.repo_remotes,
        delete-again (λ (r : AuditEntry). r.org_id == org) d.audit_events,
      )
      refl

tombstone-again :
    (org : ℕ) (d : Database)
    → exists_where (org_is org) d.deleted_orgs ≡ true
    → tombstone_org org d ≡ d
unfolding tombstone_org
tombstone-again org d h = rw h refl

delivery-again :
    (now event org : ℕ) (kind : Text) (d : Database)
    → exists_where (is_delivery event) d.platform_events ≡ true
    → first_delivery now event org kind d ≡ (false, d)
unfolding first_delivery
delivery-again now event org kind d h = rw h refl

tombstoned :
    (org : ℕ) (d : Database) → exists_where (org_is org) (tombstone_org org d).deleted_orgs ≡ true
unfolding tombstone_org
tombstoned org d = elim (Bool-cases (exists_where (org_is org) d.deleted_orgs)) [
  | inl y ↦ rw y y
  | inr n ↦
      rw n
        (exists-append (org_is org) d.deleted_orgs (org ∷ []) ∙ unfold exists_where in ground arith)
]

-- After a delivery its marker is there, and the tombstones are as before.
delivered :
    (now event org : ℕ) (kind : Text) (d : Database)
    → (exists_where (is_delivery event) (first_delivery now event org kind d).1.platform_events
        ≡ true)
      × ((first_delivery now event org kind d).1.deleted_orgs ≡ d.deleted_orgs)
unfolding first_delivery
delivered now event org kind d =
    elim (Bool-cases (exists_where (is_delivery event) d.platform_events)) [
      | inl y ↦ rw y (y, refl)
      | inr n ↦ rw n (
        exists-append (is_delivery event) d.platform_events
              (record { event_id = event; org_id = org; kind = kind; received_at = now } ∷ [])
            ∙ unfold exists_where in ground arith,
        refl,
      )
    ]

purged_tables :
    (org : ℕ) (d : Database)
    → ((purge org d).platform_events ≡ d.platform_events)
      × ((purge org d).deleted_orgs ≡ d.deleted_orgs)
unfolding purge
purged_tables org d = (refl, refl)

delete_org-again :
    (later event org : ℕ) (m : Database)
    → exists_where (org_is org) m.deleted_orgs ≡ true
    → exists_where (is_delivery event) m.platform_events ≡ true
    → delete_org later event org (purge org m) ≡ (duplicate, purge org m)
unfolding delete_org purge_org
delete_org-again later event org m h k =
    let p = purge org m in
    let held : tombstone_org org p ≡ p = tombstone-again org p (rw (purged_tables org m).1 h) in
    let marked : first_delivery later event org (codes "org.deleted") p ≡ (false, p) =
      delivery-again later event org (codes "org.deleted") p (rw (purged_tables org m).0 k) in
    rw (held, marked, purge-again org m) refl

delete_team-again :
    (later event org team : ℕ) (d : Database)
    → exists_where (is_delivery event) d.platform_events ≡ true
    → delete_team later event org team d ≡ (duplicate, d)
unfolding delete_team audit_if
delete_team-again later event org team d h =
    rw (delivery-again later event org (codes "team.deleted") d h) refl

audited_deliveries :
    (first : Bool) (entry : AuditEntry) (d : Database)
    → (audit_if first entry d).platform_events ≡ d.platform_events
unfolding audit_if
audited_deliveries true entry d = refl
audited_deliveries false entry d = refl

update-none {ℓ} :
    {A : Type ℓ} (p : A → Bool) (f : A → A) (t : List A)
    → exists_where p t ≡ false
    → update_where p f t ≡ t
unfolding update_where exists_where
update-none p f [] h = refl
update-none p f (x ∷ xs) h = elim (Bool-cases (p x)) [
  | inl y ↦ absurd (ground (arith, y, h))
  | inr n ↦ rw (n, update-none p f xs (ground (arith, h, n))) refl
]

delete-none {ℓ} :
    {A : Type ℓ} (p : A → Bool) (t : List A) → exists_where p t ≡ false → delete_where p t ≡ t
unfolding delete_where exists_where
delete-none p [] h = refl
delete-none p (x ∷ xs) h = elim (Bool-cases (p x)) [
  | inl y ↦ absurd (ground (arith, y, h))
  | inr n ↦ rw (n, delete-none p xs (ground (arith, h, n))) refl
]

release_member-none :
    (now org user until : ℕ) (d : Database)
    → IsReleased org user until d
    → (m : List RemovedMember)
    → release_member (record { org = org; now = now }) user (record d { removed_members = m })
      ≡ record d { removed_members = m }
unfolding release_member
release_member-none now org user until d v m =
    rw
      (
        update-none (is_held_lease org user) (release (record { org = org; now = now })) d.leases
            v.no_leases,
        update-none (is_held_job org user) give_back d.queue.jobs v.no_claims,
        delete-none (is_cursor_of org user) d.cursors v.no_cursors,
        delete-none (is_session_of org user) d.sessions v.no_sessions,
      )
      refl

-- A removal of a member who holds nothing, under a marker that is there, writes the tombstone alone.
remove_member-again :
    (later event org user until : ℕ) (d : Database)
    → IsReleased org user until d
    → exists_where (is_delivery event) d.platform_events ≡ true
    → remove_member later event org user d ≡ (duplicate, tombstone_member later org user d)
unfolding remove_member clear_member audit_if tombstone_member
remove_member-again later event org user until d v h =
    let renewed = (tombstone_member later org user d).removed_members in
    let marked : first_delivery later event org (codes "member.removed")
          (record d { removed_members = renewed })
        ≡ (false, record d { removed_members = renewed }) =
      delivery-again later event org (codes "member.removed")
        (record d { removed_members = renewed }) h in
    rw (marked, release_member-none later org user until d v renewed) refl

-- What a delivery that comes again writes: a removed member's tombstone is renewed.
abbrev pub renewed : ℕ → LifecycleEvent → Database → Database
renewed later (org_deleted org) d = d
renewed later (team_deleted org team) d = d
renewed later (member_removed org user) d = tombstone_member later org user d
renewed later (unknown kind) d = d

abbrev pub outcome_again : LifecycleEvent → Outcome
outcome_again (org_deleted org) = duplicate
outcome_again (team_deleted org team) = duplicate
outcome_again (member_removed org user) = duplicate
outcome_again (unknown kind) = ignored

cleared_deliveries :
    (now event org user : ℕ) (d : Database)
    → (clear_member now event org user d).1.platform_events
      ≡ (first_delivery now event org (codes "member.removed") d).1.platform_events
unfolding clear_member release_member
cleared_deliveries now event org user d =
    let (first, marked) = first_delivery now event org (codes "member.removed") d in
    audited_deliveries first
      (record {
        org_id = org;
        action = codes "platform.member.removed";
        actor = none;
        target = on_user user;
        detail = counts (released_rows org user d);
      })
      (release_member (record { org = org; now = now }) user marked)

apply-at_once :
    (now later event : ℕ) (e : LifecycleEvent) (db : Database)
    → apply later event e (apply now event e db).1
      ≡ (outcome_again e, renewed later e (apply now event e db).1)
unfolding apply
apply-at_once now later event (org_deleted org) db =
    let t = tombstone_org org db in
    let kind = codes "org.deleted" in
    let m = (first_delivery now event org kind t).1 in
    unfold delete_org purge_org in
    delete_org-again later event org m (rw (delivered now event org kind t).1 (tombstoned org db))
      (delivered now event org kind t).0
apply-at_once now later event (team_deleted org team) db =
    let kind = codes "team.deleted" in
    let m = (first_delivery now event org kind db).1 in
    delete_team-again later event org team (delete_team now event org team db).1 (
      unfold delete_team in
      rw
        (audited_deliveries (first_delivery now event org kind db).0
          (record {
            org_id = org;
            action = codes "platform.team.deleted";
            actor = none;
            target = on_team team;
            detail = counts (orphaned org team db);
          })
          m)
        (delivered now event org kind db).0)
apply-at_once now later event (member_removed org user) db =
    let t = tombstone_member now org user db in
    remove_member-again later event org user (now + secs removed_member_ttl_secs)
      (remove_member now event org user db).1 (removed-IsReleased now event org user db)
      (unfold remove_member in
        rw (cleared_deliveries now event org user t)
          (delivered now event org (codes "member.removed") t).0)
apply-at_once now later event (unknown kind) db = refl

tombstoned_deliveries :
    (org : ℕ) (d : Database) → (tombstone_org org d).platform_events ≡ d.platform_events
unfolding tombstone_org
tombstoned_deliveries org d = elim (Bool-cases (exists_where (org_is org) d.deleted_orgs)) [
  | inl y ↦ rw y refl
  | inr n ↦ rw n refl
]

-- The clean-up of an event, with no entry in the audit trail and no marker.
abbrev pub cleaned : ℕ → LifecycleEvent → Database → Database
cleaned later (org_deleted org) d = purge org (tombstone_org org d)
cleaned later (team_deleted org team) d = d
cleaned later (member_removed org user) d =
    release_member (record { org = org; now = later }) user (tombstone_member later org user d)
cleaned later (unknown kind) d = d

apply-marked :
    (later event : ℕ) (e : LifecycleEvent) (d : Database)
    → exists_where (is_delivery event) d.platform_events ≡ true
    → apply later event e d ≡ (outcome_again e, cleaned later e d)
unfolding apply delete_org purge_org delete_team remove_member clear_member audit_if
    tombstone_member
apply-marked later event (org_deleted org) d h =
    let marked =
      delivery-again later event org (codes "org.deleted") (tombstone_org org d)
        (rw (tombstoned_deliveries org d) h) in
    rw marked refl
apply-marked later event (team_deleted org team) d h =
    rw (delivery-again later event org (codes "team.deleted") d h) refl
apply-marked later event (member_removed org user) d h =
    let marked =
      delivery-again later event org (codes "member.removed")
        (record d { removed_members = (tombstone_member later org user d).removed_members }) h in
    rw marked refl
apply-marked later event (unknown kind) d h = refl

-- Whatever has been done to the database, a delivery that comes when its marker is there, which sweep takes away
-- with age, is answered as a duplicate, or ignored if it is of an unknown kind. It writes no entry in the audit
-- trail and no marker, and runs the clean-up of the event again on what is there by then. If nothing at all has
-- been done since its first application, every table stays as it is but that the tombstone of a removed member
-- starts anew.
pub apply-again :
    (now later event : ℕ) (e : LifecycleEvent) (db d : Database)
    → exists_where (is_delivery event) d.platform_events ≡ true
    → (apply later event e d ≡ (outcome_again e, cleaned later e d))
      × (apply later event e (apply now event e db).1
          ≡ (outcome_again e, renewed later e (apply now event e db).1))
apply-again now later event e db d h =
    (apply-marked later event e d h, apply-at_once now later event e db)
