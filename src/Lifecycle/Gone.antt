-- ===== src/Lifecycle/Gone.antt =====
-- An org with no row left, and that no work of another org brings one back.
use otto_factory.AgentLabel
use otto_factory.Billing.Outbox.{Metered, UsageRow, enqueue, usage_row}
use otto_factory.Common.{
  Bool, Bool-cases, List, Option, [], ap, arith, false, inl, inr, is_some, leb, none, not, refl,
  some, subst, sym, ℕ, ◌++◌, ◌==◌, ◌∙◌, ◌∷◌, ◌≡◌, ◌≢◌,
}
use otto_factory.Common.Int.{pos, ℤ}
use otto_factory.Common.Lists.{is_empty}
use otto_factory.Common.Text.{Text, byte_len, trim}
use otto_factory.Error.{
  Result, db, empty_resource, err, invalid, lease_not_held, ok, ok_or, too_long,
}
use otto_factory.Error.Laws.{>>=-eq-ok, guard-eq-ok}
use otto_factory.Jobs.Counters.{is_org}
use otto_factory.Jobs.Create.{Payload}
use otto_factory.Jobs.History
use otto_factory.Jobs.Isolation.{IsUntouched}
use otto_factory.Jobs.Row.{in_org_job}
use otto_factory.Jobs.Tenancy.{step-IsUntouched}
use otto_factory.Leases.{
  Lease, acquire_lease, clamp_lease_ttl, extend, insert_lease, is_held_by, is_live_on, is_open_on,
  is_overdue_on, max_resource_len, new_lease, reap_leases, release, release_lease, renew_lease,
  take_lease,
}
use otto_factory.Lifecycle.{Cursor, Database, OrgRow, Session}
use otto_factory.Lifecycle.Requests.{
  Work, acquires, leases_after, meters, queues, released_after, releases, renews, rows_after,
  session_of, signs_in, work, work_all,
}
use otto_factory.Store.{RepoRemote, Dependency, Job, Message, OrgCounters, Repo, Store, Tx}
use otto_factory.Table.{exists_where, fetch_optional, select_where, update_where}
use otto_factory.Table.Rows.{fetch_optional-exists}
use otto_factory.Billing.Agreement.{exists-append}

-- No row of the org in any table that a purge clears, the audit trail aside. The refused usage events, the
-- deliveries and the tombstones are not among those tables.
pub record IsGone (org : ℕ) (db : Database) : Type 0 where
  pub jobs : exists_where (λ (r : Job). r.org_id == org) db.queue.jobs ≡ false
  pub dependencies :
      exists_where (λ (r : Dependency). r.org_id == org) db.queue.job_dependencies ≡ false
  pub counters : exists_where (λ (r : OrgCounters). r.org_id == org) db.queue.org_counters ≡ false
  pub repos : exists_where (λ (r : Repo). r.org_id == org) db.queue.repos ≡ false
  pub messages : exists_where (λ (r : Message). r.org_id == org) db.queue.messages ≡ false
  pub leases : exists_where (λ (r : Lease). r.org_id == org) db.leases ≡ false
  pub cursors : exists_where (λ (r : Cursor). r.org_id == org) db.cursors ≡ false
  pub usage : exists_where (λ (r : UsageRow). r.org_id == org) db.usage_outbox ≡ false
  pub sessions : exists_where (λ (r : Session). r.org_id == org) db.sessions ≡ false
  pub bindings : exists_where (λ (r : OrgRow). r.org_id == org) db.tracker_bindings ≡ false
  pub index : exists_where (λ (r : OrgRow). r.org_id == org) db.tracker_connection_index ≡ false
  pub connections : exists_where (λ (r : OrgRow). r.org_id == org) db.tracker_connections ≡ false
  pub remotes : exists_where (λ (r : RepoRemote). r.org_id == org) db.repo_remotes ≡ false

exists-select {ℓ} :
    {A : Type ℓ} (p : A → Bool) (t : List A) → exists_where p t ≡ not (is_empty (select_where p t))
unfolding exists_where select_where
exists-select p [] = refl
exists-select p (x ∷ xs) = ground (arith, exists-select p xs)

-- Tables that show the same rows under a test.
same-exists {ℓ} :
    {A : Type ℓ} (p : A → Bool) (t t' : List A)
    → select_where p t' ≡ select_where p t
    → exists_where p t' ≡ exists_where p t
same-exists p t t' e = exists-select p t' ∙ ap (λ u. not (is_empty u)) e ∙ sym (exists-select p t)

pub exists-kept {ℓ} :
    {A : Type ℓ} (q p : A → Bool) (f : A → A) (t : List A)
    → ((x : A) → q (f x) ≡ q x)
    → exists_where q (update_where p f t) ≡ exists_where q t
unfolding exists_where update_where
exists-kept q p f [] k = refl
exists-kept q p f (x ∷ xs) k = ground (arith, k x, exists-kept q p f xs k)

module _ (o : ℕ) (tx : Tx) (other : o ≢ tx.org) where
  abbrev of_org : Lease → Bool
  of_org l = l.org_id == o

  released-same :
      (p : Lease → Bool) (t : List Lease)
      → exists_where of_org (update_where p (release tx) t) ≡ exists_where of_org t
  unfolding release
  released-same p t = exists-kept of_org p (release tx) t (λ x. refl)

  renewed-same :
      (lease holder : ℕ) (ttl : Option ℤ) (l : Lease) (t t' : List Lease)
      → renew_lease tx lease holder ttl t ≡ ok (l, t')
      → exists_where of_org t' ≡ exists_where of_org t
  unfolding renew_lease extend
  renewed-same lease holder ttl l t t' h =
      let (found, e, h1) =
        >>=-eq-ok (ok_or (fetch_optional (is_held_by tx lease holder) t) (lease_not_held lease)) _
          h in
      subst (λ u. exists_where of_org u ≡ exists_where of_org t) (ground arith)
        (exists-kept of_org (is_held_by tx lease holder) (extend tx (clamp_lease_ttl ttl)) t
          (λ x. refl))

  inserted-same :
      (repos : List Repo) (w l : Lease) (t t' : List Lease)
      → w.org_id ≡ tx.org
      → insert_lease repos w t ≡ ok (l, t')
      → exists_where of_org t' ≡ exists_where of_org t
  unfolding insert_lease
  inserted-same repos w l t t' e h =
      let (e0, h0) = guard-eq-ok (exists_where (λ (r : Repo). r.id == w.repo_id) repos) db _ h in
      let (e1, h1) = guard-eq-ok (not (exists_where (is_live_on w.repo_id w.resource) t)) db _ h0 in
      let (e2, h2) = guard-eq-ok (not (exists_where (λ (k : Lease). k.id == w.id) t)) db _ h1 in
      let same : t' ≡ t ++ w ∷ [] = ground arith in
      subst (λ u. exists_where of_org u ≡ exists_where of_org t) (sym same)
        (exists-append of_org t (w ∷ []) ∙ unfold exists_where in ground (arith, e, other))

  taken-same :
      (repos : List Repo) (w : Lease) (ttl : ℕ) (live : Option Lease) (l : Lease)
      (t t' : List Lease)
      → w.org_id ≡ tx.org
      → take_lease tx repos w ttl live t ≡ ok (l, t')
      → exists_where of_org t' ≡ exists_where of_org t
  unfolding take_lease
  taken-same repos w ttl none l t t' e h = inserted-same repos w l t t' e h
  taken-same repos w ttl (some live) l t t' e h =
      renewed-same live.id w.holder_user_id (some (pos ttl)) l t t' (ground arith)

  acquired-same :
      (repos : List Repo) (fresh repo : ℕ) (resource : Text) (holder : ℕ) (label job : Option Text)
      (ttl : Option ℤ) (l : Lease) (t t' : List Lease)
      → acquire_lease tx repos fresh repo resource holder label job ttl t ≡ ok (l, t')
      → exists_where of_org t' ≡ exists_where of_org t
  unfolding acquire_lease reap_leases
  acquired-same repos fresh repo resource holder label job ttl l t t' h =
      let (e0, h0) = guard-eq-ok (not (is_empty (trim resource))) (invalid empty_resource) _ h in
      let (e1, h1) =
        guard-eq-ok (leb (byte_len (trim resource)) max_resource_len)
          (invalid (too_long (byte_len (trim resource)))) _ h0 in
      let (stored, e2, h2) = >>=-eq-ok (AgentLabel.validate label) _ h1 in
      let reaped = reap_leases tx repo (trim resource) t in
      taken-same repos
        (new_lease tx fresh repo (trim resource) holder stored job (clamp_lease_ttl ttl))
        (clamp_lease_ttl ttl) (fetch_optional (is_open_on tx repo (trim resource)) reaped) l reaped
        t' refl h2
      ∙ released-same (is_overdue_on tx repo (trim resource)) t

  leases_after-same :
      (t : List Lease) (r : Result (Lease × List Lease))
      → ((l : Lease) (t' : List Lease)
          → r ≡ ok (l, t')
          → exists_where of_org t' ≡ exists_where of_org t)
      → exists_where of_org (leases_after t r) ≡ exists_where of_org t
  leases_after-same t (ok (l, t')) h = h l t' refl
  leases_after-same t (err e) h = refl

  released_after-same :
      (lease holder : ℕ) (t : List Lease)
      → exists_where of_org (released_after t (release_lease tx lease holder t))
        ≡ exists_where of_org t
  unfolding release_lease
  released_after-same lease holder t =
      elim (Bool-cases (exists_where (is_held_by tx lease holder) t)) [
        | inl y ↦ rw y (released-same (is_held_by tx lease holder) t)
        | inr n ↦ rw n refl
      ]

  metered-same :
      (id event : ℕ) (user : Option ℕ) (tool : Text) (billable : Bool) (metered : Option Metered)
      (t : List UsageRow)
      → exists_where
          (λ (r : UsageRow). r.org_id == o)
          (rows_after t (enqueue tx.now id event tx.org user tool billable metered t))
        ≡ exists_where (λ (r : UsageRow). r.org_id == o) t
  unfolding enqueue
  metered-same id event user tool billable metered t =
      elim (Bool-cases (exists_where (λ (r : UsageRow). r.event_id == event) t)) [
        | inl y ↦ rw y refl
        | inr n ↦ rw n (
            exists-append (λ (r : UsageRow). r.org_id == o) t
              (usage_row tx.now id event tx.org user tool billable metered ∷ [])
            ∙ unfold exists_where in ground (arith, other))
      ]

  leases-IsGone :
      (d : Database) (t : List Lease)
      → exists_where of_org t ≡ exists_where of_org d.leases
      → IsGone o d
      → IsGone o (record d { leases = t })
  leases-IsGone d t e g = record {
    jobs = g.jobs;
    dependencies = g.dependencies;
    counters = g.counters;
    repos = g.repos;
    messages = g.messages;
    leases = e ∙ g.leases;
    cursors = g.cursors;
    usage = g.usage;
    sessions = g.sessions;
    bindings = g.bindings;
    index = g.index;
    connections = g.connections;
    remotes = g.remotes;
  }

  usage-IsGone :
      (d : Database) (t : List UsageRow)
      → exists_where (λ (r : UsageRow). r.org_id == o) t
        ≡ exists_where (λ (r : UsageRow). r.org_id == o) d.usage_outbox
      → IsGone o d
      → IsGone o (record d { usage_outbox = t })
  usage-IsGone d t e g = record {
    jobs = g.jobs;
    dependencies = g.dependencies;
    counters = g.counters;
    repos = g.repos;
    messages = g.messages;
    leases = g.leases;
    cursors = g.cursors;
    usage = e ∙ g.usage;
    sessions = g.sessions;
    bindings = g.bindings;
    index = g.index;
    connections = g.connections;
    remotes = g.remotes;
  }

  signed-IsGone :
      (d : Database) (id_hash : Text) (user : ℕ) (secrets : Text) (expires_at : ℕ)
      → IsGone o d
      → IsGone o
          (record d { sessions = d.sessions ++ session_of tx id_hash user secrets expires_at ∷ [] })
  signed-IsGone d id_hash user secrets expires_at g = record {
    jobs = g.jobs;
    dependencies = g.dependencies;
    counters = g.counters;
    repos = g.repos;
    messages = g.messages;
    leases = g.leases;
    cursors = g.cursors;
    usage = g.usage;
    sessions = signed;
    bindings = g.bindings;
    index = g.index;
    connections = g.connections;
    remotes = g.remotes;
  }
    where
      signed :
          exists_where
            (λ (r : Session). r.org_id == o)
            (d.sessions ++ session_of tx id_hash user secrets expires_at ∷ [])
          ≡ false
      signed =
          exists-append (λ (r : Session). r.org_id == o) d.sessions
            (session_of tx id_hash user secrets expires_at ∷ [])
          ∙ unfold exists_where in ground (arith, other, g.sessions)

  queue-IsGone :
      (d : Database) (s : Store)
      → IsUntouched o d.queue s
      → IsGone o d
      → IsGone o (record d { queue = s })
  unfolding in_org_job is_org
  queue-IsGone d s u g = record {
    jobs = same-exists (λ (r : Job). r.org_id == o) d.queue.jobs s.jobs u.jobs ∙ g.jobs;
    dependencies =
        same-exists (λ (r : Dependency). r.org_id == o) d.queue.job_dependencies s.job_dependencies
          u.dependencies
        ∙ g.dependencies;
    counters =
        sym (fetch_optional-exists (λ (r : OrgCounters). r.org_id == o) s.org_counters)
        ∙ ap is_some u.counters
        ∙ fetch_optional-exists (λ (r : OrgCounters). r.org_id == o) d.queue.org_counters
        ∙ g.counters;
    repos = ap (exists_where (λ (r : Repo). r.org_id == o)) u.repos ∙ g.repos;
    messages =
        same-exists (λ (r : Message). r.org_id == o) d.queue.messages s.messages u.messages
        ∙ g.messages;
    leases = g.leases;
    cursors = g.cursors;
    usage = g.usage;
    sessions = g.sessions;
    bindings = g.bindings;
    index = g.index;
    connections = g.connections;
    remotes = g.remotes;
  }

  module _ (fingerprint : Payload → Text) where
    -- Work in another org's transaction.
    pub work-IsGone : (w : Work) (d : Database) → IsGone o d → IsGone o (work fingerprint tx w d)
    unfolding work
    work-IsGone (queues c) d g =
        queue-IsGone d (History.step fingerprint d.queue (tx, c))
          (step-IsUntouched fingerprint o tx d.queue c other) g
    work-IsGone (acquires fresh repo resource holder label job ttl) d g =
        let r = acquire_lease tx d.queue.repos fresh repo resource holder label job ttl d.leases in
        leases-IsGone d (leases_after d.leases r)
          (leases_after-same d.leases r (λ l t'.
            acquired-same d.queue.repos fresh repo resource holder label job ttl l d.leases t'))
          g
    work-IsGone (renews lease holder ttl) d g =
        let r = renew_lease tx lease holder ttl d.leases in
        leases-IsGone d (leases_after d.leases r)
          (leases_after-same d.leases r (λ l t'. renewed-same lease holder ttl l d.leases t')) g
    work-IsGone (releases lease holder) d g =
        leases-IsGone d (released_after d.leases (release_lease tx lease holder d.leases))
          (released_after-same lease holder d.leases) g
    work-IsGone (meters id event user tool billable metered) d g =
        usage-IsGone d
          (rows_after d.usage_outbox
            (enqueue tx.now id event tx.org user tool billable metered d.usage_outbox))
          (metered-same id event user tool billable metered d.usage_outbox) g
    work-IsGone (signs_in id_hash user secrets expires_at) d g =
        signed-IsGone d id_hash user secrets expires_at g

    pub work_all-IsGone :
        (ws : List Work) (d : Database) → IsGone o d → IsGone o (work_all fingerprint tx ws d)
    unfolding work_all
    work_all-IsGone [] d g = g
    work_all-IsGone (w ∷ ws) d g = work_all-IsGone ws (work fingerprint tx w d) (work-IsGone w d g)
