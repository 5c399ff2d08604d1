-- ===== src/Lifecycle/Requests.antt =====
-- crates/of-core/src/platform_events.rs, with the requests that run beside the clean-up: a request opens its
-- transaction by `begin_live`, which takes the org's lifecycle lock shared, and works and commits later;
-- a clean-up writes its tombstone in a statement of its own and then waits for the lock alone.
use otto_factory.Billing.Outbox.{Metered, UsageRow, enqueue}
use otto_factory.Common.{
  Bool, List, Option, [], if◌then◌else◌, none, not, some, ℕ, ◌&&◌, ◌++◌, ◌+◌, ◌==◌, ◌∷◌,
}
use otto_factory.Common.Int.{ℤ}
use otto_factory.Common.Text.{Text}
use otto_factory.Error.{Result, err, ok}
use otto_factory.Jobs.Create.{Payload}
use otto_factory.Jobs.History.{Call}
use otto_factory.Jobs.History
use otto_factory.Leases.{Lease, acquire_lease, release_lease, renew_lease}
use otto_factory.Lifecycle.{
  Database, Session, begin_live, clear_member, delete_team, is_tombstoned, purge_org, sweep,
  tombstone_member, tombstone_org,
}
use otto_factory.Store.{Tx}
use otto_factory.Table.{delete_where, exists_where, fetch_optional}

-- What a request does in its transaction: a call of the queue or of leases, a recorded usage row, a sign-in.
pub data Work : Type 0 where
  queues : Call → Work
  acquires : ℕ → ℕ → Text → ℕ → Option Text → Option Text → Option ℤ → Work
  renews : ℕ → ℕ → Option ℤ → Work
  releases : ℕ → ℕ → Work
  meters : ℕ → ℕ → Option ℕ → Text → Bool → Option Metered → Work
  signs_in : Text → ℕ → Text → ℕ → Work

abbrev pub leases_after : List Lease → Result (Lease × List Lease) → List Lease
leases_after t (ok (l, t')) = t'
leases_after t (err e) = t

abbrev pub released_after : List Lease → Result (List Lease) → List Lease
released_after t (ok t') = t'
released_after t (err e) = t

abbrev pub rows_after : List UsageRow → Option (ℕ × List UsageRow) → List UsageRow
rows_after t (some (e, t')) = t'
rows_after t none = t

abbrev pub session_of : Tx → Text → ℕ → Text → ℕ → Session
session_of tx id_hash user secrets expires_at = record {
  id_hash = id_hash;
  user_id = user;
  org_id = tx.org;
  secrets = secrets;
  expires_at = expires_at;
}

module _ (fingerprint : Payload → Text) where
  unfoldable pub work : Tx → Work → Database → Database
  work tx (queues c) db = record db { queue = History.step fingerprint db.queue (tx, c) }
  work tx (acquires fresh repo resource holder label job ttl) db = record db {
    leases =
        leases_after db.leases
          (acquire_lease tx db.queue.repos fresh repo resource holder label job ttl db.leases);
  }
  work tx (renews lease holder ttl) db = record db {
    leases = leases_after db.leases (renew_lease tx lease holder ttl db.leases);
  }
  work tx (releases lease holder) db = record db {
    leases = released_after db.leases (release_lease tx lease holder db.leases);
  }
  work tx (meters id event user tool billable metered) db = record db {
    usage_outbox =
        rows_after db.usage_outbox
          (enqueue tx.now id event tx.org user tool billable metered db.usage_outbox);
  }
  work tx (signs_in id_hash user secrets expires_at) db = record db {
    sessions = db.sessions ++ session_of tx id_hash user secrets expires_at ∷ [];
  }

  unfoldable pub work_all : Tx → List Work → Database → Database
  unfolding work
  work_all tx [] db = db
  work_all tx (w ∷ ws) db = work_all tx ws (work tx w db)

-- `open_txs` are the transactions that `begin_live` has let in, each with its number; `purged` lists the orgs
-- whose purge has committed.
pub record Server : Type 0 where
  pub db : Database
  pub open_txs : List (ℕ × Tx)
  pub now : ℕ
  pub purged : List ℕ

pub data Act : Type 0 where
  opens : ℕ → ℕ → Option ℕ → Act
  commits : ℕ → List Work → Act
  drops : ℕ → Act
  tombstones : ℕ → Act
  purges : ℕ → ℕ → Act
  removes : ℕ → ℕ → Act
  clears : ℕ → ℕ → ℕ → Act
  orphans : ℕ → ℕ → ℕ → Act
  sweeps : ℕ → Act
  waits : ℕ → Act

abbrev pub is_number : ℕ → ℕ × Tx → Bool
is_number k o = o.0 == k

abbrev pub is_on : ℕ → ℕ × Tx → Bool
is_on org o = o.1.org == org

unfoldable pub after_open : ℕ → Server → Result Tx → Server
after_open k s (ok tx) = record s { open_txs = (k, tx) ∷ s.open_txs }
after_open k s (err e) = s

module _ (fingerprint : Payload → Text) where
  unfoldable pub after_commit : ℕ → List Work → Server → Option (ℕ × Tx) → Server
  after_commit k ws s none = s
  after_commit k ws s (some (n, tx)) = record s {
    db = work_all fingerprint tx ws s.db;
    open_txs = delete_where (is_number k) s.open_txs;
  }

  -- A step whose lock is taken, or whose tombstone is not written yet, waits: it changes nothing.
  unfoldable pub step : Server → Act → Server
  unfolding after_open after_commit
  step s (opens k org user) = after_open k s (begin_live s.now org user s.db)
  step s (commits k ws) = after_commit k ws s (fetch_optional (is_number k) s.open_txs)
  step s (drops k) = record s { open_txs = delete_where (is_number k) s.open_txs }
  step s (tombstones org) = record s { db = tombstone_org org s.db }
  step s (purges event org) =
      if is_tombstoned org s.db && not (exists_where (is_on org) s.open_txs)
      then record s { db = (purge_org s.now event org s.db).1; purged = org ∷ s.purged }
      else s
  step s (removes org user) = record s { db = tombstone_member s.now org user s.db }
  step s (clears event org user) =
      if not (exists_where (is_on org) s.open_txs)
      then record s { db = (clear_member s.now event org user s.db).1 }
      else s
  step s (orphans event org team) = record s { db = (delete_team s.now event org team s.db).1 }
  step s (sweeps keep_days) = record s { db = (sweep s.now keep_days s.db).1 }
  step s (waits d) = record s { now = s.now + d }

  unfoldable pub run : Server → List Act → Server
  unfolding step
  run s [] = s
  run s (a ∷ acts) = run (step s a) acts

-- A server with no transaction open and no org purged yet.
abbrev pub started : Database → ℕ → Server
started db now = record { db = db; open_txs = []; now = now; purged = [] }
