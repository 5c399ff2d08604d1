-- ===== src/Leases.antt =====
-- crates/of-core/src/leases.rs: advisory, time-bounded leases on a resource of a repo. The rows of the table
-- repo_leases are the state; the rows of repos are read by the foreign key, and the id that
-- `gen_random_uuid()` gives a new row is an argument.
pub mod Exclusive
pub mod Acquire
pub mod Kept
use otto_factory.AgentLabel
use mathlib.Core.Option
use otto_factory.AgentLabel.{holder}
use otto_factory.Common.{
  Bool, List, Option, [], if◌then◌else◌, is_some, leb, ltb, none, not, some, unwrap_or, ℕ, ◌&&◌,
  ◌++◌, ◌+◌, ◌==◌, ◌∷◌,
}
use otto_factory.Common.Int.{clamp, pos, ℤ}
use otto_factory.Common.Lists.{is_empty}
use otto_factory.Common.Text.{Text, byte_len, text_eq, trim}
use otto_factory.Error.{
  Result, db, empty_resource, err, guard, invalid, lease_held, lease_not_held, ok, ok_or, too_long,
  ◌>>=◌, ◌>>◌,
}
use otto_factory.Jobs.Query.{none_or}
use otto_factory.Store.{Repo, Tx, secs}
use otto_factory.Table.{exists_where, fetch_optional, select_where, update_where}

abbrev pub max_resource_len : ℕ
max_resource_len = 200

pub record Lease : Type 0 where
  pub id : ℕ
  pub org_id : ℕ
  pub repo_id : ℕ
  pub resource : Text
  pub holder_user_id : ℕ
  pub holder_label : Option Text
  pub job_id : Option Text
  pub acquired_at : ℕ
  pub renewed_at : ℕ
  pub expires_at : ℕ
  pub released_at : Option ℕ

-- `ttl_secs.unwrap_or(DEFAULT_TTL_SECS).clamp(60, MAX_TTL_SECS)`.
unfoldable pub clamp_lease_ttl : Option ℤ → ℕ
clamp_lease_ttl ttl_secs = clamp (unwrap_or ttl_secs (pos 900)) 60 14400

-- The key of the unique index repo_leases_live_key.
unfoldable pub is_live_on : ℕ → Text → Lease → Bool
is_live_on repo_id resource l =
    l.repo_id == repo_id && text_eq l.resource resource && not (is_some l.released_at)

unfoldable pub is_open_on : Tx → ℕ → Text → Lease → Bool
unfolding is_live_on
is_open_on tx repo_id resource l = l.org_id == tx.org && is_live_on repo_id resource l

unfoldable pub is_overdue_on : Tx → ℕ → Text → Lease → Bool
unfolding is_open_on
is_overdue_on tx repo_id resource l = is_open_on tx repo_id resource l && leb l.expires_at tx.now

unfoldable pub release : Tx → Lease → Lease
release tx l = record l { released_at = some tx.now }

unfoldable pub is_held_by : Tx → ℕ → ℕ → Lease → Bool
is_held_by tx lease_id holder l =
    l.org_id == tx.org
    && l.id == lease_id
    && l.holder_user_id == holder
    && not (is_some l.released_at)

unfoldable pub extend : Tx → ℕ → Lease → Lease
extend tx ttl l = record l { renewed_at = tx.now; expires_at = tx.now + secs ttl }

unfoldable pub renew_lease : Tx → ℕ → ℕ → Option ℤ → List Lease → Result (Lease × List Lease)
unfolding extend
renew_lease tx lease_id holder ttl_secs t = do
  let ttl = clamp_lease_ttl ttl_secs
  l ← ok_or (fetch_optional (is_held_by tx lease_id holder) t) (lease_not_held lease_id)
  ok (extend tx ttl l, update_where (is_held_by tx lease_id holder) (extend tx ttl) t)

unfoldable pub release_lease : Tx → ℕ → ℕ → List Lease → Result (List Lease)
release_lease tx lease_id holder t = do
  guard (exists_where (is_held_by tx lease_id holder) t) (lease_not_held lease_id)
  ok (update_where (is_held_by tx lease_id holder) (release tx) t)

-- The INSERT: refused by the foreign key, by the unique index, or by the primary key.
unfoldable pub insert_lease : List Repo → Lease → List Lease → Result (Lease × List Lease)
insert_lease repos l t = do
  guard (exists_where (λ (r : Repo). r.id == l.repo_id) repos) db
  guard (not (exists_where (is_live_on l.repo_id l.resource) t)) db
  guard (not (exists_where (λ (k : Lease). k.id == l.id) t)) db
  ok (l, t ++ l ∷ [])

abbrev pub new_lease : Tx → ℕ → ℕ → Text → ℕ → Option Text → Option Text → ℕ → Lease
new_lease tx id repo_id resource holder label job_id ttl = record {
  id = id;
  org_id = tx.org;
  repo_id = repo_id;
  resource = resource;
  holder_user_id = holder;
  holder_label = label;
  job_id = job_id;
  acquired_at = tx.now;
  renewed_at = tx.now;
  expires_at = tx.now + secs ttl;
  released_at = none;
}

-- What follows the SELECT of the live lease.
unfoldable pub take_lease :
    Tx → List Repo → Lease → ℕ → Option Lease → List Lease → Result (Lease × List Lease)
unfolding insert_lease renew_lease
take_lease tx repos wanted ttl none t = insert_lease repos wanted t
take_lease tx repos wanted ttl (some live) t =
    let renewed = renew_lease tx live.id wanted.holder_user_id (some (pos ttl)) t in
    if live.holder_user_id == wanted.holder_user_id
    then renewed
    else err (
        lease_held wanted.resource (AgentLabel.holder live.holder_label live.holder_user_id)
          live.expires_at)

unfoldable pub reap_leases : Tx → ℕ → Text → List Lease → List Lease
unfolding is_overdue_on release
reap_leases tx repo_id resource t = update_where (is_overdue_on tx repo_id resource) (release tx) t

unfoldable pub acquire_lease :
    Tx
    → List Repo
    → ℕ
    → ℕ
    → Text
    → ℕ
    → Option Text
    → Option Text
    → Option ℤ
    → List Lease
    → Result (Lease × List Lease)
unfolding take_lease reap_leases
acquire_lease tx repos fresh repo_id resource holder label job_id ttl_secs t = do
  let trimmed = trim resource
  guard (not (is_empty trimmed)) (invalid empty_resource)
  guard (leb (byte_len trimmed) max_resource_len) (invalid (too_long (byte_len trimmed)))
  stored ← AgentLabel.validate label
  let ttl = clamp_lease_ttl ttl_secs
  let t1 = reap_leases tx repo_id trimmed t
  take_lease tx repos (new_lease tx fresh repo_id trimmed holder stored job_id ttl) ttl
      (fetch_optional (is_open_on tx repo_id trimmed) t1) t1

unfoldable pub lease_repo_id : Tx → ℕ → List Lease → Option ℕ
lease_repo_id tx lease_id t =
    Option.map (λ (l : Lease). l.repo_id)
      (fetch_optional (λ (l : Lease). l.org_id == tx.org && l.id == lease_id) t)

unfoldable pub is_listed : Tx → Option ℕ → Lease → Bool
is_listed tx repo_id l =
    l.org_id == tx.org
    && not (is_some l.released_at)
    && ltb tx.now l.expires_at
    && none_or repo_id l.repo_id

-- `ORDER BY acquired_at`; rows of one time keep their order.
unfoldable pub list_leases : Tx → Option ℕ → List Lease → List Lease
unfolding is_listed
list_leases tx repo_id t = by_age (select_where (is_listed tx repo_id) t)
  where
    insert_lease_by_age : Lease → List Lease → List Lease
    insert_lease_by_age l [] = l ∷ []
    insert_lease_by_age l (k ∷ ks) =
        if leb l.acquired_at k.acquired_at then l ∷ k ∷ ks else k ∷ insert_lease_by_age l ks

    by_age : List Lease → List Lease
    by_age [] = []
    by_age (l ∷ ls) = insert_lease_by_age l (by_age ls)
