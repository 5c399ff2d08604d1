-- ===== src/Jobs/Claim.antt =====
-- Claiming a job and acting on a claim: claim_jobs, activate_job, renew_claim, complete_job, fail_job.
use otto_factory.AgentLabel
use otto_factory.Common.{
  Bool, List, Option, [], false, if◌then◌else◌, is_id, is_some, ltb, none, not, some, true,
  unwrap_or, ℕ, ◌&&◌, ◌+◌, ◌==◌, ◌||◌, ◌∷◌,
}
use otto_factory.Common.Int.{clamp, pos, ℤ}
use otto_factory.Common.Lists.{all, any, is_empty}
use otto_factory.Common.Text.{Text, text_eq, text_ltb}
use otto_factory.Error.{
  Holder, Result, Status, active, already_claimed, blocked_by_dependency, claim_expired,
  claimed_by_other, completed, db, expected_claimed, expected_in_progress, expected_pending,
  expected_ready, failed, generation_moved_on, guard, in_progress, in_status, invalid,
  job_not_found, no_job_ids, no_recorded_holder, ok, ok_or, pending, wrong_status, ◌>>=◌, ◌>>◌,
}
use otto_factory.Jobs.Counters.{bump_terminal_counter}
use otto_factory.Jobs.Row.{
  has_lapsed, is_claimed, is_completed, is_job, is_pending, is_stranded, write_row,
}
use otto_factory.Store.{Dependency, Job, Store, Tx, secs}
use otto_factory.Table.{exists_where, fetch_optional, select_where, update_where}

abbrev pub default_claim_ttl_secs : ℕ
default_claim_ttl_secs = 900

abbrev pub min_claim_ttl_secs : ℕ
min_claim_ttl_secs = 60

abbrev pub max_claim_ttl_secs : ℕ
max_claim_ttl_secs = 14400

unfoldable pub clamp_claim_ttl : Option ℤ → ℕ
clamp_claim_ttl ttl_secs =
    clamp (unwrap_or ttl_secs (pos default_claim_ttl_secs)) min_claim_ttl_secs max_claim_ttl_secs

-- `sorted.sort(); sorted.dedup()`, by insertion.
unfoldable pub insert_id : Text → List Text → List Text
insert_id id [] = id ∷ []
insert_id id (x ∷ xs) =
    if text_eq id x then x ∷ xs else if text_ltb id x then id ∷ x ∷ xs else x ∷ insert_id id xs

unfoldable pub sort_dedup : List Text → List Text
unfolding insert_id
sort_dedup [] = []
sort_dedup (x ∷ xs) = insert_id x (sort_dedup xs)

abbrev pub has_id : List Text → Text → Bool
has_id ids id = any (λ x. text_eq id x) ids

-- `org_id = $1 AND id = ANY($2)`.
unfoldable pub in_batch : ℕ → List Text → Job → Bool
in_batch org ids j = j.org_id == org && has_id ids j.id

-- `SELECT … ORDER BY id FOR UPDATE`, and the first id that it did not find.
unfoldable pub lock_rows : ℕ → List Job → List Text → Result (List Job)
lock_rows org jobs [] = ok []
lock_rows org jobs (id ∷ ids) = do
  j ← ok_or (fetch_optional (is_job org id) jobs) (job_not_found id)
  rest ← lock_rows org jobs ids
  ok (j ∷ rest)

unfoldable pub reap : Job → Job
reap j = record j {
  status = pending;
  claimed_by = none;
  claimed_by_label = none;
  started_at = none;
  claim_expires_at = none;
  cancel_requested_at = none;
  cancel_requested_by = none;
  cancel_reason = none;
}

unfoldable pub reap_batch : Tx → List Text → List Job → List Job
unfolding reap
reap_batch tx ids jobs = update_where (λ j. in_batch tx.org ids j && is_stranded tx.now j) reap jobs

-- Each locked row was pending, or is one of those that the reap returned.
unfoldable pub check_pending : ℕ → List Job → Result (Unit {0})
check_pending now [] = ok tt
check_pending now (j ∷ js) = do
  guard (is_pending j.status || is_stranded now j)
      (wrong_status j.id (in_status j.status) expected_pending)
  check_pending now js

-- A dependency of `id` that is not completed.
unfoldable pub is_blocking : ℕ → List Job → Text → Dependency → Bool
is_blocking org jobs id d =
    d.org_id == org
    && text_eq d.job_id id
    && exists_where (λ dep. is_job org d.depends_on dep && not (is_completed dep.status)) jobs

unfoldable pub is_blocked : ℕ → List Job → List Dependency → Text → Bool
unfolding is_blocking
is_blocked org jobs deps id = exists_where (is_blocking org jobs id) deps

-- The query does not say which blocked job comes first; here it is the first in the order of ids.
unfoldable pub check_unblocked : ℕ → List Job → List Dependency → List Text → Result (Unit {0})
check_unblocked org jobs deps [] = ok tt
check_unblocked org jobs deps (id ∷ ids) = do
  guard (not (is_blocked org jobs deps id)) (wrong_status id blocked_by_dependency expected_ready)
  check_unblocked org jobs deps ids

-- `attempts` is a 32-bit column: an update past its limit is an error of the database.
abbrev pub max_attempts : ℕ
max_attempts = 2147483647

unfoldable pub claim : Tx → ℕ → Option Text → ℕ → Job → Job
claim tx claimer label ttl j = record j {
  status = in_progress;
  started_at = some tx.now;
  attempts = j.attempts + 1;
  claimed_by = some claimer;
  claimed_by_label = label;
  claim_expires_at = some (tx.now + secs ttl);
}

unfoldable pub claim_jobs :
    Tx → List Text → ℕ → Option Text → Option ℤ → Store → Result (List Job × Store)
unfolding claim
claim_jobs tx ids claimer label ttl_secs s = do
  guard (not (is_empty ids)) (invalid no_job_ids)
  label ← AgentLabel.validate label
  let ttl = clamp_claim_ttl ttl_secs
  let sorted = sort_dedup ids
  locked ← lock_rows tx.org s.jobs sorted
  let reaped = reap_batch tx sorted s.jobs
  check_pending tx.now locked
  check_unblocked tx.org reaped s.job_dependencies sorted
  guard (all (λ j. ltb j.attempts max_attempts) locked) db
  let jobs = update_where (in_batch tx.org sorted) (claim tx claimer label ttl) reaped
  ok (select_where (in_batch tx.org sorted) jobs, record s { jobs = jobs })

-- The row is claimed by `caller`, the claim has not lapsed, and it is the generation expected.
unfoldable pub check_claim : Tx → ℕ → Option ℕ → Bool → Job → Result (Unit {0})
check_claim tx caller expected_attempts honor_pending_cancel j = do
  guard (is_claimed j.status) (wrong_status j.id (in_status j.status) expected_claimed)
  let who = holder_of j.claimed_by
  let is_holder = is_id j.claimed_by caller
  let expired = has_lapsed tx.now j.claim_expires_at
  let exempted = honor_pending_cancel && is_some j.cancel_requested_at
  guard (not (expired && not exempted && is_holder)) (already_claimed j.id claim_expired)
  guard is_holder (already_claimed j.id (claimed_by_other who))
  guard (matches expected_attempts) (already_claimed j.id (generation_moved_on who))
  where
    holder_of : Option ℕ → Holder
    holder_of none = no_recorded_holder
    holder_of (some u) = AgentLabel.holder j.claimed_by_label u

    matches : Option ℕ → Bool
    matches none = true
    matches (some n) = j.attempts == n

unfoldable pub ensure_claim_held : Tx → Text → ℕ → Option ℕ → Bool → Store → Result (Unit {0})
unfolding check_claim
ensure_claim_held tx id caller expected_attempts honor_pending_cancel s = do
  j ← ok_or (fetch_optional (is_job tx.org id) s.jobs) (job_not_found id)
  check_claim tx caller expected_attempts honor_pending_cancel j

unfoldable pub finish : Tx → Status → Option Text → Option Text → Job → Job
finish tx to result error j = record j {
  status = to;
  completed_at = some tx.now;
  result = result;
  error = error;
  claim_expires_at = none;
}

unfoldable pub finalize :
    Tx → Text → ℕ → Status → Option Text → Option Text → Option ℕ → Store → Result (Job × Store)
unfolding finish
finalize tx id caller to result error expected_attempts s = do
  ensure_claim_held tx id caller expected_attempts false s
  (job, s1) ← write_row tx id (finish tx to result error) s
  ok (job, bump_terminal_counter tx to (pos 1) s1)

unfoldable pub complete_job : Tx → Text → ℕ → Option Text → Option ℕ → Store → Result (Job × Store)
unfolding finalize
complete_job tx id caller result expected_attempts s =
    finalize tx id caller completed result none expected_attempts s

unfoldable pub fail_job : Tx → Text → ℕ → Option Text → Option ℕ → Store → Result (Job × Store)
unfolding finalize
fail_job tx id caller error expected_attempts s =
    finalize tx id caller failed none error expected_attempts s

unfoldable pub activate : Job → Job
activate j = record j { status = active }

abbrev pub is_in_progress : Status → Bool
is_in_progress in_progress = true
is_in_progress _ = false

unfoldable pub activate_job : Tx → Text → Store → Result (Job × Store)
unfolding activate
activate_job tx id s = do
  current ← ok_or (fetch_optional (is_job tx.org id) s.jobs) (job_not_found id)
  guard (is_in_progress current.status)
      (wrong_status id (in_status current.status) expected_in_progress)
  write_row tx id activate s

unfoldable pub extend_claim : Tx → ℕ → Job → Job
extend_claim tx ttl j = record j { claim_expires_at = some (tx.now + secs ttl) }

unfoldable pub renew_claim : Tx → Text → ℕ → Option ℤ → Option ℕ → Store → Result (Job × Store)
unfolding extend_claim
renew_claim tx id caller ttl_secs expected_attempts s = do
  ensure_claim_held tx id caller expected_attempts false s
  let ttl = clamp_claim_ttl ttl_secs
  write_row tx id (extend_claim tx ttl) s
