-- ===== src/Tests/Queue.antt =====
-- The theorems on readiness and on the cancel handshake, on a store of one job.
use otto_factory.AgentLabel
use otto_factory.Common.{[], arith, false, none, refl, some, ◌∷◌, ◌≡◌}
use otto_factory.Common.Text.{Text, codes, text_eq}
use otto_factory.Error.{cancelled, in_progress, is_ok, ok, pending}
use otto_factory.Jobs.Cancel.{cancel_job, request_cancel, stamp_cancel}
use otto_factory.Jobs.Claim.{claim_jobs}
use otto_factory.Jobs.Effects.{Found, written_at}
use otto_factory.Jobs.Handshake.{request_cancel-confirmed}
use otto_factory.Jobs.History.{no_rows}
use otto_factory.Jobs.Query.{ready}
use otto_factory.Jobs.Readiness.{claim_jobs-ready}
use otto_factory.Jobs.Row.{is_job, write_row}
use otto_factory.Store.{Job, Store, Tx, secs}
use otto_factory.Table.{count_where, exists_where, fetch_optional, update_where}

abbrev one_id : Text
one_id = codes "job-1"

abbrev pub pending_job : Job
pending_job = record {
  id = one_id;
  org_id = 1;
  repo_id = 3;
  team_id = none;
  title = codes "build";
  description = none;
  status = pending;
  ticket_ref = none;
  tracker = none;
  remote_revision = none;
  agent_type = none;
  metadata = codes "{}";
  created_at = 0;
  started_at = none;
  completed_at = none;
  attempts = 0;
  result = none;
  error = none;
  created_by = some 7;
  claimed_by = none;
  claimed_by_label = none;
  claim_expires_at = none;
  cancel_requested_at = none;
  cancel_requested_by = none;
  cancel_reason = none;
  idempotency_key = none;
  idempotency_payload_hash = none;
}

abbrev claimed_job : Job
claimed_job = record pending_job {
  status = in_progress;
  attempts = 1;
  claimed_by = some 7;
  claim_expires_at = some (secs 900);
}

abbrev waiting_store : Store
waiting_store = record no_rows { jobs = pending_job ∷ [] }

abbrev claimed_store : Store
claimed_store = record no_rows { jobs = claimed_job ∷ [] }

abbrev at_one : Tx
at_one = record { org = 1; now = secs 60 }

-- After the claim has run out.
abbrev at_two : Tx
at_two = record { org = 1; now = secs 2000 }

abbrev stop : Text
stop = codes "superseded"

abbrev flagged_store : Store
flagged_store = written_at 1 one_id (stamp_cancel at_one 9 (some stop)) claimed_store

request_cancel-confirmed_example :
    (is_ok (cancel_job at_two one_id 7 none (some 1) claimed_store) ≡ false)
    × ((ended : Job) × (s2 : Store) × (cancel_job at_two one_id 7 none (some 1) flagged_store
          ≡ ok (ended, s2))
        × (ended.status ≡ cancelled)
        × (ended.error ≡ none)
        × (ended.attempts ≡ 1)
        × Found at_two one_id s2 ended)
unfolding request_cancel write_row is_job text_eq fetch_optional update_where
request_cancel-confirmed_example =
    request_cancel-confirmed at_one at_two one_id 9 7 (some stop) none claimed_store claimed_job
      (stamp_cancel at_one 9 (some stop) claimed_job) flagged_store refl refl refl refl refl refl

claim_jobs-ready_example :
    is_ok (claim_jobs at_one (one_id ∷ []) 7 none none waiting_store)
    ≡ exists_where (is_job 1 one_id) (ready at_one none none waiting_store)
unfolding is_job text_eq fetch_optional count_where AgentLabel.validate
claim_jobs-ready_example =
    claim_jobs-ready at_one waiting_store one_id pending_job 7 none none none (omega arith) refl
      refl (omega arith)
