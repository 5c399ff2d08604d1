-- ===== src/Tools/Adds.antt =====
-- crates/of-mcp/src/tools/jobs.rs: add_job, with and without an idempotency key.
use otto_factory.Common.{List, Option, none, some, ℕ}
use otto_factory.Common.Text.{Text, codes}
use otto_factory.Error.{Result, err, job_not_found, key_spent, ok, redacted, ◌>>=◌, ◌>>◌}
use otto_factory.Jobs.Create.{Payload, add_job, find_replayed_job}
use otto_factory.Jobs.Visible.{get_job_visible}
use otto_factory.Lifecycle.{Database}
use otto_factory.Scopes.{jobs_write}
use otto_factory.Store.{Job}
use otto_factory.Tools.{
  Reply, Work, Request, charge_call, ensure_jobs_visible, job_out, job_reply, metered, open_call,
  record_replayed, repo_for_write,
}

pub record AddJobArgs : Type 0 where
  pub title : Text
  pub description : Option Text
  pub repo : Option Text
  pub remote : Option Text
  pub ticket_ref : Option Text
  pub agent_type : Option Text
  pub metadata : Option Text
  pub depends_on : List Text
  pub idempotency_key : Option Text

-- The payload of a new job, as `add_job` fills it in.
abbrev pub new_job : Request → AddJobArgs → ℕ → Payload
new_job q a repo_id = record {
  repo_id = repo_id;
  team_id = none;
  title = a.title;
  description = a.description;
  ticket_ref = a.ticket_ref;
  tracker = none;
  agent_type = a.agent_type;
  metadata = a.metadata;
  depends_on = a.depends_on;
  created_by = some q.caller.user_id;
}

-- Only `job_not_found` is answered by saying that the key is spent.
abbrev pub seen_replay : Result Job → Result (Unit {0})
seen_replay (ok job) = ok tt
seen_replay (err (job_not_found id)) = err (redacted key_spent)
seen_replay (err e) = err e

module _ (to_lowercase : Text → Text) (fingerprint : Payload → Text) where
  unfoldable pub add_job_work : Request → AddJobArgs → Work
  add_job_work q a team tx d = do
    repo ← repo_for_write to_lowercase tx team a.repo a.remote d
    ensure_jobs_visible tx team a.depends_on d.queue
    job_reply d (add_job fingerprint tx (new_job q a repo.id) none d.queue)

  -- Under a key: a replay is recorded as such, and anything else is charged before the insert.
  unfoldable pub keyed_work : Request → AddJobArgs → Text → Work
  keyed_work q a key team tx d = do
    repo ← repo_for_write to_lowercase tx team a.repo a.remote d
    ensure_jobs_visible tx team a.depends_on d.queue
    found ← find_replayed_job fingerprint tx (new_job q a repo.id) (some key) d.queue
    elim found [
      | some existing ↦ do
        seen_replay (get_job_visible tx existing.id team d.queue)
        d1 ← record_replayed q (codes "add_job") d
        ok (job_out existing, d1)
      | none ↦ do
        d1 ← charge_call q (codes "add_job") d
        job_reply d1 (add_job fingerprint tx (new_job q a repo.id) (some key) d1.queue)
    ]

  unfoldable pub add_job_tool : Request → AddJobArgs → Database → Result (Reply × Database)
  unfolding add_job_work keyed_work metered open_call
  add_job_tool q a d = elim a.idempotency_key [
    | none ↦ metered q jobs_write (codes "add_job") (add_job_work q a) d
    | some key ↦ do (team, tx) ← open_call q jobs_write d; keyed_work q a key team tx d
  ]
