-- ===== src/Tools/Outbox.antt =====
-- The outbox of usage across the work of each tool on jobs.
use otto_factory.Common.{
  if◌then◌else◌, Bool-cases, List, Option, [], ap, arith, false, inl, inr, true, ℕ, ◌++◌, ◌∷◌, ◌≡◌,
}
use otto_factory.Common.Text.{Text}
use otto_factory.Error.{Result, ok, ◌>>=◌, ◌>>◌, cancelled, hidden_dependents, invalid}
use otto_factory.Error.Laws.{guard-eq-ok, >>=-eq-ok}
use otto_factory.Lifecycle.{Database}
use otto_factory.Store.{Job, Store, Tx}
use otto_factory.Teams.{TeamScope}
use otto_factory.Tools.{Reply, Request, Work, ensure_jobs_visible, job_reply, redacting}
use otto_factory.Common.Int.{ℤ}
use otto_factory.Jobs.Cancel.{cancel_job, delete_job, request_cancel}
use otto_factory.Jobs.Claim.{claim_jobs}
use otto_factory.Jobs.Dependencies.{set_dependencies}
use otto_factory.Jobs.Row.{same_status}
use otto_factory.Jobs.Visible.{has_hidden_dependents}
use otto_factory.Tools.Contained.{jobs_reply_ok, job_reply_ok}
use otto_factory.Tools.Writes.{
  UpdateJobArgs, cancel_job_work, claim_jobs_work, delete_job_work, request_cancel_work,
  set_dependencies_work, update_job_work,
}

-- A work that leaves the outbox as the record of the call left it.
abbrev pub KeepsOutbox : Work → Type 0
KeepsOutbox work =
    (team : TeamScope) (tx : Tx) (d : Database) (reply : Reply) (d' : Database)
    → work team tx d ≡ ok (reply, d')
    → d'.usage_outbox ≡ d.usage_outbox

pub then_job :
    (check : Result (Unit {0})) (d : Database) (op : Result (Job × Store)) (reply : Reply)
    (d' : Database)
    → (check >> job_reply d op) ≡ ok (reply, d')
    → d'.usage_outbox ≡ d.usage_outbox
then_job check d op reply d' h =
    let (u, e, h1) = >>=-eq-ok check _ h in
    let (job, s', e1, e2) = job_reply_ok d op reply d' h1 in
    ap (λ (x : Database). x.usage_outbox) e2

abbrev pub give_with : {A : Type 0} → Database → (A → Reply) → A → Result (Reply × Database)
give_with d give a = ok (give a, d)

pub then_reply :
    {A : Type 0} (r : Result A) (d : Database) (give : A → Reply) (reply : Reply) (d' : Database)
    → (r >>= give_with d give) ≡ ok (reply, d')
    → d'.usage_outbox ≡ d.usage_outbox
then_reply r d give reply d' h = let (a, e, h1) = >>=-eq-ok r (give_with d give) h in ground arith

pub update_outbox : (id : Text) (a : UpdateJobArgs) → KeepsOutbox (update_job_work id a)
unfolding update_job_work
update_outbox id a team tx d = then_job _ d _

pub delete_outbox : (id : Text) → KeepsOutbox (delete_job_work id)
unfolding delete_job_work
delete_outbox id team tx d reply d' h =
    let (u, e, h1) = >>=-eq-ok (ensure_jobs_visible tx team (id ∷ []) d.queue) _ h in
    let (e1, h2) =
      guard-eq-ok (if has_hidden_dependents tx id team d.queue then false else true)
        (invalid hidden_dependents) _ h1 in
    let (s, e2, h3) = >>=-eq-ok (delete_job tx id d.queue) _ h2 in ground arith

pub claim_outbox :
    (user : ℕ) (ids : List Text) (agent : Option Text) (ttl : Option ℤ)
    → KeepsOutbox (claim_jobs_work user ids agent ttl)
unfolding claim_jobs_work
claim_outbox user ids agent ttl team tx d reply d' h =
    let (u, e, h1) = >>=-eq-ok (ensure_jobs_visible tx team ids d.queue) _ h in
    let (jobs, s', e1, e2) =
      jobs_reply_ok d (claim_jobs tx ids user agent ttl d.queue) reply d' h1 in
    ap (λ (x : Database). x.usage_outbox) e2

pub request_cancel_outbox :
    (q : Request) (id : Text) (reason : Option Text) → KeepsOutbox (request_cancel_work q id reason)
unfolding request_cancel_work
request_cancel_outbox q id reason team tx d reply d' h =
    let (u, e, h1) = >>=-eq-ok (ensure_jobs_visible tx team (id ∷ []) d.queue) _ h in
    let (r, e1, h2) = >>=-eq-ok (request_cancel tx id q.caller.user_id reason d.queue) _ h1 in
    elim (Bool-cases (same_status r.0.status cancelled)) [
      | inl y ↦ ground (arith, y)
      | inr n ↦ ground (arith, n)
    ]

pub cancel_outbox :
    (q : Request) (id : Text) (remark : Option Text) (expected : Option ℕ)
    → KeepsOutbox (cancel_job_work q id remark expected)
unfolding cancel_job_work
cancel_outbox q id remark expected team tx d reply d' h =
    let (u, e, h1) = >>=-eq-ok (ensure_jobs_visible tx team (id ∷ []) d.queue) _ h in
    let (r, e1, h2) = >>=-eq-ok (cancel_job tx id q.caller.user_id remark expected d.queue) _ h1 in
    ground arith

pub set_dependencies_outbox :
    (id : Text) (add remove : List Text) → KeepsOutbox (set_dependencies_work id add remove)
unfolding set_dependencies_work
set_dependencies_outbox id add remove team tx d reply d' h =
    let (u, e, h1) = >>=-eq-ok (ensure_jobs_visible tx team (id ∷ (add ++ remove)) d.queue) _ h in
    let (r, e1, h2) = >>=-eq-ok (redacting team (set_dependencies tx id add remove d.queue)) _ h1 in
    ground arith

-- What a tool that is answered has passed, and the row that it leaves.
