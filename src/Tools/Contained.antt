-- ===== src/Tools/Contained.antt =====
-- The work of each tool on jobs, and the jobs that a caller on some teams does not see.
use otto_factory.Common.{
  Bool, Bool-cases, List, Option, [], arith, false, if◌then◌else◌, inl, inr, none, refl, subst, sym,
  true, ℕ, ◌++◌, ◌∷◌, ◌≡◌, ◌≤◌,
}
use otto_factory.Common.Int.{negsuc, pos, ℤ}
use otto_factory.Common.Text.{Text}
use otto_factory.Error.{
  Result, cancelled, completed, err, failed, hidden_dependents, invalid, ok, ◌>>◌,
}
use otto_factory.Error.Laws.{>>=-eq-ok, guard-eq-ok}
use otto_factory.Jobs.Cancel.{
  cancel_job, cancel_now, confirm_cancel, delete_job, edit, is_repo, repend, repend_job,
  request_cancel, stamp_cancel, update_job,
}
use otto_factory.Jobs.Claim.{
  activate, activate_job, claim_jobs, clamp_claim_ttl, complete_job, extend_claim, fail_job, finish,
  renew_claim,
}
use otto_factory.Jobs.Create.{link_ticket, relink}
use otto_factory.Jobs.Dependencies.{set_dependencies}
use otto_factory.Jobs.Effects.{
  activate_job_ok, cancel_job_ok, finalize_ok, link_ticket_ok, renew_claim_ok, repend_job_ok,
  request_cancel_ok, update_job_ok,
}
use otto_factory.Jobs.Invariant.{IsConsistent}
use otto_factory.Jobs.Visible.{has_hidden_dependents}
use otto_factory.Lifecycle.{Database}
use otto_factory.Jobs.Row.{is_job, same_status}
use otto_factory.Store.{Job, Store, Tracker}
use otto_factory.Table.{count_where}
use otto_factory.Teams.{TeamScope, is_all, restriction, teams}
use otto_factory.Tools.{Reply, Request, Work, ensure_jobs_visible, job_reply, jobs_reply, redacting}
use otto_factory.Tools.Effects.{
  claim_jobs-IsContained, counted-IsContained, delete_job-IsContained, set_dependencies-IsContained,
  Wrote-IsContained,
}
use otto_factory.Tools.Hidden.{IsContained, SeenAt}
use otto_factory.Tools.Opening.{ensure_jobs_visible_ok, recorded, tx_of}
use otto_factory.Tools.Writes.{
  UpdateJobArgs, activate_job_work, cancel_job_work, claim_jobs_work, delete_job_work,
  fail_job_work, link_ticket_work, renew_claim_work, repend_job_work, request_cancel_work,
  set_dependencies_work, update_job_work, complete_job_work,
}

pub job_reply_ok :
    (d : Database) (r : Result (Job × Store)) (reply : Reply) (d' : Database)
    → job_reply d r ≡ ok (reply, d')
    → (job : Job) × (s' : Store) × (r ≡ ok (job, s')) × (d' ≡ record d { queue = s' })
job_reply_ok d (ok (job, s)) reply d' h = (job, s, refl, ground arith)
job_reply_ok d (err e) reply d' h = cc

pub jobs_reply_ok :
    (d : Database) (r : Result (List Job × Store)) (reply : Reply) (d' : Database)
    → jobs_reply d r ≡ ok (reply, d')
    → (jobs : List Job) × (s' : Store) × (r ≡ ok (jobs, s')) × (d' ≡ record d { queue = s' })
jobs_reply_ok d (ok (jobs, s)) reply d' h = (jobs, s, refl, ground arith)
jobs_reply_ok d (err e) reply d' h = cc

pub redacting_ok {ℓ} :
    {A : Type ℓ} (team : TeamScope) (r : Result A) (a : A) → redacting team r ≡ ok a → r ≡ ok a
redacting_ok team (ok b) a h = h
redacting_ok team (err e) a h = cc

module _ (q : Request) (mine : List ℕ) (d : Database) (v : IsConsistent d.queue)
    (repo_keys : (id : ℕ) → count_where (is_repo q.caller.org_id id) d.queue.repos ≤ 1) where
  abbrev pub Kept : Database → Type 0
  Kept d' = IsContained (tx_of q) mine d.queue d'.queue

  keys : (id : Text) → count_where (is_job q.caller.org_id id) d.queue.jobs ≤ 1
  keys = v.keys q.caller.org_id

  abbrev Shown : Text → Type 0
  Shown id = SeenAt (tx_of q) mine d.queue id

  -- A work on one job that the caller must see.
  one_job :
      (d1 : Database) (id : Text) (op : Result (Job × Store)) (reply : Reply) (d' : Database)
      → d1.queue ≡ d.queue
      → ((job : Job) (s' : Store)
          → Shown id
          → op ≡ ok (job, s')
          → IsContained (tx_of q) mine d.queue s')
      → (ensure_jobs_visible (tx_of q) (teams mine) (id ∷ []) d.queue >> job_reply d1 op)
        ≡ ok (reply, d')
      → Kept d'
  one_job d1 id op reply d' same k h =
      let (u, e, h1) =
        >>=-eq-ok (ensure_jobs_visible (tx_of q) (teams mine) (id ∷ []) d.queue) _ h in
      let at = (ensure_jobs_visible_ok (tx_of q) mine d.queue repo_keys (id ∷ []) e).0 in
      let (job, s', e1, e2) = job_reply_ok d1 op reply d' h1 in subst Kept (sym e2) (k job s' at e1)

  module _ (tool : Text) (billable : Bool) where
    abbrev pub d1 : Database
    d1 = recorded q tool billable d

    abbrev pub KeptBy : Work → Type 0
    KeptBy work =
        (reply : Reply) (d' : Database) → work (teams mine) (tx_of q) d1 ≡ ok (reply, d') → Kept d'

    pub update_work : (id : Text) (a : UpdateJobArgs) → KeptBy (update_job_work id a)
    unfolding update_job_work edit
    update_work id a reply d' h =
        one_job d1 id
          (update_job (tx_of q) id a.title a.description a.agent_type a.metadata d.queue) reply d'
          refl
          (λ job s' at e.
            let (j, w) =
              update_job_ok (tx_of q) id d.queue job s' a.title a.description a.agent_type
                a.metadata e in
            Wrote-IsContained (tx_of q) mine d.queue keys id at
              (edit a.title a.description a.agent_type a.metadata) j job s'
              (λ _. (refl, refl, refl, refl)) w)
          h

    pub renew_work :
        (id : Text) (ttl : Option ℤ) (expected : Option ℕ)
        → KeptBy (renew_claim_work q.caller.user_id id ttl expected)
    unfolding renew_claim_work extend_claim
    renew_work id ttl expected reply d' h =
        one_job d1 id (renew_claim (tx_of q) id q.caller.user_id ttl expected d.queue) reply d' refl
          (λ job s' at e.
            let (j, w, _) =
              renew_claim_ok (tx_of q) id d.queue job s' q.caller.user_id ttl expected e in
            Wrote-IsContained (tx_of q) mine d.queue keys id at
              (extend_claim (tx_of q) (clamp_claim_ttl ttl)) j job s'
              (λ _. (refl, refl, refl, refl)) w)
          h

    pub complete_work :
        (id : Text) (result : Option Text) (expected : Option ℕ)
        → KeptBy (complete_job_work q.caller.user_id id result expected)
    unfolding complete_job_work complete_job finish
    complete_work id result expected reply d' h =
        one_job d1 id (complete_job (tx_of q) id q.caller.user_id result expected d.queue) reply d'
          refl
          (λ job s' at e.
            let (j, w, _) =
              finalize_ok (tx_of q) id d.queue job s' q.caller.user_id completed result none
                expected e in
            counted-IsContained (tx_of q) mine d.queue keys id at
              (finish (tx_of q) completed result none) j job s' completed (pos 1)
              (λ _. (refl, refl, refl, refl)) w)
          h

    pub fail_work :
        (id : Text) (error : Option Text) (expected : Option ℕ)
        → KeptBy (fail_job_work q.caller.user_id id error expected)
    unfolding fail_job_work fail_job finish
    fail_work id error expected reply d' h =
        one_job d1 id (fail_job (tx_of q) id q.caller.user_id error expected d.queue) reply d' refl
          (λ job s' at e.
            let (j, w, _) =
              finalize_ok (tx_of q) id d.queue job s' q.caller.user_id failed none error expected
                e in
            counted-IsContained (tx_of q) mine d.queue keys id at
              (finish (tx_of q) failed none error) j job s' failed (pos 1)
              (λ _. (refl, refl, refl, refl)) w)
          h

    pub activate_work : (id : Text) → KeptBy (activate_job_work id)
    unfolding activate_job_work activate
    activate_work id reply d' h =
        one_job d1 id (activate_job (tx_of q) id d.queue) reply d' refl
          (λ job s' at e.
            let (j, w, _) = activate_job_ok (tx_of q) id d.queue job s' e in
            Wrote-IsContained (tx_of q) mine d.queue keys id at activate j job s'
              (λ _. (refl, refl, refl, refl)) w)
          h

    pub repend_work : (id : Text) → KeptBy (repend_job_work id)
    unfolding repend_job_work repend
    repend_work id reply d' h =
        one_job d1 id (repend_job (tx_of q) id d.queue) reply d' refl
          (λ job s' at e.
            let (j, w, _, _) = repend_job_ok (tx_of q) id d.queue job s' e in
            counted-IsContained (tx_of q) mine d.queue keys id at repend j job s' j.status
              (negsuc 0) (λ _. (refl, refl, refl, refl)) w)
          h

    pub link_work :
        (id : Text) (tracker : Tracker) (ticket : Text)
        → KeptBy (link_ticket_work id tracker ticket)
    unfolding link_ticket_work relink
    link_work id tracker ticket reply d' h =
        one_job d1 id (redacting (teams mine) (link_ticket (tx_of q) id tracker ticket d.queue))
          reply d' refl
          (λ job s' at e.
            let (j, w, _) = link_ticket_ok (tx_of q) id d.queue job s' tracker ticket (
              redacting_ok (teams mine) (link_ticket (tx_of q) id tracker ticket d.queue) (job, s')
                e) in
            Wrote-IsContained (tx_of q) mine d.queue keys id at (relink tracker ticket) j job s'
              (λ _. (refl, refl, refl, refl)) w)
          h

    pub claim_work :
        (ids : List Text) (agent : Option Text) (ttl : Option ℤ)
        → KeptBy (claim_jobs_work q.caller.user_id ids agent ttl)
    unfolding claim_jobs_work
    claim_work ids agent ttl reply d' h =
        let (u, e, h1) = >>=-eq-ok (ensure_jobs_visible (tx_of q) (teams mine) ids d.queue) _ h in
        let at = ensure_jobs_visible_ok (tx_of q) mine d.queue repo_keys ids e in
        let (jobs, s', e1, e2) =
          jobs_reply_ok d1 (claim_jobs (tx_of q) ids q.caller.user_id agent ttl d.queue) reply d'
            h1 in
        subst Kept (sym e2) (
          claim_jobs-IsContained (tx_of q) mine d.queue keys ids q.caller.user_id agent ttl jobs s'
            at e1)

    request_cancel_kept :
        (id : Text) (reason : Option Text) (job : Job) (s' : Store)
        → Shown id
        → request_cancel (tx_of q) id q.caller.user_id reason d.queue ≡ ok (job, s')
        → IsContained (tx_of q) mine d.queue s'
    unfolding cancel_now stamp_cancel
    request_cancel_kept id reason job s' at e =
        let (j, cases) = request_cancel_ok (tx_of q) id d.queue job s' q.caller.user_id reason e in
        elim cases [
          | inl (_, w) ↦
              Wrote-IsContained (tx_of q) mine d.queue keys id at
                (cancel_now (tx_of q) q.caller.user_id reason) j job s'
                (λ _. (refl, refl, refl, refl)) w
          | inr (_, w) ↦
              Wrote-IsContained (tx_of q) mine d.queue keys id at
                (stamp_cancel (tx_of q) q.caller.user_id reason) j job s'
                (λ _. (refl, refl, refl, refl)) w
        ]

    pub request_cancel_work_kept :
        (id : Text) (reason : Option Text) → KeptBy (request_cancel_work q id reason)
    unfolding request_cancel_work
    request_cancel_work_kept id reason reply d' h =
        let (u, e, h1) =
          >>=-eq-ok (ensure_jobs_visible (tx_of q) (teams mine) (id ∷ []) d.queue) _ h in
        let at = (ensure_jobs_visible_ok (tx_of q) mine d.queue repo_keys (id ∷ []) e).0 in
        let (r, e1, h2) =
          >>=-eq-ok (request_cancel (tx_of q) id q.caller.user_id reason d.queue) _ h1 in
        let queue : r.1 ≡ d'.queue = elim (Bool-cases (same_status r.0.status cancelled)) [
          | inl y ↦ ground (arith, y)
          | inr n ↦ ground (arith, n)
        ] in
        subst (IsContained (tx_of q) mine d.queue) queue
          (request_cancel_kept id reason r.0 r.1 at e1)

    pub cancel_work :
        (id : Text) (remark : Option Text) (expected : Option ℕ)
        → KeptBy (cancel_job_work q id remark expected)
    unfolding cancel_job_work confirm_cancel
    cancel_work id remark expected reply d' h =
        let (u, e, h1) =
          >>=-eq-ok (ensure_jobs_visible (tx_of q) (teams mine) (id ∷ []) d.queue) _ h in
        let at = (ensure_jobs_visible_ok (tx_of q) mine d.queue repo_keys (id ∷ []) e).0 in
        let (r, e1, h2) =
          >>=-eq-ok (cancel_job (tx_of q) id q.caller.user_id remark expected d.queue) _ h1 in
        let (j, w, _, _) =
          cancel_job_ok (tx_of q) id d.queue r.0 r.1 q.caller.user_id remark expected e1 in
        subst (IsContained (tx_of q) mine d.queue) (ground arith) (
          Wrote-IsContained (tx_of q) mine d.queue keys id at (confirm_cancel (tx_of q) remark) j
            r.0 r.1 (λ _. (refl, refl, refl, refl)) w)

    pub set_dependencies_kept :
        (id : Text) (add remove : List Text) → KeptBy (set_dependencies_work id add remove)
    unfolding set_dependencies_work
    set_dependencies_kept id add remove reply d' h =
        let (u, e, h1) =
          >>=-eq-ok (ensure_jobs_visible (tx_of q) (teams mine) (id ∷ (add ++ remove)) d.queue) _
            h in
        let at =
          (ensure_jobs_visible_ok (tx_of q) mine d.queue repo_keys (id ∷ (add ++ remove)) e).0 in
        let (r, e1, h2) =
          >>=-eq-ok (redacting (teams mine) (set_dependencies (tx_of q) id add remove d.queue)) _
            h1 in
        subst (IsContained (tx_of q) mine d.queue) (ground arith) (
          set_dependencies-IsContained (tx_of q) mine d.queue keys id at add remove r.0 r.1
            (redacting_ok (teams mine) (set_dependencies (tx_of q) id add remove d.queue) r e1))

    pub delete_work : (id : Text) → KeptBy (delete_job_work id)
    unfolding delete_job_work has_hidden_dependents restriction is_all
    delete_work id reply d' h =
        let (u, e, h1) =
          >>=-eq-ok (ensure_jobs_visible (tx_of q) (teams mine) (id ∷ []) d.queue) _ h in
        let at = (ensure_jobs_visible_ok (tx_of q) mine d.queue repo_keys (id ∷ []) e).0 in
        let (e1, h2) =
          guard-eq-ok
            (if has_hidden_dependents (tx_of q) id (teams mine) d.queue then false else true)
            (invalid hidden_dependents) _ h1 in
        let (s', e2, h3) = >>=-eq-ok (delete_job (tx_of q) id d.queue) _ h2 in
        subst (IsContained (tx_of q) mine d.queue) (ground arith)
          (delete_job-IsContained (tx_of q) mine d.queue keys id at s' (ground arith) e2)
