-- ===== src/Tools/Opening.antt =====
-- What a tool that succeeded had passed before its work: the scope, the caller's teams, the check of the
-- transaction and the record of the call; and that each job it named is one that the caller sees.
use otto_factory.Billing.Charges.{classify-free}
use otto_factory.Billing.Meter.{billable_blocked, charge, charge_completion, record_replay}
use otto_factory.Billing.Outbox.{enqueue, jobs_completed, record_job_completed, tool_of, usage_row}
use otto_factory.Common.{
  Bool, Bool-cases, List, Option, Option-cases, [], arith, false, inl, inr, none, &&-eq-true, refl,
  some, subst, sym, true, ℕ, ◌∙◌, ◌&&◌, ◌++◌, ◌==◌, ◌∷◌, ◌≡◌, ◌≤◌, ◌||◌, if◌then◌else◌,
}
use otto_factory.Common.Lists.{All}
use otto_factory.Common.Text.{Text, codes}
use otto_factory.Error.{job_not_found, missing_scope, ok}
use otto_factory.Error.Laws.{>>=-eq-ok, guard-eq-ok, ok_or-eq-ok}
use otto_factory.Jobs.Cancel.{is_repo}
use otto_factory.Jobs.Row.{get_job, is_job}
use otto_factory.Jobs.Visible.{get_job_visible_held, job_visible, on_hidden_repo, outside}
use otto_factory.Lifecycle.{Database, begin_live, revoked}
use otto_factory.Repos.{hold_repo_visible}
use otto_factory.Store.{Job, Repo, Store, Tx}
use otto_factory.Table.{count_where, exists_where, fetch_optional}
use otto_factory.Table.Each.{exists-none}
use otto_factory.Table.Keys.{All-key}
use otto_factory.Table.Rows.{All-map, fetch_optional-test}
use otto_factory.Teams.{TeamScope, allows, is_all, teams}
use otto_factory.Tools.{
  Reply, Request, Work, charge_call, charge_completed, ensure_each, ensure_jobs_visible, has_scope,
  metered, open_call, open_tx, record_replayed, require_scope, team_scope,
}
use otto_factory.Tools.Hidden.{SeenAt}

abbrev pub tx_of : Request → Tx
tx_of q = record { org = q.caller.org_id; now = q.now }

-- The database with the row of a call recorded.
abbrev pub recorded : Request → Text → Bool → Database → Database
recorded q tool billable d = record d {
  usage_outbox =
      d.usage_outbox
      ++ usage_row q.now q.usage_id q.event_id q.caller.org_id (some q.caller.user_id) tool billable
          (if billable then some jobs_completed else none)
        ∷ [];
}

pub record Opened (q : Request) (scope : Text) (d : Database) (team : TeamScope) (tx : Tx)
    : Type 0 where
  pub scoped : has_scope q.caller scope ≡ true
  pub teams_known : team_scope q ≡ ok team
  pub admitted : revoked q.now q.caller.org_id (some q.caller.user_id) d ≡ false
  pub opened : tx ≡ tx_of q

module _ (q : Request) (d : Database) where
  pub open_call_ok :
      (scope : Text) (team : TeamScope) (tx : Tx)
      → open_call q scope d ≡ ok (team, tx)
      → Opened q scope d team tx
  unfolding open_call require_scope open_tx begin_live
  open_call_ok scope team tx h =
      let (e0, h0) = guard-eq-ok (has_scope q.caller scope) (missing_scope scope) _ h in
      let (t, e1, h1) = >>=-eq-ok (team_scope q) _ h0 in
      let (x, e2, h2) = >>=-eq-ok (open_tx q d) _ h1 in
      record {
        scoped = e0;
        teams_known = ground (arith, e1);
        admitted = ground arith;
        opened = ground arith;
      }

  pub charge_call_ok :
      (tool : Text) (d1 : Database) → charge_call q tool d ≡ ok d1 → d1 ≡ recorded q tool false d
  unfolding charge_call charge enqueue
  charge_call_ok tool d1 h = ground (arith, classify-free tool)

  pub record_replayed_ok :
      (tool : Text) (d1 : Database)
      → record_replayed q tool d ≡ ok d1
      → d1 ≡ recorded q tool false d
  unfolding record_replayed record_replay enqueue
  record_replayed_ok tool d1 h = ground arith

  pub charge_completed_ok :
      (d1 : Database)
      → charge_completed q d ≡ ok d1
      → (billable_blocked q.warmed ≡ false) × (d1 ≡ recorded q (codes "complete_job") true d)
  unfolding charge_completed charge_completion record_job_completed enqueue tool_of
  charge_completed_ok d1 h = (ground arith, ground arith)

  pub metered_ok :
      (scope tool : Text) (work : Work) (r : Reply) (d' : Database)
      → metered q scope tool work d ≡ ok (r, d')
      → (team : TeamScope) × Opened q scope d team (tx_of q)
        × (work team (tx_of q) (recorded q tool false d) ≡ ok (r, d'))
  unfolding metered
  metered_ok scope tool work r d' h =
      let (o, e0, h0) = >>=-eq-ok (open_call q scope d) _ h in
      let (d1, e1, h1) = >>=-eq-ok (charge_call q tool d) _ h0 in
      let op = open_call_ok scope o.0 o.1 e0 in
      (
        o.0,
        subst (Opened q scope d o.0) op.opened op,
        sym (λ i. work o.0 (op.opened i) (charge_call_ok tool d1 e1 i)) ∙ h1,
      )

allows-outside :
    (mine : List ℕ) (team : Option ℕ) → allows (teams mine) team ≡ true → outside mine team ≡ false
unfolding allows
allows-outside mine none h = refl
allows-outside mine (some t) h = ground arith

module _ (tx : Tx) (mine : List ℕ) (s : Store)
    (repo_keys : (id : ℕ) → count_where (is_repo tx.org id) s.repos ≤ 1) where
  -- A repo that is held is not one that is hidden.
  held-visible :
      (id : ℕ)
      → hold_repo_visible tx id (teams mine) (record { repos = s.repos; remotes = [] }) ≡ true
      → exists_where
          (λ (r : Repo). r.org_id == tx.org && r.id == id && outside mine r.team_id)
          s.repos
        ≡ false
  unfolding hold_repo_visible allows is_repo is_all
  held-visible id h = elim (Option-cases (fetch_optional (is_repo tx.org id) s.repos)) [
    | inl e ↦ absurd (ground arith)
    | inr (r, e) ↦
        exists-none (λ (x : Repo). x.org_id == tx.org && x.id == id && outside mine x.team_id)
          s.repos
          (All-map (λ (x : Repo). is_repo tx.org id x ≡ true → outside mine x.team_id ≡ false)
            (λ (x : Repo). (x.org_id == tx.org && x.id == id && outside mine x.team_id) ≡ false)
            s.repos
            (λ x g. elim (Bool-cases (is_repo tx.org id x)) [
              | inl y ↦ let z = g y in ground arith
              | inr n ↦ ground arith
            ])
            (All-key (λ (x : Repo). outside mine x.team_id ≡ false) (is_repo tx.org id) s.repos r
              (repo_keys id) e (ground arith)))
  ]

  held_ok :
      (id : Text) (j : Job) → get_job_visible_held tx id (teams mine) s ≡ ok j → SeenAt tx mine s id
  unfolding get_job_visible_held get_job is_all job_visible on_hidden_repo is_job
  held_ok id j h =
      let (k, e, h1) = >>=-eq-ok (get_job tx id s) _ h in
      let (g, h2) =
        guard-eq-ok
          (is_all (teams mine)
            || (allows (teams mine) k.team_id
                && hold_repo_visible tx k.repo_id (teams mine)
                    (record { repos = s.repos; remotes = [] })))
          (job_not_found id) _ h1 in
      let found = ok_or-eq-ok (fetch_optional (is_job tx.org id) s.jobs) (job_not_found id) e in
      let own : k.org_id ≡ tx.org =
        ground (arith, fetch_optional-test (is_job tx.org id) s.jobs k found) in
      let (a, b) =
        &&-eq-true (allows (teams mine) k.team_id)
          (hold_repo_visible tx k.repo_id (teams mine) (record { repos = s.repos; remotes = [] }))
          g in
      (k, found, rw (allows-outside mine k.team_id a, own, held-visible k.repo_id b) refl)

  pub ensure_each_ok :
      (ids : List Text) → ensure_each tx (teams mine) ids s ≡ ok tt → All (SeenAt tx mine s) ids
  unfolding ensure_each
  ensure_each_ok [] h = tt
  ensure_each_ok (id ∷ ids) h =
      let (j, e, h1) = >>=-eq-ok (get_job_visible_held tx id (teams mine) s) _ h in
      (held_ok id j e, ensure_each_ok ids h1)

  pub ensure_jobs_visible_ok :
      (ids : List Text)
      → ensure_jobs_visible tx (teams mine) ids s ≡ ok tt
      → All (SeenAt tx mine s) ids
  unfolding ensure_jobs_visible is_all
  ensure_jobs_visible_ok ids h = ensure_each_ok ids h
