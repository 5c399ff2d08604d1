-- ===== src/Jobs/Isolation.antt =====
-- Tenant isolation: a call that is pinned to one org leaves every row of another org as it was.
use mathlib.Core.List.{append-nil}
use otto_factory.Common.{
  Bool, List, Option, Option-cases, [], arith, inl, inr, not, refl, subst, sym, true, ℕ, ◌&&◌, ◌++◌,
  ◌==◌, ◌∙◌, ◌∷◌, ◌≡◌, ◌≢◌,
}
use otto_factory.Common.Int.{negsuc, ℤ}
use otto_factory.Common.Text.{Text, text_eq}
use otto_factory.Error.{Status, completed, dependency_cycle, failed, job_not_found, ok}
use otto_factory.Error.Laws.{guard-eq-ok}
use otto_factory.Jobs.Cancel.{
  delete_job, is_about, is_repo, mentions, unlink, widen, widen_messages,
}
use otto_factory.Jobs.Claim.{
  claim, claim_jobs, clamp_claim_ttl, in_batch, reap, reap_batch, sort_dedup,
}
use otto_factory.Jobs.ClaimInvariant.{claim_jobs_ok}
use otto_factory.Jobs.Counters.{
  add_completed, add_failed, bump_rows, bump_seq, greatest_zero, is_org, next_job_seq, no_counters,
}
use otto_factory.Jobs.Create.{insert_row, row}
use otto_factory.Jobs.Dependencies.{add_all, insert_edge, remove_all, same_edge, set_dependencies}
use otto_factory.Jobs.Dependencies.Effects.{set_dependencies_ok}
use otto_factory.Jobs.Effects.{delete_job_ok, written_at}
use otto_factory.Jobs.Invariant.{KeepsKey}
use otto_factory.Jobs.Row.{in_org_job, is_job, is_stranded}
use otto_factory.Jobs.Totals.{fetch-upsert}
use otto_factory.Store.{Dependency, Job, Message, OrgCounters, Store, Tx}
use otto_factory.Table.{delete_where, exists_where, fetch_optional, select_where, update_where}
use otto_factory.Table.Rows.{select-append, select-delete_other, select-update_other}

-- What org `o` can see of two stores is the same.
pub record IsUntouched (o : ℕ) (s s' : Store) : Type 0 where
  pub jobs : select_where (in_org_job o) s'.jobs ≡ select_where (in_org_job o) s.jobs
  pub dependencies :
      select_where (λ d. d.org_id == o) s'.job_dependencies
      ≡ select_where (λ d. d.org_id == o) s.job_dependencies
  pub counters :
      fetch_optional (is_org o) s'.org_counters ≡ fetch_optional (is_org o) s.org_counters
  pub messages :
      select_where (λ m. m.org_id == o) s'.messages ≡ select_where (λ m. m.org_id == o) s.messages
  pub repos : s'.repos ≡ s.repos

pub same-IsUntouched : (o : ℕ) (s : Store) → IsUntouched o s s
same-IsUntouched o s = record {
  jobs = refl;
  dependencies = refl;
  counters = refl;
  messages = refl;
  repos = refl;
}

module _ (o : ℕ) (tx : Tx) (other : o ≢ tx.org) where
  jobs-update :
      (p : Job → Bool) (f : Job → Job) (t : List Job)
      → ((x : Job) → p x ≡ true → x.org_id ≡ tx.org)
      → KeepsKey f
      → select_where (in_org_job o) (update_where p f t) ≡ select_where (in_org_job o) t
  unfolding in_org_job
  jobs-update p f t h k =
      select-update_other (λ (j : Job). j.org_id == o) p f t (λ x e. ground (arith, h x e))
        (λ x e. ground (arith, h x e, k x))

  is_job-org : (id : Text) (x : Job) → is_job tx.org id x ≡ true → x.org_id ≡ tx.org
  unfolding is_job
  is_job-org id x h = ground arith

  in_batch-org : (ids : List Text) (x : Job) → in_batch tx.org ids x ≡ true → x.org_id ≡ tx.org
  unfolding in_batch
  in_batch-org ids x h = ground arith

  counters-bump :
      (status : Status) (delta : ℤ) (t : List OrgCounters)
      → fetch_optional (is_org o) (bump_rows tx.org status delta t) ≡ fetch_optional (is_org o) t
  unfolding bump_rows add_completed add_failed
  counters-bump completed delta t = ground (
    arith,
    fetch-upsert tx.org (record (no_counters tx.org) { jobs_completed_total = greatest_zero delta })
        (add_completed delta) t refl (λ c. refl) o,
  )
  counters-bump failed delta t = ground (
    arith,
    fetch-upsert tx.org (record (no_counters tx.org) { jobs_failed_total = greatest_zero delta })
        (add_failed delta) t refl (λ c. refl) o,
  )
  counters-bump _ delta t = refl

  module _ (id : Text) (s : Store) where
    pub written-IsUntouched :
        (f : Job → Job) (s' : Store)
        → KeepsKey f
        → s' ≡ written_at tx.org id f s
        → IsUntouched o s s'
    written-IsUntouched f s' k e = subst (IsUntouched o s) (sym e) (record {
      jobs = jobs-update (is_job tx.org id) f s.jobs (is_job-org id) k;
      dependencies = refl;
      counters = refl;
      messages = refl;
      repos = refl;
    })

    pub counted-IsUntouched :
        (f : Job → Job) (status : Status) (delta : ℤ) (s' : Store)
        → KeepsKey f
        → s' ≡ record (written_at tx.org id f s) {
          org_counters = bump_rows tx.org status delta s.org_counters;
        }
        → IsUntouched o s s'
    counted-IsUntouched f status delta s' k e = subst (IsUntouched o s) (sym e) (record {
      jobs = jobs-update (is_job tx.org id) f s.jobs (is_job-org id) k;
      dependencies = refl;
      counters = counters-bump status delta s.org_counters;
      messages = refl;
      repos = refl;
    })

    widen-messages :
        select_where (λ (m : Message). m.org_id == o) (widen_messages tx id s)
        ≡ select_where (λ (m : Message). m.org_id == o) s.messages
    unfolding widen_messages widen is_about
    widen-messages = elim (Option-cases (fetch_optional (is_job tx.org id) s.jobs)) [
      | inl e ↦ rw (e, widen_messages)
      | inr (j, e) ↦ elim (Option-cases (fetch_optional (is_repo j.org_id j.repo_id) s.repos)) [
        | inl e1 ↦ rw (e, widen_messages, e1)
        | inr (r, e1) ↦
            rw (e, widen_messages, e1)
              (select-update_other (λ (m : Message). m.org_id == o) (is_about tx.org id) (widen j r)
                s.messages (λ x h. ground arith) (λ x h. ground arith))
      ]
    ]

    pub delete_job-IsUntouched : (s' : Store) → delete_job tx id s ≡ ok s' → IsUntouched o s s'
    unfolding in_org_job is_job mentions is_about
    delete_job-IsUntouched s' h =
        let (j, found, jobs, counters, deps, messages, repos) = delete_job_ok tx id s s' h in
        record {
          jobs =
              rw jobs (
                select-delete_other (in_org_job o) (is_job tx.org id) s.jobs (λ x e. ground arith));
          dependencies = rw deps (
              select-delete_other (λ (d : Dependency). d.org_id == o) (mentions tx.org id)
                s.job_dependencies (λ x e. ground arith));
          counters = rw counters (counters-bump j.status (negsuc 0) s.org_counters);
          messages = rw messages (
              select-update_other (λ (m : Message). m.org_id == o) (is_about tx.org id) unlink
                (widen_messages tx id s) (λ x e. ground arith) (λ x e. ground arith)
              ∙ widen-messages);
          repos = repos;
        }

    deps-insert :
        (dep : Text) (t : List Dependency)
        → select_where (λ (d : Dependency). d.org_id == o) (insert_edge tx.org id dep t)
          ≡ select_where (λ (d : Dependency). d.org_id == o) t
    unfolding insert_edge select_where
    deps-insert dep t =
        let new : Dependency = record { org_id = tx.org; job_id = id; depends_on = dep } in
        ground (
          arith,
          select-append (λ (d : Dependency). d.org_id == o) t (new ∷ []),
          append-nil (select_where (λ (d : Dependency). d.org_id == o) t),
        )

    deps-add :
        (jobs : List Job) (add : List Text) (t u : List Dependency)
        → add_all tx.org id jobs add t ≡ ok u
        → select_where (λ (d : Dependency). d.org_id == o) u
          ≡ select_where (λ (d : Dependency). d.org_id == o) t
    unfolding add_all
    deps-add jobs [] t u h = ground arith
    deps-add jobs (dep ∷ rest) t u h =
        let (e0, h0) = guard-eq-ok (not (text_eq dep id)) (dependency_cycle id id) _ h in
        let (e1, h1) =
          guard-eq-ok (exists_where (is_job tx.org dep) jobs) (job_not_found dep) _ h0 in
        deps-add jobs rest (insert_edge tx.org id dep t) u h1 ∙ deps-insert dep t

    deps-remove :
        (remove : List Text) (t : List Dependency)
        → select_where (λ (d : Dependency). d.org_id == o) (remove_all tx.org id remove t)
          ≡ select_where (λ (d : Dependency). d.org_id == o) t
    unfolding remove_all same_edge
    deps-remove [] t = refl
    deps-remove (dep ∷ rest) t =
        deps-remove rest (delete_where (same_edge tx.org id dep) t)
        ∙ select-delete_other (λ (d : Dependency). d.org_id == o) (same_edge tx.org id dep) t
            (λ x e. ground arith)

    pub set_dependencies-IsUntouched :
        (add remove deps : List Text) (s' : Store)
        → set_dependencies tx id add remove s ≡ ok (deps, s')
        → IsUntouched o s s'
    set_dependencies-IsUntouched add remove deps s' h =
        let l = set_dependencies_ok tx id add remove s deps s' h in
        subst (IsUntouched o s) (sym l.store) (record {
          jobs = refl;
          dependencies =
              deps-remove remove l.added
              ∙ deps-add s.jobs add s.job_dependencies l.added l.inserted;
          counters = refl;
          messages = refl;
          repos = refl;
        })

  pub claim_jobs-IsUntouched :
      (ids : List Text) (claimer : ℕ) (label : Option Text) (ttl : Option ℤ) (s : Store)
      (claimed : List Job) (s' : Store)
      → claim_jobs tx ids claimer label ttl s ≡ ok (claimed, s')
      → IsUntouched o s s'
  unfolding claim reap reap_batch
  claim_jobs-IsUntouched ids claimer label ttl s claimed s' h =
      let c = claim_jobs_ok tx ids claimer label ttl s h in
      let batch = sort_dedup ids in
      subst (IsUntouched o s) (sym c.store) (record {
        jobs =
            jobs-update (in_batch tx.org batch) (claim tx claimer c.stored (clamp_claim_ttl ttl))
              (reap_batch tx batch s.jobs) (in_batch-org batch) (λ x. (refl, refl))
            ∙ jobs-update (λ j. in_batch tx.org batch j && is_stranded tx.now j) reap s.jobs
                (λ x e. in_batch-org batch x (ground arith)) (λ x. (refl, refl));
        dependencies = refl;
        counters = refl;
        messages = refl;
        repos = refl;
      })

  pub next_job_seq-IsUntouched : (s : Store) → IsUntouched o s (next_job_seq tx s).1
  unfolding next_job_seq bump_seq
  next_job_seq-IsUntouched s = record {
    jobs = refl;
    dependencies = refl;
    counters = ground (
      arith,
      fetch-upsert tx.org (record (no_counters tx.org) { next_job_seq = 2 }) bump_seq s.org_counters
          refl (λ c. refl) o,
    );
    messages = refl;
    repos = refl;
  }

  pub insert_row-IsUntouched :
      (j job : Job) (s s' : Store)
      → j.org_id ≡ tx.org
      → insert_row j s ≡ row job s'
      → IsUntouched o s s'
  unfolding insert_row in_org_job select_where
  insert_row-IsUntouched j job s s' e h =
      let store : s' ≡ record s { jobs = s.jobs ++ j ∷ [] } = ground arith in
      subst (IsUntouched o s) (sym store) (record {
        jobs = ground (
          arith,
          select-append (λ (k : Job). k.org_id == o) s.jobs (j ∷ []),
          append-nil (select_where (λ (k : Job). k.org_id == o) s.jobs),
        );
        dependencies = refl;
        counters = refl;
        messages = refl;
        repos = refl;
      })
