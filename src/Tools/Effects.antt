-- ===== src/Tools/Effects.antt =====
-- What each operation on the queue does to the jobs that a caller on some teams does not see, where the
-- jobs that it names are ones that the caller sees.
use mathlib.Core.List.{append-nil}
use otto_factory.Common.{
  Bool, Bool-cases, List, ap, Option, [], arith, false, inl, inr, not, refl, some, subst, sym, true,
  ℕ, ◌&&◌, ◌∙◌, ◌∷◌, ◌≡◌, ◌≤◌,
}
use otto_factory.Common.Int.{ℤ}
use otto_factory.Common.Lists.{All}
use otto_factory.Common.Text.{Text, text_eq, text_eq_refl}
use otto_factory.Error.{Status, dependency_cycle, job_not_found, ok}
use otto_factory.Error.Laws.{guard-eq-ok}
use otto_factory.Jobs.Cancel.{delete_job, mentions}
use otto_factory.Jobs.Claim.{
  claim, claim_jobs, clamp_claim_ttl, in_batch, reap, reap_batch, sort_dedup,
}
use otto_factory.Jobs.ClaimInvariant.{claim_jobs_ok}
use otto_factory.Jobs.Batch.{has_id-sort_dedup}
use otto_factory.Jobs.Dependencies.{add_all, insert_edge, remove_all, same_edge, set_dependencies}
use otto_factory.Jobs.Dependencies.Effects.{set_dependencies_ok}
use otto_factory.Jobs.Effects.{Wrote, WroteCounted, delete_job_ok}
use otto_factory.Jobs.Row.{is_job, is_stranded}
use otto_factory.Jobs.Visible.{is_hidden_dependent}
use otto_factory.Store.{Dependency, Job, Store, Tx}
use otto_factory.Table.{count_where, delete_where, exists_where, select_where, update_where}
use otto_factory.Table.Each.{select-delete_each, select-update_each}
use otto_factory.Table.Rows.{All-map, All-update, exists-false, select-append, select-delete_other}
use otto_factory.Tools.Hidden.{
  IsContained, KeepsPlace, Seen, SeenAt, batch-Seen, deleted-jobs, is_hidden, job_visible-keeps,
  of_hidden, Seen-is_hidden, seen-of_hidden, written-jobs,
}

-- New edges of a job that none of the hidden ones is: `t` is a store whose edges these are.
module _ (tx : Tx) (mine : List ℕ) (s : Store) (id : Text)
    (free : (d : Dependency) → text_eq d.job_id id ≡ true → of_hidden tx mine s d ≡ false) where
  edges-insert :
      (dep : Text) (t : List Dependency)
      → select_where (of_hidden tx mine s) (insert_edge tx.org id dep t)
        ≡ select_where (of_hidden tx mine s) t
  unfolding insert_edge select_where
  edges-insert dep t =
      let new : Dependency = record { org_id = tx.org; job_id = id; depends_on = dep } in
      ground (
        arith,
        free new (text_eq_refl id),
        select-append (of_hidden tx mine s) t (new ∷ []),
        append-nil (select_where (of_hidden tx mine s) t),
      )

  edges-add :
      (jobs : List Job) (add : List Text) (t u : List Dependency)
      → add_all tx.org id jobs add t ≡ ok u
      → select_where (of_hidden tx mine s) u ≡ select_where (of_hidden tx mine s) t
  unfolding add_all
  edges-add jobs [] t u h = ground arith
  edges-add jobs (dep ∷ rest) t u h =
      let (e0, h0) = guard-eq-ok (not (text_eq dep id)) (dependency_cycle id id) _ h in
      let (e1, h1) = guard-eq-ok (exists_where (is_job tx.org dep) jobs) (job_not_found dep) _ h0 in
      edges-add jobs rest (insert_edge tx.org id dep t) u h1 ∙ edges-insert dep t

  edges-remove :
      (remove : List Text) (t : List Dependency)
      → select_where (of_hidden tx mine s) (remove_all tx.org id remove t)
        ≡ select_where (of_hidden tx mine s) t
  unfolding remove_all same_edge
  edges-remove [] t = refl
  edges-remove (dep ∷ rest) t =
      edges-remove rest (delete_where (same_edge tx.org id dep) t)
      ∙ select-delete_other (of_hidden tx mine s) (same_edge tx.org id dep) t
          (λ d e. free d (ground arith))

  pub linked-edges :
      (add remove deps : List Text) (t t' : Store)
      → set_dependencies tx id add remove t ≡ ok (deps, t')
      → (select_where (of_hidden tx mine s) t'.job_dependencies
          ≡ select_where (of_hidden tx mine s) t.job_dependencies)
        × (t'.jobs ≡ t.jobs)
        × (t'.repos ≡ t.repos)
  linked-edges add remove deps t t' h =
      let l = set_dependencies_ok tx id add remove t deps t' h in
      (
        ap (λ (u : Store). select_where (of_hidden tx mine s) u.job_dependencies) l.store
            ∙ (edges-remove remove l.added
                ∙ edges-add t.jobs add t.job_dependencies l.added l.inserted),
        ap (λ (u : Store). u.jobs) l.store,
        ap (λ (u : Store). u.repos) l.store,
      )

module _ (tx : Tx) (mine : List ℕ) (s : Store)
    (keys : (id : Text) → count_where (is_job tx.org id) s.jobs ≤ 1) where
  module _ (id : Text) (at : SeenAt tx mine s id) where
    pub Wrote-IsContained :
        (f : Job → Job) (j job : Job) (s' : Store)
        → KeepsPlace f
        → Wrote tx id s j f job s'
        → IsContained tx mine s s'
    Wrote-IsContained f j job s' k w =
        subst (IsContained tx mine s) (sym w.2) (record {
          jobs = written-jobs tx mine s keys id f at k;
          dependencies = refl;
          repos = refl;
        })

    pub counted-IsContained :
        (f : Job → Job) (j job : Job) (s' : Store) (status : Status) (delta : ℤ)
        → KeepsPlace f
        → WroteCounted tx id s job s' j f status delta
        → IsContained tx mine s s'
    counted-IsContained f j job s' status delta k w =
        subst (IsContained tx mine s) (sym w.2) (record {
          jobs = written-jobs tx mine s keys id f at k;
          dependencies = refl;
          repos = refl;
        })

    pub set_dependencies-IsContained :
        (add remove deps : List Text) (s' : Store)
        → set_dependencies tx id add remove s ≡ ok (deps, s')
        → IsContained tx mine s s'
    set_dependencies-IsContained add remove deps s' h =
        let (edges, jobs, repos) =
          linked-edges tx mine s id (λ d e. seen-of_hidden tx mine s keys id d at e) add remove deps
            s s' h in
        record {
          jobs = ap (select_where (is_hidden tx mine s)) jobs;
          dependencies = edges;
          repos = repos;
        }

    -- The edges that go with a deleted job are its own, and those of the jobs that depend on it.
    pub delete_job-IsContained :
        (s' : Store)
        → exists_where (is_hidden_dependent tx id (some mine) s) s.job_dependencies ≡ false
        → delete_job tx id s ≡ ok s'
        → IsContained tx mine s s'
    delete_job-IsContained s' none_hidden h =
        let (j, found, jobs, counters, deps, messages, repos) = delete_job_ok tx id s s' h in
        record {
          jobs = rw jobs (deleted-jobs tx mine s keys id at);
          dependencies = rw deps (
              select-delete_each (of_hidden tx mine s) (mentions tx.org id) s.job_dependencies (
                All-map (λ d. is_hidden_dependent tx id (some mine) s d ≡ false)
                  (λ d. mentions tx.org id d ≡ true → of_hidden tx mine s d ≡ false)
                  s.job_dependencies mentioned
                  (exists-false (is_hidden_dependent tx id (some mine) s) s.job_dependencies
                    none_hidden)));
          repos = repos;
        }
      where
        mentioned :
            (d : Dependency)
            → is_hidden_dependent tx id (some mine) s d ≡ false
            → mentions tx.org id d ≡ true
            → of_hidden tx mine s d ≡ false
        mentioned d n e = elim (Bool-cases (text_eq d.job_id id)) [
          | inl own ↦ seen-of_hidden tx mine s keys id d at own
          | inr other ↦
              unfold mentions in unfold is_hidden_dependent in unfold of_hidden in ground arith
        ]

  -- The rows of a batch whose ids the caller sees.
  batch-jobs :
      (p : Job → Bool) (f : Job → Job) (t : List Job)
      → KeepsPlace f
      → All (λ x. p x ≡ true → Seen tx mine s x) t
      → select_where (is_hidden tx mine s) (update_where p f t)
        ≡ select_where (is_hidden tx mine s) t
  batch-jobs p f t k a = select-update_each (is_hidden tx mine s) p f t (
      All-map (λ x. p x ≡ true → Seen tx mine s x)
        (λ x. p x ≡ true → (is_hidden tx mine s x ≡ false) × (is_hidden tx mine s (f x) ≡ false)) t
        (λ x h e. (
          Seen-is_hidden tx mine s x (h e),
          Seen-is_hidden tx mine s (f x) (job_visible-keeps f (some mine) s.repos x k ∙ h e),
        ))
        a)

  pub claim_jobs-IsContained :
      (ids : List Text) (claimer : ℕ) (label : Option Text) (ttl : Option ℤ) (claimed : List Job)
      (s' : Store)
      → All (SeenAt tx mine s) ids
      → claim_jobs tx ids claimer label ttl s ≡ ok (claimed, s')
      → IsContained tx mine s s'
  unfolding claim reap reap_batch in_batch
  claim_jobs-IsContained ids claimer label ttl claimed s' a h =
      let c = claim_jobs_ok tx ids claimer label ttl s h in
      let batch = sort_dedup ids in
      let open_rows = λ (j : Job). in_batch tx.org batch j && is_stranded tx.now j in
      let seen : All (λ x. in_batch tx.org batch x ≡ true → Seen tx mine s x) s.jobs =
        All-map (λ x. in_batch tx.org ids x ≡ true → Seen tx mine s x)
          (λ x. in_batch tx.org batch x ≡ true → Seen tx mine s x) s.jobs
          (λ x g e. g (rw (has_id-sort_dedup x.id ids) at e)) (batch-Seen tx mine s keys ids a) in
      subst (IsContained tx mine s) (sym c.store) (record {
        jobs =
            batch-jobs (in_batch tx.org batch) (claim tx claimer c.stored (clamp_claim_ttl ttl))
              (reap_batch tx batch s.jobs) (λ x. (refl, refl, refl, refl))
              (All-update (λ x. in_batch tx.org batch x ≡ true → Seen tx mine s x) open_rows reap
                s.jobs
                (λ x e g e1.
                  job_visible-keeps reap (some mine) s.repos x (λ y. (refl, refl, refl, refl))
                  ∙ g e1)
                seen)
            ∙ batch-jobs open_rows reap s.jobs (λ x. (refl, refl, refl, refl))
                (All-map (λ x. in_batch tx.org batch x ≡ true → Seen tx mine s x)
                  (λ x. open_rows x ≡ true → Seen tx mine s x) s.jobs (λ x g e. g (ground arith))
                  seen);
        dependencies = refl;
        repos = refl;
      })
