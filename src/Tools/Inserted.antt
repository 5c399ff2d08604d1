-- ===== src/Tools/Inserted.antt =====
-- What add_job, when it succeeds, leaves of the jobs that the caller may not see.
use mathlib.Core.List.{append-nil}
use otto_factory.Common.{
  Bool-cases, List, Option, [], ap, arith, false, inl, inr, not, refl, some, subst, sym, true, ℕ,
  ◌&&◌, ◌==◌, ◌∙◌, ◌∷◌, ◌≡◌,
}
use otto_factory.Common.Text.{Text, text_eq, text_eq_sound}
use otto_factory.Error.{ok}
use otto_factory.Jobs.Counters.{next_job_seq}
use otto_factory.Jobs.Create.{Payload, add_job}
use otto_factory.Jobs.Created.{Added, Created, add_job_ok}
use otto_factory.Jobs.Row.{is_job}
use otto_factory.Jobs.Visible.{job_visible}
use otto_factory.Store.{Dependency, Job, Store, Tx}
use otto_factory.Table.{select_where}
use otto_factory.Table.Each.{exists-none}
use otto_factory.Table.Rows.{All-map, exists-false, select-append}
use otto_factory.Tools.Effects.{linked-edges}
use otto_factory.Tools.Hidden.{IsContained, is_hidden, of_hidden, same-IsContained}

-- A row under an id that no job had is none of the hidden ones, and nor are its edges.
module _ (tx : Tx) (mine : List ℕ) (s t : Store) (job : Job) (a : Added tx s t job) where
  added-jobs : select_where (is_hidden tx mine s) t.jobs ≡ select_where (is_hidden tx mine s) s.jobs
  unfolding is_hidden select_where
  added-jobs = rw a.store (
      ground (
        arith,
        a.fresh,
        select-append (is_hidden tx mine s) s.jobs (job ∷ []),
        append-nil (select_where (is_hidden tx mine s) s.jobs),
      ))

  added-free : (d : Dependency) → text_eq d.job_id job.id ≡ true → of_hidden tx mine s d ≡ false
  unfolding of_hidden is_job
  added-free d e = elim (Bool-cases (d.org_id == tx.org)) [
    | inr other ↦ rw other refl
    | inl own ↦
        let same : d.org_id ≡ tx.org = ground arith in
        let named : d.job_id ≡ job.id = text_eq_sound d.job_id job.id e in
        rw
          (exists-none
            (λ (j : Job).
              j.org_id == d.org_id
              && text_eq j.id d.job_id
              && not (job_visible (some mine) s.repos j))
            s.jobs
            (All-map (λ x. is_job tx.org job.id x ≡ false)
              (λ (x : Job).
                (x.org_id == d.org_id
                  && text_eq x.id d.job_id
                  && not (job_visible (some mine) s.repos x))
                ≡ false)
              s.jobs (λ x h. rw (same, named) (ground arith))
              (exists-false (is_job tx.org job.id) s.jobs a.fresh)))
          (ground arith)
  ]

module _ (tx : Tx) (mine : List ℕ) (fingerprint : Payload → Text) (new : Payload) where
  Created-IsContained :
      (s s' : Store) (job : Job) → Created fingerprint tx new s job s' → IsContained tx mine s s'
  Created-IsContained s s' job (inl same) =
      subst (IsContained tx mine s) (sym same) (same-IsContained tx mine s)
  Created-IsContained s s' job (inr (t, a, last)) = elim last [
    | inl same ↦ subst (IsContained tx mine s) (sym same) (record {
      jobs = added-jobs tx mine s t job a;
      dependencies =
          ap (λ (u : Store). select_where (of_hidden tx mine s) u.job_dependencies) a.store;
      repos = ap (λ (u : Store). u.repos) a.store;
    })
    | inr (deps, e) ↦
        let (edges, jobs, repos) =
          linked-edges tx mine s job.id (added-free tx mine s t job a) new.depends_on [] deps t s'
            e in
        record {
          jobs = ap (select_where (is_hidden tx mine s)) jobs ∙ added-jobs tx mine s t job a;
          dependencies =
              edges
              ∙ ap (λ (u : Store). select_where (of_hidden tx mine s) u.job_dependencies) a.store;
          repos = repos ∙ ap (λ (u : Store). u.repos) a.store;
        }
  ]

  pub add_job-IsContained :
      (key : Option Text) (s s' : Store) (job : Job)
      → add_job fingerprint tx new key s ≡ ok (job, s')
      → IsContained tx mine s s'
  unfolding next_job_seq is_hidden of_hidden
  add_job-IsContained key s s' job h =
      let c =
        Created-IsContained (next_job_seq tx s).1 s' job
          (add_job_ok fingerprint tx new key s s' job h) in
      record { jobs = c.jobs; dependencies = c.dependencies; repos = c.repos }
