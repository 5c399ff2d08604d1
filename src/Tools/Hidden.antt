-- ===== src/Tools/Hidden.antt =====
-- The jobs of a store that a caller on some teams does not see, and the rules by which a change of one
-- row leaves them alone.
use otto_factory.Common.{
  Bool, Bool-cases, List, Option, [], arith, false, inl, inr, none, not, refl, some, true, ℕ, ◌&&◌,
  ◌==◌, ◌∷◌, ◌≡◌, ◌≤◌, ◌∙◌,
}
use otto_factory.Common.Lists.{All}
use otto_factory.Common.Text.{Text, text_eq, text_eq_sound}
use otto_factory.Jobs.Claim.{in_batch}
use otto_factory.Jobs.Row.{is_job}
use otto_factory.Jobs.Visible.{job_visible, on_hidden_repo}
use otto_factory.Store.{Dependency, Job, Repo, Store, Tx}
use otto_factory.Table.{
  count_where, delete_where, exists_where, fetch_optional, select_where, update_where,
}
use otto_factory.Table.Each.{exists-none, select-delete_each, select-update_each}
use otto_factory.Table.Keys.{All-key}
use otto_factory.Table.Rows.{All-both, All-map, All-true}

module _ (tx : Tx) (mine : List ℕ) (s : Store) where
  -- A job of the org that was there and that the teams do not see.
  unfoldable pub is_hidden : Job → Bool
  is_hidden j =
      j.org_id == tx.org
      && not (job_visible (some mine) s.repos j)
      && exists_where (is_job tx.org j.id) s.jobs

  -- An edge from such a job.
  unfoldable pub of_hidden : Dependency → Bool
  of_hidden d =
      d.org_id == tx.org
      && exists_where
          (λ (j : Job).
            j.org_id == d.org_id
            && text_eq j.id d.job_id
            && not (job_visible (some mine) s.repos j))
          s.jobs

  -- No hidden job is changed, made or removed, and none has an edge more or less.
  pub record IsContained (s' : Store) : Type 0 where
    pub jobs : select_where is_hidden s'.jobs ≡ select_where is_hidden s.jobs
    pub dependencies :
        select_where of_hidden s'.job_dependencies ≡ select_where of_hidden s.job_dependencies
    pub repos : s'.repos ≡ s.repos

  pub same-IsContained : IsContained s
  same-IsContained = record { jobs = refl; dependencies = refl; repos = refl }

-- A change that leaves what decides who sees a job.
abbrev pub KeepsPlace : (Job → Job) → Type 0
KeepsPlace f =
    (x : Job)
    → ((f x).org_id ≡ x.org_id)
      × ((f x).id ≡ x.id)
      × ((f x).repo_id ≡ x.repo_id)
      × ((f x).team_id ≡ x.team_id)

pub job_visible-keeps :
    (f : Job → Job) (mine : Option (List ℕ)) (repos : List Repo) (x : Job)
    → KeepsPlace f
    → job_visible mine repos (f x) ≡ job_visible mine repos x
unfolding job_visible on_hidden_repo
job_visible-keeps f none repos x k = refl
job_visible-keeps f (some mine) repos x k = rw ((k x).0, (k x).2, (k x).3) refl

module _ (tx : Tx) (mine : List ℕ) (s : Store) where
  abbrev pub Seen : Job → Type 0
  Seen j = job_visible (some mine) s.repos j ≡ true

  pub Seen-is_hidden : (j : Job) → Seen j → is_hidden tx mine s j ≡ false
  unfolding is_hidden
  Seen-is_hidden j h = ground arith

  kept-is_hidden :
      (f : Job → Job) (x : Job) → KeepsPlace f → Seen x → is_hidden tx mine s (f x) ≡ false
  kept-is_hidden f x k h = Seen-is_hidden (f x) (job_visible-keeps f (some mine) s.repos x k ∙ h)

  -- A row is not the one looked for, or it is seen.
  unmatched :
      (x : Job) (id : Text)
      → (is_job tx.org id x ≡ true → Seen x)
      → (x.org_id == tx.org && text_eq x.id id && not (job_visible (some mine) s.repos x)) ≡ false
  unfolding is_job
  unmatched x id h = elim (Bool-cases (is_job tx.org id x)) [
    | inl e ↦ let v = h e in ground arith
    | inr e ↦ ground arith
  ]

  -- The job under an id, where the teams see it.
  abbrev pub SeenAt : Text → Type 0
  SeenAt id = (j : Job) × (fetch_optional (is_job tx.org id) s.jobs ≡ some j) × Seen j

  module _ (keys : (id : Text) → count_where (is_job tx.org id) s.jobs ≤ 1) where
    pub Seen-rows : (id : Text) → SeenAt id → All (λ x. is_job tx.org id x ≡ true → Seen x) s.jobs
    Seen-rows id (j, e, v) = All-key Seen (is_job tx.org id) s.jobs j (keys id) e v

    pub written-jobs :
        (id : Text) (f : Job → Job)
        → SeenAt id
        → KeepsPlace f
        → select_where (is_hidden tx mine s) (update_where (is_job tx.org id) f s.jobs)
          ≡ select_where (is_hidden tx mine s) s.jobs
    written-jobs id f at k = select-update_each (is_hidden tx mine s) (is_job tx.org id) f s.jobs (
        All-map (λ x. is_job tx.org id x ≡ true → Seen x)
          (λ x.
            is_job tx.org id x ≡ true
            → (is_hidden tx mine s x ≡ false) × (is_hidden tx mine s (f x) ≡ false))
          s.jobs (λ x h e. (Seen-is_hidden x (h e), kept-is_hidden f x k (h e))) (Seen-rows id at))

    pub deleted-jobs :
        (id : Text)
        → SeenAt id
        → select_where (is_hidden tx mine s) (delete_where (is_job tx.org id) s.jobs)
          ≡ select_where (is_hidden tx mine s) s.jobs
    deleted-jobs id at = select-delete_each (is_hidden tx mine s) (is_job tx.org id) s.jobs (
        All-map (λ x. is_job tx.org id x ≡ true → Seen x)
          (λ x. is_job tx.org id x ≡ true → is_hidden tx mine s x ≡ false) s.jobs
          (λ x h e. Seen-is_hidden x (h e)) (Seen-rows id at))

    -- No edge of a job that the teams see comes from one that they do not.
    pub seen-of_hidden :
        (id : Text) (d : Dependency)
        → SeenAt id
        → text_eq d.job_id id ≡ true
        → of_hidden tx mine s d ≡ false
    unfolding of_hidden is_job
    seen-of_hidden id d at e = elim (Bool-cases (d.org_id == tx.org)) [
      | inr other ↦ rw other refl
      | inl own ↦
          let same : d.org_id ≡ tx.org = ground arith in
          let named : d.job_id ≡ id = text_eq_sound d.job_id id e in
          rw
            (exists-none
              (λ (j : Job).
                j.org_id == d.org_id
                && text_eq j.id d.job_id
                && not (job_visible (some mine) s.repos j))
              s.jobs
              (All-map (λ x. is_job tx.org id x ≡ true → Seen x)
                (λ (x : Job).
                  (x.org_id == d.org_id
                    && text_eq x.id d.job_id
                    && not (job_visible (some mine) s.repos x))
                  ≡ false)
                s.jobs (λ x h. rw (same, named) (unmatched x id h)) (Seen-rows id at)))
            (ground arith)
    ]

    pub batch-Seen :
        (ids : List Text) → All SeenAt ids → All (λ x. in_batch tx.org ids x ≡ true → Seen x) s.jobs
    unfolding in_batch is_job
    batch-Seen [] a =
        All-true (λ x. in_batch tx.org [] x ≡ true → Seen x) s.jobs (λ x h. absurd (ground arith))
    batch-Seen (id ∷ ids) a =
        All-map
          (λ x. (is_job tx.org id x ≡ true → Seen x) × (in_batch tx.org ids x ≡ true → Seen x))
          (λ x. in_batch tx.org (id ∷ ids) x ≡ true → Seen x) s.jobs
          (λ x h e. elim (Bool-cases (is_job tx.org id x)) [
            | inl y ↦ h.0 y
            | inr n ↦ h.1 (ground arith)
          ])
          (All-both (λ x. is_job tx.org id x ≡ true → Seen x)
            (λ x. in_batch tx.org ids x ≡ true → Seen x) s.jobs (Seen-rows id a.0)
            (batch-Seen ids a.1))
