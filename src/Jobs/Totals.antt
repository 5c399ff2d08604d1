-- ===== src/Jobs/Totals.antt =====
-- The totals of completed and failed jobs that an org's row of counters holds, and how an upsert
-- moves them. Without a row both are zero.
use native.Mathlib.Decide.{ℕ_discrete}
use otto_factory.Common.{
  Bool, List, Option, Option-cases, [], arith, false, if◌then◌else◌, inl, inr, none, refl, some,
  true, ℕ, ◌&&◌, ◌++◌, ◌+◌, ◌==◌, ◌∷◌, ◌≡◌, ◌≢◌,
}
use otto_factory.Common.Int.{negsuc, pos, ℤ, ◌+ℤ◌}
use otto_factory.Error.{Status}
use otto_factory.Jobs.Counters.{add_completed, add_failed, bump_rows, is_org, no_counters, upsert}
use otto_factory.Jobs.Row.{is_completed, is_failed}
use otto_factory.Store.{OrgCounters}
use otto_factory.Table.{fetch_optional, update_where}
use otto_factory.Table.Rows.{fetch_optional-exists, fetch_optional-test, fetch_optional-update}

unfoldable pub completed_total : ℕ → List OrgCounters → ℤ
completed_total org t = elim (fetch_optional (is_org org) t) [
  | none ↦ pos 0
  | some c ↦ c.jobs_completed_total
]

unfoldable pub failed_total : ℕ → List OrgCounters → ℤ
failed_total org t = elim (fetch_optional (is_org org) t) [
  | none ↦ pos 0
  | some c ↦ c.jobs_failed_total
]

fetch-append_none :
    (o : ℕ) (t : List OrgCounters) (c : OrgCounters)
    → fetch_optional (is_org o) t ≡ none
    → fetch_optional (is_org o) (t ++ c ∷ []) ≡ (if c.org_id == o then some c else none)
unfolding fetch_optional is_org
fetch-append_none o [] c h = ground arith
fetch-append_none o (x ∷ xs) c h = ground (arith, fetch-append_none o xs c)

fetch-append_some :
    (o : ℕ) (t : List OrgCounters) (c d : OrgCounters)
    → fetch_optional (is_org o) t ≡ some d
    → fetch_optional (is_org o) (t ++ c ∷ []) ≡ some d
unfolding fetch_optional is_org
fetch-append_some o [] c d h = cc
fetch-append_some o (x ∷ xs) c d h = ground (arith, fetch-append_some o xs c d)

fetch-update_other :
    (o org : ℕ) (f : OrgCounters → OrgCounters) (t : List OrgCounters)
    → ((c : OrgCounters) → (f c).org_id ≡ c.org_id)
    → o ≢ org
    → fetch_optional (is_org o) (update_where (is_org org) f t) ≡ fetch_optional (is_org o) t
unfolding fetch_optional update_where is_org
fetch-update_other o org f [] k h = refl
fetch-update_other o org f (x ∷ xs) k h = ground (arith, k x, fetch-update_other o org f xs k h)

abbrev pub written : Option OrgCounters → OrgCounters → (OrgCounters → OrgCounters) → OrgCounters
written none fresh f = fresh
written (some c) fresh f = f c

module _ (org : ℕ) (fresh : OrgCounters) (f : OrgCounters → OrgCounters) (t : List OrgCounters)
    (e : fresh.org_id ≡ org) (k : (c : OrgCounters) → (f c).org_id ≡ c.org_id) where
  fetch-upsert_self :
      fetch_optional (is_org org) (upsert org fresh f t)
      ≡ some (written (fetch_optional (is_org org) t) fresh f)
  unfolding upsert is_org
  fetch-upsert_self = elim (Option-cases (fetch_optional (is_org org) t)) [
    | inl a ↦
        ground (arith, a, fetch_optional-exists (is_org org) t, fetch-append_none org t fresh a)
    | inr (c, a) ↦ ground (
      arith,
      a,
      k c,
      fetch_optional-exists (is_org org) t,
      fetch_optional-test (is_org org) t c a,
      fetch_optional-update (is_org org) f t c a,
    )
  ]

  fetch-upsert_other :
      (o : ℕ)
      → o ≢ org
      → fetch_optional (is_org o) (upsert org fresh f t) ≡ fetch_optional (is_org o) t
  unfolding upsert
  fetch-upsert_other o h = elim (Option-cases (fetch_optional (is_org o) t)) [
    | inl a ↦ ground (arith, a, fetch-append_none o t fresh a, fetch-update_other o org f t k h)
    | inr (c, a) ↦
        ground (arith, a, fetch-append_some o t fresh c a, fetch-update_other o org f t k h)
  ]

  -- An upsert writes the row of its org, the fresh one or the one there, changed, and no other.
  pub fetch-upsert :
      (o : ℕ)
      → fetch_optional (is_org o) (upsert org fresh f t) ≡ (
          if o == org
          then some (written (fetch_optional (is_org o) t) fresh f)
          else fetch_optional (is_org o) t)
  fetch-upsert o = elim (ℕ_discrete o org) [
    | yes p ↦ rw p (ground (arith, fetch-upsert_self))
    | no p ↦ ground (arith, fetch-upsert_other o p)
  ]

abbrev pub one_if : Bool → ℕ
one_if true = 1
one_if false = 0

-- A transition into a terminal status adds one to the total of that status and moves no other total.
module _ (o org n : ℕ) (status : Status) (t : List OrgCounters) where
  pub completed_total-bump_up :
      completed_total o t ≡ pos n
      → completed_total o (bump_rows org status (pos 1) t)
        ≡ pos (n + one_if (o == org && is_completed status))
  unfolding completed_total add_completed add_failed bump_rows ◌+ℤ◌
  completed_total-bump_up h = ground (
    arith,
    fetch-upsert org (record (no_counters org) { jobs_completed_total = pos 1 })
        (add_completed (pos 1)) t refl (λ c. refl) o,
    fetch-upsert org (record (no_counters org) { jobs_failed_total = pos 1 }) (add_failed (pos 1)) t
        refl (λ c. refl) o,
  )

  pub failed_total-bump_up :
      failed_total o t ≡ pos n
      → failed_total o (bump_rows org status (pos 1) t)
        ≡ pos (n + one_if (o == org && is_failed status))
  unfolding failed_total add_completed add_failed bump_rows ◌+ℤ◌
  failed_total-bump_up h = ground (
    arith,
    fetch-upsert org (record (no_counters org) { jobs_completed_total = pos 1 })
        (add_completed (pos 1)) t refl (λ c. refl) o,
    fetch-upsert org (record (no_counters org) { jobs_failed_total = pos 1 }) (add_failed (pos 1)) t
        refl (λ c. refl) o,
  )

  pub completed_total-bump_down :
      completed_total o t ≡ pos (n + one_if (o == org && is_completed status))
      → completed_total o (bump_rows org status (negsuc 0) t) ≡ pos n
  unfolding completed_total add_completed add_failed bump_rows ◌+ℤ◌
  completed_total-bump_down h = ground (
    arith,
    fetch-upsert org (no_counters org) (add_completed (negsuc 0)) t refl (λ c. refl) o,
    fetch-upsert org (no_counters org) (add_failed (negsuc 0)) t refl (λ c. refl) o,
  )

  pub failed_total-bump_down :
      failed_total o t ≡ pos (n + one_if (o == org && is_failed status))
      → failed_total o (bump_rows org status (negsuc 0) t) ≡ pos n
  unfolding failed_total add_completed add_failed bump_rows ◌+ℤ◌
  failed_total-bump_down h = ground (
    arith,
    fetch-upsert org (no_counters org) (add_completed (negsuc 0)) t refl (λ c. refl) o,
    fetch-upsert org (no_counters org) (add_failed (negsuc 0)) t refl (λ c. refl) o,
  )
