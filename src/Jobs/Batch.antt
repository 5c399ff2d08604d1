-- ===== src/Jobs/Batch.antt =====
-- The batch of a claim: the ids as sorted and without repeats, and the row of each.
use otto_factory.Common.{
  Bool-cases, List, Option, [], ap, arith, if◌then◌else◌, inl, inr, refl, some, true, ℕ, ◌&&◌, ◌||◌,
  ◌∙◌, ◌∷◌, ◌≡◌,
}
use otto_factory.Common.Text.{Text, text_eq, text_eq_sound}
use otto_factory.Error.{ok}
use otto_factory.Jobs.Claim.{
  claim, has_id, in_batch, insert_id, lock_rows, reap, reap_batch, sort_dedup,
}
use otto_factory.Jobs.ClaimInvariant.{lock_rows_cons}
use otto_factory.Jobs.Row.{is_job, is_stranded}
use otto_factory.Store.{Job, Tx}
use otto_factory.Table.{fetch_optional, update_where}
use otto_factory.Table.Rows.{fetch_optional-test, fetch_optional-update_any}

has_id-insert_id :
    (i x : Text) (xs : List Text) → has_id (insert_id x xs) i ≡ (text_eq i x || has_id xs i)
unfolding insert_id
has_id-insert_id i x [] = refl
has_id-insert_id i x (y ∷ ys) = elim (Bool-cases (text_eq x y)) [
  | inl e ↦ let same = text_eq_sound x y e in rw (e, insert_id) (rw same (ground arith))
  | inr e ↦ ground (arith, e, has_id-insert_id i x ys)
]

-- Sorting a batch and dropping its repeats changes no answer to "is this id in it".
pub has_id-sort_dedup : (i : Text) (ids : List Text) → has_id (sort_dedup ids) i ≡ has_id ids i
unfolding sort_dedup
has_id-sort_dedup i [] = refl
has_id-sort_dedup i (x ∷ xs) =
    has_id-insert_id i x (sort_dedup xs) ∙ ap (λ b. text_eq i x || b) (has_id-sort_dedup i xs)

pub lock_rows-found :
    (org : ℕ) (jobs : List Job) (ids : List Text) (locked : List Job) (i : Text)
    → lock_rows org jobs ids ≡ ok locked
    → has_id ids i ≡ true
    → (j : Job) × (fetch_optional (is_job org i) jobs ≡ some j)
lock_rows-found org jobs [] locked i h m = cc
lock_rows-found org jobs (id ∷ ids) locked i h m =
    let (j, rest, e, e1, _) = lock_rows_cons org jobs id ids locked h in
    elim (Bool-cases (text_eq i id)) [
      | inl same ↦ (j, rw (text_eq_sound i id same) e)
      | inr other ↦ lock_rows-found org jobs ids rest i e1 (ground arith)
    ]

pub in_batch-found :
    (org : ℕ) (ids : List Text) (jobs : List Job) (i : Text) (j : Job)
    → has_id ids i ≡ true
    → fetch_optional (is_job org i) jobs ≡ some j
    → in_batch org ids j ≡ true
unfolding is_job in_batch
in_batch-found org ids jobs i j m e =
    let h = fetch_optional-test (is_job org i) jobs j e in
    let same = text_eq_sound j.id i (ground arith) in rw same (ground arith)

-- A claim of the batch leaves the row of each id claimed, if it was there.
module _ (tx : Tx) (ids : List Text) (claimer : ℕ) (label : Option Text) (ttl : ℕ) where
  pub claim-fetch :
      (jobs : List Job) (i : Text) (j : Job)
      → has_id ids i ≡ true
      → fetch_optional (is_job tx.org i) jobs ≡ some j
      → fetch_optional
          (is_job tx.org i)
          (update_where (in_batch tx.org ids) (claim tx claimer label ttl) (reap_batch tx ids jobs))
        ≡ some (claim tx claimer label ttl (if is_stranded tx.now j then reap j else j))
  unfolding reap_batch reap claim is_job in_batch
  claim-fetch jobs i j m e =
      let key = is_job tx.org i in
      let first =
        fetch_optional-update_any key (λ (k : Job). in_batch tx.org ids k && is_stranded tx.now k)
          reap jobs j (λ y. refl) e in
      let mine : in_batch tx.org ids j ≡ true = in_batch-found tx.org ids jobs i j m e in
      let x : Job = if is_stranded tx.now j then reap j else j in
      let then_claimed =
        fetch_optional-update_any key (in_batch tx.org ids) (claim tx claimer label ttl)
          (reap_batch tx ids jobs) x (λ y. refl) (first ∙ ground (arith, mine)) in
      then_claimed ∙ ground (arith, mine)
