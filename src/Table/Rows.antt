-- ===== src/Table/Rows.antt =====
-- What a statement does to the rows of a table: row by row facts, and the rows it leaves alone.
use otto_factory.Common.{
  Bool, Bool-cases, List, [], arith, false, if◌then◌else◌, inl, inr, is_some, none, refl, some,
  subst, true, ◌++◌, ◌+◌, ◌∷◌, ◌≡◌, ◌≤◌,
}
use otto_factory.Common.Lists.{All}
use otto_factory.Table.{
  count_where, delete_where, exists_where, fetch_optional, select_where, update_where,
}

module _ {ℓ} {A : Type ℓ} where
  pub exists-false :
      (p : A → Bool) (t : List A) → exists_where p t ≡ false → All (λ x. p x ≡ false) t
  unfolding exists_where
  exists-false p [] h = tt
  exists-false p (x ∷ xs) h = (ground arith, exists-false p xs (ground arith))

  -- The row found is in the table and passes the test.
  pub fetch_optional-test :
      (p : A → Bool) (t : List A) (x : A) → fetch_optional p t ≡ some x → p x ≡ true
  unfolding fetch_optional
  fetch_optional-test p [] x h = cc
  fetch_optional-test p (y ∷ ys) x h = ground (arith, fetch_optional-test p ys x)

  pub fetch_optional-exists :
      (p : A → Bool) (t : List A) → is_some (fetch_optional p t) ≡ exists_where p t
  unfolding fetch_optional exists_where
  fetch_optional-exists p [] = refl
  fetch_optional-exists p (x ∷ xs) = ground (arith, fetch_optional-exists p xs)

  pub fetch_optional-none-count :
      (p : A → Bool) (t : List A) → fetch_optional p t ≡ none → count_where p t ≡ 0
  unfolding fetch_optional count_where
  fetch_optional-none-count p [] h = refl
  fetch_optional-none-count p (x ∷ xs) h = ground (arith, fetch_optional-none-count p xs)

  -- After an update the same key finds the updated row, if the update keeps the key.
  pub fetch_optional-update :
      (p : A → Bool) (f : A → A) (t : List A) (x : A)
      → fetch_optional p t ≡ some x
      → p (f x) ≡ true
      → fetch_optional p (update_where p f t) ≡ some (f x)
  unfolding fetch_optional update_where
  fetch_optional-update p f [] x h k = cc
  fetch_optional-update p f (y ∷ ys) x h k = ground (arith, fetch_optional-update p f ys x)

  pub select-append :
      (p : A → Bool) (t u : List A) → select_where p (t ++ u) ≡ select_where p t ++ select_where p u
  unfolding select_where
  select-append p [] u = refl
  select-append p (x ∷ xs) u = ground (arith, select-append p xs u)

  pub count-append :
      (p : A → Bool) (t u : List A) → count_where p (t ++ u) ≡ count_where p t + count_where p u
  unfolding count_where
  count-append p [] u = omega arith
  count-append p (x ∷ xs) u = ground (arith, count-append p xs u)

  -- A selection that no updated row belongs to, before or after, is left alone.
  pub select-update_other :
      (q p : A → Bool) (f : A → A) (t : List A)
      → ((x : A) → p x ≡ true → q x ≡ false)
      → ((x : A) → p x ≡ true → q (f x) ≡ false)
      → select_where q (update_where p f t) ≡ select_where q t
  unfolding select_where update_where
  select-update_other q p f [] h k = refl
  select-update_other q p f (x ∷ xs) h k =
      ground (arith, h x, k x, select-update_other q p f xs h k)

  pub select-delete_other :
      (q p : A → Bool) (t : List A)
      → ((x : A) → p x ≡ true → q x ≡ false)
      → select_where q (delete_where p t) ≡ select_where q t
  unfolding select_where delete_where
  select-delete_other q p [] h = refl
  select-delete_other q p (x ∷ xs) h = ground (arith, h x, select-delete_other q p xs h)

  -- A count of rows whose test the update does not change.
  pub count-update_same :
      (q p : A → Bool) (f : A → A) (t : List A)
      → ((x : A) → p x ≡ true → q (f x) ≡ q x)
      → count_where q (update_where p f t) ≡ count_where q t
  unfolding count_where update_where
  count-update_same q p f [] h = refl
  count-update_same q p f (x ∷ xs) h = ground (arith, h x, count-update_same q p f xs h)

  pub count-delete_le :
      (q p : A → Bool) (t : List A) → count_where q (delete_where p t) ≤ count_where q t
  unfolding count_where delete_where
  count-delete_le q p [] = omega arith
  count-delete_le q p (x ∷ xs) = ground (arith, count-delete_le q p xs)

module _ {ℓ κ} {A : Type ℓ} (P : A → Type κ) where
  pub All-update :
      (p : A → Bool) (f : A → A) (t : List A)
      → ((x : A) → p x ≡ true → P x → P (f x))
      → All P t
      → All P (update_where p f t)
  unfolding update_where
  All-update p f [] h a = tt
  All-update p f (x ∷ xs) h a = elim (Bool-cases (p x)) [
    | inl e ↦ rw e (h x e a.0, All-update p f xs h a.1)
    | inr e ↦ rw e (a.0, All-update p f xs h a.1)
  ]

  pub All-delete : (p : A → Bool) (t : List A) → All P t → All P (delete_where p t)
  unfolding delete_where
  All-delete p [] a = tt
  All-delete p (x ∷ xs) a = elim (Bool-cases (p x)) [
    | inl e ↦ rw e (All-delete p xs a.1)
    | inr e ↦ rw e (a.0, All-delete p xs a.1)
  ]

  pub All-fetch : (p : A → Bool) (t : List A) (x : A) → fetch_optional p t ≡ some x → All P t → P x
  unfolding fetch_optional
  All-fetch p [] x h a = cc
  All-fetch p (y ∷ ys) x h a = elim (Bool-cases (p y)) [
    | inl e ↦ subst P (ground arith) a.0
    | inr e ↦ All-fetch p ys x (ground arith) a.1
  ]

module _ {ℓ κ} {A : Type ℓ} (P R : A → Type κ) where
  -- What holds of every row after an update, from what held before on either side of the test.
  pub All-update_to :
      (p : A → Bool) (f : A → A) (t : List A)
      → ((x : A) → P x → p x ≡ true → R (f x))
      → ((x : A) → P x → p x ≡ false → R x)
      → All P t
      → All R (update_where p f t)
  unfolding update_where
  All-update_to p f [] h k a = tt
  All-update_to p f (x ∷ xs) h k a = elim (Bool-cases (p x)) [
    | inl e ↦ rw e (h x a.0 e, All-update_to p f xs h k a.1)
    | inr e ↦ rw e (k x a.0 e, All-update_to p f xs h k a.1)
  ]

  pub All-map : (t : List A) → ((x : A) → P x → R x) → All P t → All R t
  All-map [] h a = tt
  All-map (x ∷ xs) h a = (h x a.0, All-map xs h a.1)

module _ {ℓ} {A : Type ℓ} where
  pub All-true : (P : A → Type 0) (t : List A) → ((x : A) → P x) → All P t
  All-true P [] h = tt
  All-true P (x ∷ xs) h = (h x, All-true P xs h)

  pub All-both : (P R : A → Type 0) (t : List A) → All P t → All R t → All (λ x. P x × R x) t
  All-both P R [] a b = tt
  All-both P R (x ∷ xs) a b = ((a.0, b.0), All-both P R xs a.1 b.1)

  -- A count, where each row that is rewritten keeps its answer to the test counted.
  pub count-update_each :
      (q p : A → Bool) (f : A → A) (t : List A)
      → All (λ x. p x ≡ true → q (f x) ≡ q x) t
      → count_where q (update_where p f t) ≡ count_where q t
  unfolding count_where update_where
  count-update_each q p f [] a = refl
  count-update_each q p f (x ∷ xs) a = ground (arith, a.0, count-update_each q p f xs a.1)

  pub exists-false-count :
      (p : A → Bool) (t : List A) → exists_where p t ≡ false → count_where p t ≡ 0
  unfolding exists_where count_where
  exists-false-count p [] h = refl
  exists-false-count p (x ∷ xs) h = ground (arith, exists-false-count p xs)

  -- The row under a key, after an update that keeps the key of every row.
  pub fetch_optional-update_any :
      (p q : A → Bool) (f : A → A) (t : List A) (x : A)
      → ((y : A) → p (f y) ≡ p y)
      → fetch_optional p t ≡ some x
      → fetch_optional p (update_where q f t) ≡ some (if q x then f x else x)
  unfolding fetch_optional update_where
  fetch_optional-update_any p q f [] x k h = cc
  fetch_optional-update_any p q f (y ∷ ys) x k h =
      ground (arith, k y, fetch_optional-update_any p q f ys x k)
