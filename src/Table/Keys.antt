-- ===== src/Table/Keys.antt =====
-- A primary key: at most one row passes the test of a key. The row read under the key is then the
-- one row that a write under the same key changes.
use otto_factory.Common.{
  Bool, Bool-cases, List, [], arith, if◌then◌else◌, inl, inr, refl, some, subst, true, ◌+◌, ◌∷◌,
  ◌≡◌, ◌≤◌,
}
use otto_factory.Common.Lists.{All}
use otto_factory.Table.{count_where, delete_where, fetch_optional, update_where}

module _ {ℓ} {A : Type ℓ} where
  -- A write under a key that finds nothing changes nothing.
  pub update_where-missing :
      (p : A → Bool) (f : A → A) (t : List A) → count_where p t ≡ 0 → update_where p f t ≡ t
  unfolding count_where update_where
  update_where-missing p f [] h = refl
  update_where-missing p f (x ∷ xs) h = ground (arith, update_where-missing p f xs)

  -- How a count moves when the row under a key is rewritten.
  pub count-update_key :
      (q p : A → Bool) (f : A → A) (t : List A) (x : A)
      → count_where p t ≤ 1
      → fetch_optional p t ≡ some x
      → count_where q (update_where p f t) + (if q x then 1 else 0)
        ≡ count_where q t + (if q (f x) then 1 else 0)
  unfolding count_where update_where fetch_optional
  count-update_key q p f [] x u h = cc
  count-update_key q p f (y ∷ ys) x u h =
      ground (arith, count-update_key q p f ys x, update_where-missing p f ys)

  pub delete_where-missing :
      (p : A → Bool) (t : List A) → count_where p t ≡ 0 → delete_where p t ≡ t
  unfolding count_where delete_where
  delete_where-missing p [] h = refl
  delete_where-missing p (x ∷ xs) h = ground (arith, delete_where-missing p xs)

  pub count-delete_key :
      (q p : A → Bool) (t : List A) (x : A)
      → count_where p t ≤ 1
      → fetch_optional p t ≡ some x
      → count_where q (delete_where p t) + (if q x then 1 else 0) ≡ count_where q t
  unfolding count_where delete_where fetch_optional
  count-delete_key q p [] x u h = cc
  count-delete_key q p (y ∷ ys) x u h =
      ground (arith, count-delete_key q p ys x, delete_where-missing p ys)

module _ {ℓ κ} {A : Type ℓ} (P : A → Type κ) where
  pub All-none : (p : A → Bool) (t : List A) → count_where p t ≡ 0 → All (λ y. p y ≡ true → P y) t
  unfolding count_where
  All-none p [] h = tt
  All-none p (x ∷ xs) h = (λ a. absurd (ground arith), All-none p xs (ground arith))

  -- The rows keep a property if the one row under the key does.
  pub All-update_key :
      (p : A → Bool) (f : A → A) (t : List A) (x : A)
      → count_where p t ≤ 1
      → fetch_optional p t ≡ some x
      → (P x → P (f x))
      → All P t
      → All P (update_where p f t)
  unfolding count_where update_where fetch_optional
  All-update_key p f [] x u h k a = tt
  All-update_key p f (y ∷ ys) x u h k a = elim (Bool-cases (p y)) [
    | inl e ↦ rw e (
      subst (λ z. P z → P (f z)) (ground arith) k a.0,
      rw (update_where-missing p f ys (ground arith)) a.1,
    )
    | inr e ↦ rw e (a.0, All-update_key p f ys x (ground arith) (ground arith) k a.1)
  ]

  -- What holds of the row found holds of every row that passes the test of the key.
  pub All-key :
      (p : A → Bool) (t : List A) (x : A)
      → count_where p t ≤ 1
      → fetch_optional p t ≡ some x
      → P x
      → All (λ y. p y ≡ true → P y) t
  unfolding count_where fetch_optional
  All-key p [] x u h q = tt
  All-key p (y ∷ ys) x u h q = elim (Bool-cases (p y)) [
    | inl e ↦ (λ _. subst P (ground arith) q, All-none p ys (ground arith))
    | inr e ↦ (λ a. cc, All-key p ys x (ground arith) (ground arith) q)
  ]
