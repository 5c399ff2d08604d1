-- ===== src/Table/Each.antt =====
-- What a statement leaves alone, from what holds of each row of the table.
use otto_factory.Common.{Bool, Bool-cases, List, [], arith, false, inl, inr, refl, true, ◌∷◌, ◌≡◌}
use otto_factory.Common.Lists.{All}
use otto_factory.Table.{delete_where, exists_where, select_where, update_where}

module _ {ℓ} {A : Type ℓ} where
  -- A selection that no row in the table that is changed belongs to, before or after.
  pub select-update_each :
      (q p : A → Bool) (f : A → A) (t : List A)
      → All (λ x. p x ≡ true → (q x ≡ false) × (q (f x) ≡ false)) t
      → select_where q (update_where p f t) ≡ select_where q t
  unfolding select_where update_where
  select-update_each q p f [] a = refl
  select-update_each q p f (x ∷ xs) a = elim (Bool-cases (p x)) [
    | inl e ↦ let (b, c) = a.0 e in ground (arith, select-update_each q p f xs a.1)
    | inr e ↦ ground (arith, select-update_each q p f xs a.1)
  ]

  pub select-delete_each :
      (q p : A → Bool) (t : List A)
      → All (λ x. p x ≡ true → q x ≡ false) t
      → select_where q (delete_where p t) ≡ select_where q t
  unfolding select_where delete_where
  select-delete_each q p [] a = refl
  select-delete_each q p (x ∷ xs) a = elim (Bool-cases (p x)) [
    | inl e ↦ let b = a.0 e in ground (arith, select-delete_each q p xs a.1)
    | inr e ↦ ground (arith, select-delete_each q p xs a.1)
  ]

  pub exists-none :
      (p : A → Bool) (t : List A) → All (λ x. p x ≡ false) t → exists_where p t ≡ false
  unfolding exists_where
  exists-none p [] a = refl
  exists-none p (x ∷ xs) a = ground (arith, a.0, exists-none p xs a.1)
