-- ===== src/Table/Append.antt =====
-- What the statements find in a table that has rows added at its end.
use otto_factory.Common.{Bool, List, [], arith, false, refl, some, true, ◌++◌, ◌∷◌, ◌≡◌, ◌||◌}
use otto_factory.Table.{exists_where, fetch_optional}

module _ {ℓ} {A : Type ℓ} (p : A → Bool) where
  pub exists-append :
      (t u : List A) → exists_where p (t ++ u) ≡ (exists_where p t || exists_where p u)
  unfolding exists_where
  exists-append [] u = refl
  exists-append (x ∷ xs) u = ground (arith, exists-append xs u)

  pub fetch-append :
      (t u : List A) → exists_where p t ≡ false → fetch_optional p (t ++ u) ≡ fetch_optional p u
  unfolding exists_where fetch_optional
  fetch-append [] u h = refl
  fetch-append (x ∷ xs) u h = ground (arith, fetch-append xs u)

  pub fetch-append_found :
      (t u : List A) → exists_where p t ≡ true → fetch_optional p (t ++ u) ≡ fetch_optional p t
  unfolding exists_where fetch_optional
  fetch-append_found [] u h = cc
  fetch-append_found (x ∷ xs) u h = ground (arith, fetch-append_found xs u)

  pub exists-fetch :
      (q : A → Bool) (t : List A) (x : A)
      → fetch_optional p t ≡ some x
      → q x ≡ true
      → exists_where q t ≡ true
  unfolding exists_where fetch_optional
  exists-fetch q [] x e h = cc
  exists-fetch q (y ∷ ys) x e h = ground (arith, exists-fetch q ys x)
