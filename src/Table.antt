-- ===== src/Table.antt =====
-- A database table is the list of its rows. These are the forms of SQL statement the program sends:
-- SELECT … WHERE, EXISTS, COUNT(*), UPDATE … WHERE and DELETE … WHERE, each with its row test.
pub mod Rows
pub mod Keys
pub mod Each
pub mod Append
use otto_factory.Common.{
  Bool, List, Option, [], false, if◌then◌else◌, none, some, ℕ, ◌+◌, ◌||◌, ◌∷◌,
}

module _ {ℓ} {A : Type ℓ} where
  -- SELECT … WHERE p
  unfoldable pub select_where : (A → Bool) → List A → List A
  select_where p [] = []
  select_where p (x ∷ xs) = if p x then x ∷ select_where p xs else select_where p xs

  -- SELECT … WHERE p, read by `fetch_optional`
  unfoldable pub fetch_optional : (A → Bool) → List A → Option A
  fetch_optional p [] = none
  fetch_optional p (x ∷ xs) = if p x then some x else fetch_optional p xs

  -- EXISTS (SELECT 1 … WHERE p)
  unfoldable pub exists_where : (A → Bool) → List A → Bool
  exists_where p [] = false
  exists_where p (x ∷ xs) = p x || exists_where p xs

  -- COUNT(*) … WHERE p
  unfoldable pub count_where : (A → Bool) → List A → ℕ
  count_where p [] = 0
  count_where p (x ∷ xs) = (if p x then 1 else 0) + count_where p xs

  -- UPDATE … SET f WHERE p
  unfoldable pub update_where : (A → Bool) → (A → A) → List A → List A
  update_where p f [] = []
  update_where p f (x ∷ xs) = (if p x then f x else x) ∷ update_where p f xs

  -- DELETE … WHERE p
  unfoldable pub delete_where : (A → Bool) → List A → List A
  delete_where p [] = []
  delete_where p (x ∷ xs) = if p x then delete_where p xs else x ∷ delete_where p xs
