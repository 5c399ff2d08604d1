-- ===== src/Error/Laws.antt =====
-- Inversion of a successful chain of fallible steps.
use otto_factory.Common.{Bool, Option, arith, false, inl, inr, none, refl, some, true, ◌≡◌, ◌⊎◌}
use otto_factory.Error.{Error, Result, err, guard, ok, ok_or, ◌>>=◌, ◌>>◌}

module _ {ℓ} {A : Type ℓ} where
  pub Result-cases : (r : Result A) → ((a : A) × (r ≡ ok a)) ⊎ ((e : Error) × (r ≡ err e))
  Result-cases (err refusal) = inr (refusal, refl)
  Result-cases (ok value) = inl (value, refl)

  pub ok_or-eq-ok : (o : Option A) (refusal : Error) {a : A} → ok_or o refusal ≡ ok a → o ≡ some a
  ok_or-eq-ok (some found) refusal h = ground arith
  ok_or-eq-ok none refusal h = cc

  pub guard-eq-ok :
      (test : Bool) (refusal : Error) (rest : Result A) {a : A}
      → (guard test refusal >> rest) ≡ ok a
      → (test ≡ true) × (rest ≡ ok a)
  guard-eq-ok false refusal rest h = cc
  guard-eq-ok true refusal rest h = (refl, h)

  -- Both steps of a chain that succeeds succeed.
  pub >>=-eq-ok {κ} :
      {C : Type κ} (first : Result C) (rest : C → Result A) {a : A}
      → (first >>= rest) ≡ ok a
      → (c : C) × (first ≡ ok c) × (rest c ≡ ok a)
  >>=-eq-ok (err refusal) rest h = cc
  >>=-eq-ok (ok value) rest h = (value, refl, h)
