-- ===== src/RepoSlug/Shown.antt =====
-- What is shown of the slugs that other members chose.
use otto_factory.Common.{
  Bool, Bool-cases, List, [], arith, inl, inr, leb, ltb, refl, subst, true, ℕ, ◌&&◌, ◌++◌, ◌+◌, ◌/◌,
  ◌%◌, ◌==◌, ◌∷◌, ◌≡◌, zero, suc,
}
use otto_factory.Common.Lists.{All, all, take}
use otto_factory.Common.Text.{Text, codes}
use otto_factory.Jobs.Create.{decimal, decimal_on}
use otto_factory.Error.Laws.{Result-cases}
use otto_factory.RepoSlug.{
  describe, is_alphanumeric, is_displayable, is_slug_char, list_quoted, max_listed, quoted,
  render_known, render_shown, shown_of, validate,
}
use otto_factory.RepoSlug.Segments.{all-append, join-chars, accepted-IsSlug}
use otto_factory.Table.{select_where}

-- Printable ASCII: no line break, no control, nothing invisible.
abbrev pub is_printable : ℕ → Bool
is_printable c = leb 0x20 c && leb c 0x7e

slug-printable : (t : Text) → all is_slug_char t ≡ true → all is_printable t ≡ true
unfolding is_slug_char is_alphanumeric
slug-printable [] h = refl
slug-printable (c ∷ cs) h = ground (arith, h, slug-printable cs)

shown-printable : (slug : Text) → is_displayable slug ≡ true → all is_printable slug ≡ true
unfolding is_displayable
shown-printable slug h = elim (Result-cases (validate slug)) [
  | inl (r, e) ↦
      let v = accepted-IsSlug slug e in
      slug-printable slug
        (subst (λ t. all is_slug_char t ≡ true) v.joined (join-chars v.segments v.sound))
  | inr (x, e) ↦ absurd (ground (arith, h, e))
]

decimal_on-printable : (fuel n : ℕ) → all is_printable (decimal_on fuel n) ≡ true
unfolding decimal_on
decimal_on-printable zero n = refl
decimal_on-printable (suc fuel) n = elim (Bool-cases (ltb n 10)) [
  | inl y ↦ rw y (ground (arith, y))
  | inr f ↦ rw f (
      all-append is_printable (decimal_on fuel (n / 10)) ((0x30 + n % 10) ∷ [])
        (decimal_on-printable fuel (n / 10)) (ground arith))
]

decimal-printable : (n : ℕ) → all is_printable (decimal n) ≡ true
unfolding decimal
decimal-printable n = decimal_on-printable (n + 1) n

quoted-printable :
    (slug : Text) → all is_printable slug ≡ true → all is_printable (quoted slug) ≡ true
quoted-printable slug h = ground (arith, all-append is_printable slug (0x22 ∷ []) h refl)

list_quoted-printable :
    (slugs : List Text)
    → All (λ slug. all is_printable slug ≡ true) slugs
    → all is_printable (list_quoted slugs) ≡ true
unfolding list_quoted
list_quoted-printable [] a = refl
list_quoted-printable (slug ∷ []) a = quoted-printable slug a.0
list_quoted-printable (slug ∷ next ∷ slugs) a =
    all-append is_printable (quoted slug ++ codes ", ") (list_quoted (next ∷ slugs))
      (all-append is_printable (quoted slug) (codes ", ") (quoted-printable slug a.0) refl)
      (list_quoted-printable (next ∷ slugs) a.1)

take-All : (P : Text → Type 0) (n : ℕ) (t : List Text) → All P t → All P (take n t)
take-All P zero t a = tt
take-All P (suc n) [] a = tt
take-All P (suc n) (x ∷ xs) a = (a.0, take-All P n xs a.1)

displayable-All :
    (t : List Text) → All (λ slug. all is_printable slug ≡ true) (select_where is_displayable t)
unfolding select_where
displayable-All [] = tt
displayable-All (x ∷ xs) = elim (Bool-cases (is_displayable x)) [
  | inl y ↦ rw y (shown-printable x y, displayable-All xs)
  | inr n ↦ rw n (displayable-All xs)
]

render_shown-printable :
    (slugs : List Text) (hidden : ℕ)
    → All (λ slug. all is_printable slug ≡ true) slugs
    → all is_printable (render_shown slugs hidden) ≡ true
unfolding render_shown
render_shown-printable [] hidden a =
    all-append is_printable (decimal hidden)
      (codes " registered; call list_repos for the full list)") (decimal-printable hidden) refl
render_shown-printable (slug ∷ slugs) hidden a = elim (Bool-cases (hidden == 0)) [
  | inl y ↦ rw y (list_quoted-printable (slug ∷ slugs) a)
  | inr n ↦ rw n (
      all-append is_printable (list_quoted (slug ∷ slugs) ++ codes " (and " ++ decimal hidden)
        (codes " more not shown; call list_repos for the full list)")
        (all-append is_printable (list_quoted (slug ∷ slugs) ++ codes " (and ") (decimal hidden)
          (all-append is_printable (list_quoted (slug ∷ slugs)) (codes " (and ")
            (list_quoted-printable (slug ∷ slugs) a) refl)
          (decimal-printable hidden))
        refl)
]

known-printable : (visible : List Text) → all is_printable (render_known visible) ≡ true
unfolding render_known shown_of
known-printable [] = refl
known-printable (slug ∷ slugs) = render_shown-printable (shown_of (slug ∷ slugs)) _ (
    take-All (λ s. all is_printable s ≡ true) max_listed
      (select_where is_displayable (slug ∷ slugs)) (displayable-All (slug ∷ slugs)))

described-printable : (slug : Text) → all is_printable (describe slug) ≡ true
unfolding describe
described-printable slug = elim (Bool-cases (is_displayable slug)) [
  | inl y ↦ rw y (quoted-printable slug (shown-printable slug y))
  | inr n ↦ rw n refl
]

-- Whatever slugs are stored, the sentence that lists an org's repos and the one that names a repo are printable
-- ASCII: no line break, no control character and nothing invisible of a slug gets into them.
pub render_known-printable :
    (visible : List Text) (slug : Text)
    → (all is_printable (render_known visible) ≡ true) × (all is_printable (describe slug) ≡ true)
render_known-printable visible slug = (known-printable visible, described-printable slug)
