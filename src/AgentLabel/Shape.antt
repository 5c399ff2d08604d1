-- ===== src/AgentLabel/Shape.antt =====
-- The labels that validate accepts, and how an accepted label is shown to a reader.
use mathlib.Core.List.{reverse, reverse-append, reverse-reverse}
use otto_factory.AgentLabel.{
  check_label, find_char, is_forbidden, is_space, max_len, validate, validate_trimmed,
}
use otto_factory.Common.{
  Bool, Bool-cases, Option-cases, [], ap, arith, false, inl, inr, none, refl, some, subst, sym, ℕ,
  ◌++◌, ◌+◌, ◌∙◌, ◌∷◌, ◌≡◌, ◌≤◌,
}
use otto_factory.Common.Lists.{All, length}
use otto_factory.Common.Text.{Text, trim_matches, trim_start}
use otto_factory.Error.{ok}

-- A text that begins with no character that is trimmed.
abbrev Starts : (ℕ → Bool) → Text → Type 0
Starts p [] = Unit
Starts p (c ∷ cs) = p c ≡ false

trim_start-Starts : (p : ℕ → Bool) (t : Text) → Starts p (trim_start p t)
unfolding trim_start
trim_start-Starts p [] = tt
trim_start-Starts p (c ∷ cs) = elim (Bool-cases (p c)) [
  | inl e ↦ rw e (trim_start-Starts p cs)
  | inr e ↦ rw e e
]

trim_start-same : (p : ℕ → Bool) (t : Text) → Starts p t → trim_start p t ≡ t
unfolding trim_start
trim_start-same p [] h = refl
trim_start-same p (c ∷ cs) h = ground (arith, h)

trim_start-suffix : (p : ℕ → Bool) (t : Text) → (k : Text) × (t ≡ k ++ trim_start p t)
unfolding trim_start
trim_start-suffix p [] = ([], refl)
trim_start-suffix p (c ∷ cs) =
    let (k, e) = trim_start-suffix p cs in
    elim (Bool-cases (p c)) [
      | inl b ↦ (c ∷ k, ground (arith, e, b))
      | inr b ↦ ([], ground (arith, b))
    ]

Starts-prefix : (p : ℕ → Bool) (t k : Text) → Starts p (t ++ k) → Starts p t
Starts-prefix p [] k h = tt
Starts-prefix p (c ∷ cs) k h = h

-- `str::trim_matches` a second time finds nothing to trim.
trim_matches-again :
    (p : ℕ → Bool) (t : Text) → trim_matches p (trim_matches p t) ≡ trim_matches p t
unfolding trim_matches
trim_matches-again p t =
    let u = trim_start p t in
    let v = trim_start p (reverse u) in
    let (k, e) = trim_start-suffix p (reverse u) in
    let whole : u ≡ reverse v ++ reverse k =
      sym (reverse-reverse u) ∙ ap reverse e ∙ reverse-append k v in
    let front =
      trim_start-same p (reverse v) (
        Starts-prefix p (reverse v) (reverse k) (subst (Starts p) whole (trim_start-Starts p t))) in
    ap (λ w. reverse (trim_start p (reverse w))) front
    ∙ ap (λ w. reverse (trim_start p w)) (reverse-reverse v)
    ∙ ap reverse (trim_start-same p v (trim_start-Starts p (reverse u)))

find_char-none :
    (p : ℕ → Bool) (i : ℕ) (t : Text) → find_char p i t ≡ none → All (λ c. p c ≡ false) t
unfolding find_char
find_char-none p i [] h = tt
find_char-none p i (c ∷ cs) h = (ground arith, find_char-none p (i + 1) cs (ground arith))

check_label-ok :
    (t l : Text)
    → check_label t ≡ ok (some l)
    → (l ≡ t) × (length l ≤ max_len) × All (λ c. is_forbidden c ≡ false) l
unfolding check_label
check_label-ok t l h = elim (Option-cases (find_char is_forbidden 0 t)) [
  | inl e ↦
      let same : l ≡ t = ground (arith, e) in
      (
        same,
        ground (arith, e),
        subst (All (λ c. is_forbidden c ≡ false)) (sym same) (find_char-none is_forbidden 0 t e),
      )
  | inr (x, e) ↦ absurd (ground (arith, e))
]

validate_trimmed-ok :
    (t l : Text)
    → validate_trimmed t ≡ ok (some l)
    → (l ≡ t) × (1 ≤ length l) × (length l ≤ max_len) × All (λ c. is_forbidden c ≡ false) l
unfolding validate_trimmed
validate_trimmed-ok [] l h = cc
validate_trimmed-ok (c ∷ cs) l h =
    let (e, k, a) = check_label-ok (c ∷ cs) l h in (e, ground (arith, e), k, a)

-- Where validate accepts a label and gives one back, what it gives back is the label with the space around it
-- trimmed; that has between 1 and 128 characters, none of them forbidden, and validate gives it back unchanged.
pub validate-IsAccepted :
    (t l : Text)
    → validate (some t) ≡ ok (some l)
    → (l ≡ trim_matches is_space t)
      × (1 ≤ length l)
      × (length l ≤ max_len)
      × All (λ c. is_forbidden c ≡ false) l
      × (validate (some l) ≡ ok (some l))
unfolding validate
validate-IsAccepted t l h =
    let (e, lo, hi, a) = validate_trimmed-ok (trim_matches is_space t) l h in
    let again : trim_matches is_space l ≡ trim_matches is_space t =
      ap (trim_matches is_space) e ∙ trim_matches-again is_space t in
    (e, lo, hi, a, ap validate_trimmed again ∙ h)
