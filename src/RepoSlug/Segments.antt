-- ===== src/RepoSlug/Segments.antt =====
-- The accepted slugs, described by their segments and not by a scan.
use otto_factory.AgentLabel.{find_char}
use otto_factory.Common.{
  Bool, Bool-cases, List, Option, [], ap, arith, false, inl, inr, leb, none, not, refl, some, subst,
  true, ℕ, ◌&&◌, ◌++◌, ◌+◌, ◌==◌, ◌∙◌, ◌∷◌, ◌≡◌, ◌≤◌, ◌↔◌,
}
use otto_factory.Common.Lists.{All, all, any, is_empty, length}
use otto_factory.Common.Text.{Text}
use otto_factory.Error.{bad_segment, bad_start, empty_text, invalid_repo_slug, ok, too_long}
use otto_factory.Error.Laws.{>>=-eq-ok, guard-eq-ok}
use otto_factory.RepoSlug.{
  check_chars, is_alphanumeric, is_bad_segment, is_slug_char, max_len, split, starts_well, validate,
}

-- A character of a segment: letters, digits and - _ .
abbrev pub is_segment_char : ℕ → Bool
is_segment_char c = is_slug_char c && not (c == 0x2f)

-- The segments with a slash between each two.
abbrev pub join : List Text → Text
join [] = []
join (seg ∷ []) = seg
join (seg ∷ next ∷ segs) = seg ++ 0x2f ∷ join (next ∷ segs)

abbrev pub IsSegment : Text → Type 0
IsSegment seg = (all is_segment_char seg ≡ true) × (is_bad_segment seg ≡ false)

pub record IsSlug (slug : Text) : Type 0 where
  pub segments : List Text
  pub joined : join segments ≡ slug
  pub sound : All IsSegment segments
  pub short : length slug ≤ max_len
  pub started : starts_well slug ≡ true

split-shape : (t : Text) → (seg : Text) × (segs : List Text) × (split t ≡ seg ∷ segs)
unfolding split
split-shape [] = ([], [], refl)
split-shape (c ∷ cs) =
    let (seg, segs, e) = split-shape cs in
    elim (Bool-cases (c == 0x2f)) [
      | inl y ↦ ([], split cs, rw y refl)
      | inr n ↦ (c ∷ seg, segs, rw (n, e) refl)
    ]

join-first :
    (c : ℕ) (seg : Text) (segs : List Text) → join ((c ∷ seg) ∷ segs) ≡ c ∷ join (seg ∷ segs)
join-first c seg [] = refl
join-first c seg (next ∷ segs) = refl

join-split : (t : Text) → join (split t) ≡ t
unfolding split
join-split [] = refl
join-split (c ∷ cs) =
    let (seg, segs, e) = split-shape cs in
    let whole : join (seg ∷ segs) ≡ cs = subst (λ z. join z ≡ cs) e (join-split cs) in
    elim (Bool-cases (c == 0x2f)) [
      | inl y ↦ rw (y, e) (ap (λ z. 0x2f ∷ z) whole ∙ ap (λ x. x ∷ cs) (ground (arith, y)))
      | inr n ↦ rw (n, e) (join-first c seg segs ∙ ap (λ z. c ∷ z) whole)
    ]

split-plain : (seg : Text) → all is_segment_char seg ≡ true → split seg ≡ seg ∷ []
unfolding split
split-plain [] h = refl
split-plain (c ∷ cs) h =
    let n : (c == 0x2f) ≡ false = ground (arith, h) in
    rw (n, split-plain cs (ground (arith, h))) refl

split-slash :
    (seg rest : Text)
    → all is_segment_char seg ≡ true
    → split (seg ++ 0x2f ∷ rest) ≡ seg ∷ split rest
unfolding split
split-slash [] rest h = refl
split-slash (c ∷ cs) rest h =
    let n : (c == 0x2f) ≡ false = ground (arith, h) in
    rw (n, split-slash cs rest (ground (arith, h))) refl

split-join :
    (seg : Text) (segs : List Text)
    → All IsSegment (seg ∷ segs)
    → split (join (seg ∷ segs)) ≡ seg ∷ segs
split-join seg [] a = split-plain seg a.0.0
split-join seg (next ∷ segs) a =
    split-slash seg (join (next ∷ segs)) a.0.0 ∙ ap (λ x. seg ∷ x) (split-join next segs a.1)

find_char-all :
    (i : ℕ) (t : Text)
    → find_char (λ c. not (is_slug_char c)) i t ≡ none
    → all is_slug_char t ≡ true
unfolding find_char
find_char-all i [] h = refl
find_char-all i (c ∷ cs) h = elim (Bool-cases (is_slug_char c)) [
  | inl y ↦ ground (arith, y, find_char-all (i + 1) cs (ground (arith, h, y)))
  | inr n ↦ absurd (ground (arith, h, n))
]

all-find_char :
    (i : ℕ) (t : Text)
    → all is_slug_char t ≡ true
    → find_char (λ c. not (is_slug_char c)) i t ≡ none
unfolding find_char
all-find_char i [] h = refl
all-find_char i (c ∷ cs) h = ground (arith, h, all-find_char (i + 1) cs)

pub all-append :
    (p : ℕ → Bool) (t u : Text) → all p t ≡ true → all p u ≡ true → all p (t ++ u) ≡ true
all-append p [] u h k = k
all-append p (c ∷ cs) u h k = ground (arith, h, all-append p cs u)

segment-chars : (seg : Text) → all is_segment_char seg ≡ true → all is_slug_char seg ≡ true
segment-chars [] h = refl
segment-chars (c ∷ cs) h = ground (arith, h, segment-chars cs)

pub join-chars : (segs : List Text) → All IsSegment segs → all is_slug_char (join segs) ≡ true
unfolding is_slug_char is_alphanumeric
join-chars [] a = refl
join-chars (seg ∷ []) a = segment-chars seg a.0.0
join-chars (seg ∷ next ∷ segs) a =
    all-append is_slug_char seg (0x2f ∷ join (next ∷ segs)) (segment-chars seg a.0.0)
      (ground (arith, join-chars (next ∷ segs) a.1))

segments-good : (segs : List Text) → All IsSegment segs → any is_bad_segment segs ≡ false
segments-good [] a = refl
segments-good (seg ∷ segs) a = ground (arith, a.0.1, segments-good segs a.1)

split-segments :
    (t : Text) → all is_slug_char t ≡ true → All (λ seg. all is_segment_char seg ≡ true) (split t)
unfolding split
split-segments [] h = (refl, tt)
split-segments (c ∷ cs) h =
    let rest = split-segments cs (ground (arith, h)) in
    let (seg, segs, e) = split-shape cs in
    elim (Bool-cases (c == 0x2f)) [
      | inl y ↦ rw y (refl, rest)
      | inr n ↦
          let parts = subst (λ z. All (λ x. all is_segment_char x ≡ true) z) e rest in
          rw (n, e) (ground (arith, h, n, parts.0), parts.1)
    ]

both-segments :
    (segs : List Text)
    → All (λ seg. all is_segment_char seg ≡ true) segs
    → any is_bad_segment segs ≡ false
    → All IsSegment segs
both-segments [] a h = tt
both-segments (seg ∷ segs) a h =
    ((a.0, ground (arith, h)), both-segments segs a.1 (ground (arith, h)))

unfound : (o : Option (ℕ × ℕ)) {u : Unit {0}} → check_chars o ≡ ok u → o ≡ none
unfound none h = refl
unfound (some (i, c)) h = cc

pub accepted-IsSlug : (slug : Text) {r : Text} → validate slug ≡ ok r → IsSlug slug
unfolding validate
accepted-IsSlug slug h =
    let (a, h0) = guard-eq-ok (not (is_empty slug)) (invalid_repo_slug empty_text) _ h in
    let (l, h1) =
      guard-eq-ok (leb (length slug) max_len) (invalid_repo_slug (too_long (length slug))) _ h0 in
    let (st, h2) = guard-eq-ok (starts_well slug) (invalid_repo_slug bad_start) _ h1 in
    let found = find_char (λ c. not (is_slug_char c)) 0 slug in
    let (u, e, h3) = >>=-eq-ok (check_chars found) _ h2 in
    let (g, h4) =
      guard-eq-ok (not (any is_bad_segment (split slug))) (invalid_repo_slug bad_segment) _ h3 in
    record {
      segments = split slug;
      joined = join-split slug;
      sound =
          both-segments (split slug) (split-segments slug (find_char-all 0 slug (unfound found e)))
            (ground (arith, g));
      short = ground (arith, l);
      started = st;
    }

-- The segments that are joined are the ones that split finds.
split-found :
    (segs : List Text)
    → All IsSegment segs
    → starts_well (join segs) ≡ true
    → split (join segs) ≡ segs
split-found [] a h = cc
split-found (seg ∷ segs) a h = split-join seg segs a

started-filled : (t : Text) → starts_well t ≡ true → not (is_empty t) ≡ true
started-filled [] h = cc
started-filled (c ∷ cs) h = refl

slug-accepted :
    (segs : List Text)
    → All IsSegment segs
    → length (join segs) ≤ max_len
    → starts_well (join segs) ≡ true
    → validate (join segs) ≡ ok (join segs)
unfolding validate
slug-accepted segs a l h =
    let short : leb (length (join segs)) max_len ≡ true = ground (arith, l) in
    let good : any is_bad_segment (split (join segs)) ≡ false =
      rw (split-found segs a h) (segments-good segs a) in
    rw
      (
        started-filled (join segs) h,
        short,
        h,
        all-find_char 0 (join segs) (join-chars segs a),
        good,
      )
      refl

-- validate accepts a text, and gives it back, exactly when the text is one or more segments with single slashes
-- between them, each of letters, digits, '-', '_' and '.', none of them empty, '.' or '..', when it starts with a
-- letter or a digit, and when it has at most 128 characters.
pub validate-ok_iff : (slug : Text) → (validate slug ≡ ok slug) ↔ IsSlug slug
validate-ok_iff slug = (
  accepted-IsSlug slug,
  λ v.
      subst (λ t. validate t ≡ ok t) v.joined
        (slug-accepted v.segments v.sound (rw v.joined v.short) (rw v.joined v.started)),
)
