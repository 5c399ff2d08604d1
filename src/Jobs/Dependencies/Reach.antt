-- ===== src/Jobs/Dependencies/Reach.antt =====
-- The recursive query of set_dependencies finds the jobs that a path of edges leads to, and no others.
use otto_factory.Common.{
  Bool, Bool-cases, List, [], arith, false, if◌then◌else◌, inl, inr, not, refl, subst, suc, true,
  zero, ℕ, ◌&&◌, ◌++◌, ◌+◌, ◌||◌, ◌↔◌, ◌∙◌, ◌∷◌, ◌≡◌, ◌≤◌, ◌⊎◌,
}
use otto_factory.Common.Lists.{All, All-append, is_empty, length}
use otto_factory.Common.Text.{Text, text_eq, text_eq_refl, text_eq_sound, text_eq_sym}
use otto_factory.Jobs.Claim.{has_id}
use otto_factory.Jobs.Dependencies.{close_under, direct, reach, step}
use otto_factory.Table.{count_where}
use otto_factory.Table.Rows.{All-map}

unfoldable pub has_edge : List (Text × Text) → Text → Text → Bool
has_edge [] a b = false
has_edge ((x, y) ∷ es) a b = (text_eq x a && text_eq y b) || has_edge es a b

-- `Leads es a b`: one edge or more go from `a` to `b`.
pub data Leads (es : List (Text × Text)) : Text → Text → Type 0 where
  by_edge : {a b : Text} → has_edge es a b ≡ true → Leads es a b
  and_then : {a b c : Text} → has_edge es a b ≡ true → Leads es b c → Leads es a c

pub Leads-trans :
    (es : List (Text × Text)) (a b c : Text) → Leads es a b → Leads es b c → Leads es a c
Leads-trans es a b c (by_edge e) q = and_then e q
Leads-trans es a b c (and_then e p) q = and_then e (Leads-trans es _ b c p q)

pub has_id-append :
    (xs ys : List Text) (i : Text) → has_id (xs ++ ys) i ≡ (has_id xs i || has_id ys i)
has_id-append [] ys i = refl
has_id-append (x ∷ xs) ys i = ground (arith, has_id-append xs ys i)

-- A set of jobs that no edge leaves.
abbrev Closed : List (Text × Text) → List Text → Type 0
Closed es found =
    (a b : Text) → has_edge es a b ≡ true → has_id found a ≡ true → has_id found b ≡ true

step-Closed : (es : List (Text × Text)) (found : List Text) → step es found ≡ [] → Closed es found
unfolding step has_edge
step-Closed [] found h a b e f = cc
step-Closed ((x, y) ∷ es) found h a b e f =
    ground (arith, text_eq_sound x a, text_eq_sound y b, step-Closed es found (ground arith) a b)

step-empty :
    (es : List (Text × Text)) (found : List Text)
    → count_where (λ (e : Text × Text). not (has_id found e.1)) es ≡ 0
    → step es found ≡ []
unfolding step count_where
step-empty [] found h = refl
step-empty ((x, y) ∷ es) found h = ground (arith, step-empty es found)

List-cases : {A : Type 0} (xs : List A) → (xs ≡ []) ⊎ ((y : A) × (ys : List A) × (xs ≡ y ∷ ys))
List-cases [] = inl refl
List-cases (y ∷ ys) = inr (y, ys, refl)

All-self : (xs : List Text) → All (λ b. has_id xs b ≡ true) xs
All-self [] = tt
All-self (x ∷ xs) = (
  ground (arith, text_eq_refl x),
  All-map (λ b. has_id xs b ≡ true) (λ b. has_id (x ∷ xs) b ≡ true) xs (λ b h. ground (arith, h))
      (All-self xs),
)

-- A round that finds something uses up an edge.
step-uses :
    (es : List (Text × Text)) (found news : List Text)
    → All (λ b. has_id news b ≡ true) (step es found)
    → (if is_empty (step es found) then 0 else 1)
        + count_where (λ (e : Text × Text). not (has_id (news ++ found) e.1)) es
      ≤ count_where (λ (e : Text × Text). not (has_id found e.1)) es
unfolding step count_where
step-uses [] found news h = omega arith
step-uses ((x, y) ∷ es) found news h =
    ground (arith, has_id-append news found y, step-uses es found news)

close_under-Closed :
    (fuel : ℕ) (es : List (Text × Text)) (found : List Text)
    → count_where (λ (e : Text × Text). not (has_id found e.1)) es ≤ fuel
    → Closed es (close_under fuel es found)
unfolding close_under
close_under-Closed zero es found h = step-Closed es found (step-empty es found (omega arith))
close_under-Closed (suc fuel) es found h = elim (List-cases (step es found)) [
  | inl e ↦ rw (e, close_under) (step-Closed es found e)
  | inr (x, xs, e) ↦
      let used = step-uses es found (step es found) (All-self (step es found)) in
      rw (e, close_under) (close_under-Closed fuel es ((x ∷ xs) ++ found) (ground (arith, used)))
]

close_under-keeps :
    (fuel : ℕ) (es : List (Text × Text)) (found : List Text) (i : Text)
    → has_id found i ≡ true
    → has_id (close_under fuel es found) i ≡ true
unfolding close_under
close_under-keeps zero es found i h = h
close_under-keeps (suc fuel) es found i h = elim (List-cases (step es found)) [
  | inl e ↦ rw (e, close_under) h
  | inr (x, xs, e) ↦
      rw (e, close_under)
        (close_under-keeps fuel es ((x ∷ xs) ++ found) i
          (ground (arith, has_id-append (x ∷ xs) found i)))
]

direct-edge : (es : List (Text × Text)) (a b : Text) → has_id (direct es a) b ≡ has_edge es a b
unfolding direct has_edge
direct-edge [] a b = refl
direct-edge ((x, y) ∷ es) a b = ground (arith, direct-edge es a b, text_eq_sym b y)

edge-count : (es : List (Text × Text)) (p : Text × Text → Bool) → count_where p es ≤ length es
unfolding count_where
edge-count [] p = omega arith
edge-count (e ∷ es) p = ground (arith, edge-count es p)

Leads-Closed :
    (es : List (Text × Text)) (found : List Text) (a b : Text)
    → Closed es found
    → Leads es a b
    → has_id found a ≡ true
    → has_id found b ≡ true
Leads-Closed es found a b c (by_edge e) h = c a b e h
Leads-Closed es found a b c (and_then e p) h = Leads-Closed es found _ b c p (c a _ e h)

-- A path that leaves `a` ends in the answer.
pub reach_complete :
    (es : List (Text × Text)) (a b : Text) → Leads es a b → has_id (reach es a) b ≡ true
unfolding reach
reach_complete es a b p =
    let closed = close_under-Closed (length es) es (direct es a) (edge-count es _) in
    let start = λ (c : Text) (e : has_edge es a c ≡ true).
      close_under-keeps (length es) es (direct es a) c (direct-edge es a c ∙ e) in
    begin_path (reach es a) p start closed
  where
    begin_path :
        (found : List Text)
        → Leads es a b
        → ((c : Text) → has_edge es a c ≡ true → has_id found c ≡ true)
        → Closed es found
        → has_id found b ≡ true
    begin_path found (by_edge e) start closed = start b e
    begin_path found (and_then e q) start closed = Leads-Closed es found _ b closed q (start _ e)

pub All-has_id :
    (P : Text → Type 0) (xs : List Text) (i : Text) → All P xs → has_id xs i ≡ true → P i
All-has_id P [] i a h = cc
All-has_id P (x ∷ xs) i a h = elim (Bool-cases (text_eq x i)) [
  | inl e ↦ subst P (text_eq_sound x i e) a.0
  | inr e ↦ All-has_id P xs i a.1 (ground (arith, e, text_eq_sym x i))
]

module _ (es : List (Text × Text)) (a : Text) where
  step-Leads :
      (part : List (Text × Text)) (found : List Text)
      → ((x y : Text) → has_edge part x y ≡ true → has_edge es x y ≡ true)
      → All (Leads es a) found
      → All (Leads es a) (step part found)
  unfolding step has_edge
  step-Leads [] found sub l = tt
  step-Leads ((x, y) ∷ part) found sub l =
      let rest = step-Leads part found (λ v w e. sub v w (ground (arith, e))) l in
      elim (Bool-cases (has_id found x && not (has_id found y))) [
        | inl e ↦
            let here = All-has_id (Leads es a) found x l (ground (arith, e)) in
            let edge = sub x y (ground (arith, text_eq_refl x, text_eq_refl y)) in
            rw e (Leads-trans es a x y here (by_edge edge), rest)
        | inr e ↦ rw e rest
      ]

  close_under-Leads :
      (fuel : ℕ) (found : List Text)
      → All (Leads es a) found
      → All (Leads es a) (close_under fuel es found)
  unfolding close_under
  close_under-Leads zero found l = l
  close_under-Leads (suc fuel) found l = elim (List-cases (step es found)) [
    | inl e ↦ rw (e, close_under) l
    | inr (x, xs, e) ↦
        let news = subst (All (Leads es a)) e (step-Leads es found (λ v w h. h) l) in
        rw (e, close_under)
          (close_under-Leads fuel ((x ∷ xs) ++ found)
            (All-append (Leads es a) (x ∷ xs) found news l))
  ]

  direct-Leads :
      (part : List (Text × Text))
      → ((x y : Text) → has_edge part x y ≡ true → has_edge es x y ≡ true)
      → All (Leads es a) (direct part a)
  unfolding direct has_edge
  direct-Leads [] sub = tt
  direct-Leads ((x, y) ∷ part) sub =
      let rest = direct-Leads part (λ v w e. sub v w (ground (arith, e))) in
      elim (Bool-cases (text_eq x a)) [
        | inl e ↦ rw e (by_edge (sub a y (ground (arith, e, text_eq_refl y))), rest)
        | inr e ↦ rw e rest
      ]

-- The recursive query of set_dependencies answers the jobs that one edge or more lead to from `a`:
-- each of them, and no other.
pub reach-Leads :
    (es : List (Text × Text)) (a b : Text) → (has_id (reach es a) b ≡ true) ↔ Leads es a b
unfolding reach
reach-Leads es a b = (
  All-has_id (Leads es a) (reach es a) b
      (close_under-Leads es a (length es) (direct es a) (direct-Leads es a es (λ v w h. h))),
  reach_complete es a b,
)
