-- ===== src/Messages/Pages.antt =====
-- What a page of an inbox is: the first messages, by id, of those that the inbox has.
use otto_factory.Common.{
  Bool, Bool-cases, List, [], arith, false, if◌then◌else◌, inl, inr, leb, refl, true, ℕ, zero, suc,
  ◌&&◌, ◌++◌, ◌+◌, ◌∙◌, ◌∷◌, ◌≡◌, ◌≤◌, ◌⊎◌, ap, subst, sym,
}
use otto_factory.Common.Int.{clamp, clamp_bounds}
use otto_factory.Common.Lists.{All, drop, length, take}
use otto_factory.Messages.{Board, Post, inbox_limit_max}
use otto_factory.Messages.Inbox.{InboxQuery, in_inbox, inbox, insert_by_id, order_by_id}
use otto_factory.Store.{Store, Tx}
use otto_factory.Table.{count_where, select_where}
use otto_factory.Table.Rows.{All-map}

-- `p` comes no later than `x`.
abbrev pub Before : Bool → Post → Post → Type 0
Before true p x = x.row.id ≤ p.row.id
Before false p x = p.row.id ≤ x.row.id

abbrev pub IsOrdered : Bool → List Post → Type 0
IsOrdered newest [] = Unit
IsOrdered newest (p ∷ ps) = All (Before newest p) ps × IsOrdered newest ps

module _ (newest : Bool) where
  Before-trans : (p x y : Post) → Before newest p x → Before newest x y → Before newest p y
  Before-trans p x y a b =
      elim newest as (λ n. Before n p x → Before n x y → Before n p y) [
        | true ↦ λ a b. omega arith
        | false ↦ λ a b. omega arith
      ]
        a b

  All-insert :
      (P : Post → Type 0) (p : Post) (xs : List Post)
      → P p
      → All P xs
      → All P (insert_by_id newest p xs)
  unfolding insert_by_id
  All-insert P p [] h a = (h, tt)
  All-insert P p (x ∷ xs) h a =
      elim (Bool-cases (if newest then leb x.row.id p.row.id else leb p.row.id x.row.id)) [
        | inl e ↦ rw e (h, a)
        | inr e ↦ rw e (a.0, All-insert P p xs h a.1)
      ]

  first-Before :
      (p x : Post)
      → (if newest then leb x.row.id p.row.id else leb p.row.id x.row.id) ≡ true
      → Before newest p x
  first-Before p x h =
      elim newest
          as (λ n.
            (if n then leb x.row.id p.row.id else leb p.row.id x.row.id) ≡ true → Before n p x) [
              | true ↦ λ h. ground arith
              | false ↦ λ h. ground arith
            ]
        h

  then_after :
      (p x : Post)
      → (if newest then leb x.row.id p.row.id else leb p.row.id x.row.id) ≡ false
      → Before newest x p
  then_after p x h =
      elim newest
          as (λ n.
            (if n then leb x.row.id p.row.id else leb p.row.id x.row.id) ≡ false → Before n x p) [
              | true ↦ λ h. ground arith
              | false ↦ λ h. ground arith
            ]
        h

  insert-IsOrdered :
      (p : Post) (xs : List Post)
      → IsOrdered newest xs
      → IsOrdered newest (insert_by_id newest p xs)
  unfolding insert_by_id
  insert-IsOrdered p [] o = (tt, tt)
  insert-IsOrdered p (x ∷ xs) o =
      elim (Bool-cases (if newest then leb x.row.id p.row.id else leb p.row.id x.row.id)) [
        | inl e ↦ rw e (
          (
            first-Before p x e,
            All-map (Before newest x) (Before newest p) xs
                (λ y. Before-trans p x y (first-Before p x e)) o.0,
          ),
          o,
        )
        | inr e ↦
            rw e
              (All-insert (Before newest x) p xs (then_after p x e) o.0, insert-IsOrdered p xs o.1)
      ]

  order-IsOrdered : (xs : List Post) → IsOrdered newest (order_by_id newest xs)
  unfolding order_by_id
  order-IsOrdered [] = tt
  order-IsOrdered (x ∷ xs) = insert-IsOrdered x (order_by_id newest xs) (order-IsOrdered xs)

  count-insert :
      (q : Post → Bool) (p : Post) (xs : List Post)
      → count_where q (insert_by_id newest p xs) ≡ (if q p then 1 else 0) + count_where q xs
  unfolding insert_by_id count_where
  count-insert q p [] = refl
  count-insert q p (x ∷ xs) =
      elim (Bool-cases (if newest then leb x.row.id p.row.id else leb p.row.id x.row.id)) [
        | inl e ↦ rw e refl
        | inr e ↦ rw e (omega (arith, count-insert q p xs))
      ]

  count-order :
      (q : Post → Bool) (xs : List Post) → count_where q (order_by_id newest xs) ≡ count_where q xs
  unfolding order_by_id count_where
  count-order q [] = refl
  count-order q (x ∷ xs) =
      count-insert q x (order_by_id newest xs)
      ∙ ap (λ n. (if q x then 1 else 0) + n) (count-order q xs)

module _ {ℓ} {A : Type ℓ} where
  count-select :
      (q p : A → Bool) (t : List A)
      → count_where q (select_where p t) ≡ count_where (λ x. p x && q x) t
  unfolding count_where select_where
  count-select q p [] = refl
  count-select q p (x ∷ xs) = ground (arith, count-select q p xs)

  take-drop : (n : ℕ) (xs : List A) → take n xs ++ drop n xs ≡ xs
  take-drop zero xs = refl
  take-drop (suc n) [] = refl
  take-drop (suc n) (x ∷ xs) = ap (λ t. x ∷ t) (take-drop n xs)

  length-take : (n : ℕ) (xs : List A) → length (take n xs) ≤ n
  length-take zero xs = omega arith
  length-take (suc n) [] = omega arith
  length-take (suc n) (x ∷ xs) = omega (arith, length-take n xs)

  take-full : (n : ℕ) (xs : List A) → (drop n xs ≡ []) ⊎ (length (take n xs) ≡ n)
  take-full zero xs = inr refl
  take-full (suc n) [] = inl refl
  take-full (suc n) (x ∷ xs) = elim (take-full n xs) [ inl e ↦ inl e | inr e ↦ inr (ap suc e) ]

-- A page, and the messages of the inbox that it leaves for later.
pub record IsPage (tx : Tx) (reader : ℕ) (q : InboxQuery) (s : Store) (b : Board) (page : List Post)
    : Type 0 where
  pub rest : List Post
  pub ordered : IsOrdered q.newest_first (page ++ rest)
  pub same :
      (p : Post → Bool)
      → count_where p (page ++ rest)
        ≡ count_where (λ x. in_inbox tx reader q s b.cursors x && p x) b.posts
  pub bounded : length page ≤ inbox_limit_max
  pub within : length page ≤ clamp q.limit 1 inbox_limit_max
  pub full : (rest ≡ []) ⊎ (length page ≡ clamp q.limit 1 inbox_limit_max)

-- A page of an inbox has at most 200 messages, and no more than the limit asked for, where that is at
-- least one. With what it leaves out it is a rearrangement, by id in the direction asked for, of exactly
-- the messages that the reader's inbox has; and it leaves something out only when it is full.
pub inbox-IsPage :
    (tx : Tx) (reader : ℕ) (q : InboxQuery) (s : Store) (b : Board)
    → IsPage tx reader q s b (inbox tx reader q s b)
unfolding inbox
inbox-IsPage tx reader q s b =
    let n = clamp q.limit 1 inbox_limit_max in
    let all =
      order_by_id q.newest_first (select_where (in_inbox tx reader q s b.cursors) b.posts) in
    record {
      rest = drop n all;
      ordered = subst (IsOrdered q.newest_first) (sym (take-drop n all)) (
          order-IsOrdered q.newest_first (select_where (in_inbox tx reader q s b.cursors) b.posts));
      same = λ p.
          ap (count_where p) (take-drop n all)
          ∙ (count-order q.newest_first p (select_where (in_inbox tx reader q s b.cursors) b.posts)
              ∙ count-select p (in_inbox tx reader q s b.cursors) b.posts);
      bounded =
          omega (arith, length-take n all, clamp_bounds q.limit 1 inbox_limit_max (omega arith));
      within = length-take n all;
      full = take-full n all;
    }
