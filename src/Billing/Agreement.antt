-- ===== src/Billing/Agreement.antt =====
-- Rows of usage_outbox that share an id are one event, and what a claim, a receipt and a retry do to that.
use otto_factory.Billing.Outbox.{
  add_event, DeadLetter, Rejection, ShipperConfig, UsageEvent, UsageRow, claim_due, dead_letter,
  dead_letters, due_ids, event_of, events_of, final_rejections, has_num, held_events, ids_of,
  in_ids, insert_by_id, postpone, sort_by_id, take_row, to_event,
}
use otto_factory.Common.{
  Bool, Bool-cases, List, Option, [], arith, false, inl, inr, leb, map, none, refl, some, true, ℕ,
  ◌&&◌, ◌++◌, ◌<◌, ◌==◌, ◌∷◌, ◌≡◌, ◌||◌,
}
use otto_factory.Common.Lists.{All, length}
use otto_factory.Common.Int.{negsuc, pos, ℤ}
use otto_factory.Common.Text.{Text}
use otto_factory.Table.{delete_where, exists_where, select_where, update_where}
use otto_factory.Table.Rows.{All-delete, All-map, All-update}

-- `r` is the event of `x`, if they share an id.
abbrev pub SameEvent : UsageRow → UsageRow → Type 0
SameEvent x r = r.id ≡ x.id → r.event_id ≡ x.event_id

-- Each row of `t` is the event of any row of `rows` with its id.
abbrev pub Agrees : List UsageRow → List UsageRow → Type 0
Agrees t rows = All (λ x. All (SameEvent x) rows) t

-- An update that keeps both columns.
abbrev pub Keeps : (UsageRow → UsageRow) → Type 0
Keeps f = (r : UsageRow) → ((f r).id ≡ r.id) × ((f r).event_id ≡ r.event_id)

pub take_row-Keeps : (cfg : ShipperConfig) (now : ℕ) → Keeps (take_row cfg now)
unfolding take_row
take_row-Keeps cfg now r = (refl, refl)

pub postpone-Keeps : (cfg : ShipperConfig) (now : ℕ) (m : Text) → Keeps (postpone cfg now m)
unfolding postpone
postpone-Keeps cfg now m r = (refl, refl)

module _ {κ} (P : UsageRow → Type κ) where
  pub All-select : (p : UsageRow → Bool) (t : List UsageRow) → All P t → All P (select_where p t)
  unfolding select_where
  All-select p [] a = tt
  All-select p (x ∷ xs) a = elim (Bool-cases (p x)) [
    | inl e ↦ rw e (a.0, All-select p xs a.1)
    | inr e ↦ rw e (All-select p xs a.1)
  ]

  All-insert : (r : UsageRow) (t : List UsageRow) → P r → All P t → All P (insert_by_id r t)
  unfolding insert_by_id
  All-insert r [] h a = (h, tt)
  All-insert r (x ∷ xs) h a = elim (Bool-cases (leb r.id x.id)) [
    | inl e ↦ rw e (h, a)
    | inr e ↦ rw e (a.0, All-insert r xs h a.1)
  ]

  pub All-sort : (t : List UsageRow) → All P t → All P (sort_by_id t)
  unfolding sort_by_id
  All-sort [] a = tt
  All-sort (x ∷ xs) a = All-insert x (sort_by_id xs) a.0 (All-sort xs a.1)

module _ (p : UsageRow → Bool) (f : UsageRow → UsageRow) (k : Keeps f) where
  pub Agrees-update : (t rows : List UsageRow) → Agrees t rows → Agrees (update_where p f t) rows
  Agrees-update t rows a =
      All-update (λ x. All (SameEvent x) rows) p f t
        (λ x _ b.
          All-map (SameEvent x) (SameEvent (f x)) rows
            (λ r h e. ground (arith, h (ground (arith, k x)), k x)) b)
        a

  inner :
      (x : UsageRow) (rows : List UsageRow)
      → All (SameEvent x) rows
      → All (SameEvent x) (update_where p f rows)
  inner x rows b =
      All-update (SameEvent x) p f rows (λ r _ h e. ground (arith, h (ground (arith, k r)), k r)) b

  pub Agrees-update_self :
      (t : List UsageRow) → Agrees t t → Agrees (update_where p f t) (update_where p f t)
  Agrees-update_self t a = Agrees-update t (update_where p f t) (
      All-map (λ x. All (SameEvent x) t) (λ x. All (SameEvent x) (update_where p f t)) t
        (λ x. inner x t) a)

  pub below-update :
      (n : ℕ) (t : List UsageRow) → All (λ r. r.id < n) t → All (λ r. r.id < n) (update_where p f t)
  below-update n t a = All-update (λ r. r.id < n) p f t (λ x _ h. ground (arith, k x)) a

  pub exists-update :
      (e : ℕ) (t : List UsageRow)
      → exists_where (λ (x : UsageRow). x.event_id == e) (update_where p f t)
        ≡ exists_where (λ (x : UsageRow). x.event_id == e) t
  unfolding exists_where update_where
  exists-update e [] = refl
  exists-update e (x ∷ xs) = ground (arith, k x, exists-update e xs)

pub Agrees-delete_self :
    (p : UsageRow → Bool) (t : List UsageRow)
    → Agrees t t
    → Agrees (delete_where p t) (delete_where p t)
Agrees-delete_self p t a =
    All-map (λ x. All (SameEvent x) t) (λ x. All (SameEvent x) (delete_where p t))
      (delete_where p t) (λ x. All-delete (SameEvent x) p t)
      (All-delete (λ x. All (SameEvent x) t) p t a)

-- What a claim hands out is rows of the table that it leaves.
pub claim_due-ok :
    (cfg : ShipperConfig) (now : ℕ) (locked : ℕ → Bool) (t rows t' : List UsageRow)
    → claim_due cfg now locked t ≡ some (rows, t')
    → (t' ≡ update_where (in_ids (due_ids cfg now locked t)) (take_row cfg now) t)
      × (rows ≡ sort_by_id (select_where (in_ids (due_ids cfg now locked t)) t'))
unfolding claim_due
claim_due-ok cfg now locked t rows t' h = ground arith

event_of-id :
    (r : UsageRow) (q : Option ℤ) (u : UsageEvent) → event_of r q ≡ some u → u.event_id ≡ r.event_id
unfolding event_of to_event
event_of-id r none u h = ground arith
event_of-id r (some (pos n)) u h = ground arith
event_of-id r (some (negsuc n)) u h = cc

add_event-ok :
    (o : Option UsageEvent) (os : Option (List UsageEvent)) (es : List UsageEvent)
    → add_event o os ≡ some es
    → (u : UsageEvent) × (us : List UsageEvent) × (o ≡ some u) × (os ≡ some us) × (es ≡ u ∷ us)
add_event-ok none os es h = cc
add_event-ok (some u) none es h = cc
add_event-ok (some u) (some us) es h = (u, us, refl, refl, ground arith)

-- The events sent are those of the rows.
pub events_of-rows :
    (rows : List UsageRow) (es : List UsageEvent)
    → events_of rows ≡ some es
    → (length es ≡ length (ids_of rows))
      × (map (λ (u : UsageEvent). u.event_id) es ≡ map (λ (r : UsageRow). r.event_id) rows)
unfolding events_of
events_of-rows [] es h = ground arith
events_of-rows (r ∷ rs) es h =
    let (u, us, a, b, c) = add_event-ok (event_of r r.quantity) (events_of rs) es h in
    ground (arith, c, event_of-id r r.quantity u a, events_of-rows rs us b)

-- The row of a batch under an id in it.
pub row_of :
    (rows : List UsageRow) (n : ℕ)
    → has_num (ids_of rows) n ≡ true
    → (P : UsageRow → Type 0) → All P rows
    → (r : UsageRow) × (r.id ≡ n) × P r
unfolding has_num
row_of [] n h P a = cc
row_of (r ∷ rs) n h P a = elim (Bool-cases (r.id == n)) [
  | inl e ↦ (r, ground arith, a.0)
  | inr e ↦ row_of rs n (ground arith) P a.1
]

-- A rejection is held, or final.
pub held-or_final :
    (rejected : List Rejection) (e : ℕ)
    → has_num (map (λ (x : Rejection). x.event_id) rejected) e ≡ true
    → has_num (held_events rejected) e ≡ false
    → has_num (map (λ (x : Rejection). x.event_id) (final_rejections rejected)) e ≡ true
unfolding has_num held_events final_rejections select_where
held-or_final [] e h n = cc
held-or_final (r ∷ rs) e h n = ground (arith, held-or_final rs e)

exists-map :
    (reason : Text) (e e' : ℕ) (t : List UsageRow)
    → exists_where
        (λ (d : DeadLetter). d.event_id == e)
        (map (dead_letter reason) (select_where (λ (x : UsageRow). x.event_id == e') t))
      ≡ exists_where (λ (x : UsageRow). x.event_id == e && x.event_id == e') t
unfolding exists_where select_where dead_letter
exists-map reason e e' [] = refl
exists-map reason e e' (x ∷ xs) = ground (arith, exists-map reason e e' xs)

pub exists-append {ℓ} :
    {A : Type ℓ} (p : A → Bool) (t u : List A)
    → exists_where p (t ++ u) ≡ (exists_where p t || exists_where p u)
unfolding exists_where
exists-append p [] u = refl
exists-append p (x ∷ xs) u = ground (arith, exists-append p xs u)

exists-same :
    (e e' : ℕ) (t : List UsageRow)
    → e ≡ e'
    → exists_where (λ (x : UsageRow). x.event_id == e && x.event_id == e') t
      ≡ exists_where (λ (x : UsageRow). x.event_id == e) t
unfolding exists_where
exists-same e e' [] h = refl
exists-same e e' (x ∷ xs) h = ground (arith, exists-same e e' xs h)

-- An event that is refused for good and still stands in the outbox reaches the dead letters.
pub dead_letters-has :
    (rejected : List Rejection) (t : List UsageRow) (e : ℕ)
    → has_num (map (λ (x : Rejection). x.event_id) rejected) e ≡ true
    → exists_where (λ (x : UsageRow). x.event_id == e) t ≡ true
    → exists_where (λ (d : DeadLetter). d.event_id == e) (dead_letters rejected t) ≡ true
unfolding has_num dead_letters
dead_letters-has [] t e h x = cc
dead_letters-has (r ∷ rs) t e h x =
    rw
      (
        exists-append (λ (d : DeadLetter). d.event_id == e)
            (map (dead_letter r.reason)
              (select_where (λ (x : UsageRow). x.event_id == r.event_id) t))
            (dead_letters rs t),
        exists-map r.reason e r.event_id t,
      )
      (elim (Bool-cases (r.event_id == e)) [
        | inl s ↦ rw (exists-same e r.event_id t (ground arith)) (ground (arith, x))
        | inr n ↦ ground (arith, dead_letters-has rs t e (ground arith) x)
      ])

-- A deletion that spares every row of an event.
pub exists-spared :
    (e : ℕ) (p : UsageRow → Bool) (t : List UsageRow)
    → All (λ x. (x.event_id == e) ≡ true → p x ≡ false) t
    → exists_where (λ (x : UsageRow). x.event_id == e) (delete_where p t)
      ≡ exists_where (λ (x : UsageRow). x.event_id == e) t
unfolding exists_where delete_where
exists-spared e p [] a = refl
exists-spared e p (x ∷ xs) a = ground (arith, a.0, exists-spared e p xs a.1)

events_in :
    (all rows : List UsageRow)
    → ((e : ℕ)
        → has_num (map (λ (r : UsageRow). r.event_id) rows) e ≡ true
        → has_num (map (λ (r : UsageRow). r.event_id) all) e ≡ true)
    → All (λ x. has_num (map (λ (r : UsageRow). r.event_id) all) x.event_id ≡ true) rows
unfolding has_num
events_in all [] h = tt
events_in all (x ∷ xs) h =
    (h x.event_id (ground arith), events_in all xs (λ e m. h e (ground (arith, m))))

pub events_own :
    (rows : List UsageRow)
    → All (λ x. has_num (map (λ (r : UsageRow). r.event_id) rows) x.event_id ≡ true) rows
events_own rows = events_in rows rows (λ e h. h)
