-- ===== src/Billing/Retired.antt =====
-- Renamed meters: the rewrite at start-up against the mapping of each row that is shipped.
use otto_factory.Billing.Outbox.{
  UsageRow, add_event, current_meter, current_of, event_of, events_of, has_num, insert_org,
  is_org_on, meter_jobs_completed, on_meter, orgs_on, rename, rename_orgs, retired_meters,
  rewrite_meters, successor_in, to_event,
}
use otto_factory.Common.{
  Bool, Bool-cases, List, Option, [], ap, arith, false, inl, inr, none, refl, some, true, ℕ, ◌==◌,
  ◌∙◌, ◌∷◌, ◌≡◌, ◌||◌,
}
use otto_factory.Common.Int.{negsuc, pos, ℤ}
use otto_factory.Common.Lists.{All}
use otto_factory.Common.Text.{Text, codes, text_eq, text_eq_sound}
use mathlib.Core.Path.{ap₂, subst, sym}
use otto_factory.Table.{update_where}
use otto_factory.Table.Rows.{All-map, All-update_to}

abbrev retired_key : Text
retired_key = codes "otto-factory/jobs_completed"

-- A row under the retired key and the same row under its successor are one event to the platform.
current-retired : (m : Text) → text_eq m retired_key ≡ true → current_meter m ≡ meter_jobs_completed
unfolding current_meter successor_in text_eq
current-retired m h = rw (text_eq_sound m retired_key h) refl

current-same :
    (m : Option Text)
    → on_meter m retired_key ≡ true
    → current_of (some meter_jobs_completed) ≡ current_of m
unfolding current_meter successor_in text_eq
current-same none h = cc
current-same (some m) h = ap some (sym (current-retired m h))

event-rename :
    (r : UsageRow) (q : Option ℤ)
    → on_meter r.meter retired_key ≡ true
    → event_of (rename meter_jobs_completed r) q ≡ event_of r q
unfolding event_of to_event rename
event-rename r none h = ground (arith, current-same r.meter h)
event-rename r (some (pos n)) h = ground (arith, current-same r.meter h)
event-rename r (some (negsuc n)) h = refl

events-update :
    (p : UsageRow → Bool) (t : List UsageRow)
    → ((r : UsageRow) → p r ≡ true → on_meter r.meter retired_key ≡ true)
    → events_of (update_where p (rename meter_jobs_completed) t) ≡ events_of t
unfolding events_of update_where
events-update p [] h = refl
events-update p (r ∷ rs) h = elim (Bool-cases (p r)) [
  | inl y ↦
      rw y
        (ap₂ add_event (quantity-rename ∙ event-rename r r.quantity (h r y)) (events-update p rs h))
  | inr n ↦ rw n (ap (add_event (event_of r r.quantity)) (events-update p rs h))
]
  where
    quantity-rename :
        event_of (rename meter_jobs_completed r) (rename meter_jobs_completed r).quantity
        ≡ event_of (rename meter_jobs_completed r) r.quantity
    quantity-rename = unfold rename in refl

events-orgs :
    (orgs : List ℕ) (t : List UsageRow)
    → events_of (rename_orgs retired_key meter_jobs_completed orgs t) ≡ events_of t
unfolding rename_orgs is_org_on
events-orgs [] t = refl
events-orgs (o ∷ orgs) t =
    events-orgs orgs (update_where (is_org_on o retired_key) (rename meter_jobs_completed) t)
    ∙ events-update (is_org_on o retired_key) t (λ r h. ground arith)

-- A row that is on the retired key only under one of these orgs.
abbrev IsAmong : List ℕ → UsageRow → Type 0
IsAmong orgs r = on_meter r.meter retired_key ≡ true → has_num orgs r.org_id ≡ true

insert-has : (o x : ℕ) (ps : List ℕ) → has_num (insert_org o ps) x ≡ (o == x || has_num ps x)
unfolding has_num insert_org
insert-has o x [] = refl
insert-has o x (p ∷ ps) = ground (arith, insert-has o x ps)

orgs_on-IsAmong : (t : List UsageRow) → All (IsAmong (orgs_on retired_key t)) t
unfolding orgs_on
orgs_on-IsAmong [] = tt
orgs_on-IsAmong (r ∷ rs) = elim (Bool-cases (on_meter r.meter retired_key)) [
  | inl y ↦
      let same : orgs_on retired_key (r ∷ rs) ≡ insert_org r.org_id (orgs_on retired_key rs) =
        rw y refl in
      subst (λ os. All (IsAmong os) (r ∷ rs)) (sym same)
        (
          λ _. insert-has r.org_id r.org_id (orgs_on retired_key rs) ∙ ground arith,
          All-map (IsAmong (orgs_on retired_key rs))
              (IsAmong (insert_org r.org_id (orgs_on retired_key rs))) rs
              (λ x h m. insert-has r.org_id x.org_id (orgs_on retired_key rs) ∙ ground (arith, h m))
              (orgs_on-IsAmong rs),
        )
  | inr n ↦
      let same : orgs_on retired_key (r ∷ rs) ≡ orgs_on retired_key rs = rw n refl in
      subst (λ os. All (IsAmong os) (r ∷ rs)) (sym same) (λ m. cc, orgs_on-IsAmong rs)
]

rename-clears :
    (orgs : List ℕ) (t : List UsageRow)
    → All (IsAmong orgs) t
    → All (IsAmong []) (rename_orgs retired_key meter_jobs_completed orgs t)
unfolding rename_orgs
rename-clears [] t a = a
rename-clears (o ∷ orgs) t a =
    rename-clears orgs (update_where (is_org_on o retired_key) (rename meter_jobs_completed) t) (
      All-update_to (IsAmong (o ∷ orgs)) (IsAmong orgs) (is_org_on o retired_key)
        (rename meter_jobs_completed) t (λ x _ _ m. unfold rename text_eq in cc)
        (λ x h n m. unfold is_org_on has_num in ground (arith, h m)) a)

-- The rewrite at start-up leaves no row on the retired key, and the events that a shipper would send of the
-- table are the same before and after it.
pub rewrite_meters-sends :
    (t : List UsageRow)
    → All (λ r. on_meter r.meter retired_key ≡ false) (rewrite_meters retired_meters t)
      × (events_of (rewrite_meters retired_meters t) ≡ events_of t)
unfolding rewrite_meters
rewrite_meters-sends t = (
  All-map (IsAmong []) (λ r. on_meter r.meter retired_key ≡ false)
      (rename_orgs retired_key meter_jobs_completed (orgs_on retired_key t) t)
      (λ r h. unfold has_num in ground (arith, h))
      (rename-clears (orgs_on retired_key t) t (orgs_on-IsAmong t)),
  events-orgs (orgs_on retired_key t) t,
)
