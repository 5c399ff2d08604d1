-- ===== src/Jobs/CreateRule.antt =====
-- The rule of a creation: a property of the store that the allocation of a job number, the insert of
-- a new row and the new job's dependencies keep, is kept by `create_from_ticket` and `add_job`.
use otto_factory.Common.{
  Bool, Bool-cases, List, Option, Option-cases, [], arith, inl, inr, none, not, refl, some, subst,
  sym, ℕ, ◌&&◌, ◌≡◌, ◌⊎◌,
}
use otto_factory.Common.Lists.{is_empty}
use otto_factory.Common.Text.{Text, is_text, trim}
use otto_factory.Error.{
  empty_title, idempotency_key_conflict, invalid, ok, ok_or, pending, race_lost, repo_not_found,
}
use otto_factory.Error.Laws.{>>=-eq-ok, guard-eq-ok}
use otto_factory.Jobs.Counters.{next_job_seq}
use otto_factory.Jobs.Create.{
  Inserted, Payload, add_job, check_key, create_from_ticket, depend, get_repo, has_key, id_used,
  insert_row, key_used, normalize, payload_row, place, row, settle_key, settle_plain, settle_ticket,
  team_of, ticket_row, ticket_used,
}
use otto_factory.Jobs.Dependencies.{set_dependencies}
use otto_factory.Jobs.Query.{get_job_by_ticket_for_repo}
use otto_factory.Jobs.Row.{get_job}
use otto_factory.Jobs.RowInvariant.{IsWellFormed}
use otto_factory.Store.{Job, Store, Tracker, Tx}
use otto_factory.Table.{fetch_optional}

new_row-IsWellFormed :
    (j : Job)
    → j.status ≡ pending
    → j.claimed_by ≡ none
    → j.claimed_by_label ≡ none
    → j.claim_expires_at ≡ none
    → j.started_at ≡ none
    → j.completed_at ≡ none
    → j.cancel_requested_at ≡ none
    → j.result ≡ none
    → j.error ≡ none
    → IsWellFormed j
new_row-IsWellFormed j a b c d e f g h i = ground arith

-- An insert, and then one of: the row, or the store as it was.
settle_ticket-store :
    (tx : Tx) (repo_id : ℕ) (tracker : Tracker) (ticket_ref : Text) (s : Store) (r : Inserted)
    {job : Job} {s' : Store}
    → settle_ticket tx repo_id tracker ticket_ref s r ≡ ok (job, s')
    → (r ≡ row job s') ⊎ (s' ≡ s)
unfolding settle_ticket
settle_ticket-store tx repo_id tracker ticket_ref s (row j t) h = inl (ground arith)
settle_ticket-store tx repo_id tracker ticket_ref s key_used h = cc
settle_ticket-store tx repo_id tracker ticket_ref s ticket_used h =
    elim (Option-cases (get_job_by_ticket_for_repo tx repo_id tracker ticket_ref s)) [
      | inl e ↦ absurd (ground arith)
      | inr (k, e) ↦ inr (ground arith)
    ]
settle_ticket-store tx repo_id tracker ticket_ref s id_used h = cc

settle_plain-store :
    (r : Inserted) {job : Job} {created : Bool} {s' : Store}
    → settle_plain r ≡ ok (job, created, s')
    → r ≡ row job s'
unfolding settle_plain
settle_plain-store (row j t) h = ground arith
settle_plain-store key_used h = cc
settle_plain-store ticket_used h = cc
settle_plain-store id_used h = cc

module _ (fingerprint : Payload → Text) (tx : Tx) (new : Payload) (key : Text) (s : Store) where
  settle_key-store :
      (r : Inserted) {job : Job} {created : Bool} {s' : Store}
      → settle_key fingerprint tx new key s r ≡ ok (job, created, s')
      → (r ≡ row job s') ⊎ (s' ≡ s)
  unfolding settle_key
  settle_key-store (row j t) h = inl (ground arith)
  settle_key-store key_used h =
      let (w, e, h1) =
        >>=-eq-ok (ok_or (fetch_optional (has_key tx.org key) s.jobs) race_lost) _ h in
      let (e2, h2) =
        guard-eq-ok (is_text w.idempotency_payload_hash (fingerprint (normalize new)))
          (idempotency_key_conflict key) _ h1 in
      let (j, e3, h3) = >>=-eq-ok (get_job tx w.id s) _ h2 in inr (ground arith)
  settle_key-store ticket_used h = cc
  settle_key-store id_used h = cc

-- A row that the org of the transaction may insert.
pub record IsNew (tx : Tx) (j : Job) : Type 0 where
  pub own : j.org_id ≡ tx.org
  pub open_status : j.status ≡ pending
  pub formed : IsWellFormed j

module _ (tx : Tx) (P : Store → Type 0) (numbered : (s : Store) → P s → P (next_job_seq tx s).1)
    (inserted : (j job : Job) (s s' : Store)
      → IsNew tx j
      → insert_row j s ≡ row job s'
      → P s
      → P s')
    (linked : (id : Text) (add deps : List Text) (s s' : Store)
      → set_dependencies tx id add [] s ≡ ok (deps, s')
      → P s
      → P s') where
  pub create_from_ticket-rule :
      (repo_id : ℕ) (tracker : Tracker) (ticket_ref title : Text)
      (description revision : Option Text) (s s' : Store) (job : Job)
      → P s
      → create_from_ticket tx repo_id tracker ticket_ref title description revision s ≡ ok (job, s')
      → P s'
  unfolding create_from_ticket ticket_row
  create_from_ticket-rule repo_id tracker ticket_ref title description revision s s' job v h =
      let (e0, h0) = guard-eq-ok (not (is_empty (trim title))) (invalid empty_title) _ h in
      let (repo, e1, h1) =
        >>=-eq-ok (ok_or (get_repo tx repo_id s) (repo_not_found repo_id)) _ h0 in
      let s1 = (next_job_seq tx s).1 in
      let j =
        ticket_row tx (next_job_seq tx s).0 repo_id repo.team_id tracker ticket_ref title
          description revision in
      let w = new_row-IsWellFormed j refl refl refl refl refl refl refl refl refl in
      elim (settle_ticket-store tx repo_id tracker ticket_ref s1 (insert_row j s1) h1) [
        | inl e ↦
            inserted j job s1 s' (record { own = refl; open_status = refl; formed = w }) e
              (numbered s v)
        | inr e ↦ subst P (sym e) (numbered s v)
      ]

  module _ (fingerprint : Payload → Text) (new : Payload) where
    place-rule :
        (s : Store) (j : Job) (key : Option Text) {job : Job} {created : Bool} {s' : Store}
        → P s
        → IsNew tx j
        → place fingerprint tx new j key s ≡ ok (job, created, s')
        → P s'
    unfolding place
    place-rule s j none {job} {created} {s'} v w h =
        inserted j job s s' w (settle_plain-store (insert_row j s) h) v
    place-rule s j (some key) {job} {created} {s'} v w h =
        let k = record j {
          idempotency_key = some key;
          idempotency_payload_hash = some (fingerprint (normalize new));
        } in
        let f : IsWellFormed k = ground (arith, w.formed) in
        elim (settle_key-store fingerprint tx new key s (insert_row k s) h) [
          | inl e ↦
              inserted k job s s' (record { own = w.own; open_status = w.open_status; formed = f })
                e v
          | inr e ↦ subst P (sym e) v
        ]

    depend-rule :
        (j : Job) (created : Bool) (s : Store) {job : Job} {s' : Store}
        → P s
        → depend tx new (j, created, s) ≡ ok (job, s')
        → P s'
    unfolding depend
    depend-rule j created s {job} {s'} v h =
        elim (Bool-cases (created && not (is_empty new.depends_on))) [
          | inl e ↦
              let (r, e1, h1) =
                >>=-eq-ok (set_dependencies tx j.id new.depends_on [] s) _ (rw (e, depend) at h) in
              subst P (ground arith) (linked j.id new.depends_on r.0 s r.1 e1 v)
          | inr e ↦ subst P (ground arith) v
        ]

    pub add_job-rule :
        (key : Option Text) (s s' : Store) (job : Job)
        → P s
        → add_job fingerprint tx new key s ≡ ok (job, s')
        → P s'
    unfolding add_job payload_row
    add_job-rule key s s' job v h =
        let (e0, h0) = guard-eq-ok (not (is_empty (trim new.title))) (invalid empty_title) _ h in
        let (u, e1, h1) = >>=-eq-ok (check_key key) _ h0 in
        let (repo, e2, h2) =
          >>=-eq-ok (ok_or (get_repo tx new.repo_id s) (repo_not_found new.repo_id)) _ h1 in
        let s1 = (next_job_seq tx s).1 in
        let (team, e3, h3) = >>=-eq-ok (team_of tx new.team_id repo) _ h2 in
        let j = payload_row tx (next_job_seq tx s).0 team new in
        let (placed, e4, h4) = >>=-eq-ok (place fingerprint tx new j key s1) _ h3 in
        let w = new_row-IsWellFormed j refl refl refl refl refl refl refl refl refl in
        depend-rule placed.0 placed.1 placed.2
          (place-rule s1 j key (numbered s v)
            (record { own = refl; open_status = refl; formed = w }) e4)
          h4
