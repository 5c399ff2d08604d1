-- ===== src/Jobs/Created.antt =====
-- What a successful add_job did to the store: the row that it inserted, if it inserted one, and the
-- edges of that row.
use otto_factory.Common.{
  Bool, Bool-cases, List, Option, [], arith, false, inl, inr, none, not, refl, some, true, ◌++◌,
  ◌∷◌, ◌≡◌, ◌⊎◌,
}
use otto_factory.Common.Lists.{is_empty}
use otto_factory.Common.Text.{Text, is_text, trim}
use otto_factory.Error.{
  empty_title, idempotency_key_conflict, invalid, ok, ok_or, race_lost, repo_not_found,
}
use otto_factory.Error.Laws.{>>=-eq-ok, guard-eq-ok}
use otto_factory.Jobs.Counters.{next_job_seq}
use otto_factory.Jobs.Create.{
  Inserted, Payload, add_job, check_key, depend, get_repo, has_key, id_used, insert_row, key_used,
  normalize, payload_row, place, row, settle_key, settle_plain, team_of, ticket_used,
}
use otto_factory.Jobs.Dependencies.{set_dependencies}
use otto_factory.Jobs.Row.{get_job, is_job}
use otto_factory.Store.{Job, Store, Tx}
use otto_factory.Table.{exists_where, fetch_optional}

-- A row of the org went in at the end, under an id that no job had.
pub record Added (tx : Tx) (s t : Store) (k : Job) : Type 0 where
  pub own : k.org_id ≡ tx.org
  pub fresh : exists_where (is_job tx.org k.id) s.jobs ≡ false
  pub store : t ≡ record s { jobs = s.jobs ++ k ∷ [] }

insert_row_ok :
    (tx : Tx) (j job : Job) (s t : Store)
    → j.org_id ≡ tx.org
    → insert_row j s ≡ row job t
    → Added tx s t job
unfolding insert_row
insert_row_ok tx j job s t own h = elim (Bool-cases (exists_where (is_job j.org_id j.id) s.jobs)) [
  | inl e ↦ absurd (ground arith)
  | inr e ↦
      let same : job ≡ j = ground arith in
      record { own = rw same own; fresh = rw (same, ← own) e; store = rw same (ground arith) }
]

-- The insert and what its refusal converges on: a new row, or a row that is there and the store as it was.
abbrev pub Placed : Tx → Store → Job → Bool → Store → Type 0
Placed tx s job created t = ((created ≡ true) × Added tx s t job) ⊎ ((created ≡ false) × (t ≡ s))

module _ (fingerprint : Payload → Text) (tx : Tx) (new : Payload) where
  settle_plain_ok :
      (j job : Job) (created : Bool) (s t : Store)
      → j.org_id ≡ tx.org
      → (r : Inserted) → insert_row j s ≡ r
      → settle_plain r ≡ ok (job, created, t)
      → Placed tx s job created t
  unfolding settle_plain
  settle_plain_ok j job created s t own (row k u) e h =
      let same : k ≡ job = ground arith in
      let store : u ≡ t = ground arith in
      inl (ground arith, insert_row_ok tx j job s t own (rw (← same, ← store) e))
  settle_plain_ok j job created s t own key_used e h = cc
  settle_plain_ok j job created s t own ticket_used e h = cc
  settle_plain_ok j job created s t own id_used e h = cc

  settle_key_ok :
      (key : Text) (j job : Job) (created : Bool) (s t : Store)
      → j.org_id ≡ tx.org
      → (r : Inserted) → insert_row j s ≡ r
      → settle_key fingerprint tx new key s r ≡ ok (job, created, t)
      → Placed tx s job created t
  unfolding settle_key
  settle_key_ok key j job created s t own (row k u) e h =
      let same : k ≡ job = ground arith in
      let store : u ≡ t = ground arith in
      inl (ground arith, insert_row_ok tx j job s t own (rw (← same, ← store) e))
  settle_key_ok key j job created s t own key_used e h =
      let (w, e1, h1) =
        >>=-eq-ok (ok_or (fetch_optional (has_key tx.org key) s.jobs) race_lost) _ h in
      let (e2, h2) =
        guard-eq-ok (is_text w.idempotency_payload_hash (fingerprint (normalize new)))
          (idempotency_key_conflict key) _ h1 in
      let (k, e3, h3) = >>=-eq-ok (get_job tx w.id s) _ h2 in inr (ground arith, ground arith)
  settle_key_ok key j job created s t own ticket_used e h = cc
  settle_key_ok key j job created s t own id_used e h = cc

  place_ok :
      (key : Option Text) (j job : Job) (created : Bool) (s t : Store)
      → j.org_id ≡ tx.org
      → place fingerprint tx new j key s ≡ ok (job, created, t)
      → Placed tx s job created t
  unfolding place
  place_ok none j job created s t own h =
      settle_plain_ok j job created s t own (insert_row j s) refl h
  place_ok (some key) j job created s t own h =
      let k : Job = record j {
        idempotency_key = some key;
        idempotency_payload_hash = some (fingerprint (normalize new));
      } in
      settle_key_ok key k job created s t own (insert_row k s) refl h

  -- A row that is there: nothing but the counter moved. A new row: it went in, and then its edges, if
  -- it was to have any.
  abbrev pub Created : Store → Job → Store → Type 0
  Created s job s' =
      (s' ≡ s)
      ⊎ ((t : Store) × Added tx s t job
          × ((s' ≡ t)
              ⊎ ((deps : List Text) × (set_dependencies tx job.id new.depends_on [] t
                    ≡ ok (deps, s')))))

  depend_ok :
      (j job : Job) (created : Bool) (s t s' : Store)
      → Placed tx s j created t
      → depend tx new (j, created, t) ≡ ok (job, s')
      → Created s job s'
  unfolding depend
  depend_ok j job created s t s' (inr (n, e)) h = inl (ground (arith, e))
  depend_ok j job created s t s' (inl (y, a)) h = elim (Bool-cases (is_empty new.depends_on)) [
    | inl e ↦ let same : job ≡ j = ground arith in inr (t, rw same a, inl (ground arith))
    | inr e ↦
        let (r, e1, h1) =
          >>=-eq-ok (set_dependencies tx j.id new.depends_on [] t) _ (rw (y, e, depend) at h) in
        let same : job ≡ j = ground arith in
        inr (t, rw same a, inr (r.0, rw same (ground (arith, e1))))
  ]

  pub add_job_ok :
      (key : Option Text) (s s' : Store) (job : Job)
      → add_job fingerprint tx new key s ≡ ok (job, s')
      → Created (next_job_seq tx s).1 job s'
  unfolding add_job payload_row
  add_job_ok key s s' job h =
      let (e0, h0) = guard-eq-ok (not (is_empty (trim new.title))) (invalid empty_title) _ h in
      let (u, e1, h1) = >>=-eq-ok (check_key key) _ h0 in
      let (repo, e2, h2) =
        >>=-eq-ok (ok_or (get_repo tx new.repo_id s) (repo_not_found new.repo_id)) _ h1 in
      let s1 = (next_job_seq tx s).1 in
      let (team, e3, h3) = >>=-eq-ok (team_of tx new.team_id repo) _ h2 in
      let j = payload_row tx (next_job_seq tx s).0 team new in
      let (placed, e4, h4) = >>=-eq-ok (place fingerprint tx new j key s1) _ h3 in
      depend_ok placed.0 job placed.1 s1 placed.2 s'
        (place_ok key j placed.0 placed.1 s1 placed.2 refl e4) h4
