-- ===== src/Leases/Exclusive.antt =====
-- The calls on leases in any order, and the unreleased leases on a resource.
use otto_factory.AgentLabel
use otto_factory.AgentLabel.{holder}
use otto_factory.Common.{
  Bool, List, Option, [], arith, false, inl, inr, leb, none, not, refl, some, subst, sym, true, ℕ,
  ◌++◌, ◌==◌, ◌∷◌, ◌≡◌, ◌≤◌,
}
use otto_factory.Common.Int.{pos, ℤ}
use otto_factory.Common.Lists.{is_empty}
use otto_factory.Common.Text.{Text, byte_len, text_eq_sound, trim}
use otto_factory.Error.{
  Result, db, empty_resource, err, invalid, lease_not_held, ok, ok_or, too_long,
}
use otto_factory.Error.Laws.{>>=-eq-ok, Result-cases, guard-eq-ok}
use otto_factory.Leases.{
  Lease, acquire_lease, clamp_lease_ttl, extend, insert_lease, is_held_by, is_live_on, is_open_on,
  is_overdue_on, max_resource_len, new_lease, reap_leases, release, release_lease, renew_lease,
  take_lease,
}
use otto_factory.Store.{Repo, Tx}
use otto_factory.Table.{count_where, exists_where, fetch_optional, update_where}
use otto_factory.Table.Rows.{count-append}

-- No two unreleased leases are on one resource of one repo, and no two rows have one id.
pub record IsExclusive (t : List Lease) : Type 0 where
  pub live : (repo_id : ℕ) (resource : Text) → count_where (is_live_on repo_id resource) t ≤ 1
  pub ids : (i : ℕ) → count_where (λ (l : Lease). l.id == i) t ≤ 1

count-update_le {ℓ} :
    {A : Type ℓ} (q p : A → Bool) (f : A → A) (t : List A)
    → ((x : A) → p x ≡ true → q (f x) ≡ true → q x ≡ true)
    → count_where q (update_where p f t) ≤ count_where q t
unfolding count_where update_where
count-update_le q p f [] h = omega arith
count-update_le q p f (x ∷ xs) h = ground (arith, h x, count-update_le q p f xs h)

-- An update that makes no row live and keeps the ids.
update-IsExclusive :
    (p : Lease → Bool) (f : Lease → Lease) (t : List Lease)
    → ((repo_id : ℕ) (resource : Text) (l : Lease)
        → is_live_on repo_id resource (f l) ≡ true
        → is_live_on repo_id resource l ≡ true)
    → ((l : Lease) → (f l).id ≡ l.id)
    → IsExclusive t
    → IsExclusive (update_where p f t)
update-IsExclusive p f t a b v = record {
  live =
      λ r s. omega (arith, v.live r s, count-update_le (is_live_on r s) p f t (λ x _ y. a r s x y));
  ids = λ i. omega (
    arith,
    v.ids i,
    count-update_le (λ (l : Lease). l.id == i) p f t (λ x _ y. ground (arith, b x)),
  );
}

module _ (tx : Tx) (t : List Lease) (v : IsExclusive t) where
  pub released-IsExclusive : (p : Lease → Bool) → IsExclusive (update_where p (release tx) t)
  unfolding release is_live_on
  released-IsExclusive p =
      update-IsExclusive p (release tx) t (λ r s l h. ground arith) (λ l. refl) v

  extended-IsExclusive :
      (p : Lease → Bool) (ttl : ℕ) → IsExclusive (update_where p (extend tx ttl) t)
  unfolding extend is_live_on
  extended-IsExclusive p ttl = update-IsExclusive p (extend tx ttl) t (λ r s l h. h) (λ l. refl) v

  renew_lease-IsExclusive :
      (lease_id holder : ℕ) (ttl : Option ℤ) (l : Lease) (t' : List Lease)
      → renew_lease tx lease_id holder ttl t ≡ ok (l, t')
      → IsExclusive t'
  unfolding renew_lease
  renew_lease-IsExclusive lease_id holder ttl l t' h =
      let (found, e, h1) =
        >>=-eq-ok
          (ok_or (fetch_optional (is_held_by tx lease_id holder) t) (lease_not_held lease_id)) _
          h in
      subst IsExclusive (ground arith)
        (extended-IsExclusive (is_held_by tx lease_id holder) (clamp_lease_ttl ttl))

  release_lease-IsExclusive :
      (lease_id holder : ℕ) (t' : List Lease)
      → release_lease tx lease_id holder t ≡ ok t'
      → IsExclusive t'
  unfolding release_lease
  release_lease-IsExclusive lease_id holder t' h =
      let (e, h1) =
        guard-eq-ok (exists_where (is_held_by tx lease_id holder) t) (lease_not_held lease_id)
          (ok (update_where (is_held_by tx lease_id holder) (release tx) t)) h in
      subst IsExclusive (ground arith) (released-IsExclusive (is_held_by tx lease_id holder))

exists-count : (p : Lease → Bool) (t : List Lease) → exists_where p t ≡ false → count_where p t ≡ 0
unfolding exists_where count_where
exists-count p [] h = refl
exists-count p (x ∷ xs) h = ground (arith, exists-count p xs)

insert_lease-IsExclusive :
    (repos : List Repo) (l l' : Lease) (t t' : List Lease)
    → IsExclusive t
    → insert_lease repos l t ≡ ok (l', t')
    → IsExclusive t'
unfolding insert_lease count_where is_live_on
insert_lease-IsExclusive repos l l' t t' v h =
    let (e0, h0) = guard-eq-ok (exists_where (λ (r : Repo). r.id == l.repo_id) repos) db _ h in
    let (e1, h1) = guard-eq-ok (not (exists_where (is_live_on l.repo_id l.resource) t)) db _ h0 in
    let (e2, h2) = guard-eq-ok (not (exists_where (λ (k : Lease). k.id == l.id) t)) db _ h1 in
    let same : t' ≡ t ++ l ∷ [] = ground arith in
    subst IsExclusive (sym same) (record {
      live = λ r s. ground (
        arith,
        count-append (is_live_on r s) t (l ∷ []),
        v.live r s,
        text_eq_sound l.resource s,
        exists-count (is_live_on l.repo_id l.resource) t (ground arith),
      );
      ids = λ i. ground (
        arith,
        count-append (λ (k : Lease). k.id == i) t (l ∷ []),
        v.ids i,
        exists-count (λ (k : Lease). k.id == l.id) t (ground arith),
      );
    })

module _ (tx : Tx) (repos : List Repo) where
  take_lease-IsExclusive :
      (t : List Lease) (wanted : Lease) (ttl : ℕ) (live : Option Lease) (l : Lease)
      (t' : List Lease)
      → IsExclusive t
      → take_lease tx repos wanted ttl live t ≡ ok (l, t')
      → IsExclusive t'
  unfolding take_lease
  take_lease-IsExclusive t wanted ttl none l t' v h =
      insert_lease-IsExclusive repos wanted l t t' v h
  take_lease-IsExclusive t wanted ttl (some live) l t' v h =
      renew_lease-IsExclusive tx t v live.id wanted.holder_user_id (some (pos ttl)) l t'
        (ground arith)

  acquire_lease-IsExclusive :
      (t : List Lease) (fresh repo_id : ℕ) (resource : Text) (holder : ℕ)
      (label job_id : Option Text) (ttl : Option ℤ) (l : Lease) (t' : List Lease)
      → IsExclusive t
      → acquire_lease tx repos fresh repo_id resource holder label job_id ttl t ≡ ok (l, t')
      → IsExclusive t'
  unfolding acquire_lease reap_leases
  acquire_lease-IsExclusive t fresh repo_id resource holder label job_id ttl l t' v h =
      let (e0, h0) = guard-eq-ok (not (is_empty (trim resource))) (invalid empty_resource) _ h in
      let (e1, h1) =
        guard-eq-ok (leb (byte_len (trim resource)) max_resource_len)
          (invalid (too_long (byte_len (trim resource)))) _ h0 in
      let (stored, e2, h2) = >>=-eq-ok (AgentLabel.validate label) _ h1 in
      let reaped = reap_leases tx repo_id (trim resource) t in
      take_lease-IsExclusive reaped
        (new_lease tx fresh repo_id (trim resource) holder stored job_id (clamp_lease_ttl ttl))
        (clamp_lease_ttl ttl) (fetch_optional (is_open_on tx repo_id (trim resource)) reaped) l t'
        (released-IsExclusive tx t v (is_overdue_on tx repo_id (trim resource))) h2

-- Any call on leases, with the repos that stand when it runs.
pub data LeaseCall : Type 0 where
  acquires : List Repo → ℕ → ℕ → Text → ℕ → Option Text → Option Text → Option ℤ → LeaseCall
  renews : ℕ → ℕ → Option ℤ → LeaseCall
  releases : ℕ → ℕ → LeaseCall

abbrev table_after : List Lease → Result (Lease × List Lease) → List Lease
table_after t (ok (l, t')) = t'
table_after t (err e) = t

abbrev released_after : List Lease → Result (List Lease) → List Lease
released_after t (ok t') = t'
released_after t (err e) = t

-- A call that fails is rolled back.
unfoldable pub lease_step : List Lease → Tx × LeaseCall → List Lease
lease_step t (tx, acquires repos fresh repo_id resource holder label job_id ttl) =
    table_after t (acquire_lease tx repos fresh repo_id resource holder label job_id ttl t)
lease_step t (tx, renews lease_id holder ttl) = table_after t (renew_lease tx lease_id holder ttl t)
lease_step t (tx, releases lease_id holder) = released_after t (release_lease tx lease_id holder t)

unfoldable pub lease_run : List Lease → List (Tx × LeaseCall) → List Lease
unfolding lease_step
lease_run t [] = t
lease_run t (c ∷ cs) = lease_run (lease_step t c) cs

lease_step-IsExclusive :
    (t : List Lease) (c : Tx × LeaseCall) → IsExclusive t → IsExclusive (lease_step t c)
unfolding lease_step
lease_step-IsExclusive t (tx, acquires repos fresh repo_id resource holder label job_id ttl) v =
    let r = acquire_lease tx repos fresh repo_id resource holder label job_id ttl t in
    elim (Result-cases r) [
      | inl (a, h) ↦ rw h (
          acquire_lease-IsExclusive tx repos t fresh repo_id resource holder label job_id ttl a.0
            a.1 v h)
      | inr (e, h) ↦ rw h v
    ]
lease_step-IsExclusive t (tx, renews lease_id holder ttl) v =
    elim (Result-cases (renew_lease tx lease_id holder ttl t)) [
      | inl (a, h) ↦ rw h (renew_lease-IsExclusive tx t v lease_id holder ttl a.0 a.1 h)
      | inr (e, h) ↦ rw h v
    ]
lease_step-IsExclusive t (tx, releases lease_id holder) v =
    elim (Result-cases (release_lease tx lease_id holder t)) [
      | inl (a, h) ↦ rw h (release_lease-IsExclusive tx t v lease_id holder a h)
      | inr (e, h) ↦ rw h v
    ]

pub lease_run-keeps :
    (t : List Lease) (calls : List (Tx × LeaseCall))
    → IsExclusive t
    → IsExclusive (lease_run t calls)
unfolding lease_run
lease_run-keeps t [] v = v
lease_run-keeps t (c ∷ cs) v = lease_run-keeps (lease_step t c) cs (lease_step-IsExclusive t c v)

pub lease_run-IsExclusive : (calls : List (Tx × LeaseCall)) → IsExclusive (lease_run [] calls)
unfolding count_where
lease_run-IsExclusive calls =
    lease_run-keeps [] calls (record { live = λ r s. omega arith; ids = λ i. omega arith })
