-- ===== src/Leases/Kept.antt =====
-- A lease whose time is not over, through the calls of other users.
use otto_factory.AgentLabel
use otto_factory.Common.{
  Bool, List, Option, Option-cases, [], arith, false, inl, inr, leb, none, not, refl, some, subst,
  true, ℕ, ◌++◌, ◌<◌, ◌==◌, ◌∷◌, ◌≡◌, ◌≢◌, ◌≤◌, ap,
}
use otto_factory.Common.Int.{pos, ℤ}
use otto_factory.Common.Lists.{All, is_empty}
use otto_factory.Common.Text.{Text, byte_len, text_eq_refl, trim}
use otto_factory.Error.{db, empty_resource, invalid, is_ok, lease_not_held, ok, ok_or, too_long}
use otto_factory.Error.Laws.{>>=-eq-ok, Result-cases, guard-eq-ok}
use otto_factory.Leases.{
  Lease, acquire_lease, clamp_lease_ttl, extend, insert_lease, is_held_by, is_live_on, is_open_on,
  is_overdue_on, max_resource_len, new_lease, reap_leases, release, release_lease, renew_lease,
  take_lease,
}
use otto_factory.Leases.Exclusive.{
  IsExclusive, LeaseCall, acquires, lease_run, lease_run-keeps, lease_step, released-IsExclusive,
  releases, renews,
}
use otto_factory.Store.{Repo, Tx}
use otto_factory.Table.{count_where, exists_where, fetch_optional, update_where}
use otto_factory.Table.Append.{exists-fetch, fetch-append_found}
use otto_factory.Table.Rows.{fetch_optional-exists, fetch_optional-test}

-- Two rows that pass a test which at most one row passes are the same.
one_row :
    (p r q : Lease → Bool) (t : List Lease) (x l : Lease)
    → fetch_optional p t ≡ some l
    → q l ≡ true
    → fetch_optional r t ≡ some x
    → q x ≡ true
    → count_where q t ≤ 1
    → x ≡ l
unfolding fetch_optional count_where
one_row p r q [] x l h g e k c = cc
one_row p r q (y ∷ ys) x l h g e k c =
    ground (arith, one_row p r q ys x l, none_left p q ys l, none_left r q ys x)
  where
    none_left :
        (p q : Lease → Bool) (t : List Lease) (l : Lease)
        → fetch_optional p t ≡ some l
        → q l ≡ true
        → count_where q t ≡ 0
        → ⊥
    none_left p q [] l h k c = ground arith
    none_left p q (y ∷ ys) l h k c = ground (arith, none_left p q ys l)

module _ (l : Lease) where
  -- The row of the lease, as it is in `l`, is the row under its id.
  abbrev pub Stands : List Lease → Type 0
  Stands t = fetch_optional (λ (k : Lease). k.id == l.id) t ≡ some l

  update-Stands :
      (p : Lease → Bool) (f : Lease → Lease) (t : List Lease)
      → ((x : Lease) → (f x).id ≡ x.id)
      → p l ≡ false
      → Stands t
      → Stands (update_where p f t)
  unfolding fetch_optional update_where
  update-Stands p f [] k n h = h
  update-Stands p f (x ∷ xs) k n h = ground (arith, k x, update-Stands p f xs k)

  append-Stands : (t : List Lease) (x : Lease) → Stands t → Stands (t ++ x ∷ [])
  append-Stands t x h =
      let found = fetch_optional-exists (λ (k : Lease). k.id == l.id) t in
      let there : exists_where (λ (k : Lease). k.id == l.id) t ≡ true = ground (arith, found, h) in
      rw (fetch-append_found (λ (k : Lease). k.id == l.id) t (x ∷ []) there) h

  module _ (tx : Tx) (before : tx.now < l.expires_at) where
    reap-Stands :
        (repo_id : ℕ) (resource : Text) (t : List Lease)
        → Stands t
        → Stands (reap_leases tx repo_id resource t)
    unfolding reap_leases is_overdue_on release
    reap-Stands repo_id resource t =
        update-Stands (is_overdue_on tx repo_id resource) (release tx) t (λ x. refl) (ground arith)

    module _ (holder : ℕ) (other : holder ≢ l.holder_user_id) where
      not_held : (id : ℕ) → is_held_by tx id holder l ≡ false
      unfolding is_held_by
      not_held id = ground arith

      renew-Stands :
          (id : ℕ) (ttl : Option ℤ) (t t' : List Lease) (k : Lease)
          → Stands t
          → renew_lease tx id holder ttl t ≡ ok (k, t')
          → Stands t'
      unfolding renew_lease extend
      renew-Stands id ttl t t' k s h =
          let (found, e, h1) =
            >>=-eq-ok (ok_or (fetch_optional (is_held_by tx id holder) t) (lease_not_held id)) _
              h in
          subst Stands (ground arith) (
            update-Stands (is_held_by tx id holder) (extend tx (clamp_lease_ttl ttl)) t (λ x. refl)
              (not_held id) s)

      release-Stands :
          (id : ℕ) (t t' : List Lease) → Stands t → release_lease tx id holder t ≡ ok t' → Stands t'
      unfolding release_lease release
      release-Stands id t t' s h =
          let (e, h1) =
            guard-eq-ok (exists_where (is_held_by tx id holder) t) (lease_not_held id) _ h in
          subst Stands (ground arith)
            (update-Stands (is_held_by tx id holder) (release tx) t (λ x. refl) (not_held id) s)

      take-Stands :
          (repos : List Repo) (wanted : Lease) (ttl : ℕ) (live : Option Lease) (t t' : List Lease)
          (k : Lease)
          → wanted.holder_user_id ≡ holder
          → Stands t
          → take_lease tx repos wanted ttl live t ≡ ok (k, t')
          → Stands t'
      unfolding take_lease insert_lease
      take-Stands repos wanted ttl none t t' k w s h =
          let (e0, h0) =
            guard-eq-ok (exists_where (λ (r : Repo). r.id == wanted.repo_id) repos) db _ h in
          let (e1, h1) =
            guard-eq-ok (not (exists_where (is_live_on wanted.repo_id wanted.resource) t)) db _
              h0 in
          let (e2, h2) =
            guard-eq-ok (not (exists_where (λ (k : Lease). k.id == wanted.id) t)) db _ h1 in
          let same : t ++ wanted ∷ [] ≡ t' = ground arith in
          subst Stands same (append-Stands t wanted s)
      take-Stands repos wanted ttl (some live) t t' k w s h =
          renew-Stands live.id (some (pos ttl)) t t' k s (ground (arith, w))

  abbrev pub user_of : LeaseCall → ℕ
  user_of (acquires repos fresh repo_id resource user label job_id ttl) = user
  user_of (renews id user ttl) = user
  user_of (releases id user) = user

  -- A call of another user, of any org, at a time before the lease ends.
  abbrev pub ByOther : Tx × LeaseCall → Type 0
  ByOther c = (c.0.now < l.expires_at) × (user_of c.1 ≢ l.holder_user_id)

  acquire-Stands :
      (tx : Tx) (repos : List Repo) (fresh repo_id : ℕ) (resource : Text) (user : ℕ)
      (label job_id : Option Text) (ttl : Option ℤ) (t t' : List Lease) (k : Lease)
      → tx.now < l.expires_at
      → user ≢ l.holder_user_id
      → Stands t
      → acquire_lease tx repos fresh repo_id resource user label job_id ttl t ≡ ok (k, t')
      → Stands t'
  unfolding acquire_lease
  acquire-Stands tx repos fresh repo_id resource user label job_id ttl t t' k b o s h =
      let (e0, h0) = guard-eq-ok (not (is_empty (trim resource))) (invalid empty_resource) _ h in
      let (e1, h1) =
        guard-eq-ok (leb (byte_len (trim resource)) max_resource_len)
          (invalid (too_long (byte_len (trim resource)))) _ h0 in
      let (stored, e2, h2) = >>=-eq-ok (AgentLabel.validate label) _ h1 in
      let reaped = reap_leases tx repo_id (trim resource) t in
      take-Stands tx b user o repos
        (new_lease tx fresh repo_id (trim resource) user stored job_id (clamp_lease_ttl ttl))
        (clamp_lease_ttl ttl) (fetch_optional (is_open_on tx repo_id (trim resource)) reaped) reaped
        t' k refl (reap-Stands tx b repo_id (trim resource) t s) h2

  step-Stands :
      (t : List Lease) (c : Tx × LeaseCall) → ByOther c → Stands t → Stands (lease_step t c)
  unfolding lease_step
  step-Stands t (tx, acquires repos fresh repo_id resource user label job_id ttl) o s =
      elim (Result-cases (acquire_lease tx repos fresh repo_id resource user label job_id ttl t)) [
        | inl (a, h) ↦ rw h (
            acquire-Stands tx repos fresh repo_id resource user label job_id ttl t a.1 a.0 o.0 o.1 s
              h)
        | inr (e, h) ↦ rw h s
      ]
  step-Stands t (tx, renews id user ttl) o s = elim (Result-cases (renew_lease tx id user ttl t)) [
    | inl (a, h) ↦ rw h (renew-Stands tx o.0 user o.1 id ttl t a.1 a.0 s h)
    | inr (e, h) ↦ rw h s
  ]
  step-Stands t (tx, releases id user) o s = elim (Result-cases (release_lease tx id user t)) [
    | inl (a, h) ↦ rw h (release-Stands tx o.0 user o.1 id t a s h)
    | inr (e, h) ↦ rw h s
  ]

  run-Stands :
      (t : List Lease) (calls : List (Tx × LeaseCall))
      → All ByOther calls
      → Stands t
      → Stands (lease_run t calls)
  unfolding lease_run
  run-Stands t [] o s = s
  run-Stands t (c ∷ cs) o s = run-Stands (lease_step t c) cs o.1 (step-Stands t c o.0 s)

  module _ (unreleased : l.released_at ≡ none) (tx : Tx) (before : tx.now < l.expires_at) (user : ℕ)
      (other : user ≢ l.holder_user_id) where
    -- Neither an insert nor a renewal gives the resource of the lease to another user.
    take-refused :
        (repos : List Repo) (wanted : Lease) (ttl : ℕ) (t : List Lease)
        → IsExclusive t
        → Stands t
        → wanted.repo_id ≡ l.repo_id
        → wanted.resource ≡ l.resource
        → wanted.holder_user_id ≡ user
        → is_ok (
            take_lease tx repos wanted ttl
              (fetch_optional (is_open_on tx l.repo_id l.resource) t)
              t)
          ≡ false
    unfolding take_lease insert_lease is_live_on is_open_on
    take-refused repos wanted ttl t v s r n w =
        let mine : is_live_on l.repo_id l.resource l ≡ true =
          ground (arith, text_eq_refl l.resource, unreleased) in
        elim (Option-cases (fetch_optional (is_open_on tx l.repo_id l.resource) t)) [
          | inl e ↦
              let taken =
                exists-fetch (λ (k : Lease). k.id == l.id) (is_live_on l.repo_id l.resource) t l s
                  mine in
              rw (e, r, n) (ground (arith, taken))
          | inr (x, e) ↦
              let open_row = fetch_optional-test (is_open_on tx l.repo_id l.resource) t x e in
              let same : x ≡ l =
                one_row (λ (k : Lease). k.id == l.id) (is_open_on tx l.repo_id l.resource)
                  (is_live_on l.repo_id l.resource) t x l s mine e (ground (arith, open_row))
                  (v.live l.repo_id l.resource) in
              rw (e, same) (ground (arith, w))
        ]

    -- On a table with one live lease at most on each resource and no id twice, where `l` is a row that is not
    -- released: any calls of other users, of any orgs, at times before the lease ends, leave the row of the
    -- lease as it is, and another user's acquire_lease on its repo and resource, which may be spelled with
    -- spaces around it, then fails until the lease ends.
    pub lease_run-excludes :
        (t : List Lease) (calls : List (Tx × LeaseCall)) (repos : List Repo) (fresh : ℕ)
        (resource : Text) (label job_id : Option Text) (ttl : Option ℤ)
        → IsExclusive t
        → Stands t
        → All ByOther calls
        → trim resource ≡ l.resource
        → Stands (lease_run t calls)
          × (is_ok (
                acquire_lease tx repos fresh l.repo_id resource user label job_id ttl
                  (lease_run t calls))
              ≡ false)
    unfolding acquire_lease
    lease_run-excludes t calls repos fresh resource label job_id ttl v s o n =
        let now = lease_run t calls in
        let stands = run-Stands t calls o s in
        let reaped = reap_leases tx l.repo_id (trim resource) now in
        let once : IsExclusive reaped =
          unfold reap_leases in
          released-IsExclusive tx now (lease_run-keeps t calls v)
            (is_overdue_on tx l.repo_id (trim resource)) in
        (
          stands,
          elim (Result-cases
              (acquire_lease tx repos fresh l.repo_id resource user label job_id ttl now)) [
                | inr (e, h) ↦ rw h refl
                | inl (a, h) ↦
                    let (e0, h0) =
                      guard-eq-ok (not (is_empty (trim resource))) (invalid empty_resource) _ h in
                    let (e1, h1) =
                      guard-eq-ok (leb (byte_len (trim resource)) max_resource_len)
                        (invalid (too_long (byte_len (trim resource)))) _ h0 in
                    let (stored, e2, h2) = >>=-eq-ok (AgentLabel.validate label) _ h1 in
                    let wanted =
                      new_lease tx fresh l.repo_id (trim resource) user stored job_id
                        (clamp_lease_ttl ttl) in
                    let refused =
                      take-refused repos wanted (clamp_lease_ttl ttl) reaped once
                        (reap-Stands tx before l.repo_id (trim resource) now stands) refl n refl in
                    absurd (
                      ground (
                        arith,
                        h2,
                        refused,
                        ap
                            (λ r. is_ok (
                              take_lease tx repos wanted (clamp_lease_ttl ttl)
                                (fetch_optional (is_open_on tx l.repo_id r) reaped) reaped))
                            n,
                      ))
              ],
        )
