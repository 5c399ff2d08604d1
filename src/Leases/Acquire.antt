-- ===== src/Leases/Acquire.antt =====
-- When a lease can be taken.
use otto_factory.AgentLabel
use otto_factory.AgentLabel.{holder}
use otto_factory.Common.{
  Bool, Bool-cases, List, Option, Option-cases, [], ap, arith, false, inl, inr, is_some, leb, ltb,
  none, not, refl, some, true, ℕ, ◌&&◌, ◌==◌, ◌∙◌, ◌∷◌, ◌≡◌, ◌≤◌,
}
use otto_factory.Common.Int.{ℤ}
use otto_factory.Common.Lists.{All, is_empty}
use otto_factory.Common.Text.{Text, byte_len, trim}
use otto_factory.Error.{is_ok, ok}
use otto_factory.Leases.{
  Lease, acquire_lease, clamp_lease_ttl, insert_lease, is_held_by, is_live_on, is_open_on,
  is_overdue_on, max_resource_len, new_lease, reap_leases, release, renew_lease, take_lease,
}
use otto_factory.Leases.Exclusive.{IsExclusive}
use otto_factory.Store.{Repo, Tx}
use otto_factory.Table.{count_where, exists_where, fetch_optional, update_where}
use otto_factory.Table.Rows.{fetch_optional-test}

module _ (tx : Tx) (repo_id : ℕ) (resource : Text) where
  -- An unreleased lease of this org on the resource whose time is not over.
  unfoldable pub is_current : Lease → Bool
  unfolding is_open_on
  is_current l = is_open_on tx repo_id resource l && ltb tx.now l.expires_at

  -- A lease of another user that is current.
  unfoldable pub is_others : ℕ → Lease → Bool
  unfolding is_current
  is_others holder l = is_current l && not (l.holder_user_id == holder)

  fetch-reap :
      (t : List Lease)
      → fetch_optional (is_open_on tx repo_id resource) (reap_leases tx repo_id resource t)
        ≡ fetch_optional is_current t
  unfolding fetch_optional reap_leases update_where is_current is_overdue_on is_open_on release
      is_live_on
  fetch-reap [] = refl
  fetch-reap (l ∷ ls) = ground (arith, fetch-reap ls)

  live-reap :
      (t : List Lease)
      → All (λ l. is_live_on repo_id resource l ≡ true → l.org_id ≡ tx.org) t
      → exists_where (is_live_on repo_id resource) (reap_leases tx repo_id resource t)
        ≡ exists_where is_current t
  unfolding exists_where reap_leases update_where is_current is_overdue_on is_open_on release
      is_live_on
  live-reap [] a = refl
  live-reap (l ∷ ls) a = ground (arith, live-reap ls a.1, a.0)

  id-reap :
      (i : ℕ) (t : List Lease)
      → exists_where (λ (k : Lease). k.id == i) (reap_leases tx repo_id resource t)
        ≡ exists_where (λ (k : Lease). k.id == i) t
  unfolding exists_where reap_leases update_where release
  id-reap i [] = refl
  id-reap i (l ∷ ls) = ground (arith, id-reap i ls)

  -- With at most one live lease, the lease found decides whether another user's stands in the way.
  exists-others :
      (holder : ℕ) (t : List Lease) (l : Lease)
      → fetch_optional is_current t ≡ some l
      → count_where (is_live_on repo_id resource) t ≤ 1
      → exists_where (is_others holder) t ≡ not (l.holder_user_id == holder)
  unfolding fetch_optional exists_where count_where is_others is_current is_open_on is_live_on
  exists-others holder [] l h c = cc
  exists-others holder (k ∷ ks) l h c =
      ground (arith, exists-others holder ks l, no-others holder ks)
    where
      no-others :
          (holder : ℕ) (t : List Lease)
          → count_where (is_live_on repo_id resource) t ≡ 0
          → exists_where (is_others holder) t ≡ false
      no-others holder [] h = refl
      no-others holder (k ∷ ks) h = ground (arith, no-others holder ks)

  none-others :
      (holder : ℕ) (t : List Lease)
      → exists_where is_current t ≡ false
      → exists_where (is_others holder) t ≡ false
  unfolding exists_where is_others
  none-others holder [] h = refl
  none-others holder (k ∷ ks) h = ground (arith, none-others holder ks)

exists-fetch :
    (p : Lease → Bool) (t : List Lease) → fetch_optional p t ≡ none → exists_where p t ≡ false
unfolding fetch_optional exists_where
exists-fetch p [] h = refl
exists-fetch p (x ∷ xs) h = ground (arith, exists-fetch p xs)

-- A row that passes a test makes any weaker test find a row.
fetch-weaker :
    (p q : Lease → Bool) (t : List Lease) (x : Lease)
    → fetch_optional p t ≡ some x
    → q x ≡ true
    → is_some (fetch_optional q t) ≡ true
unfolding fetch_optional
fetch-weaker p q [] x h e = cc
fetch-weaker p q (y ∷ ys) x h e = ground (arith, fetch-weaker p q ys x)

module _ (tx : Tx) (repos : List Repo) (t : List Lease) (fresh repo_id : ℕ) (resource : Text)
    (holder : ℕ) (label job_id stored : Option Text) (ttl : Option ℤ)
    (named : is_empty (trim resource) ≡ false)
    (short : leb (byte_len (trim resource)) max_resource_len ≡ true)
    (valid : AgentLabel.validate label ≡ ok stored) where
  abbrev reaped : List Lease
  reaped = reap_leases tx repo_id (trim resource) t

  abbrev wanted : Lease
  wanted = new_lease tx fresh repo_id (trim resource) holder stored job_id (clamp_lease_ttl ttl)

  acquire-take :
      acquire_lease tx repos fresh repo_id resource holder label job_id ttl t
      ≡ take_lease tx repos wanted
          (clamp_lease_ttl ttl)
          (fetch_optional (is_current tx repo_id (trim resource)) t)
          reaped
  unfolding acquire_lease
  acquire-take = rw (named, short, valid, fetch-reap tx repo_id (trim resource) t) refl

  take-renewed :
      (l : Lease)
      → fetch_optional (is_current tx repo_id (trim resource)) t ≡ some l
      → is_ok (take_lease tx repos wanted (clamp_lease_ttl ttl) (some l) reaped)
        ≡ (l.holder_user_id == holder)
  unfolding take_lease renew_lease is_current is_open_on is_live_on is_held_by
  take-renewed l e =
      let here = fetch-reap tx repo_id (trim resource) t ∙ e in
      let is_open = fetch_optional-test (is_open_on tx repo_id (trim resource)) reaped l here in
      elim (Bool-cases (l.holder_user_id == holder)) [
        | inl h ↦
            let row =
              fetch-weaker (is_open_on tx repo_id (trim resource)) (is_held_by tx l.id holder)
                reaped l here (ground (arith, is_open, h)) in
            ground (arith, h, row)
        | inr h ↦ ground (arith, h)
      ]

  module _ (v : IsExclusive t) (known : exists_where (λ (r : Repo). r.id == repo_id) repos ≡ true)
      (unused : exists_where (λ (k : Lease). k.id == fresh) t ≡ false)
      (own : All (λ l. is_live_on repo_id (trim resource) l ≡ true → l.org_id ≡ tx.org) t) where
    -- On a table with one live lease at most on each resource, in a repo that is there, whose live leases on
    -- the resource are of the caller's org, with a new id that no lease has, a label that is allowed and a
    -- resource that is not blank and has at most 200 bytes once trimmed: acquire_lease succeeds exactly when no
    -- unreleased lease of another user on that resource has time left, so that there a lease that has run out
    -- does not block, and nor does one of the caller's own.
    pub acquire_lease-ok_iff :
        is_ok (acquire_lease tx repos fresh repo_id resource holder label job_id ttl t)
        ≡ not (exists_where (is_others tx repo_id (trim resource) holder) t)
    unfolding take_lease insert_lease renew_lease
    acquire_lease-ok_iff =
        ap is_ok acquire-take
        ∙ elim (Option-cases (fetch_optional (is_current tx repo_id (trim resource)) t)) [
          | inl e ↦
              let free = exists-fetch (is_current tx repo_id (trim resource)) t e in
              rw e (
                ground (
                  arith,
                  known,
                  id-reap tx repo_id (trim resource) fresh t,
                  unused,
                  live-reap tx repo_id (trim resource) t own,
                  free,
                  none-others tx repo_id (trim resource) holder t free,
                ))
          | inr (l, e) ↦
              let others =
                exists-others tx repo_id (trim resource) holder t l e
                  (v.live repo_id (trim resource)) in
              rw (e, others) (take-renewed l e ∙ ground arith)
        ]
