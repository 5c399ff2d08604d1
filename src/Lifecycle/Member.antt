-- ===== src/Lifecycle/Member.antt =====
-- What a removed member holds after the clean-up: nothing.
use otto_factory.Common.{
  Bool, List, arith, false, refl, some, true, ℕ, ◌+◌, ◌<◌, ◌==◌, ◌≡◌, ◌∙◌, [], ◌∷◌, Bool-cases, inl,
  inr, ◌&&◌,
}
use otto_factory.Jobs.Invariant.{IsConsistent, is_broken, is_done}
use otto_factory.Jobs.Row.{is_claimed, is_job}
use otto_factory.Jobs.RowInvariant.{IsWellFormed}
use otto_factory.Leases.{release}
use otto_factory.Lifecycle.{
  Database, audit_if, clear_member, first_delivery, give_back, is_cursor_of, is_held_job,
  is_held_lease, is_delivery, is_just_removed, is_member, is_session_of, release_member,
  remove_member, removed_member_ttl_secs, revoked, tombstone_member, RemovedMember,
}
use otto_factory.Lifecycle.CleanUp.{exists-deleted}
use otto_factory.Billing.Agreement.{exists-append}
use otto_factory.Store.{Job, Store, secs}
use otto_factory.Table.{delete_where, exists_where, select_where, update_where}
use otto_factory.Table.Rows.{
  All-update, count-update_same, select-delete_other, select-update_other,
}

module _ {ℓ} {A : Type ℓ} where
  -- No row passes a test that the update takes every row out of.
  exists-update :
      (p : A → Bool) (f : A → A) (t : List A)
      → ((x : A) → p x ≡ true → p (f x) ≡ false)
      → exists_where p (update_where p f t) ≡ false
  unfolding exists_where update_where
  exists-update p f [] h = refl
  exists-update p f (x ∷ xs) h = ground (arith, h x, exists-update p f xs h)

  exists-update_some :
      (p q : A → Bool) (f : A → A) (t : List A)
      → ((x : A) → p x ≡ true → q (f x) ≡ true)
      → exists_where p t ≡ true
      → exists_where q (update_where p f t) ≡ true
  unfolding exists_where update_where
  exists-update_some p q f [] h e = cc
  exists-update_some p q f (x ∷ xs) h e = ground (arith, h x, e, exists-update_some p q f xs h)

give_back-IsWellFormed :
    (j : Job) → is_claimed j.status ≡ true → IsWellFormed j → IsWellFormed (give_back j)
unfolding give_back
give_back-IsWellFormed j h v = ground (arith, v)

-- Jobs given back leave the totals and the keys as they were.
given_back-IsConsistent :
    (org user : ℕ) (s : Store)
    → IsConsistent s
    → IsConsistent (record s { jobs = update_where (is_held_job org user) give_back s.jobs })
unfolding give_back is_held_job is_done is_broken is_job
given_back-IsConsistent org user s v = record {
  rows =
      All-update IsWellFormed (is_held_job org user) give_back s.jobs
        (λ j h w. give_back-IsWellFormed j (ground arith) w) v.rows;
  keys = λ o i. omega (
    arith,
    v.keys o i,
    count-update_same (is_job o i) (is_held_job org user) give_back s.jobs (λ j h. refl),
  );
  completed_counted = λ o. ground (
    arith,
    v.completed_counted o,
    count-update_same (is_done o) (is_held_job org user) give_back s.jobs (λ j h. ground arith),
  );
  failed_counted = λ o. ground (
    arith,
    v.failed_counted o,
    count-update_same (is_broken o) (is_held_job org user) give_back s.jobs (λ j h. ground arith),
  );
}

-- Nothing of the user is left in the org, and their sign-in is refused until `until`.
pub record IsReleased (org user until : ℕ) (db : Database) : Type 0 where
  pub no_leases : exists_where (is_held_lease org user) db.leases ≡ false
  pub no_claims : exists_where (is_held_job org user) db.queue.jobs ≡ false
  pub no_cursors : exists_where (is_cursor_of org user) db.cursors ≡ false
  pub no_sessions : exists_where (is_session_of org user) db.sessions ≡ false
  pub refused : (now : ℕ) → now < until → revoked now org (some user) db ≡ true

-- What another user, or the same one in another org, holds is as before.
pub record AreKept (o other : ℕ) (before after : Database) : Type 0 where
  pub leases :
      select_where (is_held_lease o other) after.leases
      ≡ select_where (is_held_lease o other) before.leases
  pub claims :
      select_where (is_held_job o other) after.queue.jobs
      ≡ select_where (is_held_job o other) before.queue.jobs
  pub cursors :
      select_where (is_cursor_of o other) after.cursors
      ≡ select_where (is_cursor_of o other) before.cursors
  pub sessions :
      select_where (is_session_of o other) after.sessions
      ≡ select_where (is_session_of o other) before.sessions

tombstone_is :
    (now later org user : ℕ) (m : RemovedMember)
    → later < now + secs removed_member_ttl_secs
    → is_member org user m ≡ true
    → is_just_removed later org (some user) (record m { removed_at = now }) ≡ true
unfolding is_just_removed
tombstone_is now later org user m h e = ground (arith, h, e)

tombstoned-refused :
    (now later org user : ℕ) (db : Database)
    → later < now + secs removed_member_ttl_secs
    → exists_where
        (is_just_removed later org (some user))
        (tombstone_member now org user db).removed_members
      ≡ true
unfolding tombstone_member
tombstoned-refused now later org user db h =
    elim (Bool-cases (exists_where (is_member org user) db.removed_members)) [
      | inl y ↦ rw y (
          exists-update_some (is_member org user) (is_just_removed later org (some user))
            (λ m. record m { removed_at = now }) db.removed_members
            (λ m. tombstone_is now later org user m h) y)
      | inr n ↦ rw n (
          exists-append (is_just_removed later org (some user)) db.removed_members
            (record { org_id = org; user_id = user; removed_at = now } ∷ [])
          ∙ unfold exists_where in
            ground (
              arith,
              tombstone_is now later org user
                  (record { org_id = org; user_id = user; removed_at = now }) h,
            ))
    ]

module _ (now event org user : ℕ) (db : Database) where
  abbrev removed : Database
  removed = (remove_member now event org user db).1

  -- Delivered, marked and recorded, the tables are those of the release.
  delivered_tables :
      (removed.leases
        ≡ update_where
            (is_held_lease org user)
            (release (record { org = org; now = now }))
            db.leases)
      × (removed.queue
          ≡ record db.queue { jobs = update_where (is_held_job org user) give_back db.queue.jobs })
      × (removed.cursors ≡ delete_where (is_cursor_of org user) db.cursors)
      × (removed.sessions ≡ delete_where (is_session_of org user) db.sessions)
      × (removed.removed_members ≡ (tombstone_member now org user db).removed_members)
  unfolding remove_member clear_member first_delivery audit_if release_member tombstone_member
  delivered_tables = elim (Bool-cases (exists_where (is_delivery event) db.platform_events)) [
    | inl y ↦ rw y (refl, refl, refl, refl, refl)
    | inr n ↦ rw n (refl, refl, refl, refl, refl)
  ]

  stays_refused :
      (later : ℕ)
      → later < now + secs removed_member_ttl_secs
      → revoked later org (some user) removed ≡ true
  unfolding revoked
  stays_refused later h =
      rw delivered_tables.4 ground (arith, tombstoned-refused now later org user db h)

  pub removed-IsReleased : IsReleased org user (now + secs removed_member_ttl_secs) removed
  unfolding is_held_lease release is_held_job give_back
  removed-IsReleased = record {
    no_leases = rw delivered_tables.0 (
        exists-update (is_held_lease org user) (release (record { org = org; now = now })) db.leases
          (λ l h. ground arith));
    no_claims =
        rw delivered_tables.1
          (exists-update (is_held_job org user) give_back db.queue.jobs (λ j h. ground arith));
    no_cursors = rw delivered_tables.2 (exists-deleted (is_cursor_of org user) db.cursors);
    no_sessions = rw delivered_tables.3 (exists-deleted (is_session_of org user) db.sessions);
    refused = stays_refused;
  }

  -- After `member_removed` the user has no unreleased lease, no claim, no cursor and no console session in the
  -- org, is refused there for the 300 seconds that follow, and the store of jobs is consistent if it was.
  pub remove_member-IsReleased :
      IsConsistent db.queue
      → IsReleased org user (now + secs removed_member_ttl_secs) removed
        × IsConsistent removed.queue
  remove_member-IsReleased v =
      (removed-IsReleased, rw delivered_tables.1 (given_back-IsConsistent org user db.queue v))

  -- What a user holds in an org is as before when another user is removed, or the same one from another org.
  pub remove_member-AreKept :
      (o other : ℕ) → (o == org && other == user) ≡ false → AreKept o other db removed
  unfolding is_held_lease release is_held_job give_back is_cursor_of is_session_of
  remove_member-AreKept o other h = record {
    leases = rw delivered_tables.0 (
        select-update_other (is_held_lease o other) (is_held_lease org user)
          (release (record { org = org; now = now })) db.leases (λ l e. ground arith)
          (λ l e. ground arith));
    claims = rw delivered_tables.1 (
        select-update_other (is_held_job o other) (is_held_job org user) give_back db.queue.jobs
          (λ l e. ground arith) (λ l e. ground arith));
    cursors = rw delivered_tables.2 (
        select-delete_other (is_cursor_of o other) (is_cursor_of org user) db.cursors
          (λ l e. ground arith));
    sessions = rw delivered_tables.3 (
        select-delete_other (is_session_of o other) (is_session_of org user) db.sessions
          (λ l e. ground arith));
  }
