-- ===== src/Messages/Replay.antt =====
-- A retry of send_message under its key.
use otto_factory.AgentLabel
use otto_factory.Common.{
  Bool, Bool-cases, List, Option, Option-cases, [], ap, arith, inl, inr, none, refl, some, sym,
  subst, true, ℕ, ◌++◌, ◌∙◌, ◌∷◌, ◌≡◌, ◌⊎◌,
}
use otto_factory.Common.Text.{Text, is_text, text_eq_refl}
use otto_factory.Error.{db, ok}
use otto_factory.Error.Laws.{>>=-eq-ok, guard-eq-ok}
use otto_factory.Messages.{Board, NewMessage, Post}
use otto_factory.Messages.Send.{
  check_body, check_channel, check_key, delete_job_posts, has_key, widened_teams, holder_of_key,
  insert_post, links_exist, post_or_replay, replay, send_message, team_in,
}
use otto_factory.Jobs.Cancel.{is_about}
use otto_factory.Store.{Message, Store, Tx}
use otto_factory.Table.{exists_where, fetch_optional}
use otto_factory.Table.Append.{fetch-append_found}
use otto_factory.Table.Rows.{fetch_optional-exists, fetch_optional-update_any}

pub fetch-append {ℓ} :
    {A : Type ℓ} (p : A → Bool) (t : List A) (x : A)
    → fetch_optional p t ≡ none
    → p x ≡ true
    → fetch_optional p (t ++ x ∷ []) ≡ some x
unfolding fetch_optional
fetch-append p [] x h e = ground (arith, e)
fetch-append p (y ∷ ys) x h e = elim (Bool-cases (p y)) [
  | inl g ↦ absurd (ground (arith, h, g))
  | inr n ↦ rw n (fetch-append p ys x (ground (arith, h, n)) e)
]

-- What may happen to the messages of a database in which no repo and no org is deleted: a row comes in, or
-- a job is deleted.
pub data Change : Type 0 where
  arrives : Post → Change
  loses_job : Tx → Text → Store → Change

unfoldable pub changed_by : List Change → List Post → List Post
changed_by [] posts = posts
changed_by (arrives p ∷ cs) posts = changed_by cs (posts ++ p ∷ [])
changed_by (loses_job tx id s ∷ cs) posts = changed_by cs (delete_job_posts tx id s posts)

-- The rows agree but for the teams, and for the job, of which the second may have lost the link.
pub record IsSameMessage (p q : Post) : Type 0 where
  pub id : q.row.id ≡ p.row.id
  pub body : q.body ≡ p.body
  pub sender : q.sender_user_id ≡ p.sender_user_id
  pub repo : q.row.repo_id ≡ p.row.repo_id
  pub team : q.row.team_id ≡ p.row.team_id
  pub job : (q.row.job_id ≡ p.row.job_id) ⊎ (q.row.job_id ≡ none)

module _ (fingerprint : ℕ → NewMessage → Text) (sender : ℕ) (new : NewMessage) (key : Text)
    (k : new.idempotency_key ≡ some key) where
  -- What is there of a message that was sent under the key.
  abbrev IsSent : ℕ → Board → Post → Type 0
  IsSent org b p =
      (holder_of_key org new.idempotency_key b.posts ≡ some p)
      × (replay fingerprint sender new p ≡ ok p)

  replay-same : (q p : Post) → replay fingerprint sender new q ≡ ok p → p ≡ q
  unfolding replay
  replay-same q p h =
      elim (Bool-cases (is_text q.idempotency_payload_hash (fingerprint sender new))) [
        | inl y ↦ ground (arith, h, y)
        | inr n ↦ absurd (ground (arith, h, n))
      ]

  replay-row :
      (p : Post) (m : Message)
      → replay fingerprint sender new p ≡ ok p
      → replay fingerprint sender new (record p { row = m }) ≡ ok (record p { row = m })
  unfolding replay
  replay-row p m h =
      elim (Bool-cases (is_text p.idempotency_payload_hash (fingerprint sender new))) [
        | inl y ↦ rw y refl
        | inr n ↦ absurd (ground (arith, h, n))
      ]

  replay-hashed :
      (p : Post)
      → p.idempotency_payload_hash ≡ some (fingerprint sender new)
      → replay fingerprint sender new p ≡ ok p
  unfolding replay
  replay-hashed p h = rw (h, text_eq_refl (fingerprint sender new)) refl

  module _ (tx : Tx) (s : Store) (b b' : Board) (p : Post) (label : Option Text)
      (team : Option ℕ) where
    inserted_key :
        insert_post fingerprint tx sender new label team s b ≡ ok (p, b')
        → (p.row.org_id ≡ tx.org)
          × (p.idempotency_key ≡ some key)
          × (p.idempotency_payload_hash ≡ some (fingerprint sender new))
          × (b'.posts ≡ b.posts ++ p ∷ [])
    unfolding insert_post
    inserted_key h =
        let (l, e) = guard-eq-ok (links_exist tx.org new s b.posts) db _ h in
        (ground (arith, e), ground (arith, e, k), ground (arith, e, k), ground (arith, e))

    inserted-IsSent :
        holder_of_key tx.org new.idempotency_key b.posts ≡ none
        → insert_post fingerprint tx sender new label team s b ≡ ok (p, b')
        → IsSent tx.org b' p
    unfolding holder_of_key
    inserted-IsSent f h =
        let i = inserted_key h in
        let g : fetch_optional (has_key tx.org key) b.posts ≡ none =
          subst (λ o. holder_of_key tx.org o b.posts ≡ none) k f in
        (
          rw (k, i.3)
              (fetch-append (has_key tx.org key) b.posts p g
                (unfold has_key in rw (i.0, i.1, text_eq_refl key) (ground arith))),
          replay-hashed p i.2,
        )

    replayed-IsSent :
        (q : Post)
        → holder_of_key tx.org new.idempotency_key b.posts ≡ some q
        → post_or_replay fingerprint tx sender new label team s b (some q) ≡ ok (p, b')
        → IsSent tx.org b' p
    unfolding post_or_replay
    replayed-IsSent q f h =
        let (same, e, r) = >>=-eq-ok (replay fingerprint sender new q) _ h in
        let at : same ≡ q = replay-same q same e in
        let here : p ≡ q = ground (arith, r, at) in
        let board : b' ≡ b = ground (arith, r) in
        let own : replay fingerprint sender new q ≡ ok q =
          subst (λ z. replay fingerprint sender new q ≡ ok z) at e in
        (rw (here, board) f, subst (λ z. replay fingerprint sender new z ≡ ok z) (sym here) own)

    posted-IsSent :
        post_or_replay fingerprint tx sender new label team s b
            (holder_of_key tx.org new.idempotency_key b.posts)
          ≡ ok (p, b')
        → IsSent tx.org b' p
    posted-IsSent h = elim (Option-cases (holder_of_key tx.org new.idempotency_key b.posts)) [
      | inl f ↦ inserted-IsSent f (
          unfold post_or_replay in
          rw⁻¹ (ap (post_or_replay fingerprint tx sender new label team s b) f) h)
      | inr (q, f) ↦
          replayed-IsSent q f
            (rw⁻¹ (ap (post_or_replay fingerprint tx sender new label team s b) f) h)
    ]

  module _ (org : ℕ) where
    arrived-IsSent :
        (posts : List Post) (p x : Post)
        → holder_of_key org (some key) posts ≡ some p
        → holder_of_key org (some key) (posts ++ x ∷ []) ≡ some p
    unfolding holder_of_key
    arrived-IsSent posts p x h =
        let found = fetch_optional-exists (has_key org key) posts in
        let there : exists_where (has_key org key) posts ≡ true = ground (arith, found, h) in
        rw (fetch-append_found (has_key org key) posts (x ∷ []) there) h

    -- The message that stands under the key after the changes is the one sent, but for its link to a job and
    -- its teams.
    changed-IsSent :
        (changes : List Change) (posts : List Post) (p : Post)
        → holder_of_key org (some key) posts ≡ some p
        → replay fingerprint sender new p ≡ ok p
        → (q : Post) × (holder_of_key org (some key) (changed_by changes posts) ≡ some q)
          × (replay fingerprint sender new q ≡ ok q)
          × IsSameMessage p q
    unfolding changed_by holder_of_key delete_job_posts
    changed-IsSent [] posts p h r = (
      p,
      h,
      r,
      record { id = refl; body = refl; sender = refl; repo = refl; team = refl; job = inl refl },
    )
    changed-IsSent (arrives x ∷ cs) posts p h r =
        changed-IsSent cs (posts ++ x ∷ []) p (arrived-IsSent posts p x h) r
    changed-IsSent (loses_job tx id s ∷ cs) posts p h r =
        let about = λ (x : Post). is_about tx.org id x.row in
        let f = λ (x : Post). record x {
          row = record x.row {
            job_id = none;
            scope_teams = widened_teams tx id s x.row.scope_teams;
          };
        } in
        let h1 =
          fetch_optional-update_any (has_key org key) about f posts p (λ y. unfold has_key in refl)
            h in
        elim (Bool-cases (about p)) [
          | inl y ↦
              let (q, e, g, w) =
                changed-IsSent cs (delete_job_posts tx id s posts) (f p) (h1 ∙ rw y refl)
                  (replay-row p (f p).row r) in
              (
                q,
                e,
                g,
                record {
                  id = w.id;
                  body = w.body;
                  sender = w.sender;
                  repo = w.repo;
                  team = w.team;
                  job = inr (elim w.job [ inl e ↦ e | inr e ↦ e ]);
                },
              )
          | inr n ↦ changed-IsSent cs (delete_job_posts tx id s posts) p (h1 ∙ rw n refl) r
        ]

  -- A call that succeeded under a key gives a row of the same id, sender, body and channel when it is made
  -- again in that org, at any later time and whatever the repos and jobs are by then, as long as no repo and
  -- no org has been deleted meanwhile: any rows may have come in and any jobs may have been deleted, the
  -- message's own among them, when its link to the job is gone. The row is the one that the board now has under
  -- the key, and the second call leaves the board as it is.
  pub send_message-again :
      (tx : Tx) (later : ℕ) (s s' : Store) (b b' now : Board) (p : Post) (changes : List Change)
      → send_message fingerprint tx sender new s b ≡ ok (p, b')
      → now.posts ≡ changed_by changes b'.posts
      → (q : Post) × (send_message fingerprint (record tx { now = later }) sender new s' now
          ≡ ok (q, now))
        × (holder_of_key tx.org new.idempotency_key now.posts ≡ some q)
        × IsSameMessage p q
  unfolding send_message post_or_replay
  send_message-again tx later s s' b b' now p changes h same =
      let (u0, e0, h0) = >>=-eq-ok (check_body new.body) _ h in
      let (u1, e1, h1) = >>=-eq-ok (check_channel new.repo_id new.team_id) _ h0 in
      let (u2, e2, h2) = >>=-eq-ok (check_key new.idempotency_key) _ h1 in
      let (label, e3, h3) = >>=-eq-ok (AgentLabel.validate new.sender_label) _ h2 in
      let (team, e4, h4) = >>=-eq-ok (team_in tx.org new.team_id) _ h3 in
      let v = posted-IsSent tx s b b' p label team h4 in
      let (q, e, g, w) =
        changed-IsSent tx.org changes b'.posts p
          (subst (λ o. holder_of_key tx.org o b'.posts ≡ some p) k v.0) v.1 in
      let here : holder_of_key tx.org new.idempotency_key now.posts ≡ some q =
        ap (λ o. holder_of_key tx.org o now.posts) k
        ∙ ap (holder_of_key tx.org (some key)) same
        ∙ e in
      (q, answered tx later s' now q label team e0 e1 e2 e3 e4 here g, here, w)
    where
      answered :
          (tx : Tx) (later : ℕ) (s' : Store) (now : Board) (q : Post) (label : Option Text)
          (team : Option ℕ)
          → check_body new.body ≡ ok tt
          → check_channel new.repo_id new.team_id ≡ ok tt
          → check_key new.idempotency_key ≡ ok tt
          → AgentLabel.validate new.sender_label ≡ ok label
          → team_in tx.org new.team_id ≡ ok team
          → holder_of_key tx.org new.idempotency_key now.posts ≡ some q
          → replay fingerprint sender new q ≡ ok q
          → send_message fingerprint (record tx { now = later }) sender new s' now ≡ ok (q, now)
      answered tx later s' now q label team e0 e1 e2 e3 e4 here g =
          rw (e0, e1, e2, e3, e4, here, g) refl
