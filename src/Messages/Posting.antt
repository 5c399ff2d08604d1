-- ===== src/Messages/Posting.antt =====
-- What a successful send_message leaves: its row, the teams that the row keeps, and what a retry gets.
use otto_factory.AgentLabel
use otto_factory.Common.{
  Bool, Bool-cases, List, Option, [], arith, false, inl, inr, is_id, none, refl, some, subst, true,
  ℕ, ◌++◌, ◌+◌, ◌==◌, ◌∷◌, ◌≡◌, ◌||◌, ◌⊎◌, ap,
}
use otto_factory.Common.Lists.{all}
use otto_factory.Common.Text.{Text}
use otto_factory.Error.{db, ok}
use otto_factory.Error.Laws.{>>=-eq-ok, guard-eq-ok}
use otto_factory.Messages.{
  Board, NewMessage, Post, add_team, message_visible, named_job, parent_scope, repo_of_job,
  repo_team, scope_teams, team_of_job,
}
use otto_factory.Messages.Send.{
  check_body, check_channel, check_key, holder_of_key, insert_post, links_exist, post_or_replay,
  replay, send_message, team_in,
}
use otto_factory.Store.{Store, Tx}
use otto_factory.Teams.{has_team}

add_team-here :
    (t : ℕ) (o : Option ℕ) (ts : List ℕ) → is_id o t ≡ true → has_team (add_team o ts) t ≡ true
unfolding add_team
add_team-here t none ts h = cc
add_team-here t (some m) ts h = elim (Bool-cases (has_team ts m)) [
  | inl y ↦ rw y (subst (λ z. has_team ts z ≡ true) (ground (arith, h)) y)
  | inr n ↦ rw n ground (arith, h)
]

add_team-more :
    (t : ℕ) (o : Option ℕ) (ts : List ℕ) → has_team ts t ≡ true → has_team (add_team o ts) t ≡ true
unfolding add_team
add_team-more t none ts h = h
add_team-more t (some m) ts h = elim (Bool-cases (has_team ts m)) [
  | inl y ↦ rw y h
  | inr n ↦ rw n ground (arith, h)
]

all-has : (p : ℕ → Bool) (ts : List ℕ) (t : ℕ) → all p ts ≡ true → has_team ts t ≡ true → p t ≡ true
all-has p [] t a h = cc
all-has p (x ∷ xs) t a h = elim (Bool-cases (x == t)) [
  | inl y ↦
      let e : x ≡ t = ground (arith, y) in
      let g : p x ≡ true = ground (arith, a) in subst (λ z. p z ≡ true) e g
  | inr n ↦ all-has p xs t (ground arith) (ground (arith, h, n))
]

-- The teams that the call and what it names are tied to.
abbrev pub is_tied : ℕ → NewMessage → Option ℕ → Store → List Post → ℕ → Bool
is_tied org new team s posts t =
    is_id team t
    || (is_id (repo_team org new.repo_id s) t
        || (is_id (team_of_job (named_job org new.job_id s)) t
            || (is_id (repo_team org (repo_of_job (named_job org new.job_id s)) s) t
                || has_team (parent_scope org new.in_reply_to posts) t)))

or-cases : (a b : Bool) → (a || b) ≡ true → (a ≡ true) ⊎ (b ≡ true)
or-cases true b h = inl refl
or-cases false b h = inr h

-- A team is in the sum of two scopes.
add_team-has :
    (t : ℕ) (o : Option ℕ) (ts : List ℕ) (b : Bool)
    → (b ≡ true → has_team ts t ≡ true)
    → (is_id o t || b) ≡ true
    → has_team (add_team o ts) t ≡ true
add_team-has t o ts b k h = elim (or-cases (is_id o t) b h) [
  | inl y ↦ add_team-here t o ts y
  | inr n ↦ add_team-more t o ts (k n)
]

scope_teams-has :
    (org : ℕ) (new : NewMessage) (team : Option ℕ) (s : Store) (posts : List Post) (t : ℕ)
    → is_tied org new team s posts t ≡ true
    → has_team (scope_teams org team new.repo_id new.job_id new.in_reply_to s posts) t ≡ true
unfolding scope_teams
scope_teams-has org new team s posts t h =
    add_team-has t team _ _
      (add_team-has t (repo_team org new.repo_id s) _ _ (
        add_team-has t (team_of_job (named_job org new.job_id s)) _ _ (
          add_team-has t (repo_team org (repo_of_job (named_job org new.job_id s)) s) _ _
            (λ e. e))))
      h

-- The board with one message more, under the next id.
pub record IsAppended (tx : Tx) (sender : ℕ) (b b' : Board) (p : Post) : Type 0 where
  pub id : p.row.id ≡ b.next_id
  pub org : p.row.org_id ≡ tx.org
  pub sent_by : p.sender_user_id ≡ sender
  pub posts : b'.posts ≡ b.posts ++ p ∷ []
  pub cursors : b'.cursors ≡ b.cursors
  pub next : b'.next_id ≡ b.next_id + 1

module _ (fingerprint : ℕ → NewMessage → Text) (tx : Tx) (sender : ℕ) (new : NewMessage) (s : Store)
    (b b' : Board) (p : Post) where
  -- A call that succeeds under no key in use is an insert.
  pub send_message_inserts :
      holder_of_key tx.org new.idempotency_key b.posts ≡ none
      → send_message fingerprint tx sender new s b ≡ ok (p, b')
      → (label : Option Text) × (team : Option ℕ) × (AgentLabel.validate new.sender_label
          ≡ ok label)
        × (team_in tx.org new.team_id ≡ ok team)
        × (insert_post fingerprint tx sender new label team s b ≡ ok (p, b'))
  unfolding send_message post_or_replay
  send_message_inserts f h =
      let (u0, e0, h0) = >>=-eq-ok (check_body new.body) _ h in
      let (u1, e1, h1) = >>=-eq-ok (check_channel new.repo_id new.team_id) _ h0 in
      let (u2, e2, h2) = >>=-eq-ok (check_key new.idempotency_key) _ h1 in
      let (label, e3, h3) = >>=-eq-ok (AgentLabel.validate new.sender_label) _ h2 in
      let (team, e4, h4) = >>=-eq-ok (team_in tx.org new.team_id) _ h3 in
      (
        label,
        team,
        e3,
        e4,
        rw⁻¹ (ap (post_or_replay fingerprint tx sender new label team s b) f) h4,
      )

  -- A call that succeeds under a key in use leaves the board as it was.
  pub send_message_replays :
      (q : Post)
      → holder_of_key tx.org new.idempotency_key b.posts ≡ some q
      → send_message fingerprint tx sender new s b ≡ ok (p, b')
      → b' ≡ b
  unfolding send_message post_or_replay
  send_message_replays q f h =
      let (u0, e0, h0) = >>=-eq-ok (check_body new.body) _ h in
      let (u1, e1, h1) = >>=-eq-ok (check_channel new.repo_id new.team_id) _ h0 in
      let (u2, e2, h2) = >>=-eq-ok (check_key new.idempotency_key) _ h1 in
      let (label, e3, h3) = >>=-eq-ok (AgentLabel.validate new.sender_label) _ h2 in
      let (team, e4, h4) = >>=-eq-ok (team_in tx.org new.team_id) _ h3 in
      let h5 : post_or_replay fingerprint tx sender new label team s b (some q) ≡ ok (p, b') =
        rw⁻¹ (ap (post_or_replay fingerprint tx sender new label team s b) f) h4 in
      let (same, e5, h6) = >>=-eq-ok (replay fingerprint sender new q) _ h5 in ground (arith, h6)

  pub insert_post_lem :
      (label : Option Text) (team : Option ℕ)
      → insert_post fingerprint tx sender new label team s b ≡ ok (p, b')
      → (p.row.scope_teams
          ≡ scope_teams tx.org team new.repo_id new.job_id new.in_reply_to s b.posts)
        × IsAppended tx sender b b' p
  unfolding insert_post
  insert_post_lem label team h =
      let (l, k) = guard-eq-ok (links_exist tx.org new s b.posts) db _ h in
      (
        ground (arith, k),
        record {
          id = ground (arith, k);
          org = ground (arith, k);
          sent_by = ground (arith, k);
          posts = ground (arith, k);
          cursors = ground (arith, k);
          next = ground (arith, k);
        },
      )

  -- A message keeps the teams that it was tied to when it was sent, by its channel, its repo, its job, that job's
  -- repo and the message that it answers: a reader who is not on one of them does not see it, whatever has
  -- become of the repos and jobs since, and of the message's links to them.
  pub send_message-scoped :
      (t : ℕ) (team : Option ℕ) (mine : List ℕ) (later : Store) (repo' team' : Option ℕ)
      (job' : Option Text)
      → holder_of_key tx.org new.idempotency_key b.posts ≡ none
      → send_message fingerprint tx sender new s b ≡ ok (p, b')
      → team_in tx.org new.team_id ≡ ok team
      → is_tied tx.org new team s b.posts t ≡ true
      → has_team mine t ≡ false
      → message_visible later
          (some mine)
          (record p.row { repo_id = repo'; team_id = team'; job_id = job' })
        ≡ false
  unfolding message_visible
  send_message-scoped t team mine later repo' team' job' f h e w n =
      let (label, found, v, i, l) = send_message_inserts f h in
      let same : team ≡ found = ground (arith, e, i) in
      let kept = (insert_post_lem label found l).0 in
      let g =
        scope_teams-has tx.org new found s b.posts t
          (subst (λ z. is_tied tx.org new z s b.posts t ≡ true) same w) in
      let has : has_team p.row.scope_teams t ≡ true = rw kept g in
      elim (Bool-cases (all (has_team mine) p.row.scope_teams)) [
        | inl y ↦ absurd (ground (arith, n, all-has (has_team mine) p.row.scope_teams t y has))
        | inr x ↦ rw x refl
      ]
