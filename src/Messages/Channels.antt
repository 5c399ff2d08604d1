-- ===== src/Messages/Channels.antt =====
-- Cursors and unread counts: an acknowledgement cannot hide a message that is not written yet.
use otto_factory.Common.{
  Bool, Bool-cases, List, Option-cases, [], arith, if◌then◌else◌, inl, inr, ltb, none, not, refl,
  true, ℕ, ◌&&◌, ◌+◌, ◌<◌, ◌==◌, ◌∙◌, ◌∷◌, ◌≡◌, ◌||◌, subst, sym,
}
use otto_factory.Common.Lists.{All, All-append}
use otto_factory.Common.Text.{Text}
use otto_factory.Error.{Result, err, invalid, not_readable, ok}
use otto_factory.Error.Laws.{Result-cases, guard-eq-ok}
use otto_factory.Messages.{Board, ChannelRef, Cursor, NewMessage, Post, repo_channel, team_channel}
use otto_factory.Messages.Inbox.{
  ack_messages_for, advance, is_cursor_on, is_readable, is_unread, last_read, new_cursor,
  unread_count_for, upsert_cursor,
}
use otto_factory.Messages.Send.{holder_of_key, send_message}
use otto_factory.Messages.Posting.{
  IsAppended, insert_post_lem, send_message_inserts, send_message_replays,
}
use otto_factory.Store.{Store, Tx}
use otto_factory.Table.{count_where, exists_where, fetch_optional}
use otto_factory.Table.Rows.{All-map, All-update, count-append}
use otto_factory.Teams.{TeamScope, restriction}

-- Every id, of a message or under a cursor, is below the next one.
pub record IsOrdered (b : Board) : Type 0 where
  pub begun : 0 < b.next_id
  pub posts : All (λ p. p.row.id < b.next_id) b.posts
  pub cursors : All (λ c. c.last_read_id < b.next_id) b.cursors

pub data MailCall : Type 0 where
  sends : ℕ → NewMessage → MailCall
  acks : ℕ → ChannelRef → ℕ → TeamScope → MailCall

abbrev pub board_after {ℓ} : {A : Type ℓ} → Board → Result (A × Board) → Board
board_after b (ok (a, b')) = b'
board_after b (err e) = b

module _ (fingerprint : ℕ → NewMessage → Text) where
  -- A call with the repos and jobs that it finds.
  unfoldable pub mail_step : Board → Tx × Store × MailCall → Board
  mail_step b (tx, s, sends sender new) = board_after b (send_message fingerprint tx sender new s b)
  mail_step b (tx, s, acks reader channel up_to scope) =
      board_after b (ack_messages_for tx reader channel up_to scope s b)

  unfoldable pub mail_run : Board → List (Tx × Store × MailCall) → Board
  unfolding mail_step
  mail_run b [] = b
  mail_run b (c ∷ cs) = mail_run (mail_step b c) cs

-- `bigserial` starts at 1.
abbrev pub no_posts : Board
no_posts = record { posts = []; cursors = []; next_id = 1 }

id_below :
    (p : Post → Bool) (posts : List Post) (n up_to : ℕ)
    → All (λ x. x.row.id < n) posts
    → exists_where (λ x. p x && x.row.id == up_to) posts ≡ true
    → up_to < n
unfolding exists_where
id_below p [] n up_to a h = cc
id_below p (x ∷ xs) n up_to a h = elim (Bool-cases (p x && x.row.id == up_to)) [
  | inl y ↦ ground (arith, a.0, y)
  | inr f ↦ id_below p xs n up_to a.1 (ground (arith, h, f))
]

pub new_cursor_at :
    (org user up_to : ℕ) (channel : ChannelRef)
    → (new_cursor org user channel up_to).last_read_id ≡ up_to
new_cursor_at org user up_to (repo_channel r) = refl
new_cursor_at org user up_to (team_channel t) = refl

upserted_below :
    (org user up_to n : ℕ) (channel : ChannelRef) (t : List Cursor)
    → up_to < n
    → All (λ c. c.last_read_id < n) t
    → All (λ c. c.last_read_id < n) (upsert_cursor org user channel up_to t)
unfolding upsert_cursor
upserted_below org user up_to n channel t h a =
    elim (Bool-cases (exists_where (is_cursor_on org user channel) t)) [
      | inl y ↦ rw y (
          All-update (λ c. c.last_read_id < n) (is_cursor_on org user channel) (advance up_to) t
            (λ c e l. ground (arith, h, l)) a)
      | inr f ↦ rw f (
          All-append (λ c. c.last_read_id < n) t (new_cursor org user channel up_to ∷ []) a
            (rw (new_cursor_at org user up_to channel) h, tt))
    ]

-- The state after an acknowledgement that succeeds.
pub ack_messages_for_lem :
    (tx : Tx) (reader : ℕ) (channel : ChannelRef) (up_to : ℕ) (scope : TeamScope) (s : Store)
    (b b' : Board) (landed : ℕ)
    → ack_messages_for tx reader channel up_to scope s b ≡ ok (landed, b')
    → ((up_to == 0
          || exists_where
              (λ p. is_readable tx channel (restriction scope) s p && p.row.id == up_to)
              b.posts)
        ≡ true)
      × (b' ≡ record b { cursors = upsert_cursor tx.org reader channel up_to b.cursors })
      × (landed ≡ last_read tx.org reader channel b'.cursors)
unfolding ack_messages_for
ack_messages_for_lem tx reader channel up_to scope s b b' landed h =
    let (t, e) =
      guard-eq-ok
        (up_to == 0
          || exists_where (λ p. is_readable tx channel (restriction scope) s p && p.row.id == up_to)
              b.posts)
        (invalid (not_readable up_to)) _ h in
    (t, ground (arith, e), ground (arith, e))

ack-IsOrdered :
    (tx : Tx) (reader : ℕ) (channel : ChannelRef) (up_to : ℕ) (scope : TeamScope) (s : Store)
    (b b' : Board) (landed : ℕ)
    → IsOrdered b
    → ack_messages_for tx reader channel up_to scope s b ≡ ok (landed, b')
    → IsOrdered b'
ack-IsOrdered tx reader channel up_to scope s b b' landed v h =
    let (t, e, l) = ack_messages_for_lem tx reader channel up_to scope s b b' landed h in
    subst IsOrdered (sym e) (record {
      begun = v.begun;
      posts = v.posts;
      cursors = upserted_below tx.org reader up_to b.next_id channel b.cursors (below t) v.cursors;
    })
  where
    below :
        (up_to == 0
            || exists_where
                (λ p. is_readable tx channel (restriction scope) s p && p.row.id == up_to)
                b.posts)
          ≡ true
        → up_to < b.next_id
    below t = elim (Bool-cases (up_to == 0)) [
      | inl y ↦ ground (arith, y, v.begun)
      | inr n ↦
          id_below (is_readable tx channel (restriction scope) s) b.posts b.next_id up_to v.posts
            (ground (arith, t, n))
    ]

appended-IsOrdered :
    (tx : Tx) (sender : ℕ) (b b' : Board) (p : Post)
    → IsOrdered b
    → IsAppended tx sender b b' p
    → IsOrdered b'
appended-IsOrdered tx sender b b' p v a = record {
  begun = omega (arith, a.next);
  posts =
      rw (a.posts, a.next)
        (All-append (λ x. x.row.id < b.next_id + 1) b.posts (p ∷ [])
          (All-map (λ x. x.row.id < b.next_id) (λ x. x.row.id < b.next_id + 1) b.posts
            (λ x l. omega (arith, l)) v.posts)
          (omega (arith, a.id), tt));
  cursors =
      rw (a.cursors, a.next)
        (All-map (λ c. c.last_read_id < b.next_id) (λ c. c.last_read_id < b.next_id + 1) b.cursors
          (λ c l. omega (arith, l)) v.cursors);
}

last_read_below :
    (org user n : ℕ) (channel : ChannelRef) (t : List Cursor)
    → 0 < n
    → All (λ c. c.last_read_id < n) t
    → last_read org user channel t < n
unfolding last_read fetch_optional
last_read_below org user n channel [] z a = z
last_read_below org user n channel (c ∷ cs) z a =
    elim (Bool-cases (is_cursor_on org user channel c)) [
      | inl y ↦ rw y a.0
      | inr f ↦ rw f (last_read_below org user n channel cs z a.1)
    ]

module _ (fingerprint : ℕ → NewMessage → Text) where
  send-IsOrdered :
      (tx : Tx) (sender : ℕ) (new : NewMessage) (s : Store) (b b' : Board) (p : Post)
      → IsOrdered b
      → send_message fingerprint tx sender new s b ≡ ok (p, b')
      → IsOrdered b'
  send-IsOrdered tx sender new s b b' p v h =
      elim (Option-cases (holder_of_key tx.org new.idempotency_key b.posts)) [
        | inl f ↦
            let (label, team, e, i, l) =
              send_message_inserts fingerprint tx sender new s b b' p f h in
            appended-IsOrdered tx sender b b' p v
              (insert_post_lem fingerprint tx sender new s b b' p label team l).1
        | inr (q, f) ↦
            subst IsOrdered (sym (send_message_replays fingerprint tx sender new s b b' p q f h)) v
      ]

  step-IsOrdered :
      (b : Board) (c : Tx × Store × MailCall) → IsOrdered b → IsOrdered (mail_step fingerprint b c)
  unfolding mail_step
  step-IsOrdered b (tx, s, sends sender new) v =
      elim (Result-cases (send_message fingerprint tx sender new s b)) [
        | inl ((p, b'), e) ↦ rw e (send-IsOrdered tx sender new s b b' p v e)
        | inr (x, e) ↦ rw e v
      ]
  step-IsOrdered b (tx, s, acks reader channel up_to scope) v =
      elim (Result-cases (ack_messages_for tx reader channel up_to scope s b)) [
        | inl ((landed, b'), e) ↦
            rw e (ack-IsOrdered tx reader channel up_to scope s b b' landed v e)
        | inr (x, e) ↦ rw e v
      ]

  run_from-IsOrdered :
      (cs : List (Tx × Store × MailCall)) (b : Board)
      → IsOrdered b
      → IsOrdered (mail_run fingerprint b cs)
  unfolding mail_run
  run_from-IsOrdered [] b v = v
  run_from-IsOrdered (c ∷ cs) b v =
      run_from-IsOrdered cs (mail_step fingerprint b c) (step-IsOrdered b c v)

  pub mail_run-IsOrdered :
      (cs : List (Tx × Store × MailCall)) → IsOrdered (mail_run fingerprint no_posts cs)
  mail_run-IsOrdered cs =
      run_from-IsOrdered cs no_posts (record { begun = omega arith; posts = tt; cursors = tt })

  -- After any calls, a message that is sent adds one to the unread count of each reader but its sender who can see
  -- it, in its own channel, and to no other count: no earlier acknowledgement hides it.
  pub send_message-unread :
      (cs : List (Tx × Store × MailCall)) (tx : Tx) (sender : ℕ) (new : NewMessage) (s s' : Store)
      (b' : Board) (p : Post) (at : Tx) (reader : ℕ) (channel : ChannelRef) (scope : TeamScope)
      → holder_of_key tx.org new.idempotency_key (mail_run fingerprint no_posts cs).posts ≡ none
      → send_message fingerprint tx sender new s (mail_run fingerprint no_posts cs) ≡ ok (p, b')
      → unread_count_for at reader channel scope s' b'
        ≡ unread_count_for at reader channel scope s' (mail_run fingerprint no_posts cs)
          + (if is_readable at channel (restriction scope) s' p && not (sender == reader)
              then 1
              else 0)
  unfolding unread_count_for is_unread
  send_message-unread cs tx sender new s s' b' p at reader channel scope f h =
      let b = mail_run fingerprint no_posts cs in
      let v = mail_run-IsOrdered cs in
      let (label, team, e, i, l) = send_message_inserts fingerprint tx sender new s b b' p f h in
      let a = (insert_post_lem fingerprint tx sender new s b b' p label team l).1 in
      let seen = last_read at.org reader channel b.cursors in
      let below : seen < b.next_id =
        last_read_below at.org reader b.next_id channel b.cursors v.begun v.cursors in
      rw (a.posts, a.cursors)
        (count-append
            (λ x.
              is_readable at channel (restriction scope) s' x
              && (not (x.sender_user_id == reader) && ltb seen x.row.id))
            b.posts (p ∷ [])
          ∙ unfold count_where in ground (arith, a.id, a.sent_by, below))
