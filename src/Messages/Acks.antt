-- ===== src/Messages/Acks.antt =====
-- Where a cursor lands.
use otto_factory.Common.{
  Bool, Bool-cases, List, Option-cases, [], arith, false, inl, inr, refl, true, ℕ, ◌&&◌, ◌++◌, ◌==◌,
  ◌∷◌, ◌≡◌,
}
use otto_factory.Error.{ok}
use otto_factory.Messages.{Board, ChannelRef, Cursor, cursor_in_channel, repo_channel, team_channel}
use otto_factory.Messages.Inbox.{
  ack_messages_for, advance, greatest, is_cursor_on, is_readable, is_unread, last_read, new_cursor,
  unread_count_for, upsert_cursor,
}
use otto_factory.Messages.Channels.{ack_messages_for_lem, new_cursor_at}
use otto_factory.Messages.Replay.{fetch-append}
use otto_factory.Store.{Store, Tx}
use otto_factory.Table.{count_where, exists_where, fetch_optional, update_where}
use otto_factory.Table.Rows.{fetch_optional-exists, fetch_optional-test, fetch_optional-update}
use otto_factory.Teams.{TeamScope, restriction}

fresh_cursor :
    (org user up_to : ℕ) (channel : ChannelRef)
    → is_cursor_on org user channel (new_cursor org user channel up_to) ≡ true
unfolding is_cursor_on cursor_in_channel
fresh_cursor org user up_to (repo_channel r) = ground arith
fresh_cursor org user up_to (team_channel t) = ground arith

-- A cursor of another user is not the one written.
others_cursor :
    (org user other o up_to : ℕ) (channel c : ChannelRef)
    → (o == org && other == user) ≡ false
    → is_cursor_on o other c (new_cursor org user channel up_to) ≡ false
unfolding is_cursor_on
others_cursor org user other o up_to (repo_channel r) c h = ground (arith, h)
others_cursor org user other o up_to (team_channel t) c h = ground (arith, h)

advanced_on :
    (org user up_to : ℕ) (channel : ChannelRef) (c : Cursor)
    → is_cursor_on org user channel c ≡ true
    → is_cursor_on org user channel (advance up_to c) ≡ true
unfolding is_cursor_on cursor_in_channel
advanced_on org user up_to (repo_channel r) c h = h
advanced_on org user up_to (team_channel t) c h = h

upserted-last_read :
    (org user up_to : ℕ) (channel : ChannelRef) (t : List Cursor)
    → last_read org user channel (upsert_cursor org user channel up_to t)
      ≡ greatest (last_read org user channel t) up_to
unfolding upsert_cursor last_read
upserted-last_read org user up_to channel t =
    elim (Option-cases (fetch_optional (is_cursor_on org user channel) t)) [
      | inl n ↦
          let x : exists_where (is_cursor_on org user channel) t ≡ false =
            ground (arith, fetch_optional-exists (is_cursor_on org user channel) t, n) in
          rw
            (
              x,
              n,
              fetch-append (is_cursor_on org user channel) t (new_cursor org user channel up_to) n
                  (fresh_cursor org user up_to channel),
              new_cursor_at org user up_to channel,
            )
            (ground arith)
      | inr (c, e) ↦
          let x : exists_where (is_cursor_on org user channel) t ≡ true =
            ground (arith, fetch_optional-exists (is_cursor_on org user channel) t, e) in
          rw
            (
              x,
              fetch_optional-update (is_cursor_on org user channel) (advance up_to) t c e (
                  advanced_on org user up_to channel c
                    (fetch_optional-test (is_cursor_on org user channel) t c e)),
              e,
            )
            refl
    ]

fetch-append_other {ℓ} :
    {A : Type ℓ} (p : A → Bool) (t : List A) (x : A)
    → p x ≡ false
    → fetch_optional p (t ++ x ∷ []) ≡ fetch_optional p t
unfolding fetch_optional
fetch-append_other p [] x h = rw h refl
fetch-append_other p (y ∷ ys) x h = elim (Bool-cases (p y)) [
  | inl g ↦ rw g refl
  | inr n ↦ rw n (fetch-append_other p ys x h)
]

fetch-update_other {ℓ} :
    {A : Type ℓ} (p q : A → Bool) (f : A → A) (t : List A)
    → ((x : A) → q x ≡ true → (p x ≡ false) × (p (f x) ≡ false))
    → fetch_optional p (update_where q f t) ≡ fetch_optional p t
unfolding fetch_optional update_where
fetch-update_other p q f [] k = refl
fetch-update_other p q f (x ∷ xs) k = ground (arith, k x, fetch-update_other p q f xs k)

others-last_read :
    (org user up_to o other : ℕ) (channel c : ChannelRef) (t : List Cursor)
    → (o == org && other == user) ≡ false
    → last_read o other c (upsert_cursor org user channel up_to t) ≡ last_read o other c t
unfolding upsert_cursor last_read
others-last_read org user up_to o other channel c t h =
    elim (Bool-cases (exists_where (is_cursor_on org user channel) t)) [
      | inl y ↦
          rw
            (
              y,
              fetch-update_other (is_cursor_on o other c) (is_cursor_on org user channel)
                  (advance up_to) t
                  (λ x e. unfold is_cursor_on in (ground (arith, e, h), ground (arith, e, h))),
            )
            refl
      | inr n ↦
          rw
            (
              n,
              fetch-append_other (is_cursor_on o other c) t (new_cursor org user channel up_to)
                  (others_cursor org user other o up_to channel c h),
            )
            refl
    ]

-- An acknowledgement that succeeds lands the cursor on the larger of the id given and where it stood, never further
-- back; what the reader has left is what others sent past that id, and no other user's unread count changes.
pub ack_messages_for-lands :
    (tx : Tx) (reader : ℕ) (channel : ChannelRef) (up_to : ℕ) (scope : TeamScope) (s : Store)
    (b b' : Board) (landed : ℕ) (at : Tx) (other : ℕ) (c : ChannelRef) (q : TeamScope) (now : Store)
    → ack_messages_for tx reader channel up_to scope s b ≡ ok (landed, b')
    → (at.org == tx.org && other == reader) ≡ false
    → (landed ≡ greatest (last_read tx.org reader channel b.cursors) up_to)
      × (unread_count_for tx reader channel scope s b'
          ≡ count_where
              (λ p. is_readable tx channel (restriction scope) s p && is_unread reader landed p)
              b.posts)
      × (unread_count_for at other c q now b' ≡ unread_count_for at other c q now b)
unfolding unread_count_for
ack_messages_for-lands tx reader channel up_to scope s b b' landed at other c q now h n =
    let (t, e, l) = ack_messages_for_lem tx reader channel up_to scope s b b' landed h in
    (
      rw (l, e) (upserted-last_read tx.org reader up_to channel b.cursors),
      rw (l, e) refl,
      rw (e, others-last_read tx.org reader up_to at.org other channel c b.cursors n) refl,
    )
