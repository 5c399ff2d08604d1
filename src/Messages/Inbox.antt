-- ===== src/Messages/Inbox.antt =====
-- crates/of-core/src/messages.rs: inboxes, unread counts, acknowledgements and the check of a reply.
use otto_factory.Common.{
  Bool, List, Option, [], if◌then◌else◌, leb, ltb, none, not, some, ℕ, ◌&&◌, ◌++◌, ◌==◌, ◌∷◌, ◌||◌,
}
use otto_factory.Common.Int.{clamp, ℤ}
use otto_factory.Common.Lists.{take}
use otto_factory.Error.{Result, guard, invalid, not_a_parent, not_readable, ok, ◌>>◌}
use otto_factory.Store.{Store, Tx}
use otto_factory.Table.{count_where, exists_where, fetch_optional, select_where, update_where}
use otto_factory.Teams.{TeamScope, restriction}
use otto_factory.Messages.{
  inbox_limit_max, Post, Cursor, Board, ChannelRef, in_channel, cursor_in_channel, message_visible,
  is_post, repo_channel, team_channel,
}

unfoldable pub is_cursor_on : ℕ → ℕ → ChannelRef → Cursor → Bool
unfolding cursor_in_channel
is_cursor_on org user channel c =
    c.org_id == org && c.user_id == user && cursor_in_channel channel c

abbrev pub read_up_to : Option Cursor → ℕ
read_up_to none = 0
read_up_to (some c) = c.last_read_id

-- `COALESCE((SELECT last_read_id …), 0)`.
unfoldable pub last_read : ℕ → ℕ → ChannelRef → List Cursor → ℕ
unfolding is_cursor_on
last_read org user channel cursors =
    read_up_to (fetch_optional (is_cursor_on org user channel) cursors)

-- Sent by another, after the cursor.
unfoldable pub is_unread : ℕ → ℕ → Post → Bool
is_unread reader seen p = not (p.sender_user_id == reader) && ltb seen p.row.id

unfoldable pub is_readable : Tx → ChannelRef → Option (List ℕ) → Store → Post → Bool
unfolding in_channel message_visible
is_readable tx channel teams s p =
    p.row.org_id == tx.org && in_channel channel p.row && message_visible s teams p.row

pub record InboxQuery : Type 0 where
  pub channel : ChannelRef
  pub unread_only : Bool
  pub limit : ℤ
  pub newest_first : Bool
  pub visible_teams : Option (List ℕ)

-- `ORDER BY m.id`, ascending or descending.
unfoldable pub insert_by_id : Bool → Post → List Post → List Post
insert_by_id newest p [] = p ∷ []
insert_by_id newest p (x ∷ xs) =
    if (if newest then leb x.row.id p.row.id else leb p.row.id x.row.id)
    then p ∷ x ∷ xs
    else x ∷ insert_by_id newest p xs

unfoldable pub order_by_id : Bool → List Post → List Post
unfolding insert_by_id
order_by_id newest [] = []
order_by_id newest (p ∷ ps) = insert_by_id newest p (order_by_id newest ps)

unfoldable pub in_inbox : Tx → ℕ → InboxQuery → Store → List Cursor → Post → Bool
unfolding is_readable is_unread last_read
in_inbox tx reader q s cursors p =
    is_readable tx q.channel q.visible_teams s p
    && (not q.unread_only || is_unread reader (last_read tx.org reader q.channel cursors) p)

unfoldable pub inbox : Tx → ℕ → InboxQuery → Store → Board → List Post
unfolding in_inbox order_by_id
inbox tx reader q s b =
    take (clamp q.limit 1 inbox_limit_max)
      (order_by_id q.newest_first (select_where (in_inbox tx reader q s b.cursors) b.posts))

unfoldable pub unread_count_for : Tx → ℕ → ChannelRef → TeamScope → Store → Board → ℕ
unfolding is_readable is_unread last_read
unread_count_for tx reader channel scope s b =
    count_where
      (λ p.
        is_readable tx channel (restriction scope) s p
        && is_unread reader (last_read tx.org reader channel b.cursors) p)
      b.posts

abbrev pub greatest : ℕ → ℕ → ℕ
greatest a b = if leb a b then b else a

abbrev pub new_cursor : ℕ → ℕ → ChannelRef → ℕ → Cursor
new_cursor org user (repo_channel r) up_to = record {
  org_id = org;
  user_id = user;
  repo_id = some r;
  team_id = none;
  last_read_id = up_to;
}
new_cursor org user (team_channel t) up_to = record {
  org_id = org;
  user_id = user;
  repo_id = none;
  team_id = some t;
  last_read_id = up_to;
}

abbrev pub advance : ℕ → Cursor → Cursor
advance up_to c = record c { last_read_id = greatest c.last_read_id up_to }

-- `INSERT … ON CONFLICT … DO UPDATE SET last_read_id = GREATEST(…)`.
unfoldable pub upsert_cursor : ℕ → ℕ → ChannelRef → ℕ → List Cursor → List Cursor
unfolding is_cursor_on
upsert_cursor org user channel up_to cursors =
    if exists_where (is_cursor_on org user channel) cursors
    then update_where (is_cursor_on org user channel) (advance up_to) cursors
    else cursors ++ new_cursor org user channel up_to ∷ []

unfoldable pub ack_messages_for :
    Tx → ℕ → ChannelRef → ℕ → TeamScope → Store → Board → Result (ℕ × Board)
unfolding is_readable upsert_cursor last_read
ack_messages_for tx reader channel up_to scope s b = do
  guard
      (up_to == 0
        || exists_where (λ p. is_readable tx channel (restriction scope) s p && p.row.id == up_to)
            b.posts)
      (invalid (not_readable up_to))
  let cursors = upsert_cursor tx.org reader channel up_to b.cursors
  ok (last_read tx.org reader channel cursors, record b { cursors = cursors })

unfoldable pub message_readable : Tx → ℕ → TeamScope → Store → Board → Bool
unfolding is_post message_visible
message_readable tx id scope s b =
    exists_where (λ p. is_post tx.org id p && message_visible s (restriction scope) p.row) b.posts

-- The rows of repos that it locks are not changed here.
unfoldable pub reply_parent : Tx → ℕ → TeamScope → Store → Board → Result (Unit {0})
unfolding message_readable
reply_parent tx parent scope s b =
    guard (message_readable tx parent scope s b) (invalid (not_a_parent parent))
