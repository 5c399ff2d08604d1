-- ===== src/Tests/Board.antt =====
-- The theorems on messages: a repo of team 5, whose channel one user posts to and another reads.
use otto_factory.AgentLabel
use otto_factory.Common.{
  true, List, [], false, if◌then◌else◌, none, not, refl, some, ℕ, ◌&&◌, ◌+◌, ◌==◌, ◌∷◌, ◌≡◌,
}
use otto_factory.Common.Text.{Text, byte_len, codes, is_whitespace, trim_matches, trim_start}
use otto_factory.Error.{ok}
use otto_factory.Idempotency
use otto_factory.Jobs.Cancel.{is_repo}
use otto_factory.Jobs.History.{no_rows}
use otto_factory.Messages.{
  Board, NewMessage, Post, add_team, agent, cursor_in_channel, in_channel, is_outside,
  message_visible, hides_repo, hides_job, note, parent_scope, repo_channel, repo_team, scope_teams,
}
use otto_factory.Common.Int.{pos}
use otto_factory.Messages.Pages.{IsPage, inbox-IsPage}
use otto_factory.Messages.Inbox.{
  InboxQuery, inbox, ack_messages_for, is_cursor_on, is_readable, is_unread, greatest, last_read,
  unread_count_for, upsert_cursor,
}
use otto_factory.Messages.Send.{
  check_body, has_key, holder_of_key, insert_post, links_exist, post_or_replay, send_message,
  team_in,
}
use otto_factory.Messages.Acks.{ack_messages_for-lands}
use otto_factory.Messages.Channels.{mail_run, no_posts, send_message-unread}
use otto_factory.Messages.Posting.{send_message-scoped}
use otto_factory.Messages.Replay.{
  Change, IsSameMessage, arrives, changed_by, loses_job, send_message-again,
}
use otto_factory.Store.{Message, Repo, Store, Tx, other_provider}
use otto_factory.Table.{count_where, exists_where, fetch_optional}
use otto_factory.Teams.{all_teams, restriction, teams}

abbrev body_print : ℕ → NewMessage → Text
body_print sender new = new.body

abbrev team_repo : Repo
team_repo = record {
  id = 3;
  org_id = 1;
  slug = codes "core";
  name = codes "core";
  provider = other_provider;
  default_branch = codes "main";
  team_id = some 5;
  default_agent_type = none;
  tracker_binding = codes "{}";
  active = true;
  created_at = 0;
  created_by = none;
}

abbrev team_store : Store
team_store = record no_rows { repos = team_repo ∷ [] }

abbrev hand_off : NewMessage
hand_off = record {
  body = codes "mine";
  team_id = none;
  kind = note;
  sender_kind = agent;
  sender_label = none;
  repo_id = some 3;
  job_id = none;
  in_reply_to = none;
  idempotency_key = some (codes "k1");
}

abbrev at_nine : Tx
at_nine = record { org = 1; now = 9 }

abbrev hand_off_row : Message
hand_off_row = record {
  id = 1;
  org_id = 1;
  team_id = none;
  repo_id = some 3;
  job_id = none;
  scope_teams = 5 ∷ [];
}

abbrev hand_off_post : Post
hand_off_post = record {
  row = hand_off_row;
  created_at = 9;
  sender_user_id = 7;
  sender_label = none;
  sender_kind = agent;
  kind = note;
  body = codes "mine";
  in_reply_to = none;
  idempotency_key = some (codes "k1");
  idempotency_payload_hash = some (codes "mine");
}

abbrev one_post : Board
one_post = record { posts = hand_off_post ∷ []; cursors = []; next_id = 2 }

hand_off_sent :
    send_message body_print at_nine 7 hand_off team_store no_posts ≡ ok (hand_off_post, one_post)
unfolding send_message check_body trim_matches trim_start is_whitespace byte_len
    Idempotency.validate AgentLabel.validate team_in holder_of_key has_key fetch_optional
    post_or_replay insert_post links_exist exists_where scope_teams add_team repo_team is_repo
    parent_scope
hand_off_sent = refl

no_key_yet : holder_of_key 1 (some (codes "k1")) [] ≡ none
unfolding holder_of_key fetch_optional
no_key_yet = refl

hand_off_team : team_in 1 none ≡ ok none
unfolding team_in
hand_off_team = refl

hand_off_tied : repo_team 1 (some 3) team_store ≡ some 5
unfolding repo_team fetch_optional is_repo
hand_off_tied = refl

-- The repo is gone and the link with it.
send_message-scoped_example :
    message_visible no_rows
      (some (4 ∷ []))
      (record hand_off_row { repo_id = none; team_id = none; job_id = none })
    ≡ false
unfolding repo_team fetch_optional is_repo parent_scope
send_message-scoped_example =
    send_message-scoped body_print at_nine 7 hand_off team_store no_posts one_post hand_off_post 5
      none (4 ∷ []) no_rows none none none no_key_yet hand_off_sent hand_off_team refl refl

-- The message of another, about a job that is deleted.
abbrev other_post : Post
other_post = record hand_off_post {
  row = record hand_off_row { id = 2; job_id = some (codes "job-1") };
  idempotency_key = none;
  idempotency_payload_hash = none;
}

abbrev later_changes : List Change
later_changes = arrives other_post ∷ loses_job at_nine (codes "job-1") no_rows ∷ []

abbrev later_board : Board
later_board = record one_post { posts = changed_by later_changes one_post.posts; next_id = 3 }

send_message-again_example :
    (q : Post) × (send_message body_print
        (record at_nine { now = 60 })
        7
        hand_off
        no_rows
        later_board
      ≡ ok (q, later_board))
    × (holder_of_key 1 (some (codes "k1")) later_board.posts ≡ some q)
    × IsSameMessage hand_off_post q
send_message-again_example =
    send_message-again body_print 7 hand_off (codes "k1") refl at_nine 60 team_store no_rows
      no_posts one_post later_board hand_off_post later_changes hand_off_sent refl

send_message-unread_example :
    unread_count_for at_nine 8 (repo_channel 3) all_teams team_store one_post
    ≡ unread_count_for at_nine 8
        (repo_channel 3)
        all_teams
        team_store
        (mail_run body_print no_posts [])
      + (if is_readable at_nine (repo_channel 3) (restriction all_teams) team_store hand_off_post
            && not (7 == 8)
          then 1
          else 0)
unfolding mail_run
send_message-unread_example =
    send_message-unread body_print [] at_nine 7 hand_off team_store team_store one_post
      hand_off_post at_nine 8 (repo_channel 3) all_teams no_key_yet hand_off_sent

abbrev read_board : Board
read_board = record one_post {
  cursors =
      record { org_id = 1; user_id = 8; repo_id = some 3; team_id = none; last_read_id = 1 } ∷ [];
}

hand_off_read :
    ack_messages_for at_nine 8 (repo_channel 3) 1 (teams (5 ∷ [])) team_store one_post
    ≡ ok (1, read_board)
unfolding ack_messages_for exists_where is_readable in_channel message_visible is_outside hides_repo
    hides_job is_repo upsert_cursor is_cursor_on cursor_in_channel last_read fetch_optional
    restriction
hand_off_read = refl

ack_messages_for-lands_example :
    (1 ≡ greatest (last_read 1 8 (repo_channel 3) []) 1)
    × (unread_count_for at_nine 8 (repo_channel 3) (teams (5 ∷ [])) team_store read_board
        ≡ count_where
            (λ p.
              is_readable at_nine (repo_channel 3) (restriction (teams (5 ∷ []))) team_store p
              && is_unread 8 1 p)
            one_post.posts)
    × (unread_count_for at_nine 9 (repo_channel 3) all_teams team_store read_board
        ≡ unread_count_for at_nine 9 (repo_channel 3) all_teams team_store one_post)
ack_messages_for-lands_example =
    ack_messages_for-lands at_nine 8 (repo_channel 3) 1 (teams (5 ∷ [])) team_store one_post
      read_board 1 at_nine 9 (repo_channel 3) all_teams team_store hand_off_read refl

abbrev from_repo : InboxQuery
from_repo = record {
  channel = repo_channel 3;
  unread_only = false;
  limit = pos 50;
  newest_first = false;
  visible_teams = none;
}

inbox-IsPage_example :
    IsPage at_nine 9 from_repo team_store one_post (inbox at_nine 9 from_repo team_store one_post)
inbox-IsPage_example = inbox-IsPage at_nine 9 from_repo team_store one_post
