-- ===== src/Messages.antt =====
-- crates/of-core/src/messages.rs: the rows of messages and of cursors, the channels, and who sees what.
-- A row of `messages` is the columns in Store.Message with the rest. The sequence of ids moves with the insert,
-- and the insert with its transaction.
pub mod Send
pub mod Inbox
pub mod Pages
pub mod Channels
pub mod Acks
pub mod Posting
pub mod Replay
use otto_factory.Common.{
  Bool, List, Option, [], false, if◌then◌else◌, is_id, is_some, none, not, some, true, ℕ, ◌&&◌,
  ◌==◌, ◌∷◌, ◌||◌,
}
use otto_factory.Common.Lists.{all}
use otto_factory.Common.Text.{Text}
use otto_factory.Jobs.Cancel.{is_repo}
use otto_factory.Jobs.Row.{is_job}
use otto_factory.Store.{Job, Message, Repo, Store}
use otto_factory.Table.{exists_where, fetch_optional}
use otto_factory.Teams.{VerifiedTeam, has_team}

abbrev pub max_body_len : ℕ
max_body_len = 16384

abbrev pub inbox_limit_max : ℕ
inbox_limit_max = 200

pub data MessageKind : Type 0 where
  note request response : MessageKind

pub data SenderKind : Type 0 where
  agent human : SenderKind

pub record Post : Type 0 where
  pub row : Message
  pub created_at : ℕ
  pub sender_user_id : ℕ
  pub sender_label : Option Text
  pub sender_kind : SenderKind
  pub kind : MessageKind
  pub body : Text
  pub in_reply_to : Option ℕ
  pub idempotency_key : Option Text
  pub idempotency_payload_hash : Option Text

pub record NewMessage : Type 0 where
  pub body : Text
  pub team_id : Option VerifiedTeam
  pub kind : MessageKind
  pub sender_kind : SenderKind
  pub sender_label : Option Text
  pub repo_id : Option ℕ
  pub job_id : Option Text
  pub in_reply_to : Option ℕ
  pub idempotency_key : Option Text

-- A row of message_cursors: one of `repo_id` and `team_id` is set.
pub record Cursor : Type 0 where
  pub org_id : ℕ
  pub user_id : ℕ
  pub repo_id : Option ℕ
  pub team_id : Option ℕ
  pub last_read_id : ℕ

pub record Board : Type 0 where
  pub posts : List Post
  pub cursors : List Cursor
  pub next_id : ℕ

pub data ChannelRef : Type 0 where
  repo_channel team_channel : ℕ → ChannelRef

-- `channel_sql`: a row that names both belongs to neither.
unfoldable pub in_channel : ChannelRef → Message → Bool
in_channel (repo_channel r) m = is_id m.repo_id r && not (is_some m.team_id)
in_channel (team_channel t) m = is_id m.team_id t && not (is_some m.repo_id)

unfoldable pub cursor_in_channel : ChannelRef → Cursor → Bool
cursor_in_channel (repo_channel r) c = is_id c.repo_id r
cursor_in_channel (team_channel t) c = is_id c.team_id t

-- `team IS NOT NULL AND NOT team = ANY(mine)`.
unfoldable pub is_outside : List ℕ → Option ℕ → Bool
is_outside mine none = false
is_outside mine (some t) = not (has_team mine t)

unfoldable pub hides_repo : List ℕ → ℕ → Option ℕ → List Repo → Bool
hides_repo mine org none repos = false
hides_repo mine org (some id) repos =
    exists_where (λ (r : Repo). is_repo org id r && is_outside mine r.team_id) repos

unfoldable pub hides_job : List ℕ → ℕ → Option Text → Store → Bool
hides_job mine org none s = false
hides_job mine org (some id) s =
    exists_where
      (λ (j : Job).
        is_job org id j
        && exists_where
            (λ (r : Repo).
              is_repo j.org_id j.repo_id r
              && (is_outside mine j.team_id || is_outside mine r.team_id))
            s.repos)
      s.jobs

-- `message_visible_sql`; `none` sees everything.
unfoldable pub message_visible : Store → Option (List ℕ) → Message → Bool
unfolding is_outside hides_repo hides_job
message_visible s none m = true
message_visible s (some mine) m =
    all (has_team mine) m.scope_teams
    && not (is_outside mine m.team_id)
    && not (hides_repo mine m.org_id m.repo_id s.repos)
    && not (hides_job mine m.org_id m.job_id s)

abbrev pub team_of_repo : Option Repo → Option ℕ
team_of_repo none = none
team_of_repo (some r) = r.team_id

unfoldable pub repo_team : ℕ → Option ℕ → Store → Option ℕ
repo_team org none s = none
repo_team org (some id) s = team_of_repo (fetch_optional (is_repo org id) s.repos)

abbrev pub team_of_job : Option Job → Option ℕ
team_of_job none = none
team_of_job (some j) = j.team_id

abbrev pub repo_of_job : Option Job → Option ℕ
repo_of_job none = none
repo_of_job (some j) = some j.repo_id

abbrev pub named_job : ℕ → Option Text → Store → Option Job
named_job org none s = none
named_job org (some id) s = fetch_optional (is_job org id) s.jobs

unfoldable pub is_post : ℕ → ℕ → Post → Bool
is_post org id p = p.row.org_id == org && p.row.id == id

abbrev pub scope_of_post : Option Post → List ℕ
scope_of_post none = []
scope_of_post (some p) = p.row.scope_teams

unfoldable pub parent_scope : ℕ → Option ℕ → List Post → List ℕ
parent_scope org none posts = []
parent_scope org (some id) posts = scope_of_post (fetch_optional (is_post org id) posts)

unfoldable pub add_team : Option ℕ → List ℕ → List ℕ
add_team none ts = ts
add_team (some t) ts = if has_team ts t then ts else t ∷ ts

-- `SCOPE_TEAMS_SQL`: the teams without repetition, in an order that nothing reads.
unfoldable pub scope_teams :
    ℕ → Option ℕ → Option ℕ → Option Text → Option ℕ → Store → List Post → List ℕ
unfolding add_team repo_team parent_scope
scope_teams org team repo job parent s posts = add_team team (
    add_team (repo_team org repo s) (
      add_team (team_of_job (named_job org job s)) (
        add_team (repo_team org (repo_of_job (named_job org job s)) s)
          (parent_scope org parent posts))))
