-- ===== src/Sync.antt =====
-- crates/of-trackers/src/sync.rs: what an inbound tracker event does to a job, and what a job's transition does to its
-- ticket. The reading and writing of RFC 3339 timestamps is the chrono library's: a parameter.
pub mod Inbound
use otto_factory.Common.{
  Bool, List, Option, [], false, if◌then◌else◌, leb, none, not, some, true, ℕ, ◌&&◌, ◌++◌, ◌+◌, ◌∷◌,
}
use otto_factory.Common.Lists.{any}
use otto_factory.Common.Text.{Text, codes, text_eq, trim}
use otto_factory.Error.{Status, completed, failed}
use otto_factory.Jobs.Row.{is_terminal}
use otto_factory.Store.{Job, Tracker, github, jira}

-- The fields of `webhook::WebhookEvent` and its issue that a decision reads.
pub record WebhookEvent : Type 0 where
  pub provider : Tracker
  pub action : Text
  pub binding_external_ref : Text
  pub title : Text
  pub body : Option Text
  pub reference : Text
  pub labels : List Text
  pub state : Text
  pub state_reason : Option Text
  pub updated_at : Option Text

pub data InboundDecision : Type 0 where
  drops no_op : InboundDecision
  creates : Text → Option Text → Text → Option Text → InboundDecision
  updates : Text → Option Text → Option Text → InboundDecision
  closes : Status → Option Text → Option Text → Option Text → InboundDecision

pub data JobTransition : Type 0 where
  on_claimed on_completed on_failed on_cancelled : JobTransition

pub data JiraTransitionTarget : Type 0 where
  named_status status_category : Text → JiraTransitionTarget

pub record OutboundDecision : Type 0 where
  pub comment : Text
  pub github_close : Option Text
  pub jira_transition : Option JiraTransitionTarget

-- `to_ascii_lowercase` of a character.
abbrev pub lower : ℕ → ℕ
lower c = if leb 0x41 c && leb c 0x5a then c + 0x20 else c

abbrev pub lowercase : Text → Text
lowercase [] = []
lowercase (c ∷ cs) = lower c ∷ lowercase cs

abbrev pub eq_ignore_case : Text → Text → Bool
eq_ignore_case a b = text_eq (lowercase a) (lowercase b)

abbrev pub is_one_of : List Text → Text → Bool
is_one_of names t = any (λ n. text_eq n t) names

unfoldable pub has_trigger_label : WebhookEvent → Text → Bool
has_trigger_label event trigger_label =
    any (λ label. eq_ignore_case label trigger_label) event.labels

unfoldable pub ticket_ref : WebhookEvent → Text
ticket_ref event = of_provider event.provider
  where
    of_provider : Tracker → Text
    of_provider github = event.binding_external_ref ++ codes "#" ++ event.reference
    of_provider jira = event.reference

unfoldable pub github_close_status : Text → Option Text → Option Status
github_close_status action reason =
    if text_eq action (codes "closed") then some (of_reason reason) else none
  where
    of_reason : Option Text → Status
    of_reason none = completed
    of_reason (some r) = if text_eq r (codes "completed") then completed else failed

unfoldable pub jira_close_status : Text → Option Status
jira_close_status status =
    if is_one_of (codes "done" ∷ codes "closed" ∷ codes "resolved" ∷ []) status
    then some completed
    else if is_one_of
        (codes "won't do"
          ∷ codes "wont do"
          ∷ codes "cancelled"
          ∷ codes "rejected"
          ∷ codes "declined"
          ∷ [])
        status
    then some failed
    else none

unfoldable pub close_status : WebhookEvent → Option Status
unfolding github_close_status jira_close_status
close_status event = of_provider event.provider
  where
    of_provider : Tracker → Option Status
    of_provider github = github_close_status event.action event.state_reason
    of_provider jira = jira_close_status (lowercase (trim event.state))

-- An event of GitHub whose action is none of the ones named changes nothing.
unfoldable pub is_other_action : WebhookEvent → List Text → Bool
is_other_action event actions = is_github event.provider && not (is_one_of actions event.action)
  where
    is_github : Tracker → Bool
    is_github github = true
    is_github jira = false

abbrev pub shared_actions : List Text
shared_actions = codes "opened" ∷ codes "edited" ∷ codes "labeled" ∷ []

module _ (parse : Text → Option ℕ) (format : ℕ → Text) where
  abbrev parsed : Option Text → Option ℕ
  parsed none = none
  parsed (some raw) = parse raw

  abbrev formatted : Option ℕ → Option Text
  formatted none = none
  formatted (some t) = some (format t)

  unfoldable pub normalize_remote_revision : Option Text → Option Text
  normalize_remote_revision raw = formatted (parsed raw)

  unfoldable pub is_stale_or_echoed : Option Text → Option Text → Bool
  is_stale_or_echoed stored incoming = is_late (parsed stored) (parsed incoming)
    where
      is_late : Option ℕ → Option ℕ → Bool
      is_late (some old) (some new) = leb new old
      is_late (some old) none = false
      is_late none new = false

  unfoldable pub decide_existing : WebhookEvent → Option Status → InboundDecision
  unfolding normalize_remote_revision is_other_action
  decide_existing event (some to) = closes to none none (normalize_remote_revision event.updated_at)
  decide_existing event none =
      if is_other_action event (codes "closed" ∷ shared_actions)
      then no_op
      else updates event.title event.body (normalize_remote_revision event.updated_at)

  unfoldable pub decide_new : WebhookEvent → Option Status → InboundDecision
  unfolding normalize_remote_revision is_other_action ticket_ref
  decide_new event (some to) = no_op
  decide_new event none =
      if is_other_action event shared_actions
      then no_op
      else creates event.title event.body (ticket_ref event)
          (normalize_remote_revision event.updated_at)

  unfoldable pub decide : WebhookEvent → Option Job → InboundDecision
  unfolding is_stale_or_echoed close_status decide_existing decide_new
  decide event none = decide_new event (close_status event)
  decide event (some job) =
      if is_stale_or_echoed job.remote_revision event.updated_at
      then drops
      else if is_terminal job.status
      then no_op
      else decide_existing event (close_status event)

  unfoldable pub inbound_decision : WebhookEvent → Text → Option Job → InboundDecision
  unfolding has_trigger_label decide
  inbound_decision event trigger_label existing =
      if not (has_trigger_label event trigger_label) then drops else decide event existing

unfoldable pub comment_of : JobTransition → Option Text → Text
comment_of on_claimed (some agent) = codes "Claimed by " ++ agent ++ codes "."
comment_of on_claimed none = codes "Claimed."
comment_of on_completed (some detail) = detail
comment_of on_completed none = codes "Completed."
comment_of on_failed (some detail) = detail
comment_of on_failed none = codes "Failed."
comment_of on_cancelled (some detail) = detail
comment_of on_cancelled none = codes "Cancelled."

unfoldable pub github_close_of : JobTransition → Tracker → Option Text
github_close_of on_completed github = some (codes "completed")
github_close_of _ _ = none

unfoldable pub jira_transition_of : JobTransition → Tracker → Option JiraTransitionTarget
jira_transition_of on_claimed jira = some (named_status (codes "In Progress"))
jira_transition_of on_completed jira = some (status_category (codes "done"))
jira_transition_of on_failed jira = some (status_category (codes "new"))
jira_transition_of _ _ = none

unfoldable pub outbound_decision : JobTransition → Tracker → Option Text → OutboundDecision
unfolding comment_of github_close_of jira_transition_of
outbound_decision transition tracker detail = record {
  comment = comment_of transition detail;
  github_close = github_close_of transition tracker;
  jira_transition = jira_transition_of transition tracker;
}
