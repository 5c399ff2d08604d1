-- ===== src/Sync/Inbound.antt =====
-- What inbound events can do to a job.
use otto_factory.Common.{
  Bool-cases, Option, arith, false, inl, inr, none, refl, some, true, ℕ, ◌≡◌, ◌≤◌, ◌∙◌,
}
use otto_factory.Common.Text.{Text, trim}
use otto_factory.Error.{Status}
use otto_factory.Jobs.Cancel.{is_close}
use otto_factory.Jobs.Row.{is_terminal}
use otto_factory.Store.{Job, Tracker, github, jira}
use otto_factory.Sync.{
  lowercase, WebhookEvent, close_status, closes, decide, decide_existing, decide_new, drops,
  github_close_status, has_trigger_label, inbound_decision, is_stale_or_echoed, jira_close_status,
  normalize_remote_revision,
}

github-is_close :
    (action : Text) (reason : Option Text) (to : Status)
    → github_close_status action reason ≡ some to
    → is_close to ≡ true
unfolding github_close_status
github-is_close action none to h = ground (arith, h)
github-is_close action (some r) to h = ground (arith, h)

jira-is_close : (t : Text) (to : Status) → jira_close_status t ≡ some to → is_close to ≡ true
unfolding jira_close_status
jira-is_close t to h = ground (arith, h)

close_status-is_close :
    (event : WebhookEvent) (to : Status) → close_status event ≡ some to → is_close to ≡ true
unfolding close_status
close_status-is_close event to h = go event.provider h
  where
    go :
        (p : Tracker)
        → (elim p [
          | github ↦ github_close_status event.action event.state_reason
          | jira ↦ jira_close_status (lowercase (trim event.state))
        ])
          ≡ some to
        → is_close to ≡ true
    go github k = github-is_close event.action event.state_reason to k
    go jira k = jira-is_close (lowercase (trim event.state)) to k

module _ (parse : Text → Option ℕ) (format : ℕ → Text) where
  new-not_closed :
      (event : WebhookEvent) (o : Option Status) (to : Status) (result error revision : Option Text)
      → ¬ (decide_new parse format event o ≡ closes to result error revision)
  unfolding decide_new
  new-not_closed event none to result error revision h = ground (arith, h)
  new-not_closed event (some x) to result error revision h = cc

  existing-closed :
      (event : WebhookEvent) (o : Option Status) (to : Status) (result error revision : Option Text)
      → decide_existing parse format event o ≡ closes to result error revision
      → o ≡ some to
  unfolding decide_existing
  existing-closed event none to result error revision h = ground (arith, h)
  existing-closed event (some x) to result error revision h = ground (arith, h)

  decided-closed :
      (event : WebhookEvent) (existing : Option Job) (to : Status)
      (result error revision : Option Text)
      → decide parse format event existing ≡ closes to result error revision
      → (job : Job) × (existing ≡ some job)
        × (is_terminal job.status ≡ false)
        × (is_close to ≡ true)
  unfolding decide
  decided-closed event none to result error revision h =
      absurd (new-not_closed event (close_status event) to result error revision h)
  decided-closed event (some job) to result error revision h =
      elim (Bool-cases (is_stale_or_echoed parse format job.remote_revision event.updated_at)) [
        | inl y ↦ absurd (ground (arith, h, y))
        | inr n ↦ elim (Bool-cases (is_terminal job.status)) [
          | inl y ↦ absurd (ground (arith, h, n, y))
          | inr o ↦
              let d : decide_existing parse format event (close_status event)
                  ≡ closes to result error revision =
                ground (arith, h, n, o) in
              (
                job,
                refl,
                o,
                close_status-is_close event to
                    (existing-closed event (close_status event) to result error revision d),
              )
        ]
      ]

  -- An inbound event closes only a job that the ticket has and that is not finished, only as completed or failed, so
  -- the close is never one that close_from_ticket refuses for its status, and only under the trigger label.
  pub inbound_decision-closes :
      (event : WebhookEvent) (label : Text) (existing : Option Job) (to : Status)
      (result error revision : Option Text)
      → inbound_decision parse format event label existing ≡ closes to result error revision
      → (has_trigger_label event label ≡ true)
        × ((job : Job) × (existing ≡ some job)
            × (is_terminal job.status ≡ false)
            × (is_close to ≡ true))
  unfolding inbound_decision
  inbound_decision-closes event label existing to result error revision h =
      elim (Bool-cases (has_trigger_label event label)) [
        | inl y ↦ (y, decided-closed event existing to result error revision (ground (arith, h, y)))
        | inr n ↦ absurd (ground (arith, h, n))
      ]

  -- With timestamps that are read back as they were written: once a job has the revision of an event, that event and
  -- every one that is not newer is dropped, whatever else it says.
  pub inbound_decision-drops :
      ((t : ℕ) → parse (format t) ≡ some t)
      → (event echo : WebhookEvent) (label raw again : Text) (job : Job) (t t' : ℕ)
      → event.updated_at ≡ some raw
      → parse raw ≡ some t
      → job.remote_revision ≡ normalize_remote_revision parse format event.updated_at
      → echo.updated_at ≡ some again
      → parse again ≡ some t'
      → t' ≤ t
      → inbound_decision parse format echo label (some job) ≡ drops
  unfolding inbound_decision decide is_stale_or_echoed normalize_remote_revision
  inbound_decision-drops law event echo label raw again job t t' u p r v q l =
      let stored : job.remote_revision ≡ some (format t) = r ∙ rw (u, p) refl in
      rw (stored, v, law t, q) (ground (arith, l))
