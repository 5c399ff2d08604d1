-- ===== src/Tests/Tickets.antt =====
-- The theorems on tracker events: a timestamp is its length, an issue is closed, and its event comes again.
use otto_factory.Common.{
  Option, [], ap, arith, none, refl, some, true, false, ℕ, ◌∷◌, ◌≡◌, zero, suc,
}
use otto_factory.Common.Lists.{length}
use otto_factory.Common.Text.{Text, codes, text_eq}
use otto_factory.Error.{completed}
use otto_factory.Jobs.Cancel.{is_close}
use otto_factory.Jobs.Row.{is_terminal}
use otto_factory.Store.{Job, github}
use otto_factory.Sync.{
  WebhookEvent, close_status, closes, decide, decide_existing, drops, github_close_status,
  has_trigger_label, inbound_decision, is_stale_or_echoed, normalize_remote_revision,
}
use otto_factory.Sync.Inbound.{inbound_decision-closes, inbound_decision-drops}
use otto_factory.Tests.Queue.{pending_job}

abbrev read_length : Text → Option ℕ
read_length t = some (length t)

abbrev write_length : ℕ → Text
write_length zero = []
write_length (suc n) = 0x31 ∷ write_length n

write_length-length : (n : ℕ) → length (write_length n) ≡ n
write_length-length zero = refl
write_length-length (suc n) = ap suc (write_length-length n)

abbrev closing : WebhookEvent
closing = record {
  provider = github;
  action = codes "closed";
  binding_external_ref = codes "acme/api";
  title = codes "Fix it";
  body = none;
  reference = codes "7";
  labels = codes "Otto-Tower" ∷ [];
  state = codes "closed";
  state_reason = some (codes "completed");
  updated_at = some (codes "111");
}

closing_decided :
    inbound_decision read_length write_length closing (codes "otto-tower") (some pending_job)
    ≡ closes completed none none (some (codes "111"))
unfolding inbound_decision has_trigger_label text_eq decide is_stale_or_echoed close_status
    github_close_status decide_existing normalize_remote_revision
closing_decided = refl

inbound_decision-closes_example :
    (has_trigger_label closing (codes "otto-tower") ≡ true)
    × ((job : Job) × (some pending_job ≡ some job)
        × (is_terminal job.status ≡ false)
        × (is_close completed ≡ true))
inbound_decision-closes_example =
    inbound_decision-closes read_length write_length closing (codes "otto-tower") (some pending_job)
      completed none none (some (codes "111")) closing_decided

abbrev written_job : Job
written_job = record pending_job { remote_revision = some (codes "111") }

closing_revision :
    some (codes "111") ≡ normalize_remote_revision read_length write_length closing.updated_at
unfolding normalize_remote_revision
closing_revision = refl

inbound_decision-drops_example :
    inbound_decision read_length write_length closing (codes "otto-tower") (some written_job)
    ≡ drops
inbound_decision-drops_example =
    inbound_decision-drops read_length write_length (λ t. ap some (write_length-length t)) closing
      closing (codes "otto-tower") (codes "111") (codes "111") written_job 3 3 refl refl
      closing_revision refl refl (omega arith)
