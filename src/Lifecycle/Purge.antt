-- ===== src/Lifecycle/Purge.antt =====
-- The purge of a deleted org, and the requests that were in flight.
use otto_factory.Common.{false, true, ℕ, ◌≡◌}
use otto_factory.Common.Lists.{All}
use otto_factory.Common.Text.{Text}
use otto_factory.Jobs.Create.{Payload}
use otto_factory.Lifecycle.{is_tombstoned}
use otto_factory.Lifecycle.Gone.{IsGone}
use otto_factory.Lifecycle.Requests.{Server, is_on}
use otto_factory.Table.{exists_where}

-- What holds of an org from its purge on: its tombstone stands, no transaction on it is open, and no row of it is left in the tables that a purge clears.
pub record IsClosed (o : ℕ) (s : Server) : Type 0 where
  pub tombstone : is_tombstoned o s.db ≡ true
  pub quiet : exists_where (is_on o) s.open_txs ≡ false
  pub gone : IsGone o s.db

module _ (fingerprint : Payload → Text) where
  abbrev pub AllClosed : Server → Type 0
  AllClosed s = All (λ o. IsClosed o s) s.purged
