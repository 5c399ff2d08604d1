-- ===== src/Tests/Removal.antt =====
-- The theorems on the platform's lifecycle events: an org with one claimed job, one lease and one session.
use otto_factory.Common.{refl, true, List, [], none, some, ◌+◌, ◌∷◌, ◌≡◌}
use otto_factory.Common.Text.{Text, codes}
use otto_factory.Jobs.Create.{Payload}
use otto_factory.Jobs.History.{Call, adds, claims, no_rows}
use otto_factory.Jobs.History
use otto_factory.Jobs.Invariant.{IsConsistent}
use otto_factory.Leases.{new_lease}
use otto_factory.Lifecycle.{Database, apply, member_removed, remove_member, removed_member_ttl_secs}
use otto_factory.Lifecycle.Member.{IsReleased, remove_member-IsReleased}
use otto_factory.Lifecycle.Redelivery.{apply-again, cleaned, outcome_again, renewed}
use otto_factory.Lifecycle.Requests.{Act, acquires, commits, opens, purges, run, tombstones}
use otto_factory.Table.{exists_where}
use otto_factory.Store.{Repo, Store, Tx, secs, other_provider}

abbrev plain_print : Payload → Text
plain_print new = new.title

abbrev lone_repo : Repo
lone_repo = record {
  id = 3;
  org_id = 1;
  slug = codes "core";
  name = codes "core";
  provider = other_provider;
  default_branch = codes "main";
  team_id = none;
  default_agent_type = none;
  tracker_binding = codes "{}";
  active = true;
  created_at = 0;
  created_by = none;
}

abbrev lone_request : Payload
lone_request = record {
  repo_id = 3;
  team_id = none;
  title = codes "build";
  description = none;
  ticket_ref = none;
  tracker = none;
  agent_type = none;
  metadata = none;
  depends_on = [];
  created_by = some 7;
}

abbrev at_open : Tx
at_open = record { org = 1; now = 0 }

abbrev lone_calls : List (Tx × Call)
lone_calls =
    (at_open, adds lone_request none) ∷ (at_open, claims (codes "job-1" ∷ []) 7 none none) ∷ []

abbrev lone_queue : Store
lone_queue = History.run plain_print (record no_rows { repos = lone_repo ∷ [] }) lone_calls

abbrev lone_database : Database
lone_database = record {
  queue = lone_queue;
  leases = new_lease at_open 40 3 (codes "branch:main") 7 none none 900 ∷ [];
  cursors =
      record { org_id = 1; user_id = 7; repo_id = some 3; team_id = none; last_read_id = 5 } ∷ [];
  usage_outbox = [];
  usage_outbox_rejected = [];
  sessions =
      record {
        id_hash = codes "c";
        user_id = 7;
        org_id = 1;
        secrets = codes "s";
        expires_at = 9000;
      }
      ∷ [];
  tracker_bindings = [];
  tracker_connection_index = [];
  tracker_connections = [];
  repo_remotes = [];
  audit_events = [];
  platform_events = [];
  deleted_orgs = [];
  removed_members = [];
}

-- A request is let in before the tombstone and writes after it; another comes when the org is gone.
abbrev deletion : List Act
deletion =
    opens 1 1 (some 7)
    ∷ tombstones 1
    ∷ purges 90 1
    ∷ commits 1 (acquires 41 3 (codes "branch:next") 7 none none none ∷ [])
    ∷ purges 90 1
    ∷ opens 2 1 none
    ∷ commits 2 (acquires 42 3 (codes "branch:late") 7 none none none ∷ [])
    ∷ []

remove_member-IsReleased_example :
    IsReleased 1 7 (10 + secs removed_member_ttl_secs) (remove_member 10 91 1 7 lone_database).1
    × IsConsistent (remove_member 10 91 1 7 lone_database).1.queue
remove_member-IsReleased_example =
    remove_member-IsReleased 10 91 1 7 lone_database
      (History.run-IsConsistent plain_print (lone_repo ∷ []) lone_calls)

-- The delivery has been seen, and the member holds a claim, a lease and a session once more.
abbrev back_database : Database
back_database = record lone_database {
  platform_events =
      record { event_id = 91; org_id = 1; kind = codes "member.removed"; received_at = 10 } ∷ [];
}

apply-again_example :
    (apply 20 91 (member_removed 1 7) back_database
      ≡ (outcome_again (member_removed 1 7), cleaned 20 (member_removed 1 7) back_database))
    × (apply 20 91 (member_removed 1 7) (apply 10 91 (member_removed 1 7) lone_database).1 ≡ (
      outcome_again (member_removed 1 7),
      renewed 20 (member_removed 1 7) (apply 10 91 (member_removed 1 7) lone_database).1,
    ))
unfolding exists_where
apply-again_example = apply-again 10 20 91 (member_removed 1 7) lone_database back_database refl
