-- ===== src/Tests/Lease.antt =====
-- The theorems on leases at concrete inputs: a branch that one user holds and another wants.
use otto_factory.AgentLabel
use otto_factory.Common.{false, true, List, [], arith, none, not, refl, subst, ◌∷◌, ◌≡◌}
use otto_factory.Common.Text.{Text, byte_len, codes, is_whitespace, trim, trim_matches, trim_start}
use otto_factory.Error.{is_ok}
use otto_factory.Leases.{
  Lease, acquire_lease, clamp_lease_ttl, insert_lease, is_live_on, new_lease, reap_leases,
  take_lease,
}
use otto_factory.Leases.Acquire.{acquire_lease-ok_iff, is_others}
use otto_factory.Leases.Exclusive.{
  IsExclusive, LeaseCall, acquires, lease_run, lease_run-IsExclusive, lease_step, releases, renews,
}
use otto_factory.Leases.Kept.{Stands, lease_run-excludes}
use otto_factory.Store.{Repo, Tx, secs, other_provider}
use otto_factory.Table.{exists_where, fetch_optional, update_where}

abbrev core_repo : Repo
core_repo = record {
  id = 3;
  org_id = 1;
  slug = codes "core";
  name = codes "core";
  provider = other_provider;
  default_branch = codes "main";
  team_id = none;
  default_agent_type = none;
  tracker_binding = codes "{}";
  active = true;
  created_at = 0;
  created_by = none;
}

abbrev at_start : Tx
at_start = record { org = 1; now = 0 }

abbrev at_minute : Tx
at_minute = record { org = 1; now = secs 60 }

abbrev at_hour : Tx
at_hour = record { org = 1; now = secs 3600 }

abbrev main_branch : Text
main_branch = codes "branch:main"

abbrev lease_calls : List (Tx × LeaseCall)
lease_calls = (at_start, acquires (core_repo ∷ []) 40 3 main_branch 7 none none none) ∷ []

abbrev held_lease : Lease
held_lease = new_lease at_start 40 3 main_branch 7 none none 900

abbrev lease_table : List Lease
lease_table = held_lease ∷ []

lease_calls_run : lease_run [] lease_calls ≡ lease_table
unfolding lease_run lease_step acquire_lease take_lease insert_lease reap_leases trim_matches
    trim_start is_whitespace exists_where fetch_optional update_where AgentLabel.validate byte_len
    clamp_lease_ttl
lease_calls_run = refl

lease_table-IsExclusive : IsExclusive lease_table
lease_table-IsExclusive = subst IsExclusive lease_calls_run (lease_run-IsExclusive lease_calls)

-- Another user tries to renew, to release and to take the lease.
abbrev tries : List (Tx × LeaseCall)
tries =
    (at_minute, renews 40 8 none)
    ∷ (at_minute, releases 40 8)
    ∷ (at_minute, acquires (core_repo ∷ []) 41 3 main_branch 8 none none none)
    ∷ []

lease_run-excludes_example :
    Stands held_lease (lease_run lease_table tries)
    × (is_ok (
          acquire_lease at_minute
            (core_repo ∷ [])
            42
            3
            (codes " branch:main")
            8
            none
            none
            none
            (lease_run lease_table tries))
        ≡ false)
unfolding trim_matches trim_start is_whitespace fetch_optional
lease_run-excludes_example =
    lease_run-excludes held_lease refl at_minute (omega arith) 8 (omega arith) lease_table tries
      (core_repo ∷ []) 42 (codes " branch:main") none none none lease_table-IsExclusive refl
      ((omega arith, omega arith), ((omega arith, omega arith), ((omega arith, omega arith), tt)))
      refl

acquire_lease-ok_iff_example :
    is_ok (acquire_lease at_hour (core_repo ∷ []) 41 3 main_branch 8 none none none lease_table)
    ≡ not (exists_where (is_others at_hour 3 (trim main_branch) 8) lease_table)
unfolding trim_matches trim_start is_whitespace byte_len exists_where is_live_on AgentLabel.validate
acquire_lease-ok_iff_example =
    acquire_lease-ok_iff at_hour (core_repo ∷ []) lease_table 41 3 main_branch 8 none none none none
      refl refl refl lease_table-IsExclusive refl refl (λ _. refl, tt)
