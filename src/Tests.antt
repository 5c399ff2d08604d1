-- ===== src/Tests.antt =====
-- The theorems at concrete inputs: one org, one repo, two jobs, a claim that lapses.
mod Board
mod Lease
mod Queue
mod Calls
mod Registry
mod Removal
mod Slugs
mod Tickets
mod Usage
use otto_factory.AgentLabel
use Prim.Native.String.{String}
use otto_factory.AgentLabel.{
  is_space, check_label, escape, find_char, in_ranges, is_forbidden, validate_trimmed,
}
use otto_factory.AgentLabel.Escape.{escape-read, read_quoted}
use otto_factory.AgentLabel.Shape.{validate-IsAccepted}
use otto_factory.Common.{
  List, Option, [], ap, arith, false, none, refl, some, true, ℕ, ◌&&◌, ◌++◌, ◌==◌, ◌↔◌, ◌∷◌, ◌≡◌,
  ◌≢◌, ◌≤◌,
}
use otto_factory.Common.Lists.{All, any, length, take}
use otto_factory.Common.Text.{
  Text, codes, is_control, is_whitespace, text_eq, text_ltb, trim_matches, trim_start,
}
use otto_factory.Error.{Result, err, is_ok, ok, team_not_found}
use otto_factory.Jobs.Cancel.{cancel_job, is_repo}
use otto_factory.Jobs.Claim.{
  check_pending, check_unblocked, claim, claim_jobs, clamp_claim_ttl, complete_job, fail_job,
  has_id, in_batch, is_blocked, is_blocking, lock_rows, reap, reap_batch, renew_claim, sort_dedup,
}
use otto_factory.Jobs.Counters.{bump_seq, is_org, next_job_seq, upsert}
use otto_factory.Jobs.Create.{
  Payload, add_job, decimal, decimal_on, depend, from_seq, get_repo, insert_row, payload_row, place,
  settle_plain,
}
use otto_factory.Jobs.Dependencies.{
  add_all, dependencies_of, direct, edges, insert_edge, reach, remove_all, set_dependencies,
}
use otto_factory.Jobs.Dependencies.Acyclic.{NoCycles}
use otto_factory.Jobs.Dependencies.Reach.{Leads, reach-Leads}
use otto_factory.Jobs.Effects.{Found, HoldsClaim}
use otto_factory.Jobs.Exclusion.{IsGranted, claim_jobs-excludes, claim_jobs-grants, reclaim-fences}
use otto_factory.Jobs.Fencing.{complete_job-ok_iff}
use otto_factory.Jobs.Graph.{run-NoCycles}
use otto_factory.Jobs.History.{
  Call, adds, claims, no_rows, run, run-IsConsistent, step, step-IsConsistent,
}
use otto_factory.Jobs.Invariant.{IsConsistent}
use otto_factory.Jobs.Isolation.{IsUntouched}
use otto_factory.Jobs.Query.{org_wide_stats, scan_stats}
use otto_factory.Jobs.Row.{has_lapsed, holds_ticket, is_claimed, is_job, ticket_taken}
use otto_factory.Jobs.StatsScan.{org_wide_stats-scan}
use otto_factory.Jobs.Tenancy.{step-IsUntouched}
use otto_factory.Store.{Job, Repo, Store, Tx, secs, other_provider}
use otto_factory.Table.{exists_where, fetch_optional, select_where, update_where}
use otto_factory.Teams.{
  TeamInfo, accept_answer, allows, for_member, in_org, member_ids, restriction, teams, verify,
}
use otto_factory.Teams.Scope.{for_member-allows, restriction_admits, verify-in_org}

abbrev title_print : Payload → Text
title_print new = new.title

abbrev platform : Repo
platform = record {
  id = 3;
  org_id = 1;
  slug = codes "platform";
  name = codes "platform";
  provider = other_provider;
  default_branch = codes "main";
  team_id = none;
  default_agent_type = none;
  tracker_binding = codes "{}";
  active = true;
  created_at = 0;
  created_by = none;
}

abbrev request : String → List Text → Payload
request title depends_on = record {
  repo_id = 3;
  team_id = none;
  title = codes title;
  description = none;
  ticket_ref = none;
  tracker = none;
  agent_type = none;
  metadata = none;
  depends_on = depends_on;
  created_by = some 7;
}

abbrev first_id : Text
first_id = codes "job-1"

abbrev second_id : Text
second_id = codes "job-2"

abbrev early : Tx
early = record { org = 1; now = 0 }

abbrev soon : Tx
soon = record { org = 1; now = secs 60 }

abbrev late : Tx
late = record { org = 1; now = secs 1000 }

abbrev elsewhere : Tx
elsewhere = record { org = 2; now = 0 }

abbrev build : List (Tx × Call)
build =
    (early, adds (request "build" []) none)
    ∷ (early, adds (request "ship" (first_id ∷ [])) none)
    ∷ []

abbrev empty_store : Store
empty_store = record no_rows { repos = platform ∷ [] }

abbrev queued : Store
queued = run title_print empty_store build

abbrev taken : Store
taken = step title_print queued (early, claims (first_id ∷ []) 7 none none)

abbrev retaken : Store
retaken = step title_print taken (late, claims (first_id ∷ []) 8 none none)

run-IsConsistent_example : IsConsistent queued
run-IsConsistent_example = run-IsConsistent title_print (platform ∷ []) build

run-NoCycles_example : NoCycles queued
run-NoCycles_example = run-NoCycles title_print (platform ∷ []) build

taken-IsConsistent : IsConsistent taken
taken-IsConsistent =
    step-IsConsistent title_print queued early (claims (first_id ∷ []) 7 none none)
      run-IsConsistent_example

claim_runs : claim_jobs early (first_id ∷ []) 7 none none queued ≡ ok (take 1 taken.jobs, taken)
unfolding run step claim_jobs add_job validate_trimmed check_label find_char lock_rows sort_dedup
    fetch_optional trim_matches trim_start is_whitespace get_repo is_repo place insert_row
    exists_where next_job_seq payload_row ticket_taken depend is_job text_eq from_seq decimal
    decimal_on upsert is_org bump_seq check_pending check_unblocked is_blocked is_blocking
    reap_batch reap in_batch claim update_where select_where settle_plain set_dependencies add_all
    insert_edge remove_all edges reach direct dependencies_of text_ltb AgentLabel.validate
    holds_ticket
claim_runs = refl

claim_jobs-grants_example : IsGranted early first_id 7 none queued taken
unfolding text_eq
claim_jobs-grants_example =
    claim_jobs-grants early (first_id ∷ []) 7 none none queued run-IsConsistent_example
      (take 1 taken.jobs) taken first_id claim_runs refl

abbrev g1 : IsGranted early first_id 7 none queued taken
g1 =
    claim_jobs-grants early (first_id ∷ []) 7 none none queued run-IsConsistent_example
      (take 1 taken.jobs) taken first_id claim_runs (unfold text_eq in refl)

retaken_runs : claim_jobs late (first_id ∷ []) 8 none none taken ≡ ok (take 1 retaken.jobs, retaken)
unfolding run step claim_jobs add_job validate_trimmed check_label find_char lock_rows sort_dedup
    fetch_optional trim_matches trim_start is_whitespace get_repo is_repo place insert_row
    exists_where next_job_seq payload_row ticket_taken depend is_job text_eq from_seq decimal
    decimal_on upsert is_org bump_seq check_pending check_unblocked is_blocked is_blocking
    reap_batch reap in_batch claim update_where select_where settle_plain set_dependencies add_all
    insert_edge remove_all edges reach direct dependencies_of text_ltb AgentLabel.validate
    holds_ticket clamp_claim_ttl
retaken_runs = refl

step-IsUntouched_example :
    IsUntouched 2 queued (step title_print queued (early, claims (first_id ∷ []) 7 none none))
step-IsUntouched_example =
    step-IsUntouched title_print 2 early queued (claims (first_id ∷ []) 7 none none) (omega arith)

complete_job-ok_iff_example :
    (is_ok (complete_job soon first_id 7 none (some 1) taken) ≡ true)
    ↔ ((j : Job) × Found soon first_id taken j × HoldsClaim soon 7 (some 1) false j)
complete_job-ok_iff_example = complete_job-ok_iff soon first_id 7 (some 1) taken none

claim_jobs-excludes_example :
    is_ok (claim_jobs soon (second_id ∷ first_id ∷ []) 8 none none taken) ≡ false
unfolding text_eq clamp_claim_ttl
claim_jobs-excludes_example =
    claim_jobs-excludes early soon (first_id ∷ []) (second_id ∷ first_id ∷ []) 7 8 none none none
      none queued run-IsConsistent_example (take 1 taken.jobs) taken first_id claim_runs refl refl
      refl (omega arith)

reclaim-fences_example :
    (is_ok (complete_job late first_id 7 none (some 1) retaken) ≡ false)
    × (is_ok (fail_job late first_id 7 none (some 1) retaken) ≡ false)
    × (is_ok (renew_claim late first_id 7 none (some 1) retaken) ≡ false)
    × (is_ok (cancel_job late first_id 7 none (some 1) retaken) ≡ false)
unfolding text_eq
reclaim-fences_example =
    reclaim-fences late late (first_id ∷ []) (first_id ∷ []) 8 8 none none none none taken
      taken-IsConsistent (take 1 retaken.jobs) retaken first_id 7 1 none g1.now_held g1.stored
      (omega (arith, g1.generation)) retaken_runs refl refl

org_wide_stats-scan_example : org_wide_stats early queued ≡ scan_stats (λ j. j.org_id == 1) queued
org_wide_stats-scan_example = org_wide_stats-scan early queued run-IsConsistent_example

reach-Leads_example :
    (has_id (reach ((first_id, second_id) ∷ []) first_id) second_id ≡ true)
    ↔ Leads ((first_id, second_id) ∷ []) first_id second_id
reach-Leads_example = reach-Leads ((first_id, second_id) ∷ []) first_id second_id

validate-IsAccepted_example :
    (codes "ci-7" ≡ trim_matches is_space (codes " ci-7 "))
    × (1 ≤ length (codes "ci-7"))
    × (length (codes "ci-7") ≤ 128)
    × All (λ c. is_forbidden c ≡ false) (codes "ci-7")
    × (AgentLabel.validate (some (codes "ci-7")) ≡ ok (some (codes "ci-7")))
unfolding AgentLabel.validate validate_trimmed check_label find_char trim_matches trim_start
    is_forbidden in_ranges is_whitespace is_control
validate-IsAccepted_example = validate-IsAccepted (codes " ci-7 ") (codes "ci-7") refl

abbrev quoted_label : Text
quoted_label = 0x61 ∷ 0x22 ∷ 0x62 ∷ 0x5c ∷ []

escape-read_example :
    read_quoted false (escape quoted_label ++ 0x22 ∷ codes " holds it")
    ≡ some (quoted_label, codes " holds it")
escape-read_example = escape-read quoted_label (codes " holds it")

abbrev answer_yes : ℕ → ℕ → Result (Option TeamInfo)
answer_yes org team = ok (some (record { id = team; org_id = org }))

-- A platform that answers a team of another org beside one of this org.
abbrev two_teams : ℕ → ℕ → Result (Option (List TeamInfo))
two_teams org user = ok (some (record { id = 5; org_id = 1 } ∷ record { id = 6; org_id = 2 } ∷ []))

verify-in_org_example :
    (answer_yes 1 5 ≡ ok (some (record { id = 5; org_id = 1 })))
    × (in_org (record { org = 1; team = 5 }) 1 ≡ ok 5)
    × (elsewhere.org ≢ early.org → in_org (record { org = 1; team = 5 }) 2 ≡ err (team_not_found 5))
unfolding verify accept_answer
verify-in_org_example = verify-in_org answer_yes 1 5 2 (record { org = 1; team = 5 }) refl

for_member-allows_example :
    (found : List TeamInfo) × (two_teams 1 7 ≡ ok (some found))
    × ((t : ℕ)
        → allows (teams (5 ∷ [])) (some t)
          ≡ any (λ (m : TeamInfo). m.org_id == 1 && m.id == t) found)
    × (allows (teams (5 ∷ [])) none ≡ true)
    × ((team : Option ℕ)
        → restriction_admits (restriction (teams (5 ∷ []))) team ≡ allows (teams (5 ∷ [])) team)
unfolding for_member member_ids
for_member-allows_example = for_member-allows two_teams 1 7 (teams (5 ∷ [])) refl
