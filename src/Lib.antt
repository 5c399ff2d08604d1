-- ===== src/Lib.antt =====
-- A model of the core of otto-factory: the job queue that software agents share, and the rules by
-- which an org's callers see and change it.
--
-- The parts. A request runs in one tenant transaction, `Tx` of the platform library, pinned to one org;
-- every operation of crates/of-core is an extension method on it that runs SQL statements. Store.antt has
-- the tables that the modelled operations use, as lists of rows in insertion order, and the transaction
-- as the org and its time `now()`, in microseconds. Table.antt has the statements: select, fetch, exists,
-- count, update and delete by a test on rows. An operation takes the transaction, its arguments and the
-- store, and gives a result with the new store or an error (Error.antt, crates/of-core/src/error.rs); an
-- error leaves the store as it was, as the rollback does.
--
-- Which file models what.
--   Jobs/*: crates/of-core/src/jobs.rs. Row: statuses, the primary key, tickets. Counters: next_job_seq and
--     bump_terminal_counter. Create: find_replayed_job, add_job, create_from_ticket, update_from_ticket,
--     link_ticket. Claim: claim_jobs, ensure_claim_held, finalize, complete_job, fail_job, activate_job,
--     renew_claim. Cancel: request_cancel, cancel_job, close_from_ticket, repend_job, delete_job,
--     set_remote_revision, update_job. Dependencies: set_dependencies, dependencies_of. Query: ready,
--     blocked, stats and the lookups by ticket. Visible: job_visible_sql and the reads that a team scope limits,
--     list_jobs and stats_for_teams among them. History: any sequence of these calls by any callers.
--   Remote.antt, Repos.antt: crates/of-core/src/repos.rs. Remote: normalize_remote, step by step, and the provider that
--     a remote suggests. Repos: the registry of repos and their remotes, a Registry, with how a caller's slug or
--     remote resolves. Tools.antt makes a Registry of the tables of a Database.
--   Scopes.antt: crates/of-core/src/scopes.rs.
--   Tools.antt, Tools/*: crates/of-mcp/src. Tools: Principal of auth.rs, the transaction, the team scope and the
--     recording of a call of server.rs, the checks and the redaction of tools/mod.rs. Tools/Adds, Tools/Writes,
--     Tools/Reads: the handlers of tools/jobs.rs, each with its work between the record of the call and the
--     commit. Tools/Calls: a call of any of them, and the database as it leaves it.
--   Messages.antt, Messages/Send, Messages/Inbox: crates/of-core/src/messages.rs, on a Board of messages and
--     cursors, with the repos and jobs of Store beside it.
--   Leases.antt: crates/of-core/src/leases.rs. Its repos are the rows of Store.
--   Lifecycle.antt: crates/of-core/src/platform_events.rs, on a Database of the tables of Store and those that only
--     a lease, a sign-in, the usage outbox or a clean-up touches; no step here writes the
--     refused usage events. Lifecycle/Requests: requests and clean-ups as steps on one server, with the
--     transactions that hold the lifecycle lock; a request writes when it commits.
--   Billing/*: crates/of-billing/src. Classify: classify.rs. Outbox: outbox.rs with the rows that completion.rs
--     writes and the claim, the settlement and ship_batch of the shipper. Meter: meter.rs, the memory of which
--     orgs not to ask about, with lookups that overlap. Charges: the recording of a call by the MCP tool
--     layer's rules. Retired: the rewrite of rows on the retired meter. Fleet: any number of
--     replicas that claim, send, settle and crash in any order, against a Platform, an interface of what the
--     remote service promises.
--   Teams.antt: crates/of-core/src/teams.rs, with the platform client's answers as arguments.
--   Sync.antt: crates/of-trackers/src/sync.rs. The reading and writing of timestamps is a parameter.
--   RepoSlug.antt: crates/of-core/src/repo_slug.rs.
--   AgentLabel.antt: crates/of-core/src/agent_label.rs. Idempotency.antt: crates/of-core/src/idempotency.rs.
--   The other files hold the lemmas and theorems, each under the part that it is about. Common/* has the
--   helpers that the parts share: Boolean tests, lists, texts as code points, signed numbers.
--
-- Bounds and fuel. The recursive query of set_dependencies runs on fuel, the number of edges: a round that
-- finds something uses up an edge, so the fuel is enough. The digits of a job number are made on
-- fuel n + 1. Claim lifetimes are clamped between 60 and 14400 seconds. Ids and times are natural numbers;
-- counters and lifetimes are signed.
--
-- Not modelled. The concurrency of the database, but for the clean-ups, the replicas of the shipper and the lookups
-- of the meter: a history is a sequence of whole transactions, so the branches that answer a lost race are reached
-- through the unique indexes only. For the calls that lock the row of a job, that sequence is the order of the
-- locks. set_dependencies takes no lock: two calls at once, which each miss the other's edges, are not such a
-- sequence. The id of a message is taken here when its transaction commits; the database's sequence gives it
-- earlier, so there a lower id can appear after a higher one. The deletion of a repo, which happens in a purge
-- only, takes its messages with it.
-- Audit rows but those of cancellations and clean-ups, notifications and tracing. SHA-256 and Unicode's lower case
-- are parameters. Metadata and tracker bindings are opaque texts. Of the billing crate the loops that sleep between
-- passes; a database error there is a row that a constraint refuses, or a step that does not happen. Of the MCP crate
-- the HTTP layer, which reads the token, the tools on messages, leases, repos and orgs, and what follows the commit of
-- a tool on jobs: the write-back to a linked ticket, whose failure is only logged. The web console, the HTTP clients
-- of the trackers, and of the core the bindings of trackers, the console's sign-ins and the watch on changes. The
-- rows of messages in Store and those of a Board are the same table, written by different operations.
pub mod Common
pub mod Table
pub mod Error
pub mod AgentLabel
pub mod Idempotency
pub mod Teams
pub mod RepoSlug
pub mod Sync
pub mod Store
pub mod Remote
pub mod Repos
pub mod Jobs
pub mod Leases
pub mod Messages
pub mod Billing
pub mod Lifecycle
pub mod Scopes
pub mod Tools
mod Tests
