-- ===== src/Lib.antt =====
-- The durable kernel of the managed agents runtime: runs, their events and outbox, attempts with
-- leases, the reservation of tenant capacity, the authority for external actions, the supervisor of a
-- run and the limits on its calls.
--
-- The runtime keeps all of its state in Postgres. A run goes through the statuses of
-- src/core/stateMachine.ts, one transition at a time, and each transition, written by
-- src/core/transition.ts, appends an event and an outbox row, releases the tenant's capacity when the
-- run ends, and shows the status in the run's managed session. Workers claim queued runs under a lease
-- (src/scheduler/claim.ts), settle them when an epoch ends (src/harness/worker.ts), and lose them to
-- the reaper when the lease expires (src/scheduler/reaper.ts). During an epoch the supervisor
-- (src/harness/supervisor.ts) and the limits (src/harness/limits.ts) decide on each step; an external
-- action needs a grant, may need an approval, and leaves a receipt (src/store).
--
-- The files, each with the code it is about:
--   Core.Types, Core.StateMachine     src/core/types.ts, src/core/stateMachine.ts
--   Core.Checkpoints                  src/core/checkpoints.ts
--   Store.Rows, Store.Database        the rows of src/store, and src/db/tx.ts
--   Store.Admissions                  src/store/admissions.ts
--   Store.Attempts                    src/store/attempts.ts
--   Store.Grants, Store.Approvals     src/store/grants.ts, src/store/approvals.ts
--   Store.Receipts, Store.Outbox      src/store/receipts.ts, src/store/outbox.ts
--   Store.ModelUsage, Store.Runs      src/store/modelUsage.ts, src/store/runs.ts
--   Transition                        src/core/transition.ts
--   Scheduler.Claim, Scheduler.Reaper src/scheduler/claim.ts, src/scheduler/reaper.ts
--   Store.Checkpoints                 src/store/checkpoints.ts
--   Store.ChildLineage                src/store/childLineage.ts
--   Scheduler.Children                src/scheduler/children.ts
--   Scheduler.Settle                  settleAttempt of src/harness/worker.ts
--   Harness.Supervisor, Harness.Limits src/harness/supervisor.ts, src/harness/limits.ts
--   Harness.Governed, Harness.Admission src/harness/governedAction.ts
--   Api.RateLimit                     src/api/rateLimit.ts
-- A function keeps its name in snake case: transitionRun is transition_run. The child modules of a
-- file hold its proofs, Prelude what all share, and Tests the theorems at concrete rows.
--
-- The database is one record of tables, a table the list of its rows, and a transaction a function
-- from a database to an error or to a value and a database: a throw gives no database, since it
-- rolls back. Transactions follow one another, as the row locks of the sources make them; which rows
-- and advisory locks are free at the moment (SKIP LOCKED, pg_try_advisory_xact_lock) is a parameter,
-- so that a theorem holds for each choice of other sessions. Of the constraints of the tables, only
-- those are modelled that a theorem names: the ids of runs and attempts that are inserted, the keys
-- of receipts; the primary key of run_events and the CHECK constraints on the result, which may
-- refuse a write, are not modelled (a ledger without gaps meets the first). Identifiers are numbers
-- that the caller supplies where the source calls newId; times are milliseconds, and the clock is
-- read from the database or given as an argument where the source reads clock_timestamp(). A bigint
-- is a natural number; where the source may go below zero, the test is written without the
-- subtraction.
--
-- The loop of the reaper runs on a list of rounds, each with the changes of other sessions before it
-- and the locks that it can have: enough rounds are more than the attempts that are expired at first or
-- come to expire meanwhile. The chain of replaced runs runs on fuel: for the root of a lineage of
-- children a round for each row and one more is enough; for the chain of the receipts, its length.
--
-- Parameters for what is not in the repository: toLowerCase and String.includes in the supervisor,
-- the publisher of the outbox, the digests of SHA-256, the byte length of a prompt or a goal, the
-- rows of artifacts, and the regular expressions and the URL parser that look for credentials in a
-- checkpoint. The fractions of the supervisor are exact and not below zero. The rate limiter counts
-- thousandths of a token, for a whole rate, on a clock that does not go back.
--
-- A governed action awaits many transactions. Each commits by itself, so an error keeps what the earlier
-- ones wrote, and before each the other sessions may change the database: a World lists these changes
-- and the calls that reached the provider. The connector, the credential broker and the signal are
-- functions of the world. The advisory lock on a key makes executions of it follow one another; that
-- its session may be lost is not modelled.
--
-- Not modelled: managed sessions but for what runs do to them, the epoch, the tool router,
-- credentials, the HTTP routes and the provider adapters, which call the parts above; start-up,
-- configuration and logging, which are I/O.
mod Prelude
pub mod Json
pub mod Core
pub mod Store
pub mod Transition
pub mod Scheduler
pub mod Harness
pub mod Api
mod Tests
