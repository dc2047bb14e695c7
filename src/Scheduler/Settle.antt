-- ===== src/Scheduler/Settle.antt =====
-- `settleAttempt` of src/harness/worker.ts, and the steps of a worker around an epoch.
pub mod Outcome
use managed_agents_runtime.Prelude.{
  ℕ, String, Bool, true, false, not, List, ◌∷◌, [], Option, none, some, if◌then◌else◌, leb,
}
use managed_agents_runtime.Json.{num, str, Payload}
use managed_agents_runtime.Core.Types.{
  RunRow, queued, starting, running, verifying, run_failed, retry_scheduled, attempt_started,
  RunAttemptRow,
}
use managed_agents_runtime.Store.Database.{Db, Tx, pure, ◌>>=◌, ◌>>◌, with_transaction, Result, ok}
use managed_agents_runtime.Store.Attempts.{exit_attempt}
use managed_agents_runtime.Transition.{TransitionOptions, no_patch, transition_run}

pub data EpochExitReason : Type 0 where
  completed suspended_for_approval suspended_for_signal suspended_for_children : EpochExitReason
  budget_exhausted error failed lease_lost cancelled : EpochExitReason

unfoldable pub exit_reason_name : EpochExitReason → String
exit_reason_name completed = "completed"
exit_reason_name suspended_for_approval = "suspended_for_approval"
exit_reason_name suspended_for_signal = "suspended_for_signal"
exit_reason_name suspended_for_children = "suspended_for_children"
exit_reason_name budget_exhausted = "budget_exhausted"
exit_reason_name error = "error"
exit_reason_name failed = "failed"
exit_reason_name lease_lost = "lease_lost"
exit_reason_name cancelled = "cancelled"

abbrev pub running_options : RunAttemptRow → TransitionOptions
running_options attempt = record {
  expect_from = starting ∷ [];
  to = running;
  type = attempt_started;
  payload = ("phase", str "running") ∷ [];
  attempt_id = some attempt.id;
  reason = none;
  patch = no_patch;
}

-- The transaction of `executeClaimed` before the epoch.
unfoldable pub begin_execution : RunAttemptRow → RunRow → Tx RunRow
begin_execution attempt run = transition_run run.id (running_options attempt)

abbrev pub budget_options : RunAttemptRow → TransitionOptions
budget_options attempt = record {
  expect_from = running ∷ [];
  to = managed_agents_runtime.Core.Types.RunStatus.failed;
  type = run_failed;
  payload = ("reason", str "budget_exhausted") ∷ [];
  attempt_id = some attempt.id;
  reason = some "budget_exhausted";
  patch = no_patch;
}

abbrev pub exhausted_options : RunAttemptRow → TransitionOptions
exhausted_options attempt = record {
  expect_from = running ∷ starting ∷ verifying ∷ [];
  to = managed_agents_runtime.Core.Types.RunStatus.failed;
  type = run_failed;
  payload = ("reason", str "max_attempts_exhausted") ∷ [];
  attempt_id = some attempt.id;
  reason = some "max_attempts_exhausted";
  patch = no_patch;
}

abbrev pub retry_options : RunAttemptRow → TransitionOptions
retry_options attempt = record {
  expect_from = running ∷ starting ∷ verifying ∷ [];
  to = queued;
  type = retry_scheduled;
  payload = ("attemptNo", num attempt.attempt_no) ∷ [];
  attempt_id = some attempt.id;
  reason = none;
  patch = record no_patch { current_attempt_id = some none };
}

-- The `switch` on the exit reason, for an attempt that was still held.
unfoldable pub settle_owned : ℕ → ℕ → RunAttemptRow → EpochExitReason → Tx (Unit {0})
settle_owned max_attempts run_id attempt budget_exhausted = do
  _ ← transition_run run_id (budget_options attempt)
  pure tt
settle_owned max_attempts run_id attempt error =
    if leb max_attempts attempt.attempt_no
    then (do _ ← transition_run run_id (exhausted_options attempt); pure tt)
    else (do _ ← transition_run run_id (retry_options attempt); pure tt)
settle_owned max_attempts run_id attempt _ = pure tt

-- The transaction: the exit, and the switch unless the reaper was first.
unfoldable pub settle : ℕ → ℕ → RunAttemptRow → EpochExitReason → Tx (Unit {0})
unfolding settle_owned
settle max_attempts run_id attempt reason = do
  owned ← exit_attempt attempt.id (exit_reason_name reason)
  if owned then settle_owned max_attempts run_id attempt reason else pure tt

-- `lease_lost` leaves the run to the reaper.
unfoldable pub settle_attempt :
    ℕ → ℕ → RunAttemptRow → EpochExitReason → Db → Result (Unit {0}) × Db
unfolding settle with_transaction
settle_attempt max_attempts run_id attempt lease_lost db = (ok tt, db)
settle_attempt max_attempts run_id attempt reason db =
    with_transaction (settle max_attempts run_id attempt reason) db
