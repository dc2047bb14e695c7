-- ===== src/Scheduler/Reaper.antt =====
-- src/scheduler/reaper.ts: attempts whose lease has expired.
pub mod Rounds
pub mod Loop
use managed_agents_runtime.Prelude.{
  ℕ, ◌+◌, String, Bool, true, false, not, ◌&&◌, ◌||◌, List, ◌∷◌, [], ◌++◌, Option, none, some,
  if◌then◌else◌, leb, ltb, ◌==◌, find, filter, row, update_row,
}
use managed_agents_runtime.Json.{num, str, Payload}
use managed_agents_runtime.Core.Types.{
  RunStatus, RunRow, queued, starting, running, verifying, run_failed, attempt_orphaned,
  RunAttemptRow, orphaned, is_active,
}
use managed_agents_runtime.Store.Database.{
  Db, Tx, Result, ok, err, Error, message, pure, ◌>>=◌, ◌>>◌, modify, gets, or_throw,
  with_transaction,
}
use managed_agents_runtime.Transition.{TransitionOptions, no_patch, transition_run}

pub data ReapOutcome : Type 0 where
  requeued failed : ReapOutcome

abbrev pub is_expired : ℕ → RunAttemptRow → Bool
is_expired now a = is_active a.state && ltb a.lease_expires_at now

abbrev is_before : RunAttemptRow → RunAttemptRow → Bool
is_before a b =
    ltb a.lease_expires_at b.lease_expires_at
    || (a.lease_expires_at == b.lease_expires_at && leb a.id b.id)

unfoldable pub insert_by_lease : RunAttemptRow → List RunAttemptRow → List RunAttemptRow
insert_by_lease a [] = a ∷ []
insert_by_lease a (b ∷ rest) = if is_before a b then a ∷ b ∷ rest else b ∷ insert_by_lease a rest

-- `ORDER BY lease_expires_at ASC, id`.
unfoldable pub sort_by_lease : List RunAttemptRow → List RunAttemptRow
unfolding insert_by_lease
sort_by_lease [] = []
sort_by_lease (a ∷ rest) = insert_by_lease a (sort_by_lease rest)

-- The loop over the candidates. `lock_free run_id` is what `pg_try_advisory_xact_lock` answers, and
-- `row_free` says which attempt rows no other transaction has locked (SKIP LOCKED).
unfoldable pub pick_expired : (ℕ → Bool) → (ℕ → Bool) → Db → Option RunAttemptRow
unfolding sort_by_lease
pick_expired lock_free row_free db =
    find (λ a. lock_free a.run_id && row_free a.id)
      (sort_by_lease (filter (is_expired db.now) db.attempts))

unfoldable pub orphan_attempt : ℕ → Db → Db
orphan_attempt attempt_id db = record db {
  attempts =
      update_row RunAttemptRow.id attempt_id
        (λ a. record a { state = orphaned; exit_reason = some "lease_expired" }) db.attempts;
}

abbrev pub execution_statuses : List RunStatus
execution_statuses = starting ∷ running ∷ verifying ∷ []

-- `status === 'STARTING' || status === 'RUNNING' || status === 'VERIFYING'`.
abbrev pub is_executing : RunStatus → Bool
is_executing starting = true
is_executing running = true
is_executing verifying = true
is_executing _ = false

abbrev pub fail_options : RunAttemptRow → TransitionOptions
fail_options attempt = record {
  expect_from = execution_statuses;
  to = RunStatus.failed;
  type = run_failed;
  payload = ("reason", str "max_attempts_exhausted") ∷ ("attemptNo", num attempt.attempt_no) ∷ [];
  attempt_id = some attempt.id;
  reason = some "max_attempts_exhausted";
  patch = no_patch;
}

abbrev pub requeue_options : RunAttemptRow → TransitionOptions
requeue_options attempt = record {
  expect_from = execution_statuses;
  to = queued;
  type = attempt_orphaned;
  payload = ("attemptNo", num attempt.attempt_no) ∷ ("workerId", num attempt.worker_id) ∷ [];
  attempt_id = some attempt.id;
  reason = none;
  patch = record no_patch { current_attempt_id = some none };
}

-- The end of a round: what becomes of the attempt's run.
unfoldable pub settle_orphan : ℕ → RunAttemptRow → RunRow → Tx ReapOutcome
settle_orphan max_attempts attempt run =
    if not (is_executing run.status)
    then pure requeued
    else if leb max_attempts attempt.attempt_no
    then (do _ ← transition_run attempt.run_id (fail_options attempt); pure failed)
    else (do _ ← transition_run attempt.run_id (requeue_options attempt); pure requeued)

-- One round after its attempt was picked. A missing run is `runRows[0]!` of no rows, a TypeError.
unfoldable pub reap_attempt : ℕ → RunAttemptRow → Tx ReapOutcome
unfolding settle_orphan orphan_attempt
reap_attempt max_attempts attempt = do
  modify (orphan_attempt attempt.id)
  found ← gets (λ db. row RunRow.id attempt.run_id db.runs)
  run ← or_throw found (message "run of an attempt is missing")
  settle_orphan max_attempts attempt run

abbrev pub Reaped : Type 0
Reaped = RunAttemptRow × ReapOutcome

-- What a round finds: the database after the steps that other sessions and the clock took before it,
-- and the locks that it can have.
pub record Round : Type 0 where
  pub before : Db → Db
  pub lock_free : ℕ → Bool
  pub row_free : ℕ → Bool

-- The `for (;;)` of the reaper, one transaction to a round; `none` is that it goes on after the rounds
-- of the list. The result comes with the last round.
unfoldable pub reap_from :
    ℕ → List Round → Db → List Reaped → Option (Result (List Reaped) × Round × Db)
unfolding reap_attempt pick_expired
reap_from max_attempts [] db reaped = none
reap_from max_attempts (round ∷ rounds) db reaped =
    let found = round.before db in
    elim (pick_expired round.lock_free round.row_free found) [
      | none ↦ some (ok reaped, round, found)
      | some attempt ↦
          let (result, db') = with_transaction (reap_attempt max_attempts attempt) found in
          elim result [
            | ok outcome ↦ reap_from max_attempts rounds db' (reaped ++ (attempt, outcome) ∷ [])
            | err e ↦ some (err e, round, db')
          ]
    ]
