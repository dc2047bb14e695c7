-- ===== src/Scheduler/Claim.antt =====
-- src/scheduler/claim.ts: one worker claims one queued run.
pub mod Exclusive
use managed_agents_runtime.Prelude.{
  ℕ, ◌+◌, ◌≡◌, String, Bool, true, false, not, ◌&&◌, List, ◌∷◌, [], Option, none, some,
  if◌then◌else◌, leb, ltb, ◌==◌, any, max,
}
use managed_agents_runtime.Json.{num, Payload}
use managed_agents_runtime.Core.Types.{
  RunRow, queued, starting, status_eq, attempt_started, RunAttemptRow, active,
}
use managed_agents_runtime.Store.Database.{
  Db, Tx, pure, ◌>>=◌, ◌>>◌, modify, gets, throw_if, duplicate_key,
}
use managed_agents_runtime.Transition.{TransitionOptions, no_patch, transition_run}

abbrev pub is_due : Option ℕ → ℕ → Bool
is_due none now = true
is_due (some at) now = leb at now

-- `free` says which rows no other transaction has locked (SKIP LOCKED).
abbrev pub is_claimable : (ℕ → Bool) → ℕ → RunRow → Bool
is_claimable free now r = status_eq r.status queued && is_due r.scheduled_for now && free r.id

abbrev pub earlier_of : RunRow → Option RunRow → RunRow
earlier_of r none = r
earlier_of r (some best) = if leb r.updated_at best.updated_at then r else best

-- `ORDER BY updated_at ASC LIMIT 1`.
unfoldable pub earliest : (RunRow → Bool) → List RunRow → Option RunRow
earliest p [] = none
earliest p (r ∷ rest) = if p r then some (earlier_of r (earliest p rest)) else earliest p rest

-- `COALESCE(MAX(attempt_no), 0)` over the run's attempts.
unfoldable pub max_attempt_no : ℕ → List RunAttemptRow → ℕ
max_attempt_no run_id [] = 0
max_attempt_no run_id (a ∷ rest) =
    if a.run_id == run_id
    then max a.attempt_no (max_attempt_no run_id rest)
    else max_attempt_no run_id rest

abbrev pub new_attempt : ℕ → ℕ → ℕ → ℕ → ℕ → ℕ → RunAttemptRow
new_attempt id run_id attempt_no worker_id lease_ttl_ms now = record {
  id = id;
  run_id = run_id;
  attempt_no = attempt_no;
  worker_id = worker_id;
  state = active;
  lease_expires_at = now + lease_ttl_ms;
  heartbeat_at = now;
  sandbox_id = none;
  sandbox_domain = none;
  started_from_checkpoint_id = none;
  exit_reason = none;
  created_at = now;
}

-- The INSERT, with the PRIMARY KEY of the table.
unfoldable pub insert_attempt : RunAttemptRow → Tx RunAttemptRow
insert_attempt a = do
  taken ← gets (λ db. any (λ b. b.id == a.id) db.attempts)
  throw_if taken duplicate_key
  modify (λ db. record db { attempts = a ∷ db.attempts })
  pure a

abbrev pub claim_options : ℕ → ℕ → ℕ → TransitionOptions
claim_options attempt_id attempt_no worker_id = record {
  expect_from = queued ∷ [];
  to = starting;
  type = attempt_started;
  payload = ("attemptNo", num attempt_no) ∷ ("workerId", num worker_id) ∷ [];
  attempt_id = some attempt_id;
  reason = none;
  patch = record no_patch { current_attempt_id = some (some attempt_id) };
}

-- The rest of the transaction, once a run was selected.
unfoldable pub claim_found : ℕ → ℕ → ℕ → RunRow → Tx (RunRow × RunAttemptRow)
unfolding insert_attempt max_attempt_no
claim_found worker_id lease_ttl_ms attempt_id found = do
  db ← gets (λ db. db)
  let attempt_no = max_attempt_no found.id db.attempts + 1
  attempt ←
      insert_attempt (new_attempt attempt_id found.id attempt_no worker_id lease_ttl_ms db.now)
  run ← transition_run found.id (claim_options attempt_id attempt_no worker_id)
  pure (run, attempt)

unfoldable pub claim_selected : ℕ → ℕ → ℕ → Option RunRow → Tx (Option (RunRow × RunAttemptRow))
claim_selected worker_id lease_ttl_ms attempt_id none = pure none
claim_selected worker_id lease_ttl_ms attempt_id (some found) = do
  claimed ← claim_found worker_id lease_ttl_ms attempt_id found
  pure (some claimed)

-- `attempt_id` is what `newId('att')` returns.
unfoldable pub claim_run : (ℕ → Bool) → ℕ → ℕ → ℕ → Tx (Option (RunRow × RunAttemptRow))
unfolding claim_selected
claim_run free worker_id lease_ttl_ms attempt_id = do
  found ← gets (λ db. earliest (is_claimable free db.now) db.runs)
  claim_selected worker_id lease_ttl_ms attempt_id found
