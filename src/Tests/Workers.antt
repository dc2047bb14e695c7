-- ===== src/Tests/Workers.antt =====
-- The workers and the reaper on the small database.
use managed_agents_runtime.Prelude.{
  ℕ, ◌≡◌, ◌≢◌, ◌<◌, refl, Bool, true, List, ◌∷◌, [], none, some, row, arith, All, update_row, inl,
  inr, Some,
}
use managed_agents_runtime.Core.Types.{queued, starting, RunRow, RunAttemptRow, orphaned, active}
use managed_agents_runtime.Store.Database.{Db, ok}
use managed_agents_runtime.Transition.{lock_run, patched_run, write_transition, transition_run}
use managed_agents_runtime.Scheduler.Claim.{
  earliest, max_attempt_no, new_attempt, insert_attempt, claim_options, claim_found, claim_selected,
  claim_run,
}
use managed_agents_runtime.Scheduler.Claim.Exclusive.{
  IsTaken, IsNewAttempt, claim_run-starts, claim_run-exclusive,
}
use managed_agents_runtime.Scheduler.Reaper.{ReapOutcome, reap_attempt, requeued, Round}
use managed_agents_runtime.Scheduler.Reaper.Rounds.{
  IsReaped, reap_attempt-total, reap_attempt-stale,
}
use managed_agents_runtime.Scheduler.Settle.{error, settle_attempt}
use managed_agents_runtime.Scheduler.Settle.Outcome.{IsSettled, settle_attempt-error}
use managed_agents_runtime.Tests.Data.{
  run_one, run_two, blank_run, stale_attempt, live_attempt, db_zero,
}

abbrev any_row : ℕ → Bool
any_row id = true

abbrev claimed_attempt : RunAttemptRow
claimed_attempt = new_attempt 6 2 1 8 1000 100

abbrev claimed_two : RunRow
claimed_two = patched_run (claim_options 6 1 8) 2 100 run_two

abbrev db_claimed : Db
db_claimed =
    write_transition run_two (claim_options 6 1 8)
      (record db_zero { attempts = claimed_attempt ∷ db_zero.attempts })

claims : claim_run any_row 8 1000 6 db_zero ≡ ok (some (claimed_two, claimed_attempt), db_claimed)
unfolding claim_run claim_selected claim_found insert_attempt max_attempt_no earliest transition_run
    lock_run
claims = refl

claim_run-starts_example :
    (run_id : ℕ) × (run : RunRow) × (row RunRow.id run_id db_zero.runs ≡ some run)
    × (run.status ≡ queued)
    × Some (IsTaken any_row 100 run_id) db_zero.runs
    × (row RunRow.id run_id db_claimed.runs ≡ some claimed_two)
    × (claimed_two.status ≡ starting)
    × (claimed_two.current_attempt_id ≡ some 6)
    × IsNewAttempt 6 run_id 8 1000 100 claimed_attempt
    × (db_claimed.attempts ≡ claimed_attempt ∷ db_zero.attempts)
    × All (λ b. b.run_id ≡ run_id → b.attempt_no < 1) db_zero.attempts
claim_run-starts_example =
    claim_run-starts any_row 8 1000 6 db_zero claimed_two claimed_attempt db_claimed claims

none_left : claim_run any_row 8 1000 11 db_claimed ≡ ok (none, db_claimed)
unfolding claim_run claim_selected earliest write_transition patched_run
none_left = refl

abbrev run_four : RunRow
run_four = blank_run 4 queued 1

abbrev db_queue : Db
db_queue = record db_zero { runs = run_two ∷ run_four ∷ [] }

abbrev db_first : Db
db_first =
    write_transition run_two (claim_options 6 1 8)
      (record db_queue { attempts = claimed_attempt ∷ db_queue.attempts })

abbrev other_attempt : RunAttemptRow
other_attempt = new_attempt 12 4 1 13 1000 100

abbrev claimed_four : RunRow
claimed_four = patched_run (claim_options 12 1 13) 2 100 run_four

abbrev db_second : Db
db_second =
    write_transition run_four (claim_options 12 1 13)
      (record db_first { attempts = other_attempt ∷ db_first.attempts })

first_claim :
    claim_run any_row 8 1000 6 db_queue ≡ ok (some (claimed_two, claimed_attempt), db_first)
unfolding claim_run claim_selected claim_found insert_attempt max_attempt_no earliest transition_run
    lock_run
first_claim = refl

second_claim :
    claim_run any_row 13 1000 12 db_first ≡ ok (some (claimed_four, other_attempt), db_second)
unfolding claim_run claim_selected claim_found insert_attempt max_attempt_no earliest transition_run
    lock_run write_transition patched_run
second_claim = refl

claim_run-exclusive_example : claimed_attempt.run_id ≢ other_attempt.run_id
claim_run-exclusive_example =
    claim_run-exclusive any_row any_row 8 13 1000 1000 6 12 db_queue claimed_two claimed_attempt
      db_first claimed_four other_attempt db_second first_claim second_claim

reap_attempt-total_example :
    (outcome : ReapOutcome) × (db' : Db) × (r : RunRow) × (reap_attempt 2 live_attempt db_zero
      ≡ ok (outcome, db'))
    × (row RunRow.id 1 db'.runs ≡ some r)
    × IsReaped 2 live_attempt run_one outcome r
    × (db'.attempts
        ≡ update_row RunAttemptRow.id 5
            (λ a. record a { state = orphaned; exit_reason = some "lease_expired" })
            db_zero.attempts)
reap_attempt-total_example = reap_attempt-total 2 live_attempt run_one db_zero refl

reap_attempt-stale_example :
    (db' : Db) × (r : RunRow) × (reap_attempt 3 stale_attempt db_zero ≡ ok (requeued, db'))
    × (row RunRow.id 1 db'.runs ≡ some r)
    × (r.status ≡ queued)
    × (r.current_attempt_id ≡ none)
reap_attempt-stale_example =
    reap_attempt-stale 3 5 stale_attempt run_one db_zero refl refl refl (ground arith) (omega arith)

-- Before the second round another session inserts an attempt whose lease has expired.
abbrev quiet_round : Round
quiet_round = record { before = λ db. db; lock_free = any_row; row_free = any_row }

abbrev busy_round : Round
busy_round = record quiet_round {
  before = λ db. record db { attempts = stale_attempt ∷ db.attempts };
}

abbrev three_rounds : List Round
three_rounds = quiet_round ∷ busy_round ∷ quiet_round ∷ []

settle_attempt-error_example :
    (db' : Db) × (r : RunRow) × (settle_attempt 3 1 live_attempt error db_zero ≡ (ok tt, db'))
    × (row RunRow.id 1 db'.runs ≡ some r)
    × IsSettled 3 live_attempt r
    × All (λ a. a.id ≡ 5 → a.state ≢ active) db'.attempts
settle_attempt-error_example =
    settle_attempt-error 3 1 live_attempt run_one db_zero refl refl (inr (inl refl))
