-- ===== src/Scheduler/Settle/Outcome.antt =====
-- What `settleAttempt` of src/harness/worker.ts makes of a run, by the reason of the exit.
use managed_agents_runtime.Prelude.{
  ◌⊎◌, ◌≢◌, ◌≤◌, ◌<◌, leb→le, ap, List, All, none, ==_iff, ℕ, ◌+◌, ◌≡◌, refl, sym, ◌∷◌, [], true,
  false, some, arith, if◌then◌else◌, leb, any, row, Bool-cases, inl, inr,
}
use mathlib.Core.Path.{subst}
use managed_agents_runtime.Core.Types.{
  RunStatus, RunRow, queued, starting, running, verifying, RunAttemptRow, active, is_active,
}
use managed_agents_runtime.Core.StateMachine.{includes, is_transition_allowed}
use managed_agents_runtime.Store.Database.{Db, ok, ◌>>=◌, with_transaction, with_transaction-ok}
use managed_agents_runtime.Store.Attempts.{is_held, exit_attempt}
use managed_agents_runtime.Store.Attempts.Fencing.{exit_attempt-db, exit_attempt-held}
use managed_agents_runtime.Transition.{patched_run}
use managed_agents_runtime.Transition.Status.{transition_run-total}
use managed_agents_runtime.Scheduler.Reaper.{is_executing}
use managed_agents_runtime.Scheduler.Reaper.Rounds.{IsExecuting, IsExecuting-is_executing}
use managed_agents_runtime.Scheduler.Settle.{
  EpochExitReason, budget_exhausted, error, lease_lost, exit_reason_name, exhausted_options,
  retry_options, settle_owned, settle, settle_attempt,
}

executing-legal :
    (s : RunStatus)
    → is_executing s ≡ true
    → (includes (running ∷ starting ∷ verifying ∷ []) s ≡ true)
      × (is_transition_allowed s RunStatus.failed ≡ true)
      × (is_transition_allowed s queued ≡ true)
executing-legal starting h = (refl, refl, refl)
executing-legal running h = (refl, refl, refl)
executing-legal verifying h = (refl, refl, refl)
executing-legal _ h = absurd (cc)

-- The run after an epoch that ended in an error.
abbrev pub settled_run : ℕ → RunAttemptRow → ℕ → RunRow → RunRow
settled_run max_attempts attempt now run =
    if leb max_attempts attempt.attempt_no
    then patched_run (exhausted_options attempt) (run.last_event_seq + 1) now run
    else patched_run (retry_options attempt) (run.last_event_seq + 1) now run

settle_owned-error :
    (max_attempts run_id : ℕ) (attempt : RunAttemptRow) (run : RunRow) (db : Db)
    → row RunRow.id run_id db.runs ≡ some run
    → is_executing run.status ≡ true
    → (db' : Db) × (settle_owned max_attempts run_id attempt error db ≡ ok (tt, db'))
      × (row RunRow.id run_id db'.runs ≡ some (settled_run max_attempts attempt db.now run))
      × (db'.attempts ≡ db.attempts)
unfolding settle_owned
settle_owned-error max_attempts run_id attempt run db found executing =
    let (listed, may_fail, may_queue) = executing-legal run.status executing in
    elim (Bool-cases (leb max_attempts attempt.attempt_no)) [
      | inl last ↦
          let (db', moved, there, _, kept, _) =
            transition_run-total run_id (exhausted_options attempt) db run found listed may_fail in
          (db', rw (last, moved, ◌>>=◌), rw last there, kept)
      | inr more ↦
          let (db', moved, there, _, kept, _) =
            transition_run-total run_id (retry_options attempt) db run found listed may_queue in
          (db', rw (more, moved, ◌>>=◌), rw more there, kept)
    ]

-- The run that is left of `run` when an epoch ended in an error.
abbrev pub IsSettled : ℕ → RunAttemptRow → RunRow → Type 0
IsSettled max_attempts attempt r =
    ((max_attempts ≤ attempt.attempt_no)
      × (r.status ≡ RunStatus.failed)
      × (r.status_reason ≡ some "max_attempts_exhausted"))
    ⊎ ((attempt.attempt_no < max_attempts) × (r.status ≡ queued) × (r.current_attempt_id ≡ none))

settled_run-IsSettled :
    (max_attempts : ℕ) (attempt : RunAttemptRow) (now : ℕ) (run : RunRow)
    → IsSettled max_attempts attempt (settled_run max_attempts attempt now run)
unfolding patched_run
settled_run-IsSettled max_attempts attempt now run =
    elim (Bool-cases (leb max_attempts attempt.attempt_no)) [
      | inl last ↦ inl (leb→le _ _ last, rw last, rw last)
      | inr more ↦ inr (ground arith, rw more, rw more)
    ]

not_held :
    (id : ℕ) (attempts : List RunAttemptRow)
    → any (is_held id) attempts ≡ false
    → All (λ a. a.id ≡ id → a.state ≢ active) attempts
not_held id [] h = tt
not_held id (a ∷ rest) h = (
  λ named is.
      let same = (==_iff a.id id).1 named in
      let still : is_active a.state ≡ true = ap is_active is in
      let held : is_held id a ≡ true = rw (same, still) in cc,
  not_held id rest (ground arith),
)

-- An epoch that ended in an error, under an attempt that is still held: the settlement succeeds, the
-- attempt is active no more, and the run, which was executing, fails if this was the last attempt
-- allowed and is queued again with no current attempt otherwise.
pub settle_attempt-error :
    (max_attempts run_id : ℕ) (attempt : RunAttemptRow) (run : RunRow) (db : Db)
    → any (is_held attempt.id) db.attempts ≡ true
    → row RunRow.id run_id db.runs ≡ some run
    → IsExecuting run.status
    → (db' : Db) × (r : RunRow) × (settle_attempt max_attempts run_id attempt error db
        ≡ (ok tt, db'))
      × (row RunRow.id run_id db'.runs ≡ some r)
      × IsSettled max_attempts attempt r
      × All (λ a. a.id ≡ attempt.id → a.state ≢ active) db'.attempts
unfolding settle_attempt
settle_attempt-error max_attempts run_id attempt run db held found executing =
    let (mid, left, same_runs, same_now) =
      exit_attempt-held attempt.id (exit_reason_name error) db held in
    let still = subst (λ l. row RunRow.id run_id l ≡ some run) (sym same_runs) found in
    let (db', done, there, kept) =
      settle_owned-error max_attempts run_id attempt run mid still
        (IsExecuting-is_executing run.status executing) in
    let gone = exit_attempt-db attempt.id (exit_reason_name error) db true mid left in
    (
      db',
      settled_run max_attempts attempt mid.now run,
      with_transaction-ok (settle max_attempts run_id attempt error) db tt db'
          (unfold settle in rw (left, ◌>>=◌) done),
      there,
      settled_run-IsSettled max_attempts attempt mid.now run,
      not_held attempt.id db'.attempts (rw kept gone),
    )

-- A settlement leaves every run as it is if the epoch ended for another reason than an exhausted
-- budget or an error, and for any reason if the attempt is no longer held.
pub settle_attempt-quiet :
    (max_attempts run_id : ℕ) (attempt : RunAttemptRow) (reason : EpochExitReason) (db : Db)
    → ((reason ≡ budget_exhausted → ⊥) × (reason ≡ error → ⊥))
      ⊎ (any (is_held attempt.id) db.attempts ≡ false)
    → (settle_attempt max_attempts run_id attempt reason db).1.runs ≡ db.runs
unfolding settle_attempt settle settle_owned exit_attempt with_transaction
settle_attempt-quiet max_attempts run_id attempt lease_lost db h = refl
settle_attempt-quiet max_attempts run_id attempt reason db h = ground arith
