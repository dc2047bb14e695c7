-- ===== src/Scheduler/Reaper/Rounds.antt =====
-- One round of src/scheduler/reaper.ts: what becomes of an expired attempt and of its run.
use managed_agents_runtime.Prelude.{
  ℕ, ◌+◌, ◌<◌, ◌≡◌, refl, ◌∙◌, ◌≢◌, ◌⊎◌, ◌≤◌, ap, leb→le, update_row, true, false, not, none, some,
  arith, if◌then◌else◌, leb, row, Bool-cases, inl, inr,
}
use managed_agents_runtime.Core.Types.{
  RunStatus, RunRow, queued, starting, running, verifying, RunAttemptRow, orphaned,
}
use managed_agents_runtime.Core.StateMachine.{includes, is_transition_allowed}
use managed_agents_runtime.Store.Database.{Db, ok, err, message, ◌>>=◌}
use managed_agents_runtime.Transition.{patched_run}
use managed_agents_runtime.Transition.Status.{transition_run-total}
use managed_agents_runtime.Scheduler.Reaper.{
  ReapOutcome, requeued, failed, is_executing, execution_statuses, fail_options, requeue_options,
  orphan_attempt, settle_orphan, reap_attempt,
}

executing-legal :
    (s : RunStatus)
    → is_executing s ≡ true
    → (includes execution_statuses s ≡ true)
      × (is_transition_allowed s RunStatus.failed ≡ true)
      × (is_transition_allowed s queued ≡ true)
executing-legal starting h = (refl, refl, refl)
executing-legal running h = (refl, refl, refl)
executing-legal verifying h = (refl, refl, refl)
executing-legal _ h = absurd (cc)

-- What a round leaves of the attempt's run, by the run's status and the attempt's number.
abbrev pub reaped_run : ℕ → RunAttemptRow → ℕ → RunRow → RunRow
reaped_run max_attempts attempt now run =
    if not (is_executing run.status)
    then run
    else if leb max_attempts attempt.attempt_no
    then patched_run (fail_options attempt) (run.last_event_seq + 1) now run
    else patched_run (requeue_options attempt) (run.last_event_seq + 1) now run

abbrev pub reap_outcome : ℕ → RunAttemptRow → RunRow → ReapOutcome
reap_outcome max_attempts attempt run =
    if not (is_executing run.status)
    then requeued
    else if leb max_attempts attempt.attempt_no
    then failed
    else requeued

settle_orphan-total :
    (max_attempts : ℕ) (attempt : RunAttemptRow) (run : RunRow) (db : Db)
    → row RunRow.id attempt.run_id db.runs ≡ some run
    → (db' : Db) × (settle_orphan max_attempts attempt run db
        ≡ ok (reap_outcome max_attempts attempt run, db'))
      × (row RunRow.id attempt.run_id db'.runs ≡ some (reaped_run max_attempts attempt db.now run))
      × (db'.attempts ≡ db.attempts)
      × (db'.now ≡ db.now)
unfolding settle_orphan
settle_orphan-total max_attempts attempt run db found =
    elim (Bool-cases (is_executing run.status)) [
      | inr elsewhere ↦ (db, rw elsewhere, rw elsewhere found, refl, refl)
      | inl executing ↦
          let (listed, may_fail, may_queue) = executing-legal run.status executing in
          elim (Bool-cases (leb max_attempts attempt.attempt_no)) [
            | inl last ↦
                let (db', moved, there, _, kept, clock) =
                  transition_run-total attempt.run_id (fail_options attempt) db run found listed
                    may_fail in
                (db', rw (executing, last, moved, ◌>>=◌), rw (executing, last) there, kept, clock)
            | inr more ↦
                let (db', moved, there, _, kept, clock) =
                  transition_run-total attempt.run_id (requeue_options attempt) db run found listed
                    may_queue in
                (db', rw (executing, more, moved, ◌>>=◌), rw (executing, more) there, kept, clock)
          ]
    ]

-- What a round leaves, in terms of `reaped_run`.
pub reap_attempt_rows :
    (max_attempts : ℕ) (attempt : RunAttemptRow) (run : RunRow) (db : Db)
    → row RunRow.id attempt.run_id db.runs ≡ some run
    → (db' : Db) × (reap_attempt max_attempts attempt db
        ≡ ok (reap_outcome max_attempts attempt run, db'))
      × (row RunRow.id attempt.run_id db'.runs ≡ some (reaped_run max_attempts attempt db.now run))
      × (db'.attempts ≡ (orphan_attempt attempt.id db).attempts)
      × (db'.now ≡ db.now)
unfolding reap_attempt
reap_attempt_rows max_attempts attempt run db found =
    let (db', moved, there, kept, clock) =
      settle_orphan-total max_attempts attempt run (orphan_attempt attempt.id db) found in
    (db', rw (found, ◌>>=◌) moved, there, kept, unfold orphan_attempt in clock)

-- The statuses of a run that an attempt executes.
abbrev pub IsExecuting : RunStatus → Type 0
IsExecuting s = (s ≡ starting) ⊎ (s ≡ running) ⊎ (s ≡ verifying)

pub is_executing-IsExecuting : (s : RunStatus) → is_executing s ≡ true → IsExecuting s
is_executing-IsExecuting starting h = inl refl
is_executing-IsExecuting running h = inr (inl refl)
is_executing-IsExecuting verifying h = inr (inr refl)
is_executing-IsExecuting _ h = absurd (cc)

pub IsExecuting-is_executing : (s : RunStatus) → IsExecuting s → is_executing s ≡ true
IsExecuting-is_executing s (inl e) = ap is_executing e
IsExecuting-is_executing s (inr (inl e)) = ap is_executing e
IsExecuting-is_executing s (inr (inr e)) = ap is_executing e

-- The run `r` and the outcome that a round leaves of `run`.
abbrev pub IsReaped : ℕ → RunAttemptRow → RunRow → ReapOutcome → RunRow → Type 0
IsReaped max_attempts attempt run outcome r =
    (IsExecuting run.status
      × (max_attempts ≤ attempt.attempt_no)
      × (outcome ≡ failed)
      × (r.status ≡ RunStatus.failed)
      × (r.status_reason ≡ some "max_attempts_exhausted"))
    ⊎ (IsExecuting run.status
        × (attempt.attempt_no < max_attempts)
        × (outcome ≡ requeued)
        × (r.status ≡ queued)
        × (r.current_attempt_id ≡ none))
    ⊎ ((IsExecuting run.status → ⊥) × (outcome ≡ requeued) × (r ≡ run))

reaped_run-IsReaped :
    (max_attempts : ℕ) (attempt : RunAttemptRow) (now : ℕ) (run : RunRow)
    → IsReaped max_attempts attempt run
        (reap_outcome max_attempts attempt run)
        (reaped_run max_attempts attempt now run)
unfolding patched_run
reaped_run-IsReaped max_attempts attempt now run = elim (Bool-cases (is_executing run.status)) [
  | inr elsewhere ↦ inr (
      inr (
        λ executing. let yes = IsExecuting-is_executing run.status executing in absurd (cc),
        rw elsewhere,
        rw elsewhere,
      ))
  | inl executing ↦
      let status = is_executing-IsExecuting run.status executing in
      elim (Bool-cases (leb max_attempts attempt.attempt_no)) [
        | inl last ↦ inl (
          status,
          leb→le _ _ last,
          rw (executing, last),
          rw (executing, last),
          rw (executing, last),
        )
        | inr more ↦ inr (
            inl (
              status,
              ground arith,
              rw (executing, more),
              rw (executing, more),
              rw (executing, more),
            ))
      ]
]

-- A round never fails on an attempt whose run exists. The attempt is orphaned. The run fails if it was
-- executing and the attempt was the last one allowed, is queued again with no current attempt if it
-- was executing under an earlier one, and is left as it was if it was in any other status.
pub reap_attempt-total :
    (max_attempts : ℕ) (attempt : RunAttemptRow) (run : RunRow) (db : Db)
    → row RunRow.id attempt.run_id db.runs ≡ some run
    → (outcome : ReapOutcome) × (db' : Db) × (r : RunRow) × (reap_attempt max_attempts attempt db
        ≡ ok (outcome, db'))
      × (row RunRow.id attempt.run_id db'.runs ≡ some r)
      × IsReaped max_attempts attempt run outcome r
      × (db'.attempts
          ≡ update_row RunAttemptRow.id attempt.id
              (λ a. record a { state = orphaned; exit_reason = some "lease_expired" })
              db.attempts)
unfolding orphan_attempt
reap_attempt-total max_attempts attempt run db found =
    let (db', done, there, kept, _) = reap_attempt_rows max_attempts attempt run db found in
    (
      reap_outcome max_attempts attempt run,
      db',
      reaped_run max_attempts attempt db.now run,
      done,
      there,
      reaped_run-IsReaped max_attempts attempt db.now run,
      kept,
    )

pub reap_attempt-missing :
    (max_attempts : ℕ) (attempt : RunAttemptRow) (db : Db)
    → row RunRow.id attempt.run_id db.runs ≡ none
    → reap_attempt max_attempts attempt db ≡ err (message "run of an attempt is missing")
unfolding reap_attempt
reap_attempt-missing max_attempts attempt db missing = rw (missing, ◌>>=◌)

-- The round looks at the run's status only, not at its current attempt: a stale attempt, whose run is
-- meanwhile executing under another attempt, takes the run away from that attempt. It is queued again
-- with no current attempt, although the lease of the other attempt may still run.
pub reap_attempt-stale :
    (max_attempts other : ℕ) (attempt : RunAttemptRow) (run : RunRow) (db : Db)
    → row RunRow.id attempt.run_id db.runs ≡ some run
    → is_executing run.status ≡ true
    → run.current_attempt_id ≡ some other
    → other ≢ attempt.id
    → attempt.attempt_no < max_attempts
    → (db' : Db) × (r : RunRow) × (reap_attempt max_attempts attempt db ≡ ok (requeued, db'))
      × (row RunRow.id attempt.run_id db'.runs ≡ some r)
      × (r.status ≡ queued)
      × (r.current_attempt_id ≡ none)
reap_attempt-stale max_attempts other attempt run db found executing current stale early =
    let (db', done, there, _, _) = reap_attempt_rows max_attempts attempt run db found in
    let more : leb max_attempts attempt.attempt_no ≡ false = ground arith in
    (
      db',
      patched_run (requeue_options attempt) (run.last_event_seq + 1) db.now run,
      done ∙ (rw (executing, more)),
      there ∙ (rw (executing, more)),
      unfold patched_run in refl,
      unfold patched_run in refl,
    )
