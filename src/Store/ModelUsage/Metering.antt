-- ===== src/Store/ModelUsage/Metering.antt =====
-- What the bracket of src/store/modelUsage.ts charges to a run.
use managed_agents_runtime.Prelude.{
  ℕ, ◌+◌, ◌≡◌, refl, sym, ap, ◌∙◌, true, false, ◌&&◌, ◌++◌, ◌∷◌, [], Option, some, arith, ==_refl,
  row, row-update_row, row-own, row-key, some_injective, Option-cases, Bool-cases, ◌⊎◌, inl, inr,
}
use mathlib.Core.Path.{subst}
use managed_agents_runtime.Json.{Payload, num, obj, field, end}
use managed_agents_runtime.Core.Types.{RunRow, RunAttemptRow, RunEventRow, EventType}
use managed_agents_runtime.Store.Database.{Db, ok, >>=-eq-ok}
use managed_agents_runtime.Store.ModelUsage.{
  Usage, Metered, charged, usage_payload, complete_locked, is_active_attempt,
  complete_model_invocation, is_running_as,
}
use managed_agents_runtime.Transition.{
  Patch, no_patch, append_event, write_event, appended_run, insert_event, update_run,
}
use managed_agents_runtime.Transition.Frame.{append_event-eq-ok}

write_event-row :
    (run : RunRow) (type : EventType) (payload : Payload) (attempt_id : Option ℕ) (patch : Patch)
    (db : Db)
    → row RunRow.id run.id db.runs ≡ some run
    → row RunRow.id run.id (write_event run type payload attempt_id patch db).runs
      ≡ some (appended_run patch (run.last_event_seq + 1) db.now run)
unfolding write_event update_run appended_run insert_event
write_event-row run type payload attempt_id patch db found =
    row-update_row RunRow.id run.id run.id (appended_run patch (run.last_event_seq + 1) db.now)
      db.runs (λ x. refl)
    ∙ rw (==_refl run.id, found)

append_event-row :
    (run_id : ℕ) (type : EventType) (payload : Payload) (attempt_id : Option ℕ) (patch : Patch)
    (db : Db) (run : RunRow) (seq : ℕ) (db' : Db)
    → row RunRow.id run_id db.runs ≡ some run
    → append_event run_id type payload attempt_id patch db ≡ ok (seq, db')
    → row RunRow.id run_id db'.runs ≡ some (appended_run patch (run.last_event_seq + 1) db.now run)
append_event-row run_id type payload attempt_id patch db run seq db' found h =
    let (run', found', _, e) =
      append_event-eq-ok run_id type payload attempt_id patch db seq db' h in
    let same = some_injective run' run (sym found' ∙ found) in
    let here =
      write_event-row run type payload attempt_id patch db
        (row-own RunRow.id run_id db.runs run found) in
    subst
      (λ d.
        row RunRow.id run_id d.runs ≡ some (appended_run patch (run.last_event_seq + 1) db.now run))
      (sym (e ∙ ap (λ r. write_event r type payload attempt_id patch db) same))
      (subst
        (λ k.
          row RunRow.id k (write_event run type payload attempt_id patch db).runs
          ≡ some (appended_run patch (run.last_event_seq + 1) db.now run))
        (row-key RunRow.id run_id db.runs run found) here)

complete_model_invocation-eq-ok :
    (run_id attempt_id step : ℕ) (usage : Usage) (db : Db) (m : Metered) (db' : Db)
    → complete_model_invocation run_id attempt_id step usage db ≡ ok (m, db')
    → (before : RunRow) × (row RunRow.id run_id db.runs ≡ some before)
      × (complete_locked run_id attempt_id step usage before db ≡ ok (m, db'))
unfolding complete_model_invocation
complete_model_invocation-eq-ok run_id attempt_id step usage db m db' h =
    elim (Option-cases (row RunRow.id run_id db.runs)) [
      | inl gone ↦ let h' = rw gone at h in absurd (cc)
      | inr (before, found) ↦ let h' = rw found at h in (before, found, h')
    ]

complete_locked-eq-ok :
    (run_id attempt_id step : ℕ) (usage : Usage) (run : RunRow) (db : Db) (m : Metered) (db' : Db)
    → complete_locked run_id attempt_id step usage run db ≡ ok (m, db')
    → (seq : ℕ) × (append_event run_id EventType.model_invocation_completed
          (usage_payload step usage)
          (some attempt_id)
          (record no_patch { tokens_used = some (charged run usage) })
          db
        ≡ ok (seq, db'))
      × (m.tokens_used ≡ charged run usage)
      × ((m.still_owned ≡ false) ⊎ (is_running_as attempt_id run ≡ true))
unfolding complete_locked
complete_locked-eq-ok run_id attempt_id step usage run db m db' h =
    let (seq, mid, appended, rest) =
      >>=-eq-ok
        (append_event run_id EventType.model_invocation_completed (usage_payload step usage)
          (some attempt_id) (record no_patch { tokens_used = some (charged run usage) }))
        (λ _ db. ok (
          record {
            tokens_used = charged run usage;
            still_owned =
                is_running_as attempt_id run
                && is_active_attempt (row RunAttemptRow.id attempt_id db.attempts);
          },
          db,
        ))
        db h in
    let same : mid ≡ db' = ground arith in
    (
      seq,
      subst
          (λ d.
            append_event run_id EventType.model_invocation_completed (usage_payload step usage)
              (some attempt_id) (record no_patch { tokens_used = some (charged run usage) }) db
            ≡ ok (seq, d))
          same appended,
      ground arith,
      elim (Bool-cases (is_running_as attempt_id run)) [
        | inl owned ↦ inr owned
        | inr lost ↦ inl (ground arith)
      ],
    )

-- The event that records the usage of a model call.
abbrev pub usage_event : ℕ → ℕ → ℕ → Usage → ℕ → ℕ → RunEventRow
usage_event run_id attempt_id step usage seq now = record {
  run_id = run_id;
  seq = seq;
  type = EventType.model_invocation_completed;
  payload =
      ("step", num step)
      ∷ (
        "usage",
        obj (
            field "inputTokens" (num usage.input_tokens)
              (field "outputTokens" (num usage.output_tokens) end)),
      )
      ∷ [];
  attempt_id = some attempt_id;
  created_at = now;
}

append_event-events :
    (run_id : ℕ) (type : EventType) (payload : Payload) (attempt_id : Option ℕ) (patch : Patch)
    (db : Db) (run : RunRow) (seq : ℕ) (db' : Db)
    → row RunRow.id run_id db.runs ≡ some run
    → append_event run_id type payload attempt_id patch db ≡ ok (seq, db')
    → db'.events
      ≡ db.events
        ++ record {
          run_id = run_id;
          seq = run.last_event_seq + 1;
          type = type;
          payload = payload;
          attempt_id = attempt_id;
          created_at = db.now;
        }
          ∷ []
unfolding write_event insert_event update_run
append_event-events run_id type payload attempt_id patch db run seq db' found h =
    let (run', found', _, e) =
      append_event-eq-ok run_id type payload attempt_id patch db seq db' h in
    let same = some_injective run' run (sym found' ∙ found) in
    let own = row-key RunRow.id run_id db.runs run found in
    ap (λ d. d.events) e
    ∙ ap (λ r. (write_event r type payload attempt_id patch db).events) same
    ∙ ap
        (λ k.
          db.events
          ++ record {
            run_id = k;
            seq = run.last_event_seq + 1;
            type = type;
            payload = payload;
            attempt_id = attempt_id;
            created_at = db.now;
          }
            ∷ [])
        own

-- A completed model call is charged to the run in full, whoever holds the run by then: its tokens are
-- added to the total that the row had, and the event that records the usage is appended with the
-- next sequence number, under the attempt that made the call. What the call returns is the new total; it says that the attempt still owns
-- the run only if the run was RUNNING under it.
pub complete_model_invocation-adds :
    (run_id attempt_id step : ℕ) (usage : Usage) (db : Db) (m : Metered) (db' : Db)
    → complete_model_invocation run_id attempt_id step usage db ≡ ok (m, db')
    → (before after : RunRow) × (row RunRow.id run_id db.runs ≡ some before)
      × (row RunRow.id run_id db'.runs ≡ some after)
      × (after.tokens_used ≡ before.tokens_used + (usage.input_tokens + usage.output_tokens))
      × (after.last_event_seq ≡ before.last_event_seq + 1)
      × (db'.events
          ≡ db.events
            ++ usage_event run_id attempt_id step usage (before.last_event_seq + 1) db.now ∷ [])
      × (m.tokens_used ≡ after.tokens_used)
      × ((m.still_owned ≡ false) ⊎ (is_running_as attempt_id before ≡ true))
unfolding appended_run
complete_model_invocation-adds run_id attempt_id step usage db m db' h =
    let (before, found, locked) =
      complete_model_invocation-eq-ok run_id attempt_id step usage db m db' h in
    let (seq, appended, total, own) =
      complete_locked-eq-ok run_id attempt_id step usage before db m db' locked in
    let patch : Patch = record no_patch { tokens_used = some (charged before usage) } in
    let after = appended_run patch (before.last_event_seq + 1) db.now before in
    let stored =
      append_event-row run_id EventType.model_invocation_completed (usage_payload step usage)
        (some attempt_id) patch db before seq db' found appended in
    let logged =
      append_event-events run_id EventType.model_invocation_completed (usage_payload step usage)
        (some attempt_id) patch db before seq db' found appended in
    (before, after, found, stored, refl, refl, logged, total, own)
