-- ===== src/Store/ModelUsage.antt =====
-- src/store/modelUsage.ts: the bracket around a model call.
pub mod Metering
use managed_agents_runtime.Prelude.{
  ℕ, ◌+◌, Bool, true, false, ◌&&◌, List, ◌∷◌, [], Option, none, some, if◌then◌else◌, ◌==◌, find,
  row,
}
use managed_agents_runtime.Json.{Payload, num, obj, field, end}
use managed_agents_runtime.Core.Types.{
  RunRow, running, status_eq, RunAttemptRow, is_active, model_invocation_started,
  model_invocation_completed,
}
use managed_agents_runtime.Store.Database.{Db, Tx, ok, ◌>>=◌, ◌>>◌, gets, pure, or_throw, message}
use managed_agents_runtime.Transition.{no_patch, append_event}

abbrev is_this : ℕ → Option ℕ → Bool
is_this id none = false
is_this id (some current) = current == id

abbrev pub is_active_attempt : Option RunAttemptRow → Bool
is_active_attempt none = false
is_active_attempt (some a) = is_active a.state

-- `run.status === 'RUNNING' && run.current_attempt_id === attemptId`.
abbrev pub is_running_as : ℕ → RunRow → Bool
is_running_as attempt_id r = status_eq r.status running && is_this attempt_id r.current_attempt_id

-- The query: the run, if it runs under this attempt, which is one of its own and active.
unfoldable pub owned_run : ℕ → ℕ → Db → Option RunRow
owned_run run_id attempt_id db =
    if managed_agents_runtime.Prelude.any
      (λ a. (a.id == attempt_id) && (a.run_id == run_id) && is_active a.state) db.attempts
    then find (λ r. (r.id == run_id) && is_running_as attempt_id r) db.runs
    else none

unfoldable pub begin_owned : ℕ → ℕ → ℕ → Option RunRow → Tx (Option RunRow)
begin_owned run_id attempt_id step none = pure none
begin_owned run_id attempt_id step (some run) = do
  _ ←
      append_event run_id model_invocation_started (("step", num step) ∷ []) (some attempt_id)
        no_patch
  pure (some run)

unfoldable pub begin_model_invocation : ℕ → ℕ → ℕ → Tx (Option RunRow)
unfolding begin_owned owned_run
begin_model_invocation run_id attempt_id step = do
  run ← gets (owned_run run_id attempt_id)
  begin_owned run_id attempt_id step run

pub record Usage : Type 0 where
  pub input_tokens : ℕ
  pub output_tokens : ℕ

pub record Metered : Type 0 where
  pub tokens_used : ℕ
  pub still_owned : Bool

-- `{ step: input.step, usage: input.usage }`.
abbrev pub usage_payload : ℕ → Usage → Payload
usage_payload step usage =
    ("step", num step)
    ∷ (
      "usage",
      obj (
          field "inputTokens" (num usage.input_tokens)
            (field "outputTokens" (num usage.output_tokens) end)),
    )
    ∷ []

abbrev pub charged : RunRow → Usage → ℕ
charged run usage = run.tokens_used + (usage.input_tokens + usage.output_tokens)

-- What follows once the run's row is locked.
unfoldable pub complete_locked : ℕ → ℕ → ℕ → Usage → RunRow → Tx Metered
complete_locked run_id attempt_id step usage run = do
  let tokens_used = charged run usage
  _ ←
      append_event run_id model_invocation_completed (usage_payload step usage) (some attempt_id)
        (record no_patch { tokens_used = some tokens_used })
  attempt ← gets (λ db. row RunAttemptRow.id attempt_id db.attempts)
  pure (record {
    tokens_used = tokens_used;
    still_owned = is_running_as attempt_id run && is_active_attempt attempt;
  })

unfoldable pub complete_model_invocation : ℕ → ℕ → ℕ → Usage → Tx Metered
unfolding complete_locked
complete_model_invocation run_id attempt_id step usage = do
  found ← gets (λ db. row RunRow.id run_id db.runs)
  run ← or_throw found (message "run missing while recording model usage")
  complete_locked run_id attempt_id step usage run
