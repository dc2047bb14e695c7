-- ===== src/Store/Attempts.antt =====
-- src/store/attempts.ts: the attempts of a run and their leases.
pub mod Fencing
use managed_agents_runtime.Prelude.{
  ℕ, ◌+◌, String, Bool, true, false, ◌&&◌, List, ◌∷◌, [], Option, none, some, if◌then◌else◌, ◌==◌,
  length, filter, any, row, update_where, update_row,
}
use managed_agents_runtime.Core.Types.{AttemptState, active, exited, is_active, RunAttemptRow}
use managed_agents_runtime.Store.Database.{Db, Tx, ok}

unfoldable pub get_attempt : ℕ → Db → Option RunAttemptRow
get_attempt id db = row RunAttemptRow.id id db.attempts

-- `ORDER BY attempt_no ASC`.
abbrev insert_by_no : RunAttemptRow → List RunAttemptRow → List RunAttemptRow
insert_by_no a [] = a ∷ []
insert_by_no a (b ∷ rest) =
    if managed_agents_runtime.Prelude.leb a.attempt_no b.attempt_no
    then a ∷ b ∷ rest
    else b ∷ insert_by_no a rest

abbrev sort_by_no : List RunAttemptRow → List RunAttemptRow
sort_by_no [] = []
sort_by_no (a ∷ rest) = insert_by_no a (sort_by_no rest)

unfoldable pub list_attempts : ℕ → Db → List RunAttemptRow
list_attempts run_id db = sort_by_no (filter (λ a. a.run_id == run_id) db.attempts)

unfoldable pub count_active_attempts : ℕ → Db → ℕ
count_active_attempts run_id db =
    length (filter (λ a. a.run_id == run_id && is_active a.state) db.attempts)

-- The WHERE clause `id = $1 AND state = 'ACTIVE'`; a row count over 0 is that some row meets it.
abbrev pub is_held : ℕ → RunAttemptRow → Bool
is_held attempt_id a = a.id == attempt_id && is_active a.state

unfoldable pub heartbeat_attempt : ℕ → ℕ → Tx Bool
heartbeat_attempt attempt_id lease_ttl_ms db = ok (
  any (is_held attempt_id) db.attempts,
  record db {
    attempts =
        update_where (is_held attempt_id)
          (λ a. record a { heartbeat_at = db.now; lease_expires_at = db.now + lease_ttl_ms })
          db.attempts;
  },
)

unfoldable pub set_attempt_sandbox : ℕ → ℕ → Option String → Db → Db
set_attempt_sandbox attempt_id sandbox_id sandbox_domain db = record db {
  attempts =
      update_row RunAttemptRow.id attempt_id
        (λ a. record a { sandbox_id = some sandbox_id; sandbox_domain = sandbox_domain })
        db.attempts;
}

unfoldable pub exit_attempt : ℕ → String → Tx Bool
exit_attempt attempt_id exit_reason db = ok (
  any (is_held attempt_id) db.attempts,
  record db {
    attempts =
        update_where (is_held attempt_id)
          (λ a. record a { state = exited; exit_reason = some exit_reason }) db.attempts;
  },
)
