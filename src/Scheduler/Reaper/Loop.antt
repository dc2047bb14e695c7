-- ===== src/Scheduler/Reaper/Loop.antt =====
-- The loop of src/scheduler/reaper.ts: it ends, and when it ends without an error no expired attempt
-- is left that could be taken.
use managed_agents_runtime.Prelude.{
  ℕ, ◌+◌, ◌≤◌, ◌≡◌, List, ◌∷◌, [], Bool, true, false, ◌&&◌, some, ◌==◌, any, All, filter, length,
}
use managed_agents_runtime.Core.Types.{RunAttemptRow, orphaned}
use managed_agents_runtime.Store.Database.{Db, Result, ok, err}
use managed_agents_runtime.Scheduler.Reaper.{is_expired, Reaped, Round, reap_from}

abbrev pub is_free : (ℕ → Bool) → (ℕ → Bool) → RunAttemptRow → Bool
is_free lock_free row_free a = lock_free a.run_id && row_free a.id

-- A row of the table that has the key and is expired.
abbrev is_listed : ℕ → List RunAttemptRow → RunAttemptRow → Bool
is_listed now rows a = any (λ b. b.id == a.id && is_expired now b) rows

abbrev pub expired_count : Db → ℕ
expired_count db = length (filter (is_expired db.now) db.attempts)

abbrev orphaned_row : RunAttemptRow → RunAttemptRow
orphaned_row a = record a { state = orphaned; exit_reason = some "lease_expired" }

-- No attempt that is expired, on a run whose lock and in a row that can be had.
abbrev pub NoneLeft : (ℕ → Bool) → (ℕ → Bool) → Db → Type 0
NoneLeft lock_free row_free db =
    All (λ a. is_expired db.now a ≡ true → is_free lock_free row_free a ≡ false) db.attempts

-- A loop that ended without an error left nothing that its last round could have taken.
abbrev pub IsDone : Result (List Reaped) → Round → Db → Type 0
IsDone (ok reaped) round db = NoneLeft round.lock_free round.row_free db
IsDone (err e) round db = Unit {0}

-- Between the rounds, other sessions and the clock let at most `n` more attempts expire.
abbrev pub Expiring : ℕ → List Round → Type 0
Expiring n [] = Unit
Expiring n (round ∷ rounds) =
    (here later : ℕ) × (here + later ≤ n)
    × ((db : Db) → expired_count (round.before db) ≤ expired_count db + here)
    × Expiring later rounds

abbrev Ends : ℕ → List Round → Db → List Reaped → Type 0
Ends max_attempts rounds db reaped =
    (r : Result (List Reaped)) × (last : Round) × (end : Db) × (reap_from max_attempts rounds db
        reaped
      ≡ some (r, last, end))
    × IsDone r last end
