-- ===== src/Store/Attempts/Fencing.antt =====
-- Fencing by leases in src/store/attempts.ts: an attempt is given up once, and after that neither
-- its heartbeat nor a second exit is heard.
use managed_agents_runtime.Prelude.{
  some, ℕ, ◌≡◌, refl, List, ◌∷◌, [], String, Bool, true, false, arith, any, update_where,
}
use managed_agents_runtime.Core.Types.{RunAttemptRow, is_active, exited}
use managed_agents_runtime.Store.Attempts.{is_held, heartbeat_attempt, exit_attempt}
use managed_agents_runtime.Store.Database.{Db, ok}

-- Once the attempt's row has been moved out of ACTIVE, no row meets the WHERE clause.
pub any-update_where_gone :
    (id : ℕ) (f : RunAttemptRow → RunAttemptRow)
    → ((a : RunAttemptRow) → is_active (f a).state ≡ false)
    → (rows : List RunAttemptRow) → any (is_held id) (update_where (is_held id) f rows) ≡ false
any-update_where_gone id f gone [] = refl
any-update_where_gone id f gone (a ∷ rest) =
    ground (arith, gone a, any-update_where_gone id f gone rest)

update_where_none :
    (id : ℕ) (g : RunAttemptRow → RunAttemptRow) (rows : List RunAttemptRow)
    → any (is_held id) rows ≡ false
    → update_where (is_held id) g rows ≡ rows
update_where_none id g [] h = refl
update_where_none id g (a ∷ rest) h = ground (arith, update_where_none id g rest)

abbrev IsFenced : ℕ → Db → Type 0
IsFenced attempt_id db =
    (ttl : ℕ) (again : String)
    → (heartbeat_attempt attempt_id ttl db ≡ ok (false, db))
      × (exit_attempt attempt_id again db ≡ ok (false, db))

fenced :
    (attempt_id : ℕ) (db : Db)
    → any (is_held attempt_id) db.attempts ≡ false
    → IsFenced attempt_id db
unfolding exit_attempt heartbeat_attempt
fenced attempt_id db none_held ttl again = (
  rw (none_held, update_where_none attempt_id _ db.attempts none_held),
  rw (none_held, update_where_none attempt_id _ db.attempts none_held),
)

abbrev exited_rows : ℕ → String → Db → List RunAttemptRow
exited_rows attempt_id reason db =
    update_where (is_held attempt_id) (λ a. record a { state = exited; exit_reason = some reason })
      db.attempts

pub exit_attempt-db :
    (attempt_id : ℕ) (reason : String) (db : Db) (taken : Bool) (db' : Db)
    → exit_attempt attempt_id reason db ≡ ok (taken, db')
    → any (is_held attempt_id) db'.attempts ≡ false
unfolding exit_attempt
exit_attempt-db attempt_id reason db taken db' h =
    let written : (exited_rows attempt_id reason db) ≡ db'.attempts = ground arith in
    rw (← written) (any-update_where_gone attempt_id _ (λ a. refl) db.attempts)

-- After an exit, whether it took the attempt or came too late, a heartbeat and a second exit of the
-- same attempt both report that the lease is lost, and leave the attempts as they are.
pub exit_attempt_fences :
    (attempt_id : ℕ) (reason again : String) (ttl : ℕ) (db : Db) (taken : Bool) (db' : Db)
    → exit_attempt attempt_id reason db ≡ ok (taken, db')
    → (heartbeat_attempt attempt_id ttl db' ≡ ok (false, db'))
      × (exit_attempt attempt_id again db' ≡ ok (false, db'))
exit_attempt_fences attempt_id reason again ttl db taken db' h =
    fenced attempt_id db' (exit_attempt-db attempt_id reason db taken db' h) ttl again

pub exit_attempt-held :
    (attempt_id : ℕ) (reason : String) (db : Db)
    → any (is_held attempt_id) db.attempts ≡ true
    → (mid : Db) × (exit_attempt attempt_id reason db ≡ ok (true, mid))
      × (mid.runs ≡ db.runs)
      × (mid.now ≡ db.now)
unfolding exit_attempt
exit_attempt-held attempt_id reason db held =
    (record db { attempts = exited_rows attempt_id reason db }, rw held, refl, refl)
