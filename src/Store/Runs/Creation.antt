-- ===== src/Store/Runs/Creation.antt =====
-- What `createRun` of src/store/runs.ts leaves.
use managed_agents_runtime.Prelude.{
  ℕ, ◌+◌, ◌≡◌, refl, sym, ap, ◌∙◌, ◌∷◌, Option, none, some, arith, ==_refl, row, some_injective,
}
use mathlib.Core.Path.{subst}
use managed_agents_runtime.Core.Types.{RunRow, queued}
use managed_agents_runtime.Store.Database.{Db, ok, >>=-eq-ok}
use managed_agents_runtime.Store.Admissions.{
  AdmissionCapacity, prepare_run_admission, new_admission, record_run_admission,
}
use managed_agents_runtime.Store.Runs.{
  CreateRunInput, admission_kind, session_of, check_session, check_version, new_run, insert_run,
  occupy_session, insert_resources, resolve_options, queue_options, queue_run, write_run,
  create_run,
}
use managed_agents_runtime.Transition.{patched_run, write_transition, transition_run}
use managed_agents_runtime.Transition.Frame.{transition_run-eq-ok}
use managed_agents_runtime.Transition.Status.{transition_run-status}

-- The row that the two transitions make of a new run's row.
abbrev pub queued_run : CreateRunInput → RunRow → ℕ → ℕ → RunRow
queued_run input run now now' =
    let resolved = patched_run (resolve_options input) (run.last_event_seq + 1) now run in
    patched_run queue_options (resolved.last_event_seq + 1) now' resolved

pub insert_run-eq-ok :
    (run : RunRow) (db db' : Db)
    → insert_run run db ≡ ok (tt, db')
    → db' ≡ record db { runs = run ∷ db.runs }
unfolding insert_run
insert_run-eq-ok run db db' h = ground arith

pub record_run_admission-runs :
    (run_id tenant_id : ℕ) (kind : _) (reserved : ℕ) (db db' : Db)
    → record_run_admission run_id tenant_id kind reserved db ≡ ok (tt, db')
    → db' ≡ record db { admissions = new_admission run_id tenant_id kind reserved ∷ db.admissions }
unfolding record_run_admission
record_run_admission-runs run_id tenant_id kind reserved db db' h = ground arith

write_transition-admissions :
    (run : RunRow) (input : CreateRunInput) (db : Db)
    → ((write_transition run (resolve_options input) db).admissions ≡ db.admissions)
      × ((write_transition run queue_options db).admissions ≡ db.admissions)
unfolding write_transition
write_transition-admissions run input db = (refl, refl)

queue_run-eq-ok :
    (input : CreateRunInput) (run : RunRow) (db : Db) (r : RunRow) (db' : Db)
    → row RunRow.id input.run_id db.runs ≡ some run
    → queue_run input db ≡ ok (r, db')
    → (now now' : ℕ) × (r ≡ queued_run input run now now')
      × (row RunRow.id input.run_id db'.runs ≡ some r)
      × (db'.admissions ≡ db.admissions)
unfolding queue_run
queue_run-eq-ok input run db r db' found h =
    let (r1, mid, first, second) =
      >>=-eq-ok (transition_run input.run_id (resolve_options input)) _ db h in
    let (run0, found0, _, _, e0, w0) =
      transition_run-eq-ok input.run_id (resolve_options input) db r1 mid first in
    let (_, _, _, _, stored, _, _, _) =
      transition_run-status input.run_id (resolve_options input) db r1 mid first in
    let (run1, found1, _, _, e1, w1) =
      transition_run-eq-ok input.run_id queue_options mid r db' second in
    let (_, _, _, _, stored', _, _, _) =
      transition_run-status input.run_id queue_options mid r db' second in
    let same0 = some_injective run0 run (sym found0 ∙ found) in
    let same1 = some_injective run1 r1 (sym found1 ∙ stored) in
    let patched : r1 ≡ patched_run (resolve_options input) (run.last_event_seq + 1) db.now run =
      e0 ∙ ap (λ x. patched_run (resolve_options input) (x.last_event_seq + 1) db.now x) same0 in
    (
      db.now,
      mid.now,
      e1 ∙ ap (λ x. patched_run queue_options (x.last_event_seq + 1) mid.now x) (same1 ∙ patched),
      stored',
      ap (λ d. d.admissions) w1
          ∙ (write_transition-admissions run1 input mid).1
          ∙ ap (λ d. d.admissions) w0
          ∙ (write_transition-admissions run0 input db).0,
    )

pub insert_resources-runs :
    (input : CreateRunInput) (db : Db) → (insert_resources input db).runs ≡ db.runs
unfolding insert_resources
insert_resources-runs input db = refl

insert_resources-admissions :
    (input : CreateRunInput) (db : Db) → (insert_resources input db).admissions ≡ db.admissions
unfolding insert_resources
insert_resources-admissions input db = refl

pub occupy_session-runs :
    (input : CreateRunInput) (session : Option ℕ) (db : Db)
    → (occupy_session input session db).runs ≡ db.runs
unfolding occupy_session
occupy_session-runs input session db = refl

occupy_session-admissions :
    (input : CreateRunInput) (session : Option ℕ) (db : Db)
    → (occupy_session input session db).admissions ≡ db.admissions
unfolding occupy_session
occupy_session-admissions input session db = refl

row-new_run :
    (input : CreateRunInput) (budget session : Option ℕ) (db : Db)
    → row RunRow.id input.run_id (new_run input budget session db.now ∷ db.runs)
      ≡ some (new_run input budget session db.now)
unfolding new_run
row-new_run input budget session db = rw (==_refl input.run_id)

-- The checks read only.
session_of-same :
    (input : CreateRunInput) (parent : Option ℕ) (db : Db) (session : Option ℕ) (db' : Db)
    → session_of input parent db ≡ ok (session, db')
    → db' ≡ db
unfolding session_of
session_of-same input none db session db' h = ground arith
session_of-same input (some parent) db session db' h = ground arith

check_session-same :
    (input : CreateRunInput) (session : Option ℕ) (db db' : Db)
    → check_session input session db ≡ ok (tt, db')
    → db' ≡ db
unfolding check_session
check_session-same input none db db' h = ground arith
check_session-same input (some session) db db' h = ground arith

check_version-same :
    (input : CreateRunInput) (db db' : Db) → check_version input db ≡ ok (tt, db') → db' ≡ db
unfolding check_version
check_version-same input db db' h = ground arith

pub write_run-eq-ok :
    (input : CreateRunInput) (c : AdmissionCapacity) (session : Option ℕ) (db : Db) (r : RunRow)
    (db' : Db)
    → write_run input c session db ≡ ok (r, db')
    → (now now' : ℕ) × (r
        ≡ queued_run input (new_run input c.effective_token_budget session db.now) now now')
      × (row RunRow.id input.run_id db'.runs ≡ some r)
      × (db'.admissions
          ≡ new_admission input.run_id input.tenant_id (admission_kind input) c.reserved_tokens
            ∷ db.admissions)
unfolding write_run
write_run-eq-ok input c session db r db' h =
    let run = new_run input c.effective_token_budget session db.now in
    let (_, d1, inserted, rest) = >>=-eq-ok (insert_run run) _ db h in
    let e1 = insert_run-eq-ok run db d1 inserted in
    let occupying = occupy_session input session d1 in
    let (_, d2, recorded, last) =
      >>=-eq-ok
        (record_run_admission input.run_id input.tenant_id (admission_kind input) c.reserved_tokens)
        _ occupying rest in
    let e2 =
      record_run_admission-runs input.run_id input.tenant_id (admission_kind input)
        c.reserved_tokens occupying d2 recorded in
    let runs : (insert_resources input d2).runs ≡ run ∷ db.runs =
      insert_resources-runs input d2
      ∙ ap (λ d. d.runs) e2
      ∙ occupy_session-runs input session d1
      ∙ ap (λ d. d.runs) e1 in
    let found : row RunRow.id input.run_id (insert_resources input d2).runs ≡ some run =
      ap (row RunRow.id input.run_id) runs
      ∙ row-new_run input c.effective_token_budget session db in
    let (now, now', e, stored, kept) =
      queue_run-eq-ok input run (insert_resources input d2) r db' found last in
    (
      now,
      now',
      e,
      stored,
      kept
          ∙ insert_resources-admissions input d2
          ∙ ap (λ d. d.admissions) e2
          ∙ ap
              (λ rows.
                new_admission input.run_id input.tenant_id (admission_kind input) c.reserved_tokens
                ∷ rows)
              (occupy_session-admissions input session d1 ∙ ap (λ d. d.admissions) e1),
    )

-- A creation that succeeds prepared an admission, and wrote in the database that this left.
pub create_run-writes :
    (input : CreateRunInput) (db : Db) (r : RunRow) (db' : Db)
    → create_run input db ≡ ok (r, db')
    → (c : AdmissionCapacity) × (mid : Db) × (session : Option ℕ) × (prepare_run_admission
          input.tenant_id input.token_budget db
        ≡ ok (c, mid))
      × (write_run input c session mid ≡ ok (r, db'))
unfolding create_run
create_run-writes input db r db' h =
    let (c, mid, prepared, rest) =
      >>=-eq-ok (prepare_run_admission input.tenant_id input.token_budget) _ db h in
    let (session, d1, chosen, rest1) =
      >>=-eq-ok (session_of input input.parent_run_id) _ mid rest in
    let (_, d2, checked, rest2) = >>=-eq-ok (check_session input session) _ d1 rest1 in
    let (_, d3, owned, rest3) = >>=-eq-ok (check_version input) _ d2 rest2 in
    let same : d3 ≡ mid =
      check_version-same input d2 d3 owned
      ∙ check_session-same input session d1 d2 checked
      ∙ session_of-same input input.parent_run_id mid session d1 chosen in
    (c, mid, session, prepared, subst (λ d. write_run input c session d ≡ ok (r, db')) same rest3)

-- No run is created without capacity: a creation that succeeds first prepared an admission for the
-- tenant and the budget asked for. It returns the run that is then stored, queued after two events,
-- of that tenant, with the budget that the admission allows, no attempt and no tokens used; and the
-- reservation that the admission prepared is recorded for it.
pub create_run-queued :
    (input : CreateRunInput) (db : Db) (r : RunRow) (db' : Db)
    → create_run input db ≡ ok (r, db')
    → (c : AdmissionCapacity) × (mid : Db) × (prepare_run_admission input.tenant_id
          input.token_budget db
        ≡ ok (c, mid))
      × (row RunRow.id input.run_id db'.runs ≡ some r)
      × (r.status ≡ queued)
      × (r.last_event_seq ≡ 2)
      × (r.tenant_id ≡ input.tenant_id)
      × (r.token_budget ≡ c.effective_token_budget)
      × (r.current_attempt_id ≡ none)
      × (r.tokens_used ≡ 0)
      × (db'.admissions
          ≡ new_admission input.run_id input.tenant_id (admission_kind input) c.reserved_tokens
            ∷ mid.admissions)
unfolding new_run patched_run
create_run-queued input db r db' h =
    let (c, mid, session, prepared, written) = create_run-writes input db r db' h in
    let (now, now', e, stored, kept) = write_run-eq-ok input c session mid r db' written in
    (
      c,
      mid,
      prepared,
      stored,
      ap (λ x. x.status) e,
      ap (λ x. x.last_event_seq) e,
      ap (λ x. x.tenant_id) e,
      ap (λ x. x.token_budget) e,
      ap (λ x. x.current_attempt_id) e,
      ap (λ x. x.tokens_used) e,
      kept,
    )
