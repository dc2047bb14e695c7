-- ===== src/Store/Runs/Frame.antt =====
-- Which rows of `runs` `createRun` of src/store/runs.ts writes.
use managed_agents_runtime.Prelude.{
  ℕ, ◌≡◌, ◌≢◌, refl, sym, ap, ◌∙◌, false, List, ◌∷◌, [], Option, none, some, arith, ◌==◌, ==_ne,
  any, row,
}
use managed_agents_runtime.Core.Types.{RunRow, queued}
use managed_agents_runtime.Store.Database.{Db, ok, >>=-eq-ok}
use managed_agents_runtime.Store.Admissions.{
  AdmissionCapacity, reconcile_terminal, prepare_run_admission, record_run_admission,
}
use managed_agents_runtime.Store.Admissions.Capacity.{prepare_run_admission-HasRoom}
use managed_agents_runtime.Store.Runs.{
  CreateRunInput, admission_kind, new_run, insert_run, occupy_session, insert_resources,
  resolve_options, queue_options, queue_run, write_run, create_run,
}
use managed_agents_runtime.Store.Runs.Creation.{
  insert_run-eq-ok, record_run_admission-runs, insert_resources-runs, occupy_session-runs,
  write_run-eq-ok, create_run-writes,
}
use managed_agents_runtime.Transition.{patched_run, coalesce, transition_run}
use managed_agents_runtime.Transition.Status.{transition_run-status}

no_row :
    (id : ℕ) (runs : List RunRow)
    → any (λ r. r.id == id) runs ≡ false
    → row RunRow.id id runs ≡ none
no_row id [] h = refl
no_row id (r ∷ runs) h = ground (arith, no_row id runs)

insert_run-new :
    (run : RunRow) (db db' : Db)
    → insert_run run db ≡ ok (tt, db')
    → row RunRow.id run.id db.runs ≡ none
unfolding insert_run
insert_run-new run db db' h = no_row run.id db.runs (ground arith)

queue_run-others :
    (input : CreateRunInput) (db : Db) (r : RunRow) (db' : Db) (j : ℕ)
    → queue_run input db ≡ ok (r, db')
    → j ≢ input.run_id
    → row RunRow.id j db'.runs ≡ row RunRow.id j db.runs
unfolding queue_run
queue_run-others input db r db' j h other =
    let (r1, mid, first, second) =
      >>=-eq-ok (transition_run input.run_id (resolve_options input)) _ db h in
    let (_, _, _, _, _, _, _, kept) =
      transition_run-status input.run_id (resolve_options input) db r1 mid first in
    let (_, _, _, _, _, _, _, kept') =
      transition_run-status input.run_id queue_options mid r db' second in
    kept' j other ∙ kept j other

write_run-others :
    (input : CreateRunInput) (c : AdmissionCapacity) (session : Option ℕ) (db : Db) (r : RunRow)
    (db' : Db)
    → write_run input c session db ≡ ok (r, db')
    → (row RunRow.id input.run_id db.runs ≡ none)
      × ((j : ℕ) → j ≢ input.run_id → row RunRow.id j db'.runs ≡ row RunRow.id j db.runs)
unfolding write_run
write_run-others input c session db r db' h =
    let run = new_run input c.effective_token_budget session db.now in
    let (_, d1, inserted, rest) = >>=-eq-ok (insert_run run) _ db h in
    let occupying = occupy_session input session d1 in
    let (_, d2, recorded, last) =
      >>=-eq-ok
        (record_run_admission input.run_id input.tenant_id (admission_kind input) c.reserved_tokens)
        _ occupying rest in
    let runs : (insert_resources input d2).runs ≡ run ∷ db.runs =
      insert_resources-runs input d2
      ∙ ap (λ d. d.runs)
          (record_run_admission-runs input.run_id input.tenant_id (admission_kind input)
            c.reserved_tokens occupying d2 recorded)
      ∙ occupy_session-runs input session d1
      ∙ ap (λ d. d.runs) (insert_run-eq-ok run db d1 inserted) in
    (
      (unfold new_run in insert_run-new run db d1 inserted),
      λ j other.
          queue_run-others input (insert_resources input d2) r db' j last other
          ∙ ap (row RunRow.id j) runs
          ∙ (unfold new_run in rw (==_ne input.run_id j (λ e. other (sym e))) refl),
    )

prepared_runs :
    (tenant_id : ℕ) (requested : Option ℕ) (db : Db) (c : AdmissionCapacity) (mid : Db)
    → prepare_run_admission tenant_id requested db ≡ ok (c, mid)
    → mid.runs ≡ db.runs
unfolding reconcile_terminal
prepared_runs tenant_id requested db c mid h =
    let (_, _, _, e, _) = prepare_run_admission-HasRoom tenant_id requested db c mid h in
    ap (λ d. d.runs) e

-- A run is created under an id that no run had, with the parent and the predecessor of the input, and
-- no other run's row is written.
pub create_run-frame :
    (input : CreateRunInput) (db : Db) (r : RunRow) (db' : Db)
    → create_run input db ≡ ok (r, db')
    → (row RunRow.id input.run_id db.runs ≡ none)
      × (row RunRow.id input.run_id db'.runs ≡ some r)
      × (r.id ≡ input.run_id)
      × (r.status ≡ queued)
      × (r.parent_run_id ≡ input.parent_run_id)
      × (r.replaces_run_id ≡ input.replaces_run_id)
      × (r.replacement_generation ≡ coalesce input.replacement_generation 0)
      × ((j : ℕ) → j ≢ input.run_id → row RunRow.id j db'.runs ≡ row RunRow.id j db.runs)
unfolding new_run patched_run
create_run-frame input db r db' h =
    let (c, mid, session, prepared, written) = create_run-writes input db r db' h in
    let (now, now', e, stored, _) = write_run-eq-ok input c session mid r db' written in
    let (new, others) = write_run-others input c session mid r db' written in
    let same = prepared_runs input.tenant_id input.token_budget db c mid prepared in
    (
      ap (row RunRow.id input.run_id) (sym same) ∙ new,
      stored,
      ap (λ x. x.id) e,
      ap (λ x. x.status) e,
      ap (λ x. x.parent_run_id) e,
      ap (λ x. x.replaces_run_id) e,
      ap (λ x. x.replacement_generation) e,
      λ j other. others j other ∙ ap (row RunRow.id j) same,
    )
