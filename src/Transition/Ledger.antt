-- ===== src/Transition/Ledger.antt =====
-- The event ledger of src/core/transition.ts: the events of each run are numbered 1, 2, 3, … with no
-- gap up to the run's `last_event_seq`, and the outbox holds the same events in the same order.
use managed_agents_runtime.Prelude.{
  ℕ, zero, suc, ◌+◌, ◌≡◌, refl, List, ◌∷◌, [], ◌++◌, map, Option, none, some, row, update_row,
  arith, if◌then◌else◌, ◌==◌, row-update_row, Bool-cases, inl, inr, ==_iff, row-own,
}
use mathlib.Core.List.{map-append}
use managed_agents_runtime.Json.{Payload}
use managed_agents_runtime.Core.Types.{RunRow, RunEventRow, EventType}
use managed_agents_runtime.Store.Rows.{OutboxRow}
use managed_agents_runtime.Store.Database.{Db, ok}
use managed_agents_runtime.Transition.{
  TransitionOptions, Patch, patched_run, appended_run, write_transition, transition_run,
  write_event, append_event,
}
use managed_agents_runtime.Transition.Frame.{transition_run-eq-ok, append_event-eq-ok}

-- The sequence numbers of a run's events, in the order in which they were written.
abbrev pub seqs : ℕ → List RunEventRow → List ℕ
seqs run_id [] = []
seqs run_id (e ∷ es) = if e.run_id == run_id then e.seq ∷ seqs run_id es else seqs run_id es

-- 1, 2, …, n.
abbrev pub up_to : ℕ → List ℕ
up_to zero = []
up_to (suc n) = up_to n ++ suc n ∷ []

-- 0 for a run that is not there.
abbrev pub seq_of : Option RunRow → ℕ
seq_of none = 0
seq_of (some r) = r.last_event_seq

abbrev pub last_seq : ℕ → List RunRow → ℕ
last_seq run_id runs = seq_of (row RunRow.id run_id runs)

abbrev pub event_key : RunEventRow → ℕ × ℕ × EventType
event_key e = (e.run_id, e.seq, e.type)

abbrev pub outbox_key : OutboxRow → ℕ × ℕ × EventType
outbox_key o = (o.key, o.seq, o.type)

pub record IsGapless (db : Db) : Type 0 where
  pub numbered : (run_id : ℕ) → seqs run_id db.events ≡ up_to (last_seq run_id db.runs)
  pub mirrored : map outbox_key db.outbox ≡ map event_key db.events

seqs-append :
    (run_id : ℕ) (es : List RunEventRow) (e : RunEventRow)
    → seqs run_id (es ++ e ∷ [])
      ≡ (if e.run_id == run_id then seqs run_id es ++ e.seq ∷ [] else seqs run_id es)
seqs-append run_id [] e = ground arith
seqs-append run_id (x ∷ es) e = ground (arith, seqs-append run_id es e)

up_to-add_one : (n : ℕ) → up_to (n + 1) ≡ up_to n ++ (n + 1) ∷ []
up_to-add_one n = let e : n + 1 ≡ suc n = omega arith in rw e refl

last_seq-update_row :
    (runs : List RunRow) (run : RunRow) (f : RunRow → RunRow) (j : ℕ)
    → row RunRow.id run.id runs ≡ some run
    → ((r : RunRow) → (f r).id ≡ r.id)
    → (f run).last_event_seq ≡ run.last_event_seq + 1
    → last_seq j (update_row RunRow.id run.id f runs)
      ≡ (if run.id == j then run.last_event_seq + 1 else last_seq j runs)
last_seq-update_row runs run f j found keeps counts = elim (Bool-cases (run.id == j)) [
  | inl same ↦
      let e : run.id ≡ j = (==_iff _ _).0 same in
      rw (row-update_row RunRow.id run.id j f runs keeps, same) (rw (← e) (rw found counts))
  | inr other ↦ rw (row-update_row RunRow.id run.id j f runs keeps, other)
]

last_seq-found :
    (runs : List RunRow) (run : RunRow)
    → row RunRow.id run.id runs ≡ some run
    → last_seq run.id runs ≡ run.last_event_seq
last_seq-found runs run found = rw found

-- One more event of a run whose row counts it keeps the ledger gapless.
numbered_step :
    (db : Db) (run : RunRow) (f : RunRow → RunRow) (e : RunEventRow)
    → row RunRow.id run.id db.runs ≡ some run
    → ((r : RunRow) → (f r).id ≡ r.id)
    → (f run).last_event_seq ≡ run.last_event_seq + 1
    → e.run_id ≡ run.id
    → e.seq ≡ run.last_event_seq + 1
    → ((run_id : ℕ) → seqs run_id db.events ≡ up_to (last_seq run_id db.runs))
    → (run_id : ℕ)
    → seqs run_id (db.events ++ e ∷ [])
      ≡ up_to (last_seq run_id (update_row RunRow.id run.id f db.runs))
numbered_step db run f e found keeps counts of_run next g j = elim (Bool-cases (run.id == j)) [
  | inl same ↦
      let here : run.id ≡ j = (==_iff _ _).0 same in
      let count : last_seq j db.runs ≡ run.last_event_seq =
        rw (← here) (last_seq-found db.runs run found) in
      rw (seqs-append j db.events e, of_run, same, g j, count)
        (rw (last_seq-update_row db.runs run f j found keeps counts, same)
          (rw (up_to-add_one run.last_event_seq, next)))
  | inr other ↦
      rw (seqs-append j db.events e, of_run, other, g j)
        (rw (last_seq-update_row db.runs run f j found keeps counts, other))
]

pub write_transition-IsGapless :
    (run : RunRow) (opts : TransitionOptions) (db : Db)
    → row RunRow.id run.id db.runs ≡ some run
    → IsGapless db
    → IsGapless (write_transition run opts db)
unfolding write_transition
write_transition-IsGapless run opts db found g = record {
  numbered =
      numbered_step db run (patched_run opts (run.last_event_seq + 1) db.now) _ found (λ r. refl)
        refl refl refl g.numbered;
  mirrored = simp (map-append, g.mirrored);
}

pub write_event-IsGapless :
    (run : RunRow) (type : EventType) (payload : Payload) (attempt_id : Option ℕ) (patch : Patch)
    (db : Db)
    → row RunRow.id run.id db.runs ≡ some run
    → IsGapless db
    → IsGapless (write_event run type payload attempt_id patch db)
unfolding write_event
write_event-IsGapless run type payload attempt_id patch db found g = record {
  numbered =
      numbered_step db run (appended_run patch (run.last_event_seq + 1) db.now) _ found (λ r. refl)
        refl refl refl g.numbered;
  mirrored = simp (map-append, g.mirrored);
}

-- A transition that succeeds keeps the ledger gapless, that is each run's events numbered from 1 to
-- its `last_event_seq` in order, and the outbox its mirror, a row for each event in the same order.
pub transition_run-IsGapless :
    (run_id : ℕ) (opts : TransitionOptions) (db : Db) (r : RunRow) (db' : Db)
    → transition_run run_id opts db ≡ ok (r, db')
    → IsGapless db
    → IsGapless db'
transition_run-IsGapless run_id opts db r db' h g =
    let (run, found, _, _, _, written) = transition_run-eq-ok run_id opts db r db' h in
    rw written
      (write_transition-IsGapless run opts db (row-own RunRow.id run_id db.runs run found) g)

-- An append that succeeds keeps the ledger gapless, each run's events numbered from 1 to its
-- `last_event_seq` in order, and the outbox its mirror.
pub append_event-IsGapless :
    (run_id : ℕ) (type : EventType) (payload : Payload) (attempt_id : Option ℕ) (patch : Patch)
    (db : Db) (seq : ℕ) (db' : Db)
    → append_event run_id type payload attempt_id patch db ≡ ok (seq, db')
    → IsGapless db
    → IsGapless db'
append_event-IsGapless run_id type payload attempt_id patch db seq db' h g =
    let (run, found, _, written) =
      append_event-eq-ok run_id type payload attempt_id patch db seq db' h in
    rw written (
      write_event-IsGapless run type payload attempt_id patch db
        (row-own RunRow.id run_id db.runs run found) g)
