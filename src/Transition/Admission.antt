-- ===== src/Transition/Admission.antt =====
-- Capacity and the lives of runs: what `transitionRun` of src/core/transition.ts does to the
-- reservations of src/store/admissions.ts.
use managed_agents_runtime.Prelude.{
  String, ℕ, ◌+◌, ◌≡◌, refl, sym, List, ◌∷◌, [], true, false, ◌&&◌, some, row, update_row,
  update_where, arith, if◌then◌else◌, ◌==◌, row-update_row, row-own, Bool-cases, ==_iff, inl, inr,
  All,
}
use mathlib.Core.Path.{subst}
use managed_agents_runtime.Core.Types.{RunRow}
use managed_agents_runtime.Core.StateMachine.{is_terminal}
use managed_agents_runtime.Store.Rows.{AdmissionRow}
use managed_agents_runtime.Store.Admissions.{run_is_terminal, release_run_admission}
use managed_agents_runtime.Store.Database.{Db, ok}
use managed_agents_runtime.Transition.{
  TransitionOptions, patched_run, release_if, write_transition, transition_run,
}
use managed_agents_runtime.Transition.Frame.{transition_run-eq-ok}

-- An active reservation does not belong to a run that has ended.
abbrev pub IsHeldLive : List RunRow → AdmissionRow → Type 0
IsHeldLive runs a = a.active ≡ true → run_is_terminal runs a.run_id ≡ false

abbrev pub AdmissionsAreLive : Db → Type 0
AdmissionsAreLive db = All (IsHeldLive db.runs) db.admissions

terminal-update_row :
    (runs : List RunRow) (run : RunRow) (f : RunRow → RunRow) (j : ℕ)
    → row RunRow.id run.id runs ≡ some run
    → ((r : RunRow) → (f r).id ≡ r.id)
    → run_is_terminal (update_row RunRow.id run.id f runs) j
      ≡ (if run.id == j then is_terminal (f run).status else run_is_terminal runs j)
terminal-update_row runs run f j found keeps = elim (Bool-cases (run.id == j)) [
  | inl same ↦
      let here : run.id ≡ j = (==_iff _ _).0 same in
      rw (row-update_row RunRow.id run.id j f runs keeps, same) (rw (← here) (rw found))
  | inr other ↦ rw (row-update_row RunRow.id run.id j f runs keeps, other)
]

module _ (runs : List RunRow) (run : RunRow) (opts : TransitionOptions) (now : ℕ)
    (found : row RunRow.id run.id runs ≡ some run) where
  abbrev after : List RunRow
  after = update_row RunRow.id run.id (patched_run opts (run.last_event_seq + 1) now) runs

  after-terminal :
      (j : ℕ)
      → run_is_terminal after j
        ≡ (if run.id == j then is_terminal opts.to else run_is_terminal runs j)
  unfolding patched_run
  after-terminal j = terminal-update_row runs run _ j found (λ r. refl)

  kept-IsHeldLive :
      (rest : List AdmissionRow)
      → is_terminal opts.to ≡ false
      → All (IsHeldLive runs) rest
      → All (IsHeldLive after) rest
  kept-IsHeldLive [] goes_on h = tt
  kept-IsHeldLive (a ∷ rest) goes_on (h, hs) = (
    λ held. rw (after-terminal a.run_id) (ground (arith, h held)),
    kept-IsHeldLive rest goes_on hs,
  )

  -- What the release leaves: the run's own reservations are released, the others are as they were.
  released-IsHeldLive :
      (reason : String) (at : ℕ) (rest : List AdmissionRow)
      → All (IsHeldLive runs) rest
      → All (IsHeldLive after) (
          update_where
            (λ a. a.run_id == run.id && a.active)
            (λ a. record a { active = false; released_at = some at; release_reason = some reason })
            rest)
  released-IsHeldLive reason at [] h = tt
  released-IsHeldLive reason at (a ∷ rest) (h, hs) =
      (λ held. ground (arith, after-terminal a.run_id), released-IsHeldLive reason at rest hs)

written-IsHeldLive :
    (run : RunRow) (opts : TransitionOptions) (db : Db)
    → row RunRow.id run.id db.runs ≡ some run
    → AdmissionsAreLive db
    → AdmissionsAreLive (write_transition run opts db)
unfolding write_transition release_if release_run_admission
written-IsHeldLive run opts db found h = elim (Bool-cases (is_terminal opts.to)) [
  | inl ends ↦ rw ends (released-IsHeldLive db.runs run opts db.now found _ db.now db.admissions h)
  | inr goes_on ↦ rw goes_on (kept-IsHeldLive db.runs run opts db.now found db.admissions goes_on h)
]

-- No transition leaves capacity reserved for a run that has ended: if every active reservation
-- belongs to a run that goes on, a transition that succeeds keeps it so.
pub transition_run-AdmissionsAreLive :
    (run_id : ℕ) (opts : TransitionOptions) (db : Db) (r : RunRow) (db' : Db)
    → transition_run run_id opts db ≡ ok (r, db')
    → AdmissionsAreLive db
    → AdmissionsAreLive db'
transition_run-AdmissionsAreLive run_id opts db r db' h live =
    let (run, found, _, _, _, written) = transition_run-eq-ok run_id opts db r db' h in
    subst AdmissionsAreLive (sym written)
      (written-IsHeldLive run opts db (row-own RunRow.id run_id db.runs run found) live)
