-- ===== src/Transition/Session.antt =====
-- How a top-level run's status shows in its managed session: the projection of
-- src/core/transition.ts.
use managed_agents_runtime.Prelude.{
  some_injective, ℕ, ◌+◌, ◌≡◌, refl, sym, ap, ◌∙◌, Bool, true, Option, none, some, row, arith,
  if◌then◌else◌, row-update_where, row-key,
}
use managed_agents_runtime.Core.Types.{RunStatus, RunRow}
use managed_agents_runtime.Core.StateMachine.{is_terminal}
use managed_agents_runtime.Store.Rows.{ManagedSessionState, ManagedSessionRow, session_state_eq}
use managed_agents_runtime.Store.Database.{Db, ok}
use managed_agents_runtime.Transition.{
  TransitionOptions, project_state, is_open, is_projected, project_session, project_of,
  write_transition, transition_run,
}
use managed_agents_runtime.Transition.Frame.{transition_run-eq-ok}

-- The session shows the run: its state is the one of the run's status, and its current run is that
-- run until it has ended, and none from then on.
pub record Shows (run_id : ℕ) (status : RunStatus) (s : ManagedSessionRow) : Type 0 where
  pub state : s.state ≡ project_state status
  pub current : s.current_top_level_run_id ≡ (if is_terminal status then none else some run_id)

state_eq_sound : (s t : ManagedSessionState) → session_state_eq s t ≡ true → s ≡ t
state_eq_sound s t h = ground arith

-- `shown_as` is the row that the UPDATE makes of a session's row.
module _ (sid run_id now : ℕ) (to : ManagedSessionState) (clear : Bool)
    (s : ManagedSessionRow) where
  abbrev shown_as : ManagedSessionRow
  shown_as =
      if is_projected sid run_id to clear s
      then record s {
        state = to;
        current_top_level_run_id = if clear then none else s.current_top_level_run_id;
        version = s.version + 1;
        updated_at = now;
      }
      else s

  shown_as_lem :
      s.id ≡ sid
      → s.current_top_level_run_id ≡ some run_id
      → is_open s.state ≡ true
      → (shown_as.state ≡ to)
        × (shown_as.current_top_level_run_id ≡ (if clear then none else some run_id))
  unfolding is_projected
  shown_as_lem own current still_open =
      (ground (arith, state_eq_sound s.state to), ground (arith, state_eq_sound s.state to))

project_session-row :
    (run : RunRow) (status : RunStatus) (db : Db) (sid : ℕ) (s : ManagedSessionRow)
    → row ManagedSessionRow.id sid db.sessions ≡ some s
    → row ManagedSessionRow.id sid (project_session sid run status db)
      ≡ some (shown_as sid run.id db.now (project_state status) (is_terminal status) s)
unfolding project_session
project_session-row run status db sid s found =
    row-update_where ManagedSessionRow.id
      (is_projected sid run.id (project_state status) (is_terminal status))
      (λ x. record x {
        state = project_state status;
        current_top_level_run_id = if is_terminal status then none else x.current_top_level_run_id;
        version = x.version + 1;
        updated_at = db.now;
      })
      sid db.sessions (λ x. refl)
    ∙ (rw found)

-- A top-level run of the session is projected, whatever the fields of the run's row are called.
project_of-row :
    (m p : Option ℕ) (run : RunRow) (status : RunStatus) (db : Db) (sid : ℕ) (s : ManagedSessionRow)
    → m ≡ some sid
    → p ≡ none
    → row ManagedSessionRow.id sid db.sessions ≡ some s
    → row ManagedSessionRow.id sid (project_of m p run status db)
      ≡ some (shown_as sid run.id db.now (project_state status) (is_terminal status) s)
unfolding project_of
project_of-row m p run status db sid s of_session top found =
    rw (of_session, top) (project_session-row run status db sid s found)

write_transition-session :
    (run : RunRow) (opts : TransitionOptions) (db : Db) (sid : ℕ) (s : ManagedSessionRow)
    → run.managed_session_id ≡ some sid
    → run.parent_run_id ≡ none
    → row ManagedSessionRow.id sid db.sessions ≡ some s
    → row ManagedSessionRow.id sid (write_transition run opts db).sessions
      ≡ some (shown_as sid run.id db.now (project_state opts.to) (is_terminal opts.to) s)
unfolding write_transition
write_transition-session run opts db sid s of_session top found =
    project_of-row run.managed_session_id run.parent_run_id run opts.to _ sid s of_session top found

-- When the current top-level run of an open session makes a transition, the session shows it: its
-- state is that of the new status, and its current run is cleared exactly when the run has ended.
pub transition_run-Shows :
    (run_id : ℕ) (opts : TransitionOptions) (db : Db) (r : RunRow) (db' : Db) (run : RunRow)
    (sid : ℕ) (s : ManagedSessionRow)
    → transition_run run_id opts db ≡ ok (r, db')
    → row RunRow.id run_id db.runs ≡ some run
    → run.managed_session_id ≡ some sid
    → run.parent_run_id ≡ none
    → row ManagedSessionRow.id sid db.sessions ≡ some s
    → s.current_top_level_run_id ≡ some run_id
    → is_open s.state ≡ true
    → (s' : ManagedSessionRow) × (row ManagedSessionRow.id sid db'.sessions ≡ some s')
      × Shows run_id opts.to s'
transition_run-Shows run_id opts db r db' run sid s h there of_session top found current
      still_open =
    let (run', there', _, _, _, written) = transition_run-eq-ok run_id opts db r db' h in
    let same : run' ≡ run = some_injective run' run (sym there' ∙ there) in
    let own : run.id ≡ run_id = row-key RunRow.id run_id db.runs run there in
    let write : db' ≡ write_transition run opts db =
      written ∙ ap (λ x. write_transition x opts db) same in
    let (state, cleared) =
      shown_as_lem sid run.id db.now (project_state opts.to) (is_terminal opts.to) s
        (row-key ManagedSessionRow.id sid db.sessions s found) (rw (own, current)) still_open in
    (
      shown_as sid run.id db.now (project_state opts.to) (is_terminal opts.to) s,
      ap (λ d. row ManagedSessionRow.id sid (Db.sessions d)) write
          ∙ write_transition-session run opts db sid s of_session top found,
      record {
        state = state;
        current = cleared ∙ ap (λ x. if is_terminal opts.to then none else some x) own;
      },
    )
