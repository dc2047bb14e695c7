-- ===== src/Harness/Governed/Committed.antt =====
-- The end of an execution of src/harness/governedAction.ts: the call, and the receipt that a fresh
-- completion leaves.
use managed_agents_runtime.Prelude.{
  ℕ, ◌≡◌, inr, refl, false, [], Option, some, Some, Some-update_where,
}
use managed_agents_runtime.Json.{Payload}
use managed_agents_runtime.Store.Rows.{ReceiptStatus, ToolReceiptRow}
use managed_agents_runtime.Store.Database.{Db, Result, ok, err, >>=-eq-ok}
use managed_agents_runtime.Store.Receipts.{commit_receipt}
use managed_agents_runtime.Store.Receipts.Settlement.{update_open-eq-ok}
use managed_agents_runtime.Transition.{write_event}
use managed_agents_runtime.Transition.Frame.{append_event-eq-ok}
use managed_agents_runtime.Harness.Governed.{
  GovernedResult, completed, Call, World, Outcome, ◌>>=◌, done, throw, look, rethrow, Dispatched,
  GovernedActionSpec, GovernedActionContext, assert_current_action_owner,
}
use managed_agents_runtime.Harness.Governed.Audit.{commit_invocation}
use managed_agents_runtime.Harness.Governed.Dispatch.{
  record_failure, send, settle_commit, settle_dispatch, dispatch_and_commit,
}
use managed_agents_runtime.Harness.Governed.Effects.{
  Goes, IsQuiet, QuietAt, Anything, Ended, OnceAt, >>=-IsQuiet, throw-IsQuiet, if-IsQuiet,
  IsQuiet_weaken, try_tx-IsQuiet,
}
use managed_agents_runtime.Harness.Governed.Quiet.{
  follows, tx_is_quiet, look_is_quiet, rethrow_is_quiet,
}

module _ (ctx : GovernedActionContext) (spec : GovernedActionSpec) where
  record_failure-IsQuiet :
      (id : ℕ) (reason stage : _) → IsQuiet (record_failure ctx spec id reason stage) Anything
  unfolding record_failure
  record_failure-IsQuiet id reason stage = if-IsQuiet Anything _ _ _ (tx_is_quiet _) (tx_is_quiet _)

  -- The receipt of a dispatch, once it is committed.
  abbrev pub HasValue : Dispatched → ToolReceiptRow → Type 0
  HasValue d r =
      (r.status ≡ ReceiptStatus.committed)
      × (r.result ≡ some d.value)
      × (r.external_txn_id ≡ d.external_txn_id)
      × (r.result_digest ≡ some (spec.digest d.value))

  commit_invocation-HasValue :
      (id : ℕ) (d : Dispatched) (extra : Payload) (db : Db) (seq : ℕ) (db' : Db)
      → commit_invocation ctx spec id d extra db ≡ ok (seq, db')
      → Some (HasValue d) db'.receipts
  unfolding commit_invocation commit_receipt write_event
  commit_invocation-HasValue id d extra db seq db' h =
      let (_, owned, _, h') = >>=-eq-ok (assert_current_action_owner ctx) _ db h in
      let (_, kept, committed, h'') =
        >>=-eq-ok (commit_receipt id d.external_txn_id d.value (spec.digest d.value)) _ owned h' in
      let (there, e) = update_open-eq-ok id _ owned kept committed in
      let (run, _, _, e') = append_event-eq-ok ctx.run.id _ _ _ _ kept seq db' h'' in
      rw (e', e)
        (Some-update_where (HasValue d) _ _ owned.receipts (λ r. (refl, refl, refl, refl)) there)

  -- A fresh completion gives the value that was dispatched, and leaves its receipt committed.
  abbrev Settled : Dispatched → GovernedResult → World → Type 0
  Settled d r w = (r ≡ completed (some d.value) false) × Some (HasValue d) w.db.receipts

  -- What `try_tx` leaves of the commit.
  abbrev IsCommitted : Dispatched → Result ℕ → World → Type 0
  IsCommitted d (ok seq) w = Some (HasValue d) w.db.receipts
  IsCommitted d (err e) w = Unit

  hook_ends :
      (d : Dispatched) (w : World) (hook : Result (Unit {0}))
      → Some (HasValue d) w.db.receipts
      → QuietAt (Settled d) w ((rethrow hook >>= (λ _. done (completed (some d.value) false))) w)
  unfolding ◌>>=◌ done throw
  hook_ends d w (ok a) kept = (refl, (refl, kept))
  hook_ends d w (err e) kept = (refl, tt)

  settle_commit-IsQuiet :
      (receipt : ToolReceiptRow) (d : Dispatched) (r : Result ℕ) (w : World)
      → IsCommitted d r w
      → QuietAt (Settled d) w (settle_commit ctx spec receipt d r w)
  unfolding settle_commit ◌>>=◌ look
  settle_commit-IsQuiet receipt d (ok seq) w kept = hook_ends d w (spec.after_commit w) kept
  settle_commit-IsQuiet receipt d (err e) w _ =
      follows (Settled d) _ _ (record_failure-IsQuiet receipt.id _ _)
        (λ _. throw-IsQuiet (Settled d) e) w

  ended :
      (d : Dispatched) (id : ℕ) (db : Db) (r : Result ℕ) (w : World)
      → Ended (commit_invocation ctx spec id d []) db r w
      → IsCommitted d r w
  ended d id db (ok seq) w e = commit_invocation-HasValue id d [] db seq w.db e
  ended d id db (err x) w e = tt

  -- The answer of the provider, and the end that it came to.
  abbrev pub IsDelivered : Call → Outcome GovernedResult × World → Type 0
  IsDelivered c o =
      Goes
        (λ r w.
          (d : Dispatched) × (sent : World) × (spec.dispatch c.credential sent ≡ ok d)
          × Settled d r w)
        o

  settle_dispatch-IsQuiet :
      (receipt : ToolReceiptRow) (d : Dispatched)
      → IsQuiet (settle_dispatch ctx spec receipt (ok d)) (Settled d)
  unfolding settle_dispatch
  settle_dispatch-IsQuiet receipt d = follows _ _ _ (look_is_quiet spec.after_dispatch) (λ hook.
      follows _ _ _ (rethrow_is_quiet hook) (λ _.
        >>=-IsQuiet (IsCommitted d) _ _ _
          (try_tx-IsQuiet _ (IsCommitted d) (λ db r w. ended d receipt.id db r w))
          (settle_commit-IsQuiet receipt d)))

  settle_dispatch_err-IsQuiet :
      (receipt : ToolReceiptRow) (e : _)
      → IsQuiet (settle_dispatch ctx spec receipt (err e)) (λ _ _. ⊥)
  unfolding settle_dispatch
  settle_dispatch_err-IsQuiet receipt e =
      follows _ _ _ (record_failure-IsQuiet receipt.id _ _) (λ _. throw-IsQuiet _ e)

  answered :
      (receipt : ToolReceiptRow) (c : Call) (sent : World) (answer : Result Dispatched)
      → spec.dispatch c.credential sent ≡ answer
      → ((settle_dispatch ctx spec receipt answer sent).1.calls ≡ sent.calls)
        × IsDelivered c (settle_dispatch ctx spec receipt answer sent)
  answered receipt c sent (ok d) e =
      IsQuiet_weaken (Settled d) _ _ (λ r w settled. (d, sent, e, settled))
        (settle_dispatch-IsQuiet receipt d) sent
  answered receipt c sent (err x) e =
      IsQuiet_weaken (λ _ _. ⊥) _ _ (λ r w none_there. absurd none_there)
        (settle_dispatch_err-IsQuiet receipt x) sent

  abbrev call_of : ℕ → Option ℕ → World → Call
  call_of key credential w = record { key = key; credential = credential; at = w.db }

  -- The call is made with the key, in the database that the last check left.
  pub dispatch_and_commit-OnceAt :
      (P : Call → Type 0) (key : ℕ) (receipt : ToolReceiptRow) (credential : Option ℕ) (w : World)
      → P (call_of key credential w)
      → OnceAt
          (λ c o. P c × IsDelivered c o)
          w
          (dispatch_and_commit ctx spec key receipt credential w)
  unfolding dispatch_and_commit send ◌>>=◌
  dispatch_and_commit-OnceAt P key receipt credential w p =
      let (same, delivered) = answered receipt (call_of key credential w) _ _ refl in
      inr (_, same, (p, delivered))
