-- ===== src/Harness/Governed/Settled.antt =====
-- What an execution of src/harness/governedAction.ts does when an earlier one left a receipt.
use managed_agents_runtime.Prelude.{ℕ, ◌≡◌, refl, sym, ap, ◌∙◌, true, false, Option, none, some}
use mathlib.Core.Path.{subst}
use managed_agents_runtime.Store.Rows.{ReceiptStatus, ToolReceiptRow}
use managed_agents_runtime.Store.Database.{Db, ok, with_transaction, with_transaction-ok}
use managed_agents_runtime.Store.Receipts.{find_receipt_by_lineage_key, replacement_root_run_id}
use managed_agents_runtime.Harness.Governed.{
  reconcile, completed, next, World, continue, rethrow, ◌>>=◌, arrive, done, return, look, query,
  in_tx, try_tx, GovernedActionSpec, GovernedActionContext, is_current_owner,
  assert_current_action_owner,
}
use managed_agents_runtime.Harness.Governed.Recovery.{
  check_status, check_existing, reconcile_pending, recover,
}
use managed_agents_runtime.Harness.Governed.Execute.{
  execute_existing, execute_governed_action_fenced, check_aborted, execute_locked, returned,
  execute_governed_action,
}
use managed_agents_runtime.Harness.Governed.Effects.{IsQuiet, >>=-IsQuiet, arrive-calls}
use managed_agents_runtime.Harness.Governed.Quiet.{
  follows, end_uncertain-IsQuiet, check_existing-IsQuiet,
}
use managed_agents_runtime.Harness.Governed.Once.{returned-calls}

module _ (ctx : GovernedActionContext) (spec : GovernedActionSpec) where
  -- The key of the action, as the first query of an execution makes it.
  abbrev pub key_at : World → ℕ
  key_at w = ctx.idempotency_key (replacement_root_run_id ctx.lineage_fuel ctx.run.id (arrive w).db)

  -- The worlds that the second and the third query of an execution meet.
  abbrev pub second_at : World → World
  second_at w = arrive (arrive w)

  abbrev pub third_at : World → World
  third_at w = arrive (second_at w)

  -- The receipt that the third query finds.
  abbrev pub existing_at : World → Option ToolReceiptRow
  existing_at w = find_receipt_by_lineage_key ctx.lineage_fuel ctx.run.id (key_at w) (third_at w).db

  owned :
      (db : Db)
      → is_current_owner ctx.run.id ctx.attempt.id db ≡ true
      → assert_current_action_owner ctx db ≡ ok (tt, db)
  unfolding assert_current_action_owner
  owned db owns = rw owns refl

  owner_passes :
      (w : World)
      → is_current_owner ctx.run.id ctx.attempt.id (arrive w).db ≡ true
      → in_tx (assert_current_action_owner ctx) w ≡ (next tt, arrive w)
  unfolding in_tx try_tx with_transaction ◌>>=◌ done
  owner_passes w owns =
      ap (λ o. continue rethrow (next o.0, record (arrive w) { db = o.1 }))
        (with_transaction-ok (assert_current_action_owner ctx) (arrive w).db tt (arrive w).db
          (owned (arrive w).db owns))

  fenced_starts :
      (key : ℕ) (w : World)
      → is_current_owner ctx.run.id ctx.attempt.id (arrive w).db ≡ true
      → execute_governed_action_fenced ctx spec key w
        ≡ execute_existing ctx spec key
            (find_receipt_by_lineage_key ctx.lineage_fuel ctx.run.id key (second_at w).db)
            (second_at w)
  unfolding execute_governed_action_fenced ◌>>=◌ query
  fenced_starts key w owns = rw (owner_passes w owns) refl

  starts :
      (w : World)
      → ctx.aborted (arrive w) ≡ false
      → is_current_owner ctx.run.id ctx.attempt.id (second_at w).db ≡ true
      → execute_governed_action ctx spec w
        ≡ returned (execute_existing ctx spec (key_at w) (existing_at w) (third_at w))
  unfolding execute_governed_action execute_locked check_aborted query look ◌>>=◌ done
  starts w running owns = rw (running, fenced_starts (key_at w) (arrive w) owns) refl

  third_at-calls : (w : World) → (third_at w).calls ≡ w.calls
  third_at-calls w = arrive-calls (second_at w) ∙ arrive-calls (arrive w) ∙ arrive-calls w

  settled :
      (key : ℕ) (r : ToolReceiptRow) (w : World)
      → r.status ≡ ReceiptStatus.committed
      → returned (execute_existing ctx spec key (some r) w) ≡ (ok (completed r.result true), w)
  unfolding execute_existing ◌>>=◌ check_existing check_status return
  settled key r w e = rw e refl

  -- A settled or a pending receipt, for a connector that only a person can reconcile.
  recover-ends :
      (r : ToolReceiptRow)
      → spec.reconcile ≡ none
      → IsQuiet (recover ctx spec reconcile (some r)) (λ _ _. ⊥)
  unfolding recover reconcile_pending
  recover-ends r manual =
      subst (λ ask. IsQuiet (reconcile_pending ctx spec r ask) (λ _ _. ⊥)) (sym manual)
        (end_uncertain-IsQuiet ctx spec (λ _ _. ⊥) r.id _)

  manual_is_quiet :
      (key : ℕ) (r : ToolReceiptRow)
      → spec.recovery ≡ reconcile
      → spec.reconcile ≡ none
      → IsQuiet (execute_existing ctx spec key (some r)) (λ _ _. ⊥)
  unfolding execute_existing
  manual_is_quiet key r policy manual =
      follows _ _ _ (check_existing-IsQuiet ctx spec (some r)) (λ _.
        >>=-IsQuiet (λ _ _. ⊥) _ _ _
          (subst (λ p. IsQuiet (recover ctx spec p (some r)) (λ _ _. ⊥)) (sym policy)
            (recover-ends r manual))
          (λ _ _ none_there. absurd none_there))

-- Where the third query of an execution, made by the owner of its run and not cancelled before, finds
-- a COMMITTED receipt of the key, the execution returns that receipt's result as deduplicated, calls
-- no provider, and leaves the database as other sessions made it.
pub execute_governed_action-deduplicates :
    (ctx : GovernedActionContext) (spec : GovernedActionSpec) (w : World) (r : ToolReceiptRow)
    → ctx.aborted (arrive w) ≡ false
    → is_current_owner ctx.run.id ctx.attempt.id (second_at ctx spec w).db ≡ true
    → existing_at ctx spec w ≡ some r
    → r.status ≡ ReceiptStatus.committed
    → (execute_governed_action ctx spec w ≡ (ok (completed r.result true), third_at ctx spec w))
      × ((third_at ctx spec w).calls ≡ w.calls)
execute_governed_action-deduplicates ctx spec w r running owns found committed = (
  starts ctx spec w running owns
      ∙ ap
          (λ existing.
            returned (execute_existing ctx spec (key_at ctx spec w) existing (third_at ctx spec w)))
          found
      ∙ settled ctx spec (key_at ctx spec w) r (third_at ctx spec w) committed,
  third_at-calls ctx spec w,
)

-- A connector that cannot be asked what became of a call makes it at most once: where its execution,
-- made by the owner of its run and not cancelled before, finds any receipt of the key, whatever its
-- status, it does not call the provider.
pub execute_governed_action-manual :
    (ctx : GovernedActionContext) (spec : GovernedActionSpec) (w : World) (r : ToolReceiptRow)
    → spec.recovery ≡ reconcile
    → spec.reconcile ≡ none
    → ctx.aborted (arrive w) ≡ false
    → is_current_owner ctx.run.id ctx.attempt.id (second_at ctx spec w).db ≡ true
    → existing_at ctx spec w ≡ some r
    → (execute_governed_action ctx spec w).1.calls ≡ w.calls
execute_governed_action-manual ctx spec w r policy manual running owns found =
    rw (starts ctx spec w running owns, found, returned-calls)
      ((manual_is_quiet ctx spec (key_at ctx spec w) r policy manual (third_at ctx spec w)).0
        ∙ third_at-calls ctx spec w)
