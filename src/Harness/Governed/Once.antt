-- ===== src/Harness/Governed/Once.antt =====
-- How often, and with what authority, an execution of src/harness/governedAction.ts calls the
-- provider.
use managed_agents_runtime.Prelude.{
  ℕ, ◌≡◌, ◌≢◌, inl, inr, refl, Bool, false, ◌||◌, ◌∷◌, Option, none, some, Some,
}
use mathlib.Core.Path.{subst}
use managed_agents_runtime.Json.{Payload}
use managed_agents_runtime.Store.Rows.{CapabilityGrantRow, ToolReceiptRow}
use managed_agents_runtime.Store.Database.{Error, ok}
use managed_agents_runtime.Store.Grants.{head}
use managed_agents_runtime.Transition.{is_none}
use managed_agents_runtime.Harness.Governed.{
  GovernedResult, completed, Call, World, Outcome, next, exit, thrown, Dispatched,
  GovernedActionSpec, GovernedActionContext,
}
use managed_agents_runtime.Harness.Governed.Dispatch.{open_receipt}
use managed_agents_runtime.Harness.Governed.Execute.{
  execute_with_grant, execute_recovered, execute_existing, execute_governed_action_fenced,
  check_aborted, execute_locked, returned, execute_governed_action,
}
use managed_agents_runtime.Harness.Governed.Effects.{
  IsQuiet, IsEarly, Anything, OnceAt, >>=-OnceAt, done-IsQuiet, throw-IsQuiet, if-IsQuiet,
  query-IsQuiet,
}
use managed_agents_runtime.Harness.Governed.Quiet.{
  tx_is_quiet, look_is_quiet, check_existing-IsQuiet, recover-IsQuiet,
}
use managed_agents_runtime.Harness.Governed.Approved.{
  validate_action-IsQuiet, check_policy-IsQuiet, approve_action-IsQuiet, resolve_credential-IsQuiet,
  recheck_approval-IsQuiet,
}
use managed_agents_runtime.Harness.Governed.Committed.{
  HasValue, IsDelivered, dispatch_and_commit-OnceAt,
}
use managed_agents_runtime.Harness.Governed.Cleared.{OwnsRun, last_checks-IsQuiet}

module _ (ctx : GovernedActionContext) (spec : GovernedActionSpec) where
  -- What is known of a call: its key, and that the attempt owned its run in the database of the call.
  abbrev pub IsAuthorized : ℕ → Call → Type 0
  IsAuthorized key c = (c.key ≡ key) × OwnsRun ctx c.at

  -- What is known of the call of an execution, and of the end that it came to.
  abbrev IsDue : ℕ → Call → Outcome GovernedResult × World → Type 0
  IsDue key c o = IsAuthorized key c × IsDelivered ctx spec c o

  open_receipt-IsQuiet :
      (key : ℕ) (existing : Option ToolReceiptRow) (usable : Option CapabilityGrantRow)
      (approval_id : Option ℕ)
      → IsQuiet (open_receipt ctx spec key existing usable approval_id) Anything
  unfolding open_receipt
  open_receipt-IsQuiet key none usable approval_id = tx_is_quiet _
  open_receipt-IsQuiet key (some r) usable approval_id = done-IsQuiet Anything r (λ w. tt)

  module _ (key : ℕ) (existing : Option ToolReceiptRow) (absent : Bool) where
    execute_with_grant-OnceAt :
        (usable : Option CapabilityGrantRow) (w : World)
        → OnceAt (IsDue key) w (execute_with_grant ctx spec key existing absent usable w)
    unfolding execute_with_grant
    execute_with_grant-OnceAt usable =
        >>=-OnceAt _ (IsDue key) _ _ (check_policy-IsQuiet ctx spec existing absent usable)
          (λ _ w1 _.
            >>=-OnceAt _ (IsDue key) _ _
              (approve_action-IsQuiet ctx spec key existing absent usable)
              (λ id w2 _.
                >>=-OnceAt _ (IsDue key) _ _ (resolve_credential-IsQuiet ctx spec id)
                  (λ credential w3 _.
                    >>=-OnceAt _ (IsDue key) _ _
                      (recheck_approval-IsQuiet ctx spec key existing absent usable id)
                      (λ _ w4 _.
                        >>=-OnceAt _ (IsDue key) _ _ (open_receipt-IsQuiet key existing usable id)
                          (λ receipt w5 _.
                            >>=-OnceAt _ (IsDue key) _ _
                              (last_checks-IsQuiet ctx spec key receipt (is_none existing || absent)
                                usable id)
                              (λ _ w6 owns.
                                dispatch_and_commit-OnceAt ctx spec (IsAuthorized key) key receipt
                                  credential w6 (refl, owns))
                              w5)
                          w4)
                      w3)
                  w2)
              w1)

    execute_recovered-OnceAt :
        (w : World) → OnceAt (IsDue key) w (execute_recovered ctx spec key existing absent w)
    unfolding execute_recovered
    execute_recovered-OnceAt =
        >>=-OnceAt Anything (IsDue key) _ _ (query-IsQuiet Anything _ (λ w. tt)) (λ snapshot w1 _.
          >>=-OnceAt _ (IsDue key) _ _ (validate_action-IsQuiet ctx spec existing absent _ _)
            (λ _ w2 _. execute_with_grant-OnceAt (head _) w2) w1)

  execute_existing-OnceAt :
      (key : ℕ) (existing : Option ToolReceiptRow) (w : World)
      → OnceAt (IsDue key) w (execute_existing ctx spec key existing w)
  unfolding execute_existing
  execute_existing-OnceAt key existing =
      >>=-OnceAt _ (IsDue key) _ _ (check_existing-IsQuiet ctx spec existing) (λ _ w1 _.
        >>=-OnceAt _ (IsDue key) _ _ (recover-IsQuiet ctx spec spec.recovery existing)
          (λ absent w2 _. execute_recovered-OnceAt key existing absent w2) w1)

  execute_governed_action_fenced-OnceAt :
      (key : ℕ) (w : World) → OnceAt (IsDue key) w (execute_governed_action_fenced ctx spec key w)
  unfolding execute_governed_action_fenced
  execute_governed_action_fenced-OnceAt key =
      >>=-OnceAt _ (IsDue key) _ _ (tx_is_quiet _) (λ _ w1 _.
        >>=-OnceAt Anything (IsDue key) _ _ (query-IsQuiet Anything _ (λ w. tt))
          (λ existing w2 _. execute_existing-OnceAt key existing w2) w1)

  check_aborted-IsQuiet :
      (reason : Option Error) (aborted : Bool) → IsQuiet (check_aborted reason aborted) Anything
  unfolding check_aborted
  check_aborted-IsQuiet reason aborted =
      if-IsQuiet Anything aborted _ _ (throw-IsQuiet Anything _)
        (done-IsQuiet Anything tt (λ w. tt))

pub returned-calls : (o : Outcome GovernedResult × World) → (returned o).1 ≡ o.1
returned-calls (next r, w) = refl
returned-calls (exit r, w) = refl
returned-calls (thrown e, w) = refl

module _ (ctx : GovernedActionContext) (spec : GovernedActionSpec) where
  abbrev IsRooted : Call → Outcome GovernedResult × World → Type 0
  IsRooted c o =
      ((root : ℕ) × IsAuthorized ctx spec (ctx.idempotency_key root) c) × IsDelivered ctx spec c o

  rooted :
      (root : ℕ) (w : World) (o : Outcome GovernedResult × World)
      → OnceAt (IsDue ctx spec (ctx.idempotency_key root)) w o
      → OnceAt IsRooted w o
  rooted root w o (inl quiet) = inl quiet
  rooted root w o (inr (c, called, (p, q))) = inr (c, called, ((root, p), q))

  pub execute_locked-OnceAt : (w : World) → OnceAt IsRooted w (execute_locked ctx spec w)
  unfolding execute_locked
  execute_locked-OnceAt =
      >>=-OnceAt Anything IsRooted _ _ (query-IsQuiet Anything _ (λ w. tt)) (λ root w1 _.
        >>=-OnceAt _ IsRooted _ _ (look_is_quiet ctx.aborted)
          (λ aborted w2 _.
            >>=-OnceAt _ IsRooted _ _ (check_aborted-IsQuiet ctx spec ctx.abort_reason aborted)
              (λ _ w3 _.
                rooted root w3 _
                  (execute_governed_action_fenced-OnceAt ctx spec (ctx.idempotency_key root) w3))
              w2)
          w1)

module _ (ctx : GovernedActionContext) (spec : GovernedActionSpec) where
  -- One call, and a receipt committed with what it answered.
  abbrev pub IsEffected : World → Option Payload → World → Type 0
  IsEffected w value w' =
      (c : Call) × (w'.calls ≡ c ∷ w.calls)
      × (d : Dispatched) × (sent : World) × (spec.dispatch c.credential sent ≡ ok d)
      × (value ≡ some d.value)
      × Some (HasValue ctx spec d) w'.db.receipts

  not_early : (r : GovernedResult) (value : Option Payload) → IsEarly r → r ≢ completed value false
  not_early (completed v b) value early e = absurd (cc)
  not_early r value early e = cc

  fresh :
      (w : World) (o : Outcome GovernedResult × World) (value : Option Payload) (w' : World)
      → OnceAt (IsRooted ctx spec) w o
      → returned o ≡ (ok (completed value false), w')
      → IsEffected w value w'
  fresh w (next r, u) value w' (inl (_, none_there)) e = absurd none_there
  fresh w (next r, u) value w' (inr (c, called, (_, (d, sent, answered, (is, kept))))) e =
      let there : u ≡ w' = cc in
      let same : value ≡ some d.value = cc in
      subst (IsEffected w value) there (c, called, d, sent, answered, same, kept)
  fresh w (exit r, u) value w' (inl (_, early)) e = absurd (not_early r value early (cc))
  fresh w (exit r, u) value w' (inr (c, called, (_, early))) e =
      absurd (not_early r value early (cc))
  fresh w (thrown x, u) value w' once e = absurd (cc)

-- An execution that completes and was not deduplicated called the provider once, returns what it
-- answered, and leaves a receipt COMMITTED with that value, its digest and its transaction.
pub execute_governed_action-completed :
    (ctx : GovernedActionContext) (spec : GovernedActionSpec) (w : World) (value : Option Payload)
    (w' : World)
    → execute_governed_action ctx spec w ≡ (ok (completed value false), w')
    → IsEffected ctx spec w value w'
unfolding execute_governed_action
execute_governed_action-completed ctx spec w value w' =
    fresh ctx spec w _ value w' (execute_locked-OnceAt ctx spec w)
