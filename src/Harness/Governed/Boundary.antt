-- ===== src/Harness/Governed/Boundary.antt =====
-- What the last checks of src/harness/governedAction.ts before a call have found where they let it
-- through, each in the database that it met.
use managed_agents_runtime.Prelude.{
  Within, ℕ, ◌≡◌, ◌<◌, ◌⊎◌, inl, inr, refl, ◌∙◌, sym, Bool, true, false, ◌&&◌, Option, none, some,
  Some, Some-map, find, find-passes, find-Some, arith, ◌==◌, ==_iff, Bool-cases, Option-cases,
}
use mathlib.Core.Path.{subst}
use managed_agents_runtime.Store.Rows.{
  CapabilityGrantRow, ApprovalStatus, ApprovalRow, ToolReceiptRow, approved,
}
use managed_agents_runtime.Store.Database.{Db, Result, ok, err, Tx, with_transaction}
use managed_agents_runtime.Store.Approvals.Decision.{IsFor, lock_approval_for_execution-IsValid}
use managed_agents_runtime.Store.Grants.{is_unexpired, revalidate_grant_for_dispatch}
use managed_agents_runtime.Store.Grants.Pattern.{pattern_matches}
use managed_agents_runtime.Harness.Governed.{
  World, Outcome, next, exit, thrown, Fx, done, throw, continue, ◌>>=◌, arrive, try_tx, in_tx,
  rethrow, look, GovernedActionSpec, GovernedActionContext, codes, assert_current_action_owner,
}
use managed_agents_runtime.Harness.Governed.Audit.{
  approval, policy, lock_approval, revalidate_grant,
}
use managed_agents_runtime.Harness.Governed.Approval.{needs_approval}
use managed_agents_runtime.Harness.Governed.Dispatch.{
  judge_grant, check_grant, judge_status, judge_final, check_final_approval, last_checks,
}
use managed_agents_runtime.Harness.Governed.Effects.{QuietAt, Goes}
use managed_agents_runtime.Harness.Governed.Quiet.{request_fresh_approval-IsQuiet}
use managed_agents_runtime.Harness.Governed.Cleared.{
  OwnsRun, assert_current_action_owner-owns, deny_open-IsQuiet,
}

module _ {A B : Type 0} (f : A → Fx B) (b : B) (w' : World) where
  continue-next :
      (o : Outcome A × World)
      → continue f o ≡ (next b, w')
      → (a : A) × (u : World) × (o ≡ (next a, u)) × (f a u ≡ (next b, w'))
  continue-next (next a, u) h = (a, u, refl, h)
  continue-next (exit r, u) h = absurd (cc)
  continue-next (thrown e, u) h = absurd (cc)

  -- A chain that goes on has two statements that go on.
  >>=-next :
      (m : Fx A) (w : World)
      → (m >>= f) w ≡ (next b, w')
      → (a : A) × (u : World) × (m w ≡ (next a, u)) × (f a u ≡ (next b, w'))
  unfolding ◌>>=◌
  >>=-next m w h = continue-next (m w) h

module _ {A : Type 0} where
  rethrow-next :
      (r : Result A) (u : World) (a : A) (w : World)
      → rethrow r u ≡ (next a, w)
      → (r ≡ ok a) × (u ≡ w)
  unfolding done throw
  rethrow-next (ok x) u a w h = (cc, cc)
  rethrow-next (err e) u a w h = absurd (cc)

  committed :
      (fn : Tx A) (db : Db) (r : Result A) (a : A) (u : World)
      → r ≡ ok a
      → with_transaction fn db ≡ (r, u.db)
      → fn db ≡ ok (a, u.db)
  unfolding with_transaction
  committed fn db r a u e h = ground arith

  -- A transaction that goes on has committed, in the database that it met.
  in_tx-next :
      (fn : Tx A) (w : World) (a : A) (w' : World)
      → in_tx fn w ≡ (next a, w')
      → fn (arrive w).db ≡ ok (a, w'.db)
  unfolding in_tx try_tx
  in_tx-next fn w a w' h =
      let (r, u, tried, rest) = >>=-next rethrow a w' (try_tx fn) w h in
      let (fine, same) = rethrow-next r u a w' rest in
      subst (λ v. fn (arrive w).db ≡ ok (a, v.db)) same (committed fn (arrive w).db r a u fine (cc))

never_next :
    {A : Type 0} (w : World) (o : Outcome A × World) (a : A) (u : World)
    → QuietAt (λ _ _. ⊥) w o
    → o ≡ (next a, u)
    → ⊥
never_next w o a u (_, goes) e = subst (Goes (λ _ _. ⊥)) e goes

three_parts : (a b c : Bool) → (a && b && c) ≡ true → (a ≡ true) × (b ≡ true) × (c ≡ true)
three_parts a b c h = (ground arith, ground arith, ground arith)

two_parts : (a b : Bool) → (a && b) ≡ true → (a ≡ true) × (b ≡ true)
two_parts a b h = (ground arith, ground arith)

module _ (ctx : GovernedActionContext) (spec : GovernedActionSpec) where
  -- The table holds the grant for this run; it has not expired and names the action and the resource.
  abbrev pub IsRevalidated : CapabilityGrantRow → Db → Type 0
  IsRevalidated g db =
      Some
        (λ h.
          (h.id ≡ g.id)
          × (h.run_id ≡ ctx.run.id)
          × Within h.expires_at (λ at. db.now < at)
          × (pattern_matches h.action_pattern (codes spec.action) ≡ true)
          × (pattern_matches h.resource_pattern (codes spec.resource) ≡ true))
        db.grants

  -- The table holds the approval, for the run, the action, the resource and the key; it is APPROVED and
  -- has not expired.
  abbrev pub IsApproved : ℕ → ℕ → Db → Type 0
  IsApproved key id db =
      Some
        (λ a.
          IsFor id ctx.run.id (codes spec.action) (codes spec.resource) key a
          × (a.status ≡ approved)
          × Within a.expires_at (λ at. db.now < at))
        db.approvals

  unexpired :
      (clock : ℕ) (at : Option ℕ) → is_unexpired clock at ≡ true → Within at (λ t. clock < t)
  unexpired clock none h = tt
  unexpired clock (some t) h = ground arith

  revalidated :
      (g : CapabilityGrantRow) (db : Db)
      → revalidate_grant_for_dispatch db.now g.id ctx.run.id
          (codes spec.action)
          (codes spec.resource)
          db
        ≡ true
      → IsRevalidated g db
  unfolding revalidate_grant_for_dispatch
  revalidated g db h =
      let is_it = λ (k : CapabilityGrantRow). (k.id == g.id) && (k.run_id == ctx.run.id) in
      elim (Option-cases (find is_it db.grants)) [
        | inl gone ↦ let here = rw (gone, revalidate_grant_for_dispatch) at h in absurd (cc)
        | inr (k, found) ↦
            let here = rw (found, revalidate_grant_for_dispatch) at h in
            let (fresh, acts, on) = three_parts _ _ _ here in
            let (named, own) = two_parts _ _ (find-passes is_it db.grants k found) in
            Some-map _ _
              (λ x same.
                subst
                  (λ y.
                    (y.id ≡ g.id)
                    × (y.run_id ≡ ctx.run.id)
                    × Within y.expires_at (λ at. db.now < at)
                    × (pattern_matches y.action_pattern (codes spec.action) ≡ true)
                    × (pattern_matches y.resource_pattern (codes spec.resource) ≡ true))
                  (sym same)
                  (
                    (==_iff k.id g.id).0 named,
                    (==_iff k.run_id ctx.run.id).0 own,
                    unexpired db.now k.expires_at fresh,
                    acts,
                    on,
                  ))
              db.grants (find-Some is_it db.grants k found)
      ]

  judge_grant-next :
      (receipt : ToolReceiptRow) (fresh still : Bool) (u : World) (a : Unit {0}) (v : World)
      → judge_grant ctx spec receipt fresh still u ≡ (next a, v)
      → still ≡ true
  unfolding judge_grant
  judge_grant-next receipt fresh true u a v h = refl
  judge_grant-next receipt fresh false u a v h =
      absurd (never_next u _ a v (deny_open-IsQuiet ctx spec (λ _ _. ⊥) receipt fresh _ policy u) h)

  check_grant-next :
      (receipt : ToolReceiptRow) (fresh : Bool) (g : CapabilityGrantRow) (u : World) (a : Unit {0})
      (v : World)
      → check_grant ctx spec receipt fresh (some g) u ≡ (next a, v)
      → IsRevalidated g (arrive u).db
  unfolding check_grant revalidate_grant
  check_grant-next receipt fresh g u a v h =
      let (still, mid, asked, rest) =
        >>=-next (judge_grant ctx spec receipt fresh) a v (in_tx (revalidate_grant ctx spec g.id)) u
          h in
      let fine = judge_grant-next receipt fresh still mid a v rest in
      let read = in_tx-next (revalidate_grant ctx spec g.id) u still mid asked in
      revalidated g (arrive u).db (cc)

  module _ (key id : ℕ) (receipt : ToolReceiptRow) (fresh : Bool) where
    judge_status-next :
        (row : ApprovalRow) (status : ApprovalStatus) (u : World) (a : Unit {0}) (v : World)
        → judge_status ctx spec key receipt fresh row status u ≡ (next a, v)
        → status ≡ approved
    unfolding judge_status
    judge_status-next row ApprovalStatus.approved u a v h = refl
    judge_status-next row ApprovalStatus.expired u a v h = absurd (
        never_next u _ a v
          (request_fresh_approval-IsQuiet ctx spec (λ _ _. ⊥) key (some receipt.id) u) h)
    judge_status-next row ApprovalStatus.denied u a v h =
        absurd
          (never_next u _ a v (deny_open-IsQuiet ctx spec (λ _ _. ⊥) receipt fresh _ approval u) h)
    judge_status-next row ApprovalStatus.pending u a v h =
        absurd
          (never_next u _ a v (deny_open-IsQuiet ctx spec (λ _ _. ⊥) receipt fresh _ approval u) h)

    judge_final-next :
        (locked : Option ApprovalRow) (u : World) (a : Unit {0}) (v : World)
        → judge_final ctx spec key receipt fresh locked u ≡ (next a, v)
        → (row : ApprovalRow) × (locked ≡ some row) × (row.status ≡ approved)
    unfolding judge_final
    judge_final-next none u a v h =
        absurd
          (never_next u _ a v (deny_open-IsQuiet ctx spec (λ _ _. ⊥) receipt fresh _ approval u) h)
    judge_final-next (some row) u a v h = (row, refl, judge_status-next row row.status u a v h)

    approved_there :
        (row : ApprovalRow) (db db' : Db)
        → lock_approval ctx spec key id db ≡ ok (some row, db')
        → row.status ≡ approved
        → IsApproved key id db
    unfolding lock_approval
    approved_there row db db' h good =
        let (is_for, there, lasts, _) =
          lock_approval_for_execution-IsValid db.now id ctx.run.id (codes spec.action)
            (codes spec.resource) key db row db' h good in
        Some-map _ _
          (λ x same.
            subst
              (λ y.
                IsFor id ctx.run.id (codes spec.action) (codes spec.resource) key y
                × (y.status ≡ approved)
                × Within y.expires_at (λ at. db.now < at))
              (sym same) (is_for, good, lasts))
          db.approvals there

    check_final_approval-next :
        (usable : Option CapabilityGrantRow) (u : World) (a : Unit {0}) (v : World)
        → check_final_approval ctx spec key receipt fresh usable (some id) u ≡ (next a, v)
        → (needs_approval usable ≡ false) ⊎ IsApproved key id (arrive u).db
    unfolding check_final_approval
    check_final_approval-next usable u a v h = elim (Bool-cases (needs_approval usable)) [
      | inr free ↦ inl free
      | inl needs ↦
          let (locked, mid, asked, rest) =
            >>=-next (judge_final ctx spec key receipt fresh) a v
              (in_tx (lock_approval ctx spec key id)) u (rw needs at h) in
          let (row, is, good) = judge_final-next locked mid a v rest in
          let read = in_tx-next (lock_approval ctx spec key id) u locked mid asked in
          inr (approved_there row (arrive u).db mid.db (cc) good)
    ]

  look-next :
      (f : World → Result (Unit {0})) (w : World) (r : Result (Unit {0})) (u : World)
      → look f w ≡ (next r, u)
      → u ≡ w
  unfolding look
  look-next f w r u h = cc

-- Where the checks before a call, made for a grant and an approval, let the execution go on, each found
-- what it asks for in the database that it met: the grant is in the table for this run, has not expired
-- and names the action and the resource; if the grant asks for an approval, the approval for the run,
-- the action, the resource and the key is there, APPROVED and not expired; and last, the run is RUNNING
-- under the attempt, which is active and holds its lease.
pub last_checks-IsAuthorized :
    (ctx : GovernedActionContext) (spec : GovernedActionSpec) (key : ℕ) (receipt : ToolReceiptRow)
    (fresh : Bool) (g : CapabilityGrantRow) (id : ℕ) (w w' : World)
    → last_checks ctx spec key receipt fresh (some g) (some id) w ≡ (next tt, w')
    → (u v : World) × (in_tx (assert_current_action_owner ctx) w ≡ (next tt, u))
      × (check_grant ctx spec receipt fresh (some g) u ≡ (next tt, v))
      × IsRevalidated ctx spec g (arrive u).db
      × ((g.requires_approval ≡ false) ⊎ IsApproved ctx spec key id (arrive v).db)
      × OwnsRun ctx w'.db
unfolding last_checks
last_checks-IsAuthorized ctx spec key receipt fresh g id w w' h =
    let (_, u, owned, h1) = >>=-next _ tt w' (in_tx (assert_current_action_owner ctx)) w h in
    let (hook, u1, looked, h2) = >>=-next _ tt w' (look spec.before_dispatch) u h1 in
    let (_, u2, hooked, h3) = >>=-next _ tt w' (rethrow hook) u1 h2 in
    let (_, u2_same) = rethrow-next hook u1 tt u2 hooked in
    let same : u2 ≡ u = sym u2_same ∙ look-next ctx spec spec.before_dispatch u hook u1 looked in
    let (_, v, granted, h4) =
      >>=-next _ tt w' (check_grant ctx spec receipt fresh (some g)) u2 h3 in
    let (_, v1, cleared, h5) =
      >>=-next _ tt w' (check_final_approval ctx spec key receipt fresh (some g) (some id)) v h4 in
    let from_u =
      subst (λ x. check_grant ctx spec receipt fresh (some g) x ≡ (next tt, v)) same granted in
    (
      u,
      v,
      owned,
      from_u,
      check_grant-next ctx spec receipt fresh g u tt v from_u,
      check_final_approval-next ctx spec key id receipt fresh (some g) v tt v1 cleared,
      assert_current_action_owner-owns ctx spec (arrive v1).db tt w'.db
          (in_tx-next (assert_current_action_owner ctx) v1 tt w' h5),
    )
