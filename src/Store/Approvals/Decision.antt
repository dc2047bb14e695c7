-- ===== src/Store/Approvals/Decision.antt =====
-- What a decision of src/store/approvals.ts is good for.
use managed_agents_runtime.Prelude.{
  Within, ℕ, String, ◌≡◌, ◌<◌, refl, sym, Bool, true, false, List, ◌∷◌, [], Option, none, some,
  arith, find, find-passes, find-Some, Some, and-parts, ◌&&◌, ==_iff, ◌==◌, ap, ◌∙◌, update_where,
}
use mathlib.Core.Path.{subst}
use managed_agents_runtime.Store.Rows.{Text, text_eq, ApprovalRow, approved}
use managed_agents_runtime.Store.Database.{Db, ok}
use managed_agents_runtime.Store.Approvals.{
  Decided, approve, deny, decide, is_pending_row, is_past, is_approval_of, expire_if_past,
  lock_approval_for_execution, decide_approval,
}

pub not_past :
    (clock : ℕ) (expires_at : Option ℕ)
    → is_past clock expires_at ≡ false
    → Within expires_at (λ at. clock < at)
not_past clock none h = tt
not_past clock (some t) h = ground arith

pub expire_if_past-approved :
    (clock : ℕ) (o : Option ApprovalRow) (db : Db) (a : ApprovalRow) (db' : Db)
    → expire_if_past clock o db ≡ ok (some a, db')
    → a.status ≡ approved
    → (o ≡ some a) × (is_past clock a.expires_at ≡ false) × (db' ≡ db)
unfolding expire_if_past
expire_if_past-approved clock none db a db' h good = absurd (cc)
expire_if_past-approved clock (some x) db a db' h good = (ground arith, ground arith, ground arith)

text_eq_sound : (s t : Text) → text_eq s t ≡ true → s ≡ t
text_eq_sound [] [] h = refl
text_eq_sound [] (d ∷ t) h = cc
text_eq_sound (c ∷ s) [] h = cc
text_eq_sound (c ∷ s) (d ∷ t) h =
    let (same, rest) = and-parts (c == d) (text_eq s t) h in
    ap (λ x. x ∷ s) ((==_iff c d).0 same) ∙ ap (λ u. d ∷ u) (text_eq_sound s t rest)

five_parts :
    (a b c d e : Bool)
    → (a && b && c && d && e) ≡ true
    → (a ≡ true) × (b ≡ true) × (c ≡ true) × (d ≡ true) × (e ≡ true)
five_parts a b c d e h = (ground arith, ground arith, ground arith, ground arith, ground arith)

-- An approval with this id, of this run, for this action, this resource and this key.
abbrev pub IsFor : ℕ → ℕ → Text → Text → ℕ → ApprovalRow → Type 0
IsFor approval_id run_id action resource idem_key a =
    (a.id ≡ approval_id)
    × (a.run_id ≡ run_id)
    × (a.action ≡ action)
    × (a.resource ≡ resource)
    × (a.idem_key ≡ idem_key)

is_approval_of-IsFor :
    (approval_id run_id : ℕ) (action resource : Text) (idem_key : ℕ) (a : ApprovalRow)
    → is_approval_of approval_id run_id action resource idem_key a ≡ true
    → IsFor approval_id run_id action resource idem_key a
is_approval_of-IsFor approval_id run_id action resource idem_key a h =
    let (named, own, acts, on, keyed) = five_parts _ _ _ _ _ h in
    (
      (==_iff a.id approval_id).0 named,
      (==_iff a.run_id run_id).0 own,
      text_eq_sound a.action action acts,
      text_eq_sound a.resource resource on,
      (==_iff a.idem_key idem_key).0 keyed,
    )

-- An approval that the execution boundary returns as approved is a row of the table, of this run, for
-- this very action, resource and key, it has not expired at the clock that was read, and nothing is
-- changed.
pub lock_approval_for_execution-IsValid :
    (clock approval_id run_id : ℕ) (action resource : Text) (idem_key : ℕ) (db : Db)
    (a : ApprovalRow) (db' : Db)
    → lock_approval_for_execution clock approval_id run_id action resource idem_key db
      ≡ ok (some a, db')
    → a.status ≡ approved
    → IsFor approval_id run_id action resource idem_key a
      × Some (λ b. b ≡ a) db.approvals
      × Within a.expires_at (λ at. clock < at)
      × (db' ≡ db)
unfolding lock_approval_for_execution
lock_approval_for_execution-IsValid clock approval_id run_id action resource idem_key db a db' h
      good =
    let (found, fresh, same) = expire_if_past-approved clock _ db a db' h good in
    (
      is_approval_of-IsFor approval_id run_id action resource idem_key a (
          find-passes (is_approval_of approval_id run_id action resource idem_key) db.approvals a
            found),
      find-Some (is_approval_of approval_id run_id action resource idem_key) db.approvals a found,
      not_past clock a.expires_at fresh,
      same,
    )

nothing_pending :
    (id : ℕ) (decision : Decided) (by : String) (now : ℕ) (xs : List ApprovalRow)
    → find (is_pending_row id) (update_where (is_pending_row id) (decide decision by now) xs) ≡ none
unfolding decide
nothing_pending id approve by now [] = refl
nothing_pending id deny by now [] = refl
nothing_pending id approve by now (x ∷ xs) = ground (arith, nothing_pending id approve by now xs)
nothing_pending id deny by now (x ∷ xs) = ground (arith, nothing_pending id deny by now xs)

idle_update :
    (p : ApprovalRow → Bool) (f : ApprovalRow → ApprovalRow) (xs : List ApprovalRow)
    → find p xs ≡ none
    → update_where p f xs ≡ xs
idle_update p f [] h = refl
idle_update p f (x ∷ xs) h = ground (arith, idle_update p f xs)

-- An approval is decided once: whatever the first decision was, a second one finds nothing pending
-- and changes nothing.
pub decide_approval_once :
    (approval_id : ℕ) (first second : Decided) (by by' : String) (db : Db) (a : Option ApprovalRow)
    (db' : Db)
    → decide_approval approval_id first by db ≡ ok (a, db')
    → decide_approval approval_id second by' db' ≡ ok (none, db')
unfolding decide_approval
decide_approval_once approval_id first second by by' db a db' h =
    let e : db' ≡ record db {
      approvals = update_where (is_pending_row approval_id) (decide first by db.now) db.approvals;
    } =
      ground arith in
    let gone = nothing_pending approval_id first by db.now db.approvals in
    subst (λ d. decide_approval approval_id second by' d ≡ ok (none, d)) (sym e)
      (rw (gone, idle_update (is_pending_row approval_id) (decide second by' db.now) _ gone))
