-- ===== src/Store/Approvals.antt =====
-- src/store/approvals.ts: a person's decision on an action. `clock` is what `clock_timestamp()` reads.
pub mod Decision
use managed_agents_runtime.Prelude.{
  ℕ, String, Bool, true, false, not, ◌&&◌, ◌||◌, List, ◌∷◌, [], ◌++◌, Option, none, some,
  if◌then◌else◌, leb, ◌==◌, filter, find, any, row, update_where,
}
use managed_agents_runtime.Store.Rows.{
  Text, text_eq, ApprovalRow, ApprovalStatus, pending, approved, denied, expired,
}
use managed_agents_runtime.Store.Database.{
  Db, Tx, ok, ◌>>=◌, ◌>>◌, gets, modify, throw_if, pure, duplicate_key,
}

abbrev pub is_pending : ApprovalStatus → Bool
is_pending pending = true
is_pending _ = false

-- The row of the INSERT: the columns that it does not name have their defaults.
abbrev pub new_approval : ℕ → ℕ → ℕ → Text → Text → ℕ → ℕ → ApprovalRow
new_approval id run_id attempt_id action resource idem_key now = record {
  id = id;
  run_id = run_id;
  requested_by_attempt_id = some attempt_id;
  action = action;
  resource = resource;
  idem_key = idem_key;
  status = pending;
  decision_by = none;
  decided_at = none;
  expires_at = none;
  created_at = now;
}

unfoldable pub insert_approval : ℕ → ℕ → ℕ → Text → Text → ℕ → Tx ApprovalRow
insert_approval id run_id attempt_id action resource idem_key = do
  taken ← gets (λ db. any (λ a. a.id == id) db.approvals)
  throw_if taken duplicate_key
  db ← gets (λ db. db)
  let approval = new_approval id run_id attempt_id action resource idem_key db.now
  modify (λ db. record db { approvals = approval ∷ db.approvals })
  pure approval

unfoldable pub get_approval : ℕ → Db → Option ApprovalRow
get_approval id db = row ApprovalRow.id id db.approvals

abbrev status_no : ApprovalStatus → ℕ
status_no pending = 0
status_no approved = 1
status_no denied = 2
status_no expired = 3

abbrev has_status : Option ApprovalStatus → ApprovalRow → Bool
has_status none a = true
has_status (some status) a = status_no a.status == status_no status

abbrev insert_by_created : ApprovalRow → List ApprovalRow → List ApprovalRow
insert_by_created a [] = a ∷ []
insert_by_created a (b ∷ rest) =
    let later = insert_by_created a rest in
    if leb a.created_at b.created_at then a ∷ b ∷ rest else b ∷ later

-- `ORDER BY created_at ASC`.
abbrev sort_by_created : List ApprovalRow → List ApprovalRow
sort_by_created [] = []
sort_by_created (a ∷ rest) = insert_by_created a (sort_by_created rest)

unfoldable pub list_approvals : ℕ → Option ApprovalStatus → Db → List ApprovalRow
list_approvals run_id status db =
    sort_by_created (filter (λ a. (a.run_id == run_id) && has_status status a) db.approvals)

-- `a.expires_at IS NOT NULL AND a.expires_at <= clock_timestamp()`.
abbrev pub is_past : ℕ → Option ℕ → Bool
is_past clock none = false
is_past clock (some at) = leb at clock

-- `status = 'PENDING' || status = 'APPROVED'`.
abbrev pub is_usable : ApprovalStatus → Bool
is_usable pending = true
is_usable approved = true
is_usable _ = false

-- The WHERE clause: the approval of this run and this very action.
abbrev pub is_approval_of : ℕ → ℕ → Text → Text → ℕ → ApprovalRow → Bool
is_approval_of approval_id run_id action resource idem_key a =
    (a.id == approval_id)
    && (a.run_id == run_id)
    && text_eq a.action action
    && text_eq a.resource resource
    && (a.idem_key == idem_key)

abbrev expire : ApprovalRow → ApprovalRow
expire a = record a { status = expired }

-- What follows once the row is locked.
unfoldable pub expire_if_past : ℕ → Option ApprovalRow → Tx (Option ApprovalRow)
expire_if_past clock none db = ok (none, db)
expire_if_past clock (some a) db =
    if is_past clock a.expires_at && is_usable a.status
    then ok (
      some (expire a),
      record db {
        approvals = update_where (λ b. (b.id == a.id) && is_usable b.status) expire db.approvals;
      },
    )
    else ok (some a, db)

unfoldable pub lock_approval_for_execution : ℕ → ℕ → ℕ → Text → Text → ℕ → Tx (Option ApprovalRow)
unfolding expire_if_past
lock_approval_for_execution clock approval_id run_id action resource idem_key db =
    expire_if_past clock
      (find (is_approval_of approval_id run_id action resource idem_key) db.approvals) db

pub data Decided : Type 0 where
  approve deny : Decided

abbrev pub decided_status : Decided → ApprovalStatus
decided_status approve = approved
decided_status deny = denied

abbrev pub is_pending_row : ℕ → ApprovalRow → Bool
is_pending_row approval_id a = (a.id == approval_id) && is_pending a.status

unfoldable pub decide : Decided → String → ℕ → ApprovalRow → ApprovalRow
decide decision decided_by now a = record a {
  status = decided_status decision;
  decision_by = some decided_by;
  decided_at = some now;
}

abbrev map_row : (ApprovalRow → ApprovalRow) → Option ApprovalRow → Option ApprovalRow
map_row f none = none
map_row f (some a) = some (f a)

unfoldable pub decide_approval : ℕ → Decided → String → Tx (Option ApprovalRow)
unfolding decide
decide_approval approval_id decision decided_by db = ok (
  map_row (decide decision decided_by db.now) (find (is_pending_row approval_id) db.approvals),
  record db {
    approvals =
        update_where (is_pending_row approval_id) (decide decision decided_by db.now) db.approvals;
  },
)
