-- ===== src/Store/Admissions.antt =====
-- src/store/admissions.ts: reserving, recording and releasing a tenant's run capacity. A deposit of
-- tokens is a natural number, as the tables' checks have it.
pub mod Capacity
use managed_agents_runtime.Prelude.{
  ℕ, ◌+◌, ◌-◌, ◌*◌, ◌/◌, String, Bool, true, false, not, ◌&&◌, ◌||◌, List, ◌∷◌, [], ◌++◌, Option,
  none, some, if◌then◌else◌, ◌==◌, leb, ltb, filter, length, row, update_where,
}
use managed_agents_runtime.Json.{Json, num, obj, Fields, end, field, Payload, member}
use managed_agents_runtime.Core.Types.{
  RunStatus, RunRow, EventType, model_invocation_completed, RunEventRow,
}
use managed_agents_runtime.Core.StateMachine.{is_terminal}
use managed_agents_runtime.Store.Rows.{TenantRow, is_active_tenant, AdmissionRow, RunAdmissionKind}
use managed_agents_runtime.Store.Database.{
  Db, Tx, pure, throw, ◌>>=◌, ◌>>◌, modify, gets, throw_if, or_throw, admission_rejected,
  tenant_unavailable, concurrency_exhausted, token_capacity_exhausted, duplicate_key,
}
use text.Mathlib.Text.{◌==◌ as str_eq}

pub record AdmissionCapacity : Type 0 where
  pub reserved_tokens : ℕ
  pub effective_token_budget : Option ℕ

unfoldable pub lock_run_admission_tenant_row : ℕ → Tx TenantRow
lock_run_admission_tenant_row tenant_id = do
  tenant ← gets (λ db. row TenantRow.id tenant_id db.tenants)
  or_throw tenant (admission_rejected tenant_unavailable)

unfoldable pub lock_run_admission_tenant : ℕ → Tx TenantRow
lock_run_admission_tenant tenant_id = do
  tenant ← lock_run_admission_tenant_row tenant_id
  throw_if (not (is_active_tenant tenant.status)) (admission_rejected tenant_unavailable)
  pure tenant

-- The status of the run of an admission is terminal, by the join with `runs`.
abbrev pub terminal_of : Option RunRow → Bool
terminal_of none = false
terminal_of (some r) = is_terminal r.status

abbrev pub run_is_terminal : List RunRow → ℕ → Bool
run_is_terminal runs run_id = terminal_of (row RunRow.id run_id runs)

abbrev pub is_active_of : ℕ → AdmissionRow → Bool
is_active_of tenant_id a = a.tenant_id == tenant_id && a.active

-- The UPDATE that releases the admissions whose runs have ended.
unfoldable pub reconcile_terminal : ℕ → Db → Db
reconcile_terminal tenant_id db = record db {
  admissions =
      update_where (λ a. is_active_of tenant_id a && run_is_terminal db.runs a.run_id)
        (λ a. record a {
          active = false;
          released_at = some db.now;
          release_reason = some "reconciled_terminal";
        })
        db.admissions;
}

unfoldable pub count_active : ℕ → Db → ℕ
count_active tenant_id db = length (filter (is_active_of tenant_id) db.admissions)

-- `(payload->'usage'->>key)::bigint`, 0 where it is missing.
num_field : String → Fields → ℕ
num_field key end = 0
num_field key (field k (num n) fs) = if str_eq k key then n else num_field key fs
num_field key (field k v fs) = if str_eq k key then 0 else num_field key fs

unfoldable pub usage_tokens : Payload → String → ℕ
unfolding num_field member
usage_tokens payload key = elim (member "usage" payload) [
  | some (obj fs) ↦ num_field key fs
  | _ ↦ 0
]

abbrev is_model_completed : EventType → Bool
is_model_completed model_invocation_completed = true
is_model_completed _ = false

abbrev day_of : ℕ → ℕ
day_of t = t / 86400000

abbrev run_tenant_is : List RunRow → ℕ → ℕ → Bool
run_tenant_is runs run_id tenant_id = elim (row RunRow.id run_id runs) [
  | none ↦ false
  | some r ↦ r.tenant_id == tenant_id
]

used_from : ℕ → List RunRow → ℕ → List RunEventRow → ℕ
unfolding usage_tokens
used_from tenant_id runs day [] = 0
used_from tenant_id runs day (e ∷ es) =
    (if is_model_completed e.type
        && run_tenant_is runs e.run_id tenant_id
        && day_of e.created_at == day
      then usage_tokens e.payload "inputTokens" + usage_tokens e.payload "outputTokens"
      else 0)
    + used_from tenant_id runs day es

-- `used_today`: the tokens of the model calls of the tenant's runs in the current UTC day.
unfoldable pub used_today : ℕ → Db → ℕ
unfolding used_from
used_today tenant_id db = used_from tenant_id db.runs (day_of db.now) db.events

-- `GREATEST(reserved_tokens - tokens_used, 0)`, for an admission that joins a run.
abbrev pub unused_in : Option RunRow → ℕ → ℕ
unused_in none reserved = 0
unused_in (some r) reserved = reserved - r.tokens_used

abbrev pub unused_of : List RunRow → AdmissionRow → ℕ
unused_of runs a = unused_in (row RunRow.id a.run_id runs) a.reserved_tokens

unfoldable pub sum_unused : ℕ → List RunRow → List AdmissionRow → ℕ
sum_unused tenant_id runs [] = 0
sum_unused tenant_id runs (a ∷ rest) =
    (if is_active_of tenant_id a then unused_of runs a else 0) + sum_unused tenant_id runs rest

unfoldable pub remaining_reserved : ℕ → Db → ℕ
unfolding sum_unused
remaining_reserved tenant_id db = sum_unused tenant_id db.runs db.admissions

-- `requested ?? available`. What is available may be negative in the source: a reservation passes
-- the tests `reservation <= 0n || reservation > available` exactly if it is positive and fits.
unfoldable pub reserve_within : Option ℕ → ℕ → ℕ → ℕ → Option ℕ
reserve_within (some requested) daily used reserved =
    if leb requested 0 || not (leb (requested + used + reserved) daily)
    then none
    else some requested
reserve_within none daily used reserved =
    if leb daily (used + reserved) then none else some (daily - used - reserved)

abbrev pub concurrency_full : Option ℕ → ℕ → Bool
concurrency_full none active = false
concurrency_full (some cap) active = leb cap active

abbrev is_zero_budget : Option ℕ → Bool
is_zero_budget none = false
is_zero_budget (some n) = leb n 0

abbrev or_zero : Option ℕ → ℕ
or_zero none = 0
or_zero (some n) = n

-- The decision after the counts are read.
unfoldable pub admit : TenantRow → Option ℕ → ℕ → ℕ → Option ℕ → Tx AdmissionCapacity
admit tenant requested used reserved none =
    pure (record { reserved_tokens = or_zero requested; effective_token_budget = requested })
admit tenant requested used reserved (some daily) = do
  reservation ←
      or_throw (reserve_within requested daily used reserved)
        (admission_rejected token_capacity_exhausted)
  pure (record { reserved_tokens = reservation; effective_token_budget = some reservation })

-- What follows once the tenant's row is locked.
unfoldable pub prepare_locked : ℕ → Option ℕ → TenantRow → Tx AdmissionCapacity
prepare_locked tenant_id token_budget tenant = do
  modify (reconcile_terminal tenant_id)
  active ← gets (count_active tenant_id)
  throw_if (concurrency_full tenant.max_concurrent_runs active)
      (admission_rejected concurrency_exhausted)
  throw_if (is_zero_budget token_budget) (admission_rejected token_capacity_exhausted)
  used ← gets (used_today tenant_id)
  reserved ← gets (remaining_reserved tenant_id)
  admit tenant token_budget used reserved tenant.daily_token_budget

unfoldable pub prepare_run_admission : ℕ → Option ℕ → Tx AdmissionCapacity
prepare_run_admission tenant_id token_budget = do
  tenant ← lock_run_admission_tenant tenant_id
  prepare_locked tenant_id token_budget tenant

abbrev is_some_row : {A : Type 0} → Option A → Bool
is_some_row none = false
is_some_row (some _) = true

abbrev pub new_admission : ℕ → ℕ → RunAdmissionKind → ℕ → AdmissionRow
new_admission run_id tenant_id kind reserved_tokens = record {
  run_id = run_id;
  tenant_id = tenant_id;
  kind = kind;
  active = true;
  reserved_tokens = reserved_tokens;
  released_at = none;
  release_reason = none;
}

-- The INSERT, with the PRIMARY KEY of the table.
unfoldable pub record_run_admission : ℕ → ℕ → RunAdmissionKind → ℕ → Tx (Unit {0})
record_run_admission run_id tenant_id kind reserved_tokens = do
  earlier ← gets (λ db. row AdmissionRow.run_id run_id db.admissions)
  throw_if (is_some_row earlier) duplicate_key
  modify (λ db. record db {
    admissions = new_admission run_id tenant_id kind reserved_tokens ∷ db.admissions;
  })

-- The rows that the UPDATE of `releaseRunAdmission` leaves.
unfoldable pub release_run_admission : ℕ → String → Db → Db
release_run_admission run_id reason db = record db {
  admissions =
      update_where (λ a. a.run_id == run_id && a.active)
        (λ a. record a { active = false; released_at = some db.now; release_reason = some reason })
        db.admissions;
}
