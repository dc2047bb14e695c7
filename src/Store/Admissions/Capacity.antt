-- ===== src/Store/Admissions/Capacity.antt =====
-- The promise of src/store/admissions.ts: a tenant's active runs and reserved tokens stay within its
-- limits.
use managed_agents_runtime.Prelude.{
  Within, each-Within, Within_at, some_injective, ==_refl, ℕ, suc, ◌+◌, ◌≤◌, ◌<◌, ◌≡◌, refl, sym,
  ◌∙◌, ◌∷◌, false, Option, none, some, arith, row, Option-cases, inl, inr,
}
use mathlib.Core.Path.{subst}
use managed_agents_runtime.Core.Types.{RunRow}
use managed_agents_runtime.Store.Rows.{TenantRow, TenantStatus, RunAdmissionKind}
use managed_agents_runtime.Store.Database.{Db, ok, >>=-eq-ok}
use managed_agents_runtime.Store.Admissions.{
  AdmissionCapacity, lock_run_admission_tenant_row, lock_run_admission_tenant, concurrency_full,
  reconcile_terminal, count_active, used_today, remaining_reserved, sum_unused, unused_in,
  new_admission, reserve_within, admit, prepare_locked, prepare_run_admission, record_run_admission,
}

-- The limits of a tenant, before one more run.
pub record HasRoom (tenant_id : ℕ) (tenant : TenantRow) (c : AdmissionCapacity) (db : Db)
    : Type 0 where
  pub slots : Within tenant.max_concurrent_runs (λ cap. count_active tenant_id db < cap)
  pub positive : Within tenant.daily_token_budget (λ _. 0 < c.reserved_tokens)
  pub fits : Within tenant.daily_token_budget (λ daily.
      used_today tenant_id db + remaining_reserved tenant_id db + c.reserved_tokens ≤ daily)

reserve_within_lem :
    (requested : Option ℕ) (daily used reserved r : ℕ)
    → reserve_within requested daily used reserved ≡ some r
    → (0 < r) × (used + reserved + r ≤ daily)
unfolding reserve_within
reserve_within_lem none daily used reserved r h = ground arith
reserve_within_lem (some requested) daily used reserved r h = ground arith

admit_lem :
    (tenant : TenantRow) (requested : Option ℕ) (used reserved daily : ℕ) (db : Db)
    (c : AdmissionCapacity) (db' : Db)
    → admit tenant requested used reserved (some daily) db ≡ ok (c, db')
    → (db' ≡ db) × (0 < c.reserved_tokens) × (used + reserved + c.reserved_tokens ≤ daily)
unfolding admit
admit_lem tenant requested used reserved daily db c db' h =
    elim (Option-cases (reserve_within requested daily used reserved)) [
      | inl nothing ↦ absurd (ground arith)
      | inr (r, e) ↦ ground (arith, reserve_within_lem requested daily used reserved r e)
    ]

lock_run_admission_tenant_lem :
    (tenant_id : ℕ) (db : Db) (tenant : TenantRow) (db' : Db)
    → lock_run_admission_tenant tenant_id db ≡ ok (tenant, db')
    → (row TenantRow.id tenant_id db.tenants ≡ some tenant)
      × (tenant.status ≡ TenantStatus.active)
      × (db' ≡ db)
unfolding lock_run_admission_tenant lock_run_admission_tenant_row
lock_run_admission_tenant_lem tenant_id db tenant db' h = ground arith

prepare_locked-eq-ok :
    (tenant_id : ℕ) (requested : Option ℕ) (tenant : TenantRow) (db : Db) (c : AdmissionCapacity)
    (db' : Db)
    → prepare_locked tenant_id requested tenant db ≡ ok (c, db')
    → let mid = reconcile_terminal tenant_id db in
      (concurrency_full tenant.max_concurrent_runs (count_active tenant_id mid) ≡ false)
      × (admit tenant requested
            (used_today tenant_id mid)
            (remaining_reserved tenant_id mid)
            tenant.daily_token_budget
            mid
          ≡ ok (c, db'))
unfolding prepare_locked
prepare_locked-eq-ok tenant_id requested tenant db c db' h = ground arith

slots_lem :
    (cap : Option ℕ) (active n : ℕ)
    → concurrency_full cap active ≡ false
    → cap ≡ some n
    → active < n
slots_lem none active n h e = absurd (cc)
slots_lem (some m) active n h e = ground arith

admit-same :
    (tenant : TenantRow) (requested daily : Option ℕ) (used reserved : ℕ) (db : Db)
    (c : AdmissionCapacity) (db' : Db)
    → admit tenant requested used reserved daily db ≡ ok (c, db')
    → db' ≡ db
unfolding admit
admit-same tenant requested none used reserved db c db' h = cc
admit-same tenant requested (some daily) used reserved db c db' h =
    elim (Option-cases (reserve_within requested daily used reserved)) [
      | inl nothing ↦ absurd (ground arith)
      | inr (r, e) ↦ ground arith
    ]

-- A run is admitted only to an active tenant with room for it: once the reservations of ended runs
-- are released, the tenant's active runs are fewer than its limit, and under a daily budget the
-- tokens used today, those reserved for active runs and the new reservation, which is not zero, fit
-- the budget together.
pub prepare_run_admission-HasRoom :
    (tenant_id : ℕ) (requested : Option ℕ) (db : Db) (c : AdmissionCapacity) (db' : Db)
    → prepare_run_admission tenant_id requested db ≡ ok (c, db')
    → (tenant : TenantRow) × (row TenantRow.id tenant_id db.tenants ≡ some tenant)
      × (tenant.status ≡ TenantStatus.active)
      × (db' ≡ reconcile_terminal tenant_id db)
      × HasRoom tenant_id tenant c db'
unfolding prepare_run_admission
prepare_run_admission-HasRoom tenant_id requested db c db' h =
    let (tenant, mid, locked, rest) = >>=-eq-ok (lock_run_admission_tenant tenant_id) _ db h in
    let (found, active, same) = lock_run_admission_tenant_lem tenant_id db tenant mid locked in
    let here = subst (λ m. prepare_locked tenant_id requested tenant m ≡ ok (c, db')) same rest in
    let (free, admitted) = prepare_locked-eq-ok tenant_id requested tenant db c db' here in
    let kept =
      admit-same tenant requested tenant.daily_token_budget _ _ (reconcile_terminal tenant_id db) c
        db' admitted in
    let tokens = λ (daily : ℕ) (e : tenant.daily_token_budget ≡ some daily).
      admit_lem tenant requested (used_today tenant_id (reconcile_terminal tenant_id db))
        (remaining_reserved tenant_id (reconcile_terminal tenant_id db)) daily
        (reconcile_terminal tenant_id db) c db'
        (subst
          (λ o.
            admit tenant requested (used_today tenant_id (reconcile_terminal tenant_id db))
              (remaining_reserved tenant_id (reconcile_terminal tenant_id db)) o
              (reconcile_terminal tenant_id db)
            ≡ ok (c, db'))
          e admitted) in
    (
      tenant,
      found,
      active,
      kept,
      subst (HasRoom tenant_id tenant c) (sym kept) (record {
        slots = each-Within _ _ (λ cap e. slots_lem tenant.max_concurrent_runs _ cap free e);
        positive = each-Within _ _ (λ daily e. (tokens daily e).1);
        fits = each-Within _ _ (λ daily e. (tokens daily e).2);
      }),
    )

record_run_admission-eq-ok :
    (run_id tenant_id : ℕ) (kind : RunAdmissionKind) (reserved : ℕ) (db db' : Db)
    → record_run_admission run_id tenant_id kind reserved db ≡ ok (tt, db')
    → db' ≡ record db { admissions = new_admission run_id tenant_id kind reserved ∷ db.admissions }
unfolding record_run_admission
record_run_admission-eq-ok run_id tenant_id kind reserved db db' h = ground arith

unused_in-le : (r : Option RunRow) (reserved : ℕ) → unused_in r reserved ≤ reserved
unused_in-le none reserved = omega arith
unused_in-le (some r) reserved = omega arith

recorded_within :
    (run_id tenant_id : ℕ) (kind : RunAdmissionKind) (reserved : ℕ) (db : Db)
    → let db' = record db {
      admissions = new_admission run_id tenant_id kind reserved ∷ db.admissions;
    } in
      (count_active tenant_id db' ≡ suc (count_active tenant_id db))
      × (used_today tenant_id db' ≡ used_today tenant_id db)
      × (remaining_reserved tenant_id db' ≤ reserved + remaining_reserved tenant_id db)
unfolding count_active remaining_reserved used_today sum_unused
recorded_within run_id tenant_id kind reserved db =
    let own = ==_refl tenant_id in
    (rw own, refl, rw own (omega (arith, unused_in-le (row RunRow.id run_id db.runs) reserved)))

-- Admission never commits a tenant beyond its limits: after a reservation was prepared and recorded,
-- the tenant's active runs are within its limit, and the tokens used today and those still reserved
-- are within its daily budget.
pub record_run_admission-within :
    (run_id tenant_id : ℕ) (kind : RunAdmissionKind) (requested : Option ℕ) (tenant : TenantRow)
    (db : Db) (c : AdmissionCapacity) (mid db' : Db)
    → row TenantRow.id tenant_id db.tenants ≡ some tenant
    → prepare_run_admission tenant_id requested db ≡ ok (c, mid)
    → record_run_admission run_id tenant_id kind c.reserved_tokens mid ≡ ok (tt, db')
    → Within tenant.max_concurrent_runs (λ cap. count_active tenant_id db' ≤ cap)
      × Within tenant.daily_token_budget
          (λ daily. used_today tenant_id db' + remaining_reserved tenant_id db' ≤ daily)
record_run_admission-within run_id tenant_id kind requested tenant db c mid db' there prepared
      recorded =
    let (tenant', found, _, _, room) =
      prepare_run_admission-HasRoom tenant_id requested db c mid prepared in
    let same = some_injective tenant' tenant (sym found ∙ there) in
    let room' : HasRoom tenant_id tenant c mid = subst (λ t. HasRoom tenant_id t c mid) same room in
    let (counted, used, left) = recorded_within run_id tenant_id kind c.reserved_tokens mid in
    let after : Db = record mid {
      admissions = new_admission run_id tenant_id kind c.reserved_tokens ∷ mid.admissions;
    } in
    subst
      (λ d.
        Within tenant.max_concurrent_runs (λ cap. count_active tenant_id d ≤ cap)
        × Within tenant.daily_token_budget
            (λ daily. used_today tenant_id d + remaining_reserved tenant_id d ≤ daily))
      (sym (record_run_admission-eq-ok run_id tenant_id kind c.reserved_tokens mid db' recorded))
      (
        each-Within tenant.max_concurrent_runs (λ cap. count_active tenant_id after ≤ cap)
            (λ cap e. omega (arith, Within_at _ _ cap room'.slots e, counted)),
        each-Within tenant.daily_token_budget
            (λ daily. used_today tenant_id after + remaining_reserved tenant_id after ≤ daily)
            (λ daily e. omega (arith, Within_at _ _ daily room'.fits e, used, left)),
      )
