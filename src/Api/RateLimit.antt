-- ===== src/Api/RateLimit.antt =====
-- src/api/rateLimit.ts: the token buckets, in the process and in Postgres. Tokens are counted in thousandths, so that
-- `elapsedMs / 1000 * refillPerSec` is exact for a whole rate; the clock does not go back.
pub mod Window
pub mod Starvation
use managed_agents_runtime.Prelude.{
  ℕ, suc, ◌+◌, ◌-◌, ◌*◌, ◌/◌, Bool, true, false, List, ◌∷◌, [], Option, none, some, if◌then◌else◌,
  ltb, ◌==◌, min, max,
}

pub record RateVerdict : Type 0 where
  pub allowed : Bool
  pub retry_after_sec : ℕ

pub record Bucket : Type 0 where
  pub tokens : ℕ
  pub last : ℕ

-- `⌈a / b⌉`.
abbrev pub ceil_div : ℕ → ℕ → ℕ
ceil_div a b = (a + b - 1) / b

-- The bucket of a tenant that has none is full.
abbrev pub bucket_or_full : Option Bucket → ℕ → ℕ → Bucket
bucket_or_full none capacity now = record { tokens = 1000 * capacity; last = now }
bucket_or_full (some b) capacity now = b

unfoldable pub refill : ℕ → ℕ → ℕ → Bucket → ℕ
refill capacity refill_per_sec now b =
    min (1000 * capacity) (b.tokens + (now - b.last) * refill_per_sec)

-- One request against the tenant's bucket.
unfoldable pub spend : ℕ → ℕ → ℕ → Bucket → RateVerdict × Bucket
unfolding refill
spend capacity refill_per_sec now b =
    let tokens = refill capacity refill_per_sec now b in
    if ltb tokens 1000
    then (
      record {
        allowed = false;
        retry_after_sec = max 1 (ceil_div (1000 - tokens) (1000 * refill_per_sec));
      },
      record { tokens = tokens; last = now },
    )
    else (
      record { allowed = true; retry_after_sec = 0 },
      record { tokens = tokens - 1000; last = now },
    )

unfoldable pub get_bucket : ℕ → List (ℕ × Bucket) → Option Bucket
get_bucket tenant [] = none
get_bucket tenant ((k, b) ∷ rest) = if k == tenant then some b else get_bucket tenant rest

unfoldable pub set_bucket : ℕ → Bucket → List (ℕ × Bucket) → List (ℕ × Bucket)
set_bucket tenant b [] = (tenant, b) ∷ []
set_bucket tenant b ((k, c) ∷ rest) =
    if k == tenant then (k, b) ∷ rest else (k, c) ∷ set_bucket tenant b rest

-- `check` of the in-process limiter.
unfoldable pub check : ℕ → ℕ → ℕ → ℕ → List (ℕ × Bucket) → RateVerdict × List (ℕ × Bucket)
unfolding get_bucket set_bucket
check capacity refill_per_sec now tenant buckets =
    let (verdict, b) =
      spend capacity refill_per_sec now (bucket_or_full (get_bucket tenant buckets) capacity now) in
    (verdict, set_bucket tenant b buckets)

-- A row of `rate_buckets`: `balance` is `tokens + 1` in thousandths, which is never negative, since
-- the statement keeps `tokens` at -1 or more.
pub record SharedBucket : Type 0 where
  pub balance : ℕ
  pub updated_at : ℕ

-- The balance after the upsert. The subtraction that stops at 0 is `GREATEST(-1, … - 1)`.
unfoldable pub upsert : ℕ → ℕ → ℕ → Option SharedBucket → ℕ
upsert capacity rate now none = 1000 * capacity
upsert capacity rate now (some b) =
    min (1000 * capacity + 1000) (b.balance + (now - b.updated_at) * rate) - 1000

-- `check` of the limiter in Postgres: the balance is below 1 token where `tokens < 0`.
unfoldable pub pg_check : ℕ → ℕ → ℕ → Option SharedBucket → RateVerdict × SharedBucket
unfolding upsert
pg_check capacity rate now b =
    let balance = upsert capacity rate now b in
    (
      (if ltb balance 1000
          then record { allowed = false; retry_after_sec = max 1 (ceil_div 1 rate) }
          else record { allowed = true; retry_after_sec = 0 }),
      record { balance = balance; updated_at = now },
    )
