-- ===== src/Api/RateLimit/Starvation.antt =====
-- What the limiter in Postgres of src/api/rateLimit.ts does to a client that obeys it.
use managed_agents_runtime.Prelude.{
  ℕ, zero, suc, ◌+◌, ◌*◌, ◌<◌, ◌≡◌, refl, false, Option, some, arith, if◌then◌else◌, max,
}
use managed_agents_runtime.Api.RateLimit.{SharedBucket, upsert, pg_check, ceil_div}

-- Of `n` further requests, each made just when the refusal before it said to, how many pass.
abbrev pub passes_on_retry : ℕ → ℕ → ℕ → ℕ → SharedBucket → ℕ
passes_on_retry capacity rate zero now b = 0
passes_on_retry capacity rate (suc n) now b =
    let later = now + 1000 * max 1 (ceil_div 1 rate) in
    let (v, b') = pg_check capacity rate later (some b) in
    (if v.allowed then 1 else 0) + passes_on_retry capacity rate n later b'

refused_again :
    (capacity now : ℕ) (b : SharedBucket)
    → b.balance < 1000
    → b.updated_at ≡ now
    → let (v, b') = pg_check capacity 1 (now + 1000) (some b) in
      (v.allowed ≡ false) × (b'.balance < 1000) × (b'.updated_at ≡ now + 1000)
unfolding pg_check upsert
refused_again capacity now b low here = (ground arith, ground arith, refl)

starves :
    (n capacity now : ℕ) (b : SharedBucket)
    → b.balance < 1000
    → b.updated_at ≡ now
    → passes_on_retry capacity 1 n now b ≡ 0
starves zero capacity now b low here = refl
starves (suc n) capacity now b low here =
    let (refused, low', here') = refused_again capacity now b low here in
    let b' = (pg_check capacity 1 (now + 1000) (some b)).1 in
    rw (refused, starves n capacity (now + 1000) b' low' here')

refused-low :
    (capacity now : ℕ) (b : Option SharedBucket)
    → (pg_check capacity 1 now b).0.allowed ≡ false
    → (pg_check capacity 1 now b).1.balance < 1000
unfolding pg_check
refused-low capacity now b refused = ground arith

checked-now :
    (capacity now : ℕ) (b : Option SharedBucket) → (pg_check capacity 1 now b).1.updated_at ≡ now
unfolding pg_check
checked-now capacity now b = refl

-- At a rate of one token a second, a client that was refused and that comes back each time exactly
-- when the refusal says is refused forever: a refusal spends the token that flowed in while the
-- client waited.
pub pg_check_starves :
    (n capacity now : ℕ) (b : Option SharedBucket)
    → (pg_check capacity 1 now b).0.allowed ≡ false
    → passes_on_retry capacity 1 n now (pg_check capacity 1 now b).1 ≡ 0
pg_check_starves n capacity now b refused =
    starves n capacity now (pg_check capacity 1 now b).1 (refused-low capacity now b refused)
      (checked-now capacity now b)
