-- ===== src/Api/RateLimit/Window.antt =====
-- What the token bucket of src/api/rateLimit.ts lets through.
use managed_agents_runtime.Prelude.{
  ℕ, ◌+◌, ◌-◌, ◌*◌, ◌/◌, ◌≤◌, ◌<◌, ◌≡◌, sym, ap, ◌∙◌, List, ◌∷◌, [], true, false, arith,
  if◌then◌else◌,
}
use mathlib.Core.Path.{subst}
use native.Mathlib.Nat.{add-mul, mod-add-div, mod-lt, mul_comm, mul_assoc, mul-le-mul_right}
use managed_agents_runtime.Api.RateLimit.{Bucket, RateVerdict, spend, ceil_div}

abbrev count_allowed : RateVerdict → ℕ
count_allowed v = if v.allowed then 1 else 0

module _ (capacity rate : ℕ) where
  -- The requests of one tenant at the given times: how many pass, and the bucket after them.
  abbrev pub granted : Bucket → List ℕ → ℕ
  granted b [] = 0
  granted b (now ∷ times) =
      let (v, b') = spend capacity rate now b in count_allowed v + granted b' times

  abbrev pub IsOrdered : ℕ → List ℕ → Type 0
  IsOrdered from [] = Unit
  IsOrdered from (now ∷ times) = (from ≤ now) × IsOrdered now times

  abbrev pub last_time : ℕ → List ℕ → ℕ
  last_time from [] = from
  last_time from (now ∷ times) = last_time now times

  spend_lem :
      (b : Bucket) (now : ℕ)
      → b.last ≤ now
      → let (v, b') = spend capacity rate now b in
        (1000 * count_allowed v + b'.tokens ≤ b.tokens + (now - b.last) * rate) × (b'.last ≡ now)
  unfolding spend
  spend_lem b now h = (ground arith, ground arith)

  -- A refill is cut off at the capacity, so a request and what it leaves fit into it.
  spend-capped :
      (b : Bucket) (now : ℕ)
      → b.last ≤ now
      → let (v, b') = spend capacity rate now b in
        (1000 * count_allowed v + b'.tokens ≤ 1000 * capacity) × (b'.last ≡ now)
  unfolding spend
  spend-capped b now h = (ground arith, ground arith)

  last_time-le : (from : ℕ) (times : List ℕ) → IsOrdered from times → from ≤ last_time from times
  last_time-le from [] h = omega arith
  last_time-le from (now ∷ times) (h, later) = omega (arith, last_time-le now times later)

  elapsed-add : (a b c : ℕ) → a ≤ b → b ≤ c → (b - a) * rate + (c - b) * rate ≡ (c - a) * rate
  elapsed-add a b c h k =
      let e : c - a ≡ (b - a) + (c - b) = omega arith in
      sym (ap (λ n. n * rate) e ∙ add-mul (b - a) (c - b) rate)

  -- Over any requests of a tenant, the number that pass is at most what the bucket held at first and
  -- what flowed in up to the last of them.
  granted-le :
      (times : List ℕ) (b : Bucket)
      → IsOrdered b.last times
      → 1000 * granted b times ≤ b.tokens + (last_time b.last times - b.last) * rate
  granted-le [] b h = omega arith
  granted-le (now ∷ times) b (h, later) =
      let (spent, stamped) = spend_lem b now h in
      let b' = (spend capacity rate now b).1 in
      let ordered = subst (λ n. IsOrdered n times) (sym stamped) later in
      let ih = granted-le times b' ordered in
      let sum = elapsed-add b.last now (last_time now times) h (last_time-le now times later) in
      let flow = ap (λ n. (last_time n times - n) * rate) stamped in
      omega (arith, spent, ih, sum, flow)

  -- Over any stretch of a tenant's requests, in the order of time, whatever the bucket holds when it
  -- begins, the number that pass is at most the burst capacity and what flows in between the first and
  -- the last of them.
  pub granted-within :
      (now : ℕ) (times : List ℕ) (b : Bucket)
      → b.last ≤ now
      → IsOrdered now times
      → 1000 * granted b (now ∷ times) ≤ 1000 * capacity + (last_time now times - now) * rate
  granted-within now times b h later =
      let (capped, stamped) = spend-capped b now h in
      let b' = (spend capacity rate now b).1 in
      let rest = granted-le times b' (subst (λ n. IsOrdered n times) (sym stamped) later) in
      let flow = ap (λ n. (last_time n times - n) * rate) stamped in
      omega (arith, capped, rest, flow)

  ceil_div-covers : (d m : ℕ) → 0 < m → d ≤ ceil_div d m * m
  ceil_div-covers d m h =
      let n = d + m - 1 in
      let parts = mod-add-div n m in
      let small = mod-lt n h in
      let swap : ceil_div d m * m ≡ m * (n / m) = mul_comm (n / m) m in
      omega (arith, parts, small, swap)

  -- After the seconds a refusal names, what flows in is at least what was missing.
  wait-covers : (d r : ℕ) → 0 < rate → ceil_div d (1000 * rate) ≤ r → d ≤ 1000 * r * rate
  wait-covers d r flows h =
      let covers = ceil_div-covers d (1000 * rate) (omega arith) in
      let scaled = mul-le-mul_right (1000 * rate) h in
      let regroup : r * (1000 * rate) ≡ 1000 * r * rate =
        sym (mul_assoc r 1000 rate) ∙ ap (λ n. n * rate) (mul_comm r 1000) in
      omega (arith, covers, scaled, regroup)

  refused-waits :
      (b : Bucket) (now : ℕ)
      → (spend capacity rate now b).0.allowed ≡ false
      → let (v, b') = spend capacity rate now b in
        (ceil_div (1000 - b'.tokens) (1000 * rate) ≤ v.retry_after_sec) × (b'.last ≡ now)
  unfolding spend
  refused-waits b now h = (ground arith, ground arith)

  full-passes :
      (b : Bucket) (now : ℕ)
      → 0 < capacity
      → 1000 ≤ b.tokens + (now - b.last) * rate
      → (spend capacity rate now b).0.allowed ≡ true
  unfolding spend
  full-passes b now room full = ground arith

  -- A refused request may come back: after the seconds that the verdict names, the same tenant's
  -- next request passes, when the rate and the capacity are not 0.
  pub retry_after_passes :
      (b : Bucket) (now : ℕ)
      → 0 < rate
      → 0 < capacity
      → (spend capacity rate now b).0.allowed ≡ false
      → (spend capacity rate
          (now + 1000 * (spend capacity rate now b).0.retry_after_sec)
          (spend capacity rate now b).1).0.allowed
        ≡ true
  retry_after_passes b now flows room refused =
      let (waits, stamped) = refused-waits b now refused in
      let (v, b') = spend capacity rate now b in
      let covers = wait-covers (1000 - b'.tokens) v.retry_after_sec flows waits in
      let elapsed : now + 1000 * v.retry_after_sec - b'.last ≡ 1000 * v.retry_after_sec =
        omega (arith, stamped) in
      let flow = ap (λ n. n * rate) elapsed in
      full-passes b' (now + 1000 * v.retry_after_sec) room (omega (arith, covers, flow))
