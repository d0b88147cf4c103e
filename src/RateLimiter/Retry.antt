-- ===== src/RateLimiter/Retry.antt =====
-- app/utils/rate_limiter.py: what a refusal says of the time to wait.
use native.Mathlib.Nat.{lt-div-mul-add, div-mul-le_self, mul-le-mul_right}
use funding_radar.Base.{ℕ, ◌+◌, ◌-◌, ◌*◌, ◌≤◌, ◌<◌, ◌≡◌, true, false, Option, some, arith}
use funding_radar.RateLimiter.{unit, BucketConfig, Bucket, Verdict, refill, ceil_div, lua}

ceil_div_lem : (a b : ℕ) → 0 < a → 0 < b → (a ≤ ceil_div a b * b) × (ceil_div a b * b < a + b)
ceil_div_lem a b ha hb =
    let above = lt-div-mul-add {a = a + b - 1} hb in
    let below = div-mul-le_self (a + b - 1) b in (omega arith, omega arith)

-- The bucket that a refusal leaves, and the wait that it reports.
record Refused (cfg : BucketConfig) (now : ℕ) (r : Bucket × Verdict) : Type 0 where
  short : r.0.tokens < unit
  at : r.0.last_refill ≡ now
  wait : r.1.retry_after_ms ≡ ceil_div (unit - r.0.tokens) (cfg.refill_per_sec * 1_000_000)

lua-Refused :
    (cfg : BucketConfig) (now : ℕ) (stored : Option Bucket)
    → (lua cfg now stored).1.allowed ≡ false
    → Refused cfg now (lua cfg now stored)
unfolding lua
lua-Refused cfg now stored h = ground arith

lua_enough :
    (cfg : BucketConfig) (later : ℕ) (b : Bucket)
    → 0 < cfg.capacity
    → unit ≤ b.tokens + (later - b.last_refill) * cfg.refill_per_sec
    → (lua cfg later (some b)).1.allowed ≡ true
unfolding lua refill
lua_enough cfg later b cap h = ground arith

lua_short :
    (cfg : BucketConfig) (later : ℕ) (b : Bucket)
    → b.tokens + (later - b.last_refill) * cfg.refill_per_sec < unit
    → (lua cfg later (some b)).1.allowed ≡ false
unfolding lua refill
lua_short cfg later b h = ground arith

module _ (cfg : BucketConfig) (now later : ℕ) (stored : Option Bucket) (cap : 0 < cfg.capacity)
    (rate : 0 < cfg.refill_per_sec) (refused : (lua cfg now stored).1.allowed ≡ false) where
  abbrev left : Bucket
  left = (lua cfg now stored).0

  abbrev wait_ms : ℕ
  wait_ms = (lua cfg now stored).1.retry_after_ms

  abbrev step_ms : ℕ
  step_ms = cfg.refill_per_sec * 1_000_000

  refusal : Refused cfg now (lua cfg now stored)
  refusal = lua-Refused cfg now stored refused

  wait_pays :
      (unit - left.tokens ≤ wait_ms * step_ms) × (wait_ms * step_ms < unit - left.tokens + step_ms)
  wait_pays = rw refusal.wait (
      ceil_div_lem (unit - left.tokens) step_ms (let s = refusal.short in omega arith)
        (omega arith))

  -- A refused client that waits for `retry_after_ms`, alone at its bucket, is let through.
  pub lua-retry : now + wait_ms * 1_000_000 ≤ later → (lua cfg later (some left)).1.allowed ≡ true
  lua-retry waited =
      let since : wait_ms * 1_000_000 ≤ later - left.last_refill = rw refusal.at (omega arith) in
      let paid = mul-le-mul_right cfg.refill_per_sec since in
      lua_enough cfg later left cap (let s = refusal.short in omega (arith, paid, wait_pays))

  -- One that comes back later, but a millisecond or more too soon, is refused again.
  pub lua-retry_early :
      now ≤ later
      → later + 1_000_000 ≤ now + wait_ms * 1_000_000
      → (lua cfg later (some left)).1.allowed ≡ false
  lua-retry_early after early =
      let since : later - left.last_refill + 1_000_000 ≤ wait_ms * 1_000_000 =
        rw refusal.at (omega arith) in
      let paid = mul-le-mul_right cfg.refill_per_sec since in
      lua_short cfg later left (let s = refusal.short in omega (arith, paid, wait_pays))
