-- ===== src/RateLimiter.antt =====
-- app/utils/rate_limiter.py: the Redis token bucket, its Lua script included. Times are in
-- nanoseconds and tokens in billionths, in which every rate of `_TIER_CONFIG` is a whole number per
-- nanosecond, so that the script's arithmetic is exact; doubles round it.
pub mod Budget
pub mod Retry
pub mod Expiry
use funding_radar.Base.{
  ℕ, ◌+◌, ◌-◌, ◌*◌, ◌/◌, ◌≤◌, String, Bool, true, false, Option, none, some, List, [], ◌∷◌, ltb,
  leb, if◌then◌else◌, ◌==◌, by_text, min, max,
}
use funding_radar.Base.Dict.{Dict, lookup, insert}

-- One token.
abbrev pub unit : ℕ
unit = 1_000_000_000

pub record BucketConfig : Type 0 where
  pub capacity : ℕ
  pub refill_per_sec : ℕ

-- `_TIER_CONFIG.get(tier, _TIER_CONFIG["free"])`
unfoldable pub tier_config : String → BucketConfig
tier_config tier =
    if tier == "anonymous"
    then record { capacity = 60; refill_per_sec = 120 / 60 }
    else if tier == "pro"
    then record { capacity = 200; refill_per_sec = 1200 / 60 }
    else if tier == "custom"
    then record { capacity = 1000; refill_per_sec = 12000 / 60 }
    else record { capacity = 50; refill_per_sec = 300 / 60 }

-- `_TTL_SECONDS`
abbrev pub ttl : ℕ
ttl = 120 * 1_000_000_000

-- The hash at a bucket's key.
pub record Bucket : Type 0 where
  pub tokens : ℕ
  pub last_refill : ℕ

-- What the script returns.
pub record Verdict : Type 0 where
  pub allowed : Bool
  pub millitokens : ℕ
  pub retry_after_ms : ℕ

-- The bucket as the script reads it: a missing one is full.
abbrev pub read_bucket : BucketConfig → ℕ → Option Bucket → Bucket
read_bucket cfg now none = record { tokens = cfg.capacity * unit; last_refill = now }
read_bucket cfg now (some b) = b

-- The tokens once the time that has passed is paid out. A clock that went back pays nothing.
unfoldable pub refill : BucketConfig → ℕ → Bucket → ℕ
refill cfg now b = min (cfg.capacity * unit) (b.tokens + (now - b.last_refill) * cfg.refill_per_sec)

-- `math.ceil(a / b)`
abbrev pub ceil_div : ℕ → ℕ → ℕ
ceil_div a b = (a + b - 1) / b

-- One token is taken, or the wait for one is reported.
unfoldable pub grant : BucketConfig → ℕ → ℕ → Bucket × Verdict
grant cfg now tokens =
    if leb unit tokens
    then (
      record { tokens = tokens - unit; last_refill = now },
      record { allowed = true; millitokens = (tokens - unit) * 1000 / unit; retry_after_ms = 0 },
    )
    else (
      record { tokens = tokens; last_refill = now },
      record {
        allowed = false;
        millitokens = tokens * 1000 / unit;
        retry_after_ms = ceil_div (unit - tokens) (cfg.refill_per_sec * 1_000_000);
      },
    )

unfoldable pub lua : BucketConfig → ℕ → Option Bucket → Bucket × Verdict
unfolding grant
lua cfg now stored = grant cfg now (refill cfg now (read_bucket cfg now stored))

-- The part of Redis that holds the buckets: each with the time at which its key expires.
abbrev pub Store : Type 0
Store = Dict String (Bucket × ℕ)

-- HMGET: an expired key reads as missing.
unfoldable pub fetch : ℕ → String → Store → Option Bucket
fetch now key store = elim (lookup key store) [
  | none ↦ none
  | some (b, expires_at) ↦ if leb expires_at now then none else some b
]

-- `retry_after_sec`
abbrev pub seconds_up : ℕ → ℕ
seconds_up retry_after_ms = max 1 ((retry_after_ms + 999) / 1000)

-- `check`: where Redis fails (`up` is false) the request is let through.
unfoldable pub check : Bool → ℕ → String → String → Store → Store × Bool × ℕ
unfolding fetch
check false now key tier store = (store, true, 0)
check true now key tier store =
    let cfg = tier_config tier in
    let (b, verdict) = lua cfg now (fetch now key store) in
    (insert key (b, now + ttl) store, verdict.allowed, seconds_up verdict.retry_after_ms)
