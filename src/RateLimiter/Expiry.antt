-- ===== src/RateLimiter/Expiry.antt =====
-- app/utils/rate_limiter.py: the expiry of an idle key gives nothing away, and a failing Redis
-- lets every request through.
use funding_radar.Base.{
  ℕ, ◌+◌, ◌-◌, ◌*◌, ◌≤◌, ◌≡◌, refl, String, true, false, none, some, arith, by_text, ap, sym, ◌∙◌,
}
use native.Mathlib.Nat.{mul-le-mul_right}
use funding_radar.Base.Dict.{lookup, lookup-insert_self}
use funding_radar.RateLimiter.{
  unit, ttl, BucketConfig, Bucket, Store, tier_config, refill, grant, lua, read_bucket, fetch,
  check,
}

-- Every tier fills an empty bucket within the life of its key.
tier_config_refills :
    (tier : String) → (tier_config tier).capacity * unit ≤ ttl * (tier_config tier).refill_per_sec
unfolding tier_config
tier_config_refills tier = ground arith

refill_after_ttl :
    (tier : String) (now : ℕ) (b : Bucket)
    → b.last_refill + ttl ≤ now
    → refill (tier_config tier) now b ≡ (tier_config tier).capacity * unit
unfolding refill
refill_after_ttl tier now b idle =
    let waited : ttl ≤ now - b.last_refill = omega arith in
    let paid = mul-le-mul_right (tier_config tier).refill_per_sec waited in
    omega (arith, paid, tier_config_refills tier)

refill_full :
    (cfg : BucketConfig) (now : ℕ) → refill cfg now (read_bucket cfg now none) ≡ cfg.capacity * unit
unfolding refill
refill_full cfg now = omega arith

-- After the key's life the script does the same whether the key is gone or was kept: an idle client
-- gains nothing by the expiry.
pub lua-expired :
    (tier : String) (now : ℕ) (b : Bucket)
    → b.last_refill + ttl ≤ now
    → lua (tier_config tier) now none ≡ lua (tier_config tier) now (some b)
unfolding lua
lua-expired tier now b idle =
    ap (grant (tier_config tier) now)
      (refill_full (tier_config tier) now ∙ sym (refill_after_ttl tier now b idle))

-- Where Redis fails every request is let through, with no wait; where it works, the verdict is the
-- script's on the stored bucket, and the wait in seconds is at least one and no shorter than the
-- script's in milliseconds.
pub check_lem :
    (now : ℕ) (key tier : String) (store : Store)
    → let (store', allowed, retry) = check true now key tier store in
      let (b, verdict) = lua (tier_config tier) now (fetch now key store) in
      (check false now key tier store ≡ (store, true, 0))
      × (allowed ≡ verdict.allowed)
      × (1 ≤ retry)
      × (verdict.retry_after_ms ≤ retry * 1000)
      × (lookup key store' ≡ some (b, now + ttl))
unfolding check
check_lem now key tier store =
    (refl, refl, omega arith, omega arith, lookup-insert_self key _ store)
