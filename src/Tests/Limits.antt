-- ===== src/Tests/Limits.antt =====
-- The rate limiter at the anonymous tier's numbers.
use funding_radar.Base.{
  ℕ, ◌+◌, ◌-◌, ◌*◌, ◌≤◌, ◌≡◌, refl, true, false, none, some, List, [], ◌∷◌, arith, by_text,
}
use funding_radar.Base.Dict.{lookup}
use funding_radar.RateLimiter.{
  unit, ttl, BucketConfig, Bucket, tier_config, refill, lua, fetch, check,
}
use funding_radar.RateLimiter.Budget.{serve, serve_bounds}
use funding_radar.RateLimiter.Retry.{lua-retry, lua-retry_early}
use funding_radar.RateLimiter.Expiry.{lua-expired, check_lem}

abbrev slow : BucketConfig
slow = record { capacity = 2; refill_per_sec = 1 }

-- Half a token is left.
abbrev low : Bucket
low = record { tokens = 500_000_000; last_refill = 0 }

abbrev times : List ℕ
times = 0 ∷ 600_000_000 ∷ 700_000_000 ∷ []

serve-times : (serve slow times low).1 ≡ 1
unfolding serve lua refill
serve-times = refl

serve_bounds_example : (serve slow times low).1 * unit ≤ 2 * unit + (1_000_000_000 - 0) * 1
serve_bounds_example = serve_bounds slow 1_000_000_000 times low (omega arith) (omega arith)

refused_now : (lua slow 0 (some low)).1.allowed ≡ false
unfolding lua refill
refused_now = refl

wait_now : (lua slow 0 (some low)).1.retry_after_ms ≡ 500
unfolding lua refill
wait_now = refl

lua-retry_example : (lua slow 500_000_000 (some (lua slow 0 (some low)).0)).1.allowed ≡ true
lua-retry_example =
    lua-retry slow 0 500_000_000 (some low) (omega arith) (omega arith) refused_now
      (omega (arith, wait_now))

lua-retry_early_run : (lua slow 499_000_000 (some (lua slow 0 (some low)).0)).1.allowed ≡ false
lua-retry_early_run =
    lua-retry_early slow 0 499_000_000 (some low) (omega arith) (omega arith) refused_now
      (omega arith) (omega (arith, wait_now))

lua-expired_example : lua (tier_config "pro") ttl none ≡ lua (tier_config "pro") ttl (some low)
lua-expired_example = lua-expired "pro" ttl low (omega arith)

check_lem_example :
    let (store', allowed, retry) = check true 7 "rl:ip:1" "free" [] in
    let (b, verdict) = lua (tier_config "free") 7 (fetch 7 "rl:ip:1" []) in
    (check false 7 "rl:ip:1" "free" [] ≡ ([], true, 0))
    × (allowed ≡ verdict.allowed)
    × (1 ≤ retry)
    × (verdict.retry_after_ms ≤ retry * 1000)
    × (lookup "rl:ip:1" store' ≡ some (b, 7 + ttl))
check_lem_example = check_lem 7 "rl:ip:1" "free" []
