-- ===== src/RateLimiter/Budget.antt =====
-- app/utils/rate_limiter.py: how many requests a bucket lets through over a stretch of time.
use funding_radar.Base.{
  ℕ, ◌+◌, ◌-◌, ◌*◌, ◌≤◌, ◌≡◌, some, List, [], ◌∷◌, arith, if◌then◌else◌, Bool-cases, inl, inr, ap,
  ◌∙◌,
}
use funding_radar.RateLimiter.{unit, BucketConfig, Bucket, refill, lua}

-- The verdicts on a row of requests to one bucket that is there, and the bucket at the end.
unfoldable pub serve : BucketConfig → List ℕ → Bucket → Bucket × ℕ
serve cfg [] b = (b, 0)
serve cfg (now ∷ later) b =
    let (b', verdict) = lua cfg now (some b) in
    let (b'', count) = serve cfg later b' in (b'', if verdict.allowed then count + 1 else count)

-- Times in order, none before `since`, none after `until`.
abbrev pub Within : ℕ → ℕ → List ℕ → Type 0
Within since until [] = since ≤ until
Within since until (t ∷ ts) = (since ≤ t) × Within t until ts

-- One request: what is taken out is paid for by what was there and by the time that passed.
lua_pays :
    (cfg : BucketConfig) (now : ℕ) (b : Bucket)
    → let (b', verdict) = lua cfg now (some b) in
      (b'.tokens + (if verdict.allowed then unit else 0)
        ≤ b.tokens + (now - b.last_refill) * cfg.refill_per_sec)
      × (b'.last_refill ≡ now)
      × (b'.tokens ≤ cfg.capacity * unit)
unfolding lua refill
lua_pays cfg now b = ground arith

Within-le : (since until : ℕ) (times : List ℕ) → Within since until times → since ≤ until
Within-le since until [] w = w
Within-le since until (t ∷ ts) (first, rest) = omega (arith, Within-le t until ts rest)

mul-split : (a b c r : ℕ) → a ≤ b → b ≤ c → (c - b) * r + (b - a) * r ≡ (c - a) * r
mul-split a b c r h k =
    let whole : (c - b) + (b - a) ≡ c - a = omega arith in
    add_mul' (c - b) (b - a) r ∙ ap (λ t. t * r) whole
  where
    add_mul' : (x y z : ℕ) → x * z + y * z ≡ (x + y) * z
    add_mul' x y z = omega arith

serve_pays :
    (cfg : BucketConfig) (until : ℕ) (times : List ℕ) (b : Bucket)
    → Within b.last_refill until times
    → (serve cfg times b).1 * unit + (serve cfg times b).0.tokens
      ≤ b.tokens + (until - b.last_refill) * cfg.refill_per_sec
unfolding serve
serve_pays cfg until [] b w = omega arith
serve_pays cfg until (now ∷ later) b (first, rest) =
    let b' = (lua cfg now (some b)).0 in
    let pays = lua_pays cfg now b in
    let ih = serve_pays cfg until later b' (rw pays.1 rest) in
    let ih' : (serve cfg later b').1 * unit + (serve cfg later b').0.tokens
        ≤ b'.tokens + (until - now) * cfg.refill_per_sec =
      rw pays.1 at ih in
    let split =
      mul-split b.last_refill now until cfg.refill_per_sec first (Within-le now until later rest) in
    elim (Bool-cases (lua cfg now (some b)).1.allowed) [
      | inl yes_sent ↦
          let paid = rw yes_sent at pays.0 in rw yes_sent (omega (arith, paid, ih', split))
      | inr not_sent ↦
          let paid = rw not_sent at pays.0 in rw not_sent (omega (arith, paid, ih', split))
    ]

-- From any bucket that holds no more than its capacity, the requests let through up to a time are at
-- most the capacity and what the rate pays for the time since the bucket's last refill; a token is
-- 10^9 units and the rate is in units for a nanosecond. The times of the requests are in order.
pub serve_bounds :
    (cfg : BucketConfig) (until : ℕ) (times : List ℕ) (b : Bucket)
    → b.tokens ≤ cfg.capacity * unit
    → Within b.last_refill until times
    → (serve cfg times b).1 * unit
      ≤ cfg.capacity * unit + (until - b.last_refill) * cfg.refill_per_sec
serve_bounds cfg until times b h w = omega (arith, serve_pays cfg until times b w)
