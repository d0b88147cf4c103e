-- ===== src/Collectors/Figures.antt =====
-- app/collectors/base.py: the figures that every collector derives from what its exchange sends, and
-- the configuration. Both divisions there are by an int of hours.
use funding_radar.Base.{
  ℕ, ◌≡◌, Bool, true, false, Result, ok, raise, zero_division, ◌>>=◌, if◌then◌else◌, ◌==◌, by_value,
  ◌⊎◌, arith,
}
use funding_radar.Base.Float.{Floats, num, lt}
use funding_radar.Collectors.Contract.{NormalizedFundingData}

module _ (F : Floats) where
  open F use {Num, sub, mul, quot, le}

  -- Durations are ticks of the clock.
  pub record CollectorConfig : Type 0 where
    pub rest_poll_interval : ℕ
    pub history_poll_interval : ℕ
    pub ws_reconnect_delay_min : ℕ
    pub ws_reconnect_delay_max : ℕ
    pub http_max_retries : ℕ
    pub min_open_interest_usd : Num
    pub rate_limit_per_minute : ℕ

  -- `n / interval_hours`
  abbrev pub per_interval : ℕ → ℕ → Result Num
  per_interval n interval_hours =
      if interval_hours == 0
      then raise zero_division
      else ok (quot (num F n) (num F interval_hours))

  unfoldable pub compute_funding_apr : Num → ℕ → Result Num
  compute_funding_apr rate_per_interval interval_hours = do
    periods ← per_interval 24 interval_hours
    ok (mul (mul rate_per_interval (mul periods (num F 365))) (num F 100))

  unfoldable pub compute_8h_rate : Num → ℕ → Result Num
  compute_8h_rate rate_per_interval interval_hours = do
    ratio ← per_interval 8 interval_hours
    ok (mul rate_per_interval ratio)

  -- `price_spread_pct`, the same expression in every collector
  unfoldable pub price_spread : Num → Num → Num
  price_spread mark_price index_price =
      if lt F (num F 0) index_price
      then mul (quot (sub mark_price index_price) index_price) (num F 100)
      else num F 0

  -- The two filters before a market is published.
  unfoldable pub filtered_out : Num → Num → Num → Bool
  filtered_out min_open_interest open_interest volume =
      if lt F open_interest min_open_interest then true else le volume (num F 0)

  -- A record has no less than the least open interest and some volume; its APR is its rate times 24 over
  -- the hours of its interval, times 365, in per cent; and its spread is the distance of the mark price from
  -- an index price above 0, in per cent of the latter, and 0 without one.
  abbrev pub IsSound : Num → NormalizedFundingData F → Type 0
  IsSound min_open_interest d =
      (lt F d.open_interest_usd min_open_interest ≡ false)
      × (le d.volume_24h_usd (num F 0) ≡ false)
      × ((d.funding_interval_hours == 0) ≡ false)
      × (d.funding_apr
          ≡ mul
              (mul d.funding_rate
                (mul (quot (num F 24) (num F d.funding_interval_hours)) (num F 365)))
              (num F 100))
      × (((lt F (num F 0) d.index_price ≡ true)
            × (d.price_spread_pct
                ≡ mul (quot (sub d.mark_price d.index_price) d.index_price) (num F 100)))
          ⊎ ((lt F (num F 0) d.index_price ≡ false) × (d.price_spread_pct ≡ num F 0)))

  -- A record that passed the filters and whose figures come from the functions above.
  abbrev pub IsComputed : Num → NormalizedFundingData F → Type 0
  IsComputed min_open_interest d =
      (filtered_out min_open_interest d.open_interest_usd d.volume_24h_usd ≡ false)
      × (compute_funding_apr d.funding_rate d.funding_interval_hours ≡ ok d.funding_apr)
      × (d.price_spread_pct ≡ price_spread d.mark_price d.index_price)

  pub IsComputed-IsSound :
      (min_open_interest : Num) (d : NormalizedFundingData F)
      → IsComputed min_open_interest d
      → IsSound min_open_interest d
  unfolding filtered_out compute_funding_apr price_spread
  IsComputed-IsSound min_open_interest d (kept, apr, spread) = ground arith
