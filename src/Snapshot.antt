-- ===== src/Snapshot.antt =====
-- app/processors/normalizer.py, ExchangeSnapshot and TokenView: one token on all exchanges.
-- `time.monotonic()` is a number of ticks of the clock, which never goes back; it is read once for
-- each call and handed in as `now`. A duration in seconds is a number of such ticks too.
pub mod Order
use funding_radar.Base.{
  ℕ, ◌-◌, ◌*◌, String, Bool, not, List, [], ◌∷◌, map, ltb, if◌then◌else◌, keep, length, last,
}
use funding_radar.Base.Dict.{Dict, values}
use funding_radar.Base.Sort.{sort}
use funding_radar.Base.Float.{Floats, lt, num}
use funding_radar.Collectors.Contract.{NormalizedFundingData}

-- The clock counts nanoseconds.
abbrev pub ticks_per_second : ℕ
ticks_per_second = 1_000_000_000

abbrev pub default_stale_after : ℕ
default_stale_after = 120 * ticks_per_second

module _ (F : Floats) where
  open F use {Num, sub, le}

  pub record ExchangeSnapshot : Type 0 where
    -- the field `data`
    pub funding : NormalizedFundingData F
    pub received_at : ℕ

  abbrev pub apr : ExchangeSnapshot → Num
  apr s = s.funding.funding_apr

  unfoldable pub is_stale : ℕ → ℕ → ExchangeSnapshot → Bool
  is_stale now stale_after s = ltb stale_after (now - s.received_at)

  unfoldable pub age_seconds : ℕ → ExchangeSnapshot → ℕ
  age_seconds now s = now - s.received_at

  pub record TokenView : Type 0 where
    pub token : String
    pub snapshots : Dict String ExchangeSnapshot

  -- `key=funding_apr, reverse=True`
  abbrev pub apr_desc : ExchangeSnapshot → ExchangeSnapshot → Bool
  apr_desc x y = le (apr y) (apr x)

  unfoldable pub live_snapshots : ℕ → ℕ → TokenView → List ExchangeSnapshot
  live_snapshots now stale_after tv =
      sort apr_desc (keep (λ s. not (is_stale now stale_after s)) (values tv.snapshots))

  unfoldable pub all_snapshots : TokenView → List ExchangeSnapshot
  all_snapshots tv = sort apr_desc (values tv.snapshots)

  -- Python's `max` and `min` over the rest of an iterable, with the best item so far.
  unfoldable pub max_from : Num → List Num → Num
  max_from m [] = m
  max_from m (x ∷ xs) = max_from (if lt F m x then x else m) xs

  unfoldable pub min_from : Num → List Num → Num
  min_from m [] = m
  min_from m (x ∷ xs) = min_from (if lt F x m then x else m) xs

  unfoldable pub max_apr : ℕ → ℕ → TokenView → Num
  unfolding max_from live_snapshots
  max_apr now stale_after tv = elim (map apr (live_snapshots now stale_after tv)) [
    | [] ↦ num F 0
    | x ∷ xs ↦ max_from x xs
  ]

  unfoldable pub min_apr : ℕ → ℕ → TokenView → Num
  unfolding min_from live_snapshots
  min_apr now stale_after tv = elim (map apr (live_snapshots now stale_after tv)) [
    | [] ↦ num F 0
    | x ∷ xs ↦ min_from x xs
  ]

  unfoldable pub spread_apr : ℕ → ℕ → TokenView → Num
  unfolding live_snapshots
  spread_apr now stale_after tv = elim (live_snapshots now stale_after tv) [
    | [] ↦ num F 0
    | x ∷ xs ↦ if ltb (length (x ∷ xs)) 2 then num F 0 else sub (apr x) (apr (last x xs))
  ]

  unfoldable pub exchange_count : ℕ → ℕ → TokenView → ℕ
  unfolding live_snapshots
  exchange_count now stale_after tv = length (live_snapshots now stale_after tv)
