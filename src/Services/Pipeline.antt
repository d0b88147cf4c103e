-- ===== src/Services/Pipeline.antt =====
-- app/services/funding_service.py: what a message, the timer and the purge do to the normalizer, the two
-- calculators and the results in Redis, with `calculate_and_publish` and `build_and_publish`. `parse` is
-- json.loads and the record's constructor, none where they raise. The calculators share the service's
-- normalizer, which is handed to them.
pub mod Served
use funding_radar.Base.{
  ℕ, ◌+◌, ◌-◌, ◌*◌, ◌%◌, String, Bool, true, false, Option, none, some, List, [], ◌∷◌,
  if◌then◌else◌, nat_beq, leb, length,
}
use funding_radar.Base.Float.{Floats}
use funding_radar.Snapshot.{ticks_per_second}
use funding_radar.Collectors.Contract.{NormalizedFundingData}
use funding_radar.Normalizer.{DataNormalizer, init, update, purge_stale}
use funding_radar.Arbitrage.{ArbitrageCalculator, ArbitrageResult, calculate}
use funding_radar.Aggregator.{FundingAggregator, TokenRankRow, build_ranked}

abbrev pub redis_key_ttl : ℕ
redis_key_ttl = 120 * ticks_per_second

-- A reading of the clocks, and whether Redis fails at that time.
pub record Moment : Type 0 where
  pub now : ℕ
  pub now_ms : ℕ
  pub down : Bool

module _ (F : Floats) where
  open F use {Num}

  -- `current` and `ranked` are the keys arbitrage:current and funding:ranked, with their expiry.
  pub record FundingService : Type 0 where
    pub normalizer : DataNormalizer F
    pub arb_calculator : ArbitrageCalculator F
    pub aggregator : FundingAggregator F
    pub recalculate_every_n : ℕ
    pub recalculate_every : ℕ
    pub update_counter : ℕ
    pub last_recalc_at : ℕ
    pub current : Option (List (ArbitrageResult F) × ℕ)
    pub ranked : Option (List (TokenRankRow F) × ℕ)

  unfoldable pub create : ℕ → ℕ → ℕ → Num → FundingService
  unfolding init
  create stale_after n every threshold = record {
    normalizer = init F stale_after;
    arb_calculator = record { min_net_apr_taker = threshold; last_results = [] };
    aggregator = record { last_ranked = [] };
    recalculate_every_n = n;
    recalculate_every = every;
    update_counter = 0;
    last_recalc_at = 0;
    current = none;
    ranked = none;
  }

  -- `SET key payload EX ttl`; a failure is logged and leaves the key.
  abbrev pub published {ℓ} : {A : Type ℓ} → Moment → A → Option (A × ℕ) → Option (A × ℕ)
  published m x old = if m.down then old else some (x, m.now + redis_key_ttl)

  unfoldable pub calculate_and_publish : Moment → FundingService → FundingService × ℕ
  unfolding calculate
  calculate_and_publish m s =
      let (arb, results) = calculate F m.now m.now_ms s.normalizer s.arb_calculator in
      (record s { arb_calculator = arb; current = published m results s.current }, length results)

  unfoldable pub build_and_publish : Moment → FundingService → FundingService × ℕ
  unfolding build_ranked
  build_and_publish m s =
      let (aggregator, rows) = build_ranked F m.now s.normalizer s.aggregator in
      (record s { aggregator = aggregator; ranked = published m rows s.ranked }, length rows)

  unfoldable pub recalculate : Moment → FundingService → FundingService
  recalculate m s =
      (build_and_publish m (calculate_and_publish m (record s { last_recalc_at = m.now })).0).0

  abbrev pub accepted : Moment → NormalizedFundingData F → FundingService → FundingService
  accepted m item s = record s {
    normalizer = (update F m.now item s.normalizer).0;
    update_counter = s.update_counter + 1;
  }

  -- `_handle_message`. With `recalculate_every_n` 0 the test raises ZeroDivisionError after the update.
  unfoldable pub handle_message :
      (String → Option (NormalizedFundingData F))
      → Moment
      → String
      → FundingService
      → FundingService
  handle_message parse m raw s = elim (parse raw) [
    | none ↦ s
    | some item ↦
        let s' = accepted m item s in
        let again = recalculate m s' in
        if nat_beq s.recalculate_every_n 0
        then s'
        else if nat_beq (s'.update_counter % s.recalculate_every_n) 0
        then again
        else s'
  ]

  -- One turn of `_timed_recalc_loop` after its sleep.
  unfoldable pub timed_recalc : Moment → FundingService → FundingService
  timed_recalc m s =
      if leb s.recalculate_every (m.now - s.last_recalc_at) then recalculate m s else s

  -- One turn of `_purge_loop` after its sleep.
  unfoldable pub purge : Moment → FundingService → FundingService
  unfolding purge_stale
  purge m s = record s { normalizer = (purge_stale F m.now s.normalizer).0 }
