-- ===== src/Arbitrage.antt =====
-- app/processors/arbitrage_calculator.py: the best long and short leg of each token. Publishing is
-- in Services/Pipeline.antt. `ArbitrageResult.detected_at` is the wall clock `now_ms`; `now` is the monotonic
-- clock, by which snapshots grow stale.
pub mod BestPair
pub mod Ranking
use funding_radar.Base.{
  ℕ, String, ◌≡◌, Bool, true, false, Option, none, some, List, [], ◌∷◌, if◌then◌else◌, ltb, length,
  last, Result, ok, raise, ◌>>=◌, caught, ◌==◌, by_text,
}
use funding_radar.Base.Sort.{sort}
use funding_radar.Base.Float.{Floats, lt, num, divide, abs}
use funding_radar.Collectors.Contract.{NormalizedFundingData}
use funding_radar.Snapshot.{
  ExchangeSnapshot, TokenView, apr, is_stale, all_snapshots, default_stale_after,
}
use funding_radar.Normalizer.{DataNormalizer, arbitrage_candidates}
use funding_radar.AprCalculator.{entry_exit_fee_pct, calculate_breakeven_hours, rounded_or_none}

pub data Side : Type 0 where
  long short : Side

module _ (F : Floats) where
  open F use {Num, add, sub, mul, quot, le, round}

  pub record ArbitrageLeg : Type 0 where
    pub exchange : String
    pub token : String
    pub side : Side
    pub funding_rate : Num
    pub funding_rate_8h : Num
    pub funding_apr : Num
    pub mark_price : Num
    pub index_price : Num
    pub open_interest_usd : Num
    pub maker_fee : Num
    pub taker_fee : Num
    pub is_stale : Bool

  pub record ArbitrageResult : Type 0 where
    pub token : String
    pub long_leg : ArbitrageLeg
    pub short_leg : ArbitrageLeg
    pub funding_delta_apr : Num
    pub price_spread_pct : Num
    pub net_apr_maker : Num
    pub net_apr_taker : Num
    pub entry_fee_pct_taker : Num
    pub breakeven_hours_taker : Option Num
    pub detected_at : ℕ

  pub record ArbitrageCalculator : Type 0 where
    pub min_net_apr_taker : Num
    pub last_results : List ArbitrageResult

  unfoldable pub leg_of : ℕ → Side → ExchangeSnapshot F → ArbitrageLeg
  leg_of now side s =
      let d = s.funding in
      record {
        exchange = d.exchange;
        token = d.token;
        side = side;
        funding_rate = d.funding_rate;
        funding_rate_8h = d.funding_rate_8h;
        funding_apr = d.funding_apr;
        mark_price = d.mark_price;
        index_price = d.index_price;
        open_interest_usd = d.open_interest_usd;
        maker_fee = d.maker_fee;
        taker_fee = d.taker_fee;
        is_stale = is_stale F now default_stale_after s;
      }

  unfoldable pub price_spread : Num → Num → Num
  price_spread long_mark short_mark =
      let avg_price = quot (add long_mark short_mark) (num F 2) in
      if lt F (num F 0) avg_price
      then mul (quot (abs F (sub long_mark short_mark)) avg_price) (num F 100)
      else num F 0

  -- The round trip of both legs, taken off the spread.
  unfoldable pub net_apr : Num → Num → Num → Num
  net_apr funding_delta_apr long_fee short_fee =
      sub funding_delta_apr (mul (add long_fee short_fee) (num F 2))

  -- The body of the `try`.
  unfoldable pub pair_result :
      ℕ → ℕ → ExchangeSnapshot F → ExchangeSnapshot F → Result (Option ArbitrageResult)
  unfolding leg_of price_spread net_apr
  pair_result now now_ms long_snap short_snap =
      let ld = long_snap.funding in
      let sd = short_snap.funding in
      let delta = abs F (sub sd.funding_apr ld.funding_apr) in
      let one_way = entry_exit_fee_pct F ld.taker_fee sd.taker_fee in
      if ld.exchange == sd.exchange then ok none else (do
        breakeven_hours ← calculate_breakeven_hours F delta (mul one_way (num F 2))
        ok (
            some (record {
              token = ld.token;
              long_leg = leg_of now long long_snap;
              short_leg = leg_of now short short_snap;
              funding_delta_apr = round delta 6;
              price_spread_pct = round (price_spread ld.mark_price sd.mark_price) 6;
              net_apr_maker = round (net_apr delta ld.maker_fee sd.maker_fee) 6;
              net_apr_taker = round (net_apr delta ld.taker_fee sd.taker_fee) 6;
              entry_fee_pct_taker = round one_way 6;
              breakeven_hours_taker = rounded_or_none F 2 breakeven_hours;
              detected_at = now_ms;
            })))

  unfoldable pub compute_pair :
      ℕ → ℕ → ExchangeSnapshot F → ExchangeSnapshot F → Option ArbitrageResult
  unfolding pair_result
  compute_pair now now_ms long_snap short_snap =
      caught (pair_result now now_ms long_snap short_snap)

  -- `key=funding_apr`
  abbrev pub apr_asc : ExchangeSnapshot F → ExchangeSnapshot F → Bool
  apr_asc x y = le (apr F x) (apr F y)

  -- One round of the loop of `calculate`, up to the threshold.
  unfoldable pub best_pair : ℕ → ℕ → TokenView F → Option ArbitrageResult
  best_pair now now_ms token_view = elim (sort apr_asc (all_snapshots F token_view)) [
    | [] ↦ none
    | x ∷ xs ↦ if ltb (length (x ∷ xs)) 2 then none else compute_pair now now_ms x (last x xs)
  ]

  -- The loop of `calculate`.
  unfoldable pub collect : ℕ → ℕ → Num → List (TokenView F) → List ArbitrageResult
  collect now now_ms threshold [] = []
  collect now now_ms threshold (tv ∷ tvs) =
      let rest = collect now now_ms threshold tvs in
      elim (best_pair now now_ms tv) [
        | none ↦ rest
        | some r ↦ if le threshold r.net_apr_taker then r ∷ rest else rest
      ]

  abbrev pub net_apr_desc : ArbitrageResult → ArbitrageResult → Bool
  net_apr_desc x y = le y.net_apr_taker x.net_apr_taker

  unfoldable pub calculate :
      ℕ → ℕ → DataNormalizer F → ArbitrageCalculator → ArbitrageCalculator × List ArbitrageResult
  unfolding collect
  calculate now now_ms normalizer c =
      let results =
        sort net_apr_desc
          (collect now now_ms c.min_net_apr_taker (arbitrage_candidates F now normalizer)) in
      (record c { last_results = results }, results)
