-- ===== src/Aggregator.antt =====
-- app/processors/funding_aggregator.py: the ranked tables. Its calls of TokenView's figures leave the
-- threshold at its default, whatever the normalizer's is. `age_seconds` is in ticks, not rounded.
pub mod Ranking
use funding_radar.Base.{ℕ, String, Bool, Option, none, some, List, [], ◌∷◌, map, take}
use funding_radar.Base.Dict.{values, lookup}
use funding_radar.Base.Sort.{sort}
use funding_radar.Base.Float.{Floats}
use funding_radar.Snapshot.{
  ExchangeSnapshot, TokenView, is_stale, age_seconds, default_stale_after, live_snapshots,
  all_snapshots, max_apr, min_apr, spread_apr, exchange_count,
}
use funding_radar.Normalizer.{DataNormalizer, iter_tokens, get_token_view}
use funding_radar.Base.{by_text}

module _ (F : Floats) where
  open F use {Num, le}

  pub record ExchangeRateRow : Type 0 where
    pub exchange : String
    pub token : String
    pub funding_rate : Num
    pub funding_rate_8h : Num
    pub funding_apr : Num
    pub mark_price : Num
    pub open_interest_usd : Num
    pub volume_24h_usd : Num
    pub price_spread_pct : Num
    pub maker_fee : Num
    pub taker_fee : Num
    pub is_live : Bool
    pub is_stale : Bool
    pub age_seconds : ℕ
    pub timestamp : ℕ

  pub record TokenRankRow : Type 0 where
    pub token : String
    pub max_apr : Num
    pub min_apr : Num
    pub spread_apr : Num
    pub exchange_count : ℕ
    pub rows : List ExchangeRateRow

  unfoldable pub snap_to_row : ℕ → ExchangeSnapshot F → ExchangeRateRow
  snap_to_row now snap =
      let d = snap.funding in
      record {
        exchange = d.exchange;
        token = d.token;
        funding_rate = d.funding_rate;
        funding_rate_8h = d.funding_rate_8h;
        funding_apr = d.funding_apr;
        mark_price = d.mark_price;
        open_interest_usd = d.open_interest_usd;
        volume_24h_usd = d.volume_24h_usd;
        price_spread_pct = d.price_spread_pct;
        maker_fee = d.maker_fee;
        taker_fee = d.taker_fee;
        is_live = d.is_live;
        is_stale = is_stale F now default_stale_after snap;
        age_seconds = age_seconds F now snap;
        timestamp = d.timestamp;
      }

  unfoldable pub rank_row : ℕ → TokenView F → TokenRankRow
  rank_row now tv = record {
    token = tv.token;
    max_apr = max_apr F now default_stale_after tv;
    min_apr = min_apr F now default_stale_after tv;
    spread_apr = spread_apr F now default_stale_after tv;
    exchange_count = exchange_count F now default_stale_after tv;
    rows = map (snap_to_row now) (all_snapshots F tv);
  }

  -- The loop of `build_ranked`.
  unfoldable pub rank_rows : ℕ → List (TokenView F) → List TokenRankRow
  rank_rows now [] = []
  rank_rows now (tv ∷ tvs) =
      let rest = rank_rows now tvs in
      elim (live_snapshots F now default_stale_after tv) [
        | [] ↦ rest
        | s ∷ ss ↦ rank_row now tv ∷ rest
      ]

  abbrev pub max_apr_desc : TokenRankRow → TokenRankRow → Bool
  max_apr_desc x y = le y.max_apr x.max_apr

  -- `FundingAggregator` keeps the last ranking.
  pub record FundingAggregator : Type 0 where
    pub last_ranked : List TokenRankRow

  unfoldable pub build_ranked :
      ℕ → DataNormalizer F → FundingAggregator → FundingAggregator × List TokenRankRow
  unfolding rank_rows
  build_ranked now normalizer a =
      let rows = sort max_apr_desc (rank_rows now (iter_tokens F normalizer)) in
      (record a { last_ranked = rows }, rows)

  abbrev pub row_apr_desc : ExchangeRateRow → ExchangeRateRow → Bool
  row_apr_desc x y = le y.funding_apr x.funding_apr

  -- The loop of `build_exchange_view`.
  unfoldable pub rows_on : ℕ → String → List (TokenView F) → List ExchangeRateRow
  rows_on now exchange [] = []
  rows_on now exchange (tv ∷ tvs) =
      let rest = rows_on now exchange tvs in
      elim (lookup exchange tv.snapshots) [ none ↦ rest | some snap ↦ snap_to_row now snap ∷ rest ]

  unfoldable pub build_exchange_view : ℕ → String → DataNormalizer F → List ExchangeRateRow
  unfolding rows_on
  build_exchange_view now exchange normalizer =
      sort row_apr_desc (rows_on now exchange (iter_tokens F normalizer))

  unfoldable pub build_token_view : ℕ → String → DataNormalizer F → Option (List ExchangeRateRow)
  build_token_view now token normalizer = elim (get_token_view F token normalizer) [
    | none ↦ none
    | some tv ↦ some (sort row_apr_desc (map (snap_to_row now) (all_snapshots F tv)))
  ]

  unfoldable pub top_n : ℕ → FundingAggregator → List TokenRankRow
  top_n n a = take n a.last_ranked
