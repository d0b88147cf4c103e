-- ===== src/Tests/Market.antt =====
-- The normalizer, the arbitrage calculator and the aggregator on a small market, over integers.
use mathlib.Core.Option.{map as map_option}
use funding_radar.Base.{
  ℕ, ◌*◌, ◌≤◌, ◌<◌, String, ◌≡◌, ◌≢◌, refl, true, none, some, List, [], ◌∷◌, arith, by_text,
  by_parts, All, inl, inr, Mem, ◌⊎◌, Perm, keep, leb,
}
use funding_radar.Base.Int.{ℤ, pos, negsuc, ◌+ℤ◌, ◌-ℤ◌, ◌*ℤ◌, ◌/ℤ◌}
use funding_radar.Base.Dict.{lookup, insert, erase, values}
use funding_radar.Base.Sort.{sort, IsSorted}
use funding_radar.Base.Float.{integers, integers-IsOrdered, divide, abs, lt}
use funding_radar.Collectors.Contract.{NormalizedFundingData}
use funding_radar.Snapshot.{
  ExchangeSnapshot, TokenView, apr, ticks_per_second, default_stale_after, is_stale, live_snapshots,
  all_snapshots, max_apr, spread_apr, exchange_count, max_from,
}
use funding_radar.Snapshot.Order
use funding_radar.Normalizer.{
  DataNormalizer, init, update, get_snapshot, purge_stale, purge_keys, stale_keys,
  arbitrage_candidates, spread_desc, iter_tokens, view_or_new, drop_from_view,
}
use funding_radar.Normalizer.Coherence.{IsCoherent, view_lookup, init-IsCoherent, update-IsCoherent}
use funding_radar.Normalizer.Purge.{fresh, purge_stale_lem}
use funding_radar.AprCalculator.{entry_exit_fee_pct, calculate_breakeven_hours, rounded_or_none}
use funding_radar.Arbitrage.{
  ArbitrageResult, ArbitrageCalculator, long, short, leg_of, compute_pair, best_pair, collect,
  calculate, net_apr_desc,
}
use funding_radar.Arbitrage.BestPair.{Extremes, PairOf, best_pair_lem, best_pair-stale}
use funding_radar.Arbitrage.Ranking
use funding_radar.Aggregator.{FundingAggregator, rank_row, max_apr_desc, build_ranked}
use funding_radar.Aggregator.Ranking as Ranked
use funding_radar.Normalizer.History.{Event, updated, run, step, table_run, run-refines-table}

-- What one exchange says of BTC; only the APR and the fee matter here.
abbrev pub quote : String → ℤ → NormalizedFundingData integers
quote exchange rate = record {
  exchange = exchange;
  token = "BTC";
  symbol = "BTC-USD";
  funding_rate = rate;
  funding_rate_8h = rate;
  funding_apr = rate;
  funding_interval_hours = 8;
  next_funding_time = none;
  predicted_rate = none;
  mark_price = pos 100;
  index_price = pos 100;
  open_interest_usd = pos 5000;
  volume_24h_usd = pos 0;
  price_spread_pct = pos 0;
  maker_fee = pos 1;
  taker_fee = pos 2;
  timestamp = 7;
  is_live = true;
}

abbrev second : ℕ → ℕ
second n = n * ticks_per_second

-- Three quotes, the first of which is stale at second 200.
abbrev pub events : List (Event integers)
events =
    updated 0 (quote "aster" (negsuc 29))
    ∷ updated (second 190) (quote "hyperliquid" (pos 9000))
    ∷ updated (second 195) (quote "extended" (pos 40))
    ∷ []

abbrev market : DataNormalizer integers
market = run integers events (init integers (second 120))

program : Unit {0}
unfolding run step init update view_or_new lookup insert erase sort is_stale live_snapshots
    all_snapshots exchange_count spread_apr max_apr max_from purge_stale purge_keys stale_keys
    drop_from_view get_snapshot arbitrage_candidates ◌+ℤ◌ ◌-ℤ◌ ◌*ℤ◌ ◌/ℤ◌ divide abs
program = tt

purge-market : (purge_stale integers (second 200) market).1 ≡ 1
unfolding program
purge-market = refl

run-refines-table_example :
    let n = run integers events (init integers 3) in
    let spec = table_run integers 3 events (λ ex tok. none) "aster" "BTC" in
    (get_snapshot integers "aster" "BTC" n ≡ spec)
    × (view_lookup integers "aster" "BTC" n.token_views ≡ spec)
run-refines-table_example = run-refines-table integers 3 events "aster" "BTC"

update-IsCoherent_example :
    IsCoherent integers (update integers 5 (quote "aster" (pos 1)) (init integers 3)).0
update-IsCoherent_example =
    update-IsCoherent integers 5 (quote "aster" (pos 1)) (init integers 3)
      (init-IsCoherent integers 3)

abbrev one_quote : DataNormalizer integers
one_quote = (update integers 5 (quote "aster" (pos 1)) (init integers 3)).0

purge_stale_lem_example :
    IsCoherent integers (purge_stale integers 900 one_quote).0
    × ((ex tok : String)
        → lookup (ex, tok) (purge_stale integers 900 one_quote).0.snapshots
          ≡ fresh integers 900 one_quote.stale_after (lookup (ex, tok) one_quote.snapshots))
purge_stale_lem_example = purge_stale_lem integers 900 one_quote update-IsCoherent_example

-- BTC's view in the market.
abbrev snap : String → ℤ → ℕ → ExchangeSnapshot integers
snap exchange rate at = record { funding = quote exchange rate; received_at = at }

abbrev btc : TokenView integers
btc = record {
  token = "BTC";
  snapshots =
      ("aster", snap "aster" (negsuc 29) 0)
      ∷ ("hyperliquid", snap "hyperliquid" (pos 9000) (second 190))
      ∷ ("extended", snap "extended" (pos 40) (second 195))
      ∷ [];
}

market_view : lookup "BTC" market.token_views ≡ some btc
unfolding program
market_view = refl

two_live : 2 ≤ exchange_count integers (second 200) (second 120) btc
unfolding program
two_live = omega arith

spread_apr_lem_run :
    let live = live_snapshots integers (second 200) (second 120) btc in
    (integers.le (pos 0) (spread_apr integers (second 200) (second 120) btc) ≡ true)
    × All
        (λ s.
          All
            (λ t.
              integers.le
                (apr integers s -ℤ apr integers t)
                (spread_apr integers (second 200) (second 120) btc)
              ≡ true)
            live)
        live
spread_apr_lem_run =
    Order.spread_apr_lem integers integers-IsOrdered (second 200) (second 120) btc two_live

-- BTC's pair: the stale quote of aster has the lowest APR, and is the long leg.
abbrev btc_pair : ArbitrageResult integers
btc_pair = record {
  token = "BTC";
  long_leg = leg_of integers (second 200) long (snap "aster" (negsuc 29) 0);
  short_leg = leg_of integers (second 200) short (snap "hyperliquid" (pos 9000) (second 190));
  funding_delta_apr = pos 9030;
  price_spread_pct = pos 0;
  net_apr_maker = pos 9026;
  net_apr_taker = pos 9022;
  entry_fee_pct_taker = pos 4;
  breakeven_hours_taker = some (pos 8);
  detected_at = 0;
}

best_pair-btc : best_pair integers (second 200) 0 btc ≡ some btc_pair
unfolding program best_pair compute_pair calculate_breakeven_hours entry_exit_fee_pct
    rounded_or_none
best_pair-btc = refl

best_pair_lem_example :
    (x y : ExchangeSnapshot integers) × Extremes integers integers-IsOrdered btc x y
    × PairOf integers integers-IsOrdered (second 200) x y btc_pair
best_pair_lem_example =
    best_pair_lem integers integers-IsOrdered btc (second 200) 0 btc_pair best_pair-btc

aster_found : lookup "aster" btc.snapshots ≡ some (snap "aster" (negsuc 29) 0)
unfolding program
aster_found = refl

aster_lowest :
    All
      (λ t.
        (is_stale integers (second 200) default_stale_after t ≡ true)
        ⊎ (lt integers (negsuc 29) (apr integers t) ≡ true))
      (values btc.snapshots)
unfolding program
aster_lowest = (inl refl, (inr refl, (inr refl, tt)))

best_pair-stale_example : btc_pair.long_leg.is_stale ≡ true
best_pair-stale_example =
    best_pair-stale integers integers-IsOrdered btc (second 200) 0 btc_pair "aster"
      (snap "aster" (negsuc 29) 0) best_pair-btc aster_found aster_lowest

-- The two quotes of test_finds_basic_opportunity in tests/test_processors/test_arbitrage.py, in ten-thousandths of a
-- per cent: 0.0001 an hour is 87.6 %, 0.0004 in eight hours 43.8 %. The long leg is the latter.
abbrev tested : TokenView integers
tested = record {
  token = "BTC";
  snapshots =
      ("hyperliquid", snap "hyperliquid" (pos 876_000) 0)
      ∷ ("aster", snap "aster" (pos 438_000) 0)
      ∷ [];
}

abbrev legs_of : ArbitrageResult integers → String × String
legs_of r = (r.long_leg.exchange, r.short_leg.exchange)

best_pair-tested :
    map_option legs_of (best_pair integers (second 1) 0 tested) ≡ some ("aster", "hyperliquid")
unfolding program best_pair compute_pair calculate_breakeven_hours entry_exit_fee_pct
    rounded_or_none
best_pair-tested = refl

abbrev calculator : ArbitrageCalculator integers
calculator = record { min_net_apr_taker = pos 10; last_results = [] }

calculate-market : (calculate integers (second 200) 0 market calculator).1 ≡ btc_pair ∷ []
unfolding program calculate collect best_pair compute_pair calculate_breakeven_hours
    entry_exit_fee_pct rounded_or_none
calculate-market = refl

calculate_lem_example :
    let (c', results) = calculate integers (second 200) 0 market calculator in
    (c'.last_results ≡ results)
    × IsSorted (net_apr_desc integers) results
    × All (λ r. integers.le (pos 10) r.net_apr_taker ≡ true) results
    × All
        (λ tv.
          (r : ArbitrageResult integers)
          → best_pair integers (second 200) 0 tv ≡ some r
          → integers.le (pos 10) r.net_apr_taker ≡ true
          → Mem r results)
        (arbitrage_candidates integers (second 200) market)
calculate_lem_example =
    Ranking.calculate_lem integers integers-IsOrdered (second 200) 0 market calculator

arbitrage_candidates_lem_run :
    Perm (arbitrage_candidates integers (second 200) market) (
      keep
        (λ tv. leb 2 (exchange_count integers (second 200) market.stale_after tv))
        (values market.token_views))
    × IsSorted
        (spread_desc integers (second 200) market.stale_after)
        (arbitrage_candidates integers (second 200) market)
    × All
        (λ tv. 2 ≤ exchange_count integers (second 200) market.stale_after tv)
        (arbitrage_candidates integers (second 200) market)
arbitrage_candidates_lem_run =
    Ranking.arbitrage_candidates_lem integers integers-IsOrdered (second 200) market

abbrev aggregator : FundingAggregator integers
aggregator = record { last_ranked = [] }

build_ranked_lem_example :
    let (a', rows) = build_ranked integers (second 200) market aggregator in
    (a'.last_ranked ≡ rows)
    × IsSorted (max_apr_desc integers) rows
    × All (λ r. 0 < r.exchange_count) rows
    × All
        (λ tv.
          live_snapshots integers (second 200) default_stale_after tv ≢ []
          → Mem (rank_row integers (second 200) tv) rows)
        (iter_tokens integers market)
build_ranked_lem_example =
    Ranked.build_ranked_lem integers integers-IsOrdered (second 200) market aggregator
