-- ===== src/Collectors/Aster/Poll.antt =====
-- app/collectors/aster.py, `_poll_rest` and `_build_normalized`: the snapshots of the socket with the
-- volumes of the tickers. The volume stands for the open interest.
use funding_radar.Base.{
  ℕ, String, Bool, true, false, Option, none, some, List, [], ◌∷◌, Result, ok, raise, Error, ◌>>=◌,
  ◌&&◌, if◌then◌else◌, get_or, skip_bad, by_text,
}
use funding_radar.Base.Dict.{Dict, lookup}
use funding_radar.Base.Float.{Floats}
use funding_radar.Collectors.Contract.{NormalizedFundingData}
use funding_radar.Collectors.Fields.{Cell, absent, truthy, float_or_zero, int}
use funding_radar.Collectors.Figures.{compute_funding_apr, price_spread, filtered_out}
use funding_radar.Collectors.History.{push}
use funding_radar.Collectors.Aster.{
  funding_interval_hours, exchange_slug, strip_quote, maker_fee, taker_fee, Snap, AsterCollector,
  Ticker, Premium, tickers_by_symbol, merge_premium,
}

module _ (F : Floats) where
  open F use {Num}

  -- `int(next_funding_time) if next_funding_time else None`
  abbrev pub time_or_none : Cell F → Result (Option ℕ)
  time_or_none c = if truthy F c then (do t ← int F c; ok (some t)) else ok none

  abbrev pub is_loaded : Dict String (Cell F) → Bool
  is_loaded [] = false
  is_loaded (t ∷ ts) = true

  abbrev pub interval_of : String → Dict String ℕ → ℕ
  interval_of symbol intervals = get_or (lookup symbol intervals) funding_interval_hours

  unfoldable pub record_of :
      Num
      → ℕ
      → Dict String (Cell F)
      → Dict String ℕ
      → String
      → Snap F
      → Result (Option (NormalizedFundingData F))
  record_of min_open_interest now_ms tickers intervals symbol snap = do
    volume_24h_usd ← float_or_zero F (get_or (lookup symbol tickers) absent)
    if is_loaded tickers && filtered_out F min_open_interest volume_24h_usd volume_24h_usd
        then ok none
        else (do
          funding_apr ← compute_funding_apr F snap.funding_rate (interval_of symbol intervals)
          next_time ← time_or_none snap.next_funding_time
          ok (
              some (record {
                exchange = exchange_slug;
                token = strip_quote symbol;
                symbol = symbol;
                funding_rate = snap.funding_rate;
                funding_rate_8h = snap.funding_rate;
                funding_apr = funding_apr;
                funding_interval_hours = interval_of symbol intervals;
                next_funding_time = next_time;
                predicted_rate = none;
                mark_price = snap.mark_price;
                index_price = snap.index_price;
                open_interest_usd = volume_24h_usd;
                volume_24h_usd = volume_24h_usd;
                price_spread_pct = price_spread F snap.mark_price snap.index_price;
                maker_fee = maker_fee F;
                taker_fee = taker_fee F;
                timestamp = now_ms;
                is_live = true;
              })))

  -- A snapshot that gives an error of type, value or key is passed over; a division by zero goes on.
  unfoldable pub build_normalized :
      Num
      → ℕ
      → Dict String (Cell F)
      → Dict String ℕ
      → Dict String (Snap F)
      → Result (List (NormalizedFundingData F))
  build_normalized min_oi now_ms tickers intervals [] = ok []
  build_normalized min_oi now_ms tickers intervals ((symbol, snap) ∷ snaps) = do
    found ← skip_bad (record_of min_oi now_ms tickers intervals symbol snap)
    later ← build_normalized min_oi now_ms tickers intervals snaps
    ok (push found later)

  abbrev pub or_error {ℓ} : {A : Type ℓ} → Option Error → Result A → Result A
  or_error none r = r
  or_error (some e) r = raise e

  abbrev pub premiums_or_nothing : Option (List (Premium F)) → List (Premium F)
  premiums_or_nothing none = []
  premiums_or_nothing (some items) = items

  -- The poll after the ticker cache is built again.
  unfoldable pub poll_with :
      Num
      → ℕ
      → Option (List (Premium F))
      → AsterCollector F
      → AsterCollector F × Result (List (NormalizedFundingData F))
  poll_with min_oi now_ms premiums st =
      let (snaps, stopped) = merge_premium F (premiums_or_nothing premiums) st.ws_snapshots in
      (
        record st { ws_snapshots = snaps },
        or_error stopped
            (build_normalized min_oi now_ms st.ticker_cache st.funding_intervals snaps),
      )

  unfoldable pub poll_rest :
      Num
      → ℕ
      → Option (List (Ticker F))
      → Option (List (Premium F))
      → AsterCollector F
      → AsterCollector F × Result (List (NormalizedFundingData F))
  poll_rest min_oi now_ms none premiums st = (st, ok [])
  poll_rest min_oi now_ms (some tickers) premiums st = elim (tickers_by_symbol F tickers []) [
    | raise e ↦ (st, ok [])
    | ok cache ↦ poll_with min_oi now_ms premiums (record st { ticker_cache = cache })
  ]
