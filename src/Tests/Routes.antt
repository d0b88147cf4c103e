-- ===== src/Tests/Routes.antt =====
-- The REST API of market data, over integers.
use funding_radar.Base.{
  ℕ, ◌*◌, String, true, false, ◌≡◌, refl, none, some, List, [], ◌∷◌, take, drop, All, if◌then◌else◌,
  arith,
}
use funding_radar.Base.Int.{pos, negsuc}
use funding_radar.Base.Text.{lower, upper}
use funding_radar.Base.Float.{integers, num}
use funding_radar.Collectors.Figures.{CollectorConfig}
use funding_radar.Collectors.Lifecycle.{Published, publish_batch}
use funding_radar.Snapshot.{ticks_per_second}
use funding_radar.Arbitrage.{ArbitrageLeg, long, short, Side}
use funding_radar.Api.Opportunities.{Opportunity, Filters, filtered, is_free, get_opportunities}
use funding_radar.Api.Opportunities.Tiers.{shown, get_opportunities-tier}
use funding_radar.Api.Historical.{Group, ranked_ranges}
use funding_radar.Api.Historical.Ranges.{ranked_ranges-zero}
use funding_radar.Api.Simulator.{
  SimulateRequest, taker, calculate_simulation, of_latest, simulated, reply_of, legs_differ,
}
use funding_radar.Api.Simulator.Legs.{calculate_simulation-publish}
use funding_radar.Tests.Market.{quote}

abbrev leg : String → Side → ArbitrageLeg integers
leg exchange side = record {
  exchange = exchange;
  token = "BTC";
  side = side;
  funding_rate = pos 1;
  funding_rate_8h = pos 1;
  funding_apr = pos 1;
  mark_price = pos 100;
  index_price = pos 100;
  open_interest_usd = pos 5000;
  maker_fee = pos 0;
  taker_fee = pos 0;
  is_stale = false;
}

abbrev opportunity : ℕ → Opportunity integers
opportunity n = record {
  token = "BTC";
  long_leg = leg "aster" long;
  short_leg = leg "extended" short;
  funding_delta_apr = pos n;
  price_spread_pct = pos 0;
  net_apr_maker = pos n;
  net_apr_taker = pos n;
  entry_fee_pct_taker = pos 0;
  breakeven_hours_taker = none;
  detected_at = 7;
}

abbrev a_dozen : List (Opportunity integers)
a_dozen =
    opportunity 12
    ∷ opportunity 11
    ∷ opportunity 10
    ∷ opportunity 9
    ∷ opportunity 8
    ∷ opportunity 7
    ∷ opportunity 6
    ∷ opportunity 5
    ∷ opportunity 4
    ∷ opportunity 3
    ∷ opportunity 2
    ∷ opportunity 1
    ∷ []

abbrev no_filters : Filters integers
no_filters = record { min_apr = pos 0; min_oi = pos 0; exchanges = []; token = none }

get_opportunities-tier_example :
    shown integers (get_opportunities integers no_filters "free" 5 8 (some a_dozen)) ≡ (
      if is_free integers "free"
      then take 5 (drop 8 (take 10 (filtered integers no_filters a_dozen)))
      else take 5 (drop 8 (filtered integers no_filters a_dozen)))
get_opportunities-tier_example = get_opportunities-tier integers no_filters "free" 5 8 a_dozen

-- A token whose funding is negative on its one exchange.
abbrev losing : Group integers
losing = record {
  symbol = "BTC";
  slug = "aster";
  name = "Aster";
  avg_apr = some (negsuc 4);
  max_apr = some (negsuc 1);
  min_apr = some (negsuc 9);
  avg_oi = none;
  avg_vol = none;
  latest_time = none;
}

ranked_ranges-zero_example :
    All (λ t. t.max_apr ≡ num integers 0) (ranked_ranges integers (losing ∷ []))
ranked_ranges-zero_example = ranked_ranges-zero integers (losing ∷ []) (refl, tt)

abbrev config : CollectorConfig integers
config = record {
  rest_poll_interval = 10 * ticks_per_second;
  history_poll_interval = 3600 * ticks_per_second;
  ws_reconnect_delay_min = ticks_per_second;
  ws_reconnect_delay_max = 60 * ticks_per_second;
  http_max_retries = 5;
  min_open_interest_usd = pos 1000;
  rate_limit_per_minute = 1200;
}

abbrev nothing_published : Published integers
nothing_published = record { updates = []; latest = [] }

abbrev request : SimulateRequest integers
request = record {
  token = "btc";
  long_exchange = "Aster";
  short_exchange = "extended";
  capital_usd = pos 1000;
  days = pos 10;
  fee_type = taker;
  slippage_pct = pos 0;
}

legs_are_two : legs_differ integers request ≡ true
unfolding lower
legs_are_two = refl

long_slug : "aster" ≡ lower "Aster"
unfolding lower
long_slug = refl

short_slug : "extended" ≡ lower "extended"
unfolding lower
short_slug = refl

token_symbol : "BTC" ≡ upper "btc"
unfolding upper
token_symbol = refl

calculate_simulation-publish_example :
    calculate_simulation integers 9
      (publish_batch integers config 7
        (quote "extended" (pos 30) ∷ [])
        (publish_batch integers config 5 (quote "aster" (pos 10) ∷ []) nothing_published)).latest
      none
      request
    ≡ reply_of integers (
        simulated integers request
          (of_latest integers (quote "aster" (pos 10)))
          (of_latest integers (quote "extended" (pos 30))))
calculate_simulation-publish_example =
    calculate_simulation-publish integers config config 5 7 9 (quote "aster" (pos 10))
      (quote "extended" (pos 30)) nothing_published none request legs_are_two long_slug short_slug
      token_symbol token_symbol (omega arith) (omega arith)
