-- ===== src/Collectors/Extended.antt =====
-- app/collectors/extended.py: the markets, the prices of the socket, and what a poll makes of them. `none`
-- for an answer is a request that raised.
pub mod Range
use funding_radar.Base.{
  ℕ, ◌-◌, ◌*◌, String, Bool, Option, none, some, List, [], ◌∷◌, Result, ok, raise, ◌>>=◌, ◌&&◌,
  caught, not, if◌then◌else◌, get_or, ◌==◌, by_text, by_value,
}
use funding_radar.Base.Dict.{Dict, lookup, insert, contains, is_in, adjoin}
use funding_radar.Base.Text.{has_text, remove_text}
use funding_radar.Base.Float.{Floats, num}
use funding_radar.Collectors.Contract.{NormalizedFundingData}
use funding_radar.Collectors.Fields.{Cell, float_or_zero, int_or_zero}
use funding_radar.Collectors.Figures.{compute_funding_apr, price_spread, filtered_out}
use funding_radar.Collectors.History.{Settlement, push, publish_history}

abbrev pub funding_interval_hours : ℕ
funding_interval_hours = 1

abbrev pub exchange_slug : String
exchange_slug = "extended"

-- `_strip_quote`, the same function in pacifica.py
abbrev pub strip_quote : String → String
strip_quote symbol = remove_text "-USD" 4 0 symbol

-- `x if x else None` of an int
abbrev pub unless_zero : ℕ → Option ℕ
unless_zero n = if n == 0 then none else some n

module _ (F : Floats) where
  open F use {Num, mul, quot}

  abbrev pub maker_fee : Num
  maker_fee = num F 0

  abbrev pub taker_fee : Num
  taker_fee = quot (num F 5) (num F 100)

  -- A snapshot of the socket is its mark price.
  pub record ExtendedCollector : Type 0 where
    pub ws_snapshots : Dict String Num
    pub active_symbols : List String

  -- One market of info/markets; a name or status that is missing is "".
  pub record MarketInfo : Type 0 where
    pub name : String
    pub status : String
    pub mark_price : Cell F
    pub index_price : Cell F
    pub funding_rate : Cell F
    pub next_funding_rate : Cell F
    pub daily_volume : Cell F
    pub open_interest_base : Cell F

  unfoldable pub active : List MarketInfo → List String → List String
  active [] names = names
  active (m ∷ ms) names =
      active ms
        (if m.status == "ACTIVE" && has_text "USD" m.name then adjoin m.name names else names)

  unfoldable pub load_exchange_info :
      Option (List MarketInfo) → ExtendedCollector → ExtendedCollector
  load_exchange_info none st = st
  load_exchange_info (some markets) st = record st { active_symbols = active markets [] }

  unfoldable pub record_of :
      Num → ℕ → Dict String Num → MarketInfo → Result (Option (NormalizedFundingData F))
  record_of min_open_interest now_ms ws_snapshots m = do
    rest_price ← float_or_zero F m.mark_price
    index_price ← float_or_zero F m.index_price
    funding_rate ← float_or_zero F m.funding_rate
    next_time ← int_or_zero F m.next_funding_rate
    daily_volume ← float_or_zero F m.daily_volume
    open_interest_base ← float_or_zero F m.open_interest_base
    let mark_price = get_or (lookup m.name ws_snapshots) rest_price in
        let open_interest_usd = mul open_interest_base mark_price in
        if filtered_out F min_open_interest open_interest_usd daily_volume then ok none else (do
          funding_apr ← compute_funding_apr F funding_rate funding_interval_hours
          ok (
              some (record {
                exchange = exchange_slug;
                token = strip_quote m.name;
                symbol = m.name;
                funding_rate = funding_rate;
                funding_rate_8h = mul funding_rate (num F 8);
                funding_apr = funding_apr;
                funding_interval_hours = funding_interval_hours;
                next_funding_time = unless_zero next_time;
                predicted_rate = none;
                mark_price = mark_price;
                index_price = index_price;
                open_interest_usd = open_interest_usd;
                volume_24h_usd = daily_volume;
                price_spread_pct = price_spread F mark_price index_price;
                maker_fee = maker_fee;
                taker_fee = taker_fee;
                timestamp = now_ms;
                is_live = contains m.name ws_snapshots;
              })))

  -- The loop of `_poll_rest`. The only division is by the constant interval, so that an error is one of
  -- those that the loop passes over.
  unfoldable pub normalize_markets :
      Num → ℕ → ExtendedCollector → List MarketInfo → List (NormalizedFundingData F)
  normalize_markets min_oi now_ms st [] = []
  normalize_markets min_oi now_ms st (m ∷ ms) =
      let rest = normalize_markets min_oi now_ms st ms in
      if is_in m.name st.active_symbols
      then push (caught (record_of min_oi now_ms st.ws_snapshots m)) rest
      else rest

  unfoldable pub poll_rest :
      Num → ℕ → Option (List MarketInfo) → ExtendedCollector → List (NormalizedFundingData F)
  poll_rest min_oi now_ms none st = []
  poll_rest min_oi now_ms (some markets) st = normalize_markets min_oi now_ms st markets

  -- A message of the socket; a symbol that is missing is "".
  pub record Message : Type 0 where
    pub kind : String
    pub symbol : String
    pub price : Cell F

  abbrev set_price : String → Result Num → ExtendedCollector → ExtendedCollector
  set_price symbol (raise e) st = st
  set_price symbol (ok price) st = record st { ws_snapshots = insert symbol price st.ws_snapshots }

  unfoldable pub handle_ws_message : Message → ExtendedCollector → ExtendedCollector
  handle_ws_message msg st =
      if msg.kind == "MP" && not (msg.symbol == "")
      then set_price msg.symbol (float_or_zero F msg.price) st
      else st

  -- Each request is for the last two hours.
  unfoldable pub fetch_history :
      (String → Bool)
      → ℕ
      → (String → ℕ → ℕ → Option (List (Settlement F)))
      → ExtendedCollector
      → List (String × List (Settlement F))
  fetch_history running now_ms fetch st =
      publish_history running (λ symbol. fetch symbol (now_ms - 2 * 60 * 60 * 1000) now_ms)
        st.active_symbols
