-- ===== src/Collectors/Pacifica.antt =====
-- app/collectors/pacifica.py: the markets, the prices of the socket, and what a poll makes of them. The
-- exchange has no history.
use funding_radar.Base.{
  ℕ, String, Option, none, some, List, [], ◌∷◌, Result, ok, raise, ◌>>=◌, caught, if◌then◌else◌,
  get_or, ◌==◌, by_text,
}
use funding_radar.Base.Dict.{Dict, lookup, insert, contains, is_in, adjoin}
use funding_radar.Base.Float.{Floats, num}
use funding_radar.Collectors.Contract.{NormalizedFundingData}
use funding_radar.Collectors.Fields.{Cell, float, float_or_zero, float_or}
use funding_radar.Collectors.Figures.{compute_funding_apr, price_spread, filtered_out}
use funding_radar.Collectors.History.{push}
use funding_radar.Collectors.Extended.{strip_quote}

abbrev pub funding_interval_hours : ℕ
funding_interval_hours = 8

abbrev pub exchange_slug : String
exchange_slug = "pacifica"

module _ (F : Floats) where
  open F use {Num, mul, quot}

  abbrev pub maker_fee : Num
  maker_fee = num F 0

  abbrev pub taker_fee : Num
  taker_fee = quot (num F 5) (num F 100)

  pub record PacificaCollector : Type 0 where
    pub ws_snapshots : Dict String Num
    pub active_symbols : List String

  -- One market of info/prices; a symbol that is missing is "".
  pub record MarketPrices : Type 0 where
    pub symbol : String
    pub mark : Cell F
    pub oracle : Cell F
    pub funding : Cell F
    pub next_funding : Cell F
    pub volume_24h : Cell F
    pub open_interest : Cell F

  -- The symbols of info; one that is missing is "".
  unfoldable pub named : List String → List String → List String
  named [] names = names
  named (symbol ∷ symbols) names =
      named symbols (if symbol == "" then names else adjoin symbol names)

  unfoldable pub load_exchange_info : Option (List String) → PacificaCollector → PacificaCollector
  load_exchange_info none st = st
  load_exchange_info (some symbols) st = record st { active_symbols = named symbols [] }

  unfoldable pub record_of :
      Num → ℕ → Dict String Num → MarketPrices → Result (Option (NormalizedFundingData F))
  record_of min_open_interest now_ms ws_snapshots m = do
    rest_price ← float_or_zero F m.mark
    let mark_price = get_or (lookup m.symbol ws_snapshots) rest_price in
        do
          index_price ← float_or F m.oracle mark_price
          funding_rate ← float_or_zero F m.funding
          funding_apr ← compute_funding_apr F funding_rate funding_interval_hours
          volume ← float_or_zero F m.volume_24h
          open_interest ← float_or_zero F m.open_interest
          let daily_volume = mul volume mark_price in
              let open_interest_usd = mul open_interest mark_price in
              if filtered_out F min_open_interest open_interest_usd daily_volume
              then ok none
              else (do
                predicted ← float_or_zero F m.next_funding
                ok (
                    some (record {
                      exchange = exchange_slug;
                      token = strip_quote m.symbol;
                      symbol = m.symbol;
                      funding_rate = funding_rate;
                      funding_rate_8h = funding_rate;
                      funding_apr = funding_apr;
                      funding_interval_hours = funding_interval_hours;
                      next_funding_time = none;
                      predicted_rate = some predicted;
                      mark_price = mark_price;
                      index_price = index_price;
                      open_interest_usd = open_interest_usd;
                      volume_24h_usd = daily_volume;
                      price_spread_pct = price_spread F mark_price index_price;
                      maker_fee = maker_fee;
                      taker_fee = taker_fee;
                      timestamp = now_ms;
                      is_live = contains m.symbol ws_snapshots;
                    })))

  -- The loop of `_poll_rest`. The only division is by the constant interval, so that an error is one of
  -- those that the loop passes over.
  unfoldable pub normalize_markets :
      Num → ℕ → PacificaCollector → List MarketPrices → List (NormalizedFundingData F)
  normalize_markets min_oi now_ms st [] = []
  normalize_markets min_oi now_ms st (m ∷ ms) =
      let rest = normalize_markets min_oi now_ms st ms in
      if is_in m.symbol st.active_symbols
      then push (caught (record_of min_oi now_ms st.ws_snapshots m)) rest
      else rest

  abbrev pub ready : Option (List String) → PacificaCollector → PacificaCollector
  ready infos st = elim st.active_symbols [ [] ↦ load_exchange_info infos st | s ∷ ss ↦ st ]

  -- `infos` is the answer to info, asked for when no symbol is known.
  unfoldable pub poll_rest :
      Num
      → ℕ
      → Option (List String)
      → Option (List MarketPrices)
      → PacificaCollector
      → PacificaCollector × List (NormalizedFundingData F)
  poll_rest min_oi now_ms infos none st = (ready infos st, [])
  poll_rest min_oi now_ms infos (some markets) st =
      (ready infos st, normalize_markets min_oi now_ms (ready infos st) markets)

  -- An item of a message, with its symbol and its price if it has both.
  abbrev Item : Type 0
  Item = Option (String × Cell F)

  -- The items of a message; a price that is no number ends it.
  unfoldable pub handle_items : List Item → PacificaCollector → PacificaCollector
  handle_items [] st = st
  handle_items (none ∷ items) st = handle_items items st
  handle_items (some (symbol, mark) ∷ items) st = elim (float F mark) [
    | raise e ↦ st
    | ok price ↦
        handle_items items (record st { ws_snapshots = insert symbol price st.ws_snapshots })
  ]

  -- A message: its channel, and the field `data`, if it is a list.
  unfoldable pub handle_ws_message :
      String → Option (List Item) → PacificaCollector → PacificaCollector
  handle_ws_message channel none st = st
  handle_ws_message channel (some items) st =
      if channel == "pong" then st else handle_items items st
