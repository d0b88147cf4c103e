-- ===== src/Collectors/Aster.antt =====
-- app/collectors/aster.py: the start-up caches, the socket, and what a poll makes of them. `none` for an
-- answer is a request that raised.
pub mod Complete
pub mod Poll
pub mod Range
pub mod Rising
pub mod Sound
pub mod Weight
use funding_radar.Base.{
  ℕ, String, Bool, false, not, Option, none, some, List, [], ◌∷◌, Result, ok, raise, value_error,
  key_error, Error, ◌>>=◌, ◌&&◌, if◌then◌else◌, get_or, map, ◌==◌, by_text,
}
use funding_radar.Base.Dict.{Dict, lookup, insert, contains, keys, is_in, adjoin}
use funding_radar.Base.Text.{strip_suffix}
use funding_radar.Base.Float.{Floats, num}
use funding_radar.Collectors.Fields.{Cell, float_or_zero, int}
use funding_radar.Collectors.History.{Settlement, publish_history}

abbrev pub funding_interval_hours : ℕ
funding_interval_hours = 8

abbrev pub exchange_slug : String
exchange_slug = "aster"

abbrev pub quote_suffixes : List String
quote_suffixes = "USDT" ∷ "BUSD" ∷ "USDC" ∷ "USD" ∷ []

unfoldable pub strip_any : List String → String → String
strip_any [] symbol = symbol
strip_any (suffix ∷ suffixes) symbol =
    let later = strip_any suffixes symbol in get_or (strip_suffix suffix symbol) later

-- `_strip_quote`
abbrev pub strip_quote : String → String
strip_quote symbol = strip_any quote_suffixes symbol

module _ (F : Floats) where
  open F use {Num, quot}

  abbrev pub maker_fee : Num
  maker_fee = quot (num F 1) (num F 100)

  abbrev pub taker_fee : Num
  taker_fee = quot (num F 35) (num F 1000)

  pub record Snap : Type 0 where
    pub mark_price : Num
    pub index_price : Num
    pub funding_rate : Num
    pub next_funding_time : Cell F

  -- Of a ticker only `quoteVolume` is read.
  pub record AsterCollector : Type 0 where
    pub ws_snapshots : Dict String Snap
    pub ticker_cache : Dict String (Cell F)
    pub active_symbols : List String
    pub funding_intervals : Dict String ℕ

  abbrev pub init : AsterCollector
  init = record {
    ws_snapshots = [];
    ticker_cache = [];
    active_symbols = [];
    funding_intervals = [];
  }

  -- One item of ticker/24hr, of premiumIndex, of fundingInfo and of exchangeInfo.
  pub record Ticker : Type 0 where
    pub symbol : Option String
    pub quote_volume : Cell F

  pub record Premium : Type 0 where
    pub symbol : String
    pub mark_price : Cell F
    pub index_price : Cell F
    pub last_funding_rate : Cell F
    pub next_funding_time : Cell F

  -- The interval is 8 where the field is missing.
  pub record FundingInfo : Type 0 where
    pub symbol : String
    pub interval_hours : Cell F

  pub record SymbolInfo : Type 0 where
    pub symbol : Option String
    pub status : String
    pub contract_type : String

  -- `{t["symbol"]: t for t in ticker_list}`
  unfoldable pub tickers_by_symbol :
      List Ticker → Dict String (Cell F) → Result (Dict String (Cell F))
  tickers_by_symbol [] d = ok d
  tickers_by_symbol (t ∷ ts) d = elim t.symbol [
    | none ↦ raise key_error
    | some symbol ↦ tickers_by_symbol ts (insert symbol t.quote_volume d)
  ]

  abbrev pub with_tickers : Result (Dict String (Cell F)) → AsterCollector → AsterCollector
  with_tickers (raise e) st = st
  with_tickers (ok d) st = record st { ticker_cache = d }

  unfoldable pub snap_of : Cell F → Cell F → Cell F → Cell F → Result Snap
  snap_of mark index rate next_time = do
    mark_price ← float_or_zero F mark
    index_price ← float_or_zero F index
    funding_rate ← float_or_zero F rate
    ok (record {
      mark_price = mark_price;
      index_price = index_price;
      funding_rate = funding_rate;
      next_funding_time = next_time;
    })

  -- The loop over premiumIndex, for symbols without a snapshot: it stops at a figure that is no number.
  unfoldable pub merge_premium : List Premium → Dict String Snap → Dict String Snap × Option Error
  merge_premium [] d = (d, none)
  merge_premium (item ∷ items) d =
      let further = merge_premium items d in
      if not (item.symbol == "") && not (contains item.symbol d)
      then (elim (snap_of item.mark_price item.index_price item.last_funding_rate
          item.next_funding_time) [
            | raise e ↦ (d, some e)
            | ok snap ↦ merge_premium items (insert item.symbol snap d)
          ])
      else further

  -- The loop over fundingInfo, which stops at an interval that is no number.
  unfoldable pub load_intervals : List FundingInfo → Dict String ℕ → Dict String ℕ
  load_intervals [] d = d
  load_intervals (item ∷ items) d =
      let further = load_intervals items d in
      if item.symbol == "" then further else (elim (int F item.interval_hours) [
        | raise e ↦ d
        | ok hours ↦ load_intervals items (insert item.symbol hours d)
      ])

  abbrev with_premium : Option (List Premium) → AsterCollector → AsterCollector
  with_premium none st = st
  with_premium (some items) st = record st {
    ws_snapshots = (merge_premium items st.ws_snapshots).0;
  }

  abbrev with_intervals : Option (List FundingInfo) → AsterCollector → AsterCollector
  with_intervals none st = st
  with_intervals (some items) st = record st {
    funding_intervals = load_intervals items st.funding_intervals;
  }

  abbrev with_ticker_list : Option (List Ticker) → AsterCollector → AsterCollector
  with_ticker_list none st = st
  with_ticker_list (some ts) st = with_tickers (tickers_by_symbol ts []) st

  unfoldable pub preload_ticker_cache :
      Option (List Ticker)
      → Option (List Premium)
      → Option (List FundingInfo)
      → AsterCollector
      → AsterCollector
  preload_ticker_cache tickers premiums infos st =
      with_intervals infos (with_premium premiums (with_ticker_list tickers st))

  -- The set of the symbols that trade; one without a name raises KeyError.
  unfoldable pub trading : List SymbolInfo → Result (List String)
  trading [] = ok []
  trading (s ∷ rest) =
      let later = trading rest in
      if s.status == "TRADING" && s.contract_type == "PERPETUAL"
      then (elim s.symbol [
        | none ↦ raise key_error
        | some symbol ↦ do found ← later; ok (adjoin symbol found)
      ])
      else later

  unfoldable pub load_exchange_info : Option (List SymbolInfo) → AsterCollector → AsterCollector
  load_exchange_info none st = st
  load_exchange_info (some symbols) st = elim (trading symbols) [
    | raise e ↦ st
    | ok found ↦ record st { active_symbols = found }
  ]

  -- An event of the stream; a field that is missing is "" or absent.
  pub record Event : Type 0 where
    pub kind : String
    pub symbol : String
    pub mark : Cell F
    pub index : Cell F
    pub rate : Cell F
    pub next_time : Cell F

  abbrev set_snap : String → Result Snap → AsterCollector → AsterCollector
  set_snap symbol (raise e) st = st
  set_snap symbol (ok snap) st = record st { ws_snapshots = insert symbol snap st.ws_snapshots }

  abbrev pub unknown_symbol : String → List String → Bool
  unknown_symbol symbol [] = false
  unknown_symbol symbol (s ∷ ss) = not (is_in symbol (s ∷ ss))

  unfoldable pub process_mark_price_event : Event → AsterCollector → AsterCollector
  process_mark_price_event event st =
      if not (event.kind == "markPriceUpdate")
      then st
      else if event.symbol == ""
      then st
      else if unknown_symbol event.symbol st.active_symbols
      then st
      else set_snap event.symbol (snap_of event.mark event.index event.rate event.next_time) st

  -- A frame, out of its envelope: a list of events, one event, or something else.
  pub data Frame : Type 0 where
    events : List Event → Frame
    event : Event → Frame
    other : Frame

  unfoldable pub process_all : List Event → AsterCollector → AsterCollector
  process_all [] st = st
  process_all (e ∷ es) st = process_all es (process_mark_price_event e st)

  unfoldable pub handle_ws_message : Frame → AsterCollector → AsterCollector
  handle_ws_message (events es) st = process_all es st
  handle_ws_message (event e) st = process_mark_price_event e st
  handle_ws_message other st = st

  -- Each message is for the symbol; its token is `strip_quote` of it.
  unfoldable pub fetch_history :
      (String → Bool)
      → (String → Option (List (Settlement F)))
      → AsterCollector
      → List (String × List (Settlement F))
  fetch_history running fetch st = elim st.active_symbols [
    | [] ↦ publish_history running fetch (keys st.ws_snapshots)
    | s ∷ ss ↦ publish_history running fetch (s ∷ ss)
  ]
