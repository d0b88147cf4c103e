-- ===== src/Collectors/Hyperliquid.antt =====
-- app/collectors/hyperliquid.py: the prices of the socket, and what a poll makes of the answer to
-- metaAndAssetCtxs. `now_ms` is the time that a call reads from the clock.
pub mod Complete
pub mod Range
pub mod Sound
use funding_radar.Base.{
  ℕ, ◌-◌, ◌*◌, String, Bool, Option, none, some, List, [], ◌∷◌, Result, ok, raise, ◌>>=◌,
  if◌then◌else◌, get_or, caught, ◌==◌, by_text,
}
use funding_radar.Base.Dict.{Dict, lookup, insert, contains, keys}
use funding_radar.Base.Float.{Floats, num}
use funding_radar.Collectors.Contract.{NormalizedFundingData}
use funding_radar.Collectors.Fields.{Cell, or_else, float, float_or_zero, float_or}
use funding_radar.Collectors.History.{Settlement, push, publish_history}
use funding_radar.Collectors.Figures.{
  compute_funding_apr, compute_8h_rate, price_spread, filtered_out,
}

abbrev pub funding_interval_hours : ℕ
funding_interval_hours = 1

abbrev pub exchange_slug : String
exchange_slug = "hyperliquid"

-- One entry of the universe, of which only the name is read; a name that is missing is "".
pub record AssetMeta : Type 0 where
  pub name : String

module _ (F : Floats) where
  open F use {Num, mul, quot}

  abbrev pub maker_fee : Num
  maker_fee = quot (num F 1) (num F 100)

  abbrev pub taker_fee : Num
  taker_fee = quot (num F 35) (num F 1000)

  pub record HyperliquidCollector : Type 0 where
    pub mid_prices : Dict String Num
    pub asset_meta : Dict String AssetMeta

  abbrev pub init : HyperliquidCollector
  init = record { mid_prices = []; asset_meta = [] }

  pub record AssetCtx : Type 0 where
    pub funding : Cell F
    pub open_interest : Cell F
    pub prev_day_px : Cell F
    pub day_ntl_vlm : Cell F
    pub oracle_px : Cell F
    pub mark_px : Cell F

  -- A price that is no number is passed over.
  unfoldable pub set_mid : String → Result Num → HyperliquidCollector → HyperliquidCollector
  set_mid asset (ok price) st = record st { mid_prices = insert asset price st.mid_prices }
  set_mid asset (raise e) st = st

  unfoldable pub set_mids : List (String × Cell F) → HyperliquidCollector → HyperliquidCollector
  set_mids [] st = st
  set_mids ((asset, mid) ∷ mids) st = set_mids mids (set_mid asset (float F mid) st)

  -- A frame of the socket: its channel, and the field `mids` of its data, if the data is an object.
  pub record Frame : Type 0 where
    pub channel : String
    pub mids : Option (List (String × Cell F))

  unfoldable pub handle_ws_message : Frame → HyperliquidCollector → HyperliquidCollector
  handle_ws_message msg st = elim msg.mids [
    | none ↦ st
    | some mids ↦ if msg.channel == "allMids" then set_mids mids st else st
  ]

  -- The figures of one asset as a record, unless the filters drop it.
  unfoldable pub record_of :
      Num → ℕ → Dict String Num → String → AssetCtx → Result (Option (NormalizedFundingData F))
  record_of min_open_interest now_ms mid_prices asset_name ctx = do
    funding_rate ← float_or_zero F ctx.funding
    ctx_price ← float_or_zero F (or_else F ctx.mark_px ctx.prev_day_px)
    index_price ← float_or F ctx.oracle_px ctx_price
    open_interest_raw ← float_or_zero F ctx.open_interest
    volume_24h ← float_or_zero F ctx.day_ntl_vlm
    let open_interest_usd = mul open_interest_raw ctx_price in
        let mark_price = get_or (lookup asset_name mid_prices) ctx_price in
        if filtered_out F min_open_interest open_interest_usd volume_24h then ok none else (do
          funding_rate_8h ← compute_8h_rate F funding_rate funding_interval_hours
          funding_apr ← compute_funding_apr F funding_rate funding_interval_hours
          ok (
              some (record {
                exchange = exchange_slug;
                token = asset_name;
                symbol = asset_name;
                funding_rate = funding_rate;
                funding_rate_8h = funding_rate_8h;
                funding_apr = funding_apr;
                funding_interval_hours = funding_interval_hours;
                next_funding_time = none;
                predicted_rate = none;
                mark_price = mark_price;
                index_price = index_price;
                open_interest_usd = open_interest_usd;
                volume_24h_usd = volume_24h;
                price_spread_pct = price_spread F mark_price index_price;
                maker_fee = maker_fee;
                taker_fee = taker_fee;
                timestamp = now_ms;
                is_live = contains asset_name mid_prices;
              })))

  abbrev pub remember : AssetMeta → HyperliquidCollector → HyperliquidCollector
  remember meta st = record st { asset_meta = insert meta.name meta st.asset_meta }

  -- The loop of `_normalize`. An asset whose figures are no numbers is passed over; the divisions of
  -- `record_of` are by the constant interval, so that nothing else is raised.
  unfoldable pub normalize_assets :
      Num
      → ℕ
      → List AssetMeta
      → List AssetCtx
      → HyperliquidCollector
      → HyperliquidCollector × List (NormalizedFundingData F)
  normalize_assets min_oi now_ms [] ctxs st = (st, [])
  normalize_assets min_oi now_ms (meta ∷ universe) [] st = (st, [])
  normalize_assets min_oi now_ms (meta ∷ universe) (ctx ∷ ctxs) st =
      let nameless = normalize_assets min_oi now_ms universe ctxs st in
      let (st', rest) = normalize_assets min_oi now_ms universe ctxs (remember meta st) in
      if meta.name == ""
      then nameless
      else (st', push (caught (record_of min_oi now_ms st.mid_prices meta.name ctx)) rest)

  -- The answer is a list of two, or not.
  unfoldable pub normalize :
      Num
      → ℕ
      → Option (List AssetMeta × List AssetCtx)
      → HyperliquidCollector
      → HyperliquidCollector × List (NormalizedFundingData F)
  normalize min_oi now_ms none st = (st, [])
  normalize min_oi now_ms (some (universe, ctxs)) st =
      normalize_assets min_oi now_ms universe ctxs st

  -- `answer` is none where the request raised.
  unfoldable pub poll_rest :
      Num
      → ℕ
      → Option (Option (List AssetMeta × List AssetCtx))
      → HyperliquidCollector
      → HyperliquidCollector × List (NormalizedFundingData F)
  poll_rest min_oi now_ms none st = (st, [])
  poll_rest min_oi now_ms (some raw) st = normalize min_oi now_ms raw st

  -- Each request is for the last 24 hours.
  unfoldable pub fetch_history :
      (String → Bool)
      → ℕ
      → (String → ℕ → Option (List (Settlement F)))
      → HyperliquidCollector
      → List (String × List (Settlement F))
  fetch_history running now_ms fetch st =
      publish_history running (λ asset. fetch asset (now_ms - 24 * 3_600_000)) (keys st.asset_meta)
