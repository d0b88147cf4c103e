-- ===== src/Api/Simulator.antt =====
-- app/api/v1/simulator.py: the profit of a long and a short position, from the cache of each collector, or
-- from the ranking where the cache has nothing. The bounds on the numbers of a request are checked by
-- pydantic before.
pub mod Legs
use funding_radar.Base.{
  ℕ, String, Bool, true, false, not, Option, none, some, List, [], ◌∷◌, Result, ok, raise, Error,
  ◌>>=◌, if◌then◌else◌, ◌==◌, by_text, by_parts,
}
use funding_radar.Base.Text.{lower, upper}
use funding_radar.Base.Float.{Floats, num, is_zero, abs}
use funding_radar.Redis.{Keys, get}
use funding_radar.AprCalculator.{
  Pnl, calculate_pnl, calculate_breakeven_hours, rounded_or_none, percent,
}
use funding_radar.Collectors.Contract.{NormalizedFundingData}
use funding_radar.Aggregator.{TokenRankRow, ExchangeRateRow}

pub data FeeType : Type 0 where
  maker taker : FeeType

module _ (F : Floats) where
  open F use {Num, add, sub, mul, quot, round}

  pub record SimulateRequest : Type 0 where
    pub token : String
    pub long_exchange : String
    pub short_exchange : String
    pub capital_usd : Num
    pub days : Num
    pub fee_type : FeeType
    pub slippage_pct : Num

  -- The validator of the request.
  abbrev pub legs_differ : SimulateRequest → Bool
  legs_differ body = not (lower body.long_exchange == lower body.short_exchange)

  -- What is read of the cached record or of the row. A cached record has no `is_stale`.
  pub record LegData : Type 0 where
    pub maker_fee : Num
    pub taker_fee : Num
    pub funding_apr : Num
    pub mark_price : Num
    pub funding_rate_8h : Num
    pub is_stale : Bool

  abbrev pub of_latest : NormalizedFundingData F → LegData
  of_latest d = record {
    maker_fee = d.maker_fee;
    taker_fee = d.taker_fee;
    funding_apr = d.funding_apr;
    mark_price = d.mark_price;
    funding_rate_8h = d.funding_rate_8h;
    is_stale = false;
  }

  abbrev pub of_row : ExchangeRateRow F → LegData
  of_row r = record {
    maker_fee = r.maker_fee;
    taker_fee = r.taker_fee;
    funding_apr = r.funding_apr;
    mark_price = r.mark_price;
    funding_rate_8h = r.funding_rate_8h;
    is_stale = r.is_stale;
  }

  -- The first row of an exchange.
  abbrev pub row_on : String → List (ExchangeRateRow F) → Option LegData
  row_on exchange [] = none
  row_on exchange (r ∷ rows) =
      let later = row_on exchange rows in if r.exchange == exchange then some (of_row r) else later

  -- The fall-back: the rows of the first item for the token.
  unfoldable pub ranked_leg : String → String → List (TokenRankRow F) → Option LegData
  ranked_leg token exchange [] = none
  ranked_leg token exchange (item ∷ items) =
      let later = ranked_leg token exchange items in
      if item.token == token then row_on exchange item.rows else later

  abbrev pub or_ranked :
      String
      → String
      → Option (List (TokenRankRow F))
      → Option (NormalizedFundingData F)
      → Option LegData
  or_ranked token exchange raw_ranked (some d) = some (of_latest d)
  or_ranked token exchange none none = none
  or_ranked token exchange (some ranked) none = ranked_leg token exchange ranked

  abbrev pub Latest : Type 0
  Latest = Keys (String × String) (NormalizedFundingData F)

  unfoldable pub leg_data :
      ℕ → Latest → Option (List (TokenRankRow F)) → String → String → Option LegData
  leg_data now latest raw_ranked exchange token =
      or_ranked token exchange raw_ranked (get now (exchange, token) latest)

  pub record LegResult : Type 0 where
    pub exchange : String
    pub funding_apr : Num
    pub funding_income_usd : Num
    pub fee_usd : Num
    pub slippage_usd : Num

  pub record SimulateResponse : Type 0 where
    pub token : String
    pub long_leg : LegResult
    pub short_leg : LegResult
    pub gross_funding_delta_apr : Num
    pub gross_funding_pnl_usd : Num
    pub total_fees_usd : Num
    pub total_slippage_usd : Num
    pub net_pnl_usd : Num
    pub net_apr : Num
    pub breakeven_days : Option Num
    pub breakeven_hours : Option Num
    pub long_mark_price : Option Num
    pub short_mark_price : Option Num
    pub long_funding_rate_8h : Option Num
    pub short_funding_rate_8h : Option Num
    pub long_data_stale : Bool
    pub short_data_stale : Bool

  abbrev pub fee_of : FeeType → LegData → Num
  fee_of maker d = d.maker_fee
  fee_of taker d = d.taker_fee

  -- `x or None` of a float
  abbrev pub or_none : Num → Option Num
  or_none x = if is_zero F x then none else some x

  -- `(hours / 24) if hours else None`
  abbrev pub in_days : Option Num → Option Num
  in_days none = none
  in_days (some hours) = if is_zero F hours then none else some (quot hours (num F 24))

  abbrev pub leg_result : SimulateRequest → String → Num → LegData → LegResult
  leg_result body exchange fee_pct d = record {
    exchange = exchange;
    funding_apr = round d.funding_apr 4;
    funding_income_usd =
        round (mul (mul (percent F d.funding_apr) body.capital_usd) (quot body.days (num F 365))) 4;
    fee_usd = round (mul (mul (percent F fee_pct) body.capital_usd) (num F 2)) 4;
    slippage_usd = round (mul (mul (percent F body.slippage_pct) body.capital_usd) (num F 2)) 4;
  }

  unfoldable pub simulated : SimulateRequest → LegData → LegData → Result SimulateResponse
  simulated body long short =
      let long_fee = fee_of body.fee_type long in
      let short_fee = fee_of body.fee_type short in
      let funding_delta_apr = sub short.funding_apr long.funding_apr in
      let one_way = add (add long_fee short_fee) (mul body.slippage_pct (num F 2)) in
      let round_trip =
        add (mul (add long_fee short_fee) (num F 2)) (mul body.slippage_pct (num F 4)) in
      do
        pnl ← calculate_pnl F funding_delta_apr body.capital_usd body.days one_way one_way
        hours ← calculate_breakeven_hours F (abs F funding_delta_apr) round_trip
        ok (record {
          token = upper body.token;
          long_leg = leg_result body (lower body.long_exchange) long_fee long;
          short_leg = leg_result body (lower body.short_exchange) short_fee short;
          gross_funding_delta_apr = round funding_delta_apr 4;
          gross_funding_pnl_usd = round pnl.gross_pnl_usd 4;
          total_fees_usd =
              round
                (mul (quot (mul (add long_fee short_fee) (num F 2)) (num F 100)) body.capital_usd)
                4;
          total_slippage_usd =
              round (mul (mul (percent F body.slippage_pct) body.capital_usd) (num F 4)) 4;
          net_pnl_usd = round pnl.net_pnl_usd 4;
          net_apr = round pnl.net_apr 4;
          breakeven_days = rounded_or_none F 2 (in_days hours);
          breakeven_hours = rounded_or_none F 1 hours;
          long_mark_price = or_none long.mark_price;
          short_mark_price = or_none short.mark_price;
          long_funding_rate_8h = or_none long.funding_rate_8h;
          short_funding_rate_8h = or_none short.funding_rate_8h;
          long_data_stale = long.is_stale;
          short_data_stale = short.is_stale;
        })

  -- The answers 422 and 404, an error that the handler does not catch, and the simulation.
  pub data Reply : Type 0 where
    same_legs no_long_data no_short_data : Reply
    failed : Error → Reply
    simulation : SimulateResponse → Reply

  abbrev pub reply_of : Result SimulateResponse → Reply
  reply_of (raise e) = failed e
  reply_of (ok r) = simulation r

  abbrev pub with_legs : SimulateRequest → Option LegData → Option LegData → Reply
  with_legs body none short = no_long_data
  with_legs body (some l) none = no_short_data
  with_legs body (some l) (some s) = reply_of (simulated body l s)

  unfoldable pub calculate_simulation :
      ℕ → Latest → Option (List (TokenRankRow F)) → SimulateRequest → Reply
  calculate_simulation now latest raw_ranked body =
      if legs_differ body
      then with_legs body
          (leg_data now latest raw_ranked (lower body.long_exchange) (upper body.token))
          (leg_data now latest raw_ranked (lower body.short_exchange) (upper body.token))
      else same_legs
