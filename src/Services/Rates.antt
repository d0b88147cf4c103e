-- ===== src/Services/Rates.antt =====
-- app/models/db/funding_rate.py: the rows of funding_rates, whose primary key is the time, the exchange
-- and the token. A decimal stands as the float it is made from.
use funding_radar.Base.{ℕ, Option, by_value, by_parts}
use funding_radar.Base.Dict.{Dict}
use funding_radar.Base.Float.{Floats}

abbrev pub Key : Type 0
Key = ℕ × (ℕ × ℕ)

module _ (F : Floats) where
  open F use {Num}

  pub record FundingRate : Type 0 where
    pub time : ℕ
    pub exchange_id : ℕ
    pub token_id : ℕ
    pub funding_rate : Num
    pub funding_rate_8h : Num
    pub funding_apr : Num
    pub mark_price : Option Num
    pub index_price : Option Num
    pub open_interest_usd : Option Num
    pub volume_24h_usd : Option Num
    pub price_spread_pct : Option Num

  abbrev pub key : FundingRate → Key
  key r = (r.time, (r.exchange_id, r.token_id))

  abbrev pub Rates : Type 0
  Rates = Dict Key FundingRate
