-- ===== src/Collectors/Contract.antt =====
-- app/collectors/base.py, the data contract between the collectors and the processors.
use funding_radar.Base.{ℕ, String, Bool, Option}
use funding_radar.Base.Float.{Floats}

module _ (F : Floats) where
  open F use {Num}

  pub record NormalizedFundingData : Type 0 where
    pub exchange : String
    pub token : String
    pub symbol : String
    pub funding_rate : Num
    pub funding_rate_8h : Num
    pub funding_apr : Num
    pub funding_interval_hours : ℕ
    pub next_funding_time : Option ℕ
    pub predicted_rate : Option Num
    pub mark_price : Num
    pub index_price : Num
    pub open_interest_usd : Num
    pub volume_24h_usd : Num
    pub price_spread_pct : Num
    pub maker_fee : Num
    pub taker_fee : Num
    pub timestamp : ℕ
    pub is_live : Bool
