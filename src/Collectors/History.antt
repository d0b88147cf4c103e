-- ===== src/Collectors/History.antt =====
-- What the collectors of app/collectors share when they fetch history: the record of a settlement, with
-- the rate only, and the hourly loop that publishes what an exchange answers on `funding:history`.
use funding_radar.Base.{
  ℕ, String, Bool, false, Option, none, some, List, [], ◌∷◌, ◌≡◌, refl, All, Among, inr,
  if◌then◌else◌,
}
use funding_radar.Base.Float.{Floats, num}
use funding_radar.Collectors.Contract.{NormalizedFundingData}
use funding_radar.Collectors.Fields.{Cell}

module _ (F : Floats) where
  open F use {Num}

  -- A settlement as an exchange lists it: its rate and its time.
  pub record Settlement : Type 0 where
    pub rate : Cell F
    pub time : Cell F

  -- What is the same for every settlement of one market.
  pub record Market : Type 0 where
    pub exchange : String
    pub token : String
    pub symbol : String
    pub interval_hours : ℕ
    pub maker_fee : Num
    pub taker_fee : Num

  abbrev pub historical : Market → Num → Num → Num → ℕ → NormalizedFundingData F
  historical m rate rate_8h apr ts = record {
    exchange = m.exchange;
    token = m.token;
    symbol = m.symbol;
    funding_rate = rate;
    funding_rate_8h = rate_8h;
    funding_apr = apr;
    funding_interval_hours = m.interval_hours;
    next_funding_time = none;
    predicted_rate = none;
    mark_price = num F 0;
    index_price = num F 0;
    open_interest_usd = num F 0;
    volume_24h_usd = num F 0;
    price_spread_pct = num F 0;
    maker_fee = m.maker_fee;
    taker_fee = m.taker_fee;
    timestamp = ts;
    is_live = false;
  }

module _ {ℓ} {R : Type ℓ} where
  abbrev pub push : Option R → List R → List R
  push none rs = rs
  push (some r) rs = r ∷ rs

  pub All-push {κ} :
      (P : R → Type κ) (o : Option R) (rs : List R)
      → ((r : R) → o ≡ some r → P r)
      → All P rs
      → All P (push o rs)
  All-push P none rs h t = t
  All-push P (some r) rs h t = (h r refl, t)

module _ {R : Type 0} where
  pub Among-push : (r : R) (o : Option R) (rs : List R) → Among r rs → Among r (push o rs)
  Among-push r none rs h = h
  Among-push r (some q) rs h = inr h

module _ {ℓ} {R : Type ℓ} where
  -- A message is published unless the request failed or the answer is empty.
  abbrev answered : String → Option (List R) → List (String × List R) → List (String × List R)
  answered name none later = later
  answered name (some []) later = later
  answered name (some (r ∷ rs)) later = (name, r ∷ rs) ∷ later

  -- `running` says whether the collector still runs when the loop comes to a name, and `fetch` is the
  -- answer to the request, `none` where it raises.
  unfoldable pub publish_history :
      (String → Bool) → (String → Option (List R)) → List String → List (String × List R)
  publish_history running fetch [] = []
  publish_history running fetch (name ∷ names) =
      let later = publish_history running fetch names in
      if running name then answered name (fetch name) later else []
