-- ===== src/Api/Opportunities.antt =====
-- app/api/v1/arbitrage.py: the list of opportunities with its filters, the limit of the free tier, and the
-- best one for a token. `raw` is the value of arbitrage:current, decoded. A filter that is not given is a
-- bound of 0, an empty list, or `none`; an empty token counts as none.
pub mod Tiers
use funding_radar.Base.{
  ℕ, ◌+◌, ◌-◌, String, Bool, true, false, not, Option, none, some, List, [], ◌∷◌, ◌&&◌, ◌||◌,
  if◌then◌else◌, ltb, keep, map, length, ◌==◌, by_text,
}
use funding_radar.Base.Dict.{is_in}
use funding_radar.Base.Text.{lower, upper}
use funding_radar.Base.Float.{Floats, num, lt}
use funding_radar.Arbitrage.{ArbitrageResult, ArbitrageLeg}
use funding_radar.Windows.{PairWindows, Query, Cache, get_pair_windows}
use funding_radar.Api.Paging.{Page, page_of}

module _ (F : Floats) where
  open F use {Num, le}

  abbrev pub Opportunity : Type 0
  Opportunity = ArbitrageResult F

  unfoldable pub by_apr : Num → List Opportunity → List Opportunity
  by_apr min_apr os =
      if lt F (num F 0) min_apr then keep (λ o. le min_apr o.net_apr_taker) os else os

  unfoldable pub by_token : Option String → List Opportunity → List Opportunity
  by_token none os = os
  by_token (some token) os = if token == "" then os else keep (λ o. o.token == upper token) os

  unfoldable pub by_exchange : List String → List Opportunity → List Opportunity
  by_exchange [] os = os
  by_exchange (e ∷ es) os =
      let names = map lower (e ∷ es) in
      keep (λ o. is_in o.long_leg.exchange names || is_in o.short_leg.exchange names) os

  unfoldable pub by_interest : Num → List Opportunity → List Opportunity
  by_interest min_oi os =
      if lt F (num F 0) min_oi
      then keep
          (λ o. le min_oi o.long_leg.open_interest_usd && le min_oi o.short_leg.open_interest_usd)
          os
      else os

  pub record Filters : Type 0 where
    pub min_apr : Num
    pub min_oi : Num
    pub exchanges : List String
    pub token : Option String

  abbrev pub filtered : Filters → List Opportunity → List Opportunity
  filtered f os =
      by_interest f.min_oi (by_exchange f.exchanges (by_token f.token (by_apr f.min_apr os)))

  abbrev pub is_free : String → Bool
  is_free tier = tier == "anonymous" || tier == "free"

  -- The limit after the tier is enforced.
  abbrev pub allowed : String → ℕ → ℕ → ℕ
  allowed tier limit offset = if is_free tier && ltb 10 (offset + limit) then 10 - offset else limit

  -- The page, and whether the note on the free tier goes with it. With a limit of 0 the page is empty.
  unfoldable pub page_for : String → ℕ → ℕ → List Opportunity → Page Opportunity × Bool
  page_for tier limit offset os = (
    page_of (allowed tier limit offset) offset os,
    is_free tier
        && (ltb 10 (length os)
            || ltb 10 (offset + limit) && not (ltb 0 (allowed tier limit offset))),
  )

  -- `none` is the answer that there is no data yet.
  unfoldable pub get_opportunities :
      Filters → String → ℕ → ℕ → Option (List Opportunity) → Option (Page Opportunity × Bool)
  get_opportunities f tier limit offset none = none
  get_opportunities f tier limit offset (some os) =
      some (page_for tier limit offset (filtered f os))

  -- With `include_windows`, each item of the page gets the windows of its pair.
  unfoldable pub with_windows :
      Query F → ℕ → List Opportunity → Cache F → Cache F × List (Opportunity × PairWindows F)
  with_windows query now [] c = (c, [])
  with_windows query now (o ∷ os) c =
      let (c', w) =
        get_pair_windows F query now o.long_leg.exchange o.short_leg.exchange o.token c in
      let (c'', rest) = with_windows query now os c' in (c'', (o, w) ∷ rest)

  pub data Reply : Type 0 where
    unavailable not_found : Reply
    found : Opportunity → Reply

  unfoldable pub first_for : String → List Opportunity → Reply
  first_for token [] = not_found
  first_for token (o ∷ os) =
      let later = first_for token os in if o.token == token then found o else later

  unfoldable pub get_opportunity_for_token : String → Option (List Opportunity) → Reply
  get_opportunity_for_token token none = unavailable
  get_opportunity_for_token token (some os) = first_for (upper token) os
