-- ===== src/Api/Exchanges.antt =====
-- app/api/v1/exchanges.py: the exchanges with their live figures, and the tokens of one. The rows of the
-- table exchanges are those that are active.
pub mod Counts
use funding_radar.Base.{
  ℕ, ◌+◌, String, Bool, true, false, Option, none, some, List, [], ◌∷◌, ◌++◌, if◌then◌else◌, leb,
  get_or, keep, map, length, ◌==◌, by_text,
}
use funding_radar.Base.Dict.{Dict, lookup, insert}
use funding_radar.Base.Sort.{sort}
use funding_radar.Base.Text.{lower}
use funding_radar.Base.Float.{Floats, num, lt}
use funding_radar.Aggregator.{TokenRankRow, ExchangeRateRow}
use funding_radar.Arbitrage.{ArbitrageResult}
use funding_radar.Api.Paging.{Page, page_of}

-- `d[k] = d.get(k, 0) + 1`
abbrev pub count_one : String → Dict String ℕ → Dict String ℕ
count_one ex d = insert ex (get_or (lookup ex d) 0 + 1) d

abbrev pub or_nothing {ℓ} : {A : Type ℓ} → Option (List A) → List A
or_nothing none = []
or_nothing (some xs) = xs

module _ (F : Floats) where
  open F use {Num, le}

  pub record Exchange : Type 0 where
    pub slug : String
    pub name : String
    pub maker_fee : Num
    pub taker_fee : Num
    pub funding_interval_hours : ℕ

  pub record ExchangeStats : Type 0 where
    pub exchange : Exchange
    pub live_token_count : ℕ
    pub arb_opportunity_count : ℕ

  unfoldable pub count_rows : List (ExchangeRateRow F) → Dict String ℕ → Dict String ℕ
  count_rows [] d = d
  count_rows (row ∷ rows) d = count_rows rows (count_one row.exchange d)

  unfoldable pub count_tokens : List (TokenRankRow F) → Dict String ℕ → Dict String ℕ
  count_tokens [] d = d
  count_tokens (item ∷ items) d = count_tokens items (count_rows item.rows d)

  abbrev pub count_leg : String → Dict String ℕ → Dict String ℕ
  count_leg ex d = if ex == "" then d else count_one ex d

  unfoldable pub count_legs : List (ArbitrageResult F) → Dict String ℕ → Dict String ℕ
  count_legs [] d = d
  count_legs (opp ∷ opps) d =
      count_legs opps (count_leg opp.short_leg.exchange (count_leg opp.long_leg.exchange d))

  abbrev pub stats_of : Dict String ℕ → Dict String ℕ → Exchange → ExchangeStats
  stats_of tokens arbs ex = record {
    exchange = ex;
    live_token_count = get_or (lookup ex.slug tokens) 0;
    arb_opportunity_count = get_or (lookup ex.slug arbs) 0;
  }

  abbrev pub more_tokens : ExchangeStats → ExchangeStats → Bool
  more_tokens x y = leb y.live_token_count x.live_token_count

  -- The values of funding:ranked and arbitrage:current, decoded, if there are any.
  unfoldable pub list_exchanges :
      List Exchange
      → Option (List (TokenRankRow F))
      → Option (List (ArbitrageResult F))
      → List ExchangeStats
  list_exchanges exchanges raw_ranked raw_arb = sort more_tokens (
      map (stats_of (count_tokens (or_nothing raw_ranked) []) (count_legs (or_nothing raw_arb) []))
        exchanges)

  -- The rows of an exchange, each with the token of its item.
  unfoldable pub live_rows : String → List (TokenRankRow F) → List (ExchangeRateRow F)
  live_rows slug [] = []
  live_rows slug (item ∷ items) =
      map (λ (row : ExchangeRateRow F). record row { token = item.token })
        (keep (λ row. row.exchange == slug) item.rows)
      ++ live_rows slug items

  abbrev with_interest : Num → List (ExchangeRateRow F) → List (ExchangeRateRow F)
  with_interest min_oi rows =
      if lt F (num F 0) min_oi then keep (λ row. le min_oi row.open_interest_usd) rows else rows

  -- `sort_fn` of the field asked for; any other name is as funding_apr.
  abbrev pub sort_key : String → ExchangeRateRow F → Num
  sort_key field row =
      if field == "oi"
      then row.open_interest_usd
      else if field == "volume"
      then row.volume_24h_usd
      else row.funding_apr

  -- The answer of a page, and whether its source is the live data; `none` is the answer 404.
  unfoldable pub get_exchange_tokens :
      String
      → Num
      → String
      → ℕ
      → ℕ
      → (String → Option Exchange)
      → Option (List (TokenRankRow F))
      → Option (Exchange × Page (ExchangeRateRow F) × Bool)
  get_exchange_tokens slug min_oi sort_by limit offset exchange_of raw_ranked =
      elim (exchange_of (lower slug)) [
        | none ↦ none
        | some exchange ↦
            let rows = with_interest min_oi (live_rows (lower slug) (or_nothing raw_ranked)) in
            let ranked = sort (λ x y. le (sort_key sort_by y) (sort_key sort_by x)) rows in
            some (
              exchange,
              page_of limit offset ranked,
              elim raw_ranked [ none ↦ false | some r ↦ true ],
            )
      ]
