-- ===== src/Api/Rates.antt =====
-- app/api/v1/funding.py: the timeframes, the live ranking with its filters, and a token's detail. The value
-- of funding:ranked comes decoded. A filter that is not given is an empty list, or `none`; an empty token
-- counts as none.
use funding_radar.Base.{
  ℕ, ◌*◌, String, Bool, Option, none, some, List, [], ◌∷◌, if◌then◌else◌, keep, map, ◌==◌, by_text,
}
use funding_radar.Base.Dict.{Dict, lookup, is_in}
use funding_radar.Base.Text.{lower, upper}
use funding_radar.Base.Float.{Floats}
use funding_radar.Aggregator.{TokenRankRow, ExchangeRateRow}
use funding_radar.Arbitrage.{ArbitrageResult}
use funding_radar.Windows.{Windows, Query, Cache, get_windows}
use funding_radar.Api.Paging.{Page, page_of}

-- In minutes.
abbrev pub timeframe_delta : Dict String ℕ
timeframe_delta =
    ("live", 5)
    ∷ ("1h", 60)
    ∷ ("8h", 8 * 60)
    ∷ ("24h", 24 * 60)
    ∷ ("3d", 3 * 24 * 60)
    ∷ ("7d", 7 * 24 * 60)
    ∷ ("15d", 15 * 24 * 60)
    ∷ ("31d", 31 * 24 * 60)
    ∷ []

-- `none` is the answer 422.
unfoldable pub timeframe_to_delta : String → Option ℕ
timeframe_to_delta tf = lookup tf timeframe_delta

module _ (F : Floats) where
  unfoldable pub for_token : Option String → List (TokenRankRow F) → List (TokenRankRow F)
  for_token none ranked = ranked
  for_token (some token) ranked =
      if token == "" then ranked else keep (λ r. upper r.token == upper token) ranked

  abbrev has_rows : TokenRankRow F → Bool
  has_rows r = elim r.rows [ [] ↦ Bool.false | row ∷ rows ↦ Bool.true ]

  abbrev pub rows_on : List String → TokenRankRow F → TokenRankRow F
  rows_on names r = record r { rows = keep (λ row. is_in row.exchange names) r.rows }

  unfoldable pub for_exchanges : List String → List (TokenRankRow F) → List (TokenRankRow F)
  for_exchanges [] ranked = ranked
  for_exchanges (e ∷ es) ranked = keep has_rows (map (rows_on (map lower (e ∷ es))) ranked)

  -- `none` is the answer that there is no data yet.
  unfoldable pub live_rates :
      Option (List (TokenRankRow F))
      → List String
      → Option String
      → ℕ
      → ℕ
      → Option (Page (TokenRankRow F))
  live_rates none exchanges token limit offset = none
  live_rates (some ranked) exchanges token limit offset =
      some (page_of limit offset (for_exchanges exchanges (for_token token ranked)))

  -- With `include_windows`, each row of the page gets its windows.
  unfoldable pub row_windows :
      Query F
      → ℕ
      → String
      → List (ExchangeRateRow F)
      → Cache F
      → Cache F × List (ExchangeRateRow F × Windows F)
  row_windows query now token [] c = (c, [])
  row_windows query now token (row ∷ rows) c =
      let (c', w) = get_windows F query now row.exchange token c in
      let (c'', rest) = row_windows query now token rows c' in (c'', (row, w) ∷ rest)

  unfoldable pub page_windows :
      Query F
      → ℕ
      → List (TokenRankRow F)
      → Cache F
      → Cache F × List (TokenRankRow F × List (ExchangeRateRow F × Windows F))
  page_windows query now [] c = (c, [])
  page_windows query now (t ∷ ts) c =
      let (c', ws) = row_windows query now t.token t.rows c in
      let (c'', rest) = page_windows query now ts c' in (c'', (t, ws) ∷ rest)

  -- The first item for a token, of the ranking and of the opportunities.
  unfoldable pub snapshot_of : String → List (TokenRankRow F) → Option (TokenRankRow F)
  snapshot_of token [] = none
  snapshot_of token (item ∷ items) =
      let later = snapshot_of token items in if item.token == token then some item else later

  unfoldable pub arb_match : String → List (ArbitrageResult F) → Option (ArbitrageResult F)
  arb_match token [] = none
  arb_match token (opp ∷ opps) =
      let later = arb_match token opps in if opp.token == token then some opp else later

  abbrev pub found_in {ℓ κ} :
      {A : Type ℓ} {B : Type κ} → (List A → Option B) → Option (List A) → Option B
  found_in find none = none
  found_in find (some xs) = find xs

  -- `H` is the type of the hourly averages, which the database makes.
  pub record Detail (H : Type 0) : Type 0 where
    pub token : String
    pub live_snapshot : Option (TokenRankRow F)
    pub arb_summary : Option (ArbitrageResult F)
    pub history_24h : List H

  -- `history` is what the database answers for a token, nothing for one that it has not. `none` is the
  -- answer 404.
  unfoldable pub get_token_detail :
      {H : Type 0}
      → (String → List H)
      → String
      → Option (List (TokenRankRow F))
      → Option (List (ArbitrageResult F))
      → Option (Detail H)
  get_token_detail {H} history token raw_ranked raw_arb =
      let snapshot = found_in (snapshot_of (upper token)) raw_ranked in
      let detail : Detail H = record {
        token = upper token;
        live_snapshot = snapshot;
        arb_summary = found_in (arb_match (upper token)) raw_arb;
        history_24h = history (upper token);
      } in
      elim snapshot [
        | some item ↦ some detail
        | none ↦ elim (history (upper token)) [ [] ↦ none | h ∷ hs ↦ some detail ]
      ]
