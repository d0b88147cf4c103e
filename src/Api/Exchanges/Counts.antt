-- ===== src/Api/Exchanges/Counts.antt =====
-- app/api/v1/exchanges.py: the count of an exchange against the rows that name it.
use funding_radar.Base.{
  ℕ, ◌+◌, String, ◌≡◌, refl, Option, some, List, [], ◌∷◌, ◌++◌, ◌∙◌, if◌then◌else◌, get_or, keep,
  length, length-append, length-map, map, All, ◌==◌, by_text, arith,
}
use funding_radar.Base.Dict.{Dict, lookup, lookup-insert, lookup-nil}
use funding_radar.Base.Sort.{IsSorted, sort-IsSorted, sort-All, length-sort}
use funding_radar.Arbitrage.{ArbitrageResult}
use funding_radar.Base.Float.{Floats}
use funding_radar.Aggregator.{TokenRankRow, ExchangeRateRow}
use funding_radar.Api.Exchanges.{
  count_one, count_rows, count_tokens, count_legs, Exchange, ExchangeStats, stats_of, more_tokens,
  list_exchanges, or_nothing,
}

-- What a dict of counts says.
abbrev pub counted : String → Dict String ℕ → ℕ
counted ex d = get_or (lookup ex d) 0

counted-count_one :
    (ex name : String) (d : Dict String ℕ)
    → counted ex (count_one name d) ≡ (if name == ex then counted ex d + 1 else counted ex d)
counted-count_one ex name d =
    let e = lookup-insert name ex (counted name d + 1) d in
    ground (arith, e, by_text.same_iff name ex)

module _ (F : Floats) where
  -- The rows of the ranking that name an exchange.
  abbrev pub rows_of : String → List (TokenRankRow F) → List (ExchangeRateRow F)
  rows_of ex [] = []
  rows_of ex (item ∷ items) = keep (λ row. row.exchange == ex) item.rows ++ rows_of ex items

  count_rows_lem :
      (ex : String) (rows : List (ExchangeRateRow F)) (d : Dict String ℕ)
      → counted ex (count_rows F rows d)
        ≡ counted ex d + length (keep (λ row. row.exchange == ex) rows)
  unfolding count_rows
  count_rows_lem ex [] d = omega arith
  count_rows_lem ex (row ∷ rows) d = ground (
    arith,
    count_rows_lem ex rows (count_one row.exchange d),
    counted-count_one ex row.exchange d,
  )

  count_tokens_from :
      (ex : String) (items : List (TokenRankRow F)) (d : Dict String ℕ)
      → counted ex (count_tokens F items d) ≡ counted ex d + length (rows_of ex items)
  unfolding count_tokens
  count_tokens_from ex [] d = omega arith
  count_tokens_from ex (item ∷ items) d =
      let rows = keep (λ (row : ExchangeRateRow F). row.exchange == ex) item.rows in
      omega (
        arith,
        count_tokens_from ex items (count_rows F item.rows d),
        count_rows_lem ex item.rows d,
        length-append rows (rows_of ex items),
      )

  -- The count of tokens is that of the rows that name the exchange.
  abbrev pub IsCounted : List (TokenRankRow F) → ExchangeStats F → Type 0
  IsCounted items s = s.live_token_count ≡ length (rows_of s.exchange.slug items)

  stats-IsCounted :
      (items : List (TokenRankRow F)) (arbs : Dict String ℕ) (exchanges : List (Exchange F))
      → All (IsCounted items) (map (stats_of F (count_tokens F items []) arbs) exchanges)
  stats-IsCounted items arbs [] = tt
  stats-IsCounted items arbs (ex ∷ exchanges) =
      let counts = count_tokens_from ex.slug items [] in
      let nothing : counted ex.slug [] ≡ 0 = rw lookup-nil refl in
      (omega (arith, counts, nothing), stats-IsCounted items arbs exchanges)

  pub list_exchanges_lem :
      (exchanges : List (Exchange F)) (items : List (TokenRankRow F))
      (raw_arb : Option (List (ArbitrageResult F)))
      → All (IsCounted items) (list_exchanges F exchanges (some items) raw_arb)
        × IsSorted (more_tokens F) (list_exchanges F exchanges (some items) raw_arb)
        × (length (list_exchanges F exchanges (some items) raw_arb) ≡ length exchanges)
  unfolding list_exchanges
  list_exchanges_lem exchanges items raw_arb =
      let arbs = count_legs F (or_nothing raw_arb) [] in
      let stats = map (stats_of F (count_tokens F items []) arbs) exchanges in
      (
        sort-All (more_tokens F) (IsCounted items) stats (stats-IsCounted items arbs exchanges),
        sort-IsSorted (more_tokens F) (λ x y h. ground arith) (λ x y z h k. ground arith) stats,
        length-sort (more_tokens F) stats
            ∙ length-map (stats_of F (count_tokens F items []) arbs) exchanges,
      )
