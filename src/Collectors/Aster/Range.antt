-- ===== src/Collectors/Aster/Range.antt =====
-- app/collectors/aster.py, `_fetch_history_range`: the history of a symbol in pages of a thousand. The
-- next page begins after the last settlement of the one before, which must lie after that page's start;
-- so fuel for every millisecond of the range is enough, whatever the exchange answers.
use mathlib.Core.Option.{map as map_option}
use funding_radar.Base.{
  ℕ, zero, suc, ◌+◌, ◌-◌, ◌<◌, min, ◌≡◌, refl, String, Bool, true, false, Option, none, some, List,
  [], ◌∷◌, ◌++◌, ◌||◌, Result, ok, raise, ◌>>=◌, skip_bad, if◌then◌else◌, ltb, leb, ◌==◌, by_value,
  by_text, length, last, arith, inl, inr, Bool-cases, Option-cases,
}
use funding_radar.Base.Dict.{Dict}
use funding_radar.Base.Float.{Floats}
use funding_radar.Collectors.Contract.{NormalizedFundingData}
use funding_radar.Collectors.Fields.{float_or_zero, int_or_zero}
use funding_radar.Collectors.Figures.{compute_funding_apr}
use funding_radar.Collectors.History.{Settlement, Market, historical, push}
use funding_radar.Collectors.Aster.{
  exchange_slug, strip_quote, maker_fee, taker_fee, AsterCollector, SymbolInfo, load_exchange_info,
}
use funding_radar.Collectors.Aster.Poll.{interval_of}

abbrev pub page_size : ℕ
page_size = 1000

module _ (F : Floats) where
  abbrev pub market : Dict String ℕ → String → Market F
  market intervals symbol = record {
    exchange = exchange_slug;
    token = strip_quote symbol;
    symbol = symbol;
    interval_hours = interval_of F symbol intervals;
    maker_fee = maker_fee F;
    taker_fee = taker_fee F;
  }

  unfoldable pub history_record :
      Market F → Settlement F → Result (Option (NormalizedFundingData F))
  history_record m rec = do
    rate ← float_or_zero F rec.rate
    ts ← int_or_zero F rec.time
    if ts == 0 then ok none else (do
      apr ← compute_funding_apr F rate m.interval_hours
      ok (some (historical F m rate rate apr ts)))

  -- The records of a page, and whether it was gone through to its end: an interval of 0 hours raises.
  unfoldable pub yielded : Market F → List (Settlement F) → List (NormalizedFundingData F) × Bool
  yielded m [] = ([], true)
  yielded m (rec ∷ raw) =
      let (ds, whole) = yielded m raw in
      elim (skip_bad (history_record m rec)) [
        | raise e ↦ ([], false)
        | ok found ↦ (push found ds, whole)
      ]

  -- What a request for a symbol's settlements from a time to a time answers, none where it raises.
  abbrev pub Fetch : Type 0
  Fetch = String → ℕ → ℕ → Option (List (Settlement F))

  -- The start of the next page, if there is one to ask for.
  abbrev pub next_start : ℕ → ℕ → Result ℕ → Option ℕ
  next_start count chunk_start (raise e) = none
  next_start count chunk_start (ok last_ts) =
      if ltb count page_size || leb last_ts chunk_start then none else some (last_ts + 1)

  -- After a page, what it yielded and where the next one starts.
  unfoldable pub page :
      Market F → ℕ → Option (List (Settlement F)) → List (NormalizedFundingData F) × Option ℕ
  page m chunk_start none = ([], none)
  page m chunk_start (some []) = ([], none)
  page m chunk_start (some (r ∷ rs)) =
      let (ds, whole) = yielded m (r ∷ rs) in
      (
        ds,
        if whole
            then next_start (length (r ∷ rs)) chunk_start (int_or_zero F (last r rs).time)
            else none,
      )

  unfoldable pub pages : Fetch → Market F → ℕ → ℕ → ℕ → Option (List (NormalizedFundingData F))
  pages fetch m zero chunk_start limit = none
  pages fetch m (suc fuel) chunk_start limit = elim (ltb chunk_start limit) [
    | false ↦ some []
    | true ↦
        let (ds, next) = page m chunk_start (fetch m.symbol chunk_start limit) in
        elim next [
          | none ↦ some ds
          | some start ↦ map_option (λ more. ds ++ more) (pages fetch m fuel start limit)
        ]
  ]

  unfoldable pub symbol_history :
      Fetch → Market F → ℕ → ℕ → ℕ → Option (List (NormalizedFundingData F))
  symbol_history fetch m start_ms end_ms now_ms =
      pages fetch m (min end_ms now_ms - start_ms + 1) start_ms (min end_ms now_ms)

  unfoldable pub symbols_history :
      Fetch → Dict String ℕ → ℕ → ℕ → ℕ → List String → Option (List (NormalizedFundingData F))
  symbols_history fetch intervals start_ms end_ms now_ms [] = some []
  symbols_history fetch intervals start_ms end_ms now_ms (symbol ∷ symbols) =
      elim (symbol_history fetch (market intervals symbol) start_ms end_ms now_ms) [
        | none ↦ none
        | some ds ↦
            map_option (λ more. ds ++ more)
              (symbols_history fetch intervals start_ms end_ms now_ms symbols)
      ]

  -- `infos` is the answer to exchangeInfo, asked for when no symbol is known.
  abbrev pub warmed : Option (List (SymbolInfo F)) → AsterCollector F → AsterCollector F
  warmed infos st = elim st.active_symbols [ [] ↦ load_exchange_info F infos st | s ∷ ss ↦ st ]

  unfoldable pub fetch_history_range :
      Option (List (SymbolInfo F))
      → Fetch
      → ℕ
      → ℕ
      → ℕ
      → AsterCollector F
      → AsterCollector F × Option (List (NormalizedFundingData F))
  fetch_history_range infos fetch start_ms end_ms now_ms st = (
    warmed infos st,
    symbols_history fetch (warmed infos st).funding_intervals start_ms end_ms now_ms
        (warmed infos st).active_symbols,
  )

  next_start_moves :
      (count chunk_start : ℕ) (r : Result ℕ) {start : ℕ}
      → next_start count chunk_start r ≡ some start
      → chunk_start < start
  next_start_moves count chunk_start (raise e) h = cc
  next_start_moves count chunk_start (ok last_ts) h = ground arith

  pub page_moves :
      (m : Market F) (chunk_start : ℕ) (answer : Option (List (Settlement F))) {start : ℕ}
      → (page m chunk_start answer).1 ≡ some start
      → chunk_start < start
  unfolding page
  page_moves m chunk_start none h = cc
  page_moves m chunk_start (some []) h = cc
  page_moves m chunk_start (some (r ∷ rs)) h = elim (Bool-cases (yielded m (r ∷ rs)).1) [
    | inl q ↦
        next_start_moves (length (r ∷ rs)) chunk_start (int_or_zero F (last r rs).time)
          (rw (page, q) at h)
    | inr q ↦ let h' : ◌≡◌ {A = Option ℕ} none (some _) = rw (page, q) at h in cc
  ]

  pub pages_total :
      (fetch : Fetch) (m : Market F) (fuel chunk_start limit : ℕ)
      → limit - chunk_start < fuel
      → (ds : List (NormalizedFundingData F)) × (pages fetch m fuel chunk_start limit ≡ some ds)
  unfolding pages
  pages_total fetch m zero chunk_start limit h = elim h [ ]
  pages_total fetch m (suc fuel) chunk_start limit h =
      let (ds, next) = page m chunk_start (fetch m.symbol chunk_start limit) in
      elim (Bool-cases (ltb chunk_start limit)) [
        | inr q ↦ ([], rw (pages, q) refl)
        | inl q ↦ elim (Option-cases next) [
          | inl n ↦ (ds, rw (pages, q, n) refl)
          | inr (start, n) ↦
              let further = page_moves m chunk_start _ n in
              let (more, e) = pages_total fetch m fuel start limit (ground arith) in
              (ds ++ more, rw (pages, q, n, e) refl)
        ]
      ]
