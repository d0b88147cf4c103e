-- ===== src/Collectors/Extended/Range.antt =====
-- app/collectors/extended.py, `_fetch_history_range`: pages of ten thousand, newest first, each ending
-- before the last settlement of the one before. Nothing in the code makes the end of a page smaller:
-- that the loop ends rests on the exchange, which answers with settlements up to the end asked for.
use mathlib.Core.Option.{map as map_option}
use funding_radar.Base.{
  ℕ, zero, suc, ◌+◌, ◌-◌, ◌≤◌, ◌<◌, min, ◌≡◌, refl, String, true, false, Option, none, some, List,
  [], ◌∷◌, ◌++◌, ◌||◌, Result, ok, raise, ◌>>=◌, caught, if◌then◌else◌, ltb, leb, ◌==◌, by_value,
  length, last, arith, inl, inr, Bool-cases, Option-cases, IfOk,
}
use funding_radar.Base.Float.{Floats, num}
use funding_radar.Collectors.Contract.{NormalizedFundingData}
use funding_radar.Collectors.Fields.{float_or_zero, int_or_zero}
use funding_radar.Collectors.Figures.{compute_funding_apr}
use funding_radar.Collectors.History.{Settlement, Market, historical, push}
use funding_radar.Collectors.Extended.{
  exchange_slug, funding_interval_hours, strip_quote, maker_fee, taker_fee, ExtendedCollector,
  MarketInfo, load_exchange_info,
}

abbrev pub page_size : ℕ
page_size = 10000

module _ (F : Floats) where
  abbrev pub market : String → Market F
  market symbol = record {
    exchange = exchange_slug;
    token = strip_quote symbol;
    symbol = symbol;
    interval_hours = funding_interval_hours;
    maker_fee = maker_fee F;
    taker_fee = taker_fee F;
  }

  unfoldable pub history_record : String → Settlement F → Result (Option (NormalizedFundingData F))
  history_record symbol rec = do
    rate ← float_or_zero F rec.rate
    ts ← int_or_zero F rec.time
    if ts == 0 then ok none else (do
      apr ← compute_funding_apr F rate funding_interval_hours
      ok (some (historical F (market symbol) rate (F.mul rate (num F 8)) apr ts)))

  -- A settlement whose figures are no numbers is passed over.
  unfoldable pub yielded : String → List (Settlement F) → List (NormalizedFundingData F)
  yielded symbol [] = []
  yielded symbol (rec ∷ raw) = push (caught (history_record symbol rec)) (yielded symbol raw)

  -- What a request for a symbol's settlements from a time to a time answers, none where it raises.
  abbrev pub Fetch : Type 0
  Fetch = String → ℕ → ℕ → Option (List (Settlement F))

  -- The end of the next page, if there is one to ask for. Its last time is after the start, so that
  -- one can be taken off.
  abbrev pub next_end : ℕ → ℕ → Result ℕ → Option ℕ
  next_end count start_ms (raise e) = none
  next_end count start_ms (ok last_ts) =
      if ltb count page_size || leb last_ts start_ms then none else some (last_ts - 1)

  -- After a page, what it yielded and where the next one ends.
  unfoldable pub page :
      String → ℕ → Option (List (Settlement F)) → List (NormalizedFundingData F) × Option ℕ
  page symbol start_ms none = ([], none)
  page symbol start_ms (some []) = ([], none)
  page symbol start_ms (some (r ∷ rs)) = (
    yielded symbol (r ∷ rs),
    next_end (length (r ∷ rs)) start_ms (int_or_zero F (last r rs).time),
  )

  unfoldable pub pages : Fetch → String → ℕ → ℕ → ℕ → Option (List (NormalizedFundingData F))
  pages fetch symbol zero start_ms chunk_end = none
  pages fetch symbol (suc fuel) start_ms chunk_end = elim (ltb start_ms chunk_end) [
    | false ↦ some []
    | true ↦
        let (ds, next) = page symbol start_ms (fetch symbol start_ms chunk_end) in
        elim next [
          | none ↦ some ds
          | some until ↦ map_option (λ more. ds ++ more) (pages fetch symbol fuel start_ms until)
        ]
  ]

  unfoldable pub symbols_history :
      Fetch → ℕ → ℕ → ℕ → List String → Option (List (NormalizedFundingData F))
  symbols_history fetch start_ms end_ms now_ms [] = some []
  symbols_history fetch start_ms end_ms now_ms (symbol ∷ symbols) =
      elim (pages fetch symbol (min end_ms now_ms - start_ms + 1) start_ms (min end_ms now_ms)) [
        | none ↦ none
        | some ds ↦
            map_option (λ more. ds ++ more) (symbols_history fetch start_ms end_ms now_ms symbols)
      ]

  -- `infos` is the answer to info/markets, asked for when no symbol is known.
  abbrev pub warmed : Option (List (MarketInfo F)) → ExtendedCollector F → ExtendedCollector F
  warmed infos st = elim st.active_symbols [ [] ↦ load_exchange_info F infos st | s ∷ ss ↦ st ]

  unfoldable pub fetch_history_range :
      Option (List (MarketInfo F))
      → Fetch
      → ℕ
      → ℕ
      → ℕ
      → ExtendedCollector F
      → ExtendedCollector F × Option (List (NormalizedFundingData F))
  fetch_history_range infos fetch start_ms end_ms now_ms st = (
    warmed infos st,
    symbols_history fetch start_ms end_ms now_ms (warmed infos st).active_symbols,
  )

  -- An answer whose last settlement is not after the end that was asked for.
  abbrev pub EndsBy : ℕ → Option (List (Settlement F)) → Type 0
  EndsBy until none = Unit
  EndsBy until (some []) = Unit
  EndsBy until (some (r ∷ rs)) = IfOk (λ t. t ≤ until) (int_or_zero F (last r rs).time)

  next_end_moves :
      (count start_ms until : ℕ) (r : Result ℕ) {next : ℕ}
      → IfOk (λ t. t ≤ until) r
      → next_end count start_ms r ≡ some next
      → next < until
  next_end_moves count start_ms until (raise e) b h = cc
  next_end_moves count start_ms until (ok last_ts) b h = ground arith

  page_moves :
      (symbol : String) (start_ms until : ℕ) (answer : Option (List (Settlement F))) {next : ℕ}
      → EndsBy until answer
      → (page symbol start_ms answer).1 ≡ some next
      → next < until
  unfolding page
  page_moves symbol start_ms until none b h = cc
  page_moves symbol start_ms until (some []) b h = cc
  page_moves symbol start_ms until (some (r ∷ rs)) b h =
      next_end_moves (length (r ∷ rs)) start_ms until (int_or_zero F (last r rs).time) b h

  pub pages_total :
      (fetch : Fetch) (symbol : String) (fuel start_ms chunk_end : ℕ)
      → ((a b : ℕ) → EndsBy b (fetch symbol a b))
      → chunk_end - start_ms < fuel
      → (ds : List (NormalizedFundingData F)) × (pages fetch symbol fuel start_ms chunk_end
          ≡ some ds)
  unfolding pages
  pages_total fetch symbol zero start_ms chunk_end b h = elim h [ ]
  pages_total fetch symbol (suc fuel) start_ms chunk_end b h =
      let (ds, next) = page symbol start_ms (fetch symbol start_ms chunk_end) in
      elim (Bool-cases (ltb start_ms chunk_end)) [
        | inr q ↦ ([], rw (pages, q) refl)
        | inl q ↦ elim (Option-cases next) [
          | inl n ↦ (ds, rw (pages, q, n) refl)
          | inr (until, n) ↦
              let further = page_moves symbol start_ms chunk_end _ (b start_ms chunk_end) n in
              let (more, e) = pages_total fetch symbol fuel start_ms until b (ground arith) in
              (ds ++ more, rw (pages, q, n, e) refl)
        ]
      ]

  -- An exchange that always answers with the same full page keeps the loop going for ever.
  pub pages-stuck :
      (fetch : Fetch) (symbol : String) (fuel start_ms chunk_end until : ℕ)
      → start_ms < chunk_end
      → start_ms < until
      → ((b : ℕ) → (page symbol start_ms (fetch symbol start_ms b)).1 ≡ some until)
      → pages fetch symbol fuel start_ms chunk_end ≡ none
  unfolding pages
  pages-stuck fetch symbol zero start_ms chunk_end until h k f = refl
  pages-stuck fetch symbol (suc fuel) start_ms chunk_end until h k f =
      let on : ltb start_ms chunk_end ≡ true = ground arith in
      rw (pages, on, f chunk_end, pages-stuck fetch symbol fuel start_ms until until k k f) refl
