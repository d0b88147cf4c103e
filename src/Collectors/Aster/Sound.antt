-- ===== src/Collectors/Aster/Sound.antt =====
-- app/collectors/aster.py: what a poll publishes, and the weight with which a request leaves.
use funding_radar.Base.{
  ℕ, String, true, ◌≡◌, refl, ◌<◌, Option, none, some, List, [], ◌∷◌, Result, ok, Error, skip_bad,
  Result-cases, IfOk, skip_bad-some, All, inl, inr, arith, Option-cases, by_text,
}
use funding_radar.Base.Dict.{Dict, insert}
use funding_radar.Base.Float.{Floats}
use funding_radar.Collectors.Contract.{NormalizedFundingData}
use funding_radar.Collectors.Fields.{Cell}
use funding_radar.Collectors.Figures.{IsSound, IsComputed, IsComputed-IsSound}
use funding_radar.Collectors.History.{All-push}
use funding_radar.Collectors.Aster.{
  AsterCollector, Snap, Ticker, Premium, tickers_by_symbol, merge_premium,
}
use funding_radar.Collectors.Aster.Poll.{
  record_of, build_normalized, is_loaded, poll_with, poll_rest, or_error, premiums_or_nothing,
}
use funding_radar.Collectors.Aster.Weight.{Weight, threshold, weight_check}

module _ (F : Floats) where
  open F use {Num}

  -- A sound record whose open interest is the volume, which Aster's collector takes for it.
  abbrev pub IsProxied : Num → NormalizedFundingData F → Type 0
  IsProxied min_oi d = IsSound F min_oi d × (d.open_interest_usd ≡ d.volume_24h_usd)

  record_of-IsProxied :
      (min_oi : Num) (now_ms : ℕ) (tickers : Dict String (Cell F)) (intervals : Dict String ℕ)
      (symbol : String) (snap : Snap F) {d : NormalizedFundingData F}
      → is_loaded F tickers ≡ true
      → record_of F min_oi now_ms tickers intervals symbol snap ≡ ok (some d)
      → IsProxied min_oi d
  unfolding record_of
  record_of-IsProxied min_oi now_ms tickers intervals symbol snap {d} l h =
      let both : IsComputed F min_oi d × (d.open_interest_usd ≡ d.volume_24h_usd) = ground arith in
      (IsComputed-IsSound F min_oi d both.0, both.1)

  build_normalized-IsProxied :
      (min_oi : Num) (now_ms : ℕ) (tickers : Dict String (Cell F)) (intervals : Dict String ℕ)
      (snaps : Dict String (Snap F))
      → is_loaded F tickers ≡ true
      → IfOk (All (IsProxied min_oi)) (build_normalized F min_oi now_ms tickers intervals snaps)
  unfolding build_normalized
  build_normalized-IsProxied min_oi now_ms tickers intervals [] l = tt
  build_normalized-IsProxied min_oi now_ms tickers intervals ((symbol, snap) ∷ snaps) l =
      let found = record_of F min_oi now_ms tickers intervals symbol snap in
      let ih = build_normalized-IsProxied min_oi now_ms tickers intervals snaps l in
      elim (Result-cases (skip_bad found)) [
        | inl (e, q) ↦ rw q tt
        | inr (o, q) ↦
            elim (Result-cases (build_normalized F min_oi now_ms tickers intervals snaps)) [
              | inl (e, p) ↦ rw (q, p) tt
              | inr (ds, p) ↦
                  let ih' : All (IsProxied min_oi) ds = rw p at ih in
                  rw (q, p)
                    (All-push (IsProxied min_oi) o ds
                      (λ d s.
                        record_of-IsProxied min_oi now_ms tickers intervals symbol snap l
                          (skip_bad-some found (rw s at q)))
                      ih')
            ]
      ]

  is_loaded-insert :
      (symbol : String) (c : Cell F) (d : Dict String (Cell F))
      → is_loaded F (insert symbol c d) ≡ true
  unfolding insert
  is_loaded-insert symbol c [] = refl
  is_loaded-insert symbol c ((j, w) ∷ d) = ground arith

  tickers_loaded_from :
      (ts : List (Ticker F)) (d : Dict String (Cell F))
      → is_loaded F d ≡ true
      → IfOk (λ d. is_loaded F d ≡ true) (tickers_by_symbol F ts d)
  unfolding tickers_by_symbol
  tickers_loaded_from [] d h = h
  tickers_loaded_from (t ∷ ts) d h = elim (Option-cases t.symbol) [
    | inl q ↦ rw q tt
    | inr (symbol, q) ↦ rw q (
        tickers_loaded_from ts (insert symbol t.quote_volume d)
          (is_loaded-insert symbol t.quote_volume d))
  ]

  tickers_loaded :
      (t : Ticker F) (ts : List (Ticker F))
      → IfOk (λ d. is_loaded F d ≡ true) (tickers_by_symbol F (t ∷ ts) [])
  unfolding tickers_by_symbol
  tickers_loaded t ts = elim (Option-cases t.symbol) [
    | inl q ↦ rw q tt
    | inr (symbol, q) ↦ rw q (
        tickers_loaded_from ts (insert symbol t.quote_volume [])
          (is_loaded-insert symbol t.quote_volume []))
  ]

  or_error-IfOk {ℓ κ} :
      {A : Type ℓ} (P : A → Type κ) (o : Option Error) (r : Result A)
      → IfOk P r
      → IfOk P (or_error F o r)
  or_error-IfOk P none r h = h
  or_error-IfOk P (some e) r h = tt

  pub poll_rest-IsProxied :
      (min_oi : Num) (now_ms : ℕ) (t : Ticker F) (ts : List (Ticker F))
      (premiums : Option (List (Premium F))) (st : AsterCollector F)
      → IfOk (All (IsProxied min_oi)) (poll_rest F min_oi now_ms (some (t ∷ ts)) premiums st).1
  unfolding poll_rest poll_with
  poll_rest-IsProxied min_oi now_ms t ts premiums st =
      let all_loaded = tickers_loaded t ts in
      elim (Result-cases (tickers_by_symbol F (t ∷ ts) [])) [
        | inl (e, q) ↦ rw (q, poll_rest) tt
        | inr (cache, q) ↦
            let loaded : is_loaded F cache ≡ true = rw q at all_loaded in
            let (snaps, stopped) =
              merge_premium F (premiums_or_nothing F premiums) st.ws_snapshots in
            rw (q, poll_rest)
              (or_error-IfOk (All (IsProxied min_oi)) stopped
                (build_normalized F min_oi now_ms cache st.funding_intervals snaps)
                (build_normalized-IsProxied min_oi now_ms cache st.funding_intervals snaps loaded))
      ]

  pub weight_check-lt :
      (now woken : ℕ) (w : Weight) → (weight_check now woken w).0.current < threshold
  unfolding weight_check
  weight_check-lt now woken w = ground arith
