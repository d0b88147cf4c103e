-- ===== src/Collectors/Polls.antt =====
-- app/collectors: a poll of whichever collector, `_poll_rest` of the class, as the loop of base.py calls
-- it. Each constructor carries what that collector keeps and what its requests are answered.
use funding_radar.Base.{
  ℕ, String, ◌≡◌, Option, none, some, List, [], ◌∷◌, Result, ok, caught, caught-some, by_text, All,
  IfOk, arith, inl, inr, Bool-cases,
}
use funding_radar.Base.Dict.{Dict, is_in}
use funding_radar.Base.Float.{Floats}
use funding_radar.Collectors.Contract.{NormalizedFundingData}
use funding_radar.Collectors.Figures.{IsSound, IsComputed-IsSound}
use funding_radar.Collectors.History.{All-push}
use funding_radar.Collectors.Hyperliquid
use funding_radar.Collectors.Hyperliquid.Sound as HyperliquidSound
use funding_radar.Collectors.Aster
use funding_radar.Collectors.Aster.Poll as AsterPoll
use funding_radar.Collectors.Aster.Sound as AsterSound
use funding_radar.Collectors.Extended
use funding_radar.Collectors.Pacifica

module _ (F : Floats) where
  open F use {Num}

  pub data Poll : Type 0 where
    hyperliquid :
        Hyperliquid.HyperliquidCollector F
        → Option (Option (List Hyperliquid.AssetMeta × List (Hyperliquid.AssetCtx F)))
        → Poll
    aster :
        Aster.AsterCollector F
        → Option (List (Aster.Ticker F))
        → Option (List (Aster.Premium F))
        → Poll
    extended : Extended.ExtendedCollector F → Option (List (Extended.MarketInfo F)) → Poll
    pacifica :
        Pacifica.PacificaCollector F
        → Option (List String)
        → Option (List (Pacifica.MarketPrices F))
        → Poll

  unfoldable pub polled : Num → ℕ → Poll → Result (List (NormalizedFundingData F))
  polled min_oi now_ms (hyperliquid st answer) =
      ok (Hyperliquid.poll_rest F min_oi now_ms answer st).1
  polled min_oi now_ms (aster st tickers premiums) =
      (AsterPoll.poll_rest F min_oi now_ms tickers premiums st).1
  polled min_oi now_ms (extended st markets) = ok (Extended.poll_rest F min_oi now_ms markets st)
  polled min_oi now_ms (pacifica st infos markets) =
      ok (Pacifica.poll_rest F min_oi now_ms infos markets st).1

  -- Aster does not filter while it has no ticker.
  abbrev pub HasTickers : Poll → Type 0
  HasTickers (hyperliquid st answer) = Unit
  HasTickers (aster st none premiums) = Unit
  HasTickers (aster st (some []) premiums) = ⊥
  HasTickers (aster st (some (t ∷ ts)) premiums) = Unit
  HasTickers (extended st markets) = Unit
  HasTickers (pacifica st infos markets) = Unit

  extended_record-IsSound :
      (min_oi : Num) (now_ms : ℕ) (prices : Dict String Num) (m : Extended.MarketInfo F)
      {d : NormalizedFundingData F}
      → Extended.record_of F min_oi now_ms prices m ≡ ok (some d)
      → IsSound F min_oi d
  unfolding Extended.record_of
  extended_record-IsSound min_oi now_ms prices m {d} h =
      IsComputed-IsSound F min_oi d (ground arith)

  extended_markets-IsSound :
      (min_oi : Num) (now_ms : ℕ) (st : Extended.ExtendedCollector F)
      (ms : List (Extended.MarketInfo F))
      → All (IsSound F min_oi) (Extended.normalize_markets F min_oi now_ms st ms)
  unfolding Extended.normalize_markets
  extended_markets-IsSound min_oi now_ms st [] = tt
  extended_markets-IsSound min_oi now_ms st (m ∷ ms) =
      let rest = extended_markets-IsSound min_oi now_ms st ms in
      let found = Extended.record_of F min_oi now_ms st.ws_snapshots m in
      elim (Bool-cases (is_in m.name st.active_symbols)) [
        | inl q ↦ rw q (
            All-push (IsSound F min_oi) (caught found) _
              (λ d e. extended_record-IsSound min_oi now_ms st.ws_snapshots m (caught-some found e))
              rest)
        | inr q ↦ rw q rest
      ]

  pacifica_record-IsSound :
      (min_oi : Num) (now_ms : ℕ) (prices : Dict String Num) (m : Pacifica.MarketPrices F)
      {d : NormalizedFundingData F}
      → Pacifica.record_of F min_oi now_ms prices m ≡ ok (some d)
      → IsSound F min_oi d
  unfolding Pacifica.record_of
  pacifica_record-IsSound min_oi now_ms prices m {d} h =
      IsComputed-IsSound F min_oi d (ground arith)

  pacifica_markets-IsSound :
      (min_oi : Num) (now_ms : ℕ) (st : Pacifica.PacificaCollector F)
      (ms : List (Pacifica.MarketPrices F))
      → All (IsSound F min_oi) (Pacifica.normalize_markets F min_oi now_ms st ms)
  unfolding Pacifica.normalize_markets
  pacifica_markets-IsSound min_oi now_ms st [] = tt
  pacifica_markets-IsSound min_oi now_ms st (m ∷ ms) =
      let rest = pacifica_markets-IsSound min_oi now_ms st ms in
      let found = Pacifica.record_of F min_oi now_ms st.ws_snapshots m in
      elim (Bool-cases (is_in m.symbol st.active_symbols)) [
        | inl q ↦ rw q (
            All-push (IsSound F min_oi) (caught found) _
              (λ d e. pacifica_record-IsSound min_oi now_ms st.ws_snapshots m (caught-some found e))
              rest)
        | inr q ↦ rw q rest
      ]

  -- What a poll publishes, by its collector.
  abbrev pub IsPublished : Num → Poll → NormalizedFundingData F → Type 0
  IsPublished min_oi (hyperliquid st answer) = IsSound F min_oi
  IsPublished min_oi (aster st tickers premiums) = AsterSound.IsProxied F min_oi
  IsPublished min_oi (extended st markets) = IsSound F min_oi
  IsPublished min_oi (pacifica st infos markets) = IsSound F min_oi

  -- Whatever a collector keeps and its exchange answers, each record of a poll that does not raise has an
  -- open interest of no less than the minimum and a volume above 0, an interval of some hours, the APR in
  -- per cent that its rate gives at 24 hours over those of its interval, on 365 days, and the distance of
  -- the mark price from an index price above 0, in per cent of the latter, as its spread, or 0 without one;
  -- and the open interest of a record of Aster is its volume. A poll of Aster that gets an empty list of
  -- tickers is excepted.
  pub polled-IsSound :
      (min_oi : Num) (now_ms : ℕ) (p : Poll)
      → HasTickers p
      → IfOk (All (IsPublished min_oi p)) (polled min_oi now_ms p)
  unfolding polled AsterPoll.poll_rest Extended.poll_rest Pacifica.poll_rest
  polled-IsSound min_oi now_ms (hyperliquid st answer) h =
      HyperliquidSound.poll_rest-IsSound F min_oi now_ms answer st
  polled-IsSound min_oi now_ms (aster st none premiums) h = tt
  polled-IsSound min_oi now_ms (aster st (some []) premiums) h = elim h [ ]
  polled-IsSound min_oi now_ms (aster st (some (t ∷ ts)) premiums) h =
      AsterSound.poll_rest-IsProxied F min_oi now_ms t ts premiums st
  polled-IsSound min_oi now_ms (extended st none) h = tt
  polled-IsSound min_oi now_ms (extended st (some ms)) h =
      extended_markets-IsSound min_oi now_ms st ms
  polled-IsSound min_oi now_ms (pacifica st infos none) h = tt
  polled-IsSound min_oi now_ms (pacifica st infos (some ms)) h =
      pacifica_markets-IsSound min_oi now_ms (Pacifica.ready F infos st) ms
