-- ===== src/Tests/Collecting.antt =====
-- The collectors, over integers.
use funding_radar.Base.{
  ℕ, min, String, true, false, ◌≡◌, refl, none, some, List, [], ◌∷◌, length, keep, All, Among, ok,
  IfOk, inl, inr, arith, by_text, ◌==◌, by_value,
}
use funding_radar.Base.Int.{pos, ◌*ℤ◌, ◌/ℤ◌}
use funding_radar.Base.Dict.{IsDict, lookup, lookup-nil}
use funding_radar.Base.Float.{integers}
use funding_radar.Base.Text.{int as int_of_text}
use funding_radar.Collectors.Contract.{NormalizedFundingData}
use funding_radar.Collectors.Fields.{Cell, absent, text, whole, number, float, int, int_or_zero}
use funding_radar.Collectors.Figures.{compute_funding_apr, compute_8h_rate}
use funding_radar.Collectors.History.{Settlement, historical}
use funding_radar.Collectors.Hyperliquid
use funding_radar.Collectors.Hyperliquid.Range as HyperliquidRange
use funding_radar.Collectors.Hyperliquid.Complete as HyperliquidComplete
use funding_radar.Collectors.Aster.Range as AsterRange
use funding_radar.Collectors.Aster.Complete as AsterComplete
use funding_radar.Collectors.Polls
use funding_radar.Collectors.Lifecycle.{Outcome, returned, raised, ws_loop, history}
use funding_radar.Collectors.Lifecycle.Backoff.{backoff, ws_loop-backoff}
use funding_radar.Collectors.Registry.{Instance, CollectorRegistry, watchdog}
use funding_radar.Collectors.Registry.Watchdog.{looked, watchdog_lem}

-- A range of more than a week, and a time in its second window.
chunks_lem_example :
    (cs : List (ℕ × ℕ)) × (HyperliquidRange.chunks 0 700_000_000 2_000_000_000 ≡ some cs)
    × (length (keep (HyperliquidRange.within 604_800_001) cs) ≡ 1)
    × All (HyperliquidRange.IsWindow 0 (min 700_000_000 2_000_000_000)) cs
chunks_lem_example =
    HyperliquidRange.chunks_lem 0 700_000_000 2_000_000_000 604_800_001 (omega arith) (omega arith)

chunks_run :
    HyperliquidRange.chunks 0 700_000_000 2_000_000_000
    ≡ some ((0, 604_800_000) ∷ (604_800_001, 700_000_000) ∷ [])
unfolding HyperliquidRange.chunks HyperliquidRange.chunks_from
chunks_run = refl

abbrev settled : ℕ → Settlement integers
settled t = record { rate = number (pos 3); time = whole t }

abbrev hourly : ℕ → NormalizedFundingData integers
hourly t =
    historical integers (HyperliquidRange.market integers "BTC") (pos 3) (pos 24) (pos 2628000) t

hourly_record : HyperliquidRange.history_record integers "BTC" (settled 9) ≡ ok (some (hourly 9))
unfolding HyperliquidRange.history_record float int compute_funding_apr compute_8h_rate ◌*ℤ◌ ◌/ℤ◌
hourly_record = refl

abbrev hyperliquid_state : Hyperliquid.HyperliquidCollector integers
hyperliquid_state = record { mid_prices = []; asset_meta = ("BTC", record { name = "BTC" }) ∷ [] }

abbrev history_table : String → List (Settlement integers)
history_table asset = settled 5 ∷ settled 9 ∷ []

time_is_nine : int_or_zero integers (settled 9).time ≡ ok 9
unfolding int
time_is_nine = refl

fetch_history_range-keeps_example :
    (ds : List (NormalizedFundingData integers)) × ((HyperliquidRange.fetch_history_range integers
        (pos 1000)
        none
        (HyperliquidComplete.serve integers history_table)
        6
        100
        50
        hyperliquid_state).1
      ≡ some ds)
    × Among (hourly 9) ds
fetch_history_range-keeps_example =
    HyperliquidComplete.fetch_history_range-keeps integers (pos 1000) none history_table "BTC"
      (settled 9) 6 100 50 9 hyperliquid_state (inl refl) (inr (inl refl)) hourly_record
      time_is_nine (omega arith) (omega arith)

-- Three settlements of a symbol of Aster, of which one has no rate, and the record of the last.
abbrev aster_table : String → List (ℕ × Cell integers)
aster_table symbol = (5, text "3") ∷ (6, text "no rate") ∷ (9, text "4") ∷ []

abbrev every_8h : NormalizedFundingData integers
every_8h =
    historical integers (AsterRange.market integers [] "BTCUSDT") (pos 4) (pos 4) (pos 438000) 9

every_8h_record :
    AsterRange.history_record integers
      (AsterRange.market integers [] "BTCUSDT")
      (AsterComplete.settlement integers (9, text "4"))
    ≡ ok (some every_8h)
unfolding AsterRange.history_record float int compute_funding_apr lookup ◌*ℤ◌ ◌/ℤ◌ int_of_text
every_8h_record = refl

every_8h_interval : ((AsterRange.market integers [] "BTCUSDT").interval_hours == 0) ≡ false
unfolding lookup
every_8h_interval = refl

symbol_history_lem_example :
    (ds : List (NormalizedFundingData integers)) × (AsterRange.symbol_history integers
        (AsterComplete.serve integers aster_table)
        (AsterRange.market integers [] "BTCUSDT")
        6
        100
        50
      ≡ some ds)
    × Among every_8h ds
symbol_history_lem_example =
    AsterComplete.symbol_history_lem integers aster_table (AsterRange.market integers [] "BTCUSDT")
      (9, text "4") 6 100 50 every_8h_interval (omega arith, (omega arith, (omega arith, tt)))
      (inr (inr (inl refl))) every_8h_record (omega arith) (omega arith)

-- One asset of Hyperliquid that passes the filters.
abbrev btc_ctx : Hyperliquid.AssetCtx integers
btc_ctx = record {
  funding = text "2";
  open_interest = whole 50;
  prev_day_px = absent;
  day_ntl_vlm = whole 9;
  oracle_px = whole 100;
  mark_px = whole 110;
}

abbrev one_poll : Polls.Poll integers
one_poll =
    Polls.hyperliquid hyperliquid_state (some (some (record { name = "BTC" } ∷ [], btc_ctx ∷ [])))

polled-IsSound_example :
    IfOk
      (All (Polls.IsPublished integers (pos 1000) one_poll))
      (Polls.polled integers (pos 1000) 77 one_poll)
polled-IsSound_example = Polls.polled-IsSound integers (pos 1000) 77 one_poll tt

abbrev outcomes : List Outcome
outcomes = raised true ∷ raised true ∷ returned ∷ raised true ∷ []

ws_loop-backoff_example : ws_loop 1 60 1 outcomes ≡ backoff 1 60 0 outcomes
ws_loop-backoff_example = ws_loop-backoff 1 60 outcomes (omega arith)

ws_loop_runs : ws_loop 1 60 1 outcomes ≡ 1 ∷ 2 ∷ 1 ∷ []
unfolding ws_loop
ws_loop_runs = refl

-- A registry in which one collector has crashed.
abbrev crashed : Instance ℕ
crashed = record {
  exchange_slug = "aster";
  config = 3;
  life = record {
    running = true;
    tasks = record { kind = history; done = true } ∷ [];
    session_open = true;
  };
}

abbrev registry : CollectorRegistry ℕ
registry = record {
  config = 3;
  registry = ("aster", "aster") ∷ [];
  class_configs = ("aster", none) ∷ [];
  instances = ("aster", crashed) ∷ [];
  running = true;
}

watchdog_lem_example :
    lookup "aster" (watchdog ℕ (λ name. false) registry.instances registry).instances
    ≡ looked ℕ
        (λ name. false)
        "aster"
        registry
        (lookup "aster" registry.instances)
        (lookup "aster" registry.instances)
watchdog_lem_example = watchdog_lem ℕ (λ name. false) "aster" registry registry_IsDict
  where
    registry_IsDict : IsDict registry.instances
    registry_IsDict = (lookup-nil "aster", tt)
