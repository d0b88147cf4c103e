-- ===== src/Collectors/Hyperliquid/Range.antt =====
-- app/collectors/hyperliquid.py, `_fetch_history_range`: the windows of at most seven days in which an
-- asset's history is asked for, and the records they yield. A window's loop ends when its start is no
-- longer before the end; as each window begins after the last, fuel for every millisecond is enough.
use mathlib.Core.Option.{map as map_option}
use funding_radar.Base.{
  ℕ, zero, suc, ◌+◌, ◌-◌, ◌*◌, ◌≤◌, ◌<◌, min, ◌≡◌, refl, String, Bool, Option, none, some, List, [],
  ◌∷◌, ◌++◌, ◌&&◌, Result, ok, ◌>>=◌, caught, get_or, if◌then◌else◌, ltb, leb, ◌==◌, by_value,
  length, keep, All, arith, inl, inr, Bool-cases,
}
use funding_radar.Base.Dict.{keys}
use funding_radar.Base.Float.{Floats}
use funding_radar.Collectors.Contract.{NormalizedFundingData}
use funding_radar.Collectors.Fields.{float_or_zero, int_or_zero}
use funding_radar.Collectors.Figures.{compute_funding_apr, compute_8h_rate}
use funding_radar.Collectors.History.{Settlement, Market, historical, push}
use funding_radar.Collectors.Hyperliquid.{
  exchange_slug, funding_interval_hours, maker_fee, taker_fee, HyperliquidCollector, AssetMeta,
  AssetCtx, normalize,
}

abbrev pub chunk_ms : ℕ
chunk_ms = 7 * 24 * 3_600_000

-- `limit` is the end of the range or the time now, whichever comes first.
abbrev pub chunk_end : ℕ → ℕ → ℕ
chunk_end chunk_start limit = min (chunk_start + chunk_ms) limit

unfoldable pub chunks_from : ℕ → ℕ → ℕ → Option (List (ℕ × ℕ))
chunks_from zero chunk_start limit = none
chunks_from (suc fuel) chunk_start limit =
    let until = chunk_end chunk_start limit in
    let rest = chunks_from fuel (until + 1) limit in
    if ltb chunk_start limit then map_option (λ cs. (chunk_start, until) ∷ cs) rest else some []

unfoldable pub chunks : ℕ → ℕ → ℕ → Option (List (ℕ × ℕ))
chunks start_ms end_ms now_ms =
    chunks_from (min end_ms now_ms - start_ms + 1) start_ms (min end_ms now_ms)

-- The windows follow one another without a gap from the start, until nothing is left before the limit.
abbrev pub AreConsecutive : ℕ → ℕ → List (ℕ × ℕ) → Type 0
AreConsecutive start limit [] = limit ≤ start
AreConsecutive start limit (c ∷ cs) =
    (c.0 ≡ start)
    × (c.0 ≤ c.1)
    × (c.1 ≤ limit)
    × (c.1 ≤ c.0 + chunk_ms)
    × AreConsecutive (c.1 + 1) limit cs

chunks_from_total :
    (fuel start limit : ℕ)
    → limit - start < fuel
    → (cs : List (ℕ × ℕ)) × (chunks_from fuel start limit ≡ some cs) × AreConsecutive start limit cs
unfolding chunks_from
chunks_from_total zero start limit h = elim h [ ]
chunks_from_total (suc fuel) start limit h = elim (Bool-cases (ltb start limit)) [
  | inl q ↦
      let until = chunk_end start limit in
      let (cs, e, c) = chunks_from_total fuel (until + 1) limit (ground arith) in
      ((start, until) ∷ cs, rw (q, e) refl, (refl, ground arith, ground arith, ground arith, c))
  | inr q ↦ ([], rw q refl, ground arith)
]

abbrev pub within : ℕ → ℕ × ℕ → Bool
within t c = leb c.0 t && leb t c.1

none_within :
    (t start limit : ℕ) (cs : List (ℕ × ℕ))
    → t < start
    → AreConsecutive start limit cs
    → length (keep (within t) cs) ≡ 0
none_within t start limit [] h w = refl
none_within t start limit (c ∷ cs) h w = ground (arith, none_within t (c.1 + 1) limit cs)

one_within :
    (t start limit : ℕ) (cs : List (ℕ × ℕ))
    → start ≤ t
    → t < limit
    → AreConsecutive start limit cs
    → length (keep (within t) cs) ≡ 1
one_within t start limit [] h k w = omega arith
one_within t start limit (c ∷ cs) h k w =
    ground (arith, one_within t (c.1 + 1) limit cs, none_within t (c.1 + 1) limit cs)

abbrev pub IsWindow : ℕ → ℕ → ℕ × ℕ → Type 0
IsWindow start limit c = (start ≤ c.0) × (c.1 ≤ limit) × (c.1 ≤ c.0 + chunk_ms)

AreConsecutive→IsWindow :
    (first start limit : ℕ) (cs : List (ℕ × ℕ))
    → first ≤ start
    → AreConsecutive start limit cs
    → All (IsWindow first limit) cs
AreConsecutive→IsWindow first start limit [] h w = tt
AreConsecutive→IsWindow first start limit (c ∷ cs) h w = (
  (omega arith, omega arith, omega arith),
  AreConsecutive→IsWindow first (c.1 + 1) limit cs (omega arith) w.4,
)

-- The loop over the windows of a backfill ends: each millisecond from the start to before the
-- end and before now lies in exactly one window, and no window begins before the start, ends
-- after the limit or is longer than seven days.
pub chunks_lem :
    (start_ms end_ms now_ms t : ℕ)
    → start_ms ≤ t
    → t < min end_ms now_ms
    → (cs : List (ℕ × ℕ)) × (chunks start_ms end_ms now_ms ≡ some cs)
      × (length (keep (within t) cs) ≡ 1)
      × All (IsWindow start_ms (min end_ms now_ms)) cs
unfolding chunks
chunks_lem start_ms end_ms now_ms t h k =
    let limit = min end_ms now_ms in
    let (cs, e, w) = chunks_from_total (limit - start_ms + 1) start_ms limit (omega arith) in
    (
      cs,
      e,
      one_within t start_ms limit cs h k w,
      AreConsecutive→IsWindow start_ms start_ms limit cs (omega arith) w,
    )

pub chunks_total :
    (start_ms end_ms now_ms : ℕ) → (cs : List (ℕ × ℕ)) × (chunks start_ms end_ms now_ms ≡ some cs)
unfolding chunks
chunks_total start_ms end_ms now_ms =
    let (cs, e, w) =
      chunks_from_total (min end_ms now_ms - start_ms + 1) start_ms (min end_ms now_ms)
        (omega arith) in
    (cs, e)

module _ (F : Floats) where
  open F use {Num}

  abbrev pub market : String → Market F
  market asset_name = record {
    exchange = exchange_slug;
    token = asset_name;
    symbol = asset_name;
    interval_hours = funding_interval_hours;
    maker_fee = maker_fee F;
    taker_fee = taker_fee F;
  }

  unfoldable pub history_record : String → Settlement F → Result (Option (NormalizedFundingData F))
  history_record asset_name rec = do
    rate ← float_or_zero F rec.rate
    ts ← int_or_zero F rec.time
    if ts == 0 then ok none else (do
      rate_8h ← compute_8h_rate F rate funding_interval_hours
      apr ← compute_funding_apr F rate funding_interval_hours
      ok (some (historical F (market asset_name) rate rate_8h apr ts)))

  -- A settlement whose figures are no numbers is passed over.
  unfoldable pub yielded : String → List (Settlement F) → List (NormalizedFundingData F)
  yielded asset_name [] = []
  yielded asset_name (rec ∷ raw) =
      push (caught (history_record asset_name rec)) (yielded asset_name raw)

  -- What a request answers; none where it raises, which is logged, or where the answer is null.
  abbrev pub Fetch : Type 0
  Fetch = String → ℕ → ℕ → Option (List (Settlement F))

  unfoldable pub windows_yield : Fetch → String → List (ℕ × ℕ) → List (NormalizedFundingData F)
  windows_yield fetch asset_name [] = []
  windows_yield fetch asset_name ((chunk_start, until) ∷ cs) =
      yielded asset_name (get_or (fetch asset_name chunk_start until) [])
      ++ windows_yield fetch asset_name cs

  unfoldable pub assets_yield :
      Fetch → ℕ → ℕ → ℕ → List String → Option (List (NormalizedFundingData F))
  assets_yield fetch start_ms end_ms now_ms [] = some []
  assets_yield fetch start_ms end_ms now_ms (asset_name ∷ names) =
      elim (chunks start_ms end_ms now_ms) [
        | none ↦ none
        | some cs ↦
            map_option (λ ds. windows_yield fetch asset_name cs ++ ds)
              (assets_yield fetch start_ms end_ms now_ms names)
      ]

  -- `warm` is the answer to metaAndAssetCtxs, none where the request raised.
  abbrev pub warmed :
      Num
      → ℕ
      → Option (Option (List AssetMeta × List (AssetCtx F)))
      → HyperliquidCollector F
      → Option (HyperliquidCollector F)
  warmed min_oi now_ms warm st = elim st.asset_meta [
    | [] ↦ map_option (λ raw. (normalize F min_oi now_ms raw st).0) warm
    | asset ∷ rest ↦ some st
  ]

  unfoldable pub fetch_history_range :
      Num
      → Option (Option (List AssetMeta × List (AssetCtx F)))
      → Fetch
      → ℕ
      → ℕ
      → ℕ
      → HyperliquidCollector F
      → HyperliquidCollector F × Option (List (NormalizedFundingData F))
  fetch_history_range min_oi warm fetch start_ms end_ms now_ms st =
      elim (warmed min_oi now_ms warm st) [
        | none ↦ (st, some [])
        | some st' ↦ (st', assets_yield fetch start_ms end_ms now_ms (keys st'.asset_meta))
      ]
