-- ===== src/Collectors/Hyperliquid/Complete.antt =====
-- app/collectors/hyperliquid.py, `_fetch_history_range`: no settlement of the range is lost between the
-- windows.
use funding_radar.Base.{
  ℕ, ◌≤◌, ◌<◌, ◌≡◌, refl, min, String, Bool, false, Option, some, List, [], ◌∷◌, ◌++◌, ok, raise,
  caught, length, keep, Among, Among-append_left, Among-append_right, Among-keep, arith, inl, inr,
  Bool-cases, List-cases,
}
use funding_radar.Base.Dict.{keys}
use funding_radar.Base.Float.{Floats}
use funding_radar.Collectors.Contract.{NormalizedFundingData}
use funding_radar.Collectors.Fields.{int_or_zero}
use funding_radar.Collectors.History.{Settlement, Among-push}
use funding_radar.Collectors.Hyperliquid.{HyperliquidCollector, AssetMeta, AssetCtx}
use funding_radar.Collectors.Hyperliquid.Range.{
  chunks_lem, chunks_total, within, history_record, yielded, windows_yield, assets_yield, Fetch,
  fetch_history_range,
}

module _ (F : Floats) where
  -- Whether a settlement falls in a window.
  abbrev pub settled_in : ℕ × ℕ → Settlement F → Bool
  settled_in c rec = elim (int_or_zero F rec.time) [ ok t ↦ within t c | raise _ ↦ false ]

  -- An exchange that answers each request with its settlements of the window.
  abbrev pub serve : (String → List (Settlement F)) → Fetch F
  serve table asset_name a b = some (keep (settled_in (a, b)) (table asset_name))

  Among-yielded :
      (asset : String) (rec : Settlement F) (raw : List (Settlement F))
      {d : NormalizedFundingData F}
      → Among rec raw
      → history_record F asset rec ≡ ok (some d)
      → Among d (yielded F asset raw)
  unfolding yielded
  Among-yielded asset rec [] h e = elim h [ ]
  Among-yielded asset rec (r ∷ raw) (inl h) e = rw (h, e) (inl refl)
  Among-yielded asset rec (r ∷ raw) (inr h) e =
      Among-push _ (caught (history_record F asset r)) (yielded F asset raw)
        (Among-yielded asset rec raw h e)

  Among-windows_yield :
      (table : String → List (Settlement F)) (asset : String) (rec : Settlement F) (t : ℕ)
      (cs : List (ℕ × ℕ)) {d : NormalizedFundingData F}
      → Among rec (table asset)
      → history_record F asset rec ≡ ok (some d)
      → int_or_zero F rec.time ≡ ok t
      → length (keep (within t) cs) ≡ 1
      → Among d (windows_yield F (serve table) asset cs)
  unfolding windows_yield
  Among-windows_yield table asset rec t [] h e i n = omega arith
  Among-windows_yield table asset rec t (c ∷ cs) h e i n = elim (Bool-cases (within t c)) [
    | inl q ↦ Among-append_left _ (yielded F asset (keep (settled_in c) (table asset))) _ (
        Among-yielded asset rec _
          (Among-keep (settled_in c) rec (table asset) h (rw (i, settled_in) q)) e)
    | inr q ↦
        Among-append_right _ (yielded F asset (keep (settled_in c) (table asset))) _
          (Among-windows_yield table asset rec t cs h e i (rw q at n))
  ]

  pub assets_yield_total :
      (fetch : Fetch F) (start_ms end_ms now_ms : ℕ) (names : List String)
      → (ds : List (NormalizedFundingData F)) × (assets_yield F fetch start_ms end_ms now_ms names
          ≡ some ds)
  unfolding assets_yield
  assets_yield_total fetch start_ms end_ms now_ms [] = ([], refl)
  assets_yield_total fetch start_ms end_ms now_ms (name ∷ names) =
      let (cs, q) = chunks_total start_ms end_ms now_ms in
      let (ds, r) = assets_yield_total fetch start_ms end_ms now_ms names in
      (windows_yield F fetch name cs ++ ds, rw (q, r, assets_yield) refl)

  Among-assets_yield :
      (table : String → List (Settlement F)) (asset : String) (rec : Settlement F)
      (start_ms end_ms now_ms t : ℕ) (names : List String) {d : NormalizedFundingData F}
      → Among asset names
      → Among rec (table asset)
      → history_record F asset rec ≡ ok (some d)
      → int_or_zero F rec.time ≡ ok t
      → start_ms ≤ t
      → t < min end_ms now_ms
      → (ds : List (NormalizedFundingData F)) × (assets_yield F
            (serve table)
            start_ms
            end_ms
            now_ms
            names
          ≡ some ds)
        × Among d ds
  unfolding assets_yield
  Among-assets_yield table asset rec start_ms end_ms now_ms t [] m h e i a b = elim m [ ]
  Among-assets_yield table asset rec start_ms end_ms now_ms t (name ∷ names) (inl m) h e i a b =
      let (cs, q, n, w) = chunks_lem start_ms end_ms now_ms t a b in
      let (ds, r) = assets_yield_total (serve table) start_ms end_ms now_ms names in
      (
        windows_yield F (serve table) name cs ++ ds,
        rw (q, r, assets_yield) refl,
        Among-append_left _ (windows_yield F (serve table) name cs) ds
            (rw m (Among-windows_yield table asset rec t cs h e i n)),
      )
  Among-assets_yield table asset rec start_ms end_ms now_ms t (name ∷ names) (inr m) h e i a b =
      let (cs, q) = chunks_total start_ms end_ms now_ms in
      let (ds, r, f) =
        Among-assets_yield table asset rec start_ms end_ms now_ms t names m h e i a b in
      (
        windows_yield F (serve table) name cs ++ ds,
        rw (q, r, assets_yield) refl,
        Among-append_right _ (windows_yield F (serve table) name cs) ds f,
      )

  -- If Hyperliquid answers each request with an asset's settlements of the window, the backfill
  -- of a range ends, and a settlement of a known asset that lies in the range, before its end
  -- and before now, and gives a record, is among what it yields.
  pub fetch_history_range-keeps :
      (min_oi : F.Num) (warm : Option (Option (List AssetMeta × List (AssetCtx F))))
      (table : String → List (Settlement F)) (asset : String) (rec : Settlement F)
      (start_ms end_ms now_ms t : ℕ) (st : HyperliquidCollector F) {d : NormalizedFundingData F}
      → Among asset (keys st.asset_meta)
      → Among rec (table asset)
      → history_record F asset rec ≡ ok (some d)
      → int_or_zero F rec.time ≡ ok t
      → start_ms ≤ t
      → t < min end_ms now_ms
      → (ds : List (NormalizedFundingData F)) × ((fetch_history_range F min_oi warm
            (serve table)
            start_ms
            end_ms
            now_ms
            st).1
          ≡ some ds)
        × Among d ds
  unfolding fetch_history_range
  fetch_history_range-keeps min_oi warm table asset rec start_ms end_ms now_ms t st m h e i a b =
      elim (List-cases st.asset_meta) [
        | inl q ↦ absurd (let m' : Among asset (keys {V = AssetMeta} []) = rw q at m in m')
        | inr (x, rest, q) ↦ rw q (
            Among-assets_yield table asset rec start_ms end_ms now_ms t (keys (x ∷ rest))
              (rw q at m) h e i a b)
      ]
