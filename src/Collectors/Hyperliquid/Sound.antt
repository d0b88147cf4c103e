-- ===== src/Collectors/Hyperliquid/Sound.antt =====
-- app/collectors/hyperliquid.py: what a poll publishes.
use funding_radar.Base.{
  ℕ, String, ◌≡◌, Option, none, some, List, [], ◌∷◌, ok, arith, caught, caught-some, All, inl, inr,
  Bool-cases, ◌==◌, by_text,
}
use funding_radar.Base.Dict.{Dict}
use funding_radar.Base.Float.{Floats}
use funding_radar.Collectors.Contract.{NormalizedFundingData}
use funding_radar.Collectors.Figures.{IsSound, IsComputed-IsSound}
use funding_radar.Collectors.History.{All-push}
use funding_radar.Collectors.Hyperliquid.{
  AssetMeta, AssetCtx, HyperliquidCollector, record_of, normalize_assets, remember, normalize,
  poll_rest,
}

module _ (F : Floats) where
  open F use {Num, mul}

  record_of-IsSound :
      (min_oi : Num) (now_ms : ℕ) (mids : Dict String Num) (name : String) (ctx : AssetCtx F)
      {d : NormalizedFundingData F}
      → record_of F min_oi now_ms mids name ctx ≡ ok (some d)
      → IsSound F min_oi d
  unfolding record_of
  record_of-IsSound min_oi now_ms mids name ctx {d} h = IsComputed-IsSound F min_oi d (ground arith)

  pub normalize_assets-IsSound :
      (min_oi : Num) (now_ms : ℕ) (universe : List AssetMeta) (ctxs : List (AssetCtx F))
      (st : HyperliquidCollector F)
      → All (IsSound F min_oi) (normalize_assets F min_oi now_ms universe ctxs st).1
  unfolding normalize_assets
  normalize_assets-IsSound min_oi now_ms [] ctxs st = tt
  normalize_assets-IsSound min_oi now_ms (meta ∷ universe) [] st = tt
  normalize_assets-IsSound min_oi now_ms (meta ∷ universe) (ctx ∷ ctxs) st =
      elim (Bool-cases (meta.name == "")) [
        | inl q ↦ rw q (normalize_assets-IsSound min_oi now_ms universe ctxs st)
        | inr q ↦ rw q (
            All-push (IsSound F min_oi)
              (caught (record_of F min_oi now_ms st.mid_prices meta.name ctx)) _
              (λ d e. record_of-IsSound min_oi now_ms st.mid_prices meta.name ctx (caught-some _ e))
              (normalize_assets-IsSound min_oi now_ms universe ctxs (remember F meta st)))
      ]

  pub poll_rest-IsSound :
      (min_oi : Num) (now_ms : ℕ) (answer : Option (Option (List AssetMeta × List (AssetCtx F))))
      (st : HyperliquidCollector F)
      → All (IsSound F min_oi) (poll_rest F min_oi now_ms answer st).1
  unfolding poll_rest normalize
  poll_rest-IsSound min_oi now_ms none st = tt
  poll_rest-IsSound min_oi now_ms (some none) st = tt
  poll_rest-IsSound min_oi now_ms (some (some (universe, ctxs))) st =
      normalize_assets-IsSound min_oi now_ms universe ctxs st
