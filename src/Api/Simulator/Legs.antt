-- ===== src/Api/Simulator/Legs.antt =====
-- app/api/v1/simulator.py: a simulation on what the collectors have just published.
use funding_radar.Base.{
  ℕ, ◌+◌, ◌<◌, String, ◌≡◌, refl, ◌∙◌, true, false, Option, some, List, [], ◌∷◌, if◌then◌else◌,
  ◌==◌, by_text, by_parts, same_refl, arith, inl, inr, Bool-cases,
}
use funding_radar.Base.Text.{lower, upper}
use funding_radar.Base.Float.{Floats}
use funding_radar.Redis.{get, get-set_ex}
use funding_radar.Collectors.Contract.{NormalizedFundingData}
use funding_radar.Collectors.Figures.{CollectorConfig}
use funding_radar.Collectors.Lifecycle.{Published, publish_batch, latest_ttl}
use funding_radar.Aggregator.{TokenRankRow}
use funding_radar.Api.Simulator.{
  SimulateRequest, calculate_simulation, leg_data, of_latest, simulated, reply_of, legs_differ,
}

module _ (F : Floats) where
  -- What a record is cached under.
  abbrev pub cache_key : NormalizedFundingData F → String × String
  cache_key d = (d.exchange, d.token)

  -- What a poll of one record leaves in the cache.
  get-publish_batch :
      (config : CollectorConfig F) (now later : ℕ) (key : String × String)
      (d : NormalizedFundingData F) (p : Published F)
      → later < now + latest_ttl F config
      → get later key (publish_batch F config now (d ∷ []) p).latest
        ≡ (if cache_key d == key then some d else get later key p.latest)
  unfolding publish_batch
  get-publish_batch config now later key d p h =
      let stored = get-set_ex now later (cache_key d) key d (latest_ttl F config) p.latest in
      elim (Bool-cases (cache_key d == key)) [
        | inl q ↦ rw q (ground (arith, stored, q))
        | inr q ↦ rw q (ground (arith, stored, q))
      ]

  get-two_batches :
      (config config' : CollectorConfig F) (now now' later : ℕ) (l s : NormalizedFundingData F)
      (p : Published F)
      → (cache_key s == cache_key l) ≡ false
      → later < now + latest_ttl F config
      → later < now' + latest_ttl F config'
      → let p' = publish_batch F config' now' (s ∷ []) (publish_batch F config now (l ∷ []) p) in
        (get later (cache_key l) p'.latest ≡ some l) × (get later (cache_key s) p'.latest ≡ some s)
  get-two_batches config config' now now' later l s p n h h' =
      let p1 = publish_batch F config now (l ∷ []) p in
      let first = get-publish_batch config now later (cache_key l) l p h in
      let kept = get-publish_batch config' now' later (cache_key l) s p1 h' in
      let last = get-publish_batch config' now' later (cache_key s) s p1 h' in
      (
        kept ∙ rw n (first ∙ rw (same_refl (cache_key l)) refl),
        last ∙ rw (same_refl (cache_key s)) refl,
      )

  keys_differ :
      (l s : NormalizedFundingData F) (body : SimulateRequest F)
      → legs_differ F body ≡ true
      → l.exchange ≡ lower body.long_exchange
      → s.exchange ≡ lower body.short_exchange
      → (cache_key s == cache_key l) ≡ false
  keys_differ l s body n el es =
      let a = by_text.same_iff (lower body.long_exchange) (lower body.short_exchange) in
      let b = by_text.same_iff (lower body.short_exchange) (lower body.long_exchange) in
      rw (el, es) (ground (arith, n, a, b))

  -- After a poll of two collectors has published a record each, on the token and the two
  -- exchanges of a request, a simulation before either expires is that of these two records,
  -- whatever the ranking holds, provided that the exchanges differ and the token is published in
  -- upper case.
  pub calculate_simulation-publish :
      (config config' : CollectorConfig F) (now now' later : ℕ) (l s : NormalizedFundingData F)
      (p : Published F) (raw_ranked : Option (List (TokenRankRow F))) (body : SimulateRequest F)
      → legs_differ F body ≡ true
      → l.exchange ≡ lower body.long_exchange
      → s.exchange ≡ lower body.short_exchange
      → l.token ≡ upper body.token
      → s.token ≡ upper body.token
      → later < now + latest_ttl F config
      → later < now' + latest_ttl F config'
      → calculate_simulation F later
          (publish_batch F config' now' (s ∷ []) (publish_batch F config now (l ∷ []) p)).latest
          raw_ranked
          body
        ≡ reply_of F (simulated F body (of_latest F l) (of_latest F s))
  unfolding calculate_simulation leg_data
  calculate_simulation-publish config config' now now' later l s p raw_ranked body n el es tl ts h
        h' =
      let p' = publish_batch F config' now' (s ∷ []) (publish_batch F config now (l ∷ []) p) in
      let (gl, gs) =
        get-two_batches config config' now now' later l s p (keys_differ l s body n el es) h h' in
      let gl' : get later (lower body.long_exchange, upper body.token) p'.latest ≡ some l =
        rw (← el, ← tl) gl in
      let gs' : get later (lower body.short_exchange, upper body.token) p'.latest ≡ some s =
        rw (← es, ← ts) gs in
      rw n (rw (gl', gs') refl)
