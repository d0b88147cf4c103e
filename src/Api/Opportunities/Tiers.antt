-- ===== src/Api/Opportunities/Tiers.antt =====
-- app/api/v1/arbitrage.py: what each tier is shown.
use funding_radar.Base.{
  ℕ, ◌-◌, min, String, Bool, true, ◌≡◌, refl, Option, none, some, List, if◌then◌else◌, take, drop,
  arith, inl, inr, Bool-cases,
}
use funding_radar.Base.Float.{Floats}
use funding_radar.Api.Paging.{Page, drop-take, take-take}
use funding_radar.Api.Opportunities.{
  Opportunity, Filters, filtered, is_free, allowed, page_for, get_opportunities,
}

module _ (F : Floats) where
  -- The items that an answer shows, if there is data.
  abbrev pub shown : Option (Page (Opportunity F) × Bool) → List (Opportunity F)
  shown none = List.[]
  shown (some (p, note)) = p.items

  allowed-min :
      (tier : String) (limit offset : ℕ)
      → is_free F tier ≡ true
      → allowed F tier limit offset ≡ min limit (10 - offset)
  allowed-min tier limit offset h = rw h (ground arith)

  -- Whatever limit and offset are asked for, the tiers anonymous and free are shown the part of
  -- the page that lies within the first ten of the filtered opportunities, and the other tiers
  -- the page of all of them.
  pub get_opportunities-tier :
      (f : Filters F) (tier : String) (limit offset : ℕ) (os : List (Opportunity F))
      → shown (get_opportunities F f tier limit offset (some os)) ≡ (
          if is_free F tier
          then take limit (drop offset (take 10 (filtered F f os)))
          else take limit (drop offset (filtered F f os)))
  unfolding get_opportunities page_for
  get_opportunities-tier f tier limit offset os =
      let xs = filtered F f os in
      elim (Bool-cases (is_free F tier)) [
        | inl q ↦
            let all : allowed F tier limit offset ≡ min limit (10 - offset) =
              allowed-min tier limit offset q in
            rw (all, q, drop-take offset 10 xs, take-take limit (10 - offset) (drop offset xs)) refl
        | inr q ↦ rw q refl
      ]
