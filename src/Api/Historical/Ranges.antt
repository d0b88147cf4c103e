-- ===== src/Api/Historical/Ranges.antt =====
-- app/api/v1/funding.py, `_historical_rates`: what holds of each token's range.
use funding_radar.Base.{
  String, true, ◌≡◌, refl, List, [], ◌∷◌, get_or, length, length-append, All, All-map, All-imp,
  All-intro, by_text, arith, inl, inr, Bool-cases, Option-cases,
}
use funding_radar.Base.Dict.{Dict, lookup, insert, values, All-lookup, All-insert}
use funding_radar.Base.Sort.{sort, sort-All}
use funding_radar.Base.Float.{Floats, IsOrdered, num, lt, le_refl, lt→le}
use funding_radar.Api.Historical.{
  Group, TokenRange, new_range, row_of, widened, or_zero, group_by_token, max_apr_desc, finished,
  ranked_ranges,
}

module _ (F : Floats) where
  open F use {Num, le}

  -- What holds of a new range and stays when one is widened holds of all that are made.
  module _ {κ} (P : TokenRange F → Type κ) (Q : Group F → Type κ)
      (fresh : (symbol : String) → P (new_range F symbol))
      (stays : (g : Group F) (t : TokenRange F) → Q g → P t → P (widened F g t)) where
    found_or_new :
        (symbol : String) (d : Dict String (TokenRange F))
        → All P (values d)
        → P (get_or (lookup symbol d) (new_range F symbol))
    found_or_new symbol d h = elim (Option-cases (lookup symbol d)) [
      | inl q ↦ rw q (fresh symbol)
      | inr (t, q) ↦ rw q (All-lookup P symbol d h q)
    ]

    group_by_token-All :
        (gs : List (Group F)) (d : Dict String (TokenRange F))
        → All Q gs
        → All P (values d)
        → All P (values (group_by_token F gs d))
    unfolding group_by_token
    group_by_token-All [] d q h = h
    group_by_token-All (g ∷ gs) d q h =
        let old = get_or (lookup g.symbol d) (new_range F g.symbol) in
        group_by_token-All gs (insert g.symbol (widened F g old) d) q.1 (
          All-insert P g.symbol (widened F g old) d (stays g old q.0 (found_or_new g.symbol d h)) h)

    ranked_ranges-All :
        ((t : TokenRange F) → P t → P (finished F t))
        → (gs : List (Group F)) → All Q gs
        → All P (ranked_ranges F gs)
    unfolding ranked_ranges
    ranked_ranges-All ends gs q =
        let d = group_by_token F gs [] in
        let all = sort-All (max_apr_desc F) P (values d) (group_by_token-All gs [] q tt) in
        All-map P (finished F) (sort (max_apr_desc F) (values d))
          (All-imp P (λ t. P (finished F t)) ends (sort (max_apr_desc F) (values d)) all)

  -- No average above 0.
  abbrev pub IsBelow : Group F → Type 0
  IsBelow g = le (or_zero F g.avg_apr) (num F 0) ≡ true

  -- If no average of the database's answer is above 0, every token of the historical ranking has
  -- a maximum of exactly 0, however far below 0 its averages are.
  pub ranked_ranges-zero :
      (gs : List (Group F)) → All IsBelow gs → All (λ t. t.max_apr ≡ num F 0) (ranked_ranges F gs)
  ranked_ranges-zero gs h =
      ranked_ranges-All (λ t. t.max_apr ≡ num F 0) IsBelow (λ s. refl) (λ g t q e. rw (e, q) refl)
        (λ t e. e) gs h

module _ (F : Floats) (o : IsOrdered F) where
  open F use {Num, le}

  -- The count is that of the rows, and the maximum is no less than 0.
  abbrev pub IsRange : TokenRange F → Type 0
  IsRange t = (t.exchange_count ≡ length t.rows) × (le (num F 0) t.max_apr ≡ true)

  widened-IsRange : (g : Group F) (t : TokenRange F) → IsRange t → IsRange (widened F g t)
  widened-IsRange g t h = (
    omega (arith, h.0, length-append t.rows (row_of F g ∷ [])),
    elim (Bool-cases (lt F t.max_apr (or_zero F g.avg_apr))) [
      | inl q ↦ rw q (o.le_trans _ t.max_apr _ h.1 (lt→le F o _ _ q))
      | inr q ↦ rw q h.1
    ],
  )

  pub ranked_ranges-IsRange : (gs : List (Group F)) → All IsRange (ranked_ranges F gs)
  ranked_ranges-IsRange gs =
      ranked_ranges-All F IsRange (λ g. Unit) (λ symbol. (refl, le_refl F o (num F 0)))
        (λ g t q h. widened-IsRange g t h) (λ t h. h) gs (All-intro (λ g. Unit) (λ g. tt) gs)
