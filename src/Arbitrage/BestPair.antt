-- ===== src/Arbitrage/BestPair.antt =====
-- app/processors/arbitrage_calculator.py: which two snapshots of a token `calculate` pairs.
use funding_radar.Base.{
  ℕ, String, ◌≡◌, ◌≢◌, ◌⊎◌, true, not, none, some, List, ◌∷◌, arith, else_some, ltb, ap, ◌∙◌,
  length, last, All, All-last, List-cases, inl, inr, by_text,
}
use text.Mathlib.TextEquality.{eq_iff}
use funding_radar.Base.Dict.{values, lookup, All-lookup}
use funding_radar.Base.Sort.{sort, IsSorted, sort-IsSorted, sort-All, All-of_sort, All-before-last}
use funding_radar.Base.Float.{Floats, IsOrdered, lt, le_refl}
use funding_radar.Snapshot.{
  ExchangeSnapshot, TokenView, apr, apr_desc, is_stale, all_snapshots, default_stale_after,
}
use funding_radar.Arbitrage.{
  ArbitrageLeg, ArbitrageResult, leg_of, long, short, apr_asc, compute_pair, best_pair,
}

module _ (F : Floats) (o : IsOrdered F) where
  open F use {Num, le}

  -- What a result says of the two snapshots it was made of.
  pub record PairOf (now : ℕ) (x y : ExchangeSnapshot F) (r : ArbitrageResult F) : Type 0 where
    pub long_leg : r.long_leg ≡ leg_of F now long x
    pub short_leg : r.short_leg ≡ leg_of F now short y
    pub token : r.token ≡ x.funding.token
    pub different : x.funding.exchange ≢ y.funding.exchange

  compute_pair-PairOf :
      (now now_ms : ℕ) (x y : ExchangeSnapshot F) (r : ArbitrageResult F)
      → compute_pair F now now_ms x y ≡ some r
      → PairOf now x y r
  unfolding compute_pair
  compute_pair-PairOf now now_ms x y r h =
      ground (arith, eq_iff x.funding.exchange y.funding.exchange)

  module _ (tv : TokenView F) where
    -- The two ends of a token's snapshots by APR: a property of all the snapshots holds of both.
    pub record Extremes (x y : ExchangeSnapshot F) : Type 1 where
      pub lowest : All (λ s. le (apr F x) (apr F s) ≡ true) (values tv.snapshots)
      pub highest : All (λ s. le (apr F s) (apr F y) ≡ true) (values tv.snapshots)
      pub from_view : (P : ExchangeSnapshot F → Type 0) → All P (values tv.snapshots) → P x × P y

    ends-Extremes :
        (x : ExchangeSnapshot F) (xs : List (ExchangeSnapshot F))
        → sort (apr_asc F) (all_snapshots F tv) ≡ x ∷ xs
        → Extremes x (last x xs)
    unfolding all_snapshots
    ends-Extremes x xs e =
        let vs = values tv.snapshots in
        let sorted =
          sort-IsSorted (apr_asc F) (λ a b. o.le_total _ _) (λ a b c. o.le_trans _ _ _)
            (sort (apr_desc F) vs) in
        let sorted' : IsSorted (apr_asc F) (x ∷ xs) = rw e at sorted in
        let back : (P : ExchangeSnapshot F → Type 0) → All P (x ∷ xs) → All P vs = λ P h.
          All-of_sort (apr_desc F) P vs
            (All-of_sort (apr_asc F) P (sort (apr_desc F) vs) (rw e h)) in
        record {
          lowest = back (λ s. le (apr F x) (apr F s) ≡ true) (le_refl F o _, sorted'.0);
          highest =
              back (λ s. le (apr F s) (apr F (last x xs)) ≡ true)
                (All-before-last (apr_asc F) (λ y. le_refl F o _) x xs sorted');
          from_view = λ P h.
              let h' : All P (x ∷ xs) =
                rw e at
                  (sort-All (apr_asc F) P (sort (apr_desc F) vs) (sort-All (apr_desc F) P vs h)) in
              (h'.0, All-last P x xs h'.0 h'.1);
        }

    -- A result pairs the snapshot with the lowest APR, held long, with the one with the highest,
    -- held short, among all of the token's snapshots; they are of two different exchanges.
    pub best_pair_lem :
        (now now_ms : ℕ) (r : ArbitrageResult F)
        → best_pair F now now_ms tv ≡ some r
        → (x y : ExchangeSnapshot F) × Extremes x y × PairOf now x y r
    unfolding best_pair
    best_pair_lem now now_ms r h = elim (List-cases (sort (apr_asc F) (all_snapshots F tv))) [
      | inl e ↦ absurd (let h' : none ≡ some r = rw (e, best_pair) at h in cc)
      | inr (x, xs, e) ↦
          let made = (else_some (ltb (length (x ∷ xs)) 2) _ (rw (e, best_pair) at h)).1 in
          (x, last x xs, ends-Extremes x xs e, compute_pair-PairOf now now_ms x (last x xs) r made)
    ]

    -- Where one snapshot is older than DEFAULT_STALE_AFTER and all that are fresh have a higher APR,
    -- the result's long leg is a stale one: `calculate` takes its legs from all the snapshots.
    pub best_pair-stale :
        (now now_ms : ℕ) (r : ArbitrageResult F) (exchange : String) (s : ExchangeSnapshot F)
        → best_pair F now now_ms tv ≡ some r
        → lookup exchange tv.snapshots ≡ some s
        → All
            (λ t. (is_stale F now default_stale_after t ≡ true) ⊎ (lt F (apr F s) (apr F t) ≡ true))
            (values tv.snapshots)
        → r.long_leg.is_stale ≡ true
    best_pair-stale now now_ms r ex s h found higher =
        let (x, y, ends, pair) = best_pair_lem now now_ms r h in
        let low : le (apr F x) (apr F s) ≡ true = All-lookup _ ex tv.snapshots ends.lowest found in
        let leg = ap (λ (l : ArbitrageLeg F). l.is_stale) pair.long_leg in
        elim (ends.from_view _ higher).0 [
          | inl old ↦ unfold leg_of in (leg ∙ old)
          | inr up ↦ absurd (let no : not true ≡ true = rw low at up in cc)
        ]
