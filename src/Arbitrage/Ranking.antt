-- ===== src/Arbitrage/Ranking.antt =====
-- app/processors/arbitrage_calculator.py: the list that `calculate` returns and keeps.
use mathlib.Core.List.Perm
use mathlib.Core.List.{mem-cons_self, mem-cons_of_mem}
use funding_radar.Base.{
  ℕ, ◌≡◌, refl, true, some, List, [], ◌∷◌, leb, All, All-imp, Bool-cases, Option-cases, inl, inr,
  keep, keep_holds, Perm, Mem, ◌≤◌, leb→le,
}
use funding_radar.Base.Dict.{values}
use funding_radar.Base.Sort.{IsSorted, sort-IsSorted, sort-All, sort-perm}
use funding_radar.Base.Float.{Floats, IsOrdered}
use funding_radar.Snapshot.{TokenView, exchange_count}
use funding_radar.Normalizer.{DataNormalizer, arbitrage_candidates, spread_desc}
use funding_radar.Arbitrage.{
  ArbitrageResult, ArbitrageCalculator, best_pair, collect, net_apr_desc, calculate,
}

module _ (F : Floats) (o : IsOrdered F) where
  open F use {Num, le}

  -- The candidates are the views with two or more live snapshots, from the widest spread down.
  pub arbitrage_candidates_lem :
      (now : ℕ) (n : DataNormalizer F)
      → Perm
          (arbitrage_candidates F now n)
          (keep (λ tv. leb 2 (exchange_count F now n.stale_after tv)) (values n.token_views))
        × IsSorted (spread_desc F now n.stale_after) (arbitrage_candidates F now n)
        × All (λ tv. 2 ≤ exchange_count F now n.stale_after tv) (arbitrage_candidates F now n)
  unfolding arbitrage_candidates
  arbitrage_candidates_lem now n =
      let enough = λ (tv : TokenView F). leb 2 (exchange_count F now n.stale_after tv) in
      let views = keep enough (values n.token_views) in
      let by_spread = spread_desc F now n.stale_after in
      (
        sort-perm by_spread views,
        sort-IsSorted by_spread (λ a b. o.le_total _ _) (λ a b c h k. o.le_trans _ _ _ k h) views,
        sort-All by_spread _ views (
            All-imp (λ tv. enough tv ≡ true) _ (λ tv. leb→le 2 _) views
              (keep_holds enough (values n.token_views))),
      )

  collect-All :
      (now now_ms : ℕ) (threshold : Num) (tvs : List (TokenView F))
      → All (λ r. le threshold r.net_apr_taker ≡ true) (collect F now now_ms threshold tvs)
  unfolding collect
  collect-All now now_ms threshold [] = tt
  collect-All now now_ms threshold (tv ∷ tvs) = elim (Option-cases (best_pair F now now_ms tv)) [
    | inl e ↦ rw (e, collect) (collect-All now now_ms threshold tvs)
    | inr (r, e) ↦ elim (Bool-cases (le threshold r.net_apr_taker)) [
      | inl p ↦ rw (e, collect) (rw p (p, collect-All now now_ms threshold tvs))
      | inr p ↦ rw (e, collect) (rw p (collect-All now now_ms threshold tvs))
    ]
  ]

  collect_complete :
      (now now_ms : ℕ) (threshold : Num) (tvs : List (TokenView F))
      → All
          (λ tv.
            (r : ArbitrageResult F)
            → best_pair F now now_ms tv ≡ some r
            → le threshold r.net_apr_taker ≡ true
            → Mem r (collect F now now_ms threshold tvs))
          tvs
  unfolding collect
  collect_complete now now_ms threshold [] = tt
  collect_complete now now_ms threshold (tv ∷ tvs) = (
    λ r e p. rw (e, collect) (rw p mem-cons_self),
    All-imp _ _ (λ tv' later r e p. grows tv (later r e p)) tvs
        (collect_complete now now_ms threshold tvs),
  )
    where
      grows :
          (tv : TokenView F) {r : ArbitrageResult F}
          → Mem r (collect F now now_ms threshold tvs)
          → Mem r (collect F now now_ms threshold (tv ∷ tvs))
      grows tv m = elim (Option-cases (best_pair F now now_ms tv)) [
        | inl none_found ↦ rw (none_found, collect) m
        | inr (q, found) ↦ elim (Bool-cases (le threshold q.net_apr_taker)) [
          | inl p ↦ rw (found, collect) (rw p (mem-cons_of_mem q m))
          | inr p ↦ rw (found, collect) (rw p m)
        ]
      ]

  -- `calculate` returns, and keeps, a list from the highest net
  -- APR down; no result is below the threshold.
  pub calculate_lem :
      (now now_ms : ℕ) (n : DataNormalizer F) (c : ArbitrageCalculator F)
      → let (c', results) = calculate F now now_ms n c in
        (c'.last_results ≡ results)
        × IsSorted (net_apr_desc F) results
        × All (λ r. le c.min_net_apr_taker r.net_apr_taker ≡ true) results
        × All
            (λ tv.
              (r : ArbitrageResult F)
              → best_pair F now now_ms tv ≡ some r
              → le c.min_net_apr_taker r.net_apr_taker ≡ true
              → Mem r results)
            (arbitrage_candidates F now n)
  unfolding calculate
  calculate_lem now now_ms n c =
      let found = collect F now now_ms c.min_net_apr_taker (arbitrage_candidates F now n) in
      (
        refl,
        sort-IsSorted (net_apr_desc F) (λ a b. o.le_total _ _) (λ a b c h k. o.le_trans _ _ _ k h)
            found,
        sort-All (net_apr_desc F) _ found (collect-All now now_ms c.min_net_apr_taker _),
        All-imp _ _ (λ tv h r e p. (Perm.mem_iff (sort-perm (net_apr_desc F) found)).1 (h r e p))
            (arbitrage_candidates F now n)
            (collect_complete now now_ms c.min_net_apr_taker (arbitrage_candidates F now n)),
      )
