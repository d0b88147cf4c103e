-- ===== src/Aggregator/Ranking.antt =====
-- app/processors/funding_aggregator.py: which tokens `build_ranked` lists, and in which order.
use mathlib.Core.List.Perm
use mathlib.Core.List.{mem-cons_self, mem-cons_of_mem}
use funding_radar.Base.{
  ℕ, ◌≡◌, ◌≢◌, refl, true, false, List, [], ◌∷◌, All, All-imp, List-cases, inl, inr, Mem, arith,
  ◌<◌, length,
}
use funding_radar.Base.Sort.{IsSorted, sort-IsSorted, sort-All, sort-perm}
use funding_radar.Base.Float.{Floats, IsOrdered}
use funding_radar.Snapshot.{TokenView, default_stale_after, live_snapshots, exchange_count}
use funding_radar.Normalizer.{DataNormalizer, iter_tokens}
use funding_radar.Aggregator.{
  TokenRankRow, FundingAggregator, rank_row, rank_rows, max_apr_desc, build_ranked,
}

module _ (F : Floats) (o : IsOrdered F) (now : ℕ) where
  rank_rows-live :
      (tvs : List (TokenView F)) → All (λ r. 0 < r.exchange_count) (rank_rows F now tvs)
  unfolding rank_rows rank_row exchange_count
  rank_rows-live [] = tt
  rank_rows-live (tv ∷ tvs) = elim (List-cases (live_snapshots F now default_stale_after tv)) [
    | inl e ↦ rw (e, rank_rows) (rank_rows-live tvs)
    | inr (s, ss, e) ↦
        rw (e, rank_rows)
          ((let one : 0 < length (s ∷ ss) = omega arith in rw e one), rank_rows-live tvs)
  ]

  rank_rows_complete :
      (tvs : List (TokenView F))
      → All
          (λ tv.
            live_snapshots F now default_stale_after tv ≢ []
            → Mem (rank_row F now tv) (rank_rows F now tvs))
          tvs
  unfolding rank_rows
  rank_rows_complete [] = tt
  rank_rows_complete (tv ∷ tvs) = (
    λ some_live. elim (List-cases (live_snapshots F now default_stale_after tv)) [
      | inl e ↦ absurd (some_live e)
      | inr (s, ss, e) ↦ rw (e, rank_rows) mem-cons_self
    ],
    All-imp _ _ (λ tv' later some_live. grows (later some_live)) tvs (rank_rows_complete tvs),
  )
    where
      grows :
          {r : TokenRankRow F} → Mem r (rank_rows F now tvs) → Mem r (rank_rows F now (tv ∷ tvs))
      grows m = elim (List-cases (live_snapshots F now default_stale_after tv)) [
        | inl e ↦ rw (e, rank_rows) m
        | inr (s, ss, e) ↦ rw (e, rank_rows) (mem-cons_of_mem (rank_row F now tv) m)
      ]

  -- The ranking lists the tokens from the highest `max_apr` down: every token with a live snapshot,
  -- and none without. It is kept as the last ranking.
  pub build_ranked_lem :
      (n : DataNormalizer F) (a : FundingAggregator F)
      → let (a', rows) = build_ranked F now n a in
        (a'.last_ranked ≡ rows)
        × IsSorted (max_apr_desc F) rows
        × All (λ r. 0 < r.exchange_count) rows
        × All
            (λ tv. live_snapshots F now default_stale_after tv ≢ [] → Mem (rank_row F now tv) rows)
            (iter_tokens F n)
  unfolding build_ranked
  build_ranked_lem n a =
      let rows = rank_rows F now (iter_tokens F n) in
      (
        refl,
        sort-IsSorted (max_apr_desc F) (λ a b. F_total a b) (λ a b c h k. o.le_trans _ _ _ k h)
            rows,
        sort-All (max_apr_desc F) (λ r. 0 < r.exchange_count) rows
            (rank_rows-live (iter_tokens F n)),
        All-imp _ _ (λ tv h live. (Perm.mem_iff (sort-perm (max_apr_desc F) rows)).1 (h live))
            (iter_tokens F n) (rank_rows_complete (iter_tokens F n)),
      )
    where
      F_total : (x y : TokenRankRow F) → max_apr_desc F x y ≡ false → max_apr_desc F y x ≡ true
      F_total x y = o.le_total _ _
