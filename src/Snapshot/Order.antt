-- ===== src/Snapshot/Order.antt =====
-- app/processors/normalizer.py: what TokenView's figures say of the live snapshots.
use funding_radar.Base.{
  ℕ, ◌≤◌, ◌≡◌, refl, true, false, not, List, [], ◌∷◌, map, arith, keep, ltb, keep_holds, length,
  last, All, All-last, List-cases, inl, inr, Perm, All-imp,
}
use funding_radar.Base.Dict.{values}
use funding_radar.Base.Sort.{IsSorted, sort-IsSorted, sort-All, sort-perm, All-before-last}
use funding_radar.Base.Float.{Floats, IsOrdered, num, le_refl, sub_nonneg, sub-le-sub}
use funding_radar.Snapshot.{
  ExchangeSnapshot, TokenView, apr, apr_desc, is_stale, live_snapshots, max_from, max_apr,
  spread_apr, exchange_count,
}

module _ (F : Floats) (o : IsOrdered F) where
  open F use {Num, sub, le}

  pub apr_desc_total : (x y : ExchangeSnapshot F) → apr_desc F x y ≡ false → apr_desc F y x ≡ true
  apr_desc_total x y h = o.le_total _ _ h

  pub apr_desc_trans :
      (x y z : ExchangeSnapshot F)
      → apr_desc F x y ≡ true
      → apr_desc F y z ≡ true
      → apr_desc F x z ≡ true
  apr_desc_trans x y z h k = o.le_trans _ _ _ k h

  widest :
      (x : ExchangeSnapshot F) (xs : List (ExchangeSnapshot F))
      → IsSorted (apr_desc F) (x ∷ xs)
      → (le (num F 0) (sub (apr F x) (apr F (last x xs))) ≡ true)
        × All
            (λ s.
              All
                (λ t. le (sub (apr F s) (apr F t)) (sub (apr F x) (apr F (last x xs))) ≡ true)
                (x ∷ xs))
            (x ∷ xs)
  widest x xs s =
      let highest : All (λ s. le (apr F s) (apr F x) ≡ true) (x ∷ xs) = (le_refl F o _, s.0) in
      let lowest = All-before-last (apr_desc F) (λ y. le_refl F o _) x xs s in
      (
        sub_nonneg F o _ _ (All-last _ x xs highest.0 highest.1),
        All-imp _ _ (λ s hs. All-imp _ _ (λ t ht. sub-le-sub F o _ _ _ _ hs ht) (x ∷ xs) lowest)
            (x ∷ xs) highest,
      )

  max_from_first :
      (x : ExchangeSnapshot F) (xs : List (ExchangeSnapshot F))
      → All (λ s. le (apr F s) (apr F x) ≡ true) xs
      → max_from F (apr F x) (map (apr F) xs) ≡ apr F x
  unfolding max_from
  max_from_first x [] h = refl
  max_from_first x (y ∷ ys) h = ground (arith, h.0, max_from_first x ys h.1)

  module _ (now stale_after : ℕ) (tv : TokenView F) where
    abbrev live : List (ExchangeSnapshot F)
    live = live_snapshots F now stale_after tv

    -- The live snapshots are those of the view that are not stale, from the highest APR down.
    pub live_snapshots_lem :
        Perm live (keep (λ s. not (is_stale F now stale_after s)) (values tv.snapshots))
        × IsSorted (apr_desc F) live
        × All (λ s. is_stale F now stale_after s ≡ false) live
    unfolding live_snapshots
    live_snapshots_lem =
        let fresh = keep (λ s. not (is_stale F now stale_after s)) (values tv.snapshots) in
        (
          sort-perm (apr_desc F) fresh,
          sort-IsSorted (apr_desc F) apr_desc_total apr_desc_trans fresh,
          sort-All (apr_desc F) _ fresh (
              All-imp (λ s. not (is_stale F now stale_after s) ≡ true) _ (λ s h. ground arith) fresh
                (keep_holds _ (values tv.snapshots))),
        )

    -- No pair of live snapshots is further apart than `spread_apr` says, and it is never negative.
    pub spread_apr_lem :
        2 ≤ exchange_count F now stale_after tv
        → (le (num F 0) (spread_apr F now stale_after tv) ≡ true)
          × All
              (λ s.
                All
                  (λ t. le (sub (apr F s) (apr F t)) (spread_apr F now stale_after tv) ≡ true)
                  live)
              live
    unfolding spread_apr exchange_count
    spread_apr_lem h = elim (List-cases live) [
      | inl e ↦ absurd (let h' : 2 ≤ 0 = rw e at h in omega arith)
      | inr (x, xs, e) ↦
          let h' : 2 ≤ length (x ∷ xs) = rw e at h in
          let many : ltb (length (x ∷ xs)) 2 ≡ false = ground arith in
          let gap : spread_apr F now stale_after tv ≡ sub (apr F x) (apr F (last x xs)) =
            rw (e, spread_apr) (rw many) in
          rw (gap, e) (widest x xs (rw e at live_snapshots_lem.1))
    ]

    -- With a live snapshot, `max_apr` is the APR of the first of them.
    pub max_apr_lem :
        (x : ExchangeSnapshot F) (xs : List (ExchangeSnapshot F))
        → live ≡ x ∷ xs
        → max_apr F now stale_after tv ≡ apr F x
    unfolding max_apr
    max_apr_lem x xs e = rw (e, max_apr) (max_from_first x xs (rw e at live_snapshots_lem.1).0)
