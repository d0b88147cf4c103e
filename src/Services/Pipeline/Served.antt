-- ===== src/Services/Pipeline/Served.antt =====
-- app/services/funding_service.py: what is served while messages, the timer and the purge take turns.
use funding_radar.Base.{
  ℕ, ◌-◌, ◌%◌, String, ◌≡◌, refl, true, Option, none, some, List, [], ◌∷◌, nat_beq, leb, All,
  Bool-cases, Option-cases, inl, inr,
}
use funding_radar.Base.Sort.{IsSorted}
use funding_radar.Base.Float.{Floats, IsOrdered}
use funding_radar.Collectors.Contract.{NormalizedFundingData}
use funding_radar.Normalizer.Coherence.{IsCoherent, init-IsCoherent, update-IsCoherent}
use funding_radar.Normalizer.Purge.{purge_stale_lem}
use funding_radar.Arbitrage.{ArbitrageResult, calculate, net_apr_desc}
use funding_radar.Arbitrage.Ranking.{calculate_lem}
use funding_radar.Aggregator.{TokenRankRow, build_ranked, max_apr_desc}
use funding_radar.Aggregator.Ranking.{build_ranked_lem}
use funding_radar.Services.Pipeline.{
  Moment, FundingService, create, published, calculate_and_publish, build_and_publish, recalculate,
  accepted, handle_message, timed_recalc, purge,
}

pub data Turn : Type 0 where
  message : Moment → String → Turn
  timer purge_timer : Moment → Turn

module _ (F : Floats) where
  open F use {Num, le}

  unfoldable pub take_turn :
      (String → Option (NormalizedFundingData F)) → Turn → FundingService F → FundingService F
  take_turn parse (message m raw) s = handle_message F parse m raw s
  take_turn parse (timer m) s = timed_recalc F m s
  take_turn parse (purge_timer m) s = purge F m s

  unfoldable pub take_turns :
      (String → Option (NormalizedFundingData F)) → List Turn → FundingService F → FundingService F
  take_turns parse [] s = s
  take_turns parse (t ∷ ts) s = take_turns parse ts (take_turn parse t s)

  -- The opportunities in Redis are from the highest net APR down, and none is below the threshold.
  abbrev pub AreOpportunities : Num → Option (List (ArbitrageResult F) × ℕ) → Type 0
  AreOpportunities threshold none = Unit
  AreOpportunities threshold (some (results, expiry)) =
      IsSorted (net_apr_desc F) results
      × All (λ (r : ArbitrageResult F). le threshold r.net_apr_taker ≡ true) results

  -- The ranking in Redis is from the highest APR down.
  abbrev pub IsRanking : Option (List (TokenRankRow F) × ℕ) → Type 0
  IsRanking none = Unit
  IsRanking (some (rows, expiry)) = IsSorted (max_apr_desc F) rows

  pub record IsServed (threshold : Num) (s : FundingService F) : Type 0 where
    pub coherent : IsCoherent F s.normalizer
    pub same_threshold : s.arb_calculator.min_net_apr_taker ≡ threshold
    pub opportunities : AreOpportunities threshold s.current
    pub ranking : IsRanking s.ranked

module _ (F : Floats) (o : IsOrdered F) where
  open F use {Num, le}

  create-IsServed :
      (stale_after n every : ℕ) (threshold : Num)
      → IsServed F threshold (create F stale_after n every threshold)
  unfolding create
  create-IsServed stale_after n every threshold = record {
    coherent = init-IsCoherent F stale_after;
    same_threshold = refl;
    opportunities = tt;
    ranking = tt;
  }

  published-AreOpportunities :
      (threshold : Num) (m : Moment) (results : List (ArbitrageResult F))
      (old : Option (List (ArbitrageResult F) × ℕ))
      → AreOpportunities F threshold (some (results, 0))
      → AreOpportunities F threshold old
      → AreOpportunities F threshold (published F m results old)
  published-AreOpportunities threshold m results old new h = elim (Bool-cases m.down) [
    | inl q ↦ rw q h
    | inr q ↦ rw q new
  ]

  published-IsRanking :
      (m : Moment) (rows : List (TokenRankRow F)) (old : Option (List (TokenRankRow F) × ℕ))
      → IsRanking F (some (rows, 0))
      → IsRanking F old
      → IsRanking F (published F m rows old)
  published-IsRanking m rows old new h = elim (Bool-cases m.down) [
    | inl q ↦ rw q h
    | inr q ↦ rw q new
  ]

  calculate_and_publish-IsServed :
      (threshold : Num) (m : Moment) (s : FundingService F)
      → IsServed F threshold s
      → IsServed F threshold (calculate_and_publish F m s).0
  unfolding calculate_and_publish
  calculate_and_publish-IsServed threshold m s h =
      let (same, sorted, above, complete) =
        calculate_lem F o m.now m.now_ms s.normalizer s.arb_calculator in
      let results = (calculate F m.now m.now_ms s.normalizer s.arb_calculator).1 in
      let above' : All (λ (r : ArbitrageResult F). le threshold r.net_apr_taker ≡ true) results =
        rw (← h.same_threshold) above in
      record {
        coherent = h.coherent;
        same_threshold = h.same_threshold;
        opportunities =
            published-AreOpportunities threshold m results s.current (sorted, above')
              h.opportunities;
        ranking = h.ranking;
      }

  build_and_publish-IsServed :
      (threshold : Num) (m : Moment) (s : FundingService F)
      → IsServed F threshold s
      → IsServed F threshold (build_and_publish F m s).0
  unfolding build_and_publish
  build_and_publish-IsServed threshold m s h =
      let (same, sorted, live, complete) = build_ranked_lem F o m.now s.normalizer s.aggregator in
      record {
        coherent = h.coherent;
        same_threshold = h.same_threshold;
        opportunities = h.opportunities;
        ranking =
            published-IsRanking m (build_ranked F m.now s.normalizer s.aggregator).1 s.ranked sorted
              h.ranking;
      }

  recalculate-IsServed :
      (threshold : Num) (m : Moment) (s : FundingService F)
      → IsServed F threshold s
      → IsServed F threshold (recalculate F m s)
  unfolding recalculate
  recalculate-IsServed threshold m s h =
      let started : FundingService F = record s { last_recalc_at = m.now } in
      build_and_publish-IsServed threshold m (calculate_and_publish F m started).0 (
        calculate_and_publish-IsServed threshold m started (record {
          coherent = h.coherent;
          same_threshold = h.same_threshold;
          opportunities = h.opportunities;
          ranking = h.ranking;
        }))

  accepted-IsServed :
      (threshold : Num) (m : Moment) (item : NormalizedFundingData F) (s : FundingService F)
      → IsServed F threshold s
      → IsServed F threshold (accepted F m item s)
  accepted-IsServed threshold m item s h = record {
    coherent = update-IsCoherent F m.now item s.normalizer h.coherent;
    same_threshold = h.same_threshold;
    opportunities = h.opportunities;
    ranking = h.ranking;
  }

  handle_message-IsServed :
      (parse : String → Option (NormalizedFundingData F)) (threshold : Num) (m : Moment)
      (raw : String) (s : FundingService F)
      → IsServed F threshold s
      → IsServed F threshold (handle_message F parse m raw s)
  unfolding handle_message
  handle_message-IsServed parse threshold m raw s h = elim (Option-cases (parse raw)) [
    | inl q ↦ rw (q, handle_message) h
    | inr (item, q) ↦
        let s' = accepted F m item s in
        let h' = accepted-IsServed threshold m item s h in
        elim (Bool-cases (nat_beq s.recalculate_every_n 0)) [
          | inl z ↦ rw (q, z, handle_message) h'
          | inr z ↦ elim (Bool-cases (nat_beq (s'.update_counter % s.recalculate_every_n) 0)) [
            | inl due ↦ rw (q, z, due, handle_message) (recalculate-IsServed threshold m s' h')
            | inr not_due ↦ rw (q, z, not_due, handle_message) h'
          ]
        ]
  ]

  take_turn-IsServed :
      (parse : String → Option (NormalizedFundingData F)) (threshold : Num) (t : Turn)
      (s : FundingService F)
      → IsServed F threshold s
      → IsServed F threshold (take_turn F parse t s)
  unfolding take_turn timed_recalc purge
  take_turn-IsServed parse threshold (message m raw) s h =
      handle_message-IsServed parse threshold m raw s h
  take_turn-IsServed parse threshold (timer m) s h =
      elim (Bool-cases (leb s.recalculate_every (m.now - s.last_recalc_at))) [
        | inl q ↦ rw (q, timed_recalc) (recalculate-IsServed threshold m s h)
        | inr q ↦ rw (q, timed_recalc) h
      ]
  take_turn-IsServed parse threshold (purge_timer m) s h = record {
    coherent = (purge_stale_lem F m.now s.normalizer h.coherent).0;
    same_threshold = h.same_threshold;
    opportunities = h.opportunities;
    ranking = h.ranking;
  }

  take_turns-IsServed :
      (parse : String → Option (NormalizedFundingData F)) (threshold : Num) (ts : List Turn)
      (s : FundingService F)
      → IsServed F threshold s
      → IsServed F threshold (take_turns F parse ts s)
  unfolding take_turns
  take_turns-IsServed parse threshold [] s h = h
  take_turns-IsServed parse threshold (t ∷ ts) s h =
      take_turns-IsServed parse threshold ts (take_turn F parse t s)
        (take_turn-IsServed parse threshold t s h)

  -- Whatever messages come, in what order the timer and the purge take their turns, and whenever Redis
  -- fails: the indices of a new service's normalizer stay coherent, the opportunities in Redis are from the
  -- highest net APR down with none below the threshold, and the ranking there is from the highest APR down.
  pub create-take_turns :
      (parse : String → Option (NormalizedFundingData F)) (stale_after n every : ℕ)
      (threshold : Num) (ts : List Turn)
      → IsServed F threshold (take_turns F parse ts (create F stale_after n every threshold))
  create-take_turns parse stale_after n every threshold ts =
      take_turns-IsServed parse threshold ts (create F stale_after n every threshold)
        (create-IsServed stale_after n every threshold)
