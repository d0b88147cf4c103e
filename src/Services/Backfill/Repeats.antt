-- ===== src/Services/Backfill/Repeats.antt =====
-- app/services/backfill_service.py: what a backfill leaves of the rates that were there, and what a second
-- one does.
use funding_radar.Base.{
  ℕ, ◌+◌, ◌-◌, ◌<◌, String, ◌≡◌, refl, sym, true, false, Option, some, List, [], ◌∷◌, arith, lt→ltb,
  by_text, by_value, by_parts, same_refl, Bool-cases, inl, inr, All, All-imp, All-append,
}
use mathlib.Core.Path.{subst}
use funding_radar.Base.Dict.{
  lookup, insert, contains, lookup-insert_self, insert_new-keeps, contains-some,
}
use funding_radar.Base.Float.{Floats}
use funding_radar.Redis.{get, get-set_ex}
use funding_radar.Collectors.Contract.{NormalizedFundingData}
use funding_radar.Services.Rates.{FundingRate, Rates, Key, key}
use funding_radar.Services.Backfill.{
  Store, upsert_batch, upsert_all, batches, ensure_exchange, fill, backfill, guard_time,
  ran_recently,
}
use funding_radar.Services.Backfill.Batches.{concat, rows_of, batches_lem}

module _ (F : Floats) where
  -- A row that is there stays.
  upsert_batch-keeps :
      (rows : List (FundingRate F)) (rates : Rates F) (k : Key) (r : FundingRate F)
      → lookup k rates ≡ some r
      → lookup k (upsert_batch F rows rates).0 ≡ some r
  unfolding upsert_batch
  upsert_batch-keeps [] rates k r h = h
  upsert_batch-keeps (q ∷ rest) rates k r h = elim (Bool-cases (contains (key F q) rates)) [
    | inl there ↦ rw there (upsert_batch-keeps rest rates k r h)
    | inr gone ↦
        let kept : lookup k (insert (key F q) q rates) ≡ some r =
          insert_new-keeps (key F q) k q rates gone h in
        rw gone (upsert_batch-keeps rest (insert (key F q) q rates) k r kept)
  ]

  upsert_all-keeps :
      (bs : List (List (FundingRate F))) (rates : Rates F) (k : Key) (r : FundingRate F)
      → lookup k rates ≡ some r
      → lookup k (upsert_all F bs rates).0 ≡ some r
  unfolding upsert_all
  upsert_all-keeps [] rates k r h = h
  upsert_all-keeps (b ∷ bs) rates k r h =
      upsert_all-keeps bs (upsert_batch F b rates).0 k r (upsert_batch-keeps b rates k r h)

  abbrev pub Has : Rates F → Key → Type 0
  Has rates k = (r : FundingRate F) × (lookup k rates ≡ some r)

  upsert_batch-there :
      (q : FundingRate F) (rest : List (FundingRate F)) (rates : Rates F)
      → contains (key F q) rates ≡ true
      → (upsert_batch F (q ∷ rest) rates).0 ≡ (upsert_batch F rest rates).0
  unfolding upsert_batch
  upsert_batch-there q rest rates h = rw h refl

  upsert_batch-new :
      (q : FundingRate F) (rest : List (FundingRate F)) (rates : Rates F)
      → contains (key F q) rates ≡ false
      → (upsert_batch F (q ∷ rest) rates).0 ≡ (upsert_batch F rest (insert (key F q) q rates)).0
  unfolding upsert_batch
  upsert_batch-new q rest rates h = rw h refl

  upsert_batch-Has :
      (rows : List (FundingRate F)) (rates : Rates F)
      → All (λ q. Has (upsert_batch F rows rates).0 (key F q)) rows
  upsert_batch-Has [] rates = tt
  upsert_batch-Has (q ∷ rest) rates = elim (Bool-cases (contains (key F q) rates)) [
    | inl there ↦
        let (r, found) : Has rates (key F q) = contains-some (key F q) rates there in
        subst (λ (x : Rates F). All (λ p. Has x (key F p)) (q ∷ rest))
          (sym (upsert_batch-there q rest rates there))
          ((r, upsert_batch-keeps rest rates (key F q) r found), upsert_batch-Has rest rates)
    | inr gone ↦
        let rates' = insert (key F q) q rates in
        subst (λ (x : Rates F). All (λ p. Has x (key F p)) (q ∷ rest))
          (sym (upsert_batch-new q rest rates gone))
          (
            (q, upsert_batch-keeps rest rates' (key F q) q (lookup-insert_self (key F q) q rates)),
            upsert_batch-Has rest rates',
          )
  ]

  upsert_all-Has :
      (bs : List (List (FundingRate F))) (rates : Rates F)
      → All (λ q. Has (upsert_all F bs rates).0 (key F q)) (concat F bs)
  unfolding upsert_all
  upsert_all-Has [] rates = tt
  upsert_all-Has (b ∷ bs) rates =
      let rates' = (upsert_batch F b rates).0 in
      All-append (λ q. Has (upsert_all F bs rates').0 (key F q)) b (concat F bs)
        (All-imp (λ q. Has rates' (key F q)) (λ q. Has (upsert_all F bs rates').0 (key F q))
          (λ q (r, found). (r, upsert_all-keeps bs rates' (key F q) r found)) b
          (upsert_batch-Has b rates))
        (upsert_all-Has bs rates')

  ensure_exchange-rates :
      (slug : String) (s : Store F) → (ensure_exchange F slug s).0.rates ≡ s.rates
  unfolding ensure_exchange
  ensure_exchange-rates slug s = ground arith

  -- No backfill changes a row that is there.
  pub backfill-keeps :
      (raced : String → Option (Option ℕ)) (now ended : ℕ) (slug : String) (days : ℕ)
      (records : List (NormalizedFundingData F)) (s : Store F) (k : Key) (r : FundingRate F)
      → lookup k s.rates ≡ some r
      → lookup k (backfill F raced now ended slug days records s).0.rates ≡ some r
  unfolding backfill fill
  backfill-keeps raced now ended slug days records s k r h =
      elim (Bool-cases (ran_recently F now (get now (slug, days) s.guards))) [
        | inl q ↦ rw (q, backfill) h
        | inr q ↦
            let s' = (ensure_exchange F slug s).0 in
            let bs = (batches F raced (ensure_exchange F slug s).1 records s'.tokens []).1 in
            rw (q, backfill) (upsert_all-keeps bs s'.rates k r (rw ensure_exchange-rates h))
      ]

  -- After a backfill that runs, each record whose token has an id has a row at its time, exchange and token.
  pub fill-Has :
      (raced : String → Option (Option ℕ)) (ended : ℕ) (slug : String) (days : ℕ)
      (records : List (NormalizedFundingData F)) (s : Store F)
      → let (s', exchange_id) = ensure_exchange F slug s in
        All
          (λ q. Has (fill F raced ended slug days records s).0.rates (key F q))
          (rows_of F raced exchange_id records s'.tokens)
  unfolding fill
  fill-Has raced ended slug days records s =
      let (s', exchange_id) = ensure_exchange F slug s in
      let bs = (batches F raced exchange_id records s'.tokens []).1 in
      rw (← (batches_lem F raced exchange_id records s'.tokens).0) (upsert_all-Has bs s'.rates)

  fill-guards :
      (raced : String → Option (Option ℕ)) (ended again : ℕ) (slug : String) (days : ℕ)
      (records : List (NormalizedFundingData F)) (s : Store F)
      → again < ended + guard_time
      → get again (slug, days) (fill F raced ended slug days records s).0.guards ≡ some ended
  unfolding fill
  fill-guards raced ended again slug days records s soon =
      rw get-set_ex (rw (same_refl, lt→ltb again (ended + guard_time) soon) refl)

  -- After a backfill that ran, one of the same exchange and span that starts before the guard's time is
  -- over, whatever history it would meet, does nothing and reports no row.
  pub backfill_again :
      (raced : String → Option (Option ℕ)) (now ended again ended_again : ℕ) (slug : String)
      (days : ℕ) (records more : List (NormalizedFundingData F)) (s : Store F)
      → ran_recently F now (get now (slug, days) s.guards) ≡ false
      → again < ended + guard_time
      → let s' = (backfill F raced now ended slug days records s).0 in
        backfill F raced again ended_again slug days more s' ≡ (s', 0)
  unfolding backfill
  backfill_again raced now ended again ended_again slug days records more s ran soon =
      let first : backfill F raced now ended slug days records s
          ≡ fill F raced ended slug days records s =
        rw (ran, backfill) refl in
      rw first (
        rw (fill-guards raced ended again slug days records s soon, backfill)
          (rw (lt→ltb (again - ended) guard_time (omega arith)) refl))
