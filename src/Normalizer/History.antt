-- ===== src/Normalizer/History.antt =====
-- app/processors/normalizer.py: DataNormalizer against an abstract table that forgets how the data
-- are indexed, over any sequence of updates and purges.
use funding_radar.Base.{
  ℕ, String, ◌≡◌, refl, Option, none, some, List, [], ◌∷◌, ◌==◌, ◌&&◌, if◌then◌else◌, by_text,
  by_parts, ◌∙◌, ap,
}
use funding_radar.Base.Dict.{lookup-insert, lookup-nil}
use funding_radar.Base.Float.{Floats}
use funding_radar.Collectors.Contract.{NormalizedFundingData}
use funding_radar.Snapshot.{ExchangeSnapshot}
use funding_radar.Normalizer.{
  DataNormalizer, init, update, purge_keys, purge_stale, stale_keys, get_snapshot,
}
use funding_radar.Normalizer.Coherence.{IsCoherent, view_lookup, init-IsCoherent, update-IsCoherent}
use funding_radar.Normalizer.Purge.{fresh, purge_stale_lem}

module _ (F : Floats) where
  -- What the pipeline does to the state, with the clock's reading.
  pub data Event : Type 0 where
    updated : ℕ → NormalizedFundingData F → Event
    purged : ℕ → Event

  unfoldable pub step : Event → DataNormalizer F → DataNormalizer F
  step (updated now item) n = (update F now item n).0
  step (purged now) n = (purge_stale F now n).0

  unfoldable pub run : List Event → DataNormalizer F → DataNormalizer F
  run [] n = n
  run (e ∷ es) n = run es (step e n)

  -- The abstract view: what is known of each exchange and token.
  abbrev pub Table : Type 0
  Table = String → String → Option (ExchangeSnapshot F)

  unfoldable pub table_step : ℕ → Event → Table → Table
  table_step stale_after (updated now item) t exchange token =
      if item.exchange == exchange && item.token == token
      then some (record { funding = item; received_at = now })
      else t exchange token
  table_step stale_after (purged now) t exchange token = fresh F now stale_after (t exchange token)

  unfoldable pub table_run : ℕ → List Event → Table → Table
  table_run stale_after [] t = t
  table_run stale_after (e ∷ es) t = table_run stale_after es (table_step stale_after e t)

  -- The state holds what the table holds.
  pub record Refines (stale_after : ℕ) (t : Table) (n : DataNormalizer F) : Type 0 where
    pub coherent : IsCoherent F n
    pub threshold : n.stale_after ≡ stale_after
    pub holds : (exchange token : String) → get_snapshot F exchange token n ≡ t exchange token

  purge_keys-stale_after :
      (ks : List (String × String)) (n : DataNormalizer F)
      → (purge_keys F ks n).stale_after ≡ n.stale_after
  unfolding purge_keys
  purge_keys-stale_after [] n = refl
  purge_keys-stale_after ((e, t) ∷ ks) n = purge_keys-stale_after ks _

  step-Refines :
      (sa : ℕ) (t : Table) (e : Event) (n : DataNormalizer F)
      → Refines sa t n
      → Refines sa (table_step sa e t) (step e n)
  unfolding step table_step get_snapshot
  step-Refines sa t (updated now item) n r = record {
    coherent = update-IsCoherent F now item n r.coherent;
    threshold = unfold update in r.threshold;
    holds = λ ex tok.
        unfold update in
        (lookup-insert (item.exchange, item.token) (ex, tok)
            (record { funding = item; received_at = now }) n.snapshots
          ∙ ap
              (λ o.
                if item.exchange == ex && item.token == tok
                then some (record { funding = item; received_at = now })
                else o)
              (r.holds ex tok));
  }
  step-Refines sa t (purged now) n r = record {
    coherent = (purge_stale_lem F now n r.coherent).0;
    threshold =
        unfold purge_stale in
        (purge_keys-stale_after (stale_keys F now n.stale_after n.snapshots) n ∙ r.threshold);
    holds =
        λ ex tok. rw ((purge_stale_lem F now n r.coherent).1 ex tok, r.threshold, r.holds ex tok);
  }

  run-Refines :
      (sa : ℕ) (t : Table) (es : List Event) (n : DataNormalizer F)
      → Refines sa t n
      → Refines sa (table_run sa es t) (run es n)
  unfolding run table_run
  run-Refines sa t [] n r = r
  run-Refines sa t (e ∷ es) n r =
      run-Refines sa (table_step sa e t) es (step e n) (step-Refines sa t e n r)

  empty : (sa : ℕ) (ex tok : String) → get_snapshot F ex tok (init F sa) ≡ none
  unfolding get_snapshot init
  empty sa ex tok = lookup-nil (ex, tok)

  -- After any sequence of updates and purges of a new normalizer, a lookup by exchange and token
  -- finds what the abstract table holds: the last update of the pair, unless a purge found it older
  -- than the threshold. The token's view holds the same.
  pub run-refines-table :
      (stale_after : ℕ) (es : List Event) (exchange token : String)
      → let n = run es (init F stale_after) in
        let spec = table_run stale_after es (λ ex tok. none) exchange token in
        (get_snapshot F exchange token n ≡ spec)
        × (view_lookup F exchange token n.token_views ≡ spec)
  run-refines-table sa es ex tok =
      let r =
        run-Refines sa (λ ex' tok'. none) es (init F sa)
          (record {
            coherent = init-IsCoherent F sa;
            threshold = unfold init in refl;
            holds = empty sa;
          }) in
      (r.holds ex tok, r.coherent.agree ex tok ∙ unfold get_snapshot in r.holds ex tok)
