-- ===== src/Normalizer/Coherence.antt =====
-- app/processors/normalizer.py: the two indices of DataNormalizer, `_snapshots` by exchange and token
-- and `_token_views` by token and then by exchange, stay one and the same table.
use funding_radar.Base.{
  ℕ, String, ◌≡◌, ◌≢◌, refl, Option, none, some, [], arith, ◌==◌, if◌then◌else◌, by_parts, by_text,
  Option-cases, inl, inr, All,
}
use text.Mathlib.TextEquality.{eq_iff}
use funding_radar.Base.Dict.{
  Dict, values, lookup, insert, erase, IsDict, lookup-insert, lookup-erase, insert-ne-nil,
  insert-IsDict, All-lookup, All-insert,
}
use funding_radar.Base.Float.{Floats}
use funding_radar.Collectors.Contract.{NormalizedFundingData}
use funding_radar.Snapshot.{ExchangeSnapshot, TokenView}
use funding_radar.Normalizer.{DataNormalizer, init, view_or_new, update}

module _ (F : Floats) where
  abbrev pub view_lookup : String → String → Dict String (TokenView F) → Option (ExchangeSnapshot F)
  view_lookup exchange token views = elim (lookup token views) [
    | none ↦ none
    | some tv ↦ lookup exchange tv.snapshots
  ]

  pub record IsCoherent (n : DataNormalizer F) : Type 0 where
    -- both indices hold the same snapshots
    pub agree :
        (exchange token : String)
        → view_lookup exchange token n.token_views ≡ lookup (exchange, token) n.snapshots
    -- a snapshot is filed under its own exchange and token
    pub keyed :
        (exchange token : String) (s : ExchangeSnapshot F)
        → lookup (exchange, token) n.snapshots ≡ some s
        → (s.funding.exchange ≡ exchange) × (s.funding.token ≡ token)
    -- a view is filed under its token, and is never empty
    pub labelled :
        (token : String) (tv : TokenView F)
        → lookup token n.token_views ≡ some tv
        → (tv.token ≡ token) × (tv.snapshots ≢ [])
    pub distinct : IsDict n.snapshots
    pub views_distinct : IsDict n.token_views
    pub inner_distinct : All (λ tv. IsDict tv.snapshots) (values n.token_views)

  pub init-IsCoherent : (stale_after : ℕ) → IsCoherent (init F stale_after)
  unfolding init lookup
  init-IsCoherent sa = record {
    agree = λ ex tok. refl;
    keyed = λ ex tok s h. cc;
    labelled = λ tok tv h. cc;
    distinct = tt;
    views_distinct = tt;
    inner_distinct = tt;
  }

  pub view_lookup-insert :
      (t : String) (tv : TokenView F) (views : Dict String (TokenView F)) (ex tok : String)
      → view_lookup ex tok (insert t tv views)
        ≡ (if t == tok then lookup ex tv.snapshots else view_lookup ex tok views)
  view_lookup-insert t tv views ex tok = ground (arith, lookup-insert t tok tv views)

  pub view_lookup-erase :
      (t : String) (views : Dict String (TokenView F)) (ex tok : String)
      → view_lookup ex tok (erase t views) ≡ (if t == tok then none else view_lookup ex tok views)
  view_lookup-erase t views ex tok = ground (arith, lookup-erase t tok views)

  -- What `update` writes into is what the lookup of the token shows.
  lookup-view_or_new :
      (t : String) (views : Dict String (TokenView F)) (ex : String)
      → lookup ex (view_or_new F t views).snapshots ≡ view_lookup ex t views
  unfolding view_or_new lookup
  lookup-view_or_new t views ex = ground arith

  module _ (now : ℕ) (item : NormalizedFundingData F) (n : DataNormalizer F)
      (c : IsCoherent n) where
    abbrev written : TokenView F
    written = view_or_new F item.token n.token_views

    abbrev filed : Dict String (ExchangeSnapshot F)
    filed = insert item.exchange (record { funding = item; received_at = now }) written.snapshots

    update-agree :
        (ex tok : String)
        → view_lookup ex tok (update F now item n).0.token_views
          ≡ lookup (ex, tok) (update F now item n).0.snapshots
    unfolding update
    update-agree ex tok = ground (
      arith,
      eq_iff item.exchange ex,
      eq_iff item.token tok,
      c.agree ex tok,
      lookup-view_or_new tok n.token_views ex,
      view_lookup-insert item.token (record written { snapshots = filed }) n.token_views ex tok,
      lookup-insert item.exchange ex (record { funding = item; received_at = now })
          written.snapshots,
      lookup-insert (item.exchange, item.token) (ex, tok)
          (record { funding = item; received_at = now }) n.snapshots,
    )

    update-keyed :
        (ex tok : String) (s : ExchangeSnapshot F)
        → lookup (ex, tok) (update F now item n).0.snapshots ≡ some s
        → (s.funding.exchange ≡ ex) × (s.funding.token ≡ tok)
    unfolding update
    update-keyed ex tok s h = ground (
      arith,
      eq_iff item.exchange ex,
      eq_iff item.token tok,
      c.keyed ex tok s,
      lookup-insert (item.exchange, item.token) (ex, tok)
          (record { funding = item; received_at = now }) n.snapshots,
    )

    written_token : written.token ≡ item.token
    unfolding view_or_new
    written_token = elim (Option-cases (lookup item.token n.token_views)) [
      | inl h ↦ rw (h, view_or_new)
      | inr (tv, h) ↦ rw (h, view_or_new) (c.labelled item.token tv h).0
    ]

    written-IsDict : IsDict written.snapshots
    unfolding view_or_new
    written-IsDict = elim (Option-cases (lookup item.token n.token_views)) [
      | inl h ↦ rw (h, view_or_new) tt
      | inr (tv, h) ↦
          rw (h, view_or_new)
            (All-lookup (λ tv. IsDict tv.snapshots) item.token n.token_views c.inner_distinct h)
    ]

    update-labelled :
        (tok : String) (tv : TokenView F)
        → lookup tok (update F now item n).0.token_views ≡ some tv
        → (tv.token ≡ tok) × (tv.snapshots ≢ [])
    unfolding update
    update-labelled tok tv h = ground (
      arith,
      eq_iff item.token tok,
      c.labelled tok tv,
      written_token,
      insert-ne-nil item.exchange (record { funding = item; received_at = now }) written.snapshots,
      lookup-insert item.token tok (record written { snapshots = filed }) n.token_views,
    )

    -- `update` keeps the two indices equal, keyed by what they hold, and free of empty views.
    pub update-IsCoherent : IsCoherent (update F now item n).0
    unfolding update
    update-IsCoherent = record {
      agree = update-agree;
      keyed = update-keyed;
      labelled = update-labelled;
      distinct = insert-IsDict _ _ _ c.distinct;
      views_distinct = insert-IsDict _ _ _ c.views_distinct;
      inner_distinct =
          All-insert (λ tv. IsDict tv.snapshots) item.token (record written { snapshots = filed })
            n.token_views (insert-IsDict _ _ _ written-IsDict) c.inner_distinct;
    }
