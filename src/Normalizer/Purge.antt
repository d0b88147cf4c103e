-- ===== src/Normalizer/Purge.antt =====
-- app/processors/normalizer.py: `purge_stale` takes out exactly the stale snapshots, from both
-- indices, and counts them.
use funding_radar.Base.{
  ℕ, String, ◌≡◌, ◌≢◌, refl, Bool, false, Option, none, some, List, [], ◌∷◌, arith, ◌==◌,
  if◌then◌else◌, by_parts, by_text, Option-cases, inl, inr, All, ◌∙◌, ◌||◌, ◌&&◌, List-cases,
}
use text.Mathlib.TextEquality.{eq_iff}
use funding_radar.Base.Dict.{
  Dict, values, lookup, erase, IsDict, lookup-insert, lookup-erase, insert-IsDict, erase-IsDict,
  All-lookup, All-insert, All-erase, lookup-nil,
}
use funding_radar.Base.Float.{Floats}
use funding_radar.Snapshot.{ExchangeSnapshot, TokenView, is_stale}
use funding_radar.Normalizer.{DataNormalizer, drop_from_view, purge_keys, purge_stale, stale_keys}
use funding_radar.Normalizer.Coherence.{
  IsCoherent, view_lookup, view_lookup-insert, view_lookup-erase,
}

module _ (F : Floats) where
  -- Taking one snapshot out of its view shows as a missing entry, and nothing else.
  view_lookup-drop :
      (e t : String) (views : Dict String (TokenView F)) (ex tok : String)
      → view_lookup F ex tok (drop_from_view F e t views)
        ≡ (if e == ex && t == tok then none else view_lookup F ex tok views)
  unfolding drop_from_view
  view_lookup-drop e t views ex tok = elim (Option-cases (lookup t views)) [
    | inl h ↦ ground (arith, eq_iff e ex, eq_iff t tok)
    | inr (tv, h) ↦ elim (List-cases (erase e tv.snapshots)) [
      | inl out ↦ ground (
        arith,
        eq_iff t tok,
        view_lookup-erase F t views ex tok,
        lookup-erase e ex tv.snapshots,
        lookup-nil {V = ExchangeSnapshot F} ex,
      )
      | inr (x, rest, left) ↦ ground (
        arith,
        eq_iff t tok,
        view_lookup-insert F t (record tv { snapshots = x ∷ rest }) views ex tok,
        lookup-erase e ex tv.snapshots,
      )
    ]
  ]

  drop_from_view-labelled :
      (e t : String) (views : Dict String (TokenView F))
      → ((tok : String) (tv : TokenView F)
          → lookup tok views ≡ some tv
          → (tv.token ≡ tok) × (tv.snapshots ≢ []))
      → (tok : String) (tv : TokenView F) → lookup tok (drop_from_view F e t views) ≡ some tv
      → (tv.token ≡ tok) × (tv.snapshots ≢ [])
  unfolding drop_from_view
  drop_from_view-labelled e t views labelled tok tv h = elim (Option-cases (lookup t views)) [
    | inl out ↦ labelled tok tv (rw (out, drop_from_view) at h)
    | inr (old, found) ↦ elim (List-cases (erase e old.snapshots)) [
      | inl out ↦ ground (arith, labelled tok tv, lookup-erase t tok views)
      | inr (x, rest, left) ↦ ground (
        arith,
        eq_iff t tok,
        labelled tok tv,
        labelled t old,
        lookup-insert t tok (record old { snapshots = x ∷ rest }) views,
      )
    ]
  ]

  drop_from_view-IsDict :
      (e t : String) (views : Dict String (TokenView F))
      → IsDict views
      → All (λ tv. IsDict tv.snapshots) (values views)
      → IsDict (drop_from_view F e t views)
        × All (λ tv. IsDict tv.snapshots) (values (drop_from_view F e t views))
  unfolding drop_from_view
  drop_from_view-IsDict e t views d inner = elim (Option-cases (lookup t views)) [
    | inl out ↦ rw (out, drop_from_view) (d, inner)
    | inr (old, found) ↦
        let old_dict = All-lookup (λ tv. IsDict tv.snapshots) t views inner found in
        let rest_dict = erase-IsDict e old.snapshots old_dict in
        elim (List-cases (erase e old.snapshots)) [
          | inl out ↦
              rw (found, drop_from_view, out) (erase-IsDict t views d, All-erase _ t views inner)
          | inr (x, rest, left) ↦
              rw (found, drop_from_view, left)
                (
                  insert-IsDict t _ views d,
                  All-insert (λ tv. IsDict tv.snapshots) t (record old { snapshots = x ∷ rest })
                      views (rw left at rest_dict) inner,
                )
        ]
  ]

  -- One round of the loop.
  abbrev purge_key : String → String → DataNormalizer F → DataNormalizer F
  purge_key e t n = record n {
    snapshots = erase (e, t) n.snapshots;
    token_views = drop_from_view F e t n.token_views;
  }

  module _ (e t : String) (n : DataNormalizer F) (c : IsCoherent F n) where
    purge_key-agree :
        (ex tok : String)
        → view_lookup F ex tok (purge_key e t n).token_views
          ≡ lookup (ex, tok) (purge_key e t n).snapshots
    purge_key-agree ex tok = ground (
      arith,
      view_lookup-drop e t n.token_views ex tok,
      lookup-erase (e, t) (ex, tok) n.snapshots,
      c.agree ex tok,
    )

    purge_key-keyed :
        (ex tok : String) (s : ExchangeSnapshot F)
        → lookup (ex, tok) (purge_key e t n).snapshots ≡ some s
        → (s.funding.exchange ≡ ex) × (s.funding.token ≡ tok)
    purge_key-keyed ex tok s h =
        ground (arith, lookup-erase (e, t) (ex, tok) n.snapshots, c.keyed ex tok s)

    purge_key-labelled :
        (tok : String) (tv : TokenView F)
        → lookup tok (purge_key e t n).token_views ≡ some tv
        → (tv.token ≡ tok) × (tv.snapshots ≢ [])
    purge_key-labelled tok tv h = drop_from_view-labelled e t n.token_views c.labelled tok tv h

    purge_key-IsCoherent : IsCoherent F (purge_key e t n)
    purge_key-IsCoherent = record {
      agree = purge_key-agree;
      keyed = purge_key-keyed;
      labelled = purge_key-labelled;
      distinct = erase-IsDict _ _ c.distinct;
      views_distinct = (drop_from_view-IsDict e t _ c.views_distinct c.inner_distinct).0;
      inner_distinct = (drop_from_view-IsDict e t _ c.views_distinct c.inner_distinct).1;
    }

  pub purge_keys-IsCoherent :
      (ks : List (String × String)) (n : DataNormalizer F)
      → IsCoherent F n
      → IsCoherent F (purge_keys F ks n)
  unfolding purge_keys
  purge_keys-IsCoherent [] n c = c
  purge_keys-IsCoherent ((e, t) ∷ ks) n c =
      purge_keys-IsCoherent ks (purge_key e t n) (purge_key-IsCoherent e t n c)

  -- `key in stale_keys`
  abbrev elem : String → String → List (String × String) → Bool
  elem ex tok [] = false
  elem ex tok ((e, t) ∷ ks) = (e == ex && t == tok) || elem ex tok ks

  lookup-purge_keys :
      (ks : List (String × String)) (n : DataNormalizer F) (ex tok : String)
      → lookup (ex, tok) (purge_keys F ks n).snapshots
        ≡ (if elem ex tok ks then none else lookup (ex, tok) n.snapshots)
  unfolding purge_keys
  lookup-purge_keys [] n ex tok = refl
  lookup-purge_keys ((e, t) ∷ ks) n ex tok = ground (
    arith,
    lookup-purge_keys ks (purge_key e t n) ex tok,
    lookup-erase (e, t) (ex, tok) n.snapshots,
  )

  -- A snapshot that `purge_stale` leaves where it is.
  abbrev pub fresh : ℕ → ℕ → Option (ExchangeSnapshot F) → Option (ExchangeSnapshot F)
  fresh now stale_after none = none
  fresh now stale_after (some s) = if is_stale F now stale_after s then none else some s

  elem-absent :
      (now sa : ℕ) (d : Dict (String × String) (ExchangeSnapshot F)) (ex tok : String)
      → lookup (ex, tok) d ≡ none
      → elem ex tok (stale_keys F now sa d) ≡ false
  unfolding stale_keys lookup
  elem-absent now sa [] ex tok h = refl
  elem-absent now sa (((e, t), s) ∷ d) ex tok h = ground (arith, elem-absent now sa d ex tok)

  elem-stale_keys :
      (now sa : ℕ) (d : Dict (String × String) (ExchangeSnapshot F)) (ex tok : String)
      → IsDict d
      → (if elem ex tok (stale_keys F now sa d) then none else lookup (ex, tok) d)
        ≡ fresh now sa (lookup (ex, tok) d)
  unfolding stale_keys lookup
  elem-stale_keys now sa [] ex tok h = refl
  elem-stale_keys now sa (((e, t), s) ∷ d) ex tok h = ground (
    arith,
    eq_iff e ex,
    eq_iff t tok,
    elem-absent now sa d ex tok,
    elem-stale_keys now sa d ex tok h.1,
  )

  -- After `purge_stale` a lookup finds what it found before, unless that was stale; the two indices
  -- stay coherent.
  pub purge_stale_lem :
      (now : ℕ) (n : DataNormalizer F)
      → IsCoherent F n
      → IsCoherent F (purge_stale F now n).0
        × ((ex tok : String)
            → lookup (ex, tok) (purge_stale F now n).0.snapshots
              ≡ fresh now n.stale_after (lookup (ex, tok) n.snapshots))
  unfolding purge_stale
  purge_stale_lem now n c =
      let ks = stale_keys F now n.stale_after n.snapshots in
      (
        purge_keys-IsCoherent ks n c,
        λ ex tok.
            lookup-purge_keys ks n ex tok
            ∙ elem-stale_keys now n.stale_after n.snapshots ex tok c.distinct,
      )
