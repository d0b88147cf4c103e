-- ===== src/Notifications/Matching.antt =====
-- app/services/notification_service.py: which rules get an alert.
use funding_radar.Base.{
  String, ◌≡◌, ◌⊎◌, ◌↔◌, refl, true, false, Option, none, some, List, [], ◌∷◌, arith, if◌then◌else◌,
  ◌==◌, by_text, by_value, Bool-cases, Option-cases, inl, inr, Among, sym, ◌∙◌, ap,
}
use mathlib.Core.Path.{subst}
use text.Mathlib.TextEquality.{eq_iff}
use funding_radar.Base.Dict.{Dict, lookup, insert, lookup-insert, lookup-nil}
use funding_radar.Base.Text.{lower}
use funding_radar.Base.Float.{Floats, lt}
use funding_radar.Arbitrage.{ArbitrageResult}
use funding_radar.Notifications.{
  Rule, index_opps, opp_by_token, involves, passes_filter, wants, tasks,
}

module _ (F : Floats) where
  -- The last opportunity for a token.
  abbrev pub last_for : String → List (ArbitrageResult F) → Option (ArbitrageResult F)
  last_for token [] = none
  last_for token (o ∷ rest) = elim (last_for token rest) [
    | some later ↦ some later
    | none ↦ if o.token == token then some o else none
  ]

  abbrev or_else :
      Option (ArbitrageResult F) → Option (ArbitrageResult F) → Option (ArbitrageResult F)
  or_else none o = o
  or_else (some x) o = some x

  lookup-index_opps :
      (token : String) (opps : List (ArbitrageResult F)) (d : Dict String (ArbitrageResult F))
      → lookup token (index_opps F opps d) ≡ or_else (last_for token opps) (lookup token d)
  unfolding index_opps
  lookup-index_opps token [] d = refl
  lookup-index_opps token (o ∷ rest) d =
      lookup-index_opps token rest (insert o.token o d)
      ∙ ground (arith, lookup-insert o.token token o d)

  same-rule :
      (q r : Rule F) (p o : ArbitrageResult F)
      → ◌≡◌ {A = Rule F × ArbitrageResult F} (q, p) (r, o)
      → q ≡ r
  same-rule q r p o same = ap (λ (x : Rule F × ArbitrageResult F). x.0) same

  same-task :
      (opps : Dict String (ArbitrageResult F)) (q r : Rule F) (p o : ArbitrageResult F)
      → ◌≡◌ {A = Rule F × ArbitrageResult F} (q, p) (r, o)
      → lookup q.token opps ≡ some p
      → wants F q p ≡ true
      → (lookup r.token opps ≡ some o) × (wants F r o ≡ true)
  same-task opps q r p o same f w =
      subst
        (λ (x : Rule F × ArbitrageResult F).
          (lookup x.0.token opps ≡ some x.1) × (wants F x.0 x.1 ≡ true))
        same (f, w)

  tasks-to :
      (rules : List (Rule F)) (opps : Dict String (ArbitrageResult F)) (r : Rule F)
      (o : ArbitrageResult F)
      → Among (r, o) (tasks F rules opps)
      → Among r rules × (lookup r.token opps ≡ some o) × (wants F r o ≡ true)
  unfolding tasks
  tasks-to [] opps r o h = elim h [ ]
  tasks-to (q ∷ rest) opps r o h = elim (Option-cases (lookup q.token opps)) [
    | inl f ↦
        let h' : Among (r, o) (tasks F rest opps) = rw (f, tasks) at h in
        let (there, found, wanted) = tasks-to rest opps r o h' in (inr there, found, wanted)
    | inr (p, f) ↦ elim (Bool-cases (wants F q p)) [
      | inl w ↦
          let h' : (◌≡◌ {A = Rule F × ArbitrageResult F} (q, p) (r, o))
              ⊎ Among (r, o) (tasks F rest opps) =
            rw (f, w, tasks) at h in
          elim h' [
            | inl same ↦
                let (f', w') = same-task opps q r p o same f w in
                (inl (same-rule q r p o same), f', w')
            | inr k ↦
                let (there, found, wanted) = tasks-to rest opps r o k in (inr there, found, wanted)
          ]
      | inr w ↦
          let h' : Among (r, o) (tasks F rest opps) = rw (f, w, tasks) at h in
          let (there, found, wanted) = tasks-to rest opps r o h' in (inr there, found, wanted)
    ]
  ]

  tasks-of :
      (rules : List (Rule F)) (opps : Dict String (ArbitrageResult F)) (r : Rule F)
      (o : ArbitrageResult F)
      → Among r rules
      → lookup r.token opps ≡ some o
      → wants F r o ≡ true
      → Among (r, o) (tasks F rules opps)
  unfolding tasks
  tasks-of [] opps r o h f w = elim h [ ]
  tasks-of (q ∷ rest) opps r o (inl same) f w =
      let f' : lookup q.token opps ≡ some o = rw same f in
      let w' : wants F q o ≡ true = rw same w in
      rw (f', w', tasks) (inl (ap (λ (x : Rule F). (x, o)) same))
  tasks-of (q ∷ rest) opps r o (inr h) f w =
      let further = tasks-of rest opps r o h f w in
      elim (Option-cases (lookup q.token opps)) [
        | inl f' ↦ rw (f', tasks) further
        | inr (p, f') ↦ elim (Bool-cases (wants F q p)) [
          | inl w' ↦ rw (f', w', tasks) (inr further)
          | inr w' ↦ rw (f', w', tasks) further
        ]
      ]

  -- One of the exchanges is that of a leg.
  abbrev pub Involves : ArbitrageResult F → List String → Type 0
  Involves o exchanges =
      (e : String) × Among e exchanges
      × ((o.long_leg.exchange ≡ lower e) ⊎ (o.short_leg.exchange ≡ lower e))

  involves-to :
      (o : ArbitrageResult F) (exchanges : List String)
      → involves F o exchanges ≡ true
      → Involves o exchanges
  involves-to o [] h = cc
  involves-to o (e ∷ rest) h = elim (Bool-cases (o.long_leg.exchange == lower e)) [
    | inl q ↦ (e, inl refl, inl ((eq_iff o.long_leg.exchange (lower e)).0 q))
    | inr q ↦ elim (Bool-cases (o.short_leg.exchange == lower e)) [
      | inl q' ↦ (e, inl refl, inr ((eq_iff o.short_leg.exchange (lower e)).0 q'))
      | inr q' ↦
          let (e', there, same) = involves-to o rest (rw (q, q') at h) in (e', inr there, same)
    ]
  ]

  involves-of :
      (o : ArbitrageResult F) (exchanges : List String)
      → Involves o exchanges
      → involves F o exchanges ≡ true
  involves-of o [] (e, there, same) = elim there [ ]
  involves-of o (d ∷ rest) (e, inl here, same) = ground (
    arith,
    eq_iff o.long_leg.exchange (lower d),
    eq_iff o.short_leg.exchange (lower d),
    ap lower here,
  )
  involves-of o (d ∷ rest) (e, inr there, same) =
      ground (arith, involves-of o rest (e, there, same))

  filter-to :
      (o : ArbitrageResult F) (exchanges : List String)
      → passes_filter F o exchanges ≡ true
      → (exchanges ≡ []) ⊎ Involves o exchanges
  filter-to o [] h = inl refl
  filter-to o (e ∷ rest) h = inr (involves-to o (e ∷ rest) h)

  filter-of :
      (o : ArbitrageResult F) (exchanges : List String)
      → (exchanges ≡ []) ⊎ Involves o exchanges
      → passes_filter F o exchanges ≡ true
  filter-of o [] h = refl
  filter-of o (e ∷ rest) (inl h) = cc
  filter-of o (e ∷ rest) (inr h) = involves-of o (e ∷ rest) h

  -- The tasks of a pass are exactly the rules with the last opportunity for their token, where its net APR
  -- is not below the rule's threshold, and the rule's exchanges are none or, in lower case, one of them is
  -- that of a leg.
  pub tasks_lem :
      (rules : List (Rule F)) (opps : List (ArbitrageResult F)) (r : Rule F) (o : ArbitrageResult F)
      → Among (r, o) (tasks F rules (opp_by_token F opps)) ↔ (
          Among r rules
          × (last_for r.token opps ≡ some o)
          × (lt F o.net_apr_taker r.min_apr ≡ false)
          × ((r.exchanges ≡ []) ⊎ Involves o r.exchanges))
  tasks_lem rules opps r o =
      let d = opp_by_token F opps in
      let found : lookup r.token d ≡ last_for r.token opps =
        lookup-index_opps r.token opps []
        ∙ ground (arith, lookup-nil {V = ArbitrageResult F} r.token) in
      (
        λ h.
            let (there, f, w) = tasks-to rules d r o h in
            (there, sym found ∙ f, ground arith, filter-to o r.exchanges (ground arith)),
        λ (there, f, enough, passes).
            tasks-of rules d r o there (found ∙ f)
              (let p = filter-of o r.exchanges passes in ground arith),
      )
