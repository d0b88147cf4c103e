-- ===== src/Collectors/Registry/Watchdog.antt =====
-- app/collectors/registry.py, `_watchdog`: what a look at the instances leaves of each.
use funding_radar.Base.{
  String, ◌≡◌, refl, Bool, true, false, Option, none, some, [], ◌∷◌, if◌then◌else◌, ◌==◌, ◌∙◌, ap,
  same_refl, by_text, arith, inl, inr, else_none, Bool-cases, Option-cases,
}
use funding_radar.Base.Dict.{
  Dict, IsDict, lookup, erase, contains, lookup-insert, lookup-erase, contains-lookup,
}
use funding_radar.Collectors.Registry.{
  Instance, CollectorRegistry, made, started, replaced, restart, is_crashed, watchdog,
}

module _ (Config : Type 0) where
  -- The instance that a restart puts in place of one.
  abbrev pub renewed :
      (String → Bool) → String → Option String → CollectorRegistry Config → Option (Instance Config)
  renewed fails name none r = none
  renewed fails name (some cls) r = some (started Config (fails name) (made Config cls r))

  -- What becomes of an instance under a name that the look began with, if any; else it stays as it is.
  abbrev pub looked :
      (String → Bool)
      → String
      → CollectorRegistry Config
      → Option (Instance Config)
      → Option (Instance Config)
      → Option (Instance Config)
  looked fails name r none now = now
  looked fails name r (some i) now =
      if is_crashed Config i then renewed fails name (lookup name r.registry) r else now

  replaced_instances :
      (fails : String → Bool) (n name : String) (o : Option String) (r : CollectorRegistry Config)
      → lookup name (replaced Config fails n o r).instances
        ≡ (if n == name then renewed fails n o r else lookup name r.instances)
  replaced_instances fails n name none r = lookup-erase n name r.instances
  replaced_instances fails n name (some cls) r = ground (
    arith,
    lookup-insert n name (started Config (fails n) (made Config cls r)) (erase n r.instances),
    lookup-erase n name r.instances,
  )

  restart_instances :
      (fails : String → Bool) (n name : String) (r : CollectorRegistry Config)
      → contains n r.instances ≡ true
      → lookup name (restart Config fails n r).instances
        ≡ (if n == name then renewed fails n (lookup n r.registry) r else lookup name r.instances)
  unfolding restart
  restart_instances fails n name r h =
      rw h (replaced_instances fails n name (lookup n r.registry) r)

  restart_other :
      (fails : String → Bool) (n name : String) (r : CollectorRegistry Config)
      → (n == name) ≡ false
      → lookup name (restart Config fails n r).instances ≡ lookup name r.instances
  unfolding restart
  restart_other fails n name r h = elim (Bool-cases (contains n r.instances)) [
    | inl q ↦
        let put = replaced_instances fails n name (lookup n r.registry) r in
        rw q (ground (arith, put))
    | inr q ↦ rw q refl
  ]

  looked-replaced :
      (fails : String → Bool) (n name : String) (cls : Option String) (r : CollectorRegistry Config)
      (o now : Option (Instance Config))
      → looked fails name (replaced Config fails n cls r) o now ≡ looked fails name r o now
  looked-replaced fails n name cls r none now = refl
  looked-replaced fails n name none r (some i) now = elim (Option-cases (lookup name r.registry)) [
    | inl e ↦ rw e refl
    | inr (c, e) ↦ rw e refl
  ]
  looked-replaced fails n name (some cls) r (some i) now =
      elim (Option-cases (lookup name r.registry)) [ inl e ↦ rw e refl | inr (c, e) ↦ rw e refl ]

  looked-restart :
      (fails : String → Bool) (n name : String) (r : CollectorRegistry Config)
      (o now : Option (Instance Config))
      → looked fails name (restart Config fails n r) o now ≡ looked fails name r o now
  unfolding restart
  looked-restart fails n name r o now = elim (Bool-cases (contains n r.instances)) [
    | inr q ↦ rw q refl
    | inl q ↦ rw q (looked-replaced fails n name (lookup n r.registry) r o now)
  ]

  -- A name that the rest of the look does not come to keeps what it has.
  watchdog_passes :
      (fails : String → Bool) (name : String) (rest : Dict String (Instance Config))
      (r : CollectorRegistry Config)
      → lookup name rest ≡ none
      → lookup name (watchdog Config fails rest r).instances ≡ lookup name r.instances
  unfolding watchdog lookup
  watchdog_passes fails name [] r a = refl
  watchdog_passes fails name ((n, i) ∷ rest) r a =
      let (q, a') = else_none i (n == name) (lookup name rest) a in
      elim (Bool-cases (is_crashed Config i)) [
        | inl c ↦
            rw (c, watchdog)
              (watchdog_passes fails name rest (restart Config fails n r) a'
                ∙ restart_other fails n name r q)
        | inr c ↦ rw (c, watchdog) (watchdog_passes fails name rest r a')
      ]

  watchdog_reaches :
      (fails : String → Bool) (name : String) (i : Instance Config)
      (rest : Dict String (Instance Config)) (r : CollectorRegistry Config)
      → lookup name rest ≡ none
      → contains name r.instances ≡ true
      → lookup name (watchdog Config fails ((name, i) ∷ rest) r).instances
        ≡ looked fails name r (some i) (lookup name r.instances)
  unfolding watchdog
  watchdog_reaches fails name i rest r a h = elim (Bool-cases (is_crashed Config i)) [
    | inl c ↦
        let put = restart_instances fails name name r h in
        let self = same_refl name in
        let put' : lookup name (restart Config fails name r).instances
            ≡ renewed fails name (lookup name r.registry) r =
          ground (arith, put, self) in
        rw (c, watchdog) (watchdog_passes fails name rest (restart Config fails name r) a ∙ put')
    | inr c ↦ rw (c, watchdog) (watchdog_passes fails name rest r a)
  ]

  contains_same :
      (name : String) (d d' : Dict String (Instance Config))
      → lookup name d' ≡ lookup name d
      → contains name d ≡ true
      → contains name d' ≡ true
  contains_same name d d' e h = ground (arith, e, contains-lookup name d, contains-lookup name d')

  watchdog_from :
      (fails : String → Bool) (name : String) (rest : Dict String (Instance Config))
      (r : CollectorRegistry Config)
      → IsDict rest
      → ((i : Instance Config) → lookup name rest ≡ some i → contains name r.instances ≡ true)
      → lookup name (watchdog Config fails rest r).instances
        ≡ looked fails name r (lookup name rest) (lookup name r.instances)
  unfolding lookup watchdog
  watchdog_from fails name [] r d h = watchdog_passes fails name [] r refl
  watchdog_from fails name ((n, i) ∷ rest) r d h = elim (Bool-cases (n == name)) [
    | inl q ↦
        let e : n ≡ name = (by_text.same_iff n name).0 q in
        let a : lookup name rest ≡ none = rw e at d.0 in
        let there : contains name r.instances ≡ true = h i (rw q refl) in
        rw (e, same_refl name) (watchdog_reaches fails name i rest r a there)
    | inr q ↦
        let present = λ (j : Instance Config) (k : lookup name rest ≡ some j). h j (rw q k) in
        elim (Bool-cases (is_crashed Config i)) [
          | inr c ↦ rw (c, q, watchdog) (watchdog_from fails name rest r d.1 present)
          | inl c ↦
              let other = restart_other fails n name r q in
              let now = λ (j : Instance Config) (k : lookup name rest ≡ some j).
                contains_same name r.instances (restart Config fails n r).instances other
                  (present j k) in
              rw (c, q, watchdog)
                (watchdog_from fails name rest (restart Config fails n r) d.1 now
                  ∙ looked-restart fails n name r (lookup name rest) _
                  ∙ ap (looked fails name r (lookup name rest)) other)
        ]
  ]

  contains-of_some :
      (name : String) (d : Dict String (Instance Config)) (i : Instance Config)
      → lookup name d ≡ some i
      → contains name d ≡ true
  contains-of_some name d i h = ground (arith, h, contains-lookup name d)

  -- After a look of the watchdog each crashed collector is replaced by a new one of its class
  -- with the class's configuration, started unless the start raises, or is taken out if its name
  -- is not registered, and every other collector is as it was.
  pub watchdog_lem :
      (fails : String → Bool) (name : String) (r : CollectorRegistry Config)
      → IsDict r.instances
      → lookup name (watchdog Config fails r.instances r).instances
        ≡ looked fails name r (lookup name r.instances) (lookup name r.instances)
  watchdog_lem fails name r d =
      watchdog_from fails name r.instances r d (λ i. contains-of_some name r.instances i)
