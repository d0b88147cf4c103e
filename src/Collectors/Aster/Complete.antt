-- ===== src/Collectors/Aster/Complete.antt =====
-- app/collectors/aster.py, `_fetch_history_range`: no settlement of the range is lost between the pages
-- of an exchange that answers with the first thousand settlements of the time asked for, in order.
use funding_radar.Base.{
  ℕ, zero, suc, ◌+◌, ◌-◌, ◌≤◌, ◌<◌, min, ◌≡◌, refl, String, Bool, true, false, Option, none, some,
  List, [], ◌∷◌, ◌++◌, map, ◌&&◌, ◌⊎◌, inl, inr, ok, raise, value_error, type_error, skip_bad, ltb,
  leb, All, keep_holds, ◌==◌, by_value, length, take, keep, last, Among, Among-append_left,
  Among-append_right, Among-keep, length-map, arith, Bool-cases, List-cases, Option-cases,
}
use funding_radar.Base.Float.{Floats, num}
use funding_radar.Collectors.Contract.{NormalizedFundingData}
use funding_radar.Collectors.Fields.{
  Cell, absent, nested, text, whole, number, or_else, int_or_zero, int, float,
}
use funding_radar.Collectors.Figures.{compute_funding_apr}
use funding_radar.Collectors.History.{Settlement, Market, historical, Among-push}
use funding_radar.Collectors.Aster.Rising.{
  IsRising, keep-IsRising, take-IsRising, IsRising-last, Among-take,
}
use funding_radar.Collectors.Aster.Range.{
  page_size, Fetch, history_record, yielded, next_start, page, pages, page_moves, pages_total,
  symbol_history,
}

module _ (F : Floats) where
  open F use {Num}

  -- A settlement at a time, which is a JSON integer, with its rate as the exchange sends it, a text or not.
  abbrev pub settlement : ℕ × Cell F → Settlement F
  settlement s = record { rate = s.1; time = whole s.0 }

  abbrev pub asked : ℕ → ℕ → ℕ × Cell F → Bool
  asked a b s = leb a s.0 && leb s.0 b

  abbrev pub serve : (String → List (ℕ × Cell F)) → Fetch F
  serve table symbol a b = some (map settlement (take page_size (keep (asked a b) (table symbol))))

  last-map :
      (s : ℕ × Cell F) (xs : List (ℕ × Cell F))
      → last (settlement s) (map settlement xs) ≡ settlement (last s xs)
  last-map s [] = refl
  last-map s (x ∷ xs) = last-map x xs

  time_of : (s : ℕ × Cell F) → int_or_zero F (settlement s).time ≡ ok s.0
  unfolding int
  time_of s = ground arith

  -- What becomes of a rate: a number, or an error that the loop passes over.
  float-cases :
      (c : Cell F)
      → ((x : Num) × (float F c ≡ ok x))
        ⊎ ((float F c ≡ raise value_error) ⊎ (float F c ≡ raise type_error))
  unfolding float
  float-cases absent = inr (inr refl)
  float-cases nested = inr (inr refl)
  float-cases (text s) = elim (Option-cases (F.of_text s)) [
    | inl e ↦ inr (inl (rw e refl))
    | inr (x, e) ↦ inl (x, rw e refl)
  ]
  float-cases (whole n) = inl (num F n, refl)
  float-cases (number x) = inl (x, refl)

  history_record_fine :
      (m : Market F) (s : ℕ × Cell F)
      → (m.interval_hours == 0) ≡ false
      → (o : Option (NormalizedFundingData F)) × (skip_bad (history_record F m (settlement s))
          ≡ ok o)
  unfolding history_record compute_funding_apr
  history_record_fine m s h = elim (float-cases (or_else F s.1 (whole 0))) [
    | inr (inl e) ↦ (none, rw e refl)
    | inr (inr e) ↦ (none, rw e refl)
    | inl (x, e) ↦ elim (Bool-cases (s.0 == 0)) [
      | inl z ↦ (none, rw (e, time_of s, z) refl)
      | inr z ↦
          let periods = F.mul (F.quot (num F 24) (num F m.interval_hours)) (num F 365) in
          let apr = F.mul (F.mul x periods) (num F 100) in
          (some (historical F m x x apr s.0), rw (e, time_of s, z, h) refl)
    ]
  ]

  yielded_whole :
      (m : Market F) (xs : List (ℕ × Cell F))
      → (m.interval_hours == 0) ≡ false
      → (yielded F m (map settlement xs)).1 ≡ true
  unfolding yielded
  yielded_whole m [] h = refl
  yielded_whole m (x ∷ xs) h =
      let (o, e) = history_record_fine m x h in rw (e, yielded_whole m xs h, yielded) refl

  Among-yielded :
      (m : Market F) (s : ℕ × Cell F) (xs : List (ℕ × Cell F)) {d : NormalizedFundingData F}
      → (m.interval_hours == 0) ≡ false
      → Among s xs
      → history_record F m (settlement s) ≡ ok (some d)
      → Among d (yielded F m (map settlement xs)).0
  unfolding yielded
  Among-yielded m s [] h a e = elim a [ ]
  Among-yielded m s (x ∷ xs) h (inl a) e = rw (a, e, yielded) (inl refl)
  Among-yielded m s (x ∷ xs) h (inr a) e =
      let (o, q) = history_record_fine m x h in
      rw (q, yielded)
        (Among-push _ o (yielded F m (map settlement xs)).0 (Among-yielded m s xs h a e))

  next_start_full :
      (count start t : ℕ)
      → page_size ≤ count
      → start < t
      → next_start F count start (ok t) ≡ some (t + 1)
  next_start_full count start t h k = ground arith

  page_yields :
      (m : Market F) (start : ℕ) (x : ℕ × Cell F) (xs : List (ℕ × Cell F))
      → (page F m start (some (map settlement (x ∷ xs)))).0
        ≡ (yielded F m (map settlement (x ∷ xs))).0
  unfolding page
  page_yields m start x xs = refl

  -- What a page of settlements leads to.
  page_of :
      (m : Market F) (start : ℕ) (x : ℕ × Cell F) (xs : List (ℕ × Cell F))
      → (m.interval_hours == 0) ≡ false
      → (page F m start (some (map settlement (x ∷ xs)))).1
        ≡ next_start F (length (x ∷ xs)) start (ok (last x xs).0)
  unfolding page
  page_of m start x xs h =
      rw (yielded_whole m (x ∷ xs) h)
        (rw (last-map x xs, length-map settlement xs, time_of (last x xs)) refl)

  -- What a page yields stays, and so does what the pages after it yield.
  pages_keep_page :
      (fetch : Fetch F) (m : Market F) (fuel start limit : ℕ) {d : NormalizedFundingData F}
      → start < limit
      → limit - start < suc fuel
      → Among d (page F m start (fetch m.symbol start limit)).0
      → (ds : List (NormalizedFundingData F)) × (pages F fetch m (suc fuel) start limit ≡ some ds)
        × Among d ds
  unfolding pages
  pages_keep_page fetch m fuel start limit h f a =
      let (ds, next) = page F m start (fetch m.symbol start limit) in
      let on : ltb start limit ≡ true = ground arith in
      elim (Option-cases next) [
        | inl n ↦ (ds, rw (pages, on, n) refl, a)
        | inr (later, n) ↦
            let further = page_moves F m start _ n in
            let (more, e) = pages_total F fetch m fuel later limit (ground arith) in
            (ds ++ more, rw (pages, on, n, e) refl, Among-append_left _ ds more a)
      ]

  pages_keep_more :
      (fetch : Fetch F) (m : Market F) (fuel start limit later : ℕ) {d : NormalizedFundingData F}
      {more : List (NormalizedFundingData F)}
      → start < limit
      → (page F m start (fetch m.symbol start limit)).1 ≡ some later
      → pages F fetch m fuel later limit ≡ some more
      → Among d more
      → (ds : List (NormalizedFundingData F)) × (pages F fetch m (suc fuel) start limit ≡ some ds)
        × Among d ds
  unfolding pages
  pages_keep_more fetch m fuel start limit later {d} {more} h n e a =
      let ds = (page F m start (fetch m.symbol start limit)).0 in
      let on : ltb start limit ≡ true = ground arith in
      (ds ++ more, rw (pages, on, n, e) refl, Among-append_right _ ds more a)

  pages_complete :
      (table : String → List (ℕ × Cell F)) (m : Market F) (s : ℕ × Cell F)
      (first fuel start limit : ℕ) {d : NormalizedFundingData F}
      → (m.interval_hours == 0) ≡ false
      → IsRising first (table m.symbol)
      → Among s (table m.symbol)
      → history_record F m (settlement s) ≡ ok (some d)
      → start ≤ s.0
      → s.0 < limit
      → limit - start < fuel
      → (ds : List (NormalizedFundingData F)) × (pages F (serve table) m fuel start limit ≡ some ds)
        × Among d ds
  pages_complete table m s first zero start limit h r a e b c f = elim f [ ]
  pages_complete table m s first (suc fuel) start limit h r a e b c f =
      let xs = keep (asked start limit) (table m.symbol) in
      let found : Among s xs = Among-keep (asked start limit) s (table m.symbol) a (ground arith) in
      elim (List-cases xs) [
        | inl q ↦ absurd (let found' : Among s [] = rw q at found in found')
        | inr (x, rest, q) ↦
            let ys = take 999 rest in
            let answer : serve table m.symbol start limit ≡ some (map settlement (x ∷ ys)) =
              rw q refl in
            let kept_rising : IsRising first (keep (asked start limit) (table m.symbol)) =
              keep-IsRising (asked start limit) first (table m.symbol) r in
            let rising : IsRising first (x ∷ rest) = rw q at kept_rising in
            let all_kept : All (λ y. asked start limit y ≡ true)
                (keep (asked start limit) (table m.symbol)) =
              keep_holds (asked start limit) (table m.symbol) in
            let kept : All (λ y. asked start limit y ≡ true) (x ∷ rest) = rw q at all_kept in
            let after : start ≤ x.0 = ground (arith, kept.0) in
            elim (Among-take 999 start s x rest (after, rising.1) (rw q at found)) [
              | inl k ↦
                  pages_keep_page (serve table) m fuel start limit (omega arith) f
                    (rw (answer, page_yields m start x ys) (Among-yielded m s (x ∷ ys) h k e))
              | inr k ↦
                  let high =
                    IsRising-last start x ys (after, take-IsRising 999 (x.0 + 1) rest rising.1) in
                  let later = (last x ys).0 + 1 in
                  let next : (page F m start (serve table m.symbol start limit)).1 ≡ some later =
                    rw (answer, page_of m start x ys h)
                      (next_start_full (length (x ∷ ys)) start (last x ys).0 (omega arith)
                        (omega arith)) in
                  let (more, p, found_later) =
                    pages_complete table m s first fuel later limit h r a e (omega arith) c
                      (omega arith) in
                  pages_keep_more (serve table) m fuel start limit later (omega arith) next p
                    found_later
            ]
      ]

  -- If Aster answers each request with the first thousand settlements of a symbol in the time
  -- asked for, in order of time, each time as a JSON integer and each rate as any value, then the
  -- backfill of a range ends, and a settlement in the range, before its end and before now, that gives a
  -- record is among what it yields, provided that the symbol's interval is not 0 hours.
  pub symbol_history_lem :
      (table : String → List (ℕ × Cell F)) (m : Market F) (s : ℕ × Cell F)
      (start_ms end_ms now_ms : ℕ) {d : NormalizedFundingData F}
      → (m.interval_hours == 0) ≡ false
      → IsRising 0 (table m.symbol)
      → Among s (table m.symbol)
      → history_record F m (settlement s) ≡ ok (some d)
      → start_ms ≤ s.0
      → s.0 < min end_ms now_ms
      → (ds : List (NormalizedFundingData F)) × (symbol_history F
            (serve table)
            m
            start_ms
            end_ms
            now_ms
          ≡ some ds)
        × Among d ds
  unfolding symbol_history
  symbol_history_lem table m s start_ms end_ms now_ms h r a e b c =
      pages_complete table m s 0 (min end_ms now_ms - start_ms + 1) start_ms (min end_ms now_ms) h r
        a e b c (omega arith)
