-- ===== src/Collectors/RateLimit/Pacing.antt =====
-- app/collectors/base.py: how many requests fall into one window.
use funding_radar.Base.{
  ℕ, ◌+◌, ◌-◌, ◌≤◌, ◌≡◌, Option, none, some, List, [], ◌∷◌, ◌++◌, arith, if◌then◌else◌, ltb, leb,
  length, All, Bool-cases, Option-cases, inl, inr, length-keep-le,
}
use mathlib.Core.Path.{subst}
use funding_radar.Collectors.RateLimit.{window, recent, wake, rate_limit}

-- The requests that are less than a window old at a time.
abbrev pub in_window : ℕ → List ℕ → ℕ
in_window now log = length (recent now log)

-- The latest request first: at none of them had the window more requests than the limit.
abbrev pub IsPaced : ℕ → List ℕ → Type 0
IsPaced limit [] = Unit
IsPaced limit (t ∷ older) = (in_window t (t ∷ older) ≤ limit) × IsPaced limit older

-- Calls one after the other, each with the time it enters and what it is late by; the requests made,
-- the latest first. A call that raises makes none.
unfoldable pub run : ℕ → List (ℕ × ℕ) → List ℕ → List ℕ → List ℕ
run limit [] times log = log
run limit ((now, delay) ∷ calls) times log =
    let stay = run limit calls times log in
    elim (rate_limit limit now delay times) [
      | none ↦ stay
      | some (times', t) ↦ run limit calls times' (t ∷ log)
    ]

in_window-later :
    (now then_at : ℕ) (xs : List ℕ) → now ≤ then_at → in_window then_at xs ≤ in_window now xs
in_window-later now then_at [] h = omega arith
in_window-later now then_at (x ∷ xs) h = ground (arith, in_window-later now then_at xs h)

in_window-recent :
    (now then_at : ℕ) (xs : List ℕ)
    → now ≤ then_at
    → in_window then_at xs ≤ in_window then_at (recent now xs)
in_window-recent now then_at [] h = omega arith
in_window-recent now then_at (x ∷ xs) h = ground (arith, in_window-recent now then_at xs h)

in_window-append :
    (now t : ℕ) (xs : List ℕ)
    → in_window now (xs ++ t ∷ []) ≡ in_window now xs + (if ltb (now - t) window then 1 else 0)
in_window-append now t [] = ground arith
in_window-append now t (x ∷ xs) = ground (arith, in_window-append now t xs)

-- What holds between the requests that were made and the times the collector keeps.
record IsKept (limit last : ℕ) (times log : List ℕ) : Type 0 where
  paced : IsPaced limit log
  covers : (now : ℕ) → last ≤ now → in_window now log ≤ in_window now times
  room : in_window last times ≤ limit
  past : All (λ t. t ≤ last) times

recent-past :
    (now last : ℕ) (xs : List ℕ)
    → last ≤ now
    → All (λ t. t ≤ last) xs
    → All (λ t. t ≤ now) (recent now xs)
recent-past now last [] h p = tt
recent-past now last (x ∷ xs) h p = ground (arith, recent-past now last xs h p.1)

past-append :
    (now t : ℕ) (xs : List ℕ) → now ≤ t → All (λ s. s ≤ now) xs → All (λ s. s ≤ t) (xs ++ t ∷ [])
past-append now t [] h p = (omega arith, tt)
past-append now t (x ∷ xs) h p = (omega arith, past-append now t xs h p.1)

-- When the sleep is over, the kept requests of the window leave room for one.
wake-room :
    (limit now woken t : ℕ) (kept : List ℕ)
    → wake limit now kept ≡ some woken
    → length kept ≤ limit
    → All (λ s. s ≤ now) kept
    → woken ≤ t
    → (now ≤ t) × (in_window t kept + 1 ≤ limit)
unfolding wake
wake-room limit now woken t [] h le p le' = elim (Bool-cases (leb limit 0)) [
  | inl q ↦ let h' : none ≡ some woken = rw q at h in cc
  | inr q ↦ let h' : some now ≡ some woken = rw q at h in ground arith
]
wake-room limit now woken t (x ∷ kept) h le p le' =
    let few = length-keep-le (λ s. ltb (t - s) window) kept in
    let few' = length-keep-le (λ s. ltb (t - s) window) (x ∷ kept) in
    elim (Bool-cases (leb limit (length (x ∷ kept)))) [
      | inl q ↦ ground (arith, p.0)
      | inr q ↦ ground arith
    ]

append-IsKept :
    (limit last now t : ℕ) (times log : List ℕ)
    → IsKept limit last times log
    → last ≤ now
    → now ≤ t
    → in_window t (recent now times) + 1 ≤ limit
    → IsKept limit t (recent now times ++ t ∷ []) (t ∷ log)
append-IsKept limit last now t times log k h h' free = record {
  paced = (
    let seen = k.covers t (omega arith) in
        let kept = in_window-recent now t times h' in ground arith,
    k.paced,
  );
  covers = λ w after.
      let seen = k.covers w (omega arith) in
      let kept = in_window-recent now w times (omega arith) in
      let grown = in_window-append w t (recent now times) in ground arith;
  room = let grown = in_window-append t t (recent now times) in ground arith;
  past = past-append now t (recent now times) h' (recent-past now last times h k.past);
}

rate_limit-IsKept :
    (limit last now delay : ℕ) (times log times' : List ℕ) (t : ℕ)
    → IsKept limit last times log
    → last ≤ now
    → rate_limit limit now delay times ≡ some (times', t)
    → (now ≤ t) × IsKept limit t times' (t ∷ log)
unfolding rate_limit
rate_limit-IsKept limit last now delay times log times' t k h q =
    elim (Option-cases (wake limit now (recent now times))) [
      | inl e ↦
          let q' : ◌≡◌ {A = Option (List ℕ × ℕ)} none (some (times', t)) =
            rw (e, rate_limit) at q in
          cc
      | inr (woken, e) ↦
          let q' : ◌≡◌ {A = Option (List ℕ × ℕ)}
              (some (recent now times ++ (woken + delay) ∷ [], woken + delay)) (some (times', t)) =
            rw (e, rate_limit) at q in
          let same : ◌≡◌ {A = List ℕ × ℕ} (recent now times ++ (woken + delay) ∷ [], woken + delay)
              (times', t) =
            cc in
          let few = in_window-later last now times h in
          let (le, free) =
            wake-room limit now woken (woken + delay) (recent now times) e
              (let r = k.room in omega arith) (recent-past now last times h k.past) (omega arith) in
          let step = append-IsKept limit last now (woken + delay) times log k h le free in
          subst (λ (x : List ℕ × ℕ). (now ≤ x.1) × IsKept limit x.1 x.0 (x.1 ∷ log)) same (le, step)
    ]

-- Each call enters when the one before has made its request, or later.
abbrev pub AreOneByOne : ℕ → ℕ → List (ℕ × ℕ) → List ℕ → Type 0
AreOneByOne limit last [] times = Unit
AreOneByOne limit last ((now, delay) ∷ calls) times =
    (last ≤ now) × (elim (rate_limit limit now delay times) [
      | none ↦ AreOneByOne limit last calls times
      | some (times', t) ↦ AreOneByOne limit t calls times'
    ])

run-IsPaced_from :
    (limit last : ℕ) (calls : List (ℕ × ℕ)) (times log : List ℕ)
    → IsKept limit last times log
    → AreOneByOne limit last calls times
    → IsPaced limit (run limit calls times log)
unfolding run
run-IsPaced_from limit last [] times log k h = k.paced
run-IsPaced_from limit last ((now, delay) ∷ calls) times log k h =
    elim (Option-cases (rate_limit limit now delay times)) [
      | inl q ↦
          rw (q, run) (run-IsPaced_from limit last calls times log k (rw (q, AreOneByOne) at h.1))
      | inr ((times', t), q) ↦
          let (le, k') = rate_limit-IsKept limit last now delay times log times' t k h.0 q in
          rw (q, run)
            (run-IsPaced_from limit t calls times' (t ∷ log) k' (rw (q, AreOneByOne) at h.1))
    ]

-- If the calls of a new collector run one after the other, at no request does the last minute hold more
-- requests than the limit, however late the calls wake.
pub run-IsPaced :
    (limit : ℕ) (calls : List (ℕ × ℕ))
    → AreOneByOne limit 0 calls []
    → IsPaced limit (run limit calls [] [])
run-IsPaced limit calls h =
    run-IsPaced_from limit 0 calls [] []
      (record { paced = tt; covers = λ now le. omega arith; room = omega arith; past = tt }) h
