-- ===== src/Collectors/Aster/Rising.antt =====
-- Lists of items whose times rise, as an exchange lists its settlements.
use funding_radar.Base.{
  ℕ, zero, suc, ◌+◌, ◌≤◌, ◌<◌, ◌≡◌, refl, ap, Bool, List, [], ◌∷◌, ◌⊎◌, inl, inr, length, take,
  keep, last, Among, arith, Bool-cases,
}

module _ {ℓ} {V : Type ℓ} where
  -- Times that rise, from a first one on.
  abbrev pub IsRising : ℕ → List (ℕ × V) → Type 0
  IsRising first [] = Unit
  IsRising first (s ∷ rest) = (first ≤ s.0) × IsRising (s.0 + 1) rest

  IsRising-le :
      (first later : ℕ) (xs : List (ℕ × V)) → first ≤ later → IsRising later xs → IsRising first xs
  IsRising-le first later [] h r = tt
  IsRising-le first later (x ∷ xs) h r = (omega arith, r.1)

  pub keep-IsRising :
      (p : ℕ × V → Bool) (first : ℕ) (xs : List (ℕ × V))
      → IsRising first xs
      → IsRising first (keep p xs)
  keep-IsRising p first [] r = tt
  keep-IsRising p first (x ∷ xs) r = elim (Bool-cases (p x)) [
    | inl q ↦ rw q (r.0, keep-IsRising p (x.0 + 1) xs r.1)
    | inr q ↦
        rw q
          (IsRising-le first (x.0 + 1) (keep p xs) (omega arith) (keep-IsRising p (x.0 + 1) xs r.1))
  ]

  pub take-IsRising :
      (n first : ℕ) (xs : List (ℕ × V)) → IsRising first xs → IsRising first (take n xs)
  take-IsRising zero first xs r = tt
  take-IsRising (suc n) first [] r = tt
  take-IsRising (suc n) first (x ∷ xs) r = (r.0, take-IsRising n (x.0 + 1) xs r.1)

  -- As many items rise at least by as much.
  pub IsRising-last :
      (first : ℕ) (x : ℕ × V) (xs : List (ℕ × V))
      → IsRising first (x ∷ xs)
      → first + length xs ≤ (last x xs).0
  IsRising-last first x [] r = omega arith
  IsRising-last first x (y ∷ ys) r = omega (arith, IsRising-last (x.0 + 1) y ys r.1)

module _ {V : Type 0} where
  IsRising-Among :
      (first : ℕ) (s : ℕ × V) (xs : List (ℕ × V)) → IsRising first xs → Among s xs → first ≤ s.0
  IsRising-Among first s [] r m = elim m [ ]
  IsRising-Among first s (x ∷ xs) r (inl e) = rw (← e) r.0
  IsRising-Among first s (x ∷ xs) r (inr m) =
      let later = IsRising-Among (x.0 + 1) s xs r.1 m in omega arith

  -- An item of a rising list is among the first ones, or comes after the last of those.
  pub Among-take :
      (n first : ℕ) (s x : ℕ × V) (xs : List (ℕ × V))
      → IsRising first (x ∷ xs)
      → Among s (x ∷ xs)
      → Among s (x ∷ take n xs) ⊎ ((length (take n xs) ≡ n) × ((last x (take n xs)).0 < s.0))
  Among-take n first s x xs r (inl e) = inl (inl e)
  Among-take zero first s x xs r (inr m) =
      let later = IsRising-Among (x.0 + 1) s xs r.1 m in inr (refl, omega arith)
  Among-take (suc n) first s x [] r (inr m) = elim m [ ]
  Among-take (suc n) first s x (y ∷ ys) r (inr m) = elim (Among-take n (x.0 + 1) s y ys r.1 m) [
    | inl k ↦ inl (inr k)
    | inr k ↦ inr (ap suc k.0, k.1)
  ]
