-- ===== src/Redis.antt =====
-- Redis as the code uses it: keys with an expiry. `SET k v EX ttl`, `GET k`, `DEL k`, and `SET k v EX ttl
-- NX`. A key is gone from the time it expires on.
use funding_radar.Base.{
  ℕ, ◌+◌, ◌≡◌, refl, Bool, true, false, Option, none, some, if◌then◌else◌, ltb, Comparable, ◌==◌,
  Bool-cases, inl, inr,
}
use funding_radar.Base.Dict.{Dict, lookup, insert, erase, lookup-insert, lookup-erase}

abbrev pub Keys {ℓ κ} : Type ℓ → Type κ → Type (ℓ ⊔ κ)
Keys K V = Dict K (V × ℕ)

abbrev unexpired {ℓ} : {V : Type ℓ} → ℕ → Option (V × ℕ) → Option V
unexpired now none = none
unexpired now (some (v, expiry)) = if ltb now expiry then some v else none

module _ {ℓ κ} {K : Type ℓ} {V : Type κ} ⦃e : Comparable K⦄ where
  unfoldable pub get : ℕ → K → Keys K V → Option V
  get now k d = unexpired now (lookup k d)

  unfoldable pub set_ex : ℕ → K → V → ℕ → Keys K V → Keys K V
  set_ex now k v ttl d = insert k (v, now + ttl) d

  unfoldable pub delete : K → Keys K V → Keys K V
  delete k d = erase k d

  -- `SET k v EX ttl NX`: whether the key was set.
  unfoldable pub set_nx : ℕ → K → V → ℕ → Keys K V → Keys K V × Bool
  set_nx now k v ttl d = elim (get now k d) [
    | none ↦ (set_ex now k v ttl d, true)
    | some _ ↦ (d, false)
  ]

  pub get-set_ex :
      (now then_at : ℕ) (k j : K) (v : V) (ttl : ℕ) (d : Keys K V)
      → get then_at j (set_ex now k v ttl d)
        ≡ (if k == j then (if ltb then_at (now + ttl) then some v else none) else get then_at j d)
  unfolding get set_ex
  get-set_ex now then_at k j v ttl d =
      rw lookup-insert (elim (Bool-cases (k == j)) [ inl q ↦ rw q refl | inr q ↦ rw q refl ])

  pub get-delete :
      (now : ℕ) (k j : K) (d : Keys K V)
      → get now j (delete k d) ≡ (if k == j then none else get now j d)
  unfolding get delete
  get-delete now k j d =
      rw lookup-erase (elim (Bool-cases (k == j)) [ inl q ↦ rw q refl | inr q ↦ rw q refl ])
