-- ===== src/Base/Dict.antt =====
-- A Python dict in insertion order, over keys with an equality test. A dict holds no key twice, so
-- that `del d[k]` may be read as taking out every entry at `k`.
use funding_radar.Base.{
  ◌≡◌, ◌≢◌, refl, Bool, true, false, Option, none, some, List, [], ◌∷◌, arith, if◌then◌else◌,
  Comparable, ◌==◌, same_refl, All, inl, inr, Bool-cases,
}

abbrev pub Dict {ℓ κ} : Type ℓ → Type κ → Type (ℓ ⊔ κ)
Dict K V = List (K × V)

module _ {ℓ κ} {K : Type ℓ} {V : Type κ} where
  -- `d.values()`, `d.keys()`
  abbrev pub values : Dict K V → List V
  values [] = []
  values ((j, v) ∷ d) = v ∷ values d

  abbrev pub keys : Dict K V → List K
  keys [] = []
  keys ((j, v) ∷ d) = j ∷ keys d

module _ {ℓ κ} {K : Type ℓ} {V : Type κ} ⦃e : Comparable K⦄ where
  -- `d.get(k)`
  unfoldable pub lookup : K → Dict K V → Option V
  lookup k [] = none
  lookup k ((j, v) ∷ d) = if j == k then some v else lookup k d

  -- `k in d`
  unfoldable pub contains : K → Dict K V → Bool
  contains k [] = false
  contains k ((j, v) ∷ d) = if j == k then true else contains k d

  -- `d[k] = v`: a key that is there keeps its place.
  unfoldable pub insert : K → V → Dict K V → Dict K V
  insert k v [] = (k, v) ∷ []
  insert k v ((j, w) ∷ d) = if j == k then (j, v) ∷ d else (j, w) ∷ insert k v d

  -- `del d[k]`, `d.pop(k, None)`
  unfoldable pub erase : K → Dict K V → Dict K V
  erase k [] = []
  erase k ((j, v) ∷ d) = if j == k then erase k d else (j, v) ∷ erase k d

  pub lookup-insert :
      (k j : K) (v : V) (d : Dict K V)
      → lookup j (insert k v d) ≡ (if k == j then some v else lookup j d)
  unfolding lookup insert
  lookup-insert k j v [] = refl
  lookup-insert k j v ((i, w) ∷ d) =
      ground (arith, e.same_iff k j, e.same_iff i k, e.same_iff i j, lookup-insert k j v d)

  pub lookup-erase :
      (k j : K) (d : Dict K V) → lookup j (erase k d) ≡ (if k == j then none else lookup j d)
  unfolding lookup erase
  lookup-erase k j [] = ground arith
  lookup-erase k j ((i, w) ∷ d) =
      ground (arith, e.same_iff k j, e.same_iff i k, e.same_iff i j, lookup-erase k j d)

  pub lookup-nil : (k : K) → ◌≡◌ {A = Option V} (lookup k []) none
  unfolding lookup
  lookup-nil k = refl

  pub insert-ne-nil : (k : K) (v : V) (d : Dict K V) → insert k v d ≢ []
  unfolding insert
  insert-ne-nil k v [] h = cc
  insert-ne-nil k v ((j, w) ∷ d) h = ground arith

  pub lookup-insert_self : (k : K) (v : V) (d : Dict K V) → lookup k (insert k v d) ≡ some v
  lookup-insert_self k v d = simp (lookup-insert, same_refl)

  pub lookup-erase_self : (k : K) (d : Dict K V) → lookup k (erase k d) ≡ none
  lookup-erase_self k d = simp (lookup-erase, same_refl)

  pub contains-lookup :
      (k : K) (d : Dict K V) → contains k d ≡ elim (lookup k d) [ none ↦ false | some _ ↦ true ]
  unfolding lookup contains
  contains-lookup k [] = refl
  contains-lookup k ((j, v) ∷ d) = ground (arith, contains-lookup k d)

  pub contains-some : (k : K) (d : Dict K V) → contains k d ≡ true → (v : V) × (lookup k d ≡ some v)
  unfolding lookup contains
  contains-some k [] h = cc
  contains-some k ((j, v) ∷ d) h = elim (Bool-cases (j == k)) [
    | inl q ↦ (v, rw q refl)
    | inr q ↦ let (w, f) = contains-some k d (rw q at h) in (w, rw q f)
  ]

  pub insert_new-keeps :
      (k j : K) (w : V) (d : Dict K V) {v : V}
      → contains k d ≡ false
      → lookup j d ≡ some v
      → lookup j (insert k w d) ≡ some v
  insert_new-keeps k j w d gone h =
      ground (arith, contains-lookup k d, e.same_iff k j, lookup-insert k j w d)

  -- No key twice.
  abbrev pub IsDict : Dict K V → Type κ
  IsDict [] = Unit
  IsDict ((j, v) ∷ d) = (lookup j d ≡ none) × IsDict d

  pub insert-IsDict : (k : K) (v : V) (d : Dict K V) → IsDict d → IsDict (insert k v d)
  unfolding insert lookup
  insert-IsDict k v [] h = (refl, tt)
  insert-IsDict k v ((j, w) ∷ d) h =
      ground (arith, insert-IsDict k v d h.1, lookup-insert k j v d, e.same_iff j k, e.same_iff k j)

  pub erase-IsDict : (k : K) (d : Dict K V) → IsDict d → IsDict (erase k d)
  unfolding erase lookup
  erase-IsDict k [] h = tt
  erase-IsDict k ((j, w) ∷ d) h =
      ground (arith, erase-IsDict k d h.1, lookup-erase k j d, e.same_iff j k, e.same_iff k j)

  -- What every value satisfies, so does a value that is found.
  pub All-lookup {μ} :
      (P : V → Type μ) (k : K) (d : Dict K V) {v : V} → All P (values d) → lookup k d ≡ some v → P v
  unfolding lookup
  All-lookup P k [] h f = cc
  All-lookup P k ((j, w) ∷ d) {v} h f = elim (Bool-cases (j == k)) [
    | inl q ↦ let f' : some w ≡ some v = rw q at f in let w' : w ≡ v = cc in rw w' at h.0
    | inr q ↦ All-lookup P k d h.1 (rw q at f)
  ]

  pub All-insert {μ} :
      (P : V → Type μ) (k : K) (v : V) (d : Dict K V)
      → P v
      → All P (values d)
      → All P (values (insert k v d))
  unfolding insert
  All-insert P k v [] p h = (p, tt)
  All-insert P k v ((j, w) ∷ d) p h = elim (Bool-cases (j == k)) [
    | inl q ↦ rw q (p, h.1)
    | inr q ↦ rw q (h.0, All-insert P k v d p h.1)
  ]

  pub All-erase {μ} :
      (P : V → Type μ) (k : K) (d : Dict K V) → All P (values d) → All P (values (erase k d))
  unfolding erase
  All-erase P k [] h = tt
  All-erase P k ((j, w) ∷ d) h = elim (Bool-cases (j == k)) [
    | inl q ↦ rw q (All-erase P k d h.1)
    | inr q ↦ rw q (h.0, All-erase P k d h.1)
  ]

-- A Python set, as the list of its members without repetition. Python may go through a set in another
-- order.
module _ {ℓ} {K : Type ℓ} ⦃e : Comparable K⦄ where
  -- `k in s`
  unfoldable pub is_in : K → List K → Bool
  is_in k [] = false
  is_in k (j ∷ s) = if j == k then true else is_in k s

  -- `s.add(k)`
  unfoldable pub adjoin : K → List K → List K
  adjoin k s = if is_in k s then s else k ∷ s
