-- ===== src/Base/Sort.antt =====
-- Python's `sorted`: stable, here by insertion. `before x y` says that `x` may stand before `y`:
-- `key x <= key y`, or `key x >= key y` under `reverse=True`, which keeps equal items in order too.
use mathlib.Core.List.Perm
use funding_radar.Base.{
  suc, ◌≡◌, refl, Bool, true, false, List, [], ◌∷◌, Perm, arith, if◌then◌else◌, All, inl, inr,
  Bool-cases, length, ◌∙◌, ap, last, All-last,
}

module _ {ℓ} {A : Type ℓ} (before : A → A → Bool) where
  pub insert_sorted : A → List A → List A
  insert_sorted x [] = x ∷ []
  insert_sorted x (y ∷ ys) = if before x y then x ∷ y ∷ ys else y ∷ insert_sorted x ys

  unfoldable pub sort : List A → List A
  unfolding insert_sorted
  sort [] = []
  sort (x ∷ xs) = insert_sorted x (sort xs)

  insert_sorted-perm : (x : A) (ys : List A) → Perm (insert_sorted x ys) (x ∷ ys)
  unfolding insert_sorted
  insert_sorted-perm x [] = Perm.refl (x ∷ [])
  insert_sorted-perm x (y ∷ ys) = elim (Bool-cases (before x y)) [
    | inl h ↦ rw h (Perm.refl (x ∷ y ∷ ys))
    | inr h ↦ rw h (Perm.trans (Perm.cons y (insert_sorted-perm x ys)) (Perm.swap x y ys))
  ]

  -- The result holds the same items, as often.
  pub sort-perm : (xs : List A) → Perm (sort xs) xs
  unfolding sort
  sort-perm [] = Perm.refl []
  sort-perm (x ∷ xs) = Perm.trans (insert_sorted-perm x (sort xs)) (Perm.cons x (sort-perm xs))

  length-insert_sorted : (x : A) (ys : List A) → length (insert_sorted x ys) ≡ suc (length ys)
  unfolding insert_sorted
  length-insert_sorted x [] = refl
  length-insert_sorted x (y ∷ ys) = ground (arith, length-insert_sorted x ys)

  pub length-sort : (xs : List A) → length (sort xs) ≡ length xs
  unfolding sort
  length-sort [] = refl
  length-sort (x ∷ xs) = length-insert_sorted x (sort xs) ∙ ap suc (length-sort xs)

  insert_sorted-All {κ} :
      (P : A → Type κ) (x : A) (ys : List A) → P x → All P ys → All P (insert_sorted x ys)
  unfolding insert_sorted
  insert_sorted-All P x [] p h = (p, tt)
  insert_sorted-All P x (y ∷ ys) p h = elim (Bool-cases (before x y)) [
    | inl e ↦ rw e (p, h)
    | inr e ↦ rw e (h.0, insert_sorted-All P x ys p h.1)
  ]

  pub sort-All {κ} : (P : A → Type κ) (xs : List A) → All P xs → All P (sort xs)
  unfolding sort
  sort-All P [] h = tt
  sort-All P (x ∷ xs) h = insert_sorted-All P x (sort xs) h.0 (sort-All P xs h.1)

  insert_sorted-All_inv {κ} :
      (P : A → Type κ) (x : A) (ys : List A) → All P (insert_sorted x ys) → P x × All P ys
  unfolding insert_sorted
  insert_sorted-All_inv P x [] h = h
  insert_sorted-All_inv P x (y ∷ ys) h = elim (Bool-cases (before x y)) [
    | inl e ↦ rw (e, insert_sorted) at h
    | inr e ↦
        let h' : P y × All P (insert_sorted x ys) = rw (e, insert_sorted) at h in
        let (p, t) = insert_sorted-All_inv P x ys h'.1 in (p, (h'.0, t))
  ]

  pub All-of_sort {κ} : (P : A → Type κ) (xs : List A) → All P (sort xs) → All P xs
  unfolding sort
  All-of_sort P [] h = tt
  All-of_sort P (x ∷ xs) h =
      let (p, t) = insert_sorted-All_inv P x (sort xs) h in (p, All-of_sort P xs t)

  -- Each item may stand before every later one.
  abbrev pub IsSorted : List A → Type ℓ
  IsSorted [] = Unit
  IsSorted (x ∷ xs) = All (λ y. before x y ≡ true) xs × IsSorted xs

  module _ (total : (x y : A) → before x y ≡ false → before y x ≡ true)
      (trans : (x y z : A) → before x y ≡ true → before y z ≡ true → before x z ≡ true) where
    below :
        (x y : A) (zs : List A)
        → before x y ≡ true
        → All (λ z. before y z ≡ true) zs
        → All (λ z. before x z ≡ true) zs
    below x y [] h t = tt
    below x y (z ∷ zs) h (p, t) = (trans x y z h p, below x y zs h t)

    insert_sorted-IsSorted : (x : A) (ys : List A) → IsSorted ys → IsSorted (insert_sorted x ys)
    unfolding insert_sorted
    insert_sorted-IsSorted x [] s = (tt, tt)
    insert_sorted-IsSorted x (y ∷ ys) s = elim (Bool-cases (before x y)) [
      | inl e ↦ rw e ((e, below x y ys e s.0), s)
      | inr e ↦ rw e (
        insert_sorted-All (λ z. before y z ≡ true) x ys (total x y e) s.0,
        insert_sorted-IsSorted x ys s.1,
      )
    ]

    pub sort-IsSorted : (xs : List A) → IsSorted (sort xs)
    unfolding sort
    sort-IsSorted [] = tt
    sort-IsSorted (x ∷ xs) = insert_sorted-IsSorted x (sort xs) (sort-IsSorted xs)

  -- The last item of a sorted list may come after every item, if an item may come after itself.
  pub All-before-last :
      (before_refl : (x : A) → before x x ≡ true) (x : A) (xs : List A)
      → IsSorted (x ∷ xs)
      → All (λ y. before y (last x xs) ≡ true) (x ∷ xs)
  All-before-last before_refl x [] s = (before_refl x, tt)
  All-before-last before_refl x (y ∷ ys) s =
      (All-last (λ z. before x z ≡ true) y ys s.0.0 s.0.1, All-before-last before_refl y ys s.1)
