-- ===== src/Base/Lists.antt =====
-- Lists measured by native numbers, under the library's names, and predicates over lists.
use Prim.Native.Nat.{ℕ, zero, suc, ◌+◌, ◌≤◌}
use mathlib.Core.Path.{◌≡◌, refl, ap}
use mathlib.Core.Bool.{Bool, true}
use mathlib.Core.List.{List, [], ◌∷◌, ◌++◌, map, Mem, mem-cons_self, mem-cons_of_mem}
use mathlib.Core.Option.{Option, none, some}
use native.Mathlib.Omega.{arith}
use mathlib.Core.Logic.{◌⊎◌, inl, inr}
use funding_radar.Base.Tests.{if◌then◌else◌, Bool-cases}

module _ {ℓ} {A : Type ℓ} where
  abbrev pub length : List A → ℕ
  length [] = 0
  length (x ∷ xs) = suc (length xs)

  abbrev pub take : ℕ → List A → List A
  take zero xs = []
  take (suc n) [] = []
  take (suc n) (x ∷ xs) = x ∷ take n xs

  -- `xs[n:]`
  abbrev pub drop : ℕ → List A → List A
  drop zero xs = xs
  drop (suc n) [] = []
  drop (suc n) (x ∷ xs) = drop n xs

  -- `[x for x in xs if p(x)]`; the library's `filter` takes a decision into `Dec`.
  abbrev pub keep : (A → Bool) → List A → List A
  keep p [] = []
  keep p (x ∷ xs) = if p x then x ∷ keep p xs else keep p xs

  abbrev pub last : A → List A → A
  last x [] = x
  last x (y ∷ ys) = last y ys

  abbrev pub get_or : Option A → A → A
  get_or none d = d
  get_or (some a) d = a

  abbrev pub All {κ} : (A → Type κ) → List A → Type κ
  All P [] = Unit
  All P (x ∷ xs) = P x × All P xs

  pub length-append : (xs ys : List A) → length (xs ++ ys) ≡ length xs + length ys
  length-append [] ys = omega arith
  length-append (x ∷ xs) ys = omega (arith, length-append xs ys)

  pub length-keep-le : (p : A → Bool) (xs : List A) → length (keep p xs) ≤ length xs
  length-keep-le p [] = omega arith
  length-keep-le p (x ∷ xs) = ground (arith, length-keep-le p xs)

  pub keep_holds : (p : A → Bool) (xs : List A) → All (λ x. p x ≡ true) (keep p xs)
  keep_holds p [] = tt
  keep_holds p (x ∷ xs) = elim (Bool-cases (p x)) [
    | inl h ↦ rw h (h, keep_holds p xs)
    | inr h ↦ rw h (keep_holds p xs)
  ]

  module _ {κ} (P : A → Type κ) where
    pub All-last : (x : A) (xs : List A) → P x → All P xs → P (last x xs)
    All-last x [] h t = h
    All-last x (y ∷ ys) h (p, t) = All-last y ys p t

    pub All-keep : (p : A → Bool) (xs : List A) → All P xs → All P (keep p xs)
    All-keep p [] h = tt
    All-keep p (x ∷ xs) (h, t) = elim (Bool-cases (p x)) [
      | inl e ↦ rw e (h, All-keep p xs t)
      | inr e ↦ rw e (All-keep p xs t)
    ]

    pub All-intro : ((x : A) → P x) → (xs : List A) → All P xs
    All-intro f [] = tt
    All-intro f (x ∷ xs) = (f x, All-intro f xs)

    pub All-append : (xs ys : List A) → All P xs → All P ys → All P (xs ++ ys)
    All-append [] ys h k = k
    All-append (x ∷ xs) ys h k = (h.0, All-append xs ys h.1 k)

    pub All-imp {μ} : (Q : A → Type μ) → ((x : A) → P x → Q x) → (xs : List A) → All P xs → All Q xs
    All-imp Q f [] h = tt
    All-imp Q f (x ∷ xs) (h, t) = (f x h, All-imp Q f xs t)

module _ {ℓ κ} {A : Type ℓ} {B : Type κ} where
  pub length-map : (f : A → B) (xs : List A) → length (map f xs) ≡ length xs
  length-map f [] = refl
  length-map f (x ∷ xs) = ap suc (length-map f xs)

  pub All-map {μ} :
      (P : B → Type μ) (f : A → B) (xs : List A) → All (λ x. P (f x)) xs → All P (map f xs)
  All-map P f [] h = tt
  All-map P f (x ∷ xs) (h, t) = (h, All-map P f xs t)

module _ {ℓ} {A : Type ℓ} where
  -- Every item of a list is a member of it.
  pub All-Mem : (xs : List A) → All (λ x. Mem x xs) xs
  All-Mem [] = tt
  All-Mem (x ∷ xs) =
      (mem-cons_self, All-imp (λ y. Mem y xs) _ (λ y m. mem-cons_of_mem x m) xs (All-Mem xs))

module _ {A : Type 0} where
  -- `x in xs`
  abbrev pub Among : A → List A → Type 0
  Among x [] = ⊥
  Among x (y ∷ ys) = (y ≡ x) ⊎ Among x ys

  pub Among-append_left : (x : A) (xs ys : List A) → Among x xs → Among x (xs ++ ys)
  Among-append_left x [] ys h = elim h [ ]
  Among-append_left x (y ∷ xs) ys (inl h) = inl h
  Among-append_left x (y ∷ xs) ys (inr h) = inr (Among-append_left x xs ys h)

  pub Among-append_right : (x : A) (xs ys : List A) → Among x ys → Among x (xs ++ ys)
  Among-append_right x [] ys h = h
  Among-append_right x (y ∷ xs) ys h = inr (Among-append_right x xs ys h)

  pub Among-of_append : (x : A) (xs ys : List A) → Among x (xs ++ ys) → Among x xs ⊎ Among x ys
  Among-of_append x [] ys h = inr h
  Among-of_append x (y ∷ xs) ys (inl h) = inl (inl h)
  Among-of_append x (y ∷ xs) ys (inr h) = elim (Among-of_append x xs ys h) [
    | inl k ↦ inl (inr k)
    | inr k ↦ inr k
  ]

  pub Among-keep :
      (p : A → Bool) (x : A) (xs : List A) → Among x xs → p x ≡ true → Among x (keep p xs)
  Among-keep p x [] h k = h
  Among-keep p x (y ∷ ys) (inl e) k = let k' : p y ≡ true = rw e k in rw k' (inl e)
  Among-keep p x (y ∷ ys) (inr h) k = elim (Bool-cases (p y)) [
    | inl q ↦ rw q (inr (Among-keep p x ys h k))
    | inr q ↦ rw q (Among-keep p x ys h k)
  ]
