-- ===== src/Base/Tests.antt =====
-- Boolean tests on the native numbers, the conditional, and equality tests as instances.
use Prim.Native.Nat.{ℕ, ◌≤◌, ◌<◌, compare, Ordering}
use Prim.Native.String.{String}
use mathlib.Core.Path.{◌≡◌, refl}
use mathlib.Core.Logic.{◌↔◌, ◌⊎◌, inl, inr}
use mathlib.Core.Bool.{Bool, true, false, ◌&&◌}
use mathlib.Core.Option.{Option, none, some}
use mathlib.Core.List.{List, [], ◌∷◌}
use native.Mathlib.Omega.{arith}
use text.Mathlib.Text.{◌==◌ as str_eq}
use text.Mathlib.TextEquality.{eq_iff}

abbrev pub ltb : ℕ → ℕ → Bool
ltb a b = elim (compare a b) [ Ordering.lt ↦ true | _ ↦ false ]

abbrev pub leb : ℕ → ℕ → Bool
leb a b = elim (compare a b) [ Ordering.gt ↦ false | _ ↦ true ]

abbrev pub nat_beq : ℕ → ℕ → Bool
nat_beq a b = elim (compare a b) [ Ordering.eq ↦ true | _ ↦ false ]

infix 1 if◌then◌else◌
abbrev pub if◌then◌else◌ {ℓ} : {A : Type ℓ} → Bool → A → A → A
if true then x else y = x
if false then x else y = y

pub ltb→lt : (a b : ℕ) → ltb a b ≡ true → a < b
ltb→lt a b h = ground arith

pub lt→ltb : (a b : ℕ) → a < b → ltb a b ≡ true
lt→ltb a b h = ground arith

pub leb→le : (a b : ℕ) → leb a b ≡ true → a ≤ b
leb→le a b h = ground arith

pub nat_beq_iff : (a b : ℕ) → (nat_beq a b ≡ true) ↔ (a ≡ b)
nat_beq_iff a b = ground arith

pub ruleset tests = (arith, ltb→lt, lt→ltb, leb→le)

-- To split on a computed value and keep the equation.
pub Bool-cases : (b : Bool) → (b ≡ true) ⊎ (b ≡ false)
Bool-cases true = inl refl
Bool-cases false = inr refl

pub Option-cases {ℓ} : {A : Type ℓ} (o : Option A) → (o ≡ none) ⊎ ((a : A) × (o ≡ some a))
Option-cases none = inl refl
Option-cases (some a) = inr (a, refl)

-- A guard that returns nothing did not fire, if something came back.
pub else_some {ℓ} :
    {A : Type ℓ} (b : Bool) (o : Option A) {a : A}
    → (if b then none else o) ≡ some a
    → (b ≡ false) × (o ≡ some a)
else_some true o h = cc
else_some false o h = (refl, h)

pub else_none {ℓ} :
    {A : Type ℓ} (a : A) (b : Bool) (o : Option A)
    → (if b then some a else o) ≡ none
    → (b ≡ false) × (o ≡ none)
else_none a true o h = cc
else_none a false o h = (refl, h)

pub List-cases {ℓ} :
    {A : Type ℓ} (xs : List A) → (xs ≡ []) ⊎ ((x : A) × (rest : List A) × (xs ≡ x ∷ rest))
List-cases [] = inl refl
List-cases (x ∷ rest) = inr (x, rest, refl)

-- The types whose values the program looks up or compares with `==`: texts, pairs of such, numbers.
pub record Comparable {ℓ} (T : Type ℓ) : Type ℓ where
  pub same : T → T → Bool
  pub same_iff : (x y : T) → (same x y ≡ true) ↔ (x ≡ y)

module _ {ℓ} {T : Type ℓ} ⦃c : Comparable T⦄ where
  infix 50 ◌==◌
  abbrev pub ◌==◌ : T → T → Bool
  x == y = c.same x y

  pub same_refl : (x : T) → (x == x) ≡ true
  same_refl x = (c.same_iff x x).1 refl

instance abbrev pub by_text : Comparable String
by_text = record { same = str_eq; same_iff = eq_iff }

module _ {ℓ κ} {S : Type ℓ} {T : Type κ} ⦃s : Comparable S⦄ ⦃t : Comparable T⦄ where
  abbrev pub pair_same : S × T → S × T → Bool
  pair_same (x, y) (x', y') = s.same x x' && t.same y y'

  pub pair_same_iff : (p q : S × T) → (pair_same p q ≡ true) ↔ (p ≡ q)
  pair_same_iff (x, y) (x', y') =
      let first = s.same_iff x x' in
      let rest = t.same_iff y y' in (ground (arith, first, rest), ground (arith, first, rest))

  instance abbrev pub by_parts : Comparable (S × T)
  by_parts = record { same = pair_same; same_iff = pair_same_iff }

instance abbrev pub by_value : Comparable ℕ
by_value = record { same = nat_beq; same_iff = nat_beq_iff }
