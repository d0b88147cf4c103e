-- ===== src/Base/Float.antt =====
-- Python's floats, which antt has not: the type, its operations and its order are parameters of
-- the model. Only facts that hold of finite doubles are assumed: comparison is a total preorder
-- (no NaN; 0.0 and -0.0 compare equal and differ), and rounding is monotone, so that subtraction
-- respects the order. Addition is not assumed associative, nor division exact.
use funding_radar.Base.{
  ℕ, String, Option, ◌≡◌, Bool, true, false, not, arith, if◌then◌else◌, Result, ok, raise,
  zero_division, ◌&&◌, Bool-cases, inl, inr,
}
use mathlib.Core.Option.{map as map_option}
use funding_radar.Base.Text.{int}
use funding_radar.Base.Int.{ℤ, pos, pos_part, ◌+ℤ◌, ◌-ℤ◌, ◌*ℤ◌, ◌/ℤ◌, leb_ℤ}

pub record Floats : Type 1 where
  pub Num : Type 0
  pub of_int : ℤ → Num
  pub add : Num → Num → Num
  pub sub : Num → Num → Num
  pub mul : Num → Num → Num
  -- the quotient by a divisor that is not zero
  pub quot : Num → Num → Num
  -- `a <= b`
  pub le : Num → Num → Bool
  -- `round(x, n)`
  pub round : Num → ℕ → Num
  -- `float(s)` of a text, where it does not raise ValueError
  pub of_text : String → Option Num
  -- `int(x)` of a float that is not negative
  pub trunc : Num → ℕ

module _ (F : Floats) where
  open F use {Num, of_int, sub, quot, le}

  -- `a < b`
  abbrev pub lt : Num → Num → Bool
  lt a b = not (le b a)

  abbrev pub num : ℕ → Num
  num n = of_int (pos n)

  -- `x == 0`
  abbrev pub is_zero : Num → Bool
  is_zero x = le x (num 0) && le (num 0) x

  -- `a / b`
  unfoldable pub divide : Num → Num → Result Num
  divide a b = if is_zero b then raise zero_division else ok (quot a b)

  -- `abs(x)`, up to the sign of a zero
  unfoldable pub abs : Num → Num
  abs x = if le (num 0) x then x else sub (num 0) x

  pub record IsOrdered : Type 0 where
    pub le_total : (a b : Num) → le a b ≡ false → le b a ≡ true
    pub le_trans : (a b c : Num) → le a b ≡ true → le b c ≡ true → le a c ≡ true
    pub sub_mono : (a b c : Num) → le a b ≡ true → le (sub a c) (sub b c) ≡ true
    pub sub_anti : (a b c : Num) → le a b ≡ true → le (sub c b) (sub c a) ≡ true
    -- x - x is 0.0
    pub sub_self : (a : Num) → le (num 0) (sub a a) ≡ true
    pub round_mono : (a b : Num) (n : ℕ) → le a b ≡ true → le (F.round a n) (F.round b n) ≡ true

module _ (F : Floats) (o : IsOrdered F) where
  open F use {Num, sub, le}

  pub le_refl : (a : Num) → le a a ≡ true
  le_refl a = elim (Bool-cases (le a a)) [ inl h ↦ h | inr h ↦ o.le_total a a h ]

  pub sub_nonneg : (a b : Num) → le b a ≡ true → le (num F 0) (sub a b) ≡ true
  sub_nonneg a b h = o.le_trans _ (sub b b) _ (o.sub_self b) (o.sub_mono b a b h)

  pub lt→le : (a b : Num) → lt F a b ≡ true → le a b ≡ true
  lt→le a b h = o.le_total b a (ground arith)

  -- A difference grows with what is reduced and falls with what is taken off.
  pub sub-le-sub : (a b c d : Num) → le a b ≡ true → le d c ≡ true → le (sub a c) (sub b d) ≡ true
  sub-le-sub a b c d h k = o.le_trans _ (sub b c) _ (o.sub_mono a b c h) (o.sub_anti d c b k)

-- Integers meet the assumptions; the tests run on them.
abbrev pub integers : Floats
integers = record {
  Num = ℤ;
  of_int = λ n. n;
  add = ◌+ℤ◌;
  sub = ◌-ℤ◌;
  mul = ◌*ℤ◌;
  quot = ◌/ℤ◌;
  le = leb_ℤ;
  round = λ x n. x;
  of_text = λ s. map_option pos (int s);
  trunc = pos_part;
}

pub integers-IsOrdered : IsOrdered integers
unfolding ◌-ℤ◌
integers-IsOrdered = record {
  le_total = λ a b h. ground arith;
  le_trans = λ a b c h k. ground arith;
  sub_mono = λ a b c h. ground arith;
  sub_anti = λ a b c h. ground arith;
  sub_self = λ a. ground arith;
  round_mono = λ a b n h. h;
}
