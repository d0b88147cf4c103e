-- ===== src/Collectors/Fields.antt =====
-- What the exchanges answer, as far as the collectors of app/collectors read it: one field of a JSON
-- object, and Python's `or`, `float` and `int` on it. The times that an exchange sends are not negative.
use funding_radar.Base.{
  ℕ, String, Bool, true, false, not, Option, none, some, Result, ok, raise, value_error, type_error,
  if◌then◌else◌, ◌==◌, by_text, by_value,
}
use funding_radar.Base.Text.{int as int_of_text}
use funding_radar.Base.Float.{Floats, num, is_zero}

abbrev pub or_value_error {ℓ} : {A : Type ℓ} → Option A → Result A
or_value_error none = raise value_error
or_value_error (some a) = ok a

module _ (F : Floats) where
  open F use {Num, of_text, trunc}

  -- `absent` is a field that is not there or null, `whole` a JSON integer, `number` a JSON number with
  -- a fraction or a sign, and `nested` an object or a list that is not empty.
  pub data Cell : Type 0 where
    absent nested : Cell
    text : String → Cell
    whole : ℕ → Cell
    number : Num → Cell

  -- `bool(x)`
  abbrev pub truthy : Cell → Bool
  truthy absent = false
  truthy nested = true
  truthy (text s) = not (s == "")
  truthy (whole n) = not (n == 0)
  truthy (number x) = not (is_zero F x)

  -- `a or b`
  abbrev pub or_else : Cell → Cell → Cell
  or_else a b = if truthy a then a else b

  -- `float(x)`
  unfoldable pub float : Cell → Result Num
  float absent = raise type_error
  float nested = raise type_error
  float (text s) = or_value_error (of_text s)
  float (whole n) = ok (num F n)
  float (number x) = ok x

  -- `int(x)`
  unfoldable pub int : Cell → Result ℕ
  int absent = raise type_error
  int nested = raise type_error
  int (text s) = or_value_error (int_of_text s)
  int (whole n) = ok n
  int (number x) = ok (trunc x)

  -- `float(x or 0)`
  abbrev pub float_or_zero : Cell → Result Num
  float_or_zero c = float (or_else c (whole 0))

  -- `float(x or y)` where `y` is a float
  abbrev pub float_or : Cell → Num → Result Num
  float_or c y = if truthy c then float c else ok y

  -- `int(x or 0)`
  abbrev pub int_or_zero : Cell → Result ℕ
  int_or_zero c = int (or_else c (whole 0))
