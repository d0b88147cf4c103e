-- ===== src/Base/Text.antt =====
-- What the code does with strings: `str.lower` and `str.upper` on ASCII letters, `str.strip`, `s[n:]`,
-- and `int` on the decimal numerals without sign that `str` writes. Other letters stay as they are; a text that is not
-- such a numeral is taken to raise ValueError.
use Prim.Native.Nat.{ℕ, zero, suc, ◌+◌, ◌-◌, ◌*◌}
use Prim.Native.String.{String, [], ◌∷◌, ◌++◌, char_at}
use Prim.Native.Char.{code}
use mathlib.Core.Bool.{Bool, true, false, ◌&&◌, ◌||◌}
use mathlib.Core.Option.{Option, none, some, map as map_option}
use funding_radar.Base.Tests.{leb, if◌then◌else◌, ◌==◌, by_text}

abbrev between : ℕ → ℕ → ℕ → Bool
between a b n = leb a n && leb n b

unfoldable pub lower : String → String
lower [] = []
lower (c ∷ s) =
    (if between 65 90 (code c) then char_at "abcdefghijklmnopqrstuvwxyz" (code c - 65) else c)
    ∷ lower s

unfoldable pub upper : String → String
upper [] = []
upper (c ∷ s) =
    (if between 97 122 (code c) then char_at "ABCDEFGHIJKLMNOPQRSTUVWXYZ" (code c - 97) else c)
    ∷ upper s

-- The digits of a numeral, after what has been read.
abbrev digits_from : ℕ → String → Option ℕ
digits_from n [] = some n
digits_from n (c ∷ s) =
    let further = digits_from (n * 10 + (code c - 48)) s in
    if between 48 57 (code c) then further else none

unfoldable pub int : String → Option ℕ
int [] = none
int (c ∷ s) = digits_from 0 (c ∷ s)

abbrev is_space : ℕ → Bool
is_space n = between 9 13 n || between 28 32 n

abbrev lstrip : String → String
lstrip [] = []
lstrip (c ∷ s) = let rest = lstrip s in if is_space (code c) then rest else c ∷ s

-- What is left of a text when its spaces at the end are taken off.
abbrev add_front : Bool → String → String → String
add_front true c [] = []
add_front true c (d ∷ s) = c ++ (d ∷ s)
add_front false c s = c ++ s

abbrev rstrip : String → String
rstrip [] = []
rstrip (c ∷ s) = add_front (is_space (code c)) (c ∷ []) (rstrip s)

unfoldable pub strip : String → String
strip s = rstrip (lstrip s)

-- `s[n:]`
unfoldable pub drop : ℕ → String → String
drop n [] = []
drop zero (c ∷ s) = c ∷ s
drop (suc n) (c ∷ s) = drop n s

-- `s.lstrip(chars)` for one character
unfoldable pub lstrip_of : String → String → String
lstrip_of chars [] = []
lstrip_of chars (c ∷ s) = let rest = lstrip_of chars s in if chars == (c ∷ []) then rest else c ∷ s

-- `s[: -len(suffix)]` if `s.endswith(suffix)`
unfoldable pub strip_suffix : String → String → Option String
strip_suffix suffix [] = if [] == suffix then some [] else none
strip_suffix suffix (c ∷ s) =
    let rest = strip_suffix suffix s in
    if (c ∷ s) == suffix then some [] else map_option (λ r. c ∷ r) rest

-- `s.startswith(pattern)`
abbrev pub starts_with : String → String → Bool
starts_with [] s = true
starts_with (p ∷ ps) [] = false
starts_with (p ∷ ps) (c ∷ s) = (p ∷ []) == (c ∷ []) && starts_with ps s

-- `pattern in s`
unfoldable pub has_text : String → String → Bool
has_text pattern [] = starts_with pattern []
has_text pattern (c ∷ s) = starts_with pattern (c ∷ s) || has_text pattern s

-- `s.replace(pattern, "")`, where `skip` characters of an occurrence are still to be left out
unfoldable pub remove_text : String → ℕ → ℕ → String → String
remove_text pattern size skip [] = []
remove_text pattern size (suc skip) (c ∷ s) = remove_text pattern size skip s
remove_text pattern size zero (c ∷ s) = elim (starts_with pattern (c ∷ s)) [
  | true ↦ remove_text pattern size (size - 1) s
  | false ↦ c ∷ remove_text pattern size zero s
]
