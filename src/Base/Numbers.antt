-- ===== src/Base/Numbers.antt =====
-- Python's `int` of a text and of a value, with the decimal digits of ASCII.
use Prim.Native.Nat.{ℕ, zero, suc, ◌+◌, ◌-◌, ◌*◌, ◌/◌, ◌^◌}
use Prim.Native.Char.{Char, code}
use Prim.Native.String.{String}
use mathlib.Core.Bool.{Bool, true, false, ◌&&◌}
use mathlib.Core.Option.{Option, none, some}
use nightshift.Base.Tests.{leb}
use nightshift.Base.Text.{strip}
use nightshift.Base.Values.{ℤ, pos, negsuc, Float, Json, bool, int, float, str}

abbrev is_digit : Char → Bool
is_digit c = leb 48 (code c) && leb (code c) 57

-- `s.isdigit()`
unfoldable pub all_digits : String → Bool
all_digits String.[] = false
all_digits (String.◌∷◌ c String.[]) = is_digit c
all_digits (String.◌∷◌ c (String.◌∷◌ d s)) = is_digit c && all_digits (String.◌∷◌ d s)

abbrev pub negated : ℕ → ℤ
negated zero = pos zero
negated (suc n) = negsuc n

-- The digits from here on; an underscore may stand between two of them. `after` is true behind a
-- digit.
unfoldable pub read_digits : ℕ → Bool → String → Option ℕ
read_digits value true String.[] = some value
read_digits value false String.[] = none
read_digits value after (String.◌∷◌ c s) = elim (is_digit c) [
  | true ↦ read_digits (value * 10 + (code c - 48)) true s
  | false ↦ elim (leb 95 (code c) && leb (code c) 95 && after) [
    | true ↦ read_digits value false s
    | false ↦ none
  ]
]

abbrev signed : (ℕ → ℤ) → Option ℕ → Option ℤ
signed f none = none
signed f (some n) = some (f n)

unfoldable pub read_signed : String → Option ℤ
unfolding read_digits
read_signed String.[] = none
read_signed (String.◌∷◌ c s) = elim (leb 45 (code c) && leb (code c) 45) [
  | true ↦ signed negated (read_digits 0 false s)
  | false ↦ elim (leb 43 (code c) && leb (code c) 43) [
    | true ↦ signed pos (read_digits 0 false s)
    | false ↦ signed pos (read_digits 0 false (String.◌∷◌ c s))
  ]
]

-- `int(s)` of a text; `none` is its ValueError.
unfoldable pub int_of_text : String → Option ℤ
unfolding read_signed strip
int_of_text s = read_signed (strip s)

abbrev scaled : ℕ → ℤ → ℕ
scaled n (pos e) = n * 2 ^ e
scaled n (negsuc e) = n / 2 ^ suc e

-- `int(x)` cuts the fraction off.
unfoldable pub truncated : Float → ℤ
truncated x = elim x.mantissa [
  | pos n ↦ pos (scaled n x.exponent)
  | negsuc n ↦ negated (scaled (suc n) x.exponent)
]

-- `int(v)`; `none` is a TypeError or a ValueError.
unfoldable pub int_of : Json → Option ℤ
unfolding int_of_text truncated
int_of (int n) = some n
int_of (bool true) = some (pos 1)
int_of (bool false) = some (pos 0)
int_of (float x) = some (truncated x)
int_of (str s) = int_of_text s
int_of _ = none
