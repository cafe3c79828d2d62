-- ===== src/Base/Text.antt =====
-- Text as Python's `str`: f-strings, `strip`, `splitlines`, the fallback operator `or`.
use Prim.Native.Nat.{ℕ, zero, suc, ◌/◌, ◌%◌}
use Prim.Native.Char.{Char, code}
use Prim.Native.String.{String}
use Prim.Native.String as S
use mathlib.Core.Bool.{Bool, ◌||◌, ◌&&◌}
use mathlib.Core.List.{List, [], ◌∷◌}
use mathlib.Core.Option.{Option, none, some}
use text.Mathlib.Text.{◌==◌}
use nightshift.Base.Tests.{ltb, leb, if◌then◌else◌}
use nightshift.Base.Lists.{get_or}

-- An f-string, given by its pieces.
unfoldable pub fstring : List String → String
fstring [] = ""
fstring (s ∷ ss) = S.◌++◌ s (fstring ss)

-- `sep.join(parts)`
unfoldable pub join : String → List String → String
join sep [] = ""
join sep (s ∷ []) = s
join sep (s ∷ t ∷ ss) = S.◌++◌ s (S.◌++◌ sep (join sep (t ∷ ss)))

abbrev digits : List String
digits = "0" ∷ "1" ∷ "2" ∷ "3" ∷ "4" ∷ "5" ∷ "6" ∷ "7" ∷ "8" ∷ "9" ∷ []

-- One digit goes with each round, so `suc n` rounds print `n`.
show_fuel : ℕ → ℕ → String
show_fuel zero n = ""
show_fuel (suc fuel) n =
    let front = show_fuel fuel (n / 10) in
    if ltb n 10 then get_or digits n "" else S.◌++◌ front (get_or digits (n % 10) "")

-- `str(n)`
unfoldable pub show_nat : ℕ → String
unfolding show_fuel
show_nat n = show_fuel (suc n) n

-- `a or b` on texts, and on a text that may be `None`.
abbrev pub text_or : String → String → String
text_or s d = if s == "" then d else s

abbrev pub opt_or : Option String → String → String
opt_or none d = d
opt_or (some s) d = text_or s d

-- A line ends at these characters for `str.splitlines`.
abbrev pub is_line_break : ℕ → Bool
is_line_break c =
    leb 10 c && leb c 13
    || leb 28 c && leb c 30
    || leb 133 c && leb c 133
    || leb 8232 c && leb c 8233

-- `s.splitlines()[0]`
unfoldable pub first_line : String → String
first_line String.[] = ""
first_line (String.◌∷◌ c s) = if is_line_break (code c) then "" else String.◌∷◌ c (first_line s)

-- `s[:n]`
unfoldable pub text_take : ℕ → String → String
text_take zero s = ""
text_take (suc n) String.[] = ""
text_take (suc n) (String.◌∷◌ c s) = String.◌∷◌ c (text_take n s)

-- `str.isspace` for one character.
abbrev is_space : ℕ → Bool
is_space c =
    leb 9 c && leb c 13
    || leb 28 c && leb c 32
    || leb 133 c && leb c 133
    || leb 160 c && leb c 160
    || leb 5760 c && leb c 5760
    || leb 8192 c && leb c 8202
    || leb 8232 c && leb c 8233
    || leb 8239 c && leb c 8239
    || leb 8287 c && leb c 8287
    || leb 12288 c && leb c 12288

lstrip : String → String
lstrip String.[] = ""
lstrip (String.◌∷◌ c s) = if is_space (code c) then lstrip s else String.◌∷◌ c s

push_front : Char → String → String
push_front c String.[] = if is_space (code c) then "" else String.◌∷◌ c ""
push_front c (String.◌∷◌ d s) = String.◌∷◌ c (String.◌∷◌ d s)

rstrip : String → String
unfolding push_front
rstrip String.[] = ""
rstrip (String.◌∷◌ c s) = push_front c (rstrip s)

-- `s.strip()`
unfoldable pub strip : String → String
unfolding lstrip rstrip
strip s = rstrip (lstrip s)
