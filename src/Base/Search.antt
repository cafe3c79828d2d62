-- ===== src/Base/Search.antt =====
-- Text as Python's `str`: `splitlines`, `len`, `s[n:]` and `find`, by code points.
use Prim.Native.Nat.{ℕ, zero, suc}
use Prim.Native.Char.{Char, code}
use Prim.Native.String.{String}
use mathlib.Core.Bool.{Bool, false, ◌&&◌, ◌||◌}
use mathlib.Core.List.{List, [], ◌∷◌}
use mathlib.Core.Option.{Option, none, some}
use text.Mathlib.Text.{starts_with, ◌==◌}
use nightshift.Base.Tests.{leb, if◌then◌else◌}
use nightshift.Base.Text.{is_line_break}

abbrev is_code : ℕ → Char → Bool
is_code n c = leb n (code c) && leb (code c) n

-- A line feed stands at the front.
abbrev feeds : String → Bool
feeds String.[] = leb 1 0
feeds (String.◌∷◌ c s) = is_code 10 c

add_to_first : Char → List String → List String
add_to_first c [] = String.◌∷◌ c "" ∷ []
add_to_first c (line ∷ lines) = String.◌∷◌ c line ∷ lines

-- `s.splitlines()`; a carriage return with a line feed is one break.
unfoldable pub splitlines : String → List String
unfolding add_to_first
splitlines String.[] = []
splitlines (String.◌∷◌ c s) =
    let rest = splitlines s in
    if is_line_break (code c)
    then if is_code 13 c && feeds s then rest else "" ∷ rest
    else add_to_first c rest

-- `len(s)`
unfoldable pub text_length : String → ℕ
text_length String.[] = 0
text_length (String.◌∷◌ c s) = suc (text_length s)

-- `s[n:]`
unfoldable pub text_drop : ℕ → String → String
text_drop zero s = s
text_drop (suc n) String.[] = ""
text_drop (suc n) (String.◌∷◌ c s) = text_drop n s

abbrev next : Option ℕ → Option ℕ
next none = none
next (some i) = some (suc i)

-- `s.find(part)` for a part that is not empty; `none` stands for -1.
unfoldable pub find : String → String → Option ℕ
find part String.[] = none
find part (String.◌∷◌ c s) =
    let rest = find part s in if starts_with (String.◌∷◌ c s) part then some 0 else next rest

-- `s.split(",")`
unfoldable pub split_commas : String → List String
unfolding add_to_first
split_commas String.[] = "" ∷ []
split_commas (String.◌∷◌ c s) =
    let rest = split_commas s in if is_code 44 c then "" ∷ rest else add_to_first c rest

-- `s.removesuffix(suffix)` for a suffix that is not empty.
unfoldable pub remove_suffix : String → String → String
remove_suffix suffix String.[] = ""
remove_suffix suffix (String.◌∷◌ c s) =
    if String.◌∷◌ c s == suffix then "" else String.◌∷◌ c (remove_suffix suffix s)

has_code : String → Char → Bool
has_code String.[] c = false
has_code (String.◌∷◌ d s) c = is_code (code d) c || has_code s c

lstrip_of : String → String → String
unfolding has_code
lstrip_of chars String.[] = ""
lstrip_of chars (String.◌∷◌ c s) = if has_code chars c then lstrip_of chars s else String.◌∷◌ c s

push_unless : String → Char → String → String
unfolding has_code
push_unless chars c String.[] = if has_code chars c then "" else String.◌∷◌ c ""
push_unless chars c (String.◌∷◌ d s) = String.◌∷◌ c (String.◌∷◌ d s)

rstrip_of : String → String → String
unfolding push_unless
rstrip_of chars String.[] = ""
rstrip_of chars (String.◌∷◌ c s) = push_unless chars c (rstrip_of chars s)

-- `s.strip(chars)`
unfoldable pub strip_of : String → String → String
unfolding lstrip_of rstrip_of
strip_of chars s = rstrip_of chars (lstrip_of chars s)
