-- ===== src/Queues/Frontmatter.antt =====
-- src/nightshift/spawn_daily.py, lines 158-273: the frontmatter of a task file and the flags and the
-- priority in it.
use nightshift.Base.{
  ℕ, ◌+◌, min, String, Bool, true, false, ◌&&◌, ◌||◌, Option, none, some, List, [], ◌∷◌, ◌==◌, Dict,
  lookup, insert, if◌then◌else◌, leb, ℤ, pos, negsuc, Json, bool, int, str, strip, splitlines, find,
  text_take, text_drop, text_length, all_digits, int_of_text, int_of,
}
use Prim.Native.Char.{Char, code}
use text.Mathlib.Text.{starts_with}
use nightshift.Queues.Config.{truth}

-- `s.split(sep, 1)` where `sep` occurs in `s`.
unfoldable pub cut : String → String → Option (String × String)
unfolding find text_take text_drop text_length
cut sep s = elim (find sep s) [
  | none ↦ none
  | some i ↦ some (text_take i s, text_drop (i + text_length sep) s)
]

-- `c.lower()` for the letters A to Z; no other character has one of the letters of `true` and `false`
-- as its lower case.
abbrev to_lower : Char → ℕ
to_lower c = if leb 65 (code c) && leb (code c) 90 then code c + 32 else code c

-- `raw.lower() == word` for a word in lower case.
unfoldable pub lower_is : String → String → Bool
lower_is String.[] String.[] = true
lower_is (String.◌∷◌ c s) (String.◌∷◌ d t) =
    leb (to_lower c) (code d) && leb (code d) (to_lower c) && lower_is s t
lower_is _ _ = false

unfoldable pub read_value : String → Json
unfolding lower_is all_digits int_of_text
read_value raw =
    if lower_is raw "true"
    then bool true
    else if lower_is raw "false"
    then bool false
    else if all_digits raw
    then elim (int_of_text raw) [ none ↦ str raw | some n ↦ int n ]
    else str raw

-- One line of the frontmatter.
unfoldable pub read_line : String → Dict Json → Dict Json
unfolding read_value cut insert strip
read_line line meta =
    if strip line == "" || starts_with (strip line) "#" then meta else elim (cut ":" line) [
      | none ↦ meta
      | some (key, value) ↦ insert (strip key) (read_value (strip value)) meta
    ]

unfoldable pub read_lines : List String → Dict Json → Dict Json
unfolding read_line
read_lines [] meta = meta
read_lines (line ∷ lines) meta = read_lines lines (read_line line meta)

-- `s.lstrip("\n")`
unfoldable pub strip_feeds : String → String
strip_feeds String.[] = ""
strip_feeds (String.◌∷◌ c s) =
    let rest = strip_feeds s in if leb 10 (code c) && leb (code c) 10 then rest else String.◌∷◌ c s

-- The text has `---` at its start; the second `---` ends the frontmatter.
unfoldable pub split_frontmatter : String → Dict Json × String
unfolding cut read_lines splitlines strip_feeds text_drop
split_frontmatter text =
    if starts_with text "---"
    then elim (cut "---" (text_drop 3 text)) [
      | none ↦ ([], text)
      | some (head, body) ↦ (read_lines (splitlines head) [], strip_feeds body)
    ]
    else ([], text)

-- `bool(meta.get(flag, False))`
unfoldable pub flagged : String → Dict Json → Bool
unfolding lookup truth
flagged flag meta = elim (lookup flag meta) [ none ↦ false | some v ↦ truth v ]

unfoldable pub is_disabled : Dict Json → Bool
unfolding flagged
is_disabled meta = flagged "disabled" meta

unfoldable pub is_quarantined : Dict Json → Bool
unfolding flagged
is_quarantined meta = flagged "quarantined" meta

unfoldable pub is_failed : Dict Json → Bool
unfolding flagged
is_failed meta = flagged "failed" meta

unfoldable pub is_completed : Dict Json → Bool
unfolding flagged
is_completed meta = flagged "completed" meta

abbrev pub max_priority : ℕ
max_priority = 5

abbrev pub default_priority : ℕ
default_priority = max_priority

-- `max(MIN_PRIORITY, min(MAX_PRIORITY, value))`
unfoldable pub clamped : ℤ → ℕ
clamped (pos n) = min max_priority n
clamped (negsuc n) = 0

unfoldable pub task_priority : Dict Json → ℕ
unfolding lookup int_of clamped
task_priority meta = elim (lookup "priority" meta) [
  | none ↦ clamped (pos default_priority)
  | some raw ↦ elim (int_of raw) [ none ↦ default_priority | some value ↦ clamped value ]
]
