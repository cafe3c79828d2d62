-- ===== src/Queues/Fence.antt =====
-- src/nightshift/task_files.py, lines 808-885: the rewriting of a brief's frontmatter. `dumps` stands
-- for Python's `json.dumps` of lists and dictionaries and its `str` of numbers with a point.
use nightshift.Base.{
  String, Bool, true, false, ◌&&◌, ◌||◌, Option, none, some, List, [], ◌∷◌, ◌++◌, ◌==◌, Dict,
  lookup, if◌then◌else◌, leb, Json, bool, strip, splitlines, fstring, join,
}
use Prim.Native.Char.{code}
use text.Mathlib.Text.{starts_with}
use nightshift.Queues.Config.{text_of}
use nightshift.Queues.Frontmatter.{cut}

unfoldable pub render_meta_value : (Json → String) → Json → String
unfolding text_of
render_meta_value dumps (bool b) = if b then "true" else "false"
render_meta_value dumps v = text_of dumps v

unfoldable pub strip_leading_blanks : List String → List String
unfolding strip
strip_leading_blanks [] = []
strip_leading_blanks (line ∷ lines) =
    let rest = strip_leading_blanks lines in if strip line == "" then rest else line ∷ lines

-- The lines before the closing fence and those behind it.
unfoldable pub until_close : List String → Option (List String × List String)
unfolding strip
until_close [] = none
until_close (line ∷ lines) =
    let rest = until_close lines in
    if strip line == "---"
    then some ([], lines)
    else elim rest [ none ↦ none | some (front, body) ↦ some (line ∷ front, body) ]

-- The frontmatter lines and the body lines of lines; without a fence all is body.
unfoldable pub fence_of : List String → List String × List String
unfolding strip until_close
fence_of [] = ([], [])
fence_of (line ∷ lines) =
    if strip line == "---"
    then elim (until_close lines) [ none ↦ ([], line ∷ lines) | some parts ↦ parts ]
    else ([], line ∷ lines)

unfoldable pub split_fence : String → List String × List String
unfolding fence_of splitlines
split_fence text = fence_of (splitlines text)

-- The key of a frontmatter line, if it has one.
unfoldable pub key_of_line : String → Option String
unfolding strip cut
key_of_line line =
    if strip line == "" || starts_with (strip line) "#"
    then none
    else elim (cut ":" line) [ none ↦ none | some (key, value) ↦ some (strip key) ]

-- A change to a value, or none that drops the key.
abbrev pub Changes : Type 0
Changes = Dict (Option Json)

unfoldable pub rendered_line : (Json → String) → String → Option Json → List String
unfolding render_meta_value fstring
rendered_line dumps key none = []
rendered_line dumps key (some v) = fstring (key ∷ ": " ∷ render_meta_value dumps v ∷ []) ∷ []

unfoldable pub appended : (Json → String) → Changes → List String
unfolding rendered_line
appended dumps [] = []
appended dumps ((key, value) ∷ remaining) =
    rendered_line dumps key value ++ appended dumps remaining

-- `remaining.pop(key)`
unfoldable pub without : String → Changes → Changes
without key [] = []
without key ((k, v) ∷ changes) =
    let rest = without key changes in if k == key then changes else (k, v) ∷ rest

abbrev change_at : Option String → Changes → Option (String × Option Json)
unfolding lookup
change_at none remaining = none
change_at (some key) remaining = elim (lookup key remaining) [
  | none ↦ none
  | some value ↦ some (key, value)
]

-- The loop over the lines, with the changes that remain.
unfoldable pub apply_fence_changes : (Json → String) → List String → Changes → List String
unfolding key_of_line rendered_line appended without lookup
apply_fence_changes dumps [] remaining = appended dumps remaining
apply_fence_changes dumps (line ∷ lines) remaining = elim (change_at (key_of_line line) remaining) [
  | none ↦ line ∷ apply_fence_changes dumps lines remaining
  | some (key, value) ↦
      rendered_line dumps key value ++ apply_fence_changes dumps lines (without key remaining)
]

-- `s.rstrip("\n")`
unfoldable pub rstrip_feeds : String → String
rstrip_feeds String.[] = ""
rstrip_feeds (String.◌∷◌ c s) =
    let rest = rstrip_feeds s in
    if (leb 10 (code c) && leb (code c) 10) && rest == "" then "" else String.◌∷◌ c rest

abbrev is_empty : List String → Bool
is_empty [] = true
is_empty (line ∷ lines) = false

unfoldable pub join_fence : List String → List String → String
unfolding strip_leading_blanks rstrip_feeds join fstring
join_fence fence_lines body_lines =
    let body = strip_leading_blanks body_lines in
    let out = if is_empty fence_lines then body else "---" ∷ (fence_lines ++ ("---" ∷ "" ∷ body)) in
    fstring (rstrip_feeds (join "\n" out) ∷ "\n" ∷ [])

unfoldable pub set_frontmatter_text : (Json → String) → String → Changes → String
unfolding split_fence apply_fence_changes join_fence
set_frontmatter_text dumps text changes =
    let (fence_lines, body_lines) = split_fence text in
    join_fence (apply_fence_changes dumps fence_lines changes) body_lines
