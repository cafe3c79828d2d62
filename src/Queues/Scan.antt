-- ===== src/Queues/Scan.antt =====
-- src/nightshift/task_files.py, lines 53-168: the sections of a brief, and the tasks of a queue that
-- run, in their order. `glob` gives the task files of the queue.
use nightshift.Base.{
  ℕ, String, Bool, not, ◌&&◌, ◌||◌, none, some, List, [], ◌∷◌, ◌==◌, map, contains, Dict, insert,
  filter, if◌then◌else◌, Json, strip, fstring,
}
use text.Mathlib.Text.{starts_with}
use nightshift.Queues.Config.{ConfigFile}
use nightshift.Queues.Frontmatter.{
  cut, split_frontmatter, flagged, is_disabled, is_quarantined, is_completed, task_priority,
}
use nightshift.Queues.Order.{order_stems, apply_play_filter}

abbrev pub notes_marker : String
notes_marker = "<!-- nightshift:notes -->"

abbrev pub original_brief_marker : String
original_brief_marker = "<!-- nightshift:original-brief -->"

-- `split_notes` and `split_original` differ in the marker.
unfoldable pub split_section : String → String → String × String
unfolding cut strip
split_section marker body = elim (cut marker body) [
  | none ↦ (strip body, "")
  | some (brief, section) ↦ (strip brief, strip section)
]

unfoldable pub split_original : String → String × String
unfolding split_section
split_original body = split_section original_brief_marker body

unfoldable pub split_notes : String → String × String
unfolding split_section
split_notes body = split_section notes_marker body

-- `join_notes` and `join_original` differ in the marker.
unfoldable pub join_section : String → String → String → String
unfolding strip fstring
join_section marker body section =
    if strip section == ""
    then strip body
    else fstring (strip body ∷ "\n\n" ∷ marker ∷ "\n" ∷ strip section ∷ [])

unfoldable pub join_notes : String → String → String
unfolding join_section
join_notes body notes = join_section notes_marker body notes

unfoldable pub join_original : String → String → String
unfolding join_section
join_original body original = join_section original_brief_marker body original

-- `split_frontmatter(text)[0] if text.startswith("---") else {}`
unfoldable pub meta_of : String → Dict Json
unfolding split_frontmatter
meta_of text = if starts_with text "---" then (split_frontmatter text).0 else []

unfoldable pub find_autosplit_tasks : Dict String → List String
unfolding flagged split_frontmatter meta_of
find_autosplit_tasks [] = []
find_autosplit_tasks ((stem, text) ∷ files) =
    let rest = find_autosplit_tasks files in
    if flagged "autosplit" (meta_of text) then stem ∷ rest else rest

-- The tests of the loop over the files.
unfoldable pub runs : List String → String × String → Bool
unfolding meta_of is_disabled is_quarantined is_completed
runs autosplit (stem, text) =
    not (contains autosplit stem)
    && not
        (is_disabled (meta_of text) || is_quarantined (meta_of text) || is_completed (meta_of text))

unfoldable pub queue_names : List String → Dict String → List String
unfolding runs filter
queue_names autosplit files = map (λ f. f.0) (filter (runs autosplit) files)

unfoldable pub queue_priorities : Dict String → Dict ℕ → Dict ℕ
unfolding task_priority meta_of insert
queue_priorities [] priorities = priorities
queue_priorities ((stem, text) ∷ files) priorities =
    queue_priorities files (insert stem (task_priority (meta_of text)) priorities)

unfoldable pub live_ordered_queue : (Json → String) → ConfigFile → Dict String → List String
unfolding find_autosplit_tasks queue_names queue_priorities order_stems apply_play_filter
live_ordered_queue repr file files =
    let autosplit = find_autosplit_tasks files in
    let priorities = queue_priorities (filter (runs autosplit) files) [] in
    apply_play_filter file files
      (order_stems repr file files (queue_names autosplit files) (some priorities) none)
      (some priorities)
