-- ===== src/Queues/Order.antt =====
-- src/nightshift/queue_config.py, lines 236-378: the play filter and the order of a queue's tasks.
-- The task files of the queue are pairs of a stem and a text.
use nightshift.Base.{
  ℕ, String, Bool, true, false, not, ◌&&◌, ◌||◌, Option, none, some, List, [], ◌∷◌, ◌++◌, ◌==◌, any,
  contains, Dict, lookup, insert, filter, sort_by, text_lt, if◌then◌else◌, ltb, leb, ℤ, pos, Json,
  int, arr, Items, nil, cons, int_of,
}
use nightshift.FailurePolicy.{ranks}
use nightshift.Queues.Config.{
  ConfigFile, loaded, load_order, save_order, load_sort_mode, sort_priority,
  save_queue_config_value,
}
use nightshift.Queues.Frontmatter.{split_frontmatter, task_priority, max_priority, default_priority}

abbrev pub has : List ℕ → ℕ → Bool
has xs n = any (λ m. leb m n && leb n m) xs

-- `out.add(p)` where the value is an integer in range.
abbrev add_priority : Option ℤ → List ℕ → List ℕ
add_priority (some (pos n)) out = if leb n max_priority && not (has out n) then n ∷ out else out
add_priority _ out = out

unfoldable pub add_priorities : Items → List ℕ → List ℕ
unfolding int_of
add_priorities nil out = out
add_priorities (cons v vs) out = add_priorities vs (add_priority (int_of v) out)

unfoldable pub clean_priority_list : Json → List ℕ
unfolding add_priorities sort_by
clean_priority_list (arr vs) = sort_by ltb (add_priorities vs [])
clean_priority_list _ = []

unfoldable pub load_play_priorities : ConfigFile → List ℕ
unfolding clean_priority_list lookup loaded
load_play_priorities file = elim (lookup "play_priorities" (loaded file)) [
  | none ↦ []
  | some raw ↦ clean_priority_list raw
]

unfoldable pub numbers : List ℕ → Items
numbers [] = nil
numbers (n ∷ ns) = cons (int (pos n)) (numbers ns)

unfoldable pub save_play_priorities : Json → ConfigFile → List ℕ × ConfigFile
unfolding clean_priority_list save_queue_config_value numbers
save_play_priorities priorities file =
    let clean = clean_priority_list priorities in
    (clean, (save_queue_config_value "play_priorities" (arr (numbers clean)) file).1)

-- The priority in the frontmatter of a task file, if there is one.
unfoldable pub file_priority : Option String → ℕ
unfolding split_frontmatter task_priority
file_priority none = task_priority []
file_priority (some text) = task_priority (split_frontmatter text).0

unfoldable pub read_priorities : Dict String → List String → Dict ℕ → Dict ℕ
unfolding file_priority lookup insert
read_priorities files [] out = out
read_priorities files (stem ∷ stems) out =
    read_priorities files stems (insert stem (file_priority (lookup stem files)) out)

-- `priorities.get(s, DEFAULT_PRIORITY)`
unfoldable pub priority_of : Dict ℕ → String → ℕ
unfolding lookup
priority_of priorities s = elim (lookup s priorities) [ none ↦ default_priority | some p ↦ p ]

-- A caller may pass the priorities.
abbrev pub priorities_or : Dict String → List String → Option (Dict ℕ) → Dict ℕ
unfolding read_priorities
priorities_or files stems none = read_priorities files stems []
priorities_or files stems (some priorities) = priorities

unfoldable pub apply_play_filter :
    ConfigFile → Dict String → List String → Option (Dict ℕ) → List String
unfolding load_play_priorities priority_of filter read_priorities
apply_play_filter file files stems priorities = elim (load_play_priorities file) [
  | [] ↦ stems
  | p ∷ ps ↦ filter (λ s. has (p ∷ ps) (priority_of (priorities_or files stems priorities) s)) stems
]

-- `s in rank`
abbrev pub ranked : Dict ℕ → String → Bool
unfolding lookup
ranked rank s = elim (lookup s rank) [ none ↦ false | some i ↦ true ]

-- `rank[s]` for a key of the dictionary.
unfoldable pub index_in : Dict ℕ → String → ℕ
unfolding lookup
index_in rank s = elim (lookup s rank) [ none ↦ 0 | some i ↦ i ]

unfoldable pub manual_order : Dict ℕ → List String → List String
unfolding filter sort_by index_in text_lt lookup
manual_order rank stems =
    sort_by (λ s t. ltb (index_in rank s) (index_in rank t)) (filter (ranked rank) stems)
    ++ sort_by text_lt (filter (λ s. not (ranked rank s)) stems)

-- The order of the keys `(priorities.get(s, DEFAULT_PRIORITY), manual_index[s])`.
unfoldable pub plays_before : Dict ℕ → Dict ℕ → String → String → Bool
unfolding priority_of index_in
plays_before priorities index s t =
    ltb (priority_of priorities s) (priority_of priorities t)
    || leb (priority_of priorities s) (priority_of priorities t)
      && ltb (index_in index s) (index_in index t)

-- The manual order in priority mode.
unfoldable pub priority_order : Dict ℕ → List String → List String
unfolding sort_by plays_before ranks
priority_order priorities manual = sort_by (plays_before priorities (ranks manual)) manual

abbrev pub mode_or : ConfigFile → Option String → String
unfolding load_sort_mode
mode_or file none = load_sort_mode file
mode_or file (some sort) = sort

unfoldable pub order_stems :
    (Json → String)
    → ConfigFile
    → Dict String
    → List String
    → Option (Dict ℕ)
    → Option String
    → List String
unfolding load_order load_sort_mode manual_order priority_order ranks read_priorities
order_stems repr file files stems priorities sort =
    let manual = manual_order (ranks (load_order repr file)) stems in
    if mode_or file sort == sort_priority
    then priority_order (priorities_or files manual priorities) manual
    else manual

-- The loop over `order`: names of task files, each once.
unfoldable pub clean_order : List String → List String → List String → List String
clean_order existing seen [] = []
clean_order existing seen (name ∷ order) =
    elim (contains existing name && not (contains seen name)) [
      | true ↦ name ∷ clean_order existing (name ∷ seen) order
      | false ↦ clean_order existing seen order
    ]

-- The names of the files, each once, whatever their order.
unfoldable pub reorder : List String → List String → List String
unfolding clean_order sort_by text_lt filter
reorder existing order =
    let cleaned = clean_order existing [] order in
    cleaned ++ sort_by text_lt (filter (λ s. not (contains cleaned s)) existing)

unfoldable pub reorder_queue : List String → List String → ConfigFile → List String × ConfigFile
unfolding reorder save_order
reorder_queue existing order file = save_order (reorder existing order) file
