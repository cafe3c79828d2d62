-- ===== src/Queues/Held.antt =====
-- src/nightshift/task_files.py, lines 171-232: the tasks that their frontmatter holds. The files are the
-- stems and the texts of the queue's briefs, in the order in which `glob` gives them.
use nightshift.Base.{
  String, Bool, not, ◌&&◌, Option, none, some, List, [], ◌∷◌, Dict, Json, str, lookup, sort_by,
  text_lt, if◌then◌else◌,
}
use nightshift.Queues.Frontmatter.{split_frontmatter, is_quarantined, is_failed, is_completed}

-- One row of the answer; the queue is that of the files.
pub record HeldTask : Type 0 where
  pub task : String
  pub state : String
  pub reason : Option Json

-- `split_frontmatter(text)[0] if text.startswith("---") else {}`
abbrev meta_of : String → Dict Json
meta_of text = (split_frontmatter text).0

-- `meta.get(key, "")`
abbrev reason_at : String → Dict Json → Option Json
reason_at key meta = elim (lookup key meta) [ none ↦ some (str "") | some v ↦ some v ]

abbrev held_row : String → String → String → Dict Json → HeldTask
held_row task state key meta = record { task = task; state = state; reason = reason_at key meta }

unfoldable pub frontmatter_held_tasks : Dict String → List HeldTask
unfolding split_frontmatter is_quarantined is_failed lookup
frontmatter_held_tasks [] = []
frontmatter_held_tasks ((task, text) ∷ files) =
    let rest = frontmatter_held_tasks files in
    if is_quarantined (meta_of text)
    then held_row task "quarantined" "quarantine_reason" (meta_of text) ∷ rest
    else if is_failed (meta_of text)
    then held_row task "failed" "failed_reason" (meta_of text) ∷ rest
    else rest

abbrev counts_failed : Dict Json → Bool
counts_failed meta = is_failed meta && not (is_quarantined meta) && not (is_completed meta)

unfoldable pub failed_from : Dict String → List HeldTask
unfolding split_frontmatter is_quarantined is_failed is_completed
failed_from [] = []
failed_from ((task, text) ∷ files) =
    let rest = failed_from files in
    if counts_failed (meta_of text)
    then record { task = task; state = "failed"; reason = none } ∷ rest
    else rest

unfoldable pub failed_tasks : Dict String → List HeldTask
unfolding failed_from sort_by text_lt
failed_tasks files = failed_from (sort_by (λ a b. text_lt a.0 b.0) files)
