-- ===== src/Queues/Runnable.antt =====
-- Which tasks `live_ordered_queue` of src/nightshift/task_files.py gives.
use nightshift.Base.{
  ℕ, String, Bool, true, false, not, ◌&&◌, none, some, List, [], ◌∷◌, ◌≡◌, refl, sym, ◌∙◌, subst,
  ap, arith, map, contains, Dict, lookup, insert, lookup-insert, eq_iff, eq_refl, filter,
  filter_all, filter-Perm, no_repeats, Json,
}
use mathlib.Core.List.{Permᴰ}
use nightshift.Queues.Config.{ConfigFile}
use nightshift.Queues.Frontmatter.{
  flagged, is_disabled, is_quarantined, is_completed, task_priority,
}
use nightshift.Queues.Order.{load_play_priorities, priority_of, order_stems, apply_play_filter, has}
use nightshift.Queues.Ordered.{order_stems-Perm}
use nightshift.Queues.Scan.{
  meta_of, find_autosplit_tasks, runs, queue_names, queue_priorities, live_ordered_queue,
}

-- No filter, or one that has the task's priority.
admits : List ℕ → Dict ℕ → String → Bool
admits [] priorities s = true
admits (p ∷ ps) priorities s = has (p ∷ ps) (priority_of priorities s)

play_filter_lem :
    (file : ConfigFile) (files : Dict String) (stems : List String) (priorities : Dict ℕ)
    → apply_play_filter file files stems (some priorities)
      ≡ filter (admits (load_play_priorities file) priorities) stems
unfolding apply_play_filter admits
play_filter_lem file files stems priorities = go (load_play_priorities file)
  where
    go :
        (ps : List ℕ)
        → (elim ps [
          | [] ↦ stems
          | q ∷ qs ↦ filter (λ s. has (q ∷ qs) (priority_of priorities s)) stems
        ])
          ≡ filter (admits ps priorities) stems
    go [] = sym (filter_all stems)
    go (q ∷ qs) = refl

-- The frontmatter of a file neither marks it for a split nor takes it out of the queue.
abbrev pub is_ready : String × String → Bool
is_ready (stem, text) =
    not (flagged "autosplit" (meta_of text))
    && (not (is_disabled (meta_of text))
        && (not (is_quarantined (meta_of text)) && not (is_completed (meta_of text))))

-- The play filter is empty or has the priority of the file.
abbrev pub is_admitted : List ℕ → String × String → Bool
is_admitted [] f = true
is_admitted (p ∷ ps) (stem, text) = has (p ∷ ps) (task_priority (meta_of text))

abbrev pub names : Dict String → List String
names = map (λ f. f.0)

absent-filter :
    (p : String × String → Bool) (s : String) (files : Dict String)
    → contains (names files) s ≡ false
    → contains (names (filter p files)) s ≡ false
unfolding filter
absent-filter p s [] h = refl
absent-filter p s (f ∷ files) h = ground (arith, absent-filter p s files)

distinct-filter :
    (p : String × String → Bool) (files : Dict String)
    → no_repeats (names files) ≡ true
    → no_repeats (names (filter p files)) ≡ true
unfolding filter no_repeats
distinct-filter p [] h = refl
distinct-filter p (f ∷ files) h =
    ground (arith, distinct-filter p files, absent-filter p f.0 files, h)

-- A name that no file bears keeps its priority.
priorities-absent :
    (s : String) (files : Dict String) (d : Dict ℕ)
    → contains (names files) s ≡ false
    → lookup s (queue_priorities files d) ≡ lookup s d
unfolding queue_priorities
priorities-absent s [] d h = refl
priorities-absent s ((stem, text) ∷ files) d h = ground (
  arith,
  priorities-absent s files (insert stem (task_priority (meta_of text)) d),
  lookup-insert stem s (task_priority (meta_of text)) d,
  h,
)

filter-names :
    (ps : List ℕ) (files : Dict String) (d : Dict ℕ)
    → no_repeats (names files) ≡ true
    → filter (admits ps (queue_priorities files d)) (names files)
      ≡ names (filter (is_admitted ps) files)
unfolding filter admits queue_priorities no_repeats priority_of
filter-names ps [] d h = refl
filter-names [] ((stem, text) ∷ files) d h =
    ap (◌∷◌ stem)
      (filter-names [] files (insert stem (task_priority (meta_of text)) d) (ground (arith, h)))
filter-names (p ∷ ps) ((stem, text) ∷ files) d h = ground (
  arith,
  filter-names (p ∷ ps) files (insert stem (task_priority (meta_of text)) d),
  priorities-absent stem files (insert stem (task_priority (meta_of text)) d),
  lookup-insert stem stem (task_priority (meta_of text)) d,
  eq_refl stem,
  h,
)

autosplit-absent :
    (s : String) (files : Dict String)
    → contains (names files) s ≡ false
    → contains (find_autosplit_tasks files) s ≡ false
unfolding find_autosplit_tasks
autosplit-absent s [] h = refl
autosplit-absent s (f ∷ files) h = ground (arith, autosplit-absent s files)

runs-other :
    (s : String) (autosplit : List String) (files : Dict String)
    → contains (names files) s ≡ false
    → filter (runs (s ∷ autosplit)) files ≡ filter (runs autosplit) files
unfolding filter runs
runs-other s autosplit [] h = refl
runs-other s autosplit ((stem, text) ∷ files) h =
    ground (arith, runs-other s autosplit files, eq_iff s stem, eq_iff stem s, h)

runs_own :
    (files : Dict String)
    → no_repeats (names files) ≡ true
    → filter (runs (find_autosplit_tasks files)) files ≡ filter is_ready files
unfolding filter runs find_autosplit_tasks no_repeats
runs_own [] h = refl
runs_own ((stem, text) ∷ files) h = ground (
  arith,
  runs_own files,
  runs-other stem (find_autosplit_tasks files) files,
  autosplit-absent stem files,
  eq_refl stem,
  h,
)

-- Where the task files have distinct names, the queue that runs has, each once, the names of those whose
-- own frontmatter neither marks them for a split nor disables, quarantines or completes them, and whose
-- own priority the play filter admits.
pub live_ordered_queue-Perm :
    (repr : Json → String) (file : ConfigFile) (files : Dict String)
    → no_repeats (names files) ≡ true
    → Permᴰ
        (names (filter (is_admitted (load_play_priorities file)) (filter is_ready files)))
        (live_ordered_queue repr file files)
unfolding live_ordered_queue queue_names
live_ordered_queue-Perm repr file files h =
    subst (Permᴰ _) (sym (play_filter_lem file files _ priorities)) (
      subst (λ xs. Permᴰ xs (filter (admits (load_play_priorities file) priorities) ordered))
        (ap (λ fs. filter (admits (load_play_priorities file) (queue_priorities fs [])) (names fs))
            own
          ∙ filter-names (load_play_priorities file) (filter is_ready files) []
              (distinct-filter is_ready files h))
        (filter-Perm _
          (order_stems-Perm repr file files (queue_names autosplit files) (some priorities) none)))
  where
    autosplit : List String
    autosplit = find_autosplit_tasks files

    priorities : Dict ℕ
    priorities = queue_priorities (filter (runs autosplit) files) []

    ordered : List String
    ordered = order_stems repr file files (queue_names autosplit files) (some priorities) none

    own : filter (runs autosplit) files ≡ filter is_ready files
    own = runs_own files h
