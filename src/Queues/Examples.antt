-- ===== src/Queues/Examples.antt =====
-- A queue of three task files in src/nightshift/queue_config.py and src/nightshift/task_files.py.
use nightshift.Base.{
  bool, true, no_repeats, String, none, some, [], ◌∷◌, ◌≡◌, refl, Dict, Json, int, arr, str, cons,
  nil, pos, texts, filter,
}
use mathlib.Core.List.{Permᴰ}
use nightshift.FailurePolicy.{ranks}
use nightshift.Queues.Config.{ConfigFile, settings, missing, load_order, save_order, load_sort_mode}
use nightshift.Queues.Order.{
  load_play_priorities, order_stems, reorder_queue, mode_or, priorities_or,
}
use nightshift.Queues.Scan.{live_ordered_queue}
use nightshift.Queues.Ordered.{IsInOrder, order_stems_ordered}
use nightshift.Queues.Fence.{set_frontmatter_text}
use nightshift.Queues.Runnable.{names, is_ready, is_admitted, live_ordered_queue-Perm}
use nightshift.Queues.Saved.{load_order-save_order}
use nightshift.Queues.Reordered.{load_order-reorder_queue}

abbrev no_repr : Json → String
no_repr v = ""

abbrev by_hand : ConfigFile
by_hand = settings (
    ("order", arr (texts ("c" ∷ "a" ∷ [])))
    ∷ ("sort", str "priority")
    ∷ ("play_priorities", arr (cons (int (pos 1)) (cons (int (pos 5)) nil)))
    ∷ [])

abbrev briefs : Dict String
briefs =
    ("a", "Fix it.")
    ∷ ("b", "---\npriority: 1\n---\nFix that.")
    ∷ ("c", "---\ndisabled: True\n---\nWait.")
    ∷ ("d", "---\npriority: 3\n---\nNot now.")
    ∷ []

live : live_ordered_queue no_repr by_hand briefs ≡ "b" ∷ "a" ∷ []
unfolding live_ordered_queue texts
live = refl

manual_first :
    order_stems no_repr by_hand briefs ("a" ∷ "b" ∷ "c" ∷ []) none (some "manual")
    ≡ "c" ∷ "a" ∷ "b" ∷ []
unfolding order_stems texts
manual_first = refl

order_stems_ordered_example :
    Permᴰ
      ("a" ∷ "b" ∷ "c" ∷ [])
      (order_stems no_repr by_hand briefs ("a" ∷ "b" ∷ "c" ∷ []) none none)
    × IsInOrder
        (ranks (load_order no_repr by_hand))
        (mode_or by_hand none)
        (λ ms. priorities_or briefs ms none)
        (order_stems no_repr by_hand briefs ("a" ∷ "b" ∷ "c" ∷ []) none none)
order_stems_ordered_example =
    order_stems_ordered no_repr by_hand briefs ("a" ∷ "b" ∷ "c" ∷ []) none none

live_ordered_queue-Perm_example :
    Permᴰ
      (names (filter (is_admitted (load_play_priorities by_hand)) (filter is_ready briefs)))
      (live_ordered_queue no_repr by_hand briefs)
unfolding no_repeats
live_ordered_queue-Perm_example = live_ordered_queue-Perm no_repr by_hand briefs refl

load_order-save_order_example :
    (load_order no_repr (save_order ("b" ∷ "a" ∷ []) by_hand).1 ≡ "b" ∷ "a" ∷ [])
    × (load_sort_mode (save_order ("b" ∷ "a" ∷ []) by_hand).1 ≡ load_sort_mode by_hand)
    × (load_play_priorities (save_order ("b" ∷ "a" ∷ []) by_hand).1 ≡ load_play_priorities by_hand)
load_order-save_order_example = load_order-save_order no_repr ("b" ∷ "a" ∷ []) by_hand

load_order-reorder_queue_example :
    Permᴰ
      ("a" ∷ "b" ∷ "c" ∷ [])
      (load_order no_repr (reorder_queue ("a" ∷ "b" ∷ "c" ∷ []) ("c" ∷ "x" ∷ "c" ∷ []) missing).1)
unfolding no_repeats
load_order-reorder_queue_example =
    load_order-reorder_queue no_repr ("a" ∷ "b" ∷ "c" ∷ []) ("c" ∷ "x" ∷ "c" ∷ []) missing refl

rewrites :
    set_frontmatter_text no_repr "---\n# mine\npriority: 1\nmodel: a\n---\n\nFix it.\n"
      (("priority", some (str "2")) ∷ ("model", none) ∷ ("disabled", some (bool true)) ∷ [])
    ≡ "---\n# mine\npriority: 2\ndisabled: true\n---\n\nFix it.\n"
unfolding set_frontmatter_text
rewrites = refl
