-- ===== src/Queues/Saved.antt =====
-- What the readers of src/nightshift/queue_config.py find after a write.
use nightshift.Base.{
  String, none, some, List, [], ◌∷◌, ◌≡◌, refl, ap, ◌∙◌, arith, lookup-insert, contains, inl, inr,
  Bool-cases, if◌then◌else◌, Json, str, arr, texts,
}
use nightshift.Queues.Config.{
  ConfigFile, loaded, load_order, save_order, order_of, text_items, load_sort_mode, save_sort_mode,
  save_queue_config_value, sort_modes, sort_manual, mode_of,
}
use nightshift.Queues.Order.{load_play_priorities, clean_priority_list}

text_items-texts :
    (repr : Json → String) (order : List String) → text_items repr (texts order) ≡ order
unfolding text_items texts
text_items-texts repr [] = refl
text_items-texts repr (s ∷ order) = ap (◌∷◌ s) (text_items-texts repr order)

-- The order that was saved is loaded again, whatever the file was, and the sort mode and the play
-- filter are those from before.
pub load_order-save_order :
    (repr : Json → String) (order : List String) (file : ConfigFile)
    → (load_order repr (save_order order file).1 ≡ order)
      × (load_sort_mode (save_order order file).1 ≡ load_sort_mode file)
      × (load_play_priorities (save_order order file).1 ≡ load_play_priorities file)
unfolding load_order save_order load_sort_mode load_play_priorities
load_order-save_order repr order file = (
  ap (order_of repr) (lookup-insert "order" "order" (arr (texts order)) (loaded file))
      ∙ text_items-texts repr order,
  ap mode_of (lookup-insert "order" "sort" (arr (texts order)) (loaded file)),
  ap (λ o. elim o [ none ↦ [] | some raw ↦ clean_priority_list raw ])
      (lookup-insert "order" "play_priorities" (arr (texts order)) (loaded file)),
)

abbrev known : String → String
known mode = if contains sort_modes mode then mode else sort_manual

mode_of-known : (mode : String) → mode_of (some (str (known mode))) ≡ known mode
mode_of-known mode = elim (Bool-cases (contains sort_modes mode)) [
  | inl listed ↦ ground arith
  | inr other ↦ ground arith
]

-- The sort mode that was saved is loaded again where it is a known one, and the manual mode for any
-- other; the order is that from before.
pub load_sort_mode-save_sort_mode :
    (repr : Json → String) (mode : String) (file : ConfigFile)
    → (load_sort_mode (save_sort_mode mode file).1
        ≡ (if contains sort_modes mode then mode else sort_manual))
      × (load_order repr (save_sort_mode mode file).1 ≡ load_order repr file)
unfolding save_sort_mode load_sort_mode load_order save_queue_config_value
load_sort_mode-save_sort_mode repr mode file = (
  ap mode_of (lookup-insert "sort" "sort" (str (known mode)) (loaded file)) ∙ mode_of-known mode,
  ap (order_of repr) (lookup-insert "sort" "order" (str (known mode)) (loaded file)),
)
