-- ===== src/Queues/Config.antt =====
-- src/nightshift/queue_config.py: a queue's config.json, its order, sort mode and play filter. The
-- text of the file is what `json.loads` makes of it, which `json.dumps` gives back. `repr` stands for
-- Python's `str` of the numbers with a point, the lists and the dictionaries.
use nightshift.Base.{
  zero, String, Bool, true, false, Option, none, some, List, [], ◌∷◌, ◌==◌, contains, Dict, lookup,
  insert, if◌then◌else◌, pos, show_ℤ, Json, null, bool, int, float, str, arr, obj, Items, nil, cons,
  member, end, texts, strip,
}

-- A file that is absent, that is not JSON, that holds a value other than an object, or an object.
pub data ConfigFile : Type 0 where
  missing malformed : ConfigFile
  value : Json → ConfigFile
  settings : Dict Json → ConfigFile

-- The keys of the file, where it holds an object.
unfoldable pub loaded : ConfigFile → Dict Json
loaded missing = []
loaded malformed = []
loaded (value v) = []
loaded (settings entries) = entries

abbrev pub sort_manual : String
sort_manual = "manual"

abbrev pub sort_priority : String
sort_priority = "priority"

abbrev pub sort_modes : List String
sort_modes = sort_manual ∷ sort_priority ∷ []

unfoldable pub normalize_validate_command : String → String
unfolding strip
normalize_validate_command text =
    if contains ("" ∷ "''" ∷ "\"\"" ∷ []) (strip text) then "" else strip text

-- `bool(v)`
unfoldable pub truth : Json → Bool
truth null = false
truth (bool b) = b
truth (int (pos zero)) = false
truth (int n) = true
truth (float x) = elim x.mantissa [ pos zero ↦ false | _ ↦ true ]
truth (str s) = elim (s == "") [ true ↦ false | false ↦ true ]
truth (arr nil) = false
truth (arr (cons v vs)) = true
truth (obj end) = false
truth (obj (member k v vs)) = true

unfoldable pub ci_monitoring_enabled : Dict Json → Bool
unfolding lookup truth
ci_monitoring_enabled config = elim (lookup "ci_monitoring" config) [
  | none ↦ false
  | some v ↦ truth v
]

-- `str(name)`
unfoldable pub text_of : (Json → String) → Json → String
unfolding show_ℤ
text_of repr (str s) = s
text_of repr (int n) = show_ℤ n
text_of repr (bool true) = "True"
text_of repr (bool false) = "False"
text_of repr null = "None"
text_of repr v = repr v

unfoldable pub text_items : (Json → String) → Items → List String
unfolding text_of
text_items repr nil = []
text_items repr (cons v vs) = text_of repr v ∷ text_items repr vs

-- `[str(name) for name in order]` where the value is a list.
unfoldable pub order_of : (Json → String) → Option Json → List String
unfolding text_items
order_of repr (some (arr vs)) = text_items repr vs
order_of repr _ = []

unfoldable pub load_order : (Json → String) → ConfigFile → List String
unfolding order_of loaded lookup
load_order repr file = order_of repr (lookup "order" (loaded file))

unfoldable pub save_order : List String → ConfigFile → List String × ConfigFile
unfolding loaded insert texts
save_order order file = (order, settings (insert "order" (arr (texts order)) (loaded file)))

-- `entries.pop(key, None)`
unfoldable pub pop : String → Dict Json → Dict Json
pop key [] = []
pop key ((k, v) ∷ entries) =
    let rest = pop key entries in if k == key then entries else (k, v) ∷ rest

unfoldable pub save_queue_config_value : String → Json → ConfigFile → Json × ConfigFile
unfolding loaded insert pop
save_queue_config_value key null file = (null, settings (pop key (loaded file)))
save_queue_config_value key v file = (v, settings (insert key v (loaded file)))

unfoldable pub set_ci_monitoring : Bool → ConfigFile → ConfigFile
unfolding save_queue_config_value
set_ci_monitoring enabled file = (save_queue_config_value "ci_monitoring" (bool enabled) file).1

abbrev pub mode_of : Option Json → String
mode_of (some (str mode)) = if contains sort_modes mode then mode else sort_manual
mode_of _ = sort_manual

unfoldable pub load_sort_mode : ConfigFile → String
unfolding loaded lookup
load_sort_mode file = mode_of (lookup "sort" (loaded file))

unfoldable pub save_sort_mode : String → ConfigFile → String × ConfigFile
unfolding save_queue_config_value
save_sort_mode mode file =
    let clean = if contains sort_modes mode then mode else sort_manual in
    (clean, (save_queue_config_value "sort" (str clean) file).1)
