-- ===== src/Agent/Edits.antt =====
-- src/nightshift/agent/apply.py, lines 138-174: the blocks are applied one after the other.
use nightshift.Base.{
  ℕ, suc, ◌+◌, String, none, some, List, [], ◌∷◌, ◌==◌, if◌then◌else◌, text_take, text_drop,
  text_length, find, fstring, Result, ok, err, apply_error, ◌>>=◌,
}
use nightshift.Agent.Blocks.{Block}

-- `working[:first] + block.replace + working[first + len(block.search):]`
unfoldable pub replaced : Block → ℕ → String → String
unfolding fstring text_take text_drop text_length
replaced block first working = fstring (
    text_take first working
    ∷ block.replace
    ∷ text_drop (first + text_length block.search) working
    ∷ [])

unfoldable pub apply_found : ℕ → Block → ℕ → String → Result String
unfolding find replaced
apply_found index block first working = elim (find block.search (text_drop (suc first) working)) [
  | none ↦ ok (replaced block first working)
  | some second ↦ err (apply_error "multi_match" index "SEARCH text matched more than once")
]

-- One round of the loop.
unfoldable pub apply_block : ℕ → Block → String → Result String
unfolding apply_found find
apply_block index block working =
    if block.search == ""
    then if working == ""
      then ok block.replace
      else err (apply_error "create_conflict" index "empty SEARCH against non-empty content")
    else elim (find block.search working) [
      | none ↦ err (apply_error "zero_match" index "SEARCH text not found")
      | some first ↦ apply_found index block first working
    ]

-- The blocks from the one numbered `index` on.
unfoldable pub apply_from : ℕ → List Block → String → Result String
unfolding apply_block
apply_from index [] working = ok working
apply_from index (block ∷ blocks) working =
    apply_block index block working >>= apply_from (suc index) blocks

unfoldable pub apply_edits : String → List Block → Result String
unfolding apply_from
apply_edits original blocks = apply_from 0 blocks original
