-- ===== src/Agent/Examples.antt =====
-- Two blocks of src/nightshift/agent/apply.py on a small text.
use nightshift.Base.{
  String, [], ◌∷◌, ◌≡◌, ◌↔◌, refl, ok, err, apply_error, splitlines, strip, text_take, text_drop,
  text_length, fstring, join,
}
use nightshift.Agent.Blocks.{Block, parse_blocks}
use nightshift.Agent.Edits.{apply_edits}
use nightshift.Agent.Edited.{IsEdited, apply_edits_iff}
use nightshift.Agent.Fenced.{Fence, document, parse_blocks-document}

abbrev swap : Block
swap = record { search = "b"; replace = "c" }

abbrev twice : Block
twice = record { search = "a"; replace = "" }

apply_edits_iff_example :
    (apply_edits "aba" (swap ∷ []) ≡ ok "aca") ↔ IsEdited (swap ∷ []) "aba" "aca"
apply_edits_iff_example = apply_edits_iff "aba" "aca" (swap ∷ [])

swaps : apply_edits "aba" (swap ∷ []) ≡ ok "aca"
unfolding apply_edits fstring text_take text_drop text_length
swaps = refl

refuses :
    apply_edits "aba" (swap ∷ twice ∷ [])
    ≡ err (apply_error "multi_match" 1 "SEARCH text matched more than once")
unfolding apply_edits fstring text_take text_drop text_length
refuses = refl

abbrev a_fence : Fence
a_fence = record { free = "First:" ∷ []; search_lines = "x" ∷ "y" ∷ []; replace_lines = "z" ∷ [] }

abbrev a_text : String
a_text = "First:\n<<<<<<< SEARCH\nx\ny\n=======\nz\n>>>>>>> REPLACE\nDone.\n"

parse_blocks-document_example :
    parse_blocks a_text ≡ ok (record { search = "x\ny"; replace = "z" } ∷ [])
unfolding splitlines document strip join
parse_blocks-document_example =
    parse_blocks-document a_text (a_fence ∷ []) ("Done." ∷ []) refl refl refl
