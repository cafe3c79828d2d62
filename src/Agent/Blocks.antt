-- ===== src/Agent/Blocks.antt =====
-- src/nightshift/agent/apply.py, lines 39-135: the blocks and their parser. Each of the nested loops
-- is a function on the lines that are left.
use nightshift.Base.{
  ℕ, suc, String, true, false, ◌||◌, List, [], ◌∷◌, ◌++◌, ◌==◌, fstring, join, strip, splitlines,
  Result, ok, err, apply_error, ◌>>=◌,
}

abbrev pub search_marker : String
search_marker = "<<<<<<< SEARCH"

abbrev pub divider_marker : String
divider_marker = "======="

abbrev pub replace_marker : String
replace_marker = ">>>>>>> REPLACE"

pub record Block : Type 0 where
  pub search : String
  pub replace : String

malformed : ℕ → String → Result (List Block)
malformed index message = err (apply_error "malformed" index message)

expected : ℕ → String → String → Result (List Block)
unfolding malformed
expected index marker line =
    malformed index (fstring ("expected '" ∷ marker ∷ "' before '" ∷ strip line ∷ "'" ∷ []))

unterminated : ℕ → String → String → Result (List Block)
unfolding malformed
unterminated index half marker =
    malformed index (fstring ("unterminated " ∷ half ∷ " block: missing '" ∷ marker ∷ "'" ∷ []))

abbrev block_of : List String → List String → Block
block_of search_lines replace_lines = record {
  search = join "\n" search_lines;
  replace = join "\n" replace_lines;
}

-- `index` is the number of the blocks so far, which `outside` puts before the rest.
unfoldable mutual
  unfolding expected unterminated

  pub outside : ℕ → List String → Result (List Block)
  outside index [] = ok []
  outside index (line ∷ lines) = elim (strip line == search_marker) [
    | true ↦ in_search index [] lines
    | false ↦ outside index lines
  ]

  pub in_search : ℕ → List String → List String → Result (List Block)
  in_search index found [] = unterminated index "SEARCH" divider_marker
  in_search index found (line ∷ lines) = elim (strip line == divider_marker) [
    | true ↦ in_replace index found [] lines
    | false ↦ elim (strip line == search_marker || strip line == replace_marker) [
      | true ↦ expected index divider_marker line
      | false ↦ in_search index (found ++ (line ∷ [])) lines
    ]
  ]

  pub in_replace : ℕ → List String → List String → List String → Result (List Block)
  in_replace index found put [] = unterminated index "REPLACE" replace_marker
  in_replace index found put (line ∷ lines) = elim (strip line == replace_marker) [
    | true ↦ outside (suc index) lines >>= λ blocks. ok (block_of found put ∷ blocks)
    | false ↦ elim (strip line == search_marker || strip line == divider_marker) [
      | true ↦ expected index replace_marker line
      | false ↦ in_replace index found (put ++ (line ∷ [])) lines
    ]
  ]

unfoldable pub parse_blocks : String → Result (List Block)
unfolding outside splitlines
parse_blocks text = outside 0 (splitlines text)
