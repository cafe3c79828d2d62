-- ===== src/Agent/Fenced.antt =====
-- The round trip of `parse_blocks` in src/nightshift/agent/apply.py, on lines.
use nightshift.Base.{
  ℕ, suc, String, Bool, true, not, ◌&&◌, List, [], ◌∷◌, ◌++◌, ◌≡◌, refl, ap, sym, ◌∙◌, arith, ◌==◌,
  all, map, join, strip, splitlines, Result, ok, ◌>>=◌,
}
use mathlib.Core.List.{append_assoc, append-nil}
use nightshift.Agent.Blocks.{
  search_marker, divider_marker, replace_marker, Block, parse_blocks, outside, in_search,
  in_replace,
}

-- A block as its lines, behind free text.
pub record Fence : Type 0 where
  pub free : List String
  pub search_lines : List String
  pub replace_lines : List String

abbrev pub not_opening : String → Bool
not_opening line = not (strip line == search_marker)

abbrev is_plain : String → Bool
is_plain line =
    not (strip line == search_marker)
    && (not (strip line == divider_marker) && not (strip line == replace_marker))

-- No line of the free text opens a block, and no line of the halves is a marker.
abbrev pub is_fence : Fence → Bool
is_fence f = all not_opening f.free && (all is_plain f.search_lines && all is_plain f.replace_lines)

unfoldable pub fence_lines : Fence → List String → List String
fence_lines f rest =
    f.free
    ++ (search_marker
        ∷ (f.search_lines ++ (divider_marker ∷ (f.replace_lines ++ (replace_marker ∷ rest)))))

unfoldable pub document : List Fence → List String → List String
unfolding fence_lines
document [] tail = tail
document (f ∷ fences) tail = fence_lines f (document fences tail)

abbrev pub block_of : Fence → Block
block_of f = record { search = join "\n" f.search_lines; replace = join "\n" f.replace_lines }

free-skipped :
    (index : ℕ) (free rest : List String)
    → all not_opening free ≡ true
    → outside index (free ++ rest) ≡ outside index rest
unfolding outside
free-skipped index [] rest h = refl
free-skipped index (line ∷ free) rest h = ground (arith, free-skipped index free rest)

search-plain :
    (index : ℕ) (found : List String) (line : String) (rest : List String)
    → is_plain line ≡ true
    → in_search index found (line ∷ rest) ≡ in_search index (found ++ (line ∷ [])) rest
unfolding outside
search-plain index found line rest h = ground arith

replace-plain :
    (index : ℕ) (found put : List String) (line : String) (rest : List String)
    → is_plain line ≡ true
    → in_replace index found put (line ∷ rest) ≡ in_replace index found (put ++ (line ∷ [])) rest
unfolding outside
replace-plain index found put line rest h = ground arith

search-collected :
    (index : ℕ) (found lines rest : List String)
    → all is_plain lines ≡ true
    → in_search index found (lines ++ rest) ≡ in_search index (found ++ lines) rest
search-collected index found [] rest h = ap (λ f. in_search index f rest) (sym (append-nil found))
search-collected index found (line ∷ lines) rest h =
    search-plain index found line (lines ++ rest) (ground (arith, h))
    ∙ search-collected index (found ++ (line ∷ [])) lines rest (ground (arith, h))
    ∙ ap (λ f. in_search index f rest) (append_assoc found (line ∷ []) lines)

replace-collected :
    (index : ℕ) (found put lines rest : List String)
    → all is_plain lines ≡ true
    → in_replace index found put (lines ++ rest) ≡ in_replace index found (put ++ lines) rest
replace-collected index found put [] rest h =
    ap (λ p. in_replace index found p rest) (sym (append-nil put))
replace-collected index found put (line ∷ lines) rest h =
    replace-plain index found put line (lines ++ rest) (ground (arith, h))
    ∙ replace-collected index found (put ++ (line ∷ [])) lines rest (ground (arith, h))
    ∙ ap (λ p. in_replace index found p rest) (append_assoc put (line ∷ []) lines)

abbrev after_block : ℕ → List String → List String → List String → Result (List Block)
after_block index found put rest = outside (suc index) rest >>= λ blocks.
    ok (record { search = join "\n" found; replace = join "\n" put } ∷ blocks)

opened :
    (index : ℕ) (rest : List String)
    → outside index (search_marker ∷ rest) ≡ in_search index [] rest
unfolding outside strip
opened index rest = refl

divided :
    (index : ℕ) (found rest : List String)
    → in_search index found (divider_marker ∷ rest) ≡ in_replace index found [] rest
unfolding outside strip
divided index found rest = refl

closed :
    (index : ℕ) (found put rest : List String)
    → in_replace index found put (replace_marker ∷ rest) ≡ after_block index found put rest
unfolding outside strip
closed index found put rest = refl

fence-parsed :
    (index : ℕ) (f : Fence) (rest : List String)
    → is_fence f ≡ true
    → outside index (fence_lines f rest) ≡ after_block index f.search_lines f.replace_lines rest
unfolding fence_lines
fence-parsed index f rest h =
    free-skipped index f.free _ (ground (arith, h))
    ∙ opened index _
    ∙ search-collected index [] f.search_lines _ (ground (arith, h))
    ∙ divided index f.search_lines _
    ∙ replace-collected index f.search_lines [] f.replace_lines _ (ground (arith, h))
    ∙ closed index f.search_lines f.replace_lines rest

tail-skipped :
    (index : ℕ) (tail : List String) → all not_opening tail ≡ true → outside index tail ≡ ok []
unfolding outside
tail-skipped index [] h = refl
tail-skipped index (line ∷ tail) h = ground (arith, tail-skipped index tail)

outside-document :
    (index : ℕ) (fences : List Fence) (tail : List String)
    → all is_fence fences ≡ true
    → all not_opening tail ≡ true
    → outside index (document fences tail) ≡ ok (map block_of fences)
unfolding document
outside-document index [] tail h k = tail-skipped index tail k
outside-document index (f ∷ fences) tail h k =
    fence-parsed index f (document fences tail) (ground (arith, h))
    ∙ ap (λ r. r >>= λ blocks. ok (block_of f ∷ blocks))
        (outside-document (suc index) fences tail (ground (arith, h)) k)

-- A text whose lines are fenced blocks with free text around them is parsed to those blocks, each half
-- being its lines joined by line feeds, as long as no line of a block is a marker and no line of the free
-- text opens a block. The lines are those of `splitlines`; other line breaks than line feeds are lost.
pub parse_blocks-document :
    (text : String) (fences : List Fence) (tail : List String)
    → splitlines text ≡ document fences tail
    → all is_fence fences ≡ true
    → all not_opening tail ≡ true
    → parse_blocks text ≡ ok (map block_of fences)
unfolding parse_blocks
parse_blocks-document text fences tail lines h k =
    ap (outside 0) lines ∙ outside-document 0 fences tail h k
