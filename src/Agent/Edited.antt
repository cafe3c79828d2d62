-- ===== src/Agent/Edited.antt =====
-- What `apply_edits` of src/nightshift/agent/apply.py does to a text.
use nightshift.Base.{
  ℕ, suc, ◌+◌, String, false, none, some, List, [], ◌∷◌, ◌≡◌, ◌≢◌, ◌↔◌, inl, inr, refl, ap, sym,
  ◌∙◌, arith, ◌==◌, eq_iff, eq_refl, text_take, text_drop, text_length, find, fstring, Option-cases,
  Bool-cases, ok, ◌>>=◌, Result-cases, subst,
}
use Prim.Native.String as S
use text.Mathlib.TextLemmas.{append-nil}
use nightshift.Agent.Blocks.{Block}
use nightshift.Agent.Edits.{replaced, apply_found, apply_block, apply_from, apply_edits}
use nightshift.Agent.Occurrences.{
  occurrences, find-none, none-find, occurrences-find, find-split, find_only, text_drop-append,
  text_take-append, text_drop-add,
}

-- One edit: an empty search text creates the text, and any other is replaced where it occurs, which
-- it does once.
pub data IsEdit (block : Block) : String → String → Type 0 where
  create : block.search ≡ "" → IsEdit block "" block.replace
  replace :
      (before after : String)
      → block.search ≢ ""
      → occurrences block.search (S.◌++◌ before (S.◌++◌ block.search after)) ≡ 1
      → IsEdit block
          (S.◌++◌ before (S.◌++◌ block.search after))
          (S.◌++◌ before (S.◌++◌ block.replace after))

-- The edits one after the other, each on what the earlier ones left.
pub data IsEdited : List Block → String → String → Type 0 where
  done : {s : String} → IsEdited [] s s
  edit :
      {block : Block} {blocks : List Block} {s t u : String}
      → IsEdit block s t
      → IsEdited blocks t u
      → IsEdited (block ∷ blocks) s u

replaced_lem :
    (block : Block) (first : ℕ) (s : String)
    → replaced block first s
      ≡ S.◌++◌
          (text_take first s)
          (S.◌++◌ block.replace (text_drop (text_length block.search) (text_drop first s)))
unfolding replaced fstring
replaced_lem block first s =
    ap (λ rest. S.◌++◌ (text_take first s) (S.◌++◌ block.replace rest))
      (append-nil (text_drop (first + text_length block.search) s)
        ∙ text_drop-add first (text_length block.search) s)

pub not_empty : (s : String) → (s == "") ≡ false → s ≢ ""
not_empty s h e = ground (arith, eq_iff s "")

once_found :
    (part s : String) (i : ℕ)
    → find part s ≡ some i
    → find part (text_drop (suc i) s) ≡ none
    → occurrences part s ≡ 1
once_found part s i h k =
    occurrences-find part s i h ∙ ap suc (find-none part (text_drop (suc i) s) k)

found-IsEdit :
    (block : Block) (s : String) (i : ℕ)
    → (block.search == "") ≡ false
    → find block.search s ≡ some i
    → find block.search (text_drop (suc i) s) ≡ none
    → IsEdit block s (replaced block i s)
found-IsEdit block s i named h k =
    subst (λ x. IsEdit block x (replaced block i s)) (sym split)
      (subst (IsEdit block (S.◌++◌ before (S.◌++◌ block.search after)))
        (sym (replaced_lem block i s))
        (replace before after (not_empty block.search named)
          (ap (occurrences block.search) (sym split) ∙ once_found block.search s i h k)))
  where
    before : String
    before = text_take i s

    after : String
    after = text_drop (text_length block.search) (text_drop i s)

    split : s ≡ S.◌++◌ before (S.◌++◌ block.search after)
    split = find-split block.search s i h

ok_inj : {s t : String} → ok s ≡ ok t → s ≡ t
ok_inj h = cc

pub apply_block-IsEdit :
    (index : ℕ) (block : Block) (s t : String) → apply_block index block s ≡ ok t → IsEdit block s t
unfolding apply_block apply_found
apply_block-IsEdit index block s t h = elim (Bool-cases (block.search == "")) [
  | inl empty ↦ elim (Bool-cases (s == "")) [
    | inl blank ↦
        subst (λ x. IsEdit block x t) (sym ((eq_iff s "").0 blank))
          (subst (IsEdit block "") (ok_inj (ground arith))
            (create ((eq_iff block.search "").0 empty)))
    | inr full ↦ ground arith
  ]
  | inr named ↦ elim (Option-cases (find block.search s)) [
    | inl missing ↦ ground arith
    | inr (i, found) ↦ elim (Option-cases (find block.search (text_drop (suc i) s))) [
      | inl alone ↦
          subst (IsEdit block s) (ok_inj (ground arith)) (found-IsEdit block s i named found alone)
      | inr (j, again) ↦ ground arith
    ]
  ]
]

replaced_only :
    (block : Block) (before after : String)
    → replaced block (text_length before) (S.◌++◌ before (S.◌++◌ block.search after))
      ≡ S.◌++◌ before (S.◌++◌ block.replace after)
replaced_only block before after =
    replaced_lem block (text_length before) (S.◌++◌ before (S.◌++◌ block.search after))
    ∙ ap
        (λ x. S.◌++◌ x (
          S.◌++◌ block.replace (
            text_drop (text_length block.search)
              (text_drop (text_length before) (S.◌++◌ before (S.◌++◌ block.search after))))))
        (text_take-append before (S.◌++◌ block.search after))
    ∙ ap (λ x. S.◌++◌ before (S.◌++◌ block.replace (text_drop (text_length block.search) x)))
        (text_drop-append before (S.◌++◌ block.search after))
    ∙ ap (λ x. S.◌++◌ before (S.◌++◌ block.replace x)) (text_drop-append block.search after)

alone :
    (part s : String) (i : ℕ)
    → find part s ≡ some i
    → occurrences part s ≡ 1
    → find part (text_drop (suc i) s) ≡ none
alone part s i h once =
    none-find part (text_drop (suc i) s) (ground (arith, occurrences-find part s i h))

IsEdit-apply_block :
    (index : ℕ) (block : Block) {s t : String} → IsEdit block s t → apply_block index block s ≡ ok t
unfolding apply_block apply_found
IsEdit-apply_block index block (create e) = ground (arith, eq_iff block.search "", eq_refl "")
IsEdit-apply_block index block (replace before after named once) =
    let whole = S.◌++◌ before (S.◌++◌ block.search after) in
    let first = find_only before block.search after named once in
    let no_other = alone block.search whole (text_length before) first once in
    ground (arith, eq_iff block.search "", first, no_other, replaced_only block before after)

apply_from-IsEdited :
    (index : ℕ) (blocks : List Block) (s u : String)
    → apply_from index blocks s ≡ ok u
    → IsEdited blocks s u
unfolding apply_from
apply_from-IsEdited index [] s u h = subst (IsEdited [] s) (ok_inj h) done
apply_from-IsEdited index (block ∷ blocks) s u h = elim (Result-cases (apply_block index block s)) [
  | inl (t, applied) ↦ edit (apply_block-IsEdit index block s t applied) (
      apply_from-IsEdited (suc index) blocks t u
        (sym (ap (λ r. r >>= apply_from (suc index) blocks) applied) ∙ h))
  | inr (e, refused) ↦ ground arith
]

IsEdited-apply_from :
    (index : ℕ) {blocks : List Block} {s u : String}
    → IsEdited blocks s u
    → apply_from index blocks s ≡ ok u
unfolding apply_from
IsEdited-apply_from index done = refl
IsEdited-apply_from index (edit {block} {blocks} one rest) =
    ap (λ r. r >>= apply_from (suc index) blocks) (IsEdit-apply_block index block one)
    ∙ IsEdited-apply_from (suc index) rest

-- The blocks are applied with success exactly if they are edits one after the other, each of a text
-- that occurs once or of nothing, and then the result is what the edits make of the original.
pub apply_edits_iff :
    (original result : String) (blocks : List Block)
    → (apply_edits original blocks ≡ ok result) ↔ IsEdited blocks original result
unfolding apply_edits
apply_edits_iff original result blocks =
    (apply_from-IsEdited 0 blocks original result, IsEdited-apply_from 0)
