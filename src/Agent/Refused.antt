-- ===== src/Agent/Refused.antt =====
-- Why `apply_edits` of src/nightshift/agent/apply.py refuses a batch of blocks.
use nightshift.Base.{
  ℕ, suc, ◌≤◌, String, some, List, [], ◌∷◌, ◌≡◌, ◌≢◌, sym, ap, ◌∙◌, arith, ◌==◌, eq_iff, inl, inr,
  Option-cases, Bool-cases, text_drop, find, Result, err, Error, apply_error, ◌>>=◌, Result-cases,
  subst,
}
use nightshift.Agent.Blocks.{Block}
use nightshift.Agent.Edits.{apply_found, apply_block, apply_from, apply_edits}
use nightshift.Agent.Occurrences.{occurrences, find-none, occurrences-find}
use nightshift.Agent.Edited.{IsEdit, apply_block-IsEdit, not_empty}

-- Why one block does not apply to a text, and the error that says so.
pub data IsRefused (index : ℕ) (block : Block) (s : String) : Error → Type 0 where
  conflict :
      block.search ≡ ""
      → s ≢ ""
      → IsRefused index block s
          (apply_error "create_conflict" index "empty SEARCH against non-empty content")
  absent :
      block.search ≢ ""
      → occurrences block.search s ≡ 0
      → IsRefused index block s (apply_error "zero_match" index "SEARCH text not found")
  repeated :
      block.search ≢ ""
      → 2 ≤ occurrences block.search s
      → IsRefused index block s
          (apply_error "multi_match" index "SEARCH text matched more than once")

-- The blocks before the refused one are edits; the error carries its number.
pub data IsAborted (e : Error) : ℕ → List Block → String → Type 0 where
  here :
      {index : ℕ} {block : Block} {blocks : List Block} {s : String}
      → IsRefused index block s e
      → IsAborted e index (block ∷ blocks) s
  later :
      {index : ℕ} {block : Block} {blocks : List Block} {s t : String}
      → IsEdit block s t
      → IsAborted e (suc index) blocks t
      → IsAborted e index (block ∷ blocks) s

same_error : {r : Result String} {d e : Error} → r ≡ err d → r ≡ err e → d ≡ e
same_error h k = cc

found_again :
    (part s : String) (i j : ℕ)
    → find part s ≡ some i
    → find part (text_drop (suc i) s) ≡ some j
    → 2 ≤ occurrences part s
found_again part s i j h k =
    ground (arith, occurrences-find part s i h, occurrences-find part (text_drop (suc i) s) j k)

apply_block-IsRefused :
    (index : ℕ) (block : Block) (s : String) (e : Error)
    → apply_block index block s ≡ err e
    → IsRefused index block s e
unfolding apply_block apply_found
apply_block-IsRefused index block s e h = elim (Bool-cases (block.search == "")) [
  | inl empty ↦ elim (Bool-cases (s == "")) [
    | inl blank ↦ ground arith
    | inr full ↦
        subst (IsRefused index block s)
          (same_error {r = apply_block index block s} (ground arith) h)
          (conflict ((eq_iff block.search "").0 empty) (not_empty s full))
  ]
  | inr named ↦
      let search_named = not_empty block.search named in
      elim (Option-cases (find block.search s)) [
        | inl missing ↦
            subst (IsRefused index block s)
              (same_error {r = apply_block index block s} (ground arith) h)
              (absent search_named (find-none block.search s missing))
        | inr (i, found) ↦ elim (Option-cases (find block.search (text_drop (suc i) s))) [
          | inl alone ↦ ground arith
          | inr (j, again) ↦
              subst (IsRefused index block s)
                (same_error {r = apply_block index block s} (ground arith) h)
                (repeated search_named (found_again block.search s i j found again))
        ]
      ]
]

apply_from-IsAborted :
    (index : ℕ) (blocks : List Block) (s : String) (e : Error)
    → apply_from index blocks s ≡ err e
    → IsAborted e index blocks s
unfolding apply_from
apply_from-IsAborted index [] s e h = ground arith
apply_from-IsAborted index (block ∷ blocks) s e h =
    elim (Result-cases (apply_block index block s)) [
      | inl (t, applied) ↦ later (apply_block-IsEdit index block s t applied) (
          apply_from-IsAborted (suc index) blocks t e
            (sym (ap (λ r. r >>= apply_from (suc index) blocks) applied) ∙ h))
      | inr (d, refused) ↦ here (
          subst (IsRefused index block s)
            (same_error {r = apply_from index (block ∷ blocks) s} (ground arith) h)
            (apply_block-IsRefused index block s d refused))
    ]

-- A batch that is refused names the first block that does not apply to what the earlier ones left,
-- and the error says why: content in the way of a creation, no occurrence, or more than one.
apply_edits-IsAborted :
    (original : String) (blocks : List Block) (e : Error)
    → apply_edits original blocks ≡ err e
    → IsAborted e 0 blocks original
unfolding apply_edits
apply_edits-IsAborted original blocks e h = apply_from-IsAborted 0 blocks original e h
