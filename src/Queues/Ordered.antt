-- ===== src/Queues/Ordered.antt =====
-- What `order_stems` and `live_ordered_queue` of src/nightshift/queue_config.py and
-- src/nightshift/task_files.py give.
use nightshift.Base.{
  ℕ, String, Bool, true, false, not, Option, List, [], ◌∷◌, ◌++◌, ◌==◌, ◌≡◌, refl, ap, sym, ◌∙◌,
  subst, arith, inl, inr, Bool-cases, all, Dict, filter, sort_by, sorted_by, sort_by-Perm,
  sort_by-sorted, IsKeyOrder, all-Perm, text_lt, text_lt-split, text_lt-asym, ltb, leb, ◌||◌, ◌&&◌,
  if◌then◌else◌, if_ind, Json,
}
use mathlib.Core.List.{Permᴰ}
use mathlib.Core.List.Permᴰ as P
use nightshift.FailurePolicy.{ranks}
use nightshift.Queues.Config.{ConfigFile, load_order, sort_priority}
use nightshift.Queues.Order.{
  ranked, index_in, manual_order, plays_before, priority_order, order_stems, mode_or, priorities_or,
  priority_of,
}

share :
    (b : Bool) (x : String) (xs kept others : List String)
    → Permᴰ xs (kept ++ others)
    → Permᴰ (x ∷ xs) ((if b then x ∷ kept else kept) ++ (if not b then x ∷ others else others))
share true x xs kept others h = P.cons refl h
share false x xs kept others h = P.trans (P.cons refl h) (P.symm (P.middle x kept others))

-- A filter and its negation share out the list.
split-Perm :
    (p : String → Bool) (xs : List String) → Permᴰ xs (filter p xs ++ filter (λ x. not (p x)) xs)
unfolding filter
split-Perm p [] = P.nil
split-Perm p (x ∷ xs) = share (p x) x xs _ _ (split-Perm p xs)

manual_order-Perm : (rank : Dict ℕ) (stems : List String) → Permᴰ stems (manual_order rank stems)
unfolding manual_order
manual_order-Perm rank stems = P.trans (split-Perm (ranked rank) stems) (
    P.trans
      (P.append_right _ (
        sort_by-Perm (λ s t. ltb (index_in rank s) (index_in rank t)) (filter (ranked rank) stems)))
      (P.append_left _ (sort_by-Perm text_lt (filter (λ s. not (ranked rank s)) stems))))

-- In every mode the tasks are ordered, and none is dropped or repeated.
pub order_stems-Perm :
    (repr : Json → String) (file : ConfigFile) (files : Dict String) (stems : List String)
    (priorities : Option (Dict ℕ)) (sort : Option String)
    → Permᴰ stems (order_stems repr file files stems priorities sort)
unfolding order_stems priority_order
order_stems-Perm repr file files stems priorities sort =
    let manual : Permᴰ stems (manual_order (ranks (load_order repr file)) stems) =
      manual_order-Perm (ranks (load_order repr file)) stems in
    if_ind (Permᴰ stems) (mode_or file sort == sort_priority)
      (P.trans manual (sort_by-Perm _ (manual_order (ranks (load_order repr file)) stems))) manual

-- Listed tasks by their rank, then the others by their name.
pub record IsManual (rank : Dict ℕ) (xs : List String) : Type 0 where
  pub listed : List String
  pub others : List String
  pub split : xs ≡ listed ++ others
  pub listed_ranked : all (ranked rank) listed ≡ true
  pub others_unranked : all (λ s. not (ranked rank s)) others ≡ true
  pub by_rank : sorted_by (λ s t. ltb (index_in rank s) (index_in rank t)) listed ≡ true
  pub by_name : sorted_by text_lt others ≡ true

all-filter : (p : String → Bool) (xs : List String) → all p (filter p xs) ≡ true
unfolding filter
all-filter p [] = refl
all-filter p (x ∷ xs) = elim (Bool-cases (p x)) [
  | inl kept ↦ ground (arith, all-filter p xs)
  | inr dropped ↦ ground (arith, all-filter p xs)
]

all-sorted :
    (p : String → Bool) (lt : String → String → Bool) (xs : List String)
    → all p (sort_by lt (filter p xs)) ≡ true
all-sorted p lt xs = sym (all-Perm p (sort_by-Perm lt (filter p xs))) ∙ all-filter p xs

rank-IsKeyOrder : (rank : Dict ℕ) → IsKeyOrder (λ s t. ltb (index_in rank s) (index_in rank t))
rank-IsKeyOrder rank = record {
  asymmetric = λ x y h. ground arith;
  splits = λ x y z h k. ground arith;
}

text-IsKeyOrder : IsKeyOrder text_lt
text-IsKeyOrder = record { asymmetric = text_lt-asym; splits = λ x y z. text_lt-split x y z }

plays-IsKeyOrder : (priorities index : Dict ℕ) → IsKeyOrder (plays_before priorities index)
unfolding plays_before
plays-IsKeyOrder priorities index = record {
  asymmetric = λ x y h. ground arith;
  splits = λ x y z h k. ground arith;
}

manual_order-IsManual :
    (rank : Dict ℕ) (stems : List String) → IsManual rank (manual_order rank stems)
unfolding manual_order
manual_order-IsManual rank stems = record {
  listed = sort_by (λ s t. ltb (index_in rank s) (index_in rank t)) (filter (ranked rank) stems);
  others = sort_by text_lt (filter (λ s. not (ranked rank s)) stems);
  split = refl;
  listed_ranked = all-sorted (ranked rank) _ stems;
  others_unranked = all-sorted (λ s. not (ranked rank s)) text_lt stems;
  by_rank = sort_by-sorted _ (filter (ranked rank) stems) (rank-IsKeyOrder rank);
  by_name = sort_by-sorted text_lt (filter (λ s. not (ranked rank s)) stems) text-IsKeyOrder;
}

-- 0 is the most urgent priority; between tasks of one priority the place in the manual order decides.
abbrev pub is_more_urgent : Dict ℕ → Dict ℕ → String → String → Bool
is_more_urgent priorities place s t =
    ltb (priority_of priorities s) (priority_of priorities t)
    || leb (priority_of priorities s) (priority_of priorities t)
      && ltb (index_in place s) (index_in place t)

-- The order of a mode: in priority mode by the priorities, where a manual order breaks the ties.
pub data IsInOrder (rank : Dict ℕ) (mode : String) (priorities : List String → Dict ℕ)
    : List String → Type 0 where
  manual :
      {xs : List String}
      → (mode == sort_priority) ≡ false
      → IsManual rank xs
      → IsInOrder rank mode priorities xs
  by_priority :
      {xs : List String} (others : List String)
      → (mode == sort_priority) ≡ true
      → IsManual rank others
      → Permᴰ others xs
      → sorted_by (is_more_urgent (priorities others) (ranks others)) xs ≡ true
      → IsInOrder rank mode priorities xs

order_stems-IsInOrder :
    (repr : Json → String) (file : ConfigFile) (files : Dict String) (stems : List String)
    (priorities : Option (Dict ℕ)) (sort : Option String)
    → IsInOrder
        (ranks (load_order repr file))
        (mode_or file sort)
        (λ ms. priorities_or files ms priorities)
        (order_stems repr file files stems priorities sort)
unfolding order_stems priority_order plays_before
order_stems-IsInOrder repr file files stems priorities sort =
    elim (Bool-cases (mode_or file sort == sort_priority)) [
      | inl mode ↦ subst (IsInOrder _ _ _) (sym (ap (λ b. if b then by_keys else in_order) mode)) (
          by_priority in_order mode (manual_order-IsManual _ stems) (sort_by-Perm _ in_order) (
            sort_by-sorted _ in_order
              (plays-IsKeyOrder (priorities_or files in_order priorities) (ranks in_order))))
      | inr mode ↦
          subst (IsInOrder _ _ _) (sym (ap (λ b. if b then by_keys else in_order) mode))
            (manual mode (manual_order-IsManual _ stems))
    ]
  where
    in_order : List String
    in_order = manual_order (ranks (load_order repr file)) stems

    by_keys : List String
    by_keys = priority_order (priorities_or files in_order priorities) in_order

-- No task is dropped or repeated, and they come in the order of the mode: listed tasks by their rank
-- and then the others by name, or by priority, the least number first, with that order between tasks
-- of one priority.
pub order_stems_ordered :
    (repr : Json → String) (file : ConfigFile) (files : Dict String) (stems : List String)
    (priorities : Option (Dict ℕ)) (sort : Option String)
    → Permᴰ stems (order_stems repr file files stems priorities sort)
      × IsInOrder
          (ranks (load_order repr file))
          (mode_or file sort)
          (λ ms. priorities_or files ms priorities)
          (order_stems repr file files stems priorities sort)
order_stems_ordered repr file files stems priorities sort = (
  order_stems-Perm repr file files stems priorities sort,
  order_stems-IsInOrder repr file files stems priorities sort,
)
