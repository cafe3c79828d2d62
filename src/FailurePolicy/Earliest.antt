-- ===== src/FailurePolicy/Earliest.antt =====
-- What `pick_retry` of src/nightshift/manager/failure_policy.py picks.
use nightshift.Base.{
  ℕ, String, Bool, true, some, List, [], ◌∷◌, ◌++◌, ◌≡◌, refl, arith, subst, Bool-cases, inl, inr,
  ap, sym, Dict, ltb, leb, all, if◌then◌else◌, suc, ◌+◌, ◌==◌, ◌∙◌, not, false, is_some, length,
  contains, lookup, insert, lookup-insert, eq_iff, no_repeats,
}
use mathlib.Core.List.{append_assoc}
use nightshift.FailurePolicy.Pick.{ranks_from, ranks, rank_of, first_ranked, pick_retry}

-- The picked task stands behind tasks of a higher rank and before tasks of no lower rank.
pub record IsEarliest (rank : String → ℕ) (tasks : List String) (picked : String) : Type 0 where
  pub before : List String
  pub after : List String
  pub split : tasks ≡ before ++ (picked ∷ after)
  pub higher : all (λ t. ltb (rank picked) (rank t)) before ≡ true
  pub no_lower : all (λ t. leb (rank picked) (rank t)) after ≡ true

all-append :
    (p : String → Bool) (xs ys : List String)
    → all p xs ≡ true
    → all p ys ≡ true
    → all p (xs ++ ys) ≡ true
all-append p [] ys h k = k
all-append p (x ∷ xs) ys h k = ground (arith, all-append p xs ys)

module _ (rank : Dict ℕ) where
  abbrev all_higher : String → List String → Bool
  all_higher b = all (λ t. ltb (rank_of rank b) (rank_of rank t))

  abbrev none_lower : String → List String → Bool
  none_lower b = all (λ t. leb (rank_of rank b) (rank_of rank t))

  lower_best :
      (t best : String) (xs : List String)
      → ltb (rank_of rank t) (rank_of rank best) ≡ true
      → none_lower best xs ≡ true
      → all_higher t xs ≡ true
  lower_best t best [] l h = refl
  lower_best t best (x ∷ xs) l h = ground (arith, lower_best t best xs)

  weaken :
      (best : String) (xs : List String) → all_higher best xs ≡ true → none_lower best xs ≡ true
  weaken best [] h = refl
  weaken best (x ∷ xs) h = ground (arith, weaken best xs)

  -- `best` stands behind `before`, whose ranks are higher, and before `passed`, whose are no lower.
  scan :
      (before passed rest : List String) (best : String)
      → all_higher best before ≡ true
      → none_lower best passed ≡ true
      → IsEarliest
          (rank_of rank)
          (before ++ (best ∷ (passed ++ rest)))
          (first_ranked rank best rest)
  unfolding first_ranked
  scan before passed [] best h k = record {
    before = before;
    after = passed ++ [];
    split = refl;
    higher = h;
    no_lower = all-append _ passed [] k refl;
  }
  scan before passed (t ∷ rest) best h k =
      elim (Bool-cases (ltb (rank_of rank t) (rank_of rank best))) [
        | inl lower ↦
            subst (IsEarliest (rank_of rank) (before ++ (best ∷ (passed ++ (t ∷ rest)))))
              (sym (ap (λ b. first_ranked rank (if b then t else best) rest) lower))
              (subst (λ xs. IsEarliest (rank_of rank) xs (first_ranked rank t rest))
                (append_assoc before (best ∷ passed) (t ∷ rest))
                (scan (before ++ (best ∷ passed)) [] rest t
                  (lower_best t best (before ++ (best ∷ passed)) lower (
                    all-append _ before (best ∷ passed) (weaken best before h) (ground (arith, k))))
                  refl))
        | inr no_lower ↦
            subst (IsEarliest (rank_of rank) (before ++ (best ∷ (passed ++ (t ∷ rest)))))
              (sym (ap (λ b. first_ranked rank (if b then t else best) rest) no_lower))
              (subst
                (λ xs.
                  IsEarliest (rank_of rank) (before ++ (best ∷ xs)) (first_ranked rank best rest))
                (append_assoc passed (t ∷ []) rest)
                (scan before (passed ++ (t ∷ [])) rest best h
                  (all-append _ passed (t ∷ []) k (ground (arith, no_lower)))))
      ]

-- The place of a task in the order; a task that is not in it comes after every other.
unfoldable pub place : List String → String → ℕ
place [] t = 0
place (x ∷ order) t = if x == t then 0 else suc (place order t)

place-absent :
    (order : List String) (t : String) → contains order t ≡ false → place order t ≡ length order
unfolding place
place-absent [] t h = refl
place-absent (x ∷ order) t h = ground (arith, place-absent order t)

lookup-ranks_from :
    (t : String) (i : ℕ) (order : List String) (d : Dict ℕ)
    → no_repeats order ≡ true
    → lookup t (ranks_from i order d)
      ≡ (if contains order t then some (i + place order t) else lookup t d)
unfolding ranks_from place no_repeats
lookup-ranks_from t i [] d h = refl
lookup-ranks_from t i (x ∷ order) d h =
    ground (
      arith,
      lookup-ranks_from t (suc i) order (insert x i d),
      lookup-insert x t i d,
      eq_iff x t,
      h,
    )

length-insert :
    (k : String) (v : ℕ) (d : Dict ℕ)
    → is_some (lookup k d) ≡ false
    → length (insert k v d) ≡ suc (length d)
unfolding insert lookup
length-insert k v [] h = refl
length-insert k v ((j, w) ∷ d) h = ground (arith, length-insert k v d)

abbrev are_new : Dict ℕ → List String → Bool
are_new d = all (λ x. not (is_some (lookup x d)))

new-insert :
    (k : String) (v : ℕ) (d : Dict ℕ) (order : List String)
    → contains order k ≡ false
    → are_new d order ≡ true
    → are_new (insert k v d) order ≡ true
new-insert k v d [] h n = refl
new-insert k v d (x ∷ order) h n =
    ground (arith, new-insert k v d order, lookup-insert k x v d, eq_iff k x, eq_iff x k, h, n)

length-ranks_from :
    (i : ℕ) (order : List String) (d : Dict ℕ)
    → no_repeats order ≡ true
    → are_new d order ≡ true
    → length (ranks_from i order d) ≡ length d + length order
unfolding ranks_from no_repeats
length-ranks_from i [] d h n = ground arith
length-ranks_from i (x ∷ order) d h n = ground (
  arith,
  length-ranks_from (suc i) order (insert x i d),
  length-insert x i d,
  new-insert x i d order,
  h,
  n,
)

all_new : (order : List String) → are_new [] order ≡ true
unfolding lookup
all_new [] = refl
all_new (x ∷ order) = all_new order

rank_of-ranks :
    (order : List String) (t : String)
    → no_repeats order ≡ true
    → rank_of (ranks order) t ≡ place order t
unfolding rank_of ranks lookup
rank_of-ranks order t h = ground (
  arith,
  lookup-ranks_from t 0 order [] h,
  length-ranks_from 0 order [] h (all_new order),
  place-absent order t,
)

all_same :
    (p q : String → Bool) (xs : List String)
    → ((x : String) → p x ≡ q x)
    → all p xs ≡ true
    → all q xs ≡ true
all_same p q [] same h = refl
all_same p q (x ∷ xs) same h = ground (arith, all_same p q xs same, same x, h)

place-IsEarliest :
    (order tasks : List String) (picked : String)
    → no_repeats order ≡ true
    → IsEarliest (rank_of (ranks order)) tasks picked
    → IsEarliest (place order) tasks picked
place-IsEarliest order tasks picked h e =
    let same = λ (t : String). rank_of-ranks order t h in
    record {
      before = e.before;
      after = e.after;
      split = e.split;
      higher =
          all_same _ _ e.before
            (λ t.
              ap (λ n. ltb n (rank_of (ranks order) t)) (same picked)
              ∙ ap (ltb (place order picked)) (same t))
            e.higher;
      no_lower =
          all_same _ _ e.after
            (λ t.
              ap (λ n. leb n (rank_of (ranks order) t)) (same picked)
              ∙ ap (leb (place order picked)) (same t))
            e.no_lower;
    }

some_inj : {x y : String} → some x ≡ some y → x ≡ y
some_inj h = cc

-- Where no task stands twice in the order, the picked one is the first of the retryable tasks with the
-- least place: the tasks before it have a higher place, those after it no lower one. A task that is not
-- in the order comes after every one that is.
pub pick_retry-IsEarliest :
    (retryable order : List String) (picked : String)
    → no_repeats order ≡ true
    → pick_retry retryable order ≡ some picked
    → IsEarliest (place order) retryable picked
unfolding pick_retry
pick_retry-IsEarliest [] order picked distinct h = ground arith
pick_retry-IsEarliest (t ∷ retryable) order picked distinct h =
    place-IsEarliest order (t ∷ retryable) picked distinct (
      subst (IsEarliest (rank_of (ranks order)) (t ∷ retryable)) (some_inj h)
        (scan (ranks order) [] [] retryable t refl refl))
