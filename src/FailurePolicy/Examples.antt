-- ===== src/FailurePolicy/Examples.antt =====
-- A pick of src/nightshift/manager/failure_policy.py among three tasks.
use nightshift.Base.{no_repeats, some, [], ◌∷◌, ◌≡◌, refl}
use nightshift.FailurePolicy.Pick.{pick_retry}
use nightshift.FailurePolicy.Earliest.{IsEarliest, place, pick_retry-IsEarliest}

picks_first : pick_retry ("c" ∷ "b" ∷ "a" ∷ []) ("a" ∷ "b" ∷ []) ≡ some "a"
unfolding pick_retry
picks_first = refl

pick_retry-IsEarliest_example : IsEarliest (place ("a" ∷ "b" ∷ [])) ("c" ∷ "b" ∷ "a" ∷ []) "a"
unfolding no_repeats
pick_retry-IsEarliest_example =
    pick_retry-IsEarliest ("c" ∷ "b" ∷ "a" ∷ []) ("a" ∷ "b" ∷ []) "a" refl picks_first
