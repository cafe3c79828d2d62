-- ===== src/Scheduler/Arbitration.antt =====
-- The order of `arbitrate` in src/nightshift/manager/scheduler.py.
use nightshift.Base.{
  text_lt-split, text_lt-asym, true, false, none, some, List, [], ◌∷◌, ◌≡◌, refl, arith, Bool-cases,
  inl, inr, subst, sym, if◌then◌else◌,
}
use mathlib.Core.List.{Memᴰ}
use mathlib.Core.List.Memᴰ as M
use nightshift.Scheduler.Workers.{TaskCandidate}
use nightshift.Scheduler.Heads.{Key, key_lt, SchedulerState, key_of, least, arbitrate}

-- Where one key is less than another, any third is above the one or below the other.
key_lt-split : (x y z : Key) → key_lt x z ≡ true → key_lt x y ≡ false → key_lt y z ≡ true
unfolding key_lt
key_lt-split (p, (n, a)) (q, (m, b)) (r, (o, c)) h k = ground (arith, text_lt-split a b c)

key_lt-asym : (x y : Key) → key_lt x y ≡ true → key_lt y x ≡ false
unfolding key_lt
key_lt-asym (p, (n, a)) (q, (m, b)) h = ground (arith, text_lt-asym a b)

pub some_inj : {x y : TaskCandidate} → some x ≡ some y → x ≡ y
some_inj h = cc

module _ (state : SchedulerState) where
  least-if :
      (best c : TaskCandidate) (heads : List TaskCandidate) (P : TaskCandidate → Type 0)
      → (key_lt (key_of state c) (key_of state best) ≡ true → P (least state c heads))
      → (key_lt (key_of state c) (key_of state best) ≡ false → P (least state best heads))
      → P (least state best (c ∷ heads))
  unfolding least
  least-if best c heads P lt ge = elim (Bool-cases (key_lt (key_of state c) (key_of state best))) [
    | inl h ↦ subst (λ b. P (least state (if b then c else best) heads)) (sym h) (lt h)
    | inr h ↦ subst (λ b. P (least state (if b then c else best) heads)) (sym h) (ge h)
  ]

  least_mem :
      (best : TaskCandidate) (heads : List TaskCandidate)
      → Memᴰ (least state best heads) (best ∷ heads)
  unfolding least
  least_mem best [] = M.head refl
  least_mem best (c ∷ heads) =
      least-if best c heads (λ x. Memᴰ x (best ∷ c ∷ heads)) (λ h. M.tail (least_mem c heads))
        (λ h. skip (least_mem best heads))
    where
      skip : {x : TaskCandidate} → Memᴰ x (best ∷ heads) → Memᴰ x (best ∷ c ∷ heads)
      skip (M.head e) = M.head e
      skip (M.tail m) = M.tail (M.tail m)

  abbrev NotBelow : TaskCandidate → TaskCandidate → Type 0
  NotBelow d x = key_lt (key_of state d) (key_of state x) ≡ false

  NotBelow-from : (a b x : TaskCandidate) → NotBelow a b → NotBelow b x → NotBelow a x
  NotBelow-from a b x h k =
      ground (arith, key_lt-split (key_of state a) (key_of state b) (key_of state x))

  least-best :
      (best : TaskCandidate) (heads : List TaskCandidate) → NotBelow best (least state best heads)
  unfolding least
  least-best best [] = ground (arith, key_lt-asym (key_of state best) (key_of state best))
  least-best best (c ∷ heads) =
      least-if best c heads (NotBelow best)
        (λ h.
          NotBelow-from best c (least state c heads)
            (key_lt-asym (key_of state c) (key_of state best) h) (least-best c heads))
        (λ h. least-best best heads)

  least-heads :
      (best : TaskCandidate) (heads : List TaskCandidate) (d : TaskCandidate)
      → Memᴰ d heads
      → NotBelow d (least state best heads)
  least-heads best [] d m = elim m [ ]
  least-heads best (c ∷ heads) d (M.head e) =
      least-if best c heads (NotBelow d)
        (λ h. subst (λ x. NotBelow x (least state c heads)) (sym e) (least-best c heads))
        (λ h.
          subst (λ x. NotBelow x (least state best heads)) (sym e)
            (NotBelow-from c best (least state best heads) h (least-best best heads)))
  least-heads best (c ∷ heads) d (M.tail m) =
      least-if best c heads (NotBelow d) (λ h. least-heads c heads d m)
        (λ h. least-heads best heads d m)

  least-all :
      (best : TaskCandidate) (heads : List TaskCandidate) (d : TaskCandidate)
      → Memᴰ d (best ∷ heads)
      → NotBelow d (least state best heads)
  least-all best heads d (M.head e) =
      subst (λ x. NotBelow x (least state best heads)) (sym e) (least-best best heads)
  least-all best heads d (M.tail m) = least-heads best heads d m

  -- The chosen task is one of the heads, and no head has a lower priority number, or with the same
  -- priority a queue that was served less, or with both a label that comes first.
  pub arbitrate_least :
      (heads : List TaskCandidate) (chosen d : TaskCandidate)
      → arbitrate heads state ≡ some chosen
      → Memᴰ d heads
      → Memᴰ chosen heads × (key_lt (key_of state d) (key_of state chosen) ≡ false)
  unfolding arbitrate
  arbitrate_least [] chosen d h m = elim m [ ]
  arbitrate_least (c ∷ heads) chosen d h m =
      subst (λ x. Memᴰ x (c ∷ heads) × NotBelow d x) (some_inj h)
        (least_mem c heads, least-all c heads d m)

  pub arbitrate-none : (heads : List TaskCandidate) → arbitrate heads state ≡ none → heads ≡ []
  unfolding arbitrate
  arbitrate-none [] h = refl
  arbitrate-none (c ∷ heads) h = ground arith

  pub arbitrate_mem :
      (heads : List TaskCandidate) (chosen : TaskCandidate)
      → arbitrate heads state ≡ some chosen
      → Memᴰ chosen heads
  unfolding arbitrate
  arbitrate_mem [] chosen h = ground arith
  arbitrate_mem (c ∷ heads) chosen h =
      subst (λ x. Memᴰ x (c ∷ heads)) (some_inj h) (least_mem c heads)
