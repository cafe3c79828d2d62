-- ===== src/Base/Sorting.antt =====
-- Python's `sorted`, which is stable, and comprehensions with a condition.
use mathlib.Core.Path.{◌≡◌, refl, sym, ap, subst, ◌∙◌}
use mathlib.Core.Logic.{inl, inr}
use mathlib.Core.Bool.{Bool, true, false, not, ◌&&◌}
use mathlib.Core.List.{List, [], ◌∷◌, Permᴰ}
use mathlib.Core.List.Permᴰ as P
use native.Mathlib.Omega.{arith}
use nightshift.Base.Tests.{if◌then◌else◌, Bool-cases}
use nightshift.Base.Lists.{all}

module _ {ℓ} {A : Type ℓ} where
  -- `[x for x in xs if p(x)]`
  unfoldable pub filter : (A → Bool) → List A → List A
  filter p [] = []
  filter p (x ∷ xs) = let rest = filter p xs in if p x then x ∷ rest else rest

  -- Before the first element that is not smaller.
  unfoldable pub insert_by : (A → A → Bool) → A → List A → List A
  insert_by lt x [] = x ∷ []
  insert_by lt x (y ∷ ys) = let rest = insert_by lt x ys in if lt y x then y ∷ rest else x ∷ y ∷ ys

  -- `sorted(xs)` by the order of the keys: of two equal elements the first stays first.
  unfoldable pub sort_by : (A → A → Bool) → List A → List A
  unfolding insert_by
  sort_by lt [] = []
  sort_by lt (x ∷ xs) = insert_by lt x (sort_by lt xs)

  -- No element is smaller than an earlier one.
  unfoldable pub sorted_by : (A → A → Bool) → List A → Bool
  sorted_by lt [] = true
  sorted_by lt (x ∷ xs) = all (λ y. not (lt y x)) xs && sorted_by lt xs

  insert_by-Perm : (lt : A → A → Bool) (x : A) (xs : List A) → Permᴰ (x ∷ xs) (insert_by lt x xs)
  unfolding insert_by
  insert_by-Perm lt x [] = P.refl (x ∷ [])
  insert_by-Perm lt x (y ∷ ys) = elim (Bool-cases (lt y x)) [
    | inl smaller ↦
        subst (Permᴰ (x ∷ y ∷ ys))
          (sym (ap (λ b. if b then y ∷ insert_by lt x ys else x ∷ y ∷ ys) smaller))
          (P.trans (P.swap refl refl) (P.cons refl (insert_by-Perm lt x ys)))
    | inr other ↦
        subst (Permᴰ (x ∷ y ∷ ys))
          (sym (ap (λ b. if b then y ∷ insert_by lt x ys else x ∷ y ∷ ys) other))
          (P.refl (x ∷ y ∷ ys))
  ]

  pub sort_by-Perm : (lt : A → A → Bool) (xs : List A) → Permᴰ xs (sort_by lt xs)
  unfolding sort_by
  sort_by-Perm lt [] = P.nil
  sort_by-Perm lt (x ∷ xs) =
      P.trans (P.cons refl (sort_by-Perm lt xs)) (insert_by-Perm lt x (sort_by lt xs))

  pub all-Perm : (p : A → Bool) {xs ys : List A} → Permᴰ xs ys → all p xs ≡ all p ys
  all-Perm p P.nil = refl
  all-Perm p (P.cons {a = a} {b = b} e h) = ground (arith, ap p e, all-Perm p h)
  all-Perm p (P.swap e f) = ground (arith, ap p e, ap p f)
  all-Perm p (P.trans h k) = all-Perm p h ∙ all-Perm p k

  pub all_weaken :
      (p q : A → Bool) (xs : List A)
      → ((x : A) → p x ≡ true → q x ≡ true)
      → all p xs ≡ true
      → all q xs ≡ true
  all_weaken p q [] w h = refl
  all_weaken p q (x ∷ xs) w h =
      let here : p x ≡ true = ground arith in
      let rest : all p xs ≡ true = ground arith in
      ground (arith, w x here, all_weaken p q xs w rest)

  -- The two laws that a comparison of keys has.
  pub record IsKeyOrder (lt : A → A → Bool) : Type ℓ where
    pub asymmetric : (x y : A) → lt x y ≡ true → lt y x ≡ false
    pub splits : (x y z : A) → lt x z ≡ true → lt x y ≡ false → lt y z ≡ true

  not_smaller :
      (lt : A → A → Bool) (x y z : A)
      → IsKeyOrder lt
      → lt y x ≡ false
      → not (lt z y) ≡ true
      → not (lt z x) ≡ true
  not_smaller lt x y z o h k = elim (Bool-cases (lt z x)) [
    | inl smaller ↦ ground (arith, o.splits z y x smaller)
    | inr other ↦ ground arith
  ]

  insert_by-sorted :
      (lt : A → A → Bool) (x : A) (xs : List A)
      → IsKeyOrder lt
      → sorted_by lt xs ≡ true
      → sorted_by lt (insert_by lt x xs) ≡ true
  unfolding insert_by sorted_by
  insert_by-sorted lt x [] o h = refl
  insert_by-sorted lt x (y ∷ ys) o h = elim (Bool-cases (lt y x)) [
    | inl smaller ↦ ground (
      arith,
      o.asymmetric y x smaller,
      all-Perm (λ z. not (lt z y)) (insert_by-Perm lt x ys),
      insert_by-sorted lt x ys o,
    )
    | inr other ↦ ground (
      arith,
      all_weaken (λ z. not (lt z y)) (λ z. not (lt z x)) ys (λ z k. not_smaller lt x y z o other k),
    )
  ]

  pub sort_by-sorted :
      (lt : A → A → Bool) (xs : List A) → IsKeyOrder lt → sorted_by lt (sort_by lt xs) ≡ true
  unfolding sort_by sorted_by
  sort_by-sorted lt [] o = refl
  sort_by-sorted lt (x ∷ xs) o = insert_by-sorted lt x (sort_by lt xs) o (sort_by-sorted lt xs o)

  keep_one :
      (b : Bool) (a : A) {xs ys : List A}
      → Permᴰ xs ys
      → Permᴰ (if b then a ∷ xs else xs) (if b then a ∷ ys else ys)
  keep_one true a h = P.cons refl h
  keep_one false a h = h

  keep_two :
      (b c : Bool) (x y : A) (l : List A)
      → Permᴰ
          (if b then x ∷ (if c then y ∷ l else l) else if c then y ∷ l else l)
          (if c then y ∷ (if b then x ∷ l else l) else if b then x ∷ l else l)
  keep_two true true x y l = P.swap refl refl
  keep_two true false x y l = P.refl (x ∷ l)
  keep_two false true x y l = P.refl (y ∷ l)
  keep_two false false x y l = P.refl l

  pub filter-Perm :
      (p : A → Bool) {xs ys : List A} → Permᴰ xs ys → Permᴰ (filter p xs) (filter p ys)
  unfolding filter
  filter-Perm p P.nil = P.nil
  filter-Perm p (P.cons {a = a} {b = b} {l₁ = xs} {l₂ = ys} e h) =
      subst (λ u. Permᴰ (filter p (a ∷ xs)) (filter p (u ∷ ys))) e
        (keep_one (p a) a (filter-Perm p h))
  filter-Perm p (P.swap {a = a} {b = b} {a' = c} {b' = d} {l = l} e f) =
      subst (λ u. Permᴰ (filter p (a ∷ b ∷ l)) (filter p (u ∷ d ∷ l))) f
        (subst (λ u. Permᴰ (filter p (a ∷ b ∷ l)) (filter p (b ∷ u ∷ l))) e
          (keep_two (p a) (p b) a b (filter p l)))
  filter-Perm p (P.trans h k) = P.trans (filter-Perm p h) (filter-Perm p k)

  pub filter_all : (xs : List A) → filter (λ x. true) xs ≡ xs
  unfolding filter
  filter_all [] = refl
  filter_all (x ∷ xs) = ap (◌∷◌ x) (filter_all xs)
