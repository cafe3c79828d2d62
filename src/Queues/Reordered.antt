-- ===== src/Queues/Reordered.antt =====
-- What `reorder_queue` of src/nightshift/queue_config.py saves.
use nightshift.Base.{
  String, Bool, true, false, not, ◌&&◌, List, [], ◌∷◌, ◌++◌, ◌==◌, ◌≡◌, refl, ap, sym, ◌∙◌, subst,
  arith, inl, inr, Bool-cases, contains, eq_iff, filter, no_repeats, filter_all, sort_by-Perm,
  text_lt, if◌then◌else◌, Json,
}
use mathlib.Core.List.{Permᴰ}
use mathlib.Core.List.Permᴰ as P
use nightshift.Queues.Config.{ConfigFile, load_order}
use nightshift.Queues.Order.{clean_order, reorder, reorder_queue}
use nightshift.Queues.Saved.{load_order-save_order}

filter_same :
    (p q : String → Bool) (xs : List String)
    → ((x : String) → p x ≡ q x)
    → filter p xs ≡ filter q xs
unfolding filter
filter_same p q [] e = refl
filter_same p q (x ∷ xs) e = ground (arith, e x, filter_same p q xs e)

-- A name that is not there does not matter.
without_absent :
    (p : String → Bool) (n : String) (xs : List String)
    → contains xs n ≡ false
    → filter (λ s. p s && not (n == s)) xs ≡ filter p xs
unfolding filter
without_absent p n [] h = refl
without_absent p n (x ∷ xs) h =
    let rest : contains xs n ≡ false = ground arith in
    ground (arith, without_absent p n xs rest, eq_iff n x, eq_iff x n)

same-Perm : {xs ys : List String} → xs ≡ ys → Permᴰ xs ys
same-Perm {xs} e = subst (Permᴰ xs) e (P.refl xs)

with_front :
    (b c : Bool) (x n : String) (xs ys : List String)
    → c ≡ false
    → Permᴰ xs (n ∷ ys)
    → Permᴰ (if b then x ∷ xs else xs) (n ∷ (if b && not c then x ∷ ys else ys))
with_front true true x n xs ys e h = ground arith
with_front true false x n xs ys e h = P.trans (P.cons refl h) (P.swap refl refl)
with_front false c x n xs ys e h = h

-- One name is taken out of a list without repeats.
pick-Perm :
    (p : String → Bool) (n : String) (xs : List String)
    → no_repeats xs ≡ true
    → contains xs n ≡ true
    → p n ≡ true
    → Permᴰ (filter p xs) (n ∷ filter (λ s. p s && not (n == s)) xs)
unfolding filter no_repeats
pick-Perm p n [] d h k = ground arith
pick-Perm p n (x ∷ xs) d h k = elim (Bool-cases (x == n)) [
  | inl same ↦
      let e : x ≡ n = (eq_iff x n).0 same in
      let absent : contains xs n ≡ false = subst (λ y. contains xs y ≡ false) e (ground arith) in
      let kept : filter p (x ∷ xs) ≡ n ∷ filter p xs =
        subst (λ y. (if p y then y ∷ filter p xs else filter p xs) ≡ n ∷ filter p xs) (sym e)
          (ground arith) in
      let dropped : filter (λ s. p s && not (n == s)) (x ∷ xs) ≡ filter p xs =
        ground (arith, without_absent p n xs absent, eq_iff n x) in
      same-Perm (kept ∙ ap (◌∷◌ n) (sym dropped))
  | inr differs ↦
      let rest : no_repeats xs ≡ true = ground arith in
      let there : contains xs n ≡ true = ground arith in
      let other : (n == x) ≡ false = ground (arith, eq_iff n x, eq_iff x n) in
      with_front (p x) (n == x) x n _ _ other (pick-Perm p n xs rest there k)
]

-- The files of the queue that the loop has not seen: those that it takes, and the others.
clean_order-Perm :
    (existing seen order : List String)
    → no_repeats existing ≡ true
    → Permᴰ (filter (λ s. not (contains seen s)) existing) (
        clean_order existing seen order
        ++ filter
            (λ s. not (contains seen s) && not (contains (clean_order existing seen order) s))
            existing)
unfolding clean_order
clean_order-Perm existing seen [] d = same-Perm (filter_same _ _ existing (λ s. ground arith))
clean_order-Perm existing seen (name ∷ order) d =
    elim (Bool-cases (contains existing name && not (contains seen name))) [
      | inl taken ↦
          let there : contains existing name ≡ true = ground arith in
          let new : not (contains seen name) ≡ true = ground arith in
          subst
            (λ l.
              Permᴰ (filter (λ s. not (contains seen s)) existing)
                (l ++ filter (λ s. not (contains seen s) && not (contains l s)) existing))
            (sym (
              ap
                (λ b. elim b [
                  | true ↦ name ∷ clean_order existing (name ∷ seen) order
                  | false ↦ clean_order existing seen order
                ])
                taken))
            (P.trans (pick-Perm (λ s. not (contains seen s)) name existing d there new) (
              P.cons refl (
                P.trans (same-Perm (filter_same _ _ existing (λ s. ground arith))) (
                  P.trans (clean_order-Perm existing (name ∷ seen) order d) (
                    same-Perm (
                      ap (clean_order existing (name ∷ seen) order ++◌)
                        (filter_same _ _ existing (λ s. ground arith))))))))
      | inr passed ↦
          subst
            (λ l.
              Permᴰ (filter (λ s. not (contains seen s)) existing)
                (l ++ filter (λ s. not (contains seen s) && not (contains l s)) existing))
            (sym (
              ap
                (λ b. elim b [
                  | true ↦ name ∷ clean_order existing (name ∷ seen) order
                  | false ↦ clean_order existing seen order
                ])
                passed))
            (clean_order-Perm existing seen order d)
    ]

reorder-Perm :
    (existing order : List String)
    → no_repeats existing ≡ true
    → Permᴰ existing (reorder existing order)
unfolding reorder filter
reorder-Perm existing order d = P.trans (same-Perm (sym (filter_all existing))) (
    P.trans (clean_order-Perm existing [] order d) (
      P.append_left (clean_order existing [] order) (
        sort_by-Perm text_lt
          (filter (λ s. not (contains (clean_order existing [] order) s)) existing))))

-- Whatever order is asked for, the order that is saved has every task file of the queue once and
-- nothing else, where the names of the files do not repeat.
pub load_order-reorder_queue :
    (repr : Json → String) (existing order : List String) (file : ConfigFile)
    → no_repeats existing ≡ true
    → Permᴰ existing (load_order repr (reorder_queue existing order file).1)
unfolding reorder_queue
load_order-reorder_queue repr existing order file d =
    subst (Permᴰ existing) (sym ((load_order-save_order repr (reorder existing order) file).0))
      (reorder-Perm existing order d)
