-- ===== src/Workflows/Reachable.antt =====
-- The search `reachable_from` of src/nightshift/workflows.py ends and finds what is reachable.
use nightshift.Base.{
  ℕ, zero, suc, ◌+◌, ◌≤◌, ◌<◌, String, true, false, ◌||◌, Option, some, List, [], ◌∷◌, ◌==◌, ◌≡◌,
  ◌↔◌, inl, inr, refl, ap, sym, ◌∙◌, subst, arith, eq_iff, eq_refl, contains, length, if◌then◌else◌,
  Bool-cases, Dict, lookup,
}
use nightshift.Workflows.Paths.{targets, extend, visit, size, reachable_from}

-- One edge or more lead from `start` to the node.
pub data IsReachable (edges : Dict (List String)) (start : String) : String → Type 0 where
  edge : {node : String} → contains (targets edges start) node ≡ true → IsReachable edges start node
  step :
      {node dest : String}
      → IsReachable edges start node
      → contains (targets edges node) dest ≡ true
      → IsReachable edges start dest

contains-extend :
    (stack dests : List String) (x : String)
    → contains (extend stack dests) x ≡ (contains dests x || contains stack x)
unfolding extend
contains-extend stack [] x = refl
contains-extend stack (d ∷ dests) x = ground (arith, contains-extend (d ∷ stack) dests x)

length-extend :
    (stack dests : List String) → length (extend stack dests) ≡ length stack + length dests
unfolding extend
length-extend stack [] = ground arith
length-extend stack (d ∷ dests) = ground (arith, length-extend (d ∷ stack) dests)

-- The targets of the nodes that are not seen.
left : List String → Dict (List String) → ℕ
left seen [] = 0
left seen ((node, dests) ∷ edges) =
    (if contains seen node then 0 else length dests) + left seen edges

left_shrinks :
    (c : String) (seen : List String) (edges : Dict (List String))
    → left (c ∷ seen) edges ≤ left seen edges
unfolding left
left_shrinks c seen [] = ground arith
left_shrinks c seen ((node, dests) ∷ edges) = ground (arith, left_shrinks c seen edges)

left_drops :
    (c : String) (seen : List String) (edges : Dict (List String))
    → contains seen c ≡ false
    → length (targets edges c) + left (c ∷ seen) edges ≤ left seen edges
unfolding left targets lookup
left_drops c seen [] new = ground arith
left_drops c seen ((node, dests) ∷ edges) new = elim (Bool-cases (node == c)) [
  | inl same ↦
      let e : node ≡ c = (eq_iff node c).0 same in
      let unseen_here : contains seen node ≡ false = ap (contains seen) e ∙ new in
      let again : (c == node) ≡ true = (eq_iff c node).1 (sym e) in
      ground (arith, left_shrinks c seen edges)
  | inr differs ↦ ground (arith, left_drops c seen edges new, left_shrinks c seen edges)
]

left_all : (edges : Dict (List String)) → left [] edges ≤ size edges
unfolding left size
left_all [] = ground arith
left_all ((node, dests) ∷ edges) = ground (arith, left_all edges)

module _ (edges : Dict (List String)) (start : String) where
  -- What is seen or waits is reachable.
  Sound : List String → List String → Type 0
  Sound seen stack =
      (x : String) → (contains seen x || contains stack x) ≡ true → IsReachable edges start x

  -- The targets of the start and of what is seen are seen or wait.
  record IsClosed (seen stack : List String) : Type 0 where
    first :
        (x : String)
        → contains (targets edges start) x ≡ true
        → (contains seen x || contains stack x) ≡ true
    onward :
        (node x : String)
        → contains seen node ≡ true
        → contains (targets edges node) x ≡ true
        → (contains seen x || contains stack x) ≡ true

  -- What the search ends with.
  record IsExact (o : Option (List String)) : Type 0 where
    found : List String
    returned : o ≡ some found
    sound : (x : String) → contains found x ≡ true → IsReachable edges start x
    complete : (x : String) → IsReachable edges start x → contains found x ≡ true

  all_seen :
      (seen : List String)
      → IsClosed seen []
      → (x : String) → IsReachable edges start x
      → contains seen x ≡ true
  all_seen seen closed x (edge e) = ground (arith, closed.first x e)
  all_seen seen closed x (step {node = node} r e) =
      ground (arith, closed.onward node x (all_seen seen closed node r) e)

  Sound-pop :
      (seen stack : List String) (node : String) → Sound seen (node ∷ stack) → Sound seen stack
  unfolding Sound
  Sound-pop seen stack node s x h = s x (ground arith)

  IsClosed-pop :
      (seen stack : List String) (node : String)
      → contains seen node ≡ true
      → IsClosed seen (node ∷ stack)
      → IsClosed seen stack
  IsClosed-pop seen stack node old c = record {
    first = λ x e. keep x (c.first x e);
    onward = λ n x h e. keep x (c.onward n x h e);
  }
    where
      keep :
          (x : String)
          → (contains seen x || contains (node ∷ stack) x) ≡ true
          → (contains seen x || contains stack x) ≡ true
      keep x h = elim (Bool-cases (node == x)) [
        | inl same ↦
            let e : contains seen x ≡ true =
              ap (contains seen) (sym ((eq_iff node x).0 same)) ∙ old in
            ground arith
        | inr differs ↦ ground arith
      ]

  Sound-push :
      (seen stack : List String) (node : String)
      → Sound seen (node ∷ stack)
      → Sound (node ∷ seen) (extend stack (targets edges node))
  unfolding Sound
  Sound-push seen stack node s x h = elim (Bool-cases (contains (targets edges node) x)) [
    | inl target ↦ step (s node (ground (arith, eq_refl node))) target
    | inr other ↦ s x (ground (arith, contains-extend stack (targets edges node) x))
  ]

  IsClosed-push :
      (seen stack : List String) (node : String)
      → IsClosed seen (node ∷ stack)
      → IsClosed (node ∷ seen) (extend stack (targets edges node))
  IsClosed-push seen stack node c = record {
    first = λ x e. ground (arith, c.first x e, contains-extend stack (targets edges node) x);
    onward = λ n x h e. elim (Bool-cases (node == n)) [
      | inl same ↦
          let target : contains (targets edges node) x ≡ true =
            ap (λ k. contains (targets edges k) x) ((eq_iff node n).0 same) ∙ e in
          ground (arith, contains-extend stack (targets edges node) x)
      | inr differs ↦
          let old : contains seen n ≡ true = ground arith in
          ground (arith, c.onward n x old e, contains-extend stack (targets edges node) x)
    ];
  }

  visit-IsExact :
      (fuel : ℕ) (seen stack : List String)
      → Sound seen stack
      → IsClosed seen stack
      → length stack + left seen edges < fuel
      → IsExact (visit fuel edges seen stack)
  unfolding visit Sound
  visit-IsExact zero seen stack s c enough = ground arith
  visit-IsExact (suc fuel) seen [] s c enough = record {
    found = seen;
    returned = refl;
    sound = λ x h. s x (ground arith);
    complete = all_seen seen c;
  }
  visit-IsExact (suc fuel) seen (node ∷ stack) s c enough = elim (Bool-cases (contains seen node)) [
    | inl old ↦
        let next : visit fuel edges seen stack ≡ visit (suc fuel) edges seen (node ∷ stack) =
          ground arith in
        subst IsExact next (
          visit-IsExact fuel seen stack (Sound-pop seen stack node s)
            (IsClosed-pop seen stack node old c) (ground arith))
    | inr new ↦
        let next : visit fuel edges (node ∷ seen) (extend stack (targets edges node))
            ≡ visit (suc fuel) edges seen (node ∷ stack) =
          ground arith in
        subst IsExact next (
          visit-IsExact fuel (node ∷ seen) (extend stack (targets edges node))
            (Sound-push seen stack node s) (IsClosed-push seen stack node c)
            (ground
              (arith, length-extend stack (targets edges node), left_drops node seen edges new)))
  ]

  reachable-IsExact : IsExact (reachable_from edges start)
  unfolding reachable_from Sound
  reachable-IsExact =
      visit-IsExact (suc (length (targets edges start) + size edges)) []
        (extend [] (targets edges start))
        (λ x h. edge (ground (arith, contains-extend [] (targets edges start) x)))
        (record {
          first = λ x e. ground (arith, contains-extend [] (targets edges start) x);
          onward = λ node x h e. ground arith;
        })
        (ground (arith, length-extend [] (targets edges start), left_all edges))

-- The search ends, and what it found is what one edge or more lead to.
pub reachable_from_iff :
    (edges : Dict (List String)) (start x : String)
    → (seen : List String) × (reachable_from edges start ≡ some seen)
      × ((contains seen x ≡ true) ↔ IsReachable edges start x)
reachable_from_iff edges start x =
    let r : IsExact edges start (reachable_from edges start) = reachable-IsExact edges start in
    (r.found, r.returned, (r.sound x, r.complete x))
