-- ===== src/Workflows/DefaultPath.antt =====
-- When `_check_default_path_terminates` of src/nightshift/workflows.py passes.
use nightshift.Base.{
  ℕ, zero, suc, ◌+◌, ◌≤◌, ◌<◌, String, Bool, true, false, ◌||◌, Option, none, some, List, [], ◌∷◌,
  ◌==◌, ◌≡◌, ◌↔◌, inl, inr, refl, ap, sym, ◌∙◌, subst, arith, eq_iff, contains, length,
  if◌then◌else◌, Result, ok, err, Bool-cases, Result-cases, ◌>>=◌,
}
use nightshift.Workflows.Step.{end_step, WorkflowStep, find_step}
use nightshift.Workflows.Validate.{require}
use nightshift.Workflows.Paths.{is_work, walk, finished, check_default_path_terminates}

-- From `cur` the keys `next` lead over `n` doc steps to a code or split step.
pub data LeadsToWork (steps : List WorkflowStep) : ℕ → String → Type 0 where
  here :
      {cur : String} (step : WorkflowStep)
      → (cur == end_step) ≡ false
      → find_step steps cur ≡ ok step
      → is_work step.kind ≡ true
      → LeadsToWork steps 0 cur
  next :
      {n : ℕ} {cur : String} (step : WorkflowStep)
      → (cur == end_step) ≡ false
      → find_step steps cur ≡ ok step
      → is_work step.kind ≡ false
      → LeadsToWork steps n step.next
      → LeadsToWork steps (suc n) cur

-- The steps whose names are not among the seen ones.
unseen : List String → List WorkflowStep → ℕ
unseen seen [] = 0
unseen seen (s ∷ steps) = (if contains seen s.id then 0 else 1) + unseen seen steps

unseen_shrinks :
    (c : String) (seen : List String) (steps : List WorkflowStep)
    → unseen (c ∷ seen) steps ≤ unseen seen steps
unfolding unseen
unseen_shrinks c seen [] = ground arith
unseen_shrinks c seen (s ∷ steps) = ground (arith, unseen_shrinks c seen steps)

unseen_drops :
    (c : String) (seen : List String) (steps : List WorkflowStep) (step : WorkflowStep)
    → contains seen c ≡ false
    → find_step steps c ≡ ok step
    → unseen (c ∷ seen) steps < unseen seen steps
unfolding unseen find_step
unseen_drops c seen [] step new found = ground arith
unseen_drops c seen (s ∷ steps) step new found = elim (Bool-cases (s.id == c)) [
  | inl same ↦
      let e : s.id ≡ c = (eq_iff s.id c).0 same in
      let unseen_here : contains seen s.id ≡ false = ap (contains seen) e ∙ new in
      let again : (c == s.id) ≡ true = (eq_iff c s.id).1 (sym e) in
      ground (arith, unseen_shrinks c seen steps)
  | inr differs ↦
      let there : find_step steps c ≡ ok step = ground arith in
      ground (arith, unseen_drops c seen steps step new there)
]

unseen_all : (steps : List WorkflowStep) → unseen [] steps ≤ length steps
unfolding unseen
unseen_all [] = ground arith
unseen_all (s ∷ steps) = ground (arith, unseen_all steps)

ok_inj {ℓ} : {A : Type ℓ} {x y : A} → ok x ≡ ok y → x ≡ y
ok_inj h = cc

-- One name leads to one step, which is work or is not.
one_step :
    (steps : List WorkflowStep) (cur : String) (s t : WorkflowStep)
    → find_step steps cur ≡ ok s
    → find_step steps cur ≡ ok t
    → is_work s.kind ≡ is_work t.kind
one_step steps cur s t f g = ap (λ (x : WorkflowStep). is_work x.kind) (ok_inj (sym f ∙ g))

unique :
    (steps : List WorkflowStep) {m n : ℕ} {cur : String}
    → LeadsToWork steps m cur
    → LeadsToWork steps n cur
    → m ≡ n
unique steps (here s _ f w) (here t _ g v) = refl
unique steps (here s _ f w) (next t _ g v d) = ground (arith, one_step steps _ s t f g)
unique steps (next s _ f w d) (here t _ g v) = ground (arith, one_step steps _ s t f g)
unique steps (next s _ f w d) (next {n = k} t _ g v e) = ap suc (
    unique steps d
      (subst (λ (x : WorkflowStep). LeadsToWork steps k x.next) (ok_inj (sym g ∙ f)) e))

-- Every seen step leads to work, if it does, over more than `n` steps.
Farther : List WorkflowStep → List String → ℕ → Type 0
Farther steps seen n = (m : ℕ) (x : String) → contains seen x ≡ true → LeadsToWork steps m x → n < m

Farther-on :
    (steps : List WorkflowStep) (seen : List String) (n : ℕ) (cur : String)
    → LeadsToWork steps (suc n) cur
    → Farther steps seen (suc n)
    → Farther steps (cur ∷ seen) n
unfolding Farther
Farther-on steps seen n cur d far m x h e = elim (Bool-cases (cur == x)) [
  | inl same ↦
      let agree : suc n ≡ m =
        unique steps (subst (LeadsToWork steps (suc n)) ((eq_iff cur x).0 same) d) e in
      ground arith
  | inr differs ↦
      let before : contains seen x ≡ true = ground arith in ground (arith, far m x before e)
]

new_step :
    (steps : List WorkflowStep) (seen : List String) (n : ℕ) (cur : String)
    → LeadsToWork steps n cur
    → Farther steps seen n
    → contains seen cur ≡ false
unfolding Farther
new_step steps seen n cur d far = elim (Bool-cases (contains seen cur)) [
  | inl old ↦ ground (arith, far n cur old d)
  | inr new ↦ new
]

-- With more fuel than steps are unseen, the walk comes to the work that the path leads to.
walk_finds :
    (fuel : ℕ) (steps : List WorkflowStep) (seen : List String) {n : ℕ} {cur : String}
    → LeadsToWork steps n cur
    → Farther steps seen n
    → unseen seen steps < fuel
    → walk fuel steps seen cur ≡ some (ok true)
unfolding walk
walk_finds zero steps seen d far enough = ground arith
walk_finds (suc fuel) steps seen {n} {cur} (here step named found work) far enough =
    let new : contains seen cur ≡ false =
      new_step steps seen n cur (here step named found work) far in
    ground arith
walk_finds (suc fuel) steps seen {n} {cur} (next step named found doc d) far enough =
    let new : contains seen cur ≡ false =
      new_step steps seen n cur (next step named found doc d) far in
    ground (
      arith,
      walk_finds fuel steps (cur ∷ seen) d
          (Farther-on steps seen _ cur (next step named found doc d) far),
      unseen_drops cur seen steps step,
    )

walk-LeadsToWork :
    (fuel : ℕ) (steps : List WorkflowStep) (seen : List String) (cur : String)
    → walk fuel steps seen cur ≡ some (ok true)
    → (n : ℕ) × LeadsToWork steps n cur
unfolding walk
walk-LeadsToWork zero steps seen cur h = ground arith
walk-LeadsToWork (suc fuel) steps seen cur h =
    elim (Bool-cases (cur == end_step || contains seen cur)) [
      | inl stops ↦ ground arith
      | inr goes ↦ elim (Result-cases (find_step steps cur)) [
        | inr (e, missing) ↦ ground arith
        | inl (step, found) ↦
            let named : (cur == end_step) ≡ false = ground arith in
            elim (Bool-cases (is_work step.kind)) [
              | inl work ↦ (0, here step named found work)
              | inr doc ↦
                  let rest : walk fuel steps (cur ∷ seen) step.next ≡ some (ok true) =
                    ground arith in
                  let (n, d) = walk-LeadsToWork fuel steps (cur ∷ seen) step.next rest in
                  (suc n, next step named found doc d)
            ]
      ]
    ]

-- The path along `next` leads from the first step of a list of steps to a code or split step.
pub data ReachesWork : List WorkflowStep → Type 0 where
  path :
      {n : ℕ} {first : WorkflowStep} {rest : List WorkflowStep}
      → LeadsToWork (first ∷ rest) n first.id
      → ReachesWork (first ∷ rest)

found_work :
    (o : Option (Result Bool)) (message : String)
    → (finished o >>= λ found. require found message) ≡ ok tt
    → o ≡ some (ok true)
found_work none message h = ground arith
found_work (some (err e)) message h = ground arith
found_work (some (ok false)) message h = ground arith
found_work (some (ok true)) message h = refl

passes :
    (name : String) (steps : List WorkflowStep)
    → ReachesWork steps
    → check_default_path_terminates (record { name = name; steps = steps }) ≡ ok tt
unfolding check_default_path_terminates Farther
passes name [] p = elim p [ ]
passes name (first ∷ rest) (path d) =
    ap
      (λ o. finished o >>= λ found. require found "default path never reaches a code or split step")
      (walk_finds (suc (length (first ∷ rest))) (first ∷ rest) [] d (λ m x h e. ground arith)
        (ground (arith, unseen_all (first ∷ rest))))

reaches :
    (name : String) (steps : List WorkflowStep)
    → check_default_path_terminates (record { name = name; steps = steps }) ≡ ok tt
    → ReachesWork steps
unfolding check_default_path_terminates
reaches name [] h = ground arith
reaches name (first ∷ rest) h =
    let (n, d) =
      walk-LeadsToWork (suc (length (first ∷ rest))) (first ∷ rest) [] first.id
        (found_work _ "default path never reaches a code or split step" h) in
    path d

-- The check of the default path passes exactly where the path along `next` leads from the first step
-- to a code or split step.
pub check_default_path_terminates_iff :
    (name : String) (steps : List WorkflowStep)
    → (check_default_path_terminates (record { name = name; steps = steps }) ≡ ok tt)
      ↔ ReachesWork steps
check_default_path_terminates_iff name steps = (reaches name steps, passes name steps)
