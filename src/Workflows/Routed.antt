-- ===== src/Workflows/Routed.antt =====
-- Where the steps of a validated workflow of src/nightshift/workflows.py route to.
use nightshift.Base.{
  String, Bool, true, false, ◌&&◌, ◌||◌, Option, none, some, List, [], ◌∷◌, ◌++◌, ◌==◌, ◌≡◌, refl,
  map, any, all, contains, Dict, lookup, arith, Result, ok, err, Option-cases, Bool-cases, eq_iff,
  ◌>>◌, inl, inr, ap, sym, ◌∙◌, subst, if◌then◌else◌,
}
use mathlib.Core.List.{Memᴰ}
use mathlib.Core.List.Memᴰ as M
use nightshift.Workflows.Step.{StepKind, end_step, WorkflowStep, WorkflowDef, has_step, route}
use nightshift.Workflows.Validate.{
  destinations, ids_of, check_step, check_steps, validate_steps, check_kind, check_fields, require,
}

some_inj : {x y : String} → some x ≡ some y → x ≡ y
some_inj h = cc

and_left : {a : Bool} (b : Bool) → (a && b) ≡ true → a ≡ true
and_left b h = ground arith

and_right : (a : Bool) {b : Bool} → (a && b) ≡ true → b ≡ true
and_right a h = ground arith

-- What holds of all signal targets holds of the target of a declared signal.
signal-holds :
    (p : String → Bool) (signals : Dict String) (token dest : String) (rest : List String)
    → all p (map (λ kv. kv.1) signals ++ rest) ≡ true
    → lookup token signals ≡ some dest
    → p dest ≡ true
unfolding lookup
signal-holds p [] token dest rest h k = ground arith
signal-holds p ((j, d) ∷ signals) token dest rest h k = elim (Bool-cases (j == token)) [
  | inl same ↦
      subst (λ x. p x ≡ true)
        (some_inj (sym (ap (λ b. if b then some d else lookup token signals) same) ∙ k))
        (and_left _ h)
  | inr differs ↦
      signal-holds p signals token dest rest (and_right (p d) h)
        (sym (ap (λ b. if b then some d else lookup token signals) differs) ∙ k)
]

next-holds :
    (p : String → Bool) (targets : List String) (next : String)
    → all p (targets ++ (next ∷ [])) ≡ true
    → p next ≡ true
next-holds p [] next h = ground arith
next-holds p (d ∷ targets) next h = ground (arith, next-holds p targets next)

-- A step routes to one of its destinations.
pub route-holds :
    (p : String → Bool) (s : WorkflowStep) (signal : Option String)
    → all p (destinations s) ≡ true
    → p (route s signal) ≡ true
unfolding destinations route
route-holds p s none h = next-holds p _ s.next h
route-holds p s (some token) h = elim (Option-cases (lookup token s.signals)) [
  | inl absent ↦
      ap (λ o. p (elim o [ none ↦ s.next | some dest ↦ dest ])) absent ∙ next-holds p _ s.next h
  | inr (dest, declared) ↦
      ap (λ o. p (elim o [ none ↦ s.next | some dest ↦ dest ])) declared
      ∙ signal-holds p s.signals token dest _ h declared
]

pub contains_ids :
    (steps : List WorkflowStep) (d : String)
    → contains (map (λ (s : WorkflowStep). s.id) steps) d ≡ any (λ s. s.id == d) steps
contains_ids [] d = refl
contains_ids (s ∷ steps) d = ap (λ b. (s.id == d) || b) (contains_ids steps d)

-- A check that raises in its first part raises.
pub require-holds : (b : Bool) (message : String) → require b message ≡ ok tt → b ≡ true
require-holds true message h = refl
require-holds false message h = ground arith

pub second-ok : (m rest : Result (Unit {0})) → (m >> rest) ≡ ok tt → rest ≡ ok tt
second-ok (ok x) rest h = h
second-ok (err e) rest h = ground arith

pub first-ok : (m rest : Result (Unit {0})) → (m >> rest) ≡ ok tt → m ≡ ok tt
first-ok (ok tt) rest h = refl
first-ok (err e) rest h = ground arith

targets-named :
    (ids : List String) (s : WorkflowStep)
    → check_step ids s ≡ ok tt
    → all (λ d. d == end_step || contains ids d) (destinations s) ≡ true
unfolding check_step
targets-named ids s h =
    require-holds _ "destination names no step"
      (second-ok (check_fields s.kind s) _ (first-ok _ (check_kind s.kind (destinations s)) h))

kind-end :
    (k : StepKind) (targets : List String)
    → k ≡ StepKind.split
    → check_kind k targets ≡ ok tt
    → all (λ d. d == end_step) targets ≡ true
unfolding check_kind
kind-end StepKind.split targets e h = ground arith
kind-end StepKind.doc targets e h = cc
kind-end StepKind.code targets e h = cc

targets-end :
    (ids : List String) (s : WorkflowStep)
    → s.kind ≡ StepKind.split
    → check_step ids s ≡ ok tt
    → all (λ d. d == end_step) (destinations s) ≡ true
unfolding check_step
targets-end ids s k h =
    kind-end s.kind (destinations s) k (second-ok _ (check_kind s.kind (destinations s)) h)

checked-step :
    (ids : List String) (steps : List WorkflowStep) (s : WorkflowStep)
    → check_steps ids steps ≡ ok tt
    → Memᴰ s steps
    → check_step ids s ≡ ok tt
unfolding check_steps
checked-step ids [] s h m = elim m [ ]
checked-step ids (x ∷ steps) s h (M.head e) = ap (check_step ids) e ∙ ground arith
checked-step ids (x ∷ steps) s h (M.tail m) = checked-step ids steps s (ground arith) m

validated-step :
    (wf : WorkflowDef) (s : WorkflowStep)
    → validate_steps wf ≡ ok tt
    → Memᴰ s wf.steps
    → check_step (ids_of wf) s ≡ ok tt
unfolding validate_steps
validated-step wf s h m = checked-step (ids_of wf) wf.steps s (ground arith) m

-- Whatever signal a step of a workflow that passed the step checks gets, it routes to the end or to
-- a step that the workflow has.
pub validated-route :
    (wf : WorkflowDef) (s : WorkflowStep) (signal : Option String)
    → validate_steps wf ≡ ok tt
    → Memᴰ s wf.steps
    → (route s signal == end_step || has_step wf (route s signal)) ≡ true
unfolding has_step
validated-route wf s signal h m =
    ap (λ b. (route s signal == end_step) || b) (sym (contains_ids wf.steps (route s signal)))
    ∙ route-holds _ s signal (targets-named (ids_of wf) s (validated-step wf s h m))

-- A split step of a workflow that passed the step checks routes to the end.
pub validated-split :
    (wf : WorkflowDef) (s : WorkflowStep) (signal : Option String)
    → validate_steps wf ≡ ok tt
    → Memᴰ s wf.steps
    → s.kind ≡ StepKind.split
    → route s signal ≡ end_step
validated-split wf s signal h m k = (eq_iff (route s signal) end_step).0 (
    route-holds (λ d. d == end_step) s signal
      (targets-end (ids_of wf) s k (validated-step wf s h m)))
