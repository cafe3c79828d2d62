-- ===== src/Workflows/Cycles.antt =====
-- The cycles of a workflow that `_validate` of src/nightshift/workflows.py passed.
use nightshift.Base.{
  ◌≤◌, leb, String, Bool, true, false, not, ◌||◌, Option, none, some, List, [], ◌∷◌, ◌==◌, ◌≡◌, map,
  all, refl, ap, sym, ◌∙◌, subst, arith, eq_iff, eq_refl, contains, length, if◌then◌else◌, Dict,
  lookup, lookup-insert, ok, ◌>>◌,
}
use mathlib.Core.List.{Memᴰ}
use mathlib.Core.List.Memᴰ as M
use nightshift.Workflows.Step.{end_step, WorkflowStep, WorkflowDef, route}
use nightshift.Workflows.Validate.{destinations, distinct, validate_steps, require}
use nightshift.Workflows.Paths.{
  without_end, edges_from, targets, check_default_path_terminates, check_declared,
  check_cycles_declare_visits, validate,
}
use nightshift.Workflows.Routed.{route-holds, second-ok, require-holds}
use nightshift.Workflows.Reachable.{IsReachable, edge, step, reachable_from_iff}

-- The cursor can go from the one step to the other, each move on some signal.
pub data CanReach (steps : List WorkflowStep) : String → String → Type 0 where
  move :
      (s : WorkflowStep) (signal : Option String)
      → Memᴰ s steps
      → (route s signal == end_step) ≡ false
      → CanReach steps s.id (route s signal)
  on :
      {start : String} (s : WorkflowStep) (signal : Option String)
      → CanReach steps start s.id
      → Memᴰ s steps
      → (route s signal == end_step) ≡ false
      → CanReach steps start (route s signal)

distinct_shrinks : (xs : List String) → length (distinct xs) ≤ length xs
unfolding distinct
distinct_shrinks [] = ground arith
distinct_shrinks (x ∷ xs) = ground (arith, distinct_shrinks xs)

contains-distinct : (xs : List String) (y : String) → contains (distinct xs) y ≡ contains xs y
unfolding distinct
contains-distinct [] y = refl
contains-distinct (x ∷ xs) y =
    ground (arith, contains-distinct xs y, contains-distinct xs x, eq_iff x y)

ids : List WorkflowStep → List String
ids steps = map (λ (s : WorkflowStep). s.id) steps

-- `edges` where no step is left with the name.
edges_keep :
    (steps : List WorkflowStep) (edges : Dict (List String)) (k : String)
    → contains (ids steps) k ≡ false
    → lookup k (edges_from steps edges) ≡ lookup k edges
unfolding edges_from ids
edges_keep [] edges k h = refl
edges_keep (s ∷ steps) edges k h =
    let differs : (s.id == k) ≡ false = ground arith in
    let rest : contains (ids steps) k ≡ false = ground arith in
    edges_keep steps _ k rest
    ∙ lookup-insert s.id k (without_end (destinations s)) edges
    ∙ ap (λ b. if b then some (without_end (destinations s)) else lookup k edges) differs

-- Where the names are distinct, the first is not among the others, which are distinct.
new_id :
    (s : WorkflowStep) (steps : List WorkflowStep)
    → leb (length (ids (s ∷ steps))) (length (distinct (ids (s ∷ steps)))) ≡ true
    → contains (ids steps) s.id ≡ false
unfolding ids distinct
new_id s steps h = ground (arith, distinct_shrinks (ids steps), contains-distinct (ids steps) s.id)

rest_distinct :
    (s : WorkflowStep) (steps : List WorkflowStep)
    → leb (length (ids (s ∷ steps))) (length (distinct (ids (s ∷ steps)))) ≡ true
    → leb (length (ids steps)) (length (distinct (ids steps))) ≡ true
unfolding ids distinct
rest_distinct s steps h = ground (arith, distinct_shrinks (ids steps))

edges_of :
    (steps : List WorkflowStep) (edges : Dict (List String)) (s : WorkflowStep)
    → leb (length (ids steps)) (length (distinct (ids steps))) ≡ true
    → Memᴰ s steps
    → lookup s.id (edges_from steps edges) ≡ some (without_end (destinations s))
unfolding edges_from ids distinct
edges_of [] edges s h m = elim m [ ]
edges_of (x ∷ steps) edges s h (M.head e) =
    ap (λ (y : WorkflowStep). lookup y.id (edges_from (x ∷ steps) edges)) e
    ∙ edges_keep steps _ x.id (new_id x steps h)
    ∙ lookup-insert x.id x.id (without_end (destinations x)) edges
    ∙ ap (λ b. if b then some (without_end (destinations x)) else lookup x.id edges) (eq_refl x.id)
    ∙ ap (λ (y : WorkflowStep). some (without_end (destinations y))) (sym e)
edges_of (x ∷ steps) edges s h (M.tail m) = edges_of steps _ s (rest_distinct x steps h) m

all_weaken :
    (p q : String → Bool) (xs : List String)
    → ((x : String) → p x ≡ true → q x ≡ true)
    → all p xs ≡ true
    → all q xs ≡ true
all_weaken p q [] w h = refl
all_weaken p q (x ∷ xs) w h =
    let here : p x ≡ true = ground arith in
    let rest : all p xs ≡ true = ground arith in ground (arith, w x here, all_weaken p q xs w rest)

contains-without_end :
    (dests : List String) → all (λ d. d == end_step || contains (without_end dests) d) dests ≡ true
unfolding without_end
contains-without_end [] = refl
contains-without_end (d ∷ dests) =
    let rest : all (λ x. x == end_step || contains (without_end (d ∷ dests)) x) dests ≡ true =
      all_weaken (λ x. x == end_step || contains (without_end dests) x) _ dests
        (λ x h. ground arith) (contains-without_end dests) in
    ground (arith, eq_refl d)

module _ (steps : List WorkflowStep) where
  edges : Dict (List String)
  unfolding edges_from
  edges = edges_from steps []

  -- A move of the cursor is an edge.
  route_edge :
      (s : WorkflowStep) (signal : Option String)
      → leb (length (ids steps)) (length (distinct (ids steps))) ≡ true
      → Memᴰ s steps
      → (route s signal == end_step) ≡ false
      → contains (targets edges s.id) (route s signal) ≡ true
  unfolding targets edges
  route_edge s signal d m moves =
      ap (λ o. contains (elim o [ none ↦ [] | some dests ↦ dests ]) (route s signal))
        (edges_of steps [] s d m)
      ∙ ground (
        arith,
        route-holds (λ x. x == end_step || contains (without_end (destinations s)) x) s signal
            (contains-without_end (destinations s)),
      )

  CanReach-IsReachable :
      {start dest : String}
      → leb (length (ids steps)) (length (distinct (ids steps))) ≡ true
      → CanReach steps start dest
      → IsReachable edges start dest
  CanReach-IsReachable d (move s signal m moves) = edge (route_edge s signal d m moves)
  CanReach-IsReachable d (on s signal r m moves) =
      step (CanReach-IsReachable d r) (route_edge s signal d m moves)

declared_first :
    (graph : Dict (List String)) (s : WorkflowStep) (steps : List WorkflowStep)
    → IsReachable graph s.id s.id
    → check_declared graph (s ∷ steps) ≡ ok tt
    → s.max_visits_declared ≡ true
unfolding check_declared
declared_first graph s steps r h =
    let (seen, returned, both) = reachable_from_iff graph s.id s.id in
    let found : contains seen s.id ≡ true = both.1 r in
    let passed : require (not (contains seen s.id) || s.max_visits_declared)
          "reachable from itself — must declare 'max_visits'"
        ≡ ok tt =
      ground arith in
    ground (arith, require-holds _ "reachable from itself — must declare 'max_visits'" passed)

declared_step :
    (graph : Dict (List String)) (steps : List WorkflowStep) (s : WorkflowStep)
    → Memᴰ s steps
    → IsReachable graph s.id s.id
    → check_declared graph steps ≡ ok tt
    → s.max_visits_declared ≡ true
unfolding check_declared
declared_step graph [] s m r h = elim m [ ]
declared_step graph (x ∷ steps) s (M.head e) r h =
    ap (λ (y : WorkflowStep). y.max_visits_declared) e
    ∙ declared_first graph x steps (subst (λ (y : WorkflowStep). IsReachable graph y.id y.id) e r) h
declared_step graph (x ∷ steps) s (M.tail m) r h =
    declared_step graph steps s m r (second-ok _ (check_declared graph steps) h)

distinct-ids :
    (wf : WorkflowDef)
    → validate_steps wf ≡ ok tt
    → leb (length (ids wf.steps)) (length (distinct (ids wf.steps))) ≡ true
unfolding validate_steps ids
distinct-ids wf h = ground arith

-- In a workflow that passed the validation, a step that the cursor can come back to declares its
-- `max_visits`.
pub validated-cycle :
    (wf : WorkflowDef) (s : WorkflowStep)
    → validate wf ≡ ok tt
    → Memᴰ s wf.steps
    → CanReach wf.steps s.id s.id
    → s.max_visits_declared ≡ true
unfolding validate check_cycles_declare_visits edges ids
validated-cycle wf s h m r =
    let checked : validate_steps wf ≡ ok tt = ground arith in
    let cycles : check_declared (edges wf.steps) wf.steps ≡ ok tt =
      second-ok (validate_steps wf >> check_default_path_terminates wf)
        (check_cycles_declare_visits wf) h in
    declared_step (edges wf.steps) wf.steps s m
      (CanReach-IsReachable wf.steps (distinct-ids wf checked) r) cycles
