-- ===== src/Workflows/Paths.antt =====
-- src/nightshift/workflows.py, lines 264-318: the default path and the cycles of a workflow. A loop
-- runs on fuel; `none` is a loop that ran out of it. The names that the messages show are left out.
use nightshift.Base.{
  ℕ, zero, suc, ◌+◌, String, Bool, true, false, not, ◌||◌, Option, none, some, List, [], ◌∷◌, ◌==◌,
  contains, length, Dict, lookup, insert, if◌then◌else◌, Result, ok, err, ◌>>=◌, ◌>>◌, index_error,
  assertion_error,
}
use nightshift.Workflows.Step.{StepKind, end_step, WorkflowStep, WorkflowDef, find_step}
use nightshift.Workflows.Validate.{destinations, require, validate_steps}

-- `step.kind in (StepKind.CODE, StepKind.SPLIT)`
abbrev pub is_work : StepKind → Bool
is_work StepKind.doc = false
is_work StepKind.code = true
is_work StepKind.split = true

-- The loop over `cur`: does it return (true) or reach the raise behind it (false)?
unfoldable pub walk : ℕ → List WorkflowStep → List String → String → Option (Result Bool)
unfolding find_step
walk zero steps seen cur = none
walk (suc fuel) steps seen cur = elim (cur == end_step || contains seen cur) [
  | true ↦ some (ok false)
  | false ↦ elim (find_step steps cur) [
    | err e ↦ some (err e)
    | ok step ↦ elim (is_work step.kind) [
      | true ↦ some (ok true)
      | false ↦ walk fuel steps (cur ∷ seen) step.next
    ]
  ]
]

-- A loop that ran out of its fuel.
abbrev pub finished {ℓ} : {A : Type ℓ} → Option (Result A) → Result A
finished none = err assertion_error
finished (some r) = r

-- The names of the steps bound the rounds.
unfoldable pub check_default_path_terminates : WorkflowDef → Result (Unit {0})
unfolding walk
check_default_path_terminates wf = elim wf.steps [
  | [] ↦ err (index_error "tuple index out of range")
  | first ∷ rest ↦ finished (walk (suc (length wf.steps)) wf.steps [] first.id) >>= λ found.
      require found "default path never reaches a code or split step"
]

unfoldable pub without_end : List String → List String
without_end [] = []
without_end (d ∷ dests) = if d == end_step then without_end dests else d ∷ without_end dests

-- `edges`, where the last step of a name counts.
unfoldable pub edges_from : List WorkflowStep → Dict (List String) → Dict (List String)
unfolding insert destinations without_end
edges_from [] edges = edges
edges_from (step ∷ steps) edges =
    edges_from steps (insert step.id (without_end (destinations step)) edges)

-- `edges.get(node, [])`
unfoldable pub targets : Dict (List String) → String → List String
unfolding lookup
targets edges node = elim (lookup node edges) [ none ↦ [] | some dests ↦ dests ]

-- `stack.extend(dests)`, the end of the Python list at the head.
unfoldable pub extend : List String → List String → List String
extend stack [] = stack
extend stack (d ∷ dests) = extend (d ∷ stack) dests

-- The loop of `reachable_from`.
unfoldable pub visit : ℕ → Dict (List String) → List String → List String → Option (List String)
unfolding targets extend
visit zero edges seen stack = none
visit (suc fuel) edges seen [] = some seen
visit (suc fuel) edges seen (node ∷ stack) = elim (contains seen node) [
  | true ↦ visit fuel edges seen stack
  | false ↦ visit fuel edges (node ∷ seen) (extend stack (targets edges node))
]

-- All targets that the dictionary lists.
unfoldable pub size : Dict (List String) → ℕ
size [] = 0
size ((node, dests) ∷ edges) = length dests + size edges

-- Each round takes a node off the stack, and a node's targets are pushed once.
unfoldable pub reachable_from : Dict (List String) → String → Option (List String)
unfolding visit size
reachable_from edges start =
    visit (suc (length (targets edges start) + size edges)) edges []
      (extend [] (targets edges start))

unfoldable pub check_declared : Dict (List String) → List WorkflowStep → Result (Unit {0})
unfolding reachable_from
check_declared edges [] = ok tt
check_declared edges (step ∷ steps) =
    elim (reachable_from edges step.id) [
      | none ↦ err assertion_error
      | some seen ↦
          require (not (contains seen step.id) || step.max_visits_declared)
            "reachable from itself — must declare 'max_visits'"
    ]
    >> check_declared edges steps

unfoldable pub check_cycles_declare_visits : WorkflowDef → Result (Unit {0})
unfolding check_declared edges_from
check_cycles_declare_visits wf = check_declared (edges_from wf.steps []) wf.steps

-- `_validate`
unfoldable pub validate : WorkflowDef → Result (Unit {0})
unfolding validate_steps check_default_path_terminates check_cycles_declare_visits
validate wf =
    validate_steps wf >> check_default_path_terminates wf >> check_cycles_declare_visits wf
