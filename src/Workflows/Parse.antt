-- ===== src/Workflows/Parse.antt =====
-- src/nightshift/workflows.py, lines 80-208: the parser of a definition. A mapping from JSON has texts as
-- its keys. The names and values that the messages show are left out.
use nightshift.Base.{
  ℕ, suc, String, Bool, true, false, ◌&&◌, Option, none, some, List, [], ◌∷◌, ◌==◌, Dict,
  if◌then◌else◌, leb, ℤ, pos, Json, null, int, str, arr, obj, Items, nil, cons, Members, end,
  member, find_member, Result, ok, err, ◌>>=◌, ◌>>◌, workflow_error, index_error,
}
use nightshift.Workflows.Step.{
  StepKind, MaxTurns, inherit, turns, end_step, WorkflowStep, WorkflowDef,
}
use nightshift.Workflows.Paths.{validate}

abbrev refuse {ℓ} : {A : Type ℓ} → String → Result A
refuse message = err (workflow_error message)

-- A value that must be a text which is not empty.
unfoldable pub required_text : String → Option Json → Result String
required_text message (some (str s)) = if s == "" then refuse message else ok s
required_text message _ = refuse message

-- `StepKind(kind_raw)`
unfoldable pub parse_kind : Option Json → Result StepKind
parse_kind (some (str s)) =
    if s == "doc"
    then ok StepKind.doc
    else if s == "code"
    then ok StepKind.code
    else if s == "split"
    then ok StepKind.split
    else refuse "invalid kind"
parse_kind _ = refuse "invalid kind"

unfoldable pub all_texts : Items → Option (List String)
all_texts nil = some []
all_texts (cons (str s) vs) = elim (all_texts vs) [ none ↦ none | some ss ↦ some (s ∷ ss) ]
all_texts (cons v vs) = none

unfoldable pub parse_inputs : Option Json → Result (List String)
unfolding all_texts
parse_inputs none = ok []
parse_inputs (some (arr vs)) = elim (all_texts vs) [
  | none ↦ refuse "'inputs' must be a list of strings"
  | some inputs ↦ ok inputs
]
parse_inputs (some v) = refuse "'inputs' must be a list of strings"

-- An absent key inherits, null is no limit.
unfoldable pub parse_max_turns : Option Json → Result MaxTurns
parse_max_turns none = ok inherit
parse_max_turns (some null) = ok (turns none)
parse_max_turns (some (int n)) = ok (turns (some n))
parse_max_turns (some v) = refuse "'max_turns' must be int or null"

unfoldable pub all_targets : Members → Option (Dict String)
all_targets end = some []
all_targets (member k (str s) rest) = elim (all_targets rest) [
  | none ↦ none
  | some targets ↦ some ((k, s) ∷ targets)
]
all_targets (member k v rest) = none

unfoldable pub parse_signals : Option Json → Result (Dict String)
unfolding all_targets
parse_signals none = ok []
parse_signals (some (obj ms)) = elim (all_targets ms) [
  | none ↦ refuse "'signals' must be a token→step map"
  | some signals ↦ ok signals
]
parse_signals (some v) = refuse "'signals' must be a token→step map"

-- `none` is the sentinel for the following step.
unfoldable pub parse_next : ℕ → ℕ → Option Json → Result (Option String)
parse_next index total none =
    if leb (suc index) total && leb total (suc index) then ok (some end_step) else ok none
parse_next index total (some (str s)) = ok (some s)
parse_next index total (some v) = refuse "'next' must be a string"

-- The budget, and whether it was declared.
unfoldable pub parse_max_visits : Option Json → Result (ℤ × Bool)
parse_max_visits none = ok (pos 1, false)
parse_max_visits (some null) = ok (pos 1, false)
parse_max_visits (some (int n)) = ok (n, true)
parse_max_visits (some v) = refuse "'max_visits' must be an int"

unfoldable pub optional_text : String → Option Json → Result (Option String)
optional_text message none = ok none
optional_text message (some null) = ok none
optional_text message (some (str s)) = ok (some s)
optional_text message (some v) = refuse message

-- A step before the sentinel is resolved: its `next` stands beside it.
abbrev pub ParsedStep : Type 0
ParsedStep = WorkflowStep × Option String

unfoldable pub parse_step : ℕ → ℕ → Json → Result ParsedStep
unfolding required_text parse_kind parse_inputs parse_max_turns parse_signals parse_next
    parse_max_visits optional_text find_member
parse_step index total (obj raw) = do
  id ← required_text "step is missing string 'id'" (find_member "id" raw)
  kind ← parse_kind (find_member "kind" raw)
  role ← required_text "missing string 'role'" (find_member "role" raw)
  inputs ← parse_inputs (find_member "inputs" raw)
  max_turns ← parse_max_turns (find_member "max_turns" raw)
  signals ← parse_signals (find_member "signals" raw)
  next ← parse_next index total (find_member "next" raw)
  visits ← parse_max_visits (find_member "max_visits" raw)
  prompt ← optional_text "'prompt' must be a string" (find_member "prompt" raw)
  output ← optional_text "'output' must be a string" (find_member "output" raw)
  ok (
    record {
      id = id;
      kind = kind;
      role = role;
      inputs = inputs;
      prompt = prompt;
      output = output;
      max_turns = max_turns;
      signals = signals;
      next = end_step;
      max_visits = visits.0;
      max_visits_declared = visits.1;
    },
    next,
  )
parse_step index total _ = refuse "step is not an object"

unfoldable pub count : Items → ℕ
count nil = 0
count (cons v vs) = suc (count vs)

unfoldable pub parse_steps : ℕ → ℕ → Items → Result (List ParsedStep)
unfolding parse_step
parse_steps index total nil = ok []
parse_steps index total (cons raw raws) = do
  step ← parse_step index total raw
  steps ← parse_steps (suc index) total raws
  ok (step ∷ steps)

-- `parsed[i + 1].id`
abbrev following : List ParsedStep → Result String
following [] = err (index_error "list index out of range")
following ((step, next) ∷ parsed) = ok step.id

unfoldable pub resolved_next : Option String → List ParsedStep → Result String
resolved_next none parsed = following parsed
resolved_next (some next) parsed = ok next

-- The sentinels give way to the name of the following step.
unfoldable pub resolve_next : List ParsedStep → Result (List WorkflowStep)
unfolding resolved_next
resolve_next [] = ok []
resolve_next ((step, next) ∷ parsed) = do
  dest ← resolved_next next parsed
  steps ← resolve_next parsed
  ok (record step { next = dest } ∷ steps)

abbrev pub items : Option Json → Result Items
items (some (arr (cons v vs))) = ok (cons v vs)
items _ = refuse "'steps' must be a non-empty list"

-- The body of `parse_workflow` from its end: the validation, the sentinels, the steps, the name.
unfoldable pub validated : String → List WorkflowStep → Result WorkflowDef
unfolding validate
validated name steps =
    validate (record { name = name; steps = steps }) >> ok (record { name = name; steps = steps })

unfoldable pub resolved_workflow : String → List ParsedStep → Result WorkflowDef
unfolding resolve_next validated
resolved_workflow name parsed = resolve_next parsed >>= validated name

unfoldable pub steps_workflow : String → Items → Result WorkflowDef
unfolding parse_steps count resolved_workflow
steps_workflow name raws = parse_steps 0 (count raws) raws >>= resolved_workflow name

unfoldable pub named_workflow : Members → String → Result WorkflowDef
unfolding find_member steps_workflow
named_workflow raw name = items (find_member "steps" raw) >>= steps_workflow name

abbrev pub parse_name : Members → Result String
unfolding required_text find_member
parse_name raw = required_text "workflow definition missing string 'name'" (find_member "name" raw)

unfoldable pub parse_workflow : Json → Result WorkflowDef
unfolding named_workflow required_text find_member
parse_workflow (obj raw) = parse_name raw >>= named_workflow raw
parse_workflow _ = refuse "workflow definition must be an object"
