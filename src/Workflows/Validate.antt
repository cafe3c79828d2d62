-- ===== src/Workflows/Validate.antt =====
-- src/nightshift/workflows.py, lines 211-262: the checks of `_validate` on the steps. The names that
-- the messages show are left out.
use nightshift.Base.{
  String, Bool, true, false, not, ◌&&◌, ◌||◌, Option, none, some, List, [], ◌∷◌, ◌++◌, ◌==◌, map,
  all, contains, length, leb, if◌then◌else◌, Result, ok, err, ◌>>◌, workflow_error,
}
use nightshift.Workflows.Step.{StepKind, end_step, WorkflowStep, WorkflowDef}

-- `raise WorkflowError(message)` unless the test holds.
abbrev pub require : Bool → String → Result (Unit {0})
require b message = if b then ok tt else err (workflow_error message)

unfoldable pub destinations : WorkflowStep → List String
destinations step = map (λ kv. kv.1) step.signals ++ (step.next ∷ [])

abbrev is_named : Option String → Bool
is_named none = false
is_named (some v) = not (v == "")

abbrev is_absent : Option String → Bool
is_absent none = true
is_absent (some v) = false

-- The set of the ids.
unfoldable pub distinct : List String → List String
distinct [] = []
distinct (x ∷ xs) = let rest = distinct xs in if contains rest x then rest else x ∷ rest

abbrev pub ids_of : WorkflowDef → List String
ids_of wf = map (λ (s : WorkflowStep). s.id) wf.steps

-- What a step of the kind must set.
unfoldable pub check_fields : StepKind → WorkflowStep → Result (Unit {0})
check_fields StepKind.doc s =
    require (is_named s.prompt && is_named s.output) "doc steps require 'prompt' and 'output'"
check_fields _ s =
    require (is_absent s.prompt && is_absent s.output) "steps must not set 'prompt'/'output'"

unfoldable pub check_kind : StepKind → List String → Result (Unit {0})
check_kind StepKind.split dests =
    require (all (λ d. d == end_step) dests) "split steps must route to $end"
check_kind _ dests = ok tt

unfoldable pub check_step : List String → WorkflowStep → Result (Unit {0})
unfolding check_fields check_kind destinations
check_step ids s =
    check_fields s.kind s
    >> require (all (λ d. d == end_step || contains ids d) (destinations s))
        "destination names no step"
    >> check_kind s.kind (destinations s)

unfoldable pub check_steps : List String → List WorkflowStep → Result (Unit {0})
unfolding check_step
check_steps ids [] = ok tt
check_steps ids (s ∷ steps) = check_step ids s >> check_steps ids steps

abbrev add_output : Option String → List String → List String
add_output none produced = produced
add_output (some v) produced = if v == "" then produced else v ∷ produced

-- The outputs of the earlier steps are in `produced`.
unfoldable pub check_inputs : List String → List WorkflowStep → Result (Unit {0})
check_inputs produced [] = ok tt
check_inputs produced (s ∷ steps) =
    require (all (contains produced) s.inputs) "input is not 'brief' nor an earlier step's output"
    >> check_inputs (add_output s.output produced) steps

-- `_validate` up to the checks of the default path and of the cycles.
unfoldable pub validate_steps : WorkflowDef → Result (Unit {0})
unfolding check_steps check_inputs distinct
validate_steps wf =
    require (leb (length (ids_of wf)) (length (distinct (ids_of wf)))) "duplicate step ids"
    >> check_steps (ids_of wf) wf.steps
    >> check_inputs ("brief" ∷ []) wf.steps
