-- ===== src/Candidates/Resolver.antt =====
-- src/nightshift/workflows.py, lines 414-488: the model of a role and the current step of a task, from
-- its frontmatter and the configuration of its queue. `repr` is that of the queues.
use nightshift.Base.{
  find_member, String, Option, none, some, List, [], ◌∷◌, ◌==◌, Dict, lookup, if◌then◌else◌, Json,
  null, obj, strip, fstring, Result, ok, err, ◌>>=◌, attribute_error, index_error,
}
use nightshift.Workflows.Step.{WorkflowStep, WorkflowDef, has_step, find_step, resolve_role_model}
use nightshift.Queues.Config.{text_of, truth}

-- `str(value or "").strip()`
unfoldable pub text_in : (Json → String) → String → Dict Json → String
unfolding lookup truth text_of strip
text_in repr key meta = elim (lookup key meta) [
  | none ↦ ""
  | some v ↦ if truth v then strip (text_of repr v) else ""
]

-- The argument of `_clean`.
unfoldable pub given : (Json → String) → Option Json → Option String
unfolding text_of
given repr none = none
given repr (some null) = none
given repr (some v) = some (text_of repr v)

-- `(queue_config.get("workflow_models") or {}).get(role)`
unfoldable pub queue_pin : Dict Json → String → Result (Option Json)
unfolding lookup find_member truth
queue_pin config role = elim (lookup "workflow_models" config) [
  | none ↦ ok none
  | some (obj members) ↦ ok (find_member role members)
  | some v ↦ if truth v then err (attribute_error "get") else ok none
]

unfoldable pub step_model :
    (Json → String) → String → Dict Json → Dict Json → String → String → Result (Option String)
unfolding queue_pin given resolve_role_model lookup
step_model repr role meta config planner_model default_model = queue_pin config role >>= λ pin. ok (
    resolve_role_model role (given repr (lookup "model" meta))
      (given repr (lookup "planner_model" meta)) (given repr pin) planner_model default_model)

-- The workflow and the step with the step's model, or no workflow and an error.
abbrev pub Resolved : Type 0
Resolved = Option (String × String) × String

abbrev unresolved : List String → Resolved
unresolved pieces = (none, fstring pieces)

abbrev pub first_id : List WorkflowStep → Result String
first_id [] = err (index_error "tuple index out of range")
first_id (s ∷ steps) = ok s.id

unfoldable pub current_step : (Json → String) → Dict Json → WorkflowDef → Result String
unfolding text_in
current_step repr meta wf =
    if text_in repr "workflow_step" meta == ""
    then first_id wf.steps
    else ok (text_in repr "workflow_step" meta)

unfoldable pub with_model : String → String → String → Option String → Resolved
unfolding fstring
with_model name step_id role none = unresolved (
    "workflow '" ∷ name ∷ "' step '" ∷ step_id ∷ "': cannot resolve model for role '" ∷ role ∷ "'"
    ∷ [])
with_model name step_id role (some model) = (some (name, step_id), model)

unfoldable pub resolve_step :
    (Json → String)
    → String
    → String
    → Dict Json
    → Dict Json
    → String
    → WorkflowDef
    → String
    → Result Resolved
unfolding has_step find_step step_model with_model fstring
resolve_step repr planner_model default_model meta config name wf step_id =
    if has_step wf step_id
    then (find_step wf.steps step_id >>= λ step.
        step_model repr step.role meta config planner_model default_model >>= λ found.
        ok (with_model name step_id step.role found))
    else ok (unresolved ("workflow '" ∷ name ∷ "' has no step '" ∷ step_id ∷ "'" ∷ []))

-- `resolve` of `make_resolver`.
unfoldable pub resolve :
    (Json → String) → Dict WorkflowDef → String → String → Dict Json → Dict Json → Result Resolved
unfolding text_in lookup current_step resolve_step fstring
resolve repr defs planner_model default_model meta config =
    let name = text_in repr "workflow" meta in
    elim (lookup name defs) [
      | none ↦ ok (unresolved ("unknown workflow '" ∷ name ∷ "'" ∷ []))
      | some wf ↦
          current_step repr meta wf
          >>= resolve_step repr planner_model default_model meta config name wf
    ]
