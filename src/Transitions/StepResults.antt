-- ===== src/Transitions/StepResults.antt =====
-- src/nightshift/transitions.py, lines 847-1003: the land and split results of workflow steps.
use nightshift.Base.{
  String, true, false, not, some, List, [], ◌∷◌, ◌++◌, ◌==◌, str, text_or, if◌then◌else◌, Result,
  ok,
}
use nightshift.Workflows.Step.{end_step}
use nightshift.Lifecycle.{
  AttemptState, Outcome, AttemptRef, SubmitPolicy, WorkflowStepPolicy, Progress, TaskEffects,
  no_effects, Transition, LandKind, LandOutcome,
}
use nightshift.Transitions.Fields.{base_run_fields, line_fields, task_quarantined, quarantine_flag}
use nightshift.Transitions.Landing.{
  decomposed_line, split_events, split_response, no_change_transition, landed_fields, landed_events,
  landed_response, land_failed_transition,
}
use nightshift.Transitions.Steps.{advance_visits, exhausted_reason, with_step}

-- The effects of a successful land of a code step.
unfoldable pub code_step_effects : WorkflowStepPolicy → TaskEffects
unfolding advance_visits
code_step_effects step =
    let base = record no_effects {
      clear_hold = true;
      progress = Progress.reset;
      watch_armed = some false;
    } in
    if step.route_to == end_step
    then record base { drop_brief = not step.evergreen; workflow_reset = step.evergreen }
    else if step.dest_visits_exhausted
    then record base { frontmatter = quarantine_flag (exhausted_reason step) ∷ [] }
    else record base { engine_meta = some (advance_visits step) }

unfoldable pub code_step_landed :
    AttemptRef → Outcome → LandOutcome → WorkflowStepPolicy → Transition
unfolding base_run_fields code_step_effects
code_step_landed ref outcome land step = record {
  ref = ref;
  fields = landed_fields (text_or outcome.result_line (text_or land.detail "landed")) outcome land;
  state = AttemptState.landed;
  effects = code_step_effects step;
  events =
      if step.route_to == end_step
      then landed_events ref land
      else if step.dest_visits_exhausted
      then landed_events ref land
        ++ (task_quarantined ref (("reason", str (exhausted_reason step)) ∷ []) ∷ [])
      else landed_events ref land;
  response = landed_response land;
}

unfoldable pub workflow_land_by :
    LandKind
    → AttemptRef
    → Outcome
    → LandOutcome
    → SubmitPolicy
    → WorkflowStepPolicy
    → Result Transition
unfolding no_change_transition land_failed_transition code_step_landed
workflow_land_by LandKind.no_changes ref outcome land policy step =
    ok (no_change_transition ref outcome policy)
workflow_land_by LandKind.landed ref outcome land policy step =
    ok (code_step_landed ref outcome land step)
workflow_land_by LandKind.checkout_behind ref outcome land policy step =
    ok (code_step_landed ref outcome land step)
workflow_land_by LandKind.adopted ref outcome land policy step =
    ok (code_step_landed ref outcome land step)
workflow_land_by _ ref outcome land policy step = land_failed_transition ref outcome land policy

unfoldable pub on_workflow_land :
    AttemptRef → Outcome → LandOutcome → SubmitPolicy → Result Transition
unfolding workflow_land_by
on_workflow_land ref outcome land policy =
    with_step policy.workflow_step (λ step. workflow_land_by land.kind ref outcome land policy step)

abbrev split_effects : List String → WorkflowStepPolicy → TaskEffects
split_effects [] step = record no_effects { progress = Progress.increment }
split_effects (t ∷ created) step = record no_effects {
  clear_hold = true;
  progress = Progress.reset;
  workflow_reset = step.evergreen;
}

unfoldable pub split_step_transition :
    AttemptRef → Outcome → List String → WorkflowStepPolicy → Transition
unfolding line_fields
split_step_transition ref outcome created step = record {
  ref = ref;
  fields = line_fields (decomposed_line created) outcome;
  state = AttemptState.no_change;
  effects = split_effects created step;
  events = split_events ref created;
  response = split_response created;
}

unfoldable pub on_workflow_split :
    AttemptRef → Outcome → List String → SubmitPolicy → Result Transition
unfolding split_step_transition
on_workflow_split ref outcome created policy =
    with_step policy.workflow_step (λ step. ok (split_step_transition ref outcome created step))
