-- ===== src/Transitions/Steps.antt =====
-- src/nightshift/transitions.py, lines 679-1003: the steps of a workflow.
use nightshift.Base.{
  String, true, false, Option, none, some, [], ◌∷◌, ◌==◌, Dict, Json, pos, ℤ, succ_ℤ, bool, str,
  text_or, if◌then◌else◌, fstring, lookup, insert, Result, ok, err, assertion_error,
}
use nightshift.Workflows.Step.{StepKind, end_step, format_visits}
use nightshift.Lifecycle.{
  RunStatus, AttemptState, FailureKind, Outcome, AttemptRef, SubmitPolicy, WorkflowStepPolicy,
  FrontmatterFlag, Progress, no_effects, Transition, Submitted, apply, phase, GitPhase,
}
use nightshift.Transitions.Fields.{
  line_fields, task_quarantined, completed_result, queue_changed, quarantine_flag,
}
use nightshift.Transitions.Failures.{blocked_transition, error_transition, neutral_transition}

-- `visits.get(step, 0)`
abbrev pub get_visits : Dict ℤ → String → ℤ
get_visits visits step = elim (lookup step visits) [ none ↦ pos 0 | some n ↦ n ]

-- The visit counters once the cursor has entered `route_to`.
unfoldable pub next_visits : WorkflowStepPolicy → Dict ℤ
unfolding lookup insert succ_ℤ
next_visits step = insert step.route_to (succ_ℤ (get_visits step.visits step.route_to)) step.visits

unfoldable pub advance_visits : WorkflowStepPolicy → Dict Json
unfolding next_visits format_visits
advance_visits step =
    ("workflow_step", str step.route_to)
    ∷ ("workflow_visits", str (format_visits (next_visits step)))
    ∷ []

abbrev pub exhausted_reason : WorkflowStepPolicy → String
exhausted_reason step =
    text_or step.exhausted_reason
      (fstring ("workflow budget exhausted at '" ∷ step.route_to ∷ "'" ∷ []))

unfoldable pub workflow_budget_quarantine :
    AttemptRef → Outcome → WorkflowStepPolicy → Option (String × String) → Transition
unfolding line_fields
workflow_budget_quarantine ref outcome step write_artifact =
    let reason = exhausted_reason step in
    record {
      ref = ref;
      fields = line_fields outcome.result_line outcome;
      state = AttemptState.no_change;
      effects = record no_effects {
        frontmatter = quarantine_flag reason ∷ [];
        write_artifact = write_artifact;
      };
      events =
          task_quarantined ref (("reason", str reason) ∷ [])
          ∷ completed_result ref outcome.result_line
          ∷ [];
      response =
          ("landed", bool false) ∷ ("status", str "completed") ∷ ("quarantined", bool true) ∷ [];
    }

abbrev completed_flag : FrontmatterFlag
completed_flag = record { key = "completed"; value = true; reason_key = none; reason = none }

unfoldable pub workflow_end :
    AttemptRef → Outcome → WorkflowStepPolicy → Option (String × String) → Transition
unfolding line_fields
workflow_end ref outcome step write_artifact =
    let result_line = text_or outcome.result_line "workflow complete" in
    record {
      ref = ref;
      fields = line_fields result_line outcome;
      state = AttemptState.no_change;
      effects = record no_effects {
        progress = Progress.reset;
        write_artifact = write_artifact;
        frontmatter = if step.evergreen then [] else completed_flag ∷ [];
        workflow_reset = step.evergreen;
      };
      events = completed_result ref result_line ∷ queue_changed ref ∷ [];
      response =
          ("landed", bool false)
          ∷ ("status", str "completed")
          ∷ ("workflow_complete", bool true)
          ∷ [];
    }

-- An f-string shows an absent output as `None`.
abbrev shown_output : Option String → String
shown_output none = "None"
shown_output (some s) = s

unfoldable pub workflow_doc_advance :
    AttemptRef → Outcome → WorkflowStepPolicy → Option (String × String) → Transition
unfolding line_fields advance_visits
workflow_doc_advance ref outcome step write_artifact =
    let result_line =
      text_or outcome.result_line (fstring ("produced '" ∷ shown_output step.output ∷ "'" ∷ [])) in
    record {
      ref = ref;
      fields = line_fields result_line outcome;
      state = AttemptState.no_change;
      effects = record no_effects {
        progress = Progress.reset;
        write_artifact = write_artifact;
        engine_meta = some (advance_visits step);
      };
      events = completed_result ref result_line ∷ queue_changed ref ∷ [];
      response =
          ("landed", bool false)
          ∷ ("status", str "completed")
          ∷ ("workflow_step", str step.route_to)
          ∷ [];
    }

-- The outcome that a doc step without a document is turned into.
abbrev pub no_document : Outcome → Outcome
no_document outcome = record outcome {
  status = RunStatus.error;
  failure_kind = some FailureKind.worker_error;
  failure_reason = some "doc step produced no document";
  result_line = "doc step produced no document";
}

abbrev pub artifact : Option String → String → Option (String × String)
artifact none document = none
artifact (some output) document = if output == "" then none else some (output, document)

-- A doc step with a document, by where it routes to.
unfoldable pub produced_step :
    AttemptRef → Outcome → WorkflowStepPolicy → Option (String × String) → Transition
unfolding workflow_end workflow_budget_quarantine workflow_doc_advance
produced_step ref outcome step write_artifact =
    if step.route_to == end_step
    then workflow_end ref outcome step write_artifact
    else if step.dest_visits_exhausted
    then workflow_budget_quarantine ref outcome step write_artifact
    else workflow_doc_advance ref outcome step write_artifact

unfoldable pub doc_step :
    Option String → AttemptRef → Outcome → SubmitPolicy → WorkflowStepPolicy → Transition
unfolding produced_step error_transition
doc_step none ref outcome policy step = error_transition ref (no_document outcome) policy
doc_step (some document) ref outcome policy step =
    produced_step ref outcome step (artifact step.output document)

unfoldable pub completed_step :
    StepKind → AttemptRef → Outcome → SubmitPolicy → WorkflowStepPolicy → Submitted
unfolding doc_step
completed_step StepKind.doc ref outcome policy step =
    apply (doc_step outcome.document ref outcome policy step)
completed_step StepKind.code ref outcome policy step =
    phase (if outcome.landable then GitPhase.land else GitPhase.adopt_check)
completed_step StepKind.split ref outcome policy step = phase GitPhase.harvest_split

unfoldable pub step_by :
    RunStatus → AttemptRef → Outcome → SubmitPolicy → WorkflowStepPolicy → Submitted
unfolding blocked_transition error_transition neutral_transition completed_step
step_by RunStatus.blocked ref outcome policy step = apply (blocked_transition ref outcome policy)
step_by RunStatus.error ref outcome policy step = apply (error_transition ref outcome policy)
step_by RunStatus.completed ref outcome policy step =
    completed_step step.kind ref outcome policy step
step_by _ ref outcome policy step = apply (neutral_transition ref outcome)

-- `assert step is not None`
abbrev pub with_step {ℓ} :
    {A : Type ℓ} → Option WorkflowStepPolicy → (WorkflowStepPolicy → Result A) → Result A
with_step none f = err assertion_error
with_step (some step) f = f step

unfoldable pub on_workflow_step : AttemptRef → Outcome → SubmitPolicy → Result Submitted
unfolding step_by
on_workflow_step ref outcome policy =
    with_step policy.workflow_step (λ step. ok (step_by outcome.status ref outcome policy step))
