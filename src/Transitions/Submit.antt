-- ===== src/Transitions/Submit.antt =====
-- src/nightshift/transitions.py, lines 348-371: the submit table.
use nightshift.Base.{not, ◌&&◌, none, some, if◌then◌else◌, Result, ok}
use nightshift.Lifecycle.{
  RunStatus, Outcome, AttemptRef, SubmitPolicy, Submitted, apply, phase, GitPhase,
}
use nightshift.Transitions.Failures.{blocked_transition, error_transition, neutral_transition}
use nightshift.Transitions.Steps.{on_workflow_step}

-- A submit of a task without a workflow, by its status.
unfoldable pub submit_by : RunStatus → AttemptRef → Outcome → SubmitPolicy → Submitted
unfolding blocked_transition error_transition neutral_transition
submit_by RunStatus.blocked ref outcome policy = apply (blocked_transition ref outcome policy)
submit_by RunStatus.error ref outcome policy = apply (error_transition ref outcome policy)
submit_by RunStatus.completed ref outcome policy = phase (
    if policy.split && not outcome.landable
    then GitPhase.harvest_split
    else if outcome.landable
    then GitPhase.land
    else GitPhase.adopt_check)
submit_by _ ref outcome policy = apply (neutral_transition ref outcome)

unfoldable pub on_submit : AttemptRef → Outcome → SubmitPolicy → Result Submitted
unfolding on_workflow_step submit_by
on_submit ref outcome policy = elim policy.workflow_step [
  | some step ↦ on_workflow_step ref outcome policy
  | none ↦ ok (submit_by outcome.status ref outcome policy)
]
