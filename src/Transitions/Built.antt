-- ===== src/Transitions/Built.antt =====
-- Every transition that src/nightshift/transitions.py computes comes from one of its builders.
use nightshift.Base.{
  String, Option, none, some, List, ◌≡◌, refl, Option-cases, inl, inr, ap, Result, ok, err, arith,
  ◌==◌, if_ind,
}
use nightshift.Workflows.Step.{StepKind, end_step}
use nightshift.Lifecycle.{
  RunStatus, FailureKind, Outcome, AttemptRef, SubmitPolicy, WorkflowStepPolicy, Transition,
  Submitted, apply, phase, LandKind, LandOutcome, land_failure_kind,
}
use nightshift.Transitions.Failures.{blocked_transition, error_transition, neutral_transition}
use nightshift.Transitions.Landing.{
  on_split_result, no_change_transition, landed_transition, refused_transition,
  land_failed_transition, land_by, on_land_result,
}
use nightshift.Transitions.Recovery.{
  on_land_interrupted, on_land_recovered, on_land_enqueued, on_operator_stop, on_deadline,
}
use nightshift.Transitions.Steps.{
  workflow_end, workflow_budget_quarantine, workflow_doc_advance, no_document, produced_step,
  doc_step, completed_step, step_by, on_workflow_step,
}
use nightshift.Transitions.StepResults.{
  code_step_landed, workflow_land_by, on_workflow_land, split_step_transition, on_workflow_split,
}
use nightshift.Transitions.Submit.{submit_by, on_submit}

pub data Built : Transition → Type 0 where
  blocked : (ref : AttemptRef) (o : Outcome) (p : SubmitPolicy) → Built (blocked_transition ref o p)
  failed : (ref : AttemptRef) (o : Outcome) (p : SubmitPolicy) → Built (error_transition ref o p)
  neutral : (ref : AttemptRef) (o : Outcome) → Built (neutral_transition ref o)
  no_change :
      (ref : AttemptRef) (o : Outcome) (p : SubmitPolicy) → Built (no_change_transition ref o p)
  landed :
      (ref : AttemptRef) (o : Outcome) (l : LandOutcome) (p : SubmitPolicy)
      → Built (landed_transition ref o l p)
  refused :
      (ref : AttemptRef) (o : Outcome) (l : LandOutcome) (p : SubmitPolicy) (k : FailureKind)
      → land_failure_kind l.kind ≡ ok k
      → Built (refused_transition ref o l p k)
  split_harvest :
      (ref : AttemptRef) (o : Outcome) (created : List String)
      → Built (on_split_result ref o created)
  interrupted : (ref : AttemptRef) → Built (on_land_interrupted ref)
  recovered :
      (ref : AttemptRef) (sha : String) (note : Option String)
      → Built (on_land_recovered ref sha note)
  enqueued :
      (ref : AttemptRef) (branch_ref head_sha : Option String)
      → Built (on_land_enqueued ref branch_ref head_sha)
  stopped : (ref : AttemptRef) → Built (on_operator_stop ref)
  expired : (ref : AttemptRef) → Built (on_deadline ref)
  finished :
      (ref : AttemptRef) (o : Outcome) (s : WorkflowStepPolicy) (a : Option (String × String))
      → Built (workflow_end ref o s a)
  exhausted :
      (ref : AttemptRef) (o : Outcome) (s : WorkflowStepPolicy) (a : Option (String × String))
      → Built (workflow_budget_quarantine ref o s a)
  advanced :
      (ref : AttemptRef) (o : Outcome) (s : WorkflowStepPolicy) (a : Option (String × String))
      → Built (workflow_doc_advance ref o s a)
  code_landed :
      (ref : AttemptRef) (o : Outcome) (l : LandOutcome) (s : WorkflowStepPolicy)
      → Built (code_step_landed ref o l s)
  step_split :
      (ref : AttemptRef) (o : Outcome) (created : List String) (s : WorkflowStepPolicy)
      → Built (split_step_transition ref o created s)

-- `P` holds of the transition that a call returns, and the call does not raise.
abbrev pub Returns : (Transition → Type 0) → Result Transition → Type 0
Returns P (ok t) = P t
Returns P (err e) = ⊥

abbrev pub OnApply : (Transition → Type 0) → Submitted → Type 0
OnApply P (apply t) = P t
OnApply P (phase g) = Unit

module _ (ref : AttemptRef) (o : Outcome) (p : SubmitPolicy) where
  produced_step-Built :
      (s : WorkflowStepPolicy) (a : Option (String × String)) → Built (produced_step ref o s a)
  unfolding produced_step
  produced_step-Built s a =
      if_ind Built (s.route_to == end_step) (finished ref o s a)
        (if_ind Built s.dest_visits_exhausted (exhausted ref o s a) (advanced ref o s a))

  doc_step-Built : (d : Option String) (s : WorkflowStepPolicy) → Built (doc_step d ref o p s)
  unfolding doc_step
  doc_step-Built none s = failed ref (no_document o) p
  doc_step-Built (some d) s = produced_step-Built s _

  completed_step-Built :
      (k : StepKind) (s : WorkflowStepPolicy) → OnApply Built (completed_step k ref o p s)
  unfolding completed_step
  completed_step-Built StepKind.doc s = doc_step-Built o.document s
  completed_step-Built StepKind.code s = tt
  completed_step-Built StepKind.split s = tt

  step_by-Built : (r : RunStatus) (s : WorkflowStepPolicy) → OnApply Built (step_by r ref o p s)
  unfolding step_by
  step_by-Built RunStatus.blocked s = blocked ref o p
  step_by-Built RunStatus.error s = failed ref o p
  step_by-Built RunStatus.completed s = completed_step-Built s.kind s
  step_by-Built _ s = neutral ref o

  submit_by-Built : (r : RunStatus) → OnApply Built (submit_by r ref o p)
  unfolding submit_by
  submit_by-Built RunStatus.blocked = blocked ref o p
  submit_by-Built RunStatus.error = failed ref o p
  submit_by-Built RunStatus.completed = tt
  submit_by-Built _ = neutral ref o

  pub on_submit-none : p.workflow_step ≡ none → on_submit ref o p ≡ ok (submit_by o.status ref o p)
  unfolding on_submit
  on_submit-none e = ground arith

  pub on_submit-some :
      (s : WorkflowStepPolicy)
      → p.workflow_step ≡ some s
      → on_submit ref o p ≡ ok (step_by o.status ref o p s)
  unfolding on_submit on_workflow_step
  on_submit-some s e = ground arith

  -- A submit never raises, with a workflow step or without one.
  pub on_submit_total : (x : Submitted) × (on_submit ref o p ≡ ok x) × OnApply Built x
  on_submit_total = elim (Option-cases p.workflow_step) [
    | inl e ↦ (submit_by o.status ref o p, on_submit-none e, submit_by-Built o.status)
    | inr (s, e) ↦ (step_by o.status ref o p s, on_submit-some s e, step_by-Built o.status s)
  ]

module _ (ref : AttemptRef) (o : Outcome) (l : LandOutcome) (p : SubmitPolicy) where
  failed_land-Built :
      (k : FailureKind)
      → land_failure_kind l.kind ≡ ok k
      → Returns Built (land_failed_transition ref o l p)
  unfolding land_failed_transition
  failed_land-Built k h = rw h (refused ref o l p k h)

  land_by-Built : (k : LandKind) → l.kind ≡ k → Returns Built (land_by k ref o l p)
  unfolding land_by land_failure_kind
  land_by-Built LandKind.landed e = landed ref o l p
  land_by-Built LandKind.no_changes e = no_change ref o p
  land_by-Built LandKind.adopted e = landed ref o l p
  land_by-Built LandKind.checkout_behind e = landed ref o l p
  land_by-Built LandKind.conflict e =
      failed_land-Built FailureKind.merge_conflict (ap land_failure_kind e)
  land_by-Built _ e = failed_land-Built FailureKind.merge_rejected (ap land_failure_kind e)

  -- The landing table never raises.
  pub on_land_result_total : Returns Built (on_land_result ref o l p)
  unfolding on_land_result
  on_land_result_total = land_by-Built l.kind refl

  workflow_land_by-Built :
      (s : WorkflowStepPolicy) (k : LandKind)
      → l.kind ≡ k
      → Returns Built (workflow_land_by k ref o l p s)
  unfolding workflow_land_by land_failure_kind
  workflow_land_by-Built s LandKind.landed e = code_landed ref o l s
  workflow_land_by-Built s LandKind.no_changes e = no_change ref o p
  workflow_land_by-Built s LandKind.adopted e = code_landed ref o l s
  workflow_land_by-Built s LandKind.checkout_behind e = code_landed ref o l s
  workflow_land_by-Built s LandKind.conflict e =
      failed_land-Built FailureKind.merge_conflict (ap land_failure_kind e)
  workflow_land_by-Built s _ e =
      failed_land-Built FailureKind.merge_rejected (ap land_failure_kind e)

  -- With a workflow step the workflow's landing table never raises.
  pub on_workflow_land_total :
      (s : WorkflowStepPolicy)
      → p.workflow_step ≡ some s
      → Returns Built (on_workflow_land ref o l p)
  unfolding on_workflow_land
  on_workflow_land_total s e = simp e (workflow_land_by-Built s l.kind refl)

-- With a workflow step the split table never raises.
pub on_workflow_split_total :
    (ref : AttemptRef) (o : Outcome) (created : List String) (p : SubmitPolicy)
    (s : WorkflowStepPolicy)
    → p.workflow_step ≡ some s
    → Returns Built (on_workflow_split ref o created p)
unfolding on_workflow_split
on_workflow_split_total ref o created p s e = simp e (step_split ref o created s)
