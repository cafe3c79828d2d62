-- ===== src/Transitions/Addressed.antt =====
-- Which attempt the transitions of src/nightshift/transitions.py are for.
use nightshift.Base.{
  String, Option, none, some, List, ◌≡◌, refl, if_ind, Option-cases, inl, inr, Result, ok, err,
  subst, Result-cases, ◌==◌,
}
use nightshift.Lifecycle.{
  AttemptRef, RunStatus, FailureKind, RetryAction, Outcome, SubmitPolicy, WorkflowStepPolicy,
  Transition, LandKind, LandOutcome, land_failure_kind, Submitted, apply,
}
use nightshift.Workflows.Step.{StepKind, end_step}
use nightshift.Transitions.Failures.{
  blocked_transition, error_transition, error_by, neutral_transition,
}
use nightshift.Transitions.Landing.{
  no_change_transition, landed_transition, refused_transition, land_failed_transition, land_by,
  on_land_result,
}
use nightshift.Transitions.Steps.{
  workflow_end, workflow_budget_quarantine, workflow_doc_advance, produced_step, doc_step,
  completed_step, step_by, no_document,
}
use nightshift.Transitions.StepResults.{
  code_step_landed, workflow_land_by, on_workflow_land, split_step_transition, on_workflow_split,
}
use nightshift.Transitions.Submit.{submit_by, on_submit}
use nightshift.Transitions.Built.{OnApply, on_submit-none, on_submit-some}

-- `P` holds of the transition that a call returns, where it returns.
abbrev pub OnOk : (Transition → Type 0) → Result Transition → Type 0
OnOk P (ok t) = P t
OnOk P (err e) = Unit

same_value : {r : Result Submitted} {x y : Submitted} → r ≡ ok x → r ≡ ok y → x ≡ y
same_value h k = cc

module _ (ref : AttemptRef) where
  abbrev IsFor : Transition → Type 0
  IsFor t = t.ref ≡ ref

  error_by-IsFor :
      (a : RetryAction) (k : FailureKind) (o : Outcome) (p : SubmitPolicy)
      → IsFor (error_by a k ref o p)
  unfolding error_by
  error_by-IsFor RetryAction.retry_elsewhere k o p = refl
  error_by-IsFor _ k o p = refl

  error-IsFor : (o : Outcome) (p : SubmitPolicy) → IsFor (error_transition ref o p)
  unfolding error_transition
  error-IsFor o p = error_by-IsFor _ _ o p

  module _ (o : Outcome) (p : SubmitPolicy) where
    produced_step-IsFor :
        (s : WorkflowStepPolicy) (a : Option (String × String)) → IsFor (produced_step ref o s a)
    unfolding produced_step workflow_end workflow_budget_quarantine workflow_doc_advance
    produced_step-IsFor s a =
        if_ind IsFor (s.route_to == end_step) refl (if_ind IsFor s.dest_visits_exhausted refl refl)

    doc_step-IsFor : (d : Option String) (s : WorkflowStepPolicy) → IsFor (doc_step d ref o p s)
    unfolding doc_step
    doc_step-IsFor none s = error-IsFor (no_document o) p
    doc_step-IsFor (some d) s = produced_step-IsFor s _

    completed_step-IsFor :
        (k : StepKind) (s : WorkflowStepPolicy) → OnApply IsFor (completed_step k ref o p s)
    unfolding completed_step
    completed_step-IsFor StepKind.doc s = doc_step-IsFor o.document s
    completed_step-IsFor StepKind.code s = tt
    completed_step-IsFor StepKind.split s = tt

    step_by-IsFor : (r : RunStatus) (s : WorkflowStepPolicy) → OnApply IsFor (step_by r ref o p s)
    unfolding step_by blocked_transition neutral_transition
    step_by-IsFor RunStatus.blocked s = refl
    step_by-IsFor RunStatus.error s = error-IsFor o p
    step_by-IsFor RunStatus.completed s = completed_step-IsFor s.kind s
    step_by-IsFor _ s = refl

    submit_by-IsFor : (r : RunStatus) → OnApply IsFor (submit_by r ref o p)
    unfolding submit_by blocked_transition neutral_transition
    submit_by-IsFor RunStatus.blocked = refl
    submit_by-IsFor RunStatus.error = error-IsFor o p
    submit_by-IsFor RunStatus.completed = tt
    submit_by-IsFor _ = refl

    submit-IsFor : {x : Submitted} → on_submit ref o p ≡ ok x → OnApply IsFor x
    submit-IsFor e = elim (Option-cases p.workflow_step) [
      | inl absent ↦
          subst (OnApply IsFor) (same_value (on_submit-none ref o p absent) e)
            (submit_by-IsFor o.status)
      | inr (s, given) ↦
          subst (OnApply IsFor) (same_value (on_submit-some ref o p s given) e)
            (step_by-IsFor o.status s)
    ]

    land_failed-IsFor : (l : LandOutcome) → OnOk IsFor (land_failed_transition ref o l p)
    unfolding land_failed_transition refused_transition
    land_failed-IsFor l = elim (Result-cases (land_failure_kind l.kind)) [
      | inl (k, e) ↦ rw e refl
      | inr (x, e) ↦ rw e tt
    ]

    land_by-IsFor : (k : LandKind) (l : LandOutcome) → OnOk IsFor (land_by k ref o l p)
    unfolding land_by no_change_transition landed_transition
    land_by-IsFor LandKind.landed l = refl
    land_by-IsFor LandKind.no_changes l = refl
    land_by-IsFor LandKind.adopted l = refl
    land_by-IsFor LandKind.checkout_behind l = refl
    land_by-IsFor _ l = land_failed-IsFor l

    workflow_land_by-IsFor :
        (k : LandKind) (l : LandOutcome) (s : WorkflowStepPolicy)
        → OnOk IsFor (workflow_land_by k ref o l p s)
    unfolding workflow_land_by no_change_transition code_step_landed
    workflow_land_by-IsFor LandKind.landed l s = refl
    workflow_land_by-IsFor LandKind.no_changes l s = refl
    workflow_land_by-IsFor LandKind.adopted l s = refl
    workflow_land_by-IsFor LandKind.checkout_behind l s = refl
    workflow_land_by-IsFor _ l s = land_failed-IsFor l

    workflow_land-IsFor : (l : LandOutcome) → OnOk IsFor (on_workflow_land ref o l p)
    unfolding on_workflow_land
    workflow_land-IsFor l = elim (Option-cases p.workflow_step) [
      | inl absent ↦ rw absent tt
      | inr (s, given) ↦ simp given (workflow_land_by-IsFor l.kind l s)
    ]

    workflow_split-IsFor : (created : List String) → OnOk IsFor (on_workflow_split ref o created p)
    unfolding on_workflow_split split_step_transition
    workflow_split-IsFor created = elim (Option-cases p.workflow_step) [
      | inl absent ↦ rw absent tt
      | inr (s, given) ↦ simp given refl
    ]

    pub on_submit_ref : {t : Transition} → on_submit ref o p ≡ ok (apply t) → t.ref ≡ ref
    on_submit_ref e = submit-IsFor e

    pub on_land_result_ref :
        (l : LandOutcome) {t : Transition} → on_land_result ref o l p ≡ ok t → t.ref ≡ ref
    unfolding on_land_result
    on_land_result_ref l e = subst (OnOk IsFor) e (land_by-IsFor l.kind l)

    pub on_workflow_land_ref :
        (l : LandOutcome) {t : Transition} → on_workflow_land ref o l p ≡ ok t → t.ref ≡ ref
    on_workflow_land_ref l e = subst (OnOk IsFor) e (workflow_land-IsFor l)

    pub on_workflow_split_ref :
        (created : List String) {t : Transition}
        → on_workflow_split ref o created p ≡ ok t
        → t.ref ≡ ref
    on_workflow_split_ref created e = subst (OnOk IsFor) e (workflow_split-IsFor created)
