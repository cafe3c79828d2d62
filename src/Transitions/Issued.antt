-- ===== src/Transitions/Issued.antt =====
-- The transitions that the public functions of src/nightshift/transitions.py return.
use nightshift.Base.{String, Option, List, ◌≡◌, Option-cases, inl, inr, Result, ok, arith, subst}
use nightshift.Lifecycle.{
  Outcome, AttemptRef, SubmitPolicy, Transition, Submitted, apply, LandOutcome,
}
use nightshift.Transitions.Landing.{on_split_result, on_land_result}
use nightshift.Transitions.Recovery.{
  on_land_interrupted, on_land_recovered, on_land_enqueued, on_operator_stop, on_deadline,
}
use nightshift.Transitions.StepResults.{on_workflow_land, on_workflow_split}
use nightshift.Transitions.Submit.{on_submit}
use nightshift.Transitions.Built.{
  Built, OnApply, Returns, split_harvest, interrupted, recovered, enqueued, stopped, expired,
  on_submit_total, on_land_result_total, on_workflow_land_total, on_workflow_split_total,
}

pub data Issued (t : Transition) : Type 0 where
  by_submit :
      (ref : AttemptRef) (o : Outcome) (p : SubmitPolicy)
      → on_submit ref o p ≡ ok (apply t)
      → Issued t
  by_land :
      (ref : AttemptRef) (o : Outcome) (l : LandOutcome) (p : SubmitPolicy)
      → on_land_result ref o l p ≡ ok t
      → Issued t
  by_split :
      (ref : AttemptRef) (o : Outcome) (created : List String)
      → on_split_result ref o created ≡ t
      → Issued t
  by_workflow_land :
      (ref : AttemptRef) (o : Outcome) (l : LandOutcome) (p : SubmitPolicy)
      → on_workflow_land ref o l p ≡ ok t
      → Issued t
  by_workflow_split :
      (ref : AttemptRef) (o : Outcome) (created : List String) (p : SubmitPolicy)
      → on_workflow_split ref o created p ≡ ok t
      → Issued t
  by_interruption : (ref : AttemptRef) → on_land_interrupted ref ≡ t → Issued t
  by_recovery :
      (ref : AttemptRef) (sha : String) (note : Option String)
      → on_land_recovered ref sha note ≡ t
      → Issued t
  by_enqueue :
      (ref : AttemptRef) (branch_ref head_sha : Option String)
      → on_land_enqueued ref branch_ref head_sha ≡ t
      → Issued t
  by_stop : (ref : AttemptRef) → on_operator_stop ref ≡ t → Issued t
  by_deadline : (ref : AttemptRef) → on_deadline ref ≡ t → Issued t

workflow_land-Built :
    (ref : AttemptRef) (o : Outcome) (l : LandOutcome) (p : SubmitPolicy) {t : Transition}
    → on_workflow_land ref o l p ≡ ok t
    → Built t
unfolding on_workflow_land
workflow_land-Built ref o l p e = elim (Option-cases p.workflow_step) [
  | inl absent ↦ ground arith
  | inr (s, given) ↦ subst (Returns Built) e (on_workflow_land_total ref o l p s given)
]

workflow_split-Built :
    (ref : AttemptRef) (o : Outcome) (created : List String) (p : SubmitPolicy) {t : Transition}
    → on_workflow_split ref o created p ≡ ok t
    → Built t
unfolding on_workflow_split
workflow_split-Built ref o created p e = elim (Option-cases p.workflow_step) [
  | inl absent ↦ ground arith
  | inr (s, given) ↦ subst (Returns Built) e (on_workflow_split_total ref o created p s given)
]

pub apply_of :
    {x : Submitted} {t : Transition} {r : Result Submitted}
    → r ≡ ok x
    → r ≡ ok (apply t)
    → x ≡ apply t
apply_of e f = cc

pub Issued-Built : (t : Transition) → Issued t → Built t
Issued-Built t (by_submit ref o p e) =
    let (x, computed, built) = on_submit_total ref o p in
    subst (OnApply Built) (apply_of computed e) built
Issued-Built t (by_land ref o l p e) = subst (Returns Built) e (on_land_result_total ref o l p)
Issued-Built t (by_split ref o created e) = subst Built e (split_harvest ref o created)
Issued-Built t (by_workflow_land ref o l p e) = workflow_land-Built ref o l p e
Issued-Built t (by_workflow_split ref o created p e) = workflow_split-Built ref o created p e
Issued-Built t (by_interruption ref e) = subst Built e (interrupted ref)
Issued-Built t (by_recovery ref sha note e) = subst Built e (recovered ref sha note)
Issued-Built t (by_enqueue ref b h e) = subst Built e (enqueued ref b h)
Issued-Built t (by_stop ref e) = subst Built e (stopped ref)
Issued-Built t (by_deadline ref e) = subst Built e (expired ref)
