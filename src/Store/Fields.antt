-- ===== src/Store/Fields.antt =====
-- The fields that transitions write are columns that src/nightshift/manager/store.py updates.
use nightshift.Base.{◌≡◌, refl, ok}
use nightshift.Lifecycle.{Outcome, AttemptRef, SubmitPolicy, FailureKind, RetryAction, Transition}
use nightshift.Transitions.{
  blocked_transition, error_transition, error_by, neutral_transition, on_split_result,
  no_change_transition, landed_transition, refused_transition, on_land_interrupted,
  on_land_recovered, on_land_enqueued, on_operator_stop, on_deadline, workflow_end,
  workflow_budget_quarantine, workflow_doc_advance, code_step_landed, split_step_transition,
}
use nightshift.Transitions.Built.{Built, failed}
use nightshift.Transitions.Issued.{Issued, Issued-Built}
use nightshift.Store.Attempts.{check_attempt_fields}

abbrev IsStorable : Transition → Type 0
IsStorable t = check_attempt_fields t.fields ≡ ok tt

error_by-IsStorable :
    (a : RetryAction) (k : FailureKind) (ref : AttemptRef) (o : Outcome) (p : SubmitPolicy)
    → IsStorable (error_by a k ref o p)
unfolding error_by check_attempt_fields
error_by-IsStorable RetryAction.retry_elsewhere k ref o p = refl
error_by-IsStorable _ k ref o p = refl

Built-IsStorable : (t : Transition) → Built t → IsStorable t
unfolding blocked_transition error_transition neutral_transition on_split_result
    no_change_transition landed_transition refused_transition on_land_interrupted on_land_recovered
    on_land_enqueued on_operator_stop on_deadline workflow_end workflow_budget_quarantine
    workflow_doc_advance code_step_landed split_step_transition check_attempt_fields
Built-IsStorable t (failed ref o p) = error_by-IsStorable _ _ ref o p
Built-IsStorable t _ = refl

-- Every transition that transitions.py computes writes only columns that the store updates, so the
-- field check of `apply_transition` never raises on it.
pub Issued-IsStorable : (t : Transition) → Issued t → check_attempt_fields t.fields ≡ ok tt
Issued-IsStorable t i = Built-IsStorable t (Issued-Built t i)
