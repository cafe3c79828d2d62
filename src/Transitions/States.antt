-- ===== src/Transitions/States.antt =====
-- The attempt states that src/nightshift/transitions.py reaches, and what is recorded with them.
use nightshift.Base.{
  Bool, true, false, not, ◌&&◌, ◌||◌, Option, some, [], ◌≡◌, ◌⊎◌, inl, inr, refl, Json, bool,
  lookup, arith, Option-cases,
}
use nightshift.Lifecycle.{
  AttemptRef, AttemptState, is_terminal, is_merge_failure, error_state_for, Outcome, SubmitPolicy,
  FailureKind, Progress, RetryAction, Transition,
}
use nightshift.Transitions.Fields.{kind_json}
use nightshift.Transitions.Rungs.{failure_ladder}
use nightshift.Transitions.Failures.{
  blocked_transition, error_transition, error_by, neutral_transition, kind_or,
}
use nightshift.Transitions.Landing.{
  on_split_result, no_change_transition, landed_transition, refused_transition,
}
use nightshift.Transitions.Recovery.{
  on_land_interrupted, on_land_recovered, on_land_enqueued, on_operator_stop, on_deadline,
}
use nightshift.Transitions.Steps.{workflow_end, workflow_budget_quarantine, workflow_doc_advance}
use nightshift.Transitions.StepResults.{code_step_landed, split_step_transition}
use nightshift.Transitions.Issued.{Issued, Issued-Built}
use nightshift.Transitions.Built.{
  Built, failed, neutral, refused, interrupted, enqueued, step_split,
}

transitions : Unit {0}
unfolding blocked_transition neutral_transition no_change_transition landed_transition
    refused_transition on_split_result on_land_interrupted on_land_recovered on_land_enqueued
    on_operator_stop on_deadline workflow_end workflow_budget_quarantine workflow_doc_advance
    code_step_landed split_step_transition failure_ladder is_terminal error_state_for lookup
transitions = tt

-- Terminal, or the land phase.
abbrev pub IsSettled : Transition → Type 0
IsSettled t = (is_terminal t.state ≡ true) ⊎ (t.state ≡ AttemptState.landing)

error_state-terminal : (k : Option FailureKind) → is_terminal (error_state_for k) ≡ true
unfolding error_state_for is_terminal
error_state-terminal k = ground arith

error-IsSettled :
    (a : RetryAction) (k : FailureKind) (ref : AttemptRef) (o : Outcome) (p : SubmitPolicy)
    → IsSettled (error_by a k ref o p)
unfolding error_by
error-IsSettled RetryAction.retry_elsewhere k ref o p = inl (error_state-terminal o.failure_kind)
error-IsSettled _ k ref o p = inl (error_state-terminal (some k))

Built-IsSettled : (t : Transition) → Built t → IsSettled t
unfolding transitions error_transition
Built-IsSettled t (failed ref o p) = error-IsSettled _ _ ref o p
Built-IsSettled t (refused ref o l p k e) = inl (error_state-terminal (some k))
Built-IsSettled t (enqueued ref b h) = inr refl
Built-IsSettled t (neutral ref o) = inl (ground arith)
Built-IsSettled t _ = inl refl

-- Every transition that the module computes moves its attempt to a terminal state or into the land
-- phase: none leaves it running or puts it into an unreachable state.
pub Issued-IsSettled : (t : Transition) → Issued t → IsSettled t
Issued-IsSettled t i = Built-IsSettled t (Issued-Built t i)

abbrev is_landed : AttemptState → Bool
is_landed AttemptState.landed = true
is_landed _ = false

abbrev is_disarmed : Option Bool → Bool
is_disarmed (some false) = true
is_disarmed _ = false

abbrev is_reset : Progress → Bool
is_reset Progress.reset = true
is_reset _ = false

abbrev is_true : Option Json → Bool
is_true (some (bool b)) = b
is_true _ = false

abbrev implies : Bool → Bool → Bool
implies a b = not a || b

-- What only a confirmed land does, and all that it does.
pub record IsLandAgreed (t : Transition) : Type 0 where
  pub disarms : is_disarmed t.effects.watch_armed ≡ is_landed t.state
  pub resets :
      implies (is_landed t.state) (is_reset t.effects.progress && t.effects.clear_hold) ≡ true
  pub drops : implies t.effects.drop_brief (is_landed t.state) ≡ true
  pub answers : implies (is_true (lookup "landed" t.response)) (is_landed t.state) ≡ true

error-IsLandAgreed :
    (a : RetryAction) (k : FailureKind) (ref : AttemptRef) (o : Outcome) (p : SubmitPolicy)
    → IsLandAgreed (error_by a k ref o p)
unfolding error_by transitions
error-IsLandAgreed RetryAction.retry_elsewhere k ref o p = record {
  disarms = ground arith;
  resets = ground arith;
  drops = ground arith;
  answers = ground arith;
}
error-IsLandAgreed _ k ref o p = record {
  disarms = ground arith;
  resets = ground arith;
  drops = ground arith;
  answers = ground arith;
}

Built-IsLandAgreed : (t : Transition) → Built t → IsLandAgreed t
unfolding transitions error_transition
Built-IsLandAgreed t (failed ref o p) = error-IsLandAgreed _ _ ref o p
Built-IsLandAgreed t (step_split ref o [] s) = record {
  disarms = refl;
  resets = refl;
  drops = refl;
  answers = refl;
}
Built-IsLandAgreed t _ = record {
  disarms = ground arith;
  resets = ground arith;
  drops = ground arith;
  answers = ground arith;
}

-- Of the transitions that the module computes, exactly those to LANDED disarm the failure watch;
-- they reset the counter and clear the hold, and only they consume the brief or answer `landed`.
pub Issued-IsLandAgreed : (t : Transition) → Issued t → IsLandAgreed t
Issued-IsLandAgreed t i = Built-IsLandAgreed t (Issued-Built t i)

-- A failure kind of the merge shape, and the value of `failure_kind` that stands for it.
abbrev pub IsMergeKind : Option Json → Type 0
IsMergeKind stored = (k : FailureKind) × (is_merge_failure k ≡ true) × (stored ≡ some (kind_json k))

error_state-merge :
    (k : FailureKind) → error_state_for (some k) ≡ AttemptState.conflict → is_merge_failure k ≡ true
unfolding error_state_for
error_state-merge k h = ground arith

abbrev HasMergeKind : Transition → Type 0
HasMergeKind t = t.state ≡ AttemptState.conflict → IsMergeKind (lookup "failure_kind" t.fields)

error-HasMergeKind :
    (a : RetryAction) (k : FailureKind) (ref : AttemptRef) (o : Outcome) (p : SubmitPolicy)
    → k ≡ kind_or o FailureKind.worker_error
    → HasMergeKind (error_by a k ref o p)
unfolding error_by transitions
error-HasMergeKind RetryAction.retry_elsewhere k ref o p e h = elim (Option-cases o.failure_kind) [
  | inl absent ↦ ground arith
  | inr (j, given) ↦ (j, ground arith, ground arith)
]
error-HasMergeKind _ k ref o p e h = elim (Option-cases o.failure_kind) [
  | inl absent ↦ ground arith
  | inr (j, given) ↦ (j, ground arith, ground arith)
]

Built-HasMergeKind : (t : Transition) → Built t → HasMergeKind t
unfolding transitions error_transition
Built-HasMergeKind t (failed ref o p) h = error-HasMergeKind _ _ ref o p refl h
Built-HasMergeKind t (refused ref o l p k e) h = (k, error_state-merge k h, refl)
Built-HasMergeKind t (interrupted ref) h = (FailureKind.merge_rejected, refl, refl)
Built-HasMergeKind t (neutral ref o) h = ground arith
Built-HasMergeKind t _ h = cc

-- A transition to CONFLICT stores a merge-shaped failure kind with it: no other failure is stored
-- as a conflict.
Issued-IsMergeKind :
    (t : Transition)
    → Issued t
    → t.state ≡ AttemptState.conflict
    → IsMergeKind (lookup "failure_kind" t.fields)
Issued-IsMergeKind t i = Built-HasMergeKind t (Issued-Built t i)
