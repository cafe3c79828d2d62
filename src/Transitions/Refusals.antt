-- ===== src/Transitions/Refusals.antt =====
-- Failures of src/nightshift/transitions.py that are not the task's: refused lands and broken boxes.
use nightshift.Base.{
  Bool, true, false, not, ◌&&◌, some, ◌≡◌, ◌≢◌, refl, ◌∙◌, is_some, ok, arith, ap, Option-cases,
  inl, inr,
}
use nightshift.Lifecycle.{
  RunStatus, AttemptState, FailureKind, is_environment_failure, on_failure, RetryAction, Outcome,
  AttemptRef, SubmitPolicy, no_effects, Progress, Transition, apply, LandKind, LandOutcome,
  is_land_success, land_failure_kind, error_state_for,
}
use nightshift.Transitions.Failures.{
  kind_or, error_by, error_transition, environment_failure_transition,
}
use nightshift.Transitions.Landing.{
  refused_transition, land_by, land_failed_transition, on_land_result, resolvable,
}
use nightshift.Transitions.Steps.{step_by}
use nightshift.Transitions.Built.{on_submit-none, on_submit-some}
use nightshift.Transitions.Submit.{submit_by, on_submit}

-- What a refused land is answered with.
pub record IsRefusal (l : LandOutcome) (p : SubmitPolicy) (t : Transition) : Type 0 where
  pub state : t.state ≡ AttemptState.conflict
  pub uncounted : t.effects.progress ≡ Progress.unchanged
  pub kept : t.effects.drop_brief ≡ false
  pub resolves :
      t.effects.start_resolve ≡ (p.auto_resolve && is_some t.effects.hold && not p.pr_mode)
  pub watched : is_some t.effects.watch_armed ≡ is_some t.effects.hold

-- Only a transport failure that is not retryable leaves nothing to resolve.
abbrev leaves_branch : LandOutcome → Bool
leaves_branch l = elim l.kind [ LandKind.transport_failed ↦ l.retryable | _ ↦ true ]

module _ (ref : AttemptRef) (o : Outcome) (l : LandOutcome) (p : SubmitPolicy) where
  abbrev Refused : LandKind → Type 0
  Refused k =
      (t : Transition) × (land_by k ref o l p ≡ ok t)
      × IsRefusal l p t
      × (is_some t.effects.hold ≡ leaves_branch l)

  refused-IsRefusal :
      (k : FailureKind)
      → land_failure_kind l.kind ≡ ok k
      → IsRefusal l p (refused_transition ref o l p k)
  unfolding refused_transition error_state_for land_failure_kind
  refused-IsRefusal k h = record {
    state = ground arith;
    uncounted = refl;
    kept = refl;
    resolves = ground arith;
    watched = ground arith;
  }

  held : (k : FailureKind) → is_some (refused_transition ref o l p k).effects.hold ≡ resolvable l
  unfolding refused_transition
  held k = ground arith

  failed_land-Refused :
      (k : FailureKind)
      → land_failure_kind l.kind ≡ ok k
      → (t : Transition) × (land_failed_transition ref o l p ≡ ok t)
        × IsRefusal l p t
        × (is_some t.effects.hold ≡ resolvable l)
  unfolding land_failed_transition
  failed_land-Refused k h = (refused_transition ref o l p k, simp h, refused-IsRefusal k h, held k)

  branch_left :
      (k : LandKind)
      → l.kind ≡ k
      → k ≢ LandKind.no_changes
      → is_land_success k ≡ false
      → resolvable l ≡ leaves_branch l
  unfolding resolvable is_land_success
  branch_left k e c s = ground arith

  failed_land-leaves :
      (k : FailureKind)
      → land_failure_kind l.kind ≡ ok k
      → resolvable l ≡ leaves_branch l
      → (t : Transition) × (land_failed_transition ref o l p ≡ ok t)
        × IsRefusal l p t
        × (is_some t.effects.hold ≡ leaves_branch l)
  failed_land-leaves k h b =
      let (t, returned, refusal, hold) = failed_land-Refused k h in (t, returned, refusal, hold ∙ b)

  Refused-by :
      (k : LandKind) → l.kind ≡ k → is_land_success k ≡ false → k ≢ LandKind.no_changes → Refused k
  unfolding land_by is_land_success land_failure_kind
  Refused-by LandKind.no_changes e s c = absurd (c refl)
  Refused-by LandKind.conflict e s c =
      failed_land-leaves FailureKind.merge_conflict (ap land_failure_kind e) (branch_left _ e c s)
  Refused-by LandKind.push_rejected e s c =
      failed_land-leaves FailureKind.merge_rejected (ap land_failure_kind e) (branch_left _ e c s)
  Refused-by LandKind.transport_failed e s c =
      failed_land-leaves FailureKind.merge_rejected (ap land_failure_kind e) (branch_left _ e c s)
  Refused-by _ e s c = cc

-- A refused land is stored as a conflict and is neutral to the task's counter; the brief stays. The
-- task is held, with the failure watch armed, unless the transport failed for good, and a resolve
-- is started exactly for a held task where it is switched on and no pull request is in play.
pub on_land_result_refused :
    (ref : AttemptRef) (o : Outcome) (l : LandOutcome) (p : SubmitPolicy)
    → is_land_success l.kind ≡ false
    → l.kind ≢ LandKind.no_changes
    → (t : Transition) × (on_land_result ref o l p ≡ ok t)
      × IsRefusal l p t
      × (is_some t.effects.hold ≡ leaves_branch l)
unfolding on_land_result
on_land_result_refused ref o l p s c = Refused-by ref o l p l.kind refl s c

environment_failed :
    (k : FailureKind)
    → is_environment_failure k ≡ true
    → error_state_for (some k) ≡ AttemptState.failed
unfolding is_environment_failure on_failure error_state_for
environment_failed k h = ground arith

module _ (ref : AttemptRef) (o : Outcome) (p : SubmitPolicy) where
  abbrev cooled : Transition
  cooled = environment_failure_transition ref o

  elsewhere :
      (k : FailureKind)
      → is_environment_failure k ≡ true
      → on_failure p.retry k ≡ RetryAction.retry_elsewhere
  unfolding is_environment_failure on_failure
  elsewhere k h = ground arith

  error-cooled :
      (k : FailureKind)
      → o.failure_kind ≡ some k
      → is_environment_failure k ≡ true
      → error_transition ref o p ≡ cooled
  unfolding error_transition
  error-cooled k e h =
      let kind = kind_or o FailureKind.worker_error in
      let same : kind ≡ k = ground arith in
      let cools : on_failure p.retry kind ≡ RetryAction.retry_elsewhere = rw same (elsewhere k h) in
      ap (λ a. error_by a kind ref o p) cools

  submitted_error :
      o.status ≡ RunStatus.error → on_submit ref o p ≡ ok (apply (error_transition ref o p))
  unfolding submit_by step_by
  submitted_error r = elim (Option-cases p.workflow_step) [
    | inl e ↦ on_submit-none ref o p e ∙ ap (λ s. ok (submit_by s ref o p)) r
    | inr (s, e) ↦ on_submit-some ref o p s e ∙ ap (λ x. ok (step_by x ref o p s)) r
  ]

  -- An environment failure, in a workflow or not, cools the worker down and changes nothing of the
  -- task: no hold, no counter, no flag, no watch, no pause. The attempt is stored as failed.
  pub on_submit_environment :
      (k : FailureKind)
      → o.status ≡ RunStatus.error
      → o.failure_kind ≡ some k
      → is_environment_failure k ≡ true
      → (t : Transition) × (on_submit ref o p ≡ ok (apply t))
        × (t.effects ≡ record no_effects { worker_cooldown = true })
        × (t.state ≡ AttemptState.failed)
  unfolding environment_failure_transition
  on_submit_environment k r e h = (
    cooled,
    submitted_error r ∙ ap (λ t. ok (apply t)) (error-cooled k e h),
    refl,
    ground (arith, environment_failed k h),
  )
