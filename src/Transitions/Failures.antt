-- ===== src/Transitions/Failures.antt =====
-- src/nightshift/transitions.py, lines 175-345: blocked, failed and neutral submits.
use nightshift.Base.{
  String, Bool, true, false, Option, none, some, [], ◌∷◌, ◌++◌, ◌==◌, Dict, Json, bool, str,
  opt_json, text_or, opt_or, if◌then◌else◌, fstring,
}
use nightshift.Lifecycle.{
  RunStatus, AttemptState, TaskHoldKind, FailureKind, error_state_for, status_value, failure_value,
  RetryAction, on_failure, Outcome, AttemptRef, SubmitPolicy, TaskHold, Progress, no_effects,
  Transition,
}
use nightshift.Transitions.Fields.{
  outcome_fields, error_fields, kind_json, task_blocked, task_result, status_result,
}
use nightshift.Transitions.Rungs.{Ladder, watch_failure, retry_quarantine, failure_ladder}

abbrev pub kind_or : Outcome → FailureKind → FailureKind
kind_or outcome d = elim outcome.failure_kind [ none ↦ d | some k ↦ k ]

-- `failure_reason or result_line or "blocked"`
abbrev pub blocked_reason : Outcome → String
blocked_reason outcome = opt_or outcome.failure_reason (text_or outcome.result_line "blocked")

unfoldable pub blocked_transition : AttemptRef → Outcome → SubmitPolicy → Transition
unfolding watch_failure retry_quarantine outcome_fields
blocked_transition ref outcome policy =
    let reason = blocked_reason outcome in
    let (pause, watch_events) = watch_failure ref policy in
    let (flag, retry_events) = retry_quarantine ref reason in
    record {
      ref = ref;
      fields = outcome_fields outcome (some (kind_or outcome FailureKind.blocked));
      state = AttemptState.blocked;
      effects = record no_effects {
        hold =
            some
              (record { kind = TaskHoldKind.blocked; reason = some reason; retry_eligible = true });
        frontmatter = if policy.was_retry then flag ∷ [] else [];
        pause_queue = if policy.was_retry then some "retry_failed" else pause;
        watch_armed = some true;
      };
      events =
          (if policy.was_retry then watch_events ++ retry_events else watch_events)
          ++ (task_blocked ref (("reason", str reason) ∷ [])
              ∷ task_result ref
                  (("status", str "blocked") ∷ ("result_line", str outcome.result_line) ∷ [])
              ∷ []);
      response = ("landed", bool false) ∷ ("status", str "blocked") ∷ [];
    }

-- The response of a submit that landed nothing, under the status that the worker sent.
abbrev status_response : Outcome → Bool → Dict Json
status_response outcome quarantined =
    ("landed", bool false)
    ∷ ("status", str (status_value outcome.status))
    ∷ ("quarantined", bool quarantined)
    ∷ []

unfoldable pub environment_failure_transition : AttemptRef → Outcome → Transition
unfolding error_fields
environment_failure_transition ref outcome = record {
  ref = ref;
  fields = error_fields outcome;
  state = error_state_for outcome.failure_kind;
  effects = record no_effects { worker_cooldown = true };
  events = status_result ref outcome ∷ [];
  response = status_response outcome false;
}

unfoldable pub hold_reason : FailureKind → Outcome → String
hold_reason FailureKind.validation_error outcome =
    fstring (
      "validation failed: " ∷ text_or outcome.result_line "validate command returned non-zero" ∷ [])
hold_reason kind outcome =
    let detail = text_or outcome.result_line (opt_or outcome.failure_reason "") in
    if detail == "" then failure_value kind else fstring (failure_value kind ∷ ": " ∷ detail ∷ [])

-- The last statements of `_error_transition`, over the values that its branches have set.
unfoldable pub counted_error :
    AttemptRef → Outcome → FailureKind → Option TaskHold → Ladder → Transition
unfolding error_fields
counted_error ref outcome kind hold rung = record {
  ref = ref;
  fields = error_fields outcome;
  state = error_state_for (some kind);
  effects = record no_effects {
    hold = hold;
    progress = Progress.increment;
    next_eligible_in = rung.backoff;
    frontmatter = rung.frontmatter;
    pause_queue = rung.pause;
    watch_armed = rung.watch;
  };
  events = rung.events ++ (status_result ref outcome ∷ []);
  response = status_response outcome rung.quarantined;
}

unfoldable pub hold_rung : AttemptRef → Outcome → FailureKind → Ladder
hold_rung ref outcome kind = record {
  quarantined = false;
  frontmatter = [];
  events =
      task_blocked ref
        (("reason", kind_json kind) ∷ ("detail", opt_json str outcome.failure_reason) ∷ [])
      ∷ [];
  pause = none;
  watch = none;
  backoff = none;
}

-- `result_line or failure_reason or "worker error"`
abbrev pub worker_reason : Outcome → String
worker_reason outcome = text_or outcome.result_line (opt_or outcome.failure_reason "worker error")

unfoldable pub error_ladder : AttemptRef → Outcome → SubmitPolicy → Ladder
error_ladder ref outcome policy =
    failure_ladder ref policy "worker error" (worker_reason outcome) true

-- The error transition, by what the retry policy says of its kind.
unfoldable pub error_by :
    RetryAction → FailureKind → AttemptRef → Outcome → SubmitPolicy → Transition
unfolding environment_failure_transition counted_error hold_rung error_ladder
error_by RetryAction.retry_elsewhere kind ref outcome policy =
    environment_failure_transition ref outcome
error_by RetryAction.hold kind ref outcome policy =
    counted_error ref outcome kind
      (some (record {
        kind = TaskHoldKind.blocked;
        reason = some (hold_reason kind outcome);
        retry_eligible = false;
      }))
      (hold_rung ref outcome kind)
error_by _ kind ref outcome policy =
    counted_error ref outcome kind none (error_ladder ref outcome policy)

unfoldable pub error_transition : AttemptRef → Outcome → SubmitPolicy → Transition
unfolding error_by
error_transition ref outcome policy =
    let kind = kind_or outcome FailureKind.worker_error in
    error_by (on_failure policy.retry kind) kind ref outcome policy

abbrev neutral_state : RunStatus → AttemptState
neutral_state RunStatus.skipped = AttemptState.skipped
neutral_state _ = AttemptState.aborted

unfoldable pub neutral_transition : AttemptRef → Outcome → Transition
unfolding error_fields
neutral_transition ref outcome = record {
  ref = ref;
  fields = error_fields outcome;
  state = neutral_state outcome.status;
  effects = no_effects;
  events = status_result ref outcome ∷ [];
  response = status_response outcome false;
}
