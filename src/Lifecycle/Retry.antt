-- ===== src/Lifecycle/Retry.antt =====
-- src/nightshift/lifecycle.py, lines 335-414: how a failure is classified, and the backoff.
use nightshift.Base.{ℕ, zero, suc, ◌*◌, ◌/◌, ◌^◌, min, Bool, true, false, if◌then◌else◌}
use nightshift.Lifecycle.Vocabulary.{FailureKind}

pub data RetryAction : Type 0 where
  retry retry_elsewhere hold quarantine : RetryAction

-- Durations are counted in whole ticks, of any length that the configured values allow.
pub record Backoff : Type 0 where
  pub base_seconds : ℕ
  pub cap_seconds : ℕ

-- At a counter of 0, which the callers never pass, the exponent is -1.
unfoldable pub delay : Backoff → ℕ → ℕ
delay b zero = min (b.base_seconds / 2) b.cap_seconds
delay b (suc n) = min (b.base_seconds * 2 ^ min n 63) b.cap_seconds

pub record RetryPolicy : Type 0 where
  pub quarantine_after : ℕ
  pub immediate_quarantine : Bool
  pub backoff : Backoff

unfoldable pub on_failure : RetryPolicy → FailureKind → RetryAction
on_failure p FailureKind.worker_error =
    if p.immediate_quarantine then RetryAction.quarantine else RetryAction.retry
on_failure p FailureKind.validation_error = RetryAction.hold
on_failure p FailureKind.blocked = RetryAction.hold
on_failure p FailureKind.merge_conflict = RetryAction.hold
on_failure p FailureKind.merge_rejected = RetryAction.hold
on_failure p FailureKind.model_unavailable = RetryAction.retry_elsewhere
on_failure p FailureKind.backend_unavailable = RetryAction.retry_elsewhere
on_failure p FailureKind.repo_unavailable = RetryAction.retry_elsewhere
on_failure p FailureKind.preflight_failed = RetryAction.retry_elsewhere
on_failure p FailureKind.worktree_failed = RetryAction.retry_elsewhere
on_failure p FailureKind.worker_launch = RetryAction.retry_elsewhere
on_failure p FailureKind.publish_failed = RetryAction.retry_elsewhere
on_failure p FailureKind.document_unavailable = RetryAction.retry_elsewhere

-- `RetryPolicy()`
abbrev pub default_policy : RetryPolicy
default_policy = record {
  quarantine_after = 0;
  immediate_quarantine = false;
  backoff = record { base_seconds = 60; cap_seconds = 3600 };
}

-- ENVIRONMENT_FAILURE_KINDS
unfoldable pub is_environment_failure : FailureKind → Bool
unfolding on_failure
is_environment_failure kind = elim (on_failure default_policy kind) [
  | RetryAction.retry_elsewhere ↦ true
  | _ ↦ false
]
