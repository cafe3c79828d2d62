-- ===== src/Compat/Fold.antt =====
-- src/nightshift/lifecycle_compat.py: `fold_legacy` and `split_state`.
use nightshift.Base.{
  String, Bool, false, ◌&&◌, ◌||◌, Option, none, some, ◌==◌, if◌then◌else◌, Result, ok, err,
  value_error,
}
use nightshift.Lifecycle.{RunStatus, AttemptState, FailureKind, failure_value, resolve_worker_id}

-- `RunStatus(value)`
unfoldable pub read_status : String → Result RunStatus
read_status v =
    if v == "running"
    then ok RunStatus.running
    else if v == "completed"
    then ok RunStatus.completed
    else if v == "blocked"
    then ok RunStatus.blocked
    else if v == "error"
    then ok RunStatus.error
    else if v == "skipped"
    then ok RunStatus.skipped
    else if v == "aborted"
    then ok RunStatus.aborted
    else err (value_error "not a valid RunStatus")

-- `o == v` for a text that may be `None`.
abbrev pub is_text : Option String → String → Bool
is_text none v = false
is_text (some t) v = t == v

-- _MERGE_KIND_VALUES
unfoldable pub is_merge_value : Option String → Bool
unfolding failure_value
is_merge_value none = false
is_merge_value (some k) =
    k == failure_value FailureKind.merge_conflict || k == failure_value FailureKind.merge_rejected

-- The match on the run status alone.
unfoldable pub fold_status :
    RunStatus → Option String → Option String → Option String → AttemptState
unfolding is_merge_value
fold_status RunStatus.completed lease kind worker = AttemptState.no_change
fold_status RunStatus.blocked lease kind worker = AttemptState.blocked
fold_status RunStatus.error lease kind worker =
    if is_merge_value kind then AttemptState.conflict else AttemptState.failed
fold_status RunStatus.aborted lease kind worker = AttemptState.aborted
fold_status RunStatus.skipped lease kind worker = AttemptState.skipped
fold_status RunStatus.running none kind worker =
    if is_text worker resolve_worker_id then AttemptState.resolving else AttemptState.aborted
fold_status RunStatus.running (some l) kind worker = AttemptState.aborted

abbrev pub run_fold : String → Option String → Option String → Option String → Result AttemptState
run_fold run lease kind worker = elim (read_status run) [
  | ok status ↦ ok (fold_status status lease kind worker)
  | err e ↦ err e
]

-- The arguments are the lease's status, the run's, the phase, the failure kind and the worker.
unfoldable pub fold_legacy :
    Option String → String → Option String → Option String → Option String → Result AttemptState
unfolding read_status fold_status
fold_legacy lease run phase kind worker =
    if is_text lease "cancelled"
    then ok AttemptState.aborted
    else if is_text lease "expired"
    then ok AttemptState.expired
    else if is_text lease "landed"
    then ok AttemptState.landed
    else if is_text lease "leased" && run == "running"
    then ok (if is_text phase "landing" then AttemptState.landing else AttemptState.running)
    else run_fold run lease kind worker

unfoldable pub split_state : AttemptState → Result (Option String × String)
split_state AttemptState.running = ok (some "leased", "running")
split_state AttemptState.landing = ok (some "leased", "running")
split_state AttemptState.landed = ok (some "landed", "completed")
split_state AttemptState.no_change = ok (some "released", "completed")
split_state AttemptState.blocked = ok (some "released", "blocked")
split_state AttemptState.failed = ok (some "released", "error")
split_state AttemptState.conflict = ok (some "released", "error")
split_state AttemptState.skipped = ok (some "released", "skipped")
split_state AttemptState.aborted = ok (some "cancelled", "aborted")
split_state AttemptState.expired = ok (some "expired", "running")
split_state AttemptState.resolving = ok (none, "running")
split_state AttemptState.claimed = err (value_error "claimed is never stored; nothing to split")
split_state AttemptState.submitted = err (value_error "submitted is never stored; nothing to split")
