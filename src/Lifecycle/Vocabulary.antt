-- ===== src/Lifecycle/Vocabulary.antt =====
-- src/nightshift/lifecycle.py, lines 57-229: the status enumerations and the tables over them.
use nightshift.Base.{String, Bool, true, false, Option, none, some}

pub data RunStatus : Type 0 where
  running completed blocked error skipped aborted : RunStatus

pub data AttemptState : Type 0 where
  claimed running submitted landing resolving : AttemptState
  landed no_change blocked failed conflict expired aborted skipped : AttemptState

pub data TaskHoldKind : Type 0 where
  blocked failed quarantined repo_unavailable ci_red : TaskHoldKind

pub data FailureKind : Type 0 where
  model_unavailable backend_unavailable repo_unavailable preflight_failed : FailureKind
  worktree_failed worker_launch publish_failed document_unavailable : FailureKind
  worker_error validation_error blocked : FailureKind
  merge_conflict merge_rejected : FailureKind

pub data LandingMode : Type 0 where
  local push pr : LandingMode

unfoldable pub is_remote : LandingMode → Bool
is_remote LandingMode.local = false
is_remote LandingMode.push = true
is_remote LandingMode.pr = true

-- ATTEMPT_TERMINAL_STATES
unfoldable pub is_terminal : AttemptState → Bool
is_terminal AttemptState.landed = true
is_terminal AttemptState.no_change = true
is_terminal AttemptState.blocked = true
is_terminal AttemptState.failed = true
is_terminal AttemptState.conflict = true
is_terminal AttemptState.expired = true
is_terminal AttemptState.aborted = true
is_terminal AttemptState.skipped = true
is_terminal _ = false

-- ATTEMPT_LIVE_STATES
unfoldable pub is_live : AttemptState → Bool
is_live AttemptState.running = true
is_live AttemptState.landing = true
is_live _ = false

-- ATTEMPT_RESOLVABLE_STATES
unfoldable pub is_resolvable : AttemptState → Bool
is_resolvable AttemptState.failed = true
is_resolvable AttemptState.conflict = true
is_resolvable AttemptState.blocked = true
is_resolvable _ = false

-- MERGE_FAILURE_KINDS
unfoldable pub is_merge_failure : FailureKind → Bool
is_merge_failure FailureKind.merge_conflict = true
is_merge_failure FailureKind.merge_rejected = true
is_merge_failure _ = false

unfoldable pub error_state_for : Option FailureKind → AttemptState
unfolding is_merge_failure
error_state_for none = AttemptState.failed
error_state_for (some kind) = elim (is_merge_failure kind) [
  | true ↦ AttemptState.conflict
  | false ↦ AttemptState.failed
]

unfoldable pub run_status_of : AttemptState → String
run_status_of AttemptState.claimed = "running"
run_status_of AttemptState.running = "running"
run_status_of AttemptState.submitted = "running"
run_status_of AttemptState.landing = "running"
run_status_of AttemptState.resolving = "running"
run_status_of AttemptState.landed = "completed"
run_status_of AttemptState.no_change = "completed"
run_status_of AttemptState.blocked = "blocked"
run_status_of AttemptState.failed = "error"
run_status_of AttemptState.conflict = "error"
run_status_of AttemptState.skipped = "skipped"
run_status_of AttemptState.aborted = "aborted"
run_status_of AttemptState.expired = "expired"

abbrev pub resolve_worker_id : String
resolve_worker_id = "manager:resolve"

-- The wire strings: the values of the two enumerations that payloads carry.
unfoldable pub status_value : RunStatus → String
status_value RunStatus.running = "running"
status_value RunStatus.completed = "completed"
status_value RunStatus.blocked = "blocked"
status_value RunStatus.error = "error"
status_value RunStatus.skipped = "skipped"
status_value RunStatus.aborted = "aborted"

unfoldable pub failure_value : FailureKind → String
failure_value FailureKind.model_unavailable = "model_unavailable"
failure_value FailureKind.backend_unavailable = "backend_unavailable"
failure_value FailureKind.repo_unavailable = "repo_unavailable"
failure_value FailureKind.preflight_failed = "preflight_failed"
failure_value FailureKind.worktree_failed = "worktree_failed"
failure_value FailureKind.worker_launch = "worker_launch"
failure_value FailureKind.publish_failed = "publish_failed"
failure_value FailureKind.document_unavailable = "document_unavailable"
failure_value FailureKind.worker_error = "worker_error"
failure_value FailureKind.validation_error = "validation_error"
failure_value FailureKind.blocked = "blocked"
failure_value FailureKind.merge_conflict = "merge_conflict"
failure_value FailureKind.merge_rejected = "merge_rejected"

unfoldable pub state_value : AttemptState → String
state_value AttemptState.claimed = "claimed"
state_value AttemptState.running = "running"
state_value AttemptState.submitted = "submitted"
state_value AttemptState.landing = "landing"
state_value AttemptState.resolving = "resolving"
state_value AttemptState.landed = "landed"
state_value AttemptState.no_change = "no_change"
state_value AttemptState.blocked = "blocked"
state_value AttemptState.failed = "failed"
state_value AttemptState.conflict = "conflict"
state_value AttemptState.expired = "expired"
state_value AttemptState.aborted = "aborted"
state_value AttemptState.skipped = "skipped"
