-- ===== src/Samples.antt =====
-- Concrete attempts, outcomes and policies, for the examples of the other modules.
use nightshift.Base.{String, true, false, Option, none, some, [], ◌∷◌, pos}
use nightshift.Workflows.Step.{StepKind}
use nightshift.Lifecycle.{
  RunStatus, FailureKind, Telemetry, Outcome, AttemptRef, SubmitPolicy, WorkflowStepPolicy,
  LandKind, LandOutcome, default_policy, AttemptState,
}
use nightshift.Store.{AttemptRow, TaskRow, TaskKey, Store}

abbrev pub an_attempt : AttemptRef
an_attempt = record { id = "run-1"; queue = some "docs"; task = "04.1.setup" }

abbrev no_telemetry : Telemetry
no_telemetry = record {
  turns = some (pos 12);
  input_tokens = none;
  output_tokens = none;
  cache_read_input_tokens = none;
  cache_creation_input_tokens = none;
  usage = none;
  cost_usd = none;
  billing = none;
  validate_cmd = none;
  worktree = none;
  timings = none;
}

abbrev pub an_outcome : RunStatus → Option FailureKind → Option String → Outcome
an_outcome status kind document = record {
  telemetry = no_telemetry;
  status = status;
  result_line = "ran";
  landable = true;
  model = some "opus";
  backend = "claude";
  document = document;
  signal = none;
  branch_ref = none;
  head_sha = none;
  failure_kind = kind;
  failure_reason = some "exit 1";
}

abbrev pub crashed : Outcome
crashed = an_outcome RunStatus.error (some FailureKind.worker_error) none

abbrev pub unavailable : Outcome
unavailable = an_outcome RunStatus.error (some FailureKind.model_unavailable) none

abbrev pub finished : Outcome
finished = an_outcome RunStatus.completed none (some "plan")

abbrev pub a_policy : SubmitPolicy
a_policy = record {
  retry = default_policy;
  attempts_without_progress = 2;
  was_retry = false;
  watch_armed = false;
  queue_paused = false;
  split = false;
  evergreen = false;
  auto_resolve = true;
  pr_mode = false;
  workflow_step = none;
}

abbrev pub strict_policy : SubmitPolicy
strict_policy = record a_policy { retry = record default_policy { quarantine_after = 3 } }

abbrev pub a_step : WorkflowStepPolicy
a_step = record {
  workflow = "plan";
  step_id = "draft";
  kind = StepKind.doc;
  output = some "design";
  route_to = "review";
  dest_kind = some StepKind.doc;
  dest_visits_exhausted = false;
  evergreen = false;
  visits = ("draft", pos 1) ∷ ("review", pos 1) ∷ [];
  exhausted_reason = "";
}

abbrev pub step_policy : SubmitPolicy
step_policy = record a_policy { workflow_step = some a_step }

abbrev pub a_land : LandKind → LandOutcome
a_land kind = record {
  kind = kind;
  sha = some "abc";
  detail = "CONFLICT in a.py";
  conflicts = "a.py" ∷ [];
  dropped_commits = [];
  pr_url = none;
  remote = none;
  pushed = none;
  retryable = false;
  loc = none;
}

abbrev pub a_row : AttemptState → AttemptRow
a_row state = record {
  queue = "docs";
  task = "04.1.setup";
  worker_id = some "w1";
  state = state;
  started_at = 5;
  heartbeat_at = 6;
  deadline_at = some 30;
  finished_at = none;
  released_at = none;
  columns = [];
}

abbrev pub a_key : TaskKey
a_key = record { queue = "docs"; task = "04.1.setup" }

abbrev pub a_counter : TaskRow
a_counter = record {
  state = none;
  blocked_reason = none;
  repo = none;
  retry_eligible = false;
  attempts_without_progress = 1;
  next_eligible_at = some 60;
  updated_at = 7;
}

abbrev pub a_store : Store
a_store = record {
  attempts = ("run-1", a_row AttemptState.running) ∷ [];
  tasks = (a_key, a_counter) ∷ [];
  events = [];
  next_event = 9;
}
