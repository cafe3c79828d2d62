-- ===== src/Transitions/Fields.antt =====
-- src/nightshift/transitions.py: the attempt fields and the events that the functions write.
use nightshift.Base.{
  String, true, Option, none, some, [], ◌∷◌, Dict, Json, int, float, str, obj, opt_json,
}
use nightshift.Lifecycle.{
  FailureKind, failure_value, status_value, Telemetry, Outcome, AttemptRef, FrontmatterFlag,
  TransitionEvent,
}

abbrev pub kind_json : FailureKind → Json
kind_json k = str (failure_value k)

-- `telemetry.model_dump()`
abbrev pub model_dump : Telemetry → Dict Json
model_dump t =
    ("turns", opt_json int t.turns)
    ∷ ("input_tokens", opt_json int t.input_tokens)
    ∷ ("output_tokens", opt_json int t.output_tokens)
    ∷ ("cache_read_input_tokens", opt_json int t.cache_read_input_tokens)
    ∷ ("cache_creation_input_tokens", opt_json int t.cache_creation_input_tokens)
    ∷ ("usage", opt_json obj t.usage)
    ∷ ("cost_usd", opt_json float t.cost_usd)
    ∷ ("billing", opt_json str t.billing)
    ∷ ("validate_cmd", opt_json str t.validate_cmd)
    ∷ ("worktree", opt_json str t.worktree)
    ∷ ("timings", opt_json obj t.timings)
    ∷ []

unfoldable pub base_run_fields : Outcome → Dict Json
base_run_fields outcome = ("model", opt_json str outcome.model) ∷ model_dump outcome.telemetry

-- The keyword arguments of a failed, blocked or neutral attempt's row update.
unfoldable pub outcome_fields : Outcome → Option FailureKind → Dict Json
unfolding base_run_fields
outcome_fields outcome kind =
    ("result_line", str outcome.result_line)
    ∷ ("failure_kind", opt_json kind_json kind)
    ∷ ("failure_reason", opt_json str outcome.failure_reason)
    ∷ base_run_fields outcome

unfoldable pub error_fields : Outcome → Dict Json
unfolding outcome_fields
error_fields outcome = outcome_fields outcome outcome.failure_kind

unfoldable pub line_fields : String → Outcome → Dict Json
unfolding base_run_fields
line_fields result_line outcome = ("result_line", str result_line) ∷ base_run_fields outcome

-- The events, by their kind.
module _ (ref : AttemptRef) where
  abbrev pub task_result : Dict Json → TransitionEvent
  task_result payload = record {
    kind = "task_result";
    run_id = some ref.id;
    queue = ref.queue;
    task = some ref.task;
    payload = some payload;
  }

  abbrev pub task_quarantined : Dict Json → TransitionEvent
  task_quarantined payload = record {
    kind = "task_quarantined";
    run_id = some ref.id;
    queue = ref.queue;
    task = some ref.task;
    payload = some payload;
  }

  abbrev pub task_blocked : Dict Json → TransitionEvent
  task_blocked payload = record {
    kind = "task_blocked";
    run_id = none;
    queue = ref.queue;
    task = some ref.task;
    payload = some payload;
  }

  abbrev pub queue_paused : String → TransitionEvent
  queue_paused reason = record {
    kind = "queue_paused";
    run_id = none;
    queue = ref.queue;
    task = none;
    payload = some (("reason", str reason) ∷ ("task", str ref.task) ∷ []);
  }

  abbrev pub queue_changed : TransitionEvent
  queue_changed = record {
    kind = "queue_changed";
    run_id = none;
    queue = ref.queue;
    task = none;
    payload = none;
  }

  -- The result event of an outcome that is reported with its own status.
  abbrev pub status_result : Outcome → TransitionEvent
  status_result outcome = task_result (
      ("status", str (status_value outcome.status)) ∷ ("result_line", str outcome.result_line) ∷ [])

  abbrev pub completed_result : String → TransitionEvent
  completed_result line = task_result (("status", str "completed") ∷ ("result_line", str line) ∷ [])

abbrev pub quarantine_flag : String → FrontmatterFlag
quarantine_flag reason = record {
  key = "quarantined";
  value = true;
  reason_key = some "quarantine_reason";
  reason = some reason;
}

abbrev pub failed_flag : String → FrontmatterFlag
failed_flag reason = record {
  key = "failed";
  value = true;
  reason_key = some "failed_reason";
  reason = some reason;
}
