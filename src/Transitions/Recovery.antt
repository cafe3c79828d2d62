-- ===== src/Transitions/Recovery.antt =====
-- src/nightshift/transitions.py, lines 575-671 and 1006-1018: startup recovery, the enqueued land,
-- the operator's stop and the deadline.
use nightshift.Base.{String, true, false, Option, some, [], ◌∷◌, str, opt_json, fstring, opt_or}
use nightshift.Lifecycle.{
  AttemptState, TaskHoldKind, FailureKind, AttemptRef, Progress, no_effects, Transition,
}
use nightshift.Transitions.Fields.{kind_json, task_result, task_blocked, queue_changed}

abbrev interrupted_detail : String
interrupted_detail = "manager restarted mid-land; task branch preserved for resolve"

unfoldable pub on_land_interrupted : AttemptRef → Transition
on_land_interrupted ref = record {
  ref = ref;
  fields =
      ("result_line", str interrupted_detail)
      ∷ ("failure_kind", kind_json FailureKind.merge_rejected)
      ∷ ("failure_reason", str interrupted_detail)
      ∷ [];
  state = AttemptState.conflict;
  effects = record no_effects {
    hold = some (record {
      kind = TaskHoldKind.blocked;
      reason = some (fstring ("needs resolve: " ∷ interrupted_detail ∷ []));
      retry_eligible = false;
    });
  };
  events =
      task_blocked ref
        (("reason", kind_json FailureKind.merge_rejected) ∷ ("detail", str interrupted_detail) ∷ [])
      ∷ task_result ref
          (("status", str "error") ∷ ("failure_kind", kind_json FailureKind.merge_rejected) ∷ [])
      ∷ [];
  response = [];
}

unfoldable pub on_land_recovered : AttemptRef → String → Option String → Transition
on_land_recovered ref sha note =
    let result_line =
      fstring ("recovered: landed (manager restarted mid-land)" ∷ opt_or note "" ∷ []) in
    record {
      ref = ref;
      fields = ("result_line", str result_line) ∷ ("commit_sha", str sha) ∷ [];
      state = AttemptState.landed;
      effects = record no_effects {
        clear_hold = true;
        progress = Progress.reset;
        watch_armed = some false;
      };
      events =
          task_result ref (
            ("status", str "completed")
            ∷ ("commit_sha", str sha)
            ∷ ("result_line", str result_line)
            ∷ [])
          ∷ queue_changed ref
          ∷ [];
      response = [];
    }

unfoldable pub on_land_enqueued :
    (ref : AttemptRef) (branch_ref head_sha : Option String) → Transition
on_land_enqueued ref branch_ref head_sha = record {
  ref = ref;
  fields =
      ("phase", str "landing")
      ∷ ("branch_ref", opt_json str branch_ref)
      ∷ ("head_sha", opt_json str head_sha)
      ∷ [];
  state = AttemptState.landing;
  effects = no_effects;
  events = [];
  response = [];
}

abbrev silent : AttemptRef → AttemptState → Transition
silent ref state = record {
  ref = ref;
  fields = [];
  state = state;
  effects = no_effects;
  events = [];
  response = [];
}

unfoldable pub on_operator_stop : AttemptRef → Transition
on_operator_stop ref = silent ref AttemptState.aborted

unfoldable pub on_deadline : AttemptRef → Transition
on_deadline ref = silent ref AttemptState.expired
