-- ===== src/Transitions/Landing.antt =====
-- src/nightshift/transitions.py, lines 374-671 and 1006-1018: land and split results, recovery, the
-- operator's stop and the deadline.
use nightshift.Base.{
  String, Bool, true, false, not, ◌&&◌, none, some, List, [], ◌∷◌, ◌++◌, ◌==◌, Dict, Json, bool,
  int, str, arr, opt_json, texts, text_or, if◌then◌else◌, fstring, join, show_nat, first_line,
  text_take, length, Result, ok, ◌>>=◌,
}
use nightshift.Lifecycle.{
  AttemptState, TaskHoldKind, FailureKind, failure_value, error_state_for, Outcome, AttemptRef,
  SubmitPolicy, Progress, no_effects, TransitionEvent, Transition, LandKind, LandOutcome,
  land_failure_kind,
}
use nightshift.Transitions.Fields.{
  base_run_fields, line_fields, kind_json, task_result, task_blocked, queue_changed,
  completed_result,
}
use nightshift.Transitions.Rungs.{Ladder, watch_failure, failure_ladder}

abbrev pub decomposed_line : List String → String
decomposed_line [] = "decomposition run produced no subtasks"
decomposed_line (t ∷ created) = fstring (
    "decomposed into "
    ∷ show_nat (length (t ∷ created))
    ∷ " subtask(s): "
    ∷ join ", " (t ∷ created)
    ∷ [])

-- The events and the response of a split, shared with the workflow's split step.
abbrev pub split_events : AttemptRef → List String → List TransitionEvent
split_events ref created =
    task_result ref (
      ("status", str "completed")
      ∷ ("result_line", str (decomposed_line created))
      ∷ ("subtasks", arr (texts created))
      ∷ [])
    ∷ queue_changed ref
    ∷ []

abbrev pub split_response : List String → Dict Json
split_response created =
    ("landed", bool false)
    ∷ ("status", str "completed")
    ∷ ("split", bool true)
    ∷ ("subtasks", arr (texts created))
    ∷ []

unfoldable pub on_split_result : AttemptRef → Outcome → List String → Transition
unfolding line_fields
on_split_result ref outcome created = record {
  ref = ref;
  fields = line_fields (decomposed_line created) outcome;
  state = AttemptState.no_change;
  effects = record no_effects { clear_hold = true; progress = Progress.reset };
  events = split_events ref created;
  response = split_response created;
}

unfoldable pub no_change_ladder : AttemptRef → SubmitPolicy → Ladder
no_change_ladder ref policy =
    failure_ladder ref policy "no changes produced" "no changes produced" false

unfoldable pub no_change_transition : AttemptRef → Outcome → SubmitPolicy → Transition
unfolding line_fields no_change_ladder
no_change_transition ref outcome policy =
    let result_line = text_or outcome.result_line "no changes" in
    let rung = no_change_ladder ref policy in
    record {
      ref = ref;
      fields = line_fields result_line outcome;
      state = AttemptState.no_change;
      effects = record no_effects {
        progress = Progress.increment;
        next_eligible_in = rung.backoff;
        frontmatter = rung.frontmatter;
        pause_queue = rung.pause;
        watch_armed = rung.watch;
      };
      events = rung.events ++ (completed_result ref result_line ∷ queue_changed ref ∷ []);
      response =
          ("landed", bool false)
          ∷ ("status", str "completed")
          ∷ ("no_changes", bool true)
          ∷ ("quarantined", bool rung.quarantined)
          ∷ [];
    }

abbrev is_adopted : LandKind → Bool
is_adopted LandKind.adopted = true
is_adopted _ = false

abbrev is_conflict : LandKind → Bool
is_conflict LandKind.conflict = true
is_conflict _ = false

-- The parts of a successful land, shared with the workflow's code step.
abbrev pub landed_fields : String → Outcome → LandOutcome → Dict Json
landed_fields result_line outcome land =
    ("result_line", str result_line)
    ∷ ("commit_sha", opt_json str land.sha)
    ∷ ("loc", opt_json int land.loc)
    ∷ ("remote", opt_json str land.remote)
    ∷ ("pushed", opt_json bool land.pushed)
    ∷ base_run_fields outcome

abbrev pub landed_events : AttemptRef → LandOutcome → List TransitionEvent
landed_events ref land =
    task_result ref (
      ("status", str "completed")
      ∷ ("commit_sha", opt_json str land.sha)
      ∷ ("remote", opt_json str land.remote)
      ∷ ("pushed", opt_json bool land.pushed)
      ∷ ("pr_url", opt_json str land.pr_url)
      ∷ [])
    ∷ queue_changed ref
    ∷ []

abbrev pub landed_response : LandOutcome → Dict Json
landed_response land =
    ("landed", bool true)
    ∷ ("sha", opt_json str land.sha)
    ∷ ("remote", opt_json str land.remote)
    ∷ ("pushed", opt_json bool land.pushed)
    ∷ ("pr_url", opt_json str land.pr_url)
    ∷ []

unfoldable pub landed_transition : AttemptRef → Outcome → LandOutcome → SubmitPolicy → Transition
unfolding base_run_fields
landed_transition ref outcome land policy =
    let result_line =
      if is_adopted land.kind && not outcome.landable
      then "agent landed on main"
      else text_or outcome.result_line (text_or land.detail "landed") in
    record {
      ref = ref;
      fields = landed_fields result_line outcome land;
      state = AttemptState.landed;
      effects = record no_effects {
        clear_hold = true;
        progress = Progress.reset;
        watch_armed = some false;
        drop_brief = not policy.evergreen;
      };
      events = landed_events ref land;
      response = landed_response land;
    }

-- The refused lands that leave a branch to resolve.
unfoldable pub resolvable : LandOutcome → Bool
resolvable land = elim land.kind [
  | LandKind.conflict ↦ true
  | LandKind.push_rejected ↦ true
  | LandKind.transport_failed ↦ land.retryable
  | _ ↦ false
]

unfoldable pub refused_transition :
    AttemptRef → Outcome → LandOutcome → SubmitPolicy → FailureKind → Transition
unfolding base_run_fields watch_failure resolvable
refused_transition ref outcome land policy kind =
    let held = resolvable land in
    let land_reason = fstring (
      "needs resolve: "
      ∷ (if land.detail == "" then failure_value kind else first_line land.detail)
      ∷ []) in
    let (pause, watch_events) = watch_failure ref policy in
    record {
      ref = ref;
      fields =
          (
            "result_line",
            str (
                if land.detail == ""
                then "land failed"
                else text_take 200 (first_line land.detail)),
          )
          ∷ ("failure_kind", kind_json kind)
          ∷ ("failure_reason", str land.detail)
          ∷ base_run_fields outcome;
      state = error_state_for (some kind);
      effects = record no_effects {
        hold =
            if held
            then some (record {
              kind = TaskHoldKind.blocked;
              reason = some land_reason;
              retry_eligible = false;
            })
            else none;
        pause_queue = if held then pause else none;
        watch_armed = if held then some true else none;
        start_resolve = policy.auto_resolve && held && not policy.pr_mode;
      };
      events =
          (if held
            then watch_events
              ++ (task_blocked ref (("reason", kind_json kind) ∷ ("detail", str land.detail) ∷ [])
                  ∷ [])
            else [])
          ++ (task_result ref (("status", str "error") ∷ ("failure_kind", kind_json kind) ∷ [])
              ∷ []);
      response =
          ("landed", bool false)
          ∷ ("conflict", bool (is_conflict land.kind))
          ∷ ("detail", str land.detail)
          ∷ ("resolving", bool false)
          ∷ [];
    }

unfoldable pub land_failed_transition :
    AttemptRef → Outcome → LandOutcome → SubmitPolicy → Result Transition
unfolding refused_transition land_failure_kind
land_failed_transition ref outcome land policy = do
  kind ← land_failure_kind land.kind
  ok (refused_transition ref outcome land policy kind)

-- The landing table, by the kind of the land.
unfoldable pub land_by :
    LandKind → AttemptRef → Outcome → LandOutcome → SubmitPolicy → Result Transition
unfolding no_change_transition landed_transition land_failed_transition
land_by LandKind.no_changes ref outcome land policy = ok (no_change_transition ref outcome policy)
land_by LandKind.landed ref outcome land policy = ok (landed_transition ref outcome land policy)
land_by LandKind.checkout_behind ref outcome land policy =
    ok (landed_transition ref outcome land policy)
land_by LandKind.adopted ref outcome land policy = ok (landed_transition ref outcome land policy)
land_by _ ref outcome land policy = land_failed_transition ref outcome land policy

unfoldable pub on_land_result :
    AttemptRef → Outcome → LandOutcome → SubmitPolicy → Result Transition
unfolding land_by
on_land_result ref outcome land policy = land_by land.kind ref outcome land policy
