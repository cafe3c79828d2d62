-- ===== src/Manager/Verdict.antt =====
-- What the handlers of src/nightshift/manager/api_worker.py read off a row, and the transition for the result of
-- a git phase.
use nightshift.Base.{
  ℕ, String, Bool, true, false, Option, none, some, List, [], ◌∷◌, ◌++◌, fstring, contains, Dict,
  Json, str, lookup, if◌then◌else◌, Result, ok, is_some,
}
use nightshift.Lifecycle.{
  AttemptRef, Outcome, SubmitPolicy, LandingMode, LandKind, LandOutcome, Transition,
}
use nightshift.Transitions.{on_land_result, on_split_result, on_workflow_land, on_workflow_split}
use nightshift.Queues.Config.{truth}
use nightshift.Store.{AttemptRow, TaskRow}
use nightshift.Manager.World.{Job, World, Action, pure, refuse, from_result}

-- `_queue_from_label`
unfoldable pub queue_from_label : Option String → Option String
queue_from_label none = none
queue_from_label (some label) = if contains ("" ∷ "main" ∷ []) label then none else some label

-- A column that holds a text or NULL.
abbrev pub text_column : String → AttemptRow → Option String
text_column name r = elim (lookup name r.columns) [ some (str s) ↦ some s | _ ↦ none ]

abbrev pub stale_submit : String
stale_submit = "stale submit: lease is not live for this worker"

-- `bool(meta.get(key, True))`
abbrev pub true_by_default : String → Dict Json → Bool
true_by_default key meta = elim (lookup key meta) [ none ↦ true | some v ↦ truth v ]

abbrev pub is_pr : LandingMode → Bool
is_pr LandingMode.pr = true
is_pr _ = false

-- A land that returned, or whose job raised.
pub data LandResult : Type 0 where
  returned : LandOutcome → LandResult
  crashed : String → LandResult

abbrev pub crash_outcome : String → LandOutcome
crash_outcome text = record {
  kind = LandKind.transport_failed;
  sha = none;
  detail = fstring ("land job crashed: " ∷ text ∷ []);
  conflicts = [];
  dropped_commits = [];
  pr_url = none;
  remote = none;
  pushed = none;
  retryable = false;
  loc = none;
}

abbrev pub watch_of : String → Dict Bool → Bool
watch_of label watch = elim (lookup label watch) [ none ↦ false | some armed ↦ armed ]

abbrev pub progress_of : Option TaskRow → ℕ
progress_of none = 0
progress_of (some r) = r.attempts_without_progress

-- The transition of a git phase's result, with or without a workflow.
unfoldable pub landed_by : AttemptRef → Outcome → SubmitPolicy → LandOutcome → Result Transition
unfolding on_workflow_land on_land_result
landed_by ref o policy result =
    if is_some policy.workflow_step
    then on_workflow_land ref o result policy
    else on_land_result ref o result policy

unfoldable pub split_by : AttemptRef → Outcome → SubmitPolicy → List String → Result Transition
unfolding on_workflow_split on_split_result
split_by ref o policy created =
    if is_some policy.workflow_step
    then on_workflow_split ref o created policy
    else ok (on_split_result ref o created)

abbrev pub retains : SubmitPolicy → Bool
retains policy = elim policy.workflow_step [ none ↦ false | some step ↦ step.evergreen ]

abbrev pub submitted : Job → World → World
submitted job w = record w { jobs = w.jobs ++ (job ∷ []) }

-- A job of which the caller awaits the result.
abbrev pub await : {A : Type 0} → (List Job → Job → Result A) → Job → Action A
await answer job w = from_result (answer w.jobs job) (submitted job w)

abbrev pub or_refuse : Option (Dict Json) → Action (Dict Json)
or_refuse none = refuse 409 stale_submit
or_refuse (some answer) = pure answer
