-- ===== src/Lifecycle/Effects.antt =====
-- src/nightshift/lifecycle.py, lines 324-556: what a transition function reads and what it returns.
use nightshift.Base.{ℕ, String, Bool, false, Option, none, List, [], Dict, ℤ, Json}
use nightshift.Workflows.Step.{StepKind}
use nightshift.Lifecycle.Vocabulary.{AttemptState, TaskHoldKind}
use nightshift.Lifecycle.Retry.{RetryPolicy}
use nightshift.Lifecycle.Land.{GitPhase}

pub record AttemptRef : Type 0 where
  pub id : String
  pub queue : Option String
  pub task : String

pub record WorkflowStepPolicy : Type 0 where
  pub workflow : String
  pub step_id : String
  pub kind : StepKind
  pub output : Option String
  pub route_to : String
  pub dest_kind : Option StepKind
  pub dest_visits_exhausted : Bool
  pub evergreen : Bool
  pub visits : Dict ℤ
  pub exhausted_reason : String

pub record SubmitPolicy : Type 0 where
  pub retry : RetryPolicy
  pub attempts_without_progress : ℕ
  pub was_retry : Bool
  pub watch_armed : Bool
  pub queue_paused : Bool
  pub split : Bool
  pub evergreen : Bool
  pub auto_resolve : Bool
  pub pr_mode : Bool
  pub workflow_step : Option WorkflowStepPolicy

pub record TaskHold : Type 0 where
  pub kind : TaskHoldKind
  pub reason : Option String
  pub retry_eligible : Bool

pub record FrontmatterFlag : Type 0 where
  pub key : String
  pub value : Bool
  pub reason_key : Option String
  pub reason : Option String

-- `unchanged` is `Progress.NONE`.
pub data Progress : Type 0 where
  unchanged increment reset : Progress

pub record TaskEffects : Type 0 where
  pub hold : Option TaskHold
  pub clear_hold : Bool
  pub progress : Progress
  pub next_eligible_in : Option ℕ
  pub worker_cooldown : Bool
  pub frontmatter : List FrontmatterFlag
  pub watch_armed : Option Bool
  pub pause_queue : Option String
  pub drop_brief : Bool
  pub start_resolve : Bool
  pub write_artifact : Option (String × String)
  pub engine_meta : Option (Dict Json)
  pub workflow_reset : Bool

-- `TaskEffects()`: the defaults of the fields.
abbrev pub no_effects : TaskEffects
no_effects = record {
  hold = none;
  clear_hold = false;
  progress = Progress.unchanged;
  next_eligible_in = none;
  worker_cooldown = false;
  frontmatter = [];
  watch_armed = none;
  pause_queue = none;
  drop_brief = false;
  start_resolve = false;
  write_artifact = none;
  engine_meta = none;
  workflow_reset = false;
}

pub record TransitionEvent : Type 0 where
  pub kind : String
  pub run_id : Option String
  pub queue : Option String
  pub task : Option String
  pub payload : Option (Dict Json)

pub record Transition : Type 0 where
  pub ref : AttemptRef
  pub fields : Dict Json
  pub state : AttemptState
  pub effects : TaskEffects
  pub events : List TransitionEvent
  pub response : Dict Json

-- What the submit table answers: a transition to apply, or the git work to do first.
pub data Submitted : Type 0 where
  apply : Transition → Submitted
  phase : GitPhase → Submitted
