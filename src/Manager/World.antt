-- ===== src/Manager/World.antt =====
-- The state that the handlers of src/nightshift/manager/api_worker.py and app.py share, and what the world
-- outside answers them. A handler is an action on that state; what it wrote stays written when it
-- raises.
use nightshift.Base.{ℕ, String, Bool, Option, List, ℤ, Dict, Json, Result, Error, ok, err}
use nightshift.Lifecycle.{FrontmatterFlag, LandOutcome, LandingMode, Outcome, TransitionEvent}
use nightshift.Workflows.Step.{WorkflowDef}
use nightshift.Store.{Store, WorkerTable, QueueState}

-- The arguments of a land, or of an adopt check.
pub record LandRequest : Type 0 where
  pub repo : Option String
  pub task : String
  pub title : String
  pub queue : Option String
  pub base_ref : Option String
  pub landing_mode : LandingMode
  pub automerge : Bool
  pub draft : Bool
  pub branch_ref : Option String
  pub head_sha : Option String
  pub attempt_id : Option String

-- What is submitted to the executor of a repository.
pub data Job : Type 0 where
  flag_job : Option String → String → FrontmatterFlag → Job
  artifact_job : Option String → String → String → String → Job
  reset_job : Option String → String → Job
  engine_meta_job : Option String → String → Dict Json → Job
  drop_job : Option String → String → Job
  harvest_job : (repo : Option String) (task : String) (queue : Option String) (retain : Bool) → Job
  adopt_job : LandRequest → Job
  land_job : LandRequest → Job
  sync_job : (repo : String) → Job

-- An event that is sent to the browsers.
pub record Message : Type 0 where
  pub id : ℕ
  pub event : TransitionEvent

-- `watch` holds the flags of the QueueFailureState of each queue, `cooldowns` the expiry for a worker
-- and a queue, `resolves` the repositories of the resolve processes, `repo_warnings` the queues
-- that were warned of an absent repository, `jobs` the jobs submitted so far and `sent` the
-- broadcasts.
pub record World : Type 0 where
  pub store : Store
  pub workers : WorkerTable
  pub queues : Dict QueueState
  pub watch : Dict Bool
  pub cooldowns : List ((String × String) × ℕ)
  pub resolves : Dict (Option String)
  pub repo_warnings : List (Option String)
  pub jobs : List Job
  pub sent : List Message

-- An answer, an HTTPException with its status, or another exception.
pub data Reply {ℓ} (A : Type ℓ) : Type ℓ where
  done : A → Reply A
  refused : ℕ → String → Reply A
  raised : Error → Reply A

abbrev pub Action : Type 0 → Type 0
Action A = World → Reply A × World

infixl 5 ◌>>=◌ ◌>>◌
abbrev pub ◌>>=◌ : {A B : Type 0} → Action A → (A → Action B) → Action B
◌>>=◌ m f w =
    let (r, w') = m w in
    elim r [
      | done a ↦ f a w'
      | refused status detail ↦ (refused status detail, w')
      | raised e ↦ (raised e, w')
    ]

abbrev pub ◌>>◌ : {A B : Type 0} → Action A → Action B → Action B
m >> k = m >>= λ _. k

module _ {A : Type 0} where
  abbrev pub pure : A → Action A
  pure a w = (done a, w)

  abbrev pub refuse : ℕ → String → Action A
  refuse status detail w = (refused status detail, w)

  abbrev pub from_result : Result A → Action A
  from_result (ok a) w = (done a, w)
  from_result (err e) w = (raised e, w)

abbrev pub modify : (World → World) → Action (Unit {0})
modify f w = (done tt, f w)

-- `with contextlib.suppress(Exception)`
abbrev pub suppress : Action (Unit {0}) → Action (Unit {0})
suppress m w = let (r, w') = m w in (done tt, w')

-- The settings of the manager that the handlers read.
pub record ManagerConfig : Type 0 where
  pub quarantine_threshold : ℕ
  pub retry_backoff_seconds : ℕ
  pub landing_mode : LandingMode
  pub auto_resolve : Bool
  pub max_concurrent_resolves : ℕ
  pub resolve_backend : Option String
  pub resolve_model : Option String
  pub rendezvous_remote : Option String

-- What is read from the outside: the clock, the files of the content store, the loaded workflows,
-- and how the jobs (after those before them), git and the resolve processes turn out. `repr` is
-- Python's `str` of a value that is not a text, a whole number or a Boolean.
pub record Outside : Type 0 where
  pub now : ℕ
  pub new_run_id : String
  pub brief : Option String → String → Option String
  pub evergreen_tasks : Option String → List String
  pub workflows : Dict WorkflowDef
  pub repr : Json → String
  pub run_job : List Job → Job → Result (Unit {0})
  pub harvested : List Job → Job → Result (List String)
  pub adopted : List Job → Job → Result LandOutcome
  pub code_loc : Option String → String → Result ℤ
  pub exited : String → Bool
  pub spawned : String → Bool

-- The outcome that a worker submits, with the lease and the task that it is for.
pub record SubmitBody : Type 0 where
  pub outcome : Outcome
  pub worker_id : String
  pub lease_id : String
  pub task : String
  pub queue : Option String
  pub title : String
  pub quarantine : Bool
